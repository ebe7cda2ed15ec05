-- ===== src/Macro/Parse/Sample.antt =====
-- Parsers that behave as those of the crate syn are documented to, on tokens that are words, signs and
-- brackets, an expression being one word.
use qemu_test.Prelude.{
  ℕ, zero, suc, ◌≤◌, ◌≡◌, refl, ap, ◌∙◌, Option, some, none, List, [], ◌∷◌, Text, codes, length,
  any, text_eq, Bool, false, if◌then◌else◌, arith, Result, ok, err, bail, ◌>>=◌,
}
use qemu_test.Macro.Parse.{Parser, Syn}
use qemu_test.Macro.Parse.Written.{Documented}

mutual
  pub data Token : Type 0 where
    word : Text → Token
    equals : Token
    comma : Token
    brace : Tokens → Token
    bracket : Tokens → Token

  pub data Tokens : Type 0 where
    nil : Tokens
    cons : Token → Tokens → Tokens

abbrev pub of_list : List Token → Tokens
of_list [] = nil
of_list (t ∷ ts) = cons t (of_list ts)

abbrev pub to_list : Tokens → List Token
to_list nil = []
to_list (cons t ts) = t ∷ to_list ts

pub to_list-of_list : (ts : List Token) → to_list (of_list ts) ≡ ts
to_list-of_list [] = refl
to_list-of_list (t ∷ ts) = ap (λ us. t ∷ us) (to_list-of_list ts)

abbrev pub parse_word : Parser Token Text
parse_word (word x ∷ rest) = ok (x, rest)
parse_word _ = bail (codes "expected an expression")

-- keywords that are no identifiers
abbrev pub keywords : List Text
keywords = codes "fn" ∷ codes "let" ∷ codes "type" ∷ codes "crate" ∷ []

abbrev pub is_keyword : Text → Bool
is_keyword x = any (text_eq x) keywords

abbrev pub parse_name : Parser Token Text
parse_name (word x ∷ rest) =
    if is_keyword x then bail (codes "expected identifier") else ok (x, rest)
parse_name _ = bail (codes "expected identifier")

abbrev pub parse_equals : Parser Token (Unit {0})
parse_equals (equals ∷ rest) = ok (tt, rest)
parse_equals _ = bail (codes "expected `=`")

abbrev pub in_braces : List Token → Option (List Token × List Token)
in_braces (brace inner ∷ rest) = some (to_list inner, rest)
in_braces _ = none

abbrev pub in_brackets : List Token → Option (List Token × List Token)
in_brackets (bracket inner ∷ rest) = some (to_list inner, rest)
in_brackets _ = none

module _ {A : Type 0} where
  -- behind an element
  abbrev pub after : (List Token → Result (List A)) → A × List Token → Result (List A)
  after more (a, []) = ok (a ∷ [])
  after more (a, comma ∷ rest) = more rest >>= λ bs. ok (a ∷ bs)
  after more (a, _) = bail (codes "expected `,`")

  abbrev pub terminated : ℕ → Parser Token A → List Token → Result (List A)
  terminated zero p ts = bail (codes "out of tokens")
  terminated (suc n) p [] = ok []
  terminated (suc n) p (t ∷ ts) = p (t ∷ ts) >>= after (terminated n p)

  after_mono :
      (f g : List Token → Result (List A)) (a : A) (rest : List Token) (bs : List A)
      → ((ts : List Token) (cs : List A) → f ts ≡ ok cs → g ts ≡ ok cs)
      → after f (a, rest) ≡ ok bs
      → after g (a, rest) ≡ ok bs
  after_mono f g a [] bs k e = e
  after_mono f g a (word x ∷ rest) bs k e = cc
  after_mono f g a (equals ∷ rest) bs k e = cc
  after_mono f g a (brace x ∷ rest) bs k e = cc
  after_mono f g a (bracket x ∷ rest) bs k e = cc
  after_mono f g a (comma ∷ rest) bs k e = by_more (f rest) refl
    where
      by_more : (r : Result (List A)) → f rest ≡ r → after g (a, comma ∷ rest) ≡ ok bs
      by_more (err x) q = absurd (cc (rw q at e))
      by_more (ok cs) q = rw (k rest cs q) (rw q at e)

  step_mono :
      (f g : List Token → Result (List A)) (r : Result (A × List Token)) (bs : List A)
      → ((ts : List Token) (cs : List A) → f ts ≡ ok cs → g ts ≡ ok cs)
      → r >>= after f ≡ ok bs
      → r >>= after g ≡ ok bs
  step_mono f g (err x) bs k e = e
  step_mono f g (ok (a, rest)) bs k e = after_mono f g a rest bs k e

  pub terminated_mono :
      (n m : ℕ) (p : Parser Token A) (ts : List Token) (bs : List A)
      → n ≤ m
      → terminated n p ts ≡ ok bs
      → terminated m p ts ≡ ok bs
  terminated_mono zero m p ts bs le e = cc
  terminated_mono (suc n) zero p ts bs le e = absurd (omega arith)
  terminated_mono (suc n) (suc m) p [] bs le e = e
  terminated_mono (suc n) (suc m) p (t ∷ ts) bs le e =
      step_mono (terminated n p) (terminated m p) (p (t ∷ ts)) bs
        (λ us cs. terminated_mono n m p us cs (omega arith)) e

abbrev pub syn : Syn Token Text
syn = record {
  parse_ident = parse_name;
  parse_eq = parse_equals;
  parse_expr = parse_word;
  braced = in_braces;
  bracketed = in_brackets;
  parse_terminated = λ p ts. terminated (suc (length ts)) p ts;
}

abbrev pub documented : Documented syn
documented = record {
  ident = word;
  eq = equals;
  comma = comma;
  braces = λ inner. brace (of_list inner);
  brackets = λ inner. bracket (of_list inner);
  first = word;
  more = λ e. [];
  IsIdent = λ name. is_keyword name ≡ false;
  ident_lem = λ name ident rest. rw ident refl;
  eq_lem = λ rest. refl;
  expr_end_lem = λ e. refl;
  expr_comma_lem = λ e rest. refl;
  braces_lem = λ inner rest. ap (λ ts. some (ts, rest)) (to_list-of_list inner);
  brackets_lem = λ inner rest. (refl, ap (λ ts. some (ts, rest)) (to_list-of_list inner));
  empty_lem = λ p. refl;
  last_lem = λ p t ts a e. ap (λ r. r >>= after (terminated (suc (length ts)) p)) e;
  comma_lem = λ p t ts rest a bs le e more.
      ap (λ r. r >>= after (terminated (suc (length ts)) p)) e
      ∙ ap (λ r. r >>= λ cs. ok (a ∷ cs))
          (terminated_mono (suc (length rest)) (suc (length ts)) p rest bs (omega arith) more);
}
