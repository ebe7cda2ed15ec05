-- ===== src/Macro/Parse/Written.antt =====
-- `#[test_fn(…)]` as it is written, and what test-macro/src/lib.rs reads of it.
use qemu_test.Prelude.{
  ◌≡◌, refl, ap, subst, ◌⊎◌, inl, inr, Bool, true, false, some, none, List, [], ◌∷◌, ◌++◌, map,
  Text, if◌then◌else◌, length, length-append, ◌≤◌, arith, All, Result, ok,
}
use qemu_test.Macro.{ParamSpec}
use qemu_test.Macro.Parse.{Parser, Syn, parse_values, parse}

-- What the parsers of the crate syn do on tokens that are written as a parameter is.
pub record Documented {Token Expr : Type 0} (s : Syn Token Expr) : Type 1 where
  pub ident : Text → Token
  pub eq : Token
  pub comma : Token
  -- a bracket with the tokens inside
  pub braces : List Token → Token
  pub brackets : List Token → Token
  -- the tokens of an expression, the first one apart
  pub first : Expr → Token
  pub more : Expr → List Token
  -- a text that is an identifier, and no keyword
  pub IsIdent : Text → Type 0
  pub ident_lem :
      (name : Text)
      → IsIdent name
      → (rest : List Token) → s.parse_ident (ident name ∷ rest) ≡ ok (name, rest)
  pub eq_lem : (rest : List Token) → s.parse_eq (eq ∷ rest) ≡ ok (tt, rest)
  -- an expression ends at the end of the tokens, and before a comma
  pub expr_end_lem : (e : Expr) → s.parse_expr (first e ∷ (more e ++ [])) ≡ ok (e, [])
  pub expr_comma_lem :
      (e : Expr) (rest : List Token)
      → s.parse_expr (first e ∷ (more e ++ comma ∷ rest)) ≡ ok (e, comma ∷ rest)
  pub braces_lem : (inner rest : List Token) → s.braced (braces inner ∷ rest) ≡ some (inner, rest)
  pub brackets_lem :
      (inner rest : List Token)
      → (s.braced (brackets inner ∷ rest) ≡ none)
        × (s.bracketed (brackets inner ∷ rest) ≡ some (inner, rest))
  -- a list may end with a comma; each element takes at least one token
  pub empty_lem : {A : Type 0} (p : Parser Token A) → s.parse_terminated p [] ≡ ok []
  pub last_lem :
      {A : Type 0} (p : Parser Token A) (t : Token) (ts : List Token) (a : A)
      → p (t ∷ ts) ≡ ok (a, [])
      → s.parse_terminated p (t ∷ ts) ≡ ok (a ∷ [])
  pub comma_lem :
      {A : Type 0} (p : Parser Token A) (t : Token) (ts rest : List Token) (a : A) (bs : List A)
      → length rest ≤ length ts
      → p (t ∷ ts) ≡ ok (a, comma ∷ rest)
      → s.parse_terminated p rest ≡ ok bs
      → s.parse_terminated p (t ∷ ts) ≡ ok (a ∷ bs)

-- a parameter as it is written, with whether a list ends with a comma
pub data Annotation (Expr : Type 0) : Type 0 where
  single : Text → Expr → Annotation Expr
  several : Text → List Expr → Bool → Annotation Expr
  optional : Text → List Expr → Bool → Annotation Expr

abbrev pub meaning : {Expr : Type 0} → Annotation Expr → ParamSpec Expr
meaning (single name e) = record { name = name; values = e ∷ []; optional = false }
meaning (several name es trailing) = record { name = name; values = es; optional = false }
meaning (optional name es trailing) = record { name = name; values = es; optional = true }

abbrev pub name_of : {Expr : Type 0} → Annotation Expr → Text
name_of (single name e) = name
name_of (several name es trailing) = name
name_of (optional name es trailing) = name

module _ {Token Expr : Type 0} (s : Syn Token Expr) (d : Documented s) where
  -- what follows a part of a list
  abbrev pub IsEnd : List Token → Type 0
  IsEnd rest = (rest ≡ []) ⊎ ((ts : List Token) × (rest ≡ d.comma ∷ ts))

  -- a list of parts, each with its first token
  abbrev pub listed : {A : Type 0} → (A → Token) → (A → List Token) → Bool → List A → List Token
  listed head tail trailing [] = []
  listed head tail trailing (x ∷ []) = head x ∷ (tail x ++ (if trailing then d.comma ∷ [] else []))
  listed head tail trailing (x ∷ y ∷ xs) =
      head x ∷ (tail x ++ d.comma ∷ listed head tail trailing (y ∷ xs))

  -- what is left behind a part is shorter
  shorter : (xs rest : List Token) → length rest ≤ length (xs ++ d.comma ∷ rest)
  shorter xs rest = rw (length-append xs (d.comma ∷ rest)) (omega arith)

  listed-parse :
      {A B : Type 0} (p : Parser Token B) (head : A → Token) (tail : A → List Token) (g : A → B)
      (P : A → Type 0)
      → ((x : A)
          → P x
          → (rest : List Token) → IsEnd rest
          → p (head x ∷ (tail x ++ rest)) ≡ ok (g x, rest))
      → (trailing : Bool) (xs : List A) → All P xs
      → s.parse_terminated p (listed head tail trailing xs) ≡ ok (map g xs)
  listed-parse p head tail g P reads trailing [] a = d.empty_lem p
  listed-parse p head tail g P reads false (x ∷ []) (a, _) =
      d.last_lem p (head x) (tail x ++ []) (g x) (reads x a [] (inl refl))
  listed-parse p head tail g P reads true (x ∷ []) (a, _) =
      d.comma_lem p (head x) (tail x ++ d.comma ∷ []) [] (g x) [] (shorter (tail x) [])
        (reads x a (d.comma ∷ []) (inr ([], refl))) (d.empty_lem p)
  listed-parse p head tail g P reads trailing (x ∷ y ∷ xs) (a, rest_a) =
      let rest = listed head tail trailing (y ∷ xs) in
      d.comma_lem p (head x) (tail x ++ d.comma ∷ rest) rest (g x) (map g (y ∷ xs))
        (shorter (tail x) rest) (reads x a (d.comma ∷ rest) (inr (rest, refl)))
        (listed-parse p head tail g P reads trailing (y ∷ xs) rest_a)

  expr_reads :
      (e : Expr)
      → Unit {0}
      → (rest : List Token) → IsEnd rest
      → s.parse_expr (d.first e ∷ (d.more e ++ rest)) ≡ ok (e, rest)
  expr_reads e _ rest (inl q) = rw q (d.expr_end_lem e)
  expr_reads e _ rest (inr (ts, q)) = rw q (d.expr_comma_lem e ts)

  exprs_read :
      (trailing : Bool) (es : List Expr)
      → s.parse_terminated s.parse_expr (listed d.first d.more trailing es) ≡ ok es
  exprs_read trailing es =
      subst (λ xs. s.parse_terminated s.parse_expr (listed d.first d.more trailing es) ≡ ok xs)
        (map_id es)
        (listed-parse s.parse_expr d.first d.more (λ e. e) (λ e. Unit {0}) expr_reads trailing es
          (any es))
    where
      map_id : (xs : List Expr) → map (λ e. e) xs ≡ xs
      map_id [] = refl
      map_id (x ∷ xs) = ap (λ ys. x ∷ ys) (map_id xs)

      any : (xs : List Expr) → All (λ (e : Expr). Unit {0}) xs
      any [] = tt
      any (x ∷ xs) = (tt, any xs)

  -- the tokens of the values of a parameter
  abbrev pub value_head : Annotation Expr → Token
  value_head (single name e) = d.first e
  value_head (several name es trailing) = d.braces (listed d.first d.more trailing es)
  value_head (optional name es trailing) = d.brackets (listed d.first d.more trailing es)

  abbrev pub value_tail : Annotation Expr → List Token
  value_tail (single name e) = d.more e
  value_tail (several name es trailing) = []
  value_tail (optional name es trailing) = []

  -- a single value starts with no brace and no bracket
  abbrev pub IsPlain : Annotation Expr → Type 0
  IsPlain (single name e) =
      (rest : List Token)
      → (s.braced (d.first e ∷ rest) ≡ none) × (s.bracketed (d.first e ∷ rest) ≡ none)
  IsPlain (several name es trailing) = Unit
  IsPlain (optional name es trailing) = Unit

  -- its name is an identifier
  abbrev pub IsWritten : Annotation Expr → Type 0
  IsWritten a = d.IsIdent (name_of a) × IsPlain a

  values_read :
      (a : Annotation Expr)
      → IsPlain a
      → (rest : List Token) → IsEnd rest
      → parse_values s (value_head a ∷ (value_tail a ++ rest))
        ≡ ok (((meaning a).values, (meaning a).optional), rest)
  unfolding parse_values
  values_read (single name e) plain rest end =
      let (b, k) = plain (d.more e ++ rest) in
      rw (parse_values, b, k, expr_reads e tt rest end) refl
  values_read (several name es trailing) plain rest end =
      rw
        (
          parse_values,
          d.braces_lem (listed d.first d.more trailing es) rest,
          exprs_read trailing es,
        )
        refl
  values_read (optional name es trailing) plain rest end =
      let (b, k) = d.brackets_lem (listed d.first d.more trailing es) rest in
      rw (parse_values, b, k, exprs_read trailing es) refl

  -- the tokens of a parameter behind its name
  abbrev pub spec_tail : Annotation Expr → List Token
  spec_tail a = d.eq ∷ value_head a ∷ value_tail a

  spec_reads :
      (a : Annotation Expr)
      → IsWritten a
      → (rest : List Token) → IsEnd rest
      → parse s (d.ident (name_of a) ∷ (spec_tail a ++ rest)) ≡ ok (meaning a, rest)
  unfolding parse
  spec_reads a (ident, plain) rest end =
      let v = values_read a plain rest end in
      rw
        (
          parse,
          d.ident_lem (name_of a) ident (spec_tail a ++ rest),
          d.eq_lem (value_head a ∷ (value_tail a ++ rest)),
          v,
        )
        (meant a)
    where
      meant :
          (a : Annotation Expr)
          → ◌≡◌ {A = Result (ParamSpec Expr × List Token)}
              (ok (
                record {
                  name = name_of a;
                  values = (meaning a).values;
                  optional = (meaning a).optional;
                },
                rest,
              ))
              (ok (meaning a, rest))
      meant (single name e) = refl
      meant (several name es trailing) = refl
      meant (optional name es trailing) = refl

  -- the tokens of an attribute
  abbrev pub written : Bool → List (Annotation Expr) → List Token
  written trailing annotations = listed (λ a. d.ident (name_of a)) spec_tail trailing annotations

  pub written-terminated :
      (trailing : Bool) (annotations : List (Annotation Expr))
      → All IsWritten annotations
      → s.parse_terminated (parse s) (written trailing annotations) ≡ ok (map meaning annotations)
  written-terminated trailing annotations writes =
      listed-parse (parse s) (λ a. d.ident (name_of a)) spec_tail meaning IsWritten spec_reads
        trailing annotations writes
