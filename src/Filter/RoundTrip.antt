-- ===== src/Filter/RoundTrip.antt =====
-- Tokens and the text of TEST_FILTER that they are joined to, of src/util.rs.
use qemu_test.Prelude.{
  ℕ, ◌+◌, length, inl, inr, Bool-cases, true, false, ◌≡◌, ◌≢◌, refl, sym, ap, ◌||◌, List, [], ◌∷◌,
  ◌++◌, map, ◌==◌, All, Text, codes, split, join, Lacks, split-join, ok, arith,
}
use qemu_test.Regex.{Engine, Matches}
use qemu_test.Regex.Derivative.{nullable, Matches-nil}
use qemu_test.Regex.Classes.{Over, Matches-All}
use qemu_test.Filter.{TestFilter, is_token_char, words, filter_token_pattern, parse}
use qemu_test.Filter.Parse.{is_negative, value, IsToken, includes, excludes, parse_iff}

-- a lowercase letter, a digit, `_` or `=`
abbrev pub IsTokenChar : ℕ → Type 0
IsTokenChar c = (is_token_char c || (c == b'_') || (c == b'=')) ≡ true

words-Over : Over IsTokenChar words
words-Over =
    let letter : (c : ℕ) → is_token_char c ≡ true → IsTokenChar c = λ c h. ground arith in
    ((letter, letter), ((λ c h. ground arith), (letter, letter)))

pub token-IsTokenChar : {s : Text} → Matches filter_token_pattern s → All IsTokenChar s
token-IsTokenChar m =
    Matches-All IsTokenChar filter_token_pattern
      (words-Over, (((λ c h. ground arith), words-Over), tt)) m

value_positive : (s : Text) → is_negative s ≡ false → value s ≡ s
value_positive [] h = refl
value_positive (c ∷ s) h = ground arith

abbrev pub negate : Text → Text
negate value = b'-' ∷ value

Lacks-comma : (s : Text) → All IsTokenChar s → Lacks b',' s
Lacks-comma [] h = tt
Lacks-comma (c ∷ s) (hc, hs) = (ground arith, Lacks-comma s hs)

positive : (s : Text) → All IsTokenChar s → (is_negative s ≡ false) × (value s ≡ s)
positive [] h = (refl, refl)
positive (c ∷ s) (hc, hs) = ground arith

abbrev pub AreTokens : List Text → Type 0
AreTokens = All (Matches filter_token_pattern)

-- the parts that TEST_FILTER has for a filter
abbrev pub tokens_of : List Text → List Text → List Text
tokens_of include exclude = include ++ map negate exclude

tokens-Lacks : (i e : List Text) → AreTokens i → AreTokens e → All (Lacks b',') (tokens_of i e)
tokens-Lacks [] [] _ _ = tt
tokens-Lacks [] (t ∷ e) hi (h, he) =
    let minus : b'-' ≢ b',' = omega arith in
    ((minus, Lacks-comma t (token-IsTokenChar h)), tokens-Lacks [] e hi he)
tokens-Lacks (t ∷ i) e (h, hi) he = (Lacks-comma t (token-IsTokenChar h), tokens-Lacks i e hi he)

tokens-IsToken : (i e : List Text) → AreTokens i → AreTokens e → All IsToken (tokens_of i e)
tokens-IsToken [] [] _ _ = tt
tokens-IsToken [] (t ∷ e) hi (h, he) = (h, tokens-IsToken [] e hi he)
tokens-IsToken (t ∷ i) e (h, hi) he =
    (rw (positive t (token-IsTokenChar h)).1 h, tokens-IsToken i e hi he)

includes-tokens : (i e : List Text) → AreTokens i → includes (tokens_of i e) ≡ i
includes-tokens [] [] _ = refl
includes-tokens [] (t ∷ e) hi = includes-tokens [] e hi
includes-tokens (t ∷ i) e (h, hi) =
    rw (positive t (token-IsTokenChar h)).0 (ap (λ r. t ∷ r) (includes-tokens i e hi))

excludes-tokens : (i e : List Text) → AreTokens i → excludes (tokens_of i e) ≡ e
excludes-tokens [] [] _ = refl
excludes-tokens [] (t ∷ e) hi = ap (λ r. t ∷ r) (excludes-tokens [] e hi)
excludes-tokens (t ∷ i) e (h, hi) = rw (positive t (token-IsTokenChar h)).0 (excludes-tokens i e hi)

-- Any tokens to include and to exclude, at least one in all, are read back from the filter text
-- that joins them by commas, those to exclude behind `-`.
pub parse-join :
    (re : Engine) (include exclude : List Text)
    → tokens_of include exclude ≢ []
    → AreTokens include
    → AreTokens exclude
    → parse re (join (tokens_of include exclude) (codes ","))
      ≡ ok (record { include = include; exclude = exclude })
parse-join re i e ne hi he =
    let parts = split-join (tokens_of i e) b',' ne (tokens-Lacks i e hi he) in
    (parse_iff re _ _).1 (
      rw parts
        (tokens-IsToken i e hi he, sym (includes-tokens i e hi), sym (excludes-tokens i e hi)))

-- what every value of a parsed filter is
abbrev pub IsWord : Text → Type 0
IsWord s = (s ≢ []) × All IsTokenChar s

token-IsWord : {s : Text} → Matches filter_token_pattern s → IsWord s
unfolding nullable
token-IsWord m = ((λ e. cc (Matches-nil m e)), token-IsTokenChar m)

words_of_parts :
    (tokens : List Text)
    → All IsToken tokens
    → All IsWord (includes tokens) × All IsWord (excludes tokens)
words_of_parts [] h = (tt, tt)
words_of_parts (t ∷ ts) (h, hs) = elim (Bool-cases (is_negative t)) [
  | inl e ↦ rw e ((words_of_parts ts hs).0, (token-IsWord h, (words_of_parts ts hs).1))
  | inr e ↦ rw e (
    (rw (value_positive t e) at (token-IsWord h), (words_of_parts ts hs).0),
    (words_of_parts ts hs).1,
  )
]

count_parts :
    (tokens : List Text) → length (includes tokens) + length (excludes tokens) ≡ length tokens
count_parts [] = omega arith
count_parts (t ∷ ts) = elim (Bool-cases (is_negative t)) [
  | inl e ↦ rw e (omega (arith, count_parts ts))
  | inr e ↦ rw e (omega (arith, count_parts ts))
]

-- Every value of a parsed filter is a non-empty text of lowercase letters, digits, `_` and `=`, and
-- the filter has one value, to include or to exclude, for each part between commas.
pub parse-IsWord :
    (re : Engine) (raw : Text) (f : TestFilter)
    → parse re raw ≡ ok f
    → All IsWord f.include
      × All IsWord f.exclude
      × (length f.include + length f.exclude ≡ length (split raw b','))
parse-IsWord re raw f h =
    let (valid, i, e) = (parse_iff re raw f).0 h in
    let (wi, we) = words_of_parts (split raw b',') valid in
    (rw i wi, rw e we, rw (i, e) (count_parts (split raw b',')))
