-- ===== src/Filter.antt =====
-- `TestFilter` of src/util.rs: the value of TEST_FILTER, parsed into the tokens that a label must
-- and must not contain.
pub mod Parse
pub mod RoundTrip
pub mod Select
pub mod Unit
mod Tests
use qemu_test.Prelude.{
  ℕ, Bool, true, false, ◌&&◌, ◌||◌, Option, none, some, List, [], ◌∷◌, ◌++◌, leb, if◌then◌else◌,
  is_none, is_empty, any, Text, codes, contains, split, join, strip_prefix, Result, ok, bail, ◌>>=◌,
}
use qemu_test.Regex.{Regex, Engine, class, char, seq, star, plus, optional}

pub record TestFilter : Type 0 where
  pub include : List Text
  pub exclude : List Text

-- `[a-z0-9]`
abbrev pub is_token_char : ℕ → Bool
is_token_char c = (leb b'a' c && leb c b'z') || (leb b'0' c && leb c b'9')

-- `[a-z0-9]+(_[a-z0-9]+)*`
abbrev pub words : Regex
words = seq (plus (class is_token_char)) (star (seq (char b'_') (plus (class is_token_char))))

-- FILTER_TOKEN_PATTERN, without its anchors
abbrev pub filter_token_pattern : Regex
filter_token_pattern = seq words (optional (seq (char b'=') words))

-- FILTER_TOKEN_PATTERN, as the error message spells it
abbrev pub filter_token_pattern_text : Text
filter_token_pattern_text = codes "^[a-z0-9]+(_[a-z0-9]+)*(=[a-z0-9]+(_[a-z0-9]+)*)?$"

pub invalid_token : Text → Text
invalid_token token =
    codes "invalid filter token: '"
    ++ (token ++ (codes "'. expected " ++ filter_token_pattern_text))

module _ (re : Engine) where
  -- one round of the loop of `TestFilter::parse`
  unfoldable pub push_token : TestFilter → Text → Result TestFilter
  push_token f token = elim (strip_prefix token b'-') [
    | some value ↦
        if re.is_match filter_token_pattern value
        then ok (record f { exclude = f.exclude ++ value ∷ [] })
        else bail (invalid_token token)
    | none ↦
        if re.is_match filter_token_pattern token
        then ok (record f { include = f.include ++ token ∷ [] })
        else bail (invalid_token token)
  ]

  unfoldable pub push_tokens : TestFilter → List Text → Result TestFilter
  unfolding push_token
  push_tokens f [] = ok f
  push_tokens f (token ∷ tokens) = do g ← push_token f token; push_tokens g tokens

  unfoldable pub parse : Text → Result TestFilter
  unfolding push_tokens
  parse raw = push_tokens (record { include = []; exclude = [] }) (split raw b',')

unfoldable pub matches : TestFilter → Text → Option Text → Bool
matches filter label skip_reason =
    if any (λ f. contains label f) filter.exclude
    then false
    else if is_empty filter.include
    then is_none skip_reason
    else any (λ f. contains label f) filter.include

-- `Display`
unfoldable pub fmt : TestFilter → Text
fmt filter =
    (if is_empty filter.include
      then []
      else codes "include: "
        ++ (join filter.include (codes "|")
            ++ (if is_empty filter.exclude then [] else codes ", ")))
    ++ (if is_empty filter.exclude
        then []
        else codes "exclude: " ++ join filter.exclude (codes "|"))
