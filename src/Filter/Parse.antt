-- ===== src/Filter/Parse.antt =====
-- `TestFilter::parse` of src/util.rs.
use qemu_test.Prelude.{
  Bool, false, ◌≡◌, ap, ◌∙◌, ◌↔◌, inl, inr, not, List, [], ◌∷◌, ◌++◌, map, append_assoc, append-nil,
  ◌==◌, if◌then◌else◌, Bool-cases, keep, All, Text, split, ok, bail, arith,
}
use qemu_test.Regex.{Engine, Matches}
use qemu_test.Filter.{
  TestFilter, filter_token_pattern, invalid_token, push_token, push_tokens, parse,
}

-- A token behind `-` excludes; the rest of it is its value.
abbrev pub is_negative : Text → Bool
is_negative [] = false
is_negative (c ∷ s) = c == b'-'

abbrev pub value : Text → Text
value [] = []
value (c ∷ s) = if c == b'-' then s else c ∷ s

abbrev pub IsToken : Text → Type 0
IsToken token = Matches filter_token_pattern (value token)

abbrev pub includes : List Text → List Text
includes tokens = keep (λ t. not (is_negative t)) tokens

abbrev pub excludes : List Text → List Text
excludes tokens = map value (keep is_negative tokens)

-- the filter with the values of more tokens
extend : TestFilter → List Text → TestFilter
extend f tokens = record {
  include = f.include ++ includes tokens;
  exclude = f.exclude ++ excludes tokens;
}

extend-nil : (f : TestFilter) → extend f [] ≡ f
unfolding extend
extend-nil f = ground (arith, append-nil f.include, append-nil f.exclude)

extend-cons :
    (f : TestFilter) (token : Text) (tokens : List Text)
    → extend (extend f (token ∷ [])) tokens ≡ extend f (token ∷ tokens)
unfolding extend
extend-cons f token tokens = elim (Bool-cases (is_negative token)) [
  | inl e ↦ rw e (
      ground
        (arith, append-nil f.include, append_assoc f.exclude (value token ∷ []) (excludes tokens)))
  | inr e ↦
      rw e (
        ground (arith, append-nil f.exclude, append_assoc f.include (token ∷ []) (includes tokens)))
]

module _ (re : Engine) where
  push_token_lem :
      (f : TestFilter) (token : Text)
      → push_token re f token ≡ (
          if re.is_match filter_token_pattern (value token)
          then ok (extend f (token ∷ []))
          else bail (invalid_token token))
  unfolding push_token extend
  push_token_lem f [] = ground (arith, append-nil f.exclude)
  push_token_lem f (c ∷ s) = ground (arith, append-nil f.exclude, append-nil f.include)

  push_token_valid :
      (f : TestFilter) (token : Text)
      → IsToken token
      → push_token re f token ≡ ok (extend f (token ∷ []))
  push_token_valid f token h =
      push_token_lem f token ∙ (rw ((re.is_match_iff filter_token_pattern (value token)).1 h))

  push_token_invalid :
      (f : TestFilter) (token : Text)
      → ¬ IsToken token
      → push_token re f token ≡ bail (invalid_token token)
  push_token_invalid f token h =
      elim (Bool-cases (re.is_match filter_token_pattern (value token))) [
        | inl e ↦ absurd (h ((re.is_match_iff filter_token_pattern (value token)).0 e))
        | inr e ↦ push_token_lem f token ∙ rw e
      ]

  push_tokens_valid :
      (f : TestFilter) (tokens : List Text)
      → All IsToken tokens
      → push_tokens re f tokens ≡ ok (extend f tokens)
  unfolding push_tokens
  push_tokens_valid f [] h = rw extend-nil
  push_tokens_valid f (token ∷ tokens) (h, hs) =
      rw (push_token_valid f token h)
        (push_tokens_valid (extend f (token ∷ [])) tokens hs ∙ ap ok (extend-cons f token tokens))

  push_tokens_invalid :
      (f : TestFilter) (before : List Text) (token : Text) (after : List Text)
      → All IsToken before
      → ¬ IsToken token
      → push_tokens re f (before ++ token ∷ after) ≡ bail (invalid_token token)
  unfolding push_tokens
  push_tokens_invalid f [] token after _ h = rw (push_token_invalid f token h)
  push_tokens_invalid f (b ∷ before) token after (hb, hs) h =
      rw (push_token_valid f b hb) (push_tokens_invalid (extend f (b ∷ [])) before token after hs h)

  push_tokens_ok :
      (f g : TestFilter) (tokens : List Text) → push_tokens re f tokens ≡ ok g → All IsToken tokens
  unfolding push_tokens
  push_tokens_ok f g [] h = tt
  push_tokens_ok f g (token ∷ tokens) h =
      elim (Bool-cases (re.is_match filter_token_pattern (value token))) [
        | inl e ↦
            let v = (re.is_match_iff filter_token_pattern (value token)).0 e in
            (
              v,
              push_tokens_ok (extend f (token ∷ [])) g tokens
                  (rw (push_token_valid f token v) at h),
            )
        | inr e ↦ absurd (cc (push_token_lem f token, e, h))
      ]

  -- A filter text is accepted exactly when every part between commas is a token, with or without
  -- a leading `-`; the result then holds the parts without `-` and the values of those with it,
  -- each in the order of the text.
  pub parse_iff :
      (raw : Text) (f : TestFilter)
      → (parse re raw ≡ ok f) ↔ (
          All IsToken (split raw b',')
          × (f.include ≡ includes (split raw b','))
          × (f.exclude ≡ excludes (split raw b',')))
  unfolding parse extend
  parse_iff raw f =
      let start : TestFilter = record { include = []; exclude = [] } in
      (
        (λ h.
            let valid = push_tokens_ok start f (split raw b',') h in
            let e : f ≡ extend start (split raw b',') =
              cc (h, push_tokens_valid start (split raw b',') valid) in
            (valid, ap (λ (g : TestFilter). g.include) e, ap (λ (g : TestFilter). g.exclude) e)),
        (λ h. push_tokens_valid start (split raw b',') h.0 ∙ cc (h.1, h.2)),
      )

  -- The first part that is no token is the one that the error names.
  pub parse-invalid :
      (raw : Text) (before : List Text) (token : Text) (after : List Text)
      → split raw b',' ≡ before ++ token ∷ after
      → All IsToken before
      → ¬ IsToken token
      → parse re raw ≡ bail (invalid_token token)
  unfolding parse
  parse-invalid raw before token after e hs h = rw e (push_tokens_invalid _ before token after hs h)
