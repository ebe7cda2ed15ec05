-- ===== src/Filter/Select.antt =====
-- `TestFilter::matches` of src/util.rs.
use qemu_test.Prelude.{
  Bool, true, false, ◌≡◌, refl, ◌↔◌, ◌⊎◌, inl, inr, Option, none, some, List, [], ◌∷◌, Bool-cases,
  any, Any, All, any-eq-true, any_of_Any, any-eq-false, any_of_All, is_empty, is_none, Text,
  contains, arith, if◌then◌else◌,
}
use qemu_test.Filter.{TestFilter, matches}

-- the tokens that stand in a label
abbrev pub Hits : List Text → Text → Type 0
Hits tokens label = Any (λ f. contains label f ≡ true) tokens

abbrev pub Misses : List Text → Text → Type 0
Misses tokens label = All (λ f. contains label f ≡ false) tokens

-- the tests of `matches` behind the one on the excluded tokens
abbrev Wanted : List Text → Text → Option Text → Type 0
Wanted include label skip = Hits include label ⊎ ((include ≡ []) × (skip ≡ none))

abbrev wants : List Text → Text → Option Text → Bool
wants include label skip =
    if is_empty include then is_none skip else any (λ f. contains label f) include

wants_sound :
    (include : List Text) (label : Text) (skip : Option Text)
    → wants include label skip ≡ true
    → Wanted include label skip
wants_sound [] label none h = inr (refl, refl)
wants_sound [] label (some r) h = cc
wants_sound (t ∷ ts) label skip h = inl (any-eq-true (λ f. contains label f) (t ∷ ts) h)

wants_complete :
    (include : List Text) (label : Text) (skip : Option Text)
    → Wanted include label skip
    → wants include label skip ≡ true
wants_complete [] label skip (inl h) = elim h [ ]
wants_complete [] label skip (inr (_, e)) = rw e
wants_complete (t ∷ ts) label skip (inl h) = any_of_Any (λ f. contains label f) (t ∷ ts) h
wants_complete (t ∷ ts) label skip (inr (e, _)) = cc

-- A label is selected exactly when it contains no excluded token and either contains an included
-- one, or there is no token to include and the test has no skip reason.
pub matches_iff :
    (f : TestFilter) (label : Text) (skip : Option Text)
    → (matches f label skip ≡ true)
      ↔ (Misses f.exclude label × (Hits f.include label ⊎ ((f.include ≡ []) × (skip ≡ none))))
unfolding matches
matches_iff f label skip = (
  (λ h. elim (Bool-cases (any (λ t. contains label t) f.exclude)) [
    | inl e ↦ absurd (ground arith)
    | inr e ↦ (
      any-eq-false (λ t. contains label t) f.exclude e,
      wants_sound f.include label skip (rw e at h),
    )
  ]),
  (λ h.
      rw (any_of_All (λ t. contains label t) f.exclude h.0)
        (wants_complete f.include label skip h.1)),
)
