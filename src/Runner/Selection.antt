-- ===== src/Runner/Selection.antt =====
-- The closure of `filter` in `main`, of src/main.rs.
use qemu_test.Prelude.{
  ◌≡◌, refl, sym, ap, ◌∙◌, ◌↔◌, ◌⊎◌, inl, inr, Bool, true, false, Bool-cases, not, ◌&&◌, Option,
  none, some, List, [], ◌∷◌, Text, is_some, if◌then◌else◌, arith, Option-cases, Member,
}
use mathlib.Core.Option.{some-injective}
use qemu_test.Filter
use qemu_test.Filter.{TestFilter}
use qemu_test.Filter.Select.{Hits, Misses, matches_iff}
use qemu_test.Host.{Host}
use qemu_test.Junit.{TestResult}
use qemu_test.Runner.{TestEntry, label, select_entry, skip_result, report_skip}

module _ (h : Host) where
  -- the tests that an invocation is meant to run
  abbrev pub IsWanted : Option TestFilter → TestEntry h → Type 0
  IsWanted none entry = entry.skip_reason ≡ none
  IsWanted (some f) entry =
      Misses f.exclude (label h entry)
      × (Hits f.include (label h entry) ⊎ ((f.include ≡ []) × (entry.skip_reason ≡ none)))

  -- the tests that are left out for their skip reason alone
  abbrev pub IsSkipped : Option TestFilter → TestEntry h → Text → Type 0
  IsSkipped none entry reason = entry.skip_reason ≡ some reason
  IsSkipped (some f) entry reason =
      (entry.skip_reason ≡ some reason) × ((f.include ≡ []) × Misses f.exclude (label h entry))

  pub run_iff :
      (filter : Option TestFilter) (junit : Bool) (entry : TestEntry h)
      → ((select_entry h filter junit entry).0 ≡ true) ↔ IsWanted filter entry
  unfolding select_entry
  run_iff none junit entry = elim (Option-cases entry.skip_reason) [
    | inl e ↦ ((λ n. e), (λ n. rw n))
    | inr (x, e) ↦ ((λ n. absurd (cc (rw e at n))), (λ n. rw n))
  ]
  run_iff (some f) junit entry = matches_iff f (label h entry) entry.skip_reason

  -- the test before a skipped entry is reported
  abbrev pub by_annotation : TestFilter → Text → Option Text → Bool
  by_annotation f l skip =
      is_some skip && (Filter.matches f l none && not (Filter.matches f l skip))

  abbrev pub LeftOut : TestFilter → Text → Type 0
  LeftOut f l = (f.include ≡ []) × Misses f.exclude l

  no_hits :
      (f : TestFilter) (l reason : Text) → LeftOut f l → Filter.matches f l (some reason) ≡ false
  no_hits f l reason (i, m) = elim (Bool-cases (Filter.matches f l (some reason))) [
    | inl e ↦ elim ((matches_iff f l (some reason)).0 e).1 [
      | inl hits ↦ absurd (rw i at hits)
      | inr (j, n) ↦ absurd (cc n)
    ]
    | inr e ↦ e
  ]

  left_out :
      (f : TestFilter) (l reason : Text)
      → Filter.matches f l none ≡ true
      → Filter.matches f l (some reason) ≡ false
      → LeftOut f l
  left_out f l reason e n =
      let (misses, wanted) = (matches_iff f l none).0 e in
      elim wanted [
        | inl hits ↦ absurd (cc ((matches_iff f l (some reason)).1 (misses, inl hits), n))
        | inr (i, _) ↦ (i, misses)
      ]

  pub by_annotation_iff :
      (f : TestFilter) (l reason : Text) → (by_annotation f l (some reason) ≡ true) ↔ LeftOut f l
  by_annotation_iff f l reason = (
    (λ e. left_out f l reason (ground arith) (ground arith)),
    (λ x. rw (no_hits f l reason x, (matches_iff f l none).1 (x.1, inr (x.0, refl)))),
  )

  -- what is pushed, in terms of the skip reason
  abbrev pub pushed : TestFilter → TestEntry h → Option Text → List TestResult
  pushed f entry skip =
      if by_annotation f (label h entry) skip then report_skip h true entry skip else []

  pushed_iff :
      (f : TestFilter) (entry : TestEntry h) (skip : Option Text) (r : TestResult)
      → Member r (pushed f entry skip) ↔ (
          (reason : Text) × ((skip ≡ some reason) × LeftOut f (label h entry))
          × (r ≡ skip_result h entry reason))
  pushed_iff f entry none r = ((λ m. elim m [ ]), (λ x. absurd (cc x.1.0)))
  pushed_iff f entry (some reason) r =
      elim (Bool-cases (by_annotation f (label h entry) (some reason))) [
        | inl e ↦ rw e (
          (λ m.
              (reason, (refl, (by_annotation_iff f (label h entry) reason).0 e), only r reason m)),
          (λ x. inl (x.2 ∙ ap (λ t. skip_result h entry t) (sym (some-injective _ _ x.1.0)))),
        )
        | inr e ↦ rw e (
          (λ m. elim m [ ]),
          (λ x. absurd (cc ((by_annotation_iff f (label h entry) reason).1 x.1.1, e))),
        )
      ]
    where
      only :
          (r : TestResult) (reason : Text)
          → Member r (skip_result h entry reason ∷ [])
          → r ≡ skip_result h entry reason
      only r reason (inl q) = q
      only r reason (inr m) = elim m [ ]

  skip_none_iff :
      (entry : TestEntry h) (skip : Option Text) (r : TestResult)
      → Member r (report_skip h true entry skip)
        ↔ ((reason : Text) × (skip ≡ some reason) × (r ≡ skip_result h entry reason))
  skip_none_iff entry none r = ((λ m. elim m [ ]), (λ x. absurd (cc x.1)))
  skip_none_iff entry (some reason) r = (
    (λ m. (reason, refl, only m)),
    (λ x. inl (x.2 ∙ ap (λ t. skip_result h entry t) (sym (some-injective _ _ x.1)))),
  )
    where
      only : Member r (skip_result h entry reason ∷ []) → r ≡ skip_result h entry reason
      only (inl q) = q
      only (inr m) = elim m [ ]

  skip_iff :
      (filter : Option TestFilter) (entry : TestEntry h) (r : TestResult)
      → Member r (select_entry h filter true entry).1
        ↔ ((reason : Text) × IsSkipped filter entry reason × (r ≡ skip_result h entry reason))
  unfolding select_entry
  skip_iff none entry r = skip_none_iff entry entry.skip_reason r
  skip_iff (some f) entry r = pushed_iff f entry entry.skip_reason r

  -- Without a filter a test is run unless it has a skip reason, and those with one are reported. With
  -- a filter it is run if its label contains no excluded token and either an included one, or there
  -- is none to include and no skip reason; and it is reported as skipped exactly when the reason is
  -- all that keeps it from being run. Nothing else is run or reported.
  pub select_entry_iff :
      (filter : Option TestFilter) (entry : TestEntry h) (r : TestResult)
      → (((select_entry h filter true entry).0 ≡ true) ↔ IsWanted filter entry)
        × (Member r (select_entry h filter true entry).1
            ↔ ((reason : Text) × IsSkipped filter entry reason × (r ≡ skip_result h entry reason)))
  select_entry_iff filter entry r = (run_iff filter true entry, skip_iff filter entry r)
