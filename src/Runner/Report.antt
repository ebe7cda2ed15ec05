-- ===== src/Runner/Report.antt =====
-- What the report of a run of src/main.rs holds.
use mathlib.Core.List.{Perm}
use mathlib.Core.List.Perm
use qemu_test.Prelude.{
  ℕ, ◌≡◌, refl, ap, ◌⊎◌, inl, inr, Bool, true, Bool-cases, Option, none, some, Option-cases, List,
  [], ◌∷◌, ◌++◌, map, Text, is_some, repeat,
}
use qemu_test.Regex.{Engine}
use qemu_test.Filter.{TestFilter}
use qemu_test.Config.{Config}
use qemu_test.Host.{Host}
use qemu_test.Junit.{TestResult, skip}
use qemu_test.Runner.{TestEntry, label, run_test, failures, run, select, select_entry, skip_result}
use qemu_test.Runner.Selection.{
  IsWanted, IsSkipped, run_iff, LeftOut, pushed, by_annotation, by_annotation_iff,
}
use qemu_test.Runner.Verdict.{Ran, select-NotFailed, failures-append}

module _ {A : Type 0} (P : A → Type 0) where
  -- the elements with `P`, in order
  pub data Picks : List A → List A → Type 0 where
    stop : Picks [] []
    take : {x : A} {xs ys : List A} → P x → Picks xs ys → Picks (x ∷ xs) (x ∷ ys)
    leave : {x : A} {xs ys : List A} → ¬ P x → Picks xs ys → Picks (x ∷ xs) ys

module _ (h : Host) where
  -- what a result says of the test that it is of
  abbrev pub named : TestResult → Text × List (Text × Text)
  named r = (r.label, r.properties)

  abbrev pub name_of : TestEntry h → Text × List (Text × Text)
  name_of e = (label h e, e.props)

  module _ (filter : Option TestFilter) where
    -- a result with the skip reason for each test that is left out for it alone, in order
    pub data Reports : List (TestEntry h) → List TestResult → Type 0 where
      stop : Reports [] []
      report :
          {e : TestEntry h} {es : List (TestEntry h)} {rs : List TestResult} (reason : Text)
          → IsSkipped h filter e reason
          → Reports es rs
          → Reports (e ∷ es) (
              record {
                label = label h e;
                properties = e.props;
                outcome = skip reason;
                duration = 0;
              }
              ∷ rs)
      pass_by :
          {e : TestEntry h} {es : List (TestEntry h)} {rs : List TestResult}
          → ((reason : Text) → ¬ IsSkipped h filter e reason)
          → Reports es rs
          → Reports (e ∷ es) rs

  -- what the selection pushes for one entry, in terms of the skip reason
  pushed_reports :
      (f : TestFilter) (e : TestEntry h) (given : Option Text)
      → ((reason : Text) × ((given ≡ some reason) × LeftOut h f (label h e))
          × (pushed h f e given ≡ skip_result h e reason ∷ []))
        ⊎ (((reason : Text) → ¬ ((given ≡ some reason) × LeftOut h f (label h e)))
            × (pushed h f e given ≡ []))
  pushed_reports f e none = inr ((λ reason s. absurd (cc s.0)), refl)
  pushed_reports f e (some reason) =
      let iff = by_annotation_iff h f (label h e) reason in
      elim (Bool-cases (by_annotation h f (label h e) (some reason))) [
        | inl b ↦ inl (reason, (refl, iff.0 b), rw b refl)
        | inr b ↦ inr ((λ other x. absurd (cc (iff.1 x.1, b))), rw b refl)
      ]

  entry_reports :
      (filter : Option TestFilter) (e : TestEntry h)
      → ((reason : Text) × IsSkipped h filter e reason
          × ((select_entry h filter true e).1 ≡ skip_result h e reason ∷ []))
        ⊎ (((reason : Text) → ¬ IsSkipped h filter e reason)
            × ((select_entry h filter true e).1 ≡ []))
  unfolding select_entry
  entry_reports none e = elim (Option-cases e.skip_reason) [
    | inl n ↦ inr ((λ reason s. cc), rw n refl)
    | inr (reason, s) ↦ inl (reason, s, rw s refl)
  ]
  entry_reports (some f) e = pushed_reports f e e.skip_reason

  select-Reports :
      (filter : Option TestFilter) (entries : List (TestEntry h))
      → Reports filter entries (select h filter true entries).1
  unfolding select
  select-Reports filter [] = Reports.stop
  select-Reports filter (e ∷ es) = elim (entry_reports filter e) [
    | inl (reason, s, q) ↦ rw q (Reports.report reason s (select-Reports filter es))
    | inr (n, q) ↦ rw q (Reports.pass_by n (select-Reports filter es))
  ]

  select-Picks :
      (filter : Option TestFilter) (entries : List (TestEntry h))
      → Picks (IsWanted h filter) entries (select h filter true entries).0
  unfolding select
  select-Picks filter [] = Picks.stop
  select-Picks filter (e ∷ es) = elim (Bool-cases (select_entry h filter true e).0) [
    | inl b ↦ rw b (Picks.take ((run_iff h filter true e).0 b) (select-Picks filter es))
    | inr b ↦
        rw b (
          Picks.leave (λ w. absurd (cc ((run_iff h filter true e).1 w, b)))
            (select-Picks filter es))
  ]

  run_test-named : (e : TestEntry h) (w : h.W) → named (run_test h e w).0 ≡ name_of e
  unfolding run_test
  run_test-named e w = elim (Bool-cases (h.shutdown w)) [ inl b ↦ rw b refl | inr b ↦ rw b refl ]

  Ran-named :
      (es : List (TestEntry h)) (rs : List TestResult) → Ran h es rs → map named rs ≡ map name_of es
  Ran-named [] [] x = refl
  Ran-named [] (r ∷ rs) x = elim x [ ]
  Ran-named (e ∷ es) [] x = elim x [ ]
  Ran-named (e ∷ es) (r ∷ rs) ((w, q), xs) = rw (q, run_test-named e w, Ran-named es rs xs) refl

module _ (h : Host) (re : Engine) (fmt_secs : ℕ → Text)
    (shuffle : List (TestEntry h) → List (TestEntry h))
    (pool : ℕ → List (TestEntry h) → List TestResult) (elapsed : ℕ)
    (runs : (jobs : ℕ) (es : List (TestEntry h)) → Ran h es (pool jobs es)) where
  -- If the shuffling permutes the entries and the thread pool runs `run_test` on each, then the report
  -- that is asked for has first, in order, a result with the label, the properties and the skip reason
  -- of each entry that its reason alone keeps from being run, and no other; then what the pool
  -- returned for the repetitions of the entries that are to be run, whose labels and properties are
  -- those of these entries, each as often as it is repeated, in some order. The failures of the
  -- report are those of the pool's results.
  pub run_report :
      (config : Config) (path : Text) (entries : List (TestEntry h)) (jobs repeats : ℕ)
      (filter : Option TestFilter)
      → ((es : List (TestEntry h)) → Perm (shuffle es) es)
      → config.test_junit_path ≡ some path
      → (tests : List (TestEntry h)) × (skips results : List TestResult) × Picks
          (IsWanted h filter)
          entries
          tests
        × Reports h filter entries skips
        × (results ≡ pool jobs (shuffle (repeat repeats tests)))
        × ((run h re fmt_secs shuffle pool elapsed config jobs repeats filter entries).junit
            ≡ some (path, skips ++ results))
        × Perm (map (named h) results) (map (name_of h) (repeat repeats tests))
        × (failures (skips ++ results) ≡ failures results)
  unfolding run
  run_report config path entries jobs repeats filter shuffles j =
      let (tests, skips) = select h filter true entries in
      let es = shuffle (repeat repeats tests) in
      let results = pool jobs es in
      let reported : Bool → Option (Text × List TestResult) = λ b. some (
        path,
        (select h filter b entries).1
            ++ pool jobs (shuffle (repeat repeats (select h filter b entries).0)),
      ) in
      (
        tests,
        skips,
        results,
        select-Picks h filter entries,
        select-Reports h filter entries,
        refl,
        rw j (ap reported (ap (is_some {A = Text}) j)),
        rw (Ran-named h es results (runs jobs es))
            (Perm.map (name_of h) (shuffles (repeat repeats tests))),
        failures-append skips results (select-NotFailed h filter true entries),
      )
