-- ===== src/Runner/Verdict.antt =====
-- The verdict of `main` in src/main.rs, and its report.
use qemu_test.Prelude.{
  ℕ, ◌≡◌, refl, ◌∙◌, ◌↔◌, inl, inr, Bool, true, false, Bool-cases, Option, none, some, List, [],
  ◌∷◌, ◌++◌, Text, is_some, repeat, All, All-append, if◌then◌else◌, Result, ok, err,
}
use qemu_test.Regex.{Engine}
use qemu_test.Filter.{TestFilter}
use qemu_test.Config.{Config}
use qemu_test.Host.{Host}
use qemu_test.Junit.{TestResult, is_fail}
use qemu_test.Runner.{
  TestEntry, label, run_test, failures, run, main, configured, outcome_of, select, select_entry,
  report_skip,
}
use qemu_test.Runner.Failures.{NotFailed, finish_iff, push-failed}

module _ (h : Host) where
  -- A test passes exactly when no shutdown was asked for before it and its function returns `Ok`.
  run_test_iff :
      (entry : TestEntry h) (w : h.W)
      → NotFailed (run_test h entry w).0
        ↔ ((h.shutdown w ≡ false) × ((entry.test_fn (label h entry) w).0 ≡ ok tt))
  unfolding run_test
  run_test_iff entry w = elim (Bool-cases (h.shutdown w)) [
    | inl e ↦ ((λ n. absurd (cc (rw e at n))), (λ n. absurd (cc (n.0, e))))
    | inr e ↦ (
      (λ n. (e, (outcome_iff (entry.test_fn (label h entry) w).0).0 (rw e at n))),
      (λ n. rw e ((outcome_iff (entry.test_fn (label h entry) w).0).1 n.1)),
    )
  ]
    where
      outcome_iff : (r : Result (Unit {0})) → (is_fail (outcome_of h r) ≡ false) ↔ (r ≡ ok tt)
      outcome_iff (ok x) = ((λ n. refl), (λ n. refl))
      outcome_iff (err e) = ((λ n. cc), (λ n. cc))

  -- What the thread pool guarantees: a result for each entry, in their order, each of a call of
  -- `run_test` on it in some state.
  abbrev pub Ran : List (TestEntry h) → List TestResult → Type 0
  Ran [] [] = Unit
  Ran (e ∷ es) (r ∷ rs) = ((w : h.W) × (r ≡ (run_test h e w).0)) × Ran es rs
  Ran _ _ = ⊥

  -- each run of an entry found no shutdown and returned `Ok`
  abbrev pub Passed : (es : List (TestEntry h)) (rs : List TestResult) → Ran es rs → Type 0
  Passed [] [] x = Unit
  Passed [] (r ∷ rs) x = ⊥
  Passed (e ∷ es) [] x = ⊥
  Passed (e ∷ es) (r ∷ rs) (x, xs) =
      ((h.shutdown x.0 ≡ false) × ((e.test_fn (label h e) x.0).0 ≡ ok tt)) × Passed es rs xs

  Passed-iff :
      (es : List (TestEntry h)) (rs : List TestResult) (ran : Ran es rs)
      → All NotFailed rs ↔ Passed es rs ran
  Passed-iff [] [] x = ((λ n. tt), (λ n. tt))
  Passed-iff [] (r ∷ rs) x = elim x [ ]
  Passed-iff (e ∷ es) [] x = elim x [ ]
  Passed-iff (e ∷ es) (r ∷ rs) ((w, q), xs) = (
    (λ n. ((run_test_iff e w).0 (rw q at n.0), (Passed-iff es rs xs).0 n.1)),
    (λ n. (rw q ((run_test_iff e w).1 n.0), (Passed-iff es rs xs).1 n.1)),
  )

-- a skipped entry's result is no failure
report_skip-NotFailed :
    (h : Host) (junit : Bool) (entry : TestEntry h) (skip : Option Text)
    → All NotFailed (report_skip h junit entry skip)
report_skip-NotFailed h junit entry none = tt
report_skip-NotFailed h true entry (some reason) = (refl, tt)
report_skip-NotFailed h false entry (some reason) = tt

if-NotFailed :
    (b : Bool) (rs : List TestResult) → All NotFailed rs → All NotFailed (if b then rs else [])
if-NotFailed true rs h = h
if-NotFailed false rs h = tt

pub select-NotFailed :
    (h : Host) (filter : Option TestFilter) (junit : Bool) (entries : List (TestEntry h))
    → All NotFailed (select h filter junit entries).1
unfolding select select_entry
select-NotFailed h filter junit [] = tt
select-NotFailed h none junit (e ∷ es) =
    All-append NotFailed (report_skip h junit e e.skip_reason) (select h none junit es).1
      (report_skip-NotFailed h junit e e.skip_reason) (select-NotFailed h none junit es)
select-NotFailed h (some f) junit (e ∷ es) =
    All-append NotFailed _ (select h (some f) junit es).1
      (if-NotFailed _ (report_skip h junit e e.skip_reason)
        (report_skip-NotFailed h junit e e.skip_reason))
      (select-NotFailed h (some f) junit es)

pub failures-append :
    (xs ys : List TestResult) → All NotFailed xs → failures (xs ++ ys) ≡ failures ys
unfolding failures
failures-append [] ys n = refl
failures-append (x ∷ xs) ys (n, ns) = elim (push-failed x.label x.outcome (failures (xs ++ ys))) [
  | inl (e, _) ↦ absurd (cc (e, n))
  | inr (_, e) ↦ e ∙ failures-append xs ys ns
]

-- the entries that the pool is given
module _ (h : Host) (shuffle : List (TestEntry h) → List (TestEntry h)) where
  abbrev pub scheduled : Config → ℕ → Option TestFilter → List (TestEntry h) → List (TestEntry h)
  scheduled config repeats filter entries =
      shuffle (repeat repeats (select h filter (is_some config.test_junit_path) entries).0)

module _ (h : Host) (re : Engine) (fmt_secs : ℕ → Text)
    (shuffle : List (TestEntry h) → List (TestEntry h))
    (pool : ℕ → List (TestEntry h) → List TestResult) (elapsed : ℕ)
    (runs : (jobs : ℕ) (es : List (TestEntry h)) → Ran h es (pool jobs es)) where
  -- With a configuration that can be read, and a thread pool that runs `run_test` on each entry, `main`
  -- returns `Ok` exactly when each run of each selected entry found no shutdown and returned `Ok`.
  pub main_iff :
      (config : Config) (entries : List (TestEntry h)) (jobs repeats : ℕ)
      (filter : Option TestFilter)
      → configured h re fmt_secs shuffle pool elapsed config ≡ ok (jobs, repeats, filter)
      → ((main h re fmt_secs shuffle pool elapsed config entries).result ≡ ok tt)
        ↔ Passed h
            (scheduled h shuffle config repeats filter entries)
            (pool jobs (scheduled h shuffle config repeats filter entries))
            (runs jobs (scheduled h shuffle config repeats filter entries))
  unfolding main run
  main_iff config entries jobs repeats filter c =
      let es = scheduled h shuffle config repeats filter entries in
      let finished = finish_iff fmt_secs (pool jobs es) elapsed in
      let passed = Passed-iff h es (pool jobs es) (runs jobs es) in
      rw (c, main) ((λ n. passed.0 (finished.0 n)), (λ n. finished.1 (passed.1 n)))
