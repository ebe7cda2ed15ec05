-- ===== src/Runner/Exit.antt =====
-- How the process of src/main.rs ends.
use qemu_test.Prelude.{ℕ, ◌≡◌, ◌↔◌, Option, none, some, List, Text, codes, Result, ok}
use qemu_test.Regex.{Engine}
use qemu_test.Filter.{TestFilter}
use qemu_test.Config.{Config}
use qemu_test.Host.{Host}
use qemu_test.Host.Task.{
  Task, ◌>>◌, Succeeds, >>=-Succeeds, >>=_intro, named_call_inv, named_call_intro, given, given_inv,
}
use qemu_test.Junit.{TestResult, format_junit, write_junit}
use qemu_test.Runner.{TestEntry, Outcome, main, configured}
use qemu_test.Runner.Verdict.{Ran, Passed, scheduled, main_iff}

-- the end of the process: the report is written before the result is returned, and a panic there is an
-- error
module _ {W : Type 0} (fmt_secs : ℕ → Text) (write : Text → Text → W → Result (Unit {0}) × W) where
  unfoldable pub exit : ℕ → Outcome → Task W (Unit {0})
  exit elapsed outcome = elim outcome.junit [
    | none ↦ given outcome.result
    | some (path, all_results) ↦ do
      write_junit fmt_secs write path all_results elapsed
      given outcome.result
  ]

module _ {W : Type 0} (fmt_secs : ℕ → Text) (write : Text → Text → W → Result (Unit {0}) × W)
    (elapsed : ℕ) where
  -- the report that is asked for was written, from one state to another
  abbrev pub Reported : Option (Text × List TestResult) → W → W → Type 0
  Reported none w w' = w ≡ w'
  Reported (some (path, results)) w w' =
      write path (format_junit fmt_secs results elapsed) w ≡ (ok tt, w')

  exit-Succeeds :
      (outcome : Outcome) (w w' : W)
      → Succeeds (exit fmt_secs write elapsed outcome) w tt w'
        ↔ ((outcome.result ≡ ok tt) × Reported outcome.junit w w')
  unfolding exit write_junit
  exit-Succeeds outcome w w' = by_junit outcome.junit
    where
      by_junit :
          (junit : Option (Text × List TestResult))
          → Succeeds
              (exit fmt_secs write elapsed (record { result = outcome.result; junit = junit }))
              w
              tt
              w'
            ↔ ((outcome.result ≡ ok tt) × Reported junit w w')
      by_junit none = ((λ e. given_inv outcome.result w w' tt e), (λ (r, q) i. (some (r i), q i)))
      by_junit (some (path, results)) =
          let message = codes "failed to write JUnit report" in
          let put = write path (format_junit fmt_secs results elapsed) in
          (
            (λ e.
                let (done, v, first, rest) =
                  >>=-Succeeds (write_junit fmt_secs write path results elapsed)
                    (λ _. given outcome.result) w w' tt e in
                let (r, q) = given_inv outcome.result v w' tt rest in
                (r, rw q at (named_call_inv put message w v tt first))),
            (λ (r, q).
                >>=_intro (write_junit fmt_secs write path results elapsed)
                  (λ _. given outcome.result) w w' w' tt tt (named_call_intro put message w w' tt q)
                  (λ i. (some (r i), w'))),
          )

module _ (h : Host) (re : Engine) (fmt_secs : ℕ → Text)
    (shuffle : List (TestEntry h) → List (TestEntry h))
    (pool : ℕ → List (TestEntry h) → List TestResult) (elapsed : ℕ)
    (runs : (jobs : ℕ) (es : List (TestEntry h)) → Ran h es (pool jobs es))
    (write : Text → Text → h.W → Result (Unit {0}) × h.W) where
  -- With a configuration that can be read, and a thread pool that runs `run_test` on each entry, the
  -- process succeeds exactly when each run of each selected entry found no shutdown and returned `Ok`,
  -- and the report that `main` leaves, if there is one, was written to its path as `format_junit`
  -- prints it.
  pub exit_iff :
      (config : Config) (entries : List (TestEntry h)) (jobs repeats : ℕ)
      (filter : Option TestFilter) (w w' : h.W)
      → configured h re fmt_secs shuffle pool elapsed config ≡ ok (jobs, repeats, filter)
      → Succeeds
          (exit fmt_secs write elapsed (main h re fmt_secs shuffle pool elapsed config entries))
          w
          tt
          w'
        ↔ (Passed h
              (scheduled h shuffle config repeats filter entries)
              (pool jobs (scheduled h shuffle config repeats filter entries))
              (runs jobs (scheduled h shuffle config repeats filter entries))
            × Reported fmt_secs write elapsed
                (main h re fmt_secs shuffle pool elapsed config entries).junit
                w
                w')
  exit_iff config entries jobs repeats filter w w' c =
      let ends =
        exit-Succeeds fmt_secs write elapsed
          (main h re fmt_secs shuffle pool elapsed config entries) w w' in
      let passed =
        main_iff h re fmt_secs shuffle pool elapsed runs config entries jobs repeats filter c in
      ((λ e. let (r, q) = ends.0 e in (passed.0 r, q)), (λ (p, q). ends.1 (passed.1 p, q)))
