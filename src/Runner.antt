-- ===== src/Runner.antt =====
-- src/main.rs: the entries, which of them are run, and what a run comes to. The thread pool is a
-- parameter: it runs `run_test` on each entry, in states and an order of its own, and hands the
-- results back in the order of the entries. Printing is left out.
pub mod Failures
pub mod Verdict
pub mod Selection
pub mod Exit
pub mod Report
pub mod Suite
mod Tests
use qemu_test.Prelude.{
  ℕ, ◌-◌, ◌≡◌, Bool, true, false, ◌&&◌, not, Option, none, some, List, [], ◌∷◌, ◌++◌, map, Text,
  codes, concat, join, is_some, is_empty, repeat, length, if◌then◌else◌, Result, ok, err, bail,
  display, ◌>>=◌,
}
use qemu_test.Number.{decimal}
use qemu_test.Regex.{Engine}
use qemu_test.Filter.{TestFilter}
use qemu_test.Filter
use qemu_test.Config.{Config, test_jobs, test_repeat, test_filter}
use qemu_test.Host.{Host}
use qemu_test.Junit.{TestResult, TestOutcome, pass, fail, skip}

module _ (h : Host) where
  -- `props` is the value of `props_fn`; a test sees the label of its thread
  pub record TestEntry : Type 0 where
    pub name : Text
    pub props : List (Text × Text)
    pub test_fn : Text → h.W → Result (Unit {0}) × h.W
    pub skip_reason : Option Text

  abbrev pub param_text : Text × Text → Text
  param_text (k, v) = concat (k ∷ codes "=" ∷ v ∷ [])

  unfoldable pub label : TestEntry → Text
  label entry =
      if is_empty entry.props
      then entry.name
      else concat
          (entry.name ∷ codes "(" ∷ join (map param_text entry.props) (codes ", ") ∷ codes ")" ∷ [])

  abbrev pub outcome_of : Result (Unit {0}) → TestOutcome
  outcome_of (ok _) = pass
  outcome_of (err e) = fail (display e)

  unfoldable pub run_test : TestEntry → h.W → TestResult × h.W
  unfolding label
  run_test entry w =
      if h.shutdown w
      then (
        record {
          label = label entry;
          properties = entry.props;
          outcome = fail (codes "interrupted");
          duration = 0;
        },
        w,
      )
      else let (result, w') = entry.test_fn (label entry) w in
        (
          record {
            label = label entry;
            properties = entry.props;
            outcome = outcome_of result;
            duration = h.now w' - h.now w;
          },
          w',
        )

  abbrev pub skip_result : TestEntry → Text → TestResult
  skip_result entry reason = record {
    label = label entry;
    properties = entry.props;
    outcome = skip reason;
    duration = 0;
  }

  -- the results that are pushed for an entry that is skipped, if a report is asked for
  abbrev pub report_skip : Bool → TestEntry → Option Text → List TestResult
  report_skip junit entry none = []
  report_skip junit entry (some reason) = if junit then skip_result entry reason ∷ [] else []

  -- the closure of `filter`: whether the entry is run, and what is pushed to `skip_results`
  unfoldable pub select_entry : Option TestFilter → Bool → TestEntry → Bool × List TestResult
  unfolding Filter.matches
  select_entry none junit entry =
      (not (is_some entry.skip_reason), report_skip junit entry entry.skip_reason)
  select_entry (some filter) junit entry =
      let matches = Filter.matches filter (label entry) entry.skip_reason in
      let skipped_by_annotation =
        is_some entry.skip_reason && (Filter.matches filter (label entry) none && not matches) in
      (matches, (if skipped_by_annotation then report_skip junit entry entry.skip_reason else []))

  unfoldable pub select :
      Option TestFilter → Bool → List TestEntry → List TestEntry × List TestResult
  select filter junit [] = ([], [])
  select filter junit (entry ∷ entries) =
      let (run, skipped) = select_entry filter junit entry in
      let (tests, skip_results) = select filter junit entries in
      ((if run then entry ∷ tests else tests), skipped ++ skip_results)

-- `match &r.outcome` in the closure of `filter_map`
abbrev pub push_failure : Text → TestOutcome → List (Text × Text) → List (Text × Text)
push_failure label (fail e) rest = (label, e) ∷ rest
push_failure label _ rest = rest

unfoldable pub failures : List TestResult → List (Text × Text)
failures [] = []
failures (r ∷ rs) = push_failure r.label r.outcome (failures rs)

-- `fmt_secs d` is `format!("{:.2}", d.as_secs_f64())`
module _ (fmt_secs : ℕ → Text) where
  unfoldable pub finish : List TestResult → ℕ → Result (Unit {0})
  unfolding failures
  finish results elapsed =
      if is_empty (failures results)
      then ok tt
      else bail (
          concat (
            codes "\n"
            ∷ decimal (length (failures results))
            ∷ codes " of "
            ∷ decimal (length results)
            ∷ codes " tests failed ("
            ∷ fmt_secs elapsed
            ∷ codes "s)"
            ∷ []))

-- what `main` leaves: its result, and the report if one was written, with its path
pub record Outcome : Type 0 where
  pub result : Result (Unit {0})
  pub junit : Option (Text × List TestResult)

abbrev pub stopped : List Text → Outcome
stopped e = record { result = err e; junit = none }

module _ (h : Host) (re : Engine) (fmt_secs : ℕ → Text) where
  -- `pool` is the thread pool, `shuffle` the crate `rand`, `elapsed` the time of the run
  module _ (shuffle : List (TestEntry h) → List (TestEntry h))
      (pool : ℕ → List (TestEntry h) → List TestResult) (elapsed : ℕ) where
    -- behind the reading of the configuration
    unfoldable pub run : Config → ℕ → ℕ → Option TestFilter → List (TestEntry h) → Outcome
    run config jobs repeats filter entries =
        let (tests, skip_results) = select h filter (is_some config.test_junit_path) entries in
        let results = pool jobs (shuffle (repeat repeats tests)) in
        record {
          result = finish fmt_secs results elapsed;
          junit = elim config.test_junit_path [
            | none ↦ none
            | some path ↦ some (path, skip_results ++ results)
          ];
        }

    abbrev pub configured : Config → Result (ℕ × ℕ × Option TestFilter)
    configured config = do
      jobs ← test_jobs config
      repeats ← test_repeat config
      filter ← test_filter re config
      ok (jobs, repeats, filter)

    unfoldable pub main : Config → List (TestEntry h) → Outcome
    unfolding run
    main config entries = elim (configured config) [
      | err e ↦ stopped e
      | ok (jobs, repeats, filter) ↦ run config jobs repeats filter entries
    ]
