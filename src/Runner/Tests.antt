-- ===== src/Runner/Tests.antt =====
-- A run of two tests and a skipped one, one of which fails.
use qemu_test.Prelude.{
  ℕ, ◌≡◌, ◌↔◌, refl, true, Option, none, some, List, [], ◌∷◌, map, Text, codes, text_eq,
  if◌then◌else◌, Member, Result, ok, bail, repeat, ◌++◌,
}
use qemu_test.Number.{decimal, parse_usize}
use qemu_test.Regex.Derivative.{engine}
use qemu_test.Filter.{TestFilter}
use qemu_test.Config.{load, test_jobs, test_repeat, test_filter}
use qemu_test.Host.{from_millis}
use qemu_test.Host.Sample.{World, boot, machine}
use qemu_test.Junit.{TestResult}
use qemu_test.Runner.{
  TestEntry, run_test, failures, select_entry, skip_result, run, main, configured,
}
use qemu_test.Runner.Selection.{IsWanted, IsSkipped, select_entry_iff}
use qemu_test.Runner.Verdict.{Ran, Passed, scheduled}
use qemu_test.Runner.Report.{Picks, Reports, named, name_of, run_report}
use mathlib.Core.List.{Perm}
use mathlib.Core.List.Perm
use qemu_test.Runner.Exit.{exit, Reported, exit_iff}
use qemu_test.Host.Task.{Succeeds}

abbrev passes : Text → World → Result (Unit {0}) × World
passes label w = (ok tt, machine.sleep (from_millis 300) w)

abbrev fails : Text → World → Result (Unit {0}) × World
fails label w = (bail (codes "timeout waiting for expected output"), w)

abbrev smp_boot : TestEntry machine
smp_boot = record {
  name = codes "test_boot";
  props = (codes "smp", codes "2") ∷ [];
  test_fn = passes;
  skip_reason = none;
}

abbrev broken : TestEntry machine
broken = record { name = codes "test_broken"; props = []; test_fn = fails; skip_reason = none }

abbrev flaky : TestEntry machine
flaky = record {
  name = codes "test_flaky";
  props = [];
  test_fn = passes;
  skip_reason = some (codes "flaky");
}

abbrev entries : List (TestEntry machine)
entries = smp_boot ∷ broken ∷ flaky ∷ []

-- one thread for each test
abbrev pool : ℕ → List (TestEntry machine) → List TestResult
pool jobs es = map (λ (e : TestEntry machine). (run_test machine e boot).0) es

pool-Ran : (jobs : ℕ) (es : List (TestEntry machine)) → Ran machine es (pool jobs es)
pool-Ran jobs [] = tt
pool-Ran jobs (e ∷ es) = ((boot, refl), pool-Ran jobs es)

abbrev in_order : List (TestEntry machine) → List (TestEntry machine)
in_order es = es

-- TEST_JOBS=2 TEST_REPEAT=3 TEST_JUNIT_PATH=junit.xml
abbrev var : Text → Option Text
var name =
    if text_eq name (codes "TEST_JOBS")
    then some (codes "2")
    else if text_eq name (codes "TEST_REPEAT")
    then some (codes "3")
    else if text_eq name (codes "TEST_JUNIT_PATH")
    then some (codes "junit.xml")
    else none

configured_read : configured machine engine decimal in_order pool 0 (load var) ≡ ok (2, 3, none)
unfolding load test_jobs test_repeat test_filter parse_usize
configured_read = refl

abbrev write : Text → Text → World → Result (Unit {0}) × World
write path content w = (ok tt, w)

exit_iff_example :
    Succeeds
      (exit decimal write 0 (main machine engine decimal in_order pool 0 (load var) entries))
      boot
      tt
      boot
    ↔ (Passed machine
          (scheduled machine in_order (load var) 3 none entries)
          (pool 2 (scheduled machine in_order (load var) 3 none entries))
          (pool-Ran 2 (scheduled machine in_order (load var) 3 none entries))
        × Reported decimal write 0
            (main machine engine decimal in_order pool 0 (load var) entries).junit
            boot
            boot)
exit_iff_example =
    exit_iff machine engine decimal in_order pool 0 pool-Ran write (load var) entries 2 3 none boot
      boot configured_read

report_asked : (load var).test_junit_path ≡ some (codes "junit.xml")
unfolding load
report_asked = refl

run_report_example :
    (tests : List (TestEntry machine)) × (skips results : List TestResult) × Picks
      (IsWanted machine none)
      entries
      tests
    × Reports machine none entries skips
    × (results ≡ pool 2 (in_order (repeat 3 tests)))
    × ((run machine engine decimal in_order pool 0 (load var) 2 3 none entries).junit
        ≡ some (codes "junit.xml", skips ++ results))
    × Perm (map (named machine) results) (map (name_of machine) (repeat 3 tests))
    × (failures (skips ++ results) ≡ failures results)
run_report_example =
    run_report machine engine decimal in_order pool 0 pool-Ran (load var) (codes "junit.xml")
      entries 2 3 none (λ es. Perm.rfl) report_asked

abbrev without_boot : TestFilter
without_boot = record { include = []; exclude = codes "boot" ∷ [] }

select_entry_iff_example :
    (((select_entry machine (some without_boot) true flaky).0 ≡ true)
      ↔ IsWanted machine (some without_boot) flaky)
    × (Member
          (skip_result machine flaky (codes "flaky"))
          (select_entry machine (some without_boot) true flaky).1
        ↔ ((reason : Text) × IsSkipped machine (some without_boot) flaky reason
            × (skip_result machine flaky (codes "flaky") ≡ skip_result machine flaky reason)))
select_entry_iff_example =
    select_entry_iff machine (some without_boot) flaky (skip_result machine flaky (codes "flaky"))
