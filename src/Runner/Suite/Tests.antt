-- ===== src/Runner/Suite/Tests.antt =====
-- A run of one guest binary on the sample machine.
use qemu_test.Prelude.{
  ℕ, ◌≡◌, refl, inl, none, some, List, [], ◌∷◌, map, Text, codes, path_join, ap, Result, ok,
}
use qemu_test.Number.{decimal}
use qemu_test.Regex.Derivative.{engine}
use qemu_test.Config.{Config, load, accel, test_jobs, test_repeat, test_filter}
use qemu_test.Host.Sample.{World, boot, machine}
use qemu_test.Host.Task.{Succeeds}
use qemu_test.Process.Serial.{sub_string, poll_line, poll_judge, read_chunk, matches}
use qemu_test.Scenario.Sample.{launcher, bench}
use qemu_test.Scenario.{with_temp_dir, with_process}
use qemu_test.Scenario.Ends.{TempDirEnd, FailsOr, ProcessEnd}
use qemu_test.Scenario.Seen.{Passes}
use qemu_test.Guest.Builder.{guest_config}
use qemu_test.Guest.Builder
use qemu_test.Options.{guest_bin}
use qemu_test.Host.{repeat_rounds}
use qemu_test.Process.Spawn.{spawn, start_qemu, attach}
use qemu_test.Process.Socket.{connect}
use qemu_test.Process.Child.{drop}
use qemu_test.Basic.{GuestTest, run_guest_bin}
use qemu_test.Basic.Ends.{run_guest_bin_end}
use qemu_test.Junit.{TestResult}
use qemu_test.Runner.{TestEntry, run_test, select, select_entry, run, main, configured}
use qemu_test.Runner.Verdict.{Ran}
use qemu_test.Runner.Exit.{exit, exit_iff}
use qemu_test.Runner.Suite.{Guarded, settle, entry_of, Held, suite_holds}

abbrev config : Config
config = load (λ name. none)

abbrev test : GuestTest (Unit {0})
test = record {
  file_name = codes "guest.bin";
  binary = 244 ∷ [];
  expected = ok (sub_string (codes "booted"));
  message = codes "expected output not found";
}

passed : (run_guest_bin machine launcher bench test config boot).0 ≡ some (ok tt)
unfolding run_guest_bin with_temp_dir with_process spawn accel load start_qemu attach connect
    repeat_rounds drop guest_config poll_line poll_judge read_chunk matches
passed = refl

abbrev booted : Guarded machine
booted = record {
  name = codes "test_simple_guest_bin";
  props = [];
  skip_reason = none;
  task = λ test_label. run_guest_bin machine launcher bench test config;
  Promise = TempDirEnd machine launcher bench (codes "failed to create temp dir") λ dir.
      FailsOr (codes "failed to write guest binary") (
        ProcessEnd machine launcher bench (codes "failed to spawn QEMU process") config
          (Builder.new dir (guest_bin (path_join dir test.file_name)))
          (Passes machine launcher bench test.expected));
  returns = λ test_label w. run_guest_bin_end machine launcher bench test config w;
}

abbrev entries : List (TestEntry machine)
entries = entry_of machine booted ∷ []

abbrev in_order : List (TestEntry machine) → List (TestEntry machine)
in_order es = es

abbrev pool : ℕ → List (TestEntry machine) → List TestResult
pool jobs es = map (λ (e : TestEntry machine). (run_test machine e boot).0) es

pool-Ran : (jobs : ℕ) (es : List (TestEntry machine)) → Ran machine es (pool jobs es)
pool-Ran jobs [] = tt
pool-Ran jobs (e ∷ es) = ((boot, refl), pool-Ran jobs es)

abbrev write : Text → Text → World → Result (Unit {0}) × World
write path content w = (ok tt, w)

configured_read : configured machine engine decimal in_order pool 0 config ≡ ok (1, 1, none)
unfolding load test_jobs test_repeat test_filter
configured_read = refl

exits :
    Succeeds
      (exit decimal write 0 (main machine engine decimal in_order pool 0 config entries))
      boot
      tt
      boot
unfolding load select select_entry main run test_jobs test_repeat test_filter pool-Ran
exits =
    (exit_iff machine engine decimal in_order pool 0 pool-Ran write config entries 1 1 none boot
        boot configured_read).1
      (((refl, ap (settle machine) passed), tt), refl)

suite_holds_example : Held machine booted
suite_holds_example =
    suite_holds machine engine decimal in_order (λ entry es m. m) pool 0 pool-Ran write config
      entries 1 1 none boot boot booted configured_read exits (inl refl) refl
