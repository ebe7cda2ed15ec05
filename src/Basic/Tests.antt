-- ===== src/Basic/Tests.antt =====
-- A guest binary on the sample machine, which writes its log and exits.
use qemu_test.Prelude.{none, [], ◌∷◌, codes, path_join, ok}
use qemu_test.Config.{Config, load}
use qemu_test.Guest.Builder
use qemu_test.Options.{guest_bin, pc}
use qemu_test.Host.Sample.{boot, machine}
use qemu_test.Process.Serial.{sub_string}
use qemu_test.Scenario.Sample.{launcher, bench}
use qemu_test.Basic.{GuestTest, quit_config, run_guest_bin, test_quit_terminates}
use qemu_test.Basic.Ends.{run_guest_bin_end}
use qemu_test.Basic.Quit.{QuitDone, test_quit_terminates_end}
use qemu_test.Scenario.Seen.{Passes}
use qemu_test.Scenario.Ends.{EndsWith, TempDirEnd, FailsOr, SpawnedOr, ProcessEnd}

abbrev test : GuestTest (Unit {0})
test = record {
  file_name = codes "guest.bin";
  binary = 244 ∷ [];
  expected = ok (sub_string (codes "booted"));
  message = codes "expected output not found";
}

abbrev config : Config
config = load (λ name. none)

run_guest_bin_end_example :
    EndsWith
      (TempDirEnd machine launcher bench (codes "failed to create temp dir") λ dir.
        FailsOr (codes "failed to write guest binary") (
          ProcessEnd machine launcher bench
            (codes "failed to spawn QEMU process")
            config
            (Builder.new dir (guest_bin (path_join dir test.file_name)))
            (Passes machine launcher bench test.expected)))
      (run_guest_bin machine launcher bench test config)
      boot
run_guest_bin_end_example = run_guest_bin_end machine launcher bench test config boot

test_quit_terminates_end_example :
    EndsWith
      (TempDirEnd machine launcher bench (codes "failed to create temp dir") λ dir.
        FailsOr (codes "failed to write guest binary") (
          SpawnedOr machine launcher bench
            (codes "failed to spawn QEMU process")
            config
            (quit_config dir pc 1)
            (QuitDone machine launcher bench)))
      (test_quit_terminates machine launcher bench pc 1 500 (244 ∷ []) config)
      boot
test_quit_terminates_end_example =
    test_quit_terminates_end machine launcher bench pc 1 500 (244 ∷ []) config boot
