-- ===== src/Migration/Guests/Tests.antt =====
-- A guest binary that is migrated on the sample machine.
use qemu_test.Prelude.{Bool, true, none, [], ◌∷◌, Text, codes, Result, ok, arith}
use qemu_test.Config.{Config, load}
use qemu_test.Guest.Builder.{with_incoming}
use qemu_test.Guest.Builder
use qemu_test.Host.Sample.{World, boot, machine}
use qemu_test.Process.Spawn.{QemuProcess}
use qemu_test.Scenario.Sample.{launcher, bench}
use qemu_test.Scenario.Ends.{EndsWith, TempDirEnd, ProcessEnd}
use qemu_test.Migration.Guests.{
  MigrationTest, payload_of, test_live_migration_simple, run_migration,
}
use qemu_test.Migration.Guests.Ends.{BootEnd, ReadyEnd, Arrived, run_migration_end}

abbrev accepts : QemuProcess machine launcher → Text → World → Result (Unit {0}) × World
accepts process address w = (ok tt, w)

abbrev same : Unit {0} → Unit {0} → Bool
same a b = true

abbrev test : MigrationTest
test = test_live_migration_simple (244 ∷ [])

abbrev config : Config
config = load (λ name. none)

run_migration_end_example :
    EndsWith
      (TempDirEnd machine launcher bench (codes "failed to create src temp dir") λ src_dir.
        TempDirEnd machine launcher bench (codes "failed to create dst temp dir") λ dst_dir.
          TempDirEnd machine launcher bench (codes "failed to create migration temp dir") λ mig_dir.
            let cfg = test.configure (Builder.new src_dir (payload_of test.boot src_dir)) in
            BootEnd test.boot (
              ProcessEnd machine launcher bench
                (codes "failed to spawn source VM")
                config
                cfg
                λ src. ReadyEnd test.ready (
                  ProcessEnd machine launcher bench
                    (codes "failed to spawn dest VM")
                    config
                    (with_incoming cfg dst_dir)
                    (Arrived machine launcher bench same tt tt accepts accepts test src))))
      (run_migration machine launcher bench same tt tt accepts accepts test config)
      boot
run_migration_end_example =
    run_migration_end machine launcher bench same tt tt accepts accepts (λ process w. omega arith)
      test config boot
