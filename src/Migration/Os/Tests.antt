-- ===== src/Migration/Os/Tests.antt =====
-- An operating system that is migrated on the sample machine.
use qemu_test.Prelude.{Bool, true, none, Text, codes, Result, ok, arith}
use qemu_test.Config.{Config, load}
use qemu_test.Options.{q35}
use qemu_test.Host.Sample.{World, boot, machine}
use qemu_test.Process.Spawn.{QemuProcess}
use qemu_test.Scenario.Sample.{launcher, bench, remote, store}
use qemu_test.Scenario.Ends.{EndsWith, TempDirEnd, LocalEnd}
use qemu_test.Migration.Os.{allocate, test_live_migration_os}
use qemu_test.Migration.Os.Ends.{put_back, PairEnd, test_live_migration_os_end}

abbrev accepts : QemuProcess machine launcher → Text → World → Result (Unit {0}) × World
accepts process address w = (ok tt, w)

abbrev same : Unit {0} → Unit {0} → Bool
same a b = true

abbrev config : Config
config = load (λ name. none)

test_live_migration_os_end_example :
    EndsWith
      (TempDirEnd machine launcher bench (codes "failed to create src temp dir") λ src_dir.
        TempDirEnd machine launcher bench (codes "failed to create dst temp dir") λ dst_dir.
          TempDirEnd machine launcher bench
            (codes "failed to create migration temp dir")
            λ mig_dir r w'.
              (mac : Text) × LocalEnd
                (allocate machine store config)
                (put_back store)
                (codes "failed to allocate tap devices")
                (PairEnd machine launcher bench remote store same tt tt accepts accepts
                  (λ process w. omega arith)
                  q35
                  2
                  true
                  config
                  src_dir
                  dst_dir
                  mig_dir
                  mac)
                r
                w')
      (test_live_migration_os machine launcher bench remote store same tt tt accepts accepts q35 2
        true config)
      boot
test_live_migration_os_end_example =
    test_live_migration_os_end machine launcher bench remote store same tt tt accepts accepts
      (λ process w. omega arith) q35 2 true config boot
