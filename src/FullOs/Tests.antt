-- ===== src/FullOs/Tests.antt =====
-- The tests of an operating system on the sample machine, whose log has one line.
use qemu_test.Prelude.{true, none, ltb}
use qemu_test.Number.{decimal, parse_usize}
use qemu_test.Config.{Config, load}
use qemu_test.Options.{host, q35}
use qemu_test.Host.Sample.{boot, machine}
use qemu_test.Scenario.Sample.{launcher, bench, remote}
use qemu_test.Scenario.Ends.{EndsWith}
use qemu_test.FullOs.{boot_config, reboot_config, test_os_boot, test_os_reboot}
use qemu_test.FullOs.Disk.{DiskEnd}
use qemu_test.FullOs.Boot.{Booted, test_os_boot_end}
use qemu_test.FullOs.Reboot.{Rebooted, test_os_reboot_end}

abbrev config : Config
config = load (λ name. none)

test_os_boot_end_example :
    EndsWith
      (DiskEnd machine launcher bench remote config
        (λ dir net ci. boot_config dir ci net host q35 2 none true)
        (Booted machine launcher bench remote))
      (test_os_boot machine launcher bench remote host q35 2 none true config)
      boot
test_os_boot_end_example =
    test_os_boot_end machine launcher bench remote host q35 2 none true config boot

test_os_reboot_end_example :
    EndsWith
      (DiskEnd machine launcher bench remote config
        (λ dir net ci. reboot_config dir ci net 2)
        (Rebooted machine launcher bench remote parse_usize decimal ltb))
      (test_os_reboot machine launcher bench remote parse_usize decimal ltb 2 config)
      boot
test_os_reboot_end_example =
    test_os_reboot_end machine launcher bench remote parse_usize decimal ltb 2 config boot
