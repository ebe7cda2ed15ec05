-- ===== src/Process/Spawn/Tests.antt =====
-- A process that is started on the sample machine, and whose handshake fails.
use qemu_test.Prelude.{ℕ, ◌≡◌, refl, true, false, some, none, codes, Result, ok, bail, arith}
use qemu_test.Config.{Config, load}
use qemu_test.Options.{guest_bin}
use qemu_test.Guest.Builder.{QemuConfig, new}
use qemu_test.Host.Sample.{World, boot, machine}
use qemu_test.Process.Spawn.{Launcher, QemuProcess, connect_fuel, spawn}
use qemu_test.Process.Spawn.Fails.{SpawnEnd, spawn_end}

abbrev launcher : Launcher machine
launcher = record {
  Pid = ℕ;
  Stream = Unit;
  Qmp = Unit;
  File = Unit;
  start = λ name list w. (ok 7, record w { reaped = false });
  exists = λ path w. (true, w);
  connect_stream = λ path w. (ok tt, w);
  set_read_timeout = λ s d w. (ok tt, w);
  set_write_timeout = λ s d w. (ok tt, w);
  try_clone = λ s w. (ok tt, w);
  handshake = λ s t w. (bail (codes "connection reset"), w);
  open_file = λ path w. (ok tt, w);
  fmt_debug = λ text. text;
}

abbrev config : Config
config = load (λ name. none)

abbrev guest : QemuConfig
guest = new (codes "/tmp/a") (guest_bin (codes "/tmp/a/guest.bin"))

abbrev IsUnreaped : ℕ → World → Type 0
IsUnreaped child w = w.reaped ≡ false

spawn_end_example :
    (r : Result (QemuProcess machine launcher)) × (w' : World) × (spawn machine launcher
        connect_fuel config guest boot
      ≡ (some r, w'))
    × SpawnEnd machine launcher
        (λ path w. omega arith)
        IsUnreaped
        (λ name list child w e. refl)
        (λ d child w u. u)
        (λ path child w u. u)
        (λ path child w u. u)
        (λ s d child w u. u)
        (λ s d child w u. u)
        (λ s child w u. u)
        (λ s t child w u. u)
        (λ path child w u. u)
        config
        guest
        boot
        r
        w'
spawn_end_example =
    spawn_end machine launcher (λ path w. omega arith) IsUnreaped (λ name list child w e. refl)
      (λ d child w u. u) (λ path child w u. u) (λ path child w u. u) (λ s d child w u. u)
      (λ s d child w u. u) (λ s child w u. u) (λ s t child w u. u) (λ path child w u. u) config
      guest boot
