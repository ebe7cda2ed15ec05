-- ===== src/Guest/Builder.antt =====
-- `QemuConfig` and its builder, and the configuration that `QemuProcess::spawn` makes of it. The
-- temporary directory is its path.
use qemu_test.Prelude.{
  ℕ, Bool, true, false, Option, none, some, [], ◌∷◌, Text, codes, concat, Result, ok, ◌>>=◌,
}
use qemu_test.Config.{Config, accel as config_accel}
use qemu_test.Options.{
  Accelerator, Machine, CpuModel, RtcClock, QemuPayload, guest_bin, kernel, disk_image, pc,
}
use qemu_test.Options.Net.{NetConfig}
use qemu_test.Guest.{GuestConfig}

pub record QemuConfig : Type 0 where
  pub temp_dir : Text
  pub payload : QemuPayload
  pub ram_mb : ℕ
  pub incoming : Bool
  pub machine : Machine
  pub smp : Option ℕ
  pub cpu_model : Option CpuModel
  pub cloud_init : Option Text
  pub net : Option NetConfig
  pub ovmf : Option Text
  pub io_thread : Bool
  pub rtc_clock : Option RtcClock
  pub allow_reboot : Bool

abbrev pub default_ram_mb : QemuPayload → ℕ
default_ram_mb (guest_bin path) = 32
default_ram_mb (kernel path initrd) = 256
default_ram_mb (disk_image path) = 1536

unfoldable pub new : Text → QemuPayload → QemuConfig
new temp_dir payload = record {
  temp_dir = temp_dir;
  payload = payload;
  ram_mb = default_ram_mb payload;
  incoming = false;
  machine = pc;
  smp = none;
  cpu_model = none;
  cloud_init = none;
  net = none;
  ovmf = none;
  io_thread = false;
  rtc_clock = none;
  allow_reboot = false;
}

unfoldable pub with_incoming : QemuConfig → Text → QemuConfig
with_incoming self temp_dir = record self { incoming = true; temp_dir = temp_dir }

unfoldable pub with_machine : QemuConfig → Machine → QemuConfig
with_machine self machine = record self { machine = machine }

unfoldable pub with_smp : QemuConfig → ℕ → QemuConfig
with_smp self smp = record self { smp = some smp }

unfoldable pub with_cpu_model : QemuConfig → CpuModel → QemuConfig
with_cpu_model self cpu_model = record self { cpu_model = some cpu_model }

unfoldable pub with_cloud_init : QemuConfig → Text → QemuConfig
with_cloud_init self path = record self { cloud_init = some path }

unfoldable pub with_net : QemuConfig → NetConfig → QemuConfig
with_net self config = record self { net = some config }

unfoldable pub with_ovmf : QemuConfig → Text → QemuConfig
with_ovmf self path = record self { ovmf = some path }

unfoldable pub with_io_thread : QemuConfig → QemuConfig
with_io_thread self = record self { io_thread = true }

unfoldable pub with_rtc_clock : QemuConfig → RtcClock → QemuConfig
with_rtc_clock self clock = record self { rtc_clock = some clock }

unfoldable pub with_allow_reboot : QemuConfig → QemuConfig
with_allow_reboot self = record self { allow_reboot = true }

-- the first half of `spawn`, up to the command line
unfoldable pub guest_config : QemuConfig → Accelerator → GuestConfig
guest_config cfg accel = record {
  ram_mb = cfg.ram_mb;
  qmp_sock_path = concat (cfg.temp_dir ∷ codes "/qmp.sock" ∷ []);
  serial_log_path = concat (cfg.temp_dir ∷ codes "/serial.log" ∷ []);
  accel = accel;
  machine = cfg.machine;
  payload = some cfg.payload;
  smp = cfg.smp;
  incoming = cfg.incoming;
  cpu_model = cfg.cpu_model;
  cloud_init = cfg.cloud_init;
  net = cfg.net;
  ovmf = cfg.ovmf;
  io_thread = cfg.io_thread;
  rtc_clock = cfg.rtc_clock;
  allow_reboot = cfg.allow_reboot;
}

unfoldable pub spawn_config : Config → QemuConfig → Result GuestConfig
unfolding guest_config
spawn_config config cfg = do accel ← config_accel config; ok (guest_config cfg accel)
