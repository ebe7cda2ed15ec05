-- ===== src/FullOs.antt =====
-- The tests of src/tests/full_os.rs, which boot an operating system and work in it over SSH. The parse
-- of a number of type `f64`, its print and its comparison are parameters.
pub mod Disk
pub mod Boot
pub mod Reboot
mod Tests
use qemu_test.Prelude.{
  ℕ, Bool, true, false, Option, none, some, List, [], ◌∷◌, Text, codes, concat, text_eq,
  if◌then◌else◌, Result, ensure, option_context,
}
use qemu_test.Config.{Config}
use qemu_test.Options.{Machine, CpuModel, haswell_v2, QemuPayload, disk_image}
use qemu_test.Options.Net.{NetConfig}
use qemu_test.Guest.Builder.{
  QemuConfig, with_machine, with_smp, with_cloud_init, with_net, with_cpu_model, with_ovmf,
  with_io_thread, with_allow_reboot,
}
use qemu_test.Guest.Builder
use qemu_test.Host.{Host, from_secs}
use qemu_test.Host.Task.{Task, ◌>>=◌, ◌>>◌, given, call, act, ask, with_context}
use qemu_test.CloudInit.{CloudInitDisk, with_net_config}
use qemu_test.Process.Port.{split_whitespace}
use qemu_test.Process.Spawn.{Launcher, QemuProcess}
use qemu_test.Scenario.Outside.{Bench}
use qemu_test.Scenario.{with_process, with_temp_dir}
use qemu_test.Scenario.Remote.{
  Remote, os_ready_pattern, os_image, user_net_of, prepare_disk, port_of, await_pattern, run_ssh,
  fire_ssh,
}

abbrev pub boot_timeout : ℕ
boot_timeout = from_secs 45

abbrev pub reboot_timeout : ℕ
reboot_timeout = from_secs 60

abbrev pub ssh_timeout : ℕ
ssh_timeout = from_secs 10

abbrev pub local_host : Text
local_host = codes "localhost"

abbrev pub optional_ovmf : QemuConfig → Option Text → QemuConfig
optional_ovmf cfg none = cfg
optional_ovmf cfg (some path) = with_ovmf cfg path

abbrev pub optional_io_thread : QemuConfig → Bool → QemuConfig
optional_io_thread cfg io_thread = if io_thread then with_io_thread cfg else cfg

-- the first field of the output of `cat /proc/uptime`
abbrev pub first_field : List Text → Option Text
first_field [] = none
first_field (field ∷ fields) = some field

-- the configuration of `test_os_boot`: the directory, the disk, the net, and the parameters
unfoldable pub boot_config :
    Text → CloudInitDisk → NetConfig → CpuModel → Machine → ℕ → Option Text → Bool → QemuConfig
boot_config dir ci net cpu machine smp ovmf io_thread =
    let cfg = with_machine (Builder.new dir (disk_image os_image)) machine in
    let cfg' = with_net (with_cloud_init (with_smp cfg smp) ci.path) net in
    optional_io_thread (optional_ovmf (with_cpu_model cfg' cpu) ovmf) io_thread

-- the configuration of `test_os_reboot`
unfoldable pub reboot_config : Text → CloudInitDisk → NetConfig → ℕ → QemuConfig
reboot_config dir ci net smp =
    let cfg = with_smp (Builder.new dir (disk_image os_image)) smp in
    with_allow_reboot (with_net (with_cloud_init (with_cpu_model cfg haswell_v2) ci.path) net)

module _ (h : Host) (l : Launcher h) (b : Bench h l) (n : Remote h l) where
  -- from the start of the test on: `process` is the rest, on the network and the disk
  unfoldable pub with_disk :
      (Text → NetConfig → CloudInitDisk → Task h.W (Unit {0})) → Task h.W (Unit {0})
  with_disk process = with_temp_dir h l b (codes "failed to create temp dir") λ dir. do
    net ← ask (user_net_of h l b n)
    ci ← prepare_disk h l b n dir (λ disk. with_net_config disk net)
    process dir net ci

  -- behind the start of the process
  unfoldable pub check_boot : CloudInitDisk → QemuProcess h l → Task h.W (Unit {0})
  check_boot ci process = do
    port ← port_of h l b n process
    status ← with_context (call (b.query_status process)) (codes "query_status failed")
    pattern ← given (b.compile os_ready_pattern)
    with_context (await_pattern h l b n process pattern boot_timeout)
        (codes "cloud-init did not finish")
    hostname ← run_ssh h l b n ci.ssh_key_path local_host port (codes "hostname") ssh_timeout
    given (
        ensure (text_eq hostname (codes "cloud"))
          (concat (codes "unexpected hostname: " ∷ hostname ∷ [])))

  unfoldable pub test_os_boot :
      CpuModel → Machine → ℕ → Option Text → Bool → Config → Task h.W (Unit {0})
  unfolding with_disk check_boot boot_config
  test_os_boot cpu machine smp ovmf io_thread config = with_disk λ dir net ci.
      with_process h l b (codes "failed to spawn QEMU process") config
        (boot_config dir ci net cpu machine smp ovmf io_thread) (check_boot ci)

  module _ {F64 : Type 0} (parse : Text → Result F64) (print : F64 → Text)
      (is_below : F64 → ℕ → Bool) where
    pub uptime_too_high : F64 → Text
    uptime_too_high uptime_secs = concat (
        codes "uptime too high after reboot ("
        ∷ print uptime_secs
        ∷ codes "s), reboot may not have occurred"
        ∷ [])

    -- what is made of the output of `cat /proc/uptime`
    unfoldable pub check_uptime : Text → Task h.W (Unit {0})
    check_uptime uptime = do
      field ←
          given
            (option_context (first_field (split_whitespace uptime)) (codes "empty uptime output"))
      uptime_secs ← with_context (given (parse field)) (codes "failed to parse uptime")
      given (ensure (is_below uptime_secs 120) (uptime_too_high uptime_secs))

    -- behind the start of the process
    unfoldable pub check_reboot : CloudInitDisk → QemuProcess h l → Task h.W (Unit {0})
    unfolding check_uptime
    check_reboot ci process = do
      port ← port_of h l b n process
      pattern ← given (b.compile os_ready_pattern)
      with_context (await_pattern h l b n process pattern boot_timeout)
          (codes "initial boot did not complete")
      hostname ←
          with_context
            (run_ssh h l b n ci.ssh_key_path local_host port (codes "hostname") ssh_timeout)
            (codes "SSH failed before reboot")
      act (fire_ssh h l b n ci.ssh_key_path local_host port (codes "sudo reboot"))
      again ← given (b.compile os_ready_pattern)
      with_context (await_pattern h l b n process again reboot_timeout)
          (codes "guest did not come back after reboot")
      uptime ←
          with_context
            (run_ssh h l b n ci.ssh_key_path local_host port (codes "cat /proc/uptime") ssh_timeout)
            (codes "SSH failed after reboot")
      check_uptime uptime

    unfoldable pub test_os_reboot : ℕ → Config → Task h.W (Unit {0})
    unfolding with_disk check_reboot reboot_config
    test_os_reboot smp config = with_disk λ dir net ci.
        with_process h l b (codes "failed to spawn QEMU process") config
          (reboot_config dir ci net smp) (check_reboot ci)
