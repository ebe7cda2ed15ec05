-- ===== src/Migration/Os.antt =====
-- `test_live_migration_os` of src/tests/migration.rs: an operating system that is migrated while it can
-- be reached over SSH by the pair of tap devices of the test. The store of TAP_POOL and the paths that
-- exist are parameters, as the QMP calls of a migration are.
pub mod Ready
pub mod Ends
mod Tests
use qemu_test.Prelude.{
  ℕ, ◌+◌, ◌/◌, Bool, true, false, [], ◌∷◌, Text, codes, path_join, text_eq, if◌then◌else◌, Result,
  ensure,
}
use qemu_test.Config.{Config}
use qemu_test.Options.{Machine, host, disk_image, RtcClock}
use qemu_test.Options.Net.{NetConfig, generate_mac, tap_config}
use qemu_test.Guest.Builder.{
  QemuConfig, with_incoming, with_machine, with_smp, with_cloud_init, with_net, with_cpu_model,
  with_rtc_clock,
}
use qemu_test.Guest.Builder
use qemu_test.Host.{Host, from_millis, from_secs}
use qemu_test.Host.Task.{Task, ◌>>=◌, ◌>>◌, pure, given, ask, with_context}
use qemu_test.CloudInit.{CloudInitDisk, with_net_config, with_write_files}
use qemu_test.Process.Spawn.{Launcher, QemuProcess}
use qemu_test.Scenario.Outside.{Bench}
use qemu_test.Scenario.{with_local, with_process, with_temp_dir}
use qemu_test.Scenario.Remote.{
  Remote, os_ready_pattern, os_image, prepare_disk, await_pattern, run_ssh,
}
use qemu_test.Taps.{TapPair, Pool, init_tap_pool, allocate_taps, gateway}
use qemu_test.Taps
use qemu_test.Migration.{do_migration}
use qemu_test.Migration.Guests.{peer, migration_timeout}

abbrev pub os_boot_timeout : ℕ
os_boot_timeout = from_secs 60

abbrev pub migration_stress_timeout : ℕ
migration_stress_timeout = from_secs 60

abbrev pub ssh_timeout : ℕ
ssh_timeout = from_secs 30

-- the port of `sshd` in the guest
abbrev pub ssh_port : ℕ
ssh_port = 22

abbrev pub timeout_of : Bool → ℕ
timeout_of stress_ng = if stress_ng then migration_stress_timeout else migration_timeout

-- the rounds that each poll of a migration needs at most
abbrev pub status_fuel : ℕ → ℕ
status_fuel timeout = timeout / from_millis 200 + 2

unfoldable pub configure_disk : Bool → NetConfig → CloudInitDisk → CloudInitDisk
configure_disk stress_ng net disk =
    let ci = with_net_config disk net in
    if stress_ng
    then with_write_files ci (
        (
          codes "/etc/default/qemu-mshv-selftest-stress",
          codes "STRESS_NG_ARGS=\"--cpu 0 --vm 1 --vm-bytes 128M --timeout 0\"",
        )
        ∷ [])
    else ci

-- `base_cfg`: the directory, the disk and the net of the source
unfoldable pub base_config : Text → CloudInitDisk → NetConfig → Machine → ℕ → QemuConfig
base_config dir ci net machine smp =
    let cfg = with_machine (Builder.new dir (disk_image os_image)) machine in
    let cfg' = with_cloud_init (with_smp (with_cpu_model cfg host) smp) ci.path in
    with_rtc_clock (with_net cfg' net) RtcClock.vm

-- TAP_POOL in the state of the machine, and whether a path exists there
pub record TapStore (h : Host) : Type 0 where
  pub pool : h.W → Pool
  pub set_pool : Pool → h.W → h.W
  pub path_exists : h.W → Text → Bool

module _ (h : Host) (store : TapStore h) where
  unfoldable pub allocate : Config → h.W → Result TapPair × h.W
  allocate config w =
      let (taps, pool) =
        allocate_taps (init_tap_pool (store.path_exists w) config) (store.pool w) in
      (taps, store.set_pool pool w)

  -- the drop of a `TapPair`
  unfoldable pub give_back : TapPair → h.W → h.W
  give_back taps w = store.set_pool (Taps.drop taps.pair_index (store.pool w)) w

module _ (h : Host) (l : Launcher h) (b : Bench h l) (n : Remote h l) where
  unfoldable pub random_mac : h.W → Text × h.W
  random_mac w = let ((x, y, z), w') = n.random w in (generate_mac x y z, w')

  -- the closure `do_ssh`
  unfoldable pub do_ssh : CloudInitDisk → TapPair → Text → Task h.W Text
  do_ssh ci taps cmd = run_ssh h l b n ci.ssh_key_path taps.guest_host ssh_port cmd ssh_timeout

  unfoldable pub start_stress : Bool → CloudInitDisk → TapPair → Task h.W (Unit {0})
  start_stress false ci taps = pure tt
  start_stress true ci taps = do
    output ←
        with_context
          (do_ssh ci taps (codes "sudo systemctl start stress-ng && systemctl is-active stress-ng"))
          (codes "failed to start stress-ng in guest")
    pure tt

  -- whether it runs still
  unfoldable pub check_stress : Bool → CloudInitDisk → TapPair → Task h.W (Unit {0})
  check_stress false ci taps = pure tt
  check_stress true ci taps = do
    output ←
        with_context (do_ssh ci taps (codes "systemctl is-active stress-ng"))
          (codes "failed to verify stress-ng is active after migration")
    given
        (ensure (text_eq output (codes "active")) (codes "stress-ng is not active after migration"))

  -- behind the start of the source
  unfoldable pub ready_source :
      Bool → CloudInitDisk → TapPair → QemuProcess h l → Task h.W (Unit {0})
  unfolding start_stress
  ready_source stress_ng ci taps src = do
    pattern ← given (b.compile os_ready_pattern)
    with_context (await_pattern h l b n src pattern os_boot_timeout)
        (codes "source VM did not boot")
    output ← do_ssh ci taps (codes "true && echo SSH OK")
    start_stress stress_ng ci taps

  module _ (store : TapStore h) (state_eq : b.RunState → b.RunState → Bool)
      (running postmigrate : b.RunState)
      (migrate_incoming migrate : QemuProcess h l → Text → h.W → Result (Unit {0}) × h.W) where
    -- behind the start of the destination
    unfoldable pub migrate_os :
        Bool
        → CloudInitDisk
        → TapPair
        → Text
        → QemuProcess h l
        → QemuProcess h l
        → Task h.W (Unit {0})
    unfolding check_stress
    migrate_os stress_ng ci taps mig_sock src dst = do
      do_migration h state_eq running postmigrate
          (peer h l b state_eq running postmigrate migrate_incoming migrate src)
          (peer h l b state_eq running postmigrate migrate_incoming migrate dst)
          (status_fuel (timeout_of stress_ng)) mig_sock (timeout_of stress_ng)
      check_stress stress_ng ci taps

    -- behind the allocation of the pair
    unfoldable pub migrate_with :
        Machine → ℕ → Bool → Config → Text → Text → Text → Text → TapPair → Task h.W (Unit {0})
    unfolding ready_source migrate_os
    migrate_with machine smp stress_ng config src_dir dst_dir mig_dir mac taps = do
      let src_net = tap_config (Taps.src taps) (Taps.guest_ip taps) gateway mac
      let dst_net = tap_config (Taps.dst taps) (Taps.guest_ip taps) gateway mac
      ci ← prepare_disk h l b n src_dir (configure_disk stress_ng src_net)
      let base_cfg = base_config src_dir ci src_net machine smp
      with_process h l b (codes "failed to spawn source VM") config base_cfg λ src. do
        ready_source stress_ng ci taps src
        with_process h l b (codes "failed to spawn destination VM") config
            (with_net (with_incoming base_cfg dst_dir) dst_net)
            (migrate_os stress_ng ci taps (path_join mig_dir (codes "migration.sock")) src)

    unfoldable pub test_live_migration_os : Machine → ℕ → Bool → Config → Task h.W (Unit {0})
    unfolding migrate_with
    test_live_migration_os machine smp stress_ng config =
        with_temp_dir h l b (codes "failed to create src temp dir") λ src_dir.
          with_temp_dir h l b (codes "failed to create dst temp dir") λ dst_dir.
            with_temp_dir h l b (codes "failed to create migration temp dir") λ mig_dir. do
              mac ← ask random_mac
              with_local (allocate h store config) (give_back h store)
                  (codes "failed to allocate tap devices")
                  (migrate_with machine smp stress_ng config src_dir dst_dir mig_dir mac)
