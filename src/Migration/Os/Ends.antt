-- ===== src/Migration/Os/Ends.antt =====
-- What `test_live_migration_os` of src/tests/migration.rs returns, and what it leaves.
use qemu_test.Prelude.{ℕ, Bool, Text, codes, path_join, Result}
use qemu_test.Config.{Config}
use qemu_test.Options.{Machine}
use qemu_test.Options.Net.{tap_config}
use qemu_test.Guest.Builder.{with_incoming, with_net}
use qemu_test.Host.{Host, IsForward}
use qemu_test.Host.Task.{Succeeds}
use qemu_test.Host.Task.Told.{IsTold, Told, ◌>>◌, retell, known, total-IsTold}
use qemu_test.CloudInit.{CloudInitDisk}
use qemu_test.Process.Spawn.{Launcher, QemuProcess}
use qemu_test.Scenario.Outside.{Bench}
use qemu_test.Scenario.Ends.{
  EndsWith, Returns, LocalEnd, ProcessEnd, TempDirEnd, with_local-LocalEnd, with_process-ProcessEnd,
  with_temp_dir-TempDirEnd,
}
use qemu_test.Scenario.Remote.{Remote, prepare_disk}
use qemu_test.Scenario.Remote.Made.{MadeOr, task-MadeOr, Passed, IsTold-Passed}
use qemu_test.Scenario.Remote.Told.{Prepared, prepare_disk-Prepared}
use qemu_test.Taps.{TapPair, gateway}
use qemu_test.Taps
use qemu_test.Migration.{do_migration}
use qemu_test.Migration.Success.{do_migration_total}
use qemu_test.Migration.Guests.{peer}
use qemu_test.Migration.Os.{
  timeout_of, status_fuel, configure_disk, base_config, TapStore, allocate, give_back, random_mac,
  check_stress, ready_source, migrate_os, migrate_with, test_live_migration_os,
}
use qemu_test.Migration.Os.Ready.{Active, check_stress-Active, IsReady, ready_source-IsReady}

-- the pair is pushed to the pool as it is then
abbrev pub put_back : {h : Host} → TapStore h → TapPair → h.W → h.W
put_back store taps w = store.set_pool (Taps.drop taps.pair_index (store.pool w)) w

module _ (h : Host) (l : Launcher h) (b : Bench h l) (n : Remote h l) (store : TapStore h)
    (state_eq : b.RunState → b.RunState → Bool) (running postmigrate : b.RunState)
    (migrate_incoming migrate : QemuProcess h l → Text → h.W → Result (Unit {0}) × h.W)
    (queries : (process : QemuProcess h l) → IsForward h (b.query_status process)) where
  -- From one state to another: `do_migration` succeeded on the two processes, and then the load was
  -- found active in the guest, if there is to be one.
  abbrev pub Moved :
      Bool → CloudInitDisk → TapPair → Text → QemuProcess h l → QemuProcess h l → h.W → h.W → Type 0
  Moved stress_ng ci taps mig_sock src dst w w' =
      (v : h.W) × Succeeds
        (do_migration h state_eq running postmigrate
          (peer h l b state_eq running postmigrate migrate_incoming migrate src)
          (peer h l b state_eq running postmigrate migrate_incoming migrate dst)
          (status_fuel (timeout_of stress_ng)) mig_sock (timeout_of stress_ng))
        w tt v
      × Active h l b n stress_ng ci taps v w'

  migrate_os-Moved :
      (stress_ng : Bool) (ci : CloudInitDisk) (taps : TapPair) (mig_sock : Text)
      (src dst : QemuProcess h l)
      → IsTold
          (λ w (done : Unit {0}) w'. Moved stress_ng ci taps mig_sock src dst w w')
          (migrate_os h l b n store state_eq running postmigrate migrate_incoming migrate stress_ng
            ci taps mig_sock src dst)
  unfolding migrate_os
  migrate_os-Moved stress_ng ci taps mig_sock src dst =
      let from = peer h l b state_eq running postmigrate migrate_incoming migrate src in
      let to = peer h l b state_eq running postmigrate migrate_incoming migrate dst in
      let timeout = timeout_of stress_ng in
      let told : Told _ = (do
        known _ (
            total-IsTold
              (do_migration h state_eq running postmigrate from to (status_fuel timeout) mig_sock
                timeout)
              (λ w.
                do_migration_total h state_eq running postmigrate from to mig_sock timeout w
                  (queries dst) (queries src)))
        known (check_stress h l b n stress_ng ci taps)
            (check_stress-Active h l b n stress_ng ci taps)) in
      retell _ _ _ told.1 λ w done w' (moved, v, s, active). (v, s, active)

  -- behind the allocation of the pair
  abbrev pub PairEnd :
      Machine
      → ℕ
      → Bool
      → Config
      → Text
      → Text
      → Text
      → Text
      → TapPair
      → Result (Unit {0})
      → h.W
      → Type 0
  PairEnd machine smp stress_ng config src_dir dst_dir mig_dir mac taps =
      let src_net = tap_config (Taps.src taps) (Taps.guest_ip taps) gateway mac in
      let dst_net = tap_config (Taps.dst taps) (Taps.guest_ip taps) gateway mac in
      MadeOr (prepare_disk h l b n src_dir (configure_disk stress_ng src_net))
        (Prepared h l b n src_dir (configure_disk stress_ng src_net))
        λ ci.
          let base_cfg = base_config src_dir ci src_net machine smp in
          ProcessEnd h l b (codes "failed to spawn source VM") config base_cfg λ src.
            MadeOr (ready_source h l b n stress_ng ci taps src)
              (λ w (done : Unit {0}) w'. IsReady h l b n stress_ng ci taps src w w')
              λ done.
                ProcessEnd h l b (codes "failed to spawn destination VM") config
                  (with_net (with_incoming base_cfg dst_dir) dst_net)
                  λ dst.
                    Passed
                      (Moved stress_ng ci taps (path_join mig_dir (codes "migration.sock")) src dst)

  migrate_with-PairEnd :
      (machine : Machine) (smp : ℕ) (stress_ng : Bool) (config : Config)
      (src_dir dst_dir mig_dir mac : Text) (taps : TapPair)
      → Returns (PairEnd machine smp stress_ng config src_dir dst_dir mig_dir mac taps) (
          migrate_with h l b n store state_eq running postmigrate migrate_incoming migrate machine
            smp stress_ng config src_dir dst_dir mig_dir mac taps)
  unfolding migrate_with
  migrate_with-PairEnd machine smp stress_ng config src_dir dst_dir mig_dir mac taps =
      let mig_sock = path_join mig_dir (codes "migration.sock") in
      task-MadeOr _ _ _ _ (prepare_disk-Prepared h l b n src_dir _) λ ci.
        with_process-ProcessEnd h l b _ (codes "failed to spawn source VM") config _ _ λ src.
          task-MadeOr _ _ _ _ (ready_source-IsReady h l b n stress_ng ci taps src) λ done.
            with_process-ProcessEnd h l b _ (codes "failed to spawn destination VM") config _ _
              λ dst.
                IsTold-Passed (Moved stress_ng ci taps mig_sock src dst) _
                  (migrate_os-Moved stress_ng ci taps mig_sock src dst)

  -- If asking for the state of a guest does not turn back the clock, then `test_live_migration_os`
  -- returns, and either its error is that of what could not be made or got ready, or it got further:
  -- the directories, the pair of tap devices, the disk and the process of the source are made, the
  -- source shows a line that matches the pattern, answers over SSH and starts the load, if there is
  -- to be one, and the process of the destination is made. Whatever it returns, for each process that
  -- was made the status of the child has been collected, or asking for it failed last, that of the
  -- destination first; then the pair is put back into the pool, and then the directories are removed.
  -- It passes only if `do_migration` succeeded on the two processes, and the load was then found
  -- active in the guest, if there is to be one.
  pub test_live_migration_os_end :
      (machine : Machine) (smp : ℕ) (stress_ng : Bool) (config : Config) (w : h.W)
      → EndsWith
          (TempDirEnd h l b (codes "failed to create src temp dir") λ src_dir.
            TempDirEnd h l b (codes "failed to create dst temp dir") λ dst_dir.
              TempDirEnd h l b (codes "failed to create migration temp dir") λ mig_dir r w'.
                (mac : Text) × LocalEnd
                  (allocate h store config)
                  (put_back store)
                  (codes "failed to allocate tap devices")
                  (PairEnd machine smp stress_ng config src_dir dst_dir mig_dir mac)
                  r
                  w')
          (test_live_migration_os h l b n store state_eq running postmigrate migrate_incoming
            migrate machine smp stress_ng config)
          w
  unfolding test_live_migration_os give_back
  test_live_migration_os_end machine smp stress_ng config =
      with_temp_dir-TempDirEnd h l b _ (codes "failed to create src temp dir") _ λ src_dir.
        with_temp_dir-TempDirEnd h l b _ (codes "failed to create dst temp dir") _ λ dst_dir.
          with_temp_dir-TempDirEnd h l b _ (codes "failed to create migration temp dir") _
            λ mig_dir w.
              let mac = (random_mac h l b n w).0 in
              let (r, w', e, met) =
                with_local-LocalEnd (allocate h store config) (put_back store)
                  (PairEnd machine smp stress_ng config src_dir dst_dir mig_dir mac)
                  (codes "failed to allocate tap devices") _
                  (migrate_with-PairEnd machine smp stress_ng config src_dir dst_dir mig_dir mac)
                  (random_mac h l b n w).1 in
              (r, w', e, (mac, met))
