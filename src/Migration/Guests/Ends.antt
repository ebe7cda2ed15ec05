-- ===== src/Migration/Guests/Ends.antt =====
-- What the tests of src/tests/migration.rs return, and what they leave.
use qemu_test.Prelude.{◌≡◌, refl, Bool, Option, none, some, Text, codes, path_join, Result, ok, err}
use qemu_test.Config.{Config}
use qemu_test.Host.{Host, IsForward}
use qemu_test.Guest.Builder.{with_incoming}
use qemu_test.Guest.Builder
use qemu_test.Host.Task.{Task}
use qemu_test.Process.Serial.{sub_string}
use qemu_test.Process.Spawn.{Launcher, QemuProcess}
use qemu_test.Scenario.Outside.{Bench}
use qemu_test.Scenario.Ends.{
  EndsWith, Returns, FailsOr, ProcessEnd, TempDirEnd, task-FailsOr, call-FailsOr,
  with_process-ProcessEnd, with_temp_dir-TempDirEnd,
}
use qemu_test.Scenario.Seen.{poll_line-Returns}
use qemu_test.Migration.{do_migration}
use qemu_test.Migration.Success.{do_migration_total}
use qemu_test.Migration.Guests.Shown.{Shown, check_arrival-Shown}
use qemu_test.Migration.Guests.{
  Boot, written, image, payload_of, MigrationTest, migration_timeout, status_fuel, peer,
  expect_line, write_boot, await_ready, migrate_to, run_migration,
}

-- the binary could not be written, if there is one, or what follows
abbrev pub BootEnd :
    {W : Type 0} → Boot → (Result (Unit {0}) → W → Type 0) → Result (Unit {0}) → W → Type 0
BootEnd (written file_name binary message) Q = FailsOr message Q
BootEnd image Q = Q

-- the source did not print the line, if there is one, or what follows
abbrev pub ReadyEnd :
    {W : Type 0}
    → Option (Text × Text)
    → (Result (Unit {0}) → W → Type 0)
    → Result (Unit {0})
    → W
    → Type 0
ReadyEnd none Q = Q
ReadyEnd (some (line, message)) Q = FailsOr message Q

module _ (h : Host) (l : Launcher h) (b : Bench h l) (state_eq : b.RunState → b.RunState → Bool)
    (running postmigrate : b.RunState)
    (migrate_incoming migrate : QemuProcess h l → Text → h.W → Result (Unit {0}) × h.W) where
  -- `do_migration` succeeded on the two processes
  abbrev pub Migrated : QemuProcess h l → QemuProcess h l → Type 0
  Migrated src dst =
      (mig_sock : Text) × (w w' : h.W) × (do_migration h state_eq running postmigrate
          (peer h l b state_eq running postmigrate migrate_incoming migrate src)
          (peer h l b state_eq running postmigrate migrate_incoming migrate dst) status_fuel
          mig_sock migration_timeout w
        ≡ (some (ok tt), w'))

  -- what a pass says of the two processes
  abbrev pub Arrived :
      MigrationTest → QemuProcess h l → QemuProcess h l → Result (Unit {0}) → h.W → Type 0
  Arrived t src dst r w' =
      r ≡ ok tt
      → Migrated src dst
        × Shown h l b state_eq running postmigrate migrate_incoming migrate t.arrival dst

  write_boot-BootEnd :
      (Q : Result (Unit {0}) → h.W → Type 0) (boot : Boot) (dir : Text) (rest : Task h.W (Unit {0}))
      → Returns Q rest
      → Returns
          (BootEnd boot Q)
          (write_boot h l b state_eq running postmigrate migrate_incoming migrate boot dir rest)
  write_boot-BootEnd Q (written file_name binary message) dir rest returns =
      call-FailsOr Q (b.write (path_join dir file_name) binary) message (λ done. rest)
        (λ done. returns)
  write_boot-BootEnd Q image dir rest returns = returns

  await_ready-ReadyEnd :
      (Q : Result (Unit {0}) → h.W → Type 0) (ready : Option (Text × Text)) (src : QemuProcess h l)
      (rest : Task h.W (Unit {0}))
      → Returns Q rest
      → Returns
          (ReadyEnd ready Q)
          (await_ready h l b state_eq running postmigrate migrate_incoming migrate ready src rest)
  await_ready-ReadyEnd Q none src rest returns = returns
  await_ready-ReadyEnd Q (some (line, message)) src rest returns =
      task-FailsOr Q
        (expect_line h l b state_eq running postmigrate migrate_incoming migrate src line) message
        (λ done. rest) (poll_line-Returns h l b src (sub_string line)) (λ done. returns)

  module _ (queries : (process : QemuProcess h l) → IsForward h (b.query_status process)) where
    migrate_to-Arrived :
        (t : MigrationTest) (mig_sock : Text) (src dst : QemuProcess h l)
        → Returns (Arrived t src dst) (
            migrate_to h l b state_eq running postmigrate migrate_incoming migrate t mig_sock src
              dst)
    unfolding migrate_to
    migrate_to-Arrived t mig_sock src dst w =
        let from = peer h l b state_eq running postmigrate migrate_incoming migrate src in
        let to = peer h l b state_eq running postmigrate migrate_incoming migrate dst in
        let (answer, e) =
          do_migration_total h state_eq running postmigrate from to mig_sock migration_timeout w
            (queries dst) (queries src) in
        moved answer
          (do_migration h state_eq running postmigrate from to status_fuel mig_sock
            migration_timeout w).1
          (λ i. (
            e i,
            (do_migration h state_eq running postmigrate from to status_fuel mig_sock
                migration_timeout w).1,
          ))
      where
        moved :
            (answer : Result (Unit {0})) (v : h.W)
            → do_migration h state_eq running postmigrate
                (peer h l b state_eq running postmigrate migrate_incoming migrate src)
                (peer h l b state_eq running postmigrate migrate_incoming migrate dst)
                status_fuel
                mig_sock
                migration_timeout
                w
              ≡ (some answer, v)
            → EndsWith
                (Arrived t src dst)
                (migrate_to h l b state_eq running postmigrate migrate_incoming migrate t mig_sock
                  src dst)
                w
        moved (err e) v q = (err e, v, rw q refl, (λ passed. cc))
        moved (ok done) v q =
            let (r, w', e, met) =
              check_arrival-Shown h l b state_eq running postmigrate migrate_incoming migrate
                t.arrival dst v in
            (r, w', rw (q, e) refl, (λ passed. ((mig_sock, w, v, q), met passed)))

    -- If asking for the state of a guest does not turn back the clock, then a test that migrates a
    -- guest returns, and either its error is that one of its directories, its binary or the process of
    -- the source could not be made, that the source was not seen ready, or that the process of the
    -- destination could not be made, or it got further. Whatever it returns, for each process that was
    -- made the status of the child has been collected, or asking for it failed last, that of the
    -- destination first, and then each directory that was made is removed. It passes only if
    -- `do_migration` succeeded on the two processes, and the log of the destination, as far as it was
    -- read, ends with the first line that is waited for: one with the expected text, or the answer of
    -- the test of FP and SSE state, which says OK.
    pub run_migration_end :
        (t : MigrationTest) (config : Config) (w : h.W)
        → EndsWith
            (TempDirEnd h l b (codes "failed to create src temp dir") λ src_dir.
              TempDirEnd h l b (codes "failed to create dst temp dir") λ dst_dir.
                TempDirEnd h l b (codes "failed to create migration temp dir") λ mig_dir.
                  let cfg = t.configure (Builder.new src_dir (payload_of t.boot src_dir)) in
                  BootEnd t.boot (
                    ProcessEnd h l b (codes "failed to spawn source VM") config cfg λ src.
                      ReadyEnd t.ready (
                        ProcessEnd h l b
                          (codes "failed to spawn dest VM")
                          config
                          (with_incoming cfg dst_dir)
                          (Arrived t src))))
            (run_migration h l b state_eq running postmigrate migrate_incoming migrate t config)
            w
    unfolding run_migration
    run_migration_end t config w =
        with_temp_dir-TempDirEnd h l b _ (codes "failed to create src temp dir") _
          (λ src_dir.
            with_temp_dir-TempDirEnd h l b _ (codes "failed to create dst temp dir") _ λ dst_dir.
              with_temp_dir-TempDirEnd h l b _ (codes "failed to create migration temp dir") _
                λ mig_dir.
                  let cfg = t.configure (Builder.new src_dir (payload_of t.boot src_dir)) in
                  let mig_sock = path_join mig_dir (codes "migration.sock") in
                  write_boot-BootEnd _ t.boot src_dir _ (
                    with_process-ProcessEnd h l b _ (codes "failed to spawn source VM") config cfg _
                      λ src. await_ready-ReadyEnd _ t.ready src _ (
                        with_process-ProcessEnd h l b (Arrived t src)
                          (codes "failed to spawn dest VM") config (with_incoming cfg dst_dir) _
                          (migrate_to-Arrived t mig_sock src))))
          w
