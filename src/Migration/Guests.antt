-- ===== src/Migration/Guests.antt =====
-- The tests of src/tests/migration.rs that migrate a guest binary or a kernel. The QMP calls of a
-- migration, the states and the binaries are parameters.
pub mod Shown
pub mod Ends
mod Tests
use qemu_test.Prelude.{
  contains, trim_end, concat, ensure, ℕ, ◌+◌, ◌/◌, Bool, Option, none, some, [], ◌∷◌, Text, codes,
  concat, path_join, Result, context,
}
use qemu_test.Config.{Config}
use qemu_test.Options.{Machine, pc, CpuModel, host, QemuPayload, guest_bin, kernel}
use qemu_test.Guest.Builder.{QemuConfig, with_incoming, with_machine, with_smp, with_cpu_model}
use qemu_test.Guest.Builder
use qemu_test.Host.{Host, from_millis, from_secs}
use qemu_test.Host.Task.{Task, ◌>>=◌, ◌>>◌, given, call, with_context}
use qemu_test.Process.Serial.{
  Bytes, sub_string, pattern_of, poll_line_match_timeout, poll_line, default_timeout,
}
use qemu_test.Process.Spawn.{Launcher, QemuProcess}
use qemu_test.Scenario.Outside.{Bench, poll_fuel}
use qemu_test.Scenario.{with_process, with_temp_dir}
use qemu_test.Migration.{Peer, do_migration}

abbrev pub migration_timeout : ℕ
migration_timeout = from_secs 10

abbrev pub kernel_payload : QemuPayload
kernel_payload = kernel (codes "payload/vmlinuz-virt") (some (codes "payload/initrd.img"))

-- what the guest boots: a binary that is written first, with the message of an error, or the kernel
pub data Boot : Type 0 where
  written : Text → Bytes → Text → Boot
  image : Boot

abbrev pub payload_of : Boot → Text → QemuPayload
payload_of (written file_name binary message) dir = guest_bin (path_join dir file_name)
payload_of image dir = kernel_payload

-- how a test looks at the destination: it waits for a line, with the message of an error, or for the
-- answer of the test of FP and SSE state
pub data Arrival : Type 0 where
  prints : Text → Text → Arrival
  fp_sse : Arrival

abbrev pub fp_sse_pattern : Text
fp_sse_pattern = codes "FPSSE:(OK|FAIL_[A-Z0-9_]+)"

-- what differs between the tests: the source may have to print a line first
pub record MigrationTest : Type 0 where
  pub boot : Boot
  pub configure : QemuConfig → QemuConfig
  pub ready : Option (Text × Text)
  pub arrival : Arrival

-- the configuration of the tests of guest binaries with one CPU model
abbrev pub host_cpu : ℕ → QemuConfig → QemuConfig
host_cpu smp cfg = with_smp (with_machine (with_cpu_model cfg host) pc) smp

unfoldable pub test_live_migration_simple : Bytes → MigrationTest
test_live_migration_simple binary = record {
  boot = written (codes "guest.bin") binary (codes "failed to write guest binary");
  configure = λ cfg. cfg;
  ready = none;
  arrival =
      prints (codes "HELLO FROM GUEST")
        (codes "destination: guest not producing serial output after migration");
}

unfoldable pub test_live_migration_kernel : CpuModel → ℕ → MigrationTest
test_live_migration_kernel cpu smp = record {
  boot = image;
  configure = λ cfg. with_smp (with_cpu_model cfg cpu) smp;
  ready = some (codes "INIT:READY", codes "init did not start on source");
  arrival =
      prints (codes "INIT:ALIVE") (codes "init did not resume on destination after migration");
}

unfoldable pub test_live_migration_avx2 : Bytes → ℕ → MigrationTest
test_live_migration_avx2 binary smp = record {
  boot = written (codes "guest_avx2.bin") binary (codes "failed to write AVX2 guest binary");
  configure = host_cpu smp;
  ready = some (codes "AVX2:READY", codes "source: AVX2 guest did not become ready");
  arrival =
      prints (codes "AVX2:OK") (codes "destination: YMM registers not intact after migration");
}

unfoldable pub test_live_migration_scalar_state : Bytes → ℕ → MigrationTest
test_live_migration_scalar_state binary smp = record {
  boot = written (codes "guest_scalar.bin") binary (codes "failed to write scalar guest binary");
  configure = host_cpu smp;
  ready = some (codes "SCALAR:READY", codes "source: scalar guest did not become ready");
  arrival =
      prints (codes "SCALAR:OK") (codes "destination: scalar CPU state not intact after migration");
}

unfoldable pub test_live_migration_fp_sse_state : Bytes → ℕ → MigrationTest
test_live_migration_fp_sse_state binary smp = record {
  boot = written (codes "guest_fp_sse.bin") binary (codes "failed to write FP/SSE guest binary");
  configure = host_cpu smp;
  ready = some (codes "FPSSE:READY", codes "source: FP/SSE guest did not become ready");
  arrival = fp_sse;
}

-- the rounds that each poll of a migration needs at most
abbrev pub status_fuel : ℕ
status_fuel = migration_timeout / from_millis 200 + 2

module _ (h : Host) (l : Launcher h) (b : Bench h l) (state_eq : b.RunState → b.RunState → Bool)
    (running postmigrate : b.RunState)
    (migrate_incoming migrate : QemuProcess h l → Text → h.W → Result (Unit {0}) × h.W) where
  abbrev pub peer : QemuProcess h l → Peer h b.RunState
  peer process = record {
    migrate_incoming = migrate_incoming process;
    migrate = migrate process;
    query_status = b.query_status process;
  }

  -- `process.poll_line(SubString(line))`
  abbrev pub expect_line : QemuProcess h l → Text → Task h.W (Unit {0})
  expect_line process line =
      poll_line h b.is_match b.lossy (b.read_until process) (poll_fuel b.limit default_timeout)
        (sub_string line)

  abbrev pub write_boot : Boot → Text → Task h.W (Unit {0}) → Task h.W (Unit {0})
  write_boot (written file_name binary message) dir rest =
      with_context (call (b.write (path_join dir file_name) binary)) message >> rest
  write_boot image dir rest = rest

  abbrev pub await_ready :
      Option (Text × Text) → QemuProcess h l → Task h.W (Unit {0}) → Task h.W (Unit {0})
  await_ready none src rest = rest
  await_ready (some (line, message)) src rest = with_context (expect_line src line) message >> rest

  -- behind the migration
  unfoldable pub check_arrival : Arrival → QemuProcess h l → Task h.W (Unit {0})
  check_arrival (prints line message) dst = with_context (expect_line dst line) message
  check_arrival fp_sse dst = do
    pattern ← given (b.compile fp_sse_pattern)
    result ←
        with_context
          (poll_line_match_timeout h b.is_match b.lossy (b.read_until dst)
            (poll_fuel b.limit migration_timeout) (pattern_of pattern) migration_timeout)
          (codes "destination: FP/SSE state not intact after migration")
    given (
        ensure (contains result (codes "FPSSE:OK"))
          (concat (codes "destination: FP/SSE diagnostic failed: " ∷ trim_end result ∷ [])))

  -- behind the start of both processes
  unfoldable pub migrate_to :
      MigrationTest → Text → QemuProcess h l → QemuProcess h l → Task h.W (Unit {0})
  migrate_to t mig_sock src dst = do
    do_migration h state_eq running postmigrate (peer src) (peer dst) status_fuel mig_sock
        migration_timeout
    check_arrival t.arrival dst

  unfoldable pub run_migration : MigrationTest → Config → Task h.W (Unit {0})
  unfolding migrate_to
  run_migration t config = with_temp_dir h l b (codes "failed to create src temp dir") λ src_dir.
      with_temp_dir h l b (codes "failed to create dst temp dir") λ dst_dir.
        with_temp_dir h l b (codes "failed to create migration temp dir") λ mig_dir.
          let cfg = t.configure (Builder.new src_dir (payload_of t.boot src_dir)) in
          write_boot t.boot src_dir (
            with_process h l b (codes "failed to spawn source VM") config cfg λ src.
              await_ready t.ready src (
                with_process h l b (codes "failed to spawn dest VM") config
                  (with_incoming cfg dst_dir)
                  (migrate_to t (path_join mig_dir (codes "migration.sock")) src)))
