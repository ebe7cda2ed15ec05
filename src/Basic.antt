-- ===== src/Basic.antt =====
-- The tests of src/tests/basic.rs. The temporary directory, the binaries of the guests, the QMP
-- query and the crate regex are parameters.
pub mod Ends
pub mod Quit
mod Tests
use qemu_test.Prelude.{
  ℕ, ◌+◌, ◌/◌, ltb, Bool, Option, none, some, List, [], ◌∷◌, ◌++◌, Text, codes, concat, path_join,
  if◌then◌else◌, Result, ok, err, context,
}
use qemu_test.Number.{decimal}
use qemu_test.Config.{Config, accel}
use qemu_test.Options.{Accelerator, kvm, mshv, Machine, CpuModel, QemuPayload, guest_bin, kernel}
use qemu_test.Guest.Builder.{QemuConfig, with_machine, with_smp, with_cpu_model}
use qemu_test.Guest.Builder
use qemu_test.Host.{Host, from_millis, from_secs}
use qemu_test.Host.Task.{Task, ◌>>=◌, ◌>>◌, pure, given, call, act, with_context}
use qemu_test.Process.Serial.{
  Bytes, ExpectedOutput, sub_string, pattern_of, poll_line, default_timeout,
}
use qemu_test.Process.Spawn.{Launcher, QemuProcess, connect_fuel, spawn}
use qemu_test.Process.Child.{drop, quit_and_wait}
use qemu_test.Scenario.Outside.{Bench, drop_fuel, poll_fuel, quit_fuel}
use qemu_test.Scenario.{with_process, with_temp_dir}

abbrev pub expected_output : Text
expected_output = codes "HELLO FROM GUEST"

abbrev pub kernel_path : Text
kernel_path = codes "payload/vmlinuz-virt"

-- PIO_STR_PREFIX, PIO_STR_WRITE_D, PIO_STR_WRITE_C, PIO_STR_SUFFIX, PIO_STR_READ_X, PIO_STR_READ_Y
abbrev pub pio_str_pattern : Text
pio_str_pattern = concat (
    codes "^A{"
    ∷ decimal 13
    ∷ codes "}D{"
    ∷ decimal 2
    ∷ codes "}C{"
    ∷ decimal 2
    ∷ codes "}A{"
    ∷ decimal 16
    ∷ codes "}X{"
    ∷ decimal 2
    ∷ codes "}Y{"
    ∷ decimal 2
    ∷ codes "}HELLO VIA OUTSB"
    ∷ [])

abbrev pub hypervisor : Accelerator → Text
hypervisor kvm = codes "KVM"
hypervisor mshv = codes "Microsoft Hyper-V"

abbrev pub optional_cpu : QemuConfig → Option CpuModel → QemuConfig
optional_cpu cfg none = cfg
optional_cpu cfg (some cpu) = with_cpu_model cfg cpu

-- what differs between the tests that boot a guest binary
pub record GuestTest (Pattern : Type 0) : Type 0 where
  pub file_name : Text
  pub binary : Bytes
  pub expected : Result (ExpectedOutput Pattern)
  pub message : Text

-- `ExpectedOutput::Pattern` of a pattern that compiles
abbrev pub compiled : {Pattern : Type 0} → Result Pattern → Result (ExpectedOutput Pattern)
compiled (ok pattern) = ok (pattern_of pattern)
compiled (err e) = err e

-- the output of a kernel that found the accelerator
abbrev pub detected : {Pattern : Type 0} → Result Accelerator → Result (ExpectedOutput Pattern)
detected (ok a) = ok (sub_string (codes "Hypervisor detected: " ++ hypervisor a))
detected (err e) = err e

-- the configurations of `test_kernel_boot` and `test_quit_terminates`
unfoldable pub kernel_config : Text → Machine → ℕ → Option CpuModel → QemuConfig
kernel_config dir machine smp cpu =
    optional_cpu (with_smp (with_machine (Builder.new dir (kernel kernel_path none)) machine) smp)
      cpu

unfoldable pub quit_config : Text → Machine → ℕ → QemuConfig
quit_config dir machine smp =
    with_smp
      (with_machine (Builder.new dir (guest_bin (path_join dir (codes "guest.bin")))) machine) smp

module _ (h : Host) (l : Launcher h) (b : Bench h l) where
  -- behind the start of the process
  unfoldable pub check_output :
      Result (ExpectedOutput b.Pattern) → Text → QemuProcess h l → Task h.W (Unit {0})
  check_output expected message process = do
    status ← with_context (call (b.query_status process)) (codes "query_status failed")
    line ← given expected
    with_context
        (poll_line h b.is_match b.lossy (b.read_until process) (poll_fuel b.limit default_timeout)
          line)
        message

  unfoldable pub run_guest_bin : GuestTest b.Pattern → Config → Task h.W (Unit {0})
  unfolding check_output
  run_guest_bin t config = with_temp_dir h l b (codes "failed to create temp dir") λ dir. do
    with_context (call (b.write (path_join dir t.file_name) t.binary))
        (codes "failed to write guest binary")
    with_process h l b (codes "failed to spawn QEMU process") config
        (Builder.new dir (guest_bin (path_join dir t.file_name)))
        (check_output t.expected t.message)

  unfoldable pub test_simple_guest_bin : Bytes → Config → Task h.W (Unit {0})
  unfolding run_guest_bin
  test_simple_guest_bin binary = run_guest_bin (record {
    file_name = codes "guest.bin";
    binary = binary;
    expected = ok (sub_string expected_output);
    message = codes "expected output not found";
  })

  unfoldable pub test_mmio_guest_bin : Bytes → Config → Task h.W (Unit {0})
  unfolding run_guest_bin
  test_mmio_guest_bin binary = run_guest_bin (record {
    file_name = codes "guest_mmio.bin";
    binary = binary;
    expected = ok (sub_string (codes "ABCDE MMIO_OK"));
    message = codes "MMIO emulation test failed";
  })

  unfoldable pub test_pio_vmport : Bytes → Config → Task h.W (Unit {0})
  unfolding run_guest_bin
  test_pio_vmport binary = run_guest_bin (record {
    file_name = codes "guest_pio_vmport.bin";
    binary = binary;
    expected = ok (sub_string (codes "ABC VMPORT_OK"));
    message = codes "VMPort PIO dirty-flag test failed";
  })

  unfoldable pub test_mmio_regs : Bytes → Config → Task h.W (Unit {0})
  unfolding run_guest_bin
  test_mmio_regs binary = run_guest_bin (record {
    file_name = codes "guest_mmio_regs.bin";
    binary = binary;
    expected = ok (sub_string (codes "ABCDEFGHI REGS_OK"));
    message = codes "MMIO register test failed";
  })

  unfoldable pub test_pio_str_guest_bin : Bytes → Config → Task h.W (Unit {0})
  unfolding run_guest_bin
  test_pio_str_guest_bin binary = run_guest_bin (record {
    file_name = codes "guest_pio_str.bin";
    binary = binary;
    expected = compiled (context (b.compile pio_str_pattern) (codes "failed to compile regex"));
    message = codes "page-crossing read_memory/write_memory verification failed";
  })

  unfoldable pub test_kernel_boot : Machine → ℕ → Option CpuModel → Config → Task h.W (Unit {0})
  unfolding check_output kernel_config
  test_kernel_boot machine smp cpu config =
      with_temp_dir h l b (codes "failed to create temp dir") λ dir.
        with_process h l b (codes "failed to spawn QEMU process") config
          (kernel_config dir machine smp cpu)
          (check_output (detected (accel config)) (codes "kernel boot output not found"))

  -- behind the start of the process, which `quit_and_wait` drops
  unfoldable pub quit_after : ℕ → QemuProcess h l → Task h.W (Unit {0})
  quit_after delay process = do
    act (if ltb 0 delay then h.sleep (from_millis delay) else λ w. w)
    with_context
        (quit_and_wait h (b.child_of process) (quit_fuel (from_secs 10)) drop_fuel process.accel
          (from_secs 10))
        (codes "QEMU did not terminate after quit")

  unfoldable pub test_quit_terminates : Machine → ℕ → ℕ → Bytes → Config → Task h.W (Unit {0})
  unfolding quit_after quit_config
  test_quit_terminates machine smp delay binary config =
      with_temp_dir h l b (codes "failed to create temp dir") λ dir. do
        with_context (call (b.write (path_join dir (codes "guest.bin")) binary))
            (codes "failed to write guest binary")
        process ←
            with_context (spawn h l connect_fuel config (quit_config dir machine smp))
              (codes "failed to spawn QEMU process")
        quit_after delay process
