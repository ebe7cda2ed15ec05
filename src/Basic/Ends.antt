-- ===== src/Basic/Ends.antt =====
-- What the tests of src/tests/basic.rs return, and what they leave.
use qemu_test.Prelude.{ℕ, inl, inr, refl, Option, Text, codes, path_join, Result, ok, err}
use qemu_test.Config.{Config, accel}
use qemu_test.Options.{Machine, CpuModel, guest_bin}
use qemu_test.Guest.Builder
use qemu_test.Host.{Host}
use qemu_test.Host.Task.{◌>>=◌, given, with_context}
use qemu_test.Process.Serial.{ExpectedOutput, poll_line, default_timeout}
use qemu_test.Process.Spawn.{Launcher, QemuProcess}
use qemu_test.Scenario.Outside.{Bench, poll_fuel}
use qemu_test.Scenario.Ends.{
  EndsWith, Returns, FailsOr, ProcessEnd, TempDirEnd, call-FailsOr, with_process-ProcessEnd,
  with_temp_dir-TempDirEnd,
}
use qemu_test.Scenario.Seen.{Passes, poll_line-Passes}
use qemu_test.Basic.{
  GuestTest, detected, kernel_config, check_output, run_guest_bin, test_kernel_boot,
}

module _ (h : Host) (l : Launcher h) (b : Bench h l) where
  settled-Passes :
      (expected : Result (ExpectedOutput b.Pattern)) (message : Text) (process : QemuProcess h l)
      → Returns (Passes h l b expected process) (
          given expected >>= λ line.
          with_context
            (poll_line h b.is_match b.lossy
              (b.read_until process)
              (poll_fuel b.limit default_timeout)
              line)
            message)
  settled-Passes (err e) message process = λ w. (err e, w, refl, (λ passed. cc))
  settled-Passes (ok line) message process = poll_line-Passes h l b process line message

  FailsOr-Passes :
      (expected : Result (ExpectedOutput b.Pattern)) (message : Text) (process : QemuProcess h l)
      (r : Result (Unit {0})) (w : h.W)
      → FailsOr message (Passes h l b expected process) r w
      → Passes h l b expected process r w
  FailsOr-Passes expected message process r w (inl (e, q)) = λ passed. cc
  FailsOr-Passes expected message process r w (inr met) = met

  check_output-Passes :
      (expected : Result (ExpectedOutput b.Pattern)) (message : Text) (process : QemuProcess h l)
      → Returns (Passes h l b expected process) (check_output h l b expected message process)
  unfolding check_output
  check_output-Passes expected message process w =
      let (r, w', e, met) =
        call-FailsOr (Passes h l b expected process) (b.query_status process)
          (codes "query_status failed")
          (λ status. given expected >>= λ line.
            with_context
              (poll_line h b.is_match b.lossy (b.read_until process)
                (poll_fuel b.limit default_timeout) line)
              message)
          (λ status. settled-Passes expected message process) w in
      (r, w', e, FailsOr-Passes expected (codes "query_status failed") process r w' met)

  -- A test that boots a guest binary returns, and either its error is that the temporary directory,
  -- the binary or the process could not be made, or, whatever it returns, the status of its child has
  -- been collected, or asking for it failed last, and then the directory is removed. It passes only
  -- if the log of the process, as far as it was read, ends with the first line that matches the
  -- expected output.
  pub run_guest_bin_end :
      (t : GuestTest b.Pattern) (config : Config) (w : h.W)
      → EndsWith
          (TempDirEnd h l b (codes "failed to create temp dir") λ dir.
            FailsOr (codes "failed to write guest binary") (
              ProcessEnd h l b
                (codes "failed to spawn QEMU process")
                config
                (Builder.new dir (guest_bin (path_join dir t.file_name)))
                (Passes h l b t.expected)))
          (run_guest_bin h l b t config)
          w
  unfolding run_guest_bin
  run_guest_bin_end t config w =
      with_temp_dir-TempDirEnd h l b _ (codes "failed to create temp dir") _
        (λ dir.
          call-FailsOr _ (b.write (path_join dir t.file_name) t.binary)
            (codes "failed to write guest binary") _
            λ done.
              with_process-ProcessEnd h l b (Passes h l b t.expected)
                (codes "failed to spawn QEMU process") config
                (Builder.new dir (guest_bin (path_join dir t.file_name)))
                (check_output h l b t.expected t.message)
                (check_output-Passes t.expected t.message))
        w

  -- `test_kernel_boot` returns, and either its error is that the temporary directory or the process
  -- could not be made, or, whatever it returns, the status of its child has been collected, or asking
  -- for it failed last, and then the directory is removed. It passes only if the accelerator of the
  -- configuration is known, and the log of the process, as far as it was read, ends with the first
  -- line that says that the kernel detected its hypervisor.
  pub test_kernel_boot_end :
      (machine : Machine) (smp : ℕ) (cpu : Option CpuModel) (config : Config) (w : h.W)
      → EndsWith
          (TempDirEnd h l b (codes "failed to create temp dir") λ dir.
            ProcessEnd h l b
              (codes "failed to spawn QEMU process")
              config
              (kernel_config dir machine smp cpu)
              (Passes h l b (detected (accel config))))
          (test_kernel_boot h l b machine smp cpu config)
          w
  unfolding test_kernel_boot
  test_kernel_boot_end machine smp cpu config =
      with_temp_dir-TempDirEnd h l b _ (codes "failed to create temp dir") _ λ dir.
        with_process-ProcessEnd h l b (Passes h l b (detected (accel config)))
          (codes "failed to spawn QEMU process") config (kernel_config dir machine smp cpu)
          (check_output h l b (detected (accel config)) (codes "kernel boot output not found"))
          (check_output-Passes (detected (accel config)) (codes "kernel boot output not found"))
