-- ===== src/Basic/Quit.antt =====
-- What `test_quit_terminates` of src/tests/basic.rs returns, and what it leaves.
use qemu_test.Prelude.{
  ℕ, ◌≡◌, refl, ap, Option, some, ltb, if◌then◌else◌, codes, path_join, Result, context,
}
use qemu_test.Config.{Config}
use qemu_test.Options.{Machine}
use qemu_test.Host.{Host, from_millis, from_secs}
use qemu_test.Host.Task.{context_of}
use qemu_test.Process.Serial.{Bytes}
use qemu_test.Process.Spawn.{Launcher, QemuProcess}
use qemu_test.Process.Child.{wait_for_exit, quit_and_wait}
use qemu_test.Process.Child.Quit.{QuitEnd, quit_and_wait_end}
use qemu_test.Process.Child.Reaped.{drop_total, drop_reaps}
use qemu_test.Scenario.Outside.{Bench, drop_fuel, quit_fuel}
use qemu_test.Scenario.Ends.{
  EndsWith, Returns, FailsOr, SpawnedOr, TempDirEnd, IsGone, call-FailsOr, spawn-SpawnedOr,
  with_temp_dir-TempDirEnd,
}
use qemu_test.Basic.{quit_config, quit_after, test_quit_terminates}

module _ (h : Host) (l : Launcher h) (b : Bench h l) where
  -- the result is that of `quit_and_wait`, and the process is gone
  abbrev pub QuitDone : QemuProcess h l → Result (Unit {0}) → h.W → Type 0
  QuitDone process r w' =
      (u : h.W) × (answer : Result (Unit {0})) × QuitEnd h (b.child_of process) (from_secs 10) u
        answer
      × (r ≡ context answer (codes "QEMU did not terminate after quit"))
      × IsGone h l b process w'

  quit_and_wait-IsGone :
      (process : QemuProcess h l) (fuel timeout : ℕ) (w w' : h.W) (r : Result (Unit {0}))
      → quit_and_wait h (b.child_of process) fuel drop_fuel process.accel timeout w ≡ (some r, w')
      → IsGone h l b process w'
  unfolding quit_and_wait
  quit_and_wait-IsGone process fuel timeout w w' r e =
      let c = b.child_of process in
      let w₁ = (c.qmp_quit w).1 in
      let w₂ = (wait_for_exit h c fuel timeout (c.qmp_quit w).0 w₁).1 in
      let dropped = drop_total h c (b.try_wait_lem process) process.accel w₂ in
      let left = ap (λ (p : Option (Result (Unit {0})) × h.W). p.1) e in
      drop_reaps h c (b.reaped process) (b.wait_lem process) (b.poll_lem process) drop_fuel
        process.accel w₂ w' (λ i. (dropped i, left i))

  quit_after-QuitDone :
      (delay : ℕ) (process : QemuProcess h l)
      → Returns (QuitDone process) (quit_after h l b delay process)
  unfolding quit_after
  quit_after-QuitDone delay process w =
      let c = b.child_of process in
      let message = codes "QEMU did not terminate after quit" in
      let v = (if ltb 0 delay then h.sleep (from_millis delay) else λ u. u) w in
      let (r, e, ended) =
        quit_and_wait_end h c process.accel (from_secs 10) v (b.try_wait_lem process) in
      let w' =
        (quit_and_wait h c (quit_fuel (from_secs 10)) drop_fuel process.accel (from_secs 10) v).1 in
      let gone =
        quit_and_wait-IsGone process (quit_fuel (from_secs 10)) (from_secs 10) v w' r
          (λ i. (e i, w')) in
      (context r message, w', (λ i. (context_of (e i) message, w')), (v, r, ended, refl, gone))

  -- `test_quit_terminates` returns, and either its error is that the temporary directory, the binary
  -- or the process could not be made, or its result is that of `quit_and_wait`: it passes only if
  -- `quit` was accepted and a look at the child found that it had exited, and fails where `quit` was
  -- refused, where the child could not be looked at, or where a look past the timeout found it
  -- running; whichever it is, the status of the child has then been collected, or asking for it
  -- failed last, and then the directory is removed.
  pub test_quit_terminates_end :
      (machine : Machine) (smp delay : ℕ) (binary : Bytes) (config : Config) (w : h.W)
      → EndsWith
          (TempDirEnd h l b (codes "failed to create temp dir") λ dir.
            FailsOr (codes "failed to write guest binary") (
              SpawnedOr h l b
                (codes "failed to spawn QEMU process")
                config
                (quit_config dir machine smp)
                QuitDone))
          (test_quit_terminates h l b machine smp delay binary config)
          w
  unfolding test_quit_terminates
  test_quit_terminates_end machine smp delay binary config =
      with_temp_dir-TempDirEnd h l b _ (codes "failed to create temp dir") _ λ dir.
        call-FailsOr _ (b.write (path_join dir (codes "guest.bin")) binary)
          (codes "failed to write guest binary") _
          λ done.
            spawn-SpawnedOr h l b QuitDone (codes "failed to spawn QEMU process") config
              (quit_config dir machine smp) (quit_after h l b delay) (quit_after-QuitDone delay)
