-- ===== src/Migration/Os/Ready.antt =====
-- The parts of `test_live_migration_os` of src/tests/migration.rs that work over SSH.
use qemu_test.Prelude.{◌≡◌, refl, subst, Bool, true, false, Text, codes, text_eq_iff, ok}
use qemu_test.Host.{Host}
use qemu_test.Host.Task.Told.{
  IsTold, Told, ◌>>=◌, ◌>>◌, retell, known, named, told_given, told_ensure, told_pure,
}
use qemu_test.CloudInit.{CloudInitDisk, guest_user}
use qemu_test.Process.Serial.{pattern_of}
use qemu_test.Process.Spawn.{Launcher, QemuProcess}
use qemu_test.Scenario.Outside.{Bench}
use qemu_test.Scenario.Seen.{Sees, poll_line_timeout-IsTold}
use qemu_test.Scenario.Remote.{Remote, os_ready_pattern}
use qemu_test.Ssh.Reached.{Ran, ssh_command-IsTold}
use qemu_test.Taps.{TapPair}
use qemu_test.Migration.Os.{
  os_boot_timeout, ssh_timeout, ssh_port, do_ssh, start_stress, check_stress, ready_source,
}

module _ (h : Host) (l : Launcher h) (b : Bench h l) (n : Remote h l) where
  -- a command that was run in the guest, with its output
  abbrev pub Said : CloudInitDisk → TapPair → Text → h.W → Text → h.W → Type 0
  Said ci taps cmd =
      Ran h b.lossy n.fmt_debug n.run n.run_lem ci.ssh_key_path taps.guest_host ssh_port guest_user
        cmd ssh_timeout

  do_ssh-Said :
      (ci : CloudInitDisk) (taps : TapPair) (cmd : Text)
      → IsTold (Said ci taps cmd) (do_ssh h l b n ci taps cmd)
  unfolding do_ssh
  do_ssh-Said ci taps cmd =
      ssh_command-IsTold h b.lossy n.fmt_debug n.run n.run_lem ci.ssh_key_path taps.guest_host
        ssh_port guest_user cmd ssh_timeout

  -- the load was started in the guest, if there is to be one
  abbrev pub Started : Bool → CloudInitDisk → TapPair → h.W → h.W → Type 0
  Started false ci taps w w' = w ≡ w'
  Started true ci taps w w' =
      (output : Text) × Said ci taps
        (codes "sudo systemctl start stress-ng && systemctl is-active stress-ng") w output w'

  start_stress-Started :
      (stress_ng : Bool) (ci : CloudInitDisk) (taps : TapPair)
      → IsTold
          (λ w (done : Unit {0}) w'. Started stress_ng ci taps w w')
          (start_stress h l b n stress_ng ci taps)
  unfolding start_stress
  start_stress-Started false ci taps = λ w. (ok tt, w, refl, refl)
  start_stress-Started true ci taps =
      let cmd = codes "sudo systemctl start stress-ng && systemctl is-active stress-ng" in
      let told : Told _ = (do
        output ← named (known (do_ssh h l b n ci taps cmd) (do_ssh-Said ci taps cmd)) _
        told_pure tt) in
      retell _ _ _ told.1 λ w done w' (output, v, said, (e, q)).
        (output, subst (λ u. Said ci taps cmd w output u) q said)

  -- the load was found active in the guest, if there is to be one
  abbrev pub Active : Bool → CloudInitDisk → TapPair → h.W → h.W → Type 0
  Active false ci taps w w' = w ≡ w'
  Active true ci taps w w' =
      Said ci taps (codes "systemctl is-active stress-ng") w (codes "active") w'

  pub check_stress-Active :
      (stress_ng : Bool) (ci : CloudInitDisk) (taps : TapPair)
      → IsTold
          (λ w (done : Unit {0}) w'. Active stress_ng ci taps w w')
          (check_stress h l b n stress_ng ci taps)
  unfolding check_stress
  check_stress-Active false ci taps = λ w. (ok tt, w, refl, refl)
  check_stress-Active true ci taps =
      let cmd = codes "systemctl is-active stress-ng" in
      let told : Told _ = (do
        output ← named (known (do_ssh h l b n ci taps cmd) (do_ssh-Said ci taps cmd)) _
        told_ensure _ _) in
      retell _ _ _ told.1 λ w done w' (output, v, said, (t, q)).
        subst (λ u. Said ci taps cmd w (codes "active") u) q
          (subst (λ o. Said ci taps cmd w o v) ((text_eq_iff output (codes "active")).0 t) said)

  -- From one state to another, in this order: the log of the source showed the first line that matches
  -- the pattern, the source answered over SSH, and the load was started in it, if there is to be one.
  pub record IsReady (stress_ng : Bool) (ci : CloudInitDisk) (taps : TapPair)
      (src : QemuProcess h l) (w w' : h.W) : Type 0 where
    pub pattern : b.Pattern
    pub output : Text
    pub seen : h.W
    pub answered : h.W
    pub compiled : b.compile os_ready_pattern ≡ ok pattern
    pub booted : Sees h l b (pattern_of pattern) os_boot_timeout src w tt seen
    pub reached : Said ci taps (codes "true && echo SSH OK") seen output answered
    pub started : Started stress_ng ci taps answered w'

  pub ready_source-IsReady :
      (stress_ng : Bool) (ci : CloudInitDisk) (taps : TapPair) (src : QemuProcess h l)
      → IsTold
          (λ w (done : Unit {0}) w'. IsReady stress_ng ci taps src w w')
          (ready_source h l b n stress_ng ci taps src)
  unfolding ready_source
  ready_source-IsReady stress_ng ci taps src =
      let told : Told _ =
        (told_given (b.compile os_ready_pattern) λ pattern. do
          named (known _ (poll_line_timeout-IsTold h l b src (pattern_of pattern) os_boot_timeout))
              _
          output ←
              known (do_ssh h l b n ci taps (codes "true && echo SSH OK"))
                (do_ssh-Said ci taps (codes "true && echo SSH OK"))
          known (start_stress h l b n stress_ng ci taps)
              (start_stress-Started stress_ng ci taps)) in
      retell _ _ _ told.1
        λ w done w' (pattern, c, (shown, w₁, booted, (output, w₂, reached, started))). record {
          pattern = pattern;
          output = output;
          seen = w₁;
          answered = w₂;
          compiled = c;
          booted = booted;
          reached = reached;
          started = started;
        }
