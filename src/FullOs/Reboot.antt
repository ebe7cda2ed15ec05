-- ===== src/FullOs/Reboot.antt =====
-- What `test_os_reboot` of src/tests/full_os.rs returns, and what it leaves.
use qemu_test.Prelude.{
  ℕ, ◌≡◌, subst, Bool, true, Text, codes, some, Result, ok, option_context, option_context_inv,
  context, context_inv,
}
use qemu_test.Config.{Config}
use qemu_test.Host.{Host}
use qemu_test.Host.Task.Told.{
  IsTold, Told, ◌>>=◌, ◌>>◌, retell, known, named, told_given, told_ensure, told_act,
}
use qemu_test.CloudInit.{CloudInitDisk, guest_user}
use qemu_test.Process.Port.{split_whitespace}
use qemu_test.Process.Serial.{pattern_of}
use qemu_test.Process.Spawn.{Launcher, QemuProcess}
use qemu_test.Scenario.Outside.{Bench}
use qemu_test.Scenario.Ends.{EndsWith}
use qemu_test.Scenario.Seen.{Sees, poll_line_timeout-IsTold}
use qemu_test.Scenario.Remote.{Remote, os_ready_pattern, port_of, fire_ssh}
use qemu_test.Scenario.Remote.Told.{PortFound, port_of-IsTold}
use qemu_test.Ssh.Reached.{ssh_command-IsTold}
use qemu_test.FullOs.Disk.{Said, DiskEnd, with_disk-DiskEnd}
use qemu_test.FullOs.{
  boot_timeout, reboot_timeout, ssh_timeout, local_host, first_field, reboot_config, check_uptime,
  check_reboot, test_os_reboot,
}

module _ (h : Host) (l : Launcher h) (b : Bench h l) (n : Remote h l) where
  module _ {F64 : Type 0} (parse : Text → Result F64) (print : F64 → Text)
      (is_below : F64 → ℕ → Bool) where
    -- the output of `cat /proc/uptime` starts with a number below 120
    abbrev pub IsFresh : Text → Type 0
    IsFresh uptime =
        (field : Text) × (uptime_secs : F64) × (first_field (split_whitespace uptime) ≡ some field)
        × (parse field ≡ ok uptime_secs)
        × (is_below uptime_secs 120 ≡ true)

    check_uptime-IsFresh :
        (uptime : Text)
        → IsTold
            (λ (w : h.W) (done : Unit {0}) w'. IsFresh uptime × (w ≡ w'))
            (check_uptime h l b n parse print is_below uptime)
    unfolding check_uptime
    check_uptime-IsFresh uptime =
        let told : Told _ =
          told_given
            (option_context (first_field (split_whitespace uptime)) (codes "empty uptime output"))
            λ field.
              told_given (context (parse field) (codes "failed to parse uptime"))
                λ uptime_secs. told_ensure _ _ in
        retell _ _ _ told.1 λ w done w' (field, f, (uptime_secs, p, (t, q))).
          ((field, uptime_secs, option_context_inv _ _ _ f, context_inv _ _ _ p, t), q)

    -- From one state to another, in this order: the port of the guest was found, its log showed the
    -- first line that matches the pattern, it answered over SSH, `ssh` was run to reboot it, its log,
    -- read on from there, showed a line that matches the pattern again, and it said over SSH that it
    -- has been up for less than 120 s.
    pub record Rebooted (ci : CloudInitDisk) (process : QemuProcess h l) (w w' : h.W) : Type 0 where
      pub port : ℕ
      pub pattern : b.Pattern
      pub hostname : Text
      pub uptime : Text
      pub ported : h.W
      pub seen : h.W
      pub answered : h.W
      pub fired : h.W
      pub seen_again : h.W
      pub port_found : PortFound h l b n process w port ported
      pub compiled : b.compile os_ready_pattern ≡ ok pattern
      pub ready : Sees h l b (pattern_of pattern) boot_timeout process ported tt seen
      pub works : Said h l b n ci port (codes "hostname") seen hostname answered
      pub reboots :
          fire_ssh h l b n ci.ssh_key_path local_host port (codes "sudo reboot") answered ≡ fired
      pub ready_again : Sees h l b (pattern_of pattern) reboot_timeout process fired tt seen_again
      pub uptime_told : Said h l b n ci port (codes "cat /proc/uptime") seen_again uptime w'
      pub fresh : IsFresh uptime

    check_reboot-Rebooted :
        (ci : CloudInitDisk) (process : QemuProcess h l)
        → IsTold
            (λ w (done : Unit {0}) w'. Rebooted ci process w w')
            (check_reboot h l b n parse print is_below ci process)
    unfolding check_reboot
    check_reboot-Rebooted ci process =
        let says : (port : ℕ) (command : Text) → Told (Said h l b n ci port command) =
          λ port command. known _ (
            ssh_command-IsTold h b.lossy n.fmt_debug n.run n.run_lem ci.ssh_key_path local_host port
              guest_user command ssh_timeout) in
        let told : Told _ = (do
          port ← known (port_of h l b n process) (port_of-IsTold h l b n process)
          told_given (b.compile os_ready_pattern) λ pattern. do
            named
                (known _ (poll_line_timeout-IsTold h l b process (pattern_of pattern) boot_timeout))
                _
            hostname ← named (says port (codes "hostname")) _
            told_act (fire_ssh h l b n ci.ssh_key_path local_host port (codes "sudo reboot"))
            told_given (b.compile os_ready_pattern) λ again. do
              named
                  (known _
                    (poll_line_timeout-IsTold h l b process (pattern_of again) reboot_timeout))
                  _
              uptime ← named (says port (codes "cat /proc/uptime")) _
              known _ (check_uptime-IsFresh uptime)) in
        retell _ _ _ told.1
          λ w done w'
              (
                port,
                w₁,
                found,
                (
                  pattern,
                  c,
                  (
                    shown,
                    w₂,
                    ready,
                    (
                      hostname,
                      w₃,
                      works,
                      (
                        fired,
                        w₄,
                        reboots,
                        (again, c', (back, w₅, ready', (uptime, w₆, told, (fresh, q)))),
                      ),
                    ),
                  ),
                ),
              ).
            record {
              port = port;
              pattern = pattern;
              hostname = hostname;
              uptime = uptime;
              ported = w₁;
              seen = w₂;
              answered = w₃;
              fired = w₄;
              seen_again = w₅;
              port_found = found;
              compiled = c;
              ready = ready;
              works = works;
              reboots = reboots;
              ready_again =
                  subst (λ p. Sees h l b (pattern_of p) reboot_timeout process w₄ tt w₅)
                    (cc (c, c')) ready';
              uptime_told =
                  subst (λ v. Said h l b n ci port (codes "cat /proc/uptime") w₅ uptime v) q told;
              fresh = fresh;
            }

    -- `test_os_reboot` returns, and either its error is that the temporary directory, the disk or the
    -- process could not be made, or, whatever it returns, the status of its child has been collected,
    -- or asking for it failed last, and then the directory is removed. The process is started behind
    -- the creation of the disk, step by step. It passes only if, in this
    -- order, the port of the guest was found, its log showed a line that matches the pattern, the
    -- guest answered over SSH, `ssh` was run to reboot it, its log, as far as it was read from there,
    -- showed such a line again, and the guest said over SSH that it has been up for less than 120 s.
    pub test_os_reboot_end :
        (smp : ℕ) (config : Config) (w : h.W)
        → EndsWith
            (DiskEnd h l b n config (λ dir net ci. reboot_config dir ci net smp) Rebooted)
            (test_os_reboot h l b n parse print is_below smp config)
            w
    unfolding test_os_reboot
    test_os_reboot_end smp config =
        with_disk-DiskEnd h l b n Rebooted config (λ dir net ci. reboot_config dir ci net smp)
          (check_reboot h l b n parse print is_below) check_reboot-Rebooted
