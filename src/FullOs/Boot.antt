-- ===== src/FullOs/Boot.antt =====
-- What `test_os_boot` of src/tests/full_os.rs returns, and what it leaves.
use qemu_test.Prelude.{ℕ, ◌≡◌, subst, Bool, Option, Text, codes, text_eq_iff, ok}
use qemu_test.Config.{Config}
use qemu_test.Options.{Machine, CpuModel}
use qemu_test.Host.{Host}
use qemu_test.Host.Task.Told.{
  IsTold, Told, ◌>>=◌, ◌>>◌, retell, known, named, told_given, told_ensure, told_call,
}
use qemu_test.CloudInit.{CloudInitDisk, guest_user}
use qemu_test.Process.Serial.{pattern_of}
use qemu_test.Process.Spawn.{Launcher, QemuProcess}
use qemu_test.Scenario.Outside.{Bench}
use qemu_test.Scenario.Ends.{EndsWith}
use qemu_test.Scenario.Seen.{Sees, poll_line_timeout-IsTold}
use qemu_test.Scenario.Remote.{Remote, os_ready_pattern, port_of}
use qemu_test.Scenario.Remote.Told.{PortFound, port_of-IsTold}
use qemu_test.Ssh.Reached.{ssh_command-IsTold}
use qemu_test.FullOs.Disk.{Said, DiskEnd, with_disk-DiskEnd}
use qemu_test.FullOs.{boot_timeout, ssh_timeout, local_host, boot_config, check_boot, test_os_boot}

module _ (h : Host) (l : Launcher h) (b : Bench h l) (n : Remote h l) where
  -- From one state to another, in this order: the port of the guest was found, its status was told,
  -- its log showed the first line that matches the pattern, and it said over SSH that its name is
  -- `cloud`.
  pub record Booted (ci : CloudInitDisk) (process : QemuProcess h l) (w w' : h.W) : Type 0 where
    pub port : ℕ
    pub status : b.RunState
    pub pattern : b.Pattern
    pub ported : h.W
    pub asked : h.W
    pub seen : h.W
    pub port_found : PortFound h l b n process w port ported
    pub status_told : b.query_status process ported ≡ (ok status, asked)
    pub compiled : b.compile os_ready_pattern ≡ ok pattern
    pub ready : Sees h l b (pattern_of pattern) boot_timeout process asked tt seen
    pub host_named : Said h l b n ci port (codes "hostname") seen (codes "cloud") w'

  check_boot-Booted :
      (ci : CloudInitDisk) (process : QemuProcess h l)
      → IsTold (λ w (done : Unit {0}) w'. Booted ci process w w') (check_boot h l b n ci process)
  unfolding check_boot
  check_boot-Booted ci process =
      let told : Told _ = (do
        port ← known (port_of h l b n process) (port_of-IsTold h l b n process)
        status ← named (told_call (b.query_status process)) _
        told_given (b.compile os_ready_pattern) λ pattern. do
          named (known _ (poll_line_timeout-IsTold h l b process (pattern_of pattern) boot_timeout))
              _
          hostname ← known _ (
              ssh_command-IsTold h b.lossy n.fmt_debug n.run n.run_lem ci.ssh_key_path local_host
                port guest_user (codes "hostname") ssh_timeout)
          told_ensure _ _) in
      retell _ _ _ told.1
        λ w done w'
            (
              port,
              w₁,
              found,
              (status, w₂, told, (pattern, c, (shown, w₃, ready, (hostname, w₄, said, (t, q))))),
            ).
          record {
            port = port;
            status = status;
            pattern = pattern;
            ported = w₁;
            asked = w₂;
            seen = w₃;
            port_found = found;
            status_told = told;
            compiled = c;
            ready = ready;
            host_named =
                subst (λ output. Said h l b n ci port (codes "hostname") w₃ output w')
                  ((text_eq_iff hostname (codes "cloud")).0 t)
                  (subst (λ v. Said h l b n ci port (codes "hostname") w₃ hostname v) q said);
          }

  -- `test_os_boot` returns, and either its error is that the temporary directory, the disk or the
  -- process could not be made, or, whatever it returns, the status of its child has been collected,
  -- or asking for it failed last, and then the directory is removed. The process is started behind
  -- the creation of the disk, step by step. It passes only if, in this order,
  -- the port of the guest was found, its status was told, its log showed a line that matches the
  -- pattern, the first one that was read to do so, and the guest said over SSH that its name is
  -- `cloud`.
  pub test_os_boot_end :
      (cpu : CpuModel) (machine : Machine) (smp : ℕ) (ovmf : Option Text) (io_thread : Bool)
      (config : Config) (w : h.W)
      → EndsWith
          (DiskEnd h l b n config
            (λ dir net ci. boot_config dir ci net cpu machine smp ovmf io_thread)
            Booted)
          (test_os_boot h l b n cpu machine smp ovmf io_thread config)
          w
  unfolding test_os_boot
  test_os_boot_end cpu machine smp ovmf io_thread config =
      with_disk-DiskEnd h l b n Booted config
        (λ dir net ci. boot_config dir ci net cpu machine smp ovmf io_thread) (check_boot h l b n)
        check_boot-Booted
