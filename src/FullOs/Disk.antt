-- ===== src/FullOs/Disk.antt =====
-- The tests of src/tests/full_os.rs up to the start of the process, and its end.
use qemu_test.Prelude.{ℕ, Text, codes, Result}
use qemu_test.Config.{Config}
use qemu_test.Options.Net.{NetConfig}
use qemu_test.Guest.Builder.{QemuConfig}
use qemu_test.Host.{Host}
use qemu_test.Host.Task.{Task}
use qemu_test.Host.Task.Told.{IsTold}
use qemu_test.CloudInit.{CloudInitDisk, guest_user, with_net_config}
use qemu_test.Process.Spawn.{Launcher, QemuProcess}
use qemu_test.Scenario.Outside.{Bench}
use qemu_test.Scenario.{with_process}
use qemu_test.Scenario.Ends.{
  Returns, ProcessEnd, TempDirEnd, with_process-ProcessEnd, with_temp_dir-TempDirEnd,
}
use qemu_test.Scenario.Remote.{Remote, user_net_of, prepare_disk}
use qemu_test.Scenario.Remote.Made.{MadeOr, task-MadeOr, Passed, IsTold-Passed}
use qemu_test.Scenario.Remote.Told.{Prepared, prepare_disk-Prepared}
use qemu_test.Ssh.Reached.{Ran}
use qemu_test.FullOs.{ssh_timeout, local_host, with_disk}

module _ (h : Host) (l : Launcher h) (b : Bench h l) (n : Remote h l) where
  -- a command that was run in the guest by the key of the disk, with its output
  abbrev pub Said : CloudInitDisk → ℕ → Text → h.W → Text → h.W → Type 0
  Said ci port command =
      Ran h b.lossy n.fmt_debug n.run n.run_lem ci.ssh_key_path local_host port guest_user command
        ssh_timeout

  -- the disk could not be made, or what holds behind the process of the test, if it could be made
  abbrev pub DiskEnd :
      Config
      → (Text → NetConfig → CloudInitDisk → QemuConfig)
      → (CloudInitDisk → QemuProcess h l → h.W → h.W → Type 0)
      → Result (Unit {0})
      → h.W
      → Type 0
  DiskEnd config cfg R = TempDirEnd h l b (codes "failed to create temp dir") λ dir r w'.
      (net : NetConfig) × MadeOr (prepare_disk h l b n dir (λ disk. with_net_config disk net))
        (Prepared h l b n dir (λ disk. with_net_config disk net))
        (λ ci.
          ProcessEnd h l b (codes "failed to spawn QEMU process") config (cfg dir net ci)
            λ process. Passed (R ci process))
        r w'

  pub with_disk-DiskEnd :
      (R : CloudInitDisk → QemuProcess h l → h.W → h.W → Type 0) (config : Config)
      (cfg : Text → NetConfig → CloudInitDisk → QemuConfig)
      (body : CloudInitDisk → QemuProcess h l → Task h.W (Unit {0}))
      → ((ci : CloudInitDisk) (process : QemuProcess h l)
          → IsTold (λ w (done : Unit {0}) w'. R ci process w w') (body ci process))
      → Returns (DiskEnd config cfg R) (
          with_disk h l b n λ dir net ci.
            with_process h l b
              (codes "failed to spawn QEMU process")
              config
              (cfg dir net ci)
              (body ci))
  unfolding with_disk
  with_disk-DiskEnd R config cfg body told =
      with_temp_dir-TempDirEnd h l b _ (codes "failed to create temp dir") _ λ dir w.
        let net = (user_net_of h l b n w).0 in
        let (r, w', e, met) =
          task-MadeOr
            (λ ci.
              ProcessEnd h l b (codes "failed to spawn QEMU process") config (cfg dir net ci)
                λ process. Passed (R ci process))
            (Prepared h l b n dir (λ disk. with_net_config disk net))
            (prepare_disk h l b n dir (λ disk. with_net_config disk net))
            (λ ci.
              with_process h l b (codes "failed to spawn QEMU process") config (cfg dir net ci)
                (body ci))
            (prepare_disk-Prepared h l b n dir (λ disk. with_net_config disk net))
            (λ ci.
              with_process-ProcessEnd h l b (λ process. Passed (R ci process))
                (codes "failed to spawn QEMU process") config (cfg dir net ci) (body ci)
                (λ process. IsTold-Passed (R ci process) (body ci process) (told ci process)))
            (user_net_of h l b n w).1 in
        (r, w', e, (net, met))
