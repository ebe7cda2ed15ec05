-- ===== src/Scenario/Remote.antt =====
-- What the tests over SSH of src/tests use besides: the disk that configures the guest, the port of the
-- guest, and commands that are run in it. The program `ssh`, the answer to `info usernet`, the random
-- bytes and what the disk is made with are parameters.
pub mod Made
pub mod Told
use qemu_test.Prelude.{ℕ, some, List, Text, codes, Result}
use qemu_test.Options.Net.{NetConfig, user_net_config}
use qemu_test.Host.{Host, IsForward}
use qemu_test.Host.Task.{Task, ◌>>=◌, ◌>>◌, pure, with_context}
use qemu_test.CloudInit.{CloudInitDisk, System, guest_user, create}
use qemu_test.CloudInit
use qemu_test.Process.Port.{ssh_port}
use qemu_test.Process.Serial.{pattern_of, poll_line_timeout}
use qemu_test.Process.Spawn.{Launcher, QemuProcess}
use qemu_test.Scenario.Outside.{Bench, poll_fuel}
use qemu_test.Ssh.{Output, ssh_command, ssh_fire_and_forget}
use qemu_test.Ssh.Reached.{ssh_fuel}

-- the pattern of `full_os`
abbrev pub os_ready_pattern : Text
os_ready_pattern = codes "^CentOS Stream \\d+"

abbrev pub os_image : Text
os_image = codes "payload/os-image.qcow2"

pub record Remote (h : Host) (l : Launcher h) : Type 1 where
  pub system : System h.W
  -- the bytes of `generate_mac`
  pub random : h.W → (ℕ × ℕ × ℕ) × h.W
  -- the answer to `info usernet`
  pub usernet : QemuProcess h l → h.W → Result Text × h.W
  pub run : List Text → h.W → Result Output × h.W
  pub fmt_debug : ℕ → Text
  -- running `ssh` does not turn back the clock
  pub run_lem : (args : List Text) → IsForward h (run args)

module _ (h : Host) (l : Launcher h) (b : Bench h l) (n : Remote h l) where
  -- `NetConfig::user_net()`
  pub user_net_of : h.W → NetConfig × h.W
  user_net_of w = let ((x, y, z), w') = n.random w in (user_net_config x y z, w')

  -- `configure` is the rest of the chain behind `CloudInitDisk::new`
  unfoldable pub prepare_disk : Text → (CloudInitDisk → CloudInitDisk) → Task h.W CloudInitDisk
  prepare_disk dir configure = do
    disk ← CloudInit.new n.system dir
    let ci = configure disk
    with_context (create n.system ci) (codes "failed to create cloud-init disk")
    pure ci

  -- `process.ssh_port()`
  abbrev pub port_of : QemuProcess h l → Task h.W ℕ
  port_of process w = let (answer, w') = n.usernet process w in (some (ssh_port answer), w')

  -- `process.poll_line_timeout(ExpectedOutput::Pattern(pattern), timeout)`
  abbrev pub await_pattern : QemuProcess h l → b.Pattern → ℕ → Task h.W (Unit {0})
  await_pattern process pattern timeout =
      poll_line_timeout h b.is_match b.lossy (b.read_until process) (poll_fuel b.limit timeout)
        (pattern_of pattern) timeout

  -- `ssh_command` with the user of the disk: the key, the host, the port, the command, the timeout
  abbrev pub run_ssh : Text → Text → ℕ → Text → ℕ → Task h.W Text
  run_ssh key_path host port command timeout =
      ssh_command h b.lossy n.fmt_debug n.run (ssh_fuel timeout) key_path host port guest_user
        command timeout

  abbrev pub fire_ssh : Text → Text → ℕ → Text → h.W → h.W
  fire_ssh key_path host port command =
      ssh_fire_and_forget h b.lossy n.fmt_debug n.run key_path host port guest_user command
