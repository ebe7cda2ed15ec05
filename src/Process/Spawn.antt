-- ===== src/Process/Spawn.antt =====
-- `QemuProcess::spawn` of src/process.rs. Starting a program, the stream of a socket, the QMP handshake
-- of the crate qapi and the opening of a file are parameters.
pub mod Fails
mod Tests
use qemu_test.Prelude.{
  ◌+◌, ◌/◌, ℕ, Bool, Option, none, some, List, [], ◌∷◌, Text, codes, concat, Result,
}
use qemu_test.Config.{Config, qemu_bin, accel}
use qemu_test.Options.{Accelerator}
use qemu_test.Guest.{args, GuestConfig}
use qemu_test.Guest.Builder.{QemuConfig, guest_config}
use qemu_test.Host.{Host, from_secs, from_millis}
use qemu_test.Host.Task.{Task, ◌>>=◌, ◌>>◌, pure, given, call, with_context}
use qemu_test.Process.Socket.{Socket, Connected, connect}
use qemu_test.Process.Socket
use qemu_test.Process.Serial.{default_timeout}

abbrev pub default_qemu_bin : Text
default_qemu_bin = codes "qemu-system-x86_64"

abbrev pub qmp_io_timeout : ℕ
qmp_io_timeout = from_secs 60

-- the rounds that `connect` needs at most
abbrev pub connect_fuel : ℕ
connect_fuel = default_timeout / from_millis 50 + 2

pub record Launcher (h : Host) : Type 1 where
  pub Pid : Type 0
  pub Stream : Type 0
  pub Qmp : Type 0
  pub File : Type 0
  -- `Command::new(program).args(args).spawn()`
  pub start : Text → List Text → h.W → Result Pid × h.W
  pub exists : Text → h.W → Bool × h.W
  pub connect_stream : Text → h.W → Result Stream × h.W
  pub set_read_timeout : Stream → ℕ → h.W → Result (Unit {0}) × h.W
  pub set_write_timeout : Stream → ℕ → h.W → Result (Unit {0}) × h.W
  pub try_clone : Stream → h.W → Result Stream × h.W
  -- `Qmp::new` on the two streams, and `handshake`
  pub handshake : Stream → Stream → h.W → Result Qmp × h.W
  pub open_file : Text → h.W → Result File × h.W
  -- `{:?}` of a text
  pub fmt_debug : Text → Text

abbrev pub program : Config → Text
program config = elim (qemu_bin config) [ none ↦ default_qemu_bin | some bin ↦ bin ]

module _ (h : Host) (l : Launcher h) where
  pub record QemuProcess : Type 0 where
    pub child : l.Pid
    pub qmp : l.Qmp
    pub serial_reader : l.File
    pub serial_log_path : Text
    pub accel : Accelerator

  unfoldable pub start_qemu : Config → GuestConfig → Task h.W l.Pid
  start_qemu config cfg =
      with_context (call (l.start (program config) (args cfg)))
        (concat (codes "failed to start process: " ∷ l.fmt_debug (program config) ∷ []))

  -- behind the start of the child; `fuel` is that of `connect`
  unfoldable pub attach : ℕ → GuestConfig → l.Pid → Task h.W QemuProcess
  attach fuel cfg child = do
    socket ← connect h l.exists l.connect_stream fuel (Socket.new cfg.qmp_sock_path) default_timeout
    let stream = socket.state.stream
    with_context (call (l.set_read_timeout stream qmp_io_timeout))
        (codes "failed to set QMP read timeout")
    with_context (call (l.set_write_timeout stream qmp_io_timeout))
        (codes "failed to set QMP write timeout")
    clone ← with_context (call (l.try_clone stream)) (codes "failed to clone stream")
    qmp ← with_context (call (l.handshake clone stream)) (codes "QMP handshake failed")
    serial_log ←
        with_context (call (l.open_file cfg.serial_log_path))
          (codes "failed to open serial log file")
    pure (record {
      child = child;
      qmp = qmp;
      serial_reader = serial_log;
      serial_log_path = cfg.serial_log_path;
      accel = cfg.accel;
    })

  unfoldable pub spawn : ℕ → Config → QemuConfig → Task h.W QemuProcess
  spawn fuel config cfg = do
    accelerator ← given (accel config)
    let guest = guest_config cfg accelerator
    child ← start_qemu config guest
    attach fuel guest child
