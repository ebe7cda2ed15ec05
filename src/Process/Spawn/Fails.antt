-- ===== src/Process/Spawn/Fails.antt =====
-- `QemuProcess::spawn` of src/process.rs: what it returns, and what becomes of the child.
use qemu_test.Prelude.{
  ℕ, ◌≡◌, ◌⊎◌, inl, inr, refl, sym, ap, Bool, true, false, Bool-cases, some, List, [], ◌∷◌, Text,
  codes, concat, Result, ok, err,
}
use qemu_test.Config.{Config, accel}
use qemu_test.Guest.{args, GuestConfig}
use qemu_test.Options.{Accelerator}
use qemu_test.Guest.Builder.{QemuConfig, guest_config}
use qemu_test.Host.{Host, IsForward, is_expired, from_millis}
use qemu_test.Host.Task.Safe.{
  Safe, IsSafe, Meets, ◌>>=◌, ◌>>◌, pure, named, outside, kept, repeat_rounds-keeps,
}
use qemu_test.Process.Socket.{
  Socket, Connected, connect, connect_round, connect_judge, connect_total,
}
use qemu_test.Process.Socket
use qemu_test.Process.Serial.{default_timeout}
use qemu_test.Process.Spawn.{
  Launcher, QemuProcess, program, qmp_io_timeout, connect_fuel, start_qemu, attach, spawn,
}

module _ (h : Host) (l : Launcher h) (forward : (path : Text) → IsForward h (l.exists path))
    -- `IsUnreaped child w`: the child was started, and its status has not been collected
    (IsUnreaped : l.Pid → h.W → Type 0)
    (starts : (name : Text) (list : List Text) (child : l.Pid) (w : h.W)
      → (l.start name list w).0 ≡ ok child
      → IsUnreaped child (l.start name list w).1)
    -- what `spawn` calls behind the start collects the status of no child
    (sleeps : (d : ℕ) (child : l.Pid) (w : h.W)
      → IsUnreaped child w
      → IsUnreaped child (h.sleep d w))
    (looks : (path : Text) (child : l.Pid) (w : h.W)
      → IsUnreaped child w
      → IsUnreaped child (l.exists path w).1)
    (connects : (path : Text) (child : l.Pid) (w : h.W)
      → IsUnreaped child w
      → IsUnreaped child (l.connect_stream path w).1)
    (sets_read : (s : l.Stream) (d : ℕ) (child : l.Pid) (w : h.W)
      → IsUnreaped child w
      → IsUnreaped child (l.set_read_timeout s d w).1)
    (sets_write : (s : l.Stream) (d : ℕ) (child : l.Pid) (w : h.W)
      → IsUnreaped child w
      → IsUnreaped child (l.set_write_timeout s d w).1)
    (clones : (s : l.Stream) (child : l.Pid) (w : h.W)
      → IsUnreaped child w
      → IsUnreaped child (l.try_clone s w).1)
    (shakes : (s t : l.Stream) (child : l.Pid) (w : h.W)
      → IsUnreaped child w
      → IsUnreaped child (l.handshake s t w).1)
    (opens : (path : Text) (child : l.Pid) (w : h.W)
      → IsUnreaped child w
      → IsUnreaped child (l.open_file path w).1) where
  judge_keeps :
      (start timeout : ℕ) (path : Text) (child : l.Pid) (found : Bool) (w : h.W)
      → IsUnreaped child w
      → IsUnreaped child (connect_judge h l.exists l.connect_stream start timeout path found w).1
  unfolding connect_judge
  judge_keeps start timeout path child true w a = connects path child w a
  judge_keeps start timeout path child false w a =
      elim (Bool-cases (is_expired h start timeout w)) [
        | inl b ↦ rw b a
        | inr b ↦ rw b (sleeps (from_millis 50) child w a)
      ]

  connect_keeps :
      (socket : Socket Socket.Unconnected) (timeout : ℕ) (child : l.Pid) (w : h.W)
      → IsUnreaped child w
      → IsUnreaped child (connect h l.exists l.connect_stream connect_fuel socket timeout w).1
  unfolding connect connect_round
  connect_keeps socket timeout child w a =
      repeat_rounds-keeps (IsUnreaped child)
        (connect_round h l.exists l.connect_stream (h.now w) timeout socket.state.path)
        (λ v b.
          judge_keeps (h.now w) timeout socket.state.path child (l.exists socket.state.path v).0
            (l.exists socket.state.path v).1 (looks socket.state.path child v b))
        connect_fuel w a

  -- `attach`, with what it promises
  attach-Safe :
      (cfg : GuestConfig) (child : l.Pid)
      → Safe (IsUnreaped child) (λ (p : QemuProcess h l). p.child ≡ child)
  attach-Safe cfg child = do
    socket ←
        kept
          (connect h l.exists l.connect_stream connect_fuel (Socket.new cfg.qmp_sock_path)
            default_timeout)
          (connect_total h l.exists l.connect_stream forward (Socket.new cfg.qmp_sock_path)
            default_timeout)
          (connect_keeps (Socket.new cfg.qmp_sock_path) default_timeout child)
    let stream = socket.state.stream
    named
        (outside (l.set_read_timeout stream qmp_io_timeout) (sets_read stream qmp_io_timeout child))
        (codes "failed to set QMP read timeout")
    named
        (outside (l.set_write_timeout stream qmp_io_timeout)
          (sets_write stream qmp_io_timeout child))
        (codes "failed to set QMP write timeout")
    clone ←
        named (outside (l.try_clone stream) (clones stream child)) (codes "failed to clone stream")
    qmp ←
        named (outside (l.handshake clone stream) (shakes clone stream child))
          (codes "QMP handshake failed")
    serial_log ←
        named (outside (l.open_file cfg.serial_log_path) (opens cfg.serial_log_path child))
          (codes "failed to open serial log file")
    pure
        (record {
          child = child;
          qmp = qmp;
          serial_reader = serial_log;
          serial_log_path = cfg.serial_log_path;
          accel = cfg.accel;
        })
        refl

  attach-IsSafe :
      (cfg : GuestConfig) (child : l.Pid)
      → IsSafe
          (IsUnreaped child)
          (λ (p : QemuProcess h l). p.child ≡ child)
          (attach h l connect_fuel cfg child)
  unfolding attach attach-Safe
  attach-IsSafe cfg child = (attach-Safe cfg child).1

  -- the child of a process that is returned
  abbrev pub Owns : l.Pid → Result (QemuProcess h l) → Type 0
  Owns child (ok p) = p.child ≡ child
  Owns child (err e) = Unit

  abbrev pub start_failed : Config → List Text → List Text
  start_failed config e =
      concat (codes "failed to start process: " ∷ l.fmt_debug (program config) ∷ []) ∷ e

  -- What `spawn` returns, and the state that it leaves.
  abbrev pub SpawnEnd : Config → QemuConfig → h.W → Result (QemuProcess h l) → h.W → Type 0
  SpawnEnd config cfg w r w' =
      ((e : List Text) × (accel config ≡ err e) × (r ≡ err e) × (w' ≡ w))
      ⊎ ((a : Accelerator) × (e : List Text) × (accel config ≡ ok a)
          × (l.start (program config) (args (guest_config cfg a)) w ≡ (err e, w'))
          × (r ≡ err (start_failed config e)))
      ⊎ ((a : Accelerator) × (child : l.Pid) × (accel config ≡ ok a)
          × ((l.start (program config) (args (guest_config cfg a)) w).0 ≡ ok child)
          × IsUnreaped child w'
          × Owns child r)

  Meets-Owns :
      (child : l.Pid) (r : Result (QemuProcess h l))
      → Meets (λ (p : QemuProcess h l). p.child ≡ child) r
      → Owns child r
  Meets-Owns child (ok p) m = m
  Meets-Owns child (err e) m = tt

  -- If looking for the socket does not turn back the clock, and none of the calls behind the start
  -- collects the status of a child, then `spawn` returns, and either the accelerator is not known, and
  -- nothing was done; or the program could not be started; or a child was started, and its status has
  -- not been collected: it is the child of the process that is returned, or, where an error is
  -- returned, the child of no process.
  pub spawn_end :
      (config : Config) (cfg : QemuConfig) (w : h.W)
      → (r : Result (QemuProcess h l)) × (w' : h.W) × (spawn h l connect_fuel config cfg w
          ≡ (some r, w'))
        × SpawnEnd config cfg w r w'
  unfolding spawn start_qemu
  spawn_end config cfg w = by_accel (accel config) refl
    where
      by_start :
          (a : Accelerator) (answer : Result l.Pid) (v : h.W)
          → accel config ≡ ok a
          → l.start (program config) (args (guest_config cfg a)) w ≡ (answer, v)
          → (r : Result (QemuProcess h l)) × (w' : h.W) × (spawn h l connect_fuel config cfg w
              ≡ (some r, w'))
            × SpawnEnd config cfg w r w'
      by_start a (err e) v ea es =
          (err (start_failed config e), v, rw (ea, es) refl, inr (inl (a, e, ea, es, refl)))
      by_start a (ok child) v ea es =
          let runs : IsUnreaped child v = rw (sym (ap (λ (q : Result l.Pid × h.W). q.1) es)) (
            starts (program config) (args (guest_config cfg a)) child w
              (ap (λ (q : Result l.Pid × h.W). q.0) es)) in
          let (r, e, living, owned) = attach-IsSafe (guest_config cfg a) child v runs in
          (
            r,
            (attach h l connect_fuel (guest_config cfg a) child v).1,
            rw (ea, es) (rw e refl),
            inr (inr (a, child, ea, rw es refl, living, Meets-Owns child r owned)),
          )

      by_accel :
          (answer : Result Accelerator)
          → accel config ≡ answer
          → (r : Result (QemuProcess h l)) × (w' : h.W) × (spawn h l connect_fuel config cfg w
              ≡ (some r, w'))
            × SpawnEnd config cfg w r w'
      by_accel (err e) ea = (err e, w, rw ea refl, inl (e, ea, refl, refl))
      by_accel (ok a) ea =
          by_start a (l.start (program config) (args (guest_config cfg a)) w).0
            (l.start (program config) (args (guest_config cfg a)) w).1 ea refl
