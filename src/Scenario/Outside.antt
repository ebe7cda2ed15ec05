-- ===== src/Scenario/Outside.antt =====
-- What the tests of src/tests use of the outside, with its documented behaviour, and the fuel
-- of their loops.
use qemu_test.Prelude.{ℕ, ◌+◌, ◌/◌, ◌≤◌, ◌≡◌, Bool, true, some, Text, Result, ok}
use qemu_test.Host.{Host, IsForward, from_millis}
use qemu_test.Process.Serial.{Bytes, Read, bytes}
use qemu_test.Process.Serial.Lines.{IsChunk}
use qemu_test.Process.Serial.Poll.{size}
use qemu_test.Process.Spawn.{Launcher, QemuProcess}
use qemu_test.Process.Child.{Child}

abbrev pub drop_fuel : ℕ
drop_fuel = 102

abbrev pub poll_fuel : ℕ → ℕ → ℕ
poll_fuel limit timeout = limit + timeout / from_millis 100 + 2

abbrev pub quit_fuel : ℕ → ℕ
quit_fuel timeout = timeout / from_millis 50 + 2

pub record Bench (h : Host) (l : Launcher h) : Type 1 where
  pub RunState : Type 0
  pub Pattern : Type 0
  pub tempdir : h.W → Result Text × h.W
  pub write : Text → Bytes → h.W → Result (Unit {0}) × h.W
  -- the drop of a `TempDir`
  pub remove_dir : Text → h.W → h.W
  pub child_of : QemuProcess h l → Child h
  pub query_status : QemuProcess h l → h.W → Result RunState × h.W
  pub read_until : QemuProcess h l → h.W → Read × h.W
  pub is_match : Pattern → Text → Bool
  pub lossy : Bytes → Text
  -- `Regex::new`
  pub compile : Text → Result Pattern
  -- the position in the log of a process, and its greatest size
  pub log_pos : QemuProcess h l → h.W → ℕ
  pub limit : ℕ
  -- looking for a file, asking for a status and reading do not turn back the clock
  pub exists_lem : (path : Text) → IsForward h (l.exists path)
  pub try_wait_lem : (process : QemuProcess h l) → IsForward h (child_of process).try_wait
  pub read_lem : (process : QemuProcess h l) → IsForward h (read_until process)
  -- a read moves on by the bytes that it takes, and the log does not pass its greatest size
  pub log_pos_lem : (process : QemuProcess h l) (w : h.W) → log_pos process w ≤ limit
  pub log_read_lem :
      (process : QemuProcess h l) (w : h.W)
      → log_pos process w + size h is_match lossy (read_until process) (read_until process w).0
        ≤ log_pos process (read_until process w).1
  pub log_sleep_lem :
      (process : QemuProcess h l) (d : ℕ) (w : h.W)
      → log_pos process w ≤ log_pos process (h.sleep d w)
  -- a read stops behind a newline
  pub chunk_lem :
      (process : QemuProcess h l) (w : h.W) (chunk : Bytes)
      → (read_until process w).0 ≡ bytes chunk
      → IsChunk chunk
  -- whether the status of the child has been collected
  pub reaped : QemuProcess h l → h.W → Bool
  -- `wait` collects the status of a killed child, and so does `try_wait` where there is one
  pub wait_lem :
      (process : QemuProcess h l) (w : h.W)
      → reaped process ((child_of process).wait ((child_of process).kill w)) ≡ true
  pub poll_lem :
      (process : QemuProcess h l) (w : h.W) (s : (child_of process).Status)
      → ((child_of process).try_wait w).0 ≡ ok (some s)
      → reaped process ((child_of process).try_wait w).1 ≡ true
