-- ===== src/Host.antt =====
-- What the program uses of the machine that it runs on: the clock (`Instant::now`, in nanoseconds),
-- `thread::sleep`, and the flag SHUTDOWN of src/main.rs, which the handler of SIGINT sets at any
-- time. A state `W` is all that the program does not hold itself; each call to the outside returns
-- the state behind it, so time passes and signals arrive within the calls. The loops of the program
-- that wait are rounds that end it or go on.
pub mod Rounds
pub mod Sample
pub mod Task
use qemu_test.Prelude.{ℕ, zero, suc, ◌+◌, ◌-◌, ◌*◌, ◌≤◌, ◌<◌, Bool, Option, none, some, ltb}

pub record Host : Type 1 where
  pub W : Type 0
  pub now : W → ℕ
  pub shutdown : W → Bool
  pub sleep : ℕ → W → W
  -- `sleep` puts the thread to sleep for at least the given time.
  pub sleep_lem : (d : ℕ) (w : W) → now w + d ≤ now (sleep d w)

abbrev pub from_secs : ℕ → ℕ
from_secs n = n * 1_000_000_000

abbrev pub from_millis : ℕ → ℕ
from_millis n = n * 1_000_000

-- a call to the outside does not turn back the clock
abbrev pub IsForward : (h : Host) → {A : Type 0} → (h.W → A × h.W) → Type 0
IsForward h call = (w : h.W) → h.now w ≤ h.now (call w).1

-- `start.elapsed() > timeout`
abbrev pub is_expired : (h : Host) → ℕ → ℕ → h.W → Bool
is_expired h start timeout w = ltb timeout (h.now w - start)

-- what a round of a loop does: leave the function with a result, or go on
pub data Round (R : Type 0) : Type 0 where
  done : R → Round R
  again : Round R

-- `loop { … }`; `none` is a loop that has not ended after the rounds that the fuel allows
module _ {R W : Type 0} where
  abbrev pub continue : Round R → W → (W → Option R × W) → Option R × W
  continue (done r) w rounds = (some r, w)
  continue again w rounds = rounds w

  unfoldable pub repeat_rounds : ℕ → (W → Round R × W) → W → Option R × W
  repeat_rounds zero round w = (none, w)
  repeat_rounds (suc fuel) round w =
      let (r, w') = round w in continue r w' (repeat_rounds fuel round)
