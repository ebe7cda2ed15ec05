-- ===== src/Process/Child.antt =====
-- The end of a QEMU process: `quit_and_wait`, and the destructor that runs behind it and behind
-- every other use. The process and the QMP connection are the operating system's and the crate
-- `qapi`'s: the calls on them are parameters.
pub mod Reaped
pub mod Quit
use qemu_test.Prelude.{
  ℕ, ◌/◌, ◌++◌, Option, none, some, ◌∷◌, [], Text, codes, concat, if◌then◌else◌, Result, ok, err,
  bail, context,
}
use qemu_test.Number.{decimal}
use qemu_test.Options.{Accelerator, kvm, mshv}
use qemu_test.Host.{Host, is_expired, from_millis, from_secs, Round, done, again, repeat_rounds}

-- the calls on the child, the connection and the log
pub record Child (h : Host) : Type 1 where
  pub Status : Type 0
  pub qmp_quit : h.W → Result (Unit {0}) × h.W
  pub try_wait : h.W → Result (Option Status) × h.W
  -- `let _ = self.child.kill()` and `let _ = self.child.wait()`
  pub kill : h.W → h.W
  pub wait : h.W → h.W
  pub save_serial_log : h.W → h.W

abbrev pub drop_kill_timeout : ℕ
drop_kill_timeout = from_secs 10

module _ (h : Host) (c : Child h) where
  -- the message of `quit_and_wait` on a timeout
  pub not_terminated : ℕ → Text
  not_terminated timeout = concat (
      codes "QEMU did not terminate within "
      ∷ decimal (timeout / from_secs 1)
      ∷ codes "s after quit"
      ∷ [])

  -- behind `try_wait` in the loop of `quit_and_wait`
  unfoldable pub quit_judge :
      ℕ → ℕ → Result (Option c.Status) → h.W → Round (Result (Unit {0})) × h.W
  quit_judge start timeout (err e) w = (done (context (err e) (codes "failed to poll child")), w)
  quit_judge start timeout (ok (some status)) w = (done (ok tt), w)
  quit_judge start timeout (ok none) w =
      if is_expired h start timeout w
      then (done (bail (not_terminated timeout)), c.wait (c.kill w))
      else (again, h.sleep (from_millis 50) w)

  unfoldable pub quit_round : ℕ → ℕ → h.W → Round (Result (Unit {0})) × h.W
  unfolding quit_judge
  quit_round start timeout w = let (polled, w') = c.try_wait w in quit_judge start timeout polled w'

  -- behind `quit`
  unfoldable pub wait_for_exit : ℕ → ℕ → Result (Unit {0}) → h.W → Option (Result (Unit {0})) × h.W
  unfolding quit_round
  wait_for_exit fuel timeout (err e) w = (some (context (err e) (codes "QMP quit failed")), w)
  wait_for_exit fuel timeout (ok _) w = repeat_rounds fuel (quit_round (h.now w) timeout) w

  -- behind `try_wait` in the loop of `drop`
  unfoldable pub drop_judge : ℕ → Result (Option c.Status) → h.W → Round (Unit {0}) × h.W
  drop_judge start (err e) w = (done tt, w)
  drop_judge start (ok (some status)) w = (done tt, w)
  drop_judge start (ok none) w =
      if is_expired h start drop_kill_timeout w
      then (done tt, c.wait (c.kill w))
      else (again, h.sleep (from_millis 100) w)

  unfoldable pub drop_round : ℕ → h.W → Round (Unit {0}) × h.W
  unfolding drop_judge
  drop_round start w = let (polled, w') = c.try_wait w in drop_judge start polled w'

  unfoldable pub quit_or_kill : Result (Unit {0}) → h.W → h.W
  quit_or_kill (ok _) w = w
  quit_or_kill (err e) w = c.kill (h.sleep (from_millis 200) w)

  -- the first half of `drop`
  unfoldable pub shut_down : Accelerator → h.W → h.W
  unfolding quit_or_kill
  shut_down mshv w = c.kill w
  shut_down kvm w = let (answer, w') = c.qmp_quit w in quit_or_kill answer w'

  unfoldable pub drop : ℕ → Accelerator → h.W → Option (Unit {0}) × h.W
  unfolding shut_down drop_round
  drop fuel accel w =
      let w' = shut_down accel (c.save_serial_log w) in
      repeat_rounds fuel (drop_round (h.now w')) w'

  -- the result of a function behind the drop of its locals
  abbrev pub behind : Option (Unit {0}) → Option (Result (Unit {0})) → Option (Result (Unit {0}))
  behind none result = none
  behind (some dropped) result = result

  -- `self` is dropped when the function returns
  unfoldable pub quit_and_wait : ℕ → ℕ → Accelerator → ℕ → h.W → Option (Result (Unit {0})) × h.W
  unfolding wait_for_exit drop
  quit_and_wait fuel drop_fuel accel timeout w =
      let (answer, w₁) = c.qmp_quit w in
      let (result, w₂) = wait_for_exit fuel timeout answer w₁ in
      let (dropped, w₃) = drop drop_fuel accel w₂ in (behind dropped result, w₃)
