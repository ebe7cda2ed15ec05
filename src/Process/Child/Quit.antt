-- ===== src/Process/Child/Quit.antt =====
-- `quit_and_wait` of src/process.rs: what its result says of the child.
use mathlib.Core.Option.{some-injective}
use qemu_test.Prelude.{
  ℕ, ◌+◌, ◌/◌, ◌≡◌, ◌⊎◌, inl, inr, refl, sym, true, Bool-cases, Option, none, some, List, ◌∷◌, Text,
  codes, Result, ok, err, bail,
}
use qemu_test.Options.{Accelerator}
use qemu_test.Host.{Host, IsForward, is_expired, from_millis, done, repeat_rounds}
use qemu_test.Host.Rounds.{done-injective, again-ne-done, repeat-Leaves}
use qemu_test.Process.Child.{
  Child, behind, not_terminated, quit_judge, quit_round, wait_for_exit, drop, quit_and_wait,
}
use qemu_test.Process.Child.Reaped.{quit_and_wait_total}

module _ (h : Host) (c : Child h) where
  behind_inv :
      (dropped : Option (Unit {0})) (o : Option (Result (Unit {0}))) (r : Result (Unit {0}))
      → behind h c dropped o ≡ some r
      → o ≡ some r
  behind_inv none o r e = cc
  behind_inv (some d) o r e = e

  -- What a look at the child says, `start` being the time of the first one.
  abbrev pub LookEnd : ℕ → ℕ → Result (Unit {0}) → Type 0
  LookEnd start timeout r =
      (u v : h.W) × (((e : List Text) × (c.try_wait u ≡ (err e, v))
          × (r ≡ err (codes "failed to poll child" ∷ e)))
        ⊎ ((s : c.Status) × (c.try_wait u ≡ (ok (some s), v)) × (r ≡ ok tt))
        ⊎ ((c.try_wait u ≡ (ok none, v))
            × (is_expired h start timeout v ≡ true)
            × (r ≡ bail (not_terminated h c timeout))))

  judge-LookEnd :
      (start timeout : ℕ) (u v w' : h.W) (r : Result (Unit {0})) (polled : Result (Option c.Status))
      → c.try_wait u ≡ (polled, v)
      → quit_judge h c start timeout polled v ≡ (done r, w')
      → LookEnd start timeout r
  unfolding quit_judge
  judge-LookEnd start timeout u v w' r (err e) q j = (u, v, inl (e, q, (done-injective j).0))
  judge-LookEnd start timeout u v w' r (ok (some s)) q j =
      (u, v, inr (inl (s, q, (done-injective j).0)))
  judge-LookEnd start timeout u v w' r (ok none) q j =
      elim (Bool-cases (is_expired h start timeout v)) [
        | inl b ↦ (u, v, inr (inr (q, b, (done-injective (rw b at j)).0)))
        | inr b ↦ absurd (again-ne-done (rw b at j))
      ]

  -- what the result says of `quit` and of the child
  abbrev pub QuitEnd : ℕ → h.W → Result (Unit {0}) → Type 0
  QuitEnd timeout w r =
      ((e : List Text) × ((c.qmp_quit w).0 ≡ err e) × (r ≡ err (codes "QMP quit failed" ∷ e)))
      ⊎ (((c.qmp_quit w).0 ≡ ok tt) × LookEnd (h.now (c.qmp_quit w).1) timeout r)

  exit-QuitEnd :
      (fuel timeout : ℕ) (w : h.W) (r : Result (Unit {0})) (answer : Result (Unit {0}))
      → (c.qmp_quit w).0 ≡ answer
      → (wait_for_exit h c fuel timeout answer (c.qmp_quit w).1).0 ≡ some r
      → QuitEnd timeout w r
  unfolding wait_for_exit quit_round
  exit-QuitEnd fuel timeout w r (err e) q x = inl (e, q, sym (some-injective _ _ x))
  exit-QuitEnd fuel timeout w r (ok d) q x =
      let v = (c.qmp_quit w).1 in
      let round = quit_round h c (h.now v) timeout in
      let w' = (repeat_rounds fuel round v).1 in
      let (u, g, last) = repeat-Leaves round fuel v w' r (λ i. (x i, w')) in
      inr (q, judge-LookEnd (h.now v) timeout u (c.try_wait u).1 w' r (c.try_wait u).0 refl last)

  -- If asking for the status of the child does not turn back the clock, `quit_and_wait` returns, and
  -- its result is an error of `quit`; or, where `quit` was accepted, an error of asking for the
  -- status, or `Ok` only if a look found that the child had exited, or the error of the timeout only
  -- if a look past it found that it had not.
  pub quit_and_wait_end :
      (accel : Accelerator) (timeout : ℕ) (w : h.W)
      → IsForward h c.try_wait
      → (r : Result (Unit {0})) × ((quit_and_wait h c
            (timeout / from_millis 50 + 2)
            102
            accel
            timeout
            w).0
          ≡ some r)
        × QuitEnd timeout w r
  unfolding quit_and_wait
  quit_and_wait_end accel timeout w forward =
      let (r, e) = quit_and_wait_total h c forward accel timeout w in
      let exit =
        wait_for_exit h c (timeout / from_millis 50 + 2) timeout (c.qmp_quit w).0
          (c.qmp_quit w).1 in
      (
        r,
        e,
        exit-QuitEnd (timeout / from_millis 50 + 2) timeout w r (c.qmp_quit w).0 refl
            (behind_inv (drop h c 102 accel exit.1).0 exit.0 r e),
      )
