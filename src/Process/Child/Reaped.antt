-- ===== src/Process/Child/Reaped.antt =====
-- `quit_and_wait` and the destructor of `QemuProcess`, of src/process.rs: their loops and the child.
use native.Mathlib.Nat.{add-suc}
use qemu_test.Prelude.{
  ℕ, ◌+◌, ◌/◌, ◌≤◌, ◌<◌, ◌≡◌, ◌≢◌, ◌⊎◌, inl, inr, refl, sym, ap, Bool, true, Bool-cases, Option,
  none, some, List, Text, Result, ok, err, arith,
}
use qemu_test.Options.{Accelerator}
use qemu_test.Host.{Host, IsForward, is_expired, from_millis, done, again}
use qemu_test.Host.Rounds.{done-injective, again-ne-done, repeat-Leaves, repeat-ends}
use qemu_test.Process.Child.{
  Child, drop_kill_timeout, quit_round, wait_for_exit, drop_judge, drop_round, shut_down, drop,
  quit_and_wait,
}

module _ (h : Host) (c : Child h) where
  module _ (forward : IsForward h c.try_wait) where
    drop_pauses :
        (start : ℕ) (w : h.W)
        → (drop_round h c start w).0 ≡ again
        → h.now w + from_millis 100 ≤ h.now (drop_round h c start w).1
    unfolding drop_round
    drop_pauses start w e =
        ground (arith, forward w, h.sleep_lem (from_millis 100) (c.try_wait w).1)

    drop_stops :
        (start : ℕ) (w : h.W)
        → start + drop_kill_timeout < h.now w
        → (drop_round h c start w).0 ≢ again
    unfolding drop_round
    drop_stops start w late e = ground (arith, forward w)

    -- If asking for the status of the child does not turn back the clock, the loop of the destructor
    -- ends after 102 rounds at most: 10 s, in pauses of 100 ms.
    pub drop_total : (accel : Accelerator) (w : h.W) → (drop h c 102 accel w).0 ≡ some tt
    unfolding drop
    drop_total accel w =
        let w' = shut_down h c accel (c.save_serial_log w) in
        (repeat-ends h.now (h.now w' + drop_kill_timeout) (from_millis 100)
          (drop_round h c (h.now w')) (drop_pauses (h.now w')) (drop_stops (h.now w')) 101 w'
          (omega arith)).1

    quit_pauses :
        (start timeout : ℕ) (w : h.W)
        → (quit_round h c start timeout w).0 ≡ again
        → h.now w + from_millis 50 ≤ h.now (quit_round h c start timeout w).1
    unfolding quit_round
    quit_pauses start timeout w e =
        ground (arith, forward w, h.sleep_lem (from_millis 50) (c.try_wait w).1)

    quit_stops :
        (start timeout : ℕ) (w : h.W)
        → start + timeout < h.now w
        → (quit_round h c start timeout w).0 ≢ again
    unfolding quit_round
    quit_stops start timeout w late e = ground (arith, forward w)

    -- If asking for the status of the child does not turn back the clock, `quit_and_wait` returns,
    -- whether QEMU exits or hangs: `timeout` divided by 50 ms, plus two, rounds are enough for its own
    -- loop, and 102 for that of the destructor, which runs before it returns.
    pub quit_and_wait_total :
        (accel : Accelerator) (timeout : ℕ) (w : h.W)
        → (r : Result (Unit {0})) × ((quit_and_wait h c
              (timeout / from_millis 50 + 2)
              102
              accel
              timeout
              w).0
            ≡ some r)
    unfolding quit_and_wait
    quit_and_wait_total accel timeout w =
        let (answer, v) = c.qmp_quit w in
        let exit = wait_for_exit h c (timeout / from_millis 50 + 2) timeout answer v in
        rw (drop_total accel exit.1) (ends answer v)
      where
        ends :
            (answer : Result (Unit {0})) (v : h.W)
            → (r : Result (Unit {0})) × ((wait_for_exit h c
                  (timeout / from_millis 50 + 2)
                  timeout
                  answer
                  v).0
                ≡ some r)
        ends (err e) v = (_, refl)
        ends (ok x) v = rw (add-suc (timeout / from_millis 50) 1) (
            repeat-ends h.now (h.now v + timeout) (from_millis 50)
              (quit_round h c (h.now v) timeout) (quit_pauses (h.now v) timeout)
              (quit_stops (h.now v) timeout) (timeout / from_millis 50 + 1) v (omega arith))

  -- `reaped w` is that the child has exited and its status has been collected.
  module _ (reaped : h.W → Bool)
      -- `wait` collects the status of the killed child
      (wait_reaps : (w : h.W) → reaped (c.wait (c.kill w)) ≡ true)
      -- `try_wait` with a status has collected it
      (poll_reaps : (w : h.W) (s : c.Status)
        → (c.try_wait w).0 ≡ ok (some s)
        → reaped (c.try_wait w).1 ≡ true) where
    -- the child is gone, or the last look at it failed
    abbrev pub Gone : h.W → Type 0
    Gone w' = (reaped w' ≡ true) ⊎ ((u : h.W) × (e : List Text) × (c.try_wait u ≡ (err e, w')))

    drop_judge-Gone :
        (start : ℕ) (u w' v : h.W) (polled : Result (Option c.Status))
        → c.try_wait u ≡ (polled, v)
        → drop_judge h c start polled v ≡ (done tt, w')
        → Gone w'
    unfolding drop_judge
    drop_judge-Gone start u w' v (err e) q j = inr (u, e, rw (done-injective j).1 q)
    drop_judge-Gone start u w' v (ok (some s)) q j = inl (
        rw ((done-injective j).1, sym (ap (λ (p : Result (Option c.Status) × h.W). p.1) q))
          (poll_reaps u s (ap (λ (p : Result (Option c.Status) × h.W). p.0) q)))
    drop_judge-Gone start u w' v (ok none) q j =
        elim (Bool-cases (is_expired h start drop_kill_timeout v)) [
          | inl b ↦ inl (rw (done-injective (rw b at j)).1 (wait_reaps v))
          | inr b ↦ absurd (again-ne-done (rw b at j))
        ]

    -- If waiting for a killed child collects its status, and so does asking for a status that is
    -- there, then the status of the child is collected behind the destructor, on every accelerator
    -- and whether or not the child answered, unless the destructor ended on a call that failed to
    -- ask for it.
    pub drop_reaps :
        (fuel : ℕ) (accel : Accelerator) (w w' : h.W)
        → drop h c fuel accel w ≡ (some tt, w')
        → Gone w'
    unfolding drop
    drop_reaps fuel accel w w' e =
        let v = shut_down h c accel (c.save_serial_log w) in
        let (u, g, last) = repeat-Leaves (drop_round h c (h.now v)) fuel v w' tt e in
        drop_judge-Gone (h.now v) u w' (c.try_wait u).1 (c.try_wait u).0 refl
          (unfold drop_round in last)
