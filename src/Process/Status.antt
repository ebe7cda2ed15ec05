-- ===== src/Process/Status.antt =====
-- `poll_status`: ask QEMU for the state of the guest until it is the expected one. The type of the
-- states, their equality and the QMP call are those of the crate `qapi`.
pub mod Live
use qemu_test.Prelude.{
  ℕ, ◌+◌, ◌/◌, ◌≤◌, ◌<◌, ◌≡◌, ◌≢◌, ◌⊎◌, inl, inr, refl, Bool, true, false, Bool-cases, Option, some,
  List, ◌∷◌, Text, codes, if◌then◌else◌, Result, ok, err, bail, context, arith,
}
use qemu_test.Host.{Host, IsForward, is_expired, from_millis, Round, done, again, repeat_rounds}
use native.Mathlib.Nat.{add-suc}
use qemu_test.Host.Rounds.{Goes, done-injective, again-ne-done, repeat-Leaves, repeat-ends}

module _ (h : Host) {RunState : Type 0} (state_eq : RunState → RunState → Bool)
    (query_status : h.W → Result RunState × h.W) where
  -- behind the query
  abbrev pub judge : RunState → Result RunState → h.W → Round (Result (Unit {0})) × h.W
  judge expected_state (err e) w = (done (context (err e) (codes "query_status failed")), w)
  judge expected_state (ok status) w =
      if state_eq status expected_state
      then (done (ok tt), w)
      else (again, h.sleep (from_millis 200) w)

  unfoldable pub status_round : ℕ → RunState → ℕ → h.W → Round (Result (Unit {0})) × h.W
  status_round start expected_state timeout w =
      if h.shutdown w
      then (done (bail (codes "interrupted")), w)
      else if is_expired h start timeout w
      then (done (bail (codes "timed out waiting for expected status")), w)
      else let (answer, w') = query_status w in judge expected_state answer w'

  unfoldable pub poll_status : ℕ → RunState → ℕ → h.W → Option (Result (Unit {0})) × h.W
  unfolding status_round
  poll_status fuel expected_state timeout w =
      repeat_rounds fuel (status_round (h.now w) expected_state timeout) w

  -- what a query ended the loop with
  abbrev pub Answered : RunState → h.W → Result (Unit {0}) → h.W → Type 0
  Answered expected u r w' =
      ((e : List Text) × (query_status u ≡ (err e, w'))
        × (r ≡ err (codes "query_status failed" ∷ e)))
      ⊎ ((s : RunState) × (query_status u ≡ (ok s, w'))
          × (state_eq s expected ≡ true)
          × (r ≡ ok tt))

  -- What ends the loop, in the state `u` of its last round: one thing, and it alone.
  abbrev pub StatusEnd : ℕ → RunState → ℕ → h.W → Result (Unit {0}) → h.W → Type 0
  StatusEnd start expected timeout u r w' =
      ((h.shutdown u ≡ true) × (r ≡ bail (codes "interrupted")) × (w' ≡ u))
      ⊎ ((h.shutdown u ≡ false)
          × ((is_expired h start timeout u ≡ true)
              × (r ≡ bail (codes "timed out waiting for expected status"))
              × (w' ≡ u)))
      ⊎ ((h.shutdown u ≡ false) × (is_expired h start timeout u ≡ false) × Answered expected u r w')

  judge_end :
      (expected : RunState) (u w' : h.W) (r : Result (Unit {0})) (answer : Result RunState)
      (v : h.W)
      → query_status u ≡ (answer, v)
      → judge expected answer v ≡ (done r, w')
      → Answered expected u r w'
  judge_end expected u w' r (err e) v q j = let (er, ew) = done-injective j in inl (e, rw ew q, er)
  judge_end expected u w' r (ok s) v q j = elim (Bool-cases (state_eq s expected)) [
    | inl b ↦ let (er, ew) = done-injective (rw b at j) in inr (s, rw ew q, b, er)
    | inr b ↦ absurd (again-ne-done (rw b at j))
  ]

  round_end :
      (start timeout : ℕ) (expected : RunState) (u w' : h.W) (r : Result (Unit {0}))
      → status_round start expected timeout u ≡ (done r, w')
      → StatusEnd start expected timeout u r w'
  unfolding status_round
  round_end start timeout expected u w' r e = elim (Bool-cases (h.shutdown u)) [
    | inl s ↦ let (er, ew) = done-injective (rw s at e) in inl (s, er, ew)
    | inr s ↦
        let e' = rw s at e in
        elim (Bool-cases (is_expired h start timeout u)) [
          | inl x ↦ let (er, ew) = done-injective (rw x at e') in inr (inl (s, (x, er, ew)))
          | inr x ↦ inr (
              inr (
                s,
                x,
                judge_end expected u w' r (query_status u).0 (query_status u).1 refl (rw x at e'),
              ))
        ]
  ]

  -- What `poll_status` returns was decided by its last round, behind rounds that went on: the error of
  -- a shutdown if that was asked for, or else the error of the timeout if it has passed, both without
  -- a query; and only if neither is so, the error of the query if it failed, or `Ok`, if the query
  -- answered with the expected state.
  pub poll_status_end :
      (fuel : ℕ) (expected : RunState) (timeout : ℕ) (w w' : h.W) (r : Result (Unit {0}))
      → poll_status fuel expected timeout w ≡ (some r, w')
      → (u : h.W) × Goes (status_round (h.now w) expected timeout) w u
        × StatusEnd (h.now w) expected timeout u r w'
  unfolding poll_status
  poll_status_end fuel expected timeout w w' r e =
      let (u, g, last) = repeat-Leaves (status_round (h.now w) expected timeout) fuel w w' r e in
      (u, g, round_end (h.now w) timeout expected u w' r last)

  pauses :
      (start timeout : ℕ) (expected : RunState) (w : h.W)
      → IsForward h query_status
      → (status_round start expected timeout w).0 ≡ again
      → h.now w + from_millis 200 ≤ h.now (status_round start expected timeout w).1
  unfolding status_round
  pauses start timeout expected w forward e =
      ground (arith, forward w, h.sleep_lem (from_millis 200) (query_status w).1)

  stops :
      (start timeout : ℕ) (expected : RunState) (w : h.W)
      → start + timeout < h.now w
      → (status_round start expected timeout w).0 ≢ again
  unfolding status_round
  stops start timeout expected w late e = ground arith

  -- If a query does not turn back the clock, `poll_status` returns after `timeout` divided by 200 ms,
  -- plus two, rounds at most.
  pub poll_status_total :
      (expected : RunState) (timeout : ℕ) (w : h.W)
      → IsForward h query_status
      → (r : Result (Unit {0})) × ((poll_status
            (timeout / from_millis 200 + 2)
            expected
            timeout
            w).0
          ≡ some r)
  unfolding poll_status
  poll_status_total expected timeout w forward =
      let start = h.now w in
      rw (add-suc (timeout / from_millis 200) 1) (
        repeat-ends h.now (start + timeout) (from_millis 200) (status_round start expected timeout)
          (λ u e. pauses start timeout expected u forward e) (stops start timeout expected)
          (timeout / from_millis 200 + 1) w (omega arith))
