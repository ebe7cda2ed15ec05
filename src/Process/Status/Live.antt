-- ===== src/Process/Status/Live.antt =====
-- `poll_status` of src/process.rs sees a state that the guest takes in time.
use qemu_test.Prelude.{
  ℕ, ◌+◌, ◌/◌, ◌≤◌, ◌≡◌, ◌≢◌, ◌⊎◌, inl, inr, refl, ◌∙◌, ap, Bool, true, false, Bool-cases, some,
  Result, ok, arith,
}
use qemu_test.Host.{Host, IsForward, is_expired, from_millis, done, again}
use qemu_test.Host.Rounds.{repeat_reaches}
use qemu_test.Process.Status.{judge, status_round, poll_status, poll_status_total}

module _ (h : Host) {RunState : Type 0} (state_eq : RunState → RunState → Bool)
    (query_status : h.W → Result RunState × h.W) (expected : RunState) (timeout ready stride : ℕ)
    (unasked : (w : h.W) → h.shutdown w ≡ false)
    (answers : (w : h.W) → (s : RunState) × ((query_status w).0 ≡ ok s))
    (arrives : (w : h.W) (s : RunState)
      → ready ≤ h.now w
      → (query_status w).0 ≡ ok s
      → state_eq s expected ≡ true)
    (strides : (w : h.W)
      → h.now (h.sleep (from_millis 200) (query_status w).1) ≤ h.now w + stride) where
  -- a round in time is decided by its answer
  round_judge :
      (start : ℕ) (w : h.W) (s : RunState)
      → h.now w ≤ start + timeout
      → (query_status w).0 ≡ ok s
      → status_round h state_eq query_status start expected timeout w
        ≡ judge h state_eq query_status expected (ok s) (query_status w).1
  unfolding status_round
  round_judge start w s t q =
      let fresh : is_expired h start timeout w ≡ false = ground arith in
      rw (unasked w, fresh, q) refl

  early :
      (start : ℕ) (w : h.W)
      → h.now w ≤ start + timeout
      → ((status_round h state_eq query_status start expected timeout w).0 ≡ again)
        ⊎ ((r : Result (Unit {0})) × ((status_round h state_eq query_status start expected timeout
                w).0
              ≡ done r)
            × (r ≡ ok tt))
  early start w t =
      let (s, q) = answers w in
      elim (Bool-cases (state_eq s expected)) [
        | inl b ↦ inr (ok tt, rw (round_judge start w s t q, b) refl, refl)
        | inr b ↦ inl (rw (round_judge start w s t q, b) refl)
      ]

  timely :
      (start : ℕ) (w : h.W)
      → ready ≤ h.now w
      → h.now w ≤ start + timeout
      → (status_round h state_eq query_status start expected timeout w).0 ≢ again
  timely start w since t a =
      let (s, q) = answers w in cc (rw (round_judge start w s t q, arrives w s since q) at a)

  round_strides :
      (start : ℕ) (w : h.W)
      → (status_round h state_eq query_status start expected timeout w).0 ≡ again
      → h.now (status_round h state_eq query_status start expected timeout w).1 ≤ h.now w + stride
  unfolding status_round
  round_strides start w a = ground (arith, strides w)

  -- If no shutdown is asked for, every query is answered, and does not turn back the clock, the guest
  -- is in the expected state whenever it is asked from the time `ready` on, and a query and a pause
  -- take `stride` at most, then, where `ready` and `stride` fit the timeout, `poll_status` succeeds.
  pub poll_status_succeeds :
      (w : h.W)
      → IsForward h query_status
      → ready + stride ≤ h.now w + timeout
      → (poll_status h state_eq query_status (timeout / from_millis 200 + 2) expected timeout w).0
        ≡ some (ok tt)
  unfolding poll_status
  poll_status_succeeds w forward room =
      let (r, e) = poll_status_total h state_eq query_status expected timeout w forward in
      let good =
        repeat_reaches h.now ready (h.now w + timeout) stride (λ r. r ≡ ok tt)
          (status_round h state_eq query_status (h.now w) expected timeout) (early (h.now w))
          (timely (h.now w)) (round_strides (h.now w)) room (timeout / from_millis 200 + 2) w r
          (omega arith) e in
      e ∙ ap (λ x. some x) good
