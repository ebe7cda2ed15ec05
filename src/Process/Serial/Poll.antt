-- ===== src/Process/Serial/Poll.antt =====
-- `poll_line_match_timeout` of src/process.rs.
use qemu_test.Prelude.{
  ℕ, ◌+◌, ◌-◌, ◌/◌, ◌≤◌, ◌<◌, ◌≡◌, inl, inr, refl, ap, Bool, true, Bool-cases, some, [], ◌∷◌, ◌++◌,
  length, Text, ends_with, Result, ok, arith,
}
use qemu_test.Host.{Host, IsForward, is_expired, from_millis, done, again, repeat_rounds}
use qemu_test.Host.Rounds.{Goes, done-injective, again-ne-done, repeat-Leaves, repeat-decreases}
use qemu_test.Process.Serial.{
  Bytes, ExpectedOutput, matches, Read, bytes, not_ready, failed, read_chunk, poll_judge,
  poll_round, poll_line_match_timeout,
}

module _ (h : Host) {Pattern : Type 0} (is_match : Pattern → Text → Bool) (lossy : Bytes → Text)
    (read_until : h.W → Read × h.W) where
  abbrev State : Type 0
  State = Bytes × h.W

  -- the line that a round returns
  abbrev pub LineRead : ExpectedOutput Pattern → State → Text → State → Type 0
  LineRead expected u text s' =
      (b : ℕ) × (buf : Bytes) × ((read_until u.1).0 ≡ bytes (b ∷ buf))
      × (ends_with (u.0 ++ b ∷ buf) b'\n' ≡ true)
      × (text ≡ lossy (u.0 ++ b ∷ buf))
      × (matches is_match expected text ≡ true)
      × (s'.0 ≡ [])

  judge_line :
      (expected : ExpectedOutput Pattern) (partial : Bytes) (w w' : h.W) (text : Text) (s' : State)
      (got : Read)
      → poll_judge h is_match lossy read_until expected
          (read_chunk lossy partial got).0
          ((read_chunk lossy partial got).1, w')
        ≡ (done (ok text), s')
      → (read_until w).0 ≡ got
      → LineRead expected (partial, w) text s'
  unfolding poll_judge read_chunk
  judge_line expected partial w w' text s' (bytes []) j q = absurd (again-ne-done j)
  judge_line expected partial w w' text s' (bytes (b ∷ buf)) j q =
      elim (Bool-cases (ends_with (partial ++ b ∷ buf) b'\n')) [
        | inl e ↦
            let j' = rw e at j in
            elim (Bool-cases (matches is_match expected (lossy (partial ++ b ∷ buf)))) [
              | inl m ↦
                  let (er, es) = done-injective (rw m at j') in
                  let et : text ≡ lossy (partial ++ b ∷ buf) = cc er in
                  (b, buf, q, e, et, rw et m, ap (λ (s : State). s.0) es)
              | inr m ↦ absurd (again-ne-done (rw m at j'))
            ]
        | inr e ↦ absurd (again-ne-done (rw e at j))
      ]
  judge_line expected partial w w' text s' not_ready j q = absurd (again-ne-done j)
  judge_line expected partial w w' text s' (failed e) j q = absurd (cc (done-injective j).0)

  round_line :
      (start timeout : ℕ) (expected : ExpectedOutput Pattern) (u : State) (text : Text) (s' : State)
      → poll_round h is_match lossy read_until start expected timeout u ≡ (done (ok text), s')
      → LineRead expected u text s'
  unfolding poll_round
  round_line start timeout expected (p, w) text s' e = elim (Bool-cases (h.shutdown w)) [
    | inl b ↦ absurd (cc (done-injective (rw b at e)).0)
    | inr b ↦
        let e' = rw b at e in
        elim (Bool-cases (is_expired h start timeout w)) [
          | inl x ↦ absurd (cc (done-injective (rw x at e')).0)
          | inr x ↦
              judge_line expected p w (read_until w).1 text s' (read_until w).0 (rw x at e') refl
        ]
  ]

  -- A line that is returned matches, and is a whole line: the bytes kept from earlier reads and
  -- those of the last read, which end with a newline. Nothing read is left over.
  pub poll_line_match :
      (fuel : ℕ) (expected : ExpectedOutput Pattern) (timeout : ℕ) (w : h.W) (text : Text)
      → (poll_line_match_timeout h is_match lossy read_until fuel expected timeout w).0
        ≡ some (ok text)
      → (u s' : State) × Goes
          (poll_round h is_match lossy read_until (h.now w) expected timeout)
          ([], w)
          u
        × LineRead expected u text s'
  unfolding poll_line_match_timeout
  poll_line_match fuel expected timeout w text e =
      let round = poll_round h is_match lossy read_until (h.now w) expected timeout in
      let s' = (repeat_rounds fuel round ([], w)).1 in
      let (u, g, last) = repeat-Leaves round fuel ([], w) s' (ok text) (λ i. (e i, s')) in
      (u, s', g, round_line (h.now w) timeout expected u text s' last)

  -- the bytes that a read takes from the log
  abbrev pub size : Read → ℕ
  size (bytes buf) = length buf
  size not_ready = 0
  size (failed e) = 0

  module _ (forward : IsForward h read_until)
      -- the position in the log, which never passes the greatest size of the log
      (pos : h.W → ℕ) (limit : ℕ) (bounded : (w : h.W) → pos w ≤ limit)
      (reads : (w : h.W) → pos w + size (read_until w).0 ≤ pos (read_until w).1)
      (sleeps : (d : ℕ) (w : h.W) → pos w ≤ pos (h.sleep d w)) where
    -- the bytes to come, and the pauses to come
    measure : ℕ → State → ℕ
    measure deadline (p, w) =
        limit - pos w + (deadline + from_millis 100 - h.now w) / from_millis 100

    judge_lowers :
        (deadline : ℕ) (expected : ExpectedOutput Pattern) (p : Bytes) (w : h.W) (got : Read)
        → (read_until w).0 ≡ got
        → h.now w ≤ deadline
        → (poll_judge h is_match lossy read_until expected
            (read_chunk lossy p got).0
            ((read_chunk lossy p got).1, (read_until w).1)).0
          ≡ again
        → measure deadline
            (poll_judge h is_match lossy read_until expected
              (read_chunk lossy p got).0
              ((read_chunk lossy p got).1, (read_until w).1)).1
          < measure deadline (p, w)
    unfolding poll_judge read_chunk measure
    judge_lowers deadline expected p w (bytes []) q t a = omega (
      arith,
      forward w,
      reads w,
      sleeps (from_millis 100) (read_until w).1,
      h.sleep_lem (from_millis 100) (read_until w).1,
    )
    judge_lowers deadline expected p w (bytes (b ∷ buf)) q t a =
        let more = rw q at (reads w) in ground (arith, forward w, more, bounded (read_until w).1)
    judge_lowers deadline expected p w not_ready q t a = omega (
      arith,
      forward w,
      reads w,
      sleeps (from_millis 100) (read_until w).1,
      h.sleep_lem (from_millis 100) (read_until w).1,
    )
    judge_lowers deadline expected p w (failed e) q t a = absurd (cc)

    round_lowers :
        (start timeout : ℕ) (expected : ExpectedOutput Pattern) (s : State)
        → (poll_round h is_match lossy read_until start expected timeout s).0 ≡ again
        → measure
            (start + timeout)
            (poll_round h is_match lossy read_until start expected timeout s).1
          < measure (start + timeout) s
    unfolding poll_round
    round_lowers start timeout expected (p, w) a = elim (Bool-cases (h.shutdown w)) [
      | inl b ↦ absurd (cc (rw b at a))
      | inr b ↦
          let a' = rw b at a in
          elim (Bool-cases (is_expired h start timeout w)) [
            | inl x ↦ absurd (cc (rw x at a'))
            | inr x ↦
                rw (b, x)
                  (judge_lowers (start + timeout) expected p w (read_until w).0 refl (ground arith)
                    (rw x at a'))
          ]
    ]

    -- If the log does not pass the size `limit`, a read moves on by the bytes that it takes, and
    -- neither a read nor a sleep turns back the clock or the position, then a call returns: `limit`,
    -- plus the timeout divided by 100 ms, plus two, rounds are enough.
    pub poll_line_total :
        (expected : ExpectedOutput Pattern) (timeout : ℕ) (w : h.W)
        → (r : Result Text) × ((poll_line_match_timeout h is_match lossy read_until
              (limit + timeout / from_millis 100 + 2)
              expected
              timeout
              w).0
            ≡ some r)
    unfolding poll_line_match_timeout measure
    poll_line_total expected timeout w =
        repeat-decreases (measure (h.now w + timeout))
          (poll_round h is_match lossy read_until (h.now w) expected timeout)
          (round_lowers (h.now w) timeout expected) (limit + timeout / from_millis 100 + 2) ([], w)
          (omega arith)
