-- ===== src/Process/Serial/First.antt =====
-- `poll_line_match_timeout` of src/process.rs as a search of the log for its first matching line.
use qemu_test.Prelude.{
  subst, ℕ, ◌≡◌, refl, sym, ap, ◌∙◌, ◌⊎◌, inl, inr, Bool, true, false, Bool-cases, Option, some,
  List, [], ◌∷◌, ◌++◌, append-nil, All, All-append, Text, codes, ends_with, Result, ok, err,
}
use qemu_test.Host.{Host, is_expired, from_millis, Round, done, again, repeat_rounds}
use qemu_test.Host.Rounds.{Goes, start, step, repeat-Leaves}
use qemu_test.Process.Serial.{
  Bytes, ExpectedOutput, matches, Read, bytes, not_ready, failed, read_chunk, poll_judge,
  poll_round, poll_line_match_timeout,
}
use qemu_test.Process.Serial.Lines.{
  read_chunks, read_chunks-append, read_chunks-flatten, cut_lines, flatten, IsChunk,
}

module _ (h : Host) {Pattern : Type 0} (is_match : Pattern → Text → Bool) (lossy : Bytes → Text)
    (read_until : h.W → Read × h.W) where
  abbrev State : Type 0
  State = Bytes × h.W

  -- the chunks that were read on the way from one state to another
  pub data Reads (w : h.W) : List Bytes → h.W → Type 0 where
    begin : Reads w [] w
    took :
        {chunks : List Bytes} {u : h.W} (chunk : Bytes)
        → Reads w chunks u
        → (read_until u).0 ≡ bytes chunk
        → Reads w (chunks ++ chunk ∷ []) (read_until u).1
    missed :
        {chunks : List Bytes} {u : h.W}
        → Reads w chunks u
        → ((read_until u).0 ≡ not_ready) ⊎ ((read_until u).0 ≡ bytes [])
        → Reads w chunks (read_until u).1
    slept :
        {chunks : List Bytes} {u : h.W}
        → Reads w chunks u
        → Reads w chunks (h.sleep (from_millis 100) u)

  module _ (expected : ExpectedOutput Pattern) where
    abbrev pub Unmatched : Text → Type 0
    Unmatched text = matches is_match expected text ≡ false

    -- What a result says of the chunks that were read.
    abbrev pub Answers : List Bytes → Result Text → Type 0
    Answers chunks (ok text) =
        (earlier : List Text) × (read_chunks lossy [] chunks ≡ (earlier ++ text ∷ [], []))
        × All Unmatched earlier
        × (matches is_match expected text ≡ true)
    Answers chunks (err e) = All Unmatched (read_chunks lossy [] chunks).0

    module _ (began timeout : ℕ) where
      -- a round that reads
      abbrev pub IsOpen : h.W → Type 0
      IsOpen u = (h.shutdown u ≡ false) × (is_expired h began timeout u ≡ false)

      -- What ends the loop behind the chunks that were read up to the state `u`: one thing, and it
      -- alone.
      abbrev pub Ends : h.W → Result Text → h.W → Type 0
      Ends u (ok text) w' =
          (before : h.W) × IsOpen before
          × (chunk : Bytes) × (read_until before ≡ (bytes chunk, u))
          × (w' ≡ u)
      Ends u (err e) w' =
          ((h.shutdown u ≡ true) × (e ≡ codes "interrupted" ∷ []) × (w' ≡ u))
          ⊎ ((h.shutdown u ≡ false)
              × ((is_expired h began timeout u ≡ true)
                  × (e ≡ codes "timeout waiting for expected output" ∷ [])
                  × (w' ≡ u)))
          ⊎ (IsOpen u
              × (m : Text) × (read_until u ≡ (failed m, w'))
              × (e ≡ (codes "serial file read error: " ++ m) ∷ []))

    -- the chunks so far, whose lines did not match, and the incomplete line that they left
    abbrev Heard : h.W → State → Type 0
    Heard w (partial, u) =
        (chunks : List Bytes) × Reads w chunks u
        × ((read_chunks lossy [] chunks).1 ≡ partial)
        × All Unmatched (read_chunks lossy [] chunks).0

    abbrev After : ℕ → ℕ → h.W → Round (Result Text) → State → Type 0
    After began timeout w (done r) s =
        (chunks : List Bytes) × (u : h.W) × Reads w chunks u
        × Answers chunks r
        × Ends began timeout u r s.1
    After began timeout w again s = Heard w s

    judge-After :
        (began timeout : ℕ) (w u : h.W) (partial : Bytes) (got : Read)
        → IsOpen began timeout u
        → (read_until u).0 ≡ got
        → Heard w (partial, u)
        → After began timeout w
            (poll_judge h is_match lossy read_until expected
              (read_chunk lossy partial got).0
              ((read_chunk lossy partial got).1, (read_until u).1)).0
            (poll_judge h is_match lossy read_until expected
              (read_chunk lossy partial got).0
              ((read_chunk lossy partial got).1, (read_until u).1)).1
    unfolding poll_judge read_chunk
    judge-After began timeout w u partial (bytes []) live q (chunks, reads, e, un) =
        (chunks, slept (missed reads (inr q)), e, un)
    judge-After began timeout w u partial (bytes (b ∷ buf)) live q (chunks, reads, e, un) =
        let more = read_chunks-append lossy [] chunks (b ∷ buf) in
        let next = took (b ∷ buf) reads q in
        elim (Bool-cases (ends_with (partial ++ b ∷ buf) b'\n')) [
          | inl en ↦
              let whole = rw (e, en) at more in
              elim (Bool-cases (matches is_match expected (lossy (partial ++ b ∷ buf)))) [
                | inl m ↦
                    rw (en, m)
                      (
                        chunks ++ (b ∷ buf) ∷ [],
                        (read_until u).1,
                        next,
                        ((read_chunks lossy [] chunks).0, whole, un, m),
                        (u, live, b ∷ buf, (λ i. (q i, (read_until u).1)), refl),
                      )
                | inr m ↦
                    rw (en, m)
                      (
                        chunks ++ (b ∷ buf) ∷ [],
                        next,
                        ap (λ (p : List Text × Bytes). p.1) whole,
                        rw (ap (λ (p : List Text × Bytes). p.0) whole) (
                            All-append Unmatched (read_chunks lossy [] chunks).0
                              (lossy (partial ++ b ∷ buf) ∷ []) un (m, tt)),
                      )
              ]
          | inr en ↦
              let whole = rw (e, en) at more in
              rw en (
                chunks ++ (b ∷ buf) ∷ [],
                next,
                ap (λ (p : List Text × Bytes). p.1) whole,
                rw (ap (λ (p : List Text × Bytes). p.0) whole, append-nil) un,
              )
        ]
    judge-After began timeout w u partial not_ready live q (chunks, reads, e, un) =
        (chunks, slept (missed reads (inl q)), e, un)
    judge-After began timeout w u partial (failed m) live q (chunks, reads, e, un) =
        (chunks, u, reads, un, inr (inr (live, m, (λ i. (q i, (read_until u).1)), refl)))

    round-After :
        (began timeout : ℕ) (w : h.W) (s : State)
        → Heard w s
        → After began timeout w
            (poll_round h is_match lossy read_until began expected timeout s).0
            (poll_round h is_match lossy read_until began expected timeout s).1
    unfolding poll_round
    round-After began timeout w (partial, u) (chunks, reads, e, un) =
        elim (Bool-cases (h.shutdown u)) [
          | inl b ↦ rw b (chunks, u, reads, un, inl (b, refl, refl))
          | inr b ↦ elim (Bool-cases (is_expired h began timeout u)) [
            | inl x ↦ rw (b, x) (chunks, u, reads, un, inr (inl (b, (x, refl, refl))))
            | inr x ↦
                rw (b, x)
                  (judge-After began timeout w u partial (read_until u).0 (b, x) refl
                    (chunks, reads, e, un))
          ]
        ]

    Goes-Heard :
        (began timeout : ℕ) (w : h.W) {s : State}
        → Goes (poll_round h is_match lossy read_until began expected timeout) ([], w) s
        → Heard w s
    unfolding read_chunks
    Goes-Heard began timeout w start = ([], begin, refl, tt)
    Goes-Heard began timeout w (step {u} v g a q) = rw q (
        subst
          (λ r.
            After began timeout w r
              (poll_round h is_match lossy read_until began expected timeout u).1)
          a (round-After began timeout w u (Goes-Heard began timeout w g)))

    poll_line_first :
        (fuel timeout : ℕ) (w w' : h.W) (r : Result Text)
        → poll_line_match_timeout h is_match lossy read_until fuel expected timeout w ≡ (some r, w')
        → (chunks : List Bytes) × (u : h.W) × Reads w chunks u
          × Answers chunks r
          × Ends (h.now w) timeout u r w'
    unfolding poll_line_match_timeout
    poll_line_first fuel timeout w w' r e =
        let round = poll_round h is_match lossy read_until (h.now w) expected timeout in
        let s' = (repeat_rounds fuel round ([], w)).1 in
        let (s, g, last) =
          repeat-Leaves round fuel ([], w) s' r
            (λ i. (ap (λ (p : Option (Result Text) × h.W). p.0) e i, s')) in
        let (chunks, u, reads, answers, ends) =
          subst (λ (p : Round (Result Text) × State). After (h.now w) timeout w p.0 p.1) last
            (round-After (h.now w) timeout w s (Goes-Heard (h.now w) timeout w g)) in
        (
          chunks,
          u,
          reads,
          answers,
          subst (λ v. Ends (h.now w) timeout u r v) (ap (λ (p : Option (Result Text) × h.W). p.1) e)
              ends,
        )

    -- What a result says of the log, as far as it was read.
    abbrev pub FirstMatch : Bytes → Result Text → Type 0
    FirstMatch log (ok text) =
        (earlier : List Text) × (cut_lines lossy [] log ≡ (earlier ++ text ∷ [], []))
        × All Unmatched earlier
        × (matches is_match expected text ≡ true)
    FirstMatch log (err e) = All Unmatched (cut_lines lossy [] log).0

    module _
        (chunked : (w : h.W) (chunk : Bytes) → (read_until w).0 ≡ bytes chunk → IsChunk chunk) where
      Reads-IsChunk : {w u : h.W} {chunks : List Bytes} → Reads w chunks u → All IsChunk chunks
      Reads-IsChunk begin = tt
      Reads-IsChunk (took {chunks} {u} chunk reads q) =
          All-append IsChunk chunks (chunk ∷ []) (Reads-IsChunk reads) (chunked u chunk q, tt)
      Reads-IsChunk (missed reads q) = Reads-IsChunk reads
      Reads-IsChunk (slept reads) = Reads-IsChunk reads

      Answers-FirstMatch :
          (chunks : List Bytes) (r : Result Text)
          → All IsChunk chunks
          → Answers chunks r
          → FirstMatch (flatten chunks) r
      Answers-FirstMatch chunks (ok text) k (earlier, e, un, m) =
          (earlier, sym (read_chunks-flatten lossy [] chunks k) ∙ e, un, m)
      Answers-FirstMatch chunks (err e) k un =
          subst (λ (p : List Text × Bytes). All Unmatched p.0)
            (read_chunks-flatten lossy [] chunks k) un

      -- If a read returns bytes with a newline at most at their end, then what
      -- `poll_line_match_timeout` returns is a search of the log, from where it stands up to what was
      -- read when the loop ended, for a line: a text that is returned is the last line read, whole,
      -- matches, and is the first line that does, with nothing read left over, and the round that read
      -- its end had found no shutdown and the timeout not passed; where an error is returned, no whole
      -- line that was read matches, and the error is that of a shutdown if the last round found one,
      -- that of the timeout if it found only that passed, and else that of a read that failed. How the
      -- log came in chunks does not matter.
      pub poll_line_refines :
          (fuel timeout : ℕ) (w w' : h.W) (r : Result Text)
          → poll_line_match_timeout h is_match lossy read_until fuel expected timeout w
            ≡ (some r, w')
          → (chunks : List Bytes) × (u : h.W) × Reads w chunks u
            × FirstMatch (flatten chunks) r
            × Ends (h.now w) timeout u r w'
      poll_line_refines fuel timeout w w' r e =
          let (chunks, u, reads, answer, ends) = poll_line_first fuel timeout w w' r e in
          (chunks, u, reads, Answers-FirstMatch chunks r (Reads-IsChunk reads) answer, ends)
