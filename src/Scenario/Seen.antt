-- ===== src/Scenario/Seen.antt =====
-- `poll_line` and `poll_line_timeout` in the tests of src/tests: they return, and what they found.
use qemu_test.Prelude.{ℕ, ◌≡◌, refl, ap, Option, none, some, List, Text, Result, ok, err, ◌>>=◌}
use qemu_test.Host.{Host}
use qemu_test.Host.Task.{Succeeds, with_context}
use qemu_test.Host.Task.Told.{Says, IsTold, Says-ok, named, known}
use qemu_test.Scenario.Ends.{Returns}
use qemu_test.Process.Serial.{
  Bytes, ExpectedOutput, poll_line_match_timeout, poll_line, poll_line_timeout, default_timeout,
}
use qemu_test.Process.Serial.Lines.{flatten}
use qemu_test.Process.Serial.First.{Reads, FirstMatch, poll_line_refines}
use qemu_test.Process.Serial.Poll.{poll_line_total}
use qemu_test.Process.Spawn.{Launcher, QemuProcess}
use qemu_test.Scenario.Outside.{Bench, poll_fuel}

-- `.map(|_| ())`, where there is a result
abbrev discarded : Option (Result Text) → Option (Result (Unit {0}))
discarded r = elim r [ none ↦ none | some x ↦ some (x >>= λ text. ok tt) ]

module _ (h : Host) (l : Launcher h) (b : Bench h l) where
  -- the log of the process, as far as it was read from this state on, ends with the first line that
  -- matches
  abbrev pub SeenFrom : ExpectedOutput b.Pattern → QemuProcess h l → h.W → Type 0
  SeenFrom line process u =
      (text : Text) × (chunks : List Bytes) × (v : h.W) × Reads h b.is_match b.lossy
        (b.read_until process) u chunks v
      × FirstMatch h b.is_match b.lossy (b.read_until process) line (flatten chunks) (ok text)

  -- there is an expected output, and the log of the process, as far as it was read, ends with the
  -- first line that matches it
  abbrev pub Seen : Result (ExpectedOutput b.Pattern) → QemuProcess h l → Type 0
  Seen expected process =
      (line : ExpectedOutput b.Pattern) × (u : h.W) × (expected ≡ ok line) × SeenFrom line process u

  -- what a success of `poll_line_timeout` says
  abbrev pub Sees : ExpectedOutput b.Pattern → ℕ → QemuProcess h l → h.W → Unit {0} → h.W → Type 0
  Sees line timeout process w done w' =
      Succeeds
        (poll_line_timeout h b.is_match b.lossy (b.read_until process) (poll_fuel b.limit timeout)
          line timeout)
        w done w'
      × SeenFrom line process w

  pub poll_line_timeout-IsTold :
      (process : QemuProcess h l) (line : ExpectedOutput b.Pattern) (timeout : ℕ)
      → IsTold (Sees line timeout process) (
          poll_line_timeout h b.is_match b.lossy
            (b.read_until process)
            (poll_fuel b.limit timeout)
            line
            timeout)
  unfolding poll_line_timeout
  poll_line_timeout-IsTold process line timeout w =
      let search =
        poll_line_match_timeout h b.is_match b.lossy (b.read_until process)
          (poll_fuel b.limit timeout) line timeout w in
      let (r, e) =
        poll_line_total h b.is_match b.lossy (b.read_until process) (b.read_lem process)
          (b.log_pos process) b.limit (b.log_pos_lem process) (b.log_read_lem process)
          (b.log_sleep_lem process) line timeout w in
      found r search.1 (λ i. (e i, search.1))
    where
      ended :
          (r : Result Text) (v : h.W)
          → poll_line_match_timeout h b.is_match b.lossy
              (b.read_until process)
              (poll_fuel b.limit timeout)
              line
              timeout
              w
            ≡ (some r, v)
          → poll_line_timeout h b.is_match b.lossy
              (b.read_until process)
              (poll_fuel b.limit timeout)
              line
              timeout
              w
            ≡ (some (r >>= λ text. ok tt), v)
      ended r v q = ap (λ (p : Option (Result Text) × h.W). (discarded p.0, p.1)) q

      found :
          (r : Result Text) (v : h.W)
          → poll_line_match_timeout h b.is_match b.lossy
              (b.read_until process)
              (poll_fuel b.limit timeout)
              line
              timeout
              w
            ≡ (some r, v)
          → (x : Result (Unit {0})) × (w' : h.W) × (poll_line_timeout h b.is_match b.lossy
                (b.read_until process)
                (poll_fuel b.limit timeout)
                line
                timeout
                w
              ≡ (some x, w'))
            × Says (Sees line timeout process) x w w'
      found (err e) v q = (err e, v, ended (err e) v q, tt)
      found (ok text) v q =
          let (chunks, u, reads, first, ends) =
            poll_line_refines h b.is_match b.lossy (b.read_until process) line (b.chunk_lem process)
              (poll_fuel b.limit timeout) timeout w v (ok text) q in
          let e = ended (ok text) v q in (ok tt, v, e, (e, (text, chunks, u, reads, first)))

  pub poll_line-Returns :
      (process : QemuProcess h l) (line : ExpectedOutput b.Pattern) (w : h.W)
      → (r : Result (Unit {0})) × ((poll_line h b.is_match b.lossy
            (b.read_until process)
            (poll_fuel b.limit default_timeout)
            line
            w).0
          ≡ some r)
  unfolding poll_line
  poll_line-Returns process line w =
      let (r, w', e, met) = poll_line_timeout-IsTold process line default_timeout w in
      (r, ap (λ (p : Option (Result (Unit {0})) × h.W). p.0) e)

  -- what a result says of the log
  abbrev pub Passes :
      Result (ExpectedOutput b.Pattern) → QemuProcess h l → Result (Unit {0}) → h.W → Type 0
  Passes expected process r w' = r ≡ ok tt → Seen expected process

  pub poll_line-Passes :
      (process : QemuProcess h l) (line : ExpectedOutput b.Pattern) (message : Text)
      → Returns (Passes (ok line) process) (
          with_context
            (poll_line h b.is_match b.lossy
              (b.read_until process)
              (poll_fuel b.limit default_timeout)
              line)
            message)
  unfolding poll_line
  poll_line-Passes process line message w =
      let told = named (known _ (poll_line_timeout-IsTold process line default_timeout)) message in
      let (r, w', e, s) = told.1 w in
      (
        r,
        w',
        e,
        λ passed.
            let (done, seen) = Says-ok (Sees line default_timeout process) r tt w w' s passed in
            (line, w, refl, seen),
      )
