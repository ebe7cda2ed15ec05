-- ===== src/Migration/Guests/Shown.antt =====
-- The look at the destination in the tests of src/tests/migration.rs.
use qemu_test.Prelude.{
  bail, concat, trim_end, [], ◌≡◌, refl, Bool, true, Bool-cases, inl, inr, some, List, ◌∷◌, Text,
  codes, contains, Result, ok, err,
}
use qemu_test.Host.{Host}
use qemu_test.Process.Serial.{Bytes, sub_string, pattern_of, poll_line_match_timeout}
use qemu_test.Process.Serial.Lines.{flatten}
use qemu_test.Process.Serial.Poll.{poll_line_total}
use qemu_test.Process.Serial.First.{Reads, FirstMatch, poll_line_refines}
use qemu_test.Process.Spawn.{Launcher, QemuProcess}
use qemu_test.Scenario.Outside.{Bench, poll_fuel}
use qemu_test.Scenario.Ends.{EndsWith, Returns}
use qemu_test.Scenario.Seen.{Seen, poll_line-Passes}
use qemu_test.Migration.Guests.{
  Arrival, prints, fp_sse, fp_sse_pattern, check_arrival, migration_timeout,
}

module _ (h : Host) (l : Launcher h) (b : Bench h l) (state_eq : b.RunState → b.RunState → Bool)
    (running postmigrate : b.RunState)
    (migrate_incoming migrate : QemuProcess h l → Text → h.W → Result (Unit {0}) × h.W) where
  -- the answer of the test of FP and SSE state
  abbrev pub Diagnosed : QemuProcess h l → Type 0
  Diagnosed dst =
      (pattern : b.Pattern) × (text : Text) × (chunks : List Bytes) × (u v : h.W) × (b.compile
          fp_sse_pattern
        ≡ ok pattern)
      × Reads h b.is_match b.lossy (b.read_until dst) u chunks v
      × FirstMatch h b.is_match b.lossy (b.read_until dst) (pattern_of pattern) (flatten chunks)
          (ok text)
      × (contains text (codes "FPSSE:OK") ≡ true)

  abbrev pub Shown : Arrival → QemuProcess h l → Type 0
  Shown (prints line message) dst = Seen h l b (ok (sub_string line)) dst
  Shown fp_sse dst = Diagnosed dst

  abbrev Diagnosis : QemuProcess h l → h.W → Type 0
  Diagnosis dst w =
      EndsWith (λ r w'. r ≡ ok tt → Diagnosed dst)
        (check_arrival h l b state_eq running postmigrate migrate_incoming migrate fp_sse dst) w

  found :
      (dst : QemuProcess h l) (w v : h.W) (pattern : b.Pattern) (answer : Result Text)
      → b.compile fp_sse_pattern ≡ ok pattern
      → poll_line_match_timeout h b.is_match b.lossy
          (b.read_until dst)
          (poll_fuel b.limit migration_timeout)
          (pattern_of pattern)
          migration_timeout
          w
        ≡ (some answer, v)
      → Diagnosis dst w
  unfolding check_arrival
  found dst w v pattern (err e) c q = (
    err (codes "destination: FP/SSE state not intact after migration" ∷ e),
    v,
    rw (c, q) refl,
    (λ passed. cc),
  )
  found dst w v pattern (ok text) c q =
      let (chunks, u, reads, first, ends) =
        poll_line_refines h b.is_match b.lossy (b.read_until dst) (pattern_of pattern)
          (b.chunk_lem dst) (poll_fuel b.limit migration_timeout) migration_timeout w v (ok text)
          q in
      elim (Bool-cases (contains text (codes "FPSSE:OK"))) [
        | inl t ↦ (
          ok tt,
          v,
          rw (c, q, t) refl,
          (λ passed. (pattern, text, chunks, w, u, c, reads, first, t)),
        )
        | inr f ↦ (
          bail (concat (codes "destination: FP/SSE diagnostic failed: " ∷ trim_end text ∷ [])),
          v,
          rw (c, q, f) refl,
          (λ passed. cc),
        )
      ]

  compiled :
      (dst : QemuProcess h l) (w : h.W) (answer : Result b.Pattern)
      → b.compile fp_sse_pattern ≡ answer
      → Diagnosis dst w
  unfolding check_arrival
  compiled dst w (err e) c = (err e, w, rw c refl, (λ passed. cc))
  compiled dst w (ok pattern) c =
      let (answer, e) =
        poll_line_total h b.is_match b.lossy (b.read_until dst) (b.read_lem dst) (b.log_pos dst)
          b.limit (b.log_pos_lem dst) (b.log_read_lem dst) (b.log_sleep_lem dst)
          (pattern_of pattern) migration_timeout w in
      found dst w _ pattern answer c (λ i. (
        e i,
        (poll_line_match_timeout h b.is_match b.lossy (b.read_until dst)
            (poll_fuel b.limit migration_timeout) (pattern_of pattern) migration_timeout w).1,
      ))

  pub check_arrival-Shown :
      (arrival : Arrival) (dst : QemuProcess h l)
      → Returns
          (λ r w'. r ≡ ok tt → Shown arrival dst)
          (check_arrival h l b state_eq running postmigrate migrate_incoming migrate arrival dst)
  unfolding check_arrival
  check_arrival-Shown (prints line message) dst =
      poll_line-Passes h l b dst (sub_string line) message
  check_arrival-Shown fp_sse dst = λ w. compiled dst w (b.compile fp_sse_pattern) refl
