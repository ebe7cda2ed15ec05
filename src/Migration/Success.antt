-- ===== src/Migration/Success.antt =====
-- `do_migration` of src/tests/migration.rs: its steps when it succeeds, and its loops.
use qemu_test.Prelude.{
  ℕ, ◌+◌, ◌/◌, ◌≡◌, refl, ap, inl, inr, Bool, true, Option, none, some, Text, codes, Result, ok,
  err, context,
}
use qemu_test.Host.{Host, IsForward, from_millis}
use qemu_test.Host.Rounds.{Goes}
use qemu_test.Migration.{Peer, try, uri, wait_left, wait_arrived, migrate_source, do_migration}
use qemu_test.Process.Status.{poll_status, status_round, poll_status_end, poll_status_total}

module _ (h : Host) where
  abbrev Succeeds : Option (Result (Unit {0})) × h.W → h.W → Type 0
  Succeeds p w' = p ≡ (some (ok tt), w')

  try_inv :
      (o : Option (Result (Unit {0}))) (w w' : h.W) (rest : h.W → Option (Result (Unit {0})) × h.W)
      → Succeeds (try h o w rest) w'
      → (o ≡ some (ok tt)) × Succeeds (rest w) w'
  try_inv none w w' rest e = absurd (cc (ap (λ (p : Option (Result (Unit {0})) × h.W). p.0) e))
  try_inv (some (err x)) w w' rest e =
      absurd (cc (ap (λ (p : Option (Result (Unit {0})) × h.W). p.0) e))
  try_inv (some (ok x)) w w' rest e = (refl, e)

  try_total :
      (o : Option (Result (Unit {0}))) (w : h.W) (rest : h.W → Option (Result (Unit {0})) × h.W)
      → (r : Result (Unit {0})) × (o ≡ some r)
      → ((v : h.W) → (r : Result (Unit {0})) × ((rest v).0 ≡ some r))
      → (r : Result (Unit {0})) × ((try h o w rest).0 ≡ some r)
  try_total none w rest (r, e) k = absurd (cc e)
  try_total (some (err x)) w rest s k = (err x, refl)
  try_total (some (ok x)) w rest s k = k w

  context_inv : (r : Result (Unit {0})) (m : Text) → some (context r m) ≡ some (ok tt) → r ≡ ok tt
  context_inv (ok x) m e = refl
  context_inv (err x) m e = cc

  module _ {RunState : Type 0} (state_eq : RunState → RunState → Bool) where
    -- From `v` on the peer is asked, round by round, until it answers with the expected state, in `v'`.
    abbrev pub Answers : Peer h RunState → RunState → ℕ → h.W → h.W → Type 0
    Answers peer expected timeout v v' =
        (u : h.W) × Goes (status_round h state_eq peer.query_status (h.now v) expected timeout) v u
        × (s : RunState) × (peer.query_status u ≡ (ok s, v'))
        × (state_eq s expected ≡ true)

    polled :
        (peer : Peer h RunState) (fuel : ℕ) (expected : RunState) (timeout : ℕ) (v v' : h.W)
        → Succeeds (poll_status h state_eq peer.query_status fuel expected timeout v) v'
        → Answers peer expected timeout v v'
    polled peer fuel expected timeout v v' e =
        let (u, g, last) =
          poll_status_end h state_eq peer.query_status fuel expected timeout v v' (ok tt) e in
        elim last [
          | inl (x, i, y) ↦ absurd (cc i)
          | inr (inl (n, (x, i, y))) ↦ absurd (cc i)
          | inr (inr (n, m, inl (x, q, i))) ↦ absurd (cc i)
          | inr (inr (n, m, inr (s, q, b, i))) ↦ (u, g, s, q, b)
        ]

    module _ (running postmigrate : RunState) (src dst : Peer h RunState) where
      -- If `do_migration` succeeds, the destination took the address and then the source did, then the
      -- destination was polled until it was running, and only then the source until it was behind the
      -- migration: each call in the state that the one before it left.
      pub do_migration_ok :
          (fuel : ℕ) (mig_sock : Text) (timeout : ℕ) (w w' : h.W)
          → do_migration h state_eq running postmigrate src dst fuel mig_sock timeout w
            ≡ (some (ok tt), w')
          → (w₁ w₂ w₃ : h.W) × (dst.migrate_incoming
                (uri h state_eq running postmigrate src dst mig_sock)
                w
              ≡ (ok tt, w₁))
            × (src.migrate (uri h state_eq running postmigrate src dst mig_sock) w₁ ≡ (ok tt, w₂))
            × Answers dst running timeout w₂ w₃
            × Answers src postmigrate timeout w₃ w'
      unfolding do_migration migrate_source wait_arrived wait_left
      do_migration_ok fuel mig_sock timeout w w' e =
          let address = uri h state_eq running postmigrate src dst mig_sock in
          let (r₁, w₁) = dst.migrate_incoming address w in
          let (i, e₁) =
            try_inv (some (context r₁ (codes "dest: migrate_incoming failed"))) w₁ w'
              (migrate_source h state_eq running postmigrate src dst fuel mig_sock timeout) e in
          let (r₂, w₂) = src.migrate address w₁ in
          let (m, e₂) =
            try_inv (some (context r₂ (codes "source: migrate failed"))) w₂ w'
              (wait_arrived h state_eq running postmigrate src dst fuel timeout) e₁ in
          let (r₃, w₃) = poll_status h state_eq dst.query_status fuel running timeout w₂ in
          let (d, e₃) =
            try_inv r₃ w₃ w' (wait_left h state_eq running postmigrate src dst fuel timeout) e₂ in
          let (r₄, w₄) = poll_status h state_eq src.query_status fuel postmigrate timeout w₃ in
          let (s, e₄) = try_inv r₄ w₄ w' (λ v. (some (ok tt), v)) e₃ in
          let ended : w₄ ≡ w' = ap (λ (p : Option (Result (Unit {0})) × h.W). p.1) e₄ in
          (
            w₁,
            w₂,
            w₃,
            (λ x. (context_inv r₁ (codes "dest: migrate_incoming failed") i x, w₁)),
            (λ x. (context_inv r₂ (codes "source: migrate failed") m x, w₂)),
            polled dst fuel running timeout w₂ w₃ (λ x. (d x, w₃)),
            polled src fuel postmigrate timeout w₃ w' (λ x. (s x, ended x)),
          )

      -- If asking for a state does not turn back the clock, `do_migration` returns: `timeout` divided by
      -- 200 ms, plus two, rounds are enough for each of its polls.
      pub do_migration_total :
          (mig_sock : Text) (timeout : ℕ) (w : h.W)
          → IsForward h dst.query_status
          → IsForward h src.query_status
          → (r : Result (Unit {0})) × ((do_migration h state_eq running postmigrate src dst
                (timeout / from_millis 200 + 2)
                mig_sock
                timeout
                w).0
              ≡ some r)
      unfolding do_migration migrate_source wait_arrived wait_left
      do_migration_total mig_sock timeout w fd fs =
          let fuel = timeout / from_millis 200 + 2 in
          let address = uri h state_eq running postmigrate src dst mig_sock in
          let left : (v : h.W)
              → (r : Result (Unit {0})) × ((wait_left h state_eq running postmigrate src dst fuel
                    timeout v).0
                  ≡ some r) =
            λ v.
              try_total (poll_status h state_eq src.query_status fuel postmigrate timeout v).0
                (poll_status h state_eq src.query_status fuel postmigrate timeout v).1
                (λ u. (some (ok tt), u))
                (poll_status_total h state_eq src.query_status postmigrate timeout v fs)
                (λ u. (ok tt, refl)) in
          let arrived : (v : h.W)
              → (r : Result (Unit {0})) × ((wait_arrived h state_eq running postmigrate src dst fuel
                    timeout v).0
                  ≡ some r) =
            λ v.
              try_total (poll_status h state_eq dst.query_status fuel running timeout v).0
                (poll_status h state_eq dst.query_status fuel running timeout v).1
                (wait_left h state_eq running postmigrate src dst fuel timeout)
                (poll_status_total h state_eq dst.query_status running timeout v fd) left in
          try_total
            (some
              (context (dst.migrate_incoming address w).0 (codes "dest: migrate_incoming failed")))
            (dst.migrate_incoming address w).1
            (migrate_source h state_eq running postmigrate src dst fuel mig_sock timeout) (_, refl)
            (λ v.
              try_total (some (context (src.migrate address v).0 (codes "source: migrate failed")))
                (src.migrate address v).1
                (wait_arrived h state_eq running postmigrate src dst fuel timeout) (_, refl)
                arrived)
