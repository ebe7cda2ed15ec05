-- ===== src/Migration.antt =====
-- `do_migration` of src/tests/migration.rs: the QMP calls on the two processes of a migration, and the
-- wait for the state of each. The states and the calls are those of the crate `qapi`.
pub mod Success
pub mod Guests
pub mod Os
mod Tests
use qemu_test.Prelude.{
  ℕ, Bool, Option, none, some, Text, codes, concat, [], ◌∷◌, Result, ok, err, context,
}
use qemu_test.Host.{Host}
use qemu_test.Process.Status.{poll_status}

-- a process that answers QMP
pub record Peer (h : Host) (RunState : Type 0) : Type 0 where
  pub migrate_incoming : Text → h.W → Result (Unit {0}) × h.W
  pub migrate : Text → h.W → Result (Unit {0}) × h.W
  pub query_status : h.W → Result RunState × h.W

module _ (h : Host) where
  -- `call?` and what follows it
  abbrev pub try :
      Option (Result (Unit {0}))
      → h.W
      → (h.W → Option (Result (Unit {0})) × h.W)
      → Option (Result (Unit {0})) × h.W
  try none w rest = (none, w)
  try (some (err e)) w rest = (some (err e), w)
  try (some (ok x)) w rest = rest w

  module _ {RunState : Type 0} (state_eq : RunState → RunState → Bool)
      (running postmigrate : RunState) (src dst : Peer h RunState) where
    abbrev pub uri : Text → Text
    uri mig_sock = concat (codes "unix:" ∷ mig_sock ∷ [])

    -- the end of `do_migration`: the poll of the source; `fuel` is that of a poll
    unfoldable pub wait_left : ℕ → ℕ → h.W → Option (Result (Unit {0})) × h.W
    wait_left fuel timeout w =
        let (left, w') = poll_status h state_eq src.query_status fuel postmigrate timeout w in
        try left w' λ v. (some (ok tt), v)

    -- from the poll of the destination on
    unfoldable pub wait_arrived : ℕ → ℕ → h.W → Option (Result (Unit {0})) × h.W
    wait_arrived fuel timeout w =
        let (arrived, w') = poll_status h state_eq dst.query_status fuel running timeout w in
        try arrived w' (wait_left fuel timeout)

    -- from `migrate` on
    unfoldable pub migrate_source : ℕ → Text → ℕ → h.W → Option (Result (Unit {0})) × h.W
    migrate_source fuel mig_sock timeout w =
        let (answer, w') = src.migrate (uri mig_sock) w in
        try (some (context answer (codes "source: migrate failed"))) w' (wait_arrived fuel timeout)

    unfoldable pub do_migration : ℕ → Text → ℕ → h.W → Option (Result (Unit {0})) × h.W
    do_migration fuel mig_sock timeout w =
        let (answer, w') = dst.migrate_incoming (uri mig_sock) w in
        try (some (context answer (codes "dest: migrate_incoming failed"))) w'
          (migrate_source fuel mig_sock timeout)
