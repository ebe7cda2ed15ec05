-- ===== src/Migration/Tests.antt =====
-- A migration on the sample machine: the destination runs 300 ms behind the start, and the source is
-- behind the migration at once.
use qemu_test.Prelude.{◌≡◌, refl, Bool, true, not, ◌&&◌, ◌||◌, some, Text, codes, ltb, Result, ok}
use qemu_test.Host.{from_millis, from_secs, repeat_rounds}
use qemu_test.Host.Sample.{World, boot, machine}
use qemu_test.Process.Status.{poll_status, status_round}
use qemu_test.Migration.{Peer, uri, wait_left, wait_arrived, migrate_source, do_migration}
use qemu_test.Migration.Success.{Answers, do_migration_ok}

-- true is `running` of the destination and `postmigrate` of the source
abbrev bool_eq : Bool → Bool → Bool
bool_eq a b = (a && b) || (not a && not b)

abbrev accepts : Text → World → Result (Unit {0}) × World
accepts address w = (ok tt, w)

abbrev src : Peer machine Bool
src = record { migrate_incoming = accepts; migrate = accepts; query_status = λ w. (ok true, w) }

abbrev dst : Peer machine Bool
dst = record {
  migrate_incoming = accepts;
  migrate = accepts;
  query_status = λ w. (ok (ltb (from_millis 300) w.clock), w);
}

migrated :
    (w' : World) × (do_migration machine bool_eq true true src dst 4
        (codes "/tmp/m.sock")
        (from_secs 10)
        boot
      ≡ (some (ok tt), w'))
unfolding do_migration migrate_source wait_arrived wait_left poll_status status_round repeat_rounds
migrated = (_, refl)

do_migration_ok_example :
    (w₁ w₂ w₃ : World) × (dst.migrate_incoming
        (uri machine bool_eq true true src dst (codes "/tmp/m.sock"))
        boot
      ≡ (ok tt, w₁))
    × (src.migrate (uri machine bool_eq true true src dst (codes "/tmp/m.sock")) w₁ ≡ (ok tt, w₂))
    × Answers machine bool_eq dst true (from_secs 10) w₂ w₃
    × Answers machine bool_eq src true (from_secs 10) w₃ migrated.0
do_migration_ok_example =
    do_migration_ok machine bool_eq true true src dst 4 (codes "/tmp/m.sock") (from_secs 10) boot
      migrated.0 migrated.1
