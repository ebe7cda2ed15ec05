-- ===== src/Host/Sample/Laws.antt =====
-- The sample machine behaves as the theorems on the loops ask for.
use qemu_test.Prelude.{
  ◌+◌, ◌≤◌, ◌≡◌, refl, ap, subst, Bool, true, false, some, List, [], ◌∷◌, Text, codes, All, ok,
  arith,
}
use qemu_test.Host.{IsForward}
use qemu_test.Process.Serial.{Bytes, Read, bytes, not_ready, failed}
use qemu_test.Process.Serial.Lines.{IsChunk}
use qemu_test.Process.Serial.Poll.{size}
use qemu_test.Host.Sample.{
  World, Log, unread, half_read, all_read, machine, read_from, read_until, log_pos, is_exited,
  poll_child, child,
}

abbrev pub chunks : List Bytes
chunks = codes "boo" ∷ codes "ted\n" ∷ codes "lo" ∷ []

pub chunks_valid : All IsChunk chunks
chunks_valid = (
  ((λ e. omega arith), ((λ e. omega arith), tt)),
  (
    ((λ e. omega arith), ((λ e. omega arith), ((λ e. omega arith), tt))),
    (((λ e. omega arith), tt), tt),
  ),
)

abbrev pub no_pattern : Unit {0} → Text → Bool
no_pattern p line = false

pub log_bounded : (w : World) → log_pos w.log ≤ 7
log_bounded w = bounded w.log
  where
    bounded : (l : Log) → log_pos l ≤ 7
    bounded unread = omega arith
    bounded half_read = omega arith
    bounded all_read = omega arith

pub log_reads :
    (w : World)
    → log_pos w.log + size machine no_pattern (λ b. b) read_until (read_until w).0
      ≤ log_pos (read_until w).1.log
log_reads w = reads w w.log
  where
    reads :
        (w : World) (l : Log)
        → log_pos l + size machine no_pattern (λ b. b) read_until (read_from l w).0
          ≤ log_pos (read_from l w).1.log
    reads w unread = omega arith
    reads w half_read = omega arith
    reads w all_read = omega arith

pub read-IsForward : IsForward machine read_until
read-IsForward w = forward w w.log
  where
    forward : (w : World) (l : Log) → w.clock ≤ (read_from l w).1.clock
    forward w unread = omega arith
    forward w half_read = omega arith
    forward w all_read = omega arith

pub child-IsForward : IsForward machine child.try_wait
child-IsForward w = forward (is_exited w) w
  where
    forward : (b : Bool) (w : World) → w.clock ≤ (poll_child b w).1.clock
    forward true w = omega arith
    forward false w = omega arith

pub poll_reaps :
    (w : World) (s : Unit {0})
    → (child.try_wait w).0 ≡ ok (some s)
    → (child.try_wait w).1.reaped ≡ true
poll_reaps w s e = reaps (is_exited w) w s e
  where
    reaps :
        (b : Bool) (w : World) (s : Unit {0})
        → (poll_child b w).0 ≡ ok (some s)
        → (poll_child b w).1.reaped ≡ true
    reaps true w s e = refl
    reaps false w s e = cc

abbrev bytes_of : Read → Bytes
bytes_of (bytes buf) = buf
bytes_of not_ready = []
bytes_of (failed e) = []

pub read_chunked : (w : World) (chunk : Bytes) → (read_until w).0 ≡ bytes chunk → IsChunk chunk
read_chunked w chunk e = chunked w w.log e
  where
    chunked : (w : World) (l : Log) → (read_from l w).0 ≡ bytes chunk → IsChunk chunk
    chunked w unread q = subst IsChunk (ap bytes_of q) chunks_valid.0
    chunked w half_read q = subst IsChunk (ap bytes_of q) chunks_valid.1.0
    chunked w all_read q = cc
