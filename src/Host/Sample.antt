-- ===== src/Host/Sample.antt =====
-- A concrete machine: a clock, a serial log of two chunks that is read as time passes, and one child
-- process, which exits 400 ms behind the start of the clock.
pub mod Laws
use qemu_test.Prelude.{ℕ, ◌+◌, Bool, true, false, Option, none, some, codes, ltb, Result, ok, arith}
use qemu_test.Taps.{Pool}
use qemu_test.Host.{Host, from_millis}
use qemu_test.Process.Child.{Child}
use qemu_test.Process.Serial.{Read, bytes, not_ready}

-- how much of the log has been read
pub data Log : Type 0 where
  unread : Log
  half_read : Log
  all_read : Log

pub record World : Type 0 where
  pub clock : ℕ
  pub log : Log
  pub reaped : Bool
  pub pool : Pool

abbrev pub boot : World
boot = record { clock = 0; log = unread; reaped = false; pool = Pool.unset }

abbrev pub machine : Host
machine = record {
  W = World;
  now = λ w. w.clock;
  shutdown = λ w. false;
  sleep = λ d w. record w { clock = w.clock + d };
  sleep_lem = λ d w. omega arith;
}

abbrev pub read_from : Log → World → Read × World
read_from unread w = (bytes (codes "boo"), record w { log = half_read })
read_from half_read w = (bytes (codes "ted\n"), record w { log = all_read })
read_from all_read w = (not_ready, record w { log = all_read })

abbrev pub read_until : World → Read × World
read_until w = read_from w.log w

abbrev pub log_pos : Log → ℕ
log_pos unread = 0
log_pos half_read = 3
log_pos all_read = 7

abbrev pub is_exited : World → Bool
is_exited w = ltb (from_millis 400) w.clock

abbrev pub reap : World → World
reap w = record w { reaped = true }

abbrev pub poll_child : Bool → World → Result (Option (Unit {0})) × World
poll_child true w = (ok (some tt), reap w)
poll_child false w = (ok none, w)

-- a child that accepts `quit`, and whose status can always be asked for
abbrev pub child : Child machine
child = record {
  Status = Unit;
  qmp_quit = λ w. (ok tt, w);
  try_wait = λ w. poll_child (is_exited w) w;
  kill = λ w. w;
  wait = reap;
  save_serial_log = λ w. w;
}
