-- ===== src/Scenario/Sample.antt =====
-- The outside of a test on the sample machine: every call succeeds, and the child exits by itself.
use qemu_test.Prelude.{ℕ, refl, some, [], true, false, codes, ok, arith}
use qemu_test.Host.Sample.{machine, read_until, log_pos, child}
use qemu_test.Host.Sample.Laws.{
  log_bounded, log_reads, read-IsForward, child-IsForward, poll_reaps, read_chunked,
}
use qemu_test.Process.Spawn.{Launcher}
use qemu_test.Scenario.Outside.{Bench}
use qemu_test.Scenario.Remote.{Remote}
use qemu_test.Migration.Os.{TapStore}

abbrev pub launcher : Launcher machine
launcher = record {
  Pid = ℕ;
  Stream = Unit;
  Qmp = Unit;
  File = Unit;
  start = λ name list w. (ok 7, record w { reaped = false });
  exists = λ path w. (true, w);
  connect_stream = λ path w. (ok tt, w);
  set_read_timeout = λ s d w. (ok tt, w);
  set_write_timeout = λ s d w. (ok tt, w);
  try_clone = λ s w. (ok tt, w);
  handshake = λ s t w. (ok tt, w);
  open_file = λ path w. (ok tt, w);
  fmt_debug = λ text. text;
}

abbrev pub bench : Bench machine launcher
bench = record {
  RunState = Unit;
  Pattern = Unit;
  tempdir = λ w. (ok (codes "/tmp/a"), w);
  write = λ path content w. (ok tt, w);
  remove_dir = λ dir w. w;
  child_of = λ process. child;
  query_status = λ process w. (ok tt, w);
  read_until = λ process. read_until;
  is_match = λ p line. true;
  lossy = λ b. b;
  compile = λ text. ok tt;
  log_pos = λ process w. log_pos w.log;
  limit = 7;
  exists_lem = λ path w. omega arith;
  try_wait_lem = λ process. child-IsForward;
  read_lem = λ process. read-IsForward;
  log_pos_lem = λ process. log_bounded;
  log_read_lem = λ process. log_reads;
  log_sleep_lem = λ process d w. omega arith;
  chunk_lem = λ process. read_chunked;
  reaped = λ process w. w.reaped;
  wait_lem = λ process w. refl;
  poll_lem = λ process. poll_reaps;
}

-- `ssh` reaches the guest at once and prints its name.
abbrev pub remote : Remote machine launcher
remote = record {
  system = record {
    read_to_string = λ path w. (ok (codes "ssh-ed25519 AAAA me\n"), w);
    create_dir_all = λ path w. (ok tt, w);
    write = λ path content w. (ok tt, w);
    status = λ program args w. (ok true, w);
    output = λ program args w. (ok (record { success = true; stderr = [] }), w);
    encode = λ text. text;
    lossy = λ bytes. bytes;
  };
  random = λ w. ((1, 2, 3), w);
  usernet =
      λ process w. (ok (codes "  TCP[HOST_FORWARD]  12 127.0.0.1 40222 10.0.2.15 22 0 0\n"), w);
  run = λ args w. (ok (record { code = some 0; stdout = codes "cloud\n"; stderr = [] }), w);
  fmt_debug = λ d. codes "10s";
  run_lem = λ args w. omega arith;
}

-- every path exists
abbrev pub store : TapStore machine
store = record {
  pool = λ w. w.pool;
  set_pool = λ pool w. record w { pool = pool };
  path_exists = λ w path. true;
}
