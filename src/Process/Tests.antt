-- ===== src/Process/Tests.antt =====
-- The loops over a process, run on the sample machine.
use qemu_test.Prelude.{
  err, lt→ltb, ap, ◌≤◌, ◌+◌, ◌/◌, ◌≡◌, refl, Bool, true, false, some, List, Text, codes, ltb, ◌&&◌,
  ◌||◌, not, Result, ok, arith, [],
}
use qemu_test.Host.{from_millis, from_secs, repeat_rounds}
use qemu_test.Host.Rounds.{Goes}
use qemu_test.Host.Sample.{World, boot, machine, read_until, log_pos, child}
use qemu_test.Host.Sample.Laws.{
  chunks, chunks_valid, no_pattern, log_bounded, log_reads, read-IsForward, child-IsForward,
  poll_reaps, read_chunked,
}
use qemu_test.Options.{kvm}
use qemu_test.Process.Serial.{
  Bytes, ExpectedOutput, sub_string, poll_line_match_timeout, poll_judge, read_chunk, matches,
}
use qemu_test.Process.Serial.Lines.{read_chunks-flatten, read_chunks, cut_lines, flatten}
use qemu_test.Process.Serial.First.{Reads, FirstMatch, Ends, poll_line_refines}
use qemu_test.Process.Serial.Poll.{poll_line_total}
use qemu_test.Process.Status.Live.{poll_status_succeeds}
use qemu_test.Process.Status.{poll_status, status_round, poll_status_end, StatusEnd}
use qemu_test.Process.Child.{drop, quit_and_wait, drop_round, shut_down, quit_or_kill, drop_judge}
use qemu_test.Process.Child.Quit.{QuitEnd, quit_and_wait_end}
use qemu_test.Process.Child.Reaped.{drop_reaps, Gone}

read_chunks-flatten_example :
    read_chunks (λ b. b) [] chunks ≡ cut_lines (λ b. b) [] (flatten chunks)
read_chunks-flatten_example = read_chunks-flatten (λ b. b) [] chunks chunks_valid

abbrev banner : ExpectedOutput (Unit {0})
banner = sub_string (codes "booted")

banner_found :
    (poll_line_match_timeout machine no_pattern (λ b. b) read_until 3 banner (from_secs 10) boot).0
    ≡ some (ok (codes "booted\n"))
unfolding poll_line_match_timeout repeat_rounds poll_judge read_chunk matches
banner_found = refl

poll_line_total_example :
    (r : Result Text) × ((poll_line_match_timeout machine no_pattern
        (λ b. b)
        read_until
        (7 + from_secs 10 / from_millis 100 + 2)
        (sub_string (codes "login:"))
        (from_secs 10)
        boot).0
      ≡ some r)
poll_line_total_example =
    poll_line_total machine no_pattern (λ b. b) read_until read-IsForward (λ w. log_pos w.log) 7
      log_bounded log_reads (λ d w. omega arith) (sub_string (codes "login:")) (from_secs 10) boot

-- The guest runs 500 ms behind the start; a state is whether it runs.
abbrev query_status : World → Result Bool × World
query_status w = (ok (ltb (from_millis 500) w.clock), w)

abbrev bool_eq : Bool → Bool → Bool
bool_eq a b = (a && b) || (not a && not b)

status_seen :
    (w' : World) × (poll_status machine bool_eq query_status 4 true (from_secs 1) boot
      ≡ (some (ok tt), w'))
unfolding poll_status status_round repeat_rounds
status_seen = (_, refl)

poll_status_end_example :
    (u : World) × Goes (status_round machine bool_eq query_status 0 true (from_secs 1)) boot u
    × StatusEnd machine bool_eq query_status 0 true (from_secs 1) u (ok tt) status_seen.0
poll_status_end_example =
    poll_status_end machine bool_eq query_status 4 true (from_secs 1) boot status_seen.0 (ok tt)
      status_seen.1

abbrev answer_of : Result Bool → Bool
answer_of (ok s) = s
answer_of (err e) = false

status_arrives :
    (w : World) (s : Bool)
    → from_millis 501 ≤ w.clock
    → (query_status w).0 ≡ ok s
    → bool_eq s true ≡ true
status_arrives w s since e =
    let seen : ltb (from_millis 500) w.clock ≡ s = ap answer_of e in
    let runs = lt→ltb (from_millis 500) w.clock (omega arith) in rw (← seen, runs) refl

poll_status_succeeds_example :
    (poll_status machine bool_eq query_status
      (from_secs 1 / from_millis 200 + 2)
      true
      (from_secs 1)
      boot).0
    ≡ some (ok tt)
poll_status_succeeds_example =
    poll_status_succeeds machine bool_eq query_status true (from_secs 1) (from_millis 501)
      (from_millis 200) (λ w. refl) (λ w. (ltb (from_millis 500) w.clock, refl)) status_arrives
      (λ w. omega arith) boot (λ w. omega arith) (omega arith)

quit_and_wait_end_example :
    (r : Result (Unit {0})) × ((quit_and_wait machine child
        (from_secs 10 / from_millis 50 + 2)
        102
        kvm
        (from_secs 10)
        boot).0
      ≡ some r)
    × QuitEnd machine child (from_secs 10) boot r
quit_and_wait_end_example = quit_and_wait_end machine child kvm (from_secs 10) boot child-IsForward

dropped : (w' : World) × (drop machine child 6 kvm boot ≡ (some tt, w'))
unfolding drop drop_round shut_down quit_or_kill drop_judge repeat_rounds
dropped = (_, refl)

drop_reaps_example : Gone machine child (λ w. w.reaped) (λ w. refl) poll_reaps dropped.0
drop_reaps_example =
    drop_reaps machine child (λ w. w.reaped) (λ w. refl) poll_reaps 6 kvm boot dropped.0 dropped.1

banner_seen :
    (w' : World) × (poll_line_match_timeout machine no_pattern
        (λ b. b)
        read_until
        3
        banner
        (from_secs 10)
        boot
      ≡ (some (ok (codes "booted\n")), w'))
unfolding poll_line_match_timeout repeat_rounds poll_judge read_chunk matches
banner_seen = (_, refl)

poll_line_refines_example :
    (log : List Bytes) × (u : World) × Reads machine no_pattern (λ b. b) read_until boot log u
    × FirstMatch machine no_pattern (λ b. b) read_until banner (flatten log) (ok (codes "booted\n"))
    × Ends machine no_pattern
        (λ b. b)
        read_until
        banner
        0
        (from_secs 10)
        u
        (ok (codes "booted\n"))
        banner_seen.0
poll_line_refines_example =
    poll_line_refines machine no_pattern (λ b. b) read_until banner read_chunked 3 (from_secs 10)
      boot banner_seen.0 (ok (codes "booted\n")) banner_seen.1
