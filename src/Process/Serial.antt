-- ===== src/Process/Serial.antt =====
-- The serial log of a guest: `read_chunk` and the `poll_line` functions. The file is read by
-- `BufRead::read_until`, bytes become text by `String::from_utf8_lossy`, and patterns are those of
-- the crate `regex`: all three are parameters.
pub mod Lines
pub mod Poll
pub mod First
use qemu_test.Prelude.{
  ℕ, Bool, true, false, Option, none, some, List, [], ◌∷◌, ◌++◌, Text, codes, contains, ends_with,
  concat, if◌then◌else◌, Result, ok, err, bail, ◌>>=◌,
}
use qemu_test.Host.{Host, is_expired, from_millis, from_secs, Round, done, again, repeat_rounds}

abbrev pub Bytes : Type 0
Bytes = List ℕ

pub data ExpectedOutput (Pattern : Type 0) : Type 0 where
  sub_string : Text → ExpectedOutput Pattern
  pattern_of : Pattern → ExpectedOutput Pattern

unfoldable pub matches :
    {Pattern : Type 0} → (Pattern → Text → Bool) → ExpectedOutput Pattern → Text → Bool
matches is_match (sub_string s) line = contains line s
matches is_match (pattern_of r) line = is_match r line

-- the result of `read_until(b'\n', &mut buf)` on a fresh buffer
pub data Read : Type 0 where
  bytes : Bytes → Read
  -- ErrorKind::WouldBlock or ErrorKind::TimedOut
  not_ready : Read
  failed : Text → Read

pub data ChunkResult : Type 0 where
  line : Text → ChunkResult
  progress : ChunkResult
  no_progress : ChunkResult

-- `read_chunk`, with the bytes of the line that is not complete yet
unfoldable pub read_chunk : (Bytes → Text) → Bytes → Read → Result ChunkResult × Bytes
read_chunk lossy partial (bytes []) = (ok no_progress, partial)
read_chunk lossy partial (bytes (b ∷ buf)) =
    let partial' = partial ++ b ∷ buf in
    if ends_with partial' b'\n' then (ok (line (lossy partial')), []) else (ok progress, partial')
read_chunk lossy partial not_ready = (ok no_progress, partial)
read_chunk lossy partial (failed e) = (bail (codes "serial file read error: " ++ e), partial)

abbrev pub default_timeout : ℕ
default_timeout = from_secs 10

-- what the loop of `poll_line_match_timeout` changes: the incomplete line, and the outside
module _ (h : Host) {Pattern : Type 0} (is_match : Pattern → Text → Bool) (lossy : Bytes → Text)
    (read_until : h.W → Read × h.W) where
  abbrev pub PollState : Type 0
  PollState = Bytes × h.W

  -- behind `read_chunk`
  unfoldable pub poll_judge :
      ExpectedOutput Pattern → Result ChunkResult → PollState → Round (Result Text) × PollState
  poll_judge expected (err e) s = (done (err e), s)
  poll_judge expected (ok (line text)) s =
      if matches is_match expected text then (done (ok text), s) else (again, s)
  poll_judge expected (ok progress) s = (again, s)
  poll_judge expected (ok no_progress) (partial, w) =
      (again, (partial, h.sleep (from_millis 100) w))

  unfoldable pub poll_round :
      ℕ → ExpectedOutput Pattern → ℕ → PollState → Round (Result Text) × PollState
  poll_round start expected timeout (partial, w) =
      if h.shutdown w
      then (done (bail (codes "interrupted")), (partial, w))
      else if is_expired h start timeout w
      then (done (bail (codes "timeout waiting for expected output")), (partial, w))
      else let (got, w') = read_until w in
        let (chunk, partial') = read_chunk lossy partial got in
        poll_judge expected chunk (partial', w')

  -- The incomplete line starts empty, and is dropped at the end.
  unfoldable pub poll_line_match_timeout :
      ℕ → ExpectedOutput Pattern → ℕ → h.W → Option (Result Text) × h.W
  unfolding poll_round
  poll_line_match_timeout fuel expected timeout w =
      let (r, s) = repeat_rounds fuel (poll_round (h.now w) expected timeout) ([], w) in (r, s.1)

  -- `.map(|_| ())`
  abbrev discard : Result Text → Result (Unit {0})
  discard r = r >>= λ _. ok tt

  unfoldable pub poll_line_timeout :
      ℕ → ExpectedOutput Pattern → ℕ → h.W → Option (Result (Unit {0})) × h.W
  unfolding poll_line_match_timeout
  poll_line_timeout fuel expected timeout w =
      let (r, w') = poll_line_match_timeout fuel expected timeout w in
      (elim r [ none ↦ none | some x ↦ some (discard x) ], w')

  unfoldable pub poll_line : ℕ → ExpectedOutput Pattern → h.W → Option (Result (Unit {0})) × h.W
  unfolding poll_line_timeout
  poll_line fuel expected w = poll_line_timeout fuel expected default_timeout w
