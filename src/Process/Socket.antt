-- ===== src/Process/Socket.antt =====
-- `Socket`: wait for the QMP socket to appear, then connect to it. The state of a socket is a type
-- parameter, as in the source; the file system and `UnixStream` are parameters.
use native.Mathlib.Nat.{add-suc}
use qemu_test.Prelude.{
  ℕ, ◌+◌, ◌/◌, ◌≤◌, ◌<◌, ◌≡◌, ◌≢◌, ◌++◌, Bool, true, false, Option, some, Text, codes,
  if◌then◌else◌, Result, ok, bail, context, ◌>>=◌, arith,
}
use qemu_test.Host.{Host, IsForward, is_expired, from_millis, Round, done, again, repeat_rounds}
use qemu_test.Host.Rounds.{repeat-ends}

pub record Unconnected : Type 0 where
  pub path : Text

pub record Connected (Stream : Type 0) : Type 0 where
  pub stream : Stream

pub record Socket (State : Type 0) : Type 0 where
  pub state : State

unfoldable pub new : Text → Socket Unconnected
new path = record { state = record { path = path } }

module _ (h : Host) {Stream : Type 0} (exists : Text → h.W → Bool × h.W)
    (connect_stream : Text → h.W → Result Stream × h.W) where
  abbrev established : Result Stream → Result (Socket (Connected Stream))
  established r = do
    stream ← context r (codes "failed to connect to QMP socket")
    ok (record { state = record { stream = stream } })

  -- behind `path.exists()`
  unfoldable pub connect_judge :
      ℕ → ℕ → Text → Bool → h.W → Round (Result (Socket (Connected Stream))) × h.W
  connect_judge start timeout path true w =
      let (r, w') = connect_stream path w in (done (established r), w')
  connect_judge start timeout path false w =
      if is_expired h start timeout w
      then (done (bail (codes "timeout waiting for socket: " ++ path)), w)
      else (again, h.sleep (from_millis 50) w)

  unfoldable pub connect_round :
      ℕ → ℕ → Text → h.W → Round (Result (Socket (Connected Stream))) × h.W
  unfolding connect_judge
  connect_round start timeout path w =
      let (found, w') = exists path w in connect_judge start timeout path found w'

  unfoldable pub connect :
      ℕ → Socket Unconnected → ℕ → h.W → Option (Result (Socket (Connected Stream))) × h.W
  unfolding connect_round
  connect fuel socket timeout w =
      repeat_rounds fuel (connect_round (h.now w) timeout socket.state.path) w

  module _ (forward : (path : Text) → IsForward h (exists path)) where
    pauses :
        (start timeout : ℕ) (path : Text) (w : h.W)
        → (connect_round start timeout path w).0 ≡ again
        → h.now w + from_millis 50 ≤ h.now (connect_round start timeout path w).1
    unfolding connect_round
    pauses start timeout path w e =
        ground (arith, forward path w, h.sleep_lem (from_millis 50) (exists path w).1)

    stops :
        (start timeout : ℕ) (path : Text) (w : h.W)
        → start + timeout < h.now w
        → (connect_round start timeout path w).0 ≢ again
    unfolding connect_round
    stops start timeout path w late e = ground (arith, forward path w)

    -- If a look at the file system does not turn back the clock, `connect` returns after `timeout`
    -- divided by 50 ms, plus two, looks at most.
    pub connect_total :
        (socket : Socket Unconnected) (timeout : ℕ) (w : h.W)
        → (r : Result (Socket (Connected Stream))) × ((connect
              (timeout / from_millis 50 + 2)
              socket
              timeout
              w).0
            ≡ some r)
    unfolding connect
    connect_total socket timeout w = rw (add-suc (timeout / from_millis 50) 1) (
        repeat-ends h.now (h.now w + timeout) (from_millis 50)
          (connect_round (h.now w) timeout socket.state.path)
          (pauses (h.now w) timeout socket.state.path) (stops (h.now w) timeout socket.state.path)
          (timeout / from_millis 50 + 1) w (omega arith))
