-- ===== src/Taps.antt =====
-- The pool of tap devices of src/util.rs: a global list of free pairs behind a mutex, filled on the
-- first use. A `Vec` has its top at its end. A panic while the lock is held poisons it.
pub mod Exclusive
pub mod Devices
pub mod Bag
mod Tests
use qemu_test.Prelude.{
  ℕ, zero, suc, ◌+◌, ◌*◌, Bool, ◌&&◌, Option, none, some, List, [], ◌∷◌, ◌++◌, Text, codes, concat,
  keep, if◌then◌else◌, Result, ok, err, bail, option_context, ◌>>=◌,
}
use qemu_test.Number.{decimal}
use qemu_test.Config.{Config, test_jobs}

abbrev pub tap_prefix : Text
tap_prefix = codes "tap-qemu-"

abbrev pub gateway : Text
gateway = codes "192.168.100.1"

-- `format!("{TAP_PREFIX}{i}")`
unfoldable pub tap_name : ℕ → Text
tap_name i = concat (tap_prefix ∷ decimal i ∷ [])

-- 0, …, n - 1
abbrev pub range_from : ℕ → ℕ → List ℕ
range_from i zero = []
range_from i (suc n) = i ∷ range_from (suc i) n

-- `tap_exists` looks at the path of the device
unfoldable pub tap_exists : (Text → Bool) → Text → Bool
tap_exists path_exists name = path_exists (concat (codes "/sys/class/net/" ∷ name ∷ []))

unfoldable pub is_available : (Text → Bool) → ℕ → Bool
unfolding tap_exists tap_name
is_available path_exists i =
    tap_exists path_exists (tap_name (i * 2)) && tap_exists path_exists (tap_name (i * 2 + 1))

unfoldable pub init_tap_pool : (Text → Bool) → Config → Result (List ℕ)
init_tap_pool path_exists config = do
  jobs ← test_jobs config
  ok (keep (is_available path_exists) (range_from 0 jobs))

pub record TapPair : Type 0 where
  pub pair_index : ℕ
  pub src_tap : Text
  pub dst_tap : Text
  pub guest_ip_cidr : Text
  pub guest_host : Text

-- `192.168.100.{host_octet}`
abbrev pub host_text : ℕ → Text
host_text octet = concat (codes "192.168.100." ∷ decimal octet ∷ [])

unfoldable pub new : ℕ → TapPair
unfolding tap_name
new pair_index = record {
  pair_index = pair_index;
  src_tap = tap_name (pair_index * 2);
  dst_tap = tap_name (pair_index * 2 + 1);
  guest_ip_cidr = concat (codes "192.168.100." ∷ decimal (2 + pair_index) ∷ codes "/24" ∷ []);
  guest_host = host_text (2 + pair_index);
}

unfoldable pub src : TapPair → Text
src self = self.src_tap

unfoldable pub dst : TapPair → Text
dst self = self.dst_tap

unfoldable pub guest_ip : TapPair → Text
guest_ip self = self.guest_ip_cidr

-- TAP_POOL
pub data Pool : Type 0 where
  unset : Pool
  ready : List ℕ → Pool
  poisoned : Pool

-- puts an element back below what is left
abbrev pub below : ℕ → Option (ℕ × List ℕ) → Option (ℕ × List ℕ)
below x none = none
below x (some (z, rest)) = some (z, x ∷ rest)

-- `Vec::pop`
unfoldable pub pop : List ℕ → Option (ℕ × List ℕ)
pop [] = none
pop (x ∷ []) = some (x, [])
pop (x ∷ y ∷ xs) = below x (pop (y ∷ xs))

-- behind `indices.pop()`, with the list as it was
unfoldable pub taken : List ℕ → Option (ℕ × List ℕ) → Result TapPair × Pool
unfolding new
taken indices none = (bail (codes "no tap devices available"), ready indices)
taken indices (some (pair_index, rest)) = (ok (new pair_index), ready rest)

-- `indices.pop().context(…)?`
unfoldable pub take_pair : List ℕ → Result TapPair × Pool
unfolding pop taken
take_pair indices = taken indices (pop indices)

-- `get_or_insert_with`, whose `expect` panics
unfoldable pub fill_and_take : Result (List ℕ) → Result TapPair × Pool
fill_and_take (ok indices) = take_pair indices
fill_and_take (err e) = (bail (codes "failed to init tap pool"), poisoned)

unfoldable pub allocate_taps : Result (List ℕ) → Pool → Result TapPair × Pool
unfolding fill_and_take
allocate_taps init unset = fill_and_take init
allocate_taps init (ready indices) = take_pair indices
allocate_taps init poisoned = (bail (codes "called `Result::unwrap()` on an `Err` value"), poisoned)

-- `Drop for TapPair`; with a poisoned lock the code panics and leaves the pool as it is
unfoldable pub drop : ℕ → Pool → Pool
drop pair_index unset = unset
drop pair_index (ready indices) = ready (indices ++ pair_index ∷ [])
drop pair_index poisoned = poisoned
