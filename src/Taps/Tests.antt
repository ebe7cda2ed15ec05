-- ===== src/Taps/Tests.antt =====
-- Two tests that each take a pair of devices, on a machine with the devices 0 to 3.
use qemu_test.Prelude.{
  ℕ, ◌≢◌, ◌≡◌, refl, Bool, ◌||◌, some, none, [], ◌∷◌, Text, codes, text_eq, if◌then◌else◌, ok,
}
use qemu_test.Number.{parse_usize, decimal}
use qemu_test.Config.{Config, load, test_jobs}
use qemu_test.Taps.Bag.{Takes, view, given_back, pool_refines}
use qemu_test.Taps.{
  unset, drop, ready, new, init_tap_pool, is_available, tap_exists, tap_name, allocate_taps,
  fill_and_take, take_pair, taken, pop,
}
use qemu_test.Taps.Exclusive.{State, allocated, Reach, here, next, start, IsShared, Reach-IsShared}
use qemu_test.Taps.Devices.{AreApart, held-AreApart}

-- TEST_JOBS=3
abbrev config : Config
config = load (λ name. if text_eq name (codes "TEST_JOBS") then some (codes "3") else none)

abbrev path_exists : Text → Bool
path_exists path =
    text_eq path (codes "/sys/class/net/tap-qemu-0")
    || text_eq path (codes "/sys/class/net/tap-qemu-1")
    || text_eq path (codes "/sys/class/net/tap-qemu-2")
    || text_eq path (codes "/sys/class/net/tap-qemu-3")

two_pairs : init_tap_pool path_exists config ≡ ok (0 ∷ 1 ∷ [])
unfolding init_tap_pool load test_jobs parse_usize is_available tap_exists tap_name decimal
two_pairs = refl

abbrev one_held : State
one_held = record { pool = ready (0 ∷ []); held = 1 ∷ [] }

abbrev both_held : State
both_held = record { pool = ready []; held = 0 ∷ 1 ∷ [] }

both_reached : Reach (ok (0 ∷ 1 ∷ [])) both_held
unfolding allocate_taps fill_and_take take_pair taken pop new
both_reached =
    next {s = one_held} (next {s = start} here (allocated (new 1) refl refl))
      (allocated (new 0) refl refl)

Reach-IsShared_example : IsShared (0 ∷ 1 ∷ []) (ready []) (0 ∷ 1 ∷ [])
Reach-IsShared_example = Reach-IsShared (0 ∷ 1 ∷ []) both_reached

held-AreApart_example : AreApart (new 0) (new 1)
held-AreApart_example =
    held-AreApart path_exists config (0 ∷ 1 ∷ []) both_held [] [] [] 0 1 two_pairs both_reached refl

pool_refines_example :
    Takes
      (view (ready (0 ∷ 1 ∷ [])) (ok (0 ∷ 1 ∷ [])))
      (allocate_taps (ok (0 ∷ 1 ∷ [])) (ready (0 ∷ 1 ∷ []))).0
      (view (allocate_taps (ok (0 ∷ 1 ∷ [])) (ready (0 ∷ 1 ∷ []))).1 (ok (0 ∷ 1 ∷ [])))
    × ((i : ℕ)
        → ready (0 ∷ 1 ∷ []) ≢ unset
        → view (drop i (ready (0 ∷ 1 ∷ []))) (ok (0 ∷ 1 ∷ []))
          ≡ given_back i (view (ready (0 ∷ 1 ∷ [])) (ok (0 ∷ 1 ∷ []))))
pool_refines_example = pool_refines (ready (0 ∷ 1 ∷ [])) (ok (0 ∷ 1 ∷ []))
