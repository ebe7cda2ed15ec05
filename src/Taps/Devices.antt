-- ===== src/Taps/Devices.antt =====
-- The device names and guest addresses of the pairs, of src/util.rs.
use mathlib.Core.List.{append_cancel_left}
use qemu_test.Prelude.{
  ℕ, zero, suc, ◌+◌, ◌*◌, ◌≤◌, ◌<◌, ◌≡◌, ◌≢◌, refl, Bool, Bool-cases, inl, inr, List, [], ◌∷◌, ◌++◌,
  Text, codes, keep, Result, ok, arith, ◌>>=◌, err,
}
use qemu_test.Number.{decimal, decimal-injective}
use qemu_test.Config.{Config, test_jobs}
use qemu_test.Taps.{
  TapPair, Pool, unset, ready, poisoned, tap_prefix, tap_name, host_text, range_from, is_available,
  init_tap_pool, new,
}
use qemu_test.Taps.Exclusive.{State, Reach, IsShared, count, count-append, Reach-IsShared}

count-range-below : (i j n : ℕ) → i < j → count i (range_from j n) ≡ 0
count-range-below i j zero h = refl
count-range-below i j (suc n) h = ground (arith, count-range-below i (suc j) n)

count-range-le : (i j n : ℕ) → count i (range_from j n) ≤ 1
count-range-le i j zero = omega arith
count-range-le i j (suc n) =
    ground (arith, count-range-le i (suc j) n, count-range-below i (suc j) n)

count-keep-le : (p : ℕ → Bool) (i : ℕ) (xs : List ℕ) → count i (keep p xs) ≤ count i xs
count-keep-le p i [] = omega arith
count-keep-le p i (x ∷ xs) = elim (Bool-cases (p x)) [
  | inl e ↦ rw e (omega (arith, count-keep-le p i xs))
  | inr e ↦ rw e (omega (arith, count-keep-le p i xs))
]

-- the filling of the pool holds a pair once at most
count-init-le :
    (path_exists : Text → Bool) (config : Config) (valid : List ℕ) (i : ℕ)
    → init_tap_pool path_exists config ≡ ok valid
    → count i valid ≤ 1
unfolding init_tap_pool
count-init-le path_exists config valid i h = jobs_case (test_jobs config) h
  where
    jobs_case :
        (r : Result ℕ)
        → (r >>= λ jobs. ok (keep (is_available path_exists) (range_from 0 jobs))) ≡ ok valid
        → count i valid ≤ 1
    jobs_case (ok jobs) e =
        let ev : keep (is_available path_exists) (range_from 0 jobs) ≡ valid = cc in
        rw (← ev) (
          omega (
            arith,
            count-keep-le (is_available path_exists) i (range_from 0 jobs),
            count-range-le i 0 jobs,
          ))
    jobs_case (err e) h = cc

shared-le :
    (valid held : List ℕ) (pool : Pool) (i : ℕ)
    → IsShared valid pool held
    → count i held ≤ count i valid
shared-le valid held unset i h = rw h (omega arith)
shared-le valid held (ready free) i h = omega (arith, h i)
shared-le valid held poisoned i h = elim h [ ]

held_ne :
    (front middle back : List ℕ) (a b : ℕ) → count a (front ++ a ∷ (middle ++ b ∷ back)) ≤ 1 → a ≢ b
held_ne front middle back a b h e =
    let first = count-append a front (a ∷ (middle ++ b ∷ back)) in
    let second = count-append a middle (b ∷ back) in ground (arith, first, second)

tap_name-injective : (i j : ℕ) → tap_name i ≡ tap_name j → i ≡ j
unfolding tap_name
tap_name-injective i j h =
    decimal-injective i j (append_cancel_left tap_prefix (decimal i) (decimal j) h)

host_text-injective : (i j : ℕ) → host_text i ≡ host_text j → i ≡ j
host_text-injective i j h =
    decimal-injective i j (append_cancel_left (codes "192.168.100.") (decimal i) (decimal j) h)

-- no device and no address in common
pub record AreApart (p q : TapPair) : Type 0 where
  pub src_src : p.src_tap ≢ q.src_tap
  pub src_dst : p.src_tap ≢ q.dst_tap
  pub dst_src : p.dst_tap ≢ q.src_tap
  pub dst_dst : p.dst_tap ≢ q.dst_tap
  pub hosts : p.guest_host ≢ q.guest_host

new-AreApart : (a b : ℕ) → a ≢ b → AreApart (new a) (new b)
unfolding new
new-AreApart a b ne = record {
  src_src = λ e. ne (omega (arith, tap_name-injective (a * 2) (b * 2) e));
  src_dst = λ e. absurd (omega (arith, tap_name-injective (a * 2) (b * 2 + 1) e));
  dst_src = λ e. absurd (omega (arith, tap_name-injective (a * 2 + 1) (b * 2) e));
  dst_dst = λ e. ne (omega (arith, tap_name-injective (a * 2 + 1) (b * 2 + 1) e));
  hosts = λ e. ne (omega (arith, host_text-injective (2 + a) (2 + b) e));
}

-- At any moment of a run, two pairs that tests hold have no tap device and no guest address in
-- common, whatever devices the machine has and in whatever order pairs are taken and returned.
pub held-AreApart :
    (path_exists : Text → Bool) (config : Config) (valid : List ℕ) (s : State)
    (front middle back : List ℕ) (a b : ℕ)
    → init_tap_pool path_exists config ≡ ok valid
    → Reach (ok valid) s
    → s.held ≡ front ++ a ∷ (middle ++ b ∷ back)
    → AreApart (new a) (new b)
held-AreApart path_exists config valid s front middle back a b init r e =
    let once = count-init-le path_exists config valid a init in
    let fits = shared-le valid s.held s.pool a (Reach-IsShared valid r) in
    new-AreApart a b (held_ne front middle back a b (rw (← e) (omega arith)))
