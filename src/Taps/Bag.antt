-- ===== src/Taps/Bag.antt =====
-- The tap pool of src/util.rs as a bag of free pairs: the order of the list, and that it is filled on
-- the first use, cannot be told from outside.
use mathlib.Core.List.{perm_append_singleton}
use mathlib.Core.Quot.{sound}
use mathlib.Mathlib.Data.Multiset.Defs.{Multiset, of_list}
use mathlib.Mathlib.Data.Multiset.ZeroCons.{zero, cons}
use qemu_test.Prelude.{
  ℕ, ◌≡◌, ◌≢◌, refl, ap, ◌∙◌, inl, inr, Option, none, some, Option-cases, List, [], ◌∷◌, Text,
  codes, Result, ok, err, bail,
}
use qemu_test.Taps.{
  TapPair, Pool, unset, ready, poisoned, below, new, pop, taken, take_pair, fill_and_take,
  allocate_taps, drop,
}
use qemu_test.Taps.Exclusive.{pop-eq-some}

-- the free pairs; none where the pool cannot be filled, or its lock is poisoned
abbrev pub view : Pool → Result (List ℕ) → Option (Multiset ℕ)
view unset (ok valid) = some (of_list valid)
view unset (err e) = none
view (ready free) init = some (of_list free)
view poisoned init = none

-- What taking a pair does to the bag of the free pairs.
pub data Takes : Option (Multiset ℕ) → Result TapPair → Option (Multiset ℕ) → Type 0 where
  broken : (message : Text) → Takes none (bail message) none
  exhausted :
      {free : Option (Multiset ℕ)}
      → free ≡ some zero
      → Takes free (bail (codes "no tap devices available")) (some zero)
  takes :
      (i : ℕ) (rest : Multiset ℕ) {free : Option (Multiset ℕ)}
      → free ≡ some (cons i rest)
      → Takes free (ok (new i)) (some rest)

-- What giving one back does to it.
abbrev pub given_back : ℕ → Option (Multiset ℕ) → Option (Multiset ℕ)
given_back i none = none
given_back i (some free) = some (cons i free)

below-ne-none : (x : ℕ) (o : Option (ℕ × List ℕ)) → below x o ≡ none → o ≡ none
below-ne-none x none h = refl
below-ne-none x (some (z, rest)) h = cc

pop-eq-none : (xs : List ℕ) → pop xs ≡ none → xs ≡ []
unfolding pop
pop-eq-none [] h = refl
pop-eq-none (x ∷ []) h = cc
pop-eq-none (x ∷ y ∷ xs) h = absurd (cc (pop-eq-none (y ∷ xs) (below-ne-none x (pop (y ∷ xs)) h)))

take_pair-Takes :
    (init : Result (List ℕ)) (free : List ℕ)
    → Takes (some (of_list free)) (take_pair free).0 (view (take_pair free).1 init)
unfolding take_pair taken
take_pair-Takes init free = elim (Option-cases (pop free)) [
  | inl e ↦ rw (e, pop-eq-none free e) (exhausted refl)
  | inr ((i, rest), e) ↦
      let top = ap of_list (pop-eq-some free rest i e) ∙ sound (perm_append_singleton i rest) in
      rw e (takes i (of_list rest) (ap (λ bag. some bag) top))
]

allocate-Takes :
    (pool : Pool) (init : Result (List ℕ))
    → Takes (view pool init) (allocate_taps init pool).0 (view (allocate_taps init pool).1 init)
unfolding allocate_taps fill_and_take
allocate-Takes unset (ok valid) = take_pair-Takes (ok valid) valid
allocate-Takes unset (err e) = broken (codes "failed to init tap pool")
allocate-Takes (ready free) init = take_pair-Takes init free
allocate-Takes poisoned init = broken (codes "called `Result::unwrap()` on an `Err` value")

drop_gives :
    (pool : Pool) (init : Result (List ℕ)) (i : ℕ)
    → pool ≢ unset
    → view (drop i pool) init ≡ given_back i (view pool init)
unfolding drop
drop_gives unset init i filled = absurd (filled refl)
drop_gives (ready free) init i filled = ap (λ bag. some bag) (sound (perm_append_singleton i free))
drop_gives poisoned init i filled = refl

-- To its users the pool is a bag of free pairs, from before it is filled on: `allocate_taps` takes
-- some pair out of the bag and returns it, or refuses where the bag is empty, or fails where there is
-- no bag, and then there is none; the drop of a pair, which only follows a filling, puts it back.
pub pool_refines :
    (pool : Pool) (init : Result (List ℕ))
    → Takes (view pool init) (allocate_taps init pool).0 (view (allocate_taps init pool).1 init)
      × ((i : ℕ) → pool ≢ unset → view (drop i pool) init ≡ given_back i (view pool init))
pool_refines pool init = (allocate-Takes pool init, drop_gives pool init)
