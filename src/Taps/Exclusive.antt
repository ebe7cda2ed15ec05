-- ===== src/Taps/Exclusive.antt =====
-- The tap pool of src/util.rs under tests that run at the same time: the steps in which they take
-- and return pairs, in any order.
use qemu_test.Prelude.{
  ℕ, ◌+◌, ◌≡◌, ◌≢◌, refl, sym, ap, Option, none, some, List, [], ◌∷◌, ◌++◌, Text, codes, ◌==◌,
  if◌then◌else◌, Result, ok, err, arith,
}
use mathlib.Core.Option.{some-injective}
use qemu_test.Taps.{
  below, taken, TapPair, Pool, unset, ready, poisoned, pop, take_pair, fill_and_take, allocate_taps,
  drop,
}

abbrev pub count : ℕ → List ℕ → ℕ
count i [] = 0
count i (x ∷ xs) = (if x == i then 1 else 0) + count i xs

-- the pool, and the pairs that running tests hold
pub record State : Type 0 where
  pub pool : Pool
  pub held : List ℕ

-- One test takes a pair, or one that holds a pair ends: the lock makes each a step of its own.
pub data Step (init : Result (List ℕ)) (s : State) (t : State) : Type 0 where
  allocated :
      (pair : TapPair)
      → (allocate_taps init s.pool).0 ≡ ok pair
      → t ≡ record { pool = (allocate_taps init s.pool).1; held = pair.pair_index ∷ s.held }
      → Step init s t
  refused :
      (allocate_taps init s.pool).0 ≡ err (codes "no tap devices available" ∷ [])
      → t ≡ record s { pool = (allocate_taps init s.pool).1 }
      → Step init s t
  returned :
      (front back : List ℕ) (pair_index : ℕ)
      → s.held ≡ front ++ pair_index ∷ back
      → t ≡ record { pool = drop pair_index s.pool; held = front ++ back }
      → Step init s t

abbrev pub start : State
start = record { pool = unset; held = [] }

pub data Reach (init : Result (List ℕ)) : State → Type 0 where
  here : Reach init start
  next : {s t : State} → Reach init s → Step init s t → Reach init t

-- Every pair of the pool's first filling is free or held, once.
abbrev pub IsShared : List ℕ → Pool → List ℕ → Type 0
IsShared valid unset held = held ≡ []
IsShared valid (ready free) held = (i : ℕ) → count i free + count i held ≡ count i valid
IsShared valid poisoned held = ⊥

pub count-append : (i : ℕ) (xs ys : List ℕ) → count i (xs ++ ys) ≡ count i xs + count i ys
count-append i [] ys = omega arith
count-append i (x ∷ xs) ys = omega (arith, count-append i xs ys)

below_inv :
    (x z : ℕ) (o : Option (ℕ × List ℕ)) (rest : List ℕ)
    → below x o ≡ some (z, rest)
    → (r : List ℕ) × (o ≡ some (z, r)) × (rest ≡ x ∷ r)
below_inv x z none rest h = cc
below_inv x z (some (y, r)) rest h =
    let e : (y, x ∷ r) ≡ (z, rest) = some-injective _ _ h in
    (r, cc (ap (λ (p : ℕ × List ℕ). p.0) e), sym (ap (λ (p : ℕ × List ℕ). p.1) e))

pub pop-eq-some : (xs rest : List ℕ) (z : ℕ) → pop xs ≡ some (z, rest) → xs ≡ rest ++ z ∷ []
unfolding pop
pop-eq-some [] rest z h = cc
pop-eq-some (x ∷ []) rest z h =
    let e : (x, []) ≡ (z, rest) = some-injective _ _ h in
    cc (ap (λ (p : ℕ × List ℕ). p.0) e, ap (λ (p : ℕ × List ℕ). p.1) e)
pop-eq-some (x ∷ y ∷ xs) rest z h =
    let (r, e, er) = below_inv x z (pop (y ∷ xs)) rest h in
    rw er (ap (λ t. x ∷ t) (pop-eq-some (y ∷ xs) r z e))

count-pop : (xs rest : List ℕ) (z i : ℕ) → pop xs ≡ some (z, rest) → count i xs ≡ count i (z ∷ rest)
count-pop xs rest z i h = rw (pop-eq-some xs rest z h) (omega (arith, count-append i rest (z ∷ [])))

abbrev index_of : ℕ → Result TapPair → ℕ
index_of z (ok pair) = pair.pair_index
index_of z (err e) = z

middle-ne-nil : (front back : List ℕ) (p : ℕ) → front ++ p ∷ back ≢ []
middle-ne-nil [] back p h = cc
middle-ne-nil (x ∷ front) back p h = cc

-- the number of the pairs that are free and of those that are held
abbrev Shares : List ℕ → List ℕ → List ℕ → Type 0
Shares valid free held = (i : ℕ) → count i free + count i held ≡ count i valid

taken-IsShared :
    (valid free held : List ℕ) (pair : TapPair) (o : Option (ℕ × List ℕ))
    → pop free ≡ o
    → Shares valid free held
    → (taken free o).0 ≡ ok pair
    → IsShared valid (taken free o).1 (pair.pair_index ∷ held)
unfolding taken
taken-IsShared valid free held pair none p inv e = cc
taken-IsShared valid free held pair (some (z, rest)) p inv e =
    let n : z ≡ pair.pair_index = ap (λ (r : Result TapPair). index_of z r) e in
    λ i. rw (← n) (omega (arith, inv i, count-pop free rest z i p))

taken_refused :
    (valid free held : List ℕ) (m : Text) (o : Option (ℕ × List ℕ))
    → Shares valid free held
    → (taken free o).0 ≡ err (m ∷ [])
    → IsShared valid (taken free o).1 held
unfolding taken
taken_refused valid free held m none inv e = inv
taken_refused valid free held m (some (z, rest)) inv e = cc

count-remove :
    (i p : ℕ) (front back : List ℕ)
    → count i (front ++ p ∷ back) ≡ count i (p ∷ []) + count i (front ++ back)
count-remove i p front back =
    omega (arith, count-append i front (p ∷ back), count-append i front back)

drop-IsShared :
    (valid : List ℕ) (pool : Pool) (front back : List ℕ) (p : ℕ)
    → IsShared valid pool (front ++ p ∷ back)
    → IsShared valid (drop p pool) (front ++ back)
unfolding drop
drop-IsShared valid unset front back p h = absurd (middle-ne-nil front back p h)
drop-IsShared valid (ready free) front back p h =
    λ i. omega (arith, h i, count-append i free (p ∷ []), count-remove i p front back)
drop-IsShared valid poisoned front back p h = h

module _ (valid : List ℕ) where
  allocate_IsShared :
      (pool : Pool) (held : List ℕ) (pair : TapPair)
      → IsShared valid pool held
      → (allocate_taps (ok valid) pool).0 ≡ ok pair
      → IsShared valid (allocate_taps (ok valid) pool).1 (pair.pair_index ∷ held)
  unfolding allocate_taps fill_and_take take_pair
  allocate_IsShared unset held pair h e =
      taken-IsShared valid valid held pair (pop valid) refl (λ i. rw h (omega arith)) e
  allocate_IsShared (ready free) held pair h e =
      taken-IsShared valid free held pair (pop free) refl h e
  allocate_IsShared poisoned held pair h e = elim h [ ]

  refuse-IsShared :
      (pool : Pool) (held : List ℕ) (m : Text)
      → IsShared valid pool held
      → (allocate_taps (ok valid) pool).0 ≡ err (m ∷ [])
      → IsShared valid (allocate_taps (ok valid) pool).1 held
  unfolding allocate_taps fill_and_take take_pair
  refuse-IsShared unset held m h e =
      taken_refused valid valid held m (pop valid) (λ i. rw h (omega arith)) e
  refuse-IsShared (ready free) held m h e = taken_refused valid free held m (pop free) h e
  refuse-IsShared poisoned held m h e = elim h [ ]

  Step-IsShared :
      {s t : State}
      → Step (ok valid) s t
      → IsShared valid s.pool s.held
      → IsShared valid t.pool t.held
  Step-IsShared {s} (allocated pair e q) h = rw q (allocate_IsShared s.pool s.held pair h e)
  Step-IsShared {s} (refused e q) h = rw q (refuse-IsShared s.pool s.held _ h e)
  Step-IsShared {s} (returned front back p eh q) h =
      rw q (drop-IsShared valid s.pool front back p (rw eh at h))

  -- If the pool can be filled, then however tests take and return pairs, each pair of the filling is
  -- free or held, as often as the filling had it, and the lock is never poisoned.
  pub Reach-IsShared : {s : State} → Reach (ok valid) s → IsShared valid s.pool s.held
  Reach-IsShared here = refl
  Reach-IsShared (next r st) = Step-IsShared st (Reach-IsShared r)
