-- ===== src/Host/Rounds.antt =====
-- Loops of rounds: the rounds that a loop goes through, and the one that leaves it.
use qemu_test.Prelude.{
  subst, Bool-cases, ltb, ltb→lt, ℕ, zero, suc, ◌+◌, ◌*◌, ◌≤◌, ◌<◌, ◌≡◌, ◌≢◌, ◌⊎◌, inl, inr, refl,
  sym, ap, Option, some, arith,
}
use mathlib.Core.Option.{some-injective}
use qemu_test.Host.{Round, done, again, continue, repeat_rounds}

module _ {R W : Type 0} (round : W → Round R × W) where
  -- rounds that did not end the loop, from one state to another
  pub data Goes (w : W) : W → Type 0 where
    start : Goes w w
    step : {u : W} (v : W) → Goes w u → (round u).0 ≡ again → v ≡ (round u).1 → Goes w v

  -- the loop left in its last round, with this result
  abbrev pub Leaves : W → R → W → Type 0
  Leaves w r w' = (u : W) × Goes w u × (round u ≡ (done r, w'))

module _ {R W : Type 0} (round : W → Round R × W) where
  Goes-front : {w v u : W} → (round w).0 ≡ again → v ≡ (round w).1 → Goes round v u → Goes round w u
  Goes-front a e start = step _ start a e
  Goes-front a e (step v g b f) = step v (Goes-front a e g) b f

  continue_inv :
      (r : Round R) (v w' : W) (rounds : W → Option R × W) (x : R)
      → continue r v rounds ≡ (some x, w')
      → ((r ≡ done x) × (v ≡ w')) ⊎ ((r ≡ again) × (rounds v ≡ (some x, w')))
  continue_inv (done y) v w' rounds x h =
      inl (cc (ap (λ (p : Option R × W). p.0) h), ap (λ (p : Option R × W). p.1) h)
  continue_inv again v w' rounds x h = inr (refl, h)

  -- the last round of a loop that ended
  pub repeat-Leaves :
      (fuel : ℕ) (w w' : W) (r : R)
      → repeat_rounds fuel round w ≡ (some r, w')
      → Leaves round w r w'
  unfolding repeat_rounds
  repeat-Leaves zero w w' r h = absurd (cc (ap (λ (p : Option R × W). p.0) h))
  repeat-Leaves (suc fuel) w w' r h =
      elim (continue_inv (round w).0 (round w).1 w' (repeat_rounds fuel round) r h) [
        | inl (e, f) ↦ (w, start, λ i. (e i, f i))
        | inr (e, f) ↦
            let (u, g, last) = repeat-Leaves fuel (round w).1 w' r f in
            (u, Goes-front e refl g, last)
      ]

-- A loop that moves the clock on by `pause` in each round that does not end it, and that no round
-- behind the deadline continues, ends.
module _ {R W : Type 0} (now : W → ℕ) (deadline pause : ℕ) (round : W → Round R × W)
    (pauses : (w : W) → (round w).0 ≡ again → now w + pause ≤ now (round w).1)
    (stops : (w : W) → deadline < now w → (round w).0 ≢ again) where
  continue-some :
      (r : Round R) (v : W) (rounds : W → Option R × W)
      → (r ≡ again → (x : R) × ((rounds v).0 ≡ some x))
      → (x : R) × ((continue r v rounds).0 ≡ some x)
  continue-some (done x) v rounds h = (x, refl)
  continue-some again v rounds h = h refl

  pub repeat-ends :
      (fuel : ℕ) (w : W)
      → deadline < now w + fuel * pause
      → (r : R) × ((repeat_rounds (suc fuel) round w).0 ≡ some r)
  unfolding repeat_rounds
  repeat-ends zero w h =
      continue-some (round w).0 (round w).1 (repeat_rounds zero round)
        λ e. absurd (stops w (omega arith) e)
  repeat-ends (suc fuel) w h =
      continue-some (round w).0 (round w).1 (repeat_rounds (suc fuel) round)
        λ e. repeat-ends fuel (round w).1 (grind (arith, pauses w e))

pub done-injective :
    {R W : Type 0} {a r : R} {v w : W}
    → ◌≡◌ {A = Round R × W} (done a, v) (done r, w)
    → (r ≡ a) × (w ≡ v)
done-injective {R} {W} e =
    (sym (cc (ap (λ (p : Round R × W). p.0) e)), sym (ap (λ (p : Round R × W). p.1) e))

pub again-ne-done :
    {R W : Type 0} {r : R} {v w : W} → ¬ (◌≡◌ {A = Round R × W} (again, v) (done r, w))
again-ne-done {R} {W} e = cc (ap (λ (p : Round R × W). p.0) e)

-- A loop that lowers a measure in each round that does not end it, ends.
module _ {R W : Type 0} (measure : W → ℕ) (round : W → Round R × W)
    (lowers : (w : W) → (round w).0 ≡ again → measure (round w).1 < measure w) where
  pub repeat-decreases :
      (fuel : ℕ) (w : W) → measure w < fuel → (r : R) × ((repeat_rounds fuel round w).0 ≡ some r)
  unfolding repeat_rounds
  repeat-decreases zero w h = elim h [ ]
  repeat-decreases (suc fuel) w h =
      next (round w).0 (λ e. repeat-decreases fuel (round w).1 (omega (arith, lowers w e)))
    where
      next :
          (r : Round R)
          → (r ≡ again → (x : R) × ((repeat_rounds fuel round (round w).1).0 ≡ some x))
          → (x : R) × ((continue r (round w).1 (repeat_rounds fuel round)).0 ≡ some x)
      next (done x) k = (x, refl)
      next again k = k refl

-- A loop whose rounds move the clock on by `stride` at most, and whose rounds at a time from `ready` to
-- `deadline` end it well, ends well, if no earlier round ends it in another way.
module _ {R W : Type 0} (now : W → ℕ) (ready deadline stride : ℕ) (Good : R → Type 0)
    (round : W → Round R × W)
    (early : (w : W)
      → now w ≤ deadline
      → ((round w).0 ≡ again) ⊎ ((r : R) × ((round w).0 ≡ done r) × Good r))
    (timely : (w : W) → ready ≤ now w → now w ≤ deadline → (round w).0 ≢ again)
    (strides : (w : W) → (round w).0 ≡ again → now (round w).1 ≤ now w + stride)
    (room : ready + stride ≤ deadline) where
  pub repeat_reaches :
      (fuel : ℕ) (w : W) (r : R)
      → now w ≤ deadline
      → (repeat_rounds fuel round w).0 ≡ some r
      → Good r
  unfolding repeat_rounds
  repeat_reaches zero w r t e = absurd (cc e)
  repeat_reaches (suc fuel) w r t e = elim (early w t) [
    | inl a ↦ elim (Bool-cases (ltb (now w) ready)) [
      | inl before ↦
          repeat_reaches fuel (round w).1 r
            (omega (arith, strides w a, room, ltb→lt (now w) ready before)) (rw a at e)
      | inr since ↦ absurd (timely w (ground arith) t a)
    ]
    | inr (x, d, good) ↦ subst Good (some-injective _ _ (rw d at e)) good
  ]
