-- ===== src/Host/Task/Safe.antt =====
-- Tasks with a promise, put together the way the code of the task is: the task returns, keeps a
-- property of the state, and what it returns, if it is no error, has a property.
use qemu_test.Prelude.{
  ℕ, zero, suc, ◌≡◌, refl, ap, Option, none, some, Text, Result, ok, err, context,
}
use qemu_test.Host.{Round, done, again, continue, repeat_rounds}
use qemu_test.Host.Task.{Task, behind, call, with_context, context_of}

abbrev pub Meets : {A : Type 0} → (A → Type 0) → Result A → Type 0
Meets Q (ok a) = Q a
Meets Q (err e) = Unit

abbrev pub Anything : {A : Type 0} → A → Type 0
Anything a = Unit

pub Meets-context :
    {A : Type 0} (Q : A → Type 0) (r : Result A) (message : Text)
    → Meets Q r
    → Meets Q (context r message)
Meets-context Q (ok a) message m = m
Meets-context Q (err e) message m = tt

pub Meets-Anything : {A : Type 0} (r : Result A) → Meets Anything r
Meets-Anything (ok a) = tt
Meets-Anything (err e) = tt

module _ {W : Type 0} (P : W → Type 0) where
  abbrev pub IsSafe : {A : Type 0} → (A → Type 0) → Task W A → Type 0
  IsSafe {A} Q task =
      (w : W) → P w → (r : Result A) × ((task w).0 ≡ some r) × P (task w).1 × Meets Q r

  abbrev pub Safe : {A : Type 0} → (A → Type 0) → Type 0
  Safe {A} Q = (task : Task W A) × IsSafe Q task

module _ {W : Type 0} {P : W → Type 0} where
  pub behind-IsSafe :
      {A B : Type 0} (Q : B → Type 0) (o : Option (Result A)) (v : W) (next : A → Task W B)
      → (x : Result A) × (o ≡ some x)
      → P v
      → ((a : A) → IsSafe P Q (next a))
      → (y : Result B) × ((behind o v next).0 ≡ some y) × P (behind o v next).1 × Meets Q y
  behind-IsSafe Q none v next (x, e) p k = absurd (cc e)
  behind-IsSafe Q (some (err x)) v next s p k = (err x, refl, p, tt)
  behind-IsSafe Q (some (ok a)) v next s p k = k a v p

  infixl 5 ◌>>=◌ ◌>>◌
  abbrev pub ◌>>=◌ :
      {A B : Type 0} {Q : A → Type 0} {R : B → Type 0} → Safe P Q → (A → Safe P R) → Safe P R
  ◌>>=◌ {A} {B} {Q} {R} (task, safe) next = (
    (λ w. behind (task w).0 (task w).1 (λ a. (next a).0)),
    λ w p.
        let (r, e, p', q) = safe w p in
        behind-IsSafe R (task w).0 (task w).1 (λ a. (next a).0) (r, e) p' (λ a. (next a).1),
  )

  abbrev pub ◌>>◌ :
      {B : Type 0} {Q : Unit {0} → Type 0} {R : B → Type 0} → Safe P Q → Safe P R → Safe P R
  safe >> next = safe >>= λ _. next

  abbrev pub pure : {A : Type 0} {Q : A → Type 0} (a : A) → Q a → Safe P Q
  pure a q = ((λ w. (some (ok a), w)), λ w p. (ok a, refl, p, q))

  abbrev pub named : {A : Type 0} {Q : A → Type 0} → Safe P Q → Text → Safe P Q
  named {A} {Q} (task, safe) message = (
    with_context task message,
    λ w p.
        let (r, e, p', q) = safe w p in
        (context r message, ap (λ o. context_of o message) e, p', Meets-context Q r message q),
  )

  -- a call to the outside that keeps the property
  abbrev pub outside :
      {A : Type 0} (f : W → Result A × W) → ((w : W) → P w → P (f w).1) → Safe P (Anything {A = A})
  outside f keeps = (call f, λ w p. ((f w).0, refl, keeps w p, Meets-Anything (f w).0))

  -- any task that returns and keeps the property
  abbrev pub kept :
      {A : Type 0} (task : Task W A)
      → ((w : W) → (r : Result A) × ((task w).0 ≡ some r))
      → ((w : W) → P w → P (task w).1)
      → Safe P (Anything {A = A})
  kept task total keeps = (task, λ w p. let (r, e) = total w in (r, e, keeps w p, Meets-Anything r))

module _ {W R : Type 0} (P : W → Type 0) (round : W → Round R × W)
    (keeps : (w : W) → P w → P (round w).1) where
  continue_keeps :
      (r : Round R) (v : W) (rounds : W → Option R × W)
      → P v
      → ((u : W) → P u → P (rounds u).1)
      → P (continue r v rounds).1
  continue_keeps (done x) v rounds p k = p
  continue_keeps again v rounds p k = k v p

  pub repeat_rounds-keeps : (fuel : ℕ) (w : W) → P w → P (repeat_rounds fuel round w).1
  unfolding repeat_rounds
  repeat_rounds-keeps zero w p = p
  repeat_rounds-keeps (suc fuel) w p =
      continue_keeps (round w).0 (round w).1 (repeat_rounds fuel round) (keeps w p)
        (repeat_rounds-keeps fuel)
