-- ===== src/Host/Task/Told.antt =====
-- Tasks that return, with what a success says of the states before and behind them, put together the
-- way the code of the task is.
use qemu_test.Prelude.{
  ◌≡◌, refl, ap, Bool, true, false, Option, some, Text, Result, ok, err, context, bail, ensure,
}
use qemu_test.Host.Task.{Task, behind, context_of, call, given, act, ask, with_context, Succeeds}

module _ {W A : Type 0} where
  abbrev pub Says : (W → A → W → Type 0) → Result A → W → W → Type 0
  Says R (ok a) w w' = R w a w'
  Says R (err e) w w' = Unit

  abbrev pub IsTold : (W → A → W → Type 0) → Task W A → Type 0
  IsTold R task = (w : W) → (r : Result A) × (w' : W) × (task w ≡ (some r, w')) × Says R r w w'

  abbrev pub Told : (W → A → W → Type 0) → Type 0
  Told R = (task : Task W A) × IsTold R task

  pub Says-ok :
      (R : W → A → W → Type 0) (r : Result A) (a : A) (w w' : W)
      → Says R r w w'
      → r ≡ ok a
      → R w a w'
  Says-ok R r a w w' s e = rw e at s

  Says-map :
      (R S : W → A → W → Type 0) (r : Result A) (w v w' : W)
      → ((a : A) → R v a w' → S w a w')
      → Says R r v w'
      → Says S r w w'
  Says-map R S (ok a) w v w' f s = f a s
  Says-map R S (err e) w v w' f s = tt

  pub retell :
      (R S : W → A → W → Type 0) (task : Task W A)
      → IsTold R task
      → ((w : W) (a : A) (w' : W) → R w a w' → S w a w')
      → IsTold S task
  retell R S task told f w =
      let (r, w', e, s) = told w in (r, w', e, Says-map R S r w w w' (λ a. f w a w') s)

module _ {W A B : Type 0} where
  abbrev pub Then : (W → A → W → Type 0) → (A → W → B → W → Type 0) → W → B → W → Type 0
  Then R S w b w' = (a : A) × (v : W) × R w a v × S a v b w'

  pub behind-IsTold :
      (R : W → A → W → Type 0) (S : A → W → B → W → Type 0) (task : Task W A) (next : A → Task W B)
      (w v : W) (r : Result A)
      → task w ≡ (some r, v)
      → Says R r w v
      → ((a : A) → IsTold (S a) (next a))
      → (y : Result B) × (w' : W) × (behind (task w).0 (task w).1 next ≡ (some y, w'))
        × Says (Then R S) y w w'
  behind-IsTold R S task next w v (err e) q s k = (err e, v, rw q refl, tt)
  behind-IsTold R S task next w v (ok a) q s k =
      let (y, w', e, t) = k a v in
      (y, w', rw (q, e) refl, Says-map (S a) (Then R S) y w v w' (λ b u. (a, v, s, u)) t)

  infixl 5 ◌>>=◌
  abbrev pub ◌>>=◌ :
      {R : W → A → W → Type 0} {S : A → W → B → W → Type 0}
      → Told R
      → ((a : A) → Told (S a))
      → Told (Then R S)
  ◌>>=◌ {R} {S} (task, told) next = (
    (λ w. behind (task w).0 (task w).1 (λ a. (next a).0)),
    λ w.
        let (r, v, e, s) = told w in
        behind-IsTold R S task (λ a. (next a).0) w v r e s (λ a. (next a).1),
  )

module _ {W A B : Type 0} where
  -- `r?`, and the rest
  pub given-IsTold :
      (S : A → W → B → W → Type 0) (r : Result A) (next : A → Task W B)
      → ((a : A) → IsTold (S a) (next a))
      → (w : W)
      → (y : Result B) × (w' : W) × (behind (some r) w next ≡ (some y, w'))
        × Says (λ w b w'. (a : A) × (r ≡ ok a) × S a w b w') y w w'
  given-IsTold S (err e) next k w = (err e, w, refl, tt)
  given-IsTold S (ok a) next k w =
      let (y, w', e, s) = k a w in
      (
        y,
        w',
        e,
        Says-map (S a) (λ w b w'. (x : A) × (ok a ≡ ok x) × S x w b w') y w w w'
            (λ b u. (a, refl, u)) s,
      )

  abbrev pub told_given :
      {S : A → W → B → W → Type 0} (r : Result A)
      → ((a : A) → Told (S a))
      → Told (λ w b w'. (a : A) × (r ≡ ok a) × S a w b w')
  told_given {S} r next = (
    (λ w. behind (some r) w (λ a. (next a).0)),
    given-IsTold S r (λ a. (next a).0) (λ a. (next a).1),
  )

module _ {W : Type 0} where
  infixl 5 ◌>>◌
  abbrev pub ◌>>◌ :
      {B : Type 0} {R : W → Unit {0} → W → Type 0} {S : W → B → W → Type 0}
      → Told R
      → Told S
      → Told (Then R (λ (done : Unit {0}). S))
  told >> next = told >>= λ _. next

  -- a task that is known to be told
  abbrev pub known :
      {A : Type 0} {R : W → A → W → Type 0} (task : Task W A) → IsTold R task → Told R
  known task told = (task, told)

  pub ensure-IsTold :
      (test : Bool) (message : Text)
      → IsTold
          (λ (w : W) (done : Unit {0}) w'. (test ≡ true) × (w ≡ w'))
          (given (ensure test message))
  ensure-IsTold true message w = (ok tt, w, refl, (refl, refl))
  ensure-IsTold false message w = (bail message, w, refl, tt)

  abbrev pub told_ensure :
      (test : Bool) (message : Text)
      → Told (λ (w : W) (done : Unit {0}) w'. (test ≡ true) × (w ≡ w'))
  told_ensure test message = known (given (ensure test message)) (ensure-IsTold test message)

  pub call-IsTold :
      {A : Type 0} (f : W → Result A × W) → IsTold (λ w a w'. f w ≡ (ok a, w')) (call f)
  call-IsTold {A} f w = answered (f w).0 (f w).1 refl
    where
      answered :
          (r : Result A) (v : W)
          → f w ≡ (r, v)
          → (x : Result A) × (w' : W) × (call f w ≡ (some x, w'))
            × Says (λ w a w'. f w ≡ (ok a, w')) x w w'
      answered (ok a) v q = (ok a, v, rw q refl, q)
      answered (err e) v q = (err e, v, rw q refl, tt)

  abbrev pub told_call : {A : Type 0} (f : W → Result A × W) → Told (λ w a w'. f w ≡ (ok a, w'))
  told_call f = known (call f) (call-IsTold f)

  abbrev pub told_ask : {A : Type 0} (f : W → A × W) → Told (λ w a w'. f w ≡ (a, w'))
  told_ask f = known (ask f) (λ w. (ok (f w).0, (f w).1, refl, refl))

  abbrev pub told_act : (f : W → W) → Told (λ w (done : Unit {0}) w'. f w ≡ w')
  told_act f = known (act f) (λ w. (ok tt, f w, refl, refl))

  abbrev pub told_pure : {A : Type 0} (a : A) → Told (λ (w : W) b w'. (a ≡ b) × (w ≡ w'))
  told_pure a = known (λ w. (some (ok a), w)) (λ w. (ok a, w, refl, (refl, refl)))

  pub Says-context :
      {A : Type 0} (R : W → A → W → Type 0) (r : Result A) (message : Text) (w w' : W)
      → Says R r w w'
      → Says R (context r message) w w'
  Says-context R (ok a) message w w' s = s
  Says-context R (err e) message w w' s = tt

  abbrev pub named : {A : Type 0} {R : W → A → W → Type 0} → Told R → Text → Told R
  named {A} {R} (task, told) message = (
    with_context task message,
    λ w.
        let (r, w', e, s) = told w in
        (
          context r message,
          w',
          ap (λ (p : Option (Result A) × W). (context_of p.0 message, p.1)) e,
          Says-context R r message w w' s,
        ),
  )

module _ {W A : Type 0} (task : Task W A)
    (total : (w : W) → (r : Result A) × ((task w).0 ≡ some r)) where
  -- of a task that returns, the success itself
  pub total-IsTold : IsTold (Succeeds task) task
  total-IsTold w = let (r, e) = total w in told r (task w).1 (λ i. (e i, (task w).1))
    where
      told :
          (r : Result A) (v : W)
          → task w ≡ (some r, v)
          → (x : Result A) × (w' : W) × (task w ≡ (some x, w')) × Says (Succeeds task) x w w'
      told (ok a) v q = (ok a, v, q, q)
      told (err e) v q = (err e, v, q, tt)
