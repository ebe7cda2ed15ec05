-- ===== src/Scenario/Remote/Made.antt =====
-- What a test returns that starts with something that may not be made.
use qemu_test.Prelude.{◌≡◌, ◌⊎◌, inl, inr, refl, some, List, Text, Result, ok, err}
use qemu_test.Host.Task.{Task, ◌>>=◌, Succeeds}
use qemu_test.Host.Task.Told.{Says, IsTold, Says-ok}
use qemu_test.Scenario.Ends.{EndsWith, Returns}

module _ {W A : Type 0} where
  -- an error of the task, or what its success says, and what follows on what it made
  abbrev pub MadeOr :
      Task W A
      → (W → A → W → Type 0)
      → (A → Result (Unit {0}) → W → Type 0)
      → Result (Unit {0})
      → W
      → Type 0
  MadeOr task R Q r w' =
      ((e : List Text) × (u : W) × (task u ≡ (some (err e), w')) × (r ≡ err e))
      ⊎ ((a : A) × (u v : W) × Succeeds task u a v × R u a v × Q a r w')

  pub task-MadeOr :
      (Q : A → Result (Unit {0}) → W → Type 0) (R : W → A → W → Type 0) (task : Task W A)
      (rest : A → Task W (Unit {0}))
      → IsTold R task
      → ((a : A) → Returns (Q a) (rest a))
      → Returns (MadeOr task R Q) (task >>= rest)
  task-MadeOr Q R task rest told returns w = let (r, v, e, said) = told w in made r v e said
    where
      made :
          (r : Result A) (v : W)
          → task w ≡ (some r, v)
          → Says R r w v
          → EndsWith (MadeOr task R Q) (task >>= rest) w
      made (err e) v q said = (err e, v, rw q refl, inl (e, w, q, refl))
      made (ok a) v q said =
          let (r, w', e, met) = returns a v in (r, w', rw (q, e) refl, inr (a, w, v, q, said, met))

-- what a pass says, from some state on
module _ {W : Type 0} where
  abbrev pub Passed : (W → W → Type 0) → Result (Unit {0}) → W → Type 0
  Passed R r w' = r ≡ ok tt → (w : W) × R w w'

  pub IsTold-Passed :
      (R : W → W → Type 0) (task : Task W (Unit {0}))
      → IsTold (λ w (done : Unit {0}) w'. R w w') task
      → Returns (Passed R) task
  IsTold-Passed R task told w =
      let (r, w', e, said) = told w in
      (r, w', e, (λ passed. (w, Says-ok (λ w (done : Unit {0}) w'. R w w') r tt w w' said passed)))
