-- ===== src/Host/Task.antt =====
-- Code of src/process.rs, src/cloud_init.rs and src/tests that calls the outside and leaves by `?`: a
-- task takes a state and returns a result and a state, or no result where a loop's fuel runs out.
pub mod Safe
pub mod Told
use mathlib.Core.Option.{some-injective}
use qemu_test.Prelude.{
  ℕ, ◌≡◌, refl, ap, Option, none, some, List, [], ◌∷◌, Text, Result, ok, err, context,
}

abbrev pub Task : Type 0 → Type 0 → Type 0
Task W A = W → Option (Result A) × W

module _ {W A B : Type 0} where
  -- behind the task that came before
  abbrev pub behind : Option (Result A) → W → (A → Task W B) → Option (Result B) × W
  behind none w next = (none, w)
  behind (some (err e)) w next = (some (err e), w)
  behind (some (ok a)) w next = next a w

abbrev pub context_of : {A : Type 0} → Option (Result A) → Text → Option (Result A)
context_of none message = none
context_of (some r) message = some (context r message)

module _ {W : Type 0} where
  infixl 5 ◌>>=◌ ◌>>◌
  abbrev pub ◌>>=◌ : {A B : Type 0} → Task W A → (A → Task W B) → Task W B
  ◌>>=◌ task next w = let (r, w') = task w in behind r w' next

  abbrev pub ◌>>◌ : {B : Type 0} → Task W (Unit {0}) → Task W B → Task W B
  task >> next = task >>= λ _. next

  abbrev pub pure : {A : Type 0} → A → Task W A
  pure a w = (some (ok a), w)

  abbrev pub fail : {A : Type 0} → List Text → Task W A
  fail e w = (some (err e), w)

  -- a result that is there, and `?`
  abbrev pub given : {A : Type 0} → Result A → Task W A
  given r w = (some r, w)

  -- a call to the outside
  abbrev pub call : {A : Type 0} → (W → Result A × W) → Task W A
  call f w = let (r, w') = f w in (some r, w')

  -- a call that returns no result
  abbrev pub act : (W → W) → Task W (Unit {0})
  act f w = (some (ok tt), f w)

  -- a call that always has an answer
  abbrev pub ask : {A : Type 0} → (W → A × W) → Task W A
  ask f w = let (a, w') = f w in (some (ok a), w')

  -- `task.context(message)`
  abbrev pub with_context : {A : Type 0} → Task W A → Text → Task W A
  with_context task message w = let (r, w') = task w in (context_of r message, w')

  abbrev pub each : {X : Type 0} → (X → Task W (Unit {0})) → List X → Task W (Unit {0})
  each f [] = pure tt
  each f (x ∷ xs) = f x >> each f xs

  -- The task succeeds, from one state to another.
  abbrev pub Succeeds : {A : Type 0} → Task W A → W → A → W → Type 0
  Succeeds task w a w' = task w ≡ (some (ok a), w')

  -- A step for each element, in order, from one state to another.
  abbrev pub Chain : {X : Type 0} → (X → W → W → Type 0) → List X → W → W → Type 0
  Chain P [] w w' = w ≡ w'
  Chain P (x ∷ xs) w w' = (v : W) × P x w v × Chain P xs v w'

with_context-Succeeds :
    {A : Type 0} (r : Option (Result A)) (message : Text) (a : A)
    → context_of r message ≡ some (ok a)
    → r ≡ some (ok a)
with_context-Succeeds none message a e = e
with_context-Succeeds (some (ok b)) message a e = e
with_context-Succeeds (some (err x)) message a e = cc

-- What a success of a composed task says of its parts.
module _ {W : Type 0} where
  behind-Succeeds :
      {A B : Type 0} (r : Option (Result A)) (v w' : W) (next : A → Task W B) (b : B)
      → behind r v next ≡ (some (ok b), w')
      → (a : A) × (r ≡ some (ok a)) × Succeeds (next a) v b w'
  behind-Succeeds {A} {B} none v w' next b e =
      absurd (cc (ap (λ (p : Option (Result B) × W). p.0) e))
  behind-Succeeds {A} {B} (some (err x)) v w' next b e =
      absurd (cc (ap (λ (p : Option (Result B) × W). p.0) e))
  behind-Succeeds {A} {B} (some (ok a)) v w' next b e = (a, refl, e)

  pub >>=-Succeeds :
      {A B : Type 0} (task : Task W A) (next : A → Task W B) (w w' : W) (b : B)
      → Succeeds (task >>= next) w b w'
      → (a : A) × (v : W) × Succeeds task w a v × Succeeds (next a) v b w'
  >>=-Succeeds task next w w' b e =
      let (a, r, rest) = behind-Succeeds (task w).0 (task w).1 w' next b e in
      (a, (task w).1, (λ i. (r i, (task w).1)), rest)

  pub each-Chain :
      {X : Type 0} (f : X → Task W (Unit {0})) (P : X → W → W → Type 0)
      → ((x : X) (w v : W) → Succeeds (f x) w tt v → P x w v)
      → (xs : List X) (w w' : W) → Succeeds (each f xs) w tt w'
      → Chain P xs w w'
  each-Chain f P inv [] w w' e = ap (λ (p : Option (Result (Unit {0})) × W). p.1) e
  each-Chain f P inv (x ∷ xs) w w' e =
      let (_, v, first, rest) = >>=-Succeeds (f x) (λ _. each f xs) w w' tt e in
      (v, inv x w v first, each-Chain f P inv xs v w' rest)

  pub call_inv :
      {A : Type 0} (f : W → Result A × W) (w w' : W) (a : A)
      → Succeeds (call f) w a w'
      → f w ≡ (ok a, w')
  call_inv {A} f w w' a e =
      let r : (f w).0 ≡ ok a = some-injective _ _ (ap (λ (p : Option (Result A) × W). p.0) e) in
      λ i. (r i, ap (λ (p : Option (Result A) × W). p.1) e i)

  pub given_inv :
      {A : Type 0} (r : Result A) (w w' : W) (a : A)
      → Succeeds (given r) w a w'
      → (r ≡ ok a) × (w ≡ w')
  given_inv {A} r w w' a e = (
    some-injective _ _ (ap (λ (p : Option (Result A) × W). p.0) e),
    ap (λ (p : Option (Result A) × W). p.1) e,
  )

  pub with_context_inv :
      {A : Type 0} (task : Task W A) (message : Text) (w w' : W) (a : A)
      → Succeeds (with_context task message) w a w'
      → Succeeds task w a w'
  with_context_inv {A} task message w w' a e =
      let r =
        with_context-Succeeds (task w).0 message a (ap (λ (p : Option (Result A) × W). p.0) e) in
      λ i. (r i, ap (λ (p : Option (Result A) × W). p.1) e i)

  -- a call with a context
  pub named_call_inv :
      {A : Type 0} (f : W → Result A × W) (message : Text) (w w' : W) (a : A)
      → Succeeds (with_context (call f) message) w a w'
      → f w ≡ (ok a, w')
  named_call_inv f message w w' a e = call_inv f w w' a (with_context_inv (call f) message w w' a e)

  pub >>=_intro :
      {A B : Type 0} (task : Task W A) (next : A → Task W B) (w v w' : W) (a : A) (b : B)
      → Succeeds task w a v
      → Succeeds (next a) v b w'
      → Succeeds (task >>= next) w b w'
  >>=_intro task next w v w' a b first rest = rw first rest

  pub Chain-each :
      {X : Type 0} (f : X → Task W (Unit {0})) (P : X → W → W → Type 0)
      → ((x : X) (w v : W) → P x w v → Succeeds (f x) w tt v)
      → (xs : List X) (w w' : W) → Chain P xs w w'
      → Succeeds (each f xs) w tt w'
  Chain-each f P make [] w w' e = λ i. (some (ok tt), e i)
  Chain-each f P make (x ∷ xs) w w' (v, first, rest) =
      >>=_intro (f x) (λ _. each f xs) w v w' tt tt (make x w v first)
        (Chain-each f P make xs v w' rest)

  -- a call with a context
  pub named_call_intro :
      {A : Type 0} (f : W → Result A × W) (message : Text) (w w' : W) (a : A)
      → f w ≡ (ok a, w')
      → Succeeds (with_context (call f) message) w a w'
  named_call_intro f message w w' a e = rw e refl
