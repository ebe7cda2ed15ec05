-- ===== src/Prelude/Errors.antt =====
-- `anyhow::Result`: an error is the chain of its messages, the outermost context first.
use mathlib.Core.List.{List, [], ◌∷◌}
use mathlib.Core.Option.{Option, none, some}
use mathlib.Core.Bool.{Bool, true, false}
use mathlib.Core.Path.{◌≡◌, refl}
use qemu_test.Prelude.Chars.{Text}

abbrev pub Error : Type 0
Error = List Text

-- `Ok` and `Err`
pub data Result {ℓ} (T : Type ℓ) : Type ℓ where
  ok : T → Result T
  err : Error → Result T

-- `?`
infixl 5 ◌>>=◌
abbrev pub ◌>>=◌ {ℓ κ} : {T : Type ℓ} {U : Type κ} → Result T → (T → Result U) → Result U
ok value >>= next = next value
err chain >>= next = err chain

-- `?` on a `Result<()>`
infixl 5 ◌>>◌
abbrev pub ◌>>◌ {ℓ} : {U : Type ℓ} → Result (Unit {0}) → Result U → Result U
first >> second = first >>= λ done. second

-- `bail!(message)`
abbrev pub bail {ℓ} : {A : Type ℓ} → Text → Result A
bail message = err (message ∷ [])

-- `.context(message)` on a `Result`
abbrev pub context {ℓ} : {A : Type ℓ} → Result A → Text → Result A
context (ok a) message = ok a
context (err e) message = err (message ∷ e)

-- `.context(message)` on an `Option`
abbrev pub option_context {ℓ} : {A : Type ℓ} → Option A → Text → Result A
option_context none message = bail message
option_context (some a) message = ok a

-- `ensure!(test, message)`
abbrev pub ensure : Bool → Text → Result (Unit {0})
ensure true message = ok tt
ensure false message = bail message

-- `format!("{e}")` shows the outermost message only
abbrev pub display : Error → Text
display [] = []
display (m ∷ e) = m

abbrev pub is_ok {ℓ} : {A : Type ℓ} → Result A → Bool
is_ok (ok a) = true
is_ok (err e) = false

pub ensure_inv : (test : Bool) (message : Text) → ensure test message ≡ ok tt → test ≡ true
ensure_inv true message e = refl
ensure_inv false message e = cc

module _ {A : Type 0} where
  pub context_inv : (r : Result A) (message : Text) (a : A) → context r message ≡ ok a → r ≡ ok a
  context_inv (ok x) message a e = e
  context_inv (err x) message a e = cc

  pub option_context_inv :
      (o : Option A) (message : Text) (a : A) → option_context o message ≡ ok a → o ≡ some a
  option_context_inv none message a e = cc
  option_context_inv (some x) message a e = cc
