-- ===== src/Prelude/Members.antt =====
-- Elements of a list, as positions at which the list holds them.
use mathlib.Core.Path.{◌≡◌, refl, ap}
use mathlib.Core.Logic.{◌⊎◌, inl, inr}
use mathlib.Core.List.{List, [], ◌∷◌, ◌++◌, map}
use qemu_test.Prelude.Lists.{Any}

abbrev pub Member : {A : Type 0} → A → List A → Type 0
Member x xs = Any (λ y. x ≡ y) xs

module _ {A : Type 0} where
  pub Member-append : (x : A) (xs ys : List A) → Member x (xs ++ ys) → Member x xs ⊎ Member x ys
  Member-append a [] ys m = inr m
  Member-append a (y ∷ xs) ys (inl e) = inl (inl e)
  Member-append a (y ∷ xs) ys (inr m) = elim (Member-append a xs ys m) [
    | inl l ↦ inl (inr l)
    | inr r ↦ inr r
  ]

  pub Member-left : (x : A) (xs ys : List A) → Member x xs → Member x (xs ++ ys)
  Member-left a [] ys m = elim m [ ]
  Member-left a (y ∷ xs) ys (inl e) = inl e
  Member-left a (y ∷ xs) ys (inr m) = inr (Member-left a xs ys m)

  pub Member-right : (x : A) (xs ys : List A) → Member x ys → Member x (xs ++ ys)
  Member-right a [] ys m = m
  Member-right a (y ∷ xs) ys m = inr (Member-right a xs ys m)

module _ {A B : Type 0} (f : A → B) where
  pub Member-map : (y : B) (xs : List A) → Member y (map f xs) → (x : A) × Member x xs × (y ≡ f x)
  Member-map a [] m = elim m [ ]
  Member-map a (x ∷ xs) (inl e) = (x, inl refl, e)
  Member-map a (x ∷ xs) (inr m) = let (z, mz, e) = Member-map a xs m in (z, inr mz, e)

  pub map-Member : (x : A) (xs : List A) → Member x xs → Member (f x) (map f xs)
  map-Member a [] m = elim m [ ]
  map-Member a (x ∷ xs) (inl e) = inl (ap f e)
  map-Member a (x ∷ xs) (inr m) = inr (map-Member a xs m)
