-- ===== src/Macro/Bindings.antt =====
-- `make_bindings` and `make_props_code` of test-macro/src/lib.rs.
use qemu_test.Prelude.{
  ◌≡◌, refl, ap, ◌∙◌, inl, inr, Bool, true, false, Bool-cases, Option, none, some, List, [], ◌∷◌,
  map, Text, text_eq, text_eq_iff, Any, All, ok, keep,
}
use qemu_test.Macro.{
  ParamSpec, Param, Combo, Bound, plain, wrapped, absent, find, bound_of, make_bindings, is_visible,
}
use qemu_test.Macro.Product.{Fits, FitsOne}

module _ {Expr : Type 0} where
  -- the annotation gives a value for a parameter of the function
  abbrev pub Declared : Text → List (ParamSpec Expr) → Type 0
  Declared n specs = Any (λ (s : ParamSpec Expr). s.name ≡ n) specs

  -- what a chosen value is bound as
  abbrev Bindable : Text → Combo Expr → Type 0
  Bindable n combo =
      (v : Option Expr) × (o : Bool) × (b : Bound Expr) × (find n combo ≡ some (v, o))
      × (bound_of v o ≡ ok b)

  bound_of-FitsOne :
      (spec : ParamSpec Expr) (n : Text) (v : Option Expr) (o : Bool)
      → FitsOne spec (n, v, o)
      → (b : Bound Expr) × (bound_of v o ≡ ok b)
  unfolding bound_of
  bound_of-FitsOne spec n none o (e, eo, h) = (absent, rw (eo, h))
  bound_of-FitsOne spec n (some x) true h = (wrapped x, refl)
  bound_of-FitsOne spec n (some x) false h = (plain x, refl)

  find-Fits :
      (n : Text) (specs : List (ParamSpec Expr)) (combo : Combo Expr)
      → Declared n specs
      → Fits specs combo
      → Bindable n combo
  unfolding find
  find-Fits n [] combo d f = elim d [ ]
  find-Fits n (spec ∷ specs) [] d f = elim f [ ]
  find-Fits n (spec ∷ specs) ((m, v, o) ∷ combo) (inl h) (one, f) =
      let (b, eb) = bound_of-FitsOne spec m v o one in
      (v, o, b, rw ((text_eq_iff m n).1 (one.0 ∙ h)), eb)
  find-Fits n (spec ∷ specs) ((m, v, o) ∷ combo) (inr h) (one, f) =
      elim (Bool-cases (text_eq m n)) [
        | inl e ↦ let (b, eb) = bound_of-FitsOne spec m v o one in (v, o, b, rw e, eb)
        | inr e ↦ rw e (find-Fits n specs combo h f)
      ]

  make_bindings_step :
      (n t : Text) (params : List (Text × Text)) (combo : Combo Expr) (v : Option Expr) (o : Bool)
      (b : Bound Expr) (bs : List (Text × Text × Bound Expr))
      → find n combo ≡ some (v, o)
      → bound_of v o ≡ ok b
      → make_bindings params combo ≡ ok bs
      → make_bindings ((n, t) ∷ params) combo ≡ ok ((n, t, b) ∷ bs)
  unfolding make_bindings
  make_bindings_step n t params combo v o b bs ef eb e = rw (ef, eb, e, make_bindings)

  -- For each combination that `cartesian_product` builds, and parameters that all have a value in
  -- the annotation, the bindings are made: one for each parameter, in order and with its type.
  pub make_bindings_total :
      (params : List (Text × Text)) (specs : List (ParamSpec Expr)) (combo : Combo Expr)
      → All (λ (p : Text × Text). Declared p.0 specs) params
      → Fits specs combo
      → (bs : List (Text × Text × Bound Expr)) × (make_bindings params combo ≡ ok bs)
        × (map (λ b. (b.0, b.1)) bs ≡ params)
  unfolding make_bindings
  make_bindings_total [] specs combo d f = ([], refl, refl)
  make_bindings_total ((n, t) ∷ params) specs combo (d, ds) f =
      let (v, o, b, ef, eb) = find-Fits n specs combo d f in
      let (bs, e, names) = make_bindings_total params specs combo ds f in
      (
        (n, t, b) ∷ bs,
        make_bindings_step n t params combo v o b bs ef eb e,
        ap (λ r. (n, t) ∷ r) names,
      )

  -- In each combination that fits its annotation, the parameters that are shown as properties have
  -- values.
  pub visible_unwraps :
      (specs : List (ParamSpec Expr)) (combo : Combo Expr)
      → Fits specs combo
      → All (λ (p : Param Expr). (x : Expr) × (p.1 ≡ some x)) (keep is_visible combo)
  visible_unwraps [] [] f = tt
  visible_unwraps [] (p ∷ combo) f = elim f [ ]
  visible_unwraps (s ∷ specs) [] f = elim f [ ]
  visible_unwraps (s ∷ specs) ((n, some x, true) ∷ combo) (one, f) =
      ((x, refl), visible_unwraps specs combo f)
  visible_unwraps (s ∷ specs) ((n, some x, false) ∷ combo) (one, f) =
      ((x, refl), visible_unwraps specs combo f)
  visible_unwraps (s ∷ specs) ((n, none, true) ∷ combo) (one, f) = visible_unwraps specs combo f
  visible_unwraps (s ∷ specs) ((n, none, false) ∷ combo) (one, f) = absurd (cc (one.1, one.2))
