-- ===== src/Macro/Product.antt =====
-- `cartesian_product` of test-macro/src/lib.rs.
use qemu_test.Prelude.{
  ℕ, ◌+◌, ◌*◌, ◌≡◌, refl, sym, ap, ◌∙◌, ◌↔◌, inl, inr, Bool, true, false, Bool-cases, Option, none,
  some, List, [], ◌∷◌, ◌++◌, append_assoc, append-nil, length, length-append, length-map,
  if◌then◌else◌, Member, Member-append, Member-left, Member-right, Member-map, map-Member, arith,
}
use qemu_test.Macro.{ParamSpec, Param, Combo, extend, extend_all, product_from, cartesian_product}

module _ {Expr : Type 0} where
  -- the ways to choose a value for a parameter; an optional one can also be left out
  abbrev pub choices : ParamSpec Expr → ℕ
  choices spec = (if spec.optional then 1 else 0) + length spec.values

  abbrev pub all_choices : List (ParamSpec Expr) → ℕ
  all_choices [] = 1
  all_choices (spec ∷ specs) = choices spec * all_choices specs

  length-extend :
      (spec : ParamSpec Expr) (combo : Combo Expr) → length (extend spec combo) ≡ choices spec
  unfolding extend
  length-extend spec combo =
      let values =
        length-map (λ value. combo ++ (spec.name, some value, spec.optional) ∷ []) spec.values in
      elim (Bool-cases spec.optional) [
        | inl e ↦ ground (arith, values)
        | inr e ↦ ground (arith, values)
      ]

  length-extend_all :
      (spec : ParamSpec Expr) (result : List (Combo Expr))
      → length (extend_all spec result) ≡ length result * choices spec
  unfolding extend_all
  length-extend_all spec [] = omega arith
  length-extend_all spec (combo ∷ result) = omega (
    arith,
    length-append (extend spec combo) (extend_all spec result),
    length-extend spec combo,
    length-extend_all spec result,
  )

  length-product_from :
      (result : List (Combo Expr)) (specs : List (ParamSpec Expr))
      → length (product_from result specs) ≡ length result * all_choices specs
  unfolding product_from
  length-product_from result [] = omega arith
  length-product_from result (spec ∷ specs) =
      length-product_from (extend_all spec result) specs
      ∙ rw (length-extend_all spec result) (omega arith)

  -- There are as many combinations as the product of the numbers of choices.
  pub length-cartesian_product :
      (specs : List (ParamSpec Expr)) → length (cartesian_product specs) ≡ all_choices specs
  unfolding cartesian_product
  length-cartesian_product specs = length-product_from ([] ∷ []) specs ∙ omega arith

  -- a value of a parameter, or none if it is optional
  abbrev pub Chosen : ParamSpec Expr → Option Expr → Type 0
  Chosen spec none = spec.optional ≡ true
  Chosen spec (some value) = Member value spec.values

  abbrev pub FitsOne : ParamSpec Expr → Param Expr → Type 0
  FitsOne spec (name, value, optional) =
      (name ≡ spec.name) × (optional ≡ spec.optional) × Chosen spec value

  -- one choice for each spec, in the order of the specs
  abbrev pub Fits : List (ParamSpec Expr) → Combo Expr → Type 0
  Fits [] [] = Unit
  Fits (spec ∷ specs) (p ∷ combo) = FitsOne spec p × Fits specs combo
  Fits _ _ = ⊥

  only_if :
      (b : Bool) (c d : Combo Expr) → Member c (if b then d ∷ [] else []) → (b ≡ true) × (c ≡ d)
  only_if true c d (inl e) = (refl, e)
  only_if true c d (inr m) = elim m [ ]
  only_if false c d m = elim m [ ]

  extend_sound :
      (spec : ParamSpec Expr) (combo c : Combo Expr)
      → Member c (extend spec combo)
      → (p : Param Expr) × (c ≡ combo ++ p ∷ []) × FitsOne spec p
  unfolding extend
  extend_sound spec combo c m =
      let none_combo = combo ++ (spec.name, none, true) ∷ [] in
      elim (Member-append c (if spec.optional then none_combo ∷ [] else []) _ m) [
        | inl l ↦
            let (o, e) = only_if spec.optional c none_combo l in
            ((spec.name, none, true), e, (refl, sym o, o))
        | inr r ↦
            let (v, mv, e) =
              Member-map (λ value. combo ++ (spec.name, some value, spec.optional) ∷ []) c
                spec.values r in
            ((spec.name, some v, spec.optional), e, (refl, refl, mv))
      ]

  extend_complete :
      (spec : ParamSpec Expr) (combo : Combo Expr) (p : Param Expr)
      → FitsOne spec p
      → Member (combo ++ p ∷ []) (extend spec combo)
  unfolding extend
  extend_complete spec combo (name, none, optional) (n, o, h) = rw h (inl (cc (n, o, h)))
  extend_complete spec combo (name, some value, optional) (n, o, h) =
      rw (n, o)
        (Member-right _ (if spec.optional then (combo ++ (spec.name, none, true) ∷ []) ∷ [] else [])
          _
          (map-Member (λ v. combo ++ (spec.name, some v, spec.optional) ∷ []) value spec.values h))

  extend_all_sound :
      (spec : ParamSpec Expr) (result : List (Combo Expr)) (c : Combo Expr)
      → Member c (extend_all spec result)
      → (b : Combo Expr) × Member b result × Member c (extend spec b)
  unfolding extend_all
  extend_all_sound spec [] c m = elim m [ ]
  extend_all_sound spec (b ∷ result) c m =
      elim (Member-append c (extend spec b) (extend_all spec result) m) [
        | inl l ↦ (b, inl refl, l)
        | inr r ↦ let (d, md, e) = extend_all_sound spec result c r in (d, inr md, e)
      ]

  extend_all_complete :
      (spec : ParamSpec Expr) (result : List (Combo Expr)) (b c : Combo Expr)
      → Member b result
      → Member c (extend spec b)
      → Member c (extend_all spec result)
  unfolding extend_all
  extend_all_complete spec [] b c m h = elim m [ ]
  extend_all_complete spec (d ∷ result) b c (inl e) h =
      Member-left c (extend spec d) (extend_all spec result) (rw e at h)
  extend_all_complete spec (d ∷ result) b c (inr m) h =
      Member-right c (extend spec d) (extend_all spec result)
        (extend_all_complete spec result b c m h)

  product_from_sound :
      (result : List (Combo Expr)) (specs : List (ParamSpec Expr)) (c : Combo Expr)
      → Member c (product_from result specs)
      → (b rest : Combo Expr) × (c ≡ b ++ rest) × Member b result × Fits specs rest
  unfolding product_from
  product_from_sound result [] c m = (c, [], sym (append-nil c), m, tt)
  product_from_sound result (spec ∷ specs) c m =
      let (b', rest, e, mb', fits) = product_from_sound (extend_all spec result) specs c m in
      let (b, mb, mx) = extend_all_sound spec result b' mb' in
      let (p, e', one) = extend_sound spec b b' mx in
      (b, p ∷ rest, e ∙ (ap (λ t. t ++ rest) e' ∙ append_assoc b (p ∷ []) rest), mb, (one, fits))

  product_from_complete :
      (result : List (Combo Expr)) (specs : List (ParamSpec Expr)) (b rest : Combo Expr)
      → Member b result
      → Fits specs rest
      → Member (b ++ rest) (product_from result specs)
  unfolding product_from
  product_from_complete result [] b [] m fits = rw append-nil m
  product_from_complete result [] b (p ∷ rest) m fits = elim fits [ ]
  product_from_complete result (spec ∷ specs) b [] m fits = elim fits [ ]
  product_from_complete result (spec ∷ specs) b (p ∷ rest) m (one, fits) =
      rw (append_assoc b (p ∷ []) rest) at (
        product_from_complete (extend_all spec result) specs (b ++ p ∷ []) rest
          (extend_all_complete spec result b (b ++ p ∷ []) m (extend_complete spec b p one)) fits)

  only_nil : (b : Combo Expr) → Member b ([] ∷ []) → b ≡ []
  only_nil b (inl e) = e
  only_nil b (inr m) = elim m [ ]

  -- The combinations are exactly the lists with one choice for each spec, in the order of the specs.
  pub cartesian_product_iff :
      (specs : List (ParamSpec Expr)) (c : Combo Expr)
      → Member c (cartesian_product specs) ↔ Fits specs c
  unfolding cartesian_product
  cartesian_product_iff specs c = (forth, product_from_complete ([] ∷ []) specs [] c (inl refl))
    where
      forth : Member c (product_from ([] ∷ []) specs) → Fits specs c
      forth m =
          let (b, rest, e, mb, fits) = product_from_sound ([] ∷ []) specs c m in
          let b_nil : b ≡ [] = only_nil b mb in rw (e, b_nil) fits
