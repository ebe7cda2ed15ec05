-- ===== src/Macro/Expand.antt =====
-- `test_fn` of test-macro/src/lib.rs.
use qemu_test.Prelude.{
  ℕ, zero, suc, ◌+◌, ◌<◌, ◌≡◌, refl, sym, ap, ◌∙◌, ◌⊎◌, inl, inr, true, false, Option, none, List,
  [], ◌∷◌, ◌++◌, map, length, length-append, if◌then◌else◌, Text, codes, concat, All, All-append,
  Member, Result, ok, arith,
}
use mathlib.Core.List.{append_cancel_left}
use qemu_test.Number.{decimal, decimal-injective}
use qemu_test.Macro.{
  ParamSpec, Combo, Generated, combos_of, generate, test_fn, is_single, cartesian_product,
  numbered_test, single_test,
}
use qemu_test.Macro.Product.{Fits, all_choices, length-cartesian_product, cartesian_product_iff}
use qemu_test.Macro.Bindings.{Declared, make_bindings_total}
use qemu_test.Macro.Skip.{
  IsWellFormed, plain_specs, last_reason, skip_of, extract_skip_lem, collect_sets_lem,
}

-- every element but the later ones
abbrev pub Distinct : {A : Type 0} → List A → Type 0
Distinct [] = Unit
Distinct (x ∷ xs) = (¬ Member x xs) × Distinct xs

abbrev pub numbered : Text → ℕ → ℕ → List Text
numbered name i zero = []
numbered name i (suc n) = concat (name ∷ codes "_" ∷ decimal i ∷ []) ∷ numbered name (suc i) n

numbered-fresh :
    (name : Text) (i j n : ℕ)
    → i < j
    → ¬ Member (concat (name ∷ codes "_" ∷ decimal i ∷ [])) (numbered name j n)
numbered-fresh name i j zero h m = elim m [ ]
numbered-fresh name i j (suc n) h (inl e) =
    let p : decimal i ≡ decimal j =
      cc (append_cancel_left name (codes "_" ++ decimal i) (codes "_" ++ decimal j) e) in
    absurd (omega (arith, decimal-injective i j p))
numbered-fresh name i j (suc n) h (inr m) = numbered-fresh name i (suc j) n (omega arith) m

numbered-Distinct : (name : Text) (i n : ℕ) → Distinct (numbered name i n)
numbered-Distinct name i zero = tt
numbered-Distinct name i (suc n) =
    (numbered-fresh name i (suc i) n (omega arith), numbered-Distinct name (suc i) n)

module _ {Expr : Type 0} where
  -- `params` all have a value in every set of annotations
  abbrev pub AllDeclared : List (Text × Text) → List (ParamSpec Expr) → Type 0
  AllDeclared params specs = All (λ (p : Text × Text). Declared p.0 specs) params

  abbrev Bindable : List (Text × Text) → Combo Expr → Type 0
  Bindable params combo =
      (specs : List (ParamSpec Expr)) × AllDeclared params specs × Fits specs combo

  -- the number of combinations of all annotations
  abbrev pub sum_choices : List (List (ParamSpec Expr)) → ℕ
  sum_choices [] = 0
  sum_choices (set ∷ sets) = all_choices set + sum_choices sets

  combos_of-cons :
      (set : List (ParamSpec Expr)) (sets : List (List (ParamSpec Expr)))
      → combos_of (set ∷ sets) ≡ cartesian_product set ++ combos_of sets
  unfolding combos_of cartesian_product
  combos_of-cons [] sets = refl
  combos_of-cons (spec ∷ specs) sets = refl

  length-combos_of :
      (sets : List (List (ParamSpec Expr))) → length (combos_of sets) ≡ sum_choices sets
  length-combos_of [] = unfold combos_of in refl
  length-combos_of (set ∷ sets) = rw combos_of-cons (
      omega (
        arith,
        length-append (cartesian_product set) (combos_of sets),
        length-cartesian_product set,
        length-combos_of sets,
      ))

  Member-All :
      (P : Combo Expr → Type 0) (cs : List (Combo Expr))
      → ((c : Combo Expr) → Member c cs → P c)
      → All P cs
  Member-All P [] h = tt
  Member-All P (c ∷ cs) h = (h c (inl refl), Member-All P cs (λ d m. h d (inr m)))

  combos_of-Bindable :
      (params : List (Text × Text)) (sets : List (List (ParamSpec Expr)))
      → All (AllDeclared params) sets
      → All (Bindable params) (combos_of sets)
  combos_of-Bindable params [] h = unfold combos_of in tt
  combos_of-Bindable params (set ∷ sets) (h, hs) = rw combos_of-cons (
      All-append (Bindable params) (cartesian_product set) (combos_of sets)
        (Member-All (Bindable params) (cartesian_product set)
          (λ c m. (set, h, (cartesian_product_iff set c).0 m)))
        (combos_of-Bindable params sets hs))

  -- what is said of the generated tests
  abbrev pub IsExpansion : Text → Option Text → ℕ → List Text → List (Generated Expr) → Type 0
  IsExpansion name skip count names gs =
      (length gs ≡ count)
      × (map (λ (g : Generated Expr). g.fn_name) gs ≡ names)
      × All (λ (g : Generated Expr). (g.entry_name ≡ name) × (g.skip ≡ skip)) gs

  generate_total :
      (name : Text) (params : List (Text × Text)) (skip : Option Text) (i : ℕ)
      (combos : List (Combo Expr))
      → All (Bindable params) combos
      → (gs : List (Generated Expr)) × (generate name params skip i combos ≡ ok gs)
        × IsExpansion name skip (length combos) (numbered name i (length combos)) gs
  unfolding generate numbered_test
  generate_total name params skip i [] h = ([], refl, (refl, refl, tt))
  generate_total name params skip i (c ∷ cs) ((specs, d, f), hs) =
      let (bs, eb, nb) = make_bindings_total params specs c d f in
      let (gs, e, x) = generate_total name params skip (suc i) cs hs in
      (
        numbered_test name skip i bs c ∷ gs,
        rw (eb, e),
        (
          ap suc x.0,
          ap (λ r. concat (name ∷ codes "_" ∷ decimal i ∷ []) ∷ r) x.1,
          ((refl, refl), x.2),
        ),
      )

  single_or :
      (cs : List (Combo Expr)) → (is_single cs ≡ false) ⊎ ((is_single cs ≡ true) × (length cs ≡ 1))
  single_or [] = inl refl
  single_or ([] ∷ []) = inr (refl, refl)
  single_or ([] ∷ d ∷ cs) = inl refl
  single_or ((p ∷ c) ∷ cs) = inl refl

  abbrev Expanded : Text → Option Text → ℕ → Result (List (Generated Expr)) → Type 0
  Expanded name skip count r =
      (gs : List (Generated Expr)) × (r ≡ ok gs)
      × (length gs ≡ count)
      × Distinct (map (λ (g : Generated Expr). g.fn_name) gs)
      × All (λ (g : Generated Expr). (g.entry_name ≡ name) × (g.skip ≡ skip)) gs

  expand_combos :
      (name : Text) (params : List (Text × Text)) (skip : Option Text) (combos : List (Combo Expr))
      → All (Bindable params) combos
      → Expanded name skip (length combos) (
          if is_single combos
          then ok (single_test name skip ∷ [])
          else generate name params skip 0 combos)
  unfolding single_test
  expand_combos name params skip combos h = elim (single_or combos) [
    | inl e ↦
        let (gs, eg, x) = generate_total name params skip 0 combos h in
        (gs, rw e eg, x.0, rw x.1 (numbered-Distinct name 0 (length combos)), x.2)
    | inr (e, one) ↦
        (single_test name skip ∷ [], rw e, sym one, ((λ m. elim m [ ]), tt), ((refl, refl), tt))
  ]

module _ {Expr : Type 0} (lit_str : Expr → Option Text) where
  -- If every `skip` is a string literal and every annotation gives every parameter of the function
  -- a value, the expansion panics nowhere. It has as many tests as the annotations have combinations
  -- in all, an optional parameter having one choice more than it has values; their functions have
  -- different names; and each is registered under the function's name, with the last skip reason.
  pub test_fn_total :
      (own : List (ParamSpec Expr)) (others : List (List (ParamSpec Expr))) (name : Text)
      (params : List (Text × Text))
      → All (All (IsWellFormed lit_str)) (own ∷ others)
      → All (AllDeclared params) (map (plain_specs lit_str) (own ∷ others))
      → (gs : List (Generated Expr)) × (test_fn lit_str own others name params ≡ ok gs)
        × (length gs ≡ sum_choices (map (plain_specs lit_str) (own ∷ others)))
        × Distinct (map (λ (g : Generated Expr). g.fn_name) gs)
        × All
            (λ (g : Generated Expr).
              (g.entry_name ≡ name)
              × (g.skip ≡ skip_of lit_str (last_reason lit_str none own) others))
            gs
  unfolding test_fn
  test_fn_total own others name params (w, ws) d =
      let sets = map (plain_specs lit_str) (own ∷ others) in
      let skip = skip_of lit_str (last_reason lit_str none own) others in
      let (gs, e, n, distinct, every) =
        expand_combos name params skip (combos_of sets) (combos_of-Bindable params sets d) in
      (
        gs,
        rw
            (
              extract_skip_lem lit_str own w,
              collect_sets_lem lit_str (plain_specs lit_str own ∷ []) (last_reason lit_str none own)
                  others ws,
            )
            e,
        n ∙ length-combos_of sets,
        distinct,
        every,
      )
