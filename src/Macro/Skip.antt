-- ===== src/Macro/Skip.antt =====
-- `extract_skip` of test-macro/src/lib.rs, on one annotation and on all of a function.
use qemu_test.Prelude.{
  ◌≡◌, ap, ◌∙◌, inl, inr, Bool, true, not, Bool-cases, Option, none, some, List, [], ◌∷◌, ◌++◌, map,
  append_assoc, append-nil, if◌then◌else◌, keep, is_some, Text, codes, text_eq, All, ok,
}
use qemu_test.Macro.{ParamSpec, skip_value, extract_from, extract_skip, collect_sets}

module _ {Expr : Type 0} (lit_str : Expr → Option Text) where
  abbrev pub is_skip : ParamSpec Expr → Bool
  is_skip spec = text_eq spec.name (codes "skip")

  -- the string that a `skip` parameter has first
  abbrev pub reason : List Expr → Option Text
  reason [] = none
  reason (v ∷ vs) = lit_str v

  -- a `skip` parameter is a string literal
  abbrev pub IsWellFormed : ParamSpec Expr → Type 0
  IsWellFormed spec = is_skip spec ≡ true → (r : Text) × (reason spec.values ≡ some r)

  abbrev pub plain_specs : List (ParamSpec Expr) → List (ParamSpec Expr)
  plain_specs specs = keep (λ s. not (is_skip s)) specs

  -- the reason of the last `skip` parameter
  abbrev pub last_reason : Option Text → List (ParamSpec Expr) → Option Text
  last_reason acc [] = acc
  last_reason acc (spec ∷ specs) =
      last_reason (if is_skip spec then reason spec.values else acc) specs

  skip_value_lem : (vs : List Expr) (r : Text) → reason vs ≡ some r → skip_value lit_str vs ≡ ok r
  unfolding skip_value
  skip_value_lem [] r h = cc
  skip_value_lem (v ∷ vs) r h = rw (h, skip_value)

  extract_from_lem :
      (remaining : List (ParamSpec Expr)) (acc : Option Text) (specs : List (ParamSpec Expr))
      → All IsWellFormed specs
      → extract_from lit_str remaining acc specs
        ≡ ok (remaining ++ plain_specs specs, last_reason acc specs)
  unfolding extract_from
  extract_from_lem remaining acc [] h = rw append-nil
  extract_from_lem remaining acc (spec ∷ specs) (h, hs) = elim (Bool-cases (is_skip spec)) [
    | inl e ↦
        let (r, er) = h e in
        rw (e, skip_value_lem spec.values r er, er, extract_from)
          (extract_from_lem remaining (some r) specs hs)
    | inr e ↦
        rw (e, extract_from)
          (extract_from_lem (remaining ++ spec ∷ []) acc specs hs
            ∙ ap (λ t. ok (t, last_reason acc specs))
                (append_assoc remaining (spec ∷ []) (plain_specs specs)))
  ]

  -- If every `skip` is a string literal, the parameters with that name are taken out, the others stay
  -- in order, and the reason is that of the last one.
  pub extract_skip_lem :
      (specs : List (ParamSpec Expr))
      → All IsWellFormed specs
      → extract_skip lit_str specs ≡ ok (plain_specs specs, last_reason none specs)
  unfolding extract_skip
  extract_skip_lem specs h = extract_from_lem [] none specs h

  -- a later annotation's reason wins over an earlier one's
  abbrev pub skip_of : Option Text → List (List (ParamSpec Expr)) → Option Text
  skip_of acc [] = acc
  skip_of acc (attr ∷ attrs) =
      skip_of (let sr = last_reason none attr in if is_some sr then sr else acc) attrs

  pub collect_sets_lem :
      (sets : List (List (ParamSpec Expr))) (acc : Option Text)
      (attrs : List (List (ParamSpec Expr)))
      → All (All IsWellFormed) attrs
      → collect_sets lit_str sets acc attrs ≡ ok (sets ++ map plain_specs attrs, skip_of acc attrs)
  unfolding collect_sets
  collect_sets_lem sets acc [] h = rw append-nil
  collect_sets_lem sets acc (attr ∷ attrs) (h, hs) =
      let next = if is_some (last_reason none attr) then last_reason none attr else acc in
      rw (extract_skip_lem attr h, collect_sets)
        (collect_sets_lem (sets ++ plain_specs attr ∷ []) next attrs hs
          ∙ ap (λ t. ok (t, skip_of next attrs))
              (append_assoc sets (plain_specs attr ∷ []) (map plain_specs attrs)))
