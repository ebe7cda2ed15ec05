-- ===== src/Macro/Parse/Expanded.antt =====
-- The expansion of `#[test_fn(…)]` by test-macro/src/lib.rs, from the tokens on.
use qemu_test.Prelude.{
  ◌≡◌, refl, sym, ap, ◌∙◌, append-nil, append_assoc, Bool, false, Option, some, none, List, [], ◌∷◌,
  ◌++◌, map, Text, codes, text_eq, is_some, if◌then◌else◌, All, Result, ok, err, ◌>>=◌,
}
use qemu_test.Macro.{ParamSpec, Generated, extract_skip, collect_sets, expand_sets, test_fn}
use qemu_test.Macro.Parse.{
  Syn, Attribute, parse_specs, parse_specs_from_attr, collect_attrs, expand,
}
use qemu_test.Macro.Parse.Written.{
  Documented, Annotation, meaning, IsWritten, written, written-terminated,
}

-- an attribute of the function: another `#[test_fn(…)]`, with whether it ends with a comma, one
-- without parentheses, or one that is none of the macro's
pub data Item (Token Expr : Type 0) : Type 0 where
  stacked : Bool → List (Annotation Expr) → Item Token Expr
  bare : Item Token Expr
  foreign : Attribute Token → Item Token Expr

-- a chain, regrouped
regroup :
    {A B C : Type 0} (r : Result A) (f : A → Result C) (g : A → Result B) (k : B → Result C)
    → ((a : A) → f a ≡ g a >>= k)
    → r >>= f ≡ (r >>= g) >>= k
regroup (ok a) f g k e = e a
regroup (err x) f g k e = refl

module _ {Token Expr : Type 0} where
  -- the parameters of the attributes that are the macro's
  abbrev pub others_of : List (Item Token Expr) → List (List (ParamSpec Expr))
  others_of [] = []
  others_of (stacked trailing annotations ∷ items) = map meaning annotations ∷ others_of items
  others_of (bare ∷ items) = [] ∷ others_of items
  others_of (foreign a ∷ items) = others_of items

  -- the attributes that are not
  abbrev pub foreign_of : List (Item Token Expr) → List (Attribute Token)
  foreign_of [] = []
  foreign_of (stacked trailing annotations ∷ items) = foreign_of items
  foreign_of (bare ∷ items) = foreign_of items
  foreign_of (foreign a ∷ items) = a ∷ foreign_of items

  module _ (s : Syn Token Expr) (d : Documented s) where
    abbrev pub attribute_of : Item Token Expr → Attribute Token
    attribute_of (stacked trailing annotations) = record {
      path = codes "test_fn";
      tokens = some (written s d trailing annotations);
    }
    attribute_of bare = record { path = codes "test_fn"; tokens = none }
    attribute_of (foreign a) = a

    -- the names in the macro's attributes are identifiers and their single values start with no
    -- bracket, and a foreign attribute has another path
    abbrev pub IsItem : Item Token Expr → Type 0
    IsItem (stacked trailing annotations) = All (IsWritten s d) annotations
    IsItem bare = Unit
    IsItem (foreign a) = text_eq a.path (codes "test_fn") ≡ false

    parse_specs-written :
        (trailing : Bool) (annotations : List (Annotation Expr))
        → All (IsWritten s d) annotations
        → parse_specs s (written s d trailing annotations) ≡ ok (map meaning annotations)
    unfolding parse_specs
    parse_specs-written trailing [] plain = refl
    parse_specs-written trailing (a ∷ []) plain =
        rw (written-terminated s d trailing (a ∷ []) plain) refl
    parse_specs-written trailing (a ∷ b ∷ annotations) plain =
        rw (written-terminated s d trailing (a ∷ b ∷ annotations) plain) refl

    collect_attrs-attribute_of :
        (lit_str : Expr → Option Text) (items : List (Item Token Expr))
        → All IsItem items
        → (sets : List (List (ParamSpec Expr))) (skip : Option Text)
          (before : List (Attribute Token))
        → collect_attrs s lit_str sets skip before (map attribute_of items)
          ≡ collect_sets lit_str sets skip (others_of items) >>= λ (sets', skip').
              ok (sets', skip', before ++ foreign_of items)
    unfolding collect_attrs collect_sets parse_specs_from_attr
    collect_attrs-attribute_of lit_str [] items_ok sets skip before =
        ap (λ as'. ok (sets, skip, as')) (sym (append-nil before))
    collect_attrs-attribute_of lit_str (stacked trailing annotations ∷ items) (plain, rest) sets
          skip before =
        rw (written-terminated s d trailing annotations plain) (
          regroup (extract_skip lit_str (map meaning annotations)) _ _ _ λ (specs, sr).
            collect_attrs-attribute_of lit_str items rest (sets ++ specs ∷ [])
              (if is_some sr then sr else skip) before)
    collect_attrs-attribute_of lit_str (bare ∷ items) (plain, rest) sets skip before =
        regroup (extract_skip lit_str []) _ _ _ λ (specs, sr).
          collect_attrs-attribute_of lit_str items rest (sets ++ specs ∷ [])
            (if is_some sr then sr else skip) before
    collect_attrs-attribute_of lit_str (foreign a ∷ items) (f, rest) sets skip before =
        rw (collect_attrs, f)
          (collect_attrs-attribute_of lit_str items rest sets skip (before ++ a ∷ [])
            ∙ ap
                (λ as'. collect_sets lit_str sets skip (others_of items) >>= λ (sets', skip').
                  ok (sets', skip', as'))
                (append_assoc before (a ∷ []) (foreign_of items)))

    -- If the parsers of the crate syn read what is written as documented, then for annotations that
    -- are written as such, with single values, with braces or with brackets, and with or without a
    -- comma at their end, where every name is an identifier and no keyword, and no single value starts
    -- with a brace or a bracket, the macro expands
    -- the tokens as it expands the parameters that are meant, and keeps the attributes that are none
    -- of its own, in order.
    pub expand-written :
        (lit_str : Expr → Option Text) (trailing : Bool) (own : List (Annotation Expr))
        (items : List (Item Token Expr)) (name : Text) (params : List (Text × Text))
        → All (IsWritten s d) own
        → All IsItem items
        → expand s lit_str (written s d trailing own) (map attribute_of items) name params
          ≡ test_fn lit_str (map meaning own) (others_of items) name params >>= λ generated.
              ok (generated, foreign_of items)
    unfolding expand test_fn
    expand-written lit_str trailing own items name params plain items_ok =
        rw (parse_specs-written trailing own plain) (
          regroup (extract_skip lit_str (map meaning own)) _ _ _
            λ (own_specs, skip_reason). collected own_specs skip_reason)
      where
        expanded :
            List (List (ParamSpec Expr)) × Option Text × List (Attribute Token)
            → Result (List (Generated Expr) × List (Attribute Token))
        expanded (sets, skip, others) =
            expand_sets name params skip sets >>= λ generated. ok (generated, others)

        same :
            (r : Result (List (List (ParamSpec Expr)) × Option Text))
            → ((r >>= λ (sets, skip). ok (sets, skip, foreign_of items)) >>= expanded)
              ≡ (r >>= λ (sets, skip). expand_sets name params skip sets) >>= λ generated.
                  ok (generated, foreign_of items)
        same (ok (sets, skip)) = refl
        same (err e) = refl

        collected :
            (own_specs : List (ParamSpec Expr)) (skip_reason : Option Text)
            → (collect_attrs s lit_str (own_specs ∷ []) skip_reason [] (map attribute_of items)
                >>= expanded)
              ≡ (collect_sets lit_str (own_specs ∷ []) skip_reason (others_of items)
                  >>= λ (sets, skip). expand_sets name params skip sets)
                >>= λ generated. ok (generated, foreign_of items)
        collected own_specs skip_reason =
            ap (λ r. r >>= expanded)
              (collect_attrs-attribute_of lit_str items items_ok (own_specs ∷ []) skip_reason [])
            ∙ same (collect_sets lit_str (own_specs ∷ []) skip_reason (others_of items))
