-- ===== src/Macro.antt =====
-- test-macro/src/lib.rs: the expansion of `#[test_fn(…)]`. `Expr` is `syn`'s type of expressions, and
-- `lit_str` the value of one that is a string literal; a `panic!` is an error. Here an attribute comes
-- as its parameters; Macro/Parse reads them from its tokens.
pub mod Product
pub mod Bindings
pub mod Skip
pub mod Expand
pub mod Parse
mod Tests
use qemu_test.Prelude.{
  ℕ, zero, suc, ◌+◌, ◌-◌, leb, Bool, true, false, ◌&&◌, not, Option, none, some, List, [], ◌∷◌,
  ◌++◌, map, Text, codes, text_eq, concat, is_some, is_none, is_empty, keep, if◌then◌else◌, Result,
  ok, err, bail, ◌>>=◌,
}
use qemu_test.Number.{decimal}

module _ (Expr : Type 0) where
  pub record ParamSpec : Type 0 where
    pub name : Text
    pub values : List Expr
    pub optional : Bool

  -- one parameter of a combination: its name, its value and whether it is optional
  abbrev pub Param : Type 0
  Param = Text × Option Expr × Bool

  abbrev pub Combo : Type 0
  Combo = List Param

module _ {Expr : Type 0} where
  -- the combinations that a combination is extended to
  unfoldable pub extend : ParamSpec Expr → Combo Expr → List (Combo Expr)
  extend spec combo =
      (if spec.optional then (combo ++ (spec.name, none, true) ∷ []) ∷ [] else [])
      ++ map (λ value. combo ++ (spec.name, some value, spec.optional) ∷ []) spec.values

  unfoldable pub extend_all : ParamSpec Expr → List (Combo Expr) → List (Combo Expr)
  unfolding extend
  extend_all spec [] = []
  extend_all spec (combo ∷ result) = extend spec combo ++ extend_all spec result

  -- the loop of `cartesian_product`
  unfoldable pub product_from : List (Combo Expr) → List (ParamSpec Expr) → List (Combo Expr)
  unfolding extend_all
  product_from result [] = result
  product_from result (spec ∷ specs) = product_from (extend_all spec result) specs

  unfoldable pub cartesian_product : List (ParamSpec Expr) → List (Combo Expr)
  unfolding product_from
  cartesian_product specs = product_from ([] ∷ []) specs

  -- the value of the first spec that is named `skip`, as a string literal
  unfoldable pub skip_value : (Expr → Option Text) → List Expr → Result Text
  skip_value lit_str [] = bail (codes "skip value must be a string literal")
  skip_value lit_str (v ∷ vs) = elim (lit_str v) [
    | none ↦ bail (codes "skip value must be a string literal")
    | some s ↦ ok s
  ]

  -- the loop of `extract_skip`
  unfoldable pub extract_from :
      (Expr → Option Text)
      → List (ParamSpec Expr)
      → Option Text
      → List (ParamSpec Expr)
      → Result (List (ParamSpec Expr) × Option Text)
  extract_from lit_str remaining skip_reason [] = ok (remaining, skip_reason)
  extract_from lit_str remaining skip_reason (spec ∷ specs) =
      elim (text_eq spec.name (codes "skip")) [
        | true ↦
            skip_value lit_str spec.values >>= λ s. extract_from lit_str remaining (some s) specs
        | false ↦ extract_from lit_str (remaining ++ spec ∷ []) skip_reason specs
      ]

  unfoldable pub extract_skip :
      (Expr → Option Text) → List (ParamSpec Expr) → Result (List (ParamSpec Expr) × Option Text)
  unfolding extract_from
  extract_skip lit_str specs = extract_from lit_str [] none specs

-- the right side of `let #param_name: #param_type = …;`
pub data Bound (Expr : Type 0) : Type 0 where
  plain : Expr → Bound Expr
  wrapped : Expr → Bound Expr
  absent : Bound Expr

module _ {Expr : Type 0} where
  -- `combo.iter().find(|(name, _, _)| name == param_name)`
  unfoldable pub find : Text → Combo Expr → Option (Option Expr × Bool)
  find param_name [] = none
  find param_name ((name, value, optional) ∷ combo) =
      if text_eq name param_name then some (value, optional) else find param_name combo

  -- `if *optional { … } else { value.as_ref().unwrap() }`
  unfoldable pub bound_of : Option Expr → Bool → Result (Bound Expr)
  bound_of (some expr) true = ok (wrapped expr)
  bound_of none true = ok absent
  bound_of (some expr) false = ok (plain expr)
  bound_of none false = bail (codes "called `Option::unwrap()` on a `None` value")

  -- the parameters of the function, names and types, in order
  unfoldable pub make_bindings :
      List (Text × Text) → Combo Expr → Result (List (Text × Text × Bound Expr))
  make_bindings [] combo = ok []
  make_bindings ((param_name, param_type) ∷ params) combo = elim (find param_name combo) [
    | none ↦
        bail
          (concat (codes "missing attribute value for parameter `" ∷ param_name ∷ codes "`" ∷ []))
    | some (value, optional) ↦ do
      bound ← bound_of value optional
      bindings ← make_bindings params combo
      ok ((param_name, param_type, bound) ∷ bindings)
  ]

  abbrev pub is_visible : Param Expr → Bool
  is_visible (name, value, optional) = not (optional && is_none value)

  -- `make_props_code`: the keys, each with whether its value is unwrapped
  unfoldable pub make_props_code : Combo Expr → List (Text × Bool)
  make_props_code combo = map (λ p. (p.0, p.2)) (keep is_visible combo)

-- what is generated for one combination: a test function, a function for its properties and the
-- entry that registers both
pub record Generated (Expr : Type 0) : Type 0 where
  pub fn_name : Text
  pub props_fn : Text
  pub static_name : Text
  pub bindings : List (Text × Text × Bound Expr)
  pub props : List (Text × Bool)
  pub entry_name : Text
  pub skip : Option Text

-- `str::to_uppercase`, for the ASCII letters
abbrev pub to_uppercase : Text → Text
to_uppercase s = map (λ c. if leb b'a' c && leb c b'z' then c - 32 else c) s

module _ {Expr : Type 0} where
  -- `all_combos.extend(…)`, an annotation without parameters being one empty combination
  unfoldable pub combos_of : List (List (ParamSpec Expr)) → List (Combo Expr)
  combos_of [] = []
  combos_of ([] ∷ sets) = [] ∷ combos_of sets
  combos_of ((spec ∷ specs) ∷ sets) = cartesian_product (spec ∷ specs) ++ combos_of sets

  -- the loop over the other annotations: their parameters, and the last skip reason
  unfoldable pub collect_sets :
      (Expr → Option Text)
      → List (List (ParamSpec Expr))
      → Option Text
      → List (List (ParamSpec Expr))
      → Result (List (List (ParamSpec Expr)) × Option Text)
  collect_sets lit_str sets skip [] = ok (sets, skip)
  collect_sets lit_str sets skip (attr ∷ attrs) = do
    (specs, sr) ← extract_skip lit_str attr
    collect_sets lit_str (sets ++ specs ∷ []) (if is_some sr then sr else skip) attrs

  -- the functions and the entry of one numbered combination
  unfoldable pub numbered_test :
      Text → Option Text → ℕ → List (Text × Text × Bound Expr) → Combo Expr → Generated Expr
  numbered_test name skip i bindings combo = record {
    fn_name = concat (name ∷ codes "_" ∷ decimal i ∷ []);
    props_fn = concat (name ∷ codes "_" ∷ decimal i ∷ codes "_props" ∷ []);
    static_name = concat (codes "_" ∷ to_uppercase name ∷ codes "_" ∷ decimal i ∷ []);
    bindings = bindings;
    props = make_props_code combo;
    entry_name = name;
    skip = skip;
  }

  -- the loop that numbers the functions
  unfoldable pub generate :
      Text
      → List (Text × Text)
      → Option Text
      → ℕ
      → List (Combo Expr)
      → Result (List (Generated Expr))
  generate name params skip i [] = ok []
  generate name params skip i (combo ∷ combos) = do
    bindings ← make_bindings params combo
    rest ← generate name params skip (suc i) combos
    ok (numbered_test name skip i bindings combo ∷ rest)

  -- the test without parameters
  unfoldable pub single_test : Text → Option Text → Generated Expr
  single_test name skip = record {
    fn_name = name;
    props_fn = concat (name ∷ codes "_props" ∷ []);
    static_name = codes "_" ++ to_uppercase name;
    bindings = [];
    props = [];
    entry_name = name;
    skip = skip;
  }

  -- `all_combos.len() == 1 && all_combos[0].is_empty()`
  abbrev pub is_single : List (Combo Expr) → Bool
  is_single ([] ∷ []) = true
  is_single _ = false

  -- the expansion of all sets of parameters
  abbrev pub expand_sets :
      Text
      → List (Text × Text)
      → Option Text
      → List (List (ParamSpec Expr))
      → Result (List (Generated Expr))
  expand_sets name params skip sets =
      let all_combos = combos_of sets in
      if is_single all_combos
      then ok (single_test name skip ∷ [])
      else generate name params skip 0 all_combos

  -- `test_fn` on its own annotation, the others on the same function, the function's name and its
  -- parameters
  unfoldable pub test_fn :
      (Expr → Option Text)
      → List (ParamSpec Expr)
      → List (List (ParamSpec Expr))
      → Text
      → List (Text × Text)
      → Result (List (Generated Expr))
  test_fn lit_str own others name params = do
    (own_specs, skip_reason) ← extract_skip lit_str own
    (sets, skip) ← collect_sets lit_str (own_specs ∷ []) skip_reason others
    expand_sets name params skip sets
