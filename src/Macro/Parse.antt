-- ===== src/Macro/Parse.antt =====
-- test-macro/src/lib.rs: the parsing of `#[test_fn(…)]`. The tokens, and the parsers of the crate syn
-- that the macro puts together, are parameters.
pub mod Written
pub mod Expanded
mod Sample
mod Tests
use qemu_test.Prelude.{
  Bool, true, false, Option, none, some, List, [], ◌∷◌, ◌++◌, Text, codes, text_eq, is_some,
  if◌then◌else◌, Result, ok, err, context, ◌>>=◌,
}
use qemu_test.Macro.{ParamSpec, Generated, extract_skip, expand_sets}

-- a parser of the crate syn: what it read from the stream, and the tokens behind it
abbrev pub Parser : Type 0 → Type 0 → Type 0
Parser Token A = List Token → Result (A × List Token)

-- the parsers of the crate syn
pub record Syn (Token Expr : Type 0) : Type 1 where
  -- `input.parse::<Ident>()`, `input.parse::<Token![=]>()` and `input.parse::<Expr>()`
  pub parse_ident : Parser Token Text
  pub parse_eq : Parser Token (Unit {0})
  pub parse_expr : Parser Token Expr
  -- where `peek` sees the bracket: the tokens inside, and those behind it
  pub braced : List Token → Option (List Token × List Token)
  pub bracketed : List Token → Option (List Token × List Token)
  -- `Punctuated::<T, Token![,]>::parse_terminated`, of all tokens
  pub parse_terminated : {A : Type 0} → Parser Token A → List Token → Result (List A)

-- an attribute of a function: its path, and its tokens if it is a list
pub record Attribute (Token : Type 0) : Type 0 where
  pub path : Text
  pub tokens : Option (List Token)

module _ {Token Expr : Type 0} (s : Syn Token Expr) where
  -- the values of a parameter, and whether it is optional
  unfoldable pub parse_values : Parser Token (List Expr × Bool)
  parse_values input = elim (s.braced input) [
    | some (content, rest) ↦ do
      vals ← s.parse_terminated s.parse_expr content
      ok ((vals, false), rest)
    | none ↦ elim (s.bracketed input) [
      | some (content, rest) ↦ do
        vals ← s.parse_terminated s.parse_expr content
        ok ((vals, true), rest)
      | none ↦ do (value, rest) ← s.parse_expr input; ok ((value ∷ [], false), rest)
    ]
  ]

  -- `ParamSpec::parse`
  unfoldable pub parse : Parser Token (ParamSpec Expr)
  unfolding parse_values
  parse input = do
    (name, input') ← s.parse_ident input
    (eq, input'') ← s.parse_eq input'
    ((values, optional), rest) ← parse_values input''
    ok (record { name = name; values = values; optional = optional }, rest)

  -- `expect` panics
  unfoldable pub parse_specs : List Token → Result (List (ParamSpec Expr))
  unfolding parse
  parse_specs [] = ok []
  parse_specs (t ∷ attr) =
      context (s.parse_terminated parse (t ∷ attr)) (codes "failed to parse test_fn attributes")

  unfoldable pub parse_specs_from_attr : Attribute Token → Result (List (ParamSpec Expr))
  unfolding parse
  parse_specs_from_attr attr = elim attr.tokens [
    | none ↦ ok []
    | some tokens ↦
        context (s.parse_terminated parse tokens) (codes "failed to parse test_fn attributes")
  ]

  -- the loop over the other attributes of the function: the parameters, the last skip reason, and the
  -- attributes that are none of the macro's
  unfoldable pub collect_attrs :
      (Expr → Option Text)
      → List (List (ParamSpec Expr))
      → Option Text
      → List (Attribute Token)
      → List (Attribute Token)
      → Result (List (List (ParamSpec Expr)) × Option Text × List (Attribute Token))
  unfolding parse_specs_from_attr
  collect_attrs lit_str sets skip other_attrs [] = ok (sets, skip, other_attrs)
  collect_attrs lit_str sets skip other_attrs (a ∷ attrs) =
      elim (text_eq a.path (codes "test_fn")) [
        | true ↦ do
          parsed ← parse_specs_from_attr a
          (specs, sr) ← extract_skip lit_str parsed
          collect_attrs lit_str (sets ++ specs ∷ []) (if is_some sr then sr else skip) other_attrs
              attrs
        | false ↦ collect_attrs lit_str sets skip (other_attrs ++ a ∷ []) attrs
      ]

  -- `test_fn` on the tokens of its own annotation and on the function: the attributes, the name and
  -- the parameters; the other attributes are put on each function that is generated
  unfoldable pub expand :
      (Expr → Option Text)
      → List Token
      → List (Attribute Token)
      → Text
      → List (Text × Text)
      → Result (List (Generated Expr) × List (Attribute Token))
  unfolding parse_specs collect_attrs
  expand lit_str attr attrs name params = do
    own ← parse_specs attr
    (own_specs, skip_reason) ← extract_skip lit_str own
    (sets, skip, other_attrs) ← collect_attrs lit_str (own_specs ∷ []) skip_reason [] attrs
    generated ← expand_sets name params skip sets
    ok (generated, other_attrs)
