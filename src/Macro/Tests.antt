-- ===== src/Macro/Tests.antt =====
-- `#[test_fn(smp = [1, 2], cpu? = [host], skip = "flaky")]`, with expressions as texts.
use qemu_test.Prelude.{
  ◌≡◌, ◌↔◌, refl, true, false, Option, none, some, List, [], ◌∷◌, map, Text, codes, length, All,
  Member, inl, inr, ok,
}
use qemu_test.Macro.{ParamSpec, Combo, Generated, cartesian_product, extract_skip, test_fn}
use qemu_test.Macro.Product.{Fits, cartesian_product_iff}
use qemu_test.Macro.Skip.{IsWellFormed, plain_specs, last_reason, extract_skip_lem}
use qemu_test.Macro.Expand.{Distinct, test_fn_total}

abbrev lit_str : Text → Option Text
lit_str e = some e

abbrev smp : ParamSpec Text
smp = record { name = codes "smp"; values = codes "1" ∷ codes "2" ∷ []; optional = false }

abbrev cpu : ParamSpec Text
cpu = record { name = codes "cpu"; values = codes "host" ∷ []; optional = true }

abbrev skip : ParamSpec Text
skip = record { name = codes "skip"; values = codes "flaky" ∷ []; optional = false }

abbrev params : List (Text × Text)
params = (codes "smp", codes "u8") ∷ (codes "cpu", codes "Option<CpuModel>") ∷ []

abbrev two_host : Combo Text
two_host = (codes "smp", some (codes "2"), false) ∷ (codes "cpu", none, true) ∷ []

two_host-Fits : Fits (smp ∷ cpu ∷ []) two_host
two_host-Fits = ((refl, refl, inr (inl refl)), ((refl, refl, refl), tt))

cartesian_product_iff_example :
    Member two_host (cartesian_product (smp ∷ cpu ∷ [])) ↔ Fits (smp ∷ cpu ∷ []) two_host
cartesian_product_iff_example = cartesian_product_iff (smp ∷ cpu ∷ []) two_host

own-IsWellFormed : All (IsWellFormed lit_str) (smp ∷ cpu ∷ skip ∷ [])
own-IsWellFormed = ((λ h. (_, refl)), ((λ h. (_, refl)), ((λ h. (_, refl)), tt)))

extract_skip_lem_example :
    extract_skip lit_str (smp ∷ cpu ∷ skip ∷ [])
    ≡ ok (
      plain_specs lit_str (smp ∷ cpu ∷ skip ∷ []),
      last_reason lit_str none (smp ∷ cpu ∷ skip ∷ []),
    )
extract_skip_lem_example = extract_skip_lem lit_str (smp ∷ cpu ∷ skip ∷ []) own-IsWellFormed

test_fn_total_example :
    (gs : List (Generated Text)) × (test_fn lit_str
        (smp ∷ cpu ∷ skip ∷ [])
        []
        (codes "test_boot")
        params
      ≡ ok gs)
    × (length gs ≡ 4)
    × Distinct (map (λ (g : Generated Text). g.fn_name) gs)
    × All
        (λ (g : Generated Text).
          (g.entry_name ≡ codes "test_boot") × (g.skip ≡ some (codes "flaky")))
        gs
test_fn_total_example =
    test_fn_total lit_str (smp ∷ cpu ∷ skip ∷ []) [] (codes "test_boot") params
      (own-IsWellFormed, tt) ((inl refl, (inr (inl refl), tt)), tt)
