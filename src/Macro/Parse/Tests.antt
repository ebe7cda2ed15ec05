-- ===== src/Macro/Parse/Tests.antt =====
-- `#[test_fn(smp = {1, 2,}, cpu = [host], skip = flaky)]` below another attribute and above a second
-- annotation.
use qemu_test.Prelude.{
  ok, ◌>>=◌, ◌≡◌, refl, true, false, Option, some, List, [], ◌∷◌, map, Text, codes, All,
}
use qemu_test.Macro.{test_fn}
use qemu_test.Macro.Parse.{expand}
use qemu_test.Macro.Parse.Written.{
  Annotation, single, several, optional, meaning, IsWritten, written,
}
use qemu_test.Macro.Parse.Expanded.{
  Item, stacked, foreign, others_of, foreign_of, attribute_of, IsItem, expand-written,
}
use qemu_test.Macro.Parse.Sample.{Token, syn, documented}

abbrev lit_str : Text → Option Text
lit_str e = some e

abbrev own : List (Annotation Text)
own =
    several (codes "smp") (codes "1" ∷ codes "2" ∷ []) true
    ∷ optional (codes "cpu") (codes "host" ∷ []) false
    ∷ single (codes "skip") (codes "flaky")
    ∷ []

abbrev items : List (Item Token Text)
items =
    foreign (record { path = codes "allow"; tokens = some [] })
    ∷ stacked true (single (codes "smp") (codes "4") ∷ optional (codes "cpu") [] false ∷ [])
    ∷ []

abbrev params : List (Text × Text)
params = (codes "smp", codes "u8") ∷ (codes "cpu", codes "Option<CpuModel>") ∷ []

own-IsWritten : All (IsWritten syn documented) own
own-IsWritten = ((refl, tt), ((refl, tt), ((refl, (λ rest. (refl, refl))), tt)))

items-IsItem : All (IsItem syn documented) items
items-IsItem = (refl, (((refl, (λ rest. (refl, refl))), ((refl, tt), tt)), tt))

expand-written_example :
    expand syn lit_str
      (written syn documented false own)
      (map (attribute_of syn documented) items)
      (codes "test_boot")
      params
    ≡ test_fn lit_str (map meaning own) (others_of items) (codes "test_boot") params
      >>= λ generated. ok (generated, foreign_of items)
expand-written_example =
    expand-written syn documented lit_str false own items (codes "test_boot") params own-IsWritten
      items-IsItem
