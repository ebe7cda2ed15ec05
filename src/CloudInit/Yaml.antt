-- ===== src/CloudInit/Yaml.antt =====
-- The block style of YAML that the files of src/cloud_init.rs are written in: a list stands at the
-- indentation of its key, and an item that is a mapping begins on the line of its dash.
use qemu_test.Prelude.{ℕ, zero, suc, ◌++◌, Text, codes}

mutual
  pub data Value : Type 0 where
    plain : Text → Value
    mapping : Pairs → Value
    sequence : Items → Value

  pub data Pairs : Type 0 where
    end : Pairs
    pair : Text → Value → Pairs → Pairs

  -- an item is a value on one line, or a mapping by its first pair and the others
  pub data Items : Type 0 where
    nil : Items
    scalar : Text → Items → Items
    entry : Text → Value → Pairs → Items → Items

abbrev pub indent : ℕ → Text → Text
indent zero rest = rest
indent (suc n) rest = codes "  " ++ indent n rest

-- in front of `rest`, at a depth
unfoldable mutual
  pub show_value : ℕ → Value → Text → Text
  show_value depth (plain text) rest = codes " " ++ (text ++ (codes "\n" ++ rest))
  show_value depth (mapping pairs) rest = codes "\n" ++ show_pairs (suc depth) pairs rest
  show_value depth (sequence items) rest = codes "\n" ++ show_items depth items rest

  pub show_pairs : ℕ → Pairs → Text → Text
  show_pairs depth end rest = rest
  show_pairs depth (pair key value pairs) rest =
      indent depth (key ++ (codes ":" ++ show_value depth value (show_pairs depth pairs rest)))

  pub show_items : ℕ → Items → Text → Text
  show_items depth nil rest = rest
  show_items depth (scalar text items) rest =
      indent depth (codes "- " ++ (text ++ (codes "\n" ++ show_items depth items rest)))
  show_items depth (entry key value pairs items) rest = indent depth (
      codes "- "
      ++ (key
          ++ (codes ":"
              ++ show_value (suc depth) value
                  (show_pairs (suc depth) pairs (show_items depth items rest)))))
