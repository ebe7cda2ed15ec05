-- ===== src/Junit/Xml.antt =====
-- XML elements as a tree, and how they are laid out: the specification of the report.
use qemu_test.Prelude.{ℕ, zero, suc, List, [], ◌∷◌, ◌++◌, Text, codes}
use qemu_test.Junit.Escape.{entity}

mutual
  pub data Element : Type 0 where
    -- no content: `<name … />`
    leaf : Text → List (Text × Text) → Element
    -- character data on one line
    line : Text → List (Text × Text) → Text → Element
    -- elements, each on its lines
    block : Text → List (Text × Text) → Elements → Element

  pub data Elements : Type 0 where
    nil : Elements
    cons : Element → Elements → Elements

abbrev pub escaped : Text → Text → Text
escaped [] rest = rest
escaped (c ∷ s) rest = entity c ++ escaped s rest

abbrev pub attributes : List (Text × Text) → Text → Text
attributes [] rest = rest
attributes ((key, value) ∷ others) rest =
    codes " " ++ (key ++ (codes "=\"" ++ escaped value (codes "\"" ++ attributes others rest)))

abbrev pub indent : ℕ → Text → Text
indent zero rest = rest
indent (suc n) rest = codes "  " ++ indent n rest

-- in front of `rest`, at a depth
unfoldable mutual
  pub render : ℕ → Element → Text → Text
  render depth (leaf name attrs) rest =
      indent depth (codes "<" ++ (name ++ attributes attrs (codes " />\n" ++ rest)))
  render depth (line name attrs body) rest = indent depth (
      codes "<"
      ++ (name
          ++ attributes attrs
              (codes ">" ++ escaped body (codes "</" ++ (name ++ (codes ">\n" ++ rest))))))
  render depth (block name attrs children) rest = indent depth (
      codes "<"
      ++ (name
          ++ attributes attrs (
              codes ">\n"
              ++ render_all (suc depth) children
                  (indent depth (codes "</" ++ (name ++ (codes ">\n" ++ rest)))))))

  pub render_all : ℕ → Elements → Text → Text
  render_all depth nil rest = rest
  render_all depth (cons e es) rest = render depth e (render_all depth es rest)
