-- ===== src/Junit/Escape.antt =====
-- `xml_escape` of src/junit.rs, and a reader of escaped text.
use qemu_test.Prelude.{
  ℕ, ◌≡◌, ◌≢◌, refl, ap, ◌∙◌, ◌||◌, Option, none, some, [], ◌∷◌, ◌++◌, Text, codes, text_eq, ◌==◌,
  if◌then◌else◌, replace-append, All, arith,
}
use qemu_test.Junit.{xml_escape}

-- what stands for a character
abbrev pub entity : ℕ → Text
entity c =
    if c == b'&'
    then codes "&amp;"
    else if c == b'<'
    then codes "&lt;"
    else if c == b'>'
    then codes "&gt;"
    else if c == b'"'
    then codes "&quot;"
    else if c == b'\''
    then codes "&apos;"
    else c ∷ []

xml_escape-append : (s t : Text) → xml_escape (s ++ t) ≡ xml_escape s ++ xml_escape t
unfolding xml_escape
xml_escape-append s t = simp replace-append

pub xml_escape-cons : (c : ℕ) (s : Text) → xml_escape (c ∷ s) ≡ entity c ++ xml_escape s
xml_escape-cons c s = xml_escape-append (c ∷ []) s ∙ ap (λ e. e ++ xml_escape s) (one c)
  where
    one : (c : ℕ) → xml_escape (c ∷ []) ≡ entity c
    one c = unfold xml_escape in ground arith

-- the character of an entity's name
abbrev pub named : Text → Option ℕ
named name =
    if text_eq name (codes "amp")
    then some b'&'
    else if text_eq name (codes "lt")
    then some b'<'
    else if text_eq name (codes "gt")
    then some b'>'
    else if text_eq name (codes "quot")
    then some b'"'
    else if text_eq name (codes "apos")
    then some b'\''
    else none

abbrev push : Option ℕ → Option Text → Option Text
push (some c) (some s) = some (c ∷ s)
push _ _ = none

-- A reader of escaped text. Between `&` and `;` it holds the name so far; outside it refuses the
-- characters that may not stand in an attribute's value.
unfoldable pub unescape : Text → Option Text → Option Text
unescape [] none = some []
unescape [] (some name) = none
unescape (c ∷ s) none =
    let entity_next = unescape s (some []) in
    let plain_next = unescape s none in
    if c == b'&'
    then entity_next
    else if (c == b'<') || (c == b'>') || (c == b'"') || (c == b'\'')
    then none
    else push (some c) plain_next
unescape (c ∷ s) (some name) =
    let done = unescape s none in
    let more = unescape s (some (name ++ c ∷ [])) in
    if c == b';' then push (named name) done else more

unescape-entity :
    (c : ℕ) (s : Text) → unescape (entity c ++ s) none ≡ push (some c) (unescape s none)
unfolding unescape
unescape-entity c s = ground arith

-- A reader that accepts no bare `<`, `>`, `&` or quote reads an escaped text, and gets back the
-- text that was escaped.
pub unescape-xml_escape : (s : Text) → unescape (xml_escape s) none ≡ some s
unfolding xml_escape unescape
unescape-xml_escape [] = refl
unescape-xml_escape (c ∷ s) =
    rw (xml_escape-cons c s, unescape-entity c (xml_escape s), unescape-xml_escape s)

-- a character that is not replaced
abbrev pub IsPlain : ℕ → Type 0
IsPlain c = (c ≢ b'&') × (c ≢ b'<') × (c ≢ b'>') × (c ≢ b'"') × (c ≢ b'\'')

pub xml_escape_plain : (s : Text) → All IsPlain s → xml_escape s ≡ s
unfolding xml_escape
xml_escape_plain [] h = refl
xml_escape_plain (c ∷ s) (h, hs) = xml_escape-cons c s ∙ ground (arith, xml_escape_plain s hs)
