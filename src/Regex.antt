-- ===== src/Regex.antt =====
-- The patterns that the program hands to the crate `regex`, and what it means for a text to match
-- one from its first to its last character (`^…$`). The crate is a parameter: an `Engine`.
pub mod Derivative
pub mod Classes
use qemu_test.Prelude.{ℕ, Bool, true, ◌||◌, ◌&&◌, ◌≡◌, ◌↔◌, List, [], ◌∷◌, ◌++◌, leb, ◌==◌, Text}

pub data Regex : Type 0 where
  -- matches nothing
  never : Regex
  -- matches the empty text
  empty : Regex
  -- `[…]`: one character of a class
  class : (ℕ → Bool) → Regex
  seq : Regex → Regex → Regex
  alt : Regex → Regex → Regex
  -- `r*`
  star : Regex → Regex

-- `r+` and `r?`
abbrev pub plus : Regex → Regex
plus r = seq r (star r)

abbrev pub optional : Regex → Regex
optional r = alt r empty

abbrev pub char : ℕ → Regex
char a = class (λ c. c == a)

pub data Matches : Regex → Text → Type 0 where
  m_empty : {s : Text} → s ≡ [] → Matches empty s
  m_class : {p : ℕ → Bool} {s : Text} (c : ℕ) → p c ≡ true → s ≡ c ∷ [] → Matches (class p) s
  m_seq :
      {a b : Regex} {u : Text} (s t : Text)
      → u ≡ s ++ t
      → Matches a s
      → Matches b t
      → Matches (seq a b) u
  m_left : {a b : Regex} {s : Text} → Matches a s → Matches (alt a b) s
  m_right : {a b : Regex} {s : Text} → Matches b s → Matches (alt a b) s
  m_done : {a : Regex} {s : Text} → s ≡ [] → Matches (star a) s
  m_more :
      {a : Regex} {u : Text} (c : ℕ) (s t : Text)
      → u ≡ c ∷ (s ++ t)
      → Matches a (c ∷ s)
      → Matches (star a) t
      → Matches (star a) u

-- `Regex::is_match` for a pattern between `^` and `$`, as the crate documents it.
pub record Engine : Type 0 where
  pub is_match : Regex → Text → Bool
  pub is_match_iff : (r : Regex) (s : Text) → (is_match r s ≡ true) ↔ Matches r s
