-- ===== src/Prelude/Chars.antt =====
-- Rust's `str` as the list of its characters, with the methods of the standard library that the
-- program calls. `bytes` that are ASCII are the same lists.
use Prim.Native.Char.{code}
use Prim.Native.String.{String}
use Prim.Native.Nat.{ℕ}
use mathlib.Core.Bool.{Bool, true, false, ◌&&◌, ◌||◌}
use mathlib.Core.List.{List, [], ◌∷◌, ◌++◌, reverse}
use mathlib.Core.Option.{Option, none, some}
use qemu_test.Prelude.Tests.{◌==◌, leb, if◌then◌else◌}

abbrev pub Text : Type 0
Text = List ℕ

-- the characters of a literal
abbrev pub codes : String → Text
codes String.[] = []
codes (String.◌∷◌ c s) = code c ∷ codes s

abbrev pub text_eq : Text → Text → Bool
text_eq [] [] = true
text_eq (a ∷ s) (b ∷ t) = a == b && text_eq s t
text_eq _ _ = false

-- `s.starts_with(p)`
abbrev pub starts_with : Text → Text → Bool
starts_with s [] = true
starts_with [] (b ∷ p) = false
starts_with (a ∷ s) (b ∷ p) = a == b && starts_with s p

-- `s.contains(p)` for a text `p`
abbrev pub contains : Text → Text → Bool
contains [] p = starts_with [] p
contains (a ∷ s) p = starts_with (a ∷ s) p || contains s p

-- `s.ends_with(c)` for one character
abbrev pub ends_with : Text → ℕ → Bool
ends_with [] c = false
ends_with (a ∷ []) c = a == c
ends_with (a ∷ b ∷ s) c = ends_with (b ∷ s) c

-- puts a character before the first part
abbrev pub onto_first : ℕ → List Text → List Text
onto_first c [] = (c ∷ []) ∷ []
onto_first c (p ∷ ps) = (c ∷ p) ∷ ps

-- `s.split(c)`: always one part more than there are separators
abbrev pub split : Text → ℕ → List Text
split [] c = [] ∷ []
split (a ∷ s) c = let rest = split s c in if a == c then [] ∷ rest else onto_first a rest

-- `parts.join(sep)`
abbrev pub join : List Text → Text → Text
join [] sep = []
join (p ∷ []) sep = p
join (p ∷ q ∷ ps) sep = p ++ (sep ++ join (q ∷ ps) sep)

-- `s.replace(c, to)` for one character `c`
abbrev pub replace : Text → ℕ → Text → Text
replace [] c to = []
replace (a ∷ s) c to = (if a == c then to else a ∷ []) ++ replace s c to

-- `char::is_whitespace`: the characters of the Unicode property White_Space
abbrev pub is_whitespace : ℕ → Bool
is_whitespace c =
    (leb 9 c && leb c 13)
    || (c == 32)
    || (c == 0x85)
    || (c == 0xa0)
    || (c == 0x1680)
    || (leb 0x2000 c && leb c 0x200a)
    || (c == 0x2028)
    || (c == 0x2029)
    || (c == 0x202f)
    || (c == 0x205f)
    || (c == 0x3000)

abbrev pub trim_start : Text → Text
trim_start [] = []
trim_start (c ∷ s) = let rest = trim_start s in if is_whitespace c then rest else c ∷ s

abbrev pub trim_end : Text → Text
trim_end s = reverse (trim_start (reverse s))

abbrev pub trim : Text → Text
trim s = trim_end (trim_start s)

-- `s.strip_prefix(c)` for one character
abbrev pub strip_prefix : Text → ℕ → Option Text
strip_prefix [] c = none
strip_prefix (a ∷ s) c = if a == c then some s else none

-- `format!`: the pieces of a text, one behind the other
abbrev pub concat : List Text → Text
concat [] = []
concat (p ∷ []) = p
concat (p ∷ q ∷ ps) = p ++ concat (q ∷ ps)

-- `Path::join`: an absolute name replaces the directory
abbrev pub path_join : Text → Text → Text
path_join dir name =
    if starts_with name (codes "/")
    then name
    else dir ++ ((if ends_with dir b'/' then [] else elim dir [ [] ↦ [] | _ ↦ codes "/" ]) ++ name)
