-- ===== src/Prelude/Splits.antt =====
-- Lemmas on `split`, `join` and the equality of texts.
use Prim.Native.Nat.{ℕ}
use mathlib.Core.Path.{◌≡◌, refl, sym, ap, ◌∙◌}
use mathlib.Core.Logic.{◌≢◌, ◌⊎◌, ◌↔◌, inl, inr}
use mathlib.Core.Bool.{true}
use qemu_test.Prelude.Tests.{◌==◌, if◌then◌else◌}
use mathlib.Core.List.{List, [], ◌∷◌, ◌++◌, append_assoc}
use native.Mathlib.Omega.{arith}
use qemu_test.Prelude.Lists.{All}
use qemu_test.Prelude.Chars.{Text, split, join, replace, text_eq}

abbrev pub Lacks : ℕ → Text → Type 0
Lacks c = All (λ a. a ≢ c)

split-Lacks : (p : Text) (c : ℕ) → Lacks c p → split p c ≡ p ∷ []
split-Lacks [] c h = refl
split-Lacks (a ∷ p) c (ha, hp) = ground (arith, split-Lacks p c hp)

split-append : (p s : Text) (c : ℕ) → Lacks c p → split (p ++ c ∷ s) c ≡ p ∷ split s c
split-append [] s c h = ground arith
split-append (a ∷ p) s c (ha, hp) = ground (arith, split-append p s c hp)

pub split-join :
    (ps : List Text) (c : ℕ) → ps ≢ [] → All (Lacks c) ps → split (join ps (c ∷ [])) c ≡ ps
split-join [] c h _ = absurd (h refl)
split-join (p ∷ []) c h (hp, _) = split-Lacks p c hp
split-join (p ∷ q ∷ ps) c h (hp, hps) =
    split-append p (join (q ∷ ps) (c ∷ [])) c hp ∙ ap (λ r. p ∷ r) (split-join (q ∷ ps) c (cc) hps)

Parts-cases : (ps : List Text) → (ps ≡ []) ⊎ ((p : Text) × (qs : List Text) × (ps ≡ p ∷ qs))
Parts-cases [] = inl refl
Parts-cases (p ∷ qs) = inr (p, qs, refl)

pub split-ne-nil : (s : Text) (c : ℕ) → split s c ≢ []
split-ne-nil [] c h = cc
split-ne-nil (a ∷ s) c h = elim (Parts-cases (split s c)) [
  | inl e ↦ absurd (split-ne-nil s c e)
  | inr (p, ps, e) ↦ ground (arith, e)
]

pub replace-append :
    (s t : Text) (c : ℕ) (to : Text) → replace (s ++ t) c to ≡ replace s c to ++ replace t c to
replace-append [] t c to = refl
replace-append (a ∷ s) t c to =
    rw (replace-append s t c to)
      (sym (append_assoc (if a == c then to else a ∷ []) (replace s c to) (replace t c to)))

pub text_eq_iff : (s t : Text) → (text_eq s t ≡ true) ↔ (s ≡ t)
text_eq_iff [] [] = ((λ h. refl), (λ h. refl))
text_eq_iff [] (b ∷ t) = ((λ h. cc), (λ h. cc))
text_eq_iff (a ∷ s) [] = ((λ h. cc), (λ h. cc))
text_eq_iff (a ∷ s) (b ∷ t) = ground (arith, text_eq_iff s t)
