-- ===== src/Regex/Derivative.antt =====
-- An engine for the patterns of src/util.rs: matching by derivatives.
use qemu_test.Prelude.{
  ℕ, Bool, true, false, ◌||◌, ◌&&◌, ◌≡◌, refl, sym, ◌∙◌, ap, ◌↔◌, ◌⊎◌, inl, inr, [], ◌∷◌, ◌++◌,
  Text, if◌then◌else◌, Bool-cases, arith,
}
use qemu_test.Regex.{
  Regex, never, empty, class, seq, alt, star, Matches, m_empty, m_class, m_seq, m_left, m_right,
  m_done, m_more, Engine,
}

unfoldable pub nullable : Regex → Bool
nullable never = false
nullable empty = true
nullable (class p) = false
nullable (seq a b) = nullable a && nullable b
nullable (alt a b) = nullable a || nullable b
nullable (star a) = true

unfoldable pub derivative : ℕ → Regex → Regex
unfolding nullable
derivative c never = never
derivative c empty = never
derivative c (class p) = if p c then empty else never
derivative c (seq a b) =
    let left = seq (derivative c a) b in
    let both = alt left (derivative c b) in if nullable a then both else left
derivative c (alt a b) = alt (derivative c a) (derivative c b)
derivative c (star a) = seq (derivative c a) (star a)

unfoldable pub is_match : Regex → Text → Bool
unfolding nullable derivative
is_match r [] = nullable r
is_match r (c ∷ s) = is_match (derivative c r) s

nullable-Matches : (r : Regex) → nullable r ≡ true → Matches r []
unfolding nullable
nullable-Matches never h = absurd (ground arith)
nullable-Matches empty h = m_empty refl
nullable-Matches (class p) h = absurd (ground arith)
nullable-Matches (seq a b) h =
    m_seq [] [] refl (nullable-Matches a (ground arith)) (nullable-Matches b (ground arith))
nullable-Matches (alt a b) h = elim (Bool-cases (nullable a)) [
  | inl e ↦ m_left (nullable-Matches a e)
  | inr e ↦ m_right (nullable-Matches b (ground arith))
]
nullable-Matches (star a) h = m_done refl

-- the two parts of an empty text are empty
append-eq-nil : (s t : Text) → [] ≡ s ++ t → (s ≡ []) × (t ≡ [])
append-eq-nil [] t h = (refl, sym h)
append-eq-nil (c ∷ s) t h = cc

pub Matches-nil : {r : Regex} {u : Text} → Matches r u → u ≡ [] → nullable r ≡ true
unfolding nullable
Matches-nil (m_empty e) h = refl
Matches-nil (m_class c p e) h = cc
Matches-nil (m_seq s t e a b) h =
    let (p, q) = append-eq-nil s t (sym h ∙ e) in ground (arith, Matches-nil a p, Matches-nil b q)
Matches-nil (m_left a) h = ground (arith, Matches-nil a h)
Matches-nil (m_right b) h = ground (arith, Matches-nil b h)
Matches-nil (m_done e) h = refl
Matches-nil (m_more c s t e a b) h = refl

-- what the derivative of a concatenation allows
seq_inv :
    {l r : Regex} {u : Text} (b : Bool)
    → Matches (if b then alt l r else l) u
    → Matches l u ⊎ ((b ≡ true) × Matches r u)
seq_inv true (m_left m) = inl m
seq_inv true (m_right m) = inr (refl, m)
seq_inv false m = inl m

seq_left :
    {l : Regex} (r : Regex) {u : Text} (b : Bool)
    → Matches l u
    → Matches (if b then alt l r else l) u
seq_left r true m = m_left m
seq_left r false m = m

seq_right :
    (l : Regex) {r : Regex} {u : Text} (b : Bool)
    → b ≡ true
    → Matches r u
    → Matches (if b then alt l r else l) u
seq_right l true e m = m_right m
seq_right l false e m = cc

class_inv :
    {p : ℕ → Bool} (c : ℕ) {u : Text} (b : Bool)
    → p c ≡ b
    → Matches (if b then empty else never) u
    → Matches (class p) (c ∷ u)
class_inv c true e (m_empty h) = m_class c e (ap (λ w. c ∷ w) h)
class_inv c false e m = elim m [ ]

derivative_sound : (c : ℕ) (r : Regex) {u : Text} → Matches (derivative c r) u → Matches r (c ∷ u)
unfolding derivative
derivative_sound c never m = elim m [ ]
derivative_sound c empty m = elim m [ ]
derivative_sound c (class p) m = class_inv c (p c) refl m
derivative_sound c (seq a b) m = elim (seq_inv (nullable a) m) [
  | inl (m_seq s t e x y) ↦ m_seq (c ∷ s) t (ap (λ w. c ∷ w) e) (derivative_sound c a x) y
  | inr (h, y) ↦ m_seq [] (c ∷ _) refl (nullable-Matches a h) (derivative_sound c b y)
]
derivative_sound c (alt a b) (m_left m) = m_left (derivative_sound c a m)
derivative_sound c (alt a b) (m_right m) = m_right (derivative_sound c b m)
derivative_sound c (star a) (m_seq s t e m n) =
    m_more c s t (ap (λ w. c ∷ w) e) (derivative_sound c a m) n

derivative_complete :
    {r : Regex} {u : Text} (c : ℕ) (w : Text) → Matches r u → u ≡ c ∷ w → Matches (derivative c r) w
unfolding derivative
derivative_complete c w (m_empty e) h = cc
derivative_complete c w (m_class d p e) h =
    let hd : d ≡ c = cc in let tl : w ≡ [] = cc in rw (← hd, p) (m_empty tl)
derivative_complete c w (m_seq {a = a} [] t e x y) h =
    seq_right _ (nullable a) (Matches-nil x refl) (derivative_complete c w y (sym e ∙ h))
derivative_complete c w (m_seq {a = a} (d ∷ s) t e x y) h =
    seq_left _ (nullable a) (m_seq s t (cc) (derivative_complete c s x (cc)) y)
derivative_complete c w (m_left m) h = m_left (derivative_complete c w m h)
derivative_complete c w (m_right m) h = m_right (derivative_complete c w m h)
derivative_complete c w (m_done e) h = cc
derivative_complete c w (m_more d s t e m n) h = m_seq s t (cc) (derivative_complete c s m (cc)) n

pub is_match_iff : (r : Regex) (s : Text) → (is_match r s ≡ true) ↔ Matches r s
unfolding is_match
is_match_iff r s = (sound r s, complete r s)
  where
    sound : (r : Regex) (s : Text) → is_match r s ≡ true → Matches r s
    sound r [] h = nullable-Matches r h
    sound r (c ∷ s) h = derivative_sound c r (sound (derivative c r) s h)

    complete : (r : Regex) (s : Text) → Matches r s → is_match r s ≡ true
    complete r [] m = Matches-nil m refl
    complete r (c ∷ s) m = complete (derivative c r) s (derivative_complete c s m refl)

abbrev pub engine : Engine
engine = record { is_match = is_match; is_match_iff = is_match_iff }
