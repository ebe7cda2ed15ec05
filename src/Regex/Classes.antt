-- ===== src/Regex/Classes.antt =====
-- The character classes of a pattern.
use qemu_test.Prelude.{ℕ, true, ◌≡◌, All, All-append, Text}
use qemu_test.Regex.{
  Regex, never, empty, class, seq, alt, star, Matches, m_empty, m_class, m_seq, m_left, m_right,
  m_done, m_more,
}

-- `P` holds of every character of every class of the pattern
abbrev pub Over : (ℕ → Type 0) → Regex → Type 0
Over P never = Unit
Over P empty = Unit
Over P (class p) = (c : ℕ) → p c ≡ true → P c
Over P (seq a b) = Over P a × Over P b
Over P (alt a b) = Over P a × Over P b
Over P (star a) = Over P a

module _ (P : ℕ → Type 0) where
  pub Matches-All : (r : Regex) {s : Text} → Over P r → Matches r s → All P s
  Matches-All never o m = elim m [ ]
  Matches-All empty o (m_empty e) = rw e tt
  Matches-All (class p) o (m_class c h e) = rw e (o c h, tt)
  Matches-All (seq a b) o (m_seq s t e m n) =
      rw e (All-append P s t (Matches-All a o.0 m) (Matches-All b o.1 n))
  Matches-All (alt a b) o (m_left m) = Matches-All a o.0 m
  Matches-All (alt a b) o (m_right m) = Matches-All b o.1 m
  Matches-All (star a) o (m_done e) = rw e tt
  Matches-All (star a) o (m_more c s t e m n) =
      let (pc, ps) = Matches-All a o m in rw e (pc, All-append P s t ps (Matches-All (star a) o n))
