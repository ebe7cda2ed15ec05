-- ===== src/Runner/Failures.antt =====
-- The failures of a run and the end of `main`, of src/main.rs.
use qemu_test.Prelude.{
  ℕ, ◌+◌, ◌≡◌, refl, sym, ◌∙◌, ◌↔◌, ◌⊎◌, inl, inr, true, false, Bool-cases, List, [], ◌∷◌, Text,
  is_empty, length, keep, All, ok, arith,
}
use qemu_test.Junit.{TestResult, TestOutcome, pass, fail, skip, is_fail}
use qemu_test.Runner.{push_failure, failures, finish}

abbrev pub NotFailed : TestResult → Type 0
NotFailed r = is_fail r.outcome ≡ false

pub push-failed :
    (l : Text) (o : TestOutcome) (rest : List (Text × Text))
    → ((is_fail o ≡ true) × (length (push_failure l o rest) ≡ length rest + 1))
      ⊎ ((is_fail o ≡ false) × (push_failure l o rest ≡ rest))
push-failed l pass rest = inr (refl, refl)
push-failed l (fail e) rest = inl (refl, omega arith)
push-failed l (skip s) rest = inr (refl, refl)

length-failures :
    (rs : List TestResult)
    → length (failures rs) ≡ length (keep (λ (r : TestResult). is_fail r.outcome) rs)
unfolding failures
length-failures [] = refl
length-failures (r ∷ rs) = elim (push-failed r.label r.outcome (failures rs)) [
  | inl (e, n) ↦ rw e (omega (arith, n, length-failures rs))
  | inr (e, n) ↦ rw (e, n) (length-failures rs)
]

keep-nil :
    (rs : List TestResult)
    → (length (keep (λ (r : TestResult). is_fail r.outcome) rs) ≡ 0) ↔ All NotFailed rs
keep-nil [] = ((λ h. tt), (λ h. refl))
keep-nil (r ∷ rs) = elim (Bool-cases (is_fail r.outcome)) [
  | inl e ↦ ((λ h. absurd (absurd_length e h)), (λ h. absurd (cc (h.0, e))))
  | inr e ↦ ((λ h. (e, (keep-nil rs).0 (rw e at h))), (λ h. rw e ((keep-nil rs).1 h.1)))
]
  where
    absurd_length :
        is_fail r.outcome ≡ true
        → length (keep (λ (x : TestResult). is_fail x.outcome) (r ∷ rs)) ≡ 0
        → ⊥
    absurd_length e h = absurd (omega (arith, rw e at h))

empty_length {ℓ} : {A : Type ℓ} (xs : List A) → (is_empty xs ≡ true) ↔ (length xs ≡ 0)
empty_length [] = ((λ h. refl), (λ h. refl))
empty_length (x ∷ xs) = ((λ h. cc), (λ h. absurd (omega arith)))

-- A run passes exactly when none of its results is a failure.
pub finish_iff :
    (fmt_secs : ℕ → Text) (results : List TestResult) (elapsed : ℕ)
    → (finish fmt_secs results elapsed ≡ ok tt) ↔ All NotFailed results
unfolding finish
finish_iff fmt_secs results elapsed = elim (Bool-cases (is_empty (failures results))) [
  | inl e ↦
      let none_failed =
        (keep-nil results).0
          (sym (length-failures results) ∙ (empty_length (failures results)).0 e) in
      ((λ h. none_failed), (λ h. rw e))
  | inr e ↦ (
    (λ h. absurd (cc (rw e at h))),
    (λ h.
        let z = length-failures results ∙ (keep-nil results).1 h in
        absurd (cc ((empty_length (failures results)).1 z, e))),
  )
]
