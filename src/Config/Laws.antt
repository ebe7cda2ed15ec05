-- ===== src/Config/Laws.antt =====
-- The readers of `Config`, of src/config.rs.
use qemu_test.Prelude.{
  ℕ, ◌≤◌, ◌≡◌, refl, ◌↔◌, ◌⊎◌, inl, inr, ◌++◌, none, some, Text, codes, text_eq, text_eq_iff, ap,
  ok, context, Bool-cases, arith, Option-cases,
}
use qemu_test.Number.{usize_max, parse_usize, parse-le}
use qemu_test.Options.{Accelerator, kvm, mshv, accelerator_text, accelerator_try_from}
use qemu_test.Config.{Config, accel, test_repeat}

named :
    (value : Text) (a : Accelerator)
    → context (accelerator_try_from value) (codes "invalid accelerator: " ++ value) ≡ ok a
    → value ≡ accelerator_text a
unfolding accelerator_try_from accelerator_text
named value a h = elim (Bool-cases (text_eq value (codes "kvm"))) [
  | inl e ↦ let k : kvm ≡ a = cc (rw e at h) in rw (← k) ((text_eq_iff value (codes "kvm")).0 e)
  | inr e ↦
      let h' = rw e at h in
      elim (Bool-cases (text_eq value (codes "mshv"))) [
        | inl m ↦
            let k : mshv ≡ a = cc (rw m at h') in rw (← k) ((text_eq_iff value (codes "mshv")).0 m)
        | inr m ↦ absurd (cc (rw m at h'))
      ]
]

spelled :
    (b : Accelerator)
    → context
        (accelerator_try_from (accelerator_text b))
        (codes "invalid accelerator: " ++ accelerator_text b)
      ≡ ok b
unfolding accelerator_try_from accelerator_text
spelled kvm = refl
spelled mshv = refl

-- The accelerator is the one that ACCEL names, spelled as it is printed, or KVM without ACCEL, and
-- no other.
pub accel_iff :
    (config : Config) (a : Accelerator)
    → (accel config ≡ ok a)
      ↔ ((config.accel ≡ some (accelerator_text a)) ⊎ ((config.accel ≡ none) × (a ≡ kvm)))
unfolding accel
accel_iff config a = elim (Option-cases config.accel) [
  | inl e ↦ (
    (λ h. inr (e, cc (rw e at h))),
    (λ h. elim h [ inl s ↦ absurd (cc (s, e)) | inr (n, k) ↦ rw (e, k) ]),
  )
  | inr (value, e) ↦ (
    (λ h. inl (rw e (ap some (named value a (rw e at h))))),
    (λ h. elim h [ inl s ↦ rw s (spelled a) | inr (n, k) ↦ absurd (cc (n, e)) ]),
  )
]

-- TEST_REPEAT never comes out as zero or above the machine's range.
pub test_repeat_bounds :
    (config : Config) (n : ℕ) → test_repeat config ≡ ok n → (1 ≤ n) × (n ≤ usize_max)
unfolding test_repeat parse_usize
test_repeat_bounds config n h = elim (Option-cases config.test_repeat) [
  | inl e ↦ ground arith
  | inr (value, e) ↦ ground (arith, parse-le usize_max value n)
]
