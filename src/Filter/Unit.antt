-- ===== src/Filter/Unit.antt =====
-- The unit tests of `TestFilter` in src/util.rs: each is whether all of its assertions hold.
use qemu_test.Prelude.{
  Bool, false, ◌&&◌, not, all, none, some, [], ◌∷◌, Text, codes, is_ok, ok, err,
}
use qemu_test.Regex.{Engine}
use qemu_test.Filter.{TestFilter, parse, matches}

module _ (re : Engine) where
  -- the assertions on a filter, which `expect` reads first
  unfoldable pub parsed : Text → (TestFilter → Bool) → Bool
  parsed raw check = elim (parse re raw) [ ok filter ↦ check filter | err e ↦ false ]

  unfoldable pub positive_only_filter_matches_any_positive_token : Bool
  unfolding parsed
  positive_only_filter_matches_any_positive_token =
      (parsed (codes "migration,simple") λ filter.
        (matches filter (codes "migration_os,smp=2") (some (codes "skip")))
        && (matches filter (codes "simple,smp=1") none)
        && (not (matches filter (codes "kernel_boot,smp=2") none)))

  unfoldable pub negative_only_filter_respects_skip_annotations : Bool
  unfolding parsed
  negative_only_filter_respects_skip_annotations =
      (parsed (codes "-migration") λ filter.
        (not (matches filter (codes "migration_os,smp=2") none))
        && (matches filter (codes "kernel_boot,smp=2") none)
        && (not (matches filter (codes "kernel_boot,smp=2") (some (codes "skip reason")))))

  unfoldable pub mixed_filter_matches_positive_and_applies_negative : Bool
  unfolding parsed
  mixed_filter_matches_positive_and_applies_negative =
      (parsed (codes "-migration,smp=2") λ filter.
        (matches filter (codes "kernel_boot,smp=2") (some (codes "skip reason")))
        && (not (matches filter (codes "kernel_boot,smp=1") none))
        && (not (matches filter (codes "migration_os,smp=2") none)))

  unfoldable pub negative_tokens_override_positive_tokens : Bool
  unfolding parsed
  negative_tokens_override_positive_tokens =
      (parsed (codes "migration,-migration_os") λ filter.
        (matches filter (codes "migration_guest") none)
        && (not (matches filter (codes "migration_os,smp=2") none)))

  unfoldable pub filter_matches_optional_param_labels : Bool
  unfolding parsed
  filter_matches_optional_param_labels =
      (parsed (codes "cpu=qemu64") λ filter.
        (matches filter (codes "test_kernel_boot(machine=pc, smp=1, cpu=qemu64)") none)
        && (not (matches filter (codes "test_kernel_boot(machine=pc, smp=1, cpu=host)") none))
        && (not (matches filter (codes "test_kernel_boot(machine=pc, smp=1)") none)))

  unfoldable pub filter_excludes_optional_param_labels : Bool
  unfolding parsed
  filter_excludes_optional_param_labels =
      (parsed (codes "-cpu=host") λ filter.
        (not (matches filter (codes "test_kernel_boot(machine=pc, smp=1, cpu=host)") none))
        && (matches filter (codes "test_kernel_boot(machine=pc, smp=1, cpu=qemu64)") none)
        && (matches filter (codes "test_kernel_boot(machine=pc, smp=1)") none))
      && (parsed (codes "-cpu") λ filter.
          (not (matches filter (codes "test_kernel_boot(machine=pc, smp=1, cpu=host)") none))
          && (not (matches filter (codes "test_kernel_boot(machine=pc, smp=1, cpu=qemu64)") none))
          && (matches filter (codes "test_kernel_boot(machine=pc, smp=1)") none))

  unfoldable pub invalid_tokens_fail_validation : Bool
  invalid_tokens_fail_validation =
      all (λ token. not (is_ok (parse re token)))
        (codes ""
          ∷ codes "-"
          ∷ codes "Migration"
          ∷ codes "smp=2,"
          ∷ codes "--migration"
          ∷ codes "test-case"
          ∷ codes "test.name"
          ∷ codes "smp =2"
          ∷ [])

  unfoldable pub valid_tokens_parse : Bool
  valid_tokens_parse =
      all (λ token. is_ok (parse re token))
        (codes "kernel_boot" ∷ codes "smp=2" ∷ codes "-migration_os" ∷ [])
