-- ===== src/Filter/Tests.antt =====
-- The unit tests of `TestFilter` in src/util.rs, and examples of its laws.
use qemu_test.Prelude.{
  ◌≡◌, refl, ◌↔◌, ◌⊎◌, true, none, some, [], ◌∷◌, Text, codes, split, join, All, ok, bail,
}
use qemu_test.Regex.{Matches}
use qemu_test.Regex.Derivative.{engine, nullable, derivative, is_match, is_match_iff}
use qemu_test.Filter.{
  TestFilter, filter_token_pattern, invalid_token, parse, push_tokens, push_token, matches,
}
use qemu_test.Filter.Unit.{
  positive_only_filter_matches_any_positive_token, negative_only_filter_respects_skip_annotations,
  mixed_filter_matches_positive_and_applies_negative, negative_tokens_override_positive_tokens,
  filter_matches_optional_param_labels, filter_excludes_optional_param_labels,
  invalid_tokens_fail_validation, valid_tokens_parse,
}
use qemu_test.Filter.Parse.{IsToken, includes, excludes, parse_iff, parse-invalid}
use qemu_test.Filter.RoundTrip.{tokens_of, parse-join}
use qemu_test.Filter.Select.{Hits, Misses, matches_iff}

unit_tests_pass :
    positive_only_filter_matches_any_positive_token engine
      ∷ negative_only_filter_respects_skip_annotations engine
      ∷ mixed_filter_matches_positive_and_applies_negative engine
      ∷ negative_tokens_override_positive_tokens engine
      ∷ filter_matches_optional_param_labels engine
      ∷ filter_excludes_optional_param_labels engine
      ∷ invalid_tokens_fail_validation engine
      ∷ valid_tokens_parse engine
      ∷ []
    ≡ true ∷ true ∷ true ∷ true ∷ true ∷ true ∷ true ∷ true ∷ []
unfolding parse push_tokens push_token matches is_match derivative nullable
    positive_only_filter_matches_any_positive_token negative_only_filter_respects_skip_annotations
    mixed_filter_matches_positive_and_applies_negative negative_tokens_override_positive_tokens
    filter_matches_optional_param_labels filter_excludes_optional_param_labels
    invalid_tokens_fail_validation valid_tokens_parse
unit_tests_pass = refl

abbrev smp : Text
smp = codes "smp=2"

abbrev slow : Text
slow = codes "slow"

abbrev smp_not_slow : TestFilter
smp_not_slow = record { include = smp ∷ []; exclude = slow ∷ [] }

smp-Matches : Matches filter_token_pattern smp
unfolding is_match derivative nullable
smp-Matches = (is_match_iff filter_token_pattern smp).0 refl

slow-Matches : Matches filter_token_pattern slow
unfolding is_match derivative nullable
slow-Matches = (is_match_iff filter_token_pattern slow).0 refl

parse_iff_example : (parse engine (codes "smp=2,-slow") ≡ ok smp_not_slow) ↔ (
    All IsToken (split (codes "smp=2,-slow") b',')
    × (smp ∷ [] ≡ includes (split (codes "smp=2,-slow") b','))
    × (slow ∷ [] ≡ excludes (split (codes "smp=2,-slow") b',')))
parse_iff_example = parse_iff engine (codes "smp=2,-slow") smp_not_slow

upper_refused : ¬ IsToken (codes "Slow")
unfolding is_match derivative nullable
upper_refused m =
    let yes : is_match filter_token_pattern (codes "Slow") ≡ true =
      (is_match_iff filter_token_pattern (codes "Slow")).1 m in
    absurd (cc yes)

parse-invalid_example : parse engine (codes "smp=2,Slow,-") ≡ bail (invalid_token (codes "Slow"))
parse-invalid_example =
    parse-invalid engine (codes "smp=2,Slow,-") (smp ∷ []) (codes "Slow") (codes "-" ∷ []) refl
      (smp-Matches, tt) upper_refused

parse-join_example :
    parse engine (join (tokens_of (smp ∷ []) (slow ∷ [])) (codes ",")) ≡ ok smp_not_slow
parse-join_example =
    parse-join engine (smp ∷ []) (slow ∷ []) (λ e. cc e) (smp-Matches, tt) (slow-Matches, tt)

smp_not_slow_read : parse engine (codes "smp=2,-slow") ≡ ok smp_not_slow
unfolding parse push_tokens push_token is_match derivative nullable
smp_not_slow_read = refl

matches_iff_example : (matches smp_not_slow (codes "boot(smp=2)") (some (codes "flaky")) ≡ true) ↔ (
    Misses (slow ∷ []) (codes "boot(smp=2)")
    × (Hits (smp ∷ []) (codes "boot(smp=2)") ⊎ ((smp ∷ [] ≡ []) × (some (codes "flaky") ≡ none))))
matches_iff_example = matches_iff smp_not_slow (codes "boot(smp=2)") (some (codes "flaky"))
