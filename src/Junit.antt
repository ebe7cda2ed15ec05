-- ===== src/Junit.antt =====
-- src/junit.rs: the results of a run, and the JUnit report that is made of them.
pub mod Escape
pub mod Xml
pub mod Report
mod Tests
use qemu_test.Prelude.{
  ℕ, ◌≡◌, refl, Bool, true, false, Option, none, some, List, [], ◌∷◌, ◌++◌, concat, Text, codes,
  replace, length, keep, is_empty, if◌then◌else◌, Result,
}
use qemu_test.Number.{decimal}
use qemu_test.Host.Task.{Task, call, with_context}

pub data TestOutcome : Type 0 where
  pass : TestOutcome
  fail : Text → TestOutcome
  skip : Text → TestOutcome

-- a duration counts nanoseconds
pub record TestResult : Type 0 where
  pub label : Text
  pub properties : List (Text × Text)
  pub outcome : TestOutcome
  pub duration : ℕ

-- `matches!(r.outcome, TestOutcome::Fail(_))`, and the same for `Skip`
abbrev pub is_fail : TestOutcome → Bool
is_fail (fail e) = true
is_fail _ = false

abbrev pub is_skip : TestOutcome → Bool
is_skip (skip r) = true
is_skip _ = false

unfoldable pub xml_escape : Text → Text
xml_escape s =
    replace
      (replace
        (replace (replace (replace s b'&' (codes "&amp;")) b'<' (codes "&lt;")) b'>' (codes "&gt;"))
        b'"' (codes "&quot;"))
      b'\'' (codes "&apos;")

-- the loop over the properties, in front of what is written behind it
unfoldable pub property_lines : List (Text × Text) → Text → Text
property_lines [] rest = rest
property_lines ((key, value) ∷ properties) rest = concat (
    codes "        <property name=\""
    ∷ xml_escape key
    ∷ codes "\" value=\""
    ∷ xml_escape value
    ∷ codes "\" />\n"
    ∷ property_lines properties rest
    ∷ [])

-- `if !result.properties.is_empty()`
unfoldable pub property_block : List (Text × Text) → Text → Text
unfolding property_lines
property_block properties rest =
    if is_empty properties
    then rest
    else codes "      <properties>\n"
      ++ property_lines properties (codes "      </properties>\n" ++ rest)

-- `match outcome` behind the properties
unfoldable pub outcome_lines : TestOutcome → Text → Text
outcome_lines pass rest = rest
outcome_lines (fail msg) rest = concat (
    codes "      <failure message=\""
    ∷ xml_escape msg
    ∷ codes "\">"
    ∷ xml_escape msg
    ∷ codes "</failure>\n"
    ∷ rest
    ∷ [])
outcome_lines (skip reason) rest =
    concat (codes "      <skipped message=\"" ∷ xml_escape reason ∷ codes "\" />\n" ∷ rest ∷ [])

-- `TestOutcome::Pass if result.properties.is_empty()`
abbrev pub is_bare : TestOutcome → List (Text × Text) → Bool
is_bare pass [] = true
is_bare _ _ = false

-- `fmt_secs d` is `format!("{:.3}", d.as_secs_f64())`
module _ (fmt_secs : ℕ → Text) where
  -- one round of the loop over the results, in front of what the later rounds write
  unfoldable pub testcase_lines : TestResult → Text → Text
  unfolding property_block outcome_lines
  testcase_lines result rest =
      let name = xml_escape result.label in
      let time = fmt_secs result.duration in
      if is_bare result.outcome result.properties
      then concat (
          codes "    <testcase name=\""
          ∷ name
          ∷ codes "\" classname=\"qemu-test\" time=\""
          ∷ time
          ∷ codes "\" />\n"
          ∷ rest
          ∷ [])
      else concat (
          codes "    <testcase name=\""
          ∷ name
          ∷ codes "\" classname=\"qemu-test\" time=\""
          ∷ time
          ∷ codes "\">\n"
          ∷ property_block result.properties
              (outcome_lines result.outcome (codes "    </testcase>\n" ++ rest))
          ∷ [])

  unfoldable pub testcases : List TestResult → Text → Text
  unfolding testcase_lines
  testcases [] rest = rest
  testcases (result ∷ results) rest = testcase_lines result (testcases results rest)

  unfoldable pub format_junit : List TestResult → ℕ → Text
  unfolding testcases
  format_junit results total_duration =
      let total = decimal (length results) in
      let failures = decimal (length (keep (λ (r : TestResult). is_fail r.outcome) results)) in
      let skipped = decimal (length (keep (λ (r : TestResult). is_skip r.outcome) results)) in
      let time = fmt_secs total_duration in
      concat (
        codes "<?xml version=\"1.0\" encoding=\"UTF-8\"?>\n"
        ∷ codes "<testsuites tests=\""
        ∷ total
        ∷ codes "\" failures=\""
        ∷ failures
        ∷ codes "\" skipped=\""
        ∷ skipped
        ∷ codes "\" time=\""
        ∷ time
        ∷ codes "\">\n"
        ∷ codes "  <testsuite name=\"qemu-test\" tests=\""
        ∷ total
        ∷ codes "\" failures=\""
        ∷ failures
        ∷ codes "\" skipped=\""
        ∷ skipped
        ∷ codes "\" time=\""
        ∷ time
        ∷ codes "\">\n"
        ∷ testcases results (codes "  </testsuite>\n" ++ codes "</testsuites>\n")
        ∷ [])

  -- `expect` panics; `write` is `fs::write`
  unfoldable pub write_junit :
      {W : Type 0}
      → (Text → Text → W → Result (Unit {0}) × W)
      → Text
      → List TestResult
      → ℕ
      → Task W (Unit {0})
  unfolding format_junit
  write_junit write path results total_duration =
      with_context (call (write path (format_junit results total_duration)))
        (codes "failed to write JUnit report")
