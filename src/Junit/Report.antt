-- ===== src/Junit/Report.antt =====
-- The report of src/junit.rs as a tree that is built from the results, and its layout.
use qemu_test.Prelude.{
  ℕ, ◌≡◌, refl, sym, ap, ◌∙◌, List, [], ◌∷◌, ◌++◌, append_assoc, Text, codes, length, keep, All,
  arith,
}
use qemu_test.Number.{decimal, IsDigit, decimal-IsDigit}
use qemu_test.Junit.{
  TestOutcome, TestResult, pass, fail, skip, xml_escape, property_lines, property_block,
  outcome_lines, testcase_lines, testcases, format_junit, is_fail, is_skip,
}
use qemu_test.Junit.Escape.{entity, xml_escape-cons, IsPlain}
use qemu_test.Junit.Xml.{
  Element, Elements, leaf, line, block, nil, cons, escaped, render, render_all,
}

property_elements : List (Text × Text) → Elements
property_elements [] = nil
property_elements ((key, value) ∷ properties) =
    cons (leaf (codes "property") ((codes "name", key) ∷ (codes "value", value) ∷ []))
      (property_elements properties)

properties_element : List (Text × Text) → Elements → Elements
properties_element [] rest = rest
properties_element (p ∷ ps) rest =
    cons (block (codes "properties") [] (property_elements (p ∷ ps))) rest

outcome_element : TestOutcome → Elements
outcome_element pass = nil
outcome_element (fail msg) = cons (line (codes "failure") ((codes "message", msg) ∷ []) msg) nil
outcome_element (skip reason) = cons (leaf (codes "skipped") ((codes "message", reason) ∷ [])) nil

-- A test that passed and has no properties is an element with no content.
testcase_shape : List (Text × Text) → TestOutcome → List (Text × Text) → Element
testcase_shape attrs pass [] = leaf (codes "testcase") attrs
testcase_shape attrs outcome properties =
    block (codes "testcase") attrs (properties_element properties (outcome_element outcome))

module _ (fmt_secs : ℕ → Text) where
  testcase_attributes : TestResult → List (Text × Text)
  testcase_attributes result =
      (codes "name", result.label)
      ∷ (codes "classname", codes "qemu-test")
      ∷ (codes "time", fmt_secs result.duration)
      ∷ []

  testcase_element : TestResult → Element
  testcase_element result =
      testcase_shape (testcase_attributes result) result.outcome result.properties

  testcase_elements : List TestResult → Elements
  testcase_elements [] = nil
  testcase_elements (r ∷ rs) = cons (testcase_element r) (testcase_elements rs)

  counts : List TestResult → ℕ → List (Text × Text)
  counts results total_duration =
      (codes "tests", decimal (length results))
      ∷ (codes "failures", decimal (length (keep (λ (r : TestResult). is_fail r.outcome) results)))
      ∷ (codes "skipped", decimal (length (keep (λ (r : TestResult). is_skip r.outcome) results)))
      ∷ (codes "time", fmt_secs total_duration)
      ∷ []

  pub report : List TestResult → ℕ → Element
  report results total_duration = block (codes "testsuites") (counts results total_duration) (
      cons
        (block (codes "testsuite")
          ((codes "name", codes "qemu-test") ∷ counts results total_duration)
          (testcase_elements results))
        nil)

escaped-xml_escape : (s rest : Text) → escaped s rest ≡ xml_escape s ++ rest
escaped-xml_escape [] rest = unfold xml_escape in refl
escaped-xml_escape (c ∷ s) rest =
    rw (xml_escape-cons c s, escaped-xml_escape s rest)
      (sym (append_assoc (entity c) (xml_escape s) rest))

escaped_plain : (s rest : Text) → All IsPlain s → escaped s rest ≡ s ++ rest
escaped_plain [] rest h = refl
escaped_plain (c ∷ s) rest (h, hs) = ground (arith, h, escaped_plain s rest hs)

pub digits-IsPlain : (s : Text) → All IsDigit s → All IsPlain s
digits-IsPlain [] h = tt
digits-IsPlain (c ∷ s) (h, hs) = (omega arith, digits-IsPlain s hs)

escaped-decimal : (n : ℕ) (rest : Text) → escaped (decimal n) rest ≡ decimal n ++ rest
escaped-decimal n rest =
    escaped_plain (decimal n) rest (digits-IsPlain (decimal n) (decimal-IsDigit n))

property_lines_lem :
    (ps : List (Text × Text)) (rest : Text)
    → render_all 4 (property_elements ps) rest ≡ property_lines ps rest
unfolding render property_elements property_lines
property_lines_lem [] rest = refl
property_lines_lem ((k, v) ∷ ps) rest = simp (escaped-xml_escape, property_lines_lem ps)

properties_lem :
    (ps : List (Text × Text)) (es : Elements) (rest : Text)
    → render_all 3 (properties_element ps es) rest ≡ property_block ps (render_all 3 es rest)
unfolding render properties_element property_block
properties_lem [] es rest = refl
properties_lem (p ∷ ps) es rest = simp property_lines_lem

outcome_lem :
    (outcome : TestOutcome) (rest : Text)
    → render_all 3 (outcome_element outcome) rest ≡ outcome_lines outcome rest
unfolding render outcome_element outcome_lines
outcome_lem pass rest = refl
outcome_lem (fail msg) rest = simp escaped-xml_escape
outcome_lem (skip reason) rest = simp escaped-xml_escape

ruleset layout_lemmas = (escaped-xml_escape, properties_lem, outcome_lem)

module _ (fmt_secs : ℕ → Text) (plain : (d : ℕ) → All IsPlain (fmt_secs d)) where
  escaped-secs : (d : ℕ) (rest : Text) → escaped (fmt_secs d) rest ≡ fmt_secs d ++ rest
  escaped-secs d rest = escaped_plain (fmt_secs d) rest (plain d)

  testcase_lem :
      (r : TestResult) (outcome : TestOutcome) (ps : List (Text × Text)) (rest : Text)
      → render 2 (testcase_shape (testcase_attributes fmt_secs r) outcome ps) rest
        ≡ testcase_lines fmt_secs (record r { outcome = outcome; properties = ps }) rest
  unfolding render testcase_lines testcase_shape testcase_attributes
  testcase_lem r pass [] rest = simp escaped-secs (simp escaped-xml_escape)
  testcase_lem r pass (p ∷ ps) rest = simp escaped-secs (simp layout_lemmas)
  testcase_lem r (fail msg) ps rest = simp escaped-secs (simp layout_lemmas)
  testcase_lem r (skip reason) ps rest = simp escaped-secs (simp layout_lemmas)

  testcases_lem :
      (rs : List TestResult) (rest : Text)
      → render_all 2 (testcase_elements fmt_secs rs) rest ≡ testcases fmt_secs rs rest
  unfolding testcase_elements testcase_element testcases render
  testcases_lem [] rest = refl
  testcases_lem (r ∷ rs) rest =
      testcase_lem r r.outcome r.properties (render_all 2 (testcase_elements fmt_secs rs) rest)
      ∙ ap (λ t. testcase_lines fmt_secs r t) (testcases_lem rs rest)

  -- The report is the XML declaration and, below it, the layout of one document: the suites with
  -- the counts of the results, of those that failed and of those that were skipped, and an element
  -- for each result in order, with its properties and its failure or skip message. This holds for
  -- any rendering of durations that has no character with a meaning in XML.
  pub format_junit-render :
      (results : List TestResult) (total_duration : ℕ)
      → format_junit fmt_secs results total_duration
        ≡ codes "<?xml version=\"1.0\" encoding=\"UTF-8\"?>\n"
          ++ render 0 (report fmt_secs results total_duration) []
  unfolding format_junit render report counts
  format_junit-render results total_duration =
      sym (simp (escaped-decimal, escaped-secs, testcases_lem))
