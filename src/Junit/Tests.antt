-- ===== src/Junit/Tests.antt =====
-- Examples of a report.
use qemu_test.Prelude.{ℕ, ◌/◌, ◌++◌, ◌≡◌, refl, some, none, List, [], ◌∷◌, Text, codes, All}
use qemu_test.Number.{decimal, decimal-IsDigit}
use qemu_test.Junit.{TestResult, pass, fail, skip, xml_escape, format_junit}
use qemu_test.Junit.Escape.{unescape, unescape-xml_escape, IsPlain}
use qemu_test.Junit.Xml.{render}
use qemu_test.Junit.Report.{report, format_junit-render, digits-IsPlain}

xml_escape_example : xml_escape (codes "a<b & \"c\"") ≡ codes "a&lt;b &amp; &quot;c&quot;"
unfolding xml_escape
xml_escape_example = refl

unescape-xml_escape_example :
    unescape (xml_escape (codes "a<b & \"c\"")) none ≡ some (codes "a<b & \"c\"")
unescape-xml_escape_example = unescape-xml_escape (codes "a<b & \"c\"")

-- whole seconds
abbrev seconds : ℕ → Text
seconds d = decimal (d / 1_000_000_000)

seconds-IsPlain : (d : ℕ) → All IsPlain (seconds d)
seconds-IsPlain d = digits-IsPlain (seconds d) (decimal-IsDigit (d / 1_000_000_000))

abbrev results : List TestResult
results =
    record {
      label = codes "boot(smp=2)";
      properties = (codes "smp", codes "2") ∷ [];
      outcome = pass;
      duration = 3_000_000_000;
    }
    ∷ record {
      label = codes "migrate";
      properties = [];
      outcome = fail (codes "status < running");
      duration = 12_000_000_000;
    }
    ∷ record {
      label = codes "tap";
      properties = [];
      outcome = skip (codes "no taps");
      duration = 0;
    }
    ∷ []

format_junit-render_example :
    format_junit seconds results 15_000_000_000
    ≡ codes "<?xml version=\"1.0\" encoding=\"UTF-8\"?>\n"
      ++ render 0 (report seconds results 15_000_000_000) []
format_junit-render_example = format_junit-render seconds seconds-IsPlain results 15_000_000_000
