-- ===== src/Config.antt =====
-- `Config` of src/config.rs: the environment variables and what they are read as.
pub mod Laws
mod Tests
use qemu_test.Prelude.{
  ℕ, ◌≡◌, refl, Option, none, some, Text, codes, ◌==◌, if◌then◌else◌, Result, ok, bail, context,
  ◌>>=◌,
}
use qemu_test.Number.{parse_usize}
use qemu_test.Options.{Accelerator, kvm, accelerator_try_from}
use qemu_test.Regex.{Engine}
use qemu_test.Filter.{TestFilter, parse}
use mathlib.Core.List.{◌++◌}

pub record Config : Type 0 where
  pub qemu_bin : Option Text
  pub accel : Option Text
  pub test_jobs : Option Text
  pub test_filter : Option Text
  pub test_repeat : Option Text
  pub keep_logs : Option Text
  pub test_junit_path : Option Text

-- `CONFIG`: `var` is `env::var(…).ok()`
unfoldable pub load : (Text → Option Text) → Config
load var = record {
  qemu_bin = var (codes "QEMU_BIN");
  accel = var (codes "ACCEL");
  test_jobs = var (codes "TEST_JOBS");
  test_filter = var (codes "TEST_FILTER");
  test_repeat = var (codes "TEST_REPEAT");
  keep_logs = var (codes "KEEP_LOGS");
  test_junit_path = var (codes "TEST_JUNIT_PATH");
}

abbrev pub qemu_bin : Config → Option Text
qemu_bin config = config.qemu_bin

abbrev pub keep_logs : Config → Option Text
keep_logs config = config.keep_logs

abbrev pub default_accelerator : Accelerator
default_accelerator = kvm

abbrev pub default_test_jobs : ℕ
default_test_jobs = 1

unfoldable pub accel : Config → Result Accelerator
accel config = elim config.accel [
  | none ↦ ok default_accelerator
  | some value ↦ context (accelerator_try_from value) (codes "invalid accelerator: " ++ value)
]

unfoldable pub test_jobs : Config → Result ℕ
test_jobs config = elim config.test_jobs [
  | none ↦ ok default_test_jobs
  | some value ↦ context (parse_usize value) (codes "invalid TEST_JOBS value")
]

-- `map` and `transpose`
abbrev transpose {ℓ} : {A : Type ℓ} → Result A → Result (Option A)
transpose r = do a ← r; ok (some a)

unfoldable pub test_filter : Engine → Config → Result (Option TestFilter)
test_filter re config = elim config.test_filter [
  | none ↦ ok none
  | some raw ↦ transpose (parse re raw)
]

unfoldable pub test_repeat : Config → Result ℕ
test_repeat config = elim config.test_repeat [
  | none ↦ ok 1
  | some value ↦ do
    repeat ← context (parse_usize value) (codes "invalid TEST_REPEAT value")
    if repeat == 0 then bail (codes "TEST_REPEAT must be at least 1") else ok repeat
]
