-- ===== src/Process/Log.antt =====
-- `save_serial_log` of src/process.rs. Making a directory and copying a file are parameters.
pub mod Names
mod Tests
use qemu_test.Prelude.{
  ℕ, Bool, ◌||◌, Option, none, some, List, [], ◌∷◌, Text, codes, concat, map, is_empty, path_join,
  ◌==◌, if◌then◌else◌, Result, ok, err,
}
use qemu_test.Number.{decimal}
use qemu_test.Config.{Config, keep_logs}

-- the characters that `label.replace` replaces
abbrev pub is_replaced : ℕ → Bool
is_replaced c = (c == b'(') || (c == b')') || (c == b',') || (c == b' ') || (c == b'=')

unfoldable pub sanitize : Text → Text
sanitize label = map (λ c. if is_replaced c then b'_' else c) label

unfoldable pub log_name : Text → ℕ → Text
log_name label pid = concat (sanitize label ∷ codes "-" ∷ decimal pid ∷ codes ".log" ∷ [])

module _ {W : Type 0} (create_dir_all : Text → W → Result (Unit {0}) × W)
    (copy : Text → Text → W → Result (Unit {0}) × W) where
  -- behind `create_dir_all`
  unfoldable pub copy_log : Text → Text → ℕ → Text → Result (Unit {0}) → W → W
  copy_log dir label pid serial_log_path (err e) w = w
  copy_log dir label pid serial_log_path (ok done) w =
      (copy serial_log_path (path_join dir (log_name label pid)) w).1

  unfoldable pub save_serial_log : Config → Text → ℕ → Text → W → W
  unfolding copy_log
  save_serial_log config label pid serial_log_path w = elim (keep_logs config) [
    | none ↦ w
    | some dir ↦
        if is_empty label
        then w
        else let (made, w') = create_dir_all dir w in copy_log dir label pid serial_log_path made w'
  ]
