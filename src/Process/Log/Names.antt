-- ===== src/Process/Log/Names.antt =====
-- The names of the logs that `save_serial_log` of src/process.rs copies.
use mathlib.Core.List.{append_cancel_right}
use mathlib.Core.Option.{some-injective}
use qemu_test.Prelude.{
  ℕ, ◌≡◌, ◌≢◌, refl, sym, ap, ◌∙◌, Bool-cases, Option-cases, inl, inr, Option, none, some, [], ◌∷◌,
  ◌++◌, append_assoc, All, All-append, Lacks, Text, codes, path_join, starts_with, ends_with,
  is_empty, ◌==◌, if◌then◌else◌, Result, ok, err, arith,
}
use qemu_test.Number.{decimal, decimal-IsDigit, decimal-injective, IsDigit}
use qemu_test.Config.{Config}
use qemu_test.Process.Log.{sanitize, log_name, copy_log, save_serial_log}

-- what stands behind the last `c`
after_last : ℕ → Text → Option Text
after_last c [] = none
after_last c (a ∷ s) = elim (after_last c s) [
  | some t ↦ some t
  | none ↦ if a == c then some s else none
]

after_last-none : (c : ℕ) (t : Text) → Lacks c t → after_last c t ≡ none
unfolding after_last
after_last-none c [] h = refl
after_last-none c (a ∷ t) (ha, ht) = rw (after_last-none c t ht) (ground arith)

after_last-some : (c : ℕ) (s t : Text) → Lacks c t → after_last c (s ++ c ∷ t) ≡ some t
unfolding after_last
after_last-some c [] t h = rw (after_last-none c t h) (ground arith)
after_last-some c (a ∷ s) t h = rw (after_last-some c s t h) refl

digits-Lacks : (s : Text) → All IsDigit s → Lacks b'-' s
digits-Lacks [] h = tt
digits-Lacks (a ∷ s) ((low, high), h) = ((λ e. omega arith), digits-Lacks s h)

extension-Lacks : Lacks b'-' (codes ".log")
extension-Lacks =
    ((λ e. omega arith), ((λ e. omega arith), ((λ e. omega arith), ((λ e. omega arith), tt))))

tail-Lacks : (pid : ℕ) → Lacks b'-' (decimal pid ++ codes ".log")
tail-Lacks pid =
    All-append (λ a. a ≢ b'-') (decimal pid) (codes ".log")
      (digits-Lacks (decimal pid) (decimal-IsDigit pid)) extension-Lacks

path_join-append : (dir name : Text) → (front : Text) × (path_join dir name ≡ front ++ name)
path_join-append dir name = elim (Bool-cases (starts_with name (codes "/"))) [
  | inl b ↦ ([], rw b refl)
  | inr b ↦ (
    dir ++ (if ends_with dir b'/' then [] else elim dir [ [] ↦ [] | _ ↦ codes "/" ]),
    rw b (sym (append_assoc dir _ name)),
  )
]

-- the number of the process stands behind the last dash
path-after_last :
    (dir label : Text) (pid : ℕ)
    → after_last b'-' (path_join dir (log_name label pid)) ≡ some (decimal pid ++ codes ".log")
unfolding log_name
path-after_last dir label pid =
    let (front, e) = path_join-append dir (log_name label pid) in
    rw (e, ← append_assoc front (sanitize label) (codes "-" ++ (decimal pid ++ codes ".log")))
      (after_last-some b'-' (front ++ sanitize label) (decimal pid ++ codes ".log")
        (tail-Lacks pid))

path-injective :
    (dir dir' label label' : Text) (pid pid' : ℕ)
    → path_join dir (log_name label pid) ≡ path_join dir' (log_name label' pid')
    → pid ≡ pid'
path-injective dir dir' label label' pid pid' e = decimal-injective pid pid' (
    append_cancel_right (decimal pid) (decimal pid') (codes ".log") (
      some-injective _ _ (
        sym (path-after_last dir label pid)
        ∙ ap (after_last b'-') e
        ∙ path-after_last dir' label' pid')))

module _ {W : Type 0} (create_dir_all : Text → W → Result (Unit {0}) × W)
    (copy : Text → Text → W → Result (Unit {0}) × W)
    -- what stands in a file, if it is there
    (content : W → Text → Option Text)
    (create_lem : (dir path : Text) (w : W)
      → content (create_dir_all dir w).1 path ≡ content w path)
    (copy_lem : (from to path : Text) (w : W)
      → path ≢ to
      → content (copy from to w).1 path ≡ content w path) where
  copy_log-content :
      (dir label path : Text) (pid : ℕ) (serial_log_path : Text) (made : Result (Unit {0})) (w : W)
      → path ≢ path_join dir (log_name label pid)
      → content (copy_log create_dir_all copy dir label pid serial_log_path made w) path
        ≡ content w path
  unfolding copy_log
  copy_log-content dir label path pid serial_log_path (err e) w other = refl
  copy_log-content dir label path pid serial_log_path (ok done) w other =
      copy_lem serial_log_path (path_join dir (log_name label pid)) path w other

  -- If making a directory changes no file, and copying one only the file that is written, then saving
  -- the log of a process leaves the saved log of every process with another number as it is, whatever
  -- the labels of their tests and the directories.
  pub save_serial_log-content :
      (config : Config) (label dir' label' : Text) (pid pid' : ℕ) (serial_log_path : Text) (w : W)
      → pid ≢ pid'
      → content
          (save_serial_log create_dir_all copy config label pid serial_log_path w)
          (path_join dir' (log_name label' pid'))
        ≡ content w (path_join dir' (log_name label' pid'))
  unfolding save_serial_log
  save_serial_log-content config label dir' label' pid pid' serial_log_path w other =
      elim (Option-cases config.keep_logs) [
        | inl e ↦ rw e refl
        | inr (dir, e) ↦ rw e (elim (Bool-cases (is_empty label)) [
          | inl b ↦ rw b refl
          | inr b ↦ rw b (
              copy_log-content dir label (path_join dir' (log_name label' pid')) pid serial_log_path
                (create_dir_all dir w).0 (create_dir_all dir w).1
                (λ same. other (sym (path-injective dir' dir label' label pid' pid same)))
              ∙ create_lem dir (path_join dir' (log_name label' pid')) w)
        ])
      ]
