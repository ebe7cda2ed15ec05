-- ===== src/Process/Log/Tests.antt =====
-- The logs of two processes, in a file system that is a function.
use qemu_test.Prelude.{
  ◌≡◌, ◌≢◌, refl, Bool-cases, inl, inr, Option, some, none, Text, codes, path_join, text_eq,
  text_eq_iff, if◌then◌else◌, Result, ok, arith,
}
use qemu_test.Number.{decimal}
use qemu_test.Config.{Config, load}
use qemu_test.Process.Log.{sanitize, log_name, save_serial_log}
use qemu_test.Process.Log.Names.{save_serial_log-content}

abbrev Files : Type 0
Files = Text → Option Text

abbrev create_dir_all : Text → Files → Result (Unit {0}) × Files
create_dir_all dir files = (ok tt, files)

abbrev copy : Text → Text → Files → Result (Unit {0}) × Files
copy from to files = (ok tt, λ path. if text_eq path to then files from else files path)

copy_lem :
    (from to path : Text) (files : Files) → path ≢ to → (copy from to files).1 path ≡ files path
copy_lem from to path files other = elim (Bool-cases (text_eq path to)) [
  | inl e ↦ absurd (other ((text_eq_iff path to).0 e))
  | inr e ↦ rw e refl
]

-- KEEP_LOGS=logs
abbrev config : Config
config = load (λ name. if text_eq name (codes "KEEP_LOGS") then some (codes "logs") else none)

abbrev serial_log : Text
serial_log = codes "/tmp/a/serial.log"

-- one saved log, and the log of a process
abbrev files : Files
files path =
    if text_eq path serial_log
    then some (codes "booted\n")
    else if text_eq path (codes "logs/test-41.log")
    then some (codes "panic\n")
    else none

abbrev label : Text
label = codes "test_kernel_boot(smp=1, cpu=host)"

sanitized : sanitize label ≡ codes "test_kernel_boot_smp_1__cpu_host_"
unfolding sanitize
sanitized = refl

saved :
    save_serial_log create_dir_all copy config label 42 serial_log files
      (codes "logs/test_kernel_boot_smp_1__cpu_host_-42.log")
    ≡ some (codes "booted\n")
unfolding save_serial_log log_name sanitize load decimal
saved = refl

save_serial_log-content_example :
    save_serial_log create_dir_all copy config label 42 serial_log files
      (path_join (codes "logs") (log_name (codes "test") 41))
    ≡ files (path_join (codes "logs") (log_name (codes "test") 41))
save_serial_log-content_example =
    save_serial_log-content create_dir_all copy (λ w path. w path) (λ dir path w. refl) copy_lem
      config label (codes "logs") (codes "test") 42 41 serial_log files (λ e. omega arith)
