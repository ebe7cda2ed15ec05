-- ===== src/Ssh.antt =====
-- src/ssh.rs: a command that is run in a guest by the program `ssh`, and retried while the guest does
-- not answer. Running `ssh` and the print of a `Duration` by `{:?}` are parameters.
pub mod Retry
pub mod Reached
mod Tests
use qemu_test.Prelude.{
  ℕ, ◌++◌, Bool, true, false, Option, none, some, List, [], ◌∷◌, Text, codes, concat, trim, ◌==◌,
  if◌then◌else◌, Result, ok, err, bail, context,
}
use qemu_test.Number.{decimal}
use qemu_test.Host.{Host, is_expired, from_secs, Round, done, again, repeat_rounds}

abbrev pub ssh_args : List Text
ssh_args =
    codes "-o"
    ∷ codes "StrictHostKeyChecking=no"
    ∷ codes "-o"
    ∷ codes "UserKnownHostsFile=/dev/null"
    ∷ codes "-o"
    ∷ codes "LogLevel=ERROR"
    ∷ []

-- `args` of both functions
unfoldable pub command_args : Text → Text → ℕ → Text → Text → List Text
command_args key_path host port user command =
    ssh_args
    ++ codes "-o"
      ∷ codes "ConnectTimeout=5"
      ∷ codes "-o"
      ∷ codes "BatchMode=yes"
      ∷ codes "-i"
      ∷ key_path
      ∷ codes "-p"
      ∷ decimal port
      ∷ concat (user ∷ codes "@" ∷ host ∷ [])
      ∷ command
      ∷ []

-- `std::process::Output`; `code` is the exit code, if the process was not ended by a signal
pub record Output : Type 0 where
  pub code : Option ℕ
  pub stdout : List ℕ
  pub stderr : List ℕ

-- `code == Some(n)`; `ExitStatus::success` is the exit code 0
abbrev pub exits_with : Output → ℕ → Bool
exits_with output n = elim output.code [ none ↦ false | some code ↦ code == n ]

-- `{:?}` of an exit code
abbrev pub code_text : Option ℕ → Text
code_text none = codes "None"
code_text (some code) = concat (codes "Some(" ∷ decimal code ∷ codes ")" ∷ [])

module _ (h : Host) (lossy : List ℕ → Text) (fmt_debug : ℕ → Text)
    (run : List Text → h.W → Result Output × h.W) where
  pub remote_failed : Output → Text
  remote_failed output = concat (
      codes "remote command failed (exit "
      ∷ code_text output.code
      ∷ codes "): stderr="
      ∷ trim (lossy output.stderr)
      ∷ codes " stdout="
      ∷ trim (lossy output.stdout)
      ∷ [])

  pub not_reached : ℕ → Output → Text
  not_reached timeout output =
      concat (
        codes "SSH failed after "
        ∷ fmt_debug timeout
        ∷ codes ": "
        ∷ trim (lossy output.stderr)
        ∷ [])

  -- behind the run of `ssh`
  unfoldable pub ssh_judge : ℕ → ℕ → Result Output → h.W → Round (Result Text) × h.W
  ssh_judge start timeout (err e) w = (done (context (err e) (codes "failed to run ssh")), w)
  ssh_judge start timeout (ok output) w =
      if exits_with output 0
      then (done (ok (trim (lossy output.stdout))), w)
      else if exits_with output 255
      then if is_expired h start timeout w
        then (done (bail (not_reached timeout output)), w)
        else (again, h.sleep (from_secs 2) w)
      else (done (bail (remote_failed output)), w)

  unfoldable pub ssh_round : List Text → ℕ → ℕ → h.W → Round (Result Text) × h.W
  unfolding ssh_judge
  ssh_round args start timeout w =
      if h.shutdown w
      then (done (bail (codes "interrupted")), w)
      else let (answer, w') = run args w in ssh_judge start timeout answer w'

  unfoldable pub ssh_command :
      ℕ → Text → Text → ℕ → Text → Text → ℕ → h.W → Option (Result Text) × h.W
  unfolding ssh_round
  ssh_command fuel key_path host port user command timeout w =
      repeat_rounds fuel
        (ssh_round (command_args key_path host port user command) (h.now w) timeout) w

  -- what `ssh` answers is only logged
  unfoldable pub ssh_fire_and_forget : Text → Text → ℕ → Text → Text → h.W → h.W
  ssh_fire_and_forget key_path host port user command w =
      (run (command_args key_path host port user command) w).1
