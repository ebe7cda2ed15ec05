-- ===== src/Ssh/Reached.antt =====
-- A success of `ssh_command` of src/ssh.rs.
use qemu_test.Prelude.{ℕ, ◌+◌, ◌/◌, ◌≡◌, inl, inr, some, List, Text, trim, Result, ok, err}
use qemu_test.Host.{Host, IsForward, from_secs}
use qemu_test.Host.Rounds.{Goes}
use qemu_test.Host.Task.Told.{Says, IsTold}
use qemu_test.Ssh.{Output, command_args, ssh_round, ssh_command}
use qemu_test.Ssh.Retry.{SshEnd, ssh_command_end, ssh_command_total}

-- the runs of `ssh` that are enough
abbrev pub ssh_fuel : ℕ → ℕ
ssh_fuel timeout = timeout / from_secs 2 + 2

module _ (h : Host) (lossy : List ℕ → Text) (fmt_debug : ℕ → Text)
    (run : List Text → h.W → Result Output × h.W)
    (forward : (args : List Text) → IsForward h (run args)) where
  -- behind runs of `ssh` that did not reach the host, the last one exited with 0, and printed the output
  abbrev pub Ran : Text → Text → ℕ → Text → Text → ℕ → h.W → Text → h.W → Type 0
  Ran key_path host port user command timeout w output w' =
      (o : Output) × (u : h.W) × Goes
        (ssh_round h lossy fmt_debug run (command_args key_path host port user command) (h.now w)
          timeout)
        w u
      × (run (command_args key_path host port user command) u ≡ (ok o, w'))
      × (o.code ≡ some 0)
      × (output ≡ trim (lossy o.stdout))

  SshEnd-Ran :
      (key_path host : Text) (port : ℕ) (user command : Text) (timeout : ℕ) (w u w' : h.W)
      (r : Result Text)
      → Goes
          (ssh_round h lossy fmt_debug run
            (command_args key_path host port user command)
            (h.now w)
            timeout)
          w
          u
      → SshEnd h lossy fmt_debug run
          (command_args key_path host port user command)
          (h.now w)
          timeout
          u
          r
          w'
      → Says (Ran key_path host port user command timeout) r w w'
  SshEnd-Ran key_path host port user command timeout w u w' (err e) g ended = tt
  SshEnd-Ran key_path host port user command timeout w u w' (ok output) g (inl (s, e, x)) =
      absurd (ok-ne-err e)
    where
      ok-ne-err : {a : Text} {e : List Text} → ¬ (◌≡◌ {A = Result Text} (ok a) (err e))
      ok-ne-err i = cc
  SshEnd-Ran key_path host port user command timeout w u w' (ok output) g (inr (s, inl (x, q, e))) =
      absurd (cc e)
  SshEnd-Ran key_path host port user command timeout w u w' (ok output) g
        (inr (s, inr (o, q, inl (z, e)))) =
      (o, u, g, q, z, cc e)
  SshEnd-Ran key_path host port user command timeout w u w' (ok output) g
        (inr (s, inr (o, q, inr (inl (z, x, e))))) =
      absurd (cc e)
  SshEnd-Ran key_path host port user command timeout w u w' (ok output) g
        (inr (s, inr (o, q, inr (inr (z, x, e))))) =
      absurd (cc e)

  pub ssh_command-IsTold :
      (key_path host : Text) (port : ℕ) (user command : Text) (timeout : ℕ)
      → IsTold (Ran key_path host port user command timeout) (
          ssh_command h lossy fmt_debug run
            (ssh_fuel timeout)
            key_path
            host
            port
            user
            command
            timeout)
  ssh_command-IsTold key_path host port user command timeout w =
      let (r, e) =
        ssh_command_total h lossy fmt_debug run forward key_path host port user command timeout w in
      let run_of =
        ssh_command h lossy fmt_debug run (ssh_fuel timeout) key_path host port user command timeout
          w in
      let q : run_of ≡ (some r, run_of.1) = λ i. (e i, run_of.1) in
      let (u, g, ended) =
        ssh_command_end h lossy fmt_debug run (ssh_fuel timeout) key_path host port user command
          timeout w run_of.1 r q in
      (r, run_of.1, q, SshEnd-Ran key_path host port user command timeout w u run_of.1 r g ended)
