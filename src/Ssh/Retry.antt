-- ===== src/Ssh/Retry.antt =====
-- The rounds of `ssh_command` of src/ssh.rs.
use native.Mathlib.Nat.{add-suc}
use mathlib.Core.Option.{some-injective}
use qemu_test.Prelude.{
  ℕ, ◌+◌, ◌/◌, ◌≤◌, ◌<◌, ◌≡◌, ◌≢◌, ◌↔◌, ◌⊎◌, inl, inr, refl, sym, ap, ◌∙◌, true, false, Bool-cases,
  Option, none, some, List, ◌∷◌, Text, codes, trim, ◌==◌, ==_iff, Result, ok, err, bail, arith,
}
use qemu_test.Host.{Host, IsForward, is_expired, from_secs, done, again}
use qemu_test.Host.Rounds.{Goes, done-injective, again-ne-done, repeat-Leaves, repeat-ends}
use qemu_test.Ssh.{
  Output, exits_with, command_args, remote_failed, not_reached, ssh_judge, ssh_round, ssh_command,
}

exits_iff : (output : Output) (n : ℕ) → (exits_with output n ≡ true) ↔ (output.code ≡ some n)
exits_iff output n = by_code output.code
  where
    by_code :
        (c : Option ℕ) → (elim c [ none ↦ false | some code ↦ code == n ] ≡ true) ↔ (c ≡ some n)
    by_code none = ((λ e. cc), (λ e. cc))
    by_code (some code) =
        ((λ e. ap some ((==_iff code n).0 e)), (λ e. (==_iff code n).1 (some-injective code n e)))

module _ (h : Host) (lossy : List ℕ → Text) (fmt_debug : ℕ → Text)
    (run : List Text → h.W → Result Output × h.W) where
  -- what a run of `ssh` ended the loop with
  abbrev pub Answered : List Text → ℕ → ℕ → h.W → Result Text → h.W → Type 0
  Answered args start timeout u r w' =
      ((e : List Text) × (run args u ≡ (err e, w')) × (r ≡ err (codes "failed to run ssh" ∷ e)))
      ⊎ ((o : Output) × (run args u ≡ (ok o, w'))
          × (((o.code ≡ some 0) × (r ≡ ok (trim (lossy o.stdout))))
              ⊎ ((o.code ≡ some 255)
                  × (is_expired h start timeout w' ≡ true)
                  × (r ≡ bail (not_reached h lossy fmt_debug run timeout o)))
              ⊎ ((o.code ≢ some 0)
                  × (o.code ≢ some 255)
                  × (r ≡ bail (remote_failed h lossy fmt_debug run o)))))

  -- What ends the loop, in the state `u` of its last round: one thing, and it alone.
  abbrev pub SshEnd : List Text → ℕ → ℕ → h.W → Result Text → h.W → Type 0
  SshEnd args start timeout u r w' =
      ((h.shutdown u ≡ true) × (r ≡ bail (codes "interrupted")) × (w' ≡ u))
      ⊎ ((h.shutdown u ≡ false) × Answered args start timeout u r w')

  judge_end :
      (args : List Text) (start timeout : ℕ) (u w' : h.W) (r : Result Text) (answer : Result Output)
      (v : h.W)
      → run args u ≡ (answer, v)
      → ssh_judge h lossy fmt_debug run start timeout answer v ≡ (done r, w')
      → Answered args start timeout u r w'
  unfolding ssh_judge
  judge_end args start timeout u w' r (err e) v q j =
      let (er, ew) = done-injective j in inl (e, rw ew q, er)
  judge_end args start timeout u w' r (ok o) v q j = elim (Bool-cases (exits_with o 0)) [
    | inl a ↦
        let (er, ew) = done-injective (rw a at j) in inr (o, rw ew q, inl ((exits_iff o 0).0 a, er))
    | inr a ↦
        let j' = rw a at j in
        elim (Bool-cases (exits_with o 255)) [
          | inl b ↦
              let j'' = rw b at j' in
              elim (Bool-cases (is_expired h start timeout v)) [
                | inl x ↦
                    let (er, ew) = done-injective (rw x at j'') in
                    inr (o, rw ew q, inr (inl ((exits_iff o 255).0 b, rw ew x, er)))
                | inr x ↦ absurd (again-ne-done (rw x at j''))
              ]
          | inr b ↦
              let (er, ew) = done-injective (rw b at j') in
              inr (
                o,
                rw ew q,
                inr (
                    inr (
                      (λ c. cc ((exits_iff o 0).1 c, a)),
                      (λ c. cc ((exits_iff o 255).1 c, b)),
                      er,
                    )),
              )
        ]
  ]

  round_end :
      (args : List Text) (start timeout : ℕ) (u w' : h.W) (r : Result Text)
      → ssh_round h lossy fmt_debug run args start timeout u ≡ (done r, w')
      → SshEnd args start timeout u r w'
  unfolding ssh_round
  round_end args start timeout u w' r e = elim (Bool-cases (h.shutdown u)) [
    | inl s ↦ let (er, ew) = done-injective (rw s at e) in inl (s, er, ew)
    | inr s ↦
        inr (s, judge_end args start timeout u w' r (run args u).0 (run args u).1 refl (rw s at e))
  ]

  -- What `ssh_command` returns was decided by its last round, behind rounds that went on: the error of
  -- a shutdown if that was asked for, without a run of `ssh`; and only if it was not, the trimmed
  -- output if `ssh` exited with 0, and an error if `ssh` could not be run, if it exited with 255 and
  -- the timeout has passed, or if it ended otherwise.
  pub ssh_command_end :
      (fuel : ℕ) (key_path host : Text) (port : ℕ) (user command : Text) (timeout : ℕ) (w w' : h.W)
      (r : Result Text)
      → ssh_command h lossy fmt_debug run fuel key_path host port user command timeout w
        ≡ (some r, w')
      → (u : h.W) × Goes
          (ssh_round h lossy fmt_debug run
            (command_args key_path host port user command)
            (h.now w)
            timeout)
          w
          u
        × SshEnd (command_args key_path host port user command) (h.now w) timeout u r w'
  unfolding ssh_command
  ssh_command_end fuel key_path host port user command timeout w w' r e =
      let args = command_args key_path host port user command in
      let (u, g, last) =
        repeat-Leaves (ssh_round h lossy fmt_debug run args (h.now w) timeout) fuel w w' r e in
      (u, g, round_end args (h.now w) timeout u w' r last)

  judge_again :
      (args : List Text) (start timeout : ℕ) (answer : Result Output) (v : h.W)
      → ((ssh_judge h lossy fmt_debug run start timeout answer v).0 ≡ again) ↔ (
          (o : Output) × (answer ≡ ok o)
          × (o.code ≡ some 255)
          × (is_expired h start timeout v ≡ false))
  unfolding ssh_judge
  judge_again args start timeout (err e) v = ((λ i. cc), (λ x. absurd (err-ne-ok x.1)))
    where
      err-ne-ok : {o : Output} → ¬ (◌≡◌ {A = Result Output} (err e) (ok o))
      err-ne-ok i = cc
  judge_again args start timeout (ok o) v = elim (Bool-cases (exits_with o 0)) [
    | inl a ↦ (
      (λ i. absurd (cc (rw a at i))),
      (λ x. absurd (zero_not_255 ((exits_iff o 0).0 a) (ok-code x.1 ∙ x.2))),
    )
    | inr a ↦ elim (Bool-cases (exits_with o 255)) [
      | inl b ↦ elim (Bool-cases (is_expired h start timeout v)) [
        | inl x ↦ ((λ i. absurd (cc (rw (a, b, x) at i))), (λ y. absurd (cc (y.3, x))))
        | inr x ↦ ((λ i. (o, refl, (exits_iff o 255).0 b, x)), (λ y. rw (a, b, x) refl))
      ]
      | inr b ↦ (
        (λ i. absurd (cc (rw (a, b) at i))),
        (λ x. absurd (cc ((exits_iff o 255).1 (ok-code x.1 ∙ x.2), b))),
      )
    ]
  ]
    where
      zero_not_255 : o.code ≡ some 0 → o.code ≡ some 255 → ⊥
      zero_not_255 z f = absurd (omega (arith, some-injective 0 255 (sym z ∙ f)))

      ok-code : {p : Output} → ok o ≡ ok p → o.code ≡ p.code
      ok-code {p} i = let k : o ≡ p = cc i in ap (λ (q : Output). q.code) k

  -- A round goes on exactly when no shutdown was asked for, `ssh` could be run and exited with its own
  -- code 255, and the timeout has not passed.
  pub ssh_round_again_iff :
      (args : List Text) (start timeout : ℕ) (u : h.W)
      → ((ssh_round h lossy fmt_debug run args start timeout u).0 ≡ again) ↔ (
          (h.shutdown u ≡ false)
          × ((o : Output) × ((run args u).0 ≡ ok o)
              × (o.code ≡ some 255)
              × (is_expired h start timeout (run args u).1 ≡ false)))
  unfolding ssh_round
  ssh_round_again_iff args start timeout u = elim (Bool-cases (h.shutdown u)) [
    | inl s ↦ ((λ e. absurd (cc (rw s at e))), (λ x. absurd (cc (x.0, s))))
    | inr s ↦
        let j = judge_again args start timeout (run args u).0 (run args u).1 in
        ((λ e. (s, j.0 (rw s at e))), (λ x. rw s (j.1 x.1)))
  ]

  module _ (forward : (args : List Text) → IsForward h (run args)) where
    pauses :
        (args : List Text) (start timeout : ℕ) (w : h.W)
        → (ssh_round h lossy fmt_debug run args start timeout w).0 ≡ again
        → h.now w + from_secs 2 ≤ h.now (ssh_round h lossy fmt_debug run args start timeout w).1
    unfolding ssh_round
    pauses args start timeout w e =
        ground (arith, forward args w, h.sleep_lem (from_secs 2) (run args w).1)

    stops :
        (args : List Text) (start timeout : ℕ) (w : h.W)
        → start + timeout < h.now w
        → (ssh_round h lossy fmt_debug run args start timeout w).0 ≢ again
    unfolding ssh_round
    stops args start timeout w late e = ground (arith, forward args w)

    -- If running `ssh` does not turn back the clock, `ssh_command` returns after `timeout` divided by
    -- 2 s, plus two, runs of `ssh` at most.
    pub ssh_command_total :
        (key_path host : Text) (port : ℕ) (user command : Text) (timeout : ℕ) (w : h.W)
        → (r : Result Text) × ((ssh_command h lossy fmt_debug run
              (timeout / from_secs 2 + 2)
              key_path
              host
              port
              user
              command
              timeout
              w).0
            ≡ some r)
    unfolding ssh_command
    ssh_command_total key_path host port user command timeout w =
        let args = command_args key_path host port user command in
        rw (add-suc (timeout / from_secs 2) 1) (
          repeat-ends h.now (h.now w + timeout) (from_secs 2)
            (ssh_round h lossy fmt_debug run args (h.now w) timeout) (pauses args (h.now w) timeout)
            (stops args (h.now w) timeout) (timeout / from_secs 2 + 1) w (omega arith))
