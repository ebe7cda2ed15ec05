-- ===== src/Runner/Suite.antt =====
-- A run of src/main.rs with the tests of src/tests: what a success of the process says of each test.
mod Tests
use qemu_test.Prelude.{
  ℕ, suc, ◌≤◌, ◌≡◌, refl, sym, subst, zero, inl, inr, Bool, true, false, Option, none, some, List,
  [], ◌∷◌, Text, is_some, repeat, Member, Member-left, if◌then◌else◌, Result, ok, err, bail, codes,
  arith, ◌>>=◌,
}
use qemu_test.Regex.{Engine}
use qemu_test.Filter.{TestFilter}
use qemu_test.Config.{Config, test_jobs, test_repeat, test_filter}
use qemu_test.Config.Laws.{test_repeat_bounds}
use qemu_test.Host.{Host}
use qemu_test.Host.Task.{Task, Succeeds}
use qemu_test.Junit.{TestResult}
use qemu_test.Runner.{TestEntry, label, run_test, select_entry, select, main, configured}
use qemu_test.Runner.Selection.{IsWanted, run_iff}
use qemu_test.Runner.Verdict.{Ran, Passed, scheduled}
use qemu_test.Runner.Exit.{exit, exit_iff}
use qemu_test.Scenario.Ends.{Returns}

module _ (h : Host) where
  -- a test that returns, whatever label it is run under, with what holds of its result and the state
  -- that it leaves
  pub record Guarded : Type 1 where
    pub name : Text
    pub props : List (Text × Text)
    pub skip_reason : Option Text
    pub task : Text → Task h.W (Unit {0})
    pub Promise : Result (Unit {0}) → h.W → Type 0
    pub returns : (test_label : Text) → Returns Promise (task test_label)

  -- a loop that has not ended has no result, which the promise excludes
  abbrev pub settle : Option (Result (Unit {0})) → Result (Unit {0})
  settle none = bail (codes "still running")
  settle (some r) = r

  -- its entry, whose function is the run of the task
  abbrev pub entry_of : Guarded → TestEntry h
  entry_of t = record {
    name = t.name;
    props = t.props;
    test_fn = λ test_label w. let (r, w') = t.task test_label w in (settle r, w');
    skip_reason = t.skip_reason;
  }

  -- some run of the test found no shutdown and returned `Ok`, and what the test promises of that holds
  abbrev pub Held : Guarded → Type 0
  Held t =
      (u v : h.W) × (h.shutdown u ≡ false)
      × Succeeds (t.task (label h (entry_of t))) u tt v
      × t.Promise (ok tt) v

  -- the rest of the selection, with an entry in front of it or not
  abbrev in_front : Bool → TestEntry h → List (TestEntry h) → List (TestEntry h)
  in_front run x rest = if run then x ∷ rest else rest

  in_front-first :
      (run : Bool) (entry x : TestEntry h) (rest : List (TestEntry h))
      → run ≡ true
      → entry ≡ x
      → Member entry (in_front run x rest)
  in_front-first true entry x rest r e = inl e
  in_front-first false entry x rest r e = cc

  in_front-Member :
      (run : Bool) (entry x : TestEntry h) (rest : List (TestEntry h))
      → Member entry rest
      → Member entry (in_front run x rest)
  in_front-Member true entry x rest m = inr m
  in_front-Member false entry x rest m = m

  select-Member :
      (filter : Option TestFilter) (junit : Bool) (entry : TestEntry h)
      (entries : List (TestEntry h))
      → Member entry entries
      → IsWanted h filter entry
      → Member entry (select h filter junit entries).0
  unfolding select
  select-Member filter junit entry [] m wanted = elim m [ ]
  select-Member filter junit entry (x ∷ entries) (inl e) wanted =
      in_front-first (select_entry h filter junit x).0 entry x (select h filter junit entries).0
        (subst (λ (y : TestEntry h). (select_entry h filter junit y).0 ≡ true) e
          ((run_iff h filter junit entry).1 wanted))
        e
  select-Member filter junit entry (x ∷ entries) (inr m) wanted =
      in_front-Member (select_entry h filter junit x).0 entry x (select h filter junit entries).0
        (select-Member filter junit entry entries m wanted)

  repeat-Member :
      (n : ℕ) (entry : TestEntry h) (entries : List (TestEntry h))
      → 1 ≤ n
      → Member entry entries
      → Member entry (repeat n entries)
  repeat-Member zero entry entries le m = absurd (omega arith)
  repeat-Member (suc n) entry entries le m = Member-left entry entries (repeat n entries) m

  Passed-Member :
      (entry : TestEntry h) (es : List (TestEntry h)) (rs : List TestResult) (ran : Ran h es rs)
      → Passed h es rs ran
      → Member entry es
      → (u : h.W) × (h.shutdown u ≡ false) × ((entry.test_fn (label h entry) u).0 ≡ ok tt)
  Passed-Member entry [] rs ran p m = elim m [ ]
  Passed-Member entry (e ∷ es) [] ran p m = elim p [ ]
  Passed-Member entry (e ∷ es) (r ∷ rs) ((u, q), ran) (p, ps) (inl x) =
      (u, p.0, subst (λ (y : TestEntry h). (y.test_fn (label h y) u).0 ≡ ok tt) (sym x) p.1)
  Passed-Member entry (e ∷ es) (r ∷ rs) ((u, q), ran) (p, ps) (inr m) =
      Passed-Member entry es rs ran ps m

  entry-Held :
      (t : Guarded) (u : h.W)
      → h.shutdown u ≡ false
      → ((entry_of t).test_fn (label h (entry_of t)) u).0 ≡ ok tt
      → Held t
  entry-Held t u s q =
      let (r, v, e, met) = t.returns (label h (entry_of t)) u in
      let passed : r ≡ ok tt =
        subst (λ (p : Option (Result (Unit {0})) × h.W). settle p.0 ≡ ok tt) e q in
      (
        u,
        v,
        s,
        subst (λ x. t.task (label h (entry_of t)) u ≡ (some x, v)) passed e,
        subst (λ x. t.Promise x v) passed met,
      )

-- the three settings of `main`
combine : Result ℕ → Result ℕ → Result (Option TestFilter) → Result (ℕ × ℕ × Option TestFilter)
combine jobs repeats filter = jobs >>= λ j. repeats >>= λ n. filter >>= λ f. ok (j, n, f)

combine_inv :
    (jobs repeats : Result ℕ) (filter : Result (Option TestFilter)) (j n : ℕ)
    (f : Option TestFilter)
    → combine jobs repeats filter ≡ ok (j, n, f)
    → repeats ≡ ok n
unfolding combine
combine_inv (err e) repeats filter j n f c = cc
combine_inv (ok x) (err e) filter j n f c = cc
combine_inv (ok x) (ok y) (err e) j n f c = cc
combine_inv (ok x) (ok y) (ok z) j n f c = cc

module _ (h : Host) (re : Engine) (fmt_secs : ℕ → Text)
    (shuffle : List (TestEntry h) → List (TestEntry h))
    (shuffles : (entry : TestEntry h) (es : List (TestEntry h))
      → Member entry es
      → Member entry (shuffle es))
    (pool : ℕ → List (TestEntry h) → List TestResult) (elapsed : ℕ)
    (runs : (jobs : ℕ) (es : List (TestEntry h)) → Ran h es (pool jobs es))
    (write : Text → Text → h.W → Result (Unit {0}) × h.W) where
  -- With a configuration that can be read, a shuffling that loses no entry and a thread pool that runs
  -- `run_test` on each: if the process succeeds, then for every registered test that the filter
  -- selects, some run of it found no shutdown and returned `Ok`, and what the test promises of such a
  -- run holds.
  pub suite_holds :
      (config : Config) (entries : List (TestEntry h)) (jobs repeats : ℕ)
      (filter : Option TestFilter) (w w' : h.W) (t : Guarded h)
      → configured h re fmt_secs shuffle pool elapsed config ≡ ok (jobs, repeats, filter)
      → Succeeds
          (exit fmt_secs write elapsed (main h re fmt_secs shuffle pool elapsed config entries))
          w
          tt
          w'
      → Member (entry_of h t) entries
      → IsWanted h filter (entry_of h t)
      → Held h t
  unfolding combine
  suite_holds config entries jobs repeats filter w w' t c e m wanted =
      let (passed, reported) =
        (exit_iff h re fmt_secs shuffle pool elapsed runs write config entries jobs repeats filter w
            w' c).0
          e in
      let n =
        combine_inv (test_jobs config) (test_repeat config) (test_filter re config) jobs repeats
          filter c in
      let junit = is_some config.test_junit_path in
      let entry = entry_of h t in
      let chosen = select-Member h filter junit entry entries m wanted in
      let repeated =
        repeat-Member h repeats entry (select h filter junit entries).0
          (test_repeat_bounds config repeats n).0 chosen in
      let (u, s, q) =
        Passed-Member h entry (scheduled h shuffle config repeats filter entries)
          (pool jobs (scheduled h shuffle config repeats filter entries))
          (runs jobs (scheduled h shuffle config repeats filter entries)) passed
          (shuffles entry _ repeated) in
      entry-Held h t u s q
