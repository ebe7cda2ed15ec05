-- ===== src/Scenario/Ends.antt =====
-- What a test of src/tests returns, and what it leaves, by the locals that it drops.
use qemu_test.Prelude.{◌≡◌, ◌⊎◌, inl, inr, refl, some, List, ◌∷◌, Text, Result, ok, err}
use qemu_test.Config.{Config}
use qemu_test.Guest.Builder.{QemuConfig}
use qemu_test.Host.{Host}
use qemu_test.Host.Task.{Task, ◌>>=◌, call, with_context, Succeeds}
use qemu_test.Process.Spawn.{Launcher, QemuProcess, connect_fuel, spawn}
use qemu_test.Process.Spawn.Fails.{spawn_end}
use qemu_test.Process.Child.{drop}
use qemu_test.Process.Child.Reaped.{Gone, drop_total, drop_reaps}
use qemu_test.Scenario.Outside.{Bench, drop_fuel}
use qemu_test.Scenario.{behind, dropping, with_local, with_process, with_temp_dir}

-- From this state the task returns, and `Q` holds of its result and the state that it leaves.
abbrev pub EndsWith :
    {W : Type 0} → (Result (Unit {0}) → W → Type 0) → Task W (Unit {0}) → W → Type 0
EndsWith {W} Q task w = (r : Result (Unit {0})) × (w' : W) × (task w ≡ (some r, w')) × Q r w'

abbrev pub Returns : {W : Type 0} → (Result (Unit {0}) → W → Type 0) → Task W (Unit {0}) → Type 0
Returns {W} Q task = (w : W) → EndsWith Q task w

-- an error with this message in front, or what follows
abbrev pub FailsOr :
    {W : Type 0} → Text → (Result (Unit {0}) → W → Type 0) → Result (Unit {0}) → W → Type 0
FailsOr message Q r w' = ((e : List Text) × (r ≡ err (message ∷ e))) ⊎ Q r w'

module _ {W A : Type 0} (Q : Result (Unit {0}) → W → Type 0) where
  -- a task with a context, and the rest of the function
  pub task-FailsOr :
      (task : Task W A) (message : Text) (rest : A → Task W (Unit {0}))
      → ((w : W) → (r : Result A) × ((task w).0 ≡ some r))
      → ((a : A) → Returns Q (rest a))
      → Returns (FailsOr message Q) (with_context task message >>= rest)
  task-FailsOr task message rest total returns w =
      let (answer, e) = total w in answered answer (task w).1 (λ i. (e i, (task w).1))
    where
      answered :
          (answer : Result A) (v : W)
          → task w ≡ (some answer, v)
          → EndsWith (FailsOr message Q) (with_context task message >>= rest) w
      answered (err e) v q = (err (message ∷ e), v, rw q refl, inl (e, refl))
      answered (ok a) v q = let (r, w', e, met) = returns a v in (r, w', rw (q, e) refl, inr met)

  pub call-FailsOr :
      (f : W → Result A × W) (message : Text) (rest : A → Task W (Unit {0}))
      → ((a : A) → Returns Q (rest a))
      → Returns (FailsOr message Q) (with_context (call f) message >>= rest)
  call-FailsOr f message rest returns =
      task-FailsOr (call f) message rest (λ w. ((f w).0, refl)) returns

module _ {W A : Type 0} where
  -- The local could not be made, or it was made, and what holds behind the rest of the function, and
  -- then the local is dropped.
  abbrev pub LocalEnd :
      (W → Result A × W)
      → (A → W → W)
      → Text
      → (A → Result (Unit {0}) → W → Type 0)
      → Result (Unit {0})
      → W
      → Type 0
  LocalEnd make close message Q =
      FailsOr message
        λ r w'. (a : A) × (u v v' : W) × (make u ≡ (ok a, v)) × Q a r v' × (w' ≡ close a v')

  pub with_local-LocalEnd :
      (make : W → Result A × W) (close : A → W → W) (Q : A → Result (Unit {0}) → W → Type 0)
      (message : Text) (body : A → Task W (Unit {0}))
      → ((a : A) → Returns (Q a) (body a))
      → Returns (LocalEnd make close message Q) (with_local make close message body)
  unfolding with_local
  with_local-LocalEnd make close Q message body returns w = made (make w).0 (make w).1 refl
    where
      made :
          (answer : Result A) (v : W)
          → make w ≡ (answer, v)
          → EndsWith (LocalEnd make close message Q) (with_local make close message body) w
      made (err e) v q = (err (message ∷ e), v, rw q refl, inl (e, refl))
      made (ok a) v q =
          let (r, u, er, met) = returns a v in
          (r, close a u, rw (q, er) refl, inr (a, w, v, u, q, met, refl))

module _ (h : Host) (l : Launcher h) (b : Bench h l) where
  -- the child of a process is gone, or the last look at it failed
  abbrev pub IsGone : QemuProcess h l → h.W → Type 0
  IsGone process =
      Gone h (b.child_of process) (b.reaped process) (b.wait_lem process) (b.poll_lem process)

  -- The process could not be made, or it was spawned with this configuration, and what follows.
  abbrev pub SpawnedOr :
      Text
      → Config
      → QemuConfig
      → (QemuProcess h l → Result (Unit {0}) → h.W → Type 0)
      → Result (Unit {0})
      → h.W
      → Type 0
  SpawnedOr message config cfg Q = FailsOr message λ r w'.
      (process : QemuProcess h l) × (u v : h.W) × Succeeds (spawn h l connect_fuel config cfg) u
        process v
      × Q process r w'

  pub spawn-SpawnedOr :
      (Q : QemuProcess h l → Result (Unit {0}) → h.W → Type 0) (message : Text) (config : Config)
      (cfg : QemuConfig) (rest : QemuProcess h l → Task h.W (Unit {0}))
      → ((process : QemuProcess h l) → Returns (Q process) (rest process))
      → Returns
          (SpawnedOr message config cfg Q)
          (with_context (spawn h l connect_fuel config cfg) message >>= rest)
  spawn-SpawnedOr Q message config cfg rest returns w =
      let (started, v, e, _) =
        spawn_end h l b.exists_lem (λ child u. Unit) (λ name list child u q. tt) (λ d child u a. tt)
          (λ path child u a. tt) (λ path child u a. tt) (λ s d child u a. tt) (λ s d child u a. tt)
          (λ s child u a. tt) (λ s t child u a. tt) (λ path child u a. tt) config cfg w in
      by_spawn started v e
    where
      by_spawn :
          (started : Result (QemuProcess h l)) (v : h.W)
          → spawn h l connect_fuel config cfg w ≡ (some started, v)
          → EndsWith
              (SpawnedOr message config cfg Q)
              (with_context (spawn h l connect_fuel config cfg) message >>= rest)
              w
      by_spawn (err e) v q = (err (message ∷ e), v, rw q refl, inl (e, refl))
      by_spawn (ok p) v q =
          let (r, w', e, met) = returns p v in (r, w', rw (q, e) refl, inr (p, w, v, q, met))

  -- what holds behind a function, and then the process is gone
  abbrev pub GoneAfter :
      (Result (Unit {0}) → h.W → Type 0) → QemuProcess h l → Result (Unit {0}) → h.W → Type 0
  GoneAfter Q process r w' = (v : h.W) × Q r v × IsGone process w'

  dropping-GoneAfter :
      (Q : Result (Unit {0}) → h.W → Type 0) (process : QemuProcess h l)
      (body : Task h.W (Unit {0}))
      → Returns Q body
      → Returns
          (GoneAfter Q process)
          (dropping (drop h (b.child_of process) drop_fuel process.accel) body)
  dropping-GoneAfter Q process body returns w =
      let c = b.child_of process in
      let (r, u, e, met) = returns w in
      let dropped = drop_total h c (b.try_wait_lem process) process.accel u in
      let w' = (drop h c drop_fuel process.accel u).1 in
      let gone =
        drop_reaps h c (b.reaped process) (b.wait_lem process) (b.poll_lem process) drop_fuel
          process.accel u w' (λ i. (dropped i, w')) in
      (r, w', rw e (λ i. (behind (dropped i) (some r), w')), (u, met, gone))

  -- The process could not be made, or it was spawned with this configuration, and what holds behind
  -- the rest of the function, and then the process is gone.
  abbrev pub ProcessEnd :
      Text
      → Config
      → QemuConfig
      → (QemuProcess h l → Result (Unit {0}) → h.W → Type 0)
      → Result (Unit {0})
      → h.W
      → Type 0
  ProcessEnd message config cfg Q =
      SpawnedOr message config cfg λ process. GoneAfter (Q process) process

  pub with_process-ProcessEnd :
      (Q : QemuProcess h l → Result (Unit {0}) → h.W → Type 0) (message : Text) (config : Config)
      (cfg : QemuConfig) (body : QemuProcess h l → Task h.W (Unit {0}))
      → ((process : QemuProcess h l) → Returns (Q process) (body process))
      → Returns (ProcessEnd message config cfg Q) (with_process h l b message config cfg body)
  unfolding with_process
  with_process-ProcessEnd Q message config cfg body returns =
      spawn-SpawnedOr (λ process. GoneAfter (Q process) process) message config cfg _
        λ process. dropping-GoneAfter (Q process) process (body process) (returns process)

  -- The directory could not be made, or it was made, and what holds behind the rest of the function,
  -- and then the directory is removed.
  abbrev pub TempDirEnd :
      Text → (Text → Result (Unit {0}) → h.W → Type 0) → Result (Unit {0}) → h.W → Type 0
  TempDirEnd = LocalEnd b.tempdir b.remove_dir

  pub with_temp_dir-TempDirEnd :
      (Q : Text → Result (Unit {0}) → h.W → Type 0) (message : Text)
      (body : Text → Task h.W (Unit {0}))
      → ((dir : Text) → Returns (Q dir) (body dir))
      → Returns (TempDirEnd message Q) (with_temp_dir h l b message body)
  unfolding with_temp_dir
  with_temp_dir-TempDirEnd = with_local-LocalEnd b.tempdir b.remove_dir
