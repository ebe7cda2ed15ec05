-- ===== src/Scenario/Remote/Told.antt =====
-- The parts of the tests over SSH of src/tests, with what their success says.
use qemu_test.Prelude.{sym, ap, Option, ℕ, ◌≡◌, refl, some, List, [], ◌∷◌, Text, Result, ok, err}
use qemu_test.Host.{Host}
use qemu_test.Host.Task.{Task, each, Succeeds}
use qemu_test.Host.Task.Told.{
  Says, IsTold, Told, ◌>>=◌, ◌>>◌, retell, known, named, told_given, told_ensure, told_call,
  told_pure, total-IsTold,
}
use qemu_test.CloudInit.{
  CloudInitDisk, System, Finished, parent, run_cmd, disk_files, write_file, copy_file, build_image,
  create,
}
use qemu_test.CloudInit
use qemu_test.CloudInit.Steps.{Created}
use qemu_test.CloudInit.Created.{create_iff}
use qemu_test.Process.Port.{ssh_port}
use qemu_test.Process.Spawn.{Launcher, QemuProcess}
use qemu_test.Scenario.Outside.{Bench}
use qemu_test.Scenario.Remote.{Remote, prepare_disk, port_of}

-- nothing but that it returns
abbrev Returned : {W A : Type 0} → W → A → W → Type 0
Returned w a w' = Unit

Returned-total :
    {W A : Type 0} (task : Task W A)
    → IsTold Returned task
    → (w : W) → (r : Result A) × ((task w).0 ≡ some r)
Returned-total {W} {A} task told w =
    let (r, w', e, said) = told w in (r, ap (λ (p : Option (Result A) × W). p.0) e)

abbrev loosely : {W A : Type 0} {R : W → A → W → Type 0} → Told R → Told (Returned {W = W} {A = A})
loosely (task, told) = (task, retell _ Returned task told (λ w a w' s. tt))

module _ {W X : Type 0} (f : X → Task W (Unit {0})) where
  each-Returned : ((x : X) → IsTold Returned (f x)) → (xs : List X) → IsTold Returned (each f xs)
  each-Returned told [] = λ w. (ok tt, w, refl, tt)
  each-Returned told (x ∷ xs) =
      (loosely (known (f x) (told x) >> known (each f xs) (each-Returned told xs))).1

module _ {W : Type 0} (s : System W) where
  run_cmd-Returned : (program : Text) (args : List Text) → IsTold Returned (run_cmd s program args)
  unfolding run_cmd
  run_cmd-Returned program args =
      (loosely (do finished ← named (told_call (s.output program args)) _; told_ensure _ _)).1

  write_file-Returned : (dir : Text) (file : Text × Text) → IsTold Returned (write_file s dir file)
  unfolding write_file
  write_file-Returned dir (name, content) = (loosely (named (told_call _) _)).1

  copy_file-Returned :
      (path dir : Text) (file : Text × Text) → IsTold Returned (copy_file s path dir file)
  unfolding copy_file
  copy_file-Returned path dir (name, content) = run_cmd-Returned _ _

  build_image-Returned :
      (path dir : Text) (files : List (Text × Text))
      → IsTold Returned (build_image s path dir files)
  unfolding build_image
  build_image-Returned path dir files =
      (loosely (do
        known (each (write_file s dir) files) (each-Returned _ (write_file-Returned dir) files)
        known (run_cmd s _ _) (run_cmd-Returned _ _)
        known (each (copy_file s path dir) files)
            (each-Returned _ (copy_file-Returned path dir) files))).1

  create-Returned : (disk : CloudInitDisk) → IsTold Returned (create s disk)
  unfolding create
  create-Returned disk =
      (loosely (do
        public_key ← named (told_call (s.read_to_string _)) _
        told_given _ λ dir. do
          told_call (s.create_dir_all _)
          known (build_image s _ _ _) (build_image-Returned _ _ _))).1

  new-Returned : (dir : Text) → IsTold Returned (CloudInit.new s dir)
  unfolding CloudInit.new
  new-Returned dir =
      (loosely (do success ← named (told_call (s.status _ _)) _; told_ensure _ _; told_pure _)).1

module _ (h : Host) (l : Launcher h) (b : Bench h l) (n : Remote h l) where
  -- From one state to another: a disk was made anew in the directory, and then, configured, created
  -- step by step.
  abbrev pub Prepared : Text → (CloudInitDisk → CloudInitDisk) → h.W → CloudInitDisk → h.W → Type 0
  Prepared dir configure w ci w' =
      (disk : CloudInitDisk) × (v : h.W) × Succeeds (CloudInit.new n.system dir) w disk v
      × (ci ≡ configure disk)
      × Created n.system ci v w'

  pub prepare_disk-Prepared :
      (dir : Text) (configure : CloudInitDisk → CloudInitDisk)
      → IsTold (Prepared dir configure) (prepare_disk h l b n dir configure)
  unfolding prepare_disk
  prepare_disk-Prepared dir configure =
      let told : Told _ = (do
        disk ←
            known (CloudInit.new n.system dir)
              (total-IsTold _ (Returned-total _ (new-Returned n.system dir)))
        named
            (known (create n.system (configure disk))
              (total-IsTold _ (Returned-total _ (create-Returned n.system (configure disk)))))
            _
        told_pure _) in
      retell _ _ _ told.1 λ w ci w' (disk, v, new, (done, u, made, (e, q))).
        (disk, v, new, sym e, rw (sym e, sym q) ((create_iff n.system (configure disk) v u).0 made))

  -- the port is the one of the answer to `info usernet`
  abbrev pub PortFound : QemuProcess h l → h.W → ℕ → h.W → Type 0
  PortFound process w port w' =
      (answer : Result Text) × (n.usernet process w ≡ (answer, w')) × (ssh_port answer ≡ ok port)

  pub port_of-IsTold :
      (process : QemuProcess h l) → IsTold (PortFound process) (port_of h l b n process)
  port_of-IsTold process w = found (ssh_port (n.usernet process w).0) refl
    where
      found :
          (r : Result ℕ)
          → ssh_port (n.usernet process w).0 ≡ r
          → (x : Result ℕ) × (w' : h.W) × (port_of h l b n process w ≡ (some x, w'))
            × Says (PortFound process) x w w'
      found (ok port) q =
          (ok port, (n.usernet process w).1, rw q refl, ((n.usernet process w).0, refl, q))
      found (err e) q = (err e, (n.usernet process w).1, rw q refl, tt)
