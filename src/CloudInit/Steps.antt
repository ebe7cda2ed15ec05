-- ===== src/CloudInit/Steps.antt =====
-- `create` of src/cloud_init.rs: the steps that it takes.
use qemu_test.Prelude.{
  ◌≡◌, true, some, List, [], ◌∷◌, Text, codes, concat, path_join, trim, ok, ensure, ensure_inv,
  option_context, option_context_inv,
}
use qemu_test.Host.Task.{
  Task, ◌>>=◌, ◌>>◌, given, call, with_context, each, Succeeds, Chain, >>=-Succeeds, each-Chain,
  call_inv, given_inv, named_call_inv,
}
use qemu_test.CloudInit.{
  CloudInitDisk, System, Finished, parent, run_cmd, disk_files, write_file, copy_file, build_image,
  create,
}

module _ {W : Type 0} (s : System W) where
  -- the program was run and its status was 0
  abbrev pub Ran : Text → List Text → W → W → Type 0
  Ran program args w v = (f : Finished) × (s.output program args w ≡ (ok f, v)) × (f.success ≡ true)

  run_cmd-Ran :
      (program : Text) (args : List Text) (w v : W)
      → Succeeds (run_cmd s program args) w tt v
      → Ran program args w v
  unfolding run_cmd
  run_cmd-Ran program args w v e =
      let (f, u, first, last) =
        >>=-Succeeds
          (with_context (call (s.output program args))
            (concat (codes "failed to run " ∷ program ∷ [])))
          (λ (finished : Finished). given (
            ensure finished.success
              (concat (program ∷ codes " failed: " ∷ s.lossy finished.stderr ∷ []))))
          w v tt e in
      let (passed, same) =
        given_inv (ensure f.success (concat (program ∷ codes " failed: " ∷ s.lossy f.stderr ∷ [])))
          u v tt last in
      (
        f,
        rw (← same) (
            named_call_inv (s.output program args) (concat (codes "failed to run " ∷ program ∷ []))
              w u f first),
        ensure_inv f.success (concat (program ∷ codes " failed: " ∷ s.lossy f.stderr ∷ [])) passed,
      )

  abbrev pub Written : Text → Text × Text → W → W → Type 0
  Written dir (name, content) w v = s.write (path_join dir name) content w ≡ (ok tt, v)

  abbrev pub Copied : Text → Text → Text × Text → W → W → Type 0
  Copied path dir (name, content) =
      Ran (codes "mcopy") (codes "-oi" ∷ path ∷ codes "-s" ∷ path_join dir name ∷ codes "::" ∷ [])

  abbrev pub Formatted : Text → W → W → Type 0
  Formatted path =
      Ran (codes "mkdosfs") (codes "-n" ∷ codes "CIDATA" ∷ codes "-C" ∷ path ∷ codes "8192" ∷ [])

  write_file-Written :
      (dir : Text) (file : Text × Text) (w v : W)
      → Succeeds (write_file s dir file) w tt v
      → Written dir file w v
  unfolding write_file
  write_file-Written dir (name, content) w v e =
      named_call_inv (s.write (path_join dir name) content)
        (concat (codes "failed to write " ∷ name ∷ [])) w v tt e

  copy_file-Copied :
      (path dir : Text) (file : Text × Text) (w v : W)
      → Succeeds (copy_file s path dir file) w tt v
      → Copied path dir file w v
  unfolding copy_file
  copy_file-Copied path dir (name, content) w v e =
      run_cmd-Ran (codes "mcopy")
        (codes "-oi" ∷ path ∷ codes "-s" ∷ path_join dir name ∷ codes "::" ∷ []) w v e

  -- the files are written, the image is made, and the files are copied to it
  abbrev pub ImageBuilt : Text → Text → List (Text × Text) → W → W → Type 0
  ImageBuilt path dir files w w' =
      (u v : W) × Chain (Written dir) files w u
      × Formatted path u v
      × Chain (Copied path dir) files v w'

  build_image-ImageBuilt :
      (path dir : Text) (files : List (Text × Text)) (w w' : W)
      → Succeeds (build_image s path dir files) w tt w'
      → ImageBuilt path dir files w w'
  unfolding build_image
  build_image-ImageBuilt path dir files w w' e =
      let mkdosfs : Task W (Unit {0}) =
        run_cmd s (codes "mkdosfs")
          (codes "-n" ∷ codes "CIDATA" ∷ codes "-C" ∷ path ∷ codes "8192" ∷ []) in
      let copies : Task W (Unit {0}) = each (copy_file s path dir) files in
      let (_, u, written, rest) =
        >>=-Succeeds (each (write_file s dir) files) (λ _. mkdosfs >> copies) w w' tt e in
      let (_, v, made, copied) = >>=-Succeeds mkdosfs (λ _. copies) u w' tt rest in
      (
        u,
        v,
        each-Chain (write_file s dir) (Written dir) (write_file-Written dir) files w u written,
        run_cmd-Ran (codes "mkdosfs")
            (codes "-n" ∷ codes "CIDATA" ∷ codes "-C" ∷ path ∷ codes "8192" ∷ []) u v made,
        each-Chain (copy_file s path dir) (Copied path dir) (copy_file-Copied path dir) files v w'
            copied,
      )

  -- the steps of `create`, each in the state that the one before it left
  abbrev pub Created : CloudInitDisk → W → W → Type 0
  Created disk w w' =
      (key dir : Text) × (u v : W) × (s.read_to_string
          (concat (disk.ssh_key_path ∷ codes ".pub" ∷ [])) w
        ≡ (ok key, u))
      × (parent disk.path ≡ some dir)
      × (s.create_dir_all (path_join dir (codes "cidata")) u ≡ (ok tt, v))
      × ImageBuilt disk.path (path_join dir (codes "cidata")) (disk_files s disk (trim key)) v w'

  pub create-Created :
      (disk : CloudInitDisk) (w w' : W) → Succeeds (create s disk) w tt w' → Created disk w w'
  unfolding create
  create-Created disk w w' e =
      let key_path = concat (disk.ssh_key_path ∷ codes ".pub" ∷ []) in
      let above = option_context (parent disk.path) (codes "no parent dir") in
      let build : Text → Text → Task W (Unit {0}) = λ key dir.
        build_image s disk.path (path_join dir (codes "cidata")) (disk_files s disk (trim key)) in
      let inside : Text → Text → Task W (Unit {0}) =
        λ key dir. call (s.create_dir_all (path_join dir (codes "cidata"))) >> build key dir in
      let (key, u, read, rest) =
        >>=-Succeeds
          (with_context (call (s.read_to_string key_path)) (codes "failed to read public key"))
          (λ key. given above >>= inside key) w w' tt e in
      let (dir, u', at, rest') = >>=-Succeeds (given above) (inside key) u w' tt rest in
      let (found, same) = given_inv above u u' dir at in
      let (_, v, made, built) =
        >>=-Succeeds (call (s.create_dir_all (path_join dir (codes "cidata")))) (λ _. build key dir)
          u' w' tt rest' in
      (
        key,
        dir,
        u,
        v,
        named_call_inv (s.read_to_string key_path) (codes "failed to read public key") w u key read,
        option_context_inv (parent disk.path) (codes "no parent dir") dir found,
        rw same (call_inv (s.create_dir_all (path_join dir (codes "cidata"))) u' v tt made),
        build_image-ImageBuilt disk.path (path_join dir (codes "cidata"))
            (disk_files s disk (trim key)) v w' built,
      )
