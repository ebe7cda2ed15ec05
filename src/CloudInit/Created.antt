-- ===== src/CloudInit/Created.antt =====
-- `create` of src/cloud_init.rs succeeds exactly when its steps do.
use qemu_test.Prelude.{refl, ◌↔◌, List, [], ◌∷◌, Text, codes, concat, trim, path_join}
use qemu_test.Host.Task.{Task, ◌>>◌, each, Succeeds, >>=_intro, Chain-each, named_call_intro}
use qemu_test.CloudInit.{
  CloudInitDisk, System, run_cmd, disk_files, write_file, copy_file, build_image, create,
}
use qemu_test.CloudInit.Steps.{Ran, Written, Copied, ImageBuilt, Created, create-Created}

module _ {W : Type 0} (s : System W) where
  Ran-run_cmd :
      (program : Text) (args : List Text) (w v : W)
      → Ran s program args w v
      → Succeeds (run_cmd s program args) w tt v
  unfolding run_cmd
  Ran-run_cmd program args w v (f, ran, passed) = rw (ran, passed) refl

  Written-write_file :
      (dir : Text) (file : Text × Text) (w v : W)
      → Written s dir file w v
      → Succeeds (write_file s dir file) w tt v
  unfolding write_file
  Written-write_file dir (name, content) w v e =
      named_call_intro (s.write (path_join dir name) content)
        (concat (codes "failed to write " ∷ name ∷ [])) w v tt e

  Copied-copy_file :
      (path dir : Text) (file : Text × Text) (w v : W)
      → Copied s path dir file w v
      → Succeeds (copy_file s path dir file) w tt v
  unfolding copy_file
  Copied-copy_file path dir (name, content) w v e =
      Ran-run_cmd (codes "mcopy")
        (codes "-oi" ∷ path ∷ codes "-s" ∷ path_join dir name ∷ codes "::" ∷ []) w v e

  ImageBuilt-build_image :
      (path dir : Text) (files : List (Text × Text)) (w w' : W)
      → ImageBuilt s path dir files w w'
      → Succeeds (build_image s path dir files) w tt w'
  unfolding build_image
  ImageBuilt-build_image path dir files w w' (u, v, written, made, copied) =
      let mkdosfs : Task W (Unit {0}) =
        run_cmd s (codes "mkdosfs")
          (codes "-n" ∷ codes "CIDATA" ∷ codes "-C" ∷ path ∷ codes "8192" ∷ []) in
      let copies : Task W (Unit {0}) = each (copy_file s path dir) files in
      >>=_intro (each (write_file s dir) files) (λ _. mkdosfs >> copies) w u w' tt tt
        (Chain-each (write_file s dir) (Written s dir) (Written-write_file dir) files w u written)
        (>>=_intro mkdosfs (λ _. copies) u v w' tt tt
          (Ran-run_cmd (codes "mkdosfs")
            (codes "-n" ∷ codes "CIDATA" ∷ codes "-C" ∷ path ∷ codes "8192" ∷ []) u v made)
          (Chain-each (copy_file s path dir) (Copied s path dir) (Copied-copy_file path dir) files v
            w' copied))

  Created-create :
      (disk : CloudInitDisk) (w w' : W) → Created s disk w w' → Succeeds (create s disk) w tt w'
  unfolding create
  Created-create disk w w' (key, dir, u, v, read, at, made, built) =
      rw (read, at, made)
        (ImageBuilt-build_image disk.path (path_join dir (codes "cidata"))
          (disk_files s disk (trim key)) v w' built)

  -- `create` succeeds exactly when it can read the public key, the image has a parent directory, it
  -- can make the directory `cidata` there, write every file of the disk to it, the user data with the
  -- trimmed key, make the image with status 0, and copy every file to it, with status 0; each step in
  -- the state that the one before it left, the files in order.
  pub create_iff :
      (disk : CloudInitDisk) (w w' : W) → Succeeds (create s disk) w tt w' ↔ Created s disk w w'
  create_iff disk w w' = (create-Created s disk w w', Created-create disk w w')
