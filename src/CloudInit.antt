-- ===== src/CloudInit.antt =====
-- src/cloud_init.rs: the disk that configures a guest on its first boot. The file system, the programs
-- that are run, and the encoding of the crate base64 are parameters; a path is its text.
pub mod Yaml
pub mod Layout
pub mod Steps
pub mod Created
mod Tests
use qemu_test.Prelude.{
  ℕ, ◌++◌, Bool, true, false, Option, none, some, List, [], ◌∷◌, Text, codes, concat, path_join,
  trim, is_empty, map, ◌==◌, if◌then◌else◌, Result, ensure, option_context,
}
use qemu_test.Options.Net.{NetConfig, user_net, tap}
use qemu_test.Host.Task.{Task, ◌>>=◌, ◌>>◌, pure, given, call, with_context, each}

abbrev pub guest_user : Text
guest_user = codes "cloud"

pub record CloudInitDisk : Type 0 where
  pub path : Text
  pub ssh_key_path : Text
  pub net_config : Option NetConfig
  pub write_files : List (Text × Text)

unfoldable pub build_network_config : NetConfig → Text
build_network_config (user_net mac) = concat (
    codes "version: 2\nethernets:\n  eth0:\n    match:\n      macaddress: \""
    ∷ mac
    ∷ codes "\"\n    dhcp4: true\n"
    ∷ [])
build_network_config (tap mac ifname guest_ip gateway) = concat (
    codes "version: 2\nethernets:\n  eth0:\n    match:\n      macaddress: \""
    ∷ mac
    ∷ codes "\"\n    addresses:\n    - \""
    ∷ guest_ip
    ∷ codes "\"\n    routes:\n    - to: \"0.0.0.0/0\"\n      via: \""
    ∷ gateway
    ∷ codes "\"\n"
    ∷ [])

abbrev before_slash : Text → Option Text
before_slash [] = none
before_slash (c ∷ s) = elim (before_slash s) [
  | some t ↦ some (c ∷ t)
  | none ↦ if c == b'/' then some [] else none
]

-- `Path::parent` of a path that does not end with a slash
abbrev pub parent : Text → Option Text
parent [] = none
parent (c ∷ s) = elim (before_slash (c ∷ s)) [
  | none ↦ some []
  | some [] ↦ some (codes "/")
  | some (d ∷ t) ↦ some (d ∷ t)
]

unfoldable pub meta_data : Text
meta_data =
    concat (
      codes "instance-id: "
      ∷ guest_user
      ∷ codes "\nlocal-hostname: "
      ∷ guest_user
      ∷ codes "\n"
      ∷ [])

-- `encode` is `BASE64_STANDARD.encode`
module _ (encode : Text → Text) where
  unfoldable pub file_entry : Text × Text → Text
  file_entry (path, content) = concat (
      codes "- path: "
      ∷ path
      ∷ codes "\n  permissions: '0644'\n  encoding: b64\n  content: "
      ∷ encode content
      ∷ codes "\n"
      ∷ [])

  unfoldable pub user_data : Text → List (Text × Text) → Text
  unfolding file_entry
  user_data public_key write_files =
      concat (
        codes "#cloud-config\nusers:\n- name: "
        ∷ guest_user
        ∷ codes
            "\n  sudo: ALL=(ALL) NOPASSWD:ALL\n  lock_passwd: false\n  ssh_authorized_keys:\n  - "
        ∷ public_key
        ∷ codes "\nssh_pwauth: true\n"
        ∷ [])
      ++ (if is_empty write_files
          then []
          else codes "\nwrite_files:\n" ++ concat (map file_entry write_files))

-- what a program that was run left: whether its status is 0, and its stderr
pub record Finished : Type 0 where
  pub success : Bool
  pub stderr : List ℕ

-- the calls on the outside, whose state is `W`
pub record System (W : Type 0) : Type 1 where
  pub read_to_string : Text → W → Result Text × W
  pub create_dir_all : Text → W → Result (Unit {0}) × W
  pub write : Text → Text → W → Result (Unit {0}) × W
  pub status : Text → List Text → W → Result Bool × W
  pub output : Text → List Text → W → Result Finished × W
  pub encode : Text → Text
  pub lossy : List ℕ → Text

module _ {W : Type 0} (s : System W) where
  unfoldable pub run_cmd : Text → List Text → Task W (Unit {0})
  run_cmd program args = do
    finished ←
        with_context (call (s.output program args)) (concat (codes "failed to run " ∷ program ∷ []))
    given (
        ensure finished.success
          (concat (program ∷ codes " failed: " ∷ s.lossy finished.stderr ∷ [])))

  unfoldable pub new : Text → Task W CloudInitDisk
  new dir = do
    let ssh_key_path = path_join dir (codes "id_cloud")
    success ←
        with_context
          (call (
            s.status (codes "ssh-keygen") (
              codes "-t"
              ∷ codes "ed25519"
              ∷ codes "-f"
              ∷ ssh_key_path
              ∷ codes "-N"
              ∷ codes ""
              ∷ codes "-q"
              ∷ [])))
          (codes "failed to run ssh-keygen")
    given (ensure success (codes "ssh-keygen failed"))
    pure (record {
      path = path_join dir (codes "cidata.img");
      ssh_key_path = ssh_key_path;
      net_config = none;
      write_files = [];
    })

  -- the files of the disk, by name
  unfoldable pub disk_files : CloudInitDisk → Text → List (Text × Text)
  disk_files disk public_key =
      (codes "meta-data", meta_data)
      ∷ (codes "user-data", user_data s.encode public_key disk.write_files)
      ∷ elim disk.net_config [
        | none ↦ []
        | some net ↦ (codes "network-config", build_network_config net) ∷ []
      ]

  unfoldable pub write_file : Text → Text × Text → Task W (Unit {0})
  write_file cidata_dir (name, content) =
      with_context (call (s.write (path_join cidata_dir name) content))
        (concat (codes "failed to write " ∷ name ∷ []))

  unfoldable pub copy_file : Text → Text → Text × Text → Task W (Unit {0})
  copy_file path cidata_dir (name, content) =
      run_cmd (codes "mcopy")
        (codes "-oi" ∷ path ∷ codes "-s" ∷ path_join cidata_dir name ∷ codes "::" ∷ [])

  -- behind the reading of the key: the two loops over the files and the image between them
  unfoldable pub build_image : Text → Text → List (Text × Text) → Task W (Unit {0})
  build_image path cidata_dir files = do
    each (write_file cidata_dir) files
    run_cmd (codes "mkdosfs") (codes "-n" ∷ codes "CIDATA" ∷ codes "-C" ∷ path ∷ codes "8192" ∷ [])
    each (copy_file path cidata_dir) files

  unfoldable pub create : CloudInitDisk → Task W (Unit {0})
  create disk = do
    public_key ←
        with_context (call (s.read_to_string (concat (disk.ssh_key_path ∷ codes ".pub" ∷ []))))
          (codes "failed to read public key")
    dir ← given (option_context (parent disk.path) (codes "no parent dir"))
    call (s.create_dir_all (path_join dir (codes "cidata")))
    build_image disk.path (path_join dir (codes "cidata")) (disk_files disk (trim public_key))

unfoldable pub with_net_config : CloudInitDisk → NetConfig → CloudInitDisk
with_net_config self net_config = record self { net_config = some net_config }

unfoldable pub with_write_files : CloudInitDisk → List (Text × Text) → CloudInitDisk
with_write_files self files = record self { write_files = self.write_files ++ files }
