-- ===== src/CloudInit/Tests.antt =====
-- A disk of a guest with a tap device and one file, made on a file system that remembers the names.
use qemu_test.Prelude.{◌↔◌, ◌≡◌, refl, true, some, List, [], ◌∷◌, ◌++◌, Text, codes, ok}
use qemu_test.Options.Net.{NetConfig, tap}
use qemu_test.Host.Task.{Succeeds}
use qemu_test.CloudInit.{
  CloudInitDisk, System, run_cmd, disk_files, write_file, copy_file, build_image, create,
}
use qemu_test.CloudInit.Yaml.{show_pairs}
use qemu_test.CloudInit.Layout.{network_file, users, written, meta, disk_files-show}
use qemu_test.CloudInit.Steps.{Created}
use qemu_test.CloudInit.Created.{create_iff}

abbrev system : System (List Text)
system = record {
  read_to_string = λ path w. (ok (codes "ssh-ed25519 AAAA me\n"), path ∷ w);
  create_dir_all = λ path w. (ok tt, path ∷ w);
  write = λ path content w. (ok tt, path ∷ w);
  status = λ program args w. (ok true, program ∷ w);
  output = λ program args w. (ok (record { success = true; stderr = [] }), program ∷ w);
  encode = λ text. text;
  lossy = λ bytes. bytes;
}

abbrev net : NetConfig
net =
    tap (codes "52:54:00:01:02:03") (codes "tap-qemu-0") (codes "192.168.100.2/24")
      (codes "192.168.100.1")

abbrev files : List (Text × Text)
files = (codes "/etc/motd", codes "aGVsbG8=") ∷ []

abbrev disk : CloudInitDisk
disk = record {
  path = codes "/tmp/a/cidata.img";
  ssh_key_path = codes "/tmp/a/id_cloud";
  net_config = some net;
  write_files = files;
}

disk_files-show_example :
    disk_files system disk (codes "ssh-ed25519 AAAA me")
    ≡ (codes "meta-data", show_pairs 0 meta [])
      ∷ (
        codes "user-data",
        codes "#cloud-config\n"
            ++ (show_pairs 0 (users (codes "ssh-ed25519 AAAA me")) []
                ++ written (λ text. text) files),
      )
      ∷ network_file (some net)
disk_files-show_example = disk_files-show system disk (codes "ssh-ed25519 AAAA me")

-- one read, one directory, three files, the image and three copies
abbrev made : List Text
made =
    codes "mcopy"
    ∷ codes "mcopy"
    ∷ codes "mcopy"
    ∷ codes "mkdosfs"
    ∷ codes "/tmp/a/cidata/network-config"
    ∷ codes "/tmp/a/cidata/user-data"
    ∷ codes "/tmp/a/cidata/meta-data"
    ∷ codes "/tmp/a/cidata"
    ∷ codes "/tmp/a/id_cloud.pub"
    ∷ []

created : Succeeds (create system disk) [] tt made
unfolding create build_image write_file copy_file run_cmd disk_files
created = refl

create_iff_example : Succeeds (create system disk) [] tt made ↔ Created system disk [] made
create_iff_example = create_iff system disk [] made
