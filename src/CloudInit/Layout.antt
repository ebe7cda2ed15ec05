-- ===== src/CloudInit/Layout.antt =====
-- The files of src/cloud_init.rs as YAML documents.
use qemu_test.Prelude.{
  Option, none, some, ◌≡◌, refl, sym, ◌∙◌, List, [], ◌∷◌, ◌++◌, append_assoc, append-nil, map, Text,
  codes, concat,
}
use qemu_test.Options.Net.{NetConfig, user_net, tap}
use qemu_test.CloudInit.{
  System, CloudInitDisk, disk_files, meta_data, guest_user, build_network_config, file_entry,
  user_data,
}
use qemu_test.CloudInit.Yaml.{
  Value, Pairs, Items, plain, mapping, sequence, end, pair, nil, scalar, entry, show_pairs,
  show_items,
}

-- a value between double quotes
abbrev quoted : Text → Value
quoted text = plain (concat (codes "\"" ∷ text ∷ codes "\"" ∷ []))

-- how the interface gets its address
abbrev pub addressing : NetConfig → Pairs
addressing (user_net mac) = pair (codes "dhcp4") (plain (codes "true")) end
addressing (tap mac ifname guest_ip gateway) =
    pair (codes "addresses")
      (sequence (scalar (concat (codes "\"" ∷ guest_ip ∷ codes "\"" ∷ [])) nil))
      (pair (codes "routes")
        (sequence (
          entry (codes "to") (plain (codes "\"0.0.0.0/0\""))
            (pair (codes "via") (quoted gateway) end) nil))
        end)

abbrev mac_text : NetConfig → Text
mac_text (user_net mac) = mac
mac_text (tap mac ifname guest_ip gateway) = mac

abbrev pub network : NetConfig → Pairs
network net = pair (codes "version") (plain (codes "2")) (
    pair (codes "ethernets")
      (mapping (
        pair (codes "eth0")
          (mapping (
            pair (codes "match") (mapping (pair (codes "macaddress") (quoted (mac_text net)) end))
              (addressing net)))
          end))
      end)

build_network_config-show :
    (net : NetConfig) → build_network_config net ≡ show_pairs 0 (network net) []
unfolding build_network_config show_pairs
build_network_config-show (user_net mac) = sym (simp append_assoc)
build_network_config-show (tap mac ifname guest_ip gateway) = sym (simp append_assoc)

abbrev pub users : Text → Pairs
users public_key =
    pair (codes "users")
      (sequence (
        entry (codes "name") (plain guest_user)
          (pair (codes "sudo") (plain (codes "ALL=(ALL) NOPASSWD:ALL")) (
            pair (codes "lock_passwd") (plain (codes "false"))
              (pair (codes "ssh_authorized_keys") (sequence (scalar public_key nil)) end)))
          nil))
      (pair (codes "ssh_pwauth") (plain (codes "true")) end)

abbrev pub files : (Text → Text) → List (Text × Text) → Items
files encode [] = nil
files encode ((path, content) ∷ others) =
    entry (codes "path") (plain path)
      (pair (codes "permissions") (plain (codes "'0644'")) (
        pair (codes "encoding") (plain (codes "b64"))
          (pair (codes "content") (plain (encode content)) end)))
      (files encode others)

-- the list of the files behind an empty line, if there are any
abbrev pub written : (Text → Text) → List (Text × Text) → Text
written encode [] = []
written encode (f ∷ fs) =
    codes "\n"
    ++ show_pairs 0 (pair (codes "write_files") (sequence (files encode (f ∷ fs))) end) []

concat-cons : (p : Text) (ps : List Text) → concat (p ∷ ps) ≡ p ++ concat ps
concat-cons p [] = sym (append-nil p)
concat-cons p (q ∷ ps) = refl

entries-show :
    (encode : Text → Text) (fs : List (Text × Text))
    → concat (map (file_entry encode) fs) ≡ show_items 0 (files encode fs) []
unfolding file_entry show_items
entries-show encode [] = refl
entries-show encode ((path, content) ∷ fs) =
    concat-cons (file_entry encode (path, content)) (map (file_entry encode) fs)
    ∙ rw (entries-show encode fs) (simp append_assoc)

user_data-show :
    (encode : Text → Text) (public_key : Text) (fs : List (Text × Text))
    → user_data encode public_key fs
      ≡ codes "#cloud-config\n" ++ (show_pairs 0 (users public_key) [] ++ written encode fs)
unfolding user_data show_pairs
user_data-show encode public_key [] = sym (simp (append_assoc, append-nil))
user_data-show encode public_key (f ∷ fs) =
    rw (entries-show encode (f ∷ fs)) (sym (simp append_assoc))

abbrev pub meta : Pairs
meta =
    pair (codes "instance-id") (plain guest_user)
      (pair (codes "local-hostname") (plain guest_user) end)

abbrev pub network_file : Option NetConfig → List (Text × Text)
network_file none = []
network_file (some net) = (codes "network-config", show_pairs 0 (network net) []) ∷ []

-- The files of the disk are the layouts of YAML documents: the meta data, that name the guest; the
-- user data, behind the line that marks them, with the one user, the public key, and, if there are
-- files to write, behind an empty line, their list, each by its path with its encoded content; and,
-- where there is one, the network configuration, which matches one interface by the MAC address of
-- the guest and gives it an address by DHCP, or the guest's address and a route by the gateway.
pub disk_files-show :
    {W : Type 0} (s : System W) (disk : CloudInitDisk) (key : Text)
    → disk_files s disk key
      ≡ (codes "meta-data", show_pairs 0 meta [])
        ∷ (
          codes "user-data",
          codes "#cloud-config\n"
              ++ (show_pairs 0 (users key) [] ++ written s.encode disk.write_files),
        )
        ∷ network_file disk.net_config
unfolding disk_files meta_data show_pairs
disk_files-show s disk key = by_net disk.net_config
  where
    by_net :
        (net : Option NetConfig)
        → disk_files s (record disk { net_config = net }) key
          ≡ (codes "meta-data", show_pairs 0 meta [])
            ∷ (
              codes "user-data",
              codes "#cloud-config\n"
                  ++ (show_pairs 0 (users key) [] ++ written s.encode disk.write_files),
            )
            ∷ network_file net
    by_net none = rw (user_data-show s.encode key disk.write_files) refl
    by_net (some net) =
        rw (user_data-show s.encode key disk.write_files, build_network_config-show net) refl
