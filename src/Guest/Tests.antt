-- ===== src/Guest/Tests.antt =====
-- A migration of a guest to another process.
use qemu_test.Prelude.{◌≡◌, refl, false, List, ◌∷◌, ◌++◌, Text, codes}
use qemu_test.Options.{kvm, kernel, q35}
use qemu_test.Guest.{args}
use qemu_test.Guest.Builder.{QemuConfig, new, with_machine, with_smp, with_incoming, guest_config}
use qemu_test.Guest.Migrate.{own_args, with_incoming-args}
use qemu_test.Prelude.{some}

abbrev source_guest : QemuConfig
source_guest =
    with_smp
      (with_machine (new (codes "/tmp/src") (kernel (codes "vmlinuz") (some (codes "initrd")))) q35)
      2

source_not_incoming : source_guest.incoming ≡ false
unfolding new with_machine with_smp
source_not_incoming = refl

with_incoming-args_example :
    (front middle back : List Text) × (args (guest_config source_guest kvm)
      ≡ front ++ (own_args (codes "/tmp/src") ++ (middle ++ back)))
    × (args (guest_config (with_incoming source_guest (codes "/tmp/dst")) kvm)
        ≡ front
          ++ (own_args (codes "/tmp/dst")
              ++ (middle ++ (codes "-incoming" ∷ codes "defer" ∷ back))))
unfolding with_smp with_machine new
with_incoming-args_example =
    with_incoming-args source_guest kvm (codes "/tmp/dst") source_not_incoming
