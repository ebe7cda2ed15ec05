-- ===== src/Guest/Migrate.antt =====
-- The command lines of src/process.rs for the source and the destination of a migration.
use qemu_test.Prelude.{◌≡◌, false, List, [], ◌∷◌, ◌++◌, append_assoc, Text, codes, concat}
use qemu_test.Options.{Accelerator}
use qemu_test.Guest.{
  args, display_args, cpu_args, host_args, machine_args, io_thread_args, payload_args, size_args,
  incoming_args, rtc_args, ovmf_args, cloud_init_args, net_args,
}
use qemu_test.Guest.Builder.{QemuConfig, with_incoming, guest_config}

regroup :
    (d c h m t p s i r : List Text)
    → d ++ (c ++ (h ++ (m ++ (t ++ (p ++ (s ++ (i ++ r)))))))
      ≡ (d ++ c) ++ (h ++ ((m ++ (t ++ (p ++ s))) ++ (i ++ r)))
regroup d c h m t p s i r = simp append_assoc

-- the arguments for the socket of QMP and the serial log, in a directory
abbrev pub own_args : Text → List Text
own_args dir =
    codes "-qmp"
    ∷ concat
        (codes "unix:" ∷ concat (dir ∷ codes "/qmp.sock" ∷ []) ∷ codes ",server=on,wait=off" ∷ [])
    ∷ codes "-serial"
    ∷ concat (codes "file:" ∷ concat (dir ∷ codes "/serial.log" ∷ []) ∷ [])
    ∷ []

-- For a `cfg` that is not incoming, the command line of `cfg.with_incoming(dir)` is that of `cfg`, but
-- that the socket of QMP and the serial log are in `dir` and not in the directory of `cfg`, and that
-- it has `-incoming defer`: every other argument is the same, at the same place.
pub with_incoming-args :
    (cfg : QemuConfig) (accel : Accelerator) (dir : Text)
    → cfg.incoming ≡ false
    → (front middle back : List Text) × (args (guest_config cfg accel)
        ≡ front ++ (own_args cfg.temp_dir ++ (middle ++ back)))
      × (args (guest_config (with_incoming cfg dir) accel)
          ≡ front ++ (own_args dir ++ (middle ++ (codes "-incoming" ∷ codes "defer" ∷ back))))
unfolding args guest_config with_incoming incoming_args display_args cpu_args machine_args
    io_thread_args payload_args size_args rtc_args ovmf_args cloud_init_args net_args host_args
with_incoming-args cfg accel dir h =
    let g = guest_config cfg accel in
    let front = display_args g ++ cpu_args g in
    let middle = machine_args g ++ (io_thread_args g ++ (payload_args g ++ size_args g)) in
    let back = rtc_args g ++ (ovmf_args g ++ (cloud_init_args g ++ net_args g)) in
    (
      front,
      middle,
      back,
      rw h (
          regroup (display_args g) (cpu_args g) (own_args cfg.temp_dir) (machine_args g)
            (io_thread_args g) (payload_args g) (size_args g) [] back),
      regroup (display_args g) (cpu_args g) (own_args dir) (machine_args g) (io_thread_args g)
          (payload_args g) (size_args g) (codes "-incoming" ∷ codes "defer" ∷ []) back,
    )
