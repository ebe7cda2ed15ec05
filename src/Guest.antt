-- ===== src/Guest.antt =====
-- The configuration of a guest and the command line of QEMU, of src/process.rs. Paths are texts, and
-- `Path::join` puts a `/` between two of them.
pub mod Builder
pub mod Migrate
mod Tests
use qemu_test.Prelude.{
  ℕ, Bool, true, false, Option, none, some, List, [], ◌∷◌, ◌++◌, Text, codes, concat, not,
  if◌then◌else◌,
}
use qemu_test.Number.{decimal}
use qemu_test.Options.{
  Accelerator, Machine, CpuModel, RtcClock, QemuPayload, guest_bin, kernel, disk_image,
  accelerator_text, machine_text, cpu_model_text, rtc_clock_text,
}
use qemu_test.Options.Net.{NetConfig, user_net, tap, mac_of}

pub record GuestConfig : Type 0 where
  pub ram_mb : ℕ
  pub qmp_sock_path : Text
  pub serial_log_path : Text
  pub accel : Accelerator
  pub machine : Machine
  pub payload : Option QemuPayload
  pub smp : Option ℕ
  pub incoming : Bool
  pub cpu_model : Option CpuModel
  pub cloud_init : Option Text
  pub net : Option NetConfig
  pub ovmf : Option Text
  pub io_thread : Bool
  pub rtc_clock : Option RtcClock
  pub allow_reboot : Bool

unfoldable pub build_osdisk_arg : Bool → Text → List Text
build_osdisk_arg io_thread path =
    codes "-drive"
    ∷ concat (codes "file=" ∷ path ∷ codes ",format=qcow2,if=none,id=os,snapshot=on" ∷ [])
    ∷ codes "-device"
    ∷ concat
        (codes "virtio-blk-pci,drive=os" ∷ (if io_thread then codes ",iothread=io0" else []) ∷ [])
    ∷ []

abbrev initrd_args : Option Text → List Text
initrd_args none = []
initrd_args (some initrd) = codes "-initrd" ∷ initrd ∷ []

unfoldable pub build_kernel_args : Text → Option Text → List Text
build_kernel_args path initrd =
    (codes "-kernel"
      ∷ path
      ∷ codes "-append"
      ∷ codes "console=ttyS0 earlyprintk=serial panic=-1"
      ∷ [])
    ++ initrd_args initrd

-- One function for each `push` or `extend` of `Vec<String>::from(&GuestConfig)`.
module _ (cfg : GuestConfig) where
  unfoldable pub display_args : List Text
  display_args =
      codes "-display" ∷ codes "none" ∷ (if cfg.allow_reboot then [] else codes "-no-reboot" ∷ [])

  unfoldable pub cpu_args : List Text
  cpu_args = elim cfg.cpu_model [ none ↦ [] | some cpu ↦ codes "-cpu" ∷ cpu_model_text cpu ∷ [] ]

  unfoldable pub host_args : List Text
  host_args =
      codes "-qmp"
      ∷ concat (codes "unix:" ∷ cfg.qmp_sock_path ∷ codes ",server=on,wait=off" ∷ [])
      ∷ codes "-serial"
      ∷ concat (codes "file:" ∷ cfg.serial_log_path ∷ [])
      ∷ []

  unfoldable pub machine_args : List Text
  machine_args =
      codes "-accel" ∷ accelerator_text cfg.accel ∷ codes "-M" ∷ machine_text cfg.machine ∷ []

  unfoldable pub io_thread_args : List Text
  io_thread_args = if cfg.io_thread then codes "-object" ∷ codes "iothread,id=io0" ∷ [] else []

  unfoldable pub payload_args : List Text
  unfolding build_kernel_args build_osdisk_arg
  payload_args = elim cfg.payload [
    | none ↦ []
    | some (guest_bin path) ↦
        codes "-drive" ∷ concat (codes "format=raw,file=" ∷ path ∷ codes ",media=disk" ∷ []) ∷ []
    | some (kernel path initrd) ↦ build_kernel_args path initrd
    | some (disk_image path) ↦ build_osdisk_arg cfg.io_thread path
  ]

  unfoldable pub size_args : List Text
  size_args =
      (codes "-m" ∷ concat (decimal cfg.ram_mb ∷ codes "m" ∷ []) ∷ [])
      ++ elim cfg.smp [ none ↦ [] | some smp ↦ codes "-smp" ∷ decimal smp ∷ [] ]

  unfoldable pub incoming_args : List Text
  incoming_args = if cfg.incoming then codes "-incoming" ∷ codes "defer" ∷ [] else []

  unfoldable pub rtc_args : List Text
  rtc_args = elim cfg.rtc_clock [
    | none ↦ []
    | some clock ↦ codes "-rtc" ∷ concat (codes "clock=" ∷ rtc_clock_text clock ∷ []) ∷ []
  ]

  unfoldable pub ovmf_args : List Text
  ovmf_args = elim cfg.ovmf [
    | none ↦ []
    | some path ↦
        codes "-drive"
        ∷ concat (codes "file=" ∷ path ∷ codes ",format=raw,if=pflash,readonly=on" ∷ [])
        ∷ []
  ]

  unfoldable pub cloud_init_args : List Text
  cloud_init_args = elim cfg.cloud_init [
    | none ↦ []
    | some ci ↦
        codes "-drive"
        ∷ concat (codes "file=" ∷ ci ∷ codes ",format=raw,if=none,id=cidata,readonly=on" ∷ [])
        ∷ codes "-device"
        ∷ codes "virtio-blk-pci,drive=cidata"
        ∷ []
  ]

unfoldable pub netdev_args : NetConfig → List Text
netdev_args (user_net mac) = codes "-netdev" ∷ codes "type=user,id=net0,hostfwd=tcp::0-:22" ∷ []
netdev_args (tap mac ifname guest_ip gateway) =
    codes "-netdev"
    ∷ concat (codes "tap,id=net0,ifname=" ∷ ifname ∷ codes ",script=no,downscript=no" ∷ [])
    ∷ []

unfoldable pub net_args : GuestConfig → List Text
unfolding netdev_args mac_of
net_args cfg = elim cfg.net [
  | none ↦ []
  | some net_config ↦
      netdev_args net_config
      ++ (codes "-device"
          ∷ concat (codes "virtio-net-pci,mac=" ∷ mac_of net_config ∷ codes ",netdev=net0" ∷ [])
          ∷ [])
]

-- `Vec<String>::from(&GuestConfig)`
unfoldable pub args : GuestConfig → List Text
args cfg =
    display_args cfg
    ++ (cpu_args cfg
        ++ (host_args cfg
            ++ (machine_args cfg
                ++ (io_thread_args cfg
                    ++ (payload_args cfg
                        ++ (size_args cfg
                            ++ (incoming_args cfg
                                ++ (rtc_args cfg
                                    ++ (ovmf_args cfg
                                        ++ (cloud_init_args cfg ++ net_args cfg))))))))))
