-- ===== src/Options.antt =====
-- The choices that a guest is configured by: the enumerations of src/process.rs with their `Display`
-- and `EnumString`, and `NetConfig` of src/util.rs.
pub mod Net
use qemu_test.Prelude.{
  ℕ, ◌≡◌, refl, Option, none, some, Text, codes, text_eq, if◌then◌else◌, Result, ok, bail,
}

pub data Accelerator : Type 0 where
  kvm mshv : Accelerator

pub data Machine : Type 0 where
  pc q35 : Machine

pub data CpuModel : Type 0 where
  host qemu64 haswell_v2 : CpuModel

pub data RtcClock : Type 0 where
  vm : RtcClock

-- `#[strum(serialize_all = "lowercase")]`
unfoldable pub accelerator_text : Accelerator → Text
accelerator_text kvm = codes "kvm"
accelerator_text mshv = codes "mshv"

-- `EnumString` accepts what `Display` prints, and nothing else.
unfoldable pub accelerator_try_from : Text → Result Accelerator
accelerator_try_from value =
    if text_eq value (codes "kvm")
    then ok kvm
    else if text_eq value (codes "mshv")
    then ok mshv
    else bail (codes "Matching variant not found")

unfoldable pub machine_text : Machine → Text
machine_text pc = codes "pc"
machine_text q35 = codes "q35"

unfoldable pub cpu_model_text : CpuModel → Text
cpu_model_text host = codes "host"
cpu_model_text qemu64 = codes "qemu64"
cpu_model_text haswell_v2 = codes "Haswell-v2"

unfoldable pub rtc_clock_text : RtcClock → Text
rtc_clock_text vm = codes "vm"

pub data QemuPayload : Type 0 where
  guest_bin : Text → QemuPayload
  kernel : Text → Option Text → QemuPayload
  disk_image : Text → QemuPayload
