-- ===== src/Ssh/Tests.antt =====
-- A guest that answers `ssh` 3 s behind the start, on the sample machine.
use qemu_test.Prelude.{
  ℕ, ◌≡◌, ◌↔◌, refl, Bool, false, some, List, Text, codes, ltb, if◌then◌else◌, Result, ok,
}
use qemu_test.Number.{decimal}
use qemu_test.Host.{from_secs, is_expired, again, repeat_rounds}
use qemu_test.Host.Rounds.{Goes}
use qemu_test.Host.Sample.{World, boot, machine}
use qemu_test.Ssh.{Output, command_args, ssh_command, ssh_round, ssh_judge}
use qemu_test.Ssh.Retry.{SshEnd, ssh_command_end, ssh_round_again_iff}

abbrev output : Bool → Output
output up =
    if up
    then record { code = some 0; stdout = codes " 6.12.0\n"; stderr = codes "" }
    else record { code = some 255; stdout = codes ""; stderr = codes "Connection refused\n" }

abbrev ssh : List Text → World → Result Output × World
ssh args w = (ok (output (ltb (from_secs 3) w.clock)), w)

abbrev text : List ℕ → Text
text b = b

release_read :
    (w' : World) × (ssh_command machine text decimal ssh 4
        (codes "key")
        (codes "localhost")
        2222
        (codes "cloud")
        (codes "uname -r")
        (from_secs 30)
        boot
      ≡ (some (ok (codes "6.12.0")), w'))
unfolding ssh_command ssh_round ssh_judge repeat_rounds
release_read = (_, refl)

abbrev args : List Text
args = command_args (codes "key") (codes "localhost") 2222 (codes "cloud") (codes "uname -r")

ssh_command_end_example :
    (u : World) × Goes (ssh_round machine text decimal ssh args 0 (from_secs 30)) boot u
    × SshEnd machine text decimal ssh args 0 (from_secs 30) u (ok (codes "6.12.0")) release_read.0
ssh_command_end_example =
    ssh_command_end machine text decimal ssh 4 (codes "key") (codes "localhost") 2222
      (codes "cloud") (codes "uname -r") (from_secs 30) boot release_read.0 (ok (codes "6.12.0"))
      release_read.1

ssh_round_again_iff_example :
    ((ssh_round machine text decimal ssh args 0 (from_secs 30) boot).0 ≡ again) ↔ (
      (machine.shutdown boot ≡ false)
      × ((o : Output) × ((ssh args boot).0 ≡ ok o)
          × (o.code ≡ some 255)
          × (is_expired machine 0 (from_secs 30) (ssh args boot).1 ≡ false)))
ssh_round_again_iff_example =
    ssh_round_again_iff machine text decimal ssh args 0 (from_secs 30) boot
