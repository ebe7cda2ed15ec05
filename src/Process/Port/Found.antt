-- ===== src/Process/Port/Found.antt =====
-- `ssh_port` of src/process.rs on the lines of an answer.
use qemu_test.Prelude.{
  ℕ, ◌≤◌, ◌≡◌, refl, true, false, List, [], ◌∷◌, ◌++◌, Text, codes, contains, All, ok,
}
use qemu_test.Number.{decimal, u16_max, parse_u16, parse-decimal}
use qemu_test.Process.Port.{lines, split_whitespace, is_ssh_forward, port_of, find_port, ssh_port}

abbrev pub IsOther : Text → Type 0
IsOther line = is_ssh_forward (split_whitespace line) ≡ false

find_port-append :
    (before rest : List Text) → All IsOther before → find_port (before ++ rest) ≡ find_port rest
unfolding find_port
find_port-append [] rest h = refl
find_port-append (l ∷ before) rest (h, hs) = rw h (find_port-append before rest hs)

find_port-here :
    (line : Text) (after : List Text) (f0 f1 f2 f4 : Text) (more : List Text) (port : ℕ)
    → split_whitespace line ≡ f0 ∷ f1 ∷ f2 ∷ decimal port ∷ f4 ∷ codes "22" ∷ more
    → contains f0 (codes "HOST_FORWARD") ≡ true
    → port ≤ u16_max
    → find_port (line ∷ after) ≡ ok port
unfolding find_port port_of parse_u16
find_port-here line after f0 f1 f2 f4 more port e c b = rw (e, c, parse-decimal u16_max port b) refl

-- If the first line that forwards to the guest's port 22 has, in its fourth field, the print of a
-- number in the range of a port, then that number is the port.
pub ssh_port_found :
    (output : Text) (before : List Text) (line : Text) (after : List Text) (f0 f1 f2 f4 : Text)
    (more : List Text) (port : ℕ)
    → lines output ≡ before ++ line ∷ after
    → All IsOther before
    → split_whitespace line ≡ f0 ∷ f1 ∷ f2 ∷ decimal port ∷ f4 ∷ codes "22" ∷ more
    → contains f0 (codes "HOST_FORWARD") ≡ true
    → port ≤ u16_max
    → ssh_port (ok output) ≡ ok port
unfolding ssh_port
ssh_port_found output before line after f0 f1 f2 f4 more port e others fields forward bound =
    rw (e, find_port-append before (line ∷ after) others)
      (find_port-here line after f0 f1 f2 f4 more port fields forward bound)
