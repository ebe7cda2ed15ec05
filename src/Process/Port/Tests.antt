-- ===== src/Process/Port/Tests.antt =====
-- An answer to `info usernet`, as QEMU prints it.
use qemu_test.Prelude.{◌≡◌, refl, [], ◌∷◌, Text, codes, All, ok, arith}
use qemu_test.Number.{decimal}
use qemu_test.Process.Port.{lines, split_whitespace, ssh_port}
use qemu_test.Process.Port.Found.{IsOther, ssh_port_found}

abbrev usernet : Text
usernet =
    codes
      "Hub -1 (net0):\n  Protocol[State]    FD  Source Address  Port   Dest. Address  Port RecvQ SendQ\n  TCP[HOST_FORWARD]  13       127.0.0.1 41235       10.0.2.15    22     0     0\n"

abbrev forward_line : Text
forward_line =
    codes "  TCP[HOST_FORWARD]  13       127.0.0.1 41235       10.0.2.15    22     0     0"

usernet-lines :
    lines usernet
    ≡ codes "Hub -1 (net0):"
      ∷ codes "  Protocol[State]    FD  Source Address  Port   Dest. Address  Port RecvQ SendQ"
      ∷ forward_line
      ∷ []
unfolding lines
usernet-lines = refl

others : All IsOther (
    codes "Hub -1 (net0):"
    ∷ codes "  Protocol[State]    FD  Source Address  Port   Dest. Address  Port RecvQ SendQ"
    ∷ [])
unfolding split_whitespace
others = (refl, (refl, tt))

forward_fields :
    split_whitespace forward_line
    ≡ codes "TCP[HOST_FORWARD]"
      ∷ codes "13"
      ∷ codes "127.0.0.1"
      ∷ decimal 41235
      ∷ codes "10.0.2.15"
      ∷ codes "22"
      ∷ codes "0"
      ∷ codes "0"
      ∷ []
unfolding split_whitespace decimal
forward_fields = refl

ssh_port_found_example : ssh_port (ok usernet) ≡ ok 41235
ssh_port_found_example =
    ssh_port_found usernet
      (codes "Hub -1 (net0):"
        ∷ codes "  Protocol[State]    FD  Source Address  Port   Dest. Address  Port RecvQ SendQ"
        ∷ [])
      forward_line [] (codes "TCP[HOST_FORWARD]") (codes "13") (codes "127.0.0.1")
      (codes "10.0.2.15") (codes "0" ∷ codes "0" ∷ []) 41235 usernet-lines others forward_fields
      refl (omega arith)
