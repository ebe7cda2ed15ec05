-- ===== src/Process/Port.antt =====
-- `ssh_port` of src/process.rs: the port of the host that QEMU forwards to the guest's port 22, read
-- from the answer to `info usernet`. The QMP call is a parameter: its answer is an argument.
pub mod Found
mod Tests
use qemu_test.Prelude.{
  ℕ, Bool, true, false, ◌&&◌, List, [], ◌∷◌, ◌++◌, Text, codes, contains, text_eq, is_whitespace,
  is_empty, split, if◌then◌else◌, Result, ok, err, bail, context, ◌>>=◌, ◌==◌,
}
use qemu_test.Number.{parse_u16}

-- a `\r` before the line feed is no part of the line
abbrev strip_return : Text → Text
strip_return [] = []
strip_return (c ∷ []) = if c == b'\r' then [] else c ∷ []
strip_return (c ∷ d ∷ s) = c ∷ strip_return (d ∷ s)

-- the lines that the parts between line feeds are; the last part is one unless it is empty
abbrev lines_of : List Text → List Text
lines_of [] = []
lines_of ([] ∷ []) = []
lines_of ((c ∷ s) ∷ []) = (c ∷ s) ∷ []
lines_of (p ∷ q ∷ ps) = strip_return p ∷ lines_of (q ∷ ps)

-- `str::lines`
unfoldable pub lines : Text → List Text
lines s = lines_of (split s b'\n')

-- `word` is what has been read of a field
abbrev fields_from : Text → Text → List Text
fields_from [] word = if is_empty word then [] else word ∷ []
fields_from (c ∷ s) word =
    let more = fields_from s (word ++ c ∷ []) in
    let rest = fields_from s [] in
    if is_whitespace c then (if is_empty word then rest else word ∷ rest) else more

-- `str::split_whitespace`
unfoldable pub split_whitespace : Text → List Text
split_whitespace s = fields_from s []

-- `fields.len() >= 6 && fields[0].contains("HOST_FORWARD") && fields[5] == "22"`
abbrev pub is_ssh_forward : List Text → Bool
is_ssh_forward (f0 ∷ f1 ∷ f2 ∷ f3 ∷ f4 ∷ f5 ∷ rest) =
    contains f0 (codes "HOST_FORWARD") && text_eq f5 (codes "22")
is_ssh_forward _ = false

-- `fields[3].parse()`, of a line with that field
unfoldable pub port_of : List Text → Result ℕ
port_of (f0 ∷ f1 ∷ f2 ∷ f3 ∷ rest) =
    context (parse_u16 f3) (codes "failed to parse SSH port from usernet info")
port_of _ = bail (codes "index out of bounds")

-- the loop over the lines
unfoldable pub find_port : List Text → Result ℕ
unfolding port_of
find_port [] = bail (codes "no SSH host forward found in usernet info")
find_port (line ∷ rest) =
    if is_ssh_forward (split_whitespace line)
    then port_of (split_whitespace line)
    else find_port rest

unfoldable pub ssh_port : Result Text → Result ℕ
unfolding find_port lines
ssh_port answer = do
  output ← context answer (codes "failed to query usernet info")
  find_port (lines output)
