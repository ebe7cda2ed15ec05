-- ===== src/Config/Tests.antt =====
-- Examples of the readers of the environment.
use qemu_test.Prelude.{◌≤◌, ◌≡◌, refl, Option, none, some, Text, codes, text_eq, if◌then◌else◌, ok}
use qemu_test.Number.{usize_max, parse_usize}
use qemu_test.Config.{load, test_repeat}
use qemu_test.Config.Laws.{test_repeat_bounds}

-- ACCEL=mshv TEST_REPEAT=+25
abbrev var : Text → Option Text
var name =
    if text_eq name (codes "ACCEL")
    then some (codes "mshv")
    else if text_eq name (codes "TEST_REPEAT")
    then some (codes "+25")
    else none

repeat_read : test_repeat (load var) ≡ ok 25
unfolding load test_repeat parse_usize
repeat_read = refl

test_repeat_bounds_example : (1 ≤ 25) × (25 ≤ usize_max)
test_repeat_bounds_example = test_repeat_bounds (load var) 25 repeat_read
