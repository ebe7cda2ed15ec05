-- ===== src/Scenario.antt =====
-- What the tests of src/tests share: locals of a test that are dropped when it returns, in reverse
-- order: the temporary directories and the processes.
pub mod Outside
pub mod Ends
pub mod Seen
pub mod Remote
pub mod Sample
use qemu_test.Prelude.{ℕ, Option, none, some, Text, Result}
use qemu_test.Config.{Config}
use qemu_test.Guest.Builder.{QemuConfig}
use qemu_test.Host.{Host}
use qemu_test.Host.Task.{Task, ◌>>=◌, call, with_context}
use qemu_test.Process.Spawn.{Launcher, QemuProcess, connect_fuel, spawn}
use qemu_test.Process.Child.{drop}
use qemu_test.Scenario.Outside.{Bench, drop_fuel}

-- a result behind the drop of a local
abbrev pub behind : {A : Type 0} → Option (Unit {0}) → Option (Result A) → Option (Result A)
behind none result = none
behind (some dropped) result = result

-- a task whose local is dropped when it returns
abbrev pub dropping : {W A : Type 0} → (W → Option (Unit {0}) × W) → Task W A → Task W A
dropping drop task w =
    let (result, w') = task w in let (dropped, w'') = drop w' in (behind dropped result, w'')

-- `let a = make().context(message)?`, which is dropped by `close`, and `body` the rest of the function
unfoldable pub with_local :
    {W A : Type 0}
    → (W → Result A × W)
    → (A → W → W)
    → Text
    → (A → Task W (Unit {0}))
    → Task W (Unit {0})
with_local make close message body = do
  a ← with_context (call make) message
  dropping (λ w. (some tt, close a w)) (body a)

module _ (h : Host) (l : Launcher h) (b : Bench h l) where
  -- `let mut process = QemuProcess::spawn(cfg).context(message)?`, and `body` the rest of the function
  unfoldable pub with_process :
      Text → Config → QemuConfig → (QemuProcess h l → Task h.W (Unit {0})) → Task h.W (Unit {0})
  with_process message config cfg body = do
    process ← with_context (spawn h l connect_fuel config cfg) message
    dropping (drop h (b.child_of process) drop_fuel process.accel) (body process)

  -- `let dir = tempfile::tempdir().context(message)?`, and `body` the rest of the function
  unfoldable pub with_temp_dir : Text → (Text → Task h.W (Unit {0})) → Task h.W (Unit {0})
  unfolding with_local
  with_temp_dir message body = with_local b.tempdir b.remove_dir message body
