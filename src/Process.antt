-- ===== src/Process.antt =====
-- `QemuProcess` of src/process.rs: the sockets, the loops that wait for the guest, and its end.

pub mod Socket
pub mod Serial
pub mod Status
pub mod Child
pub mod Port
pub mod Spawn
pub mod Log
mod Tests
