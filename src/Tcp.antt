-- ===== src/Tcp.antt =====
-- net/tcp.c: its parts.
pub mod Socket
pub mod Receive
pub mod Calls
pub mod Invariant
pub mod Moves
pub mod Table
pub mod Steps
pub mod Timer
pub mod Data
pub mod Reading
pub mod Tests
