-- ===== src/Terminal.antt =====
-- crates/morsh-terminal: the screen.
pub mod Snapshot
pub mod Equality
pub mod Display
pub mod Emulator
