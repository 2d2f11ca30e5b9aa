-- ===== src/Client.antt =====
-- crates/morsh-client: the keyboard's bytes on their way to the server, and the screen.
pub mod Escape
pub mod Frame
pub mod Input
pub mod Utf16
