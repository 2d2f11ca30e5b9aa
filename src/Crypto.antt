-- ===== src/Crypto.antt =====
-- crates/morsh-crypto: the nonce, and the session that encrypts and decrypts packets.
pub mod Nonce
pub mod Cipher
pub mod Session
pub mod Base64Key
