-- ===== src/Network.antt =====
-- crates/morsh-network: the transport below the state synchronisation protocol.
pub mod Constants
pub mod Rtt
pub mod Fragment
pub mod Fragmenter
pub mod Assembly
pub mod Connection
pub mod State
pub mod Sender
pub mod Transport
pub mod Sync
