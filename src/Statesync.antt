-- ===== src/Statesync.antt =====
-- crates/morsh-statesync: the states that the protocol synchronises.
pub mod UserStream
pub mod Complete
