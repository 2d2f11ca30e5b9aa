-- ===== src/Tests.antt =====
-- Runs of the development's functions at concrete inputs: the test data, and the theorems applied to
-- them.
pub mod Toys
mod Crypto
mod Network
mod Sync
mod States
mod Client
mod Prediction
mod Complete
