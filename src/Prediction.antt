-- ===== src/Prediction.antt =====
-- crates/morsh-prediction: what the client shows before the server has answered.
pub mod Notification
pub mod Overlay
pub mod Engine
