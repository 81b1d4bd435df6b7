-- ===== src/Market.antt =====
-- The prediction market of src-tauri/crates/deadcat-sdk/src/prediction_market.
pub mod State
pub mod Params
pub mod Pset
pub mod Backing
