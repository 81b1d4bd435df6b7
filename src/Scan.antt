-- ===== src/Scan.antt =====
-- prediction_market_scan.rs and prediction_market/anchor.rs: the state of a market is found by
-- following the transactions that spend its covenant outputs.
pub mod Anchor
pub mod Chain
pub mod Outputs
pub mod Creation
pub mod Transition
pub mod Proper
pub mod Walk
