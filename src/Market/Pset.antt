-- ===== src/Market/Pset.antt =====
-- The transactions of prediction_market/pset: one file for those that create a market and issue
-- tokens, one for those that move it to its end, one for those that give collateral back.
pub mod Issue
pub mod Finish
pub mod Redeem
pub mod Outputs
