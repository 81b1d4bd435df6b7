-- ===== src/MakerOrder.antt =====
-- maker_order: limit orders of makers, and the transactions that create, fill and cancel them.
pub mod Params
pub mod Fill
pub mod Own
