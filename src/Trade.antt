-- ===== src/Trade.antt =====
-- trade: routing a trade through limit orders and the pool.
pub mod Types
pub mod Fill
pub mod Route
pub mod Price
pub mod Plan
pub mod Assembly
pub mod Convert
