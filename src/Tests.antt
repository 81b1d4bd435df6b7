-- ===== src/Tests.antt =====
-- The theorems at concrete inputs, and the numbers of the repository's own unit tests.
mod Market
mod Outputs
mod Lmsr
mod Table
mod MakerOrder
mod Trade
mod Scan
mod Plan
mod Assembly
mod Convert
