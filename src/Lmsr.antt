-- ===== src/Lmsr.antt =====
-- The LMSR pool of src-tauri/crates/deadcat-sdk/src/lmsr_pool.
pub mod Params
pub mod Math
pub mod Table
pub mod Exact
