-- ===== src/Lmsr/Params.antt =====
-- lmsr_pool/params.rs: the pool's parameters and their validation. A number of type `u32` or `u64`
-- is a natural number, and `[u8; 32]` is a list of bytes.
use deadcat.Prelude.{
  ℕ, ◌-◌, ◌^◌, ◌<◌, ◌≤◌, ◌≡◌, ◌≢◌, Bool, ◌||◌, arith, ltb, leb, ◌==◌, Bytes, bytes_eq, Result, ok,
  fail_if, ◌>>◌, String, bytes_eq_refl, ap,
}

pub record LmsrPoolParams : Type 0 where
  pub yes_asset_id : Bytes
  pub no_asset_id : Bytes
  pub collateral_asset_id : Bytes
  pub lmsr_table_root : Bytes
  pub table_depth : ℕ
  pub q_step_lots : ℕ
  pub s_bias : ℕ
  pub s_max_index : ℕ
  pub half_payout_sats : ℕ
  pub fee_bps : ℕ
  pub min_r_yes : ℕ
  pub min_r_no : ℕ
  pub min_r_collateral : ℕ
  pub cosigner_pubkey : Bytes

unfoldable pub validate : LmsrPoolParams → Result String (Unit {0})
validate p = do
  fail_if (leb 10000 p.fee_bps) "fee_bps must be < 10000"
  fail_if (p.q_step_lots == 0) "q_step_lots must be > 0"
  fail_if (p.half_payout_sats == 0) "half_payout_sats must be > 0"
  fail_if (p.min_r_yes == 0) "min_r_yes must be > 0"
  fail_if (p.min_r_no == 0) "min_r_no must be > 0"
  fail_if (p.min_r_collateral == 0) "min_r_collateral must be > 0"
  fail_if (p.table_depth == 0 || ltb 63 p.table_depth) "table_depth must be in [1, 63]"
  fail_if (ltb (2 ^ p.table_depth - 1) p.s_max_index) "s_max_index exceeds table_depth capacity"
  fail_if (bytes_eq p.yes_asset_id p.no_asset_id) "yes_asset_id and no_asset_id must differ"
  fail_if (bytes_eq p.yes_asset_id p.collateral_asset_id)
      "yes_asset_id and collateral_asset_id must differ"
  fail_if (bytes_eq p.no_asset_id p.collateral_asset_id)
      "no_asset_id and collateral_asset_id must differ"
  ok tt

-- What the rest of the code relies on.
pub record IsValid (p : LmsrPoolParams) : Type 0 where
  pub fee_below : p.fee_bps < 10000
  pub step_pos : 0 < p.q_step_lots
  pub payout_pos : 0 < p.half_payout_sats
  pub yes_pos : 0 < p.min_r_yes
  pub no_pos : 0 < p.min_r_no
  pub collateral_pos : 0 < p.min_r_collateral
  pub depth_pos : 0 < p.table_depth
  pub depth_capped : p.table_depth ≤ 63
  pub index_fits : p.s_max_index ≤ 2 ^ p.table_depth - 1
  pub yes_ne_no : p.yes_asset_id ≢ p.no_asset_id
  pub yes_ne_collateral : p.yes_asset_id ≢ p.collateral_asset_id
  pub no_ne_collateral : p.no_asset_id ≢ p.collateral_asset_id

bytes_ne : (xs ys : Bytes) → bytes_eq xs ys ≡ Bool.false → xs ≢ ys
bytes_ne xs ys h e = ground (arith, bytes_eq_refl xs, ap (bytes_eq xs) e)

-- Parameters that pass the validation have every bound, and three distinct assets.
pub validate-IsValid : (p : LmsrPoolParams) → validate p ≡ ok tt → IsValid p
unfolding validate
validate-IsValid p h = ground (
  arith,
  bytes_ne p.yes_asset_id p.no_asset_id,
  bytes_ne p.yes_asset_id p.collateral_asset_id,
  bytes_ne p.no_asset_id p.collateral_asset_id,
)
