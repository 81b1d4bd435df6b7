-- ===== src/Tests/Table.antt =====
-- The table commitment and the search over it, on a table of depth 2 and a stand-in for SHA-256.
use deadcat.Prelude.{
  ℕ, zero, suc, ◌+◌, ◌≡◌, refl, ap, ◌⊎◌, ok, err, arith, Option, none, some, [], ◌∷◌, Bytes, length,
  Result, bytes_eq, checked_mul, checked_add, checked_sub, abs_diff, u64_try_from,
}
use deadcat.Error.{Error}
use deadcat.Lmsr.Params.{LmsrPoolParams, IsValid, validate, validate-IsValid}
use deadcat.Lmsr.Math.{
  LmsrQuote, buy_yes, checked_base_notional, compute_traded_lots, deltas, div_ceil, is_buy,
  min_collateral_in, quote_from_table, requires_increasing_index, validate_direction,
  price_bps_from_ratio,
}
use deadcat.Lmsr.Table.{
  LmsrTableManifest, LmsrTableProof, proof_at, manifest_root, verify_lmsr_table_proof, value_at,
  max_index, is_power_of_two_within, lmsr_table_root, leaves_from, next_level, root_of_levels,
  lmsr_table_leaf_hash, lmsr_table_node_hash, be_bytes, climb, verify_matches_pool_params,
  params_valid,
}
use deadcat.Lmsr.Table.Inclusion.{proof_at_verifies}
use deadcat.Lmsr.Table.Binding.{Collision, verify_lmsr_table_proof_binding}
use deadcat.Lmsr.Exact.{
  quote_exact_input_from_manifest, fee_free_yes_spot_price_bps, interior_spot_price, max_steps,
  exact_loop, step_quote, fits, moved_index,
}
use deadcat.Lmsr.Exact.Largest.{NoneLater, IsLargest, quote_exact_input-IsLargest}
use deadcat.Lmsr.Exact.Spot.{IsNearest, spot_price_saturates, spot_price-IsNearest}

-- The first `n` bytes of a message, padded with zeros.
abbrev pub pad : ℕ → Bytes → Bytes
pad zero m = []
pad (suc n) [] = 0 ∷ pad n []
pad (suc n) (b ∷ m) = b ∷ pad n m

abbrev pub sha256 : Bytes → Bytes
sha256 = pad 32

length-pad : (n : ℕ) (m : Bytes) → length (pad n m) ≡ n
length-pad zero m = refl
length-pad (suc n) [] = ap suc (length-pad n [])
length-pad (suc n) (b ∷ m) = ap suc (length-pad n m)

abbrev pub table : LmsrTableManifest
table = record { table_depth = 2; values = 100 ∷ 130 ∷ 165 ∷ 205 ∷ [] }

proof_at_verifies_example :
    (p : LmsrTableProof) × (root : Bytes) × (proof_at sha256 table 2 ≡ ok p)
    × (manifest_root sha256 table ≡ ok root)
    × (p.index ≡ 2)
    × (p.value ≡ 165)
    × (p.path_bits ≡ 2)
    × (verify_lmsr_table_proof sha256 root 2 p.index p.value p.path_bits p.siblings ≡ ok tt)
proof_at_verifies_example = proof_at_verifies sha256 table 2 165 (omega arith) refl refl

-- Leaf 1 of depth 1, proved with two values: the stand-in drops the end of a node's message, so
-- that it has collisions.
abbrev sibling : Bytes
sibling = pad 32 (7 ∷ [])

abbrev leaf_root : Bytes
leaf_root = lmsr_table_node_hash sha256 sibling (lmsr_table_leaf_hash sha256 1 5)

verify_lmsr_table_proof_binding_example : (◌≡◌ {A = ℕ} 5 9) ⊎ Collision sha256
unfolding verify_lmsr_table_proof climb lmsr_table_leaf_hash lmsr_table_node_hash be_bytes bytes_eq
verify_lmsr_table_proof_binding_example =
    verify_lmsr_table_proof_binding sha256 (length-pad 32) leaf_root 1 1 5 9 1 1 (sibling ∷ [])
      (sibling ∷ []) (omega arith) (omega arith) (omega arith) (refl, tt) (refl, tt) refl refl

abbrev pub pool : LmsrPoolParams
pool = record {
  yes_asset_id = 1 ∷ [];
  no_asset_id = 2 ∷ [];
  collateral_asset_id = 3 ∷ [];
  lmsr_table_root = elim (manifest_root sha256 table) [ ok root ↦ root | err e ↦ [] ];
  table_depth = 2;
  q_step_lots = 10;
  s_bias = 1;
  s_max_index = 3;
  half_payout_sats = 100;
  fee_bps = 100;
  min_r_yes = 1;
  min_r_no = 1;
  min_r_collateral = 1;
  cosigner_pubkey = [];
}

validate-IsValid_example : IsValid pool
unfolding validate bytes_eq
validate-IsValid_example = validate-IsValid pool refl

abbrev found : Result Error (Option LmsrQuote) → Option LmsrQuote
found (ok r) = r
found (err e) = none

-- 2100 units of collateral buy two steps of YES, and the third step costs more.
abbrev bought : Option LmsrQuote
bought = found (quote_exact_input_from_manifest sha256 table pool buy_yes 0 2100)

quote_exact_input-IsLargest_example :
    (old_f : ℕ) × (value_at table 0 ≡ ok old_f)
    × (((bought ≡ none) × NoneLater table pool buy_yes 0 old_f 2100 0)
        ⊎ ((q : LmsrQuote) × (bought ≡ some q) × IsLargest table pool buy_yes 0 old_f 2100 q))
unfolding quote_exact_input_from_manifest params_valid validate verify_matches_pool_params max_index
    manifest_root lmsr_table_root is_power_of_two_within root_of_levels leaves_from next_level
    lmsr_table_node_hash lmsr_table_leaf_hash be_bytes value_at bytes_eq checked_mul
    checked_base_notional checked_add checked_sub max_steps exact_loop fits moved_index step_quote
    compute_traded_lots deltas div_ceil is_buy min_collateral_in quote_from_table
    requires_increasing_index validate_direction abs_diff u64_try_from
quote_exact_input-IsLargest_example =
    quote_exact_input-IsLargest sha256 table pool buy_yes 0 2100 refl (omega arith)

abbrev price_at : ℕ → ℕ
price_at s = elim (fee_free_yes_spot_price_bps sha256 table pool s) [ ok p ↦ p | err e ↦ 0 ]

spot_price_saturates_example : price_at 1 ≡ 10000
unfolding fee_free_yes_spot_price_bps interior_spot_price price_bps_from_ratio params_valid validate
    verify_matches_pool_params max_index manifest_root lmsr_table_root is_power_of_two_within
    root_of_levels leaves_from next_level lmsr_table_node_hash lmsr_table_leaf_hash be_bytes
    value_at bytes_eq checked_mul checked_base_notional checked_add checked_sub
spot_price_saturates_example =
    spot_price_saturates sha256 table pool 1 165 100 {p = price_at 1} refl (omega arith) refl refl
      (omega arith)

-- A cost function that falls over the whole table.
abbrev falling : LmsrTableManifest
falling = record { table_depth = 2; values = 205 ∷ 165 ∷ 130 ∷ 100 ∷ [] }

abbrev falling_pool : LmsrPoolParams
falling_pool = record pool {
  lmsr_table_root = elim (manifest_root sha256 falling) [ ok root ↦ root | err e ↦ [] ];
}

spot_price-IsNearest_example : (num : ℕ) × (num + 205 ≡ 2130) × IsNearest num 2000 9625
unfolding fee_free_yes_spot_price_bps interior_spot_price price_bps_from_ratio params_valid validate
    verify_matches_pool_params max_index manifest_root lmsr_table_root is_power_of_two_within
    root_of_levels leaves_from next_level lmsr_table_node_hash lmsr_table_leaf_hash be_bytes
    value_at bytes_eq checked_mul checked_base_notional checked_add checked_sub
spot_price-IsNearest_example =
    spot_price-IsNearest sha256 falling falling_pool 1 130 205 {p = 9625} refl (omega arith)
      (omega arith) refl refl
