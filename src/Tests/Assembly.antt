-- ===== src/Tests/Assembly.antt =====
-- The transaction of the plan of Tests/Plan.antt: two orders and the pool.
use deadcat.Prelude.{
  ℕ, ◌≡◌, refl, none, some, [], ◌∷◌, Bytes, Result, ok, err, length, bytes_eq, checked_add,
  checked_sub, wrapping_add, map, List,
}
use deadcat.Prelude.{checked_mul, abs_diff, u64_try_from, saturating_sub}
use deadcat.Lmsr.Params.{validate}
use deadcat.Lmsr.Math.{
  buy_yes, checked_base_notional, compute_traded_lots, deltas, div_ceil, min_collateral_in,
  quote_from_table, requires_increasing_index, validate_direction,
}
use deadcat.Lmsr.Table.{
  proof_at, proof_loop, set_bit, manifest_root, value_at, max_index, is_power_of_two_within,
  lmsr_table_root, leaves_from, next_level, root_of_levels, verify_matches_pool_params,
  params_valid,
}
use deadcat.Lmsr.Exact.{
  quote_exact_input_from_manifest, max_steps, exact_loop, step_quote, fits, moved_index,
}
use deadcat.Trade.Fill.{fill_buy_order, fill_buy_order_with_lots, fill_order}
use deadcat.Trade.Route.{fill_orders}
use deadcat.Trade.Price.{
  lmsr_trade_kind, target_token_asset, spot_price_at, lmsr_spot_price, pool_spot, order_buy_price,
  order_price, as_good, beats_spot, eligible, insert_order, sort_orders,
}
use deadcat.Trade.Plan.{
  quote_deltas, taker_assets, after_pool, stated_input, reserves_of, pool_leg, swap_leg,
  route_remainder, finish_plan, build_execution_plan,
}
use deadcat.Error.{Error}
use deadcat.Pset.{new_pset, add_pset_input, add_pset_output, explicit_txout, fee_txout}
use deadcat.Lmsr.Params.{LmsrPoolParams}
use deadcat.Lmsr.Math.{buy_yes, is_buy}
use deadcat.Lmsr.Table.{
  verify_lmsr_table_proof, lmsr_table_leaf_hash, lmsr_table_node_hash, be_bytes, climb,
}
use deadcat.MakerOrder.Params.{
  MakerOrderParams, sell_base, CompiledMakerOrder, wanted_asset, offered_asset,
}
use deadcat.Trade.Types.{OrderFillLeg, LmsrPoolSwapLeg, swap}
use deadcat.Trade.Plan.{only_last_partial}
use deadcat.Trade.Assembly.{
  TradePsetParams, TradePsetResult, total_value, add_coin, add_coins, add_order, add_orders,
  pool_coins, reserve_prefix_output, max_index_of, dense_from, dense_outputs, add_outputs,
  apply_delta, token_deltas, remainder_output, add_required_change, validate_trade, taker_outputs,
  validate_lmsr_table_membership, covenant_inputs, reserve_outputs, maker_txout, maker_outputs,
  numbered_outputs, build_trade_pset,
}
use deadcat.Trade.Assembly.Inputs.{Spends}
use deadcat.Trade.Assembly.Prefixes.{PaysAt, RemainderAt}
use deadcat.Trade.Assembly.Outputs.{IsAt}
use deadcat.Trade.Assembly.Aligned.{build_trade_pset-aligned}
use deadcat.Trade.Assembly.Reserves.{ReservesAt, build_trade_pset-reserves}
use deadcat.Tests.Market.{coin}
use deadcat.Tests.MakerOrder.{quote_asset, order_contract}
use deadcat.Tests.Table.{sha256, pool}
use deadcat.Tests.Plan.{plan, scanned_pool}

abbrev compile_pool : LmsrPoolParams → Result Error (ℕ → Bytes)
compile_pool params = ok (λ index. [])

abbrev receive_spk : Bytes → Bytes → MakerOrderParams → Bytes
receive_spk key nonce params = 60 ∷ key

abbrev contracts : List OrderFillLeg → List CompiledMakerOrder
contracts legs = map (λ leg. order_contract sell_base) legs

abbrev trade : TradePsetParams
trade = record {
  plan = plan;
  order_contracts = contracts plan.order_legs;
  taker_funding_utxos = coin 7 quote_asset 3000 ∷ [];
  fee_utxo = coin 8 quote_asset 500;
  fee_amount = 400;
  fee_asset_id = quote_asset;
  taker_receive_destination = 70 ∷ [];
  taker_change_destination = some (71 ∷ []);
}

abbrev no_result : TradePsetResult
no_result = record {
  pset = new_pset;
  all_input_utxos = [];
  blind_output_indices = [];
  lmsr_input_range = none;
  order_input_indices = [];
}

abbrev outcome : Result Error TradePsetResult
outcome = build_trade_pset sha256 compile_pool receive_spk trade

abbrev result : TradePsetResult
result = elim outcome [ ok r ↦ r | err e ↦ no_result ]

abbrev no_pool_leg : LmsrPoolSwapLeg
no_pool_leg = record {
  primary_path = swap;
  pool_params = pool;
  pool_id = "";
  old_s_index = 0;
  new_s_index = 0;
  old_path_bits = 0;
  new_path_bits = 0;
  old_siblings = [];
  new_siblings = [];
  in_base = 0;
  out_base = 0;
  pool_utxos = scanned_pool.pool_utxos;
  trade_kind = buy_yes;
  old_f = 0;
  new_f = 0;
  delta_in = 0;
  delta_out = 0;
  admin_signature = [];
}

abbrev leg : LmsrPoolSwapLeg
leg = elim plan.lmsr_pool_leg [ some l ↦ l | none ↦ no_pool_leg ]

-- The coins of the pool, of the two orders, and of the taker; their outputs and those for the taker.
outcome-ok :
    (outcome ≡ ok result)
    × (length result.pset.inputs ≡ 7)
    × (length result.pset.outputs ≡ 9)
    × (result.order_input_indices ≡ 3 ∷ 4 ∷ [])
    × (result.blind_output_indices ≡ 5 ∷ 6 ∷ 8 ∷ [])
    × (plan.lmsr_pool_leg ≡ some leg)
unfolding build_execution_plan pool_spot lmsr_spot_price spot_price_at lmsr_trade_kind
    target_token_asset order_buy_price order_price as_good beats_spot eligible insert_order
    sort_orders fill_orders fill_order fill_buy_order fill_buy_order_with_lots route_remainder
    finish_plan pool_leg swap_leg quote_deltas taker_assets only_last_partial after_pool
    stated_input reserves_of quote_exact_input_from_manifest params_valid validate
    verify_matches_pool_params max_index manifest_root lmsr_table_root is_power_of_two_within
    root_of_levels leaves_from next_level lmsr_table_node_hash lmsr_table_leaf_hash be_bytes
    value_at proof_at proof_loop set_bit bytes_eq checked_mul checked_base_notional checked_add
    checked_sub max_steps exact_loop fits moved_index step_quote compute_traded_lots deltas div_ceil
    is_buy min_collateral_in quote_from_table requires_increasing_index validate_direction abs_diff
    u64_try_from saturating_sub wrapping_add total_value add_coin add_coins add_order add_orders
    pool_coins reserve_prefix_output max_index_of dense_from dense_outputs add_outputs apply_delta
    token_deltas remainder_output add_required_change validate_trade taker_outputs
    validate_lmsr_table_membership covenant_inputs reserve_outputs maker_txout maker_outputs
    numbered_outputs build_trade_pset verify_lmsr_table_proof climb add_pset_input add_pset_output
    explicit_txout fee_txout new_pset wanted_asset offered_asset
outcome-ok = (refl, refl, refl, refl, refl, refl)

build_trade_pset-aligned_example :
    (length trade.order_contracts ≡ length plan.order_legs)
    × Spends result.pset.inputs plan.order_legs result.order_input_indices
    × PaysAt sha256 compile_pool receive_spk
        (IsAt result.pset)
        plan.order_legs
        result.order_input_indices
    × RemainderAt
        (IsAt result.pset)
        plan.order_legs
        trade.order_contracts
        result.order_input_indices
build_trade_pset-aligned_example =
    build_trade_pset-aligned sha256 compile_pool receive_spk trade outcome-ok.0

build_trade_pset-reserves_example :
    ReservesAt sha256 compile_pool receive_spk (IsAt result.pset) leg
build_trade_pset-reserves_example =
    build_trade_pset-reserves sha256 compile_pool receive_spk trade leg outcome-ok.5 outcome-ok.0
