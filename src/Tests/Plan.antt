-- ===== src/Tests/Plan.antt =====
-- A purchase that two orders and the pool serve. Prices are compared as natural numbers.
use deadcat.Prelude.{
  ℕ, ◌/◌, ◌%◌, ◌<◌, ◌≤◌, ◌≡◌, refl, ◌⊎◌, true, leb, Option, none, some, [], ◌∷◌, bytes_eq, Result,
  ok, err, arith, All, u64_mod, checked_mul, checked_add, checked_sub, abs_diff, u64_try_from,
  saturating_sub, wrapping_add,
}
use deadcat.Error.{Error}
use deadcat.Lmsr.Params.{validate}
use deadcat.Lmsr.Math.{
  checked_base_notional, compute_traded_lots, deltas, div_ceil, is_buy, min_collateral_in,
  quote_from_table, requires_increasing_index, validate_direction,
}
use deadcat.Lmsr.Table.{
  proof_at, proof_loop, set_bit, manifest_root, value_at, max_index, is_power_of_two_within,
  lmsr_table_root, leaves_from, next_level, root_of_levels, lmsr_table_leaf_hash,
  lmsr_table_node_hash, be_bytes, verify_matches_pool_params, params_valid,
}
use deadcat.Lmsr.Exact.{
  quote_exact_input_from_manifest, max_steps, exact_loop, step_quote, fits, moved_index,
}
use deadcat.Trade.Types.{yes_side, buy, ScannedLmsrPool, ExecutionPlan}
use deadcat.Trade.Fill.{fill_buy_order, fill_buy_order_with_lots, fill_order}
use deadcat.Trade.Route.{fill_orders}
use deadcat.Trade.Price.{
  lmsr_trade_kind, target_token_asset, spot_price_at, lmsr_spot_price, pool_spot, order_buy_price,
  order_price, as_good, beats_spot, eligible, insert_order, sort_orders,
}
use deadcat.Trade.Plan.{
  quote_deltas, taker_assets, only_last_partial, after_pool, stated_input, reserves_of, pool_leg,
  swap_leg, route_remainder, finish_plan, build_execution_plan, plan_to_route_legs,
}
use deadcat.Trade.Plan.Balance.{input_sum, output_sum, build_execution_plan-balance}
use deadcat.Trade.Plan.Spot.{IsSpot}
use deadcat.Trade.Plan.Within.{leg_params, InOrder}
use deadcat.Trade.Plan.Order.{
  traded_token, IsAsGood, IsUsable, OnlyLastPartial, build_execution_plan-best_first,
}
use deadcat.Tests.Market.{coin}
use deadcat.Tests.MakerOrder.{base, quote_asset}
use deadcat.Tests.Table.{sha256, table, pool}
use deadcat.Tests.Trade.{book}

abbrev pub scanned_pool : ScannedLmsrPool
scanned_pool = record {
  params = pool;
  pool_id = "pool";
  current_s_index = 0;
  reserves = record { r_yes = 500; r_no = 500; r_lbtc = 9000 };
  pool_utxos = record {
    yes_utxo = coin 0 base 500;
    no_utxo = coin 1 (4 ∷ []) 500;
    collateral_utxo = coin 2 quote_asset 9000;
  };
  manifest = table;
}

abbrev pub no_plan : ExecutionPlan
no_plan = record {
  order_legs = [];
  lmsr_pool_leg = none;
  taker_send_asset = [];
  taker_receive_asset = [];
  total_taker_input = 0;
  total_taker_output = 0;
  quoted_reserves = none;
}

abbrev as_f64 : ℕ → ℕ
as_f64 n = n

abbrev div : ℕ → ℕ → ℕ
div a b = a / b

abbrev built : Result Error ExecutionPlan
built =
    build_execution_plan sha256 ℕ as_f64 div leb (some scanned_pool) book yes_side buy 2142
      quote_asset base (4 ∷ [])

abbrev pub plan : ExecutionPlan
plan = elim built [ ok p ↦ p | err e ↦ no_plan ]

-- Fourteen units from the orders, and twenty from two steps of the pool.
built-ok : (built ≡ ok plan) × (plan.total_taker_input ≡ 2128) × (plan.total_taker_output ≡ 34)
unfolding build_execution_plan pool_spot lmsr_spot_price spot_price_at lmsr_trade_kind
    target_token_asset order_buy_price order_price as_good beats_spot eligible insert_order
    sort_orders fill_orders fill_order fill_buy_order fill_buy_order_with_lots route_remainder
    finish_plan pool_leg swap_leg quote_deltas taker_assets only_last_partial after_pool
    stated_input reserves_of quote_exact_input_from_manifest params_valid validate
    verify_matches_pool_params max_index manifest_root lmsr_table_root is_power_of_two_within
    root_of_levels leaves_from next_level lmsr_table_node_hash lmsr_table_leaf_hash be_bytes
    value_at proof_at proof_loop set_bit bytes_eq checked_mul checked_base_notional checked_add
    checked_sub max_steps exact_loop fits moved_index step_quote compute_traded_lots deltas div_ceil
    is_buy min_collateral_in quote_from_table requires_increasing_index validate_direction abs_diff
    u64_try_from saturating_sub wrapping_add
built-ok = (refl, refl, refl)

build_execution_plan-balance_example :
    (input_sum (plan_to_route_legs plan book) ≡ plan.total_taker_input)
    × (plan.total_taker_input ≤ 2142)
    × (output_sum (plan_to_route_legs plan book) % u64_mod ≡ plan.total_taker_output)
    × (0 < plan.total_taker_output)
build_execution_plan-balance_example =
    build_execution_plan-balance sha256 ℕ as_f64 div leb (some scanned_pool) book yes_side buy 2142
      quote_asset base (4 ∷ []) book (omega arith, (omega arith, (omega arith, tt))) built-ok.0

leb_total : (a b : ℕ) → (leb a b ≡ true) ⊎ (leb b a ≡ true)
leb_total a b = ground arith

leb_trans : (a b c : ℕ) → leb a b ≡ true → leb b c ≡ true → leb a c ≡ true
leb_trans a b c h k = ground arith

build_execution_plan-best_first_example :
    (spot : Option ℕ) × IsSpot ℕ as_f64 div leb (some scanned_pool) yes_side buy spot
    × All
        (IsUsable ℕ as_f64 div leb buy spot (traded_token yes_side base (4 ∷ [])))
        (leg_params plan.order_legs)
    × InOrder (IsAsGood ℕ as_f64 div leb buy) (leg_params plan.order_legs)
    × OnlyLastPartial plan.order_legs
build_execution_plan-best_first_example =
    build_execution_plan-best_first sha256 ℕ as_f64 div leb leb_total leb_trans (some scanned_pool)
      book yes_side buy 2142 quote_asset base (4 ∷ []) built-ok.0
