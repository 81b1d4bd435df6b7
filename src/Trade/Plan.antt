-- ===== src/Trade/Plan.antt =====
-- trade/router.rs: `build_execution_plan`, and the legs of a plan for display.
pub mod Balance
pub mod Spot
pub mod Within
pub mod Order
use deadcat.Prelude.{
  ℕ, Bool, true, false, not, ltb, ◌==◌, if◌then◌else◌, Option, none, some, List, [], ◌∷◌, ◌++◌,
  Bytes, is_some, map, Result, ok, err, fail_if, ◌>>=◌, ◌>>◌, saturating_sub, wrapping_add, String,
}
use deadcat.Pset.{outpoint_eq, OutPoint, zero_bytes}
use deadcat.Error.{Error, no_liquidity, partial_fill_not_last}
use deadcat.Lmsr.Math.{LmsrTradeKind, LmsrQuote}
use deadcat.Lmsr.Table.{LmsrTableProof, value_at, proof_at}
use deadcat.Lmsr.Exact.{quote_exact_input_from_manifest}
use deadcat.Trade.Types.{
  TradeSide, TradeDirection, buy, sell, ScannedOrder, ScannedLmsrPool, OrderFillLeg,
  LmsrPoolSwapLeg, swap, ExecutionPlan, RouteLeg, LiquiditySource, lmsr_pool_source,
  limit_order_source,
}
use deadcat.Trade.Price.{lmsr_trade_kind, target_token_asset, pool_spot, queue}
use deadcat.Pool.{PoolReserves}
use deadcat.Trade.Route.{Filled, fill_orders}

-- What the taker gives and gets, `(delta_in, delta_out)`.
unfoldable pub quote_deltas : TradeDirection → LmsrQuote → ℕ × ℕ
quote_deltas buy q = (q.collateral_amount, q.traded_lots)
quote_deltas sell q = (q.traded_lots, q.collateral_amount)

-- The taker's `(send, receive)` assets.
unfoldable pub taker_assets : TradeDirection → Bytes → Bytes → Bytes × Bytes
taker_assets buy collateral_asset token_asset = (collateral_asset, token_asset)
taker_assets sell collateral_asset token_asset = (token_asset, collateral_asset)

-- `leg.is_partial && i < order_legs.len() - 1` for no leg.
unfoldable pub only_last_partial : List OrderFillLeg → Bool
only_last_partial [] = true
only_last_partial (leg ∷ []) = true
only_last_partial (leg ∷ next ∷ rest) =
    let later = only_last_partial (next ∷ rest) in if leg.is_partial then false else later

-- What `remaining_input` and `total_output` are after the pool's leg.
unfoldable pub after_pool : Option LmsrPoolSwapLeg → ℕ → ℕ → ℕ × ℕ
after_pool none remaining_input total_output = (remaining_input, total_output)
after_pool (some leg) remaining_input total_output =
    (saturating_sub remaining_input leg.delta_in, wrapping_add total_output leg.delta_out)

-- The sum that the plan states as the input.
unfoldable pub stated_input : Option ScannedLmsrPool → ℕ → ℕ → ℕ
stated_input lmsr_pool total_input remaining_input =
    if is_some lmsr_pool then saturating_sub total_input remaining_input else total_input

unfoldable pub reserves_of : Option ScannedLmsrPool → Option PoolReserves
reserves_of none = none
reserves_of (some pool) = some pool.reserves

-- The pool's leg, where it gives anything.
unfoldable pub swap_leg :
    ScannedLmsrPool
    → TradeDirection
    → LmsrTradeKind
    → LmsrQuote
    → (old_f new_f : ℕ) → (old_proof new_proof : LmsrTableProof) → Option LmsrPoolSwapLeg
swap_leg pool direction kind quote old_f new_f old_proof new_proof =
    if ltb 0 (quote_deltas direction quote).1
    then some (record {
      primary_path = swap;
      pool_params = pool.params;
      pool_id = pool.pool_id;
      old_s_index = quote.old_s_index;
      new_s_index = quote.new_s_index;
      old_path_bits = old_proof.path_bits;
      new_path_bits = new_proof.path_bits;
      old_siblings = old_proof.siblings;
      new_siblings = new_proof.siblings;
      in_base = 0;
      out_base = 0;
      pool_utxos = pool.pool_utxos;
      trade_kind = kind;
      old_f = old_f;
      new_f = new_f;
      delta_in = (quote_deltas direction quote).0;
      delta_out = (quote_deltas direction quote).1;
      admin_signature = zero_bytes 64;
    })
    else none

-- The end of `build_execution_plan`.
unfoldable pub finish_plan :
    Option ScannedLmsrPool
    → (total_input : ℕ) → Bytes × Bytes
    → Filled
    → Option LmsrPoolSwapLeg
    → Result Error ExecutionPlan
finish_plan lmsr_pool total_input assets filled leg = do
  let left = after_pool leg filled.remaining_input filled.total_output
  fail_if (left.1 == 0) no_liquidity
  fail_if (not (only_last_partial filled.order_legs)) partial_fill_not_last
  ok (record {
    order_legs = filled.order_legs;
    lmsr_pool_leg = leg;
    taker_send_asset = assets.0;
    taker_receive_asset = assets.1;
    total_taker_input = stated_input lmsr_pool total_input left.0;
    total_taker_output = left.1;
    quoted_reserves = reserves_of lmsr_pool;
  })

module _ (sha256 : Bytes → Bytes) where
  -- The match on the pool's quote.
  unfoldable pub pool_leg :
      ScannedLmsrPool
      → TradeDirection
      → LmsrTradeKind
      → List OrderFillLeg
      → Option LmsrQuote
      → Result Error (Option LmsrPoolSwapLeg)
  pool_leg pool direction kind [] none = err no_liquidity
  pool_leg pool direction kind (leg ∷ legs) none = ok none
  pool_leg pool direction kind order_legs (some quote) = do
    old_f ← value_at pool.manifest quote.old_s_index
    new_f ← value_at pool.manifest quote.new_s_index
    old_proof ← proof_at sha256 pool.manifest quote.old_s_index
    new_proof ← proof_at sha256 pool.manifest quote.new_s_index
    ok (swap_leg pool direction kind quote old_f new_f old_proof new_proof)

  -- "Route remainder through LMSR."
  unfoldable pub route_remainder :
      Option ScannedLmsrPool
      → TradeSide
      → TradeDirection
      → Filled
      → Result Error (Option LmsrPoolSwapLeg)
  route_remainder none side direction filled =
      if filled.remaining_input == 0 then ok none else err no_liquidity
  route_remainder (some pool) side direction filled =
      let kind = lmsr_trade_kind side direction in
      if filled.remaining_input == 0 then ok none else (do
        quote ←
            quote_exact_input_from_manifest sha256 pool.manifest pool.params kind
              pool.current_s_index filled.remaining_input
        pool_leg pool direction kind filled.order_legs quote)

  module _ (F : Type 0) (as_f64 : ℕ → F) (div : F → F → F) (le : F → F → Bool) where
    unfoldable pub build_execution_plan :
        Option ScannedLmsrPool
        → List ScannedOrder
        → TradeSide
        → TradeDirection
        → (total_input : ℕ) → (collateral_asset yes_asset no_asset : Bytes)
        → Result Error ExecutionPlan
    build_execution_plan lmsr_pool orders side direction total_input collateral_asset yes_asset
          no_asset =
        do
          let token_asset = target_token_asset side yes_asset no_asset
          spot ← pool_spot F as_f64 div le lmsr_pool side direction
          filled ←
              fill_orders direction
                (map (λ e. e.0) (queue F as_f64 div le direction spot token_asset orders))
                total_input 0
          leg ← route_remainder lmsr_pool side direction filled
          finish_plan lmsr_pool total_input (taker_assets direction collateral_asset token_asset)
              filled leg

-- `orders.iter().find(..).map(|o| o.discovered.id.clone()).unwrap_or_default()`
unfoldable pub order_id_of : OutPoint → List ScannedOrder → String
order_id_of outpoint [] = ""
order_id_of outpoint (order ∷ orders) =
    let rest = order_id_of outpoint orders in
    if outpoint_eq order.utxo.outpoint outpoint then order.discovered.id else rest

unfoldable pub order_route_legs : List OrderFillLeg → List ScannedOrder → List RouteLeg
order_route_legs [] orders = []
order_route_legs (leg ∷ legs) orders =
    record {
      source =
          limit_order_source (order_id_of leg.order_utxo.outpoint orders) leg.params.price leg.lots;
      input_amount = leg.taker_pays;
      output_amount = leg.taker_receives;
    }
    ∷ order_route_legs legs orders

unfoldable pub pool_route_legs : Option LmsrPoolSwapLeg → List RouteLeg
pool_route_legs none = []
pool_route_legs (some leg) =
    record {
      source = lmsr_pool_source leg.pool_id leg.old_s_index leg.new_s_index;
      input_amount = leg.delta_in;
      output_amount = leg.delta_out;
    }
    ∷ []

unfoldable pub plan_to_route_legs : ExecutionPlan → List ScannedOrder → List RouteLeg
plan_to_route_legs plan orders =
    order_route_legs plan.order_legs orders ++ pool_route_legs plan.lmsr_pool_leg
