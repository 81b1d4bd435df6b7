-- ===== src/Lmsr/Exact.antt =====
-- lmsr_pool/math.rs: the search for the largest transition that fits an exact input, and the spot
-- price of an index. Both read the table through a manifest, hence the parameter `sha256`.
pub mod Best
pub mod Largest
pub mod Spot
use deadcat.Prelude.{
  ℕ, zero, suc, ◌+◌, ◌-◌, ◌*◌, ◌/◌, Bool, true, false, ltb, leb, ◌==◌, if◌then◌else◌, Result, ok,
  err, fail_if, ok_or, ◌>>=◌, ◌>>◌, Option, none, some, Bytes, checked_add, checked_sub,
  checked_mul, min,
}
use deadcat.Error.{Error, lmsr_pool}
use deadcat.Lmsr.Params.{LmsrPoolParams}
use deadcat.Lmsr.Math.{
  LmsrTradeKind, LmsrQuote, is_buy, requires_increasing_index, quote_from_table,
  checked_base_notional, price_bps_from_ratio,
}
use deadcat.Lmsr.Table.{LmsrTableManifest, value_at, verify_matches_pool_params, params_valid}

-- The index `step` steps away in the direction of the trade.
unfoldable pub moved_index : Bool → ℕ → ℕ → Result Error ℕ
moved_index increasing old_s_index step =
    if increasing
    then ok_or (checked_add old_s_index step) (lmsr_pool "new_s_index overflow")
    else ok_or (checked_sub old_s_index step) (lmsr_pool "new_s_index underflow")

-- `fits`
unfoldable pub fits : LmsrTradeKind → ℕ → LmsrQuote → Bool
fits kind exact_input q =
    if is_buy kind then leb q.collateral_amount exact_input else leb q.traded_lots exact_input

module _ (manifest : LmsrTableManifest) (params : LmsrPoolParams) (kind : LmsrTradeKind)
    (old_s_index old_f exact_input : ℕ) where
  -- The quote of one round of the loop.
  unfoldable pub step_quote : ℕ → Result Error LmsrQuote
  step_quote step = do
    new_s_index ← moved_index (requires_increasing_index kind) old_s_index step
    new_f ← value_at manifest new_s_index
    quote_from_table kind old_s_index new_s_index old_f new_f params.q_step_lots
        params.half_payout_sats params.fee_bps

  -- `for step in 1..=max_steps`, with `k` rounds left.
  unfoldable pub exact_loop : ℕ → ℕ → Option LmsrQuote → Result Error (Option LmsrQuote)
  exact_loop zero step best = ok best
  exact_loop (suc k) step best = do
    quote ← step_quote step
    exact_loop k (suc step) (if fits kind exact_input quote then some quote else best)

-- How many steps the index, and for a sale the budget of lots, leave. The source returns `None` early
-- where this is 0; the loop then makes no round.
unfoldable pub max_steps : LmsrPoolParams → LmsrTradeKind → ℕ → ℕ → ℕ
max_steps params kind old_s_index exact_input =
    let max_steps_by_index =
      if requires_increasing_index kind then params.s_max_index - old_s_index else old_s_index in
    if is_buy kind
    then max_steps_by_index
    else min max_steps_by_index (exact_input / params.q_step_lots)

-- `fee_free_yes_spot_price_bps` at an index with a neighbour on either side.
unfoldable pub interior_spot_price : LmsrTableManifest → LmsrPoolParams → ℕ → Result Error ℕ
interior_spot_price manifest params current_s_index = do
  step_l ←
      ok_or (checked_mul params.q_step_lots params.half_payout_sats)
        (lmsr_pool "L overflow (q_step_lots * half_payout_sats)")
  old_f ← value_at manifest current_s_index
  next_f ← value_at manifest (current_s_index + 1)
  prev_f ← value_at manifest (current_s_index - 1)
  buy_yes_base ← checked_base_notional true step_l old_f next_f
  sell_yes_base ← checked_base_notional false step_l old_f prev_f
  ok (price_bps_from_ratio (buy_yes_base + sell_yes_base) (2 * step_l))

module _ (sha256 : Bytes → Bytes) where
  unfoldable pub quote_exact_input_from_manifest :
      LmsrTableManifest → LmsrPoolParams → LmsrTradeKind → ℕ → ℕ → Result Error (Option LmsrQuote)
  quote_exact_input_from_manifest manifest params kind old_s_index exact_input = do
    params_valid params
    verify_matches_pool_params sha256 manifest params
    fail_if (ltb params.s_max_index old_s_index) (lmsr_pool "old_s_index exceeds s_max_index")
    (if exact_input == 0 then ok none else (do
      old_f ← value_at manifest old_s_index
      exact_loop manifest params kind old_s_index old_f exact_input
          (max_steps params kind old_s_index exact_input) 1 none))

  unfoldable pub fee_free_yes_spot_price_bps :
      LmsrTableManifest → LmsrPoolParams → ℕ → Result Error ℕ
  fee_free_yes_spot_price_bps manifest params current_s_index = do
    params_valid params
    verify_matches_pool_params sha256 manifest params
    fail_if (ltb params.s_max_index current_s_index)
        (lmsr_pool "current_s_index exceeds s_max_index")
    (if current_s_index == 0
        then ok 0
        else if current_s_index == params.s_max_index
        then ok 10000
        else interior_spot_price manifest params current_s_index)
