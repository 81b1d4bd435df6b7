-- ===== src/Lmsr/Math/Fees.antt =====
-- The fee arithmetic and the quote of one transition, against their inequalities.
use deadcat.Prelude.{
  ℕ, ◌+◌, ◌-◌, ◌*◌, ◌/◌, ◌<◌, ◌≤◌, ◌≡◌, Bool, true, false, ok, arith, checked_add, checked_sub,
  checked_mul, u64_try_from, abs_diff, ◌↔◌,
}
use deadcat.Prelude.Int.{pos, neg}
use deadcat.Lmsr.Math.{
  fee_denom, LmsrTradeKind, LmsrQuote, div_ceil, min_collateral_in, max_collateral_out,
  quote_from_table, buy_yes, sell_yes, buy_no, sell_no, validate_direction, compute_traded_lots,
  is_buy, requires_increasing_index, checked_base_notional, deltas,
}

-- `div_ceil num d` is the least `k` with `num ≤ k * d`.
pub div_ceil-le_iff : (num d k : ℕ) → 0 < d → (div_ceil num d ≤ k) ↔ (num ≤ k * d)
unfolding div_ceil
div_ceil-le_iff num d k h = (grind arith, grind arith)

-- The collateral asked of a buyer, where it is computed without an error, is the least amount that
-- covers the base cost after the fee.
pub min_collateral_in_iff :
    (base_cost fee_bps c k : ℕ)
    → min_collateral_in base_cost fee_bps ≡ ok c
    → (c ≤ k) ↔ (base_cost * fee_denom ≤ k * (fee_denom - fee_bps))
unfolding min_collateral_in u64_try_from
min_collateral_in_iff base_cost fee_bps c k h =
    let least = div_ceil-le_iff (base_cost * fee_denom) (fee_denom - fee_bps) k in
    (ground (arith, least), ground (arith, least))

div-max : (n k : ℕ) → (k ≤ n / fee_denom) ↔ (k * fee_denom ≤ n)
div-max n k = (omega arith, omega arith)

-- The collateral paid to a seller, where it is computed without an error, is the greatest amount
-- that the base rebate covers after the fee.
pub max_collateral_out_iff :
    (base_rebate fee_bps c k : ℕ)
    → max_collateral_out base_rebate fee_bps ≡ ok c
    → (k ≤ c) ↔ (k * fee_denom ≤ base_rebate * (fee_denom - fee_bps))
unfolding max_collateral_out u64_try_from
max_collateral_out_iff base_rebate fee_bps c k h =
    let most = div-max (base_rebate * (fee_denom - fee_bps)) k in
    (ground (arith, most), ground (arith, most))

-- The signed changes of the YES, NO and collateral reserves that a quote reports.
abbrev pub IsMove : LmsrTradeKind → LmsrQuote → Type 0
IsMove buy_yes q =
    (q.yes_delta ≡ neg q.traded_lots)
    × (q.no_delta ≡ pos 0)
    × (q.collateral_delta ≡ pos q.collateral_amount)
IsMove sell_yes q =
    (q.yes_delta ≡ pos q.traded_lots)
    × (q.no_delta ≡ pos 0)
    × (q.collateral_delta ≡ neg q.collateral_amount)
IsMove buy_no q =
    (q.yes_delta ≡ pos 0)
    × (q.no_delta ≡ neg q.traded_lots)
    × (q.collateral_delta ≡ pos q.collateral_amount)
IsMove sell_no q =
    (q.yes_delta ≡ pos 0)
    × (q.no_delta ≡ pos q.traded_lots)
    × (q.collateral_delta ≡ neg q.collateral_amount)

-- The base notional is the change of the cost function plus `L` for a purchase, and `L` less that
-- change for a sale; the collateral is its fee-adjusted bound.
abbrev pub IsPriced : Bool → (old_f new_f fee : ℕ) → LmsrQuote → Type 0
IsPriced true old_f new_f fee q =
    (q.base_notional + old_f ≡ q.base_l + new_f)
    × (min_collateral_in q.base_notional fee ≡ ok q.collateral_amount)
IsPriced false old_f new_f fee q =
    (q.base_notional + new_f ≡ q.base_l + old_f)
    × (max_collateral_out q.base_notional fee ≡ ok q.collateral_amount)

abbrev pub IsDirected : Bool → (old_s new_s : ℕ) → Type 0
IsDirected true old_s new_s = old_s < new_s
IsDirected false old_s new_s = new_s < old_s

pub record IsQuote (kind : LmsrTradeKind) (old_s new_s old_f new_f step half fee : ℕ)
    (q : LmsrQuote) : Type 0 where
  pub directed : IsDirected (requires_increasing_index kind) old_s new_s
  pub kept : (q.trade_kind ≡ kind) × (q.old_s_index ≡ old_s) × (q.new_s_index ≡ new_s)
  pub lots : q.traded_lots ≡ abs_diff old_s new_s * step
  pub scaled : q.base_l ≡ q.traded_lots * half
  pub priced : IsPriced (is_buy kind) old_f new_f fee q
  pub moved : IsMove kind q

-- A quote that succeeds moves the index the way its kind wants, by the lots that it trades, and
-- prices them by the change of the cost function with the fee on top.
pub quote_from_table-IsQuote :
    (kind : LmsrTradeKind) (old_s new_s old_f new_f step half fee : ℕ) {q : LmsrQuote}
    → quote_from_table kind old_s new_s old_f new_f step half fee ≡ ok q
    → IsQuote kind old_s new_s old_f new_f step half fee q
unfolding quote_from_table validate_direction compute_traded_lots is_buy requires_increasing_index
    checked_base_notional deltas checked_add checked_sub checked_mul
quote_from_table-IsQuote buy_yes old_s new_s old_f new_f step half fee h = ground arith
quote_from_table-IsQuote _ old_s new_s old_f new_f step half fee h = ground arith
