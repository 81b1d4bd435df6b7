-- ===== src/Lmsr/Math.antt =====
-- lmsr_pool/math.rs: trade kinds, the quote of one transition and its fee arithmetic. A `u128` is a
-- natural number here: no product of two `u64` overflows it.
pub mod Fees
pub mod Arbitrage
use deadcat.Prelude.{
  ℕ, zero, suc, ◌+◌, ◌-◌, ◌*◌, ◌/◌, ◌^◌, ◌<◌, ◌≤◌, ◌≡◌, Bool, true, false, not, ◌&&◌, ltb, leb,
  ◌==◌, if◌then◌else◌, Result, ok, err, fail_if, ok_or, ◌>>=◌, ◌>>◌, checked_add, checked_sub,
  checked_mul, u64_try_from, abs_diff, min, Option, none, some,
}
use deadcat.Prelude.Int.{ℤ, pos, neg}
use deadcat.Error.{Error, lmsr_pool}

abbrev pub fee_denom : ℕ
fee_denom = 10000

pub data LmsrTradeKind : Type 0 where
  buy_yes sell_yes buy_no sell_no : LmsrTradeKind

unfoldable pub kind_from_u8 : ℕ → Result Error LmsrTradeKind
kind_from_u8 v =
    if v == 0
    then ok buy_yes
    else if v == 1
    then ok sell_yes
    else if v == 2
    then ok buy_no
    else if v == 3
    then ok sell_no
    else err (lmsr_pool "invalid LMSR trade kind")

unfoldable pub is_buy : LmsrTradeKind → Bool
is_buy buy_yes = true
is_buy buy_no = true
is_buy _ = false

unfoldable pub requires_increasing_index : LmsrTradeKind → Bool
requires_increasing_index buy_yes = true
requires_increasing_index sell_no = true
requires_increasing_index _ = false

pub record LmsrQuote : Type 0 where
  pub trade_kind : LmsrTradeKind
  pub old_s_index : ℕ
  pub new_s_index : ℕ
  pub traded_lots : ℕ
  pub base_l : ℕ
  pub base_notional : ℕ
  pub collateral_amount : ℕ
  pub collateral_is_input : Bool
  pub yes_delta : ℤ
  pub no_delta : ℤ
  pub collateral_delta : ℤ

unfoldable pub validate_direction : LmsrTradeKind → ℕ → ℕ → Result Error (Unit {0})
validate_direction kind old_s_index new_s_index = do
  fail_if (requires_increasing_index kind && leb new_s_index old_s_index)
      (lmsr_pool "requires NEW_S_INDEX > OLD_S_INDEX")
  fail_if (not (requires_increasing_index kind) && leb old_s_index new_s_index)
      (lmsr_pool "requires NEW_S_INDEX < OLD_S_INDEX")

unfoldable pub compute_traded_lots : ℕ → ℕ → ℕ → Result Error ℕ
compute_traded_lots old_s_index new_s_index q_step_lots = do
  fail_if (q_step_lots == 0) (lmsr_pool "q_step_lots must be > 0")
  ok_or (checked_mul (abs_diff old_s_index new_s_index) q_step_lots)
      (lmsr_pool "traded lots overflow")

-- `num.div_ceil(denom)`
unfoldable pub div_ceil : ℕ → ℕ → ℕ
div_ceil num denom = (num + denom - 1) / denom

unfoldable pub min_collateral_in : ℕ → ℕ → Result Error ℕ
min_collateral_in base_cost fee_bps = do
  fail_if (leb fee_denom fee_bps) (lmsr_pool "fee_bps must be < FEE_DENOM")
  let fee_c = fee_denom - fee_bps
  ok_or (u64_try_from (div_ceil (base_cost * fee_denom) fee_c))
      (lmsr_pool "min_collateral_in overflow")

unfoldable pub max_collateral_out : ℕ → ℕ → Result Error ℕ
max_collateral_out base_rebate fee_bps = do
  fail_if (leb fee_denom fee_bps) (lmsr_pool "fee_bps must be < FEE_DENOM")
  let fee_c = fee_denom - fee_bps
  ok_or (u64_try_from (base_rebate * fee_c / fee_denom)) (lmsr_pool "max_collateral_out overflow")

unfoldable pub checked_base_notional : Bool → ℕ → ℕ → ℕ → Result Error ℕ
checked_base_notional buy l old_f new_f =
    if leb old_f new_f
    then (let d_up = new_f - old_f in
        if buy
        then ok_or (checked_add l d_up) (lmsr_pool "buy base_cost overflow")
        else ok_or (checked_sub l d_up) (lmsr_pool "invalid swap: L < d_up on sell path"))
    else (let d_down = old_f - new_f in
        if buy
        then ok_or (checked_sub l d_down) (lmsr_pool "invalid swap: L < d_down on buy path")
        else ok_or (checked_add l d_down) (lmsr_pool "sell base_rebate overflow"))

-- The signed reserve changes in YES, NO and collateral, for `x` lots against `c` sats.
unfoldable pub deltas : LmsrTradeKind → ℕ → ℕ → ℤ × ℤ × ℤ
deltas buy_yes x c = (neg x, pos 0, pos c)
deltas sell_yes x c = (pos x, pos 0, neg c)
deltas buy_no x c = (pos 0, neg x, pos c)
deltas sell_no x c = (pos 0, pos x, neg c)

unfoldable pub quote_from_table : LmsrTradeKind → ℕ → ℕ → ℕ → ℕ → ℕ → ℕ → ℕ → Result Error LmsrQuote
quote_from_table kind old_s_index new_s_index old_f new_f q_step_lots half_payout_sats fee_bps = do
  fail_if (q_step_lots == 0) (lmsr_pool "q_step_lots must be > 0")
  fail_if (half_payout_sats == 0) (lmsr_pool "half_payout_sats must be > 0")
  validate_direction kind old_s_index new_s_index
  traded_lots ← compute_traded_lots old_s_index new_s_index q_step_lots
  base_l ←
      ok_or (checked_mul traded_lots half_payout_sats)
        (lmsr_pool "L overflow (traded_lots * half_payout_sats)")
  base_notional ← checked_base_notional (is_buy kind) base_l old_f new_f
  collateral_amount ←
      (if is_buy kind
        then min_collateral_in base_notional fee_bps
        else max_collateral_out base_notional fee_bps)
  ok (record {
    trade_kind = kind;
    old_s_index = old_s_index;
    new_s_index = new_s_index;
    traded_lots = traded_lots;
    base_l = base_l;
    base_notional = base_notional;
    collateral_amount = collateral_amount;
    collateral_is_input = is_buy kind;
    yes_delta = (deltas kind traded_lots collateral_amount).0;
    no_delta = (deltas kind traded_lots collateral_amount).1;
    collateral_delta = (deltas kind traded_lots collateral_amount).2;
  })

-- `price_bps_from_ratio`; its result is at most 10000, so the cast to `u16` keeps it
unfoldable pub price_bps_from_ratio : ℕ → ℕ → ℕ
price_bps_from_ratio num denom =
    if denom == 0 then 0 else min ((num * 10000 + denom / 2) / denom) 10000
