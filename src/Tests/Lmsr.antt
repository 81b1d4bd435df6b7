-- ===== src/Tests/Lmsr.antt =====
-- The LMSR arithmetic at the numbers of the repository's unit tests.
use deadcat.Prelude.{
  ◌+◌, ◌*◌, ◌≤◌, ◌≡◌, refl, ◌↔◌, true, ok, checked_add, checked_sub, checked_mul, u64_try_from,
  abs_diff, Result, err,
}
use deadcat.Prelude.Int.{pos}
use deadcat.Error.{Error}
use deadcat.Lmsr.Math.{
  LmsrQuote, buy_yes, sell_yes, is_buy, requires_increasing_index, validate_direction,
  compute_traded_lots, div_ceil, min_collateral_in, max_collateral_out, checked_base_notional,
  deltas, quote_from_table, fee_denom,
}
use deadcat.Lmsr.Math.Fees.{
  min_collateral_in_iff, max_collateral_out_iff, IsQuote, quote_from_table-IsQuote,
}
use deadcat.Lmsr.Math.Arbitrage.{quote_round_trip, quote_split}

abbrev blank : LmsrQuote
blank = record {
  trade_kind = buy_yes;
  old_s_index = 0;
  new_s_index = 0;
  traded_lots = 0;
  base_l = 0;
  base_notional = 0;
  collateral_amount = 0;
  collateral_is_input = true;
  yes_delta = pos 0;
  no_delta = pos 0;
  collateral_delta = pos 0;
}

abbrev quoted : Result Error LmsrQuote → LmsrQuote
quoted (ok q) = q
quoted (err e) = blank

buy_quote_applies_cost_function_and_fee :
    (quoted (quote_from_table buy_yes 10 13 2000 2050 10 100 100)).collateral_amount ≡ 3081
unfolding quote_from_table validate_direction requires_increasing_index compute_traded_lots abs_diff
    checked_mul checked_base_notional checked_add checked_sub is_buy min_collateral_in div_ceil
    u64_try_from deltas
buy_quote_applies_cost_function_and_fee = refl

min_collateral_in_rounds_up : min_collateral_in 100 1 ≡ ok 101
unfolding min_collateral_in div_ceil u64_try_from
min_collateral_in_rounds_up = refl

max_collateral_out_rounds_down : max_collateral_out 100 1 ≡ ok 99
unfolding max_collateral_out u64_try_from
max_collateral_out_rounds_down = refl

min_collateral_in_iff_example : (101 ≤ 200) ↔ (100 * fee_denom ≤ 200 * 9999)
unfolding min_collateral_in div_ceil u64_try_from
min_collateral_in_iff_example = min_collateral_in_iff 100 1 101 200 refl

max_collateral_out_iff_example : (50 ≤ 99) ↔ (50 * fee_denom ≤ 100 * 9999)
unfolding max_collateral_out u64_try_from
max_collateral_out_iff_example = max_collateral_out_iff 100 1 99 50 refl

quote_from_table-IsQuote_example :
    IsQuote buy_yes 10 13 2000 2050 10 100 100
      (quoted (quote_from_table buy_yes 10 13 2000 2050 10 100 100))
unfolding quote_from_table validate_direction requires_increasing_index compute_traded_lots abs_diff
    checked_mul checked_base_notional checked_add checked_sub is_buy min_collateral_in div_ceil
    u64_try_from deltas
quote_from_table-IsQuote_example = quote_from_table-IsQuote buy_yes 10 13 2000 2050 10 100 100 refl

quote_round_trip_example :
    let q = quoted (quote_from_table buy_yes 10 13 2000 2050 10 100 100) in
    let r = quoted (quote_from_table sell_yes 13 10 2050 2000 10 100 100) in
    (r.traded_lots ≡ q.traded_lots)
    × (r.base_notional ≡ q.base_notional)
    × (r.collateral_amount ≤ q.collateral_amount)
unfolding quote_from_table validate_direction requires_increasing_index compute_traded_lots abs_diff
    checked_mul checked_base_notional checked_add checked_sub is_buy min_collateral_in div_ceil
    max_collateral_out u64_try_from deltas
quote_round_trip_example = quote_round_trip buy_yes 10 13 2000 2050 10 100 100 refl refl refl

quote_split_example :
    let q = quoted (quote_from_table buy_yes 10 11 2000 2010 10 100 100) in
    let r = quoted (quote_from_table buy_yes 11 13 2010 2050 10 100 100) in
    let s = quoted (quote_from_table buy_yes 10 13 2000 2050 10 100 100) in
    (s.traded_lots ≡ q.traded_lots + r.traded_lots)
    × (s.base_notional ≡ q.base_notional + r.base_notional)
    × (s.collateral_amount ≤ q.collateral_amount + r.collateral_amount)
unfolding quote_from_table validate_direction requires_increasing_index compute_traded_lots abs_diff
    checked_mul checked_base_notional checked_add checked_sub is_buy min_collateral_in div_ceil
    u64_try_from deltas
quote_split_example = quote_split buy_yes 10 11 13 2000 2010 2050 10 100 100 refl refl refl refl
