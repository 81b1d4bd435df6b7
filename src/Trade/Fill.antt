-- ===== src/Trade/Fill.antt =====
-- trade/router.rs: how much of one order a trade fills.
pub mod Accepted
pub mod Sold
use deadcat.Prelude.{
  ℕ, ◌-◌, ◌/◌, Bool, true, false, ◌&&◌, ◌||◌, ltb, ◌==◌, if◌then◌else◌, Option, none, some, List,
  [], ◌∷◌, Result, ok, err, ok_or, ◌>>=◌, checked_mul, saturating_sub, saturating_mul, wrapping_add,
  min,
}
use deadcat.Error.{Error, trade_routing}
use deadcat.Trade.Types.{ScannedOrder, OrderFillLeg, TradeDirection, buy, sell}

unfoldable pub fill_buy_order_with_lots : ScannedOrder → ℕ → ℕ → Result Error (Option OrderFillLeg)
fill_buy_order_with_lots order on_chain_value lots = do
  taker_pays ←
      ok_or (checked_mul lots order.params.price) (trade_routing "overflow computing taker payment")
  ok (
      some (record {
        params = order.params;
        maker_base_pubkey = order.maker_base_pubkey;
        order_nonce = order.order_nonce;
        order_utxo = order.utxo;
        lots = lots;
        taker_pays = taker_pays;
        taker_receives = lots;
        maker_receive_amount = taker_pays;
        is_partial = ltb lots on_chain_value;
        remainder_value = on_chain_value - lots;
      }))

unfoldable pub fill_buy_order : ScannedOrder → ℕ → ℕ → Result Error (Option OrderFillLeg)
fill_buy_order order on_chain_value remaining_lbtc =
    let affordable_lots = remaining_lbtc / order.params.price in
    let available_lots = on_chain_value in
    let lots = min affordable_lots available_lots in
    let is_partial = ltb lots available_lots in
    let remainder = available_lots - lots in
    let adjusted = saturating_sub available_lots order.params.min_remainder_lots in
    if order.params.price == 0
    then ok none
    else if available_lots == 0 || affordable_lots == 0
    then ok none
    else if ltb lots order.params.min_fill_lots
    then ok none
    else if is_partial && ltb remainder order.params.min_remainder_lots && ltb 0 remainder
    then if ltb adjusted order.params.min_fill_lots || adjusted == 0
      then ok none
      else fill_buy_order_with_lots order on_chain_value adjusted
    else fill_buy_order_with_lots order on_chain_value lots

unfoldable pub fill_sell_order_with_lots : ScannedOrder → ℕ → ℕ → Result Error (Option OrderFillLeg)
fill_sell_order_with_lots order on_chain_value lots = do
  quote_consumed ←
      ok_or (checked_mul lots order.params.price)
        (trade_routing "overflow computing quote consumed")
  ok (
      some (record {
        params = order.params;
        maker_base_pubkey = order.maker_base_pubkey;
        order_nonce = order.order_nonce;
        order_utxo = order.utxo;
        lots = lots;
        taker_pays = lots;
        taker_receives = quote_consumed;
        maker_receive_amount = lots;
        is_partial = ltb quote_consumed on_chain_value;
        remainder_value = on_chain_value - quote_consumed;
      }))

-- The end of `fill_sell_order`, with the lots that the taker can supply and the order can pay.
unfoldable pub fill_sell_lots : ScannedOrder → ℕ → Bool → ℕ → Result Error (Option OrderFillLeg)
fill_sell_lots order on_chain_value is_partial lots = do
  quote_consumed ←
      ok_or (checked_mul lots order.params.price)
        (trade_routing "overflow computing quote consumed")
  let remainder = on_chain_value - quote_consumed
  let min_remainder_quote = saturating_mul order.params.min_remainder_lots order.params.price
  let max_consumable = saturating_sub on_chain_value min_remainder_quote
  let adjusted_lots = max_consumable / order.params.price
  (if is_partial && ltb remainder min_remainder_quote && ltb 0 remainder
      then (if ltb adjusted_lots order.params.min_fill_lots || adjusted_lots == 0
          then ok none
          else fill_sell_order_with_lots order on_chain_value adjusted_lots)
      else fill_sell_order_with_lots order on_chain_value lots)

unfoldable pub fill_sell_order : ScannedOrder → ℕ → ℕ → Result Error (Option OrderFillLeg)
fill_sell_order order on_chain_value remaining_tokens =
    let affordable_lots = remaining_tokens in
    let available_lots = on_chain_value / order.params.price in
    let lots = min affordable_lots available_lots in
    if order.params.price == 0
    then ok none
    else if available_lots == 0 || affordable_lots == 0
    then ok none
    else if ltb lots order.params.min_fill_lots
    then ok none
    else fill_sell_lots order on_chain_value (ltb lots available_lots) lots

-- The fill of one order in the direction of the trade.
unfoldable pub fill_order :
    TradeDirection → ScannedOrder → ℕ → ℕ → Result Error (Option OrderFillLeg)
fill_order buy order on_chain_value remaining = fill_buy_order order on_chain_value remaining
fill_order sell order on_chain_value remaining = fill_sell_order order on_chain_value remaining
