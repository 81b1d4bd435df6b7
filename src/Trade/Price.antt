-- ===== src/Trade/Price.antt =====
-- trade/router.rs: prices, and the eligible orders in the order in which they are filled. A price is a
-- floating-point number: its type and operations are parameters.
pub mod Queue
use deadcat.Prelude.{
  ℕ, Bool, true, false, not, ◌||◌, ltb, ◌==◌, if◌then◌else◌, Option, none, some, List, [], ◌∷◌,
  Bytes, bytes_eq, Result, ok, err, ◌>>=◌, checked_add, checked_sub,
}
use deadcat.Error.{Error}
use deadcat.Lmsr.Math.{
  LmsrTradeKind, buy_yes, sell_yes, buy_no, sell_no, LmsrQuote, requires_increasing_index,
  quote_from_table,
}
use deadcat.Lmsr.Table.{value_at}
use deadcat.MakerOrder.Params.{OrderDirection, sell_base, sell_quote}
use deadcat.Trade.Types.{
  TradeSide, yes_side, no_side, TradeDirection, buy, sell, ScannedOrder, ScannedLmsrPool,
}

unfoldable pub lmsr_trade_kind : TradeSide → TradeDirection → LmsrTradeKind
lmsr_trade_kind yes_side buy = buy_yes
lmsr_trade_kind yes_side sell = sell_yes
lmsr_trade_kind no_side buy = buy_no
lmsr_trade_kind no_side sell = sell_no

unfoldable pub target_token_asset : TradeSide → Bytes → Bytes → Bytes
target_token_asset yes_side yes_asset no_asset = yes_asset
target_token_asset no_side yes_asset no_asset = no_asset

abbrev pub sells_base : OrderDirection → Bool
sells_base sell_base = true
sells_base sell_quote = false

module _ (F : Type 0) (as_f64 : ℕ → F) (div : F → F → F) (le : F → F → Bool) where
  -- The end of `lmsr_spot_price`, at the neighbour `new_s` of the current index.
  unfoldable pub spot_price_at : ScannedLmsrPool → LmsrTradeKind → ℕ → Result Error (Option F)
  spot_price_at pool kind new_s = if ltb pool.params.s_max_index new_s then ok none else (do
    old_f ← value_at pool.manifest pool.current_s_index
    new_f ← value_at pool.manifest new_s
    quote ←
        quote_from_table kind pool.current_s_index new_s old_f new_f pool.params.q_step_lots
          pool.params.half_payout_sats pool.params.fee_bps
    (if quote.traded_lots == 0 || quote.collateral_amount == 0
        then ok none
        else ok (some (div (as_f64 quote.collateral_amount) (as_f64 quote.traded_lots)))))

  unfoldable pub lmsr_spot_price :
      ScannedLmsrPool → TradeSide → TradeDirection → Result Error (Option F)
  lmsr_spot_price pool side direction =
      let kind = lmsr_trade_kind side direction in
      elim (if requires_increasing_index kind
        then checked_add pool.current_s_index 1
        else checked_sub pool.current_s_index 1) [
          | none ↦ ok none
          | some new_s ↦ spot_price_at pool kind new_s
        ]

  -- `if let Some(p) = lmsr_pool { lmsr_spot_price(p, side, direction)? } else { None }`
  unfoldable pub pool_spot :
      Option ScannedLmsrPool → TradeSide → TradeDirection → Result Error (Option F)
  pool_spot none side direction = ok none
  pool_spot (some pool) side direction = lmsr_spot_price pool side direction

  unfoldable pub order_buy_price : ScannedOrder → Bytes → Option F
  order_buy_price order target_token_asset' =
      if not (bytes_eq order.params.base_asset_id target_token_asset')
      then none
      else if not (sells_base order.params.direction)
      then none
      else some (as_f64 order.params.price)

  unfoldable pub order_sell_price : ScannedOrder → Bytes → Option F
  order_sell_price order target_token_asset' =
      if not (bytes_eq order.params.base_asset_id target_token_asset')
      then none
      else if sells_base order.params.direction
      then none
      else some (as_f64 order.params.price)

  unfoldable pub order_price : TradeDirection → ScannedOrder → Bytes → Option F
  order_price buy order token_asset = order_buy_price order token_asset
  order_price sell order token_asset = order_sell_price order token_asset

  -- `match (direction, pool_spot)`
  unfoldable pub beats_spot : TradeDirection → F → Option F → Bool
  beats_spot direction price none = true
  beats_spot buy price (some spot) = le price spot
  beats_spot sell price (some spot) = le spot price

  -- The `filter_map` over the orders. An order stands for its index.
  unfoldable pub eligible :
      TradeDirection → Option F → Bytes → List ScannedOrder → List (ScannedOrder × F)
  eligible direction spot token_asset [] = []
  eligible direction spot token_asset (order ∷ orders) =
      let rest = eligible direction spot token_asset orders in
      elim (order_price direction order token_asset) [
        | none ↦ rest
        | some price ↦ if beats_spot direction price spot then (order, price) ∷ rest else rest
      ]

  -- The comparison of the sort: price `a` does not come after price `b`.
  unfoldable pub as_good : TradeDirection → F → F → Bool
  as_good buy a b = le a b
  as_good sell a b = le b a

  -- `sort_by` is stable: an order stays in front of later ones of the same price.
  unfoldable pub insert_order :
      TradeDirection → ScannedOrder × F → List (ScannedOrder × F) → List (ScannedOrder × F)
  insert_order direction entry [] = entry ∷ []
  insert_order direction entry (other ∷ others) =
      let later = other ∷ insert_order direction entry others in
      if as_good direction entry.1 other.1 then entry ∷ other ∷ others else later

  unfoldable pub sort_orders : TradeDirection → List (ScannedOrder × F) → List (ScannedOrder × F)
  sort_orders direction [] = []
  sort_orders direction (entry ∷ entries) =
      insert_order direction entry (sort_orders direction entries)

  -- The eligible orders in the order in which they are filled.
  abbrev pub queue : TradeDirection → Option F → Bytes → List ScannedOrder → List (ScannedOrder × F)
  queue direction spot token_asset orders =
      sort_orders direction (eligible direction spot token_asset orders)
