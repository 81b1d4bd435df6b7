-- ===== src/Tests/Trade.antt =====
-- The router's fills at concrete inputs.
use deadcat.Prelude.{
  ℕ, ◌+◌, ◌*◌, ◌/◌, ◌%◌, ◌≤◌, ◌≡◌, ◌≢◌, refl, Bool, Option, none, some, List, [], ◌∷◌, Bytes,
  Result, ok, err, arith, checked_mul, checked_add, saturating_sub, saturating_mul, wrapping_add,
  u64_mod,
}
use deadcat.Error.{Error}
use deadcat.Pool.{implied_probability_bps, implied_probability_bps-sum}
use deadcat.MakerOrder.Params.{OrderDirection, sell_base, sell_quote}
use deadcat.MakerOrder.Fill.{validate_order_fill}
use deadcat.MakerOrder.Fill.Validate.{IsFill}
use deadcat.Trade.Types.{ScannedOrder, OrderFillLeg, buy}
use deadcat.Trade.Fill.{
  fill_buy_order, fill_buy_order_with_lots, fill_sell_order, fill_sell_lots,
  fill_sell_order_with_lots, fill_order,
}
use deadcat.Trade.Fill.Accepted.{leg_fill, fill_buy_order-IsFill}
use deadcat.Trade.Fill.Sold.{fill_sell_order-IsFill, fill_sell_order-rest_rejected}
use deadcat.Trade.Route.{Filled, fill_orders}
use deadcat.Trade.Route.Budget.{paid, received, fill_orders-budget}
use deadcat.Tests.Market.{coin}
use deadcat.Tests.MakerOrder.{base, quote_asset, order_contract}

abbrev pub scanned : OrderDirection → Bytes → ℕ → ScannedOrder
scanned direction asset value = record {
  discovered = record {
    id = "order";
    market_id = "market";
    base_asset_id = "02";
    quote_asset_id = "01";
    price = 3;
    min_fill_lots = 1;
    min_remainder_lots = 1;
    direction = "sell";
    direction_label = "sell";
    maker_base_pubkey = "08";
    order_nonce = "00";
    covenant_address = "";
    offered_amount = value;
    cosigner_pubkey = "";
    maker_receive_spk_hash = "";
    creator_pubkey = "";
    created_at = 0;
    nostr_event_json = none;
  };
  utxo = coin 0 asset value;
  maker_base_pubkey = 8 ∷ [];
  order_nonce = [];
  params = (order_contract direction).params;
}

abbrev no_leg : OrderFillLeg
no_leg = record {
  params = (order_contract sell_base).params;
  maker_base_pubkey = [];
  order_nonce = [];
  order_utxo = coin 0 base 0;
  lots = 0;
  taker_pays = 0;
  taker_receives = 0;
  maker_receive_amount = 0;
  is_partial = Bool.false;
  remainder_value = 0;
}

abbrev leg_of : Result Error (Option OrderFillLeg) → OrderFillLeg
leg_of (ok (some leg)) = leg
leg_of _ = no_leg

abbrev script : Bytes → Bytes
script key = 50 ∷ key

-- Twenty units buy six of ten lots.
fill_buy_order-IsFill_example :
    let leg = leg_of (fill_buy_order (scanned sell_base base 10) 10 20) in
    IsFill (leg_fill script [] leg) × (leg.taker_pays ≤ 20)
unfolding fill_buy_order fill_buy_order_with_lots checked_mul saturating_sub
fill_buy_order-IsFill_example =
    fill_buy_order-IsFill (scanned sell_base base 10) 20 script [] refl refl

-- Two lots are sold to an order that pays for four.
fill_sell_order-IsFill_example :
    let leg = leg_of (fill_sell_order (scanned sell_quote quote_asset 12) 12 2) in
    IsFill (leg_fill script [] leg) × (leg.taker_pays ≤ 2)
unfolding fill_sell_order fill_sell_lots fill_sell_order_with_lots checked_mul saturating_sub
    saturating_mul
fill_sell_order-IsFill_example =
    fill_sell_order-IsFill (scanned sell_quote quote_asset 12) 2 script [] refl (omega arith) refl
      refl

-- Thirteen units pay for four lots and leave one.
fill_sell_order-rest_rejected_example :
    validate_order_fill
      (leg_fill script [] (leg_of (fill_sell_order (scanned sell_quote quote_asset 13) 13 9)))
    ≢ ok tt
unfolding fill_sell_order fill_sell_lots fill_sell_order_with_lots checked_mul saturating_sub
    saturating_mul
fill_sell_order-rest_rejected_example =
    fill_sell_order-rest_rejected (scanned sell_quote quote_asset 13) 9 script [] refl (omega arith)
      (omega arith) (omega arith) (omega arith) refl

abbrev filled : Result Error Filled → Filled
filled (ok f) = f
filled (err e) = record { order_legs = []; remaining_input = 0; total_output = 0 }

abbrev pub book : List ScannedOrder
book = scanned sell_base base 4 ∷ scanned sell_base base 0 ∷ scanned sell_base base 10 ∷ []

fill_orders-budget_example :
    let f = filled (fill_orders buy book 20 0) in
    (paid f.order_legs + f.remaining_input ≡ 20)
    × (f.total_output ≡ (0 + received f.order_legs) % u64_mod)
unfolding fill_orders fill_order fill_buy_order fill_buy_order_with_lots checked_mul saturating_sub
    wrapping_add
fill_orders-budget_example =
    fill_orders-budget buy book 20 0 (omega arith, (omega arith, (omega arith, tt))) (omega arith)
      refl

implied_probability_bps-sum_example : (2500 + 7500 ≡ 10000) × (2500 ≡ 100 * 10000 / (100 + 300))
unfolding implied_probability_bps checked_add saturating_sub
implied_probability_bps-sum_example =
    implied_probability_bps-sum (record { r_yes = 100; r_no = 300; r_lbtc = 50 }) {yes = 2500}
      {no = 7500} refl
