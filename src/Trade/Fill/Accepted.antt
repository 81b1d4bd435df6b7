-- ===== src/Trade/Fill/Accepted.antt =====
-- The fills of the router against the validation of fill_order.rs, and against the taker's budget.
use deadcat.Prelude.{
  ℕ, ◌-◌, ◌*◌, ◌/◌, ◌<◌, ◌≤◌, ◌≡◌, true, ltb, some, ok, checked_mul, saturating_sub, arith, Bytes,
  subst, sym,
}
use native.Mathlib.Nat.{le-div_iff_mul-le}
use deadcat.MakerOrder.Params.{OrderDirection, sell_base}
use deadcat.MakerOrder.Fill.{MakerOrderFill}
use deadcat.MakerOrder.Fill.Validate.{IsFill, IsFillOf}
use deadcat.Trade.Types.{ScannedOrder, OrderFillLeg}
use deadcat.Trade.Fill.{fill_buy_order_with_lots, fill_buy_order}

-- The fill of a leg for the builder: the covenant's script and the receive script come from the
-- compiled contract.
abbrev pub leg_fill :
    (script_pubkey : Bytes → Bytes) (receive_script : Bytes) → OrderFillLeg → MakerOrderFill
leg_fill script_pubkey receive_script leg = record {
  contract = record { params = leg.params; script_pubkey = script_pubkey };
  order_utxo = leg.order_utxo;
  maker_base_pubkey = leg.maker_base_pubkey;
  maker_receive_amount = leg.maker_receive_amount;
  maker_receive_script = receive_script;
  is_partial = leg.is_partial;
  remainder_amount = leg.remainder_value;
}

pub div-mul_le : (n d k : ℕ) → 0 < d → k ≤ n / d → k * d ≤ n
div-mul_le n d k pos_d h = (le-div_iff_mul-le {k = d} {x = k} {y = n} pos_d).0 h

-- What a purchase takes from an order: a number of lots between the order's minimum and what it
-- has, priced at the order's price within the budget, leaving nothing or the least remainder.
bought_lots :
    (order : ScannedOrder) (v budget : ℕ) {leg : OrderFillLeg}
    → fill_buy_order order v budget ≡ ok (some leg)
    → (0 < order.params.price)
      × (order.params.min_fill_lots ≤ leg.lots)
      × (leg.lots ≤ v)
      × (leg.taker_pays ≡ leg.lots * order.params.price)
      × (leg.maker_receive_amount ≡ leg.taker_pays)
      × (leg.lots ≤ budget / order.params.price)
      × (leg.remainder_value ≡ v - leg.lots)
      × (leg.is_partial ≡ ltb leg.lots v)
      × (leg.params ≡ order.params)
      × (leg.order_utxo ≡ order.utxo)
unfolding fill_buy_order fill_buy_order_with_lots checked_mul saturating_sub
bought_lots order v budget h = ground arith

bought_remainder :
    (order : ScannedOrder) (v budget : ℕ) {leg : OrderFillLeg}
    → fill_buy_order order v budget ≡ ok (some leg)
    → leg.is_partial ≡ true
    → order.params.min_remainder_lots ≤ leg.remainder_value
unfolding fill_buy_order fill_buy_order_with_lots checked_mul saturating_sub
bought_remainder order v budget h partly = ground arith

-- An exchange in one direction makes a fill.
pub IsFill-of :
    (direction : OrderDirection) (o : MakerOrderFill)
    → o.contract.params.direction ≡ direction
    → 0 < o.contract.params.price
    → IsFillOf direction o
    → IsFill o
IsFill-of direction o same priced filled = record {
  priced = priced;
  filled = subst (λ d. IsFillOf d o) (sym same) filled;
}

-- A purchase from an order that sells BASE, against the coin of the order, is a fill that the
-- validation accepts, and its payment is within the budget.
pub fill_buy_order-IsFill :
    (order : ScannedOrder) (budget : ℕ) (script_pubkey : Bytes → Bytes) (receive_script : Bytes)
    {leg : OrderFillLeg}
    → order.params.direction ≡ sell_base
    → fill_buy_order order order.utxo.value budget ≡ ok (some leg)
    → IsFill (leg_fill script_pubkey receive_script leg) × (leg.taker_pays ≤ budget)
fill_buy_order-IsFill order budget script_pubkey receive_script {leg} base h =
    let facts = bought_lots order order.utxo.value budget h in
    let kept = bought_remainder order order.utxo.value budget h in
    let covered = div-mul_le budget order.params.price leg.lots facts.0 (ground (arith, facts)) in
    (
      IsFill-of sell_base (leg_fill script_pubkey receive_script leg) (ground (arith, facts))
          (ground (arith, facts))
          (
            leg.lots,
            ground (arith, facts),
            (ground (arith, facts), ground (arith, facts)),
            ground (arith, facts, kept),
          ),
      ground (arith, facts, covered),
    )

pub buy-pays_le :
    (order : ScannedOrder) (v budget : ℕ) {leg : OrderFillLeg}
    → fill_buy_order order v budget ≡ ok (some leg)
    → leg.taker_pays ≤ budget
buy-pays_le order v budget {leg} h =
    let facts = bought_lots order v budget h in
    let covered = div-mul_le budget order.params.price leg.lots facts.0 (ground (arith, facts)) in
    ground (arith, facts, covered)
