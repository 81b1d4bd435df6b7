-- ===== src/Trade/Fill/Sold.antt =====
-- The fills of orders that sell QUOTE against the validation of fill_order.rs.
use deadcat.Prelude.{
  ℕ, ◌+◌, ◌-◌, ◌*◌, ◌/◌, ◌<◌, ◌≤◌, ◌≡◌, ◌≢◌, refl, Bool, true, false, ltb, some, ok, checked_mul,
  saturating_sub, saturating_mul, u64_mod, arith, min, Bytes, subst, ◌⊎◌,
}
use native.Mathlib.Nat.{lt_of_mul-lt-mul_right, div-le_self, lt-div-mul-add}
use deadcat.MakerOrder.Params.{sell_quote}
use deadcat.MakerOrder.Fill.{validate_order_fill}
use deadcat.MakerOrder.Fill.Validate.{IsFill, IsFillOf, validate_order_fill_iff}
use deadcat.Trade.Types.{ScannedOrder, OrderFillLeg}
use deadcat.Trade.Fill.{fill_sell_order_with_lots, fill_sell_lots, fill_sell_order}
use deadcat.Trade.Fill.Accepted.{leg_fill, div-mul_le, IsFill-of}

sold_lots :
    (order : ScannedOrder) (v budget : ℕ) {leg : OrderFillLeg}
    → fill_sell_order order v budget ≡ ok (some leg)
    → (0 < order.params.price)
      × (order.params.min_fill_lots ≤ leg.lots)
      × (leg.taker_pays ≡ leg.lots)
      × (leg.taker_receives ≡ leg.lots * order.params.price)
      × (leg.maker_receive_amount ≡ leg.lots)
      × (leg.remainder_value ≡ v - leg.lots * order.params.price)
      × (leg.is_partial ≡ ltb (leg.lots * order.params.price) v)
      × (leg.params ≡ order.params)
      × (leg.order_utxo ≡ order.utxo)
unfolding fill_sell_order fill_sell_lots fill_sell_order_with_lots checked_mul
sold_lots order v budget h = ground arith

mul_pos_le : (a b : ℕ) → 0 < a → b ≤ a * b
mul_pos_le a b h = grind arith

-- The lots that are taken are those that were offered, or fewer that leave the least remainder.
sold_rest :
    (order : ScannedOrder) (v lots : ℕ) (is_partial : Bool) {leg : OrderFillLeg}
    → v < u64_mod
    → 0 < order.params.price
    → 0 < lots
    → lots ≤ v / order.params.price
    → is_partial ≡ ltb lots (v / order.params.price)
    → fill_sell_lots order v is_partial lots ≡ ok (some leg)
    → ((leg.lots ≡ lots) × (lots ≡ v / order.params.price))
      ⊎ ((order.params.min_remainder_lots * order.params.price ≤ v - leg.lots * order.params.price)
          × (leg.lots ≤ lots))
unfolding fill_sell_lots fill_sell_order_with_lots checked_mul saturating_sub saturating_mul
sold_rest order v lots is_partial bound pos_p pos_l enough e h =
    let p = order.params.price in
    let m = saturating_mul order.params.min_remainder_lots p in
    let fits = div-mul_le v p lots pos_p enough in
    let one_more = div-mul_le v p (lots + 1) pos_p in
    let adjusted_fits = div-mul_le (v - m) p ((v - m) / p) pos_p (omega arith) in
    let fewer = lt_of_mul-lt-mul_right p {m = (v - m) / p} {n = lots} in
    let no_more = div-le_self (v - m) p in
    ground (arith, fits, one_more, adjusted_fits, fewer, no_more, mul_pos_le lots p pos_l)

sold_order :
    (order : ScannedOrder) (v budget : ℕ) {leg : OrderFillLeg}
    → fill_sell_order order v budget ≡ ok (some leg)
    → let lots = min budget (v / order.params.price) in
      (0 < order.params.price)
      × (0 < lots)
      × (lots ≤ v / order.params.price)
      × (lots ≤ budget)
      × (fill_sell_lots order v (ltb lots (v / order.params.price)) lots ≡ ok (some leg))
unfolding fill_sell_order
sold_order order v budget h = ground arith

-- A sale to an order that sells QUOTE, whose coin (a `u64`) holds the price of a whole number of
-- lots, is a fill that the validation accepts, and its payment is within the budget.
pub fill_sell_order-IsFill :
    (order : ScannedOrder) (budget : ℕ) (script_pubkey : Bytes → Bytes) (receive_script : Bytes)
    {leg : OrderFillLeg}
    → order.params.direction ≡ sell_quote
    → order.utxo.value < u64_mod
    → order.utxo.value / order.params.price * order.params.price ≡ order.utxo.value
    → fill_sell_order order order.utxo.value budget ≡ ok (some leg)
    → IsFill (leg_fill script_pubkey receive_script leg) × (leg.taker_pays ≤ budget)
fill_sell_order-IsFill order budget script_pubkey receive_script {leg} quoted bound whole h =
    let v = order.utxo.value in
    let facts = sold_lots order v budget h in
    let (pos_p, pos_l, enough, affordable, run) = sold_order order v budget h in
    let rest =
      sold_rest order v (min budget (v / order.params.price)) _ bound pos_p pos_l enough refl run in
    let fits = div-mul_le v order.params.price leg.lots pos_p (ground (arith, rest)) in
    (
      IsFill-of sell_quote (leg_fill script_pubkey receive_script leg) (ground (arith, facts))
          (ground (arith, facts))
          (
            leg.lots,
            ground (arith, facts),
            (ground (arith, facts, fits), ground (arith, facts)),
            ground (arith, facts, rest, whole),
          ),
      ground (arith, facts, rest),
    )

sold_all :
    (order : ScannedOrder) (v lots : ℕ) {leg : OrderFillLeg}
    → fill_sell_lots order v false lots ≡ ok (some leg)
    → leg.lots ≡ lots
unfolding fill_sell_lots fill_sell_order_with_lots checked_mul
sold_all order v lots h = ground arith

-- A sale that takes every lot of an order that sells QUOTE, whose coin (a `u64`) holds a rest
-- smaller than the price, leaves that rest as the remainder of a partial fill, which the validation
-- rejects if the order has a minimum for the remainder.
pub fill_sell_order-rest_rejected :
    (order : ScannedOrder) (budget : ℕ) (script_pubkey : Bytes → Bytes) (receive_script : Bytes)
    {leg : OrderFillLeg}
    → order.params.direction ≡ sell_quote
    → order.utxo.value < u64_mod
    → order.utxo.value / order.params.price * order.params.price ≢ order.utxo.value
    → order.utxo.value / order.params.price ≤ budget
    → 0 < order.params.min_remainder_lots
    → fill_sell_order order order.utxo.value budget ≡ ok (some leg)
    → validate_order_fill (leg_fill script_pubkey receive_script leg) ≢ ok tt
fill_sell_order-rest_rejected order budget script_pubkey receive_script {leg} quoted bound broken
      enough least h accepted =
    let v = order.utxo.value in
    let p = order.params.price in
    let facts = sold_lots order v budget h in
    let (pos_p, pos_l, _, _, run) = sold_order order v budget h in
    let all_lots : min budget (v / p) ≡ v / p = ground arith in
    let no_more : ltb (v / p) (v / p) ≡ false = ground arith in
    let taken = sold_all order v (v / p) (rw (all_lots, no_more) at run) in
    let below = lt-div-mul-add {a = v} {b = p} pos_p in
    let fits = div-mul_le v p (v / p) pos_p (omega arith) in
    let least_quote = mul_pos_le order.params.min_remainder_lots p least in
    let few : leg.lots ≤ v = omega (arith, taken, div-le_self v p) in
    let o = leg_fill script_pubkey receive_script leg in
    let fill =
      (validate_order_fill_iff o (ground (arith, facts)) (ground (arith, facts, few))
          (ground (arith, facts))).0
        accepted in
    let same : leg.params.direction ≡ sell_quote = ground (arith, facts) in
    let (lots, _, exchange, kept) = subst (λ d. IsFillOf d o) same fill.filled in
    let rest : leg.remainder_value ≡ v - v / p * p = ground (arith, facts, taken) in
    let partly : leg.is_partial ≡ true = ground (arith, facts, taken, fits) in
    let least_rest : order.params.min_remainder_lots * p ≤ leg.remainder_value =
      ground (arith, facts, rw partly at kept) in
    omega (arith, rest, least_rest, least_quote, below)

pub sell-pays_le :
    (order : ScannedOrder) (v budget : ℕ) {leg : OrderFillLeg}
    → v < u64_mod
    → fill_sell_order order v budget ≡ ok (some leg)
    → leg.taker_pays ≤ budget
sell-pays_le order v budget {leg} bound h =
    let facts = sold_lots order v budget h in
    let (pos_p, pos_l, enough, affordable, run) = sold_order order v budget h in
    let rest =
      sold_rest order v (min budget (v / order.params.price)) _ bound pos_p pos_l enough refl run in
    ground (arith, facts, rest)
