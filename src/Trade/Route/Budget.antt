-- ===== src/Trade/Route/Budget.antt =====
-- The greedy loop against the taker's budget.
use deadcat.Prelude.{
  ℕ, ◌+◌, ◌-◌, ◌%◌, ◌<◌, ◌≤◌, ◌≡◌, ◌==◌, some, List, [], ◌∷◌, ok, >>=-eq-ok, ok_injective, All,
  u64_mod, arith, saturating_sub, wrapping_add, Bool-cases, Option-cases, inl, inr,
}
use deadcat.Trade.Types.{ScannedOrder, OrderFillLeg, TradeDirection, buy, sell}
use deadcat.Trade.Fill.{fill_order}
use deadcat.Trade.Fill.Accepted.{buy-pays_le}
use deadcat.Trade.Fill.Sold.{sell-pays_le}
use deadcat.Trade.Route.{Filled, fill_orders}

-- What the taker pays to, and receives from, the orders.
abbrev pub paid : List OrderFillLeg → ℕ
paid [] = 0
paid (leg ∷ legs) = leg.taker_pays + paid legs

abbrev pub received : List OrderFillLeg → ℕ
received [] = 0
received (leg ∷ legs) = leg.taker_receives + received legs

fill_order-pays_le :
    (direction : TradeDirection) (order : ScannedOrder) (budget : ℕ) {leg : OrderFillLeg}
    → order.utxo.value < u64_mod
    → fill_order direction order order.utxo.value budget ≡ ok (some leg)
    → leg.taker_pays ≤ budget
unfolding fill_order
fill_order-pays_le buy order budget bound h = buy-pays_le order order.utxo.value budget h
fill_order-pays_le sell order budget bound h = sell-pays_le order order.utxo.value budget bound h

-- The loop over orders whose coins are `u64`, where it succeeds, spends what the taker pays to the
-- orders and leaves the rest of the input, and adds what the taker receives from them to the
-- output, which wraps at 2 ^ 64.
pub fill_orders-budget :
    (direction : TradeDirection) (orders : List ScannedOrder) (input output : ℕ) {f : Filled}
    → All (λ o. o.utxo.value < u64_mod) orders
    → output < u64_mod
    → fill_orders direction orders input output ≡ ok f
    → (paid f.order_legs + f.remaining_input ≡ input)
      × (f.total_output ≡ (output + received f.order_legs) % u64_mod)
unfolding fill_orders wrapping_add saturating_sub
fill_orders-budget direction [] input output coins small h = ground arith
fill_orders-budget direction (order ∷ orders) input output (coin, coins) small h =
    elim (Bool-cases (input == 0)) [
      | inl spent ↦ ground arith
      | inr left ↦ elim (Bool-cases (order.utxo.value == 0)) [
        | inl empty ↦
            fill_orders-budget direction orders input output coins small (rw (left, empty) at h)
        | inr full ↦
            let (found, run, later) =
              >>=-eq-ok (fill_order direction order order.utxo.value input) _
                (rw (left, full) at h) in
            elim (Option-cases found) [
              | inl nothing ↦
                  fill_orders-budget direction orders input output coins small (rw nothing at later)
              | inr (leg, taken) ↦
                  let (rest, ran, built) =
                    >>=-eq-ok
                      (fill_orders direction orders (input - leg.taker_pays)
                        ((output + leg.taker_receives) % u64_mod))
                      _ (rw taken at later) in
                  let (left_over, got) =
                    fill_orders-budget direction orders (input - leg.taker_pays)
                      ((output + leg.taker_receives) % u64_mod) coins (omega arith) ran in
                  let within = fill_order-pays_le direction order input coin (rw taken at run) in
                  rw (← ok_injective built) (omega (arith, left_over), omega (arith, got))
            ]
      ]
    ]
