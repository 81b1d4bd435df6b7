-- ===== src/Trade/Route.antt =====
-- trade/router.rs: the greedy loop of `build_execution_plan`, over the eligible orders in the order
-- in which it has sorted them.
pub mod Budget
use deadcat.Prelude.{
  ℕ, Bool, true, false, ◌==◌, if◌then◌else◌, Option, none, some, List, [], ◌∷◌, Result, ok, err,
  ◌>>=◌, saturating_sub, wrapping_add,
}
use deadcat.Error.{Error}
use deadcat.Trade.Types.{ScannedOrder, OrderFillLeg, TradeDirection}
use deadcat.Trade.Fill.{fill_order}

-- What the loop keeps in `order_legs`, `remaining_input` and `total_output`.
pub record Filled : Type 0 where
  pub order_legs : List OrderFillLeg
  pub remaining_input : ℕ
  pub total_output : ℕ

unfoldable pub fill_orders : TradeDirection → List ScannedOrder → ℕ → ℕ → Result Error Filled
fill_orders direction [] remaining_input total_output =
    ok (record { order_legs = []; remaining_input = remaining_input; total_output = total_output })
fill_orders direction (order ∷ orders) remaining_input total_output =
    let skip = fill_orders direction orders remaining_input total_output in
    if remaining_input == 0
    then ok
        (record { order_legs = []; remaining_input = remaining_input; total_output = total_output })
    else if order.utxo.value == 0
    then skip
    else (do
      found ← fill_order direction order order.utxo.value remaining_input
      elim found [
        | none ↦ skip
        | some leg ↦ (do
          rest ←
              fill_orders direction orders (saturating_sub remaining_input leg.taker_pays)
                (wrapping_add total_output leg.taker_receives)
          ok (record {
            order_legs = leg ∷ rest.order_legs;
            remaining_input = rest.remaining_input;
            total_output = rest.total_output;
          }))
      ])
