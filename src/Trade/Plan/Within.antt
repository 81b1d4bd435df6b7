-- ===== src/Trade/Plan/Within.antt =====
-- The orders that a plan fills, as a part of those that it goes through.
use deadcat.Prelude.{
  ℕ, ◌≡◌, subst, inl, inr, ◌==◌, some, List, [], ◌∷◌, map, ok, >>=-eq-ok, ok_injective, All, arith,
  Bool-cases, Option-cases, saturating_sub, wrapping_add, checked_mul,
}
use deadcat.MakerOrder.Params.{MakerOrderParams}
use deadcat.Trade.Types.{TradeDirection, buy, sell, ScannedOrder, OrderFillLeg}
use deadcat.Trade.Fill.{
  fill_order, fill_buy_order, fill_buy_order_with_lots, fill_sell_order, fill_sell_lots,
  fill_sell_order_with_lots,
}
use deadcat.Trade.Route.{Filled, fill_orders}

-- The list `xs` is `ys` with elements left out.
pub data Within {A : Type 0} : List A → List A → Type 0 where
  stop : {ys : List A} → Within [] ys
  skip : {y : A} {xs ys : List A} → Within xs ys → Within xs (y ∷ ys)
  keep : {y : A} {xs ys : List A} → Within xs ys → Within (y ∷ xs) (y ∷ ys)

module _ {A : Type 0} where
  -- `R` holds of every element and each later one.
  abbrev pub InOrder : (A → A → Type 0) → List A → Type 0
  InOrder R [] = Unit
  InOrder R (x ∷ xs) = All (R x) xs × InOrder R xs

  pub Within-All : (P : A → Type 0) {xs ys : List A} → Within xs ys → All P ys → All P xs
  Within-All P stop h = tt
  Within-All P (skip w) (first, rest) = Within-All P w rest
  Within-All P (keep w) (first, rest) = (first, Within-All P w rest)

  pub Within-InOrder :
      (R : A → A → Type 0) {xs ys : List A} → Within xs ys → InOrder R ys → InOrder R xs
  Within-InOrder R stop h = tt
  Within-InOrder R (skip w) (first, rest) = Within-InOrder R w rest
  Within-InOrder R (keep {y = y} w) (first, rest) =
      (Within-All (R y) w first, Within-InOrder R w rest)

abbrev pub leg_params : List OrderFillLeg → List MakerOrderParams
leg_params = map (λ leg. leg.params)

abbrev pub order_params : List ScannedOrder → List MakerOrderParams
order_params = map (λ o. o.params)

fill_order-params :
    (direction : TradeDirection) (order : ScannedOrder) (v budget : ℕ) {leg : OrderFillLeg}
    → fill_order direction order v budget ≡ ok (some leg)
    → leg.params ≡ order.params
unfolding fill_order fill_buy_order fill_buy_order_with_lots fill_sell_order fill_sell_lots
    fill_sell_order_with_lots checked_mul
fill_order-params buy order v budget h = ground arith
fill_order-params sell order v budget h = ground arith

pub fill_orders-Within :
    (direction : TradeDirection) (orders : List ScannedOrder) (input output : ℕ) {f : Filled}
    → fill_orders direction orders input output ≡ ok f
    → Within (leg_params f.order_legs) (order_params orders)
unfolding fill_orders
fill_orders-Within direction [] input output h =
    subst (λ (g : Filled). Within (leg_params g.order_legs) []) (ok_injective h) stop
fill_orders-Within direction (order ∷ orders) input output {f = f} h =
    elim (Bool-cases (input == 0)) [
      | inl spent ↦
          subst (λ (g : Filled). Within (leg_params g.order_legs) (order_params (order ∷ orders)))
            (ok_injective (rw spent at h)) stop
      | inr left ↦ elim (Bool-cases (order.utxo.value == 0)) [
        | inl empty ↦
            skip (fill_orders-Within direction orders input output (rw (left, empty) at h))
        | inr full ↦
            let (found, run, later) =
              >>=-eq-ok (fill_order direction order order.utxo.value input) _
                (rw (left, full) at h) in
            elim (Option-cases found) [
              | inl nothing ↦
                  skip (fill_orders-Within direction orders input output (rw nothing at later))
              | inr (leg, taken) ↦
                  let (rest, ran, built) =
                    >>=-eq-ok
                      (fill_orders direction orders (saturating_sub input leg.taker_pays)
                        (wrapping_add output leg.taker_receives))
                      _ (rw taken at later) in
                  let same =
                    fill_order-params direction order order.utxo.value input (rw taken at run) in
                  let others =
                    fill_orders-Within direction orders (saturating_sub input leg.taker_pays)
                      (wrapping_add output leg.taker_receives) ran in
                  let kept : Within (leg.params ∷ leg_params rest.order_legs)
                      (order.params ∷ order_params orders) =
                    rw same (keep others) in
                  subst
                    (λ (g : Filled).
                      Within (leg_params g.order_legs) (order_params (order ∷ orders)))
                    (ok_injective built) kept
            ]
      ]
    ]
