-- ===== src/Trade/Plan/Order.antt =====
-- Which orders a plan fills, and in which order.
use deadcat.Prelude.{
  ℕ, ◌≡◌, refl, subst, ◌⊎◌, inl, inr, Bool, true, false, not, ◌==◌, Option, none, some, List, [],
  ◌∷◌, map, Bytes, ok, fail_if, fail_if_passed, >>=-eq-ok, ok_injective, All, arith, Bool-cases,
}
use deadcat.Error.{no_liquidity, partial_fill_not_last}
use deadcat.MakerOrder.Params.{MakerOrderParams}
use deadcat.Trade.Types.{
  TradeSide, yes_side, no_side, TradeDirection, buy, sell, ScannedOrder, ScannedLmsrPool,
  OrderFillLeg, LmsrPoolSwapLeg, ExecutionPlan,
}
use deadcat.Trade.Route.{Filled, fill_orders}
use deadcat.Trade.Price.{
  target_token_asset, pool_spot, as_good, beats_spot, sells_base, queue, eligible,
}
use deadcat.Trade.Plan.Spot.{IsSpot, pool_spot-IsSpot}
use deadcat.MakerOrder.Params.{OrderDirection, sell_base, sell_quote}
use deadcat.Trade.Price.Queue.{IsEligible, IsSorted, queue-IsEligible, sort_orders-IsSorted}
use deadcat.Trade.Plan.{
  only_last_partial, after_pool, taker_assets, route_remainder, finish_plan, build_execution_plan,
}
use deadcat.Trade.Plan.Within.{
  Within, InOrder, Within-All, Within-InOrder, leg_params, order_params, fill_orders-Within,
}

abbrev pub traded_token : TradeSide → (yes_asset no_asset : Bytes) → Bytes
traded_token yes_side yes_asset no_asset = yes_asset
traded_token no_side yes_asset no_asset = no_asset

target_token_asset-traded :
    (side : TradeSide) (yes_asset no_asset : Bytes)
    → target_token_asset side yes_asset no_asset ≡ traded_token side yes_asset no_asset
unfolding target_token_asset
target_token_asset-traded yes_side yes_asset no_asset = refl
target_token_asset-traded no_side yes_asset no_asset = refl

-- No leg but the last leaves a remainder.
abbrev pub OnlyLastPartial : List OrderFillLeg → Type 0
OnlyLastPartial [] = Unit
OnlyLastPartial (leg ∷ []) = Unit
OnlyLastPartial (leg ∷ next ∷ rest) = (leg.is_partial ≡ false) × OnlyLastPartial (next ∷ rest)

only_last_partial_sound :
    (legs : List OrderFillLeg) → only_last_partial legs ≡ true → OnlyLastPartial legs
unfolding only_last_partial
only_last_partial_sound [] h = tt
only_last_partial_sound (leg ∷ []) h = tt
only_last_partial_sound (leg ∷ next ∷ rest) h = elim (Bool-cases leg.is_partial) [
  | inl partial ↦ (let failed = rw partial at h in cc)
  | inr whole ↦ (whole, only_last_partial_sound (next ∷ rest) (rw whole at h))
]

finish_plan-legs :
    (lmsr_pool : Option ScannedLmsrPool) (total_input : ℕ) (assets : Bytes × Bytes)
    (filled : Filled) (leg : Option LmsrPoolSwapLeg) {plan : ExecutionPlan}
    → finish_plan lmsr_pool total_input assets filled leg ≡ ok plan
    → (filled.order_legs ≡ plan.order_legs) × OnlyLastPartial plan.order_legs
unfolding finish_plan
finish_plan-legs lmsr_pool total_input assets filled leg e =
    let left = after_pool leg filled.remaining_input filled.total_output in
    let (_, _, e₁) = >>=-eq-ok (fail_if (left.1 == 0) no_liquidity) _ e in
    let (_, last, e₂) =
      >>=-eq-ok (fail_if (not (only_last_partial filled.order_legs)) partial_fill_not_last) _ e₁ in
    let checked = fail_if_passed (not (only_last_partial filled.order_legs)) _ last in
    subst
      (λ (plan : ExecutionPlan).
        (filled.order_legs ≡ plan.order_legs) × OnlyLastPartial plan.order_legs)
      (ok_injective e₂) (refl, only_last_partial_sound filled.order_legs (ground (arith, checked)))

module _ (F : Type 0) (as_f64 : ℕ → F) (div : F → F → F) (le : F → F → Bool) where
  -- Price `a` serves the taker as well as price `b`: it is no higher for a purchase, and no lower for
  -- a sale.
  abbrev pub Serves : TradeDirection → F → F → Type 0
  Serves buy a b = le a b ≡ true
  Serves sell a b = le b a ≡ true

  abbrev pub ServesSpot : TradeDirection → F → Option F → Type 0
  ServesSpot direction price none = Unit
  ServesSpot direction price (some spot) = Serves direction price spot

  -- The price of `p` serves the taker as well as that of `q`.
  abbrev pub IsAsGood : TradeDirection → MakerOrderParams → MakerOrderParams → Type 0
  IsAsGood direction p q = Serves direction (as_f64 p.price) (as_f64 q.price)

  -- An order for the traded token, from a maker on the other side, at a price that serves the taker
  -- as well as the pool's.
  abbrev pub IsUsable : TradeDirection → Option F → Bytes → MakerOrderParams → Type 0
  IsUsable direction spot token_asset p =
      (p.base_asset_id ≡ token_asset)
      × (p.direction ≡ elim direction [ buy ↦ sell_base | sell ↦ sell_quote ])
      × ServesSpot direction (as_f64 p.price) spot

  as_good-Serves :
      (direction : TradeDirection) (a b : F)
      → as_good F as_f64 div le direction a b ≡ true
      → Serves direction a b
  unfolding as_good
  as_good-Serves buy a b h = h
  as_good-Serves sell a b h = h

  beats_spot-ServesSpot :
      (direction : TradeDirection) (a : F) (spot : Option F)
      → beats_spot F as_f64 div le direction a spot ≡ true
      → ServesSpot direction a spot
  unfolding beats_spot
  beats_spot-ServesSpot direction a none h = tt
  beats_spot-ServesSpot buy a (some spot) h = h
  beats_spot-ServesSpot sell a (some spot) h = h

  maker_side :
      (direction : TradeDirection) (d : OrderDirection)
      → sells_base d ≡ elim direction [ buy ↦ true | sell ↦ false ]
      → d ≡ elim direction [ buy ↦ sell_base | sell ↦ sell_quote ]
  maker_side buy sell_base h = refl
  maker_side buy sell_quote h = cc
  maker_side sell sell_base h = cc
  maker_side sell sell_quote h = refl

  entries-IsUsable :
      (direction : TradeDirection) (spot : Option F) (token_asset : Bytes)
      (es : List (ScannedOrder × F))
      → All (IsEligible F as_f64 div le direction spot token_asset) es
      → All (IsUsable direction spot token_asset) (order_params (map (λ e. e.0) es))
  entries-IsUsable direction spot token_asset [] h = tt
  entries-IsUsable direction spot token_asset (e ∷ es) ((token, side, at, good), rest) = (
    (
      token,
      maker_side direction e.0.params.direction side,
      subst (λ k. ServesSpot direction k spot) at (beats_spot-ServesSpot direction e.1 spot good),
    ),
    entries-IsUsable direction spot token_asset es rest,
  )

  later-IsAsGood :
      (direction : TradeDirection) (spot : Option F) (token_asset : Bytes) (p : MakerOrderParams)
      (es : List (ScannedOrder × F))
      → All (IsEligible F as_f64 div le direction spot token_asset) es
      → All (λ o. as_good F as_f64 div le direction (as_f64 p.price) o.1 ≡ true) es
      → All (IsAsGood direction p) (order_params (map (λ e. e.0) es))
  later-IsAsGood direction spot token_asset p [] h hs = tt
  later-IsAsGood direction spot token_asset p (e ∷ es) ((_, _, at, _), rest) (first, others) = (
    subst (λ k. Serves direction (as_f64 p.price) k) at
        (as_good-Serves direction (as_f64 p.price) e.1 first),
    later-IsAsGood direction spot token_asset p es rest others,
  )

  entries-InOrder :
      (direction : TradeDirection) (spot : Option F) (token_asset : Bytes)
      (es : List (ScannedOrder × F))
      → All (IsEligible F as_f64 div le direction spot token_asset) es
      → IsSorted F as_f64 div le direction es
      → InOrder (IsAsGood direction) (order_params (map (λ e. e.0) es))
  entries-InOrder direction spot token_asset [] h hs = tt
  entries-InOrder direction spot token_asset (e ∷ es) ((_, _, at, _), rest) (first, others) = (
    later-IsAsGood direction spot token_asset e.0.params es rest (
        subst (λ price. All (λ o. as_good F as_f64 div le direction price o.1 ≡ true) es) at first),
    entries-InOrder direction spot token_asset es rest others,
  )

module _ (sha256 : Bytes → Bytes) (F : Type 0) (as_f64 : ℕ → F) (div : F → F → F)
    (le : F → F → Bool) (le_total : (a b : F) → (le a b ≡ true) ⊎ (le b a ≡ true))
    (le_trans : (a b c : F) → le a b ≡ true → le b c ≡ true → le a c ≡ true) where
  -- Where the comparison of prices is total and transitive, there is a price of the pool: that of its
  -- next step in the direction of the trade, quoted for the kind of the trade, or none where there is
  -- no pool, no such step or an empty quote. The orders that a plan fills are for the traded token,
  -- from makers on the other side, and no dearer than that price for a purchase, no cheaper for a
  -- sale; they stand best price first, and none but the last is filled in part.
  pub build_execution_plan-best_first :
      (lmsr_pool : Option ScannedLmsrPool) (orders : List ScannedOrder) (side : TradeSide)
      (direction : TradeDirection) (total_input : ℕ) (collateral_asset yes_asset no_asset : Bytes)
      {plan : ExecutionPlan}
      → build_execution_plan sha256 F as_f64 div le lmsr_pool orders side direction total_input
          collateral_asset yes_asset no_asset
        ≡ ok plan
      → (spot : Option F) × IsSpot F as_f64 div le lmsr_pool side direction spot
        × All
            (IsUsable F as_f64 div le direction spot (traded_token side yes_asset no_asset))
            (leg_params plan.order_legs)
        × InOrder (IsAsGood F as_f64 div le direction) (leg_params plan.order_legs)
        × OnlyLastPartial plan.order_legs
  unfolding build_execution_plan
  build_execution_plan-best_first lmsr_pool orders side direction total_input collateral_asset
        yes_asset no_asset {plan = plan} e =
      let token_asset = target_token_asset side yes_asset no_asset in
      let (spot, spotted, e₁) =
        >>=-eq-ok (pool_spot F as_f64 div le lmsr_pool side direction) _ e in
      let entries = queue F as_f64 div le direction spot token_asset orders in
      let (filled, filling, e₂) =
        >>=-eq-ok (fill_orders direction (map (λ e. e.0) entries) total_input 0) _ e₁ in
      let (leg, routed, e₃) =
        >>=-eq-ok (route_remainder sha256 lmsr_pool side direction filled) _ e₂ in
      let (same, last) =
        finish_plan-legs lmsr_pool total_input (taker_assets direction collateral_asset token_asset)
          filled leg e₃ in
      let within : Within (leg_params plan.order_legs) (order_params (map (λ e. e.0) entries)) =
        subst (λ legs. Within (leg_params legs) (order_params (map (λ e. e.0) entries))) same
          (fill_orders-Within direction (map (λ e. e.0) entries) total_input 0 filling) in
      let usable = queue-IsEligible F as_f64 div le direction spot token_asset orders in
      let sorted =
        sort_orders-IsSorted F as_f64 div le le_total le_trans direction
          (eligible F as_f64 div le direction spot token_asset orders) in
      (
        spot,
        pool_spot-IsSpot F as_f64 div le lmsr_pool side direction spotted,
        subst
            (λ token.
              All (IsUsable F as_f64 div le direction spot token) (leg_params plan.order_legs))
            (target_token_asset-traded side yes_asset no_asset)
            (Within-All (IsUsable F as_f64 div le direction spot token_asset) within
              (entries-IsUsable F as_f64 div le direction spot token_asset entries usable)),
        Within-InOrder (IsAsGood F as_f64 div le direction) within
            (entries-InOrder F as_f64 div le direction spot token_asset entries usable sorted),
        last,
      )
