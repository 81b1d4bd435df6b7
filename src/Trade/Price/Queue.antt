-- ===== src/Trade/Price/Queue.antt =====
-- The orders of the queue: which they are, and in which order they stand.
use deadcat.Prelude.{
  ℕ, Bool, true, false, ◌≡◌, ◌⊎◌, inl, inr, Option, some, List, [], ◌∷◌, map, Bytes, bytes_eq→eq,
  All, Bool-cases, Option-cases, arith,
}
use deadcat.Trade.Types.{TradeDirection, buy, sell, ScannedOrder}
use deadcat.Trade.Price.{
  order_buy_price, order_sell_price, order_price, as_good, beats_spot, eligible, insert_order,
  sort_orders, queue, sells_base,
}

module _ {F : Type 0} where
  pub map-All :
      (P : ScannedOrder → Type 0) (es : List (ScannedOrder × F))
      → All (λ e. P e.0) es
      → All P (map (λ e. e.0) es)
  map-All P [] h = tt
  map-All P (e ∷ es) (first, rest) = (first, map-All P es rest)

module _ (F : Type 0) (as_f64 : ℕ → F) (div : F → F → F) (le : F → F → Bool) where
  -- What the filter lets through: an order of `orders`, on the maker's side that the trade needs, for
  -- the traded token, at its price, which serves the taker as well as the pool's.
  abbrev pub IsEligible : TradeDirection → Option F → Bytes → ScannedOrder × F → Type 0
  IsEligible direction spot token_asset entry =
      (entry.0.params.base_asset_id ≡ token_asset)
      × (sells_base entry.0.params.direction ≡ elim direction [ buy ↦ true | sell ↦ false ])
      × (entry.1 ≡ as_f64 entry.0.params.price)
      × (beats_spot F as_f64 div le direction entry.1 spot ≡ true)

  order_price-eq-some :
      (direction : TradeDirection) (order : ScannedOrder) (token_asset : Bytes) (price : F)
      → order_price F as_f64 div le direction order token_asset ≡ some price
      → (order.params.base_asset_id ≡ token_asset)
        × (sells_base order.params.direction ≡ elim direction [ buy ↦ true | sell ↦ false ])
        × (price ≡ as_f64 order.params.price)
  unfolding order_price order_buy_price order_sell_price
  order_price-eq-some buy order token_asset price e =
      let matches = bytes_eq→eq order.params.base_asset_id token_asset (ground arith) in
      (matches, ground arith, ground arith)
  order_price-eq-some sell order token_asset price e =
      let matches = bytes_eq→eq order.params.base_asset_id token_asset (ground arith) in
      (matches, ground arith, ground arith)

  eligible-All :
      (direction : TradeDirection) (spot : Option F) (token_asset : Bytes)
      (orders : List ScannedOrder)
      → All
          (IsEligible direction spot token_asset)
          (eligible F as_f64 div le direction spot token_asset orders)
  unfolding eligible
  eligible-All direction spot token_asset [] = tt
  eligible-All direction spot token_asset (order ∷ orders) =
      let rest = eligible-All direction spot token_asset orders in
      elim (Option-cases (order_price F as_f64 div le direction order token_asset)) [
        | inl refused ↦ rw (refused, eligible) rest
        | inr (price, priced) ↦
            elim (Bool-cases (beats_spot F as_f64 div le direction price spot)) [
              | inl good ↦
                  let (token, side, at) =
                    order_price-eq-some direction order token_asset price priced in
                  rw (priced, eligible, good) ((token, side, at, good), rest)
              | inr bad ↦ rw (priced, eligible, bad) rest
            ]
      ]

  pub eligible-of :
      (P : ScannedOrder → Type 0) (direction : TradeDirection) (spot : Option F)
      (token_asset : Bytes) (orders : List ScannedOrder)
      → All P orders
      → All (λ e. P e.0) (eligible F as_f64 div le direction spot token_asset orders)
  unfolding eligible
  eligible-of P direction spot token_asset [] h = tt
  eligible-of P direction spot token_asset (order ∷ orders) (first, others) =
      let rest = eligible-of P direction spot token_asset orders others in
      elim (Option-cases (order_price F as_f64 div le direction order token_asset)) [
        | inl refused ↦ rw (refused, eligible) rest
        | inr (price, priced) ↦
            elim (Bool-cases (beats_spot F as_f64 div le direction price spot)) [
              | inl good ↦ rw (priced, eligible, good) (first, rest)
              | inr bad ↦ rw (priced, eligible, bad) rest
            ]
      ]

  insert_order-All :
      (Q : ScannedOrder × F → Type 0) (direction : TradeDirection) (e : ScannedOrder × F)
      (es : List (ScannedOrder × F))
      → Q e
      → All Q es
      → All Q (insert_order F as_f64 div le direction e es)
  unfolding insert_order
  insert_order-All Q direction e [] h hs = (h, tt)
  insert_order-All Q direction e (o ∷ os) h (first, rest) =
      elim (Bool-cases (as_good F as_f64 div le direction e.1 o.1)) [
        | inl before ↦ rw before (h, (first, rest))
        | inr after ↦ rw after (first, insert_order-All Q direction e os h rest)
      ]

  sort_orders-All :
      (Q : ScannedOrder × F → Type 0) (direction : TradeDirection) (es : List (ScannedOrder × F))
      → All Q es
      → All Q (sort_orders F as_f64 div le direction es)
  unfolding sort_orders
  sort_orders-All Q direction [] h = tt
  sort_orders-All Q direction (e ∷ es) (first, rest) =
      insert_order-All Q direction e (sort_orders F as_f64 div le direction es) first
        (sort_orders-All Q direction es rest)

  pub queue-IsEligible :
      (direction : TradeDirection) (spot : Option F) (token_asset : Bytes)
      (orders : List ScannedOrder)
      → All
          (IsEligible direction spot token_asset)
          (queue F as_f64 div le direction spot token_asset orders)
  queue-IsEligible direction spot token_asset orders =
      sort_orders-All (IsEligible direction spot token_asset) direction
        (eligible F as_f64 div le direction spot token_asset orders)
        (eligible-All direction spot token_asset orders)

  pub queue-All :
      (P : ScannedOrder → Type 0) (direction : TradeDirection) (spot : Option F)
      (token_asset : Bytes) (orders : List ScannedOrder)
      → All P orders
      → All P (map (λ e. e.0) (queue F as_f64 div le direction spot token_asset orders))
  queue-All P direction spot token_asset orders h =
      map-All P (queue F as_f64 div le direction spot token_asset orders) (
        sort_orders-All (λ e. P e.0) direction
          (eligible F as_f64 div le direction spot token_asset orders)
          (eligible-of P direction spot token_asset orders h))

  -- Every price serves the taker as well as those after it.
  abbrev pub IsSorted : TradeDirection → List (ScannedOrder × F) → Type 0
  IsSorted direction [] = Unit
  IsSorted direction (e ∷ es) =
      All (λ o. as_good F as_f64 div le direction e.1 o.1 ≡ true) es × IsSorted direction es

  module _ (le_total : (a b : F) → (le a b ≡ true) ⊎ (le b a ≡ true))
      (le_trans : (a b c : F) → le a b ≡ true → le b c ≡ true → le a c ≡ true) where
    as_good_trans :
        (direction : TradeDirection) (a b c : F)
        → as_good F as_f64 div le direction a b ≡ true
        → as_good F as_f64 div le direction b c ≡ true
        → as_good F as_f64 div le direction a c ≡ true
    unfolding as_good
    as_good_trans buy a b c h k = le_trans a b c h k
    as_good_trans sell a b c h k = le_trans c b a k h

    as_good_other :
        (direction : TradeDirection) (a b : F)
        → as_good F as_f64 div le direction a b ≡ false
        → as_good F as_f64 div le direction b a ≡ true
    unfolding as_good
    as_good_other buy a b h = elim (le_total a b) [ inl k ↦ cc | inr k ↦ k ]
    as_good_other sell a b h = elim (le_total b a) [ inl k ↦ cc | inr k ↦ k ]

    All-trans :
        (direction : TradeDirection) (a b : F) (es : List (ScannedOrder × F))
        → as_good F as_f64 div le direction a b ≡ true
        → All (λ o. as_good F as_f64 div le direction b o.1 ≡ true) es
        → All (λ o. as_good F as_f64 div le direction a o.1 ≡ true) es
    All-trans direction a b [] h hs = tt
    All-trans direction a b (e ∷ es) h (first, rest) =
        (as_good_trans direction a b e.1 h first, All-trans direction a b es h rest)

    insert_order-IsSorted :
        (direction : TradeDirection) (e : ScannedOrder × F) (es : List (ScannedOrder × F))
        → IsSorted direction es
        → IsSorted direction (insert_order F as_f64 div le direction e es)
    unfolding insert_order
    insert_order-IsSorted direction e [] h = (tt, tt)
    insert_order-IsSorted direction e (o ∷ os) (first, rest) =
        elim (Bool-cases (as_good F as_f64 div le direction e.1 o.1)) [
          | inl before ↦
              rw before ((before, All-trans direction e.1 o.1 os before first), (first, rest))
          | inr after ↦ rw after (
            insert_order-All (λ k. as_good F as_f64 div le direction o.1 k.1 ≡ true) direction e os
                (as_good_other direction e.1 o.1 after) first,
            insert_order-IsSorted direction e os rest,
          )
        ]

    pub sort_orders-IsSorted :
        (direction : TradeDirection) (es : List (ScannedOrder × F))
        → IsSorted direction (sort_orders F as_f64 div le direction es)
    unfolding sort_orders
    sort_orders-IsSorted direction [] = tt
    sort_orders-IsSorted direction (e ∷ es) =
        insert_order-IsSorted direction e (sort_orders F as_f64 div le direction es)
          (sort_orders-IsSorted direction es)
