-- ===== src/Trade/Plan/Spot.antt =====
-- The price of the pool that the router compares the orders with.
use deadcat.Prelude.{
  ℕ, ◌+◌, ◌<◌, ◌≤◌, ◌≡◌, refl, sym, ◌⊎◌, inl, inr, Bool, ◌||◌, ltb, ◌==◌, Option, none, some,
  Result, ok, leb, ◌-◌, >>=-eq-ok, ok_injective, arith, Bool-cases, checked_add, checked_sub,
  u64_mod,
}
use deadcat.Error.{Error}
use deadcat.Lmsr.Math.{
  LmsrTradeKind, buy_yes, sell_yes, buy_no, sell_no, LmsrQuote, requires_increasing_index,
  quote_from_table,
}
use deadcat.Lmsr.Table.{value_at}
use deadcat.Trade.Types.{TradeSide, yes_side, no_side, TradeDirection, buy, sell, ScannedLmsrPool}
use deadcat.Trade.Price.{lmsr_trade_kind, spot_price_at, lmsr_spot_price, pool_spot}

-- The pool's next index in the direction of the trade, with the kind of the trade.
abbrev pub IsNext : TradeSide → TradeDirection → (current next : ℕ) → LmsrTradeKind → Type 0
IsNext yes_side buy current next kind = (kind ≡ buy_yes) × (next ≡ current + 1)
IsNext yes_side sell current next kind = (kind ≡ sell_yes) × (next + 1 ≡ current)
IsNext no_side buy current next kind = (kind ≡ buy_no) × (next + 1 ≡ current)
IsNext no_side sell current next kind = (kind ≡ sell_no) × (next ≡ current + 1)

-- The index cannot move in the direction of the trade.
abbrev pub AtEdge : TradeSide → TradeDirection → (current most : ℕ) → Type 0
AtEdge yes_side buy current most = (most ≤ current) ⊎ (u64_mod ≤ current + 1)
AtEdge yes_side sell current most = (current ≡ 0) ⊎ (most + 1 < current)
AtEdge no_side buy current most = (current ≡ 0) ⊎ (most + 1 < current)
AtEdge no_side sell current most = (most ≤ current) ⊎ (u64_mod ≤ current + 1)

checked_add_cases :
    (a b : ℕ) → ((checked_add a b ≡ none) × (u64_mod ≤ a + b)) ⊎ (checked_add a b ≡ some (a + b))
unfolding checked_add
checked_add_cases a b = elim (Bool-cases (ltb (a + b) u64_mod)) [
  | inl fits ↦ inr (rw fits refl)
  | inr over ↦ inl (rw over refl, ground (arith, over))
]

checked_sub_cases :
    (a b : ℕ)
    → ((checked_sub a b ≡ none) × (a < b)) ⊎ ((n : ℕ) × (checked_sub a b ≡ some n) × (n + b ≡ a))
unfolding checked_sub
checked_sub_cases a b = elim (Bool-cases (leb b a)) [
  | inl fits ↦ inr (a - b, rw fits refl, ground (arith, fits))
  | inr under ↦ inl (rw under refl, ground (arith, under))
]

module _ (F : Type 0) (as_f64 : ℕ → F) (div : F → F → F) (le : F → F → Bool) where
  -- The price of one step: the collateral per lot, or none where either is 0.
  abbrev pub IsPrice : LmsrQuote → Option F → Type 0
  IsPrice q spot =
      (((q.traded_lots ≡ 0) ⊎ (q.collateral_amount ≡ 0)) × (spot ≡ none))
      ⊎ (spot ≡ some (div (as_f64 q.collateral_amount) (as_f64 q.traded_lots)))

  -- The price of the step to `next`, quoted from the table values at both indices.
  abbrev pub PricedAt : ScannedLmsrPool → LmsrTradeKind → ℕ → Option F → Type 0
  PricedAt pool kind next spot =
      (old_f : ℕ) × (new_f : ℕ) × (q : LmsrQuote) × (value_at pool.manifest pool.current_s_index
        ≡ ok old_f)
      × (value_at pool.manifest next ≡ ok new_f)
      × (quote_from_table kind pool.current_s_index next old_f new_f pool.params.q_step_lots
            pool.params.half_payout_sats pool.params.fee_bps
          ≡ ok q)
      × IsPrice q spot

  -- The price of a pool for a trade: that of its next step; there is none without a pool or a next step.
  abbrev pub IsSpot : Option ScannedLmsrPool → TradeSide → TradeDirection → Option F → Type 0
  IsSpot none side direction spot = spot ≡ none
  IsSpot (some pool) side direction spot =
      (AtEdge side direction pool.current_s_index pool.params.s_max_index × (spot ≡ none))
      ⊎ ((kind : LmsrTradeKind) × (next : ℕ) × IsNext side direction pool.current_s_index next kind
          × PricedAt pool kind next spot)

  spot_price_at-IsPrice :
      (pool : ScannedLmsrPool) (kind : LmsrTradeKind) (next : ℕ) {spot : Option F}
      → spot_price_at F as_f64 div le pool kind next ≡ ok spot
      → ((pool.params.s_max_index < next) × (spot ≡ none)) ⊎ PricedAt pool kind next spot
  unfolding spot_price_at
  spot_price_at-IsPrice pool kind next h = elim (Bool-cases (ltb pool.params.s_max_index next)) [
    | inl past ↦ inl (ground (arith, past), sym (ok_injective (rw past at h)))
    | inr inside ↦
        let (old_f, at_old, h₁) =
          >>=-eq-ok (value_at pool.manifest pool.current_s_index) _ (rw inside at h) in
        let (new_f, at_new, h₂) = >>=-eq-ok (value_at pool.manifest next) _ h₁ in
        let (q, quoted, h₃) =
          >>=-eq-ok
            (quote_from_table kind pool.current_s_index next old_f new_f pool.params.q_step_lots
              pool.params.half_payout_sats pool.params.fee_bps)
            _ h₂ in
        inr (
          old_f,
          new_f,
          q,
          at_old,
          at_new,
          quoted,
          elim (Bool-cases (q.traded_lots == 0 || q.collateral_amount == 0)) [
            | inl empty ↦ inl (ground (arith, empty), sym (ok_injective (rw empty at h₃)))
            | inr full ↦ inr (sym (ok_injective (rw full at h₃)))
          ],
        )
  ]

  -- The price at the next index, if there is one.
  abbrev next_price : ScannedLmsrPool → LmsrTradeKind → Option ℕ → Result Error (Option F)
  next_price pool kind none = ok none
  next_price pool kind (some next) = spot_price_at F as_f64 div le pool kind next

  step_up :
      (pool : ScannedLmsrPool) (kind : LmsrTradeKind) {spot : Option F}
      → next_price pool kind (checked_add pool.current_s_index 1) ≡ ok spot
      → (((pool.params.s_max_index ≤ pool.current_s_index) ⊎ (u64_mod ≤ pool.current_s_index + 1))
          × (spot ≡ none))
        ⊎ ((next : ℕ) × (next ≡ pool.current_s_index + 1) × PricedAt pool kind next spot)
  step_up pool kind h = elim (checked_add_cases pool.current_s_index 1) [
    | inl (over, big) ↦ inl (inr big, sym (ok_injective (rw over at h)))
    | inr fine ↦ elim (spot_price_at-IsPrice pool kind (pool.current_s_index + 1) (rw fine at h)) [
      | inl (past, nothing) ↦ inl (inl (omega (arith, past)), nothing)
      | inr priced ↦ inr (pool.current_s_index + 1, refl, priced)
    ]
  ]

  step_down :
      (pool : ScannedLmsrPool) (kind : LmsrTradeKind) {spot : Option F}
      → next_price pool kind (checked_sub pool.current_s_index 1) ≡ ok spot
      → (((pool.current_s_index ≡ 0) ⊎ (pool.params.s_max_index + 1 < pool.current_s_index))
          × (spot ≡ none))
        ⊎ ((next : ℕ) × (next + 1 ≡ pool.current_s_index) × PricedAt pool kind next spot)
  step_down pool kind h = elim (checked_sub_cases pool.current_s_index 1) [
    | inl (under, small) ↦ inl (inl (omega (arith, small)), sym (ok_injective (rw under at h)))
    | inr (next, fine, sum) ↦ elim (spot_price_at-IsPrice pool kind next (rw fine at h)) [
      | inl (past, nothing) ↦ inl (inr (omega (arith, past, sum)), nothing)
      | inr priced ↦ inr (next, sum, priced)
    ]
  ]

  pub pool_spot-IsSpot :
      (lmsr_pool : Option ScannedLmsrPool) (side : TradeSide) (direction : TradeDirection)
      {spot : Option F}
      → pool_spot F as_f64 div le lmsr_pool side direction ≡ ok spot
      → IsSpot lmsr_pool side direction spot
  unfolding pool_spot lmsr_spot_price lmsr_trade_kind requires_increasing_index
  pool_spot-IsSpot none side direction h = sym (ok_injective h)
  pool_spot-IsSpot (some pool) yes_side buy h = elim (step_up pool buy_yes h) [
    | inl edge ↦ inl edge
    | inr (next, up, priced) ↦ inr (buy_yes, next, (refl, up), priced)
  ]
  pool_spot-IsSpot (some pool) yes_side sell h = elim (step_down pool sell_yes h) [
    | inl edge ↦ inl edge
    | inr (next, down, priced) ↦ inr (sell_yes, next, (refl, down), priced)
  ]
  pool_spot-IsSpot (some pool) no_side buy h = elim (step_down pool buy_no h) [
    | inl edge ↦ inl edge
    | inr (next, down, priced) ↦ inr (buy_no, next, (refl, down), priced)
  ]
  pool_spot-IsSpot (some pool) no_side sell h = elim (step_up pool sell_no h) [
    | inl edge ↦ inl edge
    | inr (next, up, priced) ↦ inr (sell_no, next, (refl, up), priced)
  ]
