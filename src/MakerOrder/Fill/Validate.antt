-- ===== src/MakerOrder/Fill/Validate.antt =====
-- Which fills of an order are accepted.
use deadcat.Prelude.{
  ℕ, ◌+◌, ◌-◌, ◌*◌, ◌<◌, ◌≤◌, ◌≡◌, ◌↔◌, true, false, ok, u64_mod, arith, checked_add, checked_sub,
  checked_mul,
}
use deadcat.MakerOrder.Params.{OrderDirection, sell_base, sell_quote}
use deadcat.MakerOrder.Fill.{
  MakerOrderFill, validate_order_fill, validate_sell_base, validate_sell_quote,
}

-- What stays in the covenant.
abbrev pub remainder : MakerOrderFill → ℕ
remainder o = elim o.is_partial [ true ↦ o.remainder_amount | false ↦ 0 ]

-- The lots that change hands against the amounts: the maker of a SellBase order gives lots and gets
-- the price for each; the maker of a SellQuote order gets lots and pays the price for each.
abbrev pub IsExchange : OrderDirection → (lots price offered received rest : ℕ) → Type 0
IsExchange sell_base lots price offered received rest =
    (offered ≡ lots + rest) × (received ≡ lots * price)
IsExchange sell_quote lots price offered received rest =
    (offered ≡ lots * price + rest) × (received ≡ lots)

-- The least remainder, in the asset that is offered.
abbrev pub least_remainder : OrderDirection → (min_lots price : ℕ) → ℕ
least_remainder sell_base min_lots price = min_lots
least_remainder sell_quote min_lots price = min_lots * price

abbrev pub IsFillOf : OrderDirection → MakerOrderFill → Type 0
IsFillOf direction o =
    let p = o.contract.params in
    (lots : ℕ) × (p.min_fill_lots ≤ lots)
    × IsExchange direction lots p.price o.order_utxo.value o.maker_receive_amount (remainder o)
    × (elim o.is_partial [
      | true ↦ least_remainder direction p.min_remainder_lots p.price ≤ o.remainder_amount
      | false ↦ Unit {0}
    ])

pub record IsFill (o : MakerOrderFill) : Type 0 where
  pub priced : 0 < o.contract.params.price
  pub filled : IsFillOf o.contract.params.direction o

sell_base→ : (o : MakerOrderFill) → validate_sell_base o ≡ ok tt → IsFillOf sell_base o
unfolding validate_sell_base checked_mul checked_sub
sell_base→ o h = (o.order_utxo.value - remainder o, ground arith, ground arith, ground arith)

sell_quote→ : (o : MakerOrderFill) → validate_sell_quote o ≡ ok tt → IsFillOf sell_quote o
unfolding validate_sell_quote checked_mul checked_add
sell_quote→ o h = (o.maker_receive_amount, ground arith, ground arith, ground arith)

module _ (o : MakerOrderFill) (offered : o.order_utxo.value < u64_mod)
    (received : o.maker_receive_amount < u64_mod) (rest : o.remainder_amount < u64_mod) where
  sell_base← : IsFillOf sell_base o → validate_sell_base o ≡ ok tt
  unfolding validate_sell_base checked_mul checked_sub
  sell_base← (lots, enough, (given, paid), kept) =
      let all_lots : o.order_utxo.value - remainder o ≡ lots = ground arith in ground arith

  sell_quote← : IsFillOf sell_quote o → validate_sell_quote o ≡ ok tt
  unfolding validate_sell_quote checked_mul checked_add
  sell_quote← (lots, enough, (given, paid), kept) = ground arith

  validated :
      (direction : OrderDirection)
      → elim direction [ sell_base ↦ validate_sell_base o | sell_quote ↦ validate_sell_quote o ]
          ≡ ok tt
        ↔ IsFillOf direction o
  validated sell_base = (sell_base→ o, sell_base←)
  validated sell_quote = (sell_quote→ o, sell_quote←)

  -- A fill, its amounts `u64`, is accepted exactly when the price is not 0 and the amounts are those
  -- of an exchange of some number of lots at the price, with what remains in the covenant, where
  -- the lots reach the order's minimum and the remainder of a partial fill reaches its own.
  pub validate_order_fill_iff : (validate_order_fill o ≡ ok tt) ↔ IsFill o
  unfolding validate_order_fill
  validate_order_fill_iff =
      let check = validated o.contract.params.direction in
      (
        (λ h. record { priced = ground arith; filled = check.0 (ground arith) }),
        λ fill. ground (arith, fill.priced, check.1 fill.filled),
      )
