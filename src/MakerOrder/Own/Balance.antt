-- ===== src/MakerOrder/Own/Balance.antt =====
-- The balance of the transactions that create and cancel an order, asset by asset.
use deadcat.Prelude.{
  ℕ, ◌+◌, ◌-◌, ◌<◌, ◌≤◌, ◌≡◌, true, false, not, ◌&&◌, ltb, ◌==◌, if◌then◌else◌, Bytes, bytes_eq, ok,
  u64_mod, arith, fail_if, >>=-eq-ok, ok_injective, Bool-cases, inl, inr, wrapping_add-of_lt,
  is_some, wrapping_sub,
}
use deadcat.Pset.{Pset}
use deadcat.Pset.Totals.{
  total, total-explicit, total-fee, total-change, total-new_pset, total-add_pset_input,
}
use deadcat.MakerOrder.Params.{CompiledMakerOrder, offered_asset}
use deadcat.MakerOrder.Own.{
  CreateOrderParams, CancelOrderParams, combined, total_change, check_combined, check_separate,
  order_and_fee, build_create_order_pset, build_cancel_order_pset,
}

-- What a coin of an asset adds to the total of another.
abbrev pub holds : (asset coin_asset : Bytes) (value : ℕ) → ℕ
holds asset coin_asset value = if bytes_eq coin_asset asset then value else 0

-- A cancellation that is built pays out the whole order and the whole fee coin: of every asset, its
-- outputs carry what the order and the fee coin hold.
pub build_cancel_order_pset-balance :
    (params : CancelOrderParams) {p : Pset} (asset : Bytes)
    → build_cancel_order_pset params ≡ ok p
    → total asset p
      ≡ holds asset params.order_asset_id params.order_utxo.value
        + holds asset params.fee_asset_id params.fee_utxo.value
unfolding build_cancel_order_pset
build_cancel_order_pset-balance params {p} asset h =
    let (_, covered, h₁) =
      >>=-eq-ok (fail_if (ltb params.fee_utxo.value params.fee_amount) _) _ h in
    let (_, dest, h₂) =
      >>=-eq-ok
        (fail_if
          (ltb params.fee_amount params.fee_utxo.value
            && not (is_some params.fee_change_destination))
          _)
        _ h₁ in
    rw
      (
        ← ok_injective h₂,
        total-change,
        total-fee,
        total-explicit,
        total-add_pset_input,
        total-add_pset_input,
        total-new_pset,
      )
      (ground arith)

-- With the coins and the amounts in range, the total change of a combined coin is what is left.
total_change-of_le :
    (params : CreateOrderParams)
    → params.order_amount + params.fee_amount ≤ params.funding_utxo.value
    → params.funding_utxo.value < u64_mod
    → total_change params ≡ params.funding_utxo.value - params.order_amount - params.fee_amount
unfolding total_change wrapping_sub
total_change-of_le params h b = omega arith

total-order_and_fee :
    (contract : CompiledMakerOrder) (params : CreateOrderParams) (asset : Bytes)
    → total asset (order_and_fee contract params)
      ≡ holds asset (offered_asset contract.params) params.order_amount
        + holds asset params.fee_asset_id params.fee_amount
unfolding order_and_fee
total-order_and_fee contract params asset = elim (Bool-cases (combined params)) [
  | inl one ↦
      rw (one, total-fee, total-explicit, total-add_pset_input, total-new_pset) (omega arith)
  | inr two ↦
      rw
        (two, total-fee, total-explicit, total-add_pset_input, total-add_pset_input, total-new_pset)
        (omega arith)
]

module _ (contract : CompiledMakerOrder) (params : CreateOrderParams) (asset : Bytes) where
  open params use {funding_utxo, fee_utxo, order_amount, fee_amount, fee_asset_id}

  -- An order that is created from a coin of the offered asset and a separate fee coin pays out, of
  -- every asset, exactly what the two coins hold.
  pub build_create_order_pset-balance :
      {p : Pset}
      → combined params ≡ false
      → build_create_order_pset contract params ≡ ok p
      → total asset p
        ≡ holds asset (offered_asset contract.params) funding_utxo.value
          + holds asset fee_asset_id fee_utxo.value
  unfolding build_create_order_pset check_separate
  build_create_order_pset-balance {p} two h =
      let (_, priced, h₁) = >>=-eq-ok (fail_if (contract.params.price == 0) _) _ h in
      let (_, some_order, h₂) = >>=-eq-ok (fail_if (order_amount == 0) _) _ h₁ in
      let (_, checked, h₃) =
        >>=-eq-ok (if combined params then check_combined params else check_separate params) _ h₂ in
      let built = ok_injective (rw two at h₃) in
      let separate = rw two at checked in
      rw (← built, total-change, total-change, total-order_and_fee) (ground arith)

  -- An order that is created from one coin of the fee asset, which is the offered asset, pays out,
  -- of every asset, exactly what the coin holds, where the amount and the fee together are in the
  -- range of a `u64`, and so is the coin.
  pub build_create_order_pset-balance_combined :
      {p : Pset}
      → combined params ≡ true
      → fee_asset_id ≡ offered_asset contract.params
      → order_amount + fee_amount < u64_mod
      → funding_utxo.value < u64_mod
      → build_create_order_pset contract params ≡ ok p
      → total asset p ≡ holds asset fee_asset_id funding_utxo.value
  unfolding build_create_order_pset check_combined
  build_create_order_pset-balance_combined {p} one same_asset fits bound h =
      let (_, priced, h₁) = >>=-eq-ok (fail_if (contract.params.price == 0) _) _ h in
      let (_, some_order, h₂) = >>=-eq-ok (fail_if (order_amount == 0) _) _ h₁ in
      let (_, checked, h₃) =
        >>=-eq-ok (if combined params then check_combined params else check_separate params) _ h₂ in
      let built = ok_injective (rw one at h₃) in
      let together = rw one at checked in
      let sum = wrapping_add-of_lt order_amount fee_amount fits in
      let enough : order_amount + fee_amount ≤ funding_utxo.value = ground (arith, sum) in
      rw (← built, total-change, total-order_and_fee, ← same_asset)
        (ground (arith, total_change-of_le params enough bound))
