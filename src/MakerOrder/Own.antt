-- ===== src/MakerOrder/Own.antt =====
-- maker_order/pset/create_order.rs and cancel_order.rs: a maker funds an order and takes it back.
pub mod Balance
use deadcat.Prelude.{
  ℕ, ◌-◌, Bool, true, false, not, ◌&&◌, ltb, ◌==◌, if◌then◌else◌, Option, none, some, Bytes, Result,
  ok, err, fail_if, ◌>>=◌, ◌>>◌, is_some, wrapping_add, wrapping_sub,
}
use deadcat.Error.{
  Error, zero_price, zero_order_amount, insufficient_collateral, insufficient_fee,
  missing_change_destination,
}
use deadcat.Pset.{
  UnblindedUtxo, Pset, outpoint_eq, new_pset, add_pset_input, add_pset_output, explicit_txout,
  fee_txout, add_change,
}
use deadcat.MakerOrder.Params.{CompiledMakerOrder, offered_asset}

pub record CreateOrderParams : Type 0 where
  pub funding_utxo : UnblindedUtxo
  pub fee_utxo : UnblindedUtxo
  pub order_amount : ℕ
  pub fee_amount : ℕ
  pub fee_asset_id : Bytes
  pub change_destination : Option Bytes
  pub fee_change_destination : Option Bytes
  pub maker_base_pubkey : Bytes

-- Whether one coin funds the order and the fee.
unfoldable pub combined : CreateOrderParams → Bool
combined params = outpoint_eq params.funding_utxo.outpoint params.fee_utxo.outpoint

-- `value - order_amount - fee_amount`, as a release build computes it
unfoldable pub total_change : CreateOrderParams → ℕ
total_change params =
    wrapping_sub (wrapping_sub params.funding_utxo.value params.order_amount) params.fee_amount

-- The guards on the amounts where one coin pays for both; the sum wraps in a release build.
unfoldable pub check_combined : CreateOrderParams → Result Error (Unit {0})
check_combined params = do
  fail_if (ltb params.funding_utxo.value (wrapping_add params.order_amount params.fee_amount))
      insufficient_collateral
  fail_if (ltb 0 (total_change params) && not (is_some params.change_destination))
      missing_change_destination

-- The guards where the order and the fee have a coin each.
unfoldable pub check_separate : CreateOrderParams → Result Error (Unit {0})
check_separate params = do
  fail_if (ltb params.funding_utxo.value params.order_amount) insufficient_collateral
  fail_if (ltb params.fee_utxo.value params.fee_amount) insufficient_fee
  fail_if
      (ltb params.order_amount params.funding_utxo.value && not (is_some params.change_destination))
      missing_change_destination
  fail_if
      (ltb params.fee_amount params.fee_utxo.value && not (is_some params.fee_change_destination))
      missing_change_destination

-- The inputs, the order and the fee.
unfoldable pub order_and_fee : CompiledMakerOrder → CreateOrderParams → Pset
order_and_fee contract params =
    let covenant_spk = contract.script_pubkey params.maker_base_pubkey in
    let pset = add_pset_input new_pset params.funding_utxo in
    let pset = if combined params then pset else add_pset_input pset params.fee_utxo in
    let pset =
      add_pset_output pset
        (explicit_txout (offered_asset contract.params) params.order_amount covenant_spk) in
    add_pset_output pset (fee_txout params.fee_asset_id params.fee_amount)

unfoldable pub build_create_order_pset : CompiledMakerOrder → CreateOrderParams → Result Error Pset
build_create_order_pset contract params = do
  fail_if (contract.params.price == 0) zero_price
  fail_if (params.order_amount == 0) zero_order_amount
  (if combined params then check_combined params else check_separate params)
  let pset = order_and_fee contract params
  (if combined params
      then ok (add_change pset params.fee_asset_id (total_change params) params.change_destination)
      else (do
        let funding_change = params.funding_utxo.value - params.order_amount
        let pset =
            add_change pset (offered_asset contract.params) funding_change params.change_destination
        let fee_change = params.fee_utxo.value - params.fee_amount
        ok (add_change pset params.fee_asset_id fee_change params.fee_change_destination)))

pub record CancelOrderParams : Type 0 where
  pub order_utxo : UnblindedUtxo
  pub fee_utxo : UnblindedUtxo
  pub fee_amount : ℕ
  pub fee_asset_id : Bytes
  pub order_asset_id : Bytes
  pub refund_destination : Bytes
  pub fee_change_destination : Option Bytes

unfoldable pub build_cancel_order_pset : CancelOrderParams → Result Error Pset
build_cancel_order_pset params = do
  fail_if (ltb params.fee_utxo.value params.fee_amount) insufficient_fee
  fail_if
      (ltb params.fee_amount params.fee_utxo.value && not (is_some params.fee_change_destination))
      missing_change_destination
  let pset = add_pset_input new_pset params.order_utxo
  let pset = add_pset_input pset params.fee_utxo
  let pset =
      add_pset_output pset
        (explicit_txout params.order_asset_id params.order_utxo.value params.refund_destination)
  let pset = add_pset_output pset (fee_txout params.fee_asset_id params.fee_amount)
  let fee_change = params.fee_utxo.value - params.fee_amount
  ok (add_change pset params.fee_asset_id fee_change params.fee_change_destination)
