-- ===== src/MakerOrder/Fill.antt =====
-- maker_order/pset/fill_order.rs: takers fill orders in one transaction.
pub mod Validate
pub mod Batch
pub mod Layout
use deadcat.Prelude.{
  ℕ, ◌-◌, Bool, true, false, not, ltb, ◌==◌, if◌then◌else◌, Option, none, some, List, [], ◌∷◌,
  Bytes, Result, ok, err, fail_if, ok_or, ◌>>=◌, ◌>>◌, checked_add, checked_sub, checked_mul,
  length,
}
use deadcat.Error.{
  Error, zero_price, maker_order_overflow, conservation_violation, fill_below_minimum,
  remainder_below_minimum, partial_fill_not_last, insufficient_fee,
}
use deadcat.Pset.{
  UnblindedUtxo, Pset, new_pset, add_pset_input, add_pset_output, explicit_txout, fee_txout,
  add_change,
}
use deadcat.MakerOrder.Params.{
  OrderDirection, sell_base, sell_quote, MakerOrderParams, CompiledMakerOrder, offered_asset,
  wanted_asset,
}

pub record TakerFill : Type 0 where
  pub funding_utxo : UnblindedUtxo
  pub receive_destination : Bytes
  pub receive_amount : ℕ
  pub receive_asset_id : Bytes
  pub change_destination : Option Bytes
  pub change_amount : ℕ
  pub change_asset_id : Bytes

pub record MakerOrderFill : Type 0 where
  pub contract : CompiledMakerOrder
  pub order_utxo : UnblindedUtxo
  pub maker_base_pubkey : Bytes
  pub maker_receive_amount : ℕ
  pub maker_receive_script : Bytes
  pub is_partial : Bool
  pub remainder_amount : ℕ

pub record FillOrderParams : Type 0 where
  pub takers : List TakerFill
  pub orders : List MakerOrderFill
  pub fee_utxo : UnblindedUtxo
  pub fee_amount : ℕ
  pub fee_asset_id : Bytes
  pub fee_change_destination : Option Bytes

-- The branch of `validate_order_fill` in which the maker sells lots of BASE.
unfoldable pub validate_sell_base : MakerOrderFill → Result Error (Unit {0})
validate_sell_base order =
    let p = order.contract.params in
    let input_amount = order.order_utxo.value in
    let maker_amount = order.maker_receive_amount in
    if order.is_partial
    then (do
      consumed ← ok_or (checked_sub input_amount order.remainder_amount) maker_order_overflow
      expected_payment ← ok_or (checked_mul consumed p.price) maker_order_overflow
      fail_if (not (maker_amount == expected_payment)) conservation_violation
      fail_if (ltb consumed p.min_fill_lots) fill_below_minimum
      fail_if (ltb order.remainder_amount p.min_remainder_lots) remainder_below_minimum)
    else (do
      expected_payment ← ok_or (checked_mul input_amount p.price) maker_order_overflow
      fail_if (not (maker_amount == expected_payment)) conservation_violation
      fail_if (ltb input_amount p.min_fill_lots) fill_below_minimum)

-- The branch in which the maker sells QUOTE.
unfoldable pub validate_sell_quote : MakerOrderFill → Result Error (Unit {0})
validate_sell_quote order =
    let p = order.contract.params in
    let input_amount = order.order_utxo.value in
    let maker_amount = order.maker_receive_amount in
    if order.is_partial
    then (do
      maker_payment ← ok_or (checked_mul maker_amount p.price) maker_order_overflow
      total ← ok_or (checked_add maker_payment order.remainder_amount) maker_order_overflow
      fail_if (not (total == input_amount)) conservation_violation
      fail_if (ltb maker_amount p.min_fill_lots) fill_below_minimum
      min_remainder_quote ← ok_or (checked_mul p.min_remainder_lots p.price) maker_order_overflow
      fail_if (ltb order.remainder_amount min_remainder_quote) remainder_below_minimum)
    else (do
      expected_input ← ok_or (checked_mul maker_amount p.price) maker_order_overflow
      fail_if (not (expected_input == input_amount)) conservation_violation
      fail_if (ltb maker_amount p.min_fill_lots) fill_below_minimum)

unfoldable pub validate_order_fill : MakerOrderFill → Result Error (Unit {0})
validate_order_fill order = do
  fail_if (order.contract.params.price == 0) zero_price
  elim order.contract.params.direction [
    | sell_base ↦ validate_sell_base order
    | sell_quote ↦ validate_sell_quote order
  ]

-- The loop that rejects a partial fill anywhere but at the end.
unfoldable pub partial_only_last : List MakerOrderFill → Result Error (Unit {0})
partial_only_last [] = ok tt
partial_only_last (order ∷ []) = ok tt
partial_only_last (order ∷ next ∷ orders) = do
  fail_if order.is_partial partial_fill_not_last
  partial_only_last (next ∷ orders)

-- `for order in &params.orders { validate_order_fill(order)?; }`
unfoldable pub validate_orders : List MakerOrderFill → Result Error (Unit {0})
validate_orders [] = ok tt
validate_orders (order ∷ orders) = do validate_order_fill order; validate_orders orders

-- The loops over takers and orders that add inputs and outputs.
unfoldable pub add_taker_inputs : Pset → List TakerFill → Pset
add_taker_inputs pset [] = pset
add_taker_inputs pset (t ∷ ts) = add_taker_inputs (add_pset_input pset t.funding_utxo) ts

unfoldable pub add_order_inputs : Pset → List MakerOrderFill → Pset
add_order_inputs pset [] = pset
add_order_inputs pset (o ∷ os) = add_order_inputs (add_pset_input pset o.order_utxo) os

unfoldable pub add_taker_receives : Pset → List TakerFill → Pset
add_taker_receives pset [] = pset
add_taker_receives pset (t ∷ ts) =
    add_taker_receives
      (add_pset_output pset
        (explicit_txout t.receive_asset_id t.receive_amount t.receive_destination))
      ts

unfoldable pub add_maker_receives : Pset → List MakerOrderFill → Pset
add_maker_receives pset [] = pset
add_maker_receives pset (o ∷ os) =
    add_maker_receives
      (add_pset_output pset (
        explicit_txout (wanted_asset o.contract.params) o.maker_receive_amount
          o.maker_receive_script))
      os

-- The output of the remainder, if the last order is filled in part.
unfoldable pub add_remainder : Pset → List MakerOrderFill → Pset
add_remainder pset [] = pset
add_remainder pset (last ∷ []) =
    if last.is_partial
    then add_pset_output pset (
        explicit_txout (offered_asset last.contract.params) last.remainder_amount
          (last.contract.script_pubkey last.maker_base_pubkey))
    else pset
add_remainder pset (o ∷ next ∷ os) = add_remainder pset (next ∷ os)

unfoldable pub add_taker_changes : Pset → List TakerFill → Pset
add_taker_changes pset [] = pset
add_taker_changes pset (t ∷ ts) =
    add_taker_changes (add_change pset t.change_asset_id t.change_amount t.change_destination) ts

unfoldable pub build_fill_order_pset : FillOrderParams → Result Error Pset
build_fill_order_pset params = do
  fail_if (length params.takers == 0) (Error.pset "at least one taker is required")
  fail_if (length params.orders == 0) (Error.pset "at least one order is required")
  fail_if (ltb params.fee_utxo.value params.fee_amount) insufficient_fee
  partial_only_last params.orders
  validate_orders params.orders
  let pset = add_taker_inputs new_pset params.takers
  let pset = add_order_inputs pset params.orders
  let pset = add_pset_input pset params.fee_utxo
  let pset = add_taker_receives pset params.takers
  let pset = add_maker_receives pset params.orders
  let pset = add_remainder pset params.orders
  let pset = add_taker_changes pset params.takers
  let pset = add_pset_output pset (fee_txout params.fee_asset_id params.fee_amount)
  let fee_change = params.fee_utxo.value - params.fee_amount
  ok (add_change pset params.fee_asset_id fee_change params.fee_change_destination)
