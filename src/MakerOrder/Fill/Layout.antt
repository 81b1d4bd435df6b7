-- ===== src/MakerOrder/Fill/Layout.antt =====
-- The layout of the transaction that fills a batch of orders.
use deadcat.Prelude.{
  ℕ, ◌-◌, ◌≤◌, ◌≡◌, refl, ◌∙◌, ltb, ◌==◌, Option, none, some, List, [], ◌∷◌, ◌++◌, map, ok, length,
  All, arith, fail_if, >>=-eq-ok,
}
use mathlib.Core.List.{append_assoc}
use deadcat.Error.{insufficient_fee}
use deadcat.Pset.{
  Pset, Input, Output, new_pset, add_pset_input, add_pset_output, explicit_txout, fee_txout,
  add_change,
}
use deadcat.MakerOrder.Params.{wanted_asset}
use deadcat.MakerOrder.Fill.{
  TakerFill, MakerOrderFill, FillOrderParams, validate_order_fill, validate_orders,
  partial_only_last, add_taker_inputs, add_order_inputs, add_taker_receives, add_maker_receives,
  add_remainder, add_taker_changes, build_fill_order_pset,
}
use deadcat.MakerOrder.Fill.Batch.{
  paid_to, taker_receive, maker_receive, remainders, change_to, taker_changes, spend,
  outputs-add_taker_inputs, outputs-add_order_inputs, outputs-add_taker_receives,
  outputs-add_maker_receives, outputs-add_remainder, outputs-add_change, outputs-add_taker_changes,
  inputs-add_taker_inputs, inputs-add_order_inputs,
}

inputs-add_taker_receives :
    (p : Pset) (ts : List TakerFill) → (add_taker_receives p ts).inputs ≡ p.inputs
unfolding add_taker_receives add_pset_output
inputs-add_taker_receives p [] = refl
inputs-add_taker_receives p (t ∷ ts) =
    inputs-add_taker_receives
      (add_pset_output p (explicit_txout t.receive_asset_id t.receive_amount t.receive_destination))
      ts

inputs-add_maker_receives :
    (p : Pset) (os : List MakerOrderFill) → (add_maker_receives p os).inputs ≡ p.inputs
unfolding add_maker_receives add_pset_output
inputs-add_maker_receives p [] = refl
inputs-add_maker_receives p (o ∷ os) =
    inputs-add_maker_receives
      (add_pset_output p (
        explicit_txout (wanted_asset o.contract.params) o.maker_receive_amount
          o.maker_receive_script))
      os

inputs-add_remainder :
    (p : Pset) (os : List MakerOrderFill) → (add_remainder p os).inputs ≡ p.inputs
unfolding add_remainder add_pset_output
inputs-add_remainder p [] = refl
inputs-add_remainder p (o ∷ []) = ground arith
inputs-add_remainder p (o ∷ o' ∷ os) = inputs-add_remainder p (o' ∷ os)

inputs-add_change :
    (p : Pset) (asset : List ℕ) (change : ℕ) (dest : Option (List ℕ))
    → (add_change p asset change dest).inputs ≡ p.inputs
unfolding add_change add_pset_output
inputs-add_change p asset change none = refl
inputs-add_change p asset change (some spk) = ground arith

inputs-add_taker_changes :
    (p : Pset) (ts : List TakerFill) → (add_taker_changes p ts).inputs ≡ p.inputs
unfolding add_taker_changes
inputs-add_taker_changes p [] = refl
inputs-add_taker_changes p (t ∷ ts) =
    inputs-add_taker_changes (add_change p t.change_asset_id t.change_amount t.change_destination)
      ts
    ∙ inputs-add_change p t.change_asset_id t.change_amount t.change_destination

validate_orders-All :
    (os : List MakerOrderFill)
    → validate_orders os ≡ ok tt
    → All (λ o. validate_order_fill o ≡ ok tt) os
unfolding validate_orders
validate_orders-All [] h = tt
validate_orders-All (o ∷ os) h =
    let (u, now, later) = >>=-eq-ok (validate_order_fill o) _ h in
    (now, validate_orders-All os later)

module _ (params : FillOrderParams) where
  open params use {takers, orders, fee_utxo, fee_amount, fee_asset_id, fee_change_destination}

  -- The inputs of the transaction of a batch.
  abbrev pub batch_inputs : List Input
  batch_inputs =
      map (λ t. spend t.funding_utxo) takers
      ++ (map (λ o. spend o.order_utxo) orders ++ (spend fee_utxo ∷ []))

  -- Its outputs.
  abbrev pub batch_outputs : List Output
  batch_outputs =
      map taker_receive takers
      ++ (map maker_receive orders
          ++ (remainders orders
              ++ (taker_changes takers
                  ++ (paid_to fee_asset_id fee_amount []
                      ∷ change_to fee_asset_id (fee_utxo.value - fee_amount)
                          fee_change_destination))))

  -- The transaction before the takers' changes, and the whole of it.
  abbrev received : Pset
  received =
      let pset = add_taker_inputs new_pset takers in
      let pset = add_order_inputs pset orders in
      let pset = add_pset_input pset fee_utxo in
      let pset = add_taker_receives pset takers in
      let pset = add_maker_receives pset orders in add_remainder pset orders

  abbrev finished : Pset
  finished =
      let pset = add_taker_changes received takers in
      let pset = add_pset_output pset (fee_txout fee_asset_id fee_amount) in
      add_change pset fee_asset_id (fee_utxo.value - fee_amount) fee_change_destination

  finished-inputs : finished.inputs ≡ batch_inputs
  unfolding add_pset_output add_pset_input new_pset
  finished-inputs = simp (
    inputs-add_change, inputs-add_taker_changes, inputs-add_remainder, inputs-add_maker_receives,
    inputs-add_taker_receives, inputs-add_order_inputs, inputs-add_taker_inputs, append_assoc,
  )

  finished-outputs : partial_only_last orders ≡ ok tt → finished.outputs ≡ batch_outputs
  unfolding add_pset_output add_pset_input new_pset fee_txout explicit_txout
  finished-outputs only = simp (
    outputs-add_change,
    outputs-add_taker_changes,
    outputs-add_remainder _ orders only,
    outputs-add_maker_receives,
    outputs-add_taker_receives,
    outputs-add_order_inputs,
    outputs-add_taker_inputs,
    append_assoc,
  )

  -- A batch that is built has takers and orders, every order's fill is accepted, and a fee coin
  -- that covers the fee; the transaction spends the takers' coins, the orders and the fee coin in
  -- this order, and pays every taker and then every maker at the position of their input; the
  -- remainder, the takers' changes, the fee and its change follow.
  pub build_fill_order_pset-layout :
      {p : Pset}
      → build_fill_order_pset params ≡ ok p
      → (p.inputs ≡ batch_inputs)
        × (p.outputs ≡ batch_outputs)
        × All (λ o. validate_order_fill o ≡ ok tt) orders
        × (1 ≤ length takers)
        × (1 ≤ length orders)
        × (fee_amount ≤ fee_utxo.value)
  unfolding build_fill_order_pset
  build_fill_order_pset-layout {p} h =
      let (_, some_taker, h₁) = >>=-eq-ok (fail_if (length takers == 0) _) _ h in
      let (_, some_order, h₂) = >>=-eq-ok (fail_if (length orders == 0) _) _ h₁ in
      let (_, covered, h₃) =
        >>=-eq-ok (fail_if (ltb fee_utxo.value fee_amount) insufficient_fee) _ h₂ in
      let (_, only, h₄) = >>=-eq-ok (partial_only_last orders) _ h₃ in
      let (_, valid, h₅) = >>=-eq-ok (validate_orders orders) _ h₄ in
      let same : finished ≡ p = cc in
      (
        rw (← same) finished-inputs,
        rw (← same) (finished-outputs only),
        validate_orders-All orders valid,
        ground arith,
        ground arith,
        ground arith,
      )
