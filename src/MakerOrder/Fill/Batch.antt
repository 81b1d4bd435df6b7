-- ===== src/MakerOrder/Fill/Batch.antt =====
-- The transaction that fills a batch of orders: takers first, then the makers, one output for each
-- of their inputs.
use deadcat.Prelude.{
  ℕ, ◌≡◌, refl, ap, sym, ◌∙◌, false, ltb, if◌then◌else◌, Option, none, some, List, [], ◌∷◌, ◌++◌,
  map, Bytes, ok, arith, fail_if, >>=-eq-ok, Bool-cases, inl, inr,
}
use deadcat.Error.{partial_fill_not_last}
use mathlib.Core.List.{append_assoc, append-nil}
use deadcat.Pset.{
  Pset, Input, Output, UnblindedUtxo, add_pset_input, add_pset_output, explicit_txout, add_change,
  enable_locktime_no_rbf,
}
use deadcat.MakerOrder.Params.{wanted_asset, offered_asset}
use deadcat.MakerOrder.Fill.{
  TakerFill, MakerOrderFill, partial_only_last, add_taker_inputs, add_order_inputs,
  add_taker_receives, add_maker_receives, add_remainder, add_taker_changes,
}

-- The output that pays `amount` of an asset to a script.
abbrev pub paid_to : Bytes → ℕ → Bytes → Output
paid_to asset amount script = record {
  amount = some amount;
  asset = some asset;
  script_pubkey = script;
}

abbrev pub taker_receive : TakerFill → Output
taker_receive t = paid_to t.receive_asset_id t.receive_amount t.receive_destination

abbrev pub maker_receive : MakerOrderFill → Output
maker_receive o =
    paid_to (wanted_asset o.contract.params) o.maker_receive_amount o.maker_receive_script

abbrev pub order_remainder : MakerOrderFill → Output
order_remainder o =
    paid_to (offered_asset o.contract.params) o.remainder_amount
      (o.contract.script_pubkey o.maker_base_pubkey)

-- The remainder outputs of the orders that are filled in part.
abbrev pub remainders : List MakerOrderFill → List Output
remainders [] = []
remainders (o ∷ os) = if o.is_partial then order_remainder o ∷ remainders os else remainders os

abbrev pub change_to : Bytes → ℕ → Option Bytes → List Output
change_to asset change none = []
change_to asset change (some spk) = if ltb 0 change then paid_to asset change spk ∷ [] else []

abbrev pub taker_changes : List TakerFill → List Output
taker_changes [] = []
taker_changes (t ∷ ts) =
    change_to t.change_asset_id t.change_amount t.change_destination ++ taker_changes ts

-- The input that spends a coin.
abbrev pub spend : UnblindedUtxo → Input
spend utxo = record {
  previous_output = utxo.outpoint;
  witness_utxo = some utxo.txout;
  sequence = some enable_locktime_no_rbf;
  issuance_value_amount = none;
  issuance_blinding_nonce = none;
  issuance_asset_entropy = none;
  issuance_inflation_keys = none;
}

pub outputs-add_taker_inputs :
    (p : Pset) (ts : List TakerFill) → (add_taker_inputs p ts).outputs ≡ p.outputs
unfolding add_taker_inputs add_pset_input
outputs-add_taker_inputs p [] = refl
outputs-add_taker_inputs p (t ∷ ts) = outputs-add_taker_inputs (add_pset_input p t.funding_utxo) ts

pub outputs-add_order_inputs :
    (p : Pset) (os : List MakerOrderFill) → (add_order_inputs p os).outputs ≡ p.outputs
unfolding add_order_inputs add_pset_input
outputs-add_order_inputs p [] = refl
outputs-add_order_inputs p (o ∷ os) = outputs-add_order_inputs (add_pset_input p o.order_utxo) os

pub outputs-add_taker_receives :
    (p : Pset) (ts : List TakerFill)
    → (add_taker_receives p ts).outputs ≡ p.outputs ++ map taker_receive ts
unfolding add_taker_receives add_pset_output explicit_txout
outputs-add_taker_receives p [] = sym (append-nil p.outputs)
outputs-add_taker_receives p (t ∷ ts) =
    outputs-add_taker_receives
      (add_pset_output p (explicit_txout t.receive_asset_id t.receive_amount t.receive_destination))
      ts
    ∙ append_assoc p.outputs (taker_receive t ∷ []) (map taker_receive ts)

pub outputs-add_maker_receives :
    (p : Pset) (os : List MakerOrderFill)
    → (add_maker_receives p os).outputs ≡ p.outputs ++ map maker_receive os
unfolding add_maker_receives add_pset_output explicit_txout
outputs-add_maker_receives p [] = sym (append-nil p.outputs)
outputs-add_maker_receives p (o ∷ os) =
    outputs-add_maker_receives
      (add_pset_output p (
        explicit_txout (wanted_asset o.contract.params) o.maker_receive_amount
          o.maker_receive_script))
      os
    ∙ append_assoc p.outputs (maker_receive o ∷ []) (map maker_receive os)

pub outputs-add_remainder :
    (p : Pset) (os : List MakerOrderFill)
    → partial_only_last os ≡ ok tt
    → (add_remainder p os).outputs ≡ p.outputs ++ remainders os
unfolding add_remainder partial_only_last add_pset_output explicit_txout
outputs-add_remainder p [] h = sym (append-nil p.outputs)
outputs-add_remainder p (o ∷ []) h = elim (Bool-cases o.is_partial) [
  | inl some_left ↦ rw some_left refl
  | inr none_left ↦ rw none_left (sym (append-nil p.outputs))
]
outputs-add_remainder p (o ∷ o' ∷ os) h =
    let (_, whole, h') = >>=-eq-ok (fail_if o.is_partial partial_fill_not_last) _ h in
    let none_left : o.is_partial ≡ false = ground arith in
    rw none_left (outputs-add_remainder p (o' ∷ os) h')

pub outputs-add_change :
    (p : Pset) (asset : Bytes) (change : ℕ) (dest : Option Bytes)
    → (add_change p asset change dest).outputs ≡ p.outputs ++ change_to asset change dest
unfolding add_change add_pset_output explicit_txout
outputs-add_change p asset change none = sym (append-nil p.outputs)
outputs-add_change p asset change (some spk) = elim (Bool-cases (ltb 0 change)) [
  | inl more ↦ rw more refl
  | inr less ↦ rw less (sym (append-nil p.outputs))
]

pub outputs-add_taker_changes :
    (p : Pset) (ts : List TakerFill)
    → (add_taker_changes p ts).outputs ≡ p.outputs ++ taker_changes ts
unfolding add_taker_changes
outputs-add_taker_changes p [] = sym (append-nil p.outputs)
outputs-add_taker_changes p (t ∷ ts) =
    let change = change_to t.change_asset_id t.change_amount t.change_destination in
    outputs-add_taker_changes (add_change p t.change_asset_id t.change_amount t.change_destination)
      ts
    ∙ ap (λ os. os ++ taker_changes ts)
        (outputs-add_change p t.change_asset_id t.change_amount t.change_destination)
    ∙ append_assoc p.outputs change (taker_changes ts)

pub inputs-add_taker_inputs :
    (p : Pset) (ts : List TakerFill)
    → (add_taker_inputs p ts).inputs ≡ p.inputs ++ map (λ t. spend t.funding_utxo) ts
unfolding add_taker_inputs add_pset_input
inputs-add_taker_inputs p [] = sym (append-nil p.inputs)
inputs-add_taker_inputs p (t ∷ ts) =
    inputs-add_taker_inputs (add_pset_input p t.funding_utxo) ts
    ∙ append_assoc p.inputs (spend t.funding_utxo ∷ []) (map (λ t. spend t.funding_utxo) ts)

pub inputs-add_order_inputs :
    (p : Pset) (os : List MakerOrderFill)
    → (add_order_inputs p os).inputs ≡ p.inputs ++ map (λ o. spend o.order_utxo) os
unfolding add_order_inputs add_pset_input
inputs-add_order_inputs p [] = sym (append-nil p.inputs)
inputs-add_order_inputs p (o ∷ os) =
    inputs-add_order_inputs (add_pset_input p o.order_utxo) os
    ∙ append_assoc p.inputs (spend o.order_utxo ∷ []) (map (λ o. spend o.order_utxo) os)
