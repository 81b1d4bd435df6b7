-- ===== src/Trade/Assembly/Outputs.antt =====
-- The outputs of the combined transaction: the numbered ones, and those for the taker behind them.
use deadcat.Prelude.{
  ℕ, zero, suc, ◌-◌, ◌≡◌, refl, sym, ap, ◌∙◌, subst, inl, inr, ltb, Option, none, some, List, [],
  ◌∷◌, ◌++◌, map, Bytes, get_elem?, ok, >>=-eq-ok, ok_injective, some_injective, Bool-cases,
  Extends, Extends-refl, Extends-trans,
}
use mathlib.Core.List.{append_assoc, append-nil}
use deadcat.Pset.{
  TxOut, Output, Pset, add_pset_output, explicit_asset, explicit_value, explicit_txout, fee_txout,
}
use deadcat.Trade.Assembly.Prefixes.{dense_outputs-output_at}
use deadcat.Trade.Assembly.{
  TradePsetParams, Prefix, output_at, dense_outputs, add_outputs, add_required_change,
  taker_outputs, total_value,
}

-- The output that an explicit amount of an asset becomes.
abbrev pub as_output : TxOut → Output
as_output t = record {
  amount = explicit_value t.value;
  asset = explicit_asset t.asset;
  script_pubkey = t.script_pubkey;
}

-- The output at index `k` is `t`.
abbrev pub IsAt : Pset → ℕ → TxOut → Type 0
IsAt pset k t = get_elem? pset.outputs k ≡ some (as_output t)

get_elem?-map :
    (ts : List TxOut) (k : ℕ) {t : TxOut}
    → get_elem? ts k ≡ some t
    → get_elem? (map as_output ts) k ≡ some (as_output t)
get_elem?-map [] k h = cc
get_elem?-map (s ∷ ts) zero h = ap (λ u. some (as_output u)) (some_injective h)
get_elem?-map (s ∷ ts) (suc k) h = get_elem?-map ts k h

pub outputs-add_outputs :
    (pset : Pset) (ts : List TxOut)
    → ((add_outputs pset ts).outputs ≡ pset.outputs ++ map as_output ts)
      × ((add_outputs pset ts).inputs ≡ pset.inputs)
unfolding add_outputs add_pset_output
outputs-add_outputs pset [] = (sym (append-nil pset.outputs), refl)
outputs-add_outputs pset (t ∷ ts) =
    let (outs, ins) = outputs-add_outputs (add_pset_output pset t) ts in
    (outs ∙ append_assoc pset.outputs (as_output t ∷ []) (map as_output ts), ins)

-- The numbered outputs are the first ones.
pub add_outputs-IsAt :
    (pset : Pset) (m : Prefix) (ts : List TxOut) (k : ℕ) (t : TxOut)
    → pset.outputs ≡ []
    → dense_outputs m ≡ ok ts
    → output_at k m ≡ some t
    → IsAt (add_outputs pset ts) k t
add_outputs-IsAt pset m ts k t no_outputs dense at =
    let all_new : (add_outputs pset ts).outputs ≡ map as_output ts =
      (outputs-add_outputs pset ts).0 ∙ ap (λ l. l ++ map as_output ts) no_outputs in
    subst (λ l. get_elem? l k ≡ some (as_output t)) (sym all_new)
      (get_elem?-map ts k (dense_outputs-output_at m k dense at))

-- What is added for the taker comes behind.
abbrev Grows : Pset → Pset → Type 0
Grows p q = Extends p.outputs q.outputs × (q.inputs ≡ p.inputs)

add_required_change-Grows :
    (destination : Option Bytes) (asset_id : Bytes) (change : ℕ) (pset : Pset) (blind : List ℕ)
    (output_idx : ℕ) {r : Pset × List ℕ × ℕ}
    → add_required_change destination asset_id change (pset, blind, output_idx) ≡ ok r
    → Grows pset r.0
unfolding add_required_change add_pset_output
add_required_change-Grows none asset_id change pset blind output_idx e =
    elim (Bool-cases (ltb 0 change)) [
      | inl some_change ↦ (let failed = rw some_change at e in cc)
      | inr no_change ↦
          subst (λ (r : Pset × List ℕ × ℕ). Grows pset r.0) (ok_injective (rw no_change at e))
            (Extends-refl pset.outputs, refl)
    ]
add_required_change-Grows (some spk) asset_id change pset blind output_idx e =
    elim (Bool-cases (ltb 0 change)) [
      | inl some_change ↦
          subst (λ (r : Pset × List ℕ × ℕ). Grows pset r.0) (ok_injective (rw some_change at e))
            ((_, refl), refl)
      | inr no_change ↦
          subst (λ (r : Pset × List ℕ × ℕ). Grows pset r.0) (ok_injective (rw no_change at e))
            (Extends-refl pset.outputs, refl)
    ]

Grows-trans : (p q r : Pset) → Grows p q → Grows q r → Grows p r
Grows-trans p q r (more, same) (more', same') =
    (Extends-trans p.outputs q.outputs r.outputs more more', same' ∙ same)

add_pset_output-Grows : (p : Pset) (t : TxOut) → Grows p (add_pset_output p t)
unfolding add_pset_output
add_pset_output-Grows p t = ((_, refl), refl)

pub taker_outputs-Grows :
    (params : TradePsetParams) (pset : Pset) (output_idx : ℕ) {r : Pset × List ℕ}
    → taker_outputs params pset output_idx ≡ ok r
    → Extends pset.outputs r.0.outputs × (r.0.inputs ≡ pset.inputs)
unfolding taker_outputs
taker_outputs-Grows params pset output_idx e =
    let taker_total = total_value params.taker_funding_utxos in
    let receive =
      explicit_txout params.plan.taker_receive_asset params.plan.total_taker_output
        params.taker_receive_destination in
    let received = add_pset_output pset receive in
    let (changed, ran, e₁) =
      >>=-eq-ok
        (add_required_change params.taker_change_destination params.plan.taker_send_asset
          (taker_total - params.plan.total_taker_input) (received, output_idx ∷ [], suc output_idx))
        _ e in
    let fee = fee_txout params.fee_asset_id params.fee_amount in
    let paid = add_pset_output changed.0 fee in
    let (done, ran', e₂) =
      >>=-eq-ok
        (add_required_change params.taker_change_destination params.fee_asset_id
          (params.fee_utxo.value - params.fee_amount) (paid, changed.1, suc changed.2))
        _ e₁ in
    let g₁ = add_pset_output-Grows pset receive in
    let g₂ =
      add_required_change-Grows params.taker_change_destination params.plan.taker_send_asset
        (taker_total - params.plan.total_taker_input) received (output_idx ∷ []) (suc output_idx)
        ran in
    let g₃ = add_pset_output-Grows changed.0 fee in
    let g₄ =
      add_required_change-Grows params.taker_change_destination params.fee_asset_id
        (params.fee_utxo.value - params.fee_amount) paid changed.1 (suc changed.2) ran' in
    let whole =
      Grows-trans pset received done.0 g₁
        (Grows-trans received changed.0 done.0 g₂ (Grows-trans changed.0 paid done.0 g₃ g₄)) in
    subst (λ (r : Pset × List ℕ). Grows pset r.0) (ok_injective e₂) whole
