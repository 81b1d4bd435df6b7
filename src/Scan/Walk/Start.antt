-- ===== src/Scan/Walk/Start.antt =====
-- The bundle that the scan starts from against the covenant.
use deadcat.Prelude.{
  ok_or-eq-some, ◌≡◌, refl, sym, ap, ◌∙◌, subst, inl, inr, true, not, ◌||◌, some, List, [], ◌∷◌,
  Bytes, bytes_eq, bytes_eq→eq, Result, ok, any, ok_or, >>=-eq-ok, some_injective, Bool-cases,
  arith, String,
}
use deadcat.Pset.{TxOut}
use deadcat.Market.State.{MarketSlot, dormant_yes_rt, dormant_no_rt}
use deadcat.Market.Params.{PredictionMarketParams, CompiledPredictionMarket}
use deadcat.Scan.Anchor.{
  Text, PredictionMarketAnchor, ParsedDormantOutputOpening, parse_prediction_market_anchor,
}
use deadcat.Scan.Chain.{Transaction, TxIn, PredictionMarketScanBackend, canonical_slot_scripts}
use deadcat.Scan.Creation.{
  Elements, creation_outputs_valid, creation_tx_valid, validate_prediction_market_creation_tx,
  is_canonical_creation_input,
}
use deadcat.Scan.Transition.{Bundle}
use deadcat.Scan.Proper.{IsProper}
use deadcat.Scan.Walk.{dormant_start, first_bundle}

module _ (contract : CompiledPredictionMarket) where
  creation_scripts :
      (elements : Elements) (expected_yes expected_no ya yv na nv : Bytes) (os : List TxOut)
      → creation_outputs_valid elements contract expected_yes expected_no ya yv na nv os ≡ ok true
      → (y : TxOut) × (n : TxOut) × (rest : List TxOut) × (os ≡ y ∷ n ∷ rest)
        × (y.script_pubkey ≡ contract.script_pubkey dormant_yes_rt)
        × (n.script_pubkey ≡ contract.script_pubkey dormant_no_rt)
  unfolding creation_outputs_valid
  creation_scripts elements ey en ya yv na nv [] e = cc
  creation_scripts elements ey en ya yv na nv (y ∷ []) e = cc
  creation_scripts elements ey en ya yv na nv (y ∷ n ∷ rest) e =
      let yes_spk = contract.script_pubkey dormant_yes_rt in
      let no_spk = contract.script_pubkey dormant_no_rt in
      elim (Bool-cases
        (not (bytes_eq y.script_pubkey yes_spk) || not (bytes_eq n.script_pubkey no_spk))) [
          | inl bad ↦ (let failed = rw bad at e in cc)
          | inr good ↦ (
            y,
            n,
            rest,
            refl,
            bytes_eq→eq y.script_pubkey yes_spk (ground (arith, good)),
            bytes_eq→eq n.script_pubkey no_spk (ground (arith, good)),
          )
        ]

  creation_tx-scripts :
      (elements : Elements) (expected_yes expected_no : Bytes)
      (yes_opening no_opening : ParsedDormantOutputOpening) (is : List TxIn) (os : List TxOut)
      → creation_tx_valid elements contract expected_yes expected_no yes_opening no_opening is os
        ≡ ok true
      → (y : TxOut) × (n : TxOut) × (rest : List TxOut) × (os ≡ y ∷ n ∷ rest)
        × (y.script_pubkey ≡ contract.script_pubkey dormant_yes_rt)
        × (n.script_pubkey ≡ contract.script_pubkey dormant_no_rt)
  unfolding creation_tx_valid
  creation_tx-scripts elements ey en yo no' [] os e = cc
  creation_tx-scripts elements ey en yo no' (a ∷ []) os e = cc
  creation_tx-scripts elements ey en yo no' (a ∷ b ∷ others) os e =
      elim (Bool-cases (
        not (is_canonical_creation_input elements a ey)
        || not (is_canonical_creation_input elements b en))) [
          | inl bad ↦ (let failed = rw bad at e in cc)
          | inr good ↦ elim (Bool-cases (any (λ i. not i.is_null) others)) [
            | inl bad ↦ (let failed = rw (good, bad) at e in cc)
            | inr good' ↦
                creation_scripts elements ey en yo.asset_blinding_factor yo.value_blinding_factor
                  no'.asset_blinding_factor no'.value_blinding_factor os (rw (good, good') at e)
          ]
        ]

module _ (contract : CompiledPredictionMarket) where
  dormant_start-IsProper :
      (txid : Bytes) (os : List TxOut) (y n : TxOut) (rest : List TxOut) {b : Bundle}
      {scripts : List (MarketSlot × Bytes)}
      → os ≡ y ∷ n ∷ rest
      → y.script_pubkey ≡ contract.script_pubkey dormant_yes_rt
      → n.script_pubkey ≡ contract.script_pubkey dormant_no_rt
      → dormant_start txid (canonical_slot_scripts contract) os ≡ some (b, scripts)
      → (scripts ≡ canonical_slot_scripts contract) × IsProper contract b
  unfolding dormant_start
  dormant_start-IsProper txid os y n rest outputs yes_script no_script e =
      let built = some_injective (rw (outputs, dormant_start) at e) in
      (
        sym (ap (λ (p : Bundle × List (MarketSlot × Bytes)). p.1) built),
        subst (λ (p : Bundle × List (MarketSlot × Bytes)). IsProper contract p.0) built
            ((refl, yes_script, refl), (refl, no_script, refl)),
      )

module _ (text : Text) (elements : Elements)
    (compile : PredictionMarketParams → Result String CompiledPredictionMarket)
    (params : PredictionMarketParams) (anchor : PredictionMarketAnchor) where
  validate-scripts :
      (tx : Transaction)
      → validate_prediction_market_creation_tx text elements compile params tx anchor ≡ ok true
      → (contract : CompiledPredictionMarket) × (y : TxOut) × (n : TxOut) × (rest : List TxOut)
        × (compile params ≡ ok contract)
        × (tx.output ≡ y ∷ n ∷ rest)
        × (y.script_pubkey ≡ contract.script_pubkey dormant_yes_rt)
        × (n.script_pubkey ≡ contract.script_pubkey dormant_no_rt)
  unfolding validate_prediction_market_creation_tx
  validate-scripts tx e =
      let (parsed, _, e₁) = >>=-eq-ok (parse_prediction_market_anchor text anchor) _ e in
      let (contract, compiled, e₂) = >>=-eq-ok (compile params) _ e₁ in
      let (yes_id, _, e₃) =
        >>=-eq-ok
          (ok_or (elements.asset_from_slice params.yes_reissuance_token)
            "bad YES reissuance token id")
          _ e₂ in
      let (no_id, _, e₄) =
        >>=-eq-ok
          (ok_or (elements.asset_from_slice params.no_reissuance_token)
            "bad NO reissuance token id")
          _ e₃ in
      let (y, n, rest, outputs, yes_script, no_script) =
        creation_tx-scripts contract elements yes_id no_id parsed.yes_dormant_opening
          parsed.no_dormant_opening tx.input tx.output e₄ in
      (contract, y, n, rest, compiled, outputs, yes_script, no_script)

  pub first_bundle-IsProper :
      (backend : PredictionMarketScanBackend) {b : Bundle} {scripts : List (MarketSlot × Bytes)}
      → first_bundle text elements compile backend params anchor ≡ ok (b, scripts)
      → (contract : CompiledPredictionMarket) × (compile params ≡ ok contract)
        × (scripts ≡ canonical_slot_scripts contract)
        × IsProper contract b
  unfolding first_bundle
  first_bundle-IsProper backend {b = b} {scripts = scripts} e =
      let (parsed, _, e₁) = >>=-eq-ok (parse_prediction_market_anchor text anchor) _ e in
      let (tx, _, e₂) = >>=-eq-ok (backend.fetch_transaction parsed.creation_txid) _ e₁ in
      let (valid, checked, e₃) =
        >>=-eq-ok (validate_prediction_market_creation_tx text elements compile params tx anchor) _
          e₂ in
      elim (Bool-cases valid) [
        | inr bad ↦ (let failed = rw bad at e₃ in cc)
        | inl good ↦
            let (contract, y, n, rest, compiled, outputs, yes_script, no_script) =
              validate-scripts tx (checked ∙ ap ok good) in
            let start =
              dormant_start parsed.creation_txid (canonical_slot_scripts contract) tx.output in
            let built : ok_or start "creation tx missing dormant output" ≡ ok (b, scripts) =
              rw (good, compiled) at e₃ in
            let (same, proper) =
              dormant_start-IsProper contract parsed.creation_txid tx.output y n rest outputs
                yes_script no_script (ok_or-eq-some start _ built) in
            (contract, compiled, same, proper)
      ]
