-- ===== src/Scan/Creation.antt =====
-- prediction_market_scan.rs: whether a transaction creates the market of some parameters. Asset
-- identifiers, generators and commitments come from other crates: they are the fields of `Elements`;
-- `compile` is `CompiledPredictionMarket::new`, which calls the SimplicityHL compiler.
use deadcat.Prelude.{
  ℕ, Bool, true, false, not, ◌&&◌, ◌||◌, ◌==◌, if◌then◌else◌, Option, none, some, List, [], ◌∷◌,
  Bytes, bytes_eq, any, Result, ok, ok_or, ◌>>=◌, String,
}
use deadcat.Pset.{zero_bytes, OutPoint, TxOut, Asset, Value, Nonce}
use deadcat.Market.State.{MarketSlot, dormant_yes_rt, dormant_no_rt}
use deadcat.Market.Params.{PredictionMarketParams, CompiledPredictionMarket}
use deadcat.Scan.Anchor.{
  Text, PredictionMarketAnchor, ParsedDormantOutputOpening, parse_prediction_market_anchor,
}
use deadcat.Scan.Chain.{TxIn, Transaction, canonical_slot_scripts}

pub record Elements : Type 0 where
  pub generate_asset_entropy : OutPoint → Bytes → Bytes
  pub reissuance_token_from_entropy : Bytes → Bool → Bytes
  pub asset_from_slice : Bytes → Option Bytes
  pub tweak_from_slice : Bytes → Option Bytes
  pub blinded_generator : Bytes → Bytes → Bytes
  pub pedersen_commitment : ℕ → Bytes → Bytes → Bytes

abbrev pub is_null_value : Value → Bool
is_null_value Value.null = true
is_null_value _ = false

abbrev pub is_explicit_one : Value → Bool
is_explicit_one (Value.explicit v) = v == 1
is_explicit_one _ = false

abbrev pub is_dormant_slot : MarketSlot → Bool
is_dormant_slot dormant_yes_rt = true
is_dormant_slot dormant_no_rt = true
is_dormant_slot _ = false

-- The generator and the commitment of an output that is confidential throughout.
abbrev pub confidential_parts : Asset → Value → Nonce → Option (Bytes × Bytes)
confidential_parts (Asset.confidential generator) (Value.confidential commitment)
      (Nonce.confidential n) =
    some (generator, commitment)
confidential_parts _ _ _ = none

-- Whether a script belongs to the covenant, dormant slots apart.
unfoldable pub pays_covenant : List (MarketSlot × Bytes) → Bytes → Bool
pays_covenant [] script = false
pays_covenant ((slot, spk) ∷ slot_scripts) script =
    bytes_eq script spk && not (is_dormant_slot slot) || pays_covenant slot_scripts script

-- The loop over the outputs from the third on.
unfoldable pub no_other_covenant : List (MarketSlot × Bytes) → Bytes → Bytes → List TxOut → Bool
no_other_covenant slot_scripts yes_spk no_spk [] = true
no_other_covenant slot_scripts yes_spk no_spk (txout ∷ txouts) =
    let rest = no_other_covenant slot_scripts yes_spk no_spk txouts in
    let script = txout.script_pubkey in
    if pays_covenant slot_scripts script
    then false
    else if bytes_eq script yes_spk || bytes_eq script no_spk
    then false
    else rest

module _ (elements : Elements) where
  open elements use {
    generate_asset_entropy, reissuance_token_from_entropy, tweak_from_slice, blinded_generator,
    pedersen_commitment,
  }

  unfoldable pub is_canonical_creation_input : TxIn → Bytes → Bool
  is_canonical_creation_input txin expected_token =
      let issuance = txin.asset_issuance in
      if txin.is_null
        || not (bytes_eq issuance.asset_blinding_nonce (zero_bytes 32))
        || not (bytes_eq issuance.asset_entropy (zero_bytes 32))
        || not (is_null_value issuance.amount)
        || not (is_explicit_one issuance.inflation_keys)
      then false
      else bytes_eq
          (reissuance_token_from_entropy
            (generate_asset_entropy txin.previous_output (zero_bytes 32)) false)
          expected_token

  unfoldable pub matches_confidential_dormant_creation_output :
      TxOut → Bytes → Bytes → Bytes → Bytes → Result String Bool
  matches_confidential_dormant_creation_output txout expected_script expected_asset
        asset_blinding_factor value_blinding_factor =
      if not (bytes_eq txout.script_pubkey expected_script)
      then ok false
      else elim (confidential_parts txout.asset txout.value txout.nonce) [
        | none ↦ ok false
        | some (generator, commitment) ↦ (do
          asset_tweak ←
              ok_or (tweak_from_slice asset_blinding_factor) "invalid dormant asset blinding factor"
          let expected_generator = blinded_generator expected_asset asset_tweak
          value_tweak ←
              ok_or (tweak_from_slice value_blinding_factor) "invalid dormant value blinding factor"
          let expected_commitment = pedersen_commitment 1 value_tweak expected_generator
          ok (bytes_eq generator expected_generator && bytes_eq commitment expected_commitment))
      ]

  -- The outputs of a transaction whose inputs create the two tokens.
  unfoldable pub creation_outputs_valid :
      CompiledPredictionMarket
      → (expected_yes expected_no : Bytes)
      → (yes_asset_factor yes_value_factor no_asset_factor no_value_factor : Bytes) → List TxOut
      → Result String Bool
  creation_outputs_valid compiled expected_yes expected_no yes_asset_factor yes_value_factor
        no_asset_factor no_value_factor (yes_output ∷ no_output ∷ others) =
      let yes_spk = compiled.script_pubkey dormant_yes_rt in
      let no_spk = compiled.script_pubkey dormant_no_rt in
      if not (bytes_eq yes_output.script_pubkey yes_spk)
        || not (bytes_eq no_output.script_pubkey no_spk)
      then ok false
      else (do
        yes_matches ←
            matches_confidential_dormant_creation_output yes_output yes_spk expected_yes
              yes_asset_factor yes_value_factor
        (if not yes_matches then ok false else (do
          no_matches ←
              matches_confidential_dormant_creation_output no_output no_spk expected_no
                no_asset_factor no_value_factor
          (if not no_matches
              then ok false
              else ok
                  (no_other_covenant (canonical_slot_scripts compiled) yes_spk no_spk others)))))
  creation_outputs_valid compiled expected_yes expected_no ya yv na nv _ = ok false

  -- The inputs, and then the outputs.
  unfoldable pub creation_tx_valid :
      CompiledPredictionMarket
      → (expected_yes expected_no : Bytes) → (yes_opening no_opening : ParsedDormantOutputOpening)
      → List TxIn
      → List TxOut
      → Result String Bool
  creation_tx_valid compiled expected_yes expected_no yes_opening no_opening
        (yes_input ∷ no_input ∷ others) outputs =
      if not (is_canonical_creation_input yes_input expected_yes)
        || not (is_canonical_creation_input no_input expected_no)
      then ok false
      else if any (λ i. not i.is_null) others
      then ok false
      else creation_outputs_valid compiled expected_yes expected_no
          yes_opening.asset_blinding_factor yes_opening.value_blinding_factor
          no_opening.asset_blinding_factor no_opening.value_blinding_factor outputs
  creation_tx_valid compiled expected_yes expected_no yes_opening no_opening _ outputs = ok false

module _ (text : Text) (elements : Elements)
    (compile : PredictionMarketParams → Result String CompiledPredictionMarket) where
  unfoldable pub validate_prediction_market_creation_tx :
      PredictionMarketParams → Transaction → PredictionMarketAnchor → Result String Bool
  validate_prediction_market_creation_tx params tx anchor = do
    parsed_anchor ← parse_prediction_market_anchor text anchor
    compiled ← compile params
    expected_yes ←
        ok_or (elements.asset_from_slice params.yes_reissuance_token) "bad YES reissuance token id"
    expected_no ←
        ok_or (elements.asset_from_slice params.no_reissuance_token) "bad NO reissuance token id"
    creation_tx_valid elements compiled expected_yes expected_no parsed_anchor.yes_dormant_opening
        parsed_anchor.no_dormant_opening tx.input tx.output
