-- ===== src/Market/Pset/Issue.antt =====
-- prediction_market/pset: creation.rs, initial_issuance.rs and issuance.rs.
use deadcat.Prelude.{
  ℕ, ◌-◌, not, ◌&&◌, ltb, Option, some, Bytes, Result, ok, fail_if, ok_or, ◌>>=◌, ◌>>◌, checked_add,
  checked_mul, saturating_sub, is_some,
}
use deadcat.Error.{Error, collateral_overflow, insufficient_collateral, insufficient_fee, blinding}
use deadcat.Pset.{
  UnblindedUtxo, Input, Pset, new_pset, explicit_txout, fee_txout, reissuance_token_output,
  add_pset_input, add_pset_output, add_change, modify_input,
}
use deadcat.Market.State.{
  dormant_yes_rt, dormant_no_rt, unresolved_yes_rt, unresolved_no_rt, unresolved_collateral,
}
use deadcat.Market.Params.{CompiledPredictionMarket}

-- `pairs.checked_mul(2).and_then(|v| v.checked_mul(cpt)).ok_or(Error::CollateralOverflow)`
unfoldable pub collateral_for_pairs : ℕ → ℕ → Result Error ℕ
collateral_for_pairs pairs cpt = do
  v ← ok_or (checked_mul pairs 2) collateral_overflow
  ok_or (checked_mul v cpt) collateral_overflow

pub record CreationParams : Type 0 where
  pub yes_defining_utxo : UnblindedUtxo
  pub no_defining_utxo : UnblindedUtxo
  pub fee_amount : ℕ
  pub change_destination : Option Bytes
  pub lock_time : ℕ

abbrev pub issue_reissuance_token : Input → Input
issue_reissuance_token input = record input { issuance_inflation_keys = some 1 }

unfoldable pub build_creation_pset : CompiledPredictionMarket → CreationParams → Result Error Pset
build_creation_pset contract params = do
  combined_value ←
      ok_or (checked_add params.yes_defining_utxo.value params.no_defining_utxo.value)
        collateral_overflow
  fail_if (ltb combined_value params.fee_amount) insufficient_fee
  let pset = add_pset_input new_pset params.yes_defining_utxo
  let pset = add_pset_input pset params.no_defining_utxo
  let pset = modify_input pset 0 issue_reissuance_token
  let pset = modify_input pset 1 issue_reissuance_token
  let pset = add_pset_output pset (reissuance_token_output (contract.script_pubkey dormant_yes_rt))
  let pset = add_pset_output pset (reissuance_token_output (contract.script_pubkey dormant_no_rt))
  let pset = add_pset_output pset (fee_txout contract.params.collateral_asset_id params.fee_amount)
  let change = combined_value - params.fee_amount
  fail_if (ltb 0 change && not (is_some params.change_destination))
      (blinding "prediction market creation requires a change destination when change is present")
  let pset = add_change pset contract.params.collateral_asset_id change params.change_destination
  ok (record pset { fallback_locktime = some params.lock_time })

-- `input.issuance_value_amount = Some(pairs)` and the two fields after it
abbrev pub reissue : ℕ → Bytes → Bytes → Input → Input
reissue pairs nonce entropy input = record input {
  issuance_value_amount = some pairs;
  issuance_blinding_nonce = some nonce;
  issuance_asset_entropy = some entropy;
}

pub record InitialIssuanceParams : Type 0 where
  pub yes_reissuance_utxo : UnblindedUtxo
  pub no_reissuance_utxo : UnblindedUtxo
  pub collateral_utxo : UnblindedUtxo
  pub fee_utxo : UnblindedUtxo
  pub pairs : ℕ
  pub fee_amount : ℕ
  pub yes_token_destination : Bytes
  pub no_token_destination : Bytes
  pub collateral_change_destination : Option Bytes
  pub fee_change_destination : Option Bytes
  pub yes_issuance_blinding_nonce : Bytes
  pub yes_issuance_asset_entropy : Bytes
  pub no_issuance_blinding_nonce : Bytes
  pub no_issuance_asset_entropy : Bytes
  pub lock_time : ℕ

unfoldable pub build_initial_issuance_pset :
    CompiledPredictionMarket → InitialIssuanceParams → Result Error Pset
build_initial_issuance_pset contract params = do
  required_collateral ← collateral_for_pairs params.pairs contract.params.collateral_per_token
  fail_if (ltb params.collateral_utxo.value required_collateral) insufficient_collateral
  let pset = add_pset_input new_pset params.yes_reissuance_utxo
  let pset = add_pset_input pset params.no_reissuance_utxo
  let pset = add_pset_input pset params.collateral_utxo
  let pset = add_pset_input pset params.fee_utxo
  let pset =
      modify_input pset 0
        (reissue params.pairs params.yes_issuance_blinding_nonce params.yes_issuance_asset_entropy)
  let pset =
      modify_input pset 1
        (reissue params.pairs params.no_issuance_blinding_nonce params.no_issuance_asset_entropy)
  let pset =
      add_pset_output pset (reissuance_token_output (contract.script_pubkey unresolved_yes_rt))
  let pset =
      add_pset_output pset (reissuance_token_output (contract.script_pubkey unresolved_no_rt))
  let pset = add_pset_output pset (
      explicit_txout contract.params.collateral_asset_id required_collateral
        (contract.script_pubkey unresolved_collateral))
  let pset =
      add_pset_output pset
        (explicit_txout contract.params.yes_token_asset params.pairs params.yes_token_destination)
  let pset =
      add_pset_output pset
        (explicit_txout contract.params.no_token_asset params.pairs params.no_token_destination)
  let pset = add_pset_output pset (fee_txout contract.params.collateral_asset_id params.fee_amount)
  let change = params.collateral_utxo.value - required_collateral
  let pset =
      add_change pset contract.params.collateral_asset_id change
        params.collateral_change_destination
  let fee_change = saturating_sub params.fee_utxo.value params.fee_amount
  let pset =
      add_change pset contract.params.collateral_asset_id fee_change params.fee_change_destination
  ok (record pset { fallback_locktime = some params.lock_time })

pub record SubsequentIssuanceParams : Type 0 where
  pub yes_reissuance_utxo : UnblindedUtxo
  pub no_reissuance_utxo : UnblindedUtxo
  pub collateral_utxo : UnblindedUtxo
  pub new_collateral_utxo : UnblindedUtxo
  pub fee_utxo : UnblindedUtxo
  pub pairs : ℕ
  pub fee_amount : ℕ
  pub yes_token_destination : Bytes
  pub no_token_destination : Bytes
  pub collateral_change_destination : Option Bytes
  pub fee_change_destination : Option Bytes
  pub yes_issuance_blinding_nonce : Bytes
  pub yes_issuance_asset_entropy : Bytes
  pub no_issuance_blinding_nonce : Bytes
  pub no_issuance_asset_entropy : Bytes
  pub lock_time : ℕ

unfoldable pub build_subsequent_issuance_pset :
    CompiledPredictionMarket → SubsequentIssuanceParams → Result Error Pset
build_subsequent_issuance_pset contract params = do
  new_collateral ← collateral_for_pairs params.pairs contract.params.collateral_per_token
  total_collateral ←
      ok_or (checked_add params.collateral_utxo.value new_collateral) collateral_overflow
  fail_if (ltb params.new_collateral_utxo.value new_collateral) insufficient_collateral
  let pset = add_pset_input new_pset params.yes_reissuance_utxo
  let pset = add_pset_input pset params.no_reissuance_utxo
  let pset = add_pset_input pset params.collateral_utxo
  let pset = add_pset_input pset params.new_collateral_utxo
  let pset = add_pset_input pset params.fee_utxo
  let pset =
      modify_input pset 0
        (reissue params.pairs params.yes_issuance_blinding_nonce params.yes_issuance_asset_entropy)
  let pset =
      modify_input pset 1
        (reissue params.pairs params.no_issuance_blinding_nonce params.no_issuance_asset_entropy)
  let pset =
      add_pset_output pset (reissuance_token_output (contract.script_pubkey unresolved_yes_rt))
  let pset =
      add_pset_output pset (reissuance_token_output (contract.script_pubkey unresolved_no_rt))
  let pset = add_pset_output pset (
      explicit_txout contract.params.collateral_asset_id total_collateral
        (contract.script_pubkey unresolved_collateral))
  let pset =
      add_pset_output pset
        (explicit_txout contract.params.yes_token_asset params.pairs params.yes_token_destination)
  let pset =
      add_pset_output pset
        (explicit_txout contract.params.no_token_asset params.pairs params.no_token_destination)
  let pset = add_pset_output pset (fee_txout contract.params.collateral_asset_id params.fee_amount)
  let change = params.new_collateral_utxo.value - new_collateral
  let pset =
      add_change pset contract.params.collateral_asset_id change
        params.collateral_change_destination
  let fee_change = saturating_sub params.fee_utxo.value params.fee_amount
  let pset =
      add_change pset contract.params.collateral_asset_id fee_change params.fee_change_destination
  ok (record pset { fallback_locktime = some params.lock_time })
