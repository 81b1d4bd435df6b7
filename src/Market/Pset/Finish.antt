-- ===== src/Market/Pset/Finish.antt =====
-- prediction_market/pset: oracle_resolve.rs and expire_transition.rs. Neither can fail.
use deadcat.Prelude.{ℕ, Bool, Option, some, Bytes, saturating_sub, if◌then◌else◌}
use deadcat.Pset.{
  UnblindedUtxo, Pset, new_pset, explicit_txout, fee_txout, burn_txout, add_pset_input,
  add_pset_output, add_change,
}
use deadcat.Market.State.{resolved_yes_collateral, resolved_no_collateral, expired_collateral}
use deadcat.Market.Params.{CompiledPredictionMarket}

pub record OracleResolveParams : Type 0 where
  pub yes_reissuance_utxo : UnblindedUtxo
  pub no_reissuance_utxo : UnblindedUtxo
  pub collateral_utxo : UnblindedUtxo
  pub fee_utxo : UnblindedUtxo
  pub outcome_yes : Bool
  pub fee_amount : ℕ
  pub fee_change_destination : Option Bytes
  pub lock_time : ℕ

unfoldable pub build_oracle_resolve_pset : CompiledPredictionMarket → OracleResolveParams → Pset
build_oracle_resolve_pset contract params =
    let collateral_slot =
      if params.outcome_yes then resolved_yes_collateral else resolved_no_collateral in
    let collateral_spk = contract.script_pubkey collateral_slot in
    let pset = add_pset_input new_pset params.yes_reissuance_utxo in
    let pset = add_pset_input pset params.no_reissuance_utxo in
    let pset = add_pset_input pset params.collateral_utxo in
    let pset = add_pset_input pset params.fee_utxo in
    let pset = add_pset_output pset (burn_txout contract.params.yes_reissuance_token 1) in
    let pset = add_pset_output pset (burn_txout contract.params.no_reissuance_token 1) in
    let pset = add_pset_output pset (
      explicit_txout contract.params.collateral_asset_id params.collateral_utxo.value
        collateral_spk) in
    let fee_change = saturating_sub params.fee_utxo.value params.fee_amount in
    let pset =
      add_change pset contract.params.collateral_asset_id fee_change
        params.fee_change_destination in
    let pset =
      add_pset_output pset (fee_txout contract.params.collateral_asset_id params.fee_amount) in
    record pset { fallback_locktime = some params.lock_time }

pub record ExpireTransitionParams : Type 0 where
  pub yes_reissuance_utxo : UnblindedUtxo
  pub no_reissuance_utxo : UnblindedUtxo
  pub collateral_utxo : UnblindedUtxo
  pub fee_utxo : UnblindedUtxo
  pub fee_amount : ℕ
  pub fee_change_destination : Option Bytes
  pub lock_time : ℕ

unfoldable pub build_expire_transition_pset :
    CompiledPredictionMarket → ExpireTransitionParams → Pset
build_expire_transition_pset contract params =
    let expired_spk = contract.script_pubkey expired_collateral in
    let pset = add_pset_input new_pset params.yes_reissuance_utxo in
    let pset = add_pset_input pset params.no_reissuance_utxo in
    let pset = add_pset_input pset params.collateral_utxo in
    let pset = add_pset_input pset params.fee_utxo in
    let pset = add_pset_output pset (burn_txout contract.params.yes_reissuance_token 1) in
    let pset = add_pset_output pset (burn_txout contract.params.no_reissuance_token 1) in
    let pset = add_pset_output pset (
      explicit_txout contract.params.collateral_asset_id params.collateral_utxo.value
        expired_spk) in
    let fee_change = saturating_sub params.fee_utxo.value params.fee_amount in
    let pset =
      add_change pset contract.params.collateral_asset_id fee_change
        params.fee_change_destination in
    let pset =
      add_pset_output pset (fee_txout contract.params.collateral_asset_id params.fee_amount) in
    record pset { fallback_locktime = some params.lock_time }
