-- ===== src/Market/Pset/Redeem.antt =====
-- prediction_market/pset: cancellation.rs, post_resolution_redemption.rs and expiry_redemption.rs.
use deadcat.Prelude.{
  ℕ, ◌-◌, not, ltb, Option, some, List, Bytes, Result, ok, fail_if, ok_or, ◌>>=◌, ◌>>◌, checked_mul,
  saturating_sub, if◌then◌else◌,
}
use deadcat.Error.{
  Error, collateral_overflow, insufficient_collateral, missing_reissuance_utxos, invalid_state,
}
use deadcat.Pset.{
  UnblindedUtxo, Pset, new_pset, explicit_txout, fee_txout, burn_txout, reissuance_token_output,
  add_pset_input, add_pset_inputs, add_pset_output, add_change, sum_values,
}
use deadcat.Market.State.{
  MarketState, dormant_yes_rt, dormant_no_rt, unresolved_collateral, expired_collateral,
  is_resolved, collateral_slot_for_state,
}
use deadcat.Market.Params.{CompiledPredictionMarket, winning_token_asset}
use deadcat.Market.Pset.Issue.{collateral_for_pairs}

pub record CancellationParams : Type 0 where
  pub collateral_utxo : UnblindedUtxo
  pub yes_reissuance_utxo : Option UnblindedUtxo
  pub no_reissuance_utxo : Option UnblindedUtxo
  pub yes_token_utxos : List UnblindedUtxo
  pub no_token_utxos : List UnblindedUtxo
  pub fee_utxo : UnblindedUtxo
  pub pairs_burned : ℕ
  pub fee_amount : ℕ
  pub refund_destination : Bytes
  pub fee_change_destination : Option Bytes
  pub token_change_destination : Option Bytes

module _ (contract : CompiledPredictionMarket) where
  open contract use {params.{collateral_asset_id, yes_token_asset, no_token_asset}}

  -- The branch of `build_cancellation_pset` in which collateral remains.
  unfoldable pub partial_cancellation : CancellationParams → ℕ → ℕ → Pset
  partial_cancellation params refund remaining =
      let pset = add_pset_input new_pset params.collateral_utxo in
      let pset = add_pset_inputs pset params.yes_token_utxos in
      let pset = add_pset_inputs pset params.no_token_utxos in
      let pset = add_pset_input pset params.fee_utxo in
      let pset = add_pset_output pset (
        explicit_txout collateral_asset_id remaining
          (contract.script_pubkey unresolved_collateral)) in
      let pset = add_pset_output pset (burn_txout yes_token_asset params.pairs_burned) in
      let pset = add_pset_output pset (burn_txout no_token_asset params.pairs_burned) in
      let pset =
        add_pset_output pset
          (explicit_txout collateral_asset_id refund params.refund_destination) in
      let yes_change = saturating_sub (sum_values params.yes_token_utxos) params.pairs_burned in
      let pset = add_change pset yes_token_asset yes_change params.token_change_destination in
      let no_change = saturating_sub (sum_values params.no_token_utxos) params.pairs_burned in
      add_change pset no_token_asset no_change params.token_change_destination

  -- The branch that burns every pair and cycles the reissuance tokens to the dormant slots.
  unfoldable pub full_cancellation : CancellationParams → ℕ → Result Error Pset
  full_cancellation params refund = do
    yes_reissuance ← ok_or params.yes_reissuance_utxo missing_reissuance_utxos
    no_reissuance ← ok_or params.no_reissuance_utxo missing_reissuance_utxos
    let pset = add_pset_input new_pset params.collateral_utxo
    let pset = add_pset_input pset yes_reissuance
    let pset = add_pset_input pset no_reissuance
    let pset = add_pset_inputs pset params.yes_token_utxos
    let pset = add_pset_inputs pset params.no_token_utxos
    let pset = add_pset_input pset params.fee_utxo
    let pset =
        add_pset_output pset (reissuance_token_output (contract.script_pubkey dormant_yes_rt))
    let pset = add_pset_output pset (reissuance_token_output (contract.script_pubkey dormant_no_rt))
    let pset = add_pset_output pset (burn_txout yes_token_asset params.pairs_burned)
    let pset = add_pset_output pset (burn_txout no_token_asset params.pairs_burned)
    ok (add_pset_output pset (explicit_txout collateral_asset_id refund params.refund_destination))

  unfoldable pub build_cancellation_pset : CancellationParams → Result Error Pset
  build_cancellation_pset params = do
    refund ← collateral_for_pairs params.pairs_burned contract.params.collateral_per_token
    fail_if (ltb params.collateral_utxo.value refund) insufficient_collateral
    let remaining = params.collateral_utxo.value - refund
    pset ←
        (if ltb 0 remaining
          then ok (partial_cancellation params refund remaining)
          else full_cancellation params refund)
    let fee_change = saturating_sub params.fee_utxo.value params.fee_amount
    let pset = add_change pset collateral_asset_id fee_change params.fee_change_destination
    ok (add_pset_output pset (fee_txout collateral_asset_id params.fee_amount))

pub record PostResolutionRedemptionParams : Type 0 where
  pub collateral_utxo : UnblindedUtxo
  pub token_utxos : List UnblindedUtxo
  pub fee_utxo : UnblindedUtxo
  pub tokens_burned : ℕ
  pub resolved_state : MarketState
  pub fee_amount : ℕ
  pub payout_destination : Bytes
  pub fee_change_destination : Option Bytes
  pub token_change_destination : Option Bytes

unfoldable pub build_post_resolution_redemption_pset :
    CompiledPredictionMarket → PostResolutionRedemptionParams → Result Error Pset
build_post_resolution_redemption_pset contract params = do
  fail_if (not (is_resolved params.resolved_state)) invalid_state
  payout ← collateral_for_pairs params.tokens_burned contract.params.collateral_per_token
  fail_if (ltb params.collateral_utxo.value payout) insufficient_collateral
  let remaining = params.collateral_utxo.value - payout
  winning_asset ← ok_or (winning_token_asset params.resolved_state contract.params) invalid_state
  slot ← ok_or (collateral_slot_for_state params.resolved_state) invalid_state
  let state_spk = contract.script_pubkey slot
  let pset = add_pset_input new_pset params.collateral_utxo
  let pset = add_pset_inputs pset params.token_utxos
  let pset = add_pset_input pset params.fee_utxo
  let pset =
      (if ltb 0 remaining
        then add_pset_output pset
            (explicit_txout contract.params.collateral_asset_id remaining state_spk)
        else pset)
  let pset = add_pset_output pset (burn_txout winning_asset params.tokens_burned)
  let pset =
      add_pset_output pset
        (explicit_txout contract.params.collateral_asset_id payout params.payout_destination)
  let change = saturating_sub (sum_values params.token_utxos) params.tokens_burned
  let pset = add_change pset winning_asset change params.token_change_destination
  let fee_change = saturating_sub params.fee_utxo.value params.fee_amount
  let pset =
      add_change pset contract.params.collateral_asset_id fee_change params.fee_change_destination
  ok (add_pset_output pset (fee_txout contract.params.collateral_asset_id params.fee_amount))

pub record ExpiryRedemptionParams : Type 0 where
  pub collateral_utxo : UnblindedUtxo
  pub token_utxos : List UnblindedUtxo
  pub fee_utxo : UnblindedUtxo
  pub tokens_burned : ℕ
  pub burn_token_asset : Bytes
  pub fee_amount : ℕ
  pub payout_destination : Bytes
  pub fee_change_destination : Option Bytes
  pub token_change_destination : Option Bytes
  pub lock_time : ℕ

unfoldable pub build_expiry_redemption_pset :
    CompiledPredictionMarket → ExpiryRedemptionParams → Result Error Pset
build_expiry_redemption_pset contract params = do
  payout ←
      ok_or (checked_mul params.tokens_burned contract.params.collateral_per_token)
        collateral_overflow
  fail_if (ltb params.collateral_utxo.value payout) insufficient_collateral
  let remaining = params.collateral_utxo.value - payout
  let expired_spk = contract.script_pubkey expired_collateral
  let pset = add_pset_input new_pset params.collateral_utxo
  let pset = add_pset_inputs pset params.token_utxos
  let pset = add_pset_input pset params.fee_utxo
  let pset =
      (if ltb 0 remaining
        then add_pset_output pset
            (explicit_txout contract.params.collateral_asset_id remaining expired_spk)
        else pset)
  let pset = add_pset_output pset (burn_txout params.burn_token_asset params.tokens_burned)
  let pset =
      add_pset_output pset
        (explicit_txout contract.params.collateral_asset_id payout params.payout_destination)
  let change = saturating_sub (sum_values params.token_utxos) params.tokens_burned
  let pset = add_change pset params.burn_token_asset change params.token_change_destination
  let fee_change = saturating_sub params.fee_utxo.value params.fee_amount
  let pset =
      add_change pset contract.params.collateral_asset_id fee_change params.fee_change_destination
  let pset = add_pset_output pset (fee_txout contract.params.collateral_asset_id params.fee_amount)
  ok (record pset { fallback_locktime = some params.lock_time })
