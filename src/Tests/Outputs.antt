-- ===== src/Tests/Outputs.antt =====
-- The outputs of the transactions of a market, at concrete inputs.
use deadcat.Prelude.{
  ◌≡◌, refl, ◌≤◌, ◌⊎◌, Extends, none, some, [], ◌∷◌, Result, ok, err, checked_mul, checked_add,
  saturating_sub, wrapping_add,
}
use deadcat.Error.{Error}
use deadcat.Pset.{
  Pset, add_pset_output, add_pset_input, add_pset_inputs, add_change, modify_input, modify,
  explicit_txout, fee_txout, reissuance_token_output, new_pset, burn_txout, sum_values,
}
use deadcat.Market.State.{is_resolved, collateral_slot_for_state}
use deadcat.Market.Params.{winning_token_asset}
use deadcat.Market.Pset.Issue.{
  SubsequentIssuanceParams, build_initial_issuance_pset, build_subsequent_issuance_pset,
  collateral_for_pairs,
}
use deadcat.Market.Pset.Redeem.{
  CancellationParams, build_post_resolution_redemption_pset, build_expiry_redemption_pset,
  build_cancellation_pset, partial_cancellation,
}
use deadcat.Market.State.{
  resolved_yes, resolved_no, resolved_yes_collateral, resolved_no_collateral, expired_collateral,
}
use deadcat.Market.Pset.Outputs.Issue.{
  Issues, initial_issuance-outputs, subsequent_issuance-outputs,
}
use deadcat.Market.Pset.Outputs.Cancel.{cancel_outputs, cancellation-outputs}
use deadcat.Market.Pset.Outputs.Redeem.{
  Redeems, redeem_outputs, post_resolution-outputs, expiry-outputs,
}
use deadcat.Tests.Market.{contract, coin, first_issue, redemption, expiry_redemption}

abbrev built : Result Error Pset → Pset
built (ok p) = p
built (err e) = new_pset

abbrev second_issue : SubsequentIssuanceParams
second_issue = record {
  yes_reissuance_utxo = coin 0 (4 ∷ []) 1;
  no_reissuance_utxo = coin 1 (5 ∷ []) 1;
  collateral_utxo = coin 2 (1 ∷ []) 60;
  new_collateral_utxo = coin 3 (1 ∷ []) 50;
  fee_utxo = coin 4 (1 ∷ []) 20;
  pairs = 2;
  fee_amount = 5;
  yes_token_destination = 20 ∷ [];
  no_token_destination = 21 ∷ [];
  collateral_change_destination = some (22 ∷ []);
  fee_change_destination = none;
  yes_issuance_blinding_nonce = [];
  yes_issuance_asset_entropy = [];
  no_issuance_blinding_nonce = [];
  no_issuance_asset_entropy = [];
  lock_time = 7;
}

abbrev cancellation : CancellationParams
cancellation = record {
  collateral_utxo = coin 2 (1 ∷ []) 60;
  yes_reissuance_utxo = none;
  no_reissuance_utxo = none;
  yes_token_utxos = coin 5 (2 ∷ []) 3 ∷ [];
  no_token_utxos = coin 6 (3 ∷ []) 1 ∷ coin 7 (3 ∷ []) 1 ∷ [];
  fee_utxo = coin 4 (1 ∷ []) 20;
  pairs_burned = 2;
  fee_amount = 5;
  refund_destination = 20 ∷ [];
  fee_change_destination = none;
  token_change_destination = some (24 ∷ []);
}

initial_issuance-outputs_example :
    Issues contract 60 3
      (20 ∷ [])
      (21 ∷ [])
      (built (build_initial_issuance_pset contract first_issue))
unfolding build_initial_issuance_pset collateral_for_pairs add_pset_output add_pset_input add_change
    modify_input modify explicit_txout fee_txout reissuance_token_output new_pset checked_mul
    saturating_sub
initial_issuance-outputs_example = initial_issuance-outputs contract first_issue refl

subsequent_issuance-outputs_example :
    Issues contract 100 2
      (20 ∷ [])
      (21 ∷ [])
      (built (build_subsequent_issuance_pset contract second_issue))
unfolding build_subsequent_issuance_pset collateral_for_pairs add_pset_output add_pset_input
    add_change modify_input modify explicit_txout fee_txout reissuance_token_output new_pset
    checked_mul checked_add saturating_sub
subsequent_issuance-outputs_example = subsequent_issuance-outputs contract second_issue refl

-- Two pairs of three are cancelled.
cancellation-outputs_example :
    (40 ≤ 60)
    × Extends
        (cancel_outputs contract 20 2 40 (20 ∷ []))
        (built (build_cancellation_pset contract cancellation)).outputs
unfolding build_cancellation_pset partial_cancellation collateral_for_pairs add_pset_output
    add_pset_input add_pset_inputs add_change explicit_txout fee_txout burn_txout new_pset
    checked_mul saturating_sub sum_values wrapping_add
cancellation-outputs_example = cancellation-outputs contract cancellation refl

post_resolution-outputs_example :
    let p = built (build_post_resolution_redemption_pset contract redemption) in
    (40 ≤ 60)
    × (((redemption.resolved_state ≡ resolved_yes)
          × Redeems contract redemption p resolved_yes_collateral (2 ∷ []))
        ⊎ ((redemption.resolved_state ≡ resolved_no)
            × Redeems contract redemption p resolved_no_collateral (3 ∷ [])))
unfolding build_post_resolution_redemption_pset collateral_for_pairs add_pset_output add_pset_input
    add_pset_inputs add_change explicit_txout fee_txout burn_txout new_pset checked_mul
    saturating_sub sum_values wrapping_add is_resolved collateral_slot_for_state winning_token_asset
post_resolution-outputs_example = post_resolution-outputs contract redemption refl

expiry-outputs_example :
    (30 ≤ 60)
    × Extends
        (redeem_outputs contract expired_collateral (3 ∷ []) 30 3 30 (30 ∷ []))
        (built (build_expiry_redemption_pset contract expiry_redemption)).outputs
unfolding build_expiry_redemption_pset add_pset_output add_pset_input add_pset_inputs add_change
    explicit_txout fee_txout burn_txout new_pset checked_mul saturating_sub sum_values wrapping_add
expiry-outputs_example = expiry-outputs contract expiry_redemption refl
