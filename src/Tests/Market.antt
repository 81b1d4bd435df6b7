-- ===== src/Tests/Market.antt =====
-- A market with ten units of collateral per token: three pairs are issued, YES wins, and two YES
-- tokens are redeemed.
use deadcat.Prelude.{ℕ, ◌≡◌, refl, true, none, some, [], ◌∷◌, Bytes, bytes_eq, ok, arith, inl, ◌↔◌}
use deadcat.Prelude.{checked_mul, saturating_sub}
use deadcat.Pset.{
  Pset, UnblindedUtxo, Asset, Value, Nonce, add_pset_output, add_pset_input, add_change,
  modify_input, modify, explicit_txout, fee_txout, reissuance_token_output, new_pset, burn_txout,
  burn_script_pubkey,
}
use deadcat.Market.State.{
  MarketSlot, unresolved, resolved_yes, expired, as_u8, unresolved_yes_rt, unresolved_no_rt,
  unresolved_collateral, derive_state_from_live_slots, live_slots_for_state, contains, slot_from_u8,
  state_from_u64, state_as_u64, state, collateral_slot_for_state, is_collateral,
}
use deadcat.Market.State.Derive.{
  derive_state_iff, live_slots-state, slot_from_u8_iff, state_from_u64_iff,
}
use deadcat.Market.Params.{CompiledPredictionMarket}
use deadcat.Market.Pset.Issue.{
  InitialIssuanceParams, build_initial_issuance_pset, collateral_for_pairs,
}
use deadcat.Market.Pset.Finish.{build_oracle_resolve_pset, build_expire_transition_pset}
use deadcat.Market.Pset.Redeem.{
  PostResolutionRedemptionParams, ExpiryRedemptionParams, build_post_resolution_redemption_pset,
  build_expiry_redemption_pset,
}
use deadcat.Market.Pset.Outputs.{held_at}
use deadcat.Market.Backing.{
  MarketView, Step, Reach, created, issue_first, resolve, expire, here, next,
}
use deadcat.Market.Backing.Solvency.{
  IsBacked, market-IsBacked, redemption_succeeds, expiry_redemption_succeeds,
}

abbrev pub contract : CompiledPredictionMarket
contract = record {
  params = record {
    oracle_public_key = 170 ∷ [];
    collateral_asset_id = 1 ∷ [];
    yes_token_asset = 2 ∷ [];
    no_token_asset = 3 ∷ [];
    yes_reissuance_token = 4 ∷ [];
    no_reissuance_token = 5 ∷ [];
    collateral_per_token = 10;
    expiry_time = 1000;
  };
  script_pubkey = λ slot. as_u8 slot ∷ [];
}

abbrev pub coin : ℕ → Bytes → ℕ → UnblindedUtxo
coin vout asset value = record {
  outpoint = record { txid = 9 ∷ []; vout = vout };
  txout = record {
    asset = Asset.explicit asset;
    value = Value.explicit value;
    nonce = Nonce.null;
    script_pubkey = [];
  };
  asset_id = asset;
  value = value;
  asset_blinding_factor = [];
  value_blinding_factor = [];
}

abbrev pub first_issue : InitialIssuanceParams
first_issue = record {
  yes_reissuance_utxo = coin 0 (4 ∷ []) 1;
  no_reissuance_utxo = coin 1 (5 ∷ []) 1;
  collateral_utxo = coin 2 (1 ∷ []) 100;
  fee_utxo = coin 3 (1 ∷ []) 20;
  pairs = 3;
  fee_amount = 5;
  yes_token_destination = 20 ∷ [];
  no_token_destination = 21 ∷ [];
  collateral_change_destination = some (22 ∷ []);
  fee_change_destination = some (23 ∷ []);
  yes_issuance_blinding_nonce = [];
  yes_issuance_asset_entropy = [];
  no_issuance_blinding_nonce = [];
  no_issuance_asset_entropy = [];
  lock_time = 7;
}

abbrev issued : MarketView
issued = record { state = unresolved; collateral = 60; yes_tokens = 3; no_tokens = 3 }

abbrev won : MarketView
won = record { state = resolved_yes; collateral = 60; yes_tokens = 3; no_tokens = 3 }

abbrev over : MarketView
over = record { state = expired; collateral = 60; yes_tokens = 3; no_tokens = 3 }

issue-Step : Step contract created issued
unfolding build_initial_issuance_pset collateral_for_pairs held_at bytes_eq as_u8 add_pset_output
    add_pset_input add_change modify_input modify explicit_txout fee_txout reissuance_token_output
    new_pset checked_mul saturating_sub
issue-Step = issue_first first_issue _ issued refl refl refl

issued-Reach : Reach contract created issued
issued-Reach = next here issue-Step

won-Reach : Reach contract created won
unfolding build_oracle_resolve_pset held_at bytes_eq as_u8 burn_txout burn_script_pubkey
    add_pset_output add_pset_input add_change explicit_txout fee_txout reissuance_token_output
    new_pset saturating_sub
won-Reach = next issued-Reach (
    resolve
      (record {
        yes_reissuance_utxo = coin 0 (4 ∷ []) 1;
        no_reissuance_utxo = coin 1 (5 ∷ []) 1;
        collateral_utxo = coin 2 (1 ∷ []) 60;
        fee_utxo = coin 3 (1 ∷ []) 20;
        outcome_yes = true;
        fee_amount = 5;
        fee_change_destination = some (23 ∷ []);
        lock_time = 8;
      })
      won refl refl refl)

over-Reach : Reach contract created over
unfolding build_expire_transition_pset held_at bytes_eq as_u8 burn_txout burn_script_pubkey
    add_pset_output add_pset_input add_change explicit_txout fee_txout reissuance_token_output
    new_pset saturating_sub
over-Reach = next issued-Reach (
    expire
      (record {
        yes_reissuance_utxo = coin 0 (4 ∷ []) 1;
        no_reissuance_utxo = coin 1 (5 ∷ []) 1;
        collateral_utxo = coin 2 (1 ∷ []) 60;
        fee_utxo = coin 3 (1 ∷ []) 20;
        fee_amount = 5;
        fee_change_destination = some (23 ∷ []);
        lock_time = 1000;
      })
      over refl refl refl)

abbrev pub redemption : PostResolutionRedemptionParams
redemption = record {
  collateral_utxo = coin 2 (1 ∷ []) 60;
  token_utxos = coin 4 (2 ∷ []) 2 ∷ [];
  fee_utxo = coin 3 (1 ∷ []) 20;
  tokens_burned = 2;
  resolved_state = resolved_yes;
  fee_amount = 5;
  payout_destination = 30 ∷ [];
  fee_change_destination = none;
  token_change_destination = none;
}

abbrev pub expiry_redemption : ExpiryRedemptionParams
expiry_redemption = record {
  collateral_utxo = coin 2 (1 ∷ []) 60;
  token_utxos = coin 4 (3 ∷ []) 3 ∷ [];
  fee_utxo = coin 3 (1 ∷ []) 20;
  tokens_burned = 3;
  burn_token_asset = 3 ∷ [];
  fee_amount = 5;
  payout_destination = 30 ∷ [];
  fee_change_destination = none;
  token_change_destination = none;
  lock_time = 1000;
}

market-IsBacked_example : IsBacked 10 won
market-IsBacked_example = market-IsBacked contract (omega arith) won-Reach

redemption_succeeds_example :
    (p : Pset) × (build_post_resolution_redemption_pset contract redemption ≡ ok p)
redemption_succeeds_example =
    redemption_succeeds contract (omega arith) redemption won-Reach (inl (refl, omega arith)) refl
      refl (omega arith)

expiry_redemption_succeeds_example :
    (p : Pset) × (build_expiry_redemption_pset contract expiry_redemption ≡ ok p)
expiry_redemption_succeeds_example =
    expiry_redemption_succeeds contract (omega arith) expiry_redemption over-Reach refl
      (omega arith) refl (omega arith)

derive_state_iff_example :
    (derive_state_from_live_slots
        (unresolved_collateral ∷ unresolved_no_rt ∷ unresolved_yes_rt ∷ unresolved_no_rt ∷ [])
      ≡ ok unresolved)
    ↔ ((k : MarketSlot)
        → contains
            (unresolved_collateral ∷ unresolved_no_rt ∷ unresolved_yes_rt ∷ unresolved_no_rt ∷ [])
            k
          ≡ contains (live_slots_for_state unresolved) k)
derive_state_iff_example =
    derive_state_iff
      (unresolved_collateral ∷ unresolved_no_rt ∷ unresolved_yes_rt ∷ unresolved_no_rt ∷ [])
      unresolved

live_slots-state_example :
    ((contains (live_slots_for_state unresolved) unresolved_collateral ≡ true)
      ↔ (state unresolved_collateral ≡ unresolved))
    × ((collateral_slot_for_state unresolved ≡ some unresolved_collateral) ↔ (
        (state unresolved_collateral ≡ unresolved) × (is_collateral unresolved_collateral ≡ true)))
live_slots-state_example = live_slots-state unresolved unresolved_collateral

slot_from_u8_iff_example :
    (slot_from_u8 4 ≡ some unresolved_collateral) ↔ (4 ≡ as_u8 unresolved_collateral)
slot_from_u8_iff_example = slot_from_u8_iff 4 unresolved_collateral

state_from_u64_iff_example : (state_from_u64 4 ≡ some expired) ↔ (4 ≡ state_as_u64 expired)
state_from_u64_iff_example = state_from_u64_iff 4 expired
