-- ===== src/Market/Backing.antt =====
-- The life of a market as the sequence of transactions that its builders construct, and the backing
-- of its tokens: what the covenant slots hold and how many tokens are out after each of them. Collateral
-- counts as locked where an output is in the collateral asset and under the script of the slot of the
-- new state, tokens as minted where an output is in their asset and goes to their receiver, and as
-- burned where it is in their asset and under the burn script.
-- A transaction is tied to the market by what the chain enforces: a covenant input spends the
-- collateral that is locked, and no more tokens are burned than are outstanding.
pub mod Held
pub mod Solvency
use deadcat.Prelude.{
  ℕ, ◌+◌, ◌-◌, ◌*◌, ◌<◌, ◌≤◌, ◌≡◌, Bool, true, false, arith, ok, ltb, if◌then◌else◌, Bytes,
  bytes_eq,
}
use deadcat.Pset.{Pset}
use deadcat.Market.State.{
  MarketState, MarketSlot, dormant, unresolved, resolved_yes, resolved_no, expired,
}
use deadcat.Market.Params.{CompiledPredictionMarket}
use deadcat.Market.Pset.Issue.{
  InitialIssuanceParams, SubsequentIssuanceParams, build_initial_issuance_pset,
  build_subsequent_issuance_pset,
}
use deadcat.Market.Pset.Finish.{
  OracleResolveParams, ExpireTransitionParams, build_oracle_resolve_pset,
  build_expire_transition_pset,
}
use deadcat.Market.Pset.Redeem.{
  CancellationParams, PostResolutionRedemptionParams, ExpiryRedemptionParams,
  build_cancellation_pset, build_post_resolution_redemption_pset, build_expiry_redemption_pset,
}
use deadcat.Pset.{burn_script_pubkey}
use deadcat.Market.State.{
  unresolved_collateral, resolved_yes_collateral, resolved_no_collateral, expired_collateral,
}
use deadcat.Market.Pset.Outputs.{held_at}
use deadcat.Market.Pset.Outputs.Redeem.{stays_locked, is_burned}

-- The state of a market, the collateral locked in it, and the outstanding YES and NO tokens.
pub record MarketView : Type 0 where
  pub state : MarketState
  pub collateral : ℕ
  pub yes_tokens : ℕ
  pub no_tokens : ℕ

module _ (contract : CompiledPredictionMarket) where
  open contract use {
    script_pubkey,
    params.{collateral_asset_id, yes_token_asset, no_token_asset, collateral_per_token},
  }

  -- The collateral that output `i` holds in a covenant slot.
  abbrev pub locked_at : MarketSlot → ℕ → Pset → ℕ
  locked_at slot i p = held_at collateral_asset_id (script_pubkey slot) i p.outputs

  -- How much of an asset output `i` burns.
  abbrev pub burned_at : Bytes → ℕ → Pset → ℕ
  burned_at asset i p = held_at asset burn_script_pubkey i p.outputs

  pub data Step (v : MarketView) : MarketView → Type 0 where
    issue_first :
        (params : InitialIssuanceParams) (p : Pset) (w : MarketView)
        → v.state ≡ dormant
        → build_initial_issuance_pset contract params ≡ ok p
        → w ≡ record {
          state = unresolved;
          collateral = locked_at unresolved_collateral 2 p;
          yes_tokens =
              v.yes_tokens + held_at yes_token_asset params.yes_token_destination 3 p.outputs;
          no_tokens = v.no_tokens + held_at no_token_asset params.no_token_destination 4 p.outputs;
        }
        → Step v w
    issue_more :
        (params : SubsequentIssuanceParams) (p : Pset) (w : MarketView)
        → v.state ≡ unresolved
        → params.collateral_utxo.value ≡ v.collateral
        → build_subsequent_issuance_pset contract params ≡ ok p
        → w ≡ record {
          state = unresolved;
          collateral = locked_at unresolved_collateral 2 p;
          yes_tokens =
              v.yes_tokens + held_at yes_token_asset params.yes_token_destination 3 p.outputs;
          no_tokens = v.no_tokens + held_at no_token_asset params.no_token_destination 4 p.outputs;
        }
        → Step v w
    cancel_some :
        (params : CancellationParams) (p : Pset) (w : MarketView)
        → v.state ≡ unresolved
        → params.collateral_utxo.value ≡ v.collateral
        → params.pairs_burned * 2 * collateral_per_token < v.collateral
        → build_cancellation_pset contract params ≡ ok p
        → burned_at yes_token_asset 1 p ≤ v.yes_tokens
        → burned_at no_token_asset 2 p ≤ v.no_tokens
        → w ≡ record {
          state = unresolved;
          collateral = locked_at unresolved_collateral 0 p;
          yes_tokens = v.yes_tokens - burned_at yes_token_asset 1 p;
          no_tokens = v.no_tokens - burned_at no_token_asset 2 p;
        }
        → Step v w
    cancel_all :
        (params : CancellationParams) (p : Pset) (w : MarketView)
        → v.state ≡ unresolved
        → params.collateral_utxo.value ≡ v.collateral
        → params.pairs_burned * 2 * collateral_per_token ≡ v.collateral
        → build_cancellation_pset contract params ≡ ok p
        → burned_at yes_token_asset 2 p ≤ v.yes_tokens
        → burned_at no_token_asset 3 p ≤ v.no_tokens
        → w ≡ record {
          state = dormant;
          collateral = 0;
          yes_tokens = v.yes_tokens - burned_at yes_token_asset 2 p;
          no_tokens = v.no_tokens - burned_at no_token_asset 3 p;
        }
        → Step v w
    resolve :
        (params : OracleResolveParams) (w : MarketView)
        → v.state ≡ unresolved
        → params.collateral_utxo.value ≡ v.collateral
        → w ≡ record v {
          state = if params.outcome_yes then resolved_yes else resolved_no;
          collateral =
              locked_at
                (if params.outcome_yes then resolved_yes_collateral else resolved_no_collateral)
                2
                (build_oracle_resolve_pset contract params);
        }
        → Step v w
    expire :
        (params : ExpireTransitionParams) (w : MarketView)
        → v.state ≡ unresolved
        → params.collateral_utxo.value ≡ v.collateral
        → w ≡ record v {
          state = expired;
          collateral =
              locked_at expired_collateral 2 (build_expire_transition_pset contract params);
        }
        → Step v w
    redeem_yes :
        (params : PostResolutionRedemptionParams) (p : Pset) (remaining : ℕ) (w : MarketView)
        → v.state ≡ resolved_yes
        → params.resolved_state ≡ v.state
        → params.collateral_utxo.value ≡ v.collateral
        → remaining ≡ v.collateral - params.tokens_burned * 2 * collateral_per_token
        → build_post_resolution_redemption_pset contract params ≡ ok p
        → is_burned contract yes_token_asset remaining p.outputs ≤ v.yes_tokens
        → w ≡ record v {
          collateral = stays_locked contract resolved_yes_collateral remaining p.outputs;
          yes_tokens = v.yes_tokens - is_burned contract yes_token_asset remaining p.outputs;
        }
        → Step v w
    redeem_no :
        (params : PostResolutionRedemptionParams) (p : Pset) (remaining : ℕ) (w : MarketView)
        → v.state ≡ resolved_no
        → params.resolved_state ≡ v.state
        → params.collateral_utxo.value ≡ v.collateral
        → remaining ≡ v.collateral - params.tokens_burned * 2 * collateral_per_token
        → build_post_resolution_redemption_pset contract params ≡ ok p
        → is_burned contract no_token_asset remaining p.outputs ≤ v.no_tokens
        → w ≡ record v {
          collateral = stays_locked contract resolved_no_collateral remaining p.outputs;
          no_tokens = v.no_tokens - is_burned contract no_token_asset remaining p.outputs;
        }
        → Step v w
    redeem_expired_yes :
        (params : ExpiryRedemptionParams) (p : Pset) (remaining : ℕ) (w : MarketView)
        → v.state ≡ expired
        → params.collateral_utxo.value ≡ v.collateral
        → params.burn_token_asset ≡ contract.params.yes_token_asset
        → remaining ≡ v.collateral - params.tokens_burned * collateral_per_token
        → build_expiry_redemption_pset contract params ≡ ok p
        → is_burned contract yes_token_asset remaining p.outputs ≤ v.yes_tokens
        → w ≡ record v {
          collateral = stays_locked contract expired_collateral remaining p.outputs;
          yes_tokens = v.yes_tokens - is_burned contract yes_token_asset remaining p.outputs;
        }
        → Step v w
    redeem_expired_no :
        (params : ExpiryRedemptionParams) (p : Pset) (remaining : ℕ) (w : MarketView)
        → v.state ≡ expired
        → params.collateral_utxo.value ≡ v.collateral
        → params.burn_token_asset ≡ contract.params.no_token_asset
        → remaining ≡ v.collateral - params.tokens_burned * collateral_per_token
        → build_expiry_redemption_pset contract params ≡ ok p
        → is_burned contract no_token_asset remaining p.outputs ≤ v.no_tokens
        → w ≡ record v {
          collateral = stays_locked contract expired_collateral remaining p.outputs;
          no_tokens = v.no_tokens - is_burned contract no_token_asset remaining p.outputs;
        }
        → Step v w

  pub data Reach (v : MarketView) : MarketView → Type 0 where
    here : Reach v v
    next : {w x : MarketView} → Reach v w → Step w x → Reach v x

-- The market that a creation transaction leaves: nothing is issued and nothing is locked.
abbrev pub created : MarketView
created = record { state = dormant; collateral = 0; yes_tokens = 0; no_tokens = 0 }
