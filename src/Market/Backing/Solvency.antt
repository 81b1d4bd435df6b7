-- ===== src/Market/Backing/Solvency.antt =====
-- The collateral of a market against the claims of its outstanding tokens.
use deadcat.Prelude.{
  ℕ, ◌+◌, ◌-◌, ◌*◌, ◌/◌, ◌<◌, ◌≤◌, ◌≡◌, arith, ok, sym, ap, ◌∙◌, ◌⊎◌, inl, inr, ◌≢◌, err, u64_mod,
  Result-cases, checked_mul,
}
use native.Mathlib.Nat.{mul-div_cancel}
use deadcat.Pset.{Pset}
use deadcat.Market.State.{MarketState, dormant, unresolved, resolved_yes, resolved_no, expired}
use deadcat.Error.{Error}
use deadcat.Market.State.{is_resolved, collateral_slot_for_state}
use deadcat.Market.Params.{CompiledPredictionMarket, winning_token_asset}
use deadcat.Market.Pset.Issue.{collateral_for_pairs}
use deadcat.Market.Pset.Redeem.{
  PostResolutionRedemptionParams, ExpiryRedemptionParams, build_post_resolution_redemption_pset,
  build_expiry_redemption_pset,
}
use deadcat.Market.Backing.{MarketView, Step, Reach, created}
use deadcat.Market.Pset.Outputs.Issue.{
  initial_issuance-outputs, subsequent_issuance-outputs, oracle_resolve-held,
  expire_transition-held, Issues-held,
}
use deadcat.Market.Backing.Held.{
  cancellation-held, post_resolution-yes, post_resolution-no, expiry-held,
}

-- What the outstanding tokens of a market can claim, by its state: a pair before the resolution and
-- a winning token after it are worth twice the collateral per token, and any token of an expired
-- market is worth it once.
abbrev pub claim : ℕ → MarketState → ℕ → ℕ → ℕ
claim cpt dormant yes_tokens no_tokens = 0
claim cpt unresolved yes_tokens no_tokens = yes_tokens * 2 * cpt
claim cpt resolved_yes yes_tokens no_tokens = yes_tokens * 2 * cpt
claim cpt resolved_no yes_tokens no_tokens = no_tokens * 2 * cpt
claim cpt expired yes_tokens no_tokens = (yes_tokens + no_tokens) * cpt

abbrev pub Paired : MarketState → ℕ → ℕ → Type 0
Paired dormant yes_tokens no_tokens = (yes_tokens ≡ 0) × (no_tokens ≡ 0)
Paired unresolved yes_tokens no_tokens = yes_tokens ≡ no_tokens
Paired _ yes_tokens no_tokens = Unit {0}

pub record IsBacked (cpt : ℕ) (v : MarketView) : Type 0 where
  pub paired : Paired v.state v.yes_tokens v.no_tokens
  pub backed : v.collateral ≡ claim cpt v.state v.yes_tokens v.no_tokens

created-IsBacked : (cpt : ℕ) → IsBacked cpt created
created-IsBacked cpt = omega arith

-- The claims of `k` tokens more, and of `k` tokens less.
claim_more : (y k c : ℕ) → (y + k) * 2 * c ≡ y * 2 * c + k * 2 * c
claim_more y k c = omega arith

claim_less : (y k c : ℕ) → k ≤ y → (y - k) * 2 * c + k * 2 * c ≡ y * 2 * c
claim_less y k c h = sym (claim_more (y - k) k c) ∙ ap (λ (t : ℕ). t * 2 * c) (omega arith)

claim_less_once : (y k c : ℕ) → k ≤ y → (y - k) * c + k * c ≡ y * c
claim_less_once y k c h =
    let sum : (y - k + k) * c ≡ (y - k) * c + k * c = omega arith in
    sym sum ∙ ap (λ (t : ℕ). t * c) (omega arith)

claim_injective : (a b c : ℕ) → 0 < c → a * 2 * c ≡ b * 2 * c → a ≡ b
claim_injective a b c h e =
    let once : a * c ≡ b * c = omega (arith, e) in
    sym (mul-div_cancel a h) ∙ ap (λ (t : ℕ). t / c) once ∙ mul-div_cancel b h

mul_mono : (b x y : ℕ) → x ≤ y → b * x ≤ b * y
mul_mono b x y h = grind arith

within : (k c n : ℕ) → 0 < c → k * 2 * c < n → k * 2 < n
within k c n h lt = let more : k * 2 * 1 ≤ k * 2 * c = mul_mono (k * 2) 1 c h in omega arith

payout_fits : (k n c : ℕ) → k ≤ n → (k * 2 * c ≤ n * 2 * c) × (k * c ≤ n * c)
payout_fits k n c h = grind arith

module _ (contract : CompiledPredictionMarket)
    (positive : 0 < contract.params.collateral_per_token) where
  open contract use {params.{yes_token_asset, no_token_asset, collateral_per_token}}

  -- Every transaction of a market keeps the collateral equal to the claims.
  Step-IsBacked :
      {v w : MarketView}
      → Step contract v w
      → IsBacked collateral_per_token v
      → IsBacked collateral_per_token w
  Step-IsBacked {v} (Step.issue_first params p w at built e) b = ground (
    arith,
    Issues-held contract (params.pairs * 2 * collateral_per_token) params.pairs
        params.yes_token_destination params.no_token_destination p
        (initial_issuance-outputs contract params built),
  )
  Step-IsBacked {v} (Step.issue_more params p w at spent built e) b = ground (
    arith,
    Issues-held contract (params.collateral_utxo.value + params.pairs * 2 * collateral_per_token)
        params.pairs params.yes_token_destination params.no_token_destination p
        (subsequent_issuance-outputs contract params built),
    claim_more v.yes_tokens params.pairs collateral_per_token,
  )
  Step-IsBacked {v} (Step.cancel_some params p w at spent some_left built yes_held no_held e) b =
      ground (
        arith,
        cancellation-held contract params built,
        claim_less v.yes_tokens params.pairs_burned collateral_per_token,
      )
  Step-IsBacked {v} (Step.cancel_all params p w at spent none_left built yes_held no_held e) b =
      ground (
        arith,
        cancellation-held contract params built,
        claim_injective params.pairs_burned v.yes_tokens collateral_per_token positive,
      )
  Step-IsBacked {v} (Step.resolve params w at spent e) b =
      ground (arith, oracle_resolve-held contract params)
  Step-IsBacked {v} (Step.expire params w at spent e) b = ground (
    arith,
    expire_transition-held contract params,
    claim_more v.yes_tokens v.no_tokens collateral_per_token,
  )
  Step-IsBacked {v} (Step.redeem_yes params p remaining w at same spent rest built held e) b =
      ground (
        arith,
        post_resolution-yes contract params built (same ∙ at),
        claim_less v.yes_tokens params.tokens_burned collateral_per_token,
      )
  Step-IsBacked {v} (Step.redeem_no params p remaining w at same spent rest built held e) b =
      ground (
        arith,
        post_resolution-no contract params built (same ∙ at),
        claim_less v.no_tokens params.tokens_burned collateral_per_token,
      )
  Step-IsBacked {v} (Step.redeem_expired_yes params p remaining w at spent which rest built held e)
        b =
      ground (
        arith,
        expiry-held contract params built which,
        claim_less_once (v.yes_tokens + v.no_tokens) params.tokens_burned collateral_per_token,
      )
  Step-IsBacked {v} (Step.redeem_expired_no params p remaining w at spent which rest built held e)
        b =
      ground (
        arith,
        expiry-held contract params built which,
        claim_less_once (v.yes_tokens + v.no_tokens) params.tokens_burned collateral_per_token,
      )

  Reach-IsBacked :
      {v w : MarketView}
      → IsBacked collateral_per_token v
      → Reach contract v w
      → IsBacked collateral_per_token w
  Reach-IsBacked b Reach.here = b
  Reach-IsBacked b (Reach.next r s) = Step-IsBacked s (Reach-IsBacked b r)

  -- In every market that the transactions of the builders lead to from its creation, the collateral
  -- that the last one holds in the collateral slot of the market's state is exactly what the
  -- outstanding tokens can claim, where outputs count by their assets and scripts: tokens as minted
  -- for their receivers and as burned under the burn script. Before the resolution there are as many
  -- YES tokens as NO tokens. The collateral per token is not 0.
  pub market-IsBacked :
      {v : MarketView} → Reach contract created v → IsBacked collateral_per_token v
  market-IsBacked r = Reach-IsBacked (created-IsBacked collateral_per_token) r

  post_resolution_no_error :
      {v : MarketView} (params : PostResolutionRedemptionParams)
      → IsBacked collateral_per_token v
      → ((v.state ≡ resolved_yes) × (params.tokens_burned ≤ v.yes_tokens))
        ⊎ ((v.state ≡ resolved_no) × (params.tokens_burned ≤ v.no_tokens))
      → params.resolved_state ≡ v.state
      → params.collateral_utxo.value ≡ v.collateral
      → v.collateral < u64_mod
      → (e : Error) → build_post_resolution_redemption_pset contract params ≢ err e
  unfolding build_post_resolution_redemption_pset collateral_for_pairs checked_mul is_resolved
      winning_token_asset collateral_slot_for_state
  post_resolution_no_error {v} params b winners same spent bound e failed = ground (
    arith,
    payout_fits params.tokens_burned v.yes_tokens collateral_per_token,
    payout_fits params.tokens_burned v.no_tokens collateral_per_token,
    within params.tokens_burned collateral_per_token u64_mod positive,
  )

  expiry_no_error :
      {v : MarketView} (params : ExpiryRedemptionParams)
      → IsBacked collateral_per_token v
      → v.state ≡ expired
      → params.tokens_burned ≤ v.yes_tokens + v.no_tokens
      → params.collateral_utxo.value ≡ v.collateral
      → v.collateral < u64_mod
      → (e : Error) → build_expiry_redemption_pset contract params ≢ err e
  unfolding build_expiry_redemption_pset checked_mul
  expiry_no_error {v} params b at held spent bound e failed =
      ground
        (arith, payout_fits params.tokens_burned (v.yes_tokens + v.no_tokens) collateral_per_token)

  -- A holder of winning tokens can redeem any number of them: at a market that was reached from its
  -- creation and is resolved, the redemption of no more tokens than are outstanding, against the
  -- collateral that is locked (a `u64`), is built and does not fail. The collateral per token is not
  -- 0.
  pub redemption_succeeds :
      {v : MarketView} (params : PostResolutionRedemptionParams)
      → Reach contract created v
      → ((v.state ≡ resolved_yes) × (params.tokens_burned ≤ v.yes_tokens))
        ⊎ ((v.state ≡ resolved_no) × (params.tokens_burned ≤ v.no_tokens))
      → params.resolved_state ≡ v.state
      → params.collateral_utxo.value ≡ v.collateral
      → v.collateral < u64_mod
      → (p : Pset) × (build_post_resolution_redemption_pset contract params ≡ ok p)
  redemption_succeeds {v} params r winners same spent bound =
      elim (Result-cases (build_post_resolution_redemption_pset contract params)) [
        | inl built ↦ built
        | inr (e, failed) ↦
            absurd (
              post_resolution_no_error params (market-IsBacked r) winners same spent bound e failed)
      ]

  -- A holder of tokens of an expired market can redeem any number of them: at a market that was
  -- reached from its creation and is expired, the redemption of no more tokens than are
  -- outstanding, YES and NO together, against the collateral that is locked (a `u64`), is built and
  -- does not fail. The collateral per token is not 0.
  pub expiry_redemption_succeeds :
      {v : MarketView} (params : ExpiryRedemptionParams)
      → Reach contract created v
      → v.state ≡ expired
      → params.tokens_burned ≤ v.yes_tokens + v.no_tokens
      → params.collateral_utxo.value ≡ v.collateral
      → v.collateral < u64_mod
      → (p : Pset) × (build_expiry_redemption_pset contract params ≡ ok p)
  expiry_redemption_succeeds {v} params r at held spent bound =
      elim (Result-cases (build_expiry_redemption_pset contract params)) [
        | inl built ↦ built
        | inr (e, failed) ↦
            absurd (expiry_no_error params (market-IsBacked r) at held spent bound e failed)
      ]
