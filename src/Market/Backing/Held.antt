-- ===== src/Market/Backing/Held.antt =====
-- What the cancellations and the redemptions leave in the covenant and burn, as amounts.
use deadcat.Prelude.{
  ℕ, ◌-◌, ◌*◌, ◌≤◌, ◌≡◌, ok, sym, ◌∙◌, inl, inr, Bytes, subst, ltb, if◌then◌else◌,
}
use deadcat.Pset.{Pset}
use deadcat.Market.State.{resolved_yes, resolved_no}
use deadcat.Market.State.{
  MarketSlot, unresolved_collateral, resolved_yes_collateral, resolved_no_collateral,
  expired_collateral,
}
use deadcat.Market.Params.{CompiledPredictionMarket}
use deadcat.Market.Pset.Redeem.{
  CancellationParams, build_cancellation_pset, PostResolutionRedemptionParams,
  ExpiryRedemptionParams, build_post_resolution_redemption_pset, build_expiry_redemption_pset,
}
use deadcat.Market.Backing.{locked_at, burned_at}
use deadcat.Market.Pset.Outputs.Cancel.{cancellation-outputs, cancel_outputs-held}
use deadcat.Market.Pset.Outputs.Redeem.{
  post_resolution-outputs, expiry-outputs, redeem_outputs-held, stays_locked, is_burned,
}

module _ (contract : CompiledPredictionMarket) where
  open contract use {params.{yes_token_asset, no_token_asset, collateral_per_token}}

  pub cancellation-held :
      (params : CancellationParams) {p : Pset}
      → build_cancellation_pset contract params ≡ ok p
      → let refund = params.pairs_burned * 2 * collateral_per_token in
        let remaining = params.collateral_utxo.value - refund in
        (refund ≤ params.collateral_utxo.value)
        × ((if ltb 0 remaining then locked_at contract unresolved_collateral 0 p else 0)
            ≡ remaining)
        × (burned_at contract yes_token_asset (if ltb 0 remaining then 1 else 2) p
            ≡ params.pairs_burned)
        × (burned_at contract no_token_asset (if ltb 0 remaining then 2 else 3) p
            ≡ params.pairs_burned)
  cancellation-held params {p = p} built =
      let refund = params.pairs_burned * 2 * collateral_per_token in
      let (covered, more) = cancellation-outputs contract params built in
      let (locked, yes_burned, no_burned) =
        cancel_outputs-held contract (params.collateral_utxo.value - refund) params.pairs_burned
          refund params.refund_destination p.outputs more in
      (covered, locked, yes_burned, no_burned)

  -- What a redemption leaves in a slot and burns.
  abbrev pub Redeemed : MarketSlot → Bytes → (value payout tokens : ℕ) → Pset → Type 0
  Redeemed slot asset value payout tokens p =
      (payout ≤ value)
      × (stays_locked contract slot (value - payout) p.outputs ≡ value - payout)
      × (is_burned contract asset (value - payout) p.outputs ≡ tokens)

  pub post_resolution-yes :
      (params : PostResolutionRedemptionParams) {p : Pset}
      → build_post_resolution_redemption_pset contract params ≡ ok p
      → params.resolved_state ≡ resolved_yes
      → Redeemed resolved_yes_collateral yes_token_asset params.collateral_utxo.value
          (params.tokens_burned * 2 * collateral_per_token)
          params.tokens_burned
          p
  post_resolution-yes params {p = p} built at =
      let value = params.collateral_utxo.value in
      let payout = params.tokens_burned * 2 * collateral_per_token in
      let (covered, side) = post_resolution-outputs contract params built in
      elim side [
        | inl (_, more) ↦
            let (locked, burned) =
              redeem_outputs-held contract resolved_yes_collateral yes_token_asset (value - payout)
                params.tokens_burned payout params.payout_destination more in
            (covered, locked, burned)
        | inr (other, _) ↦ (let clash = sym at ∙ other in cc)
      ]

  pub post_resolution-no :
      (params : PostResolutionRedemptionParams) {p : Pset}
      → build_post_resolution_redemption_pset contract params ≡ ok p
      → params.resolved_state ≡ resolved_no
      → Redeemed resolved_no_collateral no_token_asset params.collateral_utxo.value
          (params.tokens_burned * 2 * collateral_per_token)
          params.tokens_burned
          p
  post_resolution-no params {p = p} built at =
      let value = params.collateral_utxo.value in
      let payout = params.tokens_burned * 2 * collateral_per_token in
      let (covered, side) = post_resolution-outputs contract params built in
      elim side [
        | inl (other, _) ↦ (let clash = sym at ∙ other in cc)
        | inr (_, more) ↦
            let (locked, burned) =
              redeem_outputs-held contract resolved_no_collateral no_token_asset (value - payout)
                params.tokens_burned payout params.payout_destination more in
            (covered, locked, burned)
      ]

  pub expiry-held :
      (params : ExpiryRedemptionParams) {p : Pset} {asset : Bytes}
      → build_expiry_redemption_pset contract params ≡ ok p
      → params.burn_token_asset ≡ asset
      → Redeemed expired_collateral asset params.collateral_utxo.value
          (params.tokens_burned * collateral_per_token)
          params.tokens_burned
          p
  expiry-held params {p = p} built which =
      let value = params.collateral_utxo.value in
      let payout = params.tokens_burned * collateral_per_token in
      let (covered, more) = expiry-outputs contract params built in
      let (locked, burned) =
        redeem_outputs-held contract expired_collateral params.burn_token_asset (value - payout)
          params.tokens_burned payout params.payout_destination more in
      subst (λ a. Redeemed expired_collateral a value payout params.tokens_burned p) which
        (covered, locked, burned)
