-- ===== src/Market/Pset/Outputs/Redeem.antt =====
-- The outputs of the redemptions after the resolution and after the expiry.
use deadcat.Prelude.{
  ℕ, ◌-◌, ◌*◌, ◌≤◌, ◌≡◌, refl, sym, subst, ◌⊎◌, inl, inr, arith, Bytes, ok, List, [], ◌∷◌, not,
  fail_if, fail_if_passed, ok_or, >>=-eq-ok, ok_injective, ltb, checked_mul, if◌then◌else◌,
  Bool-cases, Extends, get_elem?-Extends,
}
use deadcat.Error.{Error, insufficient_collateral, collateral_overflow, invalid_state}
use deadcat.Pset.{
  Pset, Output, UnblindedUtxo, new_pset, explicit_txout, burn_txout, burn_script_pubkey,
  add_pset_input, add_pset_inputs, add_pset_output,
}
use deadcat.Market.State.{
  MarketState, MarketSlot, dormant, unresolved, resolved_yes, resolved_no, expired,
  resolved_yes_collateral, resolved_no_collateral, expired_collateral, is_resolved,
  collateral_slot_for_state,
}
use deadcat.Market.Params.{CompiledPredictionMarket, winning_token_asset}
use deadcat.Market.Pset.Issue.{collateral_for_pairs}
use deadcat.Market.Pset.Redeem.{
  PostResolutionRedemptionParams, ExpiryRedemptionParams, build_post_resolution_redemption_pset,
  build_expiry_redemption_pset,
}
use deadcat.Market.Pset.Outputs.{
  explicit_output, burn_output, held_at, held_at-explicit, Extends-add_pset_output,
  Extends-add_change, outputs-add_pset_inputs, collateral_for_pairs-eq-ok,
}

ok_checked_mul : (a b : ℕ) (e : Error) {v : ℕ} → ok_or (checked_mul a b) e ≡ ok v → v ≡ a * b
unfolding checked_mul
ok_checked_mul a b e h = ground arith

module _ (contract : CompiledPredictionMarket) where
  open contract use {
    script_pubkey,
    params.{collateral_asset_id, yes_token_asset, no_token_asset, collateral_per_token},
  }

  -- What remains of the collateral in its slot, if anything does, the burned tokens, and the payout.
  abbrev pub redeem_outputs :
      (slot : MarketSlot) (asset : Bytes) (remaining tokens payout : ℕ) (destination : Bytes)
      → List Output
  redeem_outputs slot asset remaining tokens payout destination =
      let paid =
        burn_output asset tokens ∷ explicit_output collateral_asset_id payout destination ∷ [] in
      if ltb 0 remaining
      then explicit_output collateral_asset_id remaining (script_pubkey slot) ∷ paid
      else paid

  -- How much collateral stays in a slot, and how much of an asset is burned behind it.
  abbrev pub stays_locked : MarketSlot → (remaining : ℕ) → List Output → ℕ
  stays_locked slot remaining os =
      if ltb 0 remaining then held_at collateral_asset_id (script_pubkey slot) 0 os else 0

  abbrev pub is_burned : Bytes → (remaining : ℕ) → List Output → ℕ
  is_burned asset remaining os =
      if ltb 0 remaining
      then held_at asset burn_script_pubkey 1 os
      else held_at asset burn_script_pubkey 0 os

  pub redeem_outputs-held :
      (slot : MarketSlot) (asset : Bytes) (remaining tokens payout : ℕ) (destination : Bytes)
      {os : List Output}
      → Extends (redeem_outputs slot asset remaining tokens payout destination) os
      → (stays_locked slot remaining os ≡ remaining) × (is_burned asset remaining os ≡ tokens)
  redeem_outputs-held slot asset remaining tokens payout destination {os = os} h =
      let paid =
        burn_output asset tokens ∷ explicit_output collateral_asset_id payout destination ∷ [] in
      elim (Bool-cases (ltb 0 remaining)) [
        | inl left ↦
            let locked =
              explicit_output collateral_asset_id remaining (script_pubkey slot) ∷ paid in
            let k : Extends locked os = rw left at h in
            rw left (
              held_at-explicit collateral_asset_id _ 0 os (get_elem?-Extends locked os 0 k refl),
              held_at-explicit asset _ 1 os (get_elem?-Extends locked os 1 k refl),
            )
        | inr gone ↦
            let k : Extends paid os = rw gone at h in
            rw gone (
              (let nothing : remaining ≡ 0 = ground (arith, gone) in sym nothing),
              held_at-explicit asset _ 0 os (get_elem?-Extends paid os 0 k refl),
            )
      ]

  -- The outputs that a redemption adds to a transaction that has none.
  redeemed :
      (slot : MarketSlot) (asset : Bytes) (remaining tokens payout : ℕ) (destination : Bytes)
      (base : Pset)
      → base.outputs ≡ []
      → let kept =
          if ltb 0 remaining
          then add_pset_output base
              (explicit_txout collateral_asset_id remaining (script_pubkey slot))
          else base in
        Extends
          (redeem_outputs slot asset remaining tokens payout destination)
          (add_pset_output
            (add_pset_output kept (burn_txout asset tokens))
            (explicit_txout collateral_asset_id payout destination)).outputs
  unfolding add_pset_output explicit_txout burn_txout
  redeemed slot asset remaining tokens payout destination base none =
      elim (Bool-cases (ltb 0 remaining)) [
        | inl left ↦ rw (left, none) ([], refl)
        | inr gone ↦ rw (gone, none) ([], refl)
      ]

  base-outputs :
      (coin : UnblindedUtxo) (tokens : List UnblindedUtxo) (fee : UnblindedUtxo)
      → (add_pset_input (add_pset_inputs (add_pset_input new_pset coin) tokens) fee).outputs ≡ []
  unfolding add_pset_input new_pset
  base-outputs coin tokens fee = outputs-add_pset_inputs (add_pset_input new_pset coin) tokens

  -- The winning side of a resolved market, with the slot of its collateral.
  winner :
      (state : MarketState) {asset : Bytes} {slot : MarketSlot}
      → ok_or (winning_token_asset state contract.params) invalid_state ≡ ok asset
      → ok_or (collateral_slot_for_state state) invalid_state ≡ ok slot
      → ((state ≡ resolved_yes) × (asset ≡ yes_token_asset) × (slot ≡ resolved_yes_collateral))
        ⊎ ((state ≡ resolved_no) × (asset ≡ no_token_asset) × (slot ≡ resolved_no_collateral))
  unfolding winning_token_asset collateral_slot_for_state
  winner dormant a s = cc
  winner unresolved a s = cc
  winner resolved_yes a s = inl (refl, sym (ok_injective a), sym (ok_injective s))
  winner resolved_no a s = inr (refl, sym (ok_injective a), sym (ok_injective s))
  winner expired a s = cc

  -- The outputs of a redemption after the resolution.
  abbrev pub Redeems : PostResolutionRedemptionParams → Pset → MarketSlot → Bytes → Type 0
  Redeems params p slot asset =
      let payout = params.tokens_burned * 2 * collateral_per_token in
      Extends
        (redeem_outputs slot asset (params.collateral_utxo.value - payout) params.tokens_burned
          payout params.payout_destination)
        p.outputs

  -- A redemption after the resolution that is built is for a resolved market and takes twice the
  -- collateral per token for every token burned, which the collateral covers. Its first output is the
  -- rest of the collateral, if any, in the slot of the winning side; the next ones burn the tokens, of
  -- the winning side's asset, and pay the collateral taken to the payout's destination.
  pub post_resolution-outputs :
      (params : PostResolutionRedemptionParams) {p : Pset}
      → build_post_resolution_redemption_pset contract params ≡ ok p
      → (params.tokens_burned * 2 * collateral_per_token ≤ params.collateral_utxo.value)
        × (((params.resolved_state ≡ resolved_yes)
              × Redeems params p resolved_yes_collateral yes_token_asset)
            ⊎ ((params.resolved_state ≡ resolved_no)
                × Redeems params p resolved_no_collateral no_token_asset))
  unfolding build_post_resolution_redemption_pset
  post_resolution-outputs params {p = p} h =
      let value = params.collateral_utxo.value in
      let (_, _, h₁) =
        >>=-eq-ok (fail_if (not (is_resolved params.resolved_state)) invalid_state) _ h in
      let (c, e, h₂) =
        >>=-eq-ok (collateral_for_pairs params.tokens_burned collateral_per_token) _ h₁ in
      let (same, _) = collateral_for_pairs-eq-ok params.tokens_burned collateral_per_token e in
      let (_, enough, h₃) = >>=-eq-ok (fail_if (ltb value c) insufficient_collateral) _ h₂ in
      let covered = fail_if_passed (ltb value c) insufficient_collateral enough in
      let (asset, wins, h₄) =
        >>=-eq-ok (ok_or (winning_token_asset params.resolved_state contract.params) invalid_state)
          _ h₃ in
      let (slot, locks, h₅) =
        >>=-eq-ok (ok_or (collateral_slot_for_state params.resolved_state) invalid_state) _ h₄ in
      let locked = value - c in
      let base =
        add_pset_input
          (add_pset_inputs (add_pset_input new_pset params.collateral_utxo) params.token_utxos)
          params.fee_utxo in
      let kept =
        if ltb 0 locked
        then add_pset_output base (explicit_txout collateral_asset_id locked (script_pubkey slot))
        else base in
      let os = redeem_outputs slot asset locked params.tokens_burned c params.payout_destination in
      let paid =
        add_pset_output (add_pset_output kept (burn_txout asset params.tokens_burned))
          (explicit_txout collateral_asset_id c params.payout_destination) in
      let front : Extends os paid.outputs =
        redeemed slot asset locked params.tokens_burned c params.payout_destination base
          (base-outputs params.collateral_utxo params.token_utxos params.fee_utxo) in
      let whole : Extends os p.outputs =
        subst (λ (q : Pset). Extends os q.outputs) (ok_injective h₅)
          (Extends-add_pset_output os _ _
            (Extends-add_change os _ _ _ _ (Extends-add_change os paid _ _ _ front))) in
      rw (← same) (
        ground (arith, covered),
        elim (winner params.resolved_state wins locks) [
          | inl (at, a, k) ↦ inl (at, rw (← a, ← k) whole)
          | inr (at, a, k) ↦ inr (at, rw (← a, ← k) whole)
        ],
      )

  -- A redemption after the expiry that is built takes the collateral per token once for every token
  -- burned, which the collateral covers. Its first output is the rest of the collateral, if any, in
  -- the expired collateral slot; the next ones burn the tokens, of the stated asset, and pay the
  -- collateral taken to the payout's destination.
  pub expiry-outputs :
      (params : ExpiryRedemptionParams) {p : Pset}
      → build_expiry_redemption_pset contract params ≡ ok p
      → let payout = params.tokens_burned * collateral_per_token in
        (payout ≤ params.collateral_utxo.value)
        × Extends
            (redeem_outputs expired_collateral params.burn_token_asset
              (params.collateral_utxo.value - payout)
              params.tokens_burned
              payout
              params.payout_destination)
            p.outputs
  unfolding build_expiry_redemption_pset
  expiry-outputs params {p = p} h =
      let value = params.collateral_utxo.value in
      let asset = params.burn_token_asset in
      let (c, e, h₁) =
        >>=-eq-ok
          (ok_or (checked_mul params.tokens_burned collateral_per_token) collateral_overflow) _ h in
      let same = ok_checked_mul params.tokens_burned collateral_per_token collateral_overflow e in
      let (_, enough, h₂) = >>=-eq-ok (fail_if (ltb value c) insufficient_collateral) _ h₁ in
      let covered = fail_if_passed (ltb value c) insufficient_collateral enough in
      let locked = value - c in
      let base =
        add_pset_input
          (add_pset_inputs (add_pset_input new_pset params.collateral_utxo) params.token_utxos)
          params.fee_utxo in
      let kept =
        if ltb 0 locked
        then add_pset_output base
            (explicit_txout collateral_asset_id locked (script_pubkey expired_collateral))
        else base in
      let os =
        redeem_outputs expired_collateral asset locked params.tokens_burned c
          params.payout_destination in
      let paid =
        add_pset_output (add_pset_output kept (burn_txout asset params.tokens_burned))
          (explicit_txout collateral_asset_id c params.payout_destination) in
      let front : Extends os paid.outputs =
        redeemed expired_collateral asset locked params.tokens_burned c params.payout_destination
          base (base-outputs params.collateral_utxo params.token_utxos params.fee_utxo) in
      let whole : Extends os p.outputs =
        subst (λ (q : Pset). Extends os q.outputs) (ok_injective h₂)
          (Extends-add_pset_output os _ _
            (Extends-add_change os _ _ _ _ (Extends-add_change os paid _ _ _ front))) in
      rw (← same) (ground (arith, covered), whole)
