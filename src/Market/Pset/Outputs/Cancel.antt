-- ===== src/Market/Pset/Outputs/Cancel.antt =====
-- The outputs of the cancellation of pairs.
use deadcat.Prelude.{
  ℕ, ◌-◌, ◌*◌, ◌≤◌, ◌≡◌, refl, sym, subst, inl, inr, arith, Bytes, ok, List, [], ◌∷◌, fail_if,
  fail_if_passed, ok_or, >>=-eq-ok, ok_injective, ltb, if◌then◌else◌, Bool-cases, Extends,
  get_elem?-Extends,
}
use deadcat.Error.{insufficient_collateral, missing_reissuance_utxos}
use deadcat.Pset.{
  Pset, Output, new_pset, explicit_txout, burn_txout, burn_script_pubkey, reissuance_token_output,
  add_pset_input, add_pset_inputs, add_pset_output,
}
use deadcat.Market.State.{dormant_yes_rt, dormant_no_rt, unresolved_collateral}
use deadcat.Market.Params.{CompiledPredictionMarket}
use deadcat.Market.Pset.Issue.{collateral_for_pairs}
use deadcat.Market.Pset.Redeem.{
  CancellationParams, partial_cancellation, full_cancellation, build_cancellation_pset,
}
use deadcat.Market.Pset.Outputs.{
  explicit_output, burn_output, token_output, held_at, held_at-explicit, Extends-add_pset_output,
  Extends-add_change, outputs-two, collateral_for_pairs-eq-ok,
}

module _ (contract : CompiledPredictionMarket) where
  open contract use {
    script_pubkey,
    params.{collateral_asset_id, yes_token_asset, no_token_asset, collateral_per_token},
  }

  abbrev paid : (pairs refund : ℕ) (destination : Bytes) → List Output
  paid pairs refund destination =
      burn_output yes_token_asset pairs
      ∷ burn_output no_token_asset pairs
      ∷ explicit_output collateral_asset_id refund destination
      ∷ []

  abbrev partial_outputs : (remaining pairs refund : ℕ) (destination : Bytes) → List Output
  partial_outputs remaining pairs refund destination =
      explicit_output collateral_asset_id remaining (script_pubkey unresolved_collateral)
      ∷ paid pairs refund destination

  abbrev full_outputs : (pairs refund : ℕ) (destination : Bytes) → List Output
  full_outputs pairs refund destination =
      token_output (script_pubkey dormant_yes_rt)
      ∷ token_output (script_pubkey dormant_no_rt)
      ∷ paid pairs refund destination

  -- What remains of the collateral in its slot, or the reissuance tokens in the dormant slots where
  -- nothing remains; then the burned pairs and the refund.
  abbrev pub cancel_outputs : (remaining pairs refund : ℕ) (destination : Bytes) → List Output
  cancel_outputs remaining pairs refund destination =
      if ltb 0 remaining
      then partial_outputs remaining pairs refund destination
      else full_outputs pairs refund destination

  pub cancel_outputs-held :
      (remaining pairs refund : ℕ) (destination : Bytes) (os : List Output)
      → Extends (cancel_outputs remaining pairs refund destination) os
      → ((if ltb 0 remaining
            then held_at collateral_asset_id (script_pubkey unresolved_collateral) 0 os
            else 0)
          ≡ remaining)
        × (held_at yes_token_asset burn_script_pubkey (if ltb 0 remaining then 1 else 2) os ≡ pairs)
        × (held_at no_token_asset burn_script_pubkey (if ltb 0 remaining then 2 else 3) os ≡ pairs)
  cancel_outputs-held remaining pairs refund destination os h =
      let locked = partial_outputs remaining pairs refund destination in
      let all = full_outputs pairs refund destination in
      elim (Bool-cases (ltb 0 remaining)) [
        | inl left ↦
            let k : Extends locked os = rw left at h in
            rw left (
              held_at-explicit collateral_asset_id _ 0 os (get_elem?-Extends locked os 0 k refl),
              held_at-explicit yes_token_asset _ 1 os (get_elem?-Extends locked os 1 k refl),
              held_at-explicit no_token_asset _ 2 os (get_elem?-Extends locked os 2 k refl),
            )
        | inr gone ↦
            let k : Extends all os = rw gone at h in
            rw gone (
              (let nothing : remaining ≡ 0 = ground (arith, gone) in sym nothing),
              held_at-explicit yes_token_asset _ 2 os (get_elem?-Extends all os 2 k refl),
              held_at-explicit no_token_asset _ 3 os (get_elem?-Extends all os 3 k refl),
            )
      ]

  partial_front :
      (params : CancellationParams) (refund remaining : ℕ)
      → let base =
          add_pset_input
            (add_pset_inputs
              (add_pset_inputs
                (add_pset_input new_pset params.collateral_utxo)
                params.yes_token_utxos)
              params.no_token_utxos)
            params.fee_utxo in
        let os = partial_outputs remaining params.pairs_burned refund params.refund_destination in
        let locked =
          add_pset_output base
            (explicit_txout collateral_asset_id remaining (script_pubkey unresolved_collateral)) in
        let burned =
          add_pset_output
            (add_pset_output locked (burn_txout yes_token_asset params.pairs_burned))
            (burn_txout no_token_asset params.pairs_burned) in
        Extends os
          (add_pset_output burned
            (explicit_txout collateral_asset_id refund params.refund_destination)).outputs
  unfolding add_pset_output add_pset_input explicit_txout burn_txout new_pset
  partial_front params refund remaining =
      let none =
        outputs-two (add_pset_input new_pset params.collateral_utxo) params.yes_token_utxos
          params.no_token_utxos in
      rw none ([], refl)

  partial_cancellation-outputs :
      (params : CancellationParams) (refund remaining : ℕ)
      → Extends
          (partial_outputs remaining params.pairs_burned refund params.refund_destination)
          (partial_cancellation contract params refund remaining).outputs
  unfolding partial_cancellation
  partial_cancellation-outputs params refund remaining =
      let os = partial_outputs remaining params.pairs_burned refund params.refund_destination in
      Extends-add_change os _ _ _ _
        (Extends-add_change os _ _ _ _ (partial_front params refund remaining))

  full_cancellation-outputs :
      (params : CancellationParams) (refund : ℕ) {p : Pset}
      → full_cancellation contract params refund ≡ ok p
      → Extends (full_outputs params.pairs_burned refund params.refund_destination) p.outputs
  unfolding full_cancellation add_pset_output add_pset_input explicit_txout burn_txout
      reissuance_token_output new_pset
  full_cancellation-outputs params refund h =
      let os = full_outputs params.pairs_burned refund params.refund_destination in
      let (y, _, h₁) = >>=-eq-ok (ok_or params.yes_reissuance_utxo missing_reissuance_utxos) _ h in
      let (n, _, h₂) = >>=-eq-ok (ok_or params.no_reissuance_utxo missing_reissuance_utxos) _ h₁ in
      let base =
        add_pset_input (add_pset_input (add_pset_input new_pset params.collateral_utxo) y) n in
      let none = outputs-two base params.yes_token_utxos params.no_token_utxos in
      subst (λ (q : Pset). Extends os q.outputs) (ok_injective h₂) (rw none ([], refl))

  chosen-outputs :
      (params : CancellationParams) (refund remaining : ℕ) {p : Pset}
      → (if ltb 0 remaining
          then ok (partial_cancellation contract params refund remaining)
          else full_cancellation contract params refund)
        ≡ ok p
      → Extends
          (cancel_outputs remaining params.pairs_burned refund params.refund_destination)
          p.outputs
  chosen-outputs params refund remaining {p = p} h = elim (Bool-cases (ltb 0 remaining)) [
    | inl left ↦
        let os = partial_outputs remaining params.pairs_burned refund params.refund_destination in
        rw left (
          subst (λ (q : Pset). Extends os q.outputs) (ok_injective (rw left at h))
            (partial_cancellation-outputs params refund remaining))
    | inr gone ↦ rw gone (full_cancellation-outputs params refund (rw gone at h))
  ]

  -- A cancellation that is built takes twice the collateral per token for every pair burned, which
  -- the collateral covers. If collateral remains, the first output is the rest in the unresolved
  -- collateral slot; otherwise the first two are the reissuance tokens in the dormant slots. The next
  -- ones burn the pairs' YES and NO tokens and pay the collateral taken to the refund's destination.
  pub cancellation-outputs :
      (params : CancellationParams) {p : Pset}
      → build_cancellation_pset contract params ≡ ok p
      → let refund = params.pairs_burned * 2 * collateral_per_token in
        (refund ≤ params.collateral_utxo.value)
        × Extends
            (cancel_outputs
              (params.collateral_utxo.value - refund)
              params.pairs_burned
              refund
              params.refund_destination)
            p.outputs
  unfolding build_cancellation_pset
  cancellation-outputs params {p = p} h =
      let value = params.collateral_utxo.value in
      let (c, e, h₁) =
        >>=-eq-ok (collateral_for_pairs params.pairs_burned collateral_per_token) _ h in
      let (same, _) = collateral_for_pairs-eq-ok params.pairs_burned collateral_per_token e in
      let (_, enough, h₂) = >>=-eq-ok (fail_if (ltb value c) insufficient_collateral) _ h₁ in
      let covered = fail_if_passed (ltb value c) insufficient_collateral enough in
      let locked = value - c in
      let os = cancel_outputs locked params.pairs_burned c params.refund_destination in
      let (q, built, h₃) =
        >>=-eq-ok
          (if ltb 0 locked
            then ok (partial_cancellation contract params c locked)
            else full_cancellation contract params c)
          _ h₂ in
      let whole : Extends os p.outputs =
        subst (λ (q : Pset). Extends os q.outputs) (ok_injective h₃)
          (Extends-add_pset_output os _ _
            (Extends-add_change os q _ _ _ (chosen-outputs params c locked built))) in
      rw (← same) (ground (arith, covered), whole)
