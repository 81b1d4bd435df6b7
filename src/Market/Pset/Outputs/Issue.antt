-- ===== src/Market/Pset/Outputs/Issue.antt =====
-- The outputs of the issuances, of the resolution and of the expiry.
use deadcat.Prelude.{
  ℕ, ◌+◌, ◌*◌, ◌≡◌, refl, ap, ◌∙◌, subst, arith, some, Bytes, ok, List, [], ◌∷◌, fail_if, ok_or,
  >>=-eq-ok, ok_injective, ltb, checked_add, if◌then◌else◌, Extends, Extends-refl, get_elem?,
  Option, get_elem?-Extends,
}
use deadcat.Error.{Error, insufficient_collateral, collateral_overflow}
use deadcat.Pset.{
  Pset, Output, TxOut, new_pset, explicit_value, explicit_asset, explicit_txout, fee_txout,
  burn_txout, reissuance_token_output, add_pset_input, add_pset_output, add_change, modify_input,
  modify,
}
use deadcat.Market.State.{
  unresolved_yes_rt, unresolved_no_rt, unresolved_collateral, resolved_yes_collateral,
  resolved_no_collateral, expired_collateral,
}
use deadcat.Market.Params.{CompiledPredictionMarket}
use deadcat.Market.Pset.Issue.{
  collateral_for_pairs, build_initial_issuance_pset, build_subsequent_issuance_pset,
  InitialIssuanceParams, SubsequentIssuanceParams,
}
use deadcat.Market.Pset.Finish.{
  OracleResolveParams, ExpireTransitionParams, build_oracle_resolve_pset,
  build_expire_transition_pset,
}
use deadcat.Market.Pset.Outputs.{
  explicit_output, token_output, held_at, held_at-explicit, Extends-add_pset_output,
  Extends-add_change, changed-outputs, collateral_for_pairs-eq-ok, issued_at,
}

ok_checked_add : (a b : ℕ) (e : Error) {v : ℕ} → ok_or (checked_add a b) e ≡ ok v → v ≡ a + b
unfolding checked_add
ok_checked_add a b e h = ground arith

third_of_three :
    (p : Pset) (t u v : TxOut)
    → p.outputs ≡ []
    → get_elem? (add_pset_output (add_pset_output (add_pset_output p t) u) v).outputs 2
      ≡ some (record {
        amount = explicit_value v.value;
        asset = explicit_asset v.asset;
        script_pubkey = v.script_pubkey;
      })
unfolding add_pset_output
third_of_three p t u v none = rw none refl

-- The third output of a transaction that adds three, a change and a fee.
third_output :
    (p : Pset) (t u v : TxOut) (asset : Bytes) (change : ℕ) (dest : Option Bytes) (fee : TxOut)
    → p.outputs ≡ []
    → get_elem?
        (add_pset_output
          (add_change
            (add_pset_output (add_pset_output (add_pset_output p t) u) v)
            asset
            change
            dest)
          fee).outputs
        2
      ≡ some (record {
        amount = explicit_value v.value;
        asset = explicit_asset v.asset;
        script_pubkey = v.script_pubkey;
      })
third_output p t u v asset change dest fee none =
    let three = add_pset_output (add_pset_output (add_pset_output p t) u) v in
    get_elem?-Extends three.outputs _ 2
      (Extends-add_pset_output three.outputs (add_change three asset change dest) fee
        (Extends-add_change three.outputs three asset change dest (Extends-refl three.outputs)))
      (third_of_three p t u v none)

module _ (contract : CompiledPredictionMarket) where
  open contract use {
    script_pubkey,
    params.{collateral_asset_id, yes_token_asset, no_token_asset, collateral_per_token},
  }

  -- The reissuance tokens in the unresolved slots, the collateral, and the new tokens.
  abbrev pub issue_outputs :
      (collateral pairs : ℕ) (yes_destination no_destination : Bytes) → List Output
  issue_outputs collateral pairs yes_destination no_destination =
      token_output (script_pubkey unresolved_yes_rt)
      ∷ token_output (script_pubkey unresolved_no_rt)
      ∷ explicit_output collateral_asset_id collateral (script_pubkey unresolved_collateral)
      ∷ explicit_output yes_token_asset pairs yes_destination
      ∷ explicit_output no_token_asset pairs no_destination
      ∷ []

  -- A transaction that issues `pairs` and locks `collateral`.
  abbrev pub Issues :
      (collateral pairs : ℕ) (yes_destination no_destination : Bytes) → Pset → Type 0
  Issues collateral pairs yes_destination no_destination p =
      Extends (issue_outputs collateral pairs yes_destination no_destination) p.outputs
      × (issued_at 0 p.inputs ≡ some pairs)
      × (issued_at 1 p.inputs ≡ some pairs)

  -- The first two inputs of a first issuance that is built issue the pairs. Its first outputs are
  -- the reissuance tokens in the unresolved slots, twice the collateral per token for every pair in
  -- the unresolved collateral slot, and the pairs' YES and NO tokens for their receivers.
  pub initial_issuance-outputs :
      (params : InitialIssuanceParams) {p : Pset}
      → build_initial_issuance_pset contract params ≡ ok p
      → Issues
          (params.pairs * 2 * collateral_per_token)
          params.pairs
          params.yes_token_destination
          params.no_token_destination
          p
  unfolding build_initial_issuance_pset add_pset_output add_pset_input modify_input modify
      explicit_txout fee_txout reissuance_token_output new_pset
  initial_issuance-outputs params {p = p} h =
      let (c, e, h₁) = >>=-eq-ok (collateral_for_pairs params.pairs collateral_per_token) _ h in
      let (same, _) = collateral_for_pairs-eq-ok params.pairs collateral_per_token e in
      let (_, _, h₂) =
        >>=-eq-ok (fail_if (ltb params.collateral_utxo.value c) insufficient_collateral) _ h₁ in
      subst (λ n. Issues n params.pairs params.yes_token_destination params.no_token_destination p)
        same
        (subst (Issues c params.pairs params.yes_token_destination params.no_token_destination)
          (ok_injective h₂)
          (changed-outputs
            (issue_outputs c params.pairs params.yes_token_destination params.no_token_destination)
            _ _ _ _ _ _ _ _ _ (_ ∷ [], refl) refl refl))

  -- The first two inputs of a later issuance that is built issue the pairs. Its first outputs are the
  -- reissuance tokens in the unresolved slots, the old collateral with twice the collateral per token
  -- for every new pair in the unresolved collateral slot, and the pairs' YES and NO tokens for their
  -- receivers.
  pub subsequent_issuance-outputs :
      (params : SubsequentIssuanceParams) {p : Pset}
      → build_subsequent_issuance_pset contract params ≡ ok p
      → Issues
          (params.collateral_utxo.value + params.pairs * 2 * collateral_per_token)
          params.pairs
          params.yes_token_destination
          params.no_token_destination
          p
  unfolding build_subsequent_issuance_pset add_pset_output add_pset_input modify_input modify
      explicit_txout fee_txout reissuance_token_output new_pset
  subsequent_issuance-outputs params {p = p} h =
      let (c, e, h₁) = >>=-eq-ok (collateral_for_pairs params.pairs collateral_per_token) _ h in
      let (same, _) = collateral_for_pairs-eq-ok params.pairs collateral_per_token e in
      let (total, added, h₂) =
        >>=-eq-ok (ok_or (checked_add params.collateral_utxo.value c) collateral_overflow) _ h₁ in
      let (_, _, h₃) =
        >>=-eq-ok (fail_if (ltb params.new_collateral_utxo.value c) insufficient_collateral) _ h₂ in
      let sum = ok_checked_add params.collateral_utxo.value c collateral_overflow added in
      subst (λ n. Issues n params.pairs params.yes_token_destination params.no_token_destination p)
        (sum ∙ ap (λ n. params.collateral_utxo.value + n) same)
        (subst (Issues total params.pairs params.yes_token_destination params.no_token_destination)
          (ok_injective h₃)
          (changed-outputs
            (issue_outputs total params.pairs params.yes_token_destination
              params.no_token_destination)
            _ _ _ _ _ _ _ _ _ (_ ∷ [], refl) refl refl))

  pub oracle_resolve-held :
      (params : OracleResolveParams)
      → held_at collateral_asset_id
          (script_pubkey
            (if params.outcome_yes then resolved_yes_collateral else resolved_no_collateral))
          2
          (build_oracle_resolve_pset contract params).outputs
        ≡ params.collateral_utxo.value
  unfolding build_oracle_resolve_pset add_pset_input explicit_txout burn_txout new_pset
  oracle_resolve-held params =
      held_at-explicit collateral_asset_id _ 2 _ (third_output _ _ _ _ _ _ _ _ refl)

  pub expire_transition-held :
      (params : ExpireTransitionParams)
      → held_at collateral_asset_id
          (script_pubkey expired_collateral)
          2
          (build_expire_transition_pset contract params).outputs
        ≡ params.collateral_utxo.value
  unfolding build_expire_transition_pset add_pset_input explicit_txout burn_txout new_pset
  expire_transition-held params =
      held_at-explicit collateral_asset_id _ 2 _ (third_output _ _ _ _ _ _ _ _ refl)

  -- What an issuance locks and mints, as amounts.
  pub Issues-held :
      (collateral pairs : ℕ) (yes_destination no_destination : Bytes) (p : Pset)
      → Issues collateral pairs yes_destination no_destination p
      → (held_at collateral_asset_id (script_pubkey unresolved_collateral) 2 p.outputs ≡ collateral)
        × (held_at yes_token_asset yes_destination 3 p.outputs ≡ pairs)
        × (held_at no_token_asset no_destination 4 p.outputs ≡ pairs)
  Issues-held collateral pairs yes_destination no_destination p (more, _, _) =
      let os = issue_outputs collateral pairs yes_destination no_destination in
      (
        held_at-explicit collateral_asset_id _ 2 _ (get_elem?-Extends os p.outputs 2 more refl),
        held_at-explicit yes_token_asset _ 3 _ (get_elem?-Extends os p.outputs 3 more refl),
        held_at-explicit no_token_asset _ 4 _ (get_elem?-Extends os p.outputs 4 more refl),
      )
