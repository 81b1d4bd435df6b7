-- ===== src/Scan/Walk/Live.antt =====
-- The result of the scan against the chain and the covenant.
use deadcat.Prelude.{
  ℕ, zero, suc, ◌≡◌, refl, ap, ◌∙◌, subst, ◌⊎◌, inl, inr, Bool, true, not, ◌&&◌, none, some, List,
  [], ◌∷◌, Bytes, All, ok, >>=-eq-ok, ok_injective, some_injective, Bool-cases, Result-cases,
  Option-cases, is_some, arith,
}
use deadcat.Market.State.{
  MarketState, MarketSlot, resolved_yes, resolved_no, expired, dormant, unresolved,
  derive_state_from_live_slots, live_slots_for_state, contains,
}
use deadcat.Market.State.Derive.{derive_state_iff}
use deadcat.Market.Params.{CompiledPredictionMarket}
use deadcat.Scan.Chain.{
  Transaction, PredictionMarketScanBackend, CanonicalMarketUtxo, CanonicalMarketScan,
  canonical_slot_scripts,
}
use deadcat.Scan.Transition.{
  Bundle, dormant_bundle, unresolved_bundle, resolved_yes_bundle, resolved_no_bundle,
  expired_bundle, empty_terminal, bundle_state, bundle_utxos, into_scan, slots_of, spender,
  all_unspent, resolve_transition,
}
use deadcat.Scan.Proper.{IsTerminal, IsProper}
use deadcat.Scan.Proper.Follows.{resolve_transition-Follows}
use deadcat.Scan.Walk.Start.{first_bundle-IsProper}
use deadcat.Prelude.{Result, String}
use deadcat.Market.Params.{PredictionMarketParams}
use deadcat.Scan.Anchor.{Text, PredictionMarketAnchor}
use deadcat.Scan.Creation.{Elements}
use deadcat.Scan.Walk.{
  first_bundle, scan_prediction_market_canonical, scan_round, scan_loop, scan_from,
}

-- The scan's result against the covenant's scripts and the chain: its outputs are live ones, they go
-- to the scripts of their slots, and their slots determine the state; or everything is redeemed.
pub record IsCurrent (contract : CompiledPredictionMarket) (backend : PredictionMarketScanBackend)
    (scan : CanonicalMarketScan) : Type 0 where
  pub state :
      (derive_state_from_live_slots (slots_of scan.utxos) ≡ ok scan.state)
      ⊎ ((scan.utxos ≡ []) × IsTerminal scan.state)
  pub scripts : All (λ u. u.txout.script_pubkey ≡ contract.script_pubkey u.slot) scan.utxos
  pub unspent : All (λ u. spender backend u ≡ ok none) scan.utxos

all_unspent-All :
    (backend : PredictionMarketScanBackend) (us : List CanonicalMarketUtxo)
    → all_unspent backend us ≡ ok true
    → All (λ u. spender backend u ≡ ok none) us
unfolding all_unspent
all_unspent-All backend [] e = tt
all_unspent-All backend (u ∷ us) e =
    let (found, asked, e₁) = >>=-eq-ok (spender backend u) _ e in
    let (rest, ran, e₂) = >>=-eq-ok (all_unspent backend us) _ e₁ in
    let both : (not (is_some found) && rest) ≡ true = ok_injective e₂ in
    elim (Option-cases found) [
      | inl nobody ↦
          let later : rest ≡ true = rw nobody at both in
          (rw nobody at asked, all_unspent-All backend us (rw later at ran))
      | inr (t, somebody) ↦ (let failed = rw somebody at both in cc)
    ]

module _ (contract : CompiledPredictionMarket) where
  derived :
      (slots : List MarketSlot) (s : MarketState)
      → slots ≡ live_slots_for_state s
      → derive_state_from_live_slots slots ≡ ok s
  derived slots s e = (derive_state_iff slots s).1 (λ k. ap (λ ks. contains ks k) e)

  proper_state :
      (b : Bundle)
      → IsProper contract b
      → (derive_state_from_live_slots (slots_of (bundle_utxos b)) ≡ ok (bundle_state b))
        ⊎ ((bundle_utxos b ≡ []) × IsTerminal (bundle_state b))
  unfolding bundle_utxos bundle_state live_slots_for_state
  proper_state (dormant_bundle y n last) h = inl (derived _ dormant (ground (arith, h)))
  proper_state (unresolved_bundle y n c last) h = inl (derived _ unresolved (ground (arith, h)))
  proper_state (resolved_yes_bundle c last) h = inl (derived _ resolved_yes (ground (arith, h)))
  proper_state (resolved_no_bundle c last) h = inl (derived _ resolved_no (ground (arith, h)))
  proper_state (expired_bundle c last) h = inl (derived _ expired (ground (arith, h)))
  proper_state (empty_terminal s last) h = inr (refl, h)

  proper_scripts :
      (b : Bundle)
      → IsProper contract b
      → All (λ u. u.txout.script_pubkey ≡ contract.script_pubkey u.slot) (bundle_utxos b)
  unfolding bundle_utxos
  proper_scripts (dormant_bundle y n last) h = ground (arith, h)
  proper_scripts (unresolved_bundle y n c last) h = ground (arith, h)
  proper_scripts (resolved_yes_bundle c last) h = ground (arith, h)
  proper_scripts (resolved_no_bundle c last) h = ground (arith, h)
  proper_scripts (expired_bundle c last) h = ground (arith, h)
  proper_scripts (empty_terminal s last) h = tt

module _ (contract : CompiledPredictionMarket) (backend : PredictionMarketScanBackend)
    (honest : (txid : Bytes) (tx : Transaction)
      → backend.fetch_transaction txid ≡ ok tx
      → tx.txid ≡ txid) where
  pub scan_round-eq-ok :
      (b next : Bundle) (done : Bool)
      → scan_round backend (canonical_slot_scripts contract) b ≡ ok (next, done)
      → (resolve_transition backend (canonical_slot_scripts contract) b ≡ ok next)
        × (all_unspent backend (bundle_utxos next) ≡ ok done)
  unfolding scan_round
  scan_round-eq-ok b next done e =
      let (next', moved, e₁) =
        >>=-eq-ok (resolve_transition backend (canonical_slot_scripts contract) b) _ e in
      let (done', asked, e₂) = >>=-eq-ok (all_unspent backend (bundle_utxos next')) _ e₁ in
      let same = ok_injective e₂ in
      (
        moved ∙ ap (λ (p : Bundle × Bool). ok p.0) same,
        subst (λ (p : Bundle × Bool). all_unspent backend (bundle_utxos p.0) ≡ ok p.1) same asked,
      )

  scan_loop-IsCurrent :
      (fuel : ℕ) (b : Bundle) {r : CanonicalMarketScan}
      → IsProper contract b
      → scan_loop backend (canonical_slot_scripts contract) fuel b ≡ some (ok r)
      → IsCurrent contract backend r
  unfolding scan_loop into_scan
  scan_loop-IsCurrent zero b h e = cc
  scan_loop-IsCurrent (suc fuel) b {r = r} h e =
      elim (Result-cases (scan_round backend (canonical_slot_scripts contract) b)) [
        | inr (failure, failed) ↦ (let stop = rw (failed, scan_loop) at e in cc)
        | inl ((next, done), ran) ↦
            let (moved, asked) = scan_round-eq-ok b next done ran in
            let proper = (resolve_transition-Follows contract backend honest b h moved).0 in
            let after = rw (ran, scan_loop) at e in
            elim (Bool-cases done) [
              | inl over ↦
                  let ended = rw over at after in
                  subst (IsCurrent contract backend) (ok_injective (some_injective ended)) (record {
                    state = proper_state contract next proper;
                    scripts = proper_scripts contract next proper;
                    unspent = all_unspent-All backend (bundle_utxos next) (rw over at asked);
                  })
              | inr more ↦ scan_loop-IsCurrent fuel next proper (rw more at after)
            ]
      ]

module _ (text : Text) (elements : Elements)
    (compile : PredictionMarketParams → Result String CompiledPredictionMarket)
    (backend : PredictionMarketScanBackend)
    (honest : (txid : Bytes) (tx : Transaction)
      → backend.fetch_transaction txid ≡ ok tx
      → tx.txid ≡ txid) where
  -- Whatever number of rounds is allowed: where the backend returns transactions by their own
  -- identifiers, and the scan of the market of `params` succeeds, the parameters compile to a
  -- contract such that no output in the result is spent, each is locked by the contract's script of
  -- its slot, and the state is the one that the outputs' slots determine, or there is no output
  -- and the state is a terminal one.
  pub scan_prediction_market_canonical-IsCurrent :
      (fuel : ℕ) (params : PredictionMarketParams) (anchor : PredictionMarketAnchor)
      {r : CanonicalMarketScan}
      → scan_prediction_market_canonical text elements compile backend fuel params anchor
        ≡ some (ok r)
      → (contract : CompiledPredictionMarket) × (compile params ≡ ok contract)
        × IsCurrent contract backend r
  unfolding scan_prediction_market_canonical scan_from
  scan_prediction_market_canonical-IsCurrent fuel params anchor {r = r} e =
      elim (Result-cases (first_bundle text elements compile backend params anchor)) [
        | inr (failure, failed) ↦ (let stop = rw (failed, scan_from) at e in cc)
        | inl ((b, scripts), started) ↦
            let (contract, compiled, same, proper) =
              first_bundle-IsProper text elements compile params anchor backend started in
            let ran : scan_loop backend scripts fuel b ≡ some (ok r) =
              rw (started, scan_from) at e in
            (
              contract,
              compiled,
              scan_loop-IsCurrent contract backend honest fuel b proper
                  (subst (λ k. scan_loop backend k fuel b ≡ some (ok r)) same ran),
            )
      ]
