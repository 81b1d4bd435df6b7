-- ===== src/Scan/Walk/Ends.antt =====
-- The rounds of the scan follow the chain: each one that does not end it moves to a later
-- transaction.
use deadcat.Prelude.{
  ℕ, zero, suc, ◌-◌, ◌<◌, ◌≤◌, ◌≡◌, refl, sym, ap, ◌∙◌, subst, inl, inr, false, some, Bytes, Result,
  ok, err, Bool-cases, Result-cases, arith, String,
}
use deadcat.Pset.{OutPoint}
use deadcat.Market.Params.{PredictionMarketParams, CompiledPredictionMarket}
use deadcat.Scan.Anchor.{Text, PredictionMarketAnchor}
use deadcat.Scan.Chain.{
  Transaction, PredictionMarketScanBackend, CanonicalMarketScan, canonical_slot_scripts,
}
use deadcat.Scan.Creation.{Elements}
use deadcat.Scan.Transition.{Bundle, into_scan, bundle_utxos, bundle_last, spender, all_unspent}
use deadcat.Scan.Proper.{IsProper}
use deadcat.Scan.Proper.Follows.{Follows, resolve_transition-Follows}
use deadcat.Scan.Walk.{
  scan_round, scan_loop, scan_from, first_bundle, scan_prediction_market_canonical,
}
use deadcat.Scan.Walk.Start.{first_bundle-IsProper}
use deadcat.Scan.Walk.Live.{scan_round-eq-ok}

module _ (backend : PredictionMarketScanBackend)
    (honest : (txid : Bytes) (tx : Transaction)
      → backend.fetch_transaction txid ≡ ok tx
      → tx.txid ≡ txid)
    (position : Bytes → ℕ) (tip : ℕ)
    (later : (outpoint : OutPoint) (script txid : Bytes)
      → backend.spending_txid outpoint script ≡ ok (some txid)
      → (position outpoint.txid < position txid) × (position txid ≤ tip)) where
  module _ (contract : CompiledPredictionMarket) where
    Follows-rises :
        (last : Bytes) (b : Bundle)
        → Follows contract backend last b
        → all_unspent backend (bundle_utxos b) ≡ ok false
        → (position last < position (bundle_last b)) × (position (bundle_last b) ≤ tip)
    unfolding spender
    Follows-rises last b (proper, inl over) more = cc
    Follows-rises last b (proper, inr (u, asked, at_last)) more =
        let (before, within) = later u.outpoint u.txout.script_pubkey (bundle_last b) asked in
        (subst (λ t. position t < position (bundle_last b)) at_last before, within)

    scan_loop_ends :
        (fuel : ℕ) (b : Bundle)
        → IsProper contract b
        → tip - position (bundle_last b) < fuel
        → (r : Result String CanonicalMarketScan) × (scan_loop backend
              (canonical_slot_scripts contract)
              fuel
              b
            ≡ some r)
    unfolding scan_loop
    scan_loop_ends zero b h enough = absurd (omega arith)
    scan_loop_ends (suc fuel) b h enough =
        elim (Result-cases (scan_round backend (canonical_slot_scripts contract) b)) [
          | inr (failure, failed) ↦ (err failure, rw (failed, scan_loop))
          | inl ((next, done), ran) ↦
              let (moved, asked) = scan_round-eq-ok contract backend honest b next done ran in
              let follows = resolve_transition-Follows contract backend honest b h moved in
              elim (Bool-cases done) [
                | inl over ↦ (ok (into_scan next), rw (ran, scan_loop) (rw over refl))
                | inr more ↦
                    let rises = Follows-rises (bundle_last b) next follows (asked ∙ ap ok more) in
                    rw (ran, scan_loop) (rw more (scan_loop_ends fuel next follows.0 (omega arith)))
              ]
        ]

  module _ (text : Text) (elements : Elements)
      (compile : PredictionMarketParams → Result String CompiledPredictionMarket) where
    -- Where the backend returns transactions by their own identifiers, and a transaction that it
    -- reports to spend an output stands after the output's transaction in the chain and not after
    -- the tip, the scan comes to a result or an error: more rounds than the tip's position are
    -- never used up.
    pub scan_prediction_market_canonical_terminates :
        (fuel : ℕ) (params : PredictionMarketParams) (anchor : PredictionMarketAnchor)
        → tip < fuel
        → (r : Result String CanonicalMarketScan) × (scan_prediction_market_canonical text elements
              compile backend fuel params anchor
            ≡ some r)
    unfolding scan_prediction_market_canonical scan_from
    scan_prediction_market_canonical_terminates fuel params anchor enough =
        elim (Result-cases (first_bundle text elements compile backend params anchor)) [
          | inr (failure, failed) ↦ (err failure, rw (failed, scan_from))
          | inl ((b, scripts), started) ↦
              let (contract, compiled, same, proper) =
                first_bundle-IsProper text elements compile params anchor backend started in
              let (r, ran) = scan_loop_ends contract fuel b proper (omega arith) in
              (
                r,
                rw (started, scan_from)
                    (subst (λ k. scan_loop backend k fuel b ≡ some r) (sym same) ran),
              )
        ]
