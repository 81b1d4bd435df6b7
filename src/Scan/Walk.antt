-- ===== src/Scan/Walk.antt =====
-- prediction_market_scan.rs: the loop of `scan_prediction_market_canonical`. It runs on fuel, and
-- gives `none` where the fuel runs out.
pub mod Start
pub mod Live
pub mod Ends
use deadcat.Prelude.{
  ℕ, zero, suc, Bool, true, false, not, if◌then◌else◌, Option, none, some, List, [], ◌∷◌, Bytes,
  Result, ok, err, fail_if, ◌>>=◌, ◌>>◌, ok_or, String,
}
use deadcat.Pset.{TxOut}
use deadcat.Market.State.{dormant_yes_rt, dormant_no_rt}
use deadcat.Market.Params.{PredictionMarketParams, CompiledPredictionMarket}
use deadcat.Scan.Anchor.{Text, PredictionMarketAnchor, parse_prediction_market_anchor}
use deadcat.Scan.Chain.{
  PredictionMarketScanBackend, CanonicalMarketScan, Transaction, canonical_slot_scripts,
}
use deadcat.Scan.Creation.{Elements, validate_prediction_market_creation_tx}
use deadcat.Scan.Transition.{
  Bundle, dormant_bundle, unresolved_bundle, resolved_yes_bundle, resolved_no_bundle,
  expired_bundle, empty_terminal, into_scan, bundle_utxos, resolve_transition, all_unspent,
}
use deadcat.Market.State.{MarketSlot}

-- The first bundle, and the scripts that the loop looks for.
unfoldable pub dormant_start :
    Bytes → List (MarketSlot × Bytes) → List TxOut → Option (Bundle × List (MarketSlot × Bytes))
dormant_start creation_txid slot_scripts (yes_rt ∷ no_rt ∷ rest) = some (
  dormant_bundle
      (record {
        slot = dormant_yes_rt;
        outpoint = record { txid = creation_txid; vout = 0 };
        txout = yes_rt;
      })
      (record {
        slot = dormant_no_rt;
        outpoint = record { txid = creation_txid; vout = 1 };
        txout = no_rt;
      })
      creation_txid,
  slot_scripts,
)
dormant_start creation_txid slot_scripts _ = none

module _ (backend : PredictionMarketScanBackend) (slot_scripts : List (MarketSlot × Bytes)) where
  -- One round: the transition, and whether the loop returns after it.
  unfoldable pub scan_round : Bundle → Result String (Bundle × Bool)
  scan_round bundle = do
    next ← resolve_transition backend slot_scripts bundle
    done ← all_unspent backend (bundle_utxos next)
    ok (next, done)

  unfoldable pub scan_loop : ℕ → Bundle → Option (Result String CanonicalMarketScan)
  scan_loop zero bundle = none
  scan_loop (suc fuel) bundle = elim (scan_round bundle) [
    | err e ↦ some (err e)
    | ok (next, done) ↦ elim done [
      | true ↦ some (ok (into_scan next))
      | false ↦ scan_loop fuel next
    ]
  ]

-- The loop, where the code before it succeeds.
unfoldable pub scan_from :
    PredictionMarketScanBackend
    → ℕ
    → Result String (Bundle × List (MarketSlot × Bytes))
    → Option (Result String CanonicalMarketScan)
scan_from backend fuel (err e) = some (err e)
scan_from backend fuel (ok (bundle, slot_scripts)) = scan_loop backend slot_scripts fuel bundle

module _ (text : Text) (elements : Elements)
    (compile : PredictionMarketParams → Result String CompiledPredictionMarket)
    (backend : PredictionMarketScanBackend) where
  -- The bundle that the loop starts from, and the covenant's scripts.
  unfoldable pub first_bundle :
      PredictionMarketParams
      → PredictionMarketAnchor
      → Result String (Bundle × List (MarketSlot × Bytes))
  first_bundle params anchor = do
    parsed_anchor ← parse_prediction_market_anchor text anchor
    let creation_txid = parsed_anchor.creation_txid
    creation_tx ← backend.fetch_transaction creation_txid
    valid ← validate_prediction_market_creation_tx text elements compile params creation_tx anchor
    fail_if (not valid) "not a canonical prediction-market creation bootstrap"
    contract ← compile params
    ok_or (dormant_start creation_txid (canonical_slot_scripts contract) creation_tx.output)
        "creation tx missing dormant output"

  unfoldable pub scan_prediction_market_canonical :
      ℕ
      → PredictionMarketParams
      → PredictionMarketAnchor
      → Option (Result String CanonicalMarketScan)
  scan_prediction_market_canonical fuel params anchor =
      scan_from backend fuel (first_bundle params anchor)
