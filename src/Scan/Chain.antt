-- ===== src/Scan/Chain.antt =====
-- prediction_market_scan.rs: transactions as far as the scan reads them, the chain that it asks, and
-- the covenant outputs of a transaction.
use deadcat.Prelude.{
  ℕ, suc, ◌%◌, ◌^◌, Bool, false, not, ◌&&◌, ◌==◌, if◌then◌else◌, Option, none, some, List, [], ◌∷◌,
  Bytes, bytes_eq, any, all, map, length, Result, ok, err, fail_if, ◌>>=◌, ◌>>◌, String,
}
use deadcat.Pset.{OutPoint, outpoint_eq, TxOut, Value, burn_script_pubkey}
use deadcat.Market.State.{MarketSlot, MarketState, all_slots, slot_eq}
use deadcat.Market.Params.{CompiledPredictionMarket}

pub record AssetIssuance : Type 0 where
  pub asset_blinding_nonce : Bytes
  pub asset_entropy : Bytes
  pub amount : Value
  pub inflation_keys : Value

-- `is_null` is the crate's test on `asset_issuance`.
pub record TxIn : Type 0 where
  pub previous_output : OutPoint
  pub asset_issuance : AssetIssuance
  pub is_null : Bool

-- `txid` is the identifier that the crate computes.
pub record Transaction : Type 0 where
  pub txid : Bytes
  pub input : List TxIn
  pub output : List TxOut

-- `trait PredictionMarketScanBackend`
pub record PredictionMarketScanBackend : Type 0 where
  pub fetch_transaction : Bytes → Result String Transaction
  pub spending_txid : OutPoint → Bytes → Result String (Option Bytes)

pub record CanonicalMarketUtxo : Type 0 where
  pub slot : MarketSlot
  pub outpoint : OutPoint
  pub txout : TxOut

pub record CanonicalMarketScan : Type 0 where
  pub state : MarketState
  pub utxos : List CanonicalMarketUtxo
  pub last_transition_txid : Bytes

unfoldable pub tx_spends_outpoint : Transaction → OutPoint → Bool
unfolding any
tx_spends_outpoint tx outpoint = any (λ i. outpoint_eq i.previous_output outpoint) tx.input

unfoldable pub tx_spends_all : Transaction → List OutPoint → Bool
unfolding all
tx_spends_all tx outpoints = all (λ o. tx_spends_outpoint tx o) outpoints

unfoldable pub canonical_slot_scripts : CompiledPredictionMarket → List (MarketSlot × Bytes)
canonical_slot_scripts contract = map (λ slot. (slot, contract.script_pubkey slot)) all_slots

-- The `find_map` over the slots of `find_slot_outputs`.
unfoldable pub slot_of_script : List (MarketSlot × Bytes) → Bytes → Option MarketSlot
slot_of_script [] script = none
slot_of_script ((slot, spk) ∷ slot_scripts) script =
    let rest = slot_of_script slot_scripts script in if bytes_eq script spk then some slot else rest

-- The `filter_map` over the outputs, from position `vout` on. A position is cast to a `u32`.
unfoldable pub slot_outputs_from :
    Bytes → List (MarketSlot × Bytes) → ℕ → List TxOut → List CanonicalMarketUtxo
slot_outputs_from txid slot_scripts vout [] = []
slot_outputs_from txid slot_scripts vout (txout ∷ txouts) =
    let rest = slot_outputs_from txid slot_scripts (suc vout) txouts in
    elim (slot_of_script slot_scripts txout.script_pubkey) [
      | none ↦ rest
      | some slot ↦
          record {
            slot = slot;
            outpoint = record { txid = txid; vout = vout % 2 ^ 32 };
            txout = txout;
          }
          ∷ rest
    ]

unfoldable pub find_slot_outputs :
    Transaction → List (MarketSlot × Bytes) → List CanonicalMarketUtxo
find_slot_outputs tx slot_scripts = slot_outputs_from tx.txid slot_scripts 0 tx.output

-- `outputs.iter().filter(|output| output.slot == *slot)`
unfoldable pub with_slot : MarketSlot → List CanonicalMarketUtxo → List CanonicalMarketUtxo
with_slot slot [] = []
with_slot slot (utxo ∷ utxos) =
    let rest = with_slot slot utxos in if slot_eq utxo.slot slot then utxo ∷ rest else rest

-- The loop over the expected slots of `expect_exact_slot_set`.
unfoldable pub match_slots :
    List CanonicalMarketUtxo → List MarketSlot → Result String (List CanonicalMarketUtxo)
match_slots outputs [] = ok []
match_slots outputs (slot ∷ slots) = elim (with_slot slot outputs) [
  | [] ↦ err "expected exactly one output for slot"
  | utxo ∷ more ↦ (do
    fail_if (not (length more == 0)) "expected exactly one output for slot"
    matched ← match_slots outputs slots
    ok (utxo ∷ matched))
]

unfoldable pub expect_exact_slot_set :
    Transaction
    → List (MarketSlot × Bytes)
    → List MarketSlot
    → Result String (List CanonicalMarketUtxo)
expect_exact_slot_set tx slot_scripts expected = do
  let outputs = find_slot_outputs tx slot_scripts
  fail_if (not (length outputs == length expected)) "unexpected slot outputs"
  match_slots outputs expected

-- How many outputs go to the burn script.
unfoldable pub count_burns : List TxOut → ℕ
count_burns [] = 0
count_burns (txout ∷ txouts) =
    if bytes_eq txout.script_pubkey burn_script_pubkey
    then suc (count_burns txouts)
    else count_burns txouts

unfoldable pub burn_output_count : Transaction → ℕ
burn_output_count tx = count_burns tx.output

-- `input.len() >= 2` and neither of the first two inputs has a null issuance.
unfoldable pub first_two_issue : Transaction → Bool
first_two_issue tx = elim tx.input [ a ∷ b ∷ rest ↦ not (a.is_null) && not (b.is_null) | _ ↦ false ]
