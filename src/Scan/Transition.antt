-- ===== src/Scan/Transition.antt =====
-- prediction_market_scan.rs: the bundle of live outputs, and how the transaction that spends it
-- leads to the next one. The chain and the covenant's scripts are parameters.
use deadcat.Prelude.{
  Bool, true, false, not, ◌&&◌, ◌||◌, ltb, leb, ◌==◌, if◌then◌else◌, Option, none, some, List, [],
  ◌∷◌, Bytes, bytes_eq, all, length, Result, ok, err, fail_if, ◌>>=◌, ◌>>◌, is_some, String,
}
use deadcat.Market.State.{
  MarketState, MarketSlot, dormant, unresolved, resolved_yes, resolved_no, expired, dormant_yes_rt,
  dormant_no_rt, unresolved_yes_rt, unresolved_no_rt, unresolved_collateral,
  resolved_yes_collateral, resolved_no_collateral, expired_collateral, slot_eq, contains,
}
use deadcat.Scan.Chain.{
  Transaction, PredictionMarketScanBackend, CanonicalMarketUtxo, CanonicalMarketScan,
  tx_spends_outpoint, tx_spends_all, find_slot_outputs, expect_exact_slot_set, burn_output_count,
  first_two_issue,
}

pub data Bundle : Type 0 where
  dormant_bundle : (yes_rt no_rt : CanonicalMarketUtxo) (last : Bytes) → Bundle
  unresolved_bundle : (yes_rt no_rt collateral : CanonicalMarketUtxo) (last : Bytes) → Bundle
  resolved_yes_bundle resolved_no_bundle expired_bundle :
      (collateral : CanonicalMarketUtxo) (last : Bytes) → Bundle
  empty_terminal : (state : MarketState) (last : Bytes) → Bundle

unfoldable pub bundle_state : Bundle → MarketState
bundle_state (dormant_bundle yes_rt no_rt last) = dormant
bundle_state (unresolved_bundle yes_rt no_rt collateral last) = unresolved
bundle_state (resolved_yes_bundle collateral last) = resolved_yes
bundle_state (resolved_no_bundle collateral last) = resolved_no
bundle_state (expired_bundle collateral last) = expired
bundle_state (empty_terminal state last) = state

unfoldable pub bundle_utxos : Bundle → List CanonicalMarketUtxo
bundle_utxos (dormant_bundle yes_rt no_rt last) = yes_rt ∷ no_rt ∷ []
bundle_utxos (unresolved_bundle yes_rt no_rt collateral last) = yes_rt ∷ no_rt ∷ collateral ∷ []
bundle_utxos (resolved_yes_bundle collateral last) = collateral ∷ []
bundle_utxos (resolved_no_bundle collateral last) = collateral ∷ []
bundle_utxos (expired_bundle collateral last) = collateral ∷ []
bundle_utxos (empty_terminal state last) = []

unfoldable pub bundle_last : Bundle → Bytes
bundle_last (dormant_bundle yes_rt no_rt last) = last
bundle_last (unresolved_bundle yes_rt no_rt collateral last) = last
bundle_last (resolved_yes_bundle collateral last) = last
bundle_last (resolved_no_bundle collateral last) = last
bundle_last (expired_bundle collateral last) = last
bundle_last (empty_terminal state last) = last

-- `Bundle::into_scan`
unfoldable pub into_scan : Bundle → CanonicalMarketScan
into_scan b = record {
  state = bundle_state b;
  utxos = bundle_utxos b;
  last_transition_txid = bundle_last b;
}

abbrev pub slots_of : List CanonicalMarketUtxo → List MarketSlot
slots_of [] = []
slots_of (utxo ∷ utxos) = utxo.slot ∷ slots_of utxos

abbrev pub unresolved_bundle_slots : List MarketSlot
unresolved_bundle_slots = unresolved_yes_rt ∷ unresolved_no_rt ∷ unresolved_collateral ∷ []

-- `slots == vec![..]`
unfoldable pub slots_eq : List MarketSlot → List MarketSlot → Bool
slots_eq [] [] = true
slots_eq (a ∷ xs) (b ∷ ys) = slot_eq a b && slots_eq xs ys
slots_eq _ _ = false

-- `slots == vec![slot] || (slots.len() == 1 && slots[0] == slot)`
unfoldable pub is_single : MarketSlot → List MarketSlot → Bool
is_single slot slots = slots_eq slots (slot ∷ [])

-- The test for a bundle that stays unresolved.
unfoldable pub stays_unresolved : List MarketSlot → Bool
unfolding all
stays_unresolved slots =
    slots_eq slots unresolved_bundle_slots
    || (all (λ slot. contains slots slot) unresolved_bundle_slots && length slots == 3)

-- The outputs of `expect_exact_slot_set` that a bundle is made of.
unfoldable pub unresolved_of : Bytes → List CanonicalMarketUtxo → Result String Bundle
unresolved_of last (yes_rt ∷ no_rt ∷ collateral ∷ rest) =
    ok (unresolved_bundle yes_rt no_rt collateral last)
unresolved_of last _ = err "index out of bounds"

unfoldable pub dormant_of : Bytes → List CanonicalMarketUtxo → Result String Bundle
dormant_of last (yes_rt ∷ no_rt ∷ rest) = ok (dormant_bundle yes_rt no_rt last)
dormant_of last _ = err "index out of bounds"

-- A bundle of one collateral output, by its state.
unfoldable pub terminal_bundle : MarketState → CanonicalMarketUtxo → Bytes → Result String Bundle
terminal_bundle resolved_yes collateral last = ok (resolved_yes_bundle collateral last)
terminal_bundle resolved_no collateral last = ok (resolved_no_bundle collateral last)
terminal_bundle expired collateral last = ok (expired_bundle collateral last)
terminal_bundle _ collateral last = err "invalid terminal state"

unfoldable pub terminal_of : MarketState → Bytes → List CanonicalMarketUtxo → Result String Bundle
terminal_of state last (collateral ∷ rest) = terminal_bundle state collateral last
terminal_of state last [] = err "index out of bounds"

-- The outputs of a redemption.
unfoldable pub redeemed :
    MarketState → MarketSlot → (txid : Bytes) → List CanonicalMarketUtxo → Result String Bundle
redeemed state current_slot txid [] = ok (empty_terminal state txid)
redeemed state current_slot txid (next ∷ rest) =
    if not (length rest == 0) || not (slot_eq next.slot current_slot)
    then err "terminal transition produced invalid slot outputs"
    else terminal_bundle state next txid

module _ (backend : PredictionMarketScanBackend) where
  -- `backend.spending_txid(&utxo.outpoint, &utxo.txout.script_pubkey)`
  unfoldable pub spender : CanonicalMarketUtxo → Result String (Option Bytes)
  spender utxo = backend.spending_txid utxo.outpoint utxo.txout.script_pubkey

  -- Whether no coin of the list is spent; every one is asked for.
  unfoldable pub all_unspent : List CanonicalMarketUtxo → Result String Bool
  all_unspent [] = ok true
  all_unspent (utxo ∷ utxos) = do
    found ← spender utxo
    rest ← all_unspent utxos
    ok (not (is_some found) && rest)

module _ (backend : PredictionMarketScanBackend) (slot_scripts : List (MarketSlot × Bytes)) where
  open backend use {fetch_transaction}

  unfoldable pub initial_issuance :
      (yes_rt no_rt : CanonicalMarketUtxo) (txid : Bytes) → Result String Bundle
  initial_issuance yes_rt no_rt txid = do
    spend_tx ← fetch_transaction txid
    fail_if (not (tx_spends_all spend_tx (yes_rt.outpoint ∷ no_rt.outpoint ∷ [])))
        "dormant transition tx does not spend both canonical RT outpoints"
    fail_if (not (first_two_issue spend_tx))
        "dormant transition is not a canonical initial issuance"
    outputs ← expect_exact_slot_set spend_tx slot_scripts unresolved_bundle_slots
    unresolved_of txid outputs

  -- The match on the two spenders.
  unfoldable pub dormant_by :
      (yes_rt no_rt : CanonicalMarketUtxo) (last : Bytes)
      → (yes_spender no_spender : Option Bytes) → Result String Bundle
  dormant_by yes_rt no_rt last none none = ok (dormant_bundle yes_rt no_rt last)
  dormant_by yes_rt no_rt last (some a) (some b) =
      if bytes_eq a b
      then initial_issuance yes_rt no_rt a
      else err "canonical dormant RT bundle was split across different spender txids"
  dormant_by yes_rt no_rt last _ _ =
      err "canonical dormant RT bundle was split across different spender txids"

  unfoldable pub resolve_dormant_transition :
      (yes_rt no_rt : CanonicalMarketUtxo) (last : Bytes) → Result String Bundle
  resolve_dormant_transition yes_rt no_rt last = do
    yes_spender ← spender backend yes_rt
    no_spender ← spender backend no_rt
    dormant_by yes_rt no_rt last yes_spender no_spender

  unfoldable pub partial_cancellation :
      (yes_rt no_rt collateral : CanonicalMarketUtxo) (txid : Bytes) → Result String Bundle
  partial_cancellation yes_rt no_rt collateral txid = do
    spend_tx ← fetch_transaction txid
    fail_if (not (tx_spends_outpoint spend_tx collateral.outpoint))
        "partial cancellation tx does not spend canonical collateral outpoint"
    fail_if
        (tx_spends_outpoint spend_tx yes_rt.outpoint || tx_spends_outpoint spend_tx no_rt.outpoint)
        "partial cancellation tx unexpectedly spends canonical RT outpoints"
    fail_if (ltb (burn_output_count spend_tx) 2) "partial cancellation tx is missing burn outputs"
    outputs ← expect_exact_slot_set spend_tx slot_scripts (unresolved_collateral ∷ [])
    elim outputs [
      | [] ↦ err "index out of bounds"
      | next ∷ rest ↦ ok (unresolved_bundle yes_rt no_rt next txid)
    ]

  -- The end of the branch in which one transaction spends the whole bundle, where it burns.
  unfoldable pub burning_transition :
      Transaction → List MarketSlot → (txid : Bytes) → Result String Bundle
  burning_transition spend_tx slots txid =
      if length slots == 2 && contains slots dormant_yes_rt && contains slots dormant_no_rt
      then (do
        outputs ← expect_exact_slot_set spend_tx slot_scripts (dormant_yes_rt ∷ dormant_no_rt ∷ [])
        dormant_of txid outputs)
      else if is_single resolved_yes_collateral slots
      then (do
        outputs ← expect_exact_slot_set spend_tx slot_scripts (resolved_yes_collateral ∷ [])
        terminal_of resolved_yes txid outputs)
      else if is_single resolved_no_collateral slots
      then (do
        outputs ← expect_exact_slot_set spend_tx slot_scripts (resolved_no_collateral ∷ [])
        terminal_of resolved_no txid outputs)
      else if is_single expired_collateral slots
      then (do
        outputs ← expect_exact_slot_set spend_tx slot_scripts (expired_collateral ∷ [])
        terminal_of expired txid outputs)
      else err "canonical unresolved bundle spent by unrecognized transition with slot outputs"

  unfoldable pub bundle_transition :
      (yes_rt no_rt collateral : CanonicalMarketUtxo) (txid : Bytes) → Result String Bundle
  bundle_transition yes_rt no_rt collateral txid = do
    spend_tx ← fetch_transaction txid
    fail_if
        (not (tx_spends_all spend_tx (yes_rt.outpoint ∷ no_rt.outpoint ∷ collateral.outpoint ∷ [])))
        "bundle transition tx does not spend the full canonical unresolved bundle"
    let slots = slots_of (find_slot_outputs spend_tx slot_scripts)
    (if stays_unresolved slots
        then (do
          fail_if (not (first_two_issue spend_tx))
              "unresolved self-transition is not a canonical subsequent issuance"
          outputs ← expect_exact_slot_set spend_tx slot_scripts unresolved_bundle_slots
          unresolved_of txid outputs)
        else if leb 2 (burn_output_count spend_tx)
        then burning_transition spend_tx slots txid
        else err "canonical unresolved bundle spent by unrecognized transition with slot outputs")

  -- The match on the three spenders.
  unfoldable pub unresolved_by :
      (yes_rt no_rt collateral : CanonicalMarketUtxo) (last : Bytes)
      → (yes_spender no_spender collateral_spender : Option Bytes) → Result String Bundle
  unresolved_by yes_rt no_rt collateral last none none none =
      ok (unresolved_bundle yes_rt no_rt collateral last)
  unresolved_by yes_rt no_rt collateral last none none (some txid) =
      partial_cancellation yes_rt no_rt collateral txid
  unresolved_by yes_rt no_rt collateral last (some a) (some b) (some c) =
      if bytes_eq a b && bytes_eq b c
      then bundle_transition yes_rt no_rt collateral a
      else err "canonical unresolved bundle was split across different spender txids"
  unresolved_by yes_rt no_rt collateral last _ _ _ =
      err "canonical unresolved bundle was split across different spender txids"

  unfoldable pub resolve_unresolved_transition :
      (yes_rt no_rt collateral : CanonicalMarketUtxo) (last : Bytes) → Result String Bundle
  resolve_unresolved_transition yes_rt no_rt collateral last = do
    yes_spender ← spender backend yes_rt
    no_spender ← spender backend no_rt
    collateral_spender ← spender backend collateral
    unresolved_by yes_rt no_rt collateral last yes_spender no_spender collateral_spender

  -- The match on the spender.
  unfoldable pub terminal_by :
      MarketState
      → (collateral : CanonicalMarketUtxo) (last : Bytes) → Option Bytes
      → Result String Bundle
  terminal_by state collateral last none = terminal_bundle state collateral last
  terminal_by state collateral last (some txid) = do
    spend_tx ← fetch_transaction txid
    fail_if (not (tx_spends_outpoint spend_tx collateral.outpoint))
        "terminal transition tx does not spend canonical collateral outpoint"
    fail_if (ltb (burn_output_count spend_tx) 1) "terminal redemption tx is missing burn output"
    redeemed state collateral.slot txid (find_slot_outputs spend_tx slot_scripts)

  unfoldable pub resolve_terminal_transition :
      MarketState → (collateral : CanonicalMarketUtxo) (last : Bytes) → Result String Bundle
  resolve_terminal_transition state collateral last = do
    found ← spender backend collateral
    terminal_by state collateral last found

  -- The first match of the loop; an empty bundle ends it before.
  unfoldable pub resolve_transition : Bundle → Result String Bundle
  resolve_transition (dormant_bundle yes_rt no_rt last) =
      resolve_dormant_transition yes_rt no_rt last
  resolve_transition (unresolved_bundle yes_rt no_rt collateral last) =
      resolve_unresolved_transition yes_rt no_rt collateral last
  resolve_transition (resolved_yes_bundle collateral last) =
      resolve_terminal_transition resolved_yes collateral last
  resolve_transition (resolved_no_bundle collateral last) =
      resolve_terminal_transition resolved_no collateral last
  resolve_transition (expired_bundle collateral last) =
      resolve_terminal_transition expired collateral last
  resolve_transition (empty_terminal state last) = ok (empty_terminal state last)
