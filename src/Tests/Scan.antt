-- ===== src/Tests/Scan.antt =====
-- A market on a chain of three transactions: its creation, the first issuance, and the resolution
-- to YES.
use deadcat.Prelude.{
  ℕ, ◌+◌, ◌*◌, ◌/◌, ◌%◌, ◌<◌, ◌≤◌, ◌≡◌, refl, sym, ap, ◌∙◌, ◌↔◌, Bool, true, false, ◌==◌,
  if◌then◌else◌, Option, none, some, [], ◌∷◌, Bytes, bytes_eq, bytes_eq→eq, length, any, all,
  Result, ok, err, Bool-cases, inl, inr, arith, String, ok_injective, some_injective,
}
use deadcat.Pset.{zero_bytes, OutPoint, TxOut, Asset, Value, Nonce, burn_script_pubkey, outpoint_eq}
use deadcat.Market.State.{
  MarketSlot, resolved_yes, dormant_yes_rt, dormant_no_rt, unresolved_yes_rt, unresolved_no_rt,
  unresolved_collateral, resolved_yes_collateral, as_u8, slot_eq, contains, all_slots,
}
use deadcat.Market.Params.{PredictionMarketParams, CompiledPredictionMarket}
use deadcat.Scan.Anchor.{
  Text, PredictionMarketAnchor, ParsedPredictionMarketAnchor, parse_hex32, parse_opening,
  parse_market_creation_txid, opening_from_bytes, from_openings, parse_prediction_market_anchor,
}
use deadcat.Scan.Anchor.Canonical.{
  IsText, trimmed_anchor, spelling, IsSized, parse_prediction_market_anchor_iff,
}
use deadcat.Scan.Chain.{
  TxIn, Transaction, PredictionMarketScanBackend, CanonicalMarketScan, tx_spends_outpoint,
  tx_spends_all, canonical_slot_scripts, slot_of_script, slot_outputs_from, find_slot_outputs,
  with_slot, match_slots, expect_exact_slot_set, count_burns, burn_output_count, first_two_issue,
}
use deadcat.Scan.Creation.{
  Elements, pays_covenant, no_other_covenant, is_canonical_creation_input,
  matches_confidential_dormant_creation_output, creation_outputs_valid, creation_tx_valid,
  validate_prediction_market_creation_tx,
}
use deadcat.Scan.Transition.{
  bundle_state, bundle_utxos, bundle_last, into_scan, slots_eq, is_single, stays_unresolved,
  unresolved_of, dormant_of, terminal_bundle, terminal_of, redeemed, spender, all_unspent,
  initial_issuance, dormant_by, resolve_dormant_transition, burning_transition, bundle_transition,
  unresolved_by, resolve_unresolved_transition, terminal_by, resolve_terminal_transition,
  resolve_transition,
}
use deadcat.Scan.Walk.{
  scan_round, scan_loop, scan_from, dormant_start, first_bundle, scan_prediction_market_canonical,
}
use deadcat.Scan.Walk.Live.{IsCurrent, scan_prediction_market_canonical-IsCurrent}
use deadcat.Scan.Walk.Ends.{scan_prediction_market_canonical_terminates}
use deadcat.Tests.Market.{contract}

-- Two hexadecimal digits, as numbers, to a byte.
digits : Bytes → Bytes
digits [] = []
digits (b ∷ bs) = (b / 16) ∷ (b % 16) ∷ digits bs

undigits : Bytes → Option Bytes
undigits [] = some []
undigits (h ∷ []) = none
undigits (h ∷ l ∷ rest) = elim (undigits rest) [ none ↦ none | some bs ↦ some ((16 * h + l) ∷ bs) ]

undigits-digits : (b : Bytes) → undigits (digits b) ≡ some b
unfolding undigits digits
undigits-digits [] = refl
undigits-digits (b ∷ bs) =
    let whole : 16 * (b / 16) + b % 16 ≡ b = omega arith in rw (undigits-digits bs, whole)

length-digits : (b : Bytes) → length (digits b) ≡ 2 * length b
unfolding digits
length-digits [] = refl
length-digits (b ∷ bs) = omega (arith, length-digits bs)

txid_of : Option Bytes → Option Bytes
txid_of none = none
txid_of (some t) = if length t == 32 then some t else none

txid_of-eq-some : (o : Option Bytes) (t : Bytes) → txid_of o ≡ some t → length t ≡ 32
unfolding txid_of
txid_of-eq-some none t e = cc
txid_of-eq-some (some s) t e = ground arith

abbrev text : Text
text = record {
  trim = λ s. s;
  hex_decode = undigits;
  hex_encode = digits;
  txid_parse = λ s. txid_of (undigits s);
  txid_display = digits;
}

text-IsText : IsText text
unfolding txid_of
text-IsText = record {
  hex_decode-encode = undigits-digits;
  length-hex_encode = length-digits;
  txid_parse-display = λ t sized. rw (undigits-digits t, sized) refl;
  txid_parse_length = λ s t e. txid_of-eq-some (undigits s) t e;
  length-txid_display = length-digits;
}

abbrev txid : ℕ → Bytes
txid k = k ∷ zero_bytes 31

abbrev anchor : PredictionMarketAnchor
anchor = from_openings text (txid 1) (zero_bytes 32) (zero_bytes 32) (zero_bytes 32) (zero_bytes 32)

abbrev parsed : ParsedPredictionMarketAnchor
parsed = record {
  creation_txid = txid 1;
  yes_dormant_opening = record {
    asset_blinding_factor = zero_bytes 32;
    value_blinding_factor = zero_bytes 32;
  };
  no_dormant_opening = record {
    asset_blinding_factor = zero_bytes 32;
    value_blinding_factor = zero_bytes 32;
  };
}

parse_prediction_market_anchor_iff_example :
    (parse_prediction_market_anchor text anchor ≡ ok parsed)
    ↔ ((trimmed_anchor text anchor ≡ spelling text parsed) × IsSized parsed)
parse_prediction_market_anchor_iff_example =
    parse_prediction_market_anchor_iff text text-IsText anchor parsed

-- The entropy of an issuance is the position of the output that it spends.
abbrev elements : Elements
elements = record {
  generate_asset_entropy = λ o contract_hash. o.vout ∷ [];
  reissuance_token_from_entropy = λ e confidential. elim e [ [] ↦ [] | x ∷ r ↦ (4 + x) ∷ [] ];
  asset_from_slice = λ b. some b;
  tweak_from_slice = λ b. some b;
  blinded_generator = λ asset tweak. asset;
  pedersen_commitment = λ v tweak generator. v ∷ generator;
}

abbrev compile : PredictionMarketParams → Result String CompiledPredictionMarket
compile params = ok contract

abbrev spends : ℕ → ℕ → Bool → TxIn
spends k vout is_null = record {
  previous_output = record { txid = txid k; vout = vout };
  asset_issuance = record {
    asset_blinding_nonce = zero_bytes 32;
    asset_entropy = zero_bytes 32;
    amount = Value.null;
    inflation_keys = Value.explicit 1;
  };
  is_null = is_null;
}

abbrev pays : MarketSlot → Bytes → TxOut
pays slot asset = record {
  asset = Asset.confidential asset;
  value = Value.confidential (1 ∷ asset);
  nonce = Nonce.confidential [];
  script_pubkey = as_u8 slot ∷ [];
}

abbrev burns : TxOut
burns = record {
  asset = Asset.explicit [];
  value = Value.explicit 1;
  nonce = Nonce.null;
  script_pubkey = burn_script_pubkey;
}

abbrev creation : Transaction
creation = record {
  txid = txid 1;
  input = spends 0 0 false ∷ spends 0 1 false ∷ [];
  output = pays dormant_yes_rt (4 ∷ []) ∷ pays dormant_no_rt (5 ∷ []) ∷ [];
}

abbrev issuance : Transaction
issuance = record {
  txid = txid 2;
  input = spends 1 0 false ∷ spends 1 1 false ∷ [];
  output =
      pays unresolved_yes_rt [] ∷ pays unresolved_no_rt [] ∷ pays unresolved_collateral [] ∷ [];
}

abbrev resolution : Transaction
resolution = record {
  txid = txid 3;
  input = spends 2 0 true ∷ spends 2 1 true ∷ spends 2 2 true ∷ [];
  output = pays resolved_yes_collateral [] ∷ burns ∷ burns ∷ [];
}

fetch : Bytes → Result String Transaction
fetch t =
    if bytes_eq t (txid 1)
    then ok creation
    else if bytes_eq t (txid 2)
    then ok issuance
    else if bytes_eq t (txid 3)
    then ok resolution
    else err "unknown transaction"

spender_of : OutPoint → Bytes → Result String (Option Bytes)
spender_of o script =
    if bytes_eq o.txid (txid 1)
    then ok (some (txid 2))
    else if bytes_eq o.txid (txid 2)
    then ok (some (txid 3))
    else ok none

abbrev backend : PredictionMarketScanBackend
backend = record { fetch_transaction = fetch; spending_txid = spender_of }

fetch_txid : (t : Bytes) (tx : Transaction) → fetch t ≡ ok tx → tx.txid ≡ t
unfolding fetch
fetch_txid t tx e = elim (Bool-cases (bytes_eq t (txid 1))) [
  | inl first ↦
      let same : creation ≡ tx = ok_injective (rw first at e) in
      sym (ap (λ (x : Transaction). x.txid) same) ∙ sym (bytes_eq→eq t (txid 1) first)
  | inr a ↦ elim (Bool-cases (bytes_eq t (txid 2))) [
    | inl second ↦
        let same : issuance ≡ tx = ok_injective (rw (a, second) at e) in
        sym (ap (λ (x : Transaction). x.txid) same) ∙ sym (bytes_eq→eq t (txid 2) second)
    | inr b ↦ elim (Bool-cases (bytes_eq t (txid 3))) [
      | inl third ↦
          let same : resolution ≡ tx = ok_injective (rw (a, b, third) at e) in
          sym (ap (λ (x : Transaction). x.txid) same) ∙ sym (bytes_eq→eq t (txid 3) third)
      | inr c ↦ (let failed = rw (a, b, c) at e in cc)
    ]
  ]
]

abbrev position : Bytes → ℕ
position [] = 0
position (k ∷ rest) = k

spender_of_later :
    (o : OutPoint) (script t : Bytes)
    → spender_of o script ≡ ok (some t)
    → (position o.txid < position t) × (position t ≤ 3)
unfolding spender_of
spender_of_later o script t e = elim (Bool-cases (bytes_eq o.txid (txid 1))) [
  | inl first ↦
      let same : txid 2 ≡ t = some_injective (ok_injective (rw first at e)) in
      rw (← same, bytes_eq→eq o.txid (txid 1) first) (omega arith)
  | inr a ↦ elim (Bool-cases (bytes_eq o.txid (txid 2))) [
    | inl second ↦
        let same : txid 3 ≡ t = some_injective (ok_injective (rw (a, second) at e)) in
        rw (← same, bytes_eq→eq o.txid (txid 2) second) (omega arith)
    | inr b ↦ (let failed = rw (a, b) at e in cc)
  ]
]

abbrev found : CanonicalMarketScan
found = record {
  state = resolved_yes;
  utxos =
      record {
        slot = resolved_yes_collateral;
        outpoint = record { txid = txid 3; vout = 0 };
        txout = pays resolved_yes_collateral [];
      }
      ∷ [];
  last_transition_txid = txid 3;
}

found_by_scan :
    scan_prediction_market_canonical text elements compile backend 4 contract.params anchor
    ≡ some (ok found)
unfolding scan_prediction_market_canonical scan_from scan_loop scan_round first_bundle dormant_start
    parse_prediction_market_anchor parse_market_creation_txid parse_opening parse_hex32
    from_openings opening_from_bytes undigits digits txid_of bytes_eq fetch spender_of
    validate_prediction_market_creation_tx creation_tx_valid creation_outputs_valid
    is_canonical_creation_input matches_confidential_dormant_creation_output no_other_covenant
    pays_covenant canonical_slot_scripts slot_of_script slot_outputs_from find_slot_outputs
    with_slot match_slots expect_exact_slot_set count_burns burn_output_count first_two_issue
    tx_spends_outpoint tx_spends_all outpoint_eq burn_script_pubkey bundle_state bundle_utxos
    bundle_last into_scan slots_eq is_single stays_unresolved unresolved_of dormant_of
    terminal_bundle terminal_of redeemed spender all_unspent initial_issuance dormant_by
    resolve_dormant_transition burning_transition bundle_transition unresolved_by
    resolve_unresolved_transition terminal_by resolve_terminal_transition resolve_transition as_u8
    slot_eq contains any all all_slots
found_by_scan = refl

scan_prediction_market_canonical-IsCurrent_example :
    (c : CompiledPredictionMarket) × (compile contract.params ≡ ok c) × IsCurrent c backend found
scan_prediction_market_canonical-IsCurrent_example =
    scan_prediction_market_canonical-IsCurrent text elements compile backend fetch_txid 4
      contract.params anchor found_by_scan

scan_prediction_market_canonical_terminates_example :
    (r : Result String CanonicalMarketScan) × (scan_prediction_market_canonical text elements
        compile backend 4 contract.params anchor
      ≡ some r)
scan_prediction_market_canonical_terminates_example =
    scan_prediction_market_canonical_terminates backend fetch_txid position 3 spender_of_later text
      elements compile 4 contract.params anchor (omega arith)
