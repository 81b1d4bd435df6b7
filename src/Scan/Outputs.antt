-- ===== src/Scan/Outputs.antt =====
-- What the covenant outputs of a transaction are: their slots, their scripts and their outpoints.
use deadcat.Prelude.{
  ℕ, suc, ◌≡◌, refl, ap, ◌∙◌, true, not, ◌==◌, some, List, [], ◌∷◌, Bytes, bytes_eq, bytes_eq→eq,
  map, length, All, ok, fail_if, >>=-eq-ok, ok_injective, arith, Bool-cases, Option-cases, inl, inr,
  List-cases, some_injective,
}
use deadcat.Pset.{TxOut}
use deadcat.Market.State.{MarketSlot, all_slots, slot_eq, as_u8}
use deadcat.Market.Params.{CompiledPredictionMarket}
use deadcat.Scan.Chain.{
  Transaction, CanonicalMarketUtxo, canonical_slot_scripts, slot_of_script, slot_outputs_from,
  find_slot_outputs, with_slot, match_slots, expect_exact_slot_set,
}

slot_of_script-map :
    (script_of : MarketSlot → Bytes) (slots : List MarketSlot) (script : Bytes) (slot : MarketSlot)
    → slot_of_script (map (λ k. (k, script_of k)) slots) script ≡ some slot
    → script ≡ script_of slot
unfolding slot_of_script
slot_of_script-map script_of [] script slot h = cc
slot_of_script-map script_of (k ∷ ks) script slot h =
    elim (Bool-cases (bytes_eq script (script_of k))) [
      | inl same ↦
          let e : some k ≡ some slot = rw same at h in
          bytes_eq→eq script (script_of k) same ∙ ap script_of (some_injective e)
      | inr other ↦ slot_of_script-map script_of ks script slot (rw other at h)
    ]

pub slot_eq→eq : (a b : MarketSlot) → slot_eq a b ≡ true → a ≡ b
unfolding slot_eq as_u8
slot_eq→eq a b h = ground arith

module _ (contract : CompiledPredictionMarket) where
  -- An output of transaction `txid` to the covenant's script of its slot.
  abbrev pub IsFrom : Bytes → CanonicalMarketUtxo → Type 0
  IsFrom txid utxo =
      (utxo.txout.script_pubkey ≡ contract.script_pubkey utxo.slot) × (utxo.outpoint.txid ≡ txid)

  -- The same, for a given slot.
  abbrev pub IsOutput : MarketSlot → Bytes → CanonicalMarketUtxo → Type 0
  IsOutput slot txid utxo =
      (utxo.slot ≡ slot)
      × (utxo.txout.script_pubkey ≡ contract.script_pubkey slot)
      × (utxo.outpoint.txid ≡ txid)

  -- Outputs for a list of slots, one by one.
  abbrev pub AreOutputs : List MarketSlot → Bytes → List CanonicalMarketUtxo → Type 0
  AreOutputs [] txid [] = Unit
  AreOutputs (k ∷ ks) txid (u ∷ us) = IsOutput k txid u × AreOutputs ks txid us
  AreOutputs _ txid _ = ⊥

  slot_outputs-IsFrom :
      (txid : Bytes) (vout : ℕ) (txouts : List TxOut)
      → All (IsFrom txid) (slot_outputs_from txid (canonical_slot_scripts contract) vout txouts)
  unfolding slot_outputs_from canonical_slot_scripts
  slot_outputs-IsFrom txid vout [] = tt
  slot_outputs-IsFrom txid vout (o ∷ os) =
      elim (Option-cases (slot_of_script (canonical_slot_scripts contract) o.script_pubkey)) [
        | inl other ↦ rw (other, All) (slot_outputs-IsFrom txid (suc vout) os)
        | inr (slot, found) ↦
            rw (found, All)
              (
                (
                  slot_of_script-map contract.script_pubkey all_slots o.script_pubkey slot found,
                  refl,
                ),
                slot_outputs-IsFrom txid (suc vout) os,
              )
      ]

  pub find_slot_outputs-IsFrom :
      (tx : Transaction)
      → All (IsFrom tx.txid) (find_slot_outputs tx (canonical_slot_scripts contract))
  unfolding find_slot_outputs
  find_slot_outputs-IsFrom tx = slot_outputs-IsFrom tx.txid 0 tx.output

  with_slot-IsOutput :
      (slot : MarketSlot) (txid : Bytes) (us : List CanonicalMarketUtxo)
      → All (IsFrom txid) us
      → All (IsOutput slot txid) (with_slot slot us)
  unfolding with_slot
  with_slot-IsOutput slot txid [] h = tt
  with_slot-IsOutput slot txid (u ∷ us) (h, hs) = elim (Bool-cases (slot_eq u.slot slot)) [
    | inl same ↦
        let e = slot_eq→eq u.slot slot same in
        rw same ((e, h.0 ∙ ap contract.script_pubkey e, h.1), with_slot-IsOutput slot txid us hs)
    | inr other ↦ rw other (with_slot-IsOutput slot txid us hs)
  ]

  match_slots-AreOutputs :
      (outputs : List CanonicalMarketUtxo) (txid : Bytes) (slots : List MarketSlot)
      {matched : List CanonicalMarketUtxo}
      → All (IsFrom txid) outputs
      → match_slots outputs slots ≡ ok matched
      → AreOutputs slots txid matched
  unfolding match_slots
  match_slots-AreOutputs outputs txid [] h e = rw (← ok_injective e) tt
  match_slots-AreOutputs outputs txid (slot ∷ slots) h e =
      elim (List-cases (with_slot slot outputs)) [
        | inl nothing ↦ (let failed = rw (nothing, match_slots) at e in cc)
        | inr (u, us, found) ↦
            let (_, single, later) =
              >>=-eq-ok (fail_if (not (length us == 0)) _) _ (rw (found, match_slots) at e) in
            let (rest, ran, built) = >>=-eq-ok (match_slots outputs slots) _ later in
            let held = with_slot-IsOutput slot txid outputs h in
            let outs = rw (found, All) at held in
            rw (← ok_injective built) (outs.0, match_slots-AreOutputs outputs txid slots h ran)
      ]

  pub expect_exact_slot_set-AreOutputs :
      (tx : Transaction) (expected : List MarketSlot) {matched : List CanonicalMarketUtxo}
      → expect_exact_slot_set tx (canonical_slot_scripts contract) expected ≡ ok matched
      → AreOutputs expected tx.txid matched
  unfolding expect_exact_slot_set
  expect_exact_slot_set-AreOutputs tx expected e =
      let (_, counted, later) =
        >>=-eq-ok
          (fail_if
            (not
              (length (find_slot_outputs tx (canonical_slot_scripts contract)) == length expected))
            _)
          _ e in
      match_slots-AreOutputs (find_slot_outputs tx (canonical_slot_scripts contract)) tx.txid
        expected (find_slot_outputs-IsFrom tx) later
