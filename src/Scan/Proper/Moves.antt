-- ===== src/Scan/Proper/Moves.antt =====
-- How the transitions of the scan keep its bundles in line with the covenant.
use deadcat.Prelude.{
  ◌≡◌, refl, ap, ◌∙◌, subst, inl, inr, not, ◌&&◌, ◌||◌, ltb, leb, ◌==◌, List, [], ◌∷◌, Bytes,
  length, All, ok, fail_if, ◌>>=◌, >>=-eq-ok, ok_injective, Bool-cases, List-cases, arith,
}
use deadcat.Market.State.{
  MarketState, MarketSlot, resolved_yes, resolved_no, expired, dormant_yes_rt, dormant_no_rt,
  unresolved_collateral, resolved_yes_collateral, resolved_no_collateral, expired_collateral,
  slot_eq, contains,
}
use deadcat.Market.Params.{CompiledPredictionMarket}
use deadcat.Scan.Chain.{
  Transaction, PredictionMarketScanBackend, CanonicalMarketUtxo, canonical_slot_scripts,
  expect_exact_slot_set, find_slot_outputs, tx_spends_outpoint, tx_spends_all, burn_output_count,
  first_two_issue,
}
use deadcat.Scan.Outputs.{IsFrom, AreOutputs, expect_exact_slot_set-AreOutputs, slot_eq→eq}
use deadcat.Scan.Transition.{
  Bundle, unresolved_bundle, bundle_last, slots_of, unresolved_bundle_slots, terminal_of,
  initial_issuance, partial_cancellation, burning_transition, bundle_transition, redeemed,
  is_single, stays_unresolved,
}
use deadcat.Scan.Proper.{
  IsTerminal, terminal_slot, IsProper, IsAfter, unresolved_of-IsAfter, dormant_of-IsAfter,
  terminal_bundle-IsAfter, terminal_of-IsAfter,
}

module _ (contract : CompiledPredictionMarket) (backend : PredictionMarketScanBackend)
    (honest : (txid : Bytes) (tx : Transaction)
      → backend.fetch_transaction txid ≡ ok tx
      → tx.txid ≡ txid) where
  open backend use {fetch_transaction}

  -- The outputs that a fetched transaction has for a list of slots.
  fetched-AreOutputs :
      (txid : Bytes) (expected : List MarketSlot) {tx : Transaction} {us : List CanonicalMarketUtxo}
      → fetch_transaction txid ≡ ok tx
      → expect_exact_slot_set tx (canonical_slot_scripts contract) expected ≡ ok us
      → AreOutputs contract expected txid us
  fetched-AreOutputs txid expected {tx} {us} f e =
      subst (λ t. AreOutputs contract expected t us) (honest txid tx f)
        (expect_exact_slot_set-AreOutputs contract tx expected e)

  pub initial_issuance-IsAfter :
      (y n : CanonicalMarketUtxo) (txid : Bytes) {b : Bundle}
      → initial_issuance backend (canonical_slot_scripts contract) y n txid ≡ ok b
      → IsAfter contract txid b
  unfolding initial_issuance
  initial_issuance-IsAfter y n txid e =
      let (tx, fetched, e₁) = >>=-eq-ok (fetch_transaction txid) _ e in
      let (_, _, e₂) =
        >>=-eq-ok (fail_if (not (tx_spends_all tx (y.outpoint ∷ n.outpoint ∷ []))) _) _ e₁ in
      let (_, _, e₃) = >>=-eq-ok (fail_if (not (first_two_issue tx)) _) _ e₂ in
      let (us, matched, built) =
        >>=-eq-ok
          (expect_exact_slot_set tx (canonical_slot_scripts contract) unresolved_bundle_slots) _
          e₃ in
      unresolved_of-IsAfter contract txid us
        (fetched-AreOutputs txid unresolved_bundle_slots fetched matched) built

  pub partial_cancellation-IsAfter :
      (y n c : CanonicalMarketUtxo) (txid last : Bytes) {b : Bundle}
      → IsProper contract (unresolved_bundle y n c last)
      → partial_cancellation backend (canonical_slot_scripts contract) y n c txid ≡ ok b
      → IsAfter contract txid b
  unfolding partial_cancellation bundle_last
  partial_cancellation-IsAfter y n c txid last h e =
      let (tx, fetched, e₁) = >>=-eq-ok (fetch_transaction txid) _ e in
      let (_, _, e₂) = >>=-eq-ok (fail_if (not (tx_spends_outpoint tx c.outpoint)) _) _ e₁ in
      let (_, _, e₃) =
        >>=-eq-ok (fail_if (tx_spends_outpoint tx y.outpoint || tx_spends_outpoint tx n.outpoint) _)
          _ e₂ in
      let (_, _, e₄) = >>=-eq-ok (fail_if (ltb (burn_output_count tx) 2) _) _ e₃ in
      let (us, matched, built) =
        >>=-eq-ok
          (expect_exact_slot_set tx (canonical_slot_scripts contract) (unresolved_collateral ∷ []))
          _ e₄ in
      let outs = fetched-AreOutputs txid (unresolved_collateral ∷ []) fetched matched in
      elim (List-cases us) [
        | inl nothing ↦ (let failed = rw nothing at built in cc)
        | inr (c', rest, found) ↦
            let out = rw (found, AreOutputs) at outs in
            subst (IsAfter contract txid) (ok_injective (rw found at built))
              ((h.0, h.1, out.0), refl)
      ]

  -- The transition to a terminal state.
  terminal_step :
      (tx : Transaction) (txid : Bytes) (state : MarketState) {b : Bundle}
      → fetch_transaction txid ≡ ok tx
      → (expect_exact_slot_set tx (canonical_slot_scripts contract) (terminal_slot state ∷ [])
          >>= terminal_of state txid)
        ≡ ok b
      → IsAfter contract txid b
  terminal_step tx txid state fetched e =
      let (us, matched, built) =
        >>=-eq-ok
          (expect_exact_slot_set tx (canonical_slot_scripts contract) (terminal_slot state ∷ [])) _
          e in
      terminal_of-IsAfter contract state txid us
        (fetched-AreOutputs txid (terminal_slot state ∷ []) fetched matched) built

  pub burning_transition-IsAfter :
      (tx : Transaction) (slots : List MarketSlot) (txid : Bytes) {b : Bundle}
      → fetch_transaction txid ≡ ok tx
      → burning_transition backend (canonical_slot_scripts contract) tx slots txid ≡ ok b
      → IsAfter contract txid b
  unfolding burning_transition
  burning_transition-IsAfter tx slots txid fetched e =
      elim (Bool-cases
        (length slots == 2 && contains slots dormant_yes_rt && contains slots dormant_no_rt)) [
          | inl cycled ↦
              let (us, matched, built) =
                >>=-eq-ok
                  (expect_exact_slot_set tx (canonical_slot_scripts contract)
                    (dormant_yes_rt ∷ dormant_no_rt ∷ []))
                  _ (rw cycled at e) in
              dormant_of-IsAfter contract txid us
                (fetched-AreOutputs txid (dormant_yes_rt ∷ dormant_no_rt ∷ []) fetched matched)
                built
          | inr not_dormant ↦ elim (Bool-cases (is_single resolved_yes_collateral slots)) [
            | inl won ↦ terminal_step tx txid resolved_yes fetched (rw (not_dormant, won) at e)
            | inr not_won ↦ elim (Bool-cases (is_single resolved_no_collateral slots)) [
              | inl lost ↦
                  terminal_step tx txid resolved_no fetched (rw (not_dormant, not_won, lost) at e)
              | inr not_lost ↦ elim (Bool-cases (is_single expired_collateral slots)) [
                | inl over ↦
                    terminal_step tx txid expired fetched
                      (rw (not_dormant, not_won, not_lost, over) at e)
                | inr other ↦ (let failed = rw (not_dormant, not_won, not_lost, other) at e in cc)
              ]
            ]
          ]
        ]

  pub bundle_transition-IsAfter :
      (y n c : CanonicalMarketUtxo) (txid : Bytes) {b : Bundle}
      → bundle_transition backend (canonical_slot_scripts contract) y n c txid ≡ ok b
      → IsAfter contract txid b
  unfolding bundle_transition
  bundle_transition-IsAfter y n c txid e =
      let (tx, fetched, e₁) = >>=-eq-ok (fetch_transaction txid) _ e in
      let (_, _, e₂) =
        >>=-eq-ok (fail_if (not (tx_spends_all tx (y.outpoint ∷ n.outpoint ∷ c.outpoint ∷ []))) _) _
          e₁ in
      let slots = slots_of (find_slot_outputs tx (canonical_slot_scripts contract)) in
      elim (Bool-cases (stays_unresolved slots)) [
        | inl stays ↦
            let (_, _, e₃) = >>=-eq-ok (fail_if (not (first_two_issue tx)) _) _ (rw stays at e₂) in
            let (us, matched, built) =
              >>=-eq-ok
                (expect_exact_slot_set tx (canonical_slot_scripts contract) unresolved_bundle_slots)
                _ e₃ in
            unresolved_of-IsAfter contract txid us
              (fetched-AreOutputs txid unresolved_bundle_slots fetched matched) built
        | inr leaves ↦ elim (Bool-cases (leb 2 (burn_output_count tx))) [
          | inl burns ↦ burning_transition-IsAfter tx slots txid fetched (rw (leaves, burns) at e₂)
          | inr keeps ↦ (let failed = rw (leaves, keeps) at e₂ in cc)
        ]
      ]

  -- A terminal state with its slot.
  pub redeemed-IsAfter :
      (state : MarketState) (txid : Bytes) (us : List CanonicalMarketUtxo) {b : Bundle}
      → IsTerminal state
      → All (IsFrom contract txid) us
      → redeemed state (terminal_slot state) txid us ≡ ok b
      → IsAfter contract txid b
  unfolding redeemed bundle_last
  redeemed-IsAfter state txid [] h from e = subst (IsAfter contract txid) (ok_injective e) (h, refl)
  redeemed-IsAfter state txid (u ∷ us) h from e =
      elim (Bool-cases (not (length us == 0) || not (slot_eq u.slot (terminal_slot state)))) [
        | inl bad ↦ (let failed = rw bad at e in cc)
        | inr good ↦
            let same = slot_eq→eq u.slot (terminal_slot state) (ground (arith, good)) in
            terminal_bundle-IsAfter contract state u txid
              (same, from.0.0 ∙ ap contract.script_pubkey same, from.0.1) (rw good at e)
      ]
