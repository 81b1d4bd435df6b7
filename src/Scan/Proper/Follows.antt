-- ===== src/Scan/Proper/Follows.antt =====
-- A round of the scan: its bundle, and the spend that it follows.
use deadcat.Prelude.{
  ◌≡◌, refl, sym, ap, ◌∙◌, subst, ◌⊎◌, inl, inr, true, not, ◌&&◌, ltb, Option, none, some, [], ◌∷◌,
  Bytes, bytes_eq, bytes_eq→eq, All, ok, fail_if, >>=-eq-ok, ok_injective, Bool-cases, arith,
}
use deadcat.Market.State.{MarketState, dormant, unresolved, resolved_yes, resolved_no, expired}
use deadcat.Market.Params.{CompiledPredictionMarket}
use deadcat.Scan.Chain.{
  Transaction, PredictionMarketScanBackend, CanonicalMarketUtxo, canonical_slot_scripts,
  find_slot_outputs, tx_spends_outpoint, burn_output_count,
}
use deadcat.Scan.Outputs.{IsFrom, IsOutput, find_slot_outputs-IsFrom}
use deadcat.Scan.Transition.{
  Bundle, dormant_bundle, unresolved_bundle, resolved_yes_bundle, resolved_no_bundle,
  expired_bundle, empty_terminal, bundle_utxos, bundle_last, spender, all_unspent, terminal_bundle,
  resolve_dormant_transition, unresolved_by, resolve_unresolved_transition, redeemed,
  resolve_terminal_transition, resolve_transition, dormant_by, terminal_by,
}
use deadcat.Scan.Proper.Moves.{
  initial_issuance-IsAfter, partial_cancellation-IsAfter, bundle_transition-IsAfter,
  redeemed-IsAfter,
}
use deadcat.Scan.Proper.{IsTerminal, terminal_slot, IsProper, IsAfter, terminal_bundle-IsAfter}

terminal_bundle_utxos :
    (state : MarketState) (c : CanonicalMarketUtxo) (last : Bytes) {b : Bundle}
    → terminal_bundle state c last ≡ ok b
    → bundle_utxos b ≡ c ∷ []
unfolding terminal_bundle bundle_utxos
terminal_bundle_utxos resolved_yes c last e = sym (ap bundle_utxos (ok_injective e))
terminal_bundle_utxos resolved_no c last e = sym (ap bundle_utxos (ok_injective e))
terminal_bundle_utxos expired c last e = sym (ap bundle_utxos (ok_injective e))
terminal_bundle_utxos dormant c last e = cc
terminal_bundle_utxos unresolved c last e = cc

module _ (contract : CompiledPredictionMarket) (backend : PredictionMarketScanBackend) where
  -- The bundle after one that transaction `last` made: no output of it is spent, or it was made by
  -- the transaction that spends an output of `last`.
  abbrev pub Follows : Bytes → Bundle → Type 0
  Follows last b =
      IsProper contract b
      × ((all_unspent backend (bundle_utxos b) ≡ ok true)
          ⊎ ((u : CanonicalMarketUtxo) × (spender backend u ≡ ok (some (bundle_last b)))
              × (u.outpoint.txid ≡ last)))

  spent :
      (u : CanonicalMarketUtxo) (txid last : Bytes) (b : Bundle)
      → spender backend u ≡ ok (some txid)
      → u.outpoint.txid ≡ last
      → IsAfter contract txid b
      → Follows last b
  spent u txid last b asked at' (proper, after) =
      (proper, inr (u, asked ∙ ap (λ t. ok (some t)) (sym after), at'))

module _ (contract : CompiledPredictionMarket) (backend : PredictionMarketScanBackend)
    (honest : (txid : Bytes) (tx : Transaction)
      → backend.fetch_transaction txid ≡ ok tx
      → tx.txid ≡ txid) where
  open backend use {fetch_transaction}

  dormant_by-Follows :
      (y n : CanonicalMarketUtxo) (last : Bytes) (sy sn : Option Bytes) {b : Bundle}
      → spender backend y ≡ ok sy
      → spender backend n ≡ ok sn
      → IsProper contract (dormant_bundle y n last)
      → dormant_by backend (canonical_slot_scripts contract) y n last sy sn ≡ ok b
      → Follows contract backend last b
  unfolding dormant_by all_unspent bundle_utxos
  dormant_by-Follows y n last none none ay an h e =
      subst (Follows contract backend last) (ok_injective e) (h, inl (rw (ay, an)))
  dormant_by-Follows y n last none (some t) ay an h e = cc
  dormant_by-Follows y n last (some s) none ay an h e = cc
  dormant_by-Follows y n last (some s) (some t) {b = b} ay an h e =
      elim (Bool-cases (bytes_eq s t)) [
        | inl same ↦
            spent contract backend y s last b ay h.0.2
              (initial_issuance-IsAfter contract backend honest y n s (rw same at e))
        | inr split ↦ (let failed = rw split at e in cc)
      ]

  unresolved_by-Follows :
      (y n c : CanonicalMarketUtxo) (last : Bytes) (sy sn sc : Option Bytes) {b : Bundle}
      → spender backend y ≡ ok sy
      → spender backend n ≡ ok sn
      → spender backend c ≡ ok sc
      → IsProper contract (unresolved_bundle y n c last)
      → unresolved_by backend (canonical_slot_scripts contract) y n c last sy sn sc ≡ ok b
      → Follows contract backend last b
  unfolding unresolved_by all_unspent bundle_utxos
  unresolved_by-Follows y n c last none none none ay an ac h e =
      subst (Follows contract backend last) (ok_injective e) (h, inl (rw (ay, an, ac)))
  unresolved_by-Follows y n c last none none (some t) {b = b} ay an ac h e =
      spent contract backend c t last b ac h.2.2
        (partial_cancellation-IsAfter contract backend honest y n c t last h e)
  unresolved_by-Follows y n c last (some r) (some s) (some t) {b = b} ay an ac h e =
      elim (Bool-cases (bytes_eq r s && bytes_eq s t)) [
        | inl same ↦
            let spends_c : t ≡ r =
              sym
                (bytes_eq→eq r s (ground (arith, same)) ∙ bytes_eq→eq s t (ground (arith, same))) in
            spent contract backend c r last b (ac ∙ ap (λ k. ok (some k)) spends_c) h.2.2
              (bundle_transition-IsAfter contract backend honest y n c r (rw same at e))
        | inr split ↦ (let failed = rw split at e in cc)
      ]
  unresolved_by-Follows y n c last none (some s) none ay an ac h e = cc
  unresolved_by-Follows y n c last none (some s) (some t) ay an ac h e = cc
  unresolved_by-Follows y n c last (some r) none none ay an ac h e = cc
  unresolved_by-Follows y n c last (some r) none (some t) ay an ac h e = cc
  unresolved_by-Follows y n c last (some r) (some s) none ay an ac h e = cc

  terminal_by-Follows :
      (state : MarketState) (c : CanonicalMarketUtxo) (last : Bytes) (sc : Option Bytes)
      {b : Bundle}
      → spender backend c ≡ ok sc
      → IsTerminal state
      → IsOutput contract (terminal_slot state) last c
      → terminal_by backend (canonical_slot_scripts contract) state c last sc ≡ ok b
      → Follows contract backend last b
  unfolding terminal_by all_unspent
  terminal_by-Follows state c last none {b = b} ac h out e = (
    (terminal_bundle-IsAfter contract state c last out e).0,
    inl (rw (terminal_bundle_utxos state c last e, all_unspent, ac)),
  )
  terminal_by-Follows state c last (some txid) {b = b} ac h out e =
      let (tx, fetched, e₁) = >>=-eq-ok (fetch_transaction txid) _ e in
      let (_, _, e₂) = >>=-eq-ok (fail_if (not (tx_spends_outpoint tx c.outpoint)) _) _ e₁ in
      let (_, _, e₃) = >>=-eq-ok (fail_if (ltb (burn_output_count tx) 1) _) _ e₂ in
      let outs = find_slot_outputs tx (canonical_slot_scripts contract) in
      spent contract backend c txid last b ac out.2 (
        redeemed-IsAfter contract backend honest state txid outs h
          (subst (λ t. All (IsFrom contract t) outs) (honest txid tx fetched)
            (find_slot_outputs-IsFrom contract tx))
          (subst (λ k. redeemed state k txid outs ≡ ok b) out.0 e₃))

  terminal_transition-Follows :
      (state : MarketState) (c : CanonicalMarketUtxo) (last : Bytes) {b : Bundle}
      → IsTerminal state
      → IsOutput contract (terminal_slot state) last c
      → resolve_terminal_transition backend (canonical_slot_scripts contract) state c last ≡ ok b
      → Follows contract backend last b
  unfolding resolve_terminal_transition
  terminal_transition-Follows state c last h out e =
      let (sc, ac, e₁) = >>=-eq-ok (spender backend c) _ e in
      terminal_by-Follows state c last sc ac h out e₁

  -- One transition of the scan.
  pub resolve_transition-Follows :
      (b : Bundle) {b' : Bundle}
      → IsProper contract b
      → resolve_transition backend (canonical_slot_scripts contract) b ≡ ok b'
      → Follows contract backend (bundle_last b) b'
  unfolding resolve_transition resolve_dormant_transition resolve_unresolved_transition bundle_last
      all_unspent bundle_utxos
  resolve_transition-Follows (dormant_bundle y n last) h e =
      let (sy, ay, e₁) = >>=-eq-ok (spender backend y) _ e in
      let (sn, an, e₂) = >>=-eq-ok (spender backend n) _ e₁ in
      dormant_by-Follows y n last sy sn ay an h e₂
  resolve_transition-Follows (unresolved_bundle y n c last) h e =
      let (sy, ay, e₁) = >>=-eq-ok (spender backend y) _ e in
      let (sn, an, e₂) = >>=-eq-ok (spender backend n) _ e₁ in
      let (sc, ac, e₃) = >>=-eq-ok (spender backend c) _ e₂ in
      unresolved_by-Follows y n c last sy sn sc ay an ac h e₃
  resolve_transition-Follows (resolved_yes_bundle c last) h e =
      terminal_transition-Follows resolved_yes c last tt h e
  resolve_transition-Follows (resolved_no_bundle c last) h e =
      terminal_transition-Follows resolved_no c last tt h e
  resolve_transition-Follows (expired_bundle c last) h e =
      terminal_transition-Follows expired c last tt h e
  resolve_transition-Follows (empty_terminal state last) h e =
      subst (Follows contract backend last) (ok_injective e) (h, inl refl)
