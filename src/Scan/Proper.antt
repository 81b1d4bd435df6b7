-- ===== src/Scan/Proper.antt =====
-- The bundles of the scan against the covenant's scripts.
pub mod Moves
pub mod Follows
use deadcat.Prelude.{
  ℕ, zero, suc, ◌≡◌, ◌≢◌, refl, sym, ap, ◌∙◌, subst, ◌⊎◌, inl, inr, Bool, true, false, not, ◌&&◌,
  ◌||◌, ltb, leb, ◌==◌, if◌then◌else◌, Option, none, some, List, [], ◌∷◌, Bytes, bytes_eq,
  bytes_eq→eq, length, All, Result, ok, err, fail_if, ◌>>=◌, ◌>>◌, >>=-eq-ok, ok_injective,
  some_injective, Bool-cases, List-cases, Option-cases, Result-cases, is_some, arith, String,
}
use deadcat.Pset.{OutPoint}
use deadcat.Market.State.{
  MarketState, MarketSlot, dormant, unresolved, resolved_yes, resolved_no, expired, dormant_yes_rt,
  dormant_no_rt, unresolved_yes_rt, unresolved_no_rt, unresolved_collateral,
  resolved_yes_collateral, resolved_no_collateral, expired_collateral, slot_eq,
  live_slots_for_state, contains,
}
use deadcat.Market.Params.{CompiledPredictionMarket}
use deadcat.Scan.Chain.{
  Transaction, PredictionMarketScanBackend, CanonicalMarketUtxo, CanonicalMarketScan,
  canonical_slot_scripts, expect_exact_slot_set, find_slot_outputs, tx_spends_outpoint,
  tx_spends_all, burn_output_count, first_two_issue,
}
use deadcat.Scan.Outputs.{
  IsFrom, IsOutput, AreOutputs, find_slot_outputs-IsFrom, expect_exact_slot_set-AreOutputs,
  slot_eq→eq,
}
use deadcat.Scan.Transition.{
  Bundle, dormant_bundle, unresolved_bundle, resolved_yes_bundle, resolved_no_bundle,
  expired_bundle, empty_terminal, bundle_state, bundle_utxos, bundle_last, into_scan, slots_of,
  unresolved_bundle_slots, spender, all_unspent, unresolved_of, dormant_of, terminal_bundle,
  terminal_of, initial_issuance, resolve_dormant_transition, partial_cancellation,
  burning_transition, bundle_transition, unresolved_by, resolve_unresolved_transition, redeemed,
  resolve_terminal_transition, resolve_transition, dormant_by, terminal_by, is_single,
  stays_unresolved,
}

-- The states in which nothing but redemptions are left.
abbrev pub IsTerminal : MarketState → Type 0
IsTerminal resolved_yes = Unit
IsTerminal resolved_no = Unit
IsTerminal expired = Unit
IsTerminal _ = ⊥

-- The slot of the only output of a terminal state; any slot elsewhere.
abbrev pub terminal_slot : MarketState → MarketSlot
terminal_slot resolved_no = resolved_no_collateral
terminal_slot expired = expired_collateral
terminal_slot _ = resolved_yes_collateral

module _ (contract : CompiledPredictionMarket) where
  abbrev pub Pays : MarketSlot → CanonicalMarketUtxo → Type 0
  Pays slot utxo = (utxo.slot ≡ slot) × (utxo.txout.script_pubkey ≡ contract.script_pubkey slot)

  -- The outputs of a bundle are the covenant's, slot by slot, and those that move last are outputs
  -- of the last transition.
  abbrev pub IsProper : Bundle → Type 0
  IsProper (dormant_bundle y n last) =
      IsOutput contract dormant_yes_rt last y × IsOutput contract dormant_no_rt last n
  IsProper (unresolved_bundle y n c last) =
      Pays unresolved_yes_rt y
      × Pays unresolved_no_rt n
      × IsOutput contract unresolved_collateral last c
  IsProper (resolved_yes_bundle c last) = IsOutput contract resolved_yes_collateral last c
  IsProper (resolved_no_bundle c last) = IsOutput contract resolved_no_collateral last c
  IsProper (expired_bundle c last) = IsOutput contract expired_collateral last c
  IsProper (empty_terminal state last) = IsTerminal state

  -- The bundle of the transition `txid`.
  abbrev pub IsAfter : Bytes → Bundle → Type 0
  IsAfter txid b = IsProper b × (bundle_last b ≡ txid)

  pub unresolved_of-IsAfter :
      (txid : Bytes) (us : List CanonicalMarketUtxo) {b : Bundle}
      → AreOutputs contract unresolved_bundle_slots txid us
      → unresolved_of txid us ≡ ok b
      → IsAfter txid b
  unfolding unresolved_of bundle_last
  unresolved_of-IsAfter txid [] h e = absurd h
  unresolved_of-IsAfter txid (y ∷ []) h e = absurd h.1
  unresolved_of-IsAfter txid (y ∷ n ∷ []) h e = absurd h.1.1
  unresolved_of-IsAfter txid (y ∷ n ∷ c ∷ d ∷ us) h e = absurd h.1.1.1
  unresolved_of-IsAfter txid (y ∷ n ∷ c ∷ []) (hy, (hn, (hc, _))) e =
      subst (IsAfter txid) (ok_injective e) (((hy.0, hy.1), (hn.0, hn.1), hc), refl)

  pub dormant_of-IsAfter :
      (txid : Bytes) (us : List CanonicalMarketUtxo) {b : Bundle}
      → AreOutputs contract (dormant_yes_rt ∷ dormant_no_rt ∷ []) txid us
      → dormant_of txid us ≡ ok b
      → IsAfter txid b
  unfolding dormant_of bundle_last
  dormant_of-IsAfter txid [] h e = absurd h
  dormant_of-IsAfter txid (y ∷ []) h e = absurd h.1
  dormant_of-IsAfter txid (y ∷ n ∷ c ∷ us) h e = absurd h.1.1
  dormant_of-IsAfter txid (y ∷ n ∷ []) (hy, (hn, _)) e =
      subst (IsAfter txid) (ok_injective e) ((hy, hn), refl)

  pub terminal_bundle-IsAfter :
      (state : MarketState) (c : CanonicalMarketUtxo) (txid : Bytes) {b : Bundle}
      → IsOutput contract (terminal_slot state) txid c
      → terminal_bundle state c txid ≡ ok b
      → IsAfter txid b
  unfolding terminal_bundle bundle_last
  terminal_bundle-IsAfter resolved_yes c txid h e = subst (IsAfter txid) (ok_injective e) (h, refl)
  terminal_bundle-IsAfter resolved_no c txid h e = subst (IsAfter txid) (ok_injective e) (h, refl)
  terminal_bundle-IsAfter expired c txid h e = subst (IsAfter txid) (ok_injective e) (h, refl)
  terminal_bundle-IsAfter dormant c txid h e = cc
  terminal_bundle-IsAfter unresolved c txid h e = cc

  pub terminal_of-IsAfter :
      (state : MarketState) (txid : Bytes) (us : List CanonicalMarketUtxo) {b : Bundle}
      → AreOutputs contract (terminal_slot state ∷ []) txid us
      → terminal_of state txid us ≡ ok b
      → IsAfter txid b
  unfolding terminal_of
  terminal_of-IsAfter state txid [] h e = absurd h
  terminal_of-IsAfter state txid (c ∷ d ∷ us) h e = absurd h.1
  terminal_of-IsAfter state txid (c ∷ []) (h, _) e = terminal_bundle-IsAfter state c txid h e
