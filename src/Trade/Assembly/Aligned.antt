-- ===== src/Trade/Assembly/Aligned.antt =====
-- Where the coins and the payments of the makers stand in the combined transaction.
use deadcat.Prelude.{
  ℕ, ◌≡◌, refl, sym, ◌∙◌, subst, some, Option, List, [], ◌∷◌, ◌++◌, Bytes, length, Result, ok, not,
  ◌&&◌, ◌==◌, is_some, fail_if, fail_if_passed, arith, >>=-eq-ok, ok_injective, Extends,
  get_elem?-Extends,
}
use deadcat.Pset.{UnblindedUtxo, Pset, TxOut, new_pset}
use deadcat.Error.{Error, no_liquidity, trade_routing}
use deadcat.Lmsr.Params.{LmsrPoolParams}
use deadcat.MakerOrder.Params.{MakerOrderParams}
use deadcat.Trade.Assembly.{
  TradePsetParams, TradePsetResult, Gathered, output_at, add_coins, add_outputs, covenant_inputs,
  reserve_outputs, maker_outputs, remainder_output, taker_outputs, build_trade_pset, validate_trade,
  numbered_outputs,
}
use deadcat.Trade.Assembly.Inputs.{
  Spends, Spends-Extends, add_coins-Extends, covenant_inputs-Spends,
}
use deadcat.Trade.Assembly.Prefixes.{
  RemainderAt, RemainderAt-map, remainder_output-Keeps, remainder_output-RemainderAt, PaysAt,
  PaysAt-map, maker_outputs-PaysAt,
}
use deadcat.Trade.Assembly.Outputs.{
  IsAt, outputs-add_outputs, add_outputs-IsAt, taker_outputs-Grows,
}

validate_trade-length :
    (params : TradePsetParams)
    → validate_trade params ≡ ok tt
    → length params.order_contracts ≡ length params.plan.order_legs
unfolding validate_trade
validate_trade-length params e =
    let legs = params.plan.order_legs in
    let uneven = not (length params.order_contracts == length legs) in
    let (_, _, e₁) =
      >>=-eq-ok (fail_if (not (is_some params.plan.lmsr_pool_leg) && length legs == 0) no_liquidity)
        _ e in
    let (_, passed, _) =
      >>=-eq-ok (fail_if uneven (trade_routing "wrong count of order contracts")) _ e₁ in
    let equal = fail_if_passed uneven (trade_routing "wrong count of order contracts") passed in
    ground arith

module _ (sha256 : Bytes → Bytes) (compile_pool : LmsrPoolParams → Result Error (ℕ → Bytes))
    (receive_spk : Bytes → Bytes → MakerOrderParams → Bytes) where
  numbered_outputs-IsAt :
      (params : TradePsetParams) (ks : List ℕ) (pset : Pset) {dense : List TxOut}
      → pset.outputs ≡ []
      → numbered_outputs sha256 compile_pool receive_spk params ks ≡ ok dense
      → PaysAt sha256 compile_pool receive_spk
          (IsAt (add_outputs pset dense))
          params.plan.order_legs
          ks
        × RemainderAt
            (IsAt (add_outputs pset dense))
            params.plan.order_legs
            params.order_contracts
            ks
  unfolding numbered_outputs
  numbered_outputs-IsAt params ks pset {dense = dense} no_outputs e =
      let legs = params.plan.order_legs in
      let (reserves, _, e₁) =
        >>=-eq-ok (reserve_outputs sha256 compile_pool receive_spk params.plan.lmsr_pool_leg []) _
          e in
      let (makers, made, e₂) =
        >>=-eq-ok (maker_outputs sha256 compile_pool receive_spk legs ks reserves) _ e₁ in
      let (numbered, remained, filled) =
        >>=-eq-ok (remainder_output legs params.order_contracts ks makers) _ e₂ in
      let at = λ (k : ℕ) (t : TxOut) (h : output_at k numbered ≡ some t).
        add_outputs-IsAt pset numbered dense k t no_outputs filled h in
      let (pays, _) = maker_outputs-PaysAt sha256 compile_pool receive_spk legs ks reserves made in
      let keeps = remainder_output-Keeps legs params.order_contracts ks makers remained in
      (
        PaysAt-map sha256 compile_pool receive_spk (λ k t. output_at k makers ≡ some t)
            (IsAt (add_outputs pset dense)) (λ k t h. at k t (keeps k t h)) legs ks pays,
        RemainderAt-map (λ k t. output_at k numbered ≡ some t) (IsAt (add_outputs pset dense)) at
            legs params.order_contracts ks
            (remainder_output-RemainderAt legs params.order_contracts ks makers remained),
      )

  gathered-Spends :
      (params : TradePsetParams) (coins : List UnblindedUtxo) {c : Gathered × Option (ℕ × ℕ)}
      → covenant_inputs sha256 compile_pool receive_spk params.plan.lmsr_pool_leg
          params.plan.order_legs
          (record { pset = new_pset; all_input_utxos = []; order_input_indices = [] })
        ≡ ok c
      → ((add_coins c.0 coins).pset.outputs ≡ [])
        × Spends
            (add_coins c.0 coins).pset.inputs
            params.plan.order_legs
            (add_coins c.0 coins).order_input_indices
  unfolding new_pset
  gathered-Spends params coins {c = c} gathered =
      let legs = params.plan.order_legs in
      let (no_outputs, spends) =
        covenant_inputs-Spends sha256 compile_pool receive_spk params.plan.lmsr_pool_leg legs
          (record { pset = new_pset; all_input_utxos = []; order_input_indices = [] }) refl refl
          gathered in
      let (more, same_outputs, same_indices) = add_coins-Extends c.0 coins in
      (
        same_outputs ∙ no_outputs,
        subst (Spends (add_coins c.0 coins).pset.inputs legs) (sym same_indices) (
            Spends-Extends c.0.pset.inputs (add_coins c.0 coins).pset.inputs legs
              c.0.order_input_indices more spends),
      )

  -- What the builder has at hand when it succeeds: the numbered outputs, with those of the taker
  -- behind them, and the inputs that spend the orders' coins.
  abbrev pub IsBuilt : TradePsetParams → TradePsetResult → Type 0
  IsBuilt params r =
      (pset : Pset) × (dense : List TxOut) × (pset.outputs ≡ [])
      × (numbered_outputs sha256 compile_pool receive_spk params r.order_input_indices ≡ ok dense)
      × Extends (add_outputs pset dense).outputs r.pset.outputs
      × Spends r.pset.inputs params.plan.order_legs r.order_input_indices

  pub build_trade_pset-IsBuilt :
      (params : TradePsetParams) {r : TradePsetResult}
      → build_trade_pset sha256 compile_pool receive_spk params ≡ ok r
      → IsBuilt params r
  unfolding build_trade_pset
  build_trade_pset-IsBuilt params e =
      let legs = params.plan.order_legs in
      let (_, _, e₁) = >>=-eq-ok (validate_trade params) _ e in
      let (covenants, gathered, e₂) =
        >>=-eq-ok
          (covenant_inputs sha256 compile_pool receive_spk params.plan.lmsr_pool_leg legs
            (record { pset = new_pset; all_input_utxos = []; order_input_indices = [] }))
          _ e₁ in
      let coins = params.taker_funding_utxos ++ params.fee_utxo ∷ [] in
      let g = add_coins covenants.0 coins in
      let ks = g.order_input_indices in
      let (dense, numbered, e₃) =
        >>=-eq-ok (numbered_outputs sha256 compile_pool receive_spk params ks) _ e₂ in
      let whole = add_outputs g.pset dense in
      let (done, finished, e₄) = >>=-eq-ok (taker_outputs params whole (length dense)) _ e₃ in
      let (no_outputs, spends) = gathered-Spends params coins gathered in
      let (behind, same_inputs) = taker_outputs-Grows params whole (length dense) finished in
      let kept = same_inputs ∙ (outputs-add_outputs g.pset dense).1 in
      subst (IsBuilt params) (ok_injective e₄) (
        g.pset,
        dense,
        no_outputs,
        numbered,
        behind,
        subst (λ l. Spends l legs ks) (sym kept) spends,
      )

  build_trade_pset-valid :
      (params : TradePsetParams) {r : TradePsetResult}
      → build_trade_pset sha256 compile_pool receive_spk params ≡ ok r
      → validate_trade params ≡ ok tt
  unfolding build_trade_pset
  build_trade_pset-valid params e = (>>=-eq-ok (validate_trade params) _ e).1

  -- There is a contract for every order of the plan of a transaction that is built, in which the
  -- input at each order's index spends the coin of the order, and the output at the same index pays
  -- its maker: the asset that the maker wants, the amount of the leg, to the maker's script. Where the
  -- last order leaves a remainder, the next output returns it to the order's covenant.
  pub build_trade_pset-aligned :
      (params : TradePsetParams) {r : TradePsetResult}
      → build_trade_pset sha256 compile_pool receive_spk params ≡ ok r
      → (length params.order_contracts ≡ length params.plan.order_legs)
        × Spends r.pset.inputs params.plan.order_legs r.order_input_indices
        × PaysAt sha256 compile_pool receive_spk
            (IsAt r.pset)
            params.plan.order_legs
            r.order_input_indices
        × RemainderAt
            (IsAt r.pset)
            params.plan.order_legs
            params.order_contracts
            r.order_input_indices
  build_trade_pset-aligned params {r = r} e =
      let legs = params.plan.order_legs in
      let valid = build_trade_pset-valid params e in
      let ks = r.order_input_indices in
      let (pset, dense, no_outputs, numbered, behind, spends) = build_trade_pset-IsBuilt params e in
      let whole = add_outputs pset dense in
      let (pays, remains) = numbered_outputs-IsAt params ks pset no_outputs numbered in
      let later = λ (k : ℕ) (t : TxOut) (h : IsAt whole k t).
        get_elem?-Extends whole.outputs r.pset.outputs k behind h in
      (
        validate_trade-length params valid,
        spends,
        PaysAt-map sha256 compile_pool receive_spk (IsAt whole) (IsAt r.pset) later legs ks pays,
        RemainderAt-map (IsAt whole) (IsAt r.pset) later legs params.order_contracts ks remains,
      )
