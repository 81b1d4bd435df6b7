-- ===== src/Trade/Assembly/Reserves.antt =====
-- The reserves of the pool in the combined transaction.
use deadcat.Prelude.{
  ℕ, zero, suc, ◌+◌, ◌≡◌, ◌∙◌, subst, not, ◌&&◌, if◌then◌else◌, some, List, [], Bytes, bytes_eq,
  Result, ok, fail_if, >>=-eq-ok, checked_add, checked_sub, arith, get_elem?-Extends,
}
use deadcat.Prelude.Int.{pos, neg}
use deadcat.Pset.{Pset, TxOut, explicit_txout}
use deadcat.Error.{Error, trade_routing}
use deadcat.Lmsr.Params.{LmsrPoolParams}
use deadcat.Lmsr.Math.{LmsrTradeKind, buy_yes, sell_yes, buy_no, sell_no, is_buy}
use deadcat.MakerOrder.Params.{MakerOrderParams}
use deadcat.Trade.Types.{LmsrPoolSwapLeg}
use deadcat.Trade.Assembly.{
  TradePsetParams, TradePsetResult, Prefix, output_at, reserve_prefix_output, apply_delta,
  token_deltas, reserve_outputs, maker_outputs, remainder_output, numbered_outputs, add_outputs,
  build_trade_pset,
}
use deadcat.Trade.Assembly.Prefixes.{
  reserve_prefix_output-eq-ok, remainder_output-Keeps, maker_outputs-PaysAt,
}
use deadcat.Trade.Assembly.Outputs.{IsAt, add_outputs-IsAt}
use deadcat.Trade.Assembly.Aligned.{build_trade_pset-IsBuilt}

apply_delta-pos : (start d : ℕ) {v : ℕ} → apply_delta start (pos d) ≡ ok v → v ≡ start + d
unfolding apply_delta checked_add
apply_delta-pos start d h = ground arith

apply_delta-neg : (start d : ℕ) {v : ℕ} → apply_delta start (neg d) ≡ ok v → v + d ≡ start
unfolding apply_delta checked_add checked_sub
apply_delta-neg start zero h = ground arith
apply_delta-neg start (suc d) h = ground arith

-- The old reserves `(yes, no, collateral)` and the new ones, for a trade in which the taker pays
-- `paid` and gets `got`.
abbrev pub Moves : LmsrTradeKind → (paid got : ℕ) → ℕ × ℕ × ℕ → ℕ × ℕ × ℕ → Type 0
Moves buy_yes paid got (y, n, c) (y', n', c') = (y' + got ≡ y) × (n' ≡ n) × (c' ≡ c + paid)
Moves sell_yes paid got (y, n, c) (y', n', c') = (y' ≡ y + paid) × (n' ≡ n) × (c' + got ≡ c)
Moves buy_no paid got (y, n, c) (y', n', c') = (y' ≡ y) × (n' + got ≡ n) × (c' ≡ c + paid)
Moves sell_no paid got (y, n, c) (y', n', c') = (y' ≡ y) × (n' ≡ n + paid) × (c' + got ≡ c)

deltas-Moves :
    (kind : LmsrTradeKind) (paid got y n c y' n' c' : ℕ)
    → let tokens = token_deltas kind (if is_buy kind then got else paid) in
      apply_delta y tokens.0 ≡ ok y'
      → apply_delta n (token_deltas kind (if is_buy kind then got else paid)).1 ≡ ok n'
      → apply_delta c (if is_buy kind then pos paid else neg got) ≡ ok c'
      → Moves kind paid got (y, n, c) (y', n', c')
unfolding token_deltas is_buy
deltas-Moves buy_yes paid got y n c y' n' c' hy hn hc =
    (apply_delta-neg y got hy, apply_delta-pos n 0 hn ∙ omega arith, apply_delta-pos c paid hc)
deltas-Moves sell_yes paid got y n c y' n' c' hy hn hc =
    (apply_delta-pos y paid hy, apply_delta-pos n 0 hn ∙ omega arith, apply_delta-neg c got hc)
deltas-Moves buy_no paid got y n c y' n' c' hy hn hc =
    (apply_delta-pos y 0 hy ∙ omega arith, apply_delta-neg n got hn, apply_delta-pos c paid hc)
deltas-Moves sell_no paid got y n c y' n' c' hy hn hc =
    (apply_delta-pos y 0 hy ∙ omega arith, apply_delta-pos n paid hn, apply_delta-neg c got hc)

module _ (sha256 : Bytes → Bytes) (compile_pool : LmsrPoolParams → Result Error (ℕ → Bytes))
    (receive_spk : Bytes → Bytes → MakerOrderParams → Bytes) where
  -- Three outputs from `out_base` on are the reserves after the leg, in the script of the new index.
  abbrev pub ReservesAt : (ℕ → TxOut → Type 0) → LmsrPoolSwapLeg → Type 0
  ReservesAt P leg =
      (spk_of : ℕ → Bytes) × (y : ℕ) × (n : ℕ) × (c : ℕ) × (compile_pool leg.pool_params
        ≡ ok spk_of)
      × P leg.out_base (explicit_txout leg.pool_params.yes_asset_id y (spk_of leg.new_s_index))
      × P (leg.out_base + 1) (explicit_txout leg.pool_params.no_asset_id n (spk_of leg.new_s_index))
      × P (leg.out_base + 2)
          (explicit_txout leg.pool_params.collateral_asset_id c (spk_of leg.new_s_index))
      × Moves leg.trade_kind leg.delta_in leg.delta_out
          (
            leg.pool_utxos.yes_utxo.value, leg.pool_utxos.no_utxo.value,
            leg.pool_utxos.collateral_utxo.value,
          )
          (y, n, c)

  reserve_outputs-ReservesAt :
      (leg : LmsrPoolSwapLeg) (m : Prefix) {m' : Prefix}
      → reserve_outputs sha256 compile_pool receive_spk (some leg) m ≡ ok m'
      → ReservesAt (λ k t. output_at k m' ≡ some t) leg
  unfolding reserve_outputs
  reserve_outputs-ReservesAt leg m e =
      let utxos = leg.pool_utxos in
      let pp = leg.pool_params in
      let (spk_of, compiled, e₁) = >>=-eq-ok (compile_pool pp) _ e in
      let old_spk = spk_of leg.old_s_index in
      let new_spk = spk_of leg.new_s_index in
      let (_, _, e₂) =
        >>=-eq-ok
          (fail_if
            (not (
              bytes_eq utxos.yes_utxo.txout.script_pubkey old_spk
              && bytes_eq utxos.no_utxo.txout.script_pubkey old_spk
              && bytes_eq utxos.collateral_utxo.txout.script_pubkey old_spk))
            (trade_routing "LMSR reserve inputs must match the old-state covenant script"))
          _ e₁ in
      let tokens =
        token_deltas leg.trade_kind
          (if is_buy leg.trade_kind then leg.delta_out else leg.delta_in) in
      let (y, hy, e₃) = >>=-eq-ok (apply_delta utxos.yes_utxo.value tokens.0) _ e₂ in
      let (n, hn, e₄) = >>=-eq-ok (apply_delta utxos.no_utxo.value tokens.1) _ e₃ in
      let (c, hc, e₅) =
        >>=-eq-ok
          (apply_delta utxos.collateral_utxo.value
            (if is_buy leg.trade_kind then pos leg.delta_in else neg leg.delta_out))
          _ e₄ in
      let out_y = explicit_txout pp.yes_asset_id y new_spk in
      let out_n = explicit_txout pp.no_asset_id n new_spk in
      let out_c = explicit_txout pp.collateral_asset_id c new_spk in
      let (m₁, p₁, e₆) = >>=-eq-ok (reserve_prefix_output leg.out_base out_y m) _ e₅ in
      let (m₂, p₂, p₃) = >>=-eq-ok (reserve_prefix_output (leg.out_base + 1) out_n m₁) _ e₆ in
      let (at₁, _) = reserve_prefix_output-eq-ok leg.out_base out_y m p₁ in
      let (at₂, k₂) = reserve_prefix_output-eq-ok (leg.out_base + 1) out_n m₁ p₂ in
      let (at₃, k₃) = reserve_prefix_output-eq-ok (leg.out_base + 2) out_c m₂ p₃ in
      (
        spk_of,
        y,
        n,
        c,
        compiled,
        k₃ leg.out_base out_y (k₂ leg.out_base out_y at₁),
        k₃ (leg.out_base + 1) out_n at₂,
        at₃,
        deltas-Moves leg.trade_kind leg.delta_in leg.delta_out utxos.yes_utxo.value
            utxos.no_utxo.value utxos.collateral_utxo.value y n c hy hn hc,
      )

  pub numbered_outputs-ReservesAt :
      (params : TradePsetParams) (leg : LmsrPoolSwapLeg) (ks : List ℕ) (pset : Pset)
      {dense : List TxOut}
      → params.plan.lmsr_pool_leg ≡ some leg
      → pset.outputs ≡ []
      → numbered_outputs sha256 compile_pool receive_spk params ks ≡ ok dense
      → ReservesAt (IsAt (add_outputs pset dense)) leg
  unfolding numbered_outputs
  numbered_outputs-ReservesAt params leg ks pset {dense = dense} has_leg no_outputs e =
      let legs = params.plan.order_legs in
      let (reserves, reserved, e₁) =
        >>=-eq-ok (reserve_outputs sha256 compile_pool receive_spk params.plan.lmsr_pool_leg []) _
          e in
      let (makers, made, e₂) =
        >>=-eq-ok (maker_outputs sha256 compile_pool receive_spk legs ks reserves) _ e₁ in
      let (numbered, remained, filled) =
        >>=-eq-ok (remainder_output legs params.order_contracts ks makers) _ e₂ in
      let (spk_of, y, n, c, compiled, at_y, at_n, at_c, moves) = reserve_outputs-ReservesAt leg [] (
        subst (λ l. reserve_outputs sha256 compile_pool receive_spk l [] ≡ ok reserves) has_leg
          reserved) in
      let (_, keeps) = maker_outputs-PaysAt sha256 compile_pool receive_spk legs ks reserves made in
      let keeps' = remainder_output-Keeps legs params.order_contracts ks makers remained in
      let at = λ (k : ℕ) (t : TxOut) (h : output_at k reserves ≡ some t).
        add_outputs-IsAt pset numbered dense k t no_outputs filled (keeps' k t (keeps k t h)) in
      (
        spk_of,
        y,
        n,
        c,
        compiled,
        at leg.out_base _ at_y,
        at (leg.out_base + 1) _ at_n,
        at (leg.out_base + 2) _ at_c,
        moves,
      )

  -- In the transaction that is built for a plan with a leg of the pool, three outputs from the leg's
  -- `out_base` on carry the reserves in the pool's script of the new index: the old ones with what
  -- the leg pays in added and what it gives out taken off, in the assets of the trade.
  pub build_trade_pset-reserves :
      (params : TradePsetParams) (leg : LmsrPoolSwapLeg) {r : TradePsetResult}
      → params.plan.lmsr_pool_leg ≡ some leg
      → build_trade_pset sha256 compile_pool receive_spk params ≡ ok r
      → ReservesAt (IsAt r.pset) leg
  build_trade_pset-reserves params leg {r = r} has_leg e =
      let (pset, dense, no_outputs, numbered, behind, _) =
        build_trade_pset-IsBuilt sha256 compile_pool receive_spk params e in
      let whole = add_outputs pset dense in
      let (spk_of, y, n, c, compiled, at_y, at_n, at_c, moves) =
        numbered_outputs-ReservesAt params leg r.order_input_indices pset has_leg no_outputs
          numbered in
      let pp = leg.pool_params in
      let spk = spk_of leg.new_s_index in
      let later = λ (k : ℕ) (t : TxOut) (h : IsAt whole k t).
        get_elem?-Extends whole.outputs r.pset.outputs k behind h in
      (
        spk_of,
        y,
        n,
        c,
        compiled,
        later leg.out_base (explicit_txout pp.yes_asset_id y spk) at_y,
        later (leg.out_base + 1) (explicit_txout pp.no_asset_id n spk) at_n,
        later (leg.out_base + 2) (explicit_txout pp.collateral_asset_id c spk) at_c,
        moves,
      )
