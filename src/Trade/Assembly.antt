-- ===== src/Trade/Assembly.antt =====
-- trade/pset.rs: the combined transaction of a plan. The covenant scripts of the pool come from the
-- SimplicityHL compiler and the makers' receive scripts from secp256k1: `compile_pool` stands for
-- `CompiledLmsrPool::new` with `script_pubkey`, and `receive_spk` for `derive_maker_receive` with
-- `maker_receive_script_pubkey`.
pub mod Inputs
pub mod Prefixes
pub mod Outputs
pub mod Aligned
pub mod Reserves
use deadcat.Prelude.{
  ℕ, zero, suc, ◌+◌, ◌-◌, Bool, true, false, not, ◌&&◌, ltb, ◌==◌, if◌then◌else◌, Option, none,
  some, List, [], ◌∷◌, ◌++◌, Bytes, bytes_eq, length, is_some, Result, ok, err, ok_or, fail_if,
  map_err, ◌>>=◌, ◌>>◌, checked_add, checked_sub, wrapping_add,
}
use deadcat.Prelude.Int.{ℤ, pos, negsuc, neg}
use deadcat.Pset.{
  UnblindedUtxo, TxOut, Pset, new_pset, add_pset_input, add_pset_output, explicit_txout, fee_txout,
}
use deadcat.Error.{
  Error, no_liquidity, trade_routing, insufficient_fee, partial_fill_not_last,
  missing_change_destination,
}
use deadcat.Lmsr.Params.{LmsrPoolParams}
use deadcat.Lmsr.Math.{LmsrTradeKind, buy_yes, sell_yes, buy_no, sell_no, is_buy}
use deadcat.Lmsr.Table.{verify_lmsr_table_proof}
use deadcat.MakerOrder.Params.{MakerOrderParams, CompiledMakerOrder, wanted_asset, offered_asset}
use deadcat.Trade.Types.{OrderFillLeg, LmsrPoolSwapLeg, LmsrPoolUtxos, ExecutionPlan}
use deadcat.Trade.Plan.{only_last_partial}

pub record TradePsetParams : Type 0 where
  pub plan : ExecutionPlan
  pub order_contracts : List CompiledMakerOrder
  pub taker_funding_utxos : List UnblindedUtxo
  pub fee_utxo : UnblindedUtxo
  pub fee_amount : ℕ
  pub fee_asset_id : Bytes
  pub taker_receive_destination : Bytes
  pub taker_change_destination : Option Bytes

-- `lmsr_input_range` is `(start, end)`.
pub record TradePsetResult : Type 0 where
  pub pset : Pset
  pub all_input_utxos : List UnblindedUtxo
  pub blind_output_indices : List ℕ
  pub lmsr_input_range : Option (ℕ × ℕ)
  pub order_input_indices : List ℕ

-- `pset`, `all_input_utxos` and `order_input_indices` while the inputs are added.
pub record Gathered : Type 0 where
  pub pset : Pset
  pub all_input_utxos : List UnblindedUtxo
  pub order_input_indices : List ℕ

-- `.map(|u| u.value).sum()`, which wraps
unfoldable pub total_value : List UnblindedUtxo → ℕ
total_value [] = 0
total_value (utxo ∷ utxos) = wrapping_add utxo.value (total_value utxos)

unfoldable pub add_coin : Gathered → UnblindedUtxo → Gathered
add_coin g utxo = record g {
  pset = add_pset_input g.pset utxo;
  all_input_utxos = g.all_input_utxos ++ utxo ∷ [];
}

unfoldable pub add_coins : Gathered → List UnblindedUtxo → Gathered
add_coins g [] = g
add_coins g (utxo ∷ utxos) = add_coins (add_coin g utxo) utxos

-- The index of an order is where its coin goes.
unfoldable pub add_order : Gathered → OrderFillLeg → Gathered
add_order g leg =
    let added = add_coin g leg.order_utxo in
    record added { order_input_indices = g.order_input_indices ++ length g.pset.inputs ∷ [] }

unfoldable pub add_orders : Gathered → List OrderFillLeg → Gathered
add_orders g [] = g
add_orders g (leg ∷ legs) = add_orders (add_order g leg) legs

unfoldable pub pool_coins : LmsrPoolUtxos → List UnblindedUtxo
pool_coins utxos = utxos.yes_utxo ∷ utxos.no_utxo ∷ utxos.collateral_utxo ∷ []

abbrev pub take : {A : Type 0} → ℕ → List A → List A
take zero xs = []
take (suc n) [] = []
take (suc n) (x ∷ xs) = x ∷ take n xs

abbrev pub skip : {A : Type 0} → ℕ → List A → List A
skip zero xs = xs
skip (suc n) [] = []
skip (suc n) (x ∷ xs) = skip n xs

-- `indexed_prefix_outputs`, newest first.
abbrev pub Prefix : Type 0
Prefix = List (ℕ × TxOut)

abbrev pub output_at : ℕ → Prefix → Option TxOut
output_at i [] = none
output_at i ((k, txout) ∷ rest) = if k == i then some txout else output_at i rest

unfoldable pub reserve_prefix_output : ℕ → TxOut → Prefix → Result Error Prefix
reserve_prefix_output index txout outputs = do
  fail_if (is_some (output_at index outputs)) (trade_routing "output index conflict")
  ok ((index, txout) ∷ outputs)

unfoldable pub max_index_of : Prefix → ℕ
max_index_of [] = 0
max_index_of ((k, txout) ∷ rest) = let m = max_index_of rest in if ltb m k then k else m

-- `for idx in 0..=max_index`, with `n` rounds left. A round removes what it takes, and no index
-- comes twice.
unfoldable pub dense_from : ℕ → ℕ → Prefix → Result Error (List TxOut)
dense_from zero idx outputs = ok []
dense_from (suc n) idx outputs = do
  txout ← ok_or (output_at idx outputs) (trade_routing "cannot construct dense output prefix")
  rest ← dense_from n (suc idx) outputs
  ok (txout ∷ rest)

unfoldable pub dense_outputs : Prefix → Result Error (List TxOut)
dense_outputs [] = ok []
dense_outputs (entry ∷ rest) = dense_from (suc (max_index_of (entry ∷ rest))) 0 (entry ∷ rest)

unfoldable pub add_outputs : Pset → List TxOut → Pset
add_outputs pset [] = pset
add_outputs pset (txout ∷ txouts) = add_outputs (add_pset_output pset txout) txouts

-- `apply_delta`
unfoldable pub apply_delta : ℕ → ℤ → Result Error ℕ
apply_delta start (pos d) =
    ok_or (checked_add start d) (trade_routing "overflow applying LMSR delta")
apply_delta start (negsuc d) =
    ok_or (checked_sub start (suc d)) (trade_routing "underflow applying LMSR delta")

-- `(yes_delta, no_delta)`
unfoldable pub token_deltas : LmsrTradeKind → ℕ → ℤ × ℤ
token_deltas buy_yes traded_lots = (neg traded_lots, pos 0)
token_deltas sell_yes traded_lots = (pos traded_lots, pos 0)
token_deltas buy_no traded_lots = (pos 0, neg traded_lots)
token_deltas sell_no traded_lots = (pos 0, pos traded_lots)

-- The remainder of the last order; `legs`, `contracts` and `indices` run in step.
unfoldable pub remainder_output :
    List OrderFillLeg → List CompiledMakerOrder → List ℕ → Prefix → Result Error Prefix
remainder_output (leg ∷ []) (contract ∷ []) (index ∷ []) outputs =
    if leg.is_partial && ltb 0 leg.remainder_value
    then reserve_prefix_output (suc index)
        (explicit_txout (offered_asset leg.params) leg.remainder_value
          (contract.script_pubkey leg.maker_base_pubkey))
        outputs
    else ok outputs
remainder_output (leg ∷ next ∷ legs) (contract ∷ contracts) (index ∷ indices) outputs =
    remainder_output (next ∷ legs) contracts indices outputs
remainder_output _ _ _ outputs = ok outputs

-- A change output, which wants a destination, with the running `output_idx` of the next output.
unfoldable pub add_required_change :
    Option Bytes → Bytes → (change : ℕ) → Pset × List ℕ × ℕ → Result Error (Pset × List ℕ × ℕ)
add_required_change destination asset_id change (pset, blind, output_idx) =
    if not (ltb 0 change) then ok (pset, blind, output_idx) else elim destination [
      | none ↦ err missing_change_destination
      | some spk ↦ ok (
        add_pset_output pset (explicit_txout asset_id change spk),
        blind ++ output_idx ∷ [],
        suc output_idx,
      )
    ]

-- The checks at the start.
unfoldable pub validate_trade : TradePsetParams → Result Error (Unit {0})
validate_trade params = do
  let plan = params.plan
  let legs = plan.order_legs
  fail_if (not (is_some plan.lmsr_pool_leg) && length legs == 0) no_liquidity
  fail_if (not (length params.order_contracts == length legs))
      (trade_routing "wrong count of order contracts")
  fail_if (length params.taker_funding_utxos == 0)
      (trade_routing "at least one taker funding UTXO required")
  fail_if (ltb params.fee_utxo.value params.fee_amount) insufficient_fee
  fail_if (not (only_last_partial legs)) partial_fill_not_last
  fail_if (ltb (total_value params.taker_funding_utxos) plan.total_taker_input)
      (trade_routing "insufficient taker funding")

-- The outputs for the taker and the fee.
unfoldable pub taker_outputs :
    TradePsetParams → Pset → (output_idx : ℕ) → Result Error (Pset × List ℕ)
taker_outputs params pset output_idx = do
  let received = add_pset_output pset (
      explicit_txout params.plan.taker_receive_asset params.plan.total_taker_output
        params.taker_receive_destination)
  changed ←
      add_required_change params.taker_change_destination params.plan.taker_send_asset
        (total_value params.taker_funding_utxos - params.plan.total_taker_input)
        (received, output_idx ∷ [], suc output_idx)
  let paid = add_pset_output changed.0 (fee_txout params.fee_asset_id params.fee_amount)
  done ←
      add_required_change params.taker_change_destination params.fee_asset_id
        (params.fee_utxo.value - params.fee_amount) (paid, changed.1, suc changed.2)
  ok (done.0, done.1)

module _ (sha256 : Bytes → Bytes) (compile_pool : LmsrPoolParams → Result Error (ℕ → Bytes))
    (receive_spk : Bytes → Bytes → MakerOrderParams → Bytes) where
  unfoldable pub validate_lmsr_table_membership : LmsrPoolSwapLeg → Result Error (Unit {0})
  validate_lmsr_table_membership leg = do
    let params = leg.pool_params
    map_err (λ e. trade_routing "invalid LMSR old-state table proof")
        (verify_lmsr_table_proof sha256 params.lmsr_table_root params.table_depth leg.old_s_index
          leg.old_f leg.old_path_bits leg.old_siblings)
    map_err (λ e. trade_routing "invalid LMSR new-state table proof")
        (verify_lmsr_table_proof sha256 params.lmsr_table_root params.table_depth leg.new_s_index
          leg.new_f leg.new_path_bits leg.new_siblings)

  -- The inputs of the pool and of the makers, and the range of the pool's.
  unfoldable pub covenant_inputs :
      Option LmsrPoolSwapLeg
      → List OrderFillLeg
      → Gathered
      → Result Error (Gathered × Option (ℕ × ℕ))
  covenant_inputs none legs g = ok (add_orders g legs, none)
  covenant_inputs (some leg) legs g = do
    fail_if (leg.new_s_index == leg.old_s_index)
        (trade_routing "LMSR swap requires NEW_S_INDEX != OLD_S_INDEX")
    validate_lmsr_table_membership leg
    fail_if (ltb (length legs) leg.in_base) (trade_routing "LMSR IN_BASE exceeds order leg count")
    let before = add_orders g (take leg.in_base legs)
    let reserve_start = length before.pset.inputs
    ok (
      add_orders (add_coins before (pool_coins leg.pool_utxos)) (skip leg.in_base legs),
      some (reserve_start, reserve_start + 3),
    )

  -- The reserves of the pool after the trade.
  unfoldable pub reserve_outputs : Option LmsrPoolSwapLeg → Prefix → Result Error Prefix
  reserve_outputs none outputs = ok outputs
  reserve_outputs (some leg) outputs = do
    let utxos = leg.pool_utxos
    let pp = leg.pool_params
    spk_of ← compile_pool pp
    let old_covenant_spk = spk_of leg.old_s_index
    let new_covenant_spk = spk_of leg.new_s_index
    fail_if
        (not (
          bytes_eq utxos.yes_utxo.txout.script_pubkey old_covenant_spk
          && bytes_eq utxos.no_utxo.txout.script_pubkey old_covenant_spk
          && bytes_eq utxos.collateral_utxo.txout.script_pubkey old_covenant_spk))
        (trade_routing "LMSR reserve inputs must match the old-state covenant script")
    let tokens =
        token_deltas leg.trade_kind (if is_buy leg.trade_kind then leg.delta_out else leg.delta_in)
    new_r_yes ← apply_delta utxos.yes_utxo.value tokens.0
    new_r_no ← apply_delta utxos.no_utxo.value tokens.1
    new_r_collateral ←
        apply_delta utxos.collateral_utxo.value
          (if is_buy leg.trade_kind then pos leg.delta_in else neg leg.delta_out)
    with_yes ←
        reserve_prefix_output leg.out_base
          (explicit_txout pp.yes_asset_id new_r_yes new_covenant_spk) outputs
    with_no ←
        reserve_prefix_output (leg.out_base + 1)
          (explicit_txout pp.no_asset_id new_r_no new_covenant_spk) with_yes
    reserve_prefix_output (leg.out_base + 2)
        (explicit_txout pp.collateral_asset_id new_r_collateral new_covenant_spk) with_no

  -- What a maker receives.
  unfoldable pub maker_txout : OrderFillLeg → TxOut
  maker_txout leg =
      explicit_txout (wanted_asset leg.params) leg.maker_receive_amount
        (receive_spk leg.maker_base_pubkey leg.order_nonce leg.params)

  -- The loop over the order legs with their indices. The source indexes the list of indices, which
  -- is as long as the legs.
  unfoldable pub maker_outputs : List OrderFillLeg → List ℕ → Prefix → Result Error Prefix
  maker_outputs [] indices outputs = ok outputs
  maker_outputs (leg ∷ legs) [] outputs = err (trade_routing "index out of bounds")
  maker_outputs (leg ∷ legs) (index ∷ indices) outputs = do
    more ← reserve_prefix_output index (maker_txout leg) outputs
    maker_outputs legs indices more

  -- The outputs before those for the taker.
  unfoldable pub numbered_outputs : TradePsetParams → List ℕ → Result Error (List TxOut)
  numbered_outputs params order_input_indices = do
    reserves ← reserve_outputs params.plan.lmsr_pool_leg []
    makers ← maker_outputs params.plan.order_legs order_input_indices reserves
    outputs ←
        remainder_output params.plan.order_legs params.order_contracts order_input_indices makers
    dense_outputs outputs

  unfoldable pub build_trade_pset : TradePsetParams → Result Error TradePsetResult
  build_trade_pset params = do
    validate_trade params
    covenants ←
        covenant_inputs params.plan.lmsr_pool_leg params.plan.order_legs
          (record { pset = new_pset; all_input_utxos = []; order_input_indices = [] })
    let g = add_coins covenants.0 (params.taker_funding_utxos ++ params.fee_utxo ∷ [])
    dense ← numbered_outputs params g.order_input_indices
    done ← taker_outputs params (add_outputs g.pset dense) (length dense)
    ok (record {
      pset = done.0;
      all_input_utxos = g.all_input_utxos;
      blind_output_indices = done.1;
      lmsr_input_range = covenants.1;
      order_input_indices = g.order_input_indices;
    })
