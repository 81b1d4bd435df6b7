-- ===== src/Tests/MakerOrder.antt =====
-- Orders of a maker at concrete inputs: ten lots for sale at three units each, and a batch that
-- fills one order in full and another in part.
use deadcat.Prelude.{
  ℕ, ◌+◌, ◌≤◌, ◌≡◌, refl, ◌↔◌, true, false, none, some, [], ◌∷◌, Bytes, Result, ok, err, arith,
  checked_sub, checked_mul, bytes_eq, length, All, wrapping_add, wrapping_sub,
}
use deadcat.Error.{Error}
use deadcat.Pset.{Pset, new_pset, outpoint_eq}
use deadcat.Pset.Totals.{total}
use deadcat.MakerOrder.Params.{
  OrderDirection, sell_base, sell_quote, CompiledMakerOrder, offered_asset,
}
use deadcat.MakerOrder.Fill.{
  TakerFill, MakerOrderFill, FillOrderParams, validate_order_fill, validate_sell_base,
  validate_sell_quote, validate_orders, partial_only_last, build_fill_order_pset,
}
use deadcat.MakerOrder.Fill.Validate.{IsFill, validate_order_fill_iff}
use deadcat.MakerOrder.Fill.Layout.{batch_inputs, batch_outputs, build_fill_order_pset-layout}
use deadcat.MakerOrder.Own.{
  CreateOrderParams, CancelOrderParams, build_create_order_pset, build_cancel_order_pset, combined,
  check_separate, check_combined, total_change,
}
use deadcat.MakerOrder.Own.Balance.{
  holds, build_create_order_pset-balance, build_create_order_pset-balance_combined,
  build_cancel_order_pset-balance,
}
use deadcat.Tests.Market.{coin}

abbrev pub base : Bytes
base = 2 ∷ []

abbrev pub quote_asset : Bytes
quote_asset = 1 ∷ []

abbrev pub order_contract : OrderDirection → CompiledMakerOrder
order_contract direction = record {
  params = record {
    base_asset_id = base;
    quote_asset_id = quote_asset;
    price = 3;
    min_fill_lots = 1;
    min_remainder_lots = 1;
    direction = direction;
    maker_receive_spk_hash = [];
    cosigner_pubkey = [];
    maker_pubkey = 8 ∷ [];
  };
  script_pubkey = λ key. 50 ∷ key;
}

abbrev whole_fill : MakerOrderFill
whole_fill = record {
  contract = order_contract sell_quote;
  order_utxo = coin 0 quote_asset 12;
  maker_base_pubkey = 8 ∷ [];
  maker_receive_amount = 4;
  maker_receive_script = 60 ∷ [];
  is_partial = false;
  remainder_amount = 0;
}

abbrev partial_fill : MakerOrderFill
partial_fill = record {
  contract = order_contract sell_base;
  order_utxo = coin 1 base 10;
  maker_base_pubkey = 8 ∷ [];
  maker_receive_amount = 18;
  maker_receive_script = 61 ∷ [];
  is_partial = true;
  remainder_amount = 4;
}

abbrev taker : TakerFill
taker = record {
  funding_utxo = coin 2 quote_asset 20;
  receive_destination = 70 ∷ [];
  receive_amount = 6;
  receive_asset_id = base;
  change_destination = some (71 ∷ []);
  change_amount = 2;
  change_asset_id = quote_asset;
}

abbrev batch : FillOrderParams
batch = record {
  takers = taker ∷ [];
  orders = whole_fill ∷ partial_fill ∷ [];
  fee_utxo = coin 3 quote_asset 9;
  fee_amount = 5;
  fee_asset_id = quote_asset;
  fee_change_destination = none;
}

abbrev funding : (fee_vout : ℕ) → Bytes → CreateOrderParams
funding fee_vout asset = record {
  funding_utxo = coin 0 asset 100;
  fee_utxo = coin fee_vout quote_asset 30;
  order_amount = 60;
  fee_amount = 10;
  fee_asset_id = quote_asset;
  change_destination = some (80 ∷ []);
  fee_change_destination = some (81 ∷ []);
  maker_base_pubkey = 8 ∷ [];
}

abbrev refund : CancelOrderParams
refund = record {
  order_utxo = coin 0 base 60;
  fee_utxo = coin 1 quote_asset 30;
  fee_amount = 10;
  fee_asset_id = quote_asset;
  order_asset_id = base;
  refund_destination = 82 ∷ [];
  fee_change_destination = some (81 ∷ []);
}

abbrev built : Result Error Pset → Pset
built (ok p) = p
built (err e) = new_pset

validate_order_fill_iff_example : (validate_order_fill partial_fill ≡ ok tt) ↔ IsFill partial_fill
validate_order_fill_iff_example =
    validate_order_fill_iff partial_fill (omega arith) (omega arith) (omega arith)

build_fill_order_pset-layout_example :
    let p = built (build_fill_order_pset batch) in
    (p.inputs ≡ batch_inputs batch)
    × (p.outputs ≡ batch_outputs batch)
    × All (λ o. validate_order_fill o ≡ ok tt) batch.orders
    × (1 ≤ length batch.takers)
    × (1 ≤ length batch.orders)
    × (batch.fee_amount ≤ batch.fee_utxo.value)
unfolding build_fill_order_pset partial_only_last validate_orders validate_order_fill
    validate_sell_base validate_sell_quote checked_sub checked_mul
build_fill_order_pset-layout_example = build_fill_order_pset-layout batch refl

build_create_order_pset-balance_example :
    total base (built (build_create_order_pset (order_contract sell_base) (funding 1 base)))
    ≡ holds base base 100 + holds base quote_asset 30
unfolding build_create_order_pset combined outpoint_eq bytes_eq check_separate offered_asset
build_create_order_pset-balance_example =
    build_create_order_pset-balance (order_contract sell_base) (funding 1 base) base refl refl

build_create_order_pset-balance_combined_example :
    total quote_asset
      (built (build_create_order_pset (order_contract sell_quote) (funding 0 quote_asset)))
    ≡ holds quote_asset quote_asset 100
unfolding build_create_order_pset combined outpoint_eq bytes_eq check_combined offered_asset
    total_change wrapping_add wrapping_sub
build_create_order_pset-balance_combined_example =
    build_create_order_pset-balance_combined (order_contract sell_quote) (funding 0 quote_asset)
      quote_asset refl refl (omega arith) (omega arith) refl

build_cancel_order_pset-balance_example :
    total base (built (build_cancel_order_pset refund))
    ≡ holds base base 60 + holds base quote_asset 30
unfolding build_cancel_order_pset
build_cancel_order_pset-balance_example = build_cancel_order_pset-balance refund base refl
