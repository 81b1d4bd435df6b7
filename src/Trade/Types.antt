-- ===== src/Trade/Types.antt =====
-- trade/types.rs and the records of trade/router.rs: the legs of a plan, and an order with its coin.
-- `DiscoveredOrder` is the order's announcement (discovery/mod.rs), which the fills do not read.
use deadcat.Prelude.{ℕ, Bool, Bytes, String, Option, List}
use deadcat.Lmsr.Params.{LmsrPoolParams}
use deadcat.Lmsr.Math.{LmsrTradeKind}
use deadcat.Lmsr.Table.{LmsrTableManifest}
use deadcat.Pool.{PoolReserves}
use deadcat.Pset.{UnblindedUtxo}
use deadcat.MakerOrder.Params.{MakerOrderParams}

pub record DiscoveredOrder : Type 0 where
  pub id : String
  pub market_id : String
  pub base_asset_id : String
  pub quote_asset_id : String
  pub price : ℕ
  pub min_fill_lots : ℕ
  pub min_remainder_lots : ℕ
  pub direction : String
  pub direction_label : String
  pub maker_base_pubkey : String
  pub order_nonce : String
  pub covenant_address : String
  pub offered_amount : ℕ
  pub cosigner_pubkey : String
  pub maker_receive_spk_hash : String
  pub creator_pubkey : String
  pub created_at : ℕ
  pub nostr_event_json : Option String

pub record ScannedOrder : Type 0 where
  pub discovered : DiscoveredOrder
  pub utxo : UnblindedUtxo
  pub maker_base_pubkey : Bytes
  pub order_nonce : Bytes
  pub params : MakerOrderParams

pub record OrderFillLeg : Type 0 where
  pub params : MakerOrderParams
  pub maker_base_pubkey : Bytes
  pub order_nonce : Bytes
  pub order_utxo : UnblindedUtxo
  pub lots : ℕ
  pub taker_pays : ℕ
  pub taker_receives : ℕ
  pub maker_receive_amount : ℕ
  pub is_partial : Bool
  pub remainder_value : ℕ

pub data TradeDirection : Type 0 where
  buy sell : TradeDirection

pub data TradeSide : Type 0 where
  yes_side no_side : TradeSide

pub data LmsrPrimaryPath : Type 0 where
  swap admin_adjust : LmsrPrimaryPath

pub record LmsrPoolUtxos : Type 0 where
  pub yes_utxo : UnblindedUtxo
  pub no_utxo : UnblindedUtxo
  pub collateral_utxo : UnblindedUtxo

pub record ScannedLmsrPool : Type 0 where
  pub params : LmsrPoolParams
  pub pool_id : String
  pub current_s_index : ℕ
  pub reserves : PoolReserves
  pub pool_utxos : LmsrPoolUtxos
  pub manifest : LmsrTableManifest

pub record LmsrPoolSwapLeg : Type 0 where
  pub primary_path : LmsrPrimaryPath
  pub pool_params : LmsrPoolParams
  pub pool_id : String
  pub old_s_index : ℕ
  pub new_s_index : ℕ
  pub old_path_bits : ℕ
  pub new_path_bits : ℕ
  pub old_siblings : List Bytes
  pub new_siblings : List Bytes
  pub in_base : ℕ
  pub out_base : ℕ
  pub pool_utxos : LmsrPoolUtxos
  pub trade_kind : LmsrTradeKind
  pub old_f : ℕ
  pub new_f : ℕ
  pub delta_in : ℕ
  pub delta_out : ℕ
  pub admin_signature : Bytes

pub record ExecutionPlan : Type 0 where
  pub order_legs : List OrderFillLeg
  pub lmsr_pool_leg : Option LmsrPoolSwapLeg
  pub taker_send_asset : Bytes
  pub taker_receive_asset : Bytes
  pub total_taker_input : ℕ
  pub total_taker_output : ℕ
  pub quoted_reserves : Option PoolReserves

pub data LiquiditySource : Type 0 where
  lmsr_pool_source : (pool_id : String) (old_s_index new_s_index : ℕ) → LiquiditySource
  limit_order_source : (order_id : String) (price lots : ℕ) → LiquiditySource

pub record RouteLeg : Type 0 where
  pub source : LiquiditySource
  pub input_amount : ℕ
  pub output_amount : ℕ
