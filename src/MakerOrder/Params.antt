-- ===== src/MakerOrder/Params.antt =====
-- maker_order/params.rs: the parameters of an order, and what the builders use of the compiled
-- contract. `script_pubkey` takes the maker's key to the covenant's script, which comes from the
-- SimplicityHL compiler and taproot hashing, so it is a field of its own.
use deadcat.Prelude.{ℕ, Bytes}

pub data OrderDirection : Type 0 where
  sell_base sell_quote : OrderDirection

pub record MakerOrderParams : Type 0 where
  pub base_asset_id : Bytes
  pub quote_asset_id : Bytes
  pub price : ℕ
  pub min_fill_lots : ℕ
  pub min_remainder_lots : ℕ
  pub direction : OrderDirection
  pub maker_receive_spk_hash : Bytes
  pub cosigner_pubkey : Bytes
  pub maker_pubkey : Bytes

pub record CompiledMakerOrder : Type 0 where
  pub params : MakerOrderParams
  pub script_pubkey : Bytes → Bytes

-- What the maker offers, and what the maker wants.
unfoldable pub offered_asset : MakerOrderParams → Bytes
offered_asset p = elim p.direction [ sell_base ↦ p.base_asset_id | sell_quote ↦ p.quote_asset_id ]

unfoldable pub wanted_asset : MakerOrderParams → Bytes
wanted_asset p = elim p.direction [ sell_base ↦ p.quote_asset_id | sell_quote ↦ p.base_asset_id ]
