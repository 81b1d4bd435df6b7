-- ===== src/Trade/Convert.antt =====
-- trade/convert.rs: an order as it is announced, read as the parameters of its contract. The decoder
-- of hexadecimal digits is another crate's: `hex_decode` stands for `hex::decode`.
pub mod Order
use text.Mathlib.Text
use deadcat.Prelude.{
  ℕ, not, ◌==◌, if◌then◌else◌, Option, Bytes, String, length, Result, ok, err, ok_or, fail_if,
  ◌>>=◌, ◌>>◌,
}
use deadcat.Error.{Error, trade_routing}
use deadcat.MakerOrder.Params.{OrderDirection, sell_base, sell_quote, MakerOrderParams}
use deadcat.Trade.Types.{DiscoveredOrder}

unfoldable pub direction_of : String → Result Error OrderDirection
direction_of direction =
    if Text.◌==◌ direction "sell-base"
    then ok sell_base
    else (if Text.◌==◌ direction "sell-quote"
        then ok sell_quote
        else err (trade_routing "unknown order direction"))

module _ (hex_decode : String → Option Bytes) where
  unfoldable pub hex_to_bytes32 : String → Result Error Bytes
  hex_to_bytes32 hex = do
    bytes ← ok_or (hex_decode hex) (trade_routing "invalid hex")
    fail_if (not (length bytes == 32)) (trade_routing "expected 32 bytes")
    ok bytes

  unfoldable pub parse_discovered_order :
      DiscoveredOrder → Result Error (MakerOrderParams × Bytes × Bytes)
  parse_discovered_order order = do
    direction ← direction_of order.direction
    maker_base_pubkey ← hex_to_bytes32 order.maker_base_pubkey
    order_nonce ← hex_to_bytes32 order.order_nonce
    base_asset_id ← hex_to_bytes32 order.base_asset_id
    quote_asset_id ← hex_to_bytes32 order.quote_asset_id
    maker_receive_spk_hash ← hex_to_bytes32 order.maker_receive_spk_hash
    cosigner_pubkey ← hex_to_bytes32 order.cosigner_pubkey
    ok (
      record {
        base_asset_id = base_asset_id;
        quote_asset_id = quote_asset_id;
        price = order.price;
        min_fill_lots = order.min_fill_lots;
        min_remainder_lots = order.min_remainder_lots;
        direction = direction;
        maker_receive_spk_hash = maker_receive_spk_hash;
        cosigner_pubkey = cosigner_pubkey;
        maker_pubkey = maker_base_pubkey;
      },
      maker_base_pubkey,
      order_nonce,
    )
