-- ===== src/Tests/Convert.antt =====
-- An announced order at a concrete input, with a decoder of lowercase hexadecimal digits.
use Prim.Native.Char.{Char, code}
use deadcat.Prelude.{
  ℕ, ◌+◌, ◌*◌, ◌-◌, ◌≡◌, refl, ◌↔◌, ◌&&◌, leb, if◌then◌else◌, Option, none, some, [], ◌∷◌, Bytes,
  String, ok,
}
use deadcat.MakerOrder.Params.{sell_base, MakerOrderParams}
use deadcat.Trade.Types.{DiscoveredOrder}
use deadcat.Trade.Convert.{direction_of, hex_to_bytes32, parse_discovered_order}
use deadcat.Trade.Convert.Order.{States, parse_discovered_order_iff}
use deadcat.Tests.MakerOrder.{base, order_contract}
use deadcat.Tests.Trade.{scanned}

nibble : Char → Option ℕ
nibble c =
    if leb 48 (code c) && leb (code c) 57
    then some (code c - 48)
    else (if leb 97 (code c) && leb (code c) 102 then some (code c - 87) else none)

byte_of : Option ℕ → Option ℕ → Option Bytes → Option Bytes
byte_of (some h) (some l) (some bs) = some ((16 * h + l) ∷ bs)
byte_of _ _ _ = none

hex_decode : String → Option Bytes
hex_decode String.[] = some []
hex_decode (String.◌∷◌ c String.[]) = none
hex_decode (String.◌∷◌ c (String.◌∷◌ d s)) = byte_of (nibble c) (nibble d) (hex_decode s)

abbrev digits : String
digits = "000102030405060708090a0b0c0d0e0f101112131415161718191a1b1c1d1e1f"

abbrev bytes : Bytes
bytes =
    0 ∷ 1 ∷ 2 ∷ 3 ∷ 4 ∷ 5 ∷ 6 ∷ 7 ∷ 8 ∷ 9 ∷ 10 ∷ 11 ∷ 12 ∷ 13 ∷ 14 ∷ 15 ∷ 16 ∷ 17 ∷ 18 ∷ 19 ∷ 20
    ∷ 21 ∷ 22 ∷ 23 ∷ 24 ∷ 25 ∷ 26 ∷ 27 ∷ 28 ∷ 29 ∷ 30 ∷ 31 ∷ []

abbrev announced : DiscoveredOrder
announced = record (scanned sell_base base 10).discovered {
  direction = "sell-base";
  maker_base_pubkey = digits;
  order_nonce = digits;
  base_asset_id = digits;
  quote_asset_id = digits;
  maker_receive_spk_hash = digits;
  cosigner_pubkey = digits;
}

abbrev announced_params : MakerOrderParams
announced_params = record (order_contract sell_base).params {
  base_asset_id = bytes;
  quote_asset_id = bytes;
  maker_receive_spk_hash = bytes;
  cosigner_pubkey = bytes;
  maker_pubkey = bytes;
}

announced-read : parse_discovered_order hex_decode announced ≡ ok (announced_params, bytes, bytes)
unfolding parse_discovered_order direction_of hex_to_bytes32 hex_decode byte_of nibble
announced-read = refl

parse_discovered_order_iff_example :
    (parse_discovered_order hex_decode announced ≡ ok (announced_params, bytes, bytes))
    ↔ States hex_decode announced announced_params bytes bytes
parse_discovered_order_iff_example =
    parse_discovered_order_iff hex_decode announced announced_params bytes bytes
