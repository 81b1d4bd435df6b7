-- ===== src/Scan/Anchor.antt =====
-- prediction_market/anchor.rs: where a market was created, and the openings of its first outputs.
-- A string is the list of its bytes. Trimming, hexadecimal digits and transaction identifiers are
-- functions of the standard library and of other crates: they are the fields of `Text`.
pub mod Canonical
use deadcat.Prelude.{
  ℕ, Bool, not, List, [], ◌∷◌, Bytes, bytes_eq, length, ◌==◌, Result, ok, err, fail_if, ◌>>=◌, ◌>>◌,
  Option, ok_or, String,
}

pub record Text : Type 0 where
  pub trim : Bytes → Bytes
  pub hex_decode : Bytes → Option Bytes
  pub hex_encode : Bytes → Bytes
  pub txid_parse : Bytes → Option Bytes
  pub txid_display : Bytes → Bytes

pub record DormantOutputOpening : Type 0 where
  pub asset_blinding_factor : Bytes
  pub value_blinding_factor : Bytes

pub record PredictionMarketAnchor : Type 0 where
  pub creation_txid : Bytes
  pub yes_dormant_opening : DormantOutputOpening
  pub no_dormant_opening : DormantOutputOpening

pub record ParsedDormantOutputOpening : Type 0 where
  pub asset_blinding_factor : Bytes
  pub value_blinding_factor : Bytes

pub record ParsedPredictionMarketAnchor : Type 0 where
  pub creation_txid : Bytes
  pub yes_dormant_opening : ParsedDormantOutputOpening
  pub no_dormant_opening : ParsedDormantOutputOpening

module _ (text : Text) where
  open text use {trim, hex_decode, hex_encode, txid_parse, txid_display}

  unfoldable pub parse_hex32 : Bytes → Result String Bytes
  parse_hex32 value = do
    let trimmed = trim value
    fail_if (length trimmed == 0) "missing required field"
    decoded ← ok_or (hex_decode trimmed) "invalid field"
    fail_if (not (length decoded == 32)) "expected 32-byte lowercase hex"
    fail_if (not (bytes_eq trimmed (hex_encode decoded))) "must use canonical lowercase hex"
    ok decoded

  unfoldable pub parse_market_creation_txid : Bytes → Result String Bytes
  parse_market_creation_txid creation_txid = do
    let trimmed = trim creation_txid
    fail_if (length trimmed == 0) "missing required creation_txid"
    txid ← ok_or (txid_parse trimmed) "invalid creation_txid"
    fail_if (not (bytes_eq trimmed (txid_display txid))) "must use canonical lowercase hex"
    ok txid

  -- `DormantOutputOpening::from_bytes`
  unfoldable pub opening_from_bytes : Bytes → Bytes → DormantOutputOpening
  opening_from_bytes asset_blinding_factor value_blinding_factor = record {
    asset_blinding_factor = hex_encode asset_blinding_factor;
    value_blinding_factor = hex_encode value_blinding_factor;
  }

  -- `DormantOutputOpening::parse`
  unfoldable pub parse_opening : DormantOutputOpening → Result String ParsedDormantOutputOpening
  parse_opening opening = do
    asset_blinding_factor ← parse_hex32 opening.asset_blinding_factor
    value_blinding_factor ← parse_hex32 opening.value_blinding_factor
    ok (record {
      asset_blinding_factor = asset_blinding_factor;
      value_blinding_factor = value_blinding_factor;
    })

  -- `DormantOutputOpening::canonicalized`
  unfoldable pub opening_canonicalized : DormantOutputOpening → Result String DormantOutputOpening
  opening_canonicalized opening = do
    parsed ← parse_opening opening
    ok (opening_from_bytes parsed.asset_blinding_factor parsed.value_blinding_factor)

  unfoldable pub from_openings : Bytes → Bytes → Bytes → Bytes → Bytes → PredictionMarketAnchor
  from_openings creation_txid yes_asset_blinding_factor yes_value_blinding_factor
        no_asset_blinding_factor no_value_blinding_factor =
      record {
        creation_txid = txid_display creation_txid;
        yes_dormant_opening =
            opening_from_bytes yes_asset_blinding_factor yes_value_blinding_factor;
        no_dormant_opening = opening_from_bytes no_asset_blinding_factor no_value_blinding_factor;
      }

  -- `PredictionMarketAnchor::parse`, which `parse_prediction_market_anchor` calls
  unfoldable pub parse_prediction_market_anchor :
      PredictionMarketAnchor → Result String ParsedPredictionMarketAnchor
  parse_prediction_market_anchor anchor = do
    creation_txid ← parse_market_creation_txid anchor.creation_txid
    yes_dormant_opening ← parse_opening anchor.yes_dormant_opening
    no_dormant_opening ← parse_opening anchor.no_dormant_opening
    ok (record {
      creation_txid = creation_txid;
      yes_dormant_opening = yes_dormant_opening;
      no_dormant_opening = no_dormant_opening;
    })

  -- `PredictionMarketAnchor::canonicalized`
  unfoldable pub anchor_canonicalized :
      PredictionMarketAnchor → Result String PredictionMarketAnchor
  anchor_canonicalized anchor = do
    parsed ← parse_prediction_market_anchor anchor
    let yes = parsed.yes_dormant_opening
    let no = parsed.no_dormant_opening
    ok (record {
      creation_txid = txid_display parsed.creation_txid;
      yes_dormant_opening = opening_from_bytes yes.asset_blinding_factor yes.value_blinding_factor;
      no_dormant_opening = opening_from_bytes no.asset_blinding_factor no.value_blinding_factor;
    })
