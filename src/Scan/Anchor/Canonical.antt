-- ===== src/Scan/Anchor/Canonical.antt =====
-- Which anchors are accepted: the digits of a text and its bytes are each other's only spelling.
use deadcat.Prelude.{
  ◌*◌, ◌≡◌, refl, sym, ap, ◌∙◌, ◌↔◌, subst, true, false, not, ◌==◌, some, Bytes, bytes_eq,
  bytes_eq→eq, bytes_eq_refl, length, ok, fail_if, fail_if_passed, ok_or, ok_or-eq-some, >>=-eq-ok,
  ok_injective, arith,
}
use deadcat.Scan.Anchor.{
  Text, DormantOutputOpening, PredictionMarketAnchor, ParsedDormantOutputOpening,
  ParsedPredictionMarketAnchor, parse_hex32, parse_market_creation_txid, opening_from_bytes,
  parse_opening, from_openings, parse_prediction_market_anchor,
}

-- What the model relies on in the functions of `Text`.
pub record IsText (text : Text) : Type 0 where
  pub hex_decode-encode : (b : Bytes) → text.hex_decode (text.hex_encode b) ≡ some b
  pub length-hex_encode : (b : Bytes) → length (text.hex_encode b) ≡ 2 * length b
  pub txid_parse-display :
      (t : Bytes) → length t ≡ 32 → text.txid_parse (text.txid_display t) ≡ some t
  pub txid_parse_length : (s t : Bytes) → text.txid_parse s ≡ some t → length t ≡ 32
  pub length-txid_display : (t : Bytes) → length (text.txid_display t) ≡ 2 * length t

-- The fields of a parsed anchor are arrays of 32 bytes.
abbrev pub IsSized : ParsedPredictionMarketAnchor → Type 0
IsSized p =
    (length p.creation_txid ≡ 32)
    × (length p.yes_dormant_opening.asset_blinding_factor ≡ 32)
    × (length p.yes_dormant_opening.value_blinding_factor ≡ 32)
    × (length p.no_dormant_opening.asset_blinding_factor ≡ 32)
    × (length p.no_dormant_opening.value_blinding_factor ≡ 32)

module _ (text : Text) where
  open text use {trim}

  -- An opening with blanks trimmed.
  abbrev pub trimmed_opening : DormantOutputOpening → DormantOutputOpening
  trimmed_opening o = record {
    asset_blinding_factor = trim o.asset_blinding_factor;
    value_blinding_factor = trim o.value_blinding_factor;
  }

  abbrev pub trimmed_anchor : PredictionMarketAnchor → PredictionMarketAnchor
  trimmed_anchor a = record {
    creation_txid = trim a.creation_txid;
    yes_dormant_opening = trimmed_opening a.yes_dormant_opening;
    no_dormant_opening = trimmed_opening a.no_dormant_opening;
  }

  -- The anchor that is written for parsed fields.
  abbrev pub spelling : ParsedPredictionMarketAnchor → PredictionMarketAnchor
  spelling p =
      let yes = p.yes_dormant_opening in
      let no' = p.no_dormant_opening in
      from_openings text p.creation_txid yes.asset_blinding_factor yes.value_blinding_factor
        no'.asset_blinding_factor no'.value_blinding_factor

module _ (text : Text) (law : IsText text) where
  open text use {trim, hex_decode, hex_encode, txid_parse, txid_display}

  parse_hex32_sound :
      (v b : Bytes) → parse_hex32 text v ≡ ok b → (trim v ≡ hex_encode b) × (length b ≡ 32)
  unfolding parse_hex32
  parse_hex32_sound v b e =
      let (_, _, e₁) = >>=-eq-ok (fail_if (length (trim v) == 0) "missing required field") _ e in
      let (d, _, e₂) = >>=-eq-ok (ok_or (hex_decode (trim v)) "invalid field") _ e₁ in
      let (_, sized, e₃) =
        >>=-eq-ok (fail_if (not (length d == 32)) "expected 32-byte lowercase hex") _ e₂ in
      let (_, spelt, e₄) =
        >>=-eq-ok
          (fail_if (not (bytes_eq (trim v) (hex_encode d))) "must use canonical lowercase hex") _
          e₃ in
      let same : d ≡ b = ok_injective e₄ in
      let spelling =
        bytes_eq→eq (trim v) (hex_encode d)
          (ground (arith, fail_if_passed (not (bytes_eq (trim v) (hex_encode d))) _ spelt)) in
      let size : length d ≡ 32 = ground (arith, fail_if_passed (not (length d == 32)) _ sized) in
      (spelling ∙ ap hex_encode same, sym (ap length same) ∙ size)

  parse_hex32_complete :
      (v b : Bytes) → trim v ≡ hex_encode b → length b ≡ 32 → parse_hex32 text v ≡ ok b
  unfolding parse_hex32
  parse_hex32_complete v b spelt sized =
      let filled : (length (hex_encode b) == 0) ≡ false = ground (arith, law.length-hex_encode b) in
      let exact : (length b == 32) ≡ true = ground (arith) in
      rw (spelt, filled, law.hex_decode-encode b, exact, bytes_eq_refl (hex_encode b)) refl

  parse_txid_sound :
      (v t : Bytes)
      → parse_market_creation_txid text v ≡ ok t
      → (trim v ≡ txid_display t) × (length t ≡ 32)
  unfolding parse_market_creation_txid
  parse_txid_sound v t e =
      let (_, _, e₁) =
        >>=-eq-ok (fail_if (length (trim v) == 0) "missing required creation_txid") _ e in
      let (d, parsed, e₂) = >>=-eq-ok (ok_or (txid_parse (trim v)) "invalid creation_txid") _ e₁ in
      let (_, spelt, e₃) =
        >>=-eq-ok
          (fail_if (not (bytes_eq (trim v) (txid_display d))) "must use canonical lowercase hex") _
          e₂ in
      let same : d ≡ t = ok_injective e₃ in
      let spelling =
        bytes_eq→eq (trim v) (txid_display d)
          (ground (arith, fail_if_passed (not (bytes_eq (trim v) (txid_display d))) _ spelt)) in
      let size = law.txid_parse_length (trim v) d (ok_or-eq-some (txid_parse (trim v)) _ parsed) in
      (spelling ∙ ap txid_display same, sym (ap length same) ∙ size)

  parse_txid_complete :
      (v t : Bytes)
      → trim v ≡ txid_display t
      → length t ≡ 32
      → parse_market_creation_txid text v ≡ ok t
  unfolding parse_market_creation_txid
  parse_txid_complete v t spelt sized =
      let filled : (length (txid_display t) == 0) ≡ false =
        ground (arith, law.length-txid_display t) in
      rw (spelt, filled, law.txid_parse-display t sized, bytes_eq_refl (txid_display t)) refl

  parse_opening_sound :
      (o : DormantOutputOpening) (p : ParsedDormantOutputOpening)
      → parse_opening text o ≡ ok p
      → (trimmed_opening text o
          ≡ opening_from_bytes text p.asset_blinding_factor p.value_blinding_factor)
        × (length p.asset_blinding_factor ≡ 32)
        × (length p.value_blinding_factor ≡ 32)
  unfolding parse_opening opening_from_bytes
  parse_opening_sound o p e =
      let (a, parsed_a, e₁) = >>=-eq-ok (parse_hex32 text o.asset_blinding_factor) _ e in
      let (v, parsed_v, e₂) = >>=-eq-ok (parse_hex32 text o.value_blinding_factor) _ e₁ in
      let (spelt_a, sized_a) = parse_hex32_sound o.asset_blinding_factor a parsed_a in
      let (spelt_v, sized_v) = parse_hex32_sound o.value_blinding_factor v parsed_v in
      subst
        (λ (q : ParsedDormantOutputOpening).
          (trimmed_opening text o
            ≡ opening_from_bytes text q.asset_blinding_factor q.value_blinding_factor)
          × (length q.asset_blinding_factor ≡ 32)
          × (length q.value_blinding_factor ≡ 32))
        (ok_injective e₂) (rw (spelt_a, spelt_v) refl, sized_a, sized_v)

  parse_opening_complete :
      (o : DormantOutputOpening) (p : ParsedDormantOutputOpening)
      → trimmed_opening text o
        ≡ opening_from_bytes text p.asset_blinding_factor p.value_blinding_factor
      → length p.asset_blinding_factor ≡ 32
      → length p.value_blinding_factor ≡ 32
      → parse_opening text o ≡ ok p
  unfolding parse_opening opening_from_bytes
  parse_opening_complete o p spelt sized_a sized_v =
      rw
        (
          parse_hex32_complete o.asset_blinding_factor p.asset_blinding_factor
              (ap (λ (q : DormantOutputOpening). q.asset_blinding_factor) spelt) sized_a,
          parse_hex32_complete o.value_blinding_factor p.value_blinding_factor
              (ap (λ (q : DormantOutputOpening). q.value_blinding_factor) spelt) sized_v,
        )
        refl

  parse_anchor_sound :
      (a : PredictionMarketAnchor) (p : ParsedPredictionMarketAnchor)
      → parse_prediction_market_anchor text a ≡ ok p
      → (trimmed_anchor text a ≡ spelling text p) × IsSized p
  unfolding parse_prediction_market_anchor from_openings
  parse_anchor_sound a p e =
      let (t, parsed_t, e₁) = >>=-eq-ok (parse_market_creation_txid text a.creation_txid) _ e in
      let (y, parsed_y, e₂) = >>=-eq-ok (parse_opening text a.yes_dormant_opening) _ e₁ in
      let (n, parsed_n, e₃) = >>=-eq-ok (parse_opening text a.no_dormant_opening) _ e₂ in
      let (spelt_t, sized_t) = parse_txid_sound a.creation_txid t parsed_t in
      let (spelt_y, sized_ya, sized_yv) = parse_opening_sound a.yes_dormant_opening y parsed_y in
      let (spelt_n, sized_na, sized_nv) = parse_opening_sound a.no_dormant_opening n parsed_n in
      subst
        (λ (q : ParsedPredictionMarketAnchor).
          (trimmed_anchor text a ≡ spelling text q) × IsSized q)
        (ok_injective e₃)
        (rw (spelt_t, spelt_y, spelt_n) refl, (sized_t, sized_ya, sized_yv, sized_na, sized_nv))

  parse_anchor_complete :
      (a : PredictionMarketAnchor) (p : ParsedPredictionMarketAnchor)
      → trimmed_anchor text a ≡ spelling text p
      → IsSized p
      → parse_prediction_market_anchor text a ≡ ok p
  unfolding parse_prediction_market_anchor from_openings
  parse_anchor_complete a p spelt (sized_t, sized_ya, sized_yv, sized_na, sized_nv) =
      rw
        (
          parse_txid_complete a.creation_txid p.creation_txid
              (ap (λ (q : PredictionMarketAnchor). q.creation_txid) spelt) sized_t,
          parse_opening_complete a.yes_dormant_opening p.yes_dormant_opening
              (ap (λ (q : PredictionMarketAnchor). q.yes_dormant_opening) spelt) sized_ya sized_yv,
          parse_opening_complete a.no_dormant_opening p.no_dormant_opening
              (ap (λ (q : PredictionMarketAnchor). q.no_dormant_opening) spelt) sized_na sized_nv,
        )
        refl

  -- An anchor parses to `p` exactly when its fields, with blanks trimmed, are those that
  -- `from_openings` writes for the fields of `p`, and these have 32 bytes each: every accepted
  -- value has one spelling, and what is written is read back.
  pub parse_prediction_market_anchor_iff :
      (a : PredictionMarketAnchor) (p : ParsedPredictionMarketAnchor)
      → (parse_prediction_market_anchor text a ≡ ok p)
        ↔ ((trimmed_anchor text a ≡ spelling text p) × IsSized p)
  parse_prediction_market_anchor_iff a p =
      (parse_anchor_sound a p, λ (spelt, sized). parse_anchor_complete a p spelt sized)
