-- ===== src/Trade/Convert/Order.antt =====
-- The announced orders that are read, and what is read from them.
use text.Mathlib.Text
use text.Mathlib.TextEquality.{eq_iff}
use deadcat.Prelude.{
  ◌≡◌, refl, sym, ap, ◌∙◌, subst, ◌↔◌, inl, inr, true, not, ◌==◌, Option, some, Bytes, String,
  length, ok, ok_or, ok_or-eq-some, fail_if, fail_if_passed, >>=-eq-ok, ok_injective, Bool-cases,
  arith,
}
use deadcat.Error.{trade_routing}
use deadcat.MakerOrder.Params.{OrderDirection, sell_base, sell_quote, MakerOrderParams}
use deadcat.Trade.Types.{DiscoveredOrder}
use deadcat.Trade.Convert.{direction_of, hex_to_bytes32, parse_discovered_order}

-- How an announcement spells the direction.
abbrev pub direction_text : OrderDirection → String
direction_text sell_base = "sell-base"
direction_text sell_quote = "sell-quote"

direction_of-eq-ok :
    (s : String) (d : OrderDirection) → direction_of s ≡ ok d → s ≡ direction_text d
unfolding direction_of
direction_of-eq-ok s d e = elim (Bool-cases (Text.◌==◌ s "sell-base")) [
  | inl base ↦
      let is : sell_base ≡ d = ok_injective (rw base at e) in
      (eq_iff s "sell-base").0 base ∙ ap direction_text is
  | inr other ↦ elim (Bool-cases (Text.◌==◌ s "sell-quote")) [
    | inl quote ↦
        let is : sell_quote ≡ d = ok_injective (rw (other, quote) at e) in
        (eq_iff s "sell-quote").0 quote ∙ ap direction_text is
    | inr neither ↦ let failed = rw (other, neither) at e in cc
  ]
]

direction_of-text : (d : OrderDirection) → direction_of (direction_text d) ≡ ok d
unfolding direction_of
direction_of-text sell_base = refl
direction_of-text sell_quote = refl

module _ (hex_decode : String → Option Bytes) where
  -- The digits of 32 bytes.
  abbrev pub Spells : String → Bytes → Type 0
  Spells s b = (hex_decode s ≡ some b) × (length b ≡ 32)

  hex_to_bytes32-Spells : (s : String) {b : Bytes} → hex_to_bytes32 hex_decode s ≡ ok b → Spells s b
  unfolding hex_to_bytes32
  hex_to_bytes32-Spells s e =
      let (d, decoded, e₁) = >>=-eq-ok (ok_or (hex_decode s) (trade_routing "invalid hex")) _ e in
      let (_, sized, e₂) =
        >>=-eq-ok (fail_if (not (length d == 32)) (trade_routing "expected 32 bytes")) _ e₁ in
      let passed = fail_if_passed (not (length d == 32)) _ sized in
      subst (Spells s) (ok_injective e₂) (ok_or-eq-some (hex_decode s) _ decoded, ground arith)

  Spells-hex_to_bytes32 : (s : String) (b : Bytes) → Spells s b → hex_to_bytes32 hex_decode s ≡ ok b
  unfolding hex_to_bytes32
  Spells-hex_to_bytes32 s b (decoded, sized) =
      let exact : (length b == 32) ≡ true = ground arith in rw (decoded, exact) refl

  -- The parameters, the maker's key and the nonce that an announcement states.
  abbrev pub States : DiscoveredOrder → MakerOrderParams → Bytes → Bytes → Type 0
  States order params key nonce =
      (order.direction ≡ direction_text params.direction)
      × Spells order.maker_base_pubkey key
      × Spells order.order_nonce nonce
      × Spells order.base_asset_id params.base_asset_id
      × Spells order.quote_asset_id params.quote_asset_id
      × Spells order.maker_receive_spk_hash params.maker_receive_spk_hash
      × Spells order.cosigner_pubkey params.cosigner_pubkey
      × (params ≡ record params {
        price = order.price;
        min_fill_lots = order.min_fill_lots;
        min_remainder_lots = order.min_remainder_lots;
        maker_pubkey = key;
      })

  parse_discovered_order-States :
      (order : DiscoveredOrder) (params : MakerOrderParams) (key nonce : Bytes)
      → parse_discovered_order hex_decode order ≡ ok (params, key, nonce)
      → States order params key nonce
  unfolding parse_discovered_order
  parse_discovered_order-States order params key nonce e =
      let h = hex_to_bytes32 hex_decode in
      let (d, has_d, e₁) = >>=-eq-ok (direction_of order.direction) _ e in
      let (k, has_k, e₂) = >>=-eq-ok (h order.maker_base_pubkey) _ e₁ in
      let (n, has_n, e₃) = >>=-eq-ok (h order.order_nonce) _ e₂ in
      let (b, has_b, e₄) = >>=-eq-ok (h order.base_asset_id) _ e₃ in
      let (q, has_q, e₅) = >>=-eq-ok (h order.quote_asset_id) _ e₄ in
      let (m, has_m, e₆) = >>=-eq-ok (h order.maker_receive_spk_hash) _ e₅ in
      let (c, has_c, e₇) = >>=-eq-ok (h order.cosigner_pubkey) _ e₆ in
      subst (λ r. States order r.0 r.1 r.2) (ok_injective e₇)
        (
          direction_of-eq-ok order.direction d has_d,
          hex_to_bytes32-Spells order.maker_base_pubkey has_k,
          hex_to_bytes32-Spells order.order_nonce has_n,
          hex_to_bytes32-Spells order.base_asset_id has_b,
          hex_to_bytes32-Spells order.quote_asset_id has_q,
          hex_to_bytes32-Spells order.maker_receive_spk_hash has_m,
          hex_to_bytes32-Spells order.cosigner_pubkey has_c,
          refl,
        )

  -- An announced order is read as given parameters, key and nonce exactly when its direction is
  -- spelt as that of the parameters, the texts of the key, the nonce, the assets, the hash and the
  -- cosigner are digits of their 32 bytes each, and the price, the bounds on lots and the maker's key
  -- in the parameters are those that it states.
  pub parse_discovered_order_iff :
      (order : DiscoveredOrder) (params : MakerOrderParams) (key nonce : Bytes)
      → (parse_discovered_order hex_decode order ≡ ok (params, key, nonce))
        ↔ States order params key nonce
  unfolding parse_discovered_order
  parse_discovered_order_iff order params key nonce = (
    parse_discovered_order-States order params key nonce,
    λ (spelt, has_k, has_n, has_b, has_q, has_m, has_c, stated).
        let told : direction_of order.direction ≡ ok params.direction =
          ap direction_of spelt ∙ direction_of-text params.direction in
        rw
          (
            told,
            Spells-hex_to_bytes32 order.maker_base_pubkey key has_k,
            Spells-hex_to_bytes32 order.order_nonce nonce has_n,
            Spells-hex_to_bytes32 order.base_asset_id params.base_asset_id has_b,
            Spells-hex_to_bytes32 order.quote_asset_id params.quote_asset_id has_q,
            Spells-hex_to_bytes32 order.maker_receive_spk_hash params.maker_receive_spk_hash has_m,
            Spells-hex_to_bytes32 order.cosigner_pubkey params.cosigner_pubkey has_c,
          )
          (ap (λ p. ok (p, key, nonce)) (sym stated)),
  )
