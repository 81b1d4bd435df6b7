-- ===== src/Trade/Assembly/Prefixes.antt =====
-- The numbered outputs of the combined transaction: each one is found at its number.
use deadcat.Prelude.{
  ℕ, zero, suc, ◌+◌, ◌≤◌, ◌<◌, ◌≡◌, refl, sym, ◌∙◌, subst, ◌⊎◌, inl, inr, true, false, ◌&&◌, ltb,
  ◌==◌, some, List, [], ◌∷◌, Bytes, get_elem?, is_some, Result, ok, ok_or, ok_or-eq-some, fail_if,
  fail_if_passed, >>=-eq-ok, ok_injective, Bool-cases, arith,
}
use deadcat.Pset.{TxOut, explicit_txout}
use deadcat.Error.{Error, trade_routing}
use deadcat.Lmsr.Params.{LmsrPoolParams}
use deadcat.MakerOrder.Params.{
  MakerOrderParams, sell_base, sell_quote, CompiledMakerOrder, offered_asset, wanted_asset,
}
use deadcat.Trade.Types.{OrderFillLeg}
use deadcat.Trade.Assembly.{
  Prefix, output_at, reserve_prefix_output, max_index_of, dense_from, dense_outputs,
  remainder_output, maker_outputs, maker_txout,
}

-- What `m` numbers is numbered so in `m'`.
abbrev pub Keeps : Prefix → Prefix → Type 0
Keeps m m' = (i : ℕ) (t : TxOut) → output_at i m ≡ some t → output_at i m' ≡ some t

pub reserve_prefix_output-eq-ok :
    (index : ℕ) (t : TxOut) (m : Prefix) {m' : Prefix}
    → reserve_prefix_output index t m ≡ ok m'
    → (output_at index m' ≡ some t) × Keeps m m'
unfolding reserve_prefix_output
reserve_prefix_output-eq-ok index t m e =
    let (_, free, e₁) = >>=-eq-ok (fail_if (is_some (output_at index m)) _) _ e in
    let vacant = fail_if_passed (is_some (output_at index m)) _ free in
    subst (λ m'. (output_at index m' ≡ some t) × Keeps m m') (ok_injective e₁)
      (
        ground arith,
        λ i s h. elim (Bool-cases (index == i)) [
          | inl same ↦
              let at : index ≡ i = ground arith in
              let taken : is_some (output_at index m) ≡ true = rw (at, h) refl in
              (let failed = taken in cc)
          | inr other ↦ rw other h
        ],
      )

pub remainder_output-Keeps :
    (legs : List OrderFillLeg) (cs : List CompiledMakerOrder) (ks : List ℕ) (m : Prefix)
    {m' : Prefix}
    → remainder_output legs cs ks m ≡ ok m'
    → Keeps m m'
unfolding remainder_output
remainder_output-Keeps [] cs ks m e = subst (Keeps m) (ok_injective e) (λ i t h. h)
remainder_output-Keeps (leg ∷ []) [] ks m e = subst (Keeps m) (ok_injective e) (λ i t h. h)
remainder_output-Keeps (leg ∷ []) (c ∷ []) [] m e = subst (Keeps m) (ok_injective e) (λ i t h. h)
remainder_output-Keeps (leg ∷ []) (c ∷ []) (k ∷ l ∷ ks) m e =
    subst (Keeps m) (ok_injective e) (λ i t h. h)
remainder_output-Keeps (leg ∷ []) (c ∷ d ∷ cs) ks m e =
    subst (Keeps m) (ok_injective e) (λ i t h. h)
remainder_output-Keeps (leg ∷ []) (c ∷ []) (k ∷ []) m {m' = m'} e =
    elim (Bool-cases (leg.is_partial && ltb 0 leg.remainder_value)) [
      | inl partial ↦
          (reserve_prefix_output-eq-ok (suc k)
            (explicit_txout (offered_asset leg.params) leg.remainder_value
              (c.script_pubkey leg.maker_base_pubkey))
            m (rw partial at e)).1
      | inr whole ↦ subst (Keeps m) (ok_injective (rw whole at e)) (λ i t h. h)
    ]
remainder_output-Keeps (leg ∷ next ∷ legs) [] ks m e = subst (Keeps m) (ok_injective e) (λ i t h. h)
remainder_output-Keeps (leg ∷ next ∷ legs) (c ∷ cs) [] m e =
    subst (Keeps m) (ok_injective e) (λ i t h. h)
remainder_output-Keeps (leg ∷ next ∷ legs) (c ∷ cs) (k ∷ ks) m e =
    remainder_output-Keeps (next ∷ legs) cs ks m e

-- The assets that a maker sells and wants.
abbrev pub sold : MakerOrderParams → Bytes
sold p = elim p.direction [ sell_base ↦ p.base_asset_id | sell_quote ↦ p.quote_asset_id ]

abbrev pub bought : MakerOrderParams → Bytes
bought p = elim p.direction [ sell_base ↦ p.quote_asset_id | sell_quote ↦ p.base_asset_id ]

-- Where the last order leaves a remainder, it is behind the order's own index.
abbrev pub RemainderAt :
    (ℕ → TxOut → Type 0) → List OrderFillLeg → List CompiledMakerOrder → List ℕ → Type 0
RemainderAt P (leg ∷ []) (c ∷ []) (k ∷ []) =
    ((leg.is_partial && ltb 0 leg.remainder_value) ≡ false)
    ⊎ P (suc k) (
        explicit_txout (sold leg.params) leg.remainder_value
          (c.script_pubkey leg.maker_base_pubkey))
RemainderAt P (leg ∷ next ∷ legs) (c ∷ cs) (k ∷ ks) = RemainderAt P (next ∷ legs) cs ks
RemainderAt P _ _ _ = Unit

pub remainder_output-RemainderAt :
    (legs : List OrderFillLeg) (cs : List CompiledMakerOrder) (ks : List ℕ) (m : Prefix)
    {m' : Prefix}
    → remainder_output legs cs ks m ≡ ok m'
    → RemainderAt (λ k t. output_at k m' ≡ some t) legs cs ks
unfolding remainder_output offered_asset
remainder_output-RemainderAt [] cs ks m e = tt
remainder_output-RemainderAt (leg ∷ []) [] ks m e = tt
remainder_output-RemainderAt (leg ∷ []) (c ∷ []) [] m e = tt
remainder_output-RemainderAt (leg ∷ []) (c ∷ []) (k ∷ l ∷ ks) m e = tt
remainder_output-RemainderAt (leg ∷ []) (c ∷ d ∷ cs) ks m e = tt
remainder_output-RemainderAt (leg ∷ []) (c ∷ []) (k ∷ []) m e =
    elim (Bool-cases (leg.is_partial && ltb 0 leg.remainder_value)) [
      | inl partial ↦
          inr
            (reserve_prefix_output-eq-ok (suc k)
              (explicit_txout (offered_asset leg.params) leg.remainder_value
                (c.script_pubkey leg.maker_base_pubkey))
              m (rw partial at e)).0
      | inr whole ↦ inl whole
    ]
remainder_output-RemainderAt (leg ∷ next ∷ legs) [] ks m e = tt
remainder_output-RemainderAt (leg ∷ next ∷ legs) (c ∷ cs) [] m e = tt
remainder_output-RemainderAt (leg ∷ next ∷ legs) (c ∷ cs) (k ∷ ks) m e =
    remainder_output-RemainderAt (next ∷ legs) cs ks m e

pub RemainderAt-map :
    (P Q : ℕ → TxOut → Type 0) (imp : (k : ℕ) (t : TxOut) → P k t → Q k t)
    (legs : List OrderFillLeg) (cs : List CompiledMakerOrder) (ks : List ℕ)
    → RemainderAt P legs cs ks
    → RemainderAt Q legs cs ks
RemainderAt-map P Q imp [] cs ks h = tt
RemainderAt-map P Q imp (leg ∷ []) [] ks h = tt
RemainderAt-map P Q imp (leg ∷ []) (c ∷ []) [] h = tt
RemainderAt-map P Q imp (leg ∷ []) (c ∷ []) (k ∷ l ∷ ks) h = tt
RemainderAt-map P Q imp (leg ∷ []) (c ∷ d ∷ cs) ks h = tt
RemainderAt-map P Q imp (leg ∷ []) (c ∷ []) (k ∷ []) (inl whole) = inl whole
RemainderAt-map P Q imp (leg ∷ []) (c ∷ []) (k ∷ []) (inr at) = inr (imp (suc k) _ at)
RemainderAt-map P Q imp (leg ∷ next ∷ legs) [] ks h = tt
RemainderAt-map P Q imp (leg ∷ next ∷ legs) (c ∷ cs) [] h = tt
RemainderAt-map P Q imp (leg ∷ next ∷ legs) (c ∷ cs) (k ∷ ks) h =
    RemainderAt-map P Q imp (next ∷ legs) cs ks h

-- A number that is taken is not above the greatest one.
output_at-le : (m : Prefix) (k : ℕ) {t : TxOut} → output_at k m ≡ some t → k ≤ max_index_of m
unfolding max_index_of
output_at-le [] k h = cc
output_at-le ((i, s) ∷ m) k h = elim (Bool-cases (i == k)) [
  | inl same ↦ ground arith
  | inr other ↦ let below = output_at-le m k (rw other at h) in ground arith
]

dense_from-output_at :
    (n idx : ℕ) (m : Prefix) (j : ℕ) {ts : List TxOut}
    → dense_from n idx m ≡ ok ts
    → j < n
    → get_elem? ts j ≡ output_at (idx + j) m
unfolding dense_from
dense_from-output_at zero idx m j e h = absurd (omega arith)
dense_from-output_at (suc n) idx m zero e h =
    let (t, found, e₁) =
      >>=-eq-ok (ok_or (output_at idx m) (trade_routing "cannot construct dense output prefix")) _
        e in
    let (rest, _, e₂) = >>=-eq-ok (dense_from n (suc idx) m) _ e₁ in
    let here : idx + 0 ≡ idx = omega arith in
    rw here (
      subst (λ ts. get_elem? ts 0 ≡ output_at idx m) (ok_injective e₂)
        (sym (ok_or-eq-some (output_at idx m) _ found)))
dense_from-output_at (suc n) idx m (suc j) e h =
    let (t, found, e₁) =
      >>=-eq-ok (ok_or (output_at idx m) (trade_routing "cannot construct dense output prefix")) _
        e in
    let (rest, ran, e₂) = >>=-eq-ok (dense_from n (suc idx) m) _ e₁ in
    let here : idx + suc j ≡ suc idx + j = omega arith in
    rw here (
      subst (λ ts. get_elem? ts (suc j) ≡ output_at (suc idx + j) m) (ok_injective e₂)
        (dense_from-output_at n (suc idx) m j ran (omega arith)))

pub dense_outputs-output_at :
    (m : Prefix) (k : ℕ) {t : TxOut} {ts : List TxOut}
    → dense_outputs m ≡ ok ts
    → output_at k m ≡ some t
    → get_elem? ts k ≡ some t
unfolding dense_outputs
dense_outputs-output_at [] k e h = cc
dense_outputs-output_at (entry ∷ m) k {t = t} {ts = ts} e h =
    let below = output_at-le (entry ∷ m) k h in
    let start : 0 + k ≡ k = omega arith in
    let found =
      dense_from-output_at (suc (max_index_of (entry ∷ m))) 0 (entry ∷ m) k e (omega arith) in
    subst (λ i. get_elem? ts k ≡ output_at i (entry ∷ m)) start found ∙ h

module _ (sha256 : Bytes → Bytes) (compile_pool : LmsrPoolParams → Result Error (ℕ → Bytes))
    (receive_spk : Bytes → Bytes → MakerOrderParams → Bytes) where
  -- Every maker is paid at the index of the order.
  abbrev pub PaysAt : (ℕ → TxOut → Type 0) → List OrderFillLeg → List ℕ → Type 0
  PaysAt P [] ks = Unit
  PaysAt P (leg ∷ legs) [] = ⊥
  PaysAt P (leg ∷ legs) (k ∷ ks) =
      P k (
        explicit_txout (bought leg.params) leg.maker_receive_amount
          (receive_spk leg.maker_base_pubkey leg.order_nonce leg.params))
      × PaysAt P legs ks

  pub PaysAt-map :
      (P Q : ℕ → TxOut → Type 0) (imp : (k : ℕ) (t : TxOut) → P k t → Q k t)
      (legs : List OrderFillLeg) (ks : List ℕ)
      → PaysAt P legs ks
      → PaysAt Q legs ks
  PaysAt-map P Q imp [] ks h = tt
  PaysAt-map P Q imp (leg ∷ legs) [] h = h
  PaysAt-map P Q imp (leg ∷ legs) (k ∷ ks) (first, rest) =
      (imp k _ first, PaysAt-map P Q imp legs ks rest)

  pub maker_outputs-PaysAt :
      (legs : List OrderFillLeg) (ks : List ℕ) (m : Prefix) {m' : Prefix}
      → maker_outputs sha256 compile_pool receive_spk legs ks m ≡ ok m'
      → PaysAt (λ k t. output_at k m' ≡ some t) legs ks × Keeps m m'
  unfolding maker_outputs maker_txout wanted_asset
  maker_outputs-PaysAt [] ks m e = (tt, subst (Keeps m) (ok_injective e) (λ i t h. h))
  maker_outputs-PaysAt (leg ∷ legs) [] m e = cc
  maker_outputs-PaysAt (leg ∷ legs) (k ∷ ks) m e =
      let t = maker_txout sha256 compile_pool receive_spk leg in
      let (m₁, placed, e₁) = >>=-eq-ok (reserve_prefix_output k t m) _ e in
      let (at, keeps) = reserve_prefix_output-eq-ok k t m placed in
      let (rest, keeps') = maker_outputs-PaysAt legs ks m₁ e₁ in
      ((keeps' k t at, rest), λ i s h. keeps' i s (keeps i s h))
