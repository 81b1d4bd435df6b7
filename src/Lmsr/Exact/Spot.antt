-- ===== src/Lmsr/Exact/Spot.antt =====
-- The spot price of an index in basis points: what it is computed from, and where it saturates.
use deadcat.Prelude.{
  ℕ, ◌+◌, ◌-◌, ◌*◌, ◌/◌, ◌<◌, ◌≤◌, ◌≡◌, refl, true, false, ok, arith, Bytes, Result, Bool-cases,
  inl, inr, ◌⊎◌, >>=-eq-ok, ◌==◌, ltb, checked_add, checked_sub, checked_mul, ok_or, fail_if, ap,
  subst, sym, ◌∙◌, Result-cases, ◌≢◌, if◌then◌else◌, min, leb,
}
use native.Mathlib.Nat.{le-div_iff_mul-le, div-lt_iff_lt-mul}
use deadcat.Error.{Error, lmsr_pool}
use deadcat.Lmsr.Params.{LmsrPoolParams, IsValid, validate, validate-IsValid}
use deadcat.Lmsr.Math.{checked_base_notional, price_bps_from_ratio}
use deadcat.Lmsr.Table.{LmsrTableManifest, value_at, verify_matches_pool_params, params_valid}
use deadcat.Lmsr.Exact.{fee_free_yes_spot_price_bps, interior_spot_price}

-- A ratio of 1 or more is capped.
price_bps_from_ratio-capped :
    (num denom : ℕ) → 0 < denom → denom ≤ num → price_bps_from_ratio num denom ≡ 10000
unfolding price_bps_from_ratio
price_bps_from_ratio-capped num denom h k =
    let most =
      (le-div_iff_mul-le {k = denom} {x = 10000} {y = num * 10000 + denom / 2} h).1 (omega arith) in
    ground arith

-- The two one-step costs add up to twice `L` plus the change of the cost function over both steps.
base_sum :
    (l old_f next_f prev_f : ℕ) {b s : ℕ}
    → checked_base_notional true l old_f next_f ≡ ok b
    → checked_base_notional false l old_f prev_f ≡ ok s
    → b + s + prev_f ≡ 2 * l + next_f
unfolding checked_base_notional checked_add checked_sub
base_sum l old_f next_f prev_f hb hs = ground arith

step_l_lem :
    (params : LmsrPoolParams) (e : Error) {l : ℕ}
    → ok_or (checked_mul params.q_step_lots params.half_payout_sats) e ≡ ok l
    → l ≡ params.q_step_lots * params.half_payout_sats
unfolding checked_mul
step_l_lem params e h = ground arith

ok_injective : {a b : ℕ} → ◌≡◌ {A = Result Error ℕ} (ok a) (ok b) → a ≡ b
ok_injective h = cc

unit_eq : (u : Unit {0}) → u ≡ tt
unit_eq u = refl

mul_pos : (a b : ℕ) → 0 < a → 0 < b → 0 < a * b
mul_pos a b h k = grind arith

pub params_valid-IsValid : (params : LmsrPoolParams) → params_valid params ≡ ok tt → IsValid params
unfolding params_valid
params_valid-IsValid params h = elim (Result-cases (validate params)) [
  | inl (u, e) ↦ validate-IsValid params (e ∙ ap ok (unit_eq u))
  | inr (e, f) ↦ absurd (ground arith)
]

module _ (manifest : LmsrTableManifest) (params : LmsrPoolParams) (s : ℕ) {p : ℕ} where
  -- What an interior price is computed from.
  interior_parts :
      interior_spot_price manifest params s ≡ ok p
      → (old_f : ℕ) × (next_f : ℕ) × (prev_f : ℕ) × (b : ℕ) × (c : ℕ) × (value_at manifest (s + 1)
          ≡ ok next_f)
        × (value_at manifest (s - 1) ≡ ok prev_f)
        × (b + c + prev_f ≡ 2 * (params.q_step_lots * params.half_payout_sats) + next_f)
        × (p ≡ price_bps_from_ratio (b + c) (2 * (params.q_step_lots * params.half_payout_sats)))
  unfolding interior_spot_price
  interior_parts h =
      let (l, el, h₁) =
        >>=-eq-ok (ok_or (checked_mul params.q_step_lots params.half_payout_sats) _) _ h in
      let (old_f, _, h₂) = >>=-eq-ok (value_at manifest s) _ h₁ in
      let (next_f, en, h₃) = >>=-eq-ok (value_at manifest (s + 1)) _ h₂ in
      let (prev_f, ep, h₄) = >>=-eq-ok (value_at manifest (s - 1)) _ h₃ in
      let (b, eb, h₅) = >>=-eq-ok (checked_base_notional true l old_f next_f) _ h₄ in
      let (c, ec, h₆) = >>=-eq-ok (checked_base_notional false l old_f prev_f) _ h₅ in
      let is_l : l ≡ params.q_step_lots * params.half_payout_sats = step_l_lem params _ el in
      (
        old_f,
        next_f,
        prev_f,
        b,
        c,
        en,
        ep,
        rw (← is_l) (base_sum l old_f next_f prev_f eb ec),
        rw (← is_l) (ok_injective (sym h₆)),
      )

saturates :
    (manifest : LmsrTableManifest) (params : LmsrPoolParams) (s next_f prev_f : ℕ) {p : ℕ}
    → params_valid params ≡ ok tt
    → interior_spot_price manifest params s ≡ ok p
    → value_at manifest (s + 1) ≡ ok next_f
    → value_at manifest (s - 1) ≡ ok prev_f
    → prev_f ≤ next_f
    → p ≡ 10000
saturates manifest params s next_f prev_f valid h en ep up =
    let (_, next', prev', b, c, en', ep', sum, e) = interior_parts manifest params s h in
    let v = params_valid-IsValid params valid in
    let l = params.q_step_lots * params.half_payout_sats in
    let big : 0 < l = mul_pos params.q_step_lots params.half_payout_sats v.step_pos v.payout_pos in
    let same_next : next' ≡ next_f = ok_injective (sym en' ∙ en) in
    let same_prev : prev' ≡ prev_f = ok_injective (sym ep' ∙ ep) in
    e ∙ price_bps_from_ratio-capped (b + c) (2 * l) (omega arith) (omega arith)

-- At an interior index, or the greatest one, where the cost function is no lower one step up than one step down, that is
-- where YES stands at even odds or better, the reported price is the full 10000 basis points. The
-- two one-step costs are divided by twice `L`, though a lot pays out twice the half payout on
-- either side, so that even odds already make the cap.
pub spot_price_saturates :
    (sha256 : Bytes → Bytes) (manifest : LmsrTableManifest) (params : LmsrPoolParams)
    (s next_f prev_f : ℕ) {p : ℕ}
    → fee_free_yes_spot_price_bps sha256 manifest params s ≡ ok p
    → s ≢ 0
    → value_at manifest (s + 1) ≡ ok next_f
    → value_at manifest (s - 1) ≡ ok prev_f
    → prev_f ≤ next_f
    → p ≡ 10000
unfolding fee_free_yes_spot_price_bps
spot_price_saturates sha256 manifest params s next_f prev_f {p} h interior en ep up =
    let (_, valid, h₁) = >>=-eq-ok (params_valid params) _ h in
    let (_, _, h₂) = >>=-eq-ok (verify_matches_pool_params sha256 manifest params) _ h₁ in
    let (_, _, h₃) =
      >>=-eq-ok
        (fail_if (ltb params.s_max_index s) (lmsr_pool "current_s_index exceeds s_max_index")) _
        h₂ in
    let pos_s : (s == 0) ≡ false = ground arith in
    elim (Bool-cases (s == params.s_max_index)) [
      | inl top ↦ ok_injective (sym (rw (pos_s, top) at h₃))
      | inr inside ↦
          saturates manifest params s next_f prev_f valid (rw (pos_s, inside) at h₃) en ep up
    ]

-- `p` is the nearest whole number to `10000 * num / denom`, or 10000 where that is less.
abbrev pub IsNearest : (num denom p : ℕ) → Type 0
IsNearest num denom p =
    ((p ≡ 10000) × (p * denom ≤ num * 10000 + denom / 2))
    ⊎ ((p ≤ 10000)
        × (p * denom ≤ num * 10000 + denom / 2)
        × (num * 10000 + denom / 2 < (p + 1) * denom))

price_bps_from_ratio-IsNearest :
    (num denom : ℕ) → 0 < denom → IsNearest num denom (price_bps_from_ratio num denom)
unfolding price_bps_from_ratio
price_bps_from_ratio-IsNearest num denom h =
    let total = num * 10000 + denom / 2 in
    let r = total / denom in
    let lower : r * denom ≤ total =
      (le-div_iff_mul-le {k = denom} {x = r} {y = total} h).0 (omega arith) in
    let upper : total < (r + 1) * denom =
      (div-lt_iff_lt-mul {k = denom} {x = total} {y = r + 1} h).0 (omega arith) in
    elim (Bool-cases (leb 10000 r)) [
      | inl capped ↦
          let most : 10000 * denom ≤ total =
            (le-div_iff_mul-le {k = denom} {x = 10000} {y = total} h).0 (ground (arith, capped)) in
          let is : (if denom == 0 then 0 else min r 10000) ≡ 10000 = ground arith in
          rw is (inl (refl, most))
      | inr below ↦
          let is : (if denom == 0 then 0 else min r 10000) ≡ r = ground arith in
          rw is (inr (ground (arith, below), lower, upper))
    ]

-- At an index with a neighbour on either side the reported price is the nearest number of basis
-- points to one plus the change of the cost function from the neighbour below to the one above in
-- units of twice `L`, or 10000 where that is more than 10000 basis points.
pub spot_price-IsNearest :
    (sha256 : Bytes → Bytes) (manifest : LmsrTableManifest) (params : LmsrPoolParams)
    (s next_f prev_f : ℕ) {p : ℕ}
    → fee_free_yes_spot_price_bps sha256 manifest params s ≡ ok p
    → s ≢ 0
    → s ≢ params.s_max_index
    → value_at manifest (s + 1) ≡ ok next_f
    → value_at manifest (s - 1) ≡ ok prev_f
    → let l = params.q_step_lots * params.half_payout_sats in
      (num : ℕ) × (num + prev_f ≡ 2 * l + next_f) × IsNearest num (2 * l) p
unfolding fee_free_yes_spot_price_bps
spot_price-IsNearest sha256 manifest params s next_f prev_f {p} h interior inside en ep =
    let (_, valid, h₁) = >>=-eq-ok (params_valid params) _ h in
    let (_, _, h₂) = >>=-eq-ok (verify_matches_pool_params sha256 manifest params) _ h₁ in
    let (_, _, h₃) =
      >>=-eq-ok
        (fail_if (ltb params.s_max_index s) (lmsr_pool "current_s_index exceeds s_max_index")) _
        h₂ in
    let low : (s == 0) ≡ false = ground arith in
    let high : (s == params.s_max_index) ≡ false = ground arith in
    let (_, next', prev', b, c, en', ep', sum, e) =
      interior_parts manifest params s (rw (low, high) at h₃) in
    let v = params_valid-IsValid params valid in
    let l = params.q_step_lots * params.half_payout_sats in
    let big : 0 < l = mul_pos params.q_step_lots params.half_payout_sats v.step_pos v.payout_pos in
    let same_next : next' ≡ next_f = ok_injective (sym en' ∙ en) in
    let same_prev : prev' ≡ prev_f = ok_injective (sym ep' ∙ ep) in
    (
      b + c,
      omega (arith, sum, same_next, same_prev),
      subst (IsNearest (b + c) (2 * l)) (sym e)
          (price_bps_from_ratio-IsNearest (b + c) (2 * l) (omega (arith, big))),
    )
