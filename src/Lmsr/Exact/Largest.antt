-- ===== src/Lmsr/Exact/Largest.antt =====
-- The exact-input quote among all steps that a trade may take: the steps, their quotes and what fits
-- are described by the kind of the trade.
use deadcat.Prelude.{
  ℕ, suc, ◌+◌, ◌*◌, ◌/◌, ◌<◌, ◌≤◌, ◌≡◌, ◌≢◌, true, false, ok, arith, Option, none, some, Bytes, inl,
  inr, ◌⊎◌, >>=-eq-ok, fail_if, fail_if_passed, ltb, checked_add, checked_sub,
}
use native.Mathlib.Nat.{le-div_iff_mul-le}
use deadcat.Error.{lmsr_pool}
use deadcat.Lmsr.Params.{LmsrPoolParams}
use deadcat.Lmsr.Math.{
  LmsrTradeKind, buy_yes, sell_yes, buy_no, sell_no, LmsrQuote, is_buy, requires_increasing_index,
  quote_from_table,
}
use deadcat.Lmsr.Table.{LmsrTableManifest, value_at, verify_matches_pool_params, params_valid}
use deadcat.Lmsr.Exact.{fits, step_quote, moved_index, max_steps, quote_exact_input_from_manifest}
use deadcat.Lmsr.Exact.Best.{NoneFits, exact_input-IsLastFit}
use deadcat.Lmsr.Exact.Spot.{params_valid-IsValid}

-- The index `new` is `t` steps away from `old`, in the direction of the trade.
abbrev pub IsMoved : LmsrTradeKind → (old t new : ℕ) → Type 0
IsMoved buy_yes old t new = new ≡ old + t
IsMoved sell_yes old t new = new + t ≡ old
IsMoved buy_no old t new = new + t ≡ old
IsMoved sell_no old t new = new ≡ old + t

-- A trade may take `t` steps: it stays in the range of the index, and a sale sells no more lots than
-- its budget.
abbrev pub IsAllowed : LmsrPoolParams → LmsrTradeKind → (old input t : ℕ) → Type 0
IsAllowed params buy_yes old input t = old + t ≤ params.s_max_index
IsAllowed params sell_yes old input t = (t ≤ old) × (t * params.q_step_lots ≤ input)
IsAllowed params buy_no old input t = t ≤ old
IsAllowed params sell_no old input t =
    (old + t ≤ params.s_max_index) × (t * params.q_step_lots ≤ input)

-- What the taker pays under a quote: collateral for a purchase, lots for a sale.
abbrev pub pays : LmsrTradeKind → LmsrQuote → ℕ
pays buy_yes q = q.collateral_amount
pays sell_yes q = q.traded_lots
pays buy_no q = q.collateral_amount
pays sell_no q = q.traded_lots

-- The quote of `t` steps.
abbrev pub IsQuoteAt :
    LmsrTableManifest → LmsrPoolParams → LmsrTradeKind → (old old_f t : ℕ) → LmsrQuote → Type 0
IsQuoteAt manifest params kind old old_f t q =
    (new : ℕ) × (new_f : ℕ) × IsMoved kind old t new
    × (value_at manifest new ≡ ok new_f)
    × (quote_from_table kind old new old_f new_f params.q_step_lots params.half_payout_sats
          params.fee_bps
        ≡ ok q)

fits-pays :
    (kind : LmsrTradeKind) (input : ℕ) (q : LmsrQuote)
    → fits kind input q ≡ true
    → pays kind q ≤ input
unfolding fits is_buy
fits-pays buy_yes input q h = ground arith
fits-pays sell_yes input q h = ground arith
fits-pays buy_no input q h = ground arith
fits-pays sell_no input q h = ground arith

misfits-pays :
    (kind : LmsrTradeKind) (input : ℕ) (q : LmsrQuote)
    → fits kind input q ≡ false
    → input < pays kind q
unfolding fits is_buy
misfits-pays buy_yes input q h = ground arith
misfits-pays sell_yes input q h = ground arith
misfits-pays buy_no input q h = ground arith
misfits-pays sell_no input q h = ground arith

moved_index-IsMoved :
    (kind : LmsrTradeKind) (old t : ℕ) {new : ℕ}
    → moved_index (requires_increasing_index kind) old t ≡ ok new
    → IsMoved kind old t new
unfolding moved_index requires_increasing_index checked_add checked_sub
moved_index-IsMoved buy_yes old t h = ground arith
moved_index-IsMoved sell_yes old t h = ground arith
moved_index-IsMoved buy_no old t h = ground arith
moved_index-IsMoved sell_no old t h = ground arith

within_budget : (t q input : ℕ) → 0 < q → t * q ≤ input → t ≤ input / q
within_budget t q input h k = (le-div_iff_mul-le {k = q} {x = t} {y = input} h).1 k

in_budget : (t q input : ℕ) → 0 < q → t ≤ input / q → t * q ≤ input
in_budget t q input h k = (le-div_iff_mul-le {k = q} {x = t} {y = input} h).0 k

-- The steps that the loop runs over are those that the trade may take.
IsAllowed-max_steps :
    (params : LmsrPoolParams) (kind : LmsrTradeKind) (old input t : ℕ)
    → 0 < params.q_step_lots
    → IsAllowed params kind old input t
    → t < suc (max_steps params kind old input)
unfolding max_steps requires_increasing_index is_buy
IsAllowed-max_steps params buy_yes old input t pos h = ground arith
IsAllowed-max_steps params sell_yes old input t pos (h, k) =
    ground (arith, within_budget t params.q_step_lots input pos k)
IsAllowed-max_steps params buy_no old input t pos h = ground arith
IsAllowed-max_steps params sell_no old input t pos (h, k) =
    ground (arith, within_budget t params.q_step_lots input pos k)

max_steps-IsAllowed :
    (params : LmsrPoolParams) (kind : LmsrTradeKind) (old input t : ℕ)
    → 0 < params.q_step_lots
    → old ≤ params.s_max_index
    → t < suc (max_steps params kind old input)
    → IsAllowed params kind old input t
unfolding max_steps requires_increasing_index is_buy
max_steps-IsAllowed params buy_yes old input t pos most h = ground arith
max_steps-IsAllowed params sell_yes old input t pos most h =
    let k : t ≤ input / params.q_step_lots = ground arith in
    (ground arith, in_budget t params.q_step_lots input pos k)
max_steps-IsAllowed params buy_no old input t pos most h = ground arith
max_steps-IsAllowed params sell_no old input t pos most h =
    let k : t ≤ input / params.q_step_lots = ground arith in
    (ground arith, in_budget t params.q_step_lots input pos k)

module _ (manifest : LmsrTableManifest) (params : LmsrPoolParams) (kind : LmsrTradeKind)
    (old_s_index old_f exact_input : ℕ) where
  step_quote-IsQuoteAt :
      (t : ℕ) (q : LmsrQuote)
      → step_quote manifest params kind old_s_index old_f exact_input t ≡ ok q
      → IsQuoteAt manifest params kind old_s_index old_f t q
  unfolding step_quote
  step_quote-IsQuoteAt t q h =
      let (new, moved, h₁) =
        >>=-eq-ok (moved_index (requires_increasing_index kind) old_s_index t) _ h in
      let (new_f, at, h₂) = >>=-eq-ok (value_at manifest new) _ h₁ in
      (new, new_f, moved_index-IsMoved kind old_s_index t moved, at, h₂)

  -- Every step after `t` that the trade may take has a quote, which costs more than the input.
  abbrev pub NoneLater : ℕ → Type 0
  NoneLater t =
      (u : ℕ)
      → t < u
      → IsAllowed params kind old_s_index exact_input u
      → (q : LmsrQuote) × IsQuoteAt manifest params kind old_s_index old_f u q
        × (exact_input < pays kind q)

  -- The quote of the most steps that the trade may take and the input pays for.
  abbrev pub IsLargest : LmsrQuote → Type 0
  IsLargest q =
      (t : ℕ) × (0 < t)
      × IsAllowed params kind old_s_index exact_input t
      × IsQuoteAt manifest params kind old_s_index old_f t q
      × (pays kind q ≤ exact_input)
      × NoneLater t

  NoneFits-NoneLater :
      (t : ℕ)
      → 0 < params.q_step_lots
      → NoneFits manifest params kind old_s_index old_f exact_input
          (suc t)
          (suc (max_steps params kind old_s_index exact_input))
      → NoneLater t
  NoneFits-NoneLater t pos h u later allowed =
      let (q, at, misfit) =
        h u later (IsAllowed-max_steps params kind old_s_index exact_input u pos allowed) in
      (q, step_quote-IsQuoteAt u q at, misfits-pays kind exact_input q misfit)

module _ (sha256 : Bytes → Bytes) (manifest : LmsrTableManifest) (params : LmsrPoolParams)
    (kind : LmsrTradeKind) (old_s_index exact_input : ℕ) where
  in_range :
      {r : Option LmsrQuote}
      → quote_exact_input_from_manifest sha256 manifest params kind old_s_index exact_input ≡ ok r
      → (0 < params.q_step_lots) × (old_s_index ≤ params.s_max_index)
  unfolding quote_exact_input_from_manifest
  in_range h =
      let (_, valid, a) = >>=-eq-ok (params_valid params) _ h in
      let (_, _, b) = >>=-eq-ok (verify_matches_pool_params sha256 manifest params) _ a in
      let below = ltb params.s_max_index old_s_index in
      let (_, passed, _) =
        >>=-eq-ok (fail_if below (lmsr_pool "old_s_index exceeds s_max_index")) _ b in
      let kept = fail_if_passed below (lmsr_pool "old_s_index exceeds s_max_index") passed in
      let v = params_valid-IsValid params valid in (v.step_pos, ground (arith, kept))

  -- An exact-input quote that succeeds on an amount other than 0 is the quote of the most steps, at
  -- least one, that stay in the range of the index, sell no more lots than the amount if the trade is
  -- a sale, and cost no more than the amount; it is `none` exactly when no such step does. Each step
  -- is quoted from the table values at its two indices.
  pub quote_exact_input-IsLargest :
      {r : Option LmsrQuote}
      → quote_exact_input_from_manifest sha256 manifest params kind old_s_index exact_input ≡ ok r
      → exact_input ≢ 0
      → (old_f : ℕ) × (value_at manifest old_s_index ≡ ok old_f)
        × (((r ≡ none) × NoneLater manifest params kind old_s_index old_f exact_input 0)
            ⊎ ((q : LmsrQuote) × (r ≡ some q)
                × IsLargest manifest params kind old_s_index old_f exact_input q))
  quote_exact_input-IsLargest h ne =
      let (pos, most) = in_range h in
      let (old_f, at, found) =
        exact_input-IsLastFit sha256 manifest params kind old_s_index exact_input h ne in
      (
        old_f,
        at,
        elim found [
          | inl (nothing, none_fit) ↦ inl (
            nothing,
            NoneFits-NoneLater manifest params kind old_s_index old_f exact_input 0 pos none_fit,
          )
          | inr (q, is, (t, lo, hi, quoted, fit, none_later)) ↦ inr (
            q,
            is,
            (
              t,
              omega (arith, lo),
              max_steps-IsAllowed params kind old_s_index exact_input t pos most hi,
              step_quote-IsQuoteAt manifest params kind old_s_index old_f exact_input t q quoted,
              fits-pays kind exact_input q fit,
              NoneFits-NoneLater manifest params kind old_s_index old_f exact_input t pos
                  none_later,
            ),
          )
        ],
      )
