-- ===== src/Lmsr/Exact/Best.antt =====
-- The result of the search over the steps of an exact-input quote.
use deadcat.Prelude.{
  ℕ, zero, suc, ◌+◌, ◌<◌, ◌≤◌, ◌≡◌, true, false, ok, arith, Option, none, some, Bytes, Bool-cases,
  inl, inr, ◌⊎◌, >>=-eq-ok, ap, ◌∙◌, ◌==◌, ◌≢◌, fail_if, ltb,
}
use mathlib.Core.Logic.{dite}
use native.Mathlib.Decide.{ℕ_discrete}
use deadcat.Error.{lmsr_pool}
use deadcat.Lmsr.Params.{LmsrPoolParams}
use deadcat.Lmsr.Math.{LmsrTradeKind, LmsrQuote}
use deadcat.Lmsr.Table.{LmsrTableManifest, value_at, verify_matches_pool_params, params_valid}
use deadcat.Lmsr.Exact.{fits, step_quote, exact_loop, max_steps, quote_exact_input_from_manifest}

module _ (manifest : LmsrTableManifest) (params : LmsrPoolParams) (kind : LmsrTradeKind)
    (old_s_index old_f exact_input : ℕ) where
  -- Every step from `first` up to `last` has a quote, which does not fit.
  abbrev pub NoneFits : ℕ → ℕ → Type 0
  NoneFits first last =
      (t : ℕ)
      → first ≤ t
      → t < last
      → (q : LmsrQuote) × (step_quote manifest params kind old_s_index old_f exact_input t ≡ ok q)
        × (fits kind exact_input q ≡ false)

  -- `q` is the quote of a step from `first` up to `last`, it fits, and no later one does.
  abbrev pub IsLastFit : ℕ → ℕ → LmsrQuote → Type 0
  IsLastFit first last q =
      (t : ℕ) × (first ≤ t)
      × (t < last)
      × (step_quote manifest params kind old_s_index old_f exact_input t ≡ ok q)
      × (fits kind exact_input q ≡ true)
      × NoneFits (suc t) last

  -- What the loop makes of the best quote so far.
  abbrev Outcome : ℕ → ℕ → Option LmsrQuote → Option LmsrQuote → Type 0
  Outcome first last best r =
      ((r ≡ best) × NoneFits first last) ⊎ ((q : LmsrQuote) × (r ≡ some q) × IsLastFit first last q)

  -- A step that does not fit in front of others.
  NoneFits-cons :
      (k step : ℕ) (q : LmsrQuote)
      → step_quote manifest params kind old_s_index old_f exact_input step ≡ ok q
      → fits kind exact_input q ≡ false
      → NoneFits (suc step) (suc step + k)
      → NoneFits step (step + suc k)
  NoneFits-cons k step q now not_fit rest t lo hi =
      dite (ℕ_discrete t step)
        (λ e.
          (q, ap (step_quote manifest params kind old_s_index old_f exact_input) e ∙ now, not_fit))
        (λ ne. rest t (omega arith) (omega arith))

  after_fit :
      (k step : ℕ) (best r : Option LmsrQuote) (q : LmsrQuote)
      → step_quote manifest params kind old_s_index old_f exact_input step ≡ ok q
      → fits kind exact_input q ≡ true
      → Outcome (suc step) (suc step + k) (some q) r
      → Outcome step (step + suc k) best r
  after_fit k step best r q now fit (inl (e, none_fits)) =
      inr
        (q, e, (step, omega arith, omega arith, now, fit, λ t lo hi. none_fits t lo (omega arith)))
  after_fit k step best r q now fit (inr (q', e, (t, lo, hi, at, fit', rest))) =
      inr (q', e, (t, omega arith, omega arith, at, fit', λ u a b. rest u a (omega arith)))

  after_misfit :
      (k step : ℕ) (best r : Option LmsrQuote) (q : LmsrQuote)
      → step_quote manifest params kind old_s_index old_f exact_input step ≡ ok q
      → fits kind exact_input q ≡ false
      → Outcome (suc step) (suc step + k) best r
      → Outcome step (step + suc k) best r
  after_misfit k step best r q now not_fit (inl (e, none_fits)) =
      inl (e, NoneFits-cons k step q now not_fit none_fits)
  after_misfit k step best r q now not_fit (inr (q', e, (t, lo, hi, at, fit', rest))) =
      inr (q', e, (t, omega arith, omega arith, at, fit', λ u a b. rest u a (omega arith)))

  exact_loop-Outcome :
      (k step : ℕ) (best r : Option LmsrQuote)
      → exact_loop manifest params kind old_s_index old_f exact_input k step best ≡ ok r
      → Outcome step (step + k) best r
  unfolding exact_loop
  exact_loop-Outcome zero step best r h = inl (cc, λ t lo hi. absurd (omega arith))
  exact_loop-Outcome (suc k) step best r h =
      let (q, now, later) =
        >>=-eq-ok (step_quote manifest params kind old_s_index old_f exact_input step) _ h in
      elim (Bool-cases (fits kind exact_input q)) [
        | inl fit ↦
            after_fit k step best r q now fit
              (exact_loop-Outcome k (suc step) (some q) r (rw fit at later))
        | inr not_fit ↦
            after_misfit k step best r q now not_fit
              (exact_loop-Outcome k (suc step) best r (rw not_fit at later))
      ]

module _ (sha256 : Bytes → Bytes) (manifest : LmsrTableManifest) (params : LmsrPoolParams)
    (kind : LmsrTradeKind) (old_s_index exact_input : ℕ) where
  -- A call that succeeds on an amount other than 0 has read the value at the old index and run the
  -- loop over every step that the index and the budget leave.
  loop_ran :
      {r : Option LmsrQuote}
      → quote_exact_input_from_manifest sha256 manifest params kind old_s_index exact_input ≡ ok r
      → exact_input ≢ 0
      → (old_f : ℕ) × (value_at manifest old_s_index ≡ ok old_f)
        × (exact_loop manifest params kind old_s_index old_f exact_input
              (max_steps params kind old_s_index exact_input)
              1
              none
            ≡ ok r)
  unfolding quote_exact_input_from_manifest
  loop_ran h ne =
      let (_, _, a) = >>=-eq-ok (params_valid params) _ h in
      let (_, _, b) = >>=-eq-ok (verify_matches_pool_params sha256 manifest params) _ a in
      let (_, _, c) =
        >>=-eq-ok
          (fail_if (ltb params.s_max_index old_s_index)
            (lmsr_pool "old_s_index exceeds s_max_index"))
          _ b in
      let nonzero : (exact_input == 0) ≡ false = ground arith in
      >>=-eq-ok (value_at manifest old_s_index) _ (rw nonzero at c)

  pub exact_input-IsLastFit :
      {r : Option LmsrQuote}
      → quote_exact_input_from_manifest sha256 manifest params kind old_s_index exact_input ≡ ok r
      → exact_input ≢ 0
      → let last = suc (max_steps params kind old_s_index exact_input) in
        (old_f : ℕ) × (value_at manifest old_s_index ≡ ok old_f)
        × (((r ≡ none) × NoneFits manifest params kind old_s_index old_f exact_input 1 last)
            ⊎ ((q : LmsrQuote) × (r ≡ some q)
                × IsLastFit manifest params kind old_s_index old_f exact_input 1 last q))
  exact_input-IsLastFit {r} h ne =
      let (old_f, at, run) = loop_ran h ne in
      let count = max_steps params kind old_s_index exact_input in
      let one : 1 + count ≡ suc count = omega arith in
      (
        old_f,
        at,
        rw one at (
            exact_loop-Outcome manifest params kind old_s_index old_f exact_input count 1 none r
              run),
      )
