-- ===== src/Trade/Plan/Balance.antt =====
-- The totals of a plan against its legs.
use deadcat.Prelude.{
  ℕ, ◌+◌, ◌-◌, ◌%◌, ◌<◌, ◌≤◌, ◌≡◌, ◌≢◌, refl, sym, ap, ◌∙◌, subst, ◌==◌, Bool, true, false, not,
  ltb, Option, none, some, is_some, List, [], ◌∷◌, ◌++◌, map, Bytes, ok, fail_if, fail_if_passed,
  >>=-eq-ok, ok_injective, All, u64_mod, arith, saturating_sub, wrapping_add, Bool-cases, inl, inr,
}
use deadcat.Error.{no_liquidity, partial_fill_not_last}
use deadcat.Lmsr.Math.{LmsrTradeKind, LmsrQuote, is_buy}
use deadcat.Lmsr.Table.{LmsrTableProof, value_at, proof_at}
use deadcat.Lmsr.Exact.{fits, quote_exact_input_from_manifest}
use deadcat.Lmsr.Exact.Best.{exact_input-IsLastFit}
use deadcat.Trade.Types.{
  TradeSide, yes_side, no_side, TradeDirection, buy, sell, ScannedOrder, ScannedLmsrPool,
  OrderFillLeg, LmsrPoolSwapLeg, ExecutionPlan, RouteLeg,
}
use deadcat.Trade.Price.Queue.{queue-All}
use deadcat.Trade.Price.{queue, lmsr_trade_kind, target_token_asset, pool_spot}
use deadcat.Trade.Route.{Filled, fill_orders}
use deadcat.Trade.Route.Budget.{paid, received, fill_orders-budget}
use deadcat.Trade.Plan.{
  quote_deltas, taker_assets, only_last_partial, after_pool, stated_input, pool_leg, swap_leg,
  route_remainder, finish_plan, build_execution_plan, order_route_legs, pool_route_legs,
  plan_to_route_legs,
}

abbrev pub input_sum : List RouteLeg → ℕ
input_sum [] = 0
input_sum (leg ∷ legs) = leg.input_amount + input_sum legs

abbrev pub output_sum : List RouteLeg → ℕ
output_sum [] = 0
output_sum (leg ∷ legs) = leg.output_amount + output_sum legs

abbrev pool_pays : Option LmsrPoolSwapLeg → ℕ
pool_pays none = 0
pool_pays (some leg) = leg.delta_in

abbrev pool_gives : Option LmsrPoolSwapLeg → ℕ
pool_gives none = 0
pool_gives (some leg) = leg.delta_out

route_sums :
    (legs : List OrderFillLeg) (leg : Option LmsrPoolSwapLeg) (orders : List ScannedOrder)
    → (input_sum (order_route_legs legs orders ++ pool_route_legs leg) ≡ paid legs + pool_pays leg)
      × (output_sum (order_route_legs legs orders ++ pool_route_legs leg)
          ≡ received legs + pool_gives leg)
unfolding order_route_legs pool_route_legs
route_sums [] none orders = (refl, refl)
route_sums [] (some leg) orders = (omega arith, omega arith)
route_sums (l ∷ legs) leg orders =
    let (ins, outs) = route_sums legs leg orders in (omega (arith, ins), omega (arith, outs))

fits-deltas :
    (side : TradeSide) (direction : TradeDirection) (budget : ℕ) (q : LmsrQuote)
    → fits (lmsr_trade_kind side direction) budget q ≡ true
    → (quote_deltas direction q).0 ≤ budget
unfolding fits lmsr_trade_kind quote_deltas is_buy
fits-deltas yes_side buy budget q h = ground arith
fits-deltas no_side buy budget q h = ground arith
fits-deltas yes_side sell budget q h = ground arith
fits-deltas no_side sell budget q h = ground arith

swap_leg-deltas :
    (pool : ScannedLmsrPool) (direction : TradeDirection) (kind : LmsrTradeKind) (q : LmsrQuote)
    (old_f new_f : ℕ) (old_proof new_proof : LmsrTableProof)
    → pool_pays (swap_leg pool direction kind q old_f new_f old_proof new_proof)
      ≤ (quote_deltas direction q).0
unfolding swap_leg
swap_leg-deltas pool direction kind q old_f new_f old_proof new_proof =
    elim (Bool-cases (ltb 0 (quote_deltas direction q).1)) [
      | inl gives ↦ rw gives (omega arith)
      | inr nothing ↦ rw nothing (omega arith)
    ]

module _ (sha256 : Bytes → Bytes) where
  pool_leg-deltas :
      (pool : ScannedLmsrPool) (direction : TradeDirection) (kind : LmsrTradeKind)
      (legs : List OrderFillLeg) (q : LmsrQuote) {leg : Option LmsrPoolSwapLeg}
      → pool_leg sha256 pool direction kind legs (some q) ≡ ok leg
      → pool_pays leg ≤ (quote_deltas direction q).0
  unfolding pool_leg
  pool_leg-deltas pool direction kind legs q e =
      let (old_f, _, e₁) = >>=-eq-ok (value_at pool.manifest q.old_s_index) _ e in
      let (new_f, _, e₂) = >>=-eq-ok (value_at pool.manifest q.new_s_index) _ e₁ in
      let (old_proof, _, e₃) = >>=-eq-ok (proof_at sha256 pool.manifest q.old_s_index) _ e₂ in
      let (new_proof, _, e₄) = >>=-eq-ok (proof_at sha256 pool.manifest q.new_s_index) _ e₃ in
      subst (λ l. pool_pays l ≤ (quote_deltas direction q).0) (ok_injective e₄)
        (swap_leg-deltas pool direction kind q old_f new_f old_proof new_proof)

  pool_leg-none :
      (pool : ScannedLmsrPool) (direction : TradeDirection) (kind : LmsrTradeKind)
      (legs : List OrderFillLeg) {leg : Option LmsrPoolSwapLeg}
      → pool_leg sha256 pool direction kind legs none ≡ ok leg
      → leg ≡ none
  unfolding pool_leg
  pool_leg-none pool direction kind [] e = cc
  pool_leg-none pool direction kind (l ∷ legs) e = cc

  pool_within :
      (pool : ScannedLmsrPool) (side : TradeSide) (direction : TradeDirection) (filled : Filled)
      (found : Option LmsrQuote) (leg : Option LmsrPoolSwapLeg)
      → quote_exact_input_from_manifest sha256 pool.manifest pool.params
          (lmsr_trade_kind side direction)
          pool.current_s_index
          filled.remaining_input
        ≡ ok found
      → filled.remaining_input ≢ 0
      → pool_leg sha256 pool direction (lmsr_trade_kind side direction) filled.order_legs found
        ≡ ok leg
      → pool_pays leg ≤ filled.remaining_input
  pool_within pool side direction filled found leg quoted left built =
      let kind = lmsr_trade_kind side direction in
      let (old_f, _, result) =
        exact_input-IsLastFit sha256 pool.manifest pool.params kind pool.current_s_index
          filled.remaining_input quoted left in
      elim result [
        | inl (nothing, _) ↦
            rw (pool_leg-none pool direction kind filled.order_legs (rw nothing at built))
              (omega arith)
        | inr (q, one, (t, _, _, _, fit, _)) ↦ omega (
          arith,
          pool_leg-deltas pool direction kind filled.order_legs q (rw one at built),
          fits-deltas side direction filled.remaining_input q fit,
        )
      ]

  -- The pool is paid from what the orders leave, and without a pool they leave nothing.
  route_remainder-within :
      (lmsr_pool : Option ScannedLmsrPool) (side : TradeSide) (direction : TradeDirection)
      (filled : Filled) {leg : Option LmsrPoolSwapLeg}
      → route_remainder sha256 lmsr_pool side direction filled ≡ ok leg
      → (pool_pays leg ≤ filled.remaining_input)
        × (is_some lmsr_pool ≡ false → filled.remaining_input ≡ 0)
  unfolding route_remainder
  route_remainder-within none side direction filled e =
      elim (Bool-cases (filled.remaining_input == 0)) [
        | inl spent ↦
            let same = ok_injective (rw spent at e) in
            (
              subst (λ l. pool_pays l ≤ filled.remaining_input) same (omega arith),
              λ _. ground arith,
            )
        | inr left ↦ (let failed = rw left at e in cc)
      ]
  route_remainder-within (some pool) side direction filled {leg = leg} e =
      elim (Bool-cases (filled.remaining_input == 0)) [
        | inl spent ↦
            let same = ok_injective (rw spent at e) in
            (subst (λ l. pool_pays l ≤ filled.remaining_input) same (omega arith), λ h. cc)
        | inr left ↦
            let kind = lmsr_trade_kind side direction in
            let (found, quoted, built) =
              >>=-eq-ok
                (quote_exact_input_from_manifest sha256 pool.manifest pool.params kind
                  pool.current_s_index filled.remaining_input)
                _ (rw left at e) in
            (pool_within pool side direction filled found leg quoted (ground arith) built, λ h. cc)
      ]

after_pool-remaining :
    (leg : Option LmsrPoolSwapLeg) (remaining output : ℕ)
    → (after_pool leg remaining output).0 ≡ remaining - pool_pays leg
unfolding after_pool saturating_sub
after_pool-remaining none remaining output = omega arith
after_pool-remaining (some leg) remaining output = refl

after_pool-output :
    (leg : Option LmsrPoolSwapLeg) (remaining output got : ℕ)
    → output ≡ got % u64_mod
    → (got + pool_gives leg) % u64_mod ≡ (after_pool leg remaining output).1
unfolding after_pool wrapping_add
after_pool-output none remaining output got e = omega arith
after_pool-output (some leg) remaining output got e = omega arith

stated_input_lem :
    (lmsr_pool : Option ScannedLmsrPool) (leg : Option LmsrPoolSwapLeg)
    (remaining total_input given : ℕ)
    → pool_pays leg ≤ remaining
    → (is_some lmsr_pool ≡ false → remaining ≡ 0)
    → given + remaining ≡ total_input
    → (given + pool_pays leg ≡ stated_input lmsr_pool total_input (remaining - pool_pays leg))
      × (stated_input lmsr_pool total_input (remaining - pool_pays leg) ≤ total_input)
unfolding stated_input saturating_sub
stated_input_lem none leg remaining total_input given within spent sums =
    let empty = spent refl in (omega arith, omega arith)
stated_input_lem (some pool) leg remaining total_input given within spent sums =
    (omega arith, omega arith)

finish_plan-balance :
    (lmsr_pool : Option ScannedLmsrPool) (total_input : ℕ) (assets : Bytes × Bytes)
    (filled : Filled) (leg : Option LmsrPoolSwapLeg) (shown : List ScannedOrder)
    {plan : ExecutionPlan}
    → pool_pays leg ≤ filled.remaining_input
    → (is_some lmsr_pool ≡ false → filled.remaining_input ≡ 0)
    → paid filled.order_legs + filled.remaining_input ≡ total_input
    → filled.total_output ≡ received filled.order_legs % u64_mod
    → finish_plan lmsr_pool total_input assets filled leg ≡ ok plan
    → (input_sum (plan_to_route_legs plan shown) ≡ plan.total_taker_input)
      × (plan.total_taker_input ≤ total_input)
      × (output_sum (plan_to_route_legs plan shown) % u64_mod ≡ plan.total_taker_output)
      × (0 < plan.total_taker_output)
unfolding finish_plan plan_to_route_legs
finish_plan-balance lmsr_pool total_input assets filled leg shown within spent sums outs e =
    let left = after_pool leg filled.remaining_input filled.total_output in
    let (_, some_output, e₁) = >>=-eq-ok (fail_if (left.1 == 0) no_liquidity) _ e in
    let (_, _, e₂) =
      >>=-eq-ok (fail_if (not (only_last_partial filled.order_legs)) partial_fill_not_last) _ e₁ in
    let (ins, gets) = route_sums filled.order_legs leg shown in
    let remains = after_pool-remaining leg filled.remaining_input filled.total_output in
    let stated =
      stated_input_lem lmsr_pool leg filled.remaining_input total_input (paid filled.order_legs)
        within spent sums in
    subst
      (λ (plan : ExecutionPlan).
        (input_sum (order_route_legs plan.order_legs shown ++ pool_route_legs plan.lmsr_pool_leg)
          ≡ plan.total_taker_input)
        × (plan.total_taker_input ≤ total_input)
        × (output_sum (order_route_legs plan.order_legs shown ++ pool_route_legs plan.lmsr_pool_leg)
              % u64_mod
            ≡ plan.total_taker_output)
        × (0 < plan.total_taker_output))
      (ok_injective e₂)
      (
        ins ∙ stated.0 ∙ sym (ap (stated_input lmsr_pool total_input) remains),
        subst (λ n. stated_input lmsr_pool total_input n ≤ total_input) (sym remains) stated.1,
        ap (λ n. n % u64_mod) gets
            ∙ after_pool-output leg filled.remaining_input filled.total_output
                (received filled.order_legs) outs,
        ground (arith, fail_if_passed (left.1 == 0) _ some_output),
      )

module _ (sha256 : Bytes → Bytes) (F : Type 0) (as_f64 : ℕ → F) (div : F → F → F)
    (le : F → F → Bool) where
  -- A plan for orders whose coins are `u64` states totals that its legs add up to, the pool's leg
  -- included, as they are shown for any list of orders: the input exactly, and not more than the
  -- taker asked for; the output modulo 2 ^ 64, and not 0.
  pub build_execution_plan-balance :
      (lmsr_pool : Option ScannedLmsrPool) (orders : List ScannedOrder) (side : TradeSide)
      (direction : TradeDirection) (total_input : ℕ) (collateral_asset yes_asset no_asset : Bytes)
      (shown : List ScannedOrder) {plan : ExecutionPlan}
      → All (λ o. o.utxo.value < u64_mod) orders
      → build_execution_plan sha256 F as_f64 div le lmsr_pool orders side direction total_input
          collateral_asset yes_asset no_asset
        ≡ ok plan
      → (input_sum (plan_to_route_legs plan shown) ≡ plan.total_taker_input)
        × (plan.total_taker_input ≤ total_input)
        × (output_sum (plan_to_route_legs plan shown) % u64_mod ≡ plan.total_taker_output)
        × (0 < plan.total_taker_output)
  unfolding build_execution_plan
  build_execution_plan-balance lmsr_pool orders side direction total_input collateral_asset
        yes_asset no_asset shown coins e =
      let token_asset = target_token_asset side yes_asset no_asset in
      let (spot, _, e₁) = >>=-eq-ok (pool_spot F as_f64 div le lmsr_pool side direction) _ e in
      let sorted = map (λ e. e.0) (queue F as_f64 div le direction spot token_asset orders) in
      let (filled, filling, e₂) = >>=-eq-ok (fill_orders direction sorted total_input 0) _ e₁ in
      let (leg, routed, e₃) =
        >>=-eq-ok (route_remainder sha256 lmsr_pool side direction filled) _ e₂ in
      let (sums, outs) =
        fill_orders-budget direction sorted total_input 0
          (queue-All F as_f64 div le (λ o. o.utxo.value < u64_mod) direction spot token_asset orders
            coins)
          (omega arith) filling in
      let (within, spent) = route_remainder-within sha256 lmsr_pool side direction filled routed in
      finish_plan-balance lmsr_pool total_input
        (taker_assets direction collateral_asset token_asset) filled leg shown within spent sums
        (omega (arith, outs)) e₃
