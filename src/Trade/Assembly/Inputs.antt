-- ===== src/Trade/Assembly/Inputs.antt =====
-- The inputs of the combined transaction: every order's coin is where its index says.
use deadcat.Prelude.{
  ℕ, zero, suc, ◌≡◌, refl, sym, ap, ◌∙◌, subst, ltb, ◌==◌, Option, none, some, List, [], ◌∷◌, ◌++◌,
  Bytes, length, get_elem?, Result, ok, fail_if, >>=-eq-ok, ok_injective, Extends, Extends-refl,
  Extends-trans, get_elem?-Extends, get_elem?-length,
}
use mathlib.Core.List.{append_assoc, append-nil}
use deadcat.Pset.{UnblindedUtxo, Input, add_pset_input}
use deadcat.Error.{Error}
use deadcat.MakerOrder.Params.{MakerOrderParams}
use deadcat.Lmsr.Params.{LmsrPoolParams}
use deadcat.Trade.Types.{OrderFillLeg, LmsrPoolSwapLeg}
use deadcat.Trade.Assembly.{
  Gathered, add_coin, add_coins, add_order, add_orders, take, skip, pool_coins, covenant_inputs,
  validate_lmsr_table_membership,
}

-- The input at index `k` spends the coin of the order.
abbrev pub SpendsAt : List Input → OrderFillLeg → ℕ → Type 0
SpendsAt inputs leg k =
    (i : Input) × (get_elem? inputs k ≡ some i) × (i.previous_output ≡ leg.order_utxo.outpoint)

abbrev pub Spends : List Input → List OrderFillLeg → List ℕ → Type 0
Spends inputs [] [] = Unit
Spends inputs (leg ∷ legs) (k ∷ ks) = SpendsAt inputs leg k × Spends inputs legs ks
Spends inputs _ _ = ⊥

pub Spends-Extends :
    (xs ys : List Input) (legs : List OrderFillLeg) (ks : List ℕ)
    → Extends xs ys
    → Spends xs legs ks
    → Spends ys legs ks
Spends-Extends xs ys [] [] more h = tt
Spends-Extends xs ys [] (k ∷ ks) more h = h
Spends-Extends xs ys (leg ∷ legs) [] more h = h
Spends-Extends xs ys (leg ∷ legs) (k ∷ ks) more ((i, at, out), rest) =
    ((i, get_elem?-Extends xs ys k more at, out), Spends-Extends xs ys legs ks more rest)

Spends-append :
    (xs : List Input) (legs legs' : List OrderFillLeg) (ks ks' : List ℕ)
    → Spends xs legs ks
    → Spends xs legs' ks'
    → Spends xs (legs ++ legs') (ks ++ ks')
Spends-append xs [] legs' [] ks' h h' = h'
Spends-append xs [] legs' (k ∷ ks) ks' h h' = absurd h
Spends-append xs (leg ∷ legs) legs' [] ks' h h' = absurd h
Spends-append xs (leg ∷ legs) legs' (k ∷ ks) ks' (first, rest) h' =
    (first, Spends-append xs legs legs' ks ks' rest h')

-- What adding coins leaves of the inputs, the outputs and the indices.
pub add_coins-Extends :
    (g : Gathered) (us : List UnblindedUtxo)
    → Extends g.pset.inputs (add_coins g us).pset.inputs
      × ((add_coins g us).pset.outputs ≡ g.pset.outputs)
      × ((add_coins g us).order_input_indices ≡ g.order_input_indices)
unfolding add_coins add_coin add_pset_input
add_coins-Extends g [] = (Extends-refl g.pset.inputs, refl, refl)
add_coins-Extends g (u ∷ us) =
    let (more, outputs, indices) = add_coins-Extends (add_coin g u) us in
    (
      Extends-trans g.pset.inputs (add_coin g u).pset.inputs
          (add_coins (add_coin g u) us).pset.inputs (_, refl) more,
      outputs,
      indices,
    )

add_order-SpendsAt :
    (g : Gathered) (leg : OrderFillLeg)
    → Extends g.pset.inputs (add_order g leg).pset.inputs
      × SpendsAt (add_order g leg).pset.inputs leg (length g.pset.inputs)
      × ((add_order g leg).pset.outputs ≡ g.pset.outputs)
      × ((add_order g leg).order_input_indices ≡ g.order_input_indices ++ length g.pset.inputs ∷ [])
unfolding add_order add_coin add_pset_input
add_order-SpendsAt g leg = ((_, refl), (_, get_elem?-length g.pset.inputs _, refl), refl, refl)

-- Orders that are added get indices at which they are spent.
add_orders-Spends :
    (g : Gathered) (legs : List OrderFillLeg)
    → Extends g.pset.inputs (add_orders g legs).pset.inputs
      × ((add_orders g legs).pset.outputs ≡ g.pset.outputs)
      × ((ks : List ℕ) × ((add_orders g legs).order_input_indices ≡ g.order_input_indices ++ ks)
          × Spends (add_orders g legs).pset.inputs legs ks)
unfolding add_orders
add_orders-Spends g [] =
    (Extends-refl g.pset.inputs, refl, ([], sym (append-nil g.order_input_indices), tt))
add_orders-Spends g (leg ∷ legs) =
    let (one_more, at, same_outputs, index) = add_order-SpendsAt g leg in
    let (more, outputs, (ks, indices, rest)) = add_orders-Spends (add_order g leg) legs in
    let (i, there, out) = at in
    (
      Extends-trans g.pset.inputs (add_order g leg).pset.inputs
          (add_orders (add_order g leg) legs).pset.inputs one_more more,
      outputs ∙ same_outputs,
      (
        length g.pset.inputs ∷ ks,
        indices
            ∙ ap (λ l. l ++ ks) index
            ∙ append_assoc g.order_input_indices (length g.pset.inputs ∷ []) ks,
        (
          (
            i,
            get_elem?-Extends (add_order g leg).pset.inputs
                (add_orders (add_order g leg) legs).pset.inputs (length g.pset.inputs) more there,
            out,
          ),
          rest,
        ),
      ),
    )

take-append-skip : {A : Type 0} (n : ℕ) (xs : List A) → take n xs ++ skip n xs ≡ xs
take-append-skip zero xs = refl
take-append-skip (suc n) [] = refl
take-append-skip (suc n) (x ∷ xs) = ap (λ l. x ∷ l) (take-append-skip n xs)

-- The orders before the pool's coins, and those behind them.
around_pool :
    (n : ℕ) (legs : List OrderFillLeg) (coins : List UnblindedUtxo) (g : Gathered)
    → g.order_input_indices ≡ []
    → g.pset.outputs ≡ []
    → let after = add_orders (add_coins (add_orders g (take n legs)) coins) (skip n legs) in
      (after.pset.outputs ≡ []) × Spends after.pset.inputs legs after.order_input_indices
around_pool n legs coins g none_yet no_outputs =
    let before = add_orders g (take n legs) in
    let mid = add_coins before coins in
    let after = add_orders mid (skip n legs) in
    let (_, o₁, (ks₁, i₁, s₁)) = add_orders-Spends g (take n legs) in
    let (m₂, o₂, i₂) = add_coins-Extends before coins in
    let (m₃, o₃, (ks₂, i₃, s₂)) = add_orders-Spends mid (skip n legs) in
    let later =
      Spends-Extends before.pset.inputs after.pset.inputs (take n legs) ks₁
        (Extends-trans before.pset.inputs mid.pset.inputs after.pset.inputs m₂ m₃) s₁ in
    let both = Spends-append after.pset.inputs (take n legs) (skip n legs) ks₁ ks₂ later s₂ in
    let indices : after.order_input_indices ≡ ks₁ ++ ks₂ =
      i₃ ∙ ap (λ l. l ++ ks₂) (i₂ ∙ i₁ ∙ ap (λ l. l ++ ks₁) none_yet) in
    (
      o₃ ∙ o₂ ∙ o₁ ∙ no_outputs,
      subst (Spends after.pset.inputs legs) (sym indices)
          (subst (λ l. Spends after.pset.inputs l (ks₁ ++ ks₂)) (take-append-skip n legs) both),
    )

module _ (sha256 : Bytes → Bytes) (compile_pool : LmsrPoolParams → Result Error (ℕ → Bytes))
    (receive_spk : Bytes → Bytes → MakerOrderParams → Bytes) where
  -- The covenant inputs, from an empty transaction.
  pub covenant_inputs-Spends :
      (leg : Option LmsrPoolSwapLeg) (legs : List OrderFillLeg) (g : Gathered)
      {c : Gathered × Option (ℕ × ℕ)}
      → g.order_input_indices ≡ []
      → g.pset.outputs ≡ []
      → covenant_inputs sha256 compile_pool receive_spk leg legs g ≡ ok c
      → (c.0.pset.outputs ≡ []) × Spends c.0.pset.inputs legs c.0.order_input_indices
  unfolding covenant_inputs
  covenant_inputs-Spends none legs g none_yet no_outputs e =
      let (_, outputs, (ks, indices, spends)) = add_orders-Spends g legs in
      let all_new = indices ∙ ap (λ l. l ++ ks) none_yet in
      subst
        (λ (c : Gathered × Option (ℕ × ℕ)).
          (c.0.pset.outputs ≡ []) × Spends c.0.pset.inputs legs c.0.order_input_indices)
        (ok_injective e)
        (
          outputs ∙ no_outputs,
          subst (Spends (add_orders g legs).pset.inputs legs) (sym all_new) spends,
        )
  covenant_inputs-Spends (some leg) legs g none_yet no_outputs e =
      let (_, _, e₁) = >>=-eq-ok (fail_if (leg.new_s_index == leg.old_s_index) _) _ e in
      let (_, _, e₂) =
        >>=-eq-ok (validate_lmsr_table_membership sha256 compile_pool receive_spk leg) _ e₁ in
      let (_, _, e₃) = >>=-eq-ok (fail_if (ltb (length legs) leg.in_base) _) _ e₂ in
      subst
        (λ (c : Gathered × Option (ℕ × ℕ)).
          (c.0.pset.outputs ≡ []) × Spends c.0.pset.inputs legs c.0.order_input_indices)
        (ok_injective e₃)
        (around_pool leg.in_base legs (pool_coins leg.pool_utxos) g none_yet no_outputs)
