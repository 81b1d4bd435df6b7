-- ===== src/Pset/Totals.antt =====
-- How much of an asset the explicit outputs of a transaction carry.
use deadcat.Prelude.{
  ℕ, ◌+◌, ◌≡◌, refl, if◌then◌else◌, Option, none, some, List, [], ◌∷◌, ◌++◌, Bytes, bytes_eq, arith,
  is_some, ◌&&◌,
}
use deadcat.Pset.{
  Output, Pset, new_pset, explicit_txout, fee_txout, burn_txout, reissuance_token_output,
  add_pset_input, add_pset_inputs, add_pset_output, add_change, modify_input, UnblindedUtxo, Input,
}

-- What an output adds to the total of an asset.
abbrev amount_in : Bytes → Option Bytes → Option ℕ → ℕ
amount_in a (some b) (some v) = if bytes_eq b a then v else 0
amount_in a _ _ = 0

total_of : Bytes → List Output → ℕ
total_of a [] = 0
total_of a (o ∷ os) = amount_in a o.asset o.amount + total_of a os

pub total : Bytes → Pset → ℕ
unfolding total_of
total a pset = total_of a pset.outputs

total_of-append :
    (a : Bytes) (xs ys : List Output) → total_of a (xs ++ ys) ≡ total_of a xs + total_of a ys
unfolding total_of
total_of-append a [] ys = omega arith
total_of-append a (x ∷ xs) ys = omega (arith, total_of-append a xs ys)

pub total-add_pset_input :
    (a : Bytes) (p : Pset) (u : UnblindedUtxo) → total a (add_pset_input p u) ≡ total a p
unfolding total add_pset_input
total-add_pset_input a p u = refl

pub total-add_pset_inputs :
    (a : Bytes) (p : Pset) (us : List UnblindedUtxo) → total a (add_pset_inputs p us) ≡ total a p
unfolding total add_pset_inputs add_pset_input
total-add_pset_inputs a p [] = refl
total-add_pset_inputs a p (u ∷ us) = total-add_pset_inputs a (add_pset_input p u) us

pub total-explicit :
    (a b : Bytes) (v : ℕ) (spk : Bytes) (p : Pset)
    → total a (add_pset_output p (explicit_txout b v spk))
      ≡ total a p + (if bytes_eq b a then v else 0)
unfolding total add_pset_output explicit_txout
total-explicit a b v spk p = omega (arith, total_of-append a p.outputs)

pub total-fee :
    (a b : Bytes) (v : ℕ) (p : Pset)
    → total a (add_pset_output p (fee_txout b v)) ≡ total a p + (if bytes_eq b a then v else 0)
unfolding fee_txout
total-fee a b v p = total-explicit a b v [] p

pub total-burn :
    (a b : Bytes) (v : ℕ) (p : Pset)
    → total a (add_pset_output p (burn_txout b v)) ≡ total a p + (if bytes_eq b a then v else 0)
unfolding burn_txout
total-burn a b v p = total-explicit a b v _ p

pub total-reissuance :
    (a spk : Bytes) (p : Pset)
    → total a (add_pset_output p (reissuance_token_output spk)) ≡ total a p
unfolding total add_pset_output reissuance_token_output
total-reissuance a spk p = omega (arith, total_of-append a p.outputs)

pub total-change :
    (a b : Bytes) (v : ℕ) (dest : Option Bytes) (p : Pset)
    → total a (add_change p b v dest) ≡ total a p + (if bytes_eq b a && is_some dest then v else 0)
unfolding add_change
total-change a b v none p = ground arith
total-change a b v (some spk) p = ground (arith, total-explicit a b v spk p)

pub total-modify_input :
    (a : Bytes) (p : Pset) (i : ℕ) (f : Input → Input) → total a (modify_input p i f) ≡ total a p
unfolding total modify_input
total-modify_input a p i f = refl

pub total-new_pset : (a : Bytes) → total a new_pset ≡ 0
unfolding total new_pset
total-new_pset a = refl

pub total-locktime :
    (a : Bytes) (p : Pset) (t : Option ℕ) → total a (record p { fallback_locktime = t }) ≡ total a p
unfolding total
total-locktime a p t = refl

-- These take the total of a finished transaction apart, output by output.
pub ruleset totals = (
  total-add_pset_input, total-add_pset_inputs, total-explicit, total-fee, total-burn,
  total-reissuance, total-change, total-modify_input, total-new_pset, total-locktime,
)
