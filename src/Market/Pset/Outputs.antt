-- ===== src/Market/Pset/Outputs.antt =====
-- The outputs of the transactions of a market at the positions that the covenant fixes: their
-- assets, amounts and scripts.
pub mod Issue
pub mod Cancel
pub mod Redeem
use deadcat.Prelude.{
  ℕ, zero, suc, ◌*◌, ◌<◌, ◌≡◌, refl, sym, subst, ◌∙◌, arith, Bool, true, false, ◌&&◌, Option, none,
  some, Bytes, bytes_eq, bytes_eq_refl, ok, checked_mul, List, [], ◌∷◌, ◌++◌, ltb, if◌then◌else◌,
  u64_mod, get_elem?, Bool-cases, inl, inr, Extends, Extends-refl, Extends-trans,
}
use deadcat.Pset.{
  Pset, Output, Input, TxOut, UnblindedUtxo, explicit_txout, burn_script_pubkey, add_pset_input,
  add_pset_inputs, add_pset_output, add_change,
}
use deadcat.Market.Pset.Issue.{collateral_for_pairs}

abbrev pub explicit_output : Bytes → ℕ → Bytes → Output
explicit_output asset amount script = record {
  amount = some amount;
  asset = some asset;
  script_pubkey = script;
}

abbrev pub burn_output : Bytes → ℕ → Output
burn_output asset amount = explicit_output asset amount burn_script_pubkey

-- An output of a reissuance token, which the blinder fills in.
abbrev pub token_output : Bytes → Output
token_output script = record { amount = none; asset = none; script_pubkey = script }

abbrev asset_is : Bytes → Option Bytes → Bool
asset_is id none = false
asset_is id (some a) = bytes_eq a id

abbrev amount_of : Option ℕ → ℕ
amount_of none = 0
amount_of (some v) = v

abbrev held : Bytes → Bytes → Option Output → ℕ
held asset script none = 0
held asset script (some o) =
    if asset_is asset o.asset && bytes_eq o.script_pubkey script then amount_of o.amount else 0

-- How much of an asset output `i` holds under a script: 0 where the output is missing, or is in
-- another asset or under another script.
unfoldable pub held_at : (asset script : Bytes) → ℕ → List Output → ℕ
held_at asset script i os = held asset script (get_elem? os i)

pub held_at-explicit :
    (asset script : Bytes) (i : ℕ) (os : List Output) {v : ℕ}
    → get_elem? os i ≡ some (explicit_output asset v script)
    → held_at asset script i os ≡ v
unfolding held_at
held_at-explicit asset script i os e = rw (e, bytes_eq_refl asset, bytes_eq_refl script) refl

pub Extends-add_pset_output :
    (os : List Output) (p : Pset) (t : TxOut)
    → Extends os p.outputs
    → Extends os (add_pset_output p t).outputs
unfolding add_pset_output
Extends-add_pset_output os p t h = Extends-trans os p.outputs _ h (_ ∷ [], refl)

pub Extends-add_change :
    (os : List Output) (p : Pset) (asset : Bytes) (change : ℕ) (dest : Option Bytes)
    → Extends os p.outputs
    → Extends os (add_change p asset change dest).outputs
unfolding add_change
Extends-add_change os p asset change none h = h
Extends-add_change os p asset change (some spk) h = elim (Bool-cases (ltb 0 change)) [
  | inl paid ↦ rw paid (Extends-add_pset_output os p (explicit_txout asset change spk) h)
  | inr nothing ↦ rw nothing h
]

pub outputs-add_pset_inputs :
    (p : Pset) (us : List UnblindedUtxo) → (add_pset_inputs p us).outputs ≡ p.outputs
unfolding add_pset_inputs add_pset_input
outputs-add_pset_inputs p [] = refl
outputs-add_pset_inputs p (u ∷ us) = outputs-add_pset_inputs (add_pset_input p u) us

pub outputs-two :
    (p : Pset) (us vs : List UnblindedUtxo)
    → (add_pset_inputs (add_pset_inputs p us) vs).outputs ≡ p.outputs
outputs-two p us vs =
    outputs-add_pset_inputs (add_pset_inputs p us) vs ∙ outputs-add_pset_inputs p us

pub collateral_for_pairs-eq-ok :
    (pairs cpt : ℕ) {c : ℕ}
    → collateral_for_pairs pairs cpt ≡ ok c
    → (c ≡ pairs * 2 * cpt) × (c < u64_mod)
unfolding collateral_for_pairs checked_mul
collateral_for_pairs-eq-ok pairs cpt h = ground arith

-- What input `i` issues.
abbrev pub issued_at : ℕ → List Input → Option ℕ
issued_at i [] = none
issued_at zero (x ∷ xs) = x.issuance_value_amount
issued_at (suc i) (x ∷ xs) = issued_at i xs

pub inputs-add_change :
    (p : Pset) (asset : Bytes) (change : ℕ) (dest : Option Bytes)
    → (add_change p asset change dest).inputs ≡ p.inputs
unfolding add_change add_pset_output
inputs-add_change p asset change none = refl
inputs-add_change p asset change (some spk) = elim (Bool-cases (ltb 0 change)) [
  | inl paid ↦ rw paid refl
  | inr nothing ↦ rw nothing refl
]

-- Two changes at the end leave the outputs in front and the issued amounts alone.
pub changed-outputs :
    (os : List Output) (p : Pset) (a : Bytes) (c : ℕ) (d : Option Bytes) (b : Bytes) (e : ℕ)
    (f : Option Bytes) (n m : Option ℕ)
    → Extends os p.outputs
    → issued_at 0 p.inputs ≡ n
    → issued_at 1 p.inputs ≡ m
    → let done = add_change (add_change p a c d) b e f in
      Extends os done.outputs × (issued_at 0 done.inputs ≡ n) × (issued_at 1 done.inputs ≡ m)
changed-outputs os p a c d b e f n m more first second =
    let first_change = add_change p a c d in
    let same = inputs-add_change first_change b e f ∙ inputs-add_change p a c d in
    (
      Extends-add_change os first_change b e f (Extends-add_change os p a c d more),
      subst (λ xs. issued_at 0 xs ≡ n) (sym same) first,
      subst (λ xs. issued_at 1 xs ≡ m) (sym same) second,
    )
