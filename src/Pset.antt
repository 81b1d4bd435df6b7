-- ===== src/Pset.antt =====
-- pset.rs: unblinded coins and the construction of partially signed transactions. Transactions and
-- scripts are data of the `elements` crate: they are represented by the fields that the source
-- reads and writes, and commitments by their bytes.
pub mod Totals
use deadcat.Prelude.{
  ℕ, zero, suc, ◌<◌, Bool, true, false, ◌&&◌, ltb, if◌then◌else◌, Option, none, some, List, [], ◌∷◌,
  ◌++◌, Bytes, bytes_eq, is_some, wrapping_add, ◌==◌,
}

pub data Asset : Type 0 where
  null : Asset
  explicit confidential : Bytes → Asset

pub data Value : Type 0 where
  null : Value
  explicit : ℕ → Value
  confidential : Bytes → Value

pub data Nonce : Type 0 where
  null : Nonce
  confidential : Bytes → Nonce

pub record OutPoint : Type 0 where
  pub txid : Bytes
  pub vout : ℕ

unfoldable pub outpoint_eq : OutPoint → OutPoint → Bool
outpoint_eq a b = bytes_eq a.txid b.txid && a.vout == b.vout

pub record TxOut : Type 0 where
  pub asset : Asset
  pub value : Value
  pub nonce : Nonce
  pub script_pubkey : Bytes

pub record UnblindedUtxo : Type 0 where
  pub outpoint : OutPoint
  pub txout : TxOut
  pub asset_id : Bytes
  pub value : ℕ
  pub asset_blinding_factor : Bytes
  pub value_blinding_factor : Bytes

pub data Sequence : Type 0 where
  enable_locktime_no_rbf : Sequence

pub record Input : Type 0 where
  pub previous_output : OutPoint
  pub witness_utxo : Option TxOut
  pub sequence : Option Sequence
  pub issuance_value_amount : Option ℕ
  pub issuance_blinding_nonce : Option Bytes
  pub issuance_asset_entropy : Option Bytes
  pub issuance_inflation_keys : Option ℕ

pub record Output : Type 0 where
  pub amount : Option ℕ
  pub asset : Option Bytes
  pub script_pubkey : Bytes

pub record Pset : Type 0 where
  pub inputs : List Input
  pub outputs : List Output
  pub fallback_locktime : Option ℕ

unfoldable pub new_pset : Pset
new_pset = record { inputs = []; outputs = []; fallback_locktime = none }

unfoldable pub explicit_txout : Bytes → ℕ → Bytes → TxOut
explicit_txout asset_id amount script_pubkey = record {
  asset = Asset.explicit asset_id;
  value = Value.explicit amount;
  nonce = Nonce.null;
  script_pubkey = script_pubkey;
}

unfoldable pub fee_txout : Bytes → ℕ → TxOut
unfolding explicit_txout
fee_txout asset_id amount = explicit_txout asset_id amount []

abbrev pub zero_bytes : ℕ → Bytes
zero_bytes zero = []
zero_bytes (suc n) = 0 ∷ zero_bytes n

-- OP_0 PUSH32 and a zero script hash
unfoldable pub burn_script_pubkey : Bytes
burn_script_pubkey = 0 ∷ 0x20 ∷ zero_bytes 32

unfoldable pub burn_txout : Bytes → ℕ → TxOut
unfolding explicit_txout
burn_txout asset_id amount = explicit_txout asset_id amount burn_script_pubkey

-- The blinder fills these outputs in later.
unfoldable pub reissuance_token_output : Bytes → TxOut
reissuance_token_output script_pubkey = record {
  asset = Asset.null;
  value = Value.null;
  nonce = Nonce.null;
  script_pubkey = script_pubkey;
}

unfoldable pub add_pset_input : Pset → UnblindedUtxo → Pset
add_pset_input pset utxo =
    let input : Input = record {
      previous_output = utxo.outpoint;
      witness_utxo = some utxo.txout;
      sequence = some enable_locktime_no_rbf;
      issuance_value_amount = none;
      issuance_blinding_nonce = none;
      issuance_asset_entropy = none;
      issuance_inflation_keys = none;
    } in
    record pset { inputs = pset.inputs ++ input ∷ [] }

-- `for utxo in utxos { add_pset_input(&mut pset, utxo); }`
unfoldable pub add_pset_inputs : Pset → List UnblindedUtxo → Pset
add_pset_inputs pset [] = pset
add_pset_inputs pset (utxo ∷ utxos) = add_pset_inputs (add_pset_input pset utxo) utxos

abbrev pub explicit_value : Value → Option ℕ
explicit_value (Value.explicit v) = some v
explicit_value _ = none

abbrev pub explicit_asset : Asset → Option Bytes
explicit_asset (Asset.explicit id) = some id
explicit_asset _ = none

unfoldable pub add_pset_output : Pset → TxOut → Pset
add_pset_output pset txout =
    let output : Output = record {
      amount = explicit_value txout.value;
      asset = explicit_asset txout.asset;
      script_pubkey = txout.script_pubkey;
    } in
    record pset { outputs = pset.outputs ++ output ∷ [] }

-- `if change > 0 && let Some(ref spk) = destination { add_pset_output(..) }`, which every builder
-- ends in
unfoldable pub add_change : Pset → Bytes → ℕ → Option Bytes → Pset
add_change pset asset_id change none = pset
add_change pset asset_id change (some spk) =
    if ltb 0 change then add_pset_output pset (explicit_txout asset_id change spk) else pset

-- `pset.inputs_mut().get_mut(i)`, changed by `f`
unfoldable pub modify : ℕ → (Input → Input) → List Input → List Input
modify i f [] = []
modify zero f (x ∷ xs) = f x ∷ xs
modify (suc i) f (x ∷ xs) = x ∷ modify i f xs

unfoldable pub modify_input : Pset → ℕ → (Input → Input) → Pset
modify_input pset i f = record pset { inputs = modify i f pset.inputs }

-- `utxos.iter().map(|u| u.value).sum()`; the order of wrapping additions does not matter.
unfoldable pub sum_values : List UnblindedUtxo → ℕ
sum_values [] = 0
sum_values (u ∷ us) = wrapping_add u.value (sum_values us)
