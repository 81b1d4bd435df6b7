-- ===== src/Lmsr/Table.antt =====
-- lmsr_pool/table.rs: the Merkle commitment to the LMSR table. SHA-256 is not implemented by the
-- program: it is the parameter `sha256`. Digests and hashed messages are byte lists.
pub mod Levels
pub mod Binding
pub mod Inclusion
use deadcat.Prelude.{
  ℕ, zero, suc, ◌+◌, ◌-◌, ◌*◌, ◌/◌, ◌%◌, ◌^◌, Bool, true, false, not, ◌||◌, ltb, leb, ◌==◌,
  if◌then◌else◌, Result, ok, err, fail_if, ok_or, ◌>>=◌, ◌>>◌, Option, none, some, List, [], ◌∷◌,
  ◌++◌, length, get_elem?, Bytes, bytes_eq, u64_mod,
}
use deadcat.Error.{Error, lmsr_pool}
use deadcat.Lmsr.Params.{LmsrPoolParams, validate}

-- The `n` low bytes of `v`, the most significant first; `v.to_be_bytes()` has 8 or 4 of them.
unfoldable pub be_bytes : ℕ → ℕ → Bytes
be_bytes zero v = []
be_bytes (suc n) v = (v / 256 ^ n % 256) ∷ be_bytes n v

-- b"LMSR_TBL_V1"
abbrev pub leaf_domain : Bytes
leaf_domain = b'L' ∷ b'M' ∷ b'S' ∷ b'R' ∷ b'_' ∷ b'T' ∷ b'B' ∷ b'L' ∷ b'_' ∷ b'V' ∷ b'1' ∷ []

pub record LmsrTableManifest : Type 0 where
  pub table_depth : ℕ
  pub values : List ℕ

pub record LmsrTableProof : Type 0 where
  pub index : ℕ
  pub value : ℕ
  pub path_bits : ℕ
  pub siblings : List Bytes

-- `n.is_power_of_two()`: halving reaches 1. A `usize` is halved 63 times at most.
unfoldable pub is_power_of_two_within : ℕ → ℕ → Bool
is_power_of_two_within zero n = n == 1
is_power_of_two_within (suc k) n =
    let rest = is_power_of_two_within k (n / 2) in
    if n == 1 then true else if n == 0 || n % 2 == 1 then false else rest

-- `1u128.checked_shl(table_depth)` is `None` from 128 on; a `usize` has 64 bits.
unfoldable pub expected_leaf_count : ℕ → Result Error ℕ
expected_leaf_count table_depth = do
  fail_if (leb 128 table_depth) (lmsr_pool "table_depth is too large")
  fail_if (ltb (u64_mod - 1) (2 ^ table_depth))
      (lmsr_pool "table_depth exceeds addressable host capacity")
  ok (2 ^ table_depth)

-- `LmsrTableManifest::new`
unfoldable pub new_manifest : ℕ → List ℕ → Result Error LmsrTableManifest
new_manifest table_depth values = do
  fail_if (table_depth == 0 || ltb 63 table_depth) (lmsr_pool "table_depth must be in [1, 63]")
  expected_len ← expected_leaf_count table_depth
  fail_if (not (length values == expected_len)) (lmsr_pool "table depth and value count differ")
  ok (record { table_depth = table_depth; values = values })

-- `self.values.len() as u64 - 1`; a manifest that was built by `new` is not empty.
unfoldable pub max_index : LmsrTableManifest → ℕ
max_index m = (length m.values + u64_mod - 1) % u64_mod

unfoldable pub value_at : LmsrTableManifest → ℕ → Result Error ℕ
value_at m index = ok_or (get_elem? m.values index) (lmsr_pool "table index out of range")

-- `path_bits |= 1u64 << d`
unfoldable pub set_bit : ℕ → ℕ → ℕ
set_bit bits d = if bits / 2 ^ d % 2 == 1 then bits else bits + 2 ^ d

-- `params.validate().map_err(..)`
unfoldable pub params_valid : LmsrPoolParams → Result Error (Unit {0})
params_valid params = elim (validate params) [
  | ok u ↦ ok u
  | err e ↦ err (lmsr_pool "invalid LMSR params")
]

module _ (sha256 : Bytes → Bytes) where
  unfoldable pub lmsr_table_leaf_hash : ℕ → ℕ → Bytes
  lmsr_table_leaf_hash index value =
      sha256 (0 ∷ (leaf_domain ++ (be_bytes 8 index ++ be_bytes 8 value)))

  unfoldable pub lmsr_table_node_hash : Bytes → Bytes → Bytes
  lmsr_table_node_hash left right = sha256 (1 ∷ (left ++ right))

  -- `values.iter().enumerate().map(leaf hash)`, from index `i` on
  unfoldable pub leaves_from : ℕ → List ℕ → List Bytes
  leaves_from i [] = []
  leaves_from i (v ∷ vs) = lmsr_table_leaf_hash i v ∷ leaves_from (suc i) vs

  -- One round of `level.chunks_exact(2)`; an odd last digest is dropped.
  unfoldable pub next_level : List Bytes → List Bytes
  next_level [] = []
  next_level (l ∷ []) = []
  next_level (l ∷ r ∷ level) = lmsr_table_node_hash l r ∷ next_level level

  -- `while level.len() > 1`, on fuel: 64 rounds, since a `usize` is halved 64 times at most.
  unfoldable pub root_of_levels : ℕ → List Bytes → List Bytes
  root_of_levels zero level = level
  root_of_levels (suc fuel) level =
      let rest = root_of_levels fuel (next_level level) in
      if ltb 1 (length level) then rest else level

  unfoldable pub lmsr_table_root : List ℕ → Result Error Bytes
  lmsr_table_root values = do
    fail_if (length values == 0) (lmsr_pool "LMSR table values cannot be empty")
    fail_if (not (is_power_of_two_within 64 (length values)))
        (lmsr_pool "LMSR table leaf count must be power-of-two")
    ok_or (get_elem? (root_of_levels 64 (leaves_from 0 values)) 0) (lmsr_pool "index out of bounds")

  -- `LmsrTableManifest::root`
  unfoldable pub manifest_root : LmsrTableManifest → Result Error Bytes
  manifest_root m = lmsr_table_root m.values

  -- The loop `for d in 0..depth` of `proof_at`, with `k` rounds left.
  unfoldable pub proof_loop : ℕ → ℕ → ℕ → ℕ → List Bytes → Result Error (ℕ × List Bytes)
  proof_loop zero d pos path_bits level = ok (path_bits, [])
  proof_loop (suc k) d pos path_bits level =
      let is_right = pos % 2 == 1 in
      let rest =
        proof_loop k (suc d) (pos / 2) (if is_right then set_bit path_bits d else path_bits)
          (next_level level) in
      do
        sibling ←
            ok_or (get_elem? level (if is_right then pos - 1 else pos + 1))
              (lmsr_pool "failed to derive LMSR sibling")
        above ← rest
        ok (above.0, sibling ∷ above.1)

  -- `LmsrTableManifest::proof_at`
  unfoldable pub proof_at : LmsrTableManifest → ℕ → Result Error LmsrTableProof
  proof_at m index = do
    value ← ok_or (get_elem? m.values index) (lmsr_pool "table index out of range")
    path ← proof_loop m.table_depth 0 index 0 (leaves_from 0 m.values)
    ok (record { index = index; value = value; path_bits = path.0; siblings = path.1 })

  -- `LmsrTableManifest::verify_matches_pool_params`
  unfoldable pub verify_matches_pool_params :
      LmsrTableManifest → LmsrPoolParams → Result Error (Unit {0})
  verify_matches_pool_params m params = do
    params_valid params
    fail_if (not (m.table_depth == params.table_depth))
        (lmsr_pool "manifest depth does not match pool table_depth")
    fail_if (ltb (max_index m) params.s_max_index)
        (lmsr_pool "manifest max index below pool s_max_index")
    root ← manifest_root m
    fail_if (not (bytes_eq root params.lmsr_table_root))
        (lmsr_pool "manifest root does not match pool LMSR_TABLE_ROOT")

  -- The loop over the siblings of `verify_lmsr_table_proof`, from bit `level` on. A shift of a
  -- `u64` goes by its distance modulo 64.
  unfoldable pub climb : ℕ → ℕ → Bytes → List Bytes → Bytes
  climb path_bits level node [] = node
  climb path_bits level node (sibling ∷ siblings) =
      climb path_bits (suc level)
        (if path_bits / 2 ^ (level % 64) % 2 == 1
          then lmsr_table_node_hash sibling node
          else lmsr_table_node_hash node sibling)
        siblings

  unfoldable pub verify_lmsr_table_proof :
      Bytes → ℕ → ℕ → ℕ → ℕ → List Bytes → Result Error (Unit {0})
  verify_lmsr_table_proof root table_depth index value path_bits siblings = do
    fail_if (not (length siblings == table_depth)) (lmsr_pool "wrong count of LMSR siblings")
    fail_if (ltb (2 ^ (table_depth % 128) - 1) index)
        (lmsr_pool "proof index exceeds table depth max")
    let mask_bits = if table_depth == 64 then 64 else table_depth % 64
    fail_if (not (path_bits % 2 ^ mask_bits == index))
        (lmsr_pool "proof path_bits does not match index")
    fail_if (not (path_bits - path_bits % 2 ^ mask_bits == 0))
        (lmsr_pool "proof path_bits has non-zero bits above table_depth")
    let node = climb path_bits 0 (lmsr_table_leaf_hash index value) siblings
    fail_if (not (bytes_eq node root)) (lmsr_pool "LMSR table proof root mismatch")
