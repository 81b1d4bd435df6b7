-- ===== src/Lmsr/Table/Levels.antt =====
-- The levels of the Merkle tree: their lengths, their entries, and where the loops end.
use native.Mathlib.Nat.{div-div-eq-div-mul, div-eq_of_lt, pow-suc}
use deadcat.Prelude.{
  ℕ, zero, suc, ◌+◌, ◌*◌, ◌/◌, ◌^◌, ◌<◌, ◌≤◌, ◌≡◌, refl, ap, sym, ◌∙◌, true, some, List, [], ◌∷◌,
  length, get_elem?, Bytes, arith,
}
use deadcat.Lmsr.Table.{
  lmsr_table_node_hash, next_level, root_of_levels, leaves_from, is_power_of_two_within,
  lmsr_table_leaf_hash, set_bit,
}

pub two_pow : (k : ℕ) → 2 ^ suc k ≡ 2 * 2 ^ k
two_pow k = omega arith

pub two_pow_pos : (k : ℕ) → 0 < 2 ^ k
two_pow_pos zero = omega arith
two_pow_pos (suc k) = omega (arith, two_pow_pos k)

pub div-two_pow : (n d : ℕ) → n / 2 ^ suc d ≡ n / 2 ^ d / 2
div-two_pow n d = ap (λ (t : ℕ). n / t) (pow-suc 2 d) ∙ sym (div-div-eq-div-mul n (2 ^ d) 2)

pub set_bit-of_lt : (bits d : ℕ) → bits < 2 ^ d → set_bit bits d ≡ bits + 2 ^ d
unfolding set_bit
set_bit-of_lt bits d h = ground (arith, div-eq_of_lt h)

pub is_power_of_two-pow : (k fuel : ℕ) → k ≤ fuel → is_power_of_two_within fuel (2 ^ k) ≡ true
unfolding is_power_of_two_within
is_power_of_two-pow zero zero h = refl
is_power_of_two-pow zero (suc fuel) h = refl
is_power_of_two-pow (suc k) zero h = elim h [ ]
is_power_of_two-pow (suc k) (suc fuel) h =
    ground (arith, two_pow k, two_pow_pos k, is_power_of_two-pow k fuel)

pub get_elem?-of_lt {ℓ} :
    {A : Type ℓ} (xs : List A) (i : ℕ) → i < length xs → (a : A) × (get_elem? xs i ≡ some a)
get_elem?-of_lt [] i h = elim h [ ]
get_elem?-of_lt (x ∷ xs) zero h = (x, refl)
get_elem?-of_lt (x ∷ xs) (suc i) h = get_elem?-of_lt xs i (omega arith)

pub get_elem?-lt {ℓ} :
    {A : Type ℓ} (xs : List A) (i : ℕ) {a : A} → get_elem? xs i ≡ some a → i < length xs
get_elem?-lt [] i h = cc
get_elem?-lt (x ∷ xs) zero h = omega arith
get_elem?-lt (x ∷ xs) (suc i) h = omega (arith, get_elem?-lt xs i h)

abbrev pub double : ℕ → ℕ
double zero = zero
double (suc n) = suc (suc (double n))

pub double_lem : (n : ℕ) → double n ≡ 2 * n
double_lem zero = refl
double_lem (suc n) = omega (arith, double_lem n)

module _ (sha256 : Bytes → Bytes) where
  pub length-leaves_from : (i : ℕ) (vs : List ℕ) → length (leaves_from sha256 i vs) ≡ length vs
  unfolding leaves_from
  length-leaves_from i [] = refl
  length-leaves_from i (v ∷ vs) = ap suc (length-leaves_from (suc i) vs)

  pub get_elem?-leaves_from :
      (i j : ℕ) (vs : List ℕ) {v : ℕ}
      → get_elem? vs j ≡ some v
      → get_elem? (leaves_from sha256 i vs) j ≡ some (lmsr_table_leaf_hash sha256 (i + j) v)
  unfolding leaves_from
  get_elem?-leaves_from i j [] h = cc
  get_elem?-leaves_from i zero (v ∷ vs) h = ground arith
  get_elem?-leaves_from i (suc j) (v ∷ vs) h = ground (arith, get_elem?-leaves_from (suc i) j vs h)

  pub length-next_level :
      (k : ℕ) (level : List Bytes) → length level ≡ 2 * k → length (next_level sha256 level) ≡ k
  unfolding next_level
  length-next_level k [] h = omega arith
  length-next_level k (l ∷ []) h = absurd (omega arith)
  length-next_level zero (l ∷ r ∷ level) h = absurd (omega arith)
  length-next_level (suc k) (l ∷ r ∷ level) h = ap suc (length-next_level k level (omega arith))

  pub get_elem?-next_level :
      (i : ℕ) (level : List Bytes) {l r : Bytes}
      → get_elem? level (double i) ≡ some l
      → get_elem? level (suc (double i)) ≡ some r
      → get_elem? (next_level sha256 level) i ≡ some (lmsr_table_node_hash sha256 l r)
  unfolding next_level
  get_elem?-next_level i [] hl hr = cc
  get_elem?-next_level zero (x ∷ []) hl hr = cc
  get_elem?-next_level (suc i) (x ∷ []) hl hr = cc
  get_elem?-next_level zero (x ∷ y ∷ level) hl hr = ground arith
  get_elem?-next_level (suc i) (x ∷ y ∷ level) hl hr = get_elem?-next_level i level hl hr

  -- `k` rounds of `next_level`
  unfoldable pub rounds : ℕ → List Bytes → List Bytes
  rounds zero level = level
  rounds (suc k) level = rounds k (next_level sha256 level)

  -- The loop of `lmsr_table_root` makes `k` rounds over `2 ^ k` digests, if its fuel is `k` or more.
  pub root_of_levels-eq-rounds :
      (k fuel : ℕ) (level : List Bytes)
      → k ≤ fuel
      → length level ≡ 2 ^ k
      → root_of_levels sha256 fuel level ≡ rounds k level
  unfolding root_of_levels rounds
  root_of_levels-eq-rounds zero zero level h e = refl
  root_of_levels-eq-rounds zero (suc fuel) level h e = ground arith
  root_of_levels-eq-rounds (suc k) zero level h e = elim h [ ]
  root_of_levels-eq-rounds (suc k) (suc fuel) level h e = ground (
    arith,
    two_pow k,
    two_pow_pos k,
    root_of_levels-eq-rounds k fuel (next_level sha256 level),
    length-next_level (2 ^ k) level,
  )
