-- ===== src/Pool.antt =====
-- pool.rs: the reserves of a pool and the probabilities that they imply.
use deadcat.Prelude.{
  ℕ, ◌+◌, ◌*◌, ◌/◌, ◌%◌, ◌^◌, ◌≤◌, ◌≡◌, ◌==◌, if◌then◌else◌, Option, none, some, checked_add,
  saturating_sub, arith, ◌<◌,
}
use native.Mathlib.Nat.{div-lt_iff_lt-mul}

pub record PoolReserves : Type 0 where
  pub r_yes : ℕ
  pub r_no : ℕ
  pub r_lbtc : ℕ

-- The quotient is cast to a `u16`.
unfoldable pub implied_probability_bps : PoolReserves → Option (ℕ × ℕ)
implied_probability_bps reserves = elim (checked_add reserves.r_yes reserves.r_no) [
  | none ↦ none
  | some denom ↦
      let yes = reserves.r_yes * 10000 / denom % 2 ^ 16 in
      if denom == 0 then none else some (yes, saturating_sub 10000 yes)
]

share-le : (a b d : ℕ) → 0 < d → d ≡ a + b → a * 10000 / d ≤ 10000
share-le a b d h e =
    let below = (div-lt_iff_lt-mul {k = d} {x = a * 10000} {y = 10001} h).1 (omega arith) in
    omega (arith, below)

-- The two probabilities add up to 10000 basis points, and the cast loses nothing: YES gets its share
-- of the reserves, rounded down.
pub implied_probability_bps-sum :
    (reserves : PoolReserves) {yes no : ℕ}
    → implied_probability_bps reserves ≡ some (yes, no)
    → (yes + no ≡ 10000) × (yes ≡ reserves.r_yes * 10000 / (reserves.r_yes + reserves.r_no))
unfolding implied_probability_bps checked_add saturating_sub
implied_probability_bps-sum reserves h =
    ground (arith, share-le reserves.r_yes reserves.r_no (reserves.r_yes + reserves.r_no))
