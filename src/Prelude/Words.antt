-- ===== src/Prelude/Words.antt =====
-- Rust's `u64` over the native numbers: checked, saturating and wrapping operations.
-- A value of type `u64` is a number below `u64_mod`.
use Prim.Native.Nat.{ℕ, ◌+◌, ◌-◌, ◌*◌, ◌%◌, ◌≤◌, ◌<◌}
use mathlib.Core.Path.{◌≡◌}
use mathlib.Core.Option.{Option, none, some}
use native.Mathlib.Omega.{arith}
use deadcat.Prelude.Tests.{ltb, leb, if◌then◌else◌}

-- 2 ^ 64
abbrev pub u64_mod : ℕ
u64_mod = 18446744073709551616

unfoldable pub checked_add : ℕ → ℕ → Option ℕ
checked_add a b = if ltb (a + b) u64_mod then some (a + b) else none

unfoldable pub checked_sub : ℕ → ℕ → Option ℕ
checked_sub a b = if leb b a then some (a - b) else none

unfoldable pub checked_mul : ℕ → ℕ → Option ℕ
checked_mul a b = if ltb (a * b) u64_mod then some (a * b) else none

-- `u64::try_from` of a wider number
unfoldable pub u64_try_from : ℕ → Option ℕ
u64_try_from a = if ltb a u64_mod then some a else none

-- `-` of the native numbers stops at 0, as `saturating_sub` does.
unfoldable pub saturating_sub : ℕ → ℕ → ℕ
saturating_sub a b = a - b

unfoldable pub saturating_mul : ℕ → ℕ → ℕ
saturating_mul a b = if ltb (a * b) u64_mod then a * b else u64_mod - 1

-- `+`, as a release build computes it
unfoldable pub wrapping_add : ℕ → ℕ → ℕ
wrapping_add a b = (a + b) % u64_mod

-- `-`, as a release build computes it
unfoldable pub wrapping_sub : ℕ → ℕ → ℕ
wrapping_sub a b = (a + u64_mod - b) % u64_mod

unfoldable pub abs_diff : ℕ → ℕ → ℕ
abs_diff a b = if ltb a b then b - a else a - b

pub checked_add-eq-some : (a b c : ℕ) → checked_add a b ≡ some c → (c ≡ a + b) × (a + b < u64_mod)
unfolding checked_add
checked_add-eq-some a b c h = ground arith

pub checked_sub-eq-some : (a b c : ℕ) → checked_sub a b ≡ some c → (a ≡ b + c) × (b ≤ a)
unfolding checked_sub
checked_sub-eq-some a b c h = ground arith

pub checked_mul-eq-some : (a b c : ℕ) → checked_mul a b ≡ some c → (c ≡ a * b) × (a * b < u64_mod)
unfolding checked_mul
checked_mul-eq-some a b c h = ground arith

pub wrapping_sub-of_le : (a b : ℕ) → b ≤ a → a < u64_mod → wrapping_sub a b ≡ a - b
unfolding wrapping_sub
wrapping_sub-of_le a b h k = omega arith

pub wrapping_add-of_lt : (a b : ℕ) → a + b < u64_mod → wrapping_add a b ≡ a + b
unfolding wrapping_add
wrapping_add-of_lt a b h = omega arith
