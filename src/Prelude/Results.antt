-- ===== src/Prelude/Results.antt =====
-- Rust's `Result`, its `?` operator as the bind of a `do` block, and early returns.
use mathlib.Core.Path.{◌≡◌, refl}
use mathlib.Core.Bool.{Bool, true, false}
use mathlib.Core.Option.{Option, none, some}
use mathlib.Core.Logic.{◌⊎◌, inl, inr}

pub data Result (E A : Type 0) : Type 0 where
  ok : A → Result E A
  err : E → Result E A

-- `if test { return Err(e); }`
abbrev pub fail_if : {E : Type 0} → Bool → E → Result E (Unit {0})
fail_if true e = err e
fail_if false _ = ok tt

infixl 5 ◌>>=◌ ◌>>◌
abbrev pub ◌>>=◌ : {E A B : Type 0} → Result E A → (A → Result E B) → Result E B
err failure >>= rest = err failure
ok value >>= rest = rest value

-- `Option::ok_or`
abbrev pub ok_or : {E A : Type 0} → Option A → E → Result E A
ok_or none e = err e
ok_or (some a) _ = ok a

abbrev pub ◌>>◌ : {E B : Type 0} → Result E (Unit {0}) → Result E B → Result E B
checked >> rest = checked >>= λ _. rest

-- `Result::map_err`
abbrev pub map_err : {E F A : Type 0} → (E → F) → Result E A → Result F A
map_err f (ok a) = ok a
map_err f (err e) = err (f e)

abbrev pub is_some : {A : Type 0} → Option A → Bool
is_some none = false
is_some (some _) = true

-- A chain that succeeds has a first step that succeeds, and so does what follows it.
pub >>=-eq-ok :
    {E A B : Type 0} (first : Result E A) (rest : A → Result E B) {result : B}
    → (first >>= rest) ≡ ok result
    → (value : A) × (first ≡ ok value) × (rest value ≡ ok result)
>>=-eq-ok (err failure) rest e = cc
>>=-eq-ok (ok value) rest e = (value, refl, e)

pub Result-cases :
    {E A : Type 0} (r : Result E A) → ((a : A) × (r ≡ ok a)) ⊎ ((e : E) × (r ≡ err e))
Result-cases (ok a) = inl (a, refl)
Result-cases (err e) = inr (e, refl)

pub ok_injective : {E A : Type 0} {a b : A} → ◌≡◌ {A = Result E A} (ok a) (ok b) → a ≡ b
ok_injective e = cc

pub ok_or-eq-some : {E A : Type 0} (o : Option A) (e : E) {a : A} → ok_or o e ≡ ok a → o ≡ some a
ok_or-eq-some none e h = cc
ok_or-eq-some (some b) e h = cc

pub fail_if_passed : {E : Type 0} (b : Bool) (e : E) {u : Unit {0}} → fail_if b e ≡ ok u → b ≡ false
fail_if_passed true e h = cc
fail_if_passed false e h = refl
