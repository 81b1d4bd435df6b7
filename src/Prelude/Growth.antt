-- ===== src/Prelude/Growth.antt =====
-- Lists that grow at the end.
use Prim.Native.Nat.{ℕ, zero, suc}
use mathlib.Core.Path.{◌≡◌, refl, sym, ap, ◌∙◌, subst}
use mathlib.Core.Option.{some}
use mathlib.Core.List.{List, [], ◌∷◌, ◌++◌, append_assoc, append-nil}
use deadcat.Prelude.Lists.{get_elem?, length}

module _ {A : Type 0} where
  -- The list `ys` is `xs` and more behind it.
  abbrev pub Extends : List A → List A → Type 0
  Extends xs ys = (zs : List A) × (ys ≡ xs ++ zs)

  pub Extends-refl : (xs : List A) → Extends xs xs
  Extends-refl xs = ([], sym (append-nil xs))

  pub Extends-trans : (xs ys zs : List A) → Extends xs ys → Extends ys zs → Extends xs zs
  Extends-trans xs ys zs (us, e) (vs, f) =
      (us ++ vs, f ∙ ap (λ k. k ++ vs) e ∙ append_assoc xs us vs)

  pub get_elem?-append_left :
      (xs ys : List A) (k : ℕ) {x : A} → get_elem? xs k ≡ some x → get_elem? (xs ++ ys) k ≡ some x
  get_elem?-append_left [] ys k h = cc
  get_elem?-append_left (a ∷ xs) ys zero h = h
  get_elem?-append_left (a ∷ xs) ys (suc k) h = get_elem?-append_left xs ys k h

  pub get_elem?-Extends :
      (xs ys : List A) (k : ℕ) {x : A}
      → Extends xs ys
      → get_elem? xs k ≡ some x
      → get_elem? ys k ≡ some x
  get_elem?-Extends xs ys k {x = x} (zs, e) h =
      subst (λ l. get_elem? l k ≡ some x) (sym e) (get_elem?-append_left xs zs k h)

  pub get_elem?-length : (xs : List A) (x : A) → get_elem? (xs ++ x ∷ []) (length xs) ≡ some x
  get_elem?-length [] x = refl
  get_elem?-length (a ∷ xs) x = get_elem?-length xs x
