-- ===== src/Lmsr/Table/Binding.antt =====
-- Two proofs at one index, against one root.
use deadcat.Prelude.{
  ℕ, zero, suc, ◌+◌, ◌*◌, ◌/◌, ◌%◌, ◌^◌, ◌<◌, ◌≤◌, ◌≡◌, refl, ap, sym, ◌∙◌, List, [], ◌∷◌, ◌++◌,
  length, Bytes, arith, if◌then◌else◌, ok, ◌==◌, Bool-cases, inl, inr, ◌⊎◌, ◌≢◌, bytes_eq,
  bytes_eq→eq, bytes_eq_refl, All, u64_mod, subst,
}
use mathlib.Core.List.{tail}
use mathlib.Core.Path.{ap₂}
use native.Mathlib.Nat.{mod-lt, mod-eq_of_lt, mul-add-mod_self_right, pow-suc, div-add-mod', mod-le}
use deadcat.Lmsr.Table.{
  lmsr_table_node_hash, lmsr_table_leaf_hash, climb, verify_lmsr_table_proof, be_bytes, leaf_domain,
}

-- Two messages with one digest.
abbrev pub Collision : (Bytes → Bytes) → Type 0
Collision sha256 = (x : Bytes) × (y : Bytes) × (x ≢ y) × (sha256 x ≡ sha256 y)

pub append_injective :
    (xs xs' : Bytes) {ys ys' : Bytes}
    → length xs ≡ length xs'
    → xs ++ ys ≡ xs' ++ ys'
    → (xs ≡ xs') × (ys ≡ ys')
append_injective [] [] h e = (refl, e)
append_injective [] (x' ∷ xs') h e = absurd (omega arith)
append_injective (x ∷ xs) [] h e = absurd (omega arith)
append_injective (x ∷ xs) (x' ∷ xs') {ys} {ys'} h e =
    let (p, q) = cons_parts e in let (r, s) = append_injective xs xs' (omega arith) q in (cc, s)
  where
    cons_parts :
        (◌≡◌ {A = Bytes} (x ∷ (xs ++ ys)) (x' ∷ (xs' ++ ys'))) → (x ≡ x') × (xs ++ ys ≡ xs' ++ ys')
    cons_parts d = (cc, cc)

pub length-be_bytes : (n v : ℕ) → length (be_bytes n v) ≡ n
unfolding be_bytes
length-be_bytes zero v = refl
length-be_bytes (suc n) v = ap suc (length-be_bytes n v)

mul_mono : (x y p : ℕ) → x ≤ y → x * p ≤ y * p
mul_mono x y p h = grind arith

mod_split : (a p : ℕ) → 0 < p → a % (256 * p) ≡ a / p % 256 * p + a % p
mod_split a p h =
    let low = a / p % 256 * p + a % p in
    let below : low < 256 * p =
      omega (arith, mul_mono (a / p % 256) 255 p (omega arith), mod-lt a h) in
    let halves : a ≡ a / p * p + a % p = sym (div-add-mod' a p) in
    let digits : a / p ≡ 256 * (a / p / 256) + a / p % 256 = omega arith in
    let whole : a ≡ a / p / 256 * (256 * p) + low =
      omega (arith, halves, ap (λ (t : ℕ). t * p) digits) in
    ap (λ (t : ℕ). t % (256 * p)) whole
    ∙ mul-add-mod_self_right (a / p / 256) (256 * p) low
    ∙ mod-eq_of_lt below

pow_256 : (n : ℕ) → (256 ^ suc n ≡ 256 * 256 ^ n) × (0 < 256 ^ n)
pow_256 zero = (refl, omega arith)
pow_256 (suc n) = (omega (arith, pow-suc 256 (suc n)), omega (arith, pow-suc 256 n, pow_256 n))

-- The bytes determine the number up to the width.
mod-be_bytes : (n a b : ℕ) → be_bytes n a ≡ be_bytes n b → a % 256 ^ n ≡ b % 256 ^ n
unfolding be_bytes
mod-be_bytes zero a b e = omega arith
mod-be_bytes (suc n) a b e =
    let (power, above) = pow_256 n in
    let digit : a / 256 ^ n % 256 ≡ b / 256 ^ n % 256 = cc in
    let low = mod-be_bytes n a b (ap tail e) in
    rw (power, mod_split a (256 ^ n) above, mod_split b (256 ^ n) above)
      (ap₂ ◌+◌ (ap (λ (t : ℕ). t * 256 ^ n) digit) low)

-- A `u64` is determined by its eight bytes.
pub be_bytes_injective : (a b : ℕ) → a < u64_mod → b < u64_mod → be_bytes 8 a ≡ be_bytes 8 b → a ≡ b
be_bytes_injective a b ha hb e =
    let low : a % u64_mod ≡ b % u64_mod = mod-be_bytes 8 a b e in omega arith

module _ (sha256 : Bytes → Bytes) where
  same_message : (x y : Bytes) → sha256 x ≡ sha256 y → (x ≡ y) ⊎ Collision sha256
  same_message x y e = elim (Bool-cases (bytes_eq x y)) [
    | inl same ↦ inl (bytes_eq→eq x y same)
    | inr other ↦ inr (x, y, (λ q. ground (arith, bytes_eq_refl x, ap (bytes_eq x) q)), e)
  ]

  node_injective :
      (l r l' r' : Bytes)
      → length l ≡ length l'
      → lmsr_table_node_hash sha256 l r ≡ lmsr_table_node_hash sha256 l' r'
      → ((l ≡ l') × (r ≡ r')) ⊎ Collision sha256
  unfolding lmsr_table_node_hash
  node_injective l r l' r' h e = elim (same_message (1 ∷ (l ++ r)) (1 ∷ (l' ++ r')) e) [
    | inl same ↦ inl (append_injective l l' h (ap tail same))
    | inr c ↦ inr c
  ]

  leaf_injective :
      (index v v' : ℕ)
      → v < u64_mod
      → v' < u64_mod
      → lmsr_table_leaf_hash sha256 index v ≡ lmsr_table_leaf_hash sha256 index v'
      → (v ≡ v') ⊎ Collision sha256
  unfolding lmsr_table_leaf_hash
  leaf_injective index v v' h h' e = elim (same_message _ _ e) [
    | inl same ↦
        let (_, after_domain) = append_injective (0 ∷ leaf_domain) (0 ∷ leaf_domain) refl same in
        let (_, after_index) =
          append_injective (be_bytes 8 index) (be_bytes 8 index) refl after_domain in
        inl (be_bytes_injective v v' h h' after_index)
    | inr c ↦ inr c
  ]

  module _ (digest_length : (m : Bytes) → length (sha256 m) ≡ 32) where
    length-node : (l r : Bytes) → length (lmsr_table_node_hash sha256 l r) ≡ 32
    unfolding lmsr_table_node_hash
    length-node l r = digest_length _

    length-leaf : (i v : ℕ) → length (lmsr_table_leaf_hash sha256 i v) ≡ 32
    unfolding lmsr_table_leaf_hash
    length-leaf i v = digest_length _

    -- Two climbs over one path that meet start at one digest, or show a collision.
    climb_injective :
        (path level : ℕ) (n n' : Bytes) (ss ss' : List Bytes)
        → length n ≡ 32
        → length n' ≡ 32
        → All (λ s. length s ≡ 32) ss
        → All (λ s. length s ≡ 32) ss'
        → length ss ≡ length ss'
        → climb sha256 path level n ss ≡ climb sha256 path level n' ss'
        → (n ≡ n') ⊎ Collision sha256
    unfolding climb
    climb_injective path level n n' [] [] hn hn' hs hs' h e = inl e
    climb_injective path level n n' [] (s' ∷ ss') hn hn' hs hs' h e = absurd (omega arith)
    climb_injective path level n n' (s ∷ ss) [] hn hn' hs hs' h e = absurd (omega arith)
    climb_injective path level n n' (s ∷ ss) (s' ∷ ss') hn hn' hs hs' h e =
        elim (Bool-cases (path / 2 ^ (level % 64) % 2 == 1)) [
          | inl right ↦
              (elim (climb_injective path (suc level) (lmsr_table_node_hash sha256 s n)
                (lmsr_table_node_hash sha256 s' n') ss ss' (length-node s n) (length-node s' n')
                hs.1 hs'.1 (omega arith) (ground arith)) [
                  | inl same ↦ (elim (node_injective s n s' n' (hs.0 ∙ sym hs'.0) same) [
                    | inl (_, q) ↦ inl q
                    | inr c ↦ inr c
                  ])
                  | inr c ↦ inr c
                ])
          | inr left ↦
              (elim (climb_injective path (suc level) (lmsr_table_node_hash sha256 n s)
                (lmsr_table_node_hash sha256 n' s') ss ss' (length-node n s) (length-node n' s')
                hs.1 hs'.1 (omega arith) (ground arith)) [
                  | inl same ↦ (elim (node_injective n s n' s' (hn ∙ sym hn') same) [
                    | inl (q, _) ↦ inl q
                    | inr c ↦ inr c
                  ])
                  | inr c ↦ inr c
                ])
        ]

    verified :
        (root : Bytes) (depth index v path : ℕ) (ss : List Bytes)
        → depth ≤ 63
        → verify_lmsr_table_proof sha256 root depth index v path ss ≡ ok tt
        → (length ss ≡ depth)
          × (path ≡ index)
          × (climb sha256 path 0 (lmsr_table_leaf_hash sha256 index v) ss ≡ root)
    unfolding verify_lmsr_table_proof
    verified root depth index v path ss h e =
        let narrow : depth % 64 ≡ depth = omega arith in
        let mask : (if depth == 64 then 64 else depth % 64) ≡ depth = ground arith in
        ground (
          arith,
          mask,
          bytes_eq→eq (climb sha256 path 0 (lmsr_table_leaf_hash sha256 index v) ss) root,
          mod-le path (2 ^ depth),
        )

    -- Two proofs of values at one index of a table of depth 63 or less, accepted against one root,
    -- prove one value, or two messages with the same digest are at hand.
    pub verify_lmsr_table_proof_binding :
        (root : Bytes) (depth index v v' path path' : ℕ) (ss ss' : List Bytes)
        → depth ≤ 63
        → v < u64_mod
        → v' < u64_mod
        → All (λ s. length s ≡ 32) ss
        → All (λ s. length s ≡ 32) ss'
        → verify_lmsr_table_proof sha256 root depth index v path ss ≡ ok tt
        → verify_lmsr_table_proof sha256 root depth index v' path' ss' ≡ ok tt
        → (v ≡ v') ⊎ Collision sha256
    verify_lmsr_table_proof_binding root depth index v v' path path' ss ss' h hv hv' hs hs' e e' =
        let (n, p, top) = verified root depth index v path ss h e in
        let (n', p', top') = verified root depth index v' path' ss' h e' in
        let top'' =
          subst (λ q. climb sha256 q 0 (lmsr_table_leaf_hash sha256 index v') ss' ≡ root)
            (p' ∙ sym p) top' in
        elim (climb_injective path 0 (lmsr_table_leaf_hash sha256 index v)
          (lmsr_table_leaf_hash sha256 index v') ss ss' (length-leaf index v) (length-leaf index v')
          hs hs' (n ∙ sym n') (top ∙ sym top'')) [
            | inl same ↦ leaf_injective index v v' hv hv' same
            | inr c ↦ inr c
          ]
