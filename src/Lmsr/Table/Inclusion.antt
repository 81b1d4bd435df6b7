-- ===== src/Lmsr/Table/Inclusion.antt =====
-- A manifest's own proofs, against its own root.
use deadcat.Prelude.{
  ℕ, zero, suc, ◌+◌, ◌-◌, ◌*◌, ◌/◌, ◌%◌, ◌^◌, ◌<◌, ◌≤◌, ◌≡◌, refl, ap, ◌∙◌, true, false, some, List,
  [], ◌∷◌, length, get_elem?, Bytes, arith, if◌then◌else◌, ok, ==_iff, ◌==◌, Bool-cases, inl, inr,
  bytes_eq_refl,
}
use native.Mathlib.Nat.{mod-eq_of_lt}
use deadcat.Lmsr.Table.{
  lmsr_table_node_hash, next_level, leaves_from, is_power_of_two_within, lmsr_table_leaf_hash,
  set_bit, proof_loop, climb, LmsrTableManifest, LmsrTableProof, proof_at, manifest_root,
  lmsr_table_root, verify_lmsr_table_proof,
}
use deadcat.Lmsr.Table.Levels.{
  two_pow, two_pow_pos, div-two_pow, set_bit-of_lt, is_power_of_two-pow, get_elem?-of_lt,
  get_elem?-lt, double, double_lem, length-leaves_from, get_elem?-leaves_from, length-next_level,
  get_elem?-next_level, rounds, root_of_levels-eq-rounds,
}

module _ (sha256 : Bytes → Bytes) where
  -- What the loop of `proof_at` gives over a level of `2 ^ k` digests: the bits of the position,
  -- and `k` siblings along which `climb` goes from the digest at the position to the root.
  abbrev Climbs :
      (k d pos bits path : ℕ) (level : List Bytes) (node : Bytes) (p : ℕ × List Bytes) → Type 0
  Climbs k d pos bits path level node p =
      (proof_loop sha256 k d pos bits level ≡ ok p)
      × (p.0 ≡ bits + pos * 2 ^ d)
      × (length p.1 ≡ k)
      × (get_elem? (rounds sha256 k level) 0 ≡ some (climb sha256 path d node p.1))

  -- The parent of a digest and its sibling stands at half the position, one level up.
  climb_step :
      (pos : ℕ) (level : List Bytes) (node sibling parent : Bytes)
      → get_elem? level pos ≡ some node
      → get_elem? level (if pos % 2 == 1 then pos - 1 else pos + 1) ≡ some sibling
      → (if pos % 2 == 1
          then lmsr_table_node_hash sha256 sibling node
          else lmsr_table_node_hash sha256 node sibling)
        ≡ parent
      → get_elem? (next_level sha256 level) (pos / 2) ≡ some parent
  climb_step pos level node sibling parent hn hs e = elim (Bool-cases (pos % 2 == 1)) [
    | inl odd ↦
        let p : suc (double (pos / 2)) ≡ pos = ground (arith, double_lem (pos / 2)) in
        let q : double (pos / 2) ≡ pos - 1 = omega (arith, p) in
        let s : get_elem? level (double (pos / 2)) ≡ some sibling = rw q (ground arith) in
        let n : get_elem? level (suc (double (pos / 2))) ≡ some node = rw p hn in
        get_elem?-next_level sha256 (pos / 2) level s n ∙ ap some (ground arith)
    | inr even ↦
        let p : double (pos / 2) ≡ pos = ground (arith, double_lem (pos / 2)) in
        let q : suc (double (pos / 2)) ≡ pos + 1 = omega (arith, p) in
        let s : get_elem? level (suc (double (pos / 2))) ≡ some sibling = rw q (ground arith) in
        let n : get_elem? level (double (pos / 2)) ≡ some node = rw p hn in
        get_elem?-next_level sha256 (pos / 2) level n s ∙ ap some (ground arith)
  ]

  sibling_lt : (pos k : ℕ) → pos < 2 * k → (if pos % 2 == 1 then pos - 1 else pos + 1) < 2 * k
  sibling_lt pos k h = ground arith

  -- The bits collected so far, with the bit of this level.
  bits_step :
      (pos bits d : ℕ)
      → bits < 2 ^ d
      → let bits' = if pos % 2 == 1 then set_bit bits d else bits in
        (bits' < 2 ^ suc d) × (bits' + pos / 2 * 2 ^ suc d ≡ bits + pos * 2 ^ d)
  bits_step pos bits d h =
      let split : pos ≡ 2 * (pos / 2) + pos % 2 = omega arith in
      let scaled : pos * 2 ^ d ≡ 2 * (pos / 2) * 2 ^ d + pos % 2 * 2 ^ d =
        ap (λ (t : ℕ). t * 2 ^ d) split ∙ omega arith in
      let up : pos / 2 * 2 ^ suc d ≡ pos / 2 * (2 * 2 ^ d) =
        ap (λ (t : ℕ). pos / 2 * t) (two_pow d) in
      elim (Bool-cases (pos % 2 == 1)) [
        | inl odd ↦
            let one : pos % 2 ≡ 1 = (==_iff _ _).0 odd in
            rw (odd, set_bit-of_lt bits d h)
              (
                omega (arith, two_pow d),
                omega (arith, two_pow d, scaled, ap (λ (t : ℕ). t * 2 ^ d) one),
              )
        | inr even ↦
            let nil : pos % 2 ≡ 0 = ground arith in
            rw even (
              omega (arith, two_pow d),
              omega (arith, two_pow d, scaled, ap (λ (t : ℕ). t * 2 ^ d) nil),
            )
      ]

  shifted : (path d pos : ℕ) → d ≤ 63 → path / 2 ^ d ≡ pos → path / 2 ^ (d % 64) ≡ pos
  shifted path d pos h e = let same : d % 64 ≡ d = omega arith in rw same e

  climbs :
      (k d pos bits path : ℕ) (level : List Bytes) (node : Bytes)
      → length level ≡ 2 ^ k
      → get_elem? level pos ≡ some node
      → d + k ≤ 63
      → path / 2 ^ d ≡ pos
      → bits < 2 ^ d
      → (p : ℕ × List Bytes) × Climbs k d pos bits path level node p
  unfolding proof_loop climb rounds
  climbs zero d pos bits path level node len hn room at below =
      let z : pos ≡ 0 = omega (arith, get_elem?-lt level pos hn) in
      ((bits, []), (refl, rw z (omega arith), refl, rw z at hn))
  climbs (suc k) d pos bits path level node len hn room at below =
      let inside = get_elem?-lt level pos hn in
      let (sibling, hs) =
        get_elem?-of_lt level (if pos % 2 == 1 then pos - 1 else pos + 1)
          (rw (len, two_pow k) (sibling_lt pos (2 ^ k) (omega (arith, two_pow k)))) in
      let parent =
        if pos % 2 == 1
        then lmsr_table_node_hash sha256 sibling node
        else lmsr_table_node_hash sha256 node sibling in
      let bits' = if pos % 2 == 1 then set_bit bits d else bits in
      let (b, e) = bits_step pos bits d below in
      let (p, (run, bs, ln, top)) =
        climbs k (suc d) (pos / 2) bits' path (next_level sha256 level) parent
          (length-next_level sha256 (2 ^ k) level (omega (arith, two_pow k)))
          (climb_step pos level node sibling parent hn hs refl) (omega arith)
          (div-two_pow path d ∙ ap (λ (t : ℕ). t / 2) at) b in
      (
        (p.0, sibling ∷ p.1),
        (rw (hs, run) refl, bs ∙ e, ap suc ln, rw (shifted path d pos (omega arith) at) top),
      )

  first_leaf :
      (m : LmsrTableManifest) (index value : ℕ)
      → get_elem? m.values index ≡ some value
      → get_elem? (leaves_from sha256 0 m.values) index
        ≡ some (lmsr_table_leaf_hash sha256 index value)
  first_leaf m index value at =
      let zero_add : 0 + index ≡ index = omega arith in
      rw zero_add at (get_elem?-leaves_from sha256 0 index m.values at)

  -- The root that the levels end in.
  manifest_root-eq-ok :
      (m : LmsrTableManifest) {root : Bytes}
      → m.table_depth ≤ 63
      → length m.values ≡ 2 ^ m.table_depth
      → get_elem? (rounds sha256 m.table_depth (leaves_from sha256 0 m.values)) 0 ≡ some root
      → manifest_root sha256 m ≡ ok root
  unfolding manifest_root lmsr_table_root
  manifest_root-eq-ok m {root} depth len top =
      let leaves = leaves_from sha256 0 m.values in
      let same =
        root_of_levels-eq-rounds sha256 m.table_depth 64 leaves (omega arith)
          (length-leaves_from sha256 0 m.values ∙ len) in
      let pow : is_power_of_two_within 64 (length m.values) ≡ true =
        rw len (is_power_of_two-pow m.table_depth 64 (omega arith)) in
      let some_values : (length m.values == 0) ≡ false =
        ground (arith, two_pow_pos m.table_depth) in
      rw (some_values, pow, same, top)

  proof_at-eq-ok :
      (m : LmsrTableManifest) (index value : ℕ) {p : ℕ × List Bytes}
      → get_elem? m.values index ≡ some value
      → proof_loop sha256 m.table_depth 0 index 0 (leaves_from sha256 0 m.values) ≡ ok p
      → proof_at sha256 m index
        ≡ ok (record { index = index; value = value; path_bits = p.0; siblings = p.1 })
  unfolding proof_at
  proof_at-eq-ok m index value at run = rw (at, run)

  -- A list of `depth` siblings verifies against the root that it leads to.
  verify-climb :
      (depth index value : ℕ) (siblings : List Bytes)
      → depth ≤ 63
      → index < 2 ^ depth
      → length siblings ≡ depth
      → verify_lmsr_table_proof sha256
          (climb sha256 index 0 (lmsr_table_leaf_hash sha256 index value) siblings)
          depth
          index
          value
          index
          siblings
        ≡ ok tt
  unfolding verify_lmsr_table_proof
  verify-climb depth index value siblings h inside len =
      let wide : depth % 128 ≡ depth = omega arith in
      let narrow : depth % 64 ≡ depth = omega arith in
      let mask : (depth == 64) ≡ false = ground arith in
      let low : index % 2 ^ depth ≡ index = mod-eq_of_lt inside in
      rw (mask, wide, narrow, low)
        (ground (
          arith,
          bytes_eq_refl (climb sha256 index 0 (lmsr_table_leaf_hash sha256 index value) siblings),
        ))

  -- Every leaf of a manifest of `2 ^ depth` values has a proof: it names the leaf's value, its path
  -- bits are the leaf's index, and it verifies against the root of the manifest.
  pub proof_at_verifies :
      (m : LmsrTableManifest) (index value : ℕ)
      → m.table_depth ≤ 63
      → length m.values ≡ 2 ^ m.table_depth
      → get_elem? m.values index ≡ some value
      → (p : LmsrTableProof) × (root : Bytes) × (proof_at sha256 m index ≡ ok p)
        × (manifest_root sha256 m ≡ ok root)
        × (p.index ≡ index)
        × (p.value ≡ value)
        × (p.path_bits ≡ index)
        × (verify_lmsr_table_proof sha256 root m.table_depth p.index p.value p.path_bits p.siblings
            ≡ ok tt)
  proof_at_verifies m index value depth len at =
      let inside : index < 2 ^ m.table_depth = omega (arith, get_elem?-lt m.values index at, len) in
      let leaf = lmsr_table_leaf_hash sha256 index value in
      let (p, (run, bits, count, top)) =
        climbs m.table_depth 0 index 0 index (leaves_from sha256 0 m.values) leaf
          (length-leaves_from sha256 0 m.values ∙ len) (first_leaf m index value at) (omega arith)
          (omega arith) (omega arith) in
      let same : p.0 ≡ index = omega (arith, bits) in
      (
        record { index = index; value = value; path_bits = p.0; siblings = p.1 },
        climb sha256 index 0 leaf p.1,
        proof_at-eq-ok m index value at run,
        manifest_root-eq-ok m depth len top,
        refl,
        refl,
        same,
        rw same (verify-climb m.table_depth index value p.1 depth inside count),
      )
