-- ===== src/Merkle/Sound.antt =====
-- What an accepted proof shows: the item stands at its index, or the hash function collides.
use mathlib.Core.Option
use mathlib.Core.List.{reverse}
use native.Mathlib.Decide.{dec_lt}
use ostracon.Prelude.{
  ℕ, ◌+◌, ◌-◌, ◌≤◌, ◌<◌, ◌≡◌, ◌≢◌, refl, sym, ap, ◌∙◌, ◌⊎◌, inl, inr, List, [], ◌∷◌, ◌++◌, Option,
  none, some, arith, Bytes, bytes_eq, bytes_eq_refl, bytes_eq→eq, length, take, drop, get_elem?,
  get_elem?-take, get_elem?-drop, length-append, Bool-cases,
}
use ostracon.Prelude.Int.{ℤ, pos, negsuc}
use ostracon.Merkle.Split.{split_point}
use ostracon.Merkle.Tree.{
  empty_hash, leaf_hash, inner_hash, hash_from_byte_slices, split_lengths, hash-one, hash-split,
  IsDigest,
}
use ostracon.Merkle.Proof.{
  Proof, contents, hash_up, compute_hash_from_aunts, compute_root_hash, verify,
}

-- Two different inputs with one digest.
pub record Collision (sum : Bytes → Bytes) : Type 0 where
  pub first : Bytes
  pub second : Bytes
  pub differ : first ≢ second
  pub agree : sum first ≡ sum second

append_cancel : (a b c d : Bytes) → length a ≡ length c → a ++ b ≡ c ++ d → (a ≡ c) × (b ≡ d)
append_cancel [] b [] d n e = (refl, e)
append_cancel [] b (y ∷ c) d n e = absurd (omega arith)
append_cancel (x ∷ a) b [] d n e = absurd (omega arith)
append_cancel (x ∷ a) b (y ∷ c) d n e = ground (arith, append_cancel a b c d)

module _ (sum : Bytes → Bytes) where
  same_or_collide : (a b : Bytes) → sum a ≡ sum b → (a ≡ b) ⊎ Collision sum
  same_or_collide a b e = elim (Bool-cases (bytes_eq a b)) [
    | inl same ↦ inl (bytes_eq→eq a b same)
    | inr other ↦
        let differ : a ≢ b = λ p. ground (arith, bytes_eq_refl a) in
        inr (record { first = a; second = b; differ = differ; agree = e })
  ]

  leaf_hash-inj : (a b : Bytes) → leaf_hash sum a ≡ leaf_hash sum b → (a ≡ b) ⊎ Collision sum
  unfolding leaf_hash
  leaf_hash-inj a b e = elim (same_or_collide (0 ∷ a) (0 ∷ b) e) [
    | inl same ↦ inl (ground arith)
    | inr c ↦ inr c
  ]

  -- Inner hashes are injective where the left parts, or the right parts, are of one length.
  inner_hash-inj :
      (a b c d : Bytes)
      → (length a ≡ length c) ⊎ (length b ≡ length d)
      → inner_hash sum a b ≡ inner_hash sum c d
      → ((a ≡ c) × (b ≡ d)) ⊎ Collision sum
  unfolding inner_hash
  inner_hash-inj a b c d n e = elim (same_or_collide (1 ∷ (a ++ b)) (1 ∷ (c ++ d)) e) [
    | inl same ↦
        let whole : a ++ b ≡ c ++ d = ground arith in
        let sizes : length a ≡ length c =
          omega (arith, n, ap length whole, length-append a b, length-append c d) in
        inl (append_cancel a b c d sizes whole)
    | inr c ↦ inr c
  ]

  -- What a computed hash says of the last aunt.
  data Ascends (i n : ℕ) (leaf : Option Bytes) (aunt : Bytes) (up : List Bytes) (h : Bytes)
      : Type 0 where
    left :
        (l : Bytes)
        → i < split_point n
        → hash_up sum i (split_point n) leaf up ≡ some l
        → h ≡ inner_hash sum l aunt
        → Ascends i n leaf aunt up h
    right :
        (r : Bytes)
        → split_point n ≤ i
        → hash_up sum (i - split_point n) (n - split_point n) leaf up ≡ some r
        → h ≡ inner_hash sum aunt r
        → Ascends i n leaf aunt up h

  hash_up-nil :
      (i n : ℕ) (leaf : Option Bytes) {h : Bytes}
      → hash_up sum i n leaf [] ≡ some h
      → (n ≡ 1) × (i ≡ 0) × (leaf ≡ some h)
  unfolding hash_up
  hash_up-nil i n leaf e = ground arith

  hash_up-bounds :
      (i n : ℕ) (leaf : Option Bytes) (aunt : Bytes) (up : List Bytes) {h : Bytes}
      → hash_up sum i n leaf (aunt ∷ up) ≡ some h
      → (2 ≤ n) × (i < n)
  unfolding hash_up
  hash_up-bounds i n leaf aunt up e = ground arith

  hash_up-below :
      (i n : ℕ) (leaf : Option Bytes) (aunt : Bytes) (up : List Bytes) {h : Bytes}
      → i < split_point n
      → hash_up sum i n leaf (aunt ∷ up) ≡ some h
      → Option.map (λ l. inner_hash sum l aunt) (hash_up sum i (split_point n) leaf up) ≡ some h
  unfolding hash_up
  hash_up-below i n leaf aunt up below e = ground arith

  hash_up-above :
      (i n : ℕ) (leaf : Option Bytes) (aunt : Bytes) (up : List Bytes) {h : Bytes}
      → split_point n ≤ i
      → hash_up sum i n leaf (aunt ∷ up) ≡ some h
      → Option.map
          (λ r. inner_hash sum aunt r)
          (hash_up sum (i - split_point n) (n - split_point n) leaf up)
        ≡ some h
  unfolding hash_up
  hash_up-above i n leaf aunt up above e = ground arith

  map-some :
      (f : Bytes → Bytes) (o : Option Bytes) {h : Bytes}
      → Option.map f o ≡ some h
      → (x : Bytes) × (o ≡ some x) × (h ≡ f x)
  map-some f none e = ground arith
  map-some f (some x) e = (x, refl, ground arith)

  hash_up-Ascends :
      (i n : ℕ) (leaf : Option Bytes) (aunt : Bytes) (up : List Bytes) {h : Bytes}
      → hash_up sum i n leaf (aunt ∷ up) ≡ some h
      → Ascends i n leaf aunt up h
  hash_up-Ascends i n leaf aunt up e = elim (dec_lt i (split_point n)) [
    | yes below ↦
        let (l, found, eq) = map-some _ _ (hash_up-below i n leaf aunt up below e) in
        left l below found eq
    | no above ↦
        let (r, found, eq) = map-some _ _ (hash_up-above i n leaf aunt up (omega arith) e) in
        right r (omega arith) found eq
  ]

  verify-none :
      (sp : Proof) (root leaf : Bytes)
      → verify sum sp root leaf ≡ none
      → (contents sp.leaf ≡ leaf_hash sum leaf) × (contents (compute_root_hash sum sp) ≡ root)
  unfolding verify
  verify-none sp root leaf e = ground (
    arith,
    bytes_eq→eq (contents sp.leaf) (leaf_hash sum leaf),
    bytes_eq→eq (contents (compute_root_hash sum sp)) root,
  )

  contents-some : (o : Option Bytes) (b : Bytes) → 0 < length b → contents o ≡ b → o ≡ some b
  contents-some none b h e = absurd (omega (arith, ap length e))
  contents-some (some a) b h e = ap some e

  compute-hash_up :
      (index total : ℤ) (n : ℕ) (leaf : Option Bytes) (aunts : List Bytes) {h : Bytes}
      → total ≡ pos n
      → compute_hash_from_aunts sum index total leaf aunts ≡ some h
      → (i : ℕ) × (index ≡ pos i) × (hash_up sum i n leaf (reverse aunts) ≡ some h)
  unfolding compute_hash_from_aunts
  compute-hash_up (pos i) (pos m) n leaf aunts t e = (i, refl, ground arith)
  compute-hash_up (pos i) (negsuc m) n leaf aunts t e = ground arith
  compute-hash_up (negsuc i) total n leaf aunts t e = ground arith

  module _ {size : ℕ} (digest : IsDigest sum size) where
    length-inner_hash : (a b : Bytes) → length (inner_hash sum a b) ≡ size
    unfolding inner_hash
    length-inner_hash a b = digest.fixed (1 ∷ (a ++ b))

    length-leaf_hash : (a : Bytes) → length (leaf_hash sum a) ≡ size
    unfolding leaf_hash
    length-leaf_hash a = digest.fixed (0 ∷ a)

    length-root : (items : List Bytes) → length (hash_from_byte_slices sum items) ≡ size
    length-root [] = unfold hash_from_byte_slices empty_hash in digest.fixed []
    length-root (x ∷ []) = rw hash-one (length-leaf_hash x)
    length-root (x ∷ y ∷ r) = rw (hash-split sum (x ∷ y ∷ r) (omega arith)) (length-inner_hash _ _)

    length-hash_up :
        (up : List Bytes) (i n : ℕ) (leaf : Bytes) {h : Bytes}
        → hash_up sum i n (some (leaf_hash sum leaf)) up ≡ some h
        → length h ≡ size
    length-hash_up [] i n leaf e =
        ground (arith, length-leaf_hash leaf, hash_up-nil i n (some (leaf_hash sum leaf)) e)
    length-hash_up (aunt ∷ up) i n leaf e =
        elim (hash_up-Ascends i n (some (leaf_hash sum leaf)) aunt up e) [
          | left l _ _ eq ↦ rw eq (length-inner_hash l aunt)
          | right r _ _ eq ↦ rw eq (length-inner_hash aunt r)
        ]

    single :
        (i : ℕ) (items : List Bytes) (leaf : Bytes)
        → length items ≡ 1
        → i ≡ 0
        → leaf_hash sum leaf ≡ hash_from_byte_slices sum items
        → (get_elem? items i ≡ some leaf) ⊎ Collision sum
    single i [] leaf n z e = absurd (omega arith)
    single i (x ∷ []) leaf n z e = elim (leaf_hash-inj leaf x (e ∙ hash-one sum x)) [
      | inl same ↦ inl (rw (z, same))
      | inr c ↦ inr c
    ]
    single i (x ∷ y ∷ r) leaf n z e = absurd (omega arith)

    hash_up_sound :
        (up : List Bytes) (i : ℕ) (items : List Bytes) (leaf : Bytes)
        → hash_up sum i (length items) (some (leaf_hash sum leaf)) up
          ≡ some (hash_from_byte_slices sum items)
        → (get_elem? items i ≡ some leaf) ⊎ Collision sum
    hash_up_sound [] i items leaf e =
        let b = hash_up-nil i (length items) (some (leaf_hash sum leaf)) e in
        single i items leaf b.0 b.1 (cc b.2)
    hash_up_sound (aunt ∷ up) i items leaf e =
        let n = length items in
        let k = split_point n in
        let b = hash_up-bounds i n (some (leaf_hash sum leaf)) aunt up e in
        let s = split_lengths items b.0 in
        elim (hash_up-Ascends i n (some (leaf_hash sum leaf)) aunt up e) [
          | left l below found eq ↦
              let known = length-hash_up up i k leaf found ∙ sym (length-root (take k items)) in
              elim (inner_hash-inj l aunt _ _ (inl known) (sym eq ∙ hash-split sum items b.0)) [
                | inl (p, q) ↦
                    elim (hash_up_sound up i (take k items) leaf (rw s.0 (found ∙ ap some p))) [
                      | inl at ↦ inl (sym (get_elem?-take k items i below) ∙ at)
                      | inr c ↦ inr c
                    ]
                | inr c ↦ inr c
              ]
          | right r above found eq ↦
              let known =
                length-hash_up up (i - k) (n - k) leaf found ∙ sym (length-root (drop k items)) in
              let same : i ≡ k + (i - k) = omega arith in
              elim (inner_hash-inj aunt r _ _ (inr known) (sym eq ∙ hash-split sum items b.0)) [
                | inl (p, q) ↦
                    elim (hash_up_sound up (i - k) (drop k items) leaf
                      (rw s.1 (found ∙ ap some q))) [
                        | inl at ↦
                            inl (
                              ap (get_elem? items) same ∙ sym (get_elem?-drop k items (i - k)) ∙ at)
                        | inr c ↦ inr c
                      ]
                | inr c ↦ inr c
              ]
        ]

    -- With digests of a fixed length that is not zero: for the root of a list of items, a proof
    -- whose Total is the number of items and that Verify accepts shows that the leaf stands in the
    -- list at the proof's Index, or it exhibits two different inputs with one digest.
    pub verify_sound :
        (sp : Proof) (items : List Bytes) (leaf : Bytes)
        → 0 < size
        → sp.total ≡ pos (length items)
        → verify sum sp (hash_from_byte_slices sum items) leaf ≡ none
        → ((i : ℕ) × (sp.index ≡ pos i) × (get_elem? items i ≡ some leaf)) ⊎ Collision sum
    unfolding compute_root_hash
    verify_sound sp items leaf big total ok =
        let root = hash_from_byte_slices sum items in
        let checks = verify-none sp root leaf ok in
        let digest_leaf = contents-some sp.leaf _ (rw length-leaf_hash big) checks.0 in
        let computed =
          contents-some (compute_root_hash sum sp) root (rw length-root big) checks.1 in
        let (i, at, up) =
          compute-hash_up sp.index sp.total (length items) sp.leaf sp.aunts total computed in
        elim (hash_up_sound (reverse sp.aunts) i items leaf (rw digest_leaf at up)) [
          | inl found ↦ inl (i, at, found)
          | inr c ↦ inr c
        ]
