-- ===== src/Merkle/Tree.antt =====
-- HashFromByteSlices of crypto/merkle/tree.go and the hashes of crypto/merkle/hash.go.
use ostracon.Prelude.{
  ℕ, zero, suc, ◌-◌, ◌≤◌, ◌<◌, ◌≡◌, refl, ap₂, List, [], ◌∷◌, ◌++◌, arith, Bytes, length, take,
  drop, length-take, length-drop,
}
use ostracon.Merkle.Split.{split_point, split_point-IsSplit}

-- What SHA-256 is relied on for: digests of a fixed length.
pub record IsDigest (sum : Bytes → Bytes) (size : ℕ) : Type 0 where
  pub fixed : (b : Bytes) → length (sum b) ≡ size

module _ (sum : Bytes → Bytes) where
  unfoldable pub empty_hash : Bytes
  empty_hash = sum []

  unfoldable pub leaf_hash : Bytes → Bytes
  leaf_hash leaf = sum (0 ∷ leaf)

  unfoldable pub inner_hash : Bytes → Bytes → Bytes
  inner_hash left right = sum (1 ∷ (left ++ right))

  -- The recursion of HashFromByteSlices, whose depth the fuel bounds.
  hash_go : ℕ → List Bytes → Bytes
  hash_go zero items = empty_hash
  hash_go (suc f) [] = empty_hash
  hash_go (suc f) (x ∷ []) = leaf_hash x
  hash_go (suc f) (x ∷ y ∷ r) =
      let items = x ∷ y ∷ r in
      let k = split_point (length items) in
      inner_hash (hash_go f (take k items)) (hash_go f (drop k items))

  unfoldable pub hash_from_byte_slices : List Bytes → Bytes
  unfolding hash_go
  hash_from_byte_slices items = hash_go (length items) items

-- Both parts of a split are shorter than the list, and not empty.
pub split_lengths {ℓ} :
    {A : Type ℓ} (xs : List A)
    → 2 ≤ length xs
    → let k = split_point (length xs) in
      (length (take k xs) ≡ k) × (length (drop k xs) ≡ length xs - k) × (0 < k) × (k < length xs)
split_lengths xs h =
    let (j, s) = split_point-IsSplit (length xs) h in
    let k = split_point (length xs) in
    (
      omega (arith, length-take k xs, s),
      omega (arith, length-drop k xs),
      omega (arith, s),
      omega (arith, s),
    )

module _ (sum : Bytes → Bytes) where
  hash_go_fuel :
      (f g : ℕ) (items : List Bytes)
      → length items ≤ f
      → length items ≤ g
      → hash_go sum f items ≡ hash_go sum g items
  unfolding hash_go
  hash_go_fuel zero zero items p q = refl
  hash_go_fuel zero (suc g) [] p q = refl
  hash_go_fuel zero (suc g) (x ∷ r) p q = absurd (omega arith)
  hash_go_fuel (suc f) zero [] p q = refl
  hash_go_fuel (suc f) zero (x ∷ r) p q = absurd (omega arith)
  hash_go_fuel (suc f) (suc g) [] p q = refl
  hash_go_fuel (suc f) (suc g) (x ∷ []) p q = refl
  hash_go_fuel (suc f) (suc g) (x ∷ y ∷ r) p q =
      let items = x ∷ y ∷ r in
      let k = split_point (length items) in
      let s = split_lengths items (omega arith) in
      ap₂ (inner_hash sum) (hash_go_fuel f g (take k items) (omega (arith, s)) (omega (arith, s)))
        (hash_go_fuel f g (drop k items) (omega (arith, s)) (omega (arith, s)))

  -- The three cases of HashFromByteSlices, the recursive calls whole: enough fuel is given.
  pub hash-one : (x : Bytes) → hash_from_byte_slices sum (x ∷ []) ≡ leaf_hash sum x
  unfolding hash_from_byte_slices
  hash-one x = refl

  pub hash-split :
      (items : List Bytes)
      → 2 ≤ length items
      → let k = split_point (length items) in
        hash_from_byte_slices sum items
        ≡ inner_hash sum
            (hash_from_byte_slices sum (take k items))
            (hash_from_byte_slices sum (drop k items))
  unfolding hash_from_byte_slices
  hash-split [] h = absurd (omega arith)
  hash-split (x ∷ []) h = absurd (omega arith)
  hash-split (x ∷ y ∷ r) h =
      let items = x ∷ y ∷ r in
      let k = split_point (length items) in
      let s = split_lengths items h in
      ap₂ (inner_hash sum)
        (hash_go_fuel (suc (length r)) (length (take k items)) (take k items) (omega (arith, s))
          (omega arith))
        (hash_go_fuel (suc (length r)) (length (drop k items)) (drop k items) (omega (arith, s))
          (omega arith))
