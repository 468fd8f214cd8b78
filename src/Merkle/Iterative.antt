-- ===== src/Merkle/Iterative.antt =====
-- HashFromByteSlicesIterative of crypto/merkle/tree.go, and its agreement with the recursion.
-- A pass writes at positions that it has read already, so it is a function of the level's nodes.
use native.Mathlib.Decide.{dec_lt}
use ostracon.Prelude.{
  take-nil, drop-nil, ℕ, zero, suc, ◌+◌, ◌*◌, ◌/◌, ◌≤◌, ◌≡◌, refl, ap, sym, ◌∙◌, List, [], ◌∷◌, map,
  arith, Bytes, length, take, drop, length-map,
}
use ostracon.Merkle.Split.{split_point, split_point_half}
use ostracon.Merkle.Tree.{
  empty_hash, leaf_hash, inner_hash, hash_from_byte_slices, split_lengths, hash-one, hash-split,
}

module _ (sum : Bytes → Bytes) where
  -- One pass of the inner loop: neighbours are joined, and an odd last node moves up.
  unfoldable pub merge_pass : List Bytes → List Bytes
  merge_pass [] = []
  merge_pass (x ∷ []) = x ∷ []
  merge_pass (x ∷ y ∷ r) = inner_hash sum x y ∷ merge_pass r

  -- The outer loop, with the fuel bounding the number of passes.
  unfoldable pub merge_levels : ℕ → List Bytes → Bytes
  merge_levels f [] = empty_hash sum
  merge_levels f (x ∷ []) = x
  merge_levels zero (x ∷ y ∷ r) = empty_hash sum
  merge_levels (suc f) (x ∷ y ∷ r) = merge_levels f (merge_pass (x ∷ y ∷ r))

  unfoldable pub hash_from_byte_slices_iterative : List Bytes → Bytes
  unfolding merge_levels merge_pass
  hash_from_byte_slices_iterative input = merge_levels (length input) (map (leaf_hash sum) input)

  -- The root of a list of nodes: the tree that the recursion splits.
  data Root : List Bytes → Bytes → Type 0 where
    one : (x : Bytes) → Root (x ∷ []) x
    node :
        (xs : List Bytes) {l r : Bytes}
        → 2 ≤ length xs
        → Root (take (split_point (length xs)) xs) l
        → Root (drop (split_point (length xs)) xs) r
        → Root xs (inner_hash sum l r)

abbrev double : ℕ → ℕ
double zero = 0
double (suc m) = suc (suc (double m))

double_lem : (m : ℕ) → double m ≡ 2 * m
double_lem zero = omega arith
double_lem (suc m) = omega (arith, double_lem m)

module _ (sum : Bytes → Bytes) where
  length-merge_pass : (xs : List Bytes) → length (merge_pass sum xs) ≡ (length xs + 1) / 2
  unfolding merge_pass
  length-merge_pass [] = omega arith
  length-merge_pass (x ∷ []) = omega arith
  length-merge_pass (x ∷ y ∷ r) = omega (arith, length-merge_pass r)

  merge_pass-take :
      (m : ℕ) (xs : List Bytes) → merge_pass sum (take (double m) xs) ≡ take m (merge_pass sum xs)
  unfolding merge_pass
  merge_pass-take zero xs = refl
  merge_pass-take (suc m) [] = refl
  merge_pass-take (suc m) (x ∷ []) = rw (take-nil m)
  merge_pass-take (suc m) (x ∷ y ∷ r) = ap (◌∷◌ (inner_hash sum x y)) (merge_pass-take m r)

  merge_pass-drop :
      (m : ℕ) (xs : List Bytes) → merge_pass sum (drop (double m) xs) ≡ drop m (merge_pass sum xs)
  unfolding merge_pass
  merge_pass-drop zero xs = refl
  merge_pass-drop (suc m) [] = refl
  merge_pass-drop (suc m) (x ∷ []) = rw (drop-nil m)
  merge_pass-drop (suc m) (x ∷ y ∷ r) = merge_pass-drop m r

  Root-one : {x h : Bytes} → Root sum (x ∷ []) h → x ≡ h
  Root-one d = go d refl
    where
      go : {x h : Bytes} {xs : List Bytes} → Root sum xs h → xs ≡ x ∷ [] → x ≡ h
      go (one y) e = cc
      go (node xs two l r) e = absurd (omega (arith, ap length e))

  node_pair :
      (xs : List Bytes) {l r : Bytes}
      → length xs ≡ 2
      → Root sum (take (split_point (length xs)) xs) l
      → Root sum (drop (split_point (length xs)) xs) r
      → Root sum (merge_pass sum xs) (inner_hash sum l r)
  unfolding merge_pass split_point
  node_pair [] e l r = absurd (omega arith)
  node_pair (x ∷ []) e l r = absurd (omega arith)
  node_pair (x ∷ y ∷ []) e l r = rw (Root-one l, Root-one r) (one _)
  node_pair (x ∷ y ∷ z ∷ t) e l r = absurd (omega arith)

  node_wide :
      (xs : List Bytes) {l r : Bytes}
      → 3 ≤ length xs
      → Root sum (merge_pass sum (take (split_point (length xs)) xs)) l
      → Root sum (merge_pass sum (drop (split_point (length xs)) xs)) r
      → Root sum (merge_pass sum xs) (inner_hash sum l r)
  node_wide xs wide l r =
      let m = split_point (length (merge_pass sum xs)) in
      let k : split_point (length xs) ≡ double m =
        split_point_half (length xs) wide
        ∙ ap (λ (t : ℕ). 2 * split_point t) (sym (length-merge_pass xs))
        ∙ sym (double_lem m) in
      node (merge_pass sum xs) (rw length-merge_pass (omega arith))
        (rw (merge_pass-take m xs) at (rw k at l)) (rw (merge_pass-drop m xs) at (rw k at r))

  -- A pass keeps the root.
  merge_pass-Root : {xs : List Bytes} {h : Bytes} → Root sum xs h → Root sum (merge_pass sum xs) h
  merge_pass-Root (one x) = unfold merge_pass in one x
  merge_pass-Root (node xs two l r) = elim (dec_lt 2 (length xs)) [
    | yes wide ↦ node_wide xs wide (merge_pass-Root l) (merge_pass-Root r)
    | no pair ↦ node_pair xs (omega arith) l r
  ]

  Root-pos : {xs : List Bytes} {h : Bytes} → Root sum xs h → 1 ≤ length xs
  Root-pos (one x) = omega arith
  Root-pos (node xs two l r) = omega arith

  merge_levels-Root :
      (f : ℕ) (xs : List Bytes) {h : Bytes}
      → length xs ≤ suc f
      → Root sum xs h
      → merge_levels sum f xs ≡ h
  unfolding merge_levels
  merge_levels-Root f [] b d = absurd (omega (arith, Root-pos d))
  merge_levels-Root f (x ∷ []) b d = Root-one d
  merge_levels-Root zero (x ∷ y ∷ r) b d = absurd (omega arith)
  merge_levels-Root (suc f) (x ∷ y ∷ r) b d =
      merge_levels-Root f (merge_pass sum (x ∷ y ∷ r)) (rw length-merge_pass (omega arith))
        (merge_pass-Root d)

map-take : (g : Bytes → Bytes) (k : ℕ) (xs : List Bytes) → map g (take k xs) ≡ take k (map g xs)
map-take g zero xs = refl
map-take g (suc k) [] = refl
map-take g (suc k) (x ∷ xs) = ap (◌∷◌ (g x)) (map-take g k xs)

map-drop : (g : Bytes → Bytes) (k : ℕ) (xs : List Bytes) → map g (drop k xs) ≡ drop k (map g xs)
map-drop g zero xs = refl
map-drop g (suc k) [] = refl
map-drop g (suc k) (x ∷ xs) = map-drop g k xs

module _ (sum : Bytes → Bytes) where
  -- The recursive function computes the root of the leaf hashes.
  hash-Root :
      (f : ℕ) (items : List Bytes)
      → length items ≤ f
      → 1 ≤ length items
      → Root sum (map (leaf_hash sum) items) (hash_from_byte_slices sum items)
  hash-Root f [] b p = absurd (omega arith)
  hash-Root f (x ∷ []) b p = rw hash-one (one _)
  hash-Root zero (x ∷ y ∷ r) b p = absurd (omega arith)
  hash-Root (suc f) (x ∷ y ∷ r) b p =
      let items = x ∷ y ∷ r in
      let k = split_point (length items) in
      let s = split_lengths items (omega arith) in
      let same = length-map items (leaf_hash sum) in
      let l = hash-Root f (take k items) (omega (arith, s)) (omega (arith, s)) in
      let d = hash-Root f (drop k items) (omega (arith, s)) (omega (arith, s)) in
      rw (hash-split sum items (omega arith)) (
        node (map (leaf_hash sum) items) (rw same (omega arith))
          (rw same (rw (map-take (leaf_hash sum) k items) at l))
          (rw same (rw (map-drop (leaf_hash sum) k items) at d)))

  -- The iterative function returns, for every list of items, what the recursive one returns.
  pub iterative-eq :
      (items : List Bytes)
      → hash_from_byte_slices_iterative sum items ≡ hash_from_byte_slices sum items
  unfolding hash_from_byte_slices_iterative
  iterative-eq [] = unfold hash_from_byte_slices in refl
  iterative-eq (x ∷ r) =
      let items = x ∷ r in
      merge_levels-Root sum (length items) (map (leaf_hash sum) items)
        (omega (arith, length-map items (leaf_hash sum)))
        (hash-Root (length items) items (omega arith) (omega arith))
