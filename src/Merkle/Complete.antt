-- ===== src/Merkle/Complete.antt =====
-- The proofs that ProofsFromByteSlices builds are accepted by Verify.
use mathlib.Core.List.{reverse}
use native.Mathlib.Nat.{zero-add}
use ostracon.Prelude.{
  ℕ, zero, suc, ◌+◌, ◌≡◌, refl, ap, ◌∙◌, List, [], ◌∷◌, none, some, arith, Bytes, bytes_eq_refl,
  length, get_elem?,
}
use ostracon.Prelude.Int.{pos}
use ostracon.Merkle.Tree.{leaf_hash, hash_from_byte_slices}
use ostracon.Merkle.Proof.{
  Proof, Trail, trails_go, number_trails, proofs_from_byte_slices, hash_up, verify,
}
use ostracon.Merkle.Trails.{trails_go-root, trails_go-length, trails_go-Leads}

module _ (sum : Bytes → Bytes) where
  number_trails-get_elem? :
      (total j : ℕ) (trails : List Trail) (i : ℕ) {leaf : Bytes} {aunts : List Bytes}
      → get_elem? trails i ≡ some (leaf, aunts)
      → get_elem? (number_trails total j trails) i
        ≡ some (record { total = pos total; index = pos (j + i); leaf = some leaf; aunts = aunts })
  unfolding number_trails
  number_trails-get_elem? total j [] i e = ground arith
  number_trails-get_elem? total j ((l, a) ∷ trails) zero e = ground arith
  number_trails-get_elem? total j ((l, a) ∷ trails) (suc i) e =
      ground (arith, number_trails-get_elem? total (suc j) trails i e)

  verify-accepts :
      (total index : ℕ) (aunts : List Bytes) (item root : Bytes)
      → hash_up sum index total (some (leaf_hash sum item)) (reverse aunts) ≡ some root
      → verify sum
          (record {
            total = pos total;
            index = pos index;
            leaf = some (leaf_hash sum item);
            aunts = aunts;
          })
          root
          item
        ≡ none
  unfolding verify
  verify-accepts total index aunts item root up =
      rw (up, bytes_eq_refl (leaf_hash sum item), bytes_eq_refl root) (ground arith)

  length-number_trails :
      (total j : ℕ) (trails : List Trail) → length (number_trails total j trails) ≡ length trails
  unfolding number_trails
  length-number_trails total j [] = refl
  length-number_trails total j ((l, a) ∷ trails) =
      ap suc (length-number_trails total (suc j) trails)

  pub length-proofs :
      (items : List Bytes) → length (proofs_from_byte_slices sum items).1 ≡ length items
  unfolding proofs_from_byte_slices
  length-proofs items =
      let trails = (trails_go sum (length items) items).0 in
      length-number_trails (length items) 0 trails
      ∙ trails_go-length sum (length items) items (omega arith)

  pub root-proofs :
      (items : List Bytes) → (proofs_from_byte_slices sum items).0 ≡ hash_from_byte_slices sum items
  unfolding proofs_from_byte_slices
  root-proofs items = trails_go-root sum (length items) items (omega arith)

  -- The proof of the item at a position names the position and the number of items.
  pub proofs-at :
      (items : List Bytes) (i : ℕ) (item : Bytes)
      → get_elem? items i ≡ some item
      → (sp : Proof) × (get_elem? (proofs_from_byte_slices sum items).1 i ≡ some sp)
        × (sp.index ≡ pos i)
        × (sp.total ≡ pos (length items))
        × (verify sum sp (hash_from_byte_slices sum items) item ≡ none)
  unfolding proofs_from_byte_slices
  proofs-at items i item e =
      let n = length items in
      let (aunts, leads) = trails_go-Leads sum n items i (omega arith) e in
      let trails = (trails_go sum n items).0 in
      let root_eq = trails_go-root sum n items (omega arith) in
      (
        record { total = pos n; index = pos i; leaf = some (leaf_hash sum item); aunts = aunts },
        rw zero-add at (number_trails-get_elem? n 0 trails i leads.0),
        refl,
        refl,
        verify-accepts n i aunts item (hash_from_byte_slices sum items) (leads.1 ∙ ap some root_eq),
      )

  -- ProofsFromByteSlices returns the root of HashFromByteSlices, and for the item at every
  -- position a proof that Verify accepts for that root and item.
  pub proofs-verify :
      (items : List Bytes) (i : ℕ) (item : Bytes)
      → get_elem? items i ≡ some item
      → let (root, proofs) = proofs_from_byte_slices sum items in
        (root ≡ hash_from_byte_slices sum items)
        × ((sp : Proof) × (get_elem? proofs i ≡ some sp) × (verify sum sp root item ≡ none))
  proofs-verify items i item e =
      let (sp, at, _, _, accepted) = proofs-at items i item e in
      let root = root-proofs items in (root, (sp, at, rw root accepted))
