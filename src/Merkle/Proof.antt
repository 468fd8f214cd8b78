-- ===== src/Merkle/Proof.antt =====
-- Inclusion proofs of crypto/merkle/proof.go.
-- A Go slice that may be nil is an Option; a list of aunts is passed last first, since the code
-- reads it from its end. Total and Index are int64 values.
use mathlib.Core.Option
use mathlib.Core.List.{reverse}
use ostracon.Prelude.{
  ℕ, zero, suc, ◌-◌, Bool, true, not, ◌&&◌, ◌||◌, List, [], ◌∷◌, ◌++◌, map, Option, none, some,
  Bytes, bytes_eq, length, take, drop, ltb, leb, ◌==◌, if◌then◌else◌,
}
use ostracon.Prelude.Int.{ℤ, pos, negsuc, ltb_ℤ}
use ostracon.Merkle.Split.{split_point}
use ostracon.Merkle.Tree.{empty_hash, leaf_hash, inner_hash}

pub record Proof : Type 0 where
  pub total : ℤ
  pub index : ℤ
  pub leaf : Option Bytes
  pub aunts : List Bytes

-- The errors of Verify and ValidateBasic.
pub data ProofError : Type 0 where
  negative_total negative_index invalid_leaf_hash invalid_root_hash : ProofError
  leaf_hash_size too_many_aunts aunt_size : ProofError

-- The bytes of a slice that may be nil, as bytes.Equal and len read it.
abbrev pub contents : Option Bytes → Bytes
contents none = []
contents (some b) = b

-- A trail is the chain of nodes from a leaf to the root: the leaf's hash and the hash of the
-- sibling, left or right, at each node below the root. A new parent makes each chain longer.
abbrev pub Trail : Type 0
Trail = Bytes × List Bytes

abbrev pub extend : Bytes → Trail → Trail
extend sibling (leaf, aunts) = (leaf, aunts ++ sibling ∷ [])

-- The loop of ProofsFromByteSlices, from position `i`.
unfoldable pub number_trails : ℕ → ℕ → List Trail → List Proof
number_trails total i [] = []
number_trails total i ((leaf, aunts) ∷ trails) =
    record { total = pos total; index = pos i; leaf = some leaf; aunts = aunts }
    ∷ number_trails total (suc i) trails

module _ (sum : Bytes → Bytes) where
  -- computeHashFromAunts past its test for negative numbers.
  unfoldable pub hash_up : ℕ → ℕ → Option Bytes → List Bytes → Option Bytes
  hash_up index total leaf [] =
      if leb total index || total == 0 then none else if total == 1 then leaf else none
  hash_up index total leaf (aunt ∷ up) =
      let k = split_point total in
      let left = Option.map (λ h. inner_hash sum h aunt) (hash_up index k leaf up) in
      let right =
        Option.map (λ h. inner_hash sum aunt h) (hash_up (index - k) (total - k) leaf up) in
      let below = if ltb index k then left else right in
      if leb total index || total == 0 then none else if total == 1 then none else below

  unfoldable pub compute_hash_from_aunts : ℤ → ℤ → Option Bytes → List Bytes → Option Bytes
  unfolding hash_up
  compute_hash_from_aunts (pos index) (pos total) leaf aunts =
      hash_up index total leaf (reverse aunts)
  compute_hash_from_aunts (pos index) (negsuc total) leaf aunts = none
  compute_hash_from_aunts (negsuc index) total leaf aunts = none

  unfoldable pub compute_root_hash : Proof → Option Bytes
  unfolding compute_hash_from_aunts
  compute_root_hash sp = compute_hash_from_aunts sp.index sp.total sp.leaf sp.aunts

  -- Verify: `none` is the nil error.
  unfoldable pub verify : Proof → Bytes → Bytes → Option ProofError
  unfolding compute_root_hash
  verify sp root leaf =
      if ltb_ℤ sp.total (pos 0)
      then some negative_total
      else if ltb_ℤ sp.index (pos 0)
      then some negative_index
      else if not (bytes_eq (contents sp.leaf) (leaf_hash sum leaf))
      then some invalid_leaf_hash
      else if not (bytes_eq (contents (compute_root_hash sp)) root)
      then some invalid_root_hash
      else none

  unfoldable pub trails_go : ℕ → List Bytes → List Trail × Bytes
  trails_go zero items = ([], empty_hash sum)
  trails_go (suc f) [] = ([], empty_hash sum)
  trails_go (suc f) (x ∷ []) = ((leaf_hash sum x, []) ∷ [], leaf_hash sum x)
  trails_go (suc f) (x ∷ y ∷ r) =
      let items = x ∷ y ∷ r in
      let k = split_point (length items) in
      let (lefts, left_root) = trails_go f (take k items) in
      let (rights, right_root) = trails_go f (drop k items) in
      (
        map (extend right_root) lefts ++ map (extend left_root) rights,
        inner_hash sum left_root right_root,
      )

  unfoldable pub trails_from_byte_slices : List Bytes → List Trail × Bytes
  unfolding trails_go
  trails_from_byte_slices items = trails_go (length items) items

  unfoldable pub proofs_from_byte_slices : List Bytes → Bytes × List Proof
  unfolding trails_from_byte_slices number_trails
  proofs_from_byte_slices items =
      let (trails, root) = trails_from_byte_slices items in
      (root, number_trails (length items) 0 trails)

max_aunts : ℕ
max_aunts = 100

-- tmhash.Size
abbrev hash_size : ℕ
hash_size = 32

aunts_sized : List Bytes → Bool
aunts_sized [] = true
aunts_sized (a ∷ aunts) = (length a == hash_size) && aunts_sized aunts

unfoldable pub validate_basic : Proof → Option ProofError
unfolding max_aunts aunts_sized
validate_basic sp =
    if ltb_ℤ sp.total (pos 0)
    then some negative_total
    else if ltb_ℤ sp.index (pos 0)
    then some negative_index
    else if not (length (contents sp.leaf) == hash_size)
    then some leaf_hash_size
    else if ltb max_aunts (length sp.aunts)
    then some too_many_aunts
    else if not (aunts_sized sp.aunts)
    then some aunt_size
    else none
