-- ===== src/Merkle/Tests.antt =====
-- The theorems about the Merkle trees at concrete inputs: a tree of three items under a digest of
-- one byte.
use ostracon.Prelude.{
  ℕ, ◌+◌, ◌*◌, ◌%◌, ◌≡◌, ◌⊎◌, refl, none, some, List, [], ◌∷◌, arith, Bytes, get_elem?,
}
use ostracon.Prelude.Slices.{bytes_eq}
use ostracon.Prelude.Int.{pos}
use ostracon.Prelude.Run.{ok, panic}
use ostracon.Merkle.Split.{split_point, get_split_point, IsSplit, get_split_point_lem}
use ostracon.Merkle.Tree.{IsDigest, leaf_hash, inner_hash, hash_from_byte_slices}
use ostracon.Merkle.Iterative.{hash_from_byte_slices_iterative, iterative-eq}
use ostracon.Merkle.Proof.{Proof, verify, proofs_from_byte_slices}
use ostracon.Merkle.Complete.{proofs-verify}
use ostracon.Merkle.Sound.{Collision, verify_sound}

weigh : Bytes → ℕ
weigh [] = 7
weigh (b ∷ r) = (b + 31 * weigh r) % 251

abbrev checksum : Bytes → Bytes
checksum b = weigh b ∷ []

checksum-IsDigest : IsDigest checksum 1
checksum-IsDigest = record { fixed = λ b. refl }

abbrev three_items : List Bytes
three_items = (1 ∷ []) ∷ (2 ∷ 3 ∷ []) ∷ [] ∷ []

get_split_point_lem_example :
    (get_split_point 0 ≡ panic)
    × (get_split_point 1 ≡ ok 0)
    × ((k j : ℕ) × (get_split_point 6 ≡ ok k) × IsSplit 6 k j)
get_split_point_lem_example = get_split_point_lem 6 (omega arith)

iterative-eq_example :
    hash_from_byte_slices_iterative checksum three_items
    ≡ hash_from_byte_slices checksum three_items
iterative-eq_example = iterative-eq checksum three_items

proofs-verify_example :
    let (root, proofs) = proofs_from_byte_slices checksum three_items in
    (root ≡ hash_from_byte_slices checksum three_items)
    × ((sp : Proof) × (get_elem? proofs 1 ≡ some sp)
        × (verify checksum sp root (2 ∷ 3 ∷ []) ≡ none))
proofs-verify_example = proofs-verify checksum three_items 1 (2 ∷ 3 ∷ []) refl

abbrev first_proof : Proof
first_proof = record {
  total = pos 3;
  index = pos 0;
  leaf = some (leaf_hash checksum (1 ∷ []));
  aunts = leaf_hash checksum (2 ∷ 3 ∷ []) ∷ leaf_hash checksum [] ∷ [];
}

first_proof-accepted :
    verify checksum first_proof (hash_from_byte_slices checksum three_items) (1 ∷ []) ≡ none
unfolding verify hash_from_byte_slices leaf_hash inner_hash split_point weigh bytes_eq
first_proof-accepted = refl

verify_sound_example :
    ((i : ℕ) × (first_proof.index ≡ pos i) × (get_elem? three_items i ≡ some (1 ∷ [])))
    ⊎ Collision checksum
verify_sound_example =
    verify_sound checksum checksum-IsDigest first_proof three_items (1 ∷ []) (omega arith) refl
      first_proof-accepted
