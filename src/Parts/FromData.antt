-- ===== src/Parts/FromData.antt =====
-- NewPartSetFromData gives a complete part set that holds the data.
use native.Mathlib.Nat.{zero-add, zero-mul}
use ostracon.Prelude.{
  ◌*◌, drop, ℕ, zero, suc, ◌+◌, ◌≤◌, ◌<◌, ◌≡◌, refl, ap, ◌∙◌, true, List, [], ◌∷◌, ◌++◌, Option,
  none, some, arith, Bytes, length, get_elem?, get_elem?-in, ◌==◌,
}
use ostracon.Prelude.Int.{pos}
use ostracon.Prelude.Run.{Run, ok, ◌>>=◌}
use ostracon.Bits.Array.{BitArray, new_bit_array}
use ostracon.Bits.Sized.{BitsFor, BitsFor-new_bit_array}
use ostracon.Merkle.Tree.{hash_from_byte_slices}
use ostracon.Merkle.Proof.{Proof, verify, proofs_from_byte_slices}
use ostracon.Merkle.Complete.{length-proofs, root-proofs, proofs-at}
use ostracon.Parts.PartSet.{
  Part, PartSet, uint32_limit, with_proofs, cut_parts, new_part_set_from_data, part_set_is_complete,
}
use ostracon.Parts.Cutting.{
  chunks, joined, chunk_count, length-chunks, joined-chunks, cut_parts-chunks, total_parts-count,
  chunk_count-bounds, chunk_count-pos,
}

-- The bytes of the parts that are there, in order.
abbrev pub contents : List (Option Part) → Bytes
contents [] = []
contents (none ∷ parts) = contents parts
contents (some p ∷ parts) = p.bytes ++ contents parts

-- The parts that the second loop makes.
record Numbered (i : ℕ) (items : List Bytes) (proofs : List Proof) (parts : List (Option Part))
    : Type 0 where
  sized : length parts ≡ length items
  held : contents parts ≡ joined items
  at :
      (j : ℕ) (b : Bytes) (p : Proof)
      → get_elem? items j ≡ some b
      → get_elem? proofs j ≡ some p
      → get_elem? parts j ≡ some (some (record { index = i + j; bytes = b; proof = p }))

with_proofs-Numbered :
    (i : ℕ) (items : List Bytes) (proofs : List Proof)
    → length proofs ≡ length items
    → (parts : List (Option Part)) × (with_proofs i items proofs ≡ ok parts)
      × Numbered i items proofs parts
unfolding with_proofs
with_proofs-Numbered i [] proofs h =
    ([], refl, record { sized = refl; held = refl; at = λ j b p e f. ground arith })
with_proofs-Numbered i (c ∷ items) [] h = ground arith
with_proofs-Numbered i (c ∷ items) (q ∷ proofs) h =
    let (parts, run, n) = with_proofs-Numbered (i + 1) items proofs (omega arith) in
    (
      some first ∷ parts,
      ap (λ r. r >>= λ rest. ok (some first ∷ rest)) run,
      record {
        sized = ap suc n.sized;
        held = ap (λ (t : Bytes). c ++ t) n.held;
        at = at_index parts n;
      },
    )
  where
    first : Part
    first = record { index = i; bytes = c; proof = q }

    at_index :
        (parts : List (Option Part))
        → Numbered (i + 1) items proofs parts
        → (j : ℕ) (b : Bytes) (p : Proof) → get_elem? (c ∷ items) j ≡ some b
        → get_elem? (q ∷ proofs) j ≡ some p
        → get_elem? (some first ∷ parts) j
          ≡ some (some (record { index = i + j; bytes = b; proof = p }))
    at_index parts n zero b p e f =
        let bytes_eq : c ≡ b = ground arith in
        let proof_eq : q ≡ p = ground arith in
        let index_eq : i ≡ i + 0 = omega arith in
        λ k. some (some (record { index = index_eq k; bytes = bytes_eq k; proof = proof_eq k }))
    at_index parts n (suc j) b p e f =
        let index_eq : i + 1 + j ≡ i + suc j = omega arith in
        n.at j b p e f
        ∙ ap (λ (t : ℕ). some (some (record { index = t; bytes = b; proof = p }))) index_eq

==-refl : (n : ℕ) → (n == n) ≡ true
==-refl n = ground arith

module _ (sum : Bytes → Bytes) where
  -- A part set that holds the data cut into parts of the size, each with its proof.
  pub record Whole (b : Bytes) (size : ℕ) (ps : PartSet) : Type 0 where
    pub total : ps.total ≡ chunk_count (length b) size
    pub hash : ps.hash ≡ hash_from_byte_slices sum (chunks b size (chunk_count (length b) size) 0)
    pub sized : length ps.parts ≡ ps.total
    pub held : contents ps.parts ≡ b
    pub complete : part_set_is_complete ps ≡ true
    pub byte_size : ps.byte_size ≡ length b
    pub bits : BitsFor ps.total ps.parts_bit_array
    pub at :
        (i : ℕ)
        → i < ps.total
        → (p : Part) × (get_elem? ps.parts i ≡ some (some p))
          × (p.index ≡ i)
          × (get_elem? (chunks b size (chunk_count (length b) size) 0) i ≡ some p.bytes)
          × (p.proof.index ≡ pos i)
          × (p.proof.total ≡ pos ps.total)
          × (verify sum p.proof ps.hash p.bytes ≡ none)

  -- Data that is not empty, of a size that does not wrap with that of a part, is cut into parts
  -- without a panic: the set is complete, its parts hold the data in order, its hash is the root of
  -- the parts, and each part has its index and a proof that Verify accepts.
  pub new_part_set_from_data-Whole :
      (b : Bytes) (size : ℕ)
      → 0 < size
      → 0 < length b
      → length b + size ≤ uint32_limit
      → (ps : PartSet) × (new_part_set_from_data sum b size ≡ ok ps) × Whole b size ps
  unfolding new_part_set_from_data part_set_is_complete
  new_part_set_from_data-Whole b size p some_data fits =
      let (low, high) = chunk_count-bounds (length b) size p in
      let positive = chunk_count-pos (length b) size p some_data in
      let (bits, cut, good) =
        cut_parts-chunks b size total total 0 (new_bit_array total) p high fits (omega arith)
          (BitsFor-new_bit_array total positive) in
      let (parts, made, n) =
        with_proofs-Numbered 0 items (proofs_from_byte_slices sum items).1
          (length-proofs sum items) in
      let root = root-proofs sum items in
      (
        whole bits parts,
        ap (λ r. r >>= with_total) (total_parts-count (length b) size p fits)
            ∙ (ap (λ r. r >>= with_chunks) cut ∙ ap (λ r. r >>= λ t. ok (whole bits t)) made),
        record {
          total = refl;
          hash = root;
          sized = n.sized ∙ length-chunks b size total 0;
          held =
              n.held
              ∙ (joined-chunks b size total 0
                    (omega (arith, low, zero-add total, ap (λ (t : ℕ). t * size) (zero-add total)))
                  ∙ ap (λ (t : ℕ). drop t b) (zero-mul size));
          complete = ==-refl total;
          byte_size = refl;
          bits = good;
          at = λ i lt.
              let (item, here) =
                get_elem?-in items i (omega (arith, length-chunks b size total 0)) in
              let (sp, listed, index, all, accepted) = proofs-at sum items i item here in
              (
                record { index = i; bytes = item; proof = sp },
                n.at i item sp here listed
                    ∙ ap (λ (t : ℕ). some (some (record { index = t; bytes = item; proof = sp })))
                        (zero-add i),
                refl,
                here,
                index,
                all ∙ ap pos (length-chunks b size total 0),
                rw root accepted,
              );
        },
      )
    where
      total : ℕ
      total = chunk_count (length b) size

      items : List Bytes
      items = chunks b size total 0

      whole : Option BitArray → List (Option Part) → PartSet
      whole bits parts = record {
        total = total;
        hash = (proofs_from_byte_slices sum items).0;
        parts = parts;
        parts_bit_array = bits;
        count = total;
        byte_size = length b;
      }

      with_chunks : List Bytes × Option BitArray → Run PartSet
      with_chunks (cs, bits) = with_proofs 0 cs (proofs_from_byte_slices sum cs).1 >>= λ parts.
          ok (record {
            total = total;
            hash = (proofs_from_byte_slices sum cs).0;
            parts = parts;
            parts_bit_array = bits;
            count = total;
            byte_size = length b;
          })

      with_total : ℕ → Run PartSet
      with_total t = cut_parts b size t 0 (new_bit_array t) >>= λ (cs, bits).
          with_proofs 0 cs (proofs_from_byte_slices sum cs).1 >>= λ parts. ok (record {
            total = t;
            hash = (proofs_from_byte_slices sum cs).0;
            parts = parts;
            parts_bit_array = bits;
            count = t;
            byte_size = length b;
          })
