-- ===== src/Parts/PartSet.antt =====
-- Part and PartSet of types/part_set.go. The digest is a parameter; the mutex is left out, as each
-- method is one step. Indices and totals are uint32 values, and wrap where the code's do.
use ostracon.Prelude.{
  ℕ, zero, suc, ◌+◌, ◌-◌, ◌*◌, ◌/◌, ◌%◌, Bool, true, false, ◌&&◌, List, [], ◌∷◌, Option, none, some,
  Bytes, length, take, drop, get_elem?, set, replicate, ltb, leb, ◌==◌, if◌then◌else◌,
}
use Prim.Native.Nat.{min}
use ostracon.Prelude.Run.{Run, ok, panic, ◌>>=◌}
use ostracon.Bits.Array.{BitArray, new_bit_array, set_index}
use ostracon.Types.BlockId.{PartSetHeader, header_equals}
use ostracon.Merkle.Proof.{Proof, ProofError, validate_basic, verify, proofs_from_byte_slices}

pub record Part : Type 0 where
  pub index : ℕ
  pub bytes : Bytes
  pub proof : Proof

pub record PartSet : Type 0 where
  pub total : ℕ
  pub hash : Bytes
  pub parts : List (Option Part)
  pub parts_bit_array : Option BitArray
  pub count : ℕ
  pub byte_size : ℕ

pub data PartError : Type 0 where
  unexpected_index invalid_proof : PartError

pub data InvalidPart : Type 0 where
  part_too_big : InvalidPart
  wrong_proof : ProofError → InvalidPart

-- BlockPartSizeBytes
abbrev pub block_part_size_bytes : ℕ
block_part_size_bytes = 65536

abbrev pub uint32_limit : ℕ
uint32_limit = 4294967296

-- Part.ValidateBasic
unfoldable pub part_validate_basic : Part → Option InvalidPart
part_validate_basic p =
    if ltb block_part_size_bytes (length p.bytes)
    then some part_too_big
    else elim (validate_basic p.proof) [ none ↦ none | some e ↦ some (wrong_proof e) ]

-- b[low:high] of a slice that has no spare capacity.
unfoldable pub slice : Bytes → ℕ → ℕ → Run Bytes
slice b low high =
    if leb low high && leb high (length b) then ok (take (high - low) (drop low b)) else panic

-- The first loop of NewPartSetFromData, for n more parts from index i.
unfoldable pub cut_parts : Bytes → ℕ → ℕ → ℕ → Option BitArray → Run (List Bytes × Option BitArray)
unfolding slice
cut_parts b size zero i bits = ok ([], bits)
cut_parts b size (suc n) i bits =
    slice b (i * size % uint32_limit)
      (min (length b) ((i + 1) % uint32_limit * size % uint32_limit))
    >>= λ part. set_index bits i true >>= λ (bits', _).
        cut_parts b size n (i + 1) bits' >>= λ (parts, bits''). ok (part ∷ parts, bits'')

-- The second loop of NewPartSetFromData, with the fields of the parts.
unfoldable pub with_proofs : ℕ → List Bytes → List Proof → Run (List (Option Part))
with_proofs i [] proofs = ok []
with_proofs i (b ∷ parts) [] = panic
with_proofs i (b ∷ parts) (p ∷ proofs) = with_proofs (i + 1) parts proofs >>= λ rest.
    ok (some (record { index = i; bytes = b; proof = p }) ∷ rest)

-- uint32(len(data)) + partSize - 1, over partSize.
unfoldable pub total_parts : ℕ → ℕ → Run ℕ
total_parts len size =
    if size == 0
    then panic
    else ok ((len % uint32_limit + size + (uint32_limit - 1)) % uint32_limit / size)

unfoldable pub new_part_set_from_header : PartSetHeader → PartSet
new_part_set_from_header h = record {
  total = h.total;
  hash = h.hash;
  parts = replicate h.total none;
  parts_bit_array = new_bit_array h.total;
  count = 0;
  byte_size = 0;
}

unfoldable pub header : PartSet → PartSetHeader
header ps = record { total = ps.total; hash = ps.hash }

unfoldable pub has_header : PartSet → PartSetHeader → Bool
unfolding header
has_header ps h = header_equals (header ps) h

unfoldable pub part_set_is_complete : PartSet → Bool
part_set_is_complete ps = ps.count == ps.total

-- parts[i]
unfoldable pub get_part : PartSet → ℕ → Run (Option Part)
get_part ps i = elim (get_elem? ps.parts i) [ none ↦ panic | some p ↦ ok p ]

module _ (sum : Bytes → Bytes) where
  unfoldable pub new_part_set_from_data : Bytes → ℕ → Run PartSet
  unfolding total_parts cut_parts with_proofs
  new_part_set_from_data b size = total_parts (length b) size >>= λ total.
      cut_parts b size total 0 (new_bit_array total) >>= λ (chunks, bits).
      let (root, proofs) = proofs_from_byte_slices sum chunks in
      with_proofs 0 chunks proofs >>= λ parts. ok (record {
        total = total;
        hash = root;
        parts = parts;
        parts_bit_array = bits;
        count = total;
        byte_size = length b;
      })

  -- AddPart, of a set that is not nil.
  unfoldable pub add_part : PartSet → Part → Run (PartSet × Bool × Option PartError)
  unfolding get_part
  add_part ps part =
      let store : Run (PartSet × Bool × Option PartError) =
        set_index ps.parts_bit_array part.index true >>= λ (bits, _). ok (
          record ps {
            parts = set ps.parts part.index (some part);
            parts_bit_array = bits;
            count = (ps.count + 1) % uint32_limit;
            byte_size = ps.byte_size + length part.bytes;
          },
          true,
          none,
        ) in
      if leb ps.total part.index
      then ok (ps, false, some unexpected_index)
      else (get_part ps part.index >>= λ known. elim known [
        | some p ↦ ok (ps, false, none)
        | none ↦ elim (verify sum part.proof ps.hash part.bytes) [
          | some e ↦ ok (ps, false, some invalid_proof)
          | none ↦ store
        ]
      ])
