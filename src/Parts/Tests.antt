-- ===== src/Parts/Tests.antt =====
-- The theorems about part sets at concrete inputs: five bytes in parts of two, under a digest of one
-- byte.
use ostracon.Prelude.{
  ℕ, zero, suc, false, ◌+◌, ◌*◌, ◌%◌, ◌<◌, ◌≡◌, ◌⊎◌, inl, inr, refl, Bool, true, List, [], ◌∷◌,
  Option, none, some, arith, Bytes, get_elem?, set, replicate,
}
use ostracon.Prelude.Int.{pos}
use ostracon.Prelude.Run.{ok}
use ostracon.Merkle.Tree.{IsDigest, hash_from_byte_slices}
use ostracon.Merkle.Proof.{Proof, proofs_from_byte_slices}
use ostracon.Merkle.Sound.{Collision}
use ostracon.Parts.PartSet.{
  Part, PartSet, PartError, new_part_set_from_header, new_part_set_from_data, add_part,
  part_set_is_complete, header,
}
use ostracon.Parts.Cutting.{joined}
use ostracon.Parts.FromData.{contents, Whole, new_part_set_from_data-Whole}
use ostracon.Parts.Adding.{Received, new_part_set_from_header-Received}
use ostracon.Parts.Receiving.{HasIndex, receive, add_part_safe, add_part_anywhere, parts-roundtrip}
use ostracon.Parts.Reader.{Reader, Exact, unread, read, get_reader, read-Exact, get_reader-unread}

total_of : Bytes → ℕ
total_of [] = 3
total_of (b ∷ r) = (b + 17 * total_of r) % 251

abbrev digest : Bytes → Bytes
digest b = total_of b ∷ []

digest-IsDigest : IsDigest digest 1
digest-IsDigest = record { fixed = λ b. refl }

abbrev five_bytes : Bytes
five_bytes = 5 ∷ 6 ∷ 7 ∷ 8 ∷ 9 ∷ []

abbrev pieces : List Bytes
pieces = (5 ∷ 6 ∷ []) ∷ (7 ∷ 8 ∷ []) ∷ (9 ∷ []) ∷ []

new_part_set_from_data-Whole_example :
    (ps : PartSet) × (new_part_set_from_data digest five_bytes 2 ≡ ok ps)
    × Whole digest five_bytes 2 ps
new_part_set_from_data-Whole_example =
    new_part_set_from_data-Whole digest five_bytes 2 (omega arith) (omega arith) (omega arith)

abbrev empty_set : PartSet
empty_set =
    new_part_set_from_header (record { total = 3; hash = hash_from_byte_slices digest pieces })

empty_set-Received : Received digest pieces empty_set
empty_set-Received = new_part_set_from_header-Received digest pieces (omega arith) (omega arith)

abbrev stray : Part
stray = record {
  index = 1;
  bytes = 4 ∷ [];
  proof = record { total = pos 3; index = pos 1; leaf = none; aunts = [] };
}

add_part_safe_example :
    ((ps' : PartSet) × (added : Bool) × (e : Option PartError) × (add_part digest empty_set stray
        ≡ ok (ps', added, e))
      × Received digest pieces ps')
    ⊎ Collision digest
add_part_safe_example =
    add_part_safe digest digest-IsDigest pieces empty_set stray (omega arith) empty_set-Received
      refl refl

slot_empty : get_elem? empty_set.parts 0 ≡ some none
unfolding new_part_set_from_header
slot_empty = refl

add_part_anywhere_example :
    (sp : Proof) × (ps' : PartSet) × (get_elem? (proofs_from_byte_slices digest pieces).1 2
      ≡ some sp)
    × (add_part digest empty_set (record { index = 0; bytes = 9 ∷ []; proof = sp })
        ≡ ok (ps', true, none))
    × (ps'.parts ≡ set empty_set.parts 0 (some (record { index = 0; bytes = 9 ∷ []; proof = sp })))
add_part_anywhere_example =
    add_part_anywhere digest pieces empty_set 0 2 (9 ∷ []) empty_set-Received slot_empty refl

read-Exact_example :
    Exact 3
      (5 ∷ 6 ∷ 7 ∷ 8 ∷ 9 ∷ [])
      (read (record { left = 5 ∷ 6 ∷ []; later = (7 ∷ 8 ∷ []) ∷ (9 ∷ []) ∷ [] }) 3)
read-Exact_example =
    read-Exact (record { left = 5 ∷ 6 ∷ []; later = (7 ∷ 8 ∷ []) ∷ (9 ∷ []) ∷ [] }) 3 (omega arith)

abbrev first_part : Part
first_part = record {
  index = 0;
  bytes = 5 ∷ 6 ∷ [];
  proof = record {
    total = pos 3;
    index = pos 0;
    leaf = some (243 ∷ []);
    aunts = (102 ∷ []) ∷ (16 ∷ []) ∷ [];
  };
}

abbrev second_part : Part
second_part = record {
  index = 1;
  bytes = 7 ∷ 8 ∷ [];
  proof = record {
    total = pos 3;
    index = pos 1;
    leaf = some (102 ∷ []);
    aunts = (243 ∷ []) ∷ (16 ∷ []) ∷ [];
  };
}

abbrev third_part : Part
third_part = record {
  index = 2;
  bytes = 9 ∷ [];
  proof = record { total = pos 3; index = pos 2; leaf = some (16 ∷ []); aunts = (157 ∷ []) ∷ [] };
}

abbrev five_set : PartSet
five_set = record {
  total = 3;
  hash = 196 ∷ [];
  parts = some first_part ∷ some second_part ∷ some third_part ∷ [];
  parts_bit_array =
      some (record { bits = 3; elems = (true ∷ true ∷ true ∷ replicate 61 false) ∷ [] });
  count = 3;
  byte_size = 5;
}

five_set-made : new_part_set_from_data digest five_bytes 2 ≡ ok five_set
unfolding new_part_set_from_data total_of ostracon.Bits.Array.set_index
    ostracon.Bits.Array.new_bit_array proofs_from_byte_slices ostracon.Merkle.Split.split_point
    ostracon.Merkle.Tree.inner_hash ostracon.Merkle.Tree.leaf_hash ostracon.Bits.Word.zero_word
five_set-made = refl

covers_all : (i : ℕ) → i < 3 → HasIndex i (third_part ∷ first_part ∷ third_part ∷ second_part ∷ [])
covers_all zero h = inr (inl refl)
covers_all (suc zero) h = inr (inr (inr (inl refl)))
covers_all (suc (suc zero)) h = inl refl
covers_all (suc (suc (suc i))) h = absurd (omega arith)

parts-roundtrip_example :
    (ps : PartSet) × (receive digest
        (new_part_set_from_header (header five_set))
        (third_part ∷ first_part ∷ third_part ∷ second_part ∷ [])
      ≡ ok ps)
    × (part_set_is_complete ps ≡ true)
    × (contents ps.parts ≡ five_bytes)
parts-roundtrip_example =
    parts-roundtrip digest five_bytes 2 five_set
      (third_part ∷ first_part ∷ third_part ∷ second_part ∷ []) (omega arith) (omega arith)
      (omega arith) five_set-made (refl, (refl, (refl, (refl, tt)))) covers_all

five_held :
    (i : ℕ) (p : Part)
    → get_elem? five_set.parts i ≡ some (some p)
    → get_elem? pieces i ≡ some p.bytes
five_held zero p e = ground arith
five_held (suc zero) p e = ground arith
five_held (suc (suc zero)) p e = ground arith
five_held (suc (suc (suc i))) p e = ground arith

five_set-Received : Received digest pieces five_set
unfolding hash_from_byte_slices total_of ostracon.Merkle.Tree.inner_hash
    ostracon.Merkle.Split.split_point ostracon.Merkle.Tree.leaf_hash
five_set-Received = record {
  some_items = omega arith;
  fits = omega arith;
  total = refl;
  hash = refl;
  sized = refl;
  bits = (_, refl, record { some_bits = omega arith; sized = refl; words = (refl, tt) }, refl);
  counted = refl;
  measured = refl;
  held = five_held;
}

five_complete : part_set_is_complete five_set ≡ true
unfolding part_set_is_complete
five_complete = refl

get_reader-unread_example : (r : Reader) × (get_reader five_set ≡ ok r) × (unread r ≡ joined pieces)
get_reader-unread_example = get_reader-unread digest pieces five_set five_set-Received five_complete
