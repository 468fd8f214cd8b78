-- ===== src/Parts/Adding.antt =====
-- AddPart on a part set that is being received.
use ostracon.Prelude.{
  ℕ, ◌+◌, ◌%◌, ◌<◌, ◌≡◌, inl, inr, refl, sym, ap, ◌∙◌, subst, Bool, true, false, List, Option, none,
  some, arith, Bytes, length, get_elem?, get_elem?-in, get_elem?-lt, set, length-set,
  get_elem?-set_self, length-replicate, leb, Bool-cases, Option-cases,
}
use ostracon.Prelude.Run.{Run, ok, ◌>>=◌}
use ostracon.Bits.Array.{BitArray, set_index}
use ostracon.Bits.Sized.{BitsFor, BitsFor-new_bit_array, BitsFor-set_index}
use ostracon.Merkle.Tree.{hash_from_byte_slices}
use ostracon.Merkle.Proof.{ProofError, verify}
use ostracon.Parts.PartSet.{
  Part, PartSet, PartError, unexpected_index, invalid_proof, uint32_limit, new_part_set_from_header,
  get_part, add_part, part_set_is_complete,
}
use ostracon.Parts.Cutting.{joined}
use ostracon.Parts.FromData.{contents}
use ostracon.Parts.Slots.{
  Slots, filled, filled-bound, HasPart, filled-set, length-contents-set, filled-replicate,
  contents-replicate, replicate-none, contents-items, slot-set, HasPart-set,
}

get_part-ok :
    (ps : PartSet) (i : ℕ) {o : Option Part} → get_elem? ps.parts i ≡ some o → get_part ps i ≡ ok o
unfolding get_part
get_part-ok ps i e = ground arith

module _ (sum : Bytes → Bytes) where
  -- A part set for the items whose root it has, of which some may have arrived.
  pub record Received (items : List Bytes) (ps : PartSet) : Type 0 where
    pub some_items : 0 < length items
    pub fits : length items < uint32_limit
    pub total : ps.total ≡ length items
    pub hash : ps.hash ≡ hash_from_byte_slices sum items
    pub sized : length ps.parts ≡ length items
    pub bits : BitsFor (length items) ps.parts_bit_array
    pub counted : ps.count ≡ filled ps.parts
    pub measured : ps.byte_size ≡ length (contents ps.parts)
    pub held :
        (i : ℕ) (p : Part) → get_elem? ps.parts i ≡ some (some p) → get_elem? items i ≡ some p.bytes

  -- NewPartSetFromHeader, for the header of a list of items that is not empty.
  pub new_part_set_from_header-Received :
      (items : List Bytes)
      → 0 < length items
      → length items < uint32_limit
      → Received items (
          new_part_set_from_header
            (record { total = length items; hash = hash_from_byte_slices sum items }))
  unfolding new_part_set_from_header
  new_part_set_from_header-Received items some_items fits = record {
    some_items = some_items;
    fits = fits;
    total = refl;
    hash = refl;
    sized = length-replicate (length items) none;
    bits = BitsFor-new_bit_array (length items) some_items;
    counted = sym (filled-replicate (length items));
    measured = sym (ap length (contents-replicate (length items)));
    held = λ i p e. absurd (omega (arith, replicate-none (length items) i p e));
  }

  -- A complete part set of the items holds them all, in order.
  pub complete-contents :
      (items : List Bytes) (ps : PartSet)
      → Received items ps
      → part_set_is_complete ps ≡ true
      → contents ps.parts ≡ joined items
  unfolding part_set_is_complete
  complete-contents items ps r e =
      let counted = r.counted in
      let total = r.total in
      let sized = r.sized in
      let all : ps.count ≡ ps.total = ground arith in
      contents-items ps.parts items r.sized r.held (omega (arith, all, counted, total, sized))

  -- AddPart stores a part whose proof is accepted in a slot that is empty.
  pub add_part-stores :
      (items : List Bytes) (ps : PartSet) (p : Part)
      → Received items ps
      → get_elem? ps.parts p.index ≡ some none
      → verify sum p.proof ps.hash p.bytes ≡ none
      → (ps' : PartSet) × (add_part sum ps p ≡ ok (ps', true, none))
        × (get_elem? items p.index ≡ some p.bytes → Received items ps')
        × (ps'.parts ≡ set ps.parts p.index (some p))
  unfolding add_part get_part
  add_part-stores items ps p r empty accepted =
      let lt = get_elem?-lt ps.parts p.index empty in
      let sized = r.sized in
      let total = r.total in
      let counted = r.counted in
      let measured = r.measured in
      let inside : leb ps.total p.index ≡ false = ground arith in
      let (bits, run, good) =
        BitsFor-set_index (length items) ps.parts_bit_array p.index r.bits (omega arith) in
      let more = filled-set ps.parts p.index p empty in
      let bound = filled-bound (set ps.parts p.index (some p)) in
      let same_length = length-set ps.parts p.index (some p) in
      let fits = r.fits in
      let bytes_more = length-contents-set ps.parts p.index p empty in
      (
        stored bits,
        rw inside (
            ap (λ t. t >>= after_get) (get_part-ok ps p.index empty)
            ∙ (ap after_verify accepted ∙ ap (λ t. t >>= after_bits) run)),
        λ belongs. record {
          some_items = r.some_items;
          fits = r.fits;
          total = r.total;
          hash = r.hash;
          sized = same_length ∙ r.sized;
          bits = good;
          counted = omega arith;
          measured = omega (arith, measured, bytes_more);
          held = λ j q e. elim (slot-set ps.parts p.index j p q e) [
            | inr old ↦ r.held j q old
            | inl (at, same) ↦
                subst (λ (t : ℕ). get_elem? items t ≡ some q.bytes) at
                  (belongs ∙ ap (λ (t : Part). some t.bytes) same)
          ];
        },
        refl,
      )
    where
      stored : Option BitArray → PartSet
      stored bits = record ps {
        parts = set ps.parts p.index (some p);
        parts_bit_array = bits;
        count = (ps.count + 1) % uint32_limit;
        byte_size = ps.byte_size + length p.bytes;
      }

      after_bits : Option BitArray × Bool → Run (PartSet × Bool × Option PartError)
      after_bits (bits, _) = ok (stored bits, true, none)

      after_verify : Option ProofError → Run (PartSet × Bool × Option PartError)
      after_verify result = elim result [
        | some e ↦ ok (ps, false, some invalid_proof)
        | none ↦ set_index ps.parts_bit_array p.index true >>= after_bits
      ]

      after_get : Option Part → Run (PartSet × Bool × Option PartError)
      after_get known = elim known [
        | some q ↦ ok (ps, false, none)
        | none ↦ after_verify (verify sum p.proof ps.hash p.bytes)
      ]

  -- AddPart, where the part belongs in its slot or the slot is taken or the proof fails.
  pub add_part-Received :
      (items : List Bytes) (ps : PartSet) (p : Part)
      → Received items ps
      → (verify sum p.proof ps.hash p.bytes ≡ none → get_elem? items p.index ≡ some p.bytes)
      → (ps' : PartSet) × (added : Bool) × (e : Option PartError) × (add_part sum ps p
          ≡ ok (ps', added, e))
        × Received items ps'
        × ((i : ℕ) → HasPart ps.parts i → HasPart ps'.parts i)
        × (verify sum p.proof ps.hash p.bytes ≡ none
            → p.index < length items
            → HasPart ps'.parts p.index)
  add_part-Received items ps p r belongs = elim (Bool-cases (leb ps.total p.index)) [
    | inl outside ↦
        let total = r.total in
        (
          ps,
          false,
          some unexpected_index,
          unfold add_part in rw outside refl,
          r,
          λ i h. h,
          λ v lt. ground arith,
        )
    | inr inside ↦
        let total = r.total in
        let sized = r.sized in
        let (o, at) = get_elem?-in ps.parts p.index (ground arith) in by_slot inside o at
  ]
    where
      Result : Type 0
      Result =
          (ps' : PartSet) × (added : Bool) × (e : Option PartError) × (add_part sum ps p
            ≡ ok (ps', added, e))
          × Received items ps'
          × ((i : ℕ) → HasPart ps.parts i → HasPart ps'.parts i)
          × (verify sum p.proof ps.hash p.bytes ≡ none
              → p.index < length items
              → HasPart ps'.parts p.index)

      after_verify : Option ProofError → Run (PartSet × Bool × Option PartError)
      after_verify result = elim result [
        | some e ↦ ok (ps, false, some invalid_proof)
        | none ↦ set_index ps.parts_bit_array p.index true >>= λ (bits, _). ok (
          record ps {
            parts = set ps.parts p.index (some p);
            parts_bit_array = bits;
            count = (ps.count + 1) % uint32_limit;
            byte_size = ps.byte_size + length p.bytes;
          },
          true,
          none,
        )
      ]

      after_get : Option Part → Run (PartSet × Bool × Option PartError)
      after_get known = elim known [
        | some q ↦ ok (ps, false, none)
        | none ↦ after_verify (verify sum p.proof ps.hash p.bytes)
      ]

      by_slot :
          leb ps.total p.index ≡ false
          → (o : Option Part) → get_elem? ps.parts p.index ≡ some o
          → Result
      by_slot inside (some q) at = (
        ps,
        false,
        none,
        unfold add_part in rw inside (ap (λ t. t >>= after_get) (get_part-ok ps p.index at)),
        r,
        λ i h. h,
        λ v lt. (q, at),
      )
      by_slot inside none at = elim (Option-cases (verify sum p.proof ps.hash p.bytes)) [
        | inr (x, bad) ↦ (
          ps,
          false,
          some invalid_proof,
          unfold add_part in
              rw inside
                (ap (λ t. t >>= after_get) (get_part-ok ps p.index at) ∙ ap after_verify bad),
          r,
          λ i h. h,
          λ v lt. cc (v, bad),
        )
        | inl good ↦
            let (ps', run, r', parts) = add_part-stores items ps p r at good in
            (
              ps',
              true,
              none,
              run,
              r' (belongs good),
              λ i h.
                  subst (λ (t : Slots). HasPart t i) (sym parts)
                    (HasPart-set ps.parts p.index i p h),
              λ v lt.
                  subst (λ (t : Slots). HasPart t p.index) (sym parts)
                    (
                      p,
                      get_elem?-set_self ps.parts p.index (some p)
                          (get_elem?-lt ps.parts p.index at),
                    ),
            )
      ]
