-- ===== src/Parts/Receiving.antt =====
-- Parts that arrive: what a part set holds in the end.
use native.Mathlib.Nat.{zero-add, zero-mul, le-mul_of_pos_right}
use ostracon.Prelude.{
  ◌+◌, ◌*◌, drop, ℕ, ◌≤◌, ◌<◌, ◌≡◌, ◌⊎◌, inl, inr, refl, sym, ap, ◌∙◌, subst, Bool, true, List, [],
  ◌∷◌, Option, none, some, arith, Bytes, length, get_elem?, get_elem?-lt, set, Option-cases,
}
use ostracon.Prelude.Int.{pos}
use ostracon.Prelude.Run.{Run, ok, ◌>>=◌}
use ostracon.Merkle.Tree.{IsDigest, hash_from_byte_slices}
use ostracon.Merkle.Proof.{Proof, verify, proofs_from_byte_slices}
use ostracon.Merkle.Complete.{proofs-at}
use ostracon.Merkle.Sound.{Collision, verify_sound}
use ostracon.Parts.PartSet.{
  Part, PartSet, PartError, uint32_limit, new_part_set_from_header, new_part_set_from_data,
  add_part, part_set_is_complete, header,
}
use ostracon.Parts.Cutting.{
  joined, chunks, chunk_count, length-chunks, chunk_count-pos, chunk_count-bounds, joined-chunks,
}
use ostracon.Parts.FromData.{contents, Whole, new_part_set_from_data-Whole}
use ostracon.Parts.Slots.{HasPart, HasPart-filled}
use ostracon.Parts.Adding.{
  Received, new_part_set_from_header-Received, complete-contents, add_part-stores,
  add_part-Received,
}

-- A part with the index is among the parts.
abbrev pub HasIndex : ℕ → List Part → Type 0
HasIndex i [] = ⊥
HasIndex i (p ∷ qs) = (p.index ≡ i) ⊎ HasIndex i qs

abbrev pub AllParts : (Part → Type 0) → List Part → Type 0
AllParts P [] = Unit
AllParts P (p ∷ qs) = P p × AllParts P qs

module _ (sum : Bytes → Bytes) where
  -- A part whose proof names the part's own index and the number of items does no harm to a part
  -- set of the items: AddPart returns, and what the set holds stays the items' bytes; otherwise two
  -- different inputs have one digest. The digests have one length, which is not zero.
  pub add_part_safe :
      {size : ℕ} (digest : IsDigest sum size) (items : List Bytes) (ps : PartSet) (p : Part)
      → 0 < size
      → Received sum items ps
      → p.proof.index ≡ pos p.index
      → p.proof.total ≡ pos (length items)
      → ((ps' : PartSet) × (added : Bool) × (e : Option PartError) × (add_part sum ps p
            ≡ ok (ps', added, e))
          × Received sum items ps')
        ⊎ Collision sum
  add_part_safe digest items ps p big r index total =
      elim (Option-cases (verify sum p.proof ps.hash p.bytes)) [
        | inr (x, bad) ↦ inl (keeps (λ good. cc (good, bad)))
        | inl good ↦
            let accepted = subst (λ h. verify sum p.proof h p.bytes ≡ none) r.hash good in
            elim (verify_sound sum digest p.proof items p.bytes big total accepted) [
              | inr collision ↦ inr collision
              | inl (i, at, item) ↦
                  let same : pos i ≡ pos p.index = sym at ∙ index in
                  let eq : i ≡ p.index = ground arith in
                  inl (keeps (λ _. subst (λ t. get_elem? items t ≡ some p.bytes) eq item))
            ]
      ]
    where
      keeps :
          (verify sum p.proof ps.hash p.bytes ≡ none → get_elem? items p.index ≡ some p.bytes)
          → (ps' : PartSet) × (added : Bool) × (e : Option PartError) × (add_part sum ps p
              ≡ ok (ps', added, e))
            × Received sum items ps'
      keeps belongs =
          let (ps', added, e, run, r', _, _) = add_part-Received sum items ps p r belongs in
          (ps', added, e, run, r')

  -- AddPart does not compare a part's index with that of its proof: the bytes and the proof of any
  -- item are stored in any slot of a part set of the items that is empty.
  pub add_part_anywhere :
      (items : List Bytes) (ps : PartSet) (i j : ℕ) (item : Bytes)
      → Received sum items ps
      → get_elem? ps.parts i ≡ some none
      → get_elem? items j ≡ some item
      → (sp : Proof) × (ps' : PartSet) × (get_elem? (proofs_from_byte_slices sum items).1 j
          ≡ some sp)
        × (add_part sum ps (record { index = i; bytes = item; proof = sp }) ≡ ok (ps', true, none))
        × (ps'.parts ≡ set ps.parts i (some (record { index = i; bytes = item; proof = sp })))
  add_part_anywhere items ps i j item r empty here =
      let (sp, listed, _, _, accepted) = proofs-at sum items j item here in
      let good = subst (λ h. verify sum sp h item ≡ none) (sym r.hash) accepted in
      let (ps', run, _, parts) =
        add_part-stores sum items ps (record { index = i; bytes = item; proof = sp }) r empty
          good in
      (sp, ps', listed, run, parts)

  -- Parts that arrive one after another.
  unfoldable pub receive : PartSet → List Part → Run PartSet
  receive ps [] = ok ps
  receive ps (p ∷ qs) = add_part sum ps p >>= λ (ps', _, _). receive ps' qs

  abbrev Genuine : List Bytes → Part → Type 0
  Genuine items p =
      (get_elem? items p.index ≡ some p.bytes)
      × (verify sum p.proof (hash_from_byte_slices sum items) p.bytes ≡ none)

  receive-Received :
      (items : List Bytes) (qs : List Part) (ps : PartSet)
      → Received sum items ps
      → AllParts (Genuine items) qs
      → (ps' : PartSet) × (receive ps qs ≡ ok ps')
        × Received sum items ps'
        × ((i : ℕ) → HasPart ps.parts i → HasPart ps'.parts i)
        × ((i : ℕ) → HasIndex i qs → HasPart ps'.parts i)
  unfolding receive
  receive-Received items [] ps r g = (ps, refl, r, λ i h. h, λ i h. absurd h)
  receive-Received items (p ∷ qs) ps r g =
      let (own, rest) = g in
      let good : verify sum p.proof ps.hash p.bytes ≡ none =
        subst (λ h. verify sum p.proof h p.bytes ≡ none) (sym r.hash) own.1 in
      let (ps1, added, e, run, r1, keeps, stored) =
        add_part-Received sum items ps p r (λ _. own.0) in
      let (ps2, later, r2, keeps2, stored2) = receive-Received items qs ps1 r1 rest in
      (
        ps2,
        ap (λ t. t >>= next) run ∙ later,
        r2,
        λ i h. keeps2 i (keeps i h),
        λ i h. elim h [
          | inl same ↦ keeps2 i (
              subst (λ (t : ℕ). HasPart ps1.parts t) same
                (stored good (get_elem?-lt items p.index own.0)))
          | inr in_rest ↦ stored2 i in_rest
        ],
      )
    where
      next : PartSet × Bool × Option PartError → Run PartSet
      next (ps', _, _) = receive ps' qs

  receive_complete :
      (items : List Bytes) (qs : List Part)
      → 0 < length items
      → length items < uint32_limit
      → AllParts (Genuine items) qs
      → ((i : ℕ) → i < length items → HasIndex i qs)
      → (ps : PartSet) × (receive
            (new_part_set_from_header
              (record { total = length items; hash = hash_from_byte_slices sum items }))
            qs
          ≡ ok ps)
        × (part_set_is_complete ps ≡ true)
        × (contents ps.parts ≡ joined items)
  receive_complete items qs some_items fits genuine covers =
      let start = new_part_set_from_header-Received sum items some_items fits in
      let (ps, run, r, _, stored) = receive-Received items qs _ start genuine in
      let sized = r.sized in
      let counted = r.counted in
      let total = r.total in
      let all = HasPart-filled ps.parts (λ i lt. stored i (covers i (omega (arith, sized)))) in
      let done : part_set_is_complete ps ≡ true =
        unfold part_set_is_complete in
        (let same : ps.count ≡ ps.total = omega (arith, counted, all, sized, total) in
          ground arith) in
      (ps, run, done, complete-contents sum items ps r done)

  -- A part of the set, in the slot of its index.
  abbrev pub PartOf : PartSet → Part → Type 0
  PartOf whole p = get_elem? whole.parts p.index ≡ some (some p)

  -- Data that is cut into parts comes together again: a set made from the header and given parts of
  -- the cut set, in any order and any number of times, each index at least once, is complete and
  -- holds the data. The data is not empty, and its size does not wrap with that of a part.
  pub parts-roundtrip :
      (b : Bytes) (size : ℕ) (whole : PartSet) (qs : List Part)
      → 0 < size
      → 0 < length b
      → length b + size ≤ uint32_limit
      → new_part_set_from_data sum b size ≡ ok whole
      → AllParts (PartOf whole) qs
      → ((i : ℕ) → i < whole.total → HasIndex i qs)
      → (ps : PartSet) × (receive (new_part_set_from_header (header whole)) qs ≡ ok ps)
        × (part_set_is_complete ps ≡ true)
        × (contents ps.parts ≡ b)
  unfolding header
  parts-roundtrip b size whole qs p some_data fits made own covers =
      let (made_ps, run, w0) = new_part_set_from_data-Whole sum b size p some_data fits in
      let both : ok made_ps ≡ ok whole = sym run ∙ made in
      let same : made_ps ≡ whole = ground arith in
      let w = subst (Whole sum b size) same w0 in
      let count = length-chunks b size total 0 in
      let positive = chunk_count-pos (length b) size p some_data in
      let (low, high) = chunk_count-bounds (length b) size p in
      let small = le-mul_of_pos_right total p in
      let (ps, got, done, held) =
        receive_complete items qs (omega (arith, count, positive))
          (omega (arith, count, small, high, fits)) (genuine w qs own)
          (λ i lt. covers i (omega (arith, lt, count, w.total))) in
      let head : header whole
          ≡ record { total = length items; hash = hash_from_byte_slices sum items } =
        λ k. record { total = (w.total ∙ sym count) k; hash = w.hash k } in
      (
        ps,
        ap (λ h. receive (new_part_set_from_header h) qs) head ∙ got,
        done,
        held
            ∙ (joined-chunks b size total 0
                  (omega (arith, low, zero-add total, ap (λ (t : ℕ). t * size) (zero-add total)))
                ∙ ap (λ (t : ℕ). drop t b) (zero-mul size)),
      )
    where
      total : ℕ
      total = chunk_count (length b) size

      items : List Bytes
      items = chunks b size total 0

      part_genuine : Whole sum b size whole → (q : Part) → PartOf whole q → Genuine items q
      part_genuine w q here =
          let lt = get_elem?-lt whole.parts q.index here in
          let sized = w.sized in
          let (q', at, _, item, _, _, accepted) = w.at q.index (omega arith) in
          let both : some (some q') ≡ some (some q) = sym at ∙ here in
          let same : q' ≡ q = ground arith in
          (
            subst (λ (t : Part). get_elem? items q.index ≡ some t.bytes) same item,
            subst (λ h. verify sum q.proof h q.bytes ≡ none) w.hash
                (subst (λ (t : Part). verify sum t.proof whole.hash t.bytes ≡ none) same accepted),
          )

      genuine :
          Whole sum b size whole
          → (ps : List Part) → AllParts (PartOf whole) ps
          → AllParts (Genuine items) ps
      genuine w [] h = tt
      genuine w (q ∷ ps) h = (part_genuine w q h.0, genuine w ps h.1)
