-- ===== src/Merkle/Trails.antt =====
-- The trails of trailsFromByteSlices: each leads from its leaf to the root.
use mathlib.Core.Option
use mathlib.Core.List.{reverse, reverse-append}
use native.Mathlib.Decide.{dec_lt}
use ostracon.Prelude.{
  ℕ, zero, suc, ◌+◌, ◌-◌, ◌≤◌, ◌<◌, ◌≡◌, refl, sym, ap, ◌∙◌, List, [], ◌∷◌, ◌++◌, map, Option, some,
  arith, Bytes, length, take, drop, get_elem?, length-append, length-map, get_elem?-append_left,
  get_elem?-append_right, get_elem?-take, get_elem?-drop, get_elem?-lt, get_elem?-map,
}
use ostracon.Merkle.Split.{split_point}
use ostracon.Merkle.Tree.{
  leaf_hash, inner_hash, hash_from_byte_slices, split_lengths, hash-one, hash-split,
}
use ostracon.Merkle.Proof.{Trail, extend, trails_go, hash_up}

module _ (sum : Bytes → Bytes) where
  pub trails_go-root :
      (f : ℕ) (items : List Bytes)
      → length items ≤ f
      → (trails_go sum f items).1 ≡ hash_from_byte_slices sum items
  unfolding trails_go
  trails_go-root zero [] h = unfold hash_from_byte_slices in refl
  trails_go-root zero (x ∷ r) h = absurd (omega arith)
  trails_go-root (suc f) [] h = unfold hash_from_byte_slices in refl
  trails_go-root (suc f) (x ∷ []) h = sym (hash-one sum x)
  trails_go-root (suc f) (x ∷ y ∷ r) h =
      let items = x ∷ y ∷ r in
      let k = split_point (length items) in
      let s = split_lengths items (omega arith) in
      let l = trails_go-root f (take k items) (omega (arith, s)) in
      let d = trails_go-root f (drop k items) (omega (arith, s)) in
      cc (hash-split sum items (omega arith), l, d)

  pub trails_go-length :
      (f : ℕ) (items : List Bytes)
      → length items ≤ f
      → length (trails_go sum f items).0 ≡ length items
  unfolding trails_go
  trails_go-length zero [] h = refl
  trails_go-length zero (x ∷ r) h = absurd (omega arith)
  trails_go-length (suc f) [] h = refl
  trails_go-length (suc f) (x ∷ []) h = refl
  trails_go-length (suc f) (x ∷ y ∷ r) h =
      let items = x ∷ y ∷ r in
      let k = split_point (length items) in
      let s = split_lengths items (omega arith) in
      let l = trails_go-length f (take k items) (omega (arith, s)) in
      let d = trails_go-length f (drop k items) (omega (arith, s)) in
      let lefts = (trails_go sum f (take k items)).0 in
      let rights = (trails_go sum f (drop k items)).0 in
      let lr = (trails_go sum f (take k items)).1 in
      let rr = (trails_go sum f (drop k items)).1 in
      omega (
        arith,
        length-append (map (extend rr) lefts) (map (extend lr) rights),
        length-map lefts (extend rr),
        length-map rights (extend lr),
        s,
      )

  -- The trail of the item at `i`, and the root that its hashes give.
  abbrev pub Leads : List Bytes → List Trail × Bytes → ℕ → Bytes → List Bytes → Type 0
  Leads items t i item aunts =
      (get_elem? t.0 i ≡ some (leaf_hash sum item, aunts))
      × (hash_up sum i (length items) (some (leaf_hash sum item)) (reverse aunts) ≡ some t.1)

  hash_up-left :
      (i n : ℕ) (leaf : Option Bytes) (aunt : Bytes) (up : List Bytes)
      → i < split_point n
      → split_point n < n
      → 2 ≤ n
      → hash_up sum i n leaf (aunt ∷ up)
        ≡ Option.map (λ h. inner_hash sum h aunt) (hash_up sum i (split_point n) leaf up)
  unfolding hash_up
  hash_up-left i n leaf aunt up h k two = ground arith

  hash_up-right :
      (i n : ℕ) (leaf : Option Bytes) (aunt : Bytes) (up : List Bytes)
      → split_point n ≤ i
      → i < n
      → 2 ≤ n
      → hash_up sum i n leaf (aunt ∷ up)
        ≡ Option.map
            (λ h. inner_hash sum aunt h)
            (hash_up sum (i - split_point n) (n - split_point n) leaf up)
  unfolding hash_up
  hash_up-right i n leaf aunt up h k two = ground arith

  reverse-snoc : (xs : List Bytes) (x : Bytes) → reverse (xs ++ x ∷ []) ≡ x ∷ reverse xs
  reverse-snoc xs x = reverse-append xs (x ∷ [])

  -- A trail that leads to the root of one side leads to the root above it, by the other side.
  Leads-left :
      (items : List Bytes) (lefts rights : List Trail) (lr rr : Bytes) (i : ℕ) (item : Bytes)
      (aunts : List Bytes)
      → 2 ≤ length items
      → i < split_point (length items)
      → Leads (take (split_point (length items)) items) (lefts, lr) i item aunts
      → Leads items
          (map (extend rr) lefts ++ rights, inner_hash sum lr rr)
          i
          item
          (aunts ++ rr ∷ [])
  Leads-left items lefts rights lr rr i item aunts two below (at, up) =
      let s = split_lengths items two in
      let bound : i < length (map (extend rr) lefts) =
        omega (arith, length-map lefts (extend rr), get_elem?-lt lefts i at) in
      let up' = rw s.0 at up in
      (
        get_elem?-append_left (map (extend rr) lefts) rights i bound
            ∙ get_elem?-map (extend rr) lefts i at,
        rw (reverse-snoc aunts rr) (
            hash_up-left i (length items) (some (leaf_hash sum item)) rr (reverse aunts) below s.3
              two
            ∙ ap (Option.map (λ h. inner_hash sum h rr)) up'),
      )

  Leads-right :
      (items : List Bytes) (lefts rights : List Trail) (lr rr : Bytes) (i : ℕ) (item : Bytes)
      (aunts : List Bytes)
      → 2 ≤ length items
      → split_point (length items) ≤ i
      → i < length items
      → length lefts ≡ split_point (length items)
      → Leads
          (drop (split_point (length items)) items)
          (rights, rr)
          (i - split_point (length items))
          item
          aunts
      → Leads items
          (lefts ++ map (extend lr) rights, inner_hash sum lr rr)
          i
          item
          (aunts ++ lr ∷ [])
  Leads-right items lefts rights lr rr i item aunts two above inside size (at, up) =
      let k = split_point (length items) in
      let s = split_lengths items two in
      let up' = rw s.1 at up in
      (
        get_elem?-append_right lefts (map (extend lr) rights) i (rw size above)
            ∙ ap (λ (t : ℕ). get_elem? (map (extend lr) rights) (i - t)) size
            ∙ get_elem?-map (extend lr) rights (i - k) at,
        rw (reverse-snoc aunts lr) (
            hash_up-right i (length items) (some (leaf_hash sum item)) lr (reverse aunts) above
              inside two
            ∙ ap (Option.map (λ h. inner_hash sum lr h)) up'),
      )

  pub trails_go-Leads :
      (f : ℕ) (items : List Bytes) (i : ℕ) {item : Bytes}
      → length items ≤ f
      → get_elem? items i ≡ some item
      → (aunts : List Bytes) × Leads items (trails_go sum f items) i item aunts
  unfolding trails_go
  trails_go-Leads zero [] i h e = ground arith
  trails_go-Leads zero (x ∷ r) i h e = absurd (omega arith)
  trails_go-Leads (suc f) [] i h e = ground arith
  trails_go-Leads (suc f) (x ∷ []) zero h e = unfold hash_up in ([], (ground arith, ground arith))
  trails_go-Leads (suc f) (x ∷ []) (suc i) h e = ground arith
  trails_go-Leads (suc f) (x ∷ y ∷ r) i {item} h e =
      let items = x ∷ y ∷ r in
      let k = split_point (length items) in
      let s = split_lengths items (omega arith) in
      let (lefts, lr) = trails_go sum f (take k items) in
      let (rights, rr) = trails_go sum f (drop k items) in
      elim (dec_lt i k) [
        | yes below ↦
            let here = get_elem?-take k items i below ∙ e in
            let (aunts, leads) = trails_go-Leads f (take k items) i (omega (arith, s)) here in
            (
              aunts ++ rr ∷ [],
              Leads-left items lefts (map (extend lr) rights) lr rr i item aunts (omega arith) below
                  leads,
            )
        | no above ↦
            let same : k + (i - k) ≡ i = omega arith in
            let here = get_elem?-drop k items (i - k) ∙ ap (get_elem? items) same ∙ e in
            let (aunts, leads) = trails_go-Leads f (drop k items) (i - k) (omega (arith, s)) here in
            (
              aunts ++ lr ∷ [],
              Leads-right items (map (extend rr) lefts) rights lr rr i item aunts (omega arith)
                  (omega arith) (get_elem?-lt items i e)
                  (length-map lefts (extend rr)
                    ∙ trails_go-length f (take k items) (omega (arith, s))
                    ∙ s.0)
                  leads,
            )
      ]
