-- ===== src/Parts/Reader.antt =====
-- PartSetReader of types/part_set.go. A bytes.Reader is the bytes it has left.
use ostracon.Prelude.{
  ℕ, suc, ◌-◌, ◌≤◌, ◌<◌, ◌≡◌, refl, sym, ap, ◌∙◌, Bool, true, false, List, [], ◌∷◌, ◌++◌, Option,
  none, some, arith, Bytes, length, take, drop, length-append, take-append_short, take-append_long,
  drop-append_short, drop-append_long, take-nil, drop-nil, append-nil, ltb, leb, ◌==◌,
  if◌then◌else◌, Bool-cases, inl, inr,
}
use ostracon.Prelude.Run.{Run, ok, panic, ◌>>=◌}
use ostracon.Parts.PartSet.{Part, PartSet, part_set_is_complete}
use ostracon.Parts.Cutting.{joined}
use ostracon.Parts.FromData.{contents}
use ostracon.Parts.Slots.{filled, filled-bound}
use ostracon.Parts.Adding.{Received, complete-contents}

-- What the current reader has left, and the bytes of the parts after it.
pub record Reader : Type 0 where
  pub left : Bytes
  pub later : List Bytes

-- bytes.Reader.Read into n bytes: what is read, and whether the error is io.EOF.
unfoldable pub bytes_read : Bytes → ℕ → Bytes × Bool
bytes_read b n = if length b == 0 then ([], true) else (take n b, false)

-- Read into n bytes, from what the current reader has left and the later parts.
unfoldable pub read_from : Bytes → List Bytes → ℕ → Reader × Bytes × Bool
unfolding bytes_read
read_from left [] n =
    let (got, eof) = bytes_read left n in
    if leb n (length left)
    then (record { left = drop n left; later = [] }, got, eof)
    else (record { left = []; later = [] }, left, true)
read_from left (b ∷ later) n =
    let (next, got, eof) = read_from b later (n - length left) in
    let (here, ended) = bytes_read left n in
    if leb n (length left)
    then (record { left = drop n left; later = b ∷ later }, here, ended)
    else (next, left ++ got, eof)

unfoldable pub read : Reader → ℕ → Reader × Bytes × Bool
unfolding read_from
read r n = read_from r.left r.later n

unfoldable pub part_bytes : List (Option Part) → Run (List Bytes)
part_bytes [] = ok []
part_bytes (none ∷ parts) = panic
part_bytes (some p ∷ parts) = part_bytes parts >>= λ rest. ok (p.bytes ∷ rest)

-- GetReader. NewPartSetReader reads the first part at once; a part that is missing panics when the
-- reader comes to it, and here at once.
unfoldable pub get_reader : PartSet → Run Reader
unfolding part_bytes
get_reader ps =
    if part_set_is_complete ps
    then (part_bytes ps.parts >>= λ bs. elim bs [
      | [] ↦ panic
      | b ∷ later ↦ ok (record { left = b; later = later })
    ])
    else panic

abbrev pub unread : Reader → Bytes
unread r = r.left ++ joined r.later

abbrev pub Exact : ℕ → Bytes → Reader × Bytes × Bool → Type 0
Exact n all (next, got, eof) =
    (got ≡ take n all) × (unread next ≡ drop n all) × (eof ≡ ltb (length all) n)

-- A read that the current reader can serve alone.
bytes_read-first :
    (left more : Bytes) (later : List Bytes) (n : ℕ)
    → 0 < n
    → n ≤ length left
    → joined later ≡ more
    → Exact n
        (left ++ more)
        (record { left = drop n left; later = later }, (bytes_read left n).0, (bytes_read left n).1)
unfolding bytes_read
bytes_read-first left more later n h le e =
    let full : (length left == 0) ≡ false = ground arith in
    let size = length-append left more in
    (
      rw full (sym (take-append_short n left more le)),
      ap (λ (t : Bytes). drop n left ++ t) e ∙ sym (drop-append_short n left more le),
      rw full (ground arith),
    )

read_from-Exact :
    (left : Bytes) (later : List Bytes) (n : ℕ)
    → 0 < n
    → Exact n (left ++ joined later) (read_from left later n)
unfolding read_from
read_from-Exact left [] n h = elim (Bool-cases (leb n (length left))) [
  | inl t ↦ rw t (bytes_read-first left [] [] n h (ground arith) refl)
  | inr f ↦
      let size = length-append left [] in
      rw f (
        sym (
            take-append_long n left [] (ground arith)
            ∙ (ap (λ (t : Bytes). left ++ t) (take-nil (n - length left)) ∙ append-nil left)),
        sym (drop-append_long n left [] (ground arith) ∙ drop-nil (n - length left)),
        ground arith,
      )
]
read_from-Exact left (b ∷ later) n h = elim (Bool-cases (leb n (length left))) [
  | inl t ↦ rw t (bytes_read-first left (b ++ joined later) (b ∷ later) n h (ground arith) refl)
  | inr f ↦
      let more : 0 < n - length left = ground arith in
      let (got, next, eof) = read_from-Exact b later (n - length left) more in
      let size = length-append left (b ++ joined later) in
      rw f (
        ap (λ (t : Bytes). left ++ t) got
            ∙ sym (take-append_long n left (b ++ joined later) (ground arith)),
        next ∙ sym (drop-append_long n left (b ++ joined later) (ground arith)),
        eof ∙ ground arith,
      )
]

-- A read of at least one byte returns the next bytes, as many as are there, across the borders of
-- the parts; the rest stays unread, and the error is io.EOF exactly if there were too few.
pub read-Exact : (r : Reader) (n : ℕ) → 0 < n → Exact n (unread r) (read r n)
unfolding read
read-Exact r n h = read_from-Exact r.left r.later n h

part_bytes-all :
    (parts : List (Option Part))
    → filled parts ≡ length parts
    → (bs : List Bytes) × (part_bytes parts ≡ ok bs)
      × (joined bs ≡ contents parts)
      × (length bs ≡ length parts)
unfolding part_bytes
part_bytes-all [] h = ([], refl, refl, refl)
part_bytes-all (none ∷ parts) h = absurd (omega (arith, filled-bound parts))
part_bytes-all (some p ∷ parts) h =
    let (bs, run, held, size) = part_bytes-all parts (omega arith) in
    (
      p.bytes ∷ bs,
      ap (λ r. r >>= λ rest. ok (p.bytes ∷ rest)) run,
      ap (λ (t : Bytes). p.bytes ++ t) held,
      ap suc size,
    )

module _ (sum : Bytes → Bytes) where
  -- GetReader of a complete part set of some items does not panic, and its reader has all bytes of
  -- the items before it.
  pub get_reader-unread :
      (items : List Bytes) (ps : PartSet)
      → Received sum items ps
      → part_set_is_complete ps ≡ true
      → (r : Reader) × (get_reader ps ≡ ok r) × (unread r ≡ joined items)
  unfolding get_reader
  get_reader-unread items ps got done =
      let counted = got.counted in
      let total = got.total in
      let sized = got.sized in
      let some_items = got.some_items in
      let all : ps.count ≡ ps.total = unfold part_set_is_complete in (ground arith) in
      let (bs, run, held, size) =
        part_bytes-all ps.parts (omega (arith, all, counted, total, sized)) in
      by_first bs run (held ∙ complete-contents sum items ps got done)
        (omega (arith, size, sized, some_items))
    where
      start : List Bytes → Run Reader
      start bs = elim bs [ [] ↦ panic | b ∷ later ↦ ok (record { left = b; later = later }) ]

      by_first :
          (bs : List Bytes)
          → part_bytes ps.parts ≡ ok bs
          → joined bs ≡ joined items
          → 0 < length bs
          → (r : Reader) × (get_reader ps ≡ ok r) × (unread r ≡ joined items)
      by_first [] run held some_parts = absurd (omega arith)
      by_first (b ∷ later) run held some_parts =
          (record { left = b; later = later }, rw done (ap (λ t. t >>= start) run), held)
