-- ===== src/Parts/Cutting.antt =====
-- How NewPartSetFromData cuts its data.
use Prim.Native.Nat.{min}
use native.Mathlib.Nat.{
  add-mul, one-mul, le-mul_of_pos_right, mul-le-mul_right, lt-div-mul-add, div-mul-le_self,
  zero-mul,
}
use ostracon.Prelude.{
  ℕ, zero, suc, ◌+◌, ◌-◌, ◌*◌, ◌/◌, ◌%◌, ◌≤◌, ◌<◌, ◌≡◌, refl, sym, ap, ◌∙◌, Bool, true, false, List,
  [], ◌∷◌, ◌++◌, Option, arith, Bytes, length, take, drop, length-drop, take-append-drop, drop-nil,
  ltb, leb, ◌==◌, Bool-cases, inl, inr,
}
use ostracon.Prelude.Run.{Run, ok, ◌>>=◌}
use ostracon.Bits.Array.{BitArray, set_index}
use ostracon.Bits.Sized.{BitsFor, BitsFor-set_index}
use ostracon.Parts.PartSet.{uint32_limit, slice, cut_parts, total_parts}

-- The n chunks of a size, from the i-th on.
abbrev pub chunks : Bytes → ℕ → ℕ → ℕ → List Bytes
chunks b size zero i = []
chunks b size (suc n) i = take size (drop (i * size) b) ∷ chunks b size n (i + 1)

abbrev pub joined : List Bytes → Bytes
joined [] = []
joined (c ∷ cs) = c ++ joined cs

-- The number of chunks, rounded up.
abbrev pub chunk_count : ℕ → ℕ → ℕ
chunk_count len size = (len + size - 1) / size

pub length-chunks : (b : Bytes) (size n i : ℕ) → length (chunks b size n i) ≡ n
length-chunks b size zero i = refl
length-chunks b size (suc n) i = ap suc (length-chunks b size n (i + 1))

take-all : (m n : ℕ) (b : Bytes) → length b ≤ m → length b ≤ n → take m b ≡ take n b
take-all zero zero [] p q = refl
take-all zero (suc n) [] p q = refl
take-all (suc m) zero [] p q = refl
take-all (suc m) (suc n) [] p q = refl
take-all zero n (x ∷ b) p q = absurd (omega arith)
take-all (suc m) zero (x ∷ b) p q = absurd (omega arith)
take-all (suc m) (suc n) (x ∷ b) p q = ap (◌∷◌ x) (take-all m n b (omega arith) (omega arith))

drop-drop : (m n : ℕ) (b : Bytes) → drop m (drop n b) ≡ drop (n + m) b
drop-drop m zero b = ap (λ (t : ℕ). drop t b) (omega arith)
drop-drop m (suc n) [] = drop-nil m ∙ sym (drop-nil (suc n + m))
drop-drop m (suc n) (x ∷ b) =
    let e : suc (n + m) ≡ suc n + m = omega arith in
    drop-drop m n b ∙ ap (λ (t : ℕ). drop t (x ∷ b)) e

drop-all : (n : ℕ) (b : Bytes) → length b ≤ n → drop n b ≡ []
drop-all zero [] p = refl
drop-all (suc n) [] p = refl
drop-all zero (x ∷ b) p = absurd (omega arith)
drop-all (suc n) (x ∷ b) p = drop-all n b (omega arith)

next_offset : (i size : ℕ) → (i + 1) * size ≡ i * size + size
next_offset i size = add-mul i 1 size ∙ ap (λ (t : ℕ). i * size + t) (one-mul size)

-- Enough chunks hold all that is left.
pub joined-chunks :
    (b : Bytes) (size n i : ℕ)
    → length b ≤ (i + n) * size
    → joined (chunks b size n i) ≡ drop (i * size) b
joined-chunks b size zero i h =
    let same : (i + 0) * size ≡ i * size = ap (λ (t : ℕ). t * size) (omega arith) in
    sym (drop-all (i * size) b (omega (arith, same)))
joined-chunks b size (suc n) i h =
    let same : (i + suc n) * size ≡ (i + 1 + n) * size = ap (λ (t : ℕ). t * size) (omega arith) in
    let rest = joined-chunks b size n (i + 1) (omega (arith, same)) in
    let shift : drop ((i + 1) * size) b ≡ drop size (drop (i * size) b) =
      ap (λ (t : ℕ). drop t b) (next_offset i size) ∙ sym (drop-drop size (i * size) b) in
    ap (λ (t : Bytes). take size (drop (i * size) b) ++ t) (rest ∙ shift)
    ∙ take-append-drop size (drop (i * size) b)

-- What the loop cuts: the slices do not panic, and no offset wraps.
slice-chunk :
    (b : Bytes) (size i : ℕ)
    → 0 < size
    → i * size < length b
    → length b + size ≤ uint32_limit
    → slice b
        (i * size % uint32_limit)
        (min (length b) ((i + 1) % uint32_limit * size % uint32_limit))
      ≡ ok (take size (drop (i * size) b))
unfolding slice
slice-chunk b size i pos_size inside fits =
    let step = next_offset i size in
    let small = le-mul_of_pos_right i pos_size in
    let low : i * size % uint32_limit ≡ i * size = omega arith in
    let index : (i + 1) % uint32_limit ≡ i + 1 = omega arith in
    let high : (i + 1) * size % uint32_limit ≡ i * size + size = omega (arith, step) in
    let ordered : leb (i * size) (min (length b) (i * size + size)) ≡ true = ground arith in
    let bounded : leb (min (length b) (i * size + size)) (length b) ≡ true = ground arith in
    rw (low, index, high) (rw (ordered, bounded) (ap ok same))
  where
    same :
        take (min (length b) (i * size + size) - i * size) (drop (i * size) b)
        ≡ take size (drop (i * size) b)
    same = elim (Bool-cases (leb (i * size + size) (length b))) [
      | inl whole ↦ ap (λ (t : ℕ). take t (drop (i * size) b)) (ground arith)
      | inr short ↦
          let left = length-drop (i * size) b in
          let rest : length b - i * size ≤ min (length b) (i * size + size) - i * size =
            ground arith in
          let below : length b - i * size ≤ size = ground arith in
          take-all (min (length b) (i * size + size) - i * size) size (drop (i * size) b)
            (omega (arith, left, rest)) (omega (arith, left, below))
    ]

pub cut_parts-chunks :
    (b : Bytes) (size total n i : ℕ) (bits : Option BitArray)
    → 0 < size
    → total * size < length b + size
    → length b + size ≤ uint32_limit
    → i + n ≡ total
    → BitsFor total bits
    → (bits' : Option BitArray) × (cut_parts b size n i bits ≡ ok (chunks b size n i, bits'))
      × BitsFor total bits'
unfolding cut_parts
cut_parts-chunks b size total zero i bits p q r e h = (bits, refl, h)
cut_parts-chunks b size total (suc n) i bits p q r e h =
    let within = mul-le-mul_right {m = i + 1} {n = total} size (omega arith) in
    let inside : i * size < length b = omega (arith, next_offset i size, within) in
    let (bits1, written, good) = BitsFor-set_index total bits i h (omega arith) in
    let (bits2, cut, done) =
      cut_parts-chunks b size total n (i + 1) bits1 p q r (omega arith) good in
    (
      bits2,
      ap (λ t. t >>= after_slice) (slice-chunk b size i p inside r)
          ∙ (ap (λ t. t >>= after_set) written ∙ ap (λ t. t >>= after_cut) cut),
      done,
    )
  where
    chunk : Bytes
    chunk = take size (drop (i * size) b)

    after_cut : List Bytes × Option BitArray → Run (List Bytes × Option BitArray)
    after_cut (parts, bits'') = ok (chunk ∷ parts, bits'')

    after_set : Option BitArray × Bool → Run (List Bytes × Option BitArray)
    after_set (bits', _) = cut_parts b size n (i + 1) bits' >>= after_cut

    after_slice : Bytes → Run (List Bytes × Option BitArray)
    after_slice part = set_index bits i true >>= λ (bits', _).
        cut_parts b size n (i + 1) bits' >>= λ (parts, bits''). ok (part ∷ parts, bits'')

-- The number of parts is rounded up, and does not wrap.
pub total_parts-count :
    (len size : ℕ)
    → 0 < size
    → len + size ≤ uint32_limit
    → total_parts len size ≡ ok (chunk_count len size)
unfolding total_parts
total_parts-count len size p h =
    let nonzero : (size == 0) ≡ false = ground arith in
    let sum : (len % uint32_limit + size + (uint32_limit - 1)) % uint32_limit ≡ len + size - 1 =
      omega arith in
    rw (nonzero, sum)

pub chunk_count-bounds :
    (len size : ℕ)
    → 0 < size
    → (len ≤ chunk_count len size * size) × (chunk_count len size * size < len + size)
chunk_count-bounds len size p =
    let low = lt-div-mul-add {a = len + size - 1} {b = size} p in
    let high = div-mul-le_self (len + size - 1) size in (omega (arith, low), omega (arith, high))

pub chunk_count-pos : (len size : ℕ) → 0 < size → 0 < len → 0 < chunk_count len size
chunk_count-pos len size p h = elim (Bool-cases (ltb 0 (chunk_count len size))) [
  | inl t ↦ ground arith
  | inr f ↦
      let none_left : chunk_count len size ≡ 0 = ground arith in
      let (low, _) = chunk_count-bounds len size p in
      let empty : chunk_count len size * size ≡ 0 * size = ap (λ (t : ℕ). t * size) none_left in
      absurd (omega (arith, low, empty, zero-mul size))
]
