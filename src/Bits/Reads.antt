-- ===== src/Bits/Reads.antt =====
-- What GetIndex reads of Or and Sub of bit arrays, and of the bits past the size that Not sets.
use Prim.Native.Nat.{max}
use ostracon.Prelude.{
  ℕ, ◌/◌, ◌≤◌, ◌<◌, ◌≡◌, refl, sym, ap, ◌∙◌, Bool, true, false, not, ◌&&◌, ◌||◌, some, arith,
  length, ltb, leb, if◌then◌else◌, Bool-cases, inl, inr,
}
use ostracon.Prelude.Run.{ok}
use ostracon.Bits.Array.{BitArray, get_index, or, sub, complement}
use ostracon.Bits.Access.{IsWf, value, get_index-value}
use ostracon.Bits.Empty.{IsClean}
use ostracon.Bits.Combine.{Holds, or-Holds, sub-Holds}
use ostracon.Bits.Complement.{complement-Holds}

-- The bit at an index, and false from the size on.
abbrev pub member : BitArray → ℕ → Bool
member a i = if leb a.bits i then false else value a i

-- A result that is well-formed, has a given size, and where GetIndex reads given bits.
pub record Reads (bits : ℕ) (at : ℕ → Bool) (c : BitArray) : Type 0 where
  pub wf : IsWf c
  pub same_size : c.bits ≡ bits
  pub reads : (i : ℕ) → get_index (some c) i ≡ ok (at i)

member-clean : (a : BitArray) (i : ℕ) → IsClean a → value a i ≡ member a i
member-clean a i clean = elim (Bool-cases (leb a.bits i)) [
  | inl out ↦ rw out (clean i (ground arith))
  | inr inside ↦ rw inside refl
]

member-out : (a : BitArray) (i : ℕ) → a.bits ≤ i → member a i ≡ false
member-out a i h = ground arith

Holds-Reads :
    (bits : ℕ) (f g : ℕ → Bool) (c : BitArray)
    → Holds bits f c
    → ((i : ℕ) → i < bits → f i ≡ g i)
    → ((i : ℕ) → bits ≤ i → g i ≡ false)
    → Reads bits g c
Holds-Reads bits f g c h below past = record {
  wf = h.wf;
  same_size = h.same_size;
  reads = λ i.
      get_index-value c i h.wf
      ∙ ap ok (elim (Bool-cases (leb c.bits i)) [
        | inl out ↦ rw out (sym (past i (let size = h.same_size in ground arith)))
        | inr inside ↦
            let lt : i < bits = let size = h.same_size in ground arith in
            rw inside (h.holds i lt ∙ below i lt)
      ]);
}

-- Where no bit past the size of either array is set, Or does not panic and has the larger size, and
-- GetIndex of the result reads, at every index, the disjunction of what it reads of both arrays,
-- except that of the second array nothing is read past the words of the first.
pub or-Reads :
    (a o : BitArray)
    → IsWf a
    → IsWf o
    → IsClean a
    → IsClean o
    → (c : BitArray) × (or (some a) (some o) ≡ ok (some c))
      × Reads
          (max a.bits o.bits)
          (λ i. member a i || (ltb (i / 64) (length a.elems) && member o i))
          c
or-Reads a o va vo clean_a clean_o =
    let (c, e, h) = or-Holds a o va vo in
    (
      c,
      e,
      Holds-Reads _ _ _ c h
          (λ i lt.
            ap (λ (b : Bool). b || (ltb (i / 64) (length a.elems) && value o i))
              (member-clean a i clean_a)
            ∙ ap (λ (b : Bool). member a i || (ltb (i / 64) (length a.elems) && b))
                (member-clean o i clean_o))
          (λ i past. ground arith),
    )

-- Where no bit past the size of the second array is set, Sub does not panic and has the size of the
-- first array, and GetIndex of the result reads, at every index, true where it does so of the first
-- array and not of the second.
pub sub-Reads :
    (a o : BitArray)
    → IsWf a
    → IsWf o
    → IsClean o
    → (c : BitArray) × (sub (some a) (some o) ≡ ok (some c))
      × Reads a.bits (λ i. member a i && not (member o i)) c
sub-Reads a o va vo clean =
    let (c, e, h) = sub-Holds a o va vo in
    (
      c,
      e,
      Holds-Reads _ _ _ c h
          (λ i lt.
            let inside : leb a.bits i ≡ false = ground arith in
            rw inside (ap (λ (b : Bool). value a i && not b) (member-clean o i clean)))
          (λ i past. let out : leb a.bits i ≡ true = ground arith in rw out refl),
    )

-- Past the size of an array with no bit set there, but within its words, GetIndex reads false of the
-- complement of that array, and yet also of any array with that complement subtracted: Sub clears
-- bits that the second array does not have by GetIndex.
pub sub-complement :
    (a o : BitArray) (i : ℕ)
    → IsWf a
    → IsWf o
    → IsClean o
    → o.bits ≤ i
    → i / 64 < length o.elems
    → i < a.bits
    → (n : BitArray) × (c : BitArray) × (complement (some o) ≡ some n)
      × (sub (some a) (some n) ≡ ok (some c))
      × (get_index (some n) i ≡ ok false)
      × (get_index (some c) i ≡ ok false)
sub-complement a o i va vo clean past within lt =
    let (n, e, h, flips) = complement-Holds o vo in
    let (c, e', k) = sub-Holds a n va h.wf in
    let set_there : value n i ≡ true = flips i within ∙ ap not (clean i past) in
    let cleared : value c i ≡ false =
      k.holds i lt ∙ (ap (λ (b : Bool). value a i && not b) set_there ∙ ground arith) in
    let out : leb n.bits i ≡ true = let size = h.same_size in ground arith in
    let inside : leb c.bits i ≡ false = let size = k.same_size in ground arith in
    (
      n,
      c,
      e,
      e',
      get_index-value n i h.wf ∙ rw out refl,
      get_index-value c i k.wf ∙ rw (inside, cleared) refl,
    )
