-- ===== src/Parts/Slots.antt =====
-- Slices of parts that may be missing.
use ostracon.Prelude.{
  ℕ, zero, suc, ◌+◌, ◌≤◌, ◌<◌, ◌≡◌, ◌⊎◌, inl, inr, refl, ap, List, [], ◌∷◌, Option, none, some,
  arith, Bytes, length, length-append, get_elem?, set, replicate,
}
use ostracon.Parts.PartSet.{Part}
use ostracon.Parts.Cutting.{joined}
use ostracon.Parts.FromData.{contents}

abbrev pub Slots : Type 0
Slots = List (Option Part)

-- The number of parts that are there.
abbrev pub filled : Slots → ℕ
filled [] = 0
filled (none ∷ parts) = filled parts
filled (some p ∷ parts) = suc (filled parts)

abbrev pub HasPart : Slots → ℕ → Type 0
HasPart parts i = (p : Part) × (get_elem? parts i ≡ some (some p))

pub filled-set :
    (parts : Slots) (i : ℕ) (p : Part)
    → get_elem? parts i ≡ some none
    → filled (set parts i (some p)) ≡ filled parts + 1
filled-set [] i p e = ground arith
filled-set (none ∷ parts) zero p e = ground arith
filled-set (some q ∷ parts) zero p e = ground arith
filled-set (none ∷ parts) (suc i) p e = filled-set parts i p e
filled-set (some q ∷ parts) (suc i) p e = omega (arith, filled-set parts i p e)

pub length-contents-set :
    (parts : Slots) (i : ℕ) (p : Part)
    → get_elem? parts i ≡ some none
    → length (contents (set parts i (some p))) ≡ length (contents parts) + length p.bytes
length-contents-set [] i p e = ground arith
length-contents-set (none ∷ parts) zero p e = omega (arith, length-append p.bytes (contents parts))
length-contents-set (some q ∷ parts) zero p e = ground arith
length-contents-set (none ∷ parts) (suc i) p e = length-contents-set parts i p e
length-contents-set (some q ∷ parts) (suc i) p e = omega (
  arith,
  length-contents-set parts i p e,
  length-append q.bytes (contents parts),
  length-append q.bytes (contents (set parts i (some p))),
)

pub filled-bound : (parts : Slots) → filled parts ≤ length parts
filled-bound [] = omega arith
filled-bound (none ∷ parts) = omega (arith, filled-bound parts)
filled-bound (some p ∷ parts) = omega (arith, filled-bound parts)

pub filled-HasPart :
    (parts : Slots) → filled parts ≡ length parts → (i : ℕ) → i < length parts → HasPart parts i
filled-HasPart [] h i lt = absurd (omega arith)
filled-HasPart (none ∷ parts) h i lt = absurd (omega (arith, filled-bound parts))
filled-HasPart (some p ∷ parts) h zero lt = (p, refl)
filled-HasPart (some p ∷ parts) h (suc i) lt = filled-HasPart parts (omega arith) i (omega arith)

pub HasPart-filled :
    (parts : Slots) → ((i : ℕ) → i < length parts → HasPart parts i) → filled parts ≡ length parts
HasPart-filled [] h = refl
HasPart-filled (none ∷ parts) h = let (p, e) = h 0 (omega arith) in ground arith
HasPart-filled (some p ∷ parts) h = ap suc (HasPart-filled parts (λ i lt. h (suc i) (omega arith)))

pub filled-replicate : (n : ℕ) → filled (replicate n none) ≡ 0
filled-replicate zero = refl
filled-replicate (suc n) = filled-replicate n

pub contents-replicate : (n : ℕ) → contents (replicate n none) ≡ []
contents-replicate zero = refl
contents-replicate (suc n) = contents-replicate n

pub replicate-none : (n i : ℕ) (p : Part) → get_elem? (replicate n none) i ≡ some (some p) → i < 0
replicate-none zero i p e = ground arith
replicate-none (suc n) zero p e = ground arith
replicate-none (suc n) (suc i) p e = absurd (omega (arith, replicate-none n i p e))

-- Parts that are all there and hold the items hold all the data.
pub contents-items :
    (parts : Slots) (items : List Bytes)
    → length parts ≡ length items
    → ((i : ℕ) (p : Part) → get_elem? parts i ≡ some (some p) → get_elem? items i ≡ some p.bytes)
    → filled parts ≡ length parts
    → contents parts ≡ joined items
contents-items [] [] s h f = refl
contents-items [] (c ∷ items) s h f = ground arith
contents-items (q ∷ parts) [] s h f = ground arith
contents-items (none ∷ parts) (c ∷ items) s h f = absurd (omega (arith, filled-bound parts))
contents-items (some q ∷ parts) (c ∷ items) s h f =
    let first : some c ≡ some q.bytes = h 0 q refl in
    let same : q.bytes ≡ c = ground arith in
    let rest = contents-items parts items (omega arith) (λ i p e. h (suc i) p e) (omega arith) in
    rw (same, rest) refl

-- The slot at an index after a write there or elsewhere.
pub slot-set :
    (parts : Slots) (i j : ℕ) (p q : Part)
    → get_elem? (set parts i (some p)) j ≡ some (some q)
    → ((i ≡ j) × (p ≡ q)) ⊎ (get_elem? parts j ≡ some (some q))
slot-set [] i j p q e = inr e
slot-set (x ∷ parts) zero zero p q e = inl (refl, ground arith)
slot-set (x ∷ parts) zero (suc j) p q e = inr e
slot-set (x ∷ parts) (suc i) zero p q e = inr e
slot-set (x ∷ parts) (suc i) (suc j) p q e = elim (slot-set parts i j p q e) [
  | inl (a, b) ↦ inl (ap suc a, b)
  | inr f ↦ inr f
]

pub HasPart-set :
    (parts : Slots) (i j : ℕ) (p : Part) → HasPart parts j → HasPart (set parts i (some p)) j
HasPart-set [] i j p h = h
HasPart-set (x ∷ parts) zero zero p h = (p, refl)
HasPart-set (x ∷ parts) zero (suc j) p h = h
HasPart-set (x ∷ parts) (suc i) zero p h = h
HasPart-set (x ∷ parts) (suc i) (suc j) p h = HasPart-set parts i j p h
