-- ===== src/Bits/Combine.antt =====
-- Or, And and Sub of bit arrays, bit by bit.
use Prim.Native.Nat.{min, max}
use ostracon.Prelude.{
  ℕ, zero, suc, ◌/◌, ◌%◌, ◌≤◌, ◌<◌, ◌≡◌, refl, sym, ap, ◌∙◌, Bool, true, false, not, ◌&&◌, ◌||◌,
  List, [], ◌∷◌, some, arith, length, get_or, ltb, if◌then◌else◌, Bool-cases, inl, inr,
}
use ostracon.Prelude.Run.{ok}
use ostracon.Bits.Word.{Word, and_not}
use ostracon.Bits.Array.{BitArray, words_for, pad, combine, with_elems, or, and, sub}
use ostracon.Bits.Access.{IsWf, value}
use ostracon.Bits.Copy.{length-pad, AllWords-pad, bit-pad, combine-Combined}

-- A result that is well-formed, has a given size and given bits below it.
pub record Holds (bits : ℕ) (at : ℕ → Bool) (c : BitArray) : Type 0 where
  pub wf : IsWf c
  pub same_size : c.bits ≡ bits
  pub holds : (i : ℕ) → i < bits → value c i ≡ at i

get_or-beyond : (ws : List Word) (i : ℕ) → length ws ≤ i → get_or ws i [] ≡ []
get_or-beyond [] i h = refl
get_or-beyond (w ∷ ws) zero h = absurd (omega arith)
get_or-beyond (w ∷ ws) (suc i) h = get_or-beyond ws i (omega arith)

pub value-beyond : (a : BitArray) (i : ℕ) → length a.elems ≤ i / 64 → value a i ≡ false
value-beyond a i h = rw (get_or-beyond a.elems (i / 64) h)

-- A loop as far as both arrays go does the operation everywhere, if it changes no bit beside a
-- clear one and clears with one.
within :
    (f : Bool → Bool → Bool) (a o : BitArray) (i : ℕ)
    → ((x : Bool) → f x false ≡ x)
    → (if ltb (i / 64) (min (length a.elems) (length o.elems))
        then f (value a i) (value o i)
        else value a i)
      ≡ (if ltb (i / 64) (length a.elems) then f (value a i) (value o i) else false)
within f a o i unit = elim (Bool-cases (ltb (i / 64) (length a.elems))) [
  | inl inside ↦ elim (Bool-cases (ltb (i / 64) (length o.elems))) [
    | inl both ↦
        let e : ltb (i / 64) (min (length a.elems) (length o.elems)) ≡ true = ground arith in
        rw (inside, e)
    | inr past ↦
        let e : ltb (i / 64) (min (length a.elems) (length o.elems)) ≡ false = ground arith in
        let zero_bit = value-beyond o i (ground arith) in
        rw (inside, e, zero_bit) (sym (unit (value a i)))
  ]
  | inr out ↦
      let e : ltb (i / 64) (min (length a.elems) (length o.elems)) ≡ false = ground arith in
      rw (out, e) (value-beyond a i (ground arith))
]

Holds-cong :
    {bits : ℕ} (f g : ℕ → Bool) {c : BitArray}
    → ((i : ℕ) → i < bits → f i ≡ g i)
    → Holds bits f c
    → Holds bits g c
Holds-cong f g e h = record {
  wf = h.wf;
  same_size = h.same_size;
  holds = λ i lt. h.holds i lt ∙ e i lt;
}

-- The common part of Or, And and Sub: a copy of `a` at a size, and a loop over `n` words.
combine-Holds :
    (f : Bool → Bool → Bool) (bits n : ℕ) (a o : BitArray)
    → IsWf a
    → IsWf o
    → 0 < bits
    → n ≤ words_for bits
    → n ≤ length o.elems
    → (c : BitArray) × (with_elems bits (combine f n (pad (words_for bits) a.elems) o.elems)
        ≡ ok (some c))
      × Holds bits (λ i. if ltb (i / 64) n then f (value a i) (value o i) else value a i) c
combine-Holds f bits n a o va vo pos p q =
    let size = words_for bits in
    let padded = pad size a.elems in
    let len = length-pad size a.elems in
    let (r, e, s) =
      combine-Combined f n padded o.elems (AllWords-pad size a.elems va.words) vo.words (rw len p)
        q in
    (
      record { bits = bits; elems = r },
      rw e,
      record {
        wf = record { some_bits = pos; sized = s.sized ∙ len; words = s.words };
        same_size = refl;
        holds = λ i lt.
            let here : i / 64 < size = omega arith in
            let keep = bit-pad size a.elems (i / 64) (i % 64) here in
            s.bits (i / 64) (i % 64) (rw len here) (omega arith)
            ∙ ap (λ (b : Bool). if ltb (i / 64) n then f b (value o i) else b) keep;
      },
    )

or-false : (x : Bool) → (x || false) ≡ x
or-false x = ground arith

and_not-false : (x : Bool) → and_not x false ≡ x
and_not-false x = ground arith

or_bit :
    (x y inside : Bool)
    → (inside ≡ false → x ≡ false)
    → (if inside then x || y else false) ≡ (x || (inside && y))
or_bit x y true h = refl
or_bit x y false h = rw (h refl)

and_not_bit :
    (x y inside : Bool)
    → (inside ≡ false → x ≡ false)
    → (if inside then and_not x y else false) ≡ (x && not y)
and_not_bit x y true h = refl
and_not_bit x y false h = rw (h refl)

-- Or has the larger size. Its bits below the size are the disjunction of the bits in the words of
-- both arrays, those past their sizes included, except that the words of the second array past the
-- words of the first are left out.
pub or-Holds :
    (a o : BitArray)
    → IsWf a
    → IsWf o
    → (c : BitArray) × (or (some a) (some o) ≡ ok (some c))
      × Holds (max a.bits o.bits) (λ i. value a i || (ltb (i / 64) (length a.elems) && value o i)) c
unfolding or
or-Holds a o va vo =
    let n = min (length a.elems) (length o.elems) in
    let size_a = va.sized in
    let size_o = vo.sized in
    let (c, e, h) =
      combine-Holds (λ x y. x || y) (max a.bits o.bits) n a o va vo (omega arith) (omega arith)
        (omega arith) in
    (
      c,
      e,
      Holds-cong _ _
          (λ i lt.
            within (λ x y. x || y) a o i (λ x. or-false x)
            ∙ or_bit (value a i) (value o i) (ltb (i / 64) (length a.elems))
                (λ past. value-beyond a i (ground arith)))
          h,
    )

-- And has the smaller size, and the conjunction of the bits.
pub and-Holds :
    (a o : BitArray)
    → IsWf a
    → IsWf o
    → (c : BitArray) × (and (some a) (some o) ≡ ok (some c))
      × Holds (min a.bits o.bits) (λ i. value a i && value o i) c
unfolding and
and-Holds a o va vo =
    let bits = min a.bits o.bits in
    let len = length-pad (words_for bits) a.elems in
    let size_a = va.sized in
    let size_o = vo.sized in
    let (c, e, h) =
      combine-Holds (λ x y. x && y) bits (length (pad (words_for bits) a.elems)) a o va vo
        (omega arith) (omega arith) (omega arith) in
    (
      c,
      e,
      Holds-cong _ _
          (λ i lt.
            let inside : ltb (i / 64) (length (pad (words_for bits) a.elems)) ≡ true =
              ground (arith) in
            rw inside)
          h,
    )

-- Sub has the size of the first array, and its bits there that are not set in the words of the
-- second, past its size included.
pub sub-Holds :
    (a o : BitArray)
    → IsWf a
    → IsWf o
    → (c : BitArray) × (sub (some a) (some o) ≡ ok (some c))
      × Holds a.bits (λ i. value a i && not (value o i)) c
unfolding sub
sub-Holds a o va vo =
    let n = min (length a.elems) (length o.elems) in
    let size_a = va.sized in
    let size_o = vo.sized in
    let (c, e, h) =
      combine-Holds and_not a.bits n a o va vo va.some_bits (omega arith) (omega arith) in
    (
      c,
      e,
      Holds-cong _ _
          (λ i lt.
            within and_not a o i (λ x. and_not-false x)
            ∙ and_not_bit (value a i) (value o i) (ltb (i / 64) (length a.elems))
                (λ past. value-beyond a i (ground arith)))
          h,
    )
