-- ===== src/Bits/Empty.antt =====
-- IsEmpty, and the bits of the last word past the size.
use ostracon.Prelude.{
  ℕ, zero, suc, ◌+◌, ◌*◌, ◌/◌, ◌%◌, ◌≤◌, ◌<◌, ◌≡◌, ◌≢◌, ◌↔◌, refl, sym, ap, ◌∙◌, true, false, not,
  List, [], ◌∷◌, some, arith, length, get_or, ltb, Bool-cases, inl, inr,
}
use ostracon.Bits.Word.{Word, bit, is_zero→bit, bit→is_zero}
use ostracon.Bits.Array.{BitArray, all_zero, is_empty, complement}
use ostracon.Bits.Access.{AllWords, IsWf, value, bit_at}
use ostracon.Bits.Complement.{complement-Holds}

-- The bits from the size on are clear.
abbrev pub IsClean : BitArray → Type 0
IsClean a = (i : ℕ) → a.bits ≤ i → value a i ≡ false

all_zero→bit : (ws : List Word) (i j : ℕ) → all_zero ws ≡ true → bit (get_or ws i []) j ≡ false
unfolding all_zero
all_zero→bit [] i j h = refl
all_zero→bit (w ∷ ws) zero j h = is_zero→bit w (ground arith) j
all_zero→bit (w ∷ ws) (suc i) j h = all_zero→bit ws i j (ground arith)

bit→all_zero :
    (ws : List Word)
    → AllWords ws
    → ((i j : ℕ) → i < length ws → j < 64 → bit (get_or ws i []) j ≡ false)
    → all_zero ws ≡ true
unfolding all_zero
bit→all_zero [] h z = refl
bit→all_zero (w ∷ ws) h z =
    let first = bit→is_zero w (λ j p. z 0 j (omega arith) (omega arith)) in
    let rest = bit→all_zero ws h.1 (λ i j p q. z (suc i) j (omega arith) q) in rw (first, rest)

bit_at-index : (ws : List Word) (i j : ℕ) → j < 64 → bit_at ws (64 * i + j) ≡ bit (get_or ws i []) j
bit_at-index ws i j h =
    let q : (64 * i + j) / 64 ≡ i = omega arith in
    let r : (64 * i + j) % 64 ≡ j = omega arith in rw (q, r)

-- Where no bit past the size is set, IsEmpty holds exactly of the arrays with no bit set.
pub is_empty-clean :
    (a : BitArray)
    → IsWf a
    → IsClean a
    → (is_empty (some a) ≡ true) ↔ ((i : ℕ) → i < a.bits → value a i ≡ false)
unfolding is_empty
is_empty-clean a v clean = (
  λ e i lt. all_zero→bit a.elems (i / 64) (i % 64) e,
  λ z. bit→all_zero a.elems v.words λ i j p q.
      sym (bit_at-index a.elems i j q) ∙ (elim (Bool-cases (ltb (64 * i + j) a.bits)) [
        | inl inside ↦ z (64 * i + j) (ground arith)
        | inr past ↦ clean (64 * i + j) (ground arith)
      ]),
)

-- If the size is no multiple of 64 and no bit past it is set, the complement is never empty by
-- IsEmpty, also where every bit below the size was set.
pub is_empty-complement :
    (a : BitArray) → IsWf a → IsClean a → a.bits % 64 ≢ 0 → is_empty (complement (some a)) ≡ false
unfolding is_empty
is_empty-complement a v clean odd =
    let (c, e, h, flips) = complement-Holds a v in
    let size = v.sized in
    let flipped = flips a.bits (omega arith) ∙ ap not (clean a.bits (omega arith)) in
    rw e (elim (Bool-cases (all_zero c.elems)) [
      | inl empty ↦
          let clear = all_zero→bit c.elems (a.bits / 64) (a.bits % 64) empty in cc (flipped, clear)
      | inr some_bit ↦ some_bit
    ])
