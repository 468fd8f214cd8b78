-- ===== src/Bits/Full.antt =====
-- IsFull and PickRandom.
use ostracon.Prelude.{
  ℕ, zero, suc, ◌+◌, ◌-◌, ◌*◌, ◌/◌, ◌%◌, ◌≤◌, ◌<◌, ◌≡◌, ◌↔◌, refl, sym, ap, ◌∙◌, Bool, true, false,
  List, [], ◌∷◌, some, arith, length, take, ltb, Bool-cases, inl, inr,
}
use ostracon.Prelude.Run.{ok}
use ostracon.Bits.Word.{Word, bit, is_zero, increment, not_word}
use ostracon.Bits.Array.{BitArray, full_words, is_full}
use ostracon.Bits.Access.{AllWords, IsWf, value, bit_at}

-- The first `k` bits are set.
abbrev Ones : ℕ → Word → Type 0
Ones k w = (j : ℕ) → j < k → bit w j ≡ true

Ones-cons : (k : ℕ) (w : Word) → Ones k w → Ones (suc k) (true ∷ w)
Ones-cons k w h zero lt = refl
Ones-cons k w h (suc j) lt = h j (omega arith)

-- Adding one clears the low bits exactly if they are all set.
increment-Ones :
    (k : ℕ) (w : Word) → k ≤ length w → (is_zero (take k (increment w)) ≡ true) ↔ Ones k w
unfolding is_zero increment
increment-Ones zero w h = (λ e j lt. absurd (omega arith), λ o. refl)
increment-Ones (suc k) [] h = absurd (omega arith)
increment-Ones (suc k) (true ∷ w) h =
    let ih = increment-Ones k w (omega arith) in
    (λ e. Ones-cons k w (ih.0 e), λ o. ih.1 (λ j lt. o (suc j) (omega arith)))
increment-Ones (suc k) (false ∷ w) h = (λ e. ground arith, λ o. ground (arith, o 0 (omega arith)))

not_word-Ones : (w : Word) → (is_zero (not_word w) ≡ true) ↔ Ones (length w) w
unfolding is_zero not_word
not_word-Ones [] = (λ e j lt. absurd (omega arith), λ o. refl)
not_word-Ones (true ∷ w) =
    let ih = not_word-Ones w in
    (λ e. Ones-cons (length w) w (ih.0 e), λ o. ih.1 (λ j lt. o (suc j) (omega arith)))
not_word-Ones (false ∷ w) = (λ e. ground arith, λ o. ground (arith, o 0 (omega arith)))

bit_at-head : (w : Word) (ws : List Word) (i : ℕ) → i < 64 → bit_at (w ∷ ws) i ≡ bit w i
bit_at-head w ws i h =
    let q : i / 64 ≡ 0 = omega arith in let r : i % 64 ≡ i = omega arith in rw (q, r)

bit_at-tail : (w : Word) (ws : List Word) (i : ℕ) → bit_at (w ∷ ws) (64 + i) ≡ bit_at ws i
bit_at-tail w ws i =
    let q : (64 + i) / 64 ≡ suc (i / 64) = omega arith in
    let r : (64 + i) % 64 ≡ i % 64 = omega arith in rw (q, r)

-- All the bits below a bound are set.
abbrev Filled : ℕ → List Word → Type 0
Filled n ws = (i : ℕ) → i < n → bit_at ws i ≡ true

Filled-cons :
    (n : ℕ) (w : Word) (ws : List Word)
    → length w ≡ 64
    → Filled (64 + n) (w ∷ ws) ↔ (Ones (length w) w × Filled n ws)
Filled-cons n w ws len = (
  λ f. (
    λ j lt. sym (bit_at-head w ws j (omega arith)) ∙ f j (omega arith),
    λ i lt. sym (bit_at-tail w ws i) ∙ f (64 + i) (omega arith),
  ),
  λ (o, f) i lt. elim (Bool-cases (ltb i 64)) [
    | inl head ↦ bit_at-head w ws i (ground arith) ∙ o i (ground arith)
    | inr tail ↦
        let e : 64 + (i - 64) ≡ i = ground arith in
        ap (bit_at (w ∷ ws)) (sym e) ∙ bit_at-tail w ws (i - 64) ∙ f (i - 64) (ground arith)
  ],
)

full_words-Filled :
    (k m : ℕ) (ws : List Word)
    → AllWords ws
    → length ws ≡ suc m
    → k ≤ 64
    → (b : Bool) × (full_words k ws ≡ ok b) × ((b ≡ true) ↔ Filled (64 * m + k) ws)
unfolding full_words
full_words-Filled k m [] h n le = absurd (omega arith)
full_words-Filled k (suc m) (w ∷ []) h n le = absurd (omega arith)
full_words-Filled k zero (w ∷ []) h n le =
    let last = increment-Ones k w (omega arith) in
    (
      is_zero (take k (increment w)),
      refl,
      (
        λ e i lt. bit_at-head w [] i (omega arith) ∙ last.0 e i (omega arith),
        λ f. last.1 (λ j lt. sym (bit_at-head w [] j (omega arith)) ∙ f j (omega arith)),
      ),
    )
full_words-Filled k zero (w ∷ v ∷ ws) h n le = absurd (omega arith)
full_words-Filled k (suc m) (w ∷ v ∷ ws) h n le =
    let (b, e, iff) = full_words-Filled k m (v ∷ ws) h.1 (omega arith) le in
    let parts = Filled-cons (64 * m + k) w (v ∷ ws) h.0 in
    let size : 64 + (64 * m + k) ≡ 64 * suc m + k = omega arith in
    elim (Bool-cases (is_zero (not_word w))) [
      | inl ones ↦ (
        b,
        rw (ones, e),
        (
          λ t. rw size at (parts.1 ((not_word-Ones w).0 ones, iff.0 t)),
          λ f. iff.1 (parts.0 (rw (sym size) at f)).1,
        ),
      )
      | inr other ↦ (
        false,
        rw other,
        (λ t. absurd (cc), λ f. cc (other, (not_word-Ones w).1 (parts.0 (rw (sym size) at f)).0)),
      )
    ]

-- IsFull of a well-formed array does not panic, and holds exactly if every bit below the size is
-- set, whatever the bits past it are.
pub is_full-value :
    (a : BitArray)
    → IsWf a
    → (b : Bool) × (is_full (some a) ≡ ok b)
      × ((b ≡ true) ↔ ((i : ℕ) → i < a.bits → value a i ≡ true))
unfolding is_full
is_full-value a v =
    let size = v.sized in
    let pos = v.some_bits in
    let k = (a.bits + 63) % 64 + 1 in
    let m = (a.bits + 63) / 64 - 1 in
    let whole : 64 * m + k ≡ a.bits = omega arith in
    let (b, e, iff) = full_words-Filled k m a.elems v.words (omega arith) (omega arith) in
    (b, e, (λ t i lt. iff.0 t i (omega arith), λ f. iff.1 (λ i lt. f i (omega arith))))
