-- ===== src/Bits/Access.antt =====
-- Well-formed bit arrays, the bits that they hold, and what GetIndex and SetIndex do to them.
use ostracon.Prelude.{
  ℕ, zero, suc, ◌/◌, ◌%◌, ◌<◌, ◌≡◌, refl, ap, ◌∙◌, Bool, true, false, List, [], ◌∷◌, none, some,
  arith, length, get_or, set, replicate, length-set, leb, ◌==◌, if◌then◌else◌, length-replicate,
  Bool-cases, inl, inr,
}
use ostracon.Prelude.Run.{ok}
use ostracon.Bits.Word.{Word, bit, bit-set, zero_word, length-zero_word, bit-zero_word}
use ostracon.Bits.Array.{BitArray, new_bit_array, words_for, word_at, get_index, set_index}

-- Every word has 64 bits.
abbrev pub AllWords : List Word → Type 0
AllWords [] = Unit
AllWords (w ∷ ws) = (length w ≡ 64) × AllWords ws

pub record IsWf (a : BitArray) : Type 0 where
  pub some_bits : 0 < a.bits
  pub sized : length a.elems ≡ words_for a.bits
  pub words : AllWords a.elems

-- The bit at `i` of a list of words.
abbrev pub bit_at : List Word → ℕ → Bool
bit_at ws i = bit (get_or ws (i / 64) []) (i % 64)

-- The bit at `i` of the array.
abbrev pub value : BitArray → ℕ → Bool
value a i = bit_at a.elems i

pub AllWords-get_or :
    (ws : List Word) (i : ℕ) → AllWords ws → i < length ws → length (get_or ws i []) ≡ 64
AllWords-get_or [] i h lt = absurd (omega arith)
AllWords-get_or (w ∷ ws) zero h lt = h.0
AllWords-get_or (w ∷ ws) (suc i) h lt = AllWords-get_or ws i h.1 (omega arith)

pub AllWords-set :
    (ws : List Word) (i : ℕ) (w : Word) → AllWords ws → length w ≡ 64 → AllWords (set ws i w)
AllWords-set [] i w h e = tt
AllWords-set (v ∷ ws) zero w h e = (e, h.1)
AllWords-set (v ∷ ws) (suc i) w h e = (h.0, AllWords-set ws i w h.1 e)

get_or-set :
    (ws : List Word) (i j : ℕ) (w : Word)
    → i < length ws
    → get_or (set ws i w) j [] ≡ (if i == j then w else get_or ws j [])
get_or-set [] i j w h = absurd (omega arith)
get_or-set (v ∷ ws) zero zero w h = refl
get_or-set (v ∷ ws) zero (suc j) w h = ground arith
get_or-set (v ∷ ws) (suc i) zero w h = ground arith
get_or-set (v ∷ ws) (suc i) (suc j) w h = ground (arith, get_or-set ws i j w)

pub word_at-ok : (ws : List Word) (i : ℕ) → i < length ws → word_at ws i ≡ ok (get_or ws i [])
unfolding word_at
word_at-ok [] i h = absurd (omega arith)
word_at-ok (w ∷ ws) zero h = refl
word_at-ok (w ∷ ws) (suc i) h = word_at-ok ws i (omega arith)

-- GetIndex of a well-formed array reads the bit below its size, and is false from there on.
pub get_index-value :
    (a : BitArray) (i : ℕ)
    → IsWf a
    → get_index (some a) i ≡ ok (if leb a.bits i then false else value a i)
unfolding get_index
get_index-value a i v = elim (Bool-cases (leb a.bits i)) [
  | inl out ↦ rw out
  | inr inside ↦
      let size = v.sized in
      let here : i / 64 < length a.elems = ground arith in
      rw (inside, word_at-ok a.elems (i / 64) here)
]

pub bit_at-set :
    (ws : List Word) (i j : ℕ) (v : Bool)
    → AllWords ws
    → i / 64 < length ws
    → bit_at (set ws (i / 64) (set (get_or ws (i / 64) []) (i % 64) v)) j
      ≡ (if i == j then v else bit_at ws j)
bit_at-set ws i j v h lt =
    let w = get_or ws (i / 64) [] in
    let in_word : i % 64 < length w = omega (arith, AllWords-get_or ws (i / 64) h lt) in
    rw (get_or-set ws (i / 64) (j / 64) (set w (i % 64) v) lt)
      (elim (Bool-cases (i / 64 == j / 64)) [
        | inl same ↦
            let e : i / 64 ≡ j / 64 = ground arith in
            rw (same, bit-set w (i % 64) (j % 64) v in_word)
              (elim (Bool-cases (i == j)) [
                | inl eq ↦ rw eq (ground arith)
                | inr ne ↦
                    let apart : (i % 64 == j % 64) ≡ false = ground arith in
                    rw (ne, apart) (ap (λ (t : ℕ). bit (get_or ws t []) (j % 64)) e)
              ])
        | inr other ↦ let apart : (i == j) ≡ false = ground arith in rw (other, apart)
      ])

-- The array `b` is `a` with one bit written.
pub record Written (a : BitArray) (i : ℕ) (v : Bool) (b : BitArray) : Type 0 where
  pub wf : IsWf b
  pub same_size : b.bits ≡ a.bits
  pub holds : (j : ℕ) → value b j ≡ (if i == j then v else value a j)

-- SetIndex of a well-formed array at an index below its size returns true, and leaves a
-- well-formed array of the same size that differs at most at the index, where it holds the value.
pub set_index-Written :
    (a : BitArray) (i : ℕ) (v : Bool)
    → IsWf a
    → i < a.bits
    → (b : BitArray) × (set_index (some a) i v ≡ ok (some b, true)) × Written a i v b
unfolding set_index
set_index-Written a i v w lt =
    let size = w.sized in
    let here : i / 64 < length a.elems = omega arith in
    let word = get_or a.elems (i / 64) [] in
    let old : length word ≡ 64 = AllWords-get_or a.elems (i / 64) w.words here in
    let inside : leb a.bits i ≡ false = ground arith in
    let elems' = set a.elems (i / 64) (set word (i % 64) v) in
    (
      record a { elems = elems' },
      rw (inside, word_at-ok a.elems (i / 64) here),
      record {
        wf = record {
          some_bits = w.some_bits;
          sized = length-set a.elems (i / 64) (set word (i % 64) v) ∙ w.sized;
          words =
              AllWords-set a.elems (i / 64) (set word (i % 64) v) w.words
                (length-set word (i % 64) v ∙ old);
        };
        same_size = refl;
        holds = λ j. bit_at-set a.elems i j v w.words here;
      },
    )

pub AllWords-replicate : (n : ℕ) → AllWords (replicate n zero_word)
AllWords-replicate zero = tt
AllWords-replicate (suc n) = (length-zero_word, AllWords-replicate n)

pub get_or-replicate : (n i j : ℕ) → bit (get_or (replicate n zero_word) i []) j ≡ false
get_or-replicate zero i j = refl
get_or-replicate (suc n) zero j = bit-zero_word j
get_or-replicate (suc n) (suc i) j = get_or-replicate n i j

-- NewBitArray returns nil for no bits, and otherwise a well-formed array of the size with every
-- bit clear.
pub new_bit_array-clear :
    (bits : ℕ)
    → 0 < bits
    → (new_bit_array 0 ≡ none)
      × ((a : BitArray) × (new_bit_array bits ≡ some a)
          × IsWf a
          × (a.bits ≡ bits)
          × ((i : ℕ) → value a i ≡ false))
unfolding new_bit_array
new_bit_array-clear bits h =
    let full : (bits == 0) ≡ false = ground arith in
    (
      refl,
      (
        record { bits = bits; elems = replicate (words_for bits) zero_word },
        rw full,
        record {
          some_bits = h;
          sized = length-replicate (words_for bits) zero_word;
          words = AllWords-replicate (words_for bits);
        },
        refl,
        λ i. get_or-replicate (words_for bits) (i / 64) (i % 64),
      ),
    )
