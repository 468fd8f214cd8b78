-- ===== src/Bits/Complement.antt =====
-- Not of bit arrays, bit by bit.
use ostracon.Prelude.{
  ℕ, zero, suc, ◌/◌, ◌%◌, ◌<◌, ◌≡◌, refl, ap, ◌∙◌, not, List, [], ◌∷◌, some, arith, length, get_or,
}
use ostracon.Bits.Word.{Word, bit, length-not_word, bit-not_word}
use ostracon.Bits.Array.{BitArray, not_words, complement}
use ostracon.Bits.Access.{AllWords, IsWf, value}
use ostracon.Bits.Combine.{Holds}

length-not_words : (ws : List Word) → length (not_words ws) ≡ length ws
unfolding not_words
length-not_words [] = refl
length-not_words (w ∷ ws) = ap suc (length-not_words ws)

AllWords-not_words : (ws : List Word) → AllWords ws → AllWords (not_words ws)
unfolding not_words
AllWords-not_words [] h = tt
AllWords-not_words (w ∷ ws) h = (length-not_word w ∙ h.0, AllWords-not_words ws h.1)

bit-not_words :
    (ws : List Word) (i j : ℕ)
    → AllWords ws
    → i < length ws
    → j < 64
    → bit (get_or (not_words ws) i []) j ≡ not (bit (get_or ws i []) j)
unfolding not_words
bit-not_words [] i j h lt lj = absurd (omega arith)
bit-not_words (w ∷ ws) zero j h lt lj = bit-not_word w j (omega arith)
bit-not_words (w ∷ ws) (suc i) j h lt lj = bit-not_words ws i j h.1 (omega arith) lj

-- Not keeps the size, and flips every bit of the words: those below the size, and the bits of the
-- last word past the size too.
pub complement-Holds :
    (a : BitArray)
    → IsWf a
    → (c : BitArray) × (complement (some a) ≡ some c)
      × Holds a.bits (λ i. not (value a i)) c
      × ((i : ℕ) → i / 64 < length a.elems → value c i ≡ not (value a i))
unfolding complement
complement-Holds a v =
    let size = v.sized in
    let flips : (i : ℕ)
        → i / 64 < length a.elems
        → bit (get_or (not_words a.elems) (i / 64) []) (i % 64) ≡ not (value a i) =
      λ i lt. bit-not_words a.elems (i / 64) (i % 64) v.words lt (omega arith) in
    (
      record a { elems = not_words a.elems },
      refl,
      record {
        wf = record {
          some_bits = v.some_bits;
          sized = length-not_words a.elems ∙ v.sized;
          words = AllWords-not_words a.elems v.words;
        };
        same_size = refl;
        holds = λ i lt. flips i (omega arith);
      },
      flips,
    )
