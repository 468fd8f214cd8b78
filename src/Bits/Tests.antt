-- ===== src/Bits/Tests.antt =====
-- The theorems about bit arrays at concrete inputs: arrays of 3 and of 70 bits.
use Prim.Native.Nat.{min, max}
use ostracon.Prelude.{
  ℕ, ◌%◌, length-replicate, ◌/◌, ◌<◌, ◌≡◌, ◌↔◌, refl, ◌∙◌, Bool, true, false, not, ◌&&◌, ◌||◌, [],
  ◌∷◌, some, arith, length, set, replicate, ltb, ◌==◌,
}
use ostracon.Prelude.Run.{ok}
use ostracon.Bits.Word.{zero_word, length-zero_word}
use ostracon.Bits.Array.{
  BitArray, words_for, get_index, set_index, or, and, sub, complement, is_empty, is_full,
}
use ostracon.Bits.Access.{
  AllWords-replicate, bit_at-set, get_or-replicate, IsWf, Written, value, set_index-Written,
}
use ostracon.Bits.Combine.{Holds, and-Holds}
use ostracon.Bits.Reads.{Reads, member, or-Reads, sub-Reads, sub-complement}
use ostracon.Bits.Complement.{complement-Holds}
use ostracon.Bits.Empty.{IsClean, is_empty-clean, is_empty-complement}
use ostracon.Bits.Full.{is_full-value}

-- The array of a size with no bit set.
blank : ℕ → BitArray
blank bits = record { bits = bits; elems = replicate (words_for bits) zero_word }

blank-IsWf : (bits : ℕ) → 0 < bits → IsWf (blank bits)
unfolding blank
blank-IsWf bits h = record {
  some_bits = h;
  sized = length-replicate (words_for bits) zero_word;
  words = AllWords-replicate (words_for bits);
}

blank-IsClean : (bits : ℕ) → IsClean (blank bits)
unfolding blank
blank-IsClean bits i h = get_or-replicate (words_for bits) (i / 64) (i % 64)

-- Three bits, of which the one at 1 is set.
small : BitArray
small = record { bits = 3; elems = set zero_word 1 true ∷ [] }

small-IsWf : IsWf small
unfolding small zero_word
small-IsWf = record { some_bits = omega arith; sized = refl; words = (refl, tt) }

small-IsClean : IsClean small
unfolding small
small-IsClean i h =
    bit_at-set (zero_word ∷ []) 1 i true (length-zero_word, tt) (omega arith)
    ∙ (let other : (1 == i) ≡ false = ground arith in
        rw other (get_or-replicate 1 (i / 64) (i % 64)))

set_index-Written_example :
    (b : BitArray) × (set_index (some small) 2 true ≡ ok (some b, true)) × Written small 2 true b
unfolding small
set_index-Written_example = set_index-Written small 2 true small-IsWf (omega arith)

or-Reads_example :
    (c : BitArray) × (or (some small) (some (blank 70)) ≡ ok (some c))
    × Reads
        (max small.bits (blank 70).bits)
        (λ i. member small i || (ltb (i / 64) (length small.elems) && member (blank 70) i))
        c
or-Reads_example =
    or-Reads small (blank 70) small-IsWf (blank-IsWf 70 (omega arith)) small-IsClean
      (blank-IsClean 70)

and-Holds_example :
    (c : BitArray) × (and (some (blank 70)) (some small) ≡ ok (some c))
    × Holds (min (blank 70).bits small.bits) (λ i. value (blank 70) i && value small i) c
and-Holds_example = and-Holds (blank 70) small (blank-IsWf 70 (omega arith)) small-IsWf

sub-Reads_example :
    (c : BitArray) × (sub (some (blank 70)) (some small) ≡ ok (some c))
    × Reads (blank 70).bits (λ i. member (blank 70) i && not (member small i)) c
sub-Reads_example =
    sub-Reads (blank 70) small (blank-IsWf 70 (omega arith)) small-IsWf small-IsClean

padding_cleared :
    (n : BitArray) × (c : BitArray) × (complement (some small) ≡ some n)
    × (sub (some (blank 70)) (some n) ≡ ok (some c))
    × (get_index (some n) 10 ≡ ok false)
    × (get_index (some c) 10 ≡ ok false)
unfolding small blank
padding_cleared =
    sub-complement (blank 70) small 10 (blank-IsWf 70 (omega arith)) small-IsWf small-IsClean
      (omega arith) (omega arith) (omega arith)

complement-Holds_example :
    (c : BitArray) × (complement (some small) ≡ some c)
    × Holds small.bits (λ i. not (value small i)) c
    × ((i : ℕ) → i / 64 < length small.elems → value c i ≡ not (value small i))
complement-Holds_example = complement-Holds small small-IsWf

is_empty-clean_example :
    (is_empty (some small) ≡ true) ↔ ((i : ℕ) → i < small.bits → value small i ≡ false)
is_empty-clean_example = is_empty-clean small small-IsWf small-IsClean

is_empty-complement_example : is_empty (complement (some small)) ≡ false
unfolding small
is_empty-complement_example =
    is_empty-complement small small-IsWf small-IsClean (λ e. absurd (omega arith))

is_full-value_example :
    (b : Bool) × (is_full (some small) ≡ ok b)
    × ((b ≡ true) ↔ ((i : ℕ) → i < small.bits → value small i ≡ true))
is_full-value_example = is_full-value small small-IsWf
