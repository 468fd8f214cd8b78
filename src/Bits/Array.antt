-- ===== src/Bits/Array.antt =====
-- BitArray of libs/bits/bit_array.go. A nil receiver is `none`; the mutex is left out, as each
-- method is one step. An index is not negative. Reading past the words of an array panics.
use ostracon.Prelude.{
  ℕ, zero, suc, ◌+◌, ◌-◌, ◌/◌, ◌%◌, Bool, true, false, ◌&&◌, ◌||◌, List, [], ◌∷◌, ◌++◌, Option,
  none, some, length, take, get_elem?, set, replicate, leb, ◌==◌, if◌then◌else◌,
}
use ostracon.Prelude.Run.{Run, ok, panic, ◌>>=◌}
use ostracon.Bits.Word.{Word, bit, zero_word, zip_word, and_not, not_word, increment, is_zero}
use Prim.Native.Nat.{min, max}

pub record BitArray : Type 0 where
  pub bits : ℕ
  pub elems : List Word

abbrev pub words_for : ℕ → ℕ
words_for bits = (bits + 63) / 64

unfoldable pub new_bit_array : ℕ → Option BitArray
new_bit_array bits =
    if bits == 0
    then none
    else some (record { bits = bits; elems = replicate (words_for bits) zero_word })

-- elems[i]
unfoldable pub word_at : List Word → ℕ → Run Word
word_at elems i = elim (get_elem? elems i) [ none ↦ panic | some w ↦ ok w ]

unfoldable pub get_index : Option BitArray → ℕ → Run Bool
unfolding word_at
get_index none i = ok false
get_index (some a) i =
    let read = word_at a.elems (i / 64) >>= λ w. ok (bit w (i % 64)) in
    if leb a.bits i then ok false else read

-- SetIndex changes the array in place: the array afterwards, and the result.
unfoldable pub set_index : Option BitArray → ℕ → Bool → Run (Option BitArray × Bool)
unfolding word_at
set_index none i v = ok (none, false)
set_index (some a) i v =
    let write : Run (Option BitArray × Bool) = word_at a.elems (i / 64) >>= λ w.
    ok (some (record a { elems = set a.elems (i / 64) (set w (i % 64) v) }), true) in
    if leb a.bits i then ok (some a, false) else write

-- `make` of n words and `copy` into them.
unfoldable pub pad : ℕ → List Word → List Word
pad zero ws = []
pad (suc n) [] = zero_word ∷ pad n []
pad (suc n) (w ∷ ws) = w ∷ pad n ws

unfoldable pub copy_bits : BitArray → ℕ → BitArray
unfolding pad
copy_bits a bits = record { bits = bits; elems = pad (words_for bits) a.elems }

-- The loops `c.Elems[i] op= o.Elems[i]` for the first n words.
unfoldable pub combine : (Bool → Bool → Bool) → ℕ → List Word → List Word → Run (List Word)
combine f zero c o = ok c
combine f (suc n) [] o = panic
combine f (suc n) (w ∷ c) [] = panic
combine f (suc n) (w ∷ c) (v ∷ o) = combine f n c o >>= λ rest. ok (zip_word f w v ∷ rest)

abbrev pub with_elems : ℕ → Run (List Word) → Run (Option BitArray)
with_elems bits run = run >>= λ elems. ok (some (record { bits = bits; elems = elems }))

unfoldable pub or : Option BitArray → Option BitArray → Run (Option BitArray)
unfolding copy_bits combine
or none o = ok o
or (some a) none = ok (some a)
or (some a) (some o) =
    let c = copy_bits a (max a.bits o.bits) in
    with_elems c.bits
      (combine (λ x y. x || y) (min (length a.elems) (length o.elems)) c.elems o.elems)

unfoldable pub and : Option BitArray → Option BitArray → Run (Option BitArray)
unfolding copy_bits combine
and none o = ok none
and (some a) none = ok none
and (some a) (some o) =
    let c = copy_bits a (min a.bits o.bits) in
    with_elems c.bits (combine (λ x y. x && y) (length c.elems) c.elems o.elems)

unfoldable pub not_words : List Word → List Word
not_words [] = []
not_words (w ∷ ws) = not_word w ∷ not_words ws

unfoldable pub complement : Option BitArray → Option BitArray
unfolding not_words
complement none = none
complement (some a) = some (record a { elems = not_words a.elems })

unfoldable pub sub : Option BitArray → Option BitArray → Run (Option BitArray)
unfolding copy_bits combine
sub none o = ok none
sub (some a) none = ok none
sub (some a) (some o) =
    let c = copy_bits a a.bits in
    with_elems c.bits (combine and_not (min (length a.elems) (length o.elems)) c.elems o.elems)

unfoldable pub all_zero : List Word → Bool
all_zero [] = true
all_zero (w ∷ ws) = is_zero w && all_zero ws

unfoldable pub is_empty : Option BitArray → Bool
unfolding all_zero
is_empty none = true
is_empty (some a) = all_zero a.elems

-- Every word but the last is all ones, and adding one to the last clears its low bits.
unfoldable pub full_words : ℕ → List Word → Run Bool
full_words last_bits [] = panic
full_words last_bits (w ∷ []) = ok (is_zero (take last_bits (increment w)))
full_words last_bits (w ∷ v ∷ ws) =
    let rest = full_words last_bits (v ∷ ws) in if is_zero (not_word w) then rest else ok false

unfoldable pub is_full : Option BitArray → Run Bool
unfolding full_words
is_full none = ok true
is_full (some a) = full_words ((a.bits + 63) % 64 + 1) a.elems

-- The positions of the bits set among the first n of a word, the first at `cur`.
unfoldable pub word_indices : ℕ → ℕ → Word → List ℕ
word_indices zero cur w = []
word_indices (suc n) cur [] = []
word_indices (suc n) cur (b ∷ w) =
    let rest = word_indices n (suc cur) w in if b then cur ∷ rest else rest

unfoldable pub indices_from : ℕ → ℕ → List Word → Run (List ℕ)
unfolding word_indices
indices_from bits cur [] = panic
indices_from bits cur (w ∷ []) = ok (word_indices (bits - cur) cur w)
indices_from bits cur (w ∷ v ∷ ws) = indices_from bits (cur + 64) (v ∷ ws) >>= λ rest.
    ok (if is_zero w then rest else word_indices 64 cur w ++ rest)

unfoldable pub get_true_indices : BitArray → Run (List ℕ)
unfolding indices_from
get_true_indices a = indices_from a.bits 0 a.elems

-- PickRandom, with `intn` for tmrand.Intn; reading past the list panics.
unfoldable pub pick_random : (ℕ → ℕ) → Option BitArray → Run (ℕ × Bool)
pick_random intn none = ok (0, false)
pick_random intn (some a) = get_true_indices a >>= λ indices.
    if length indices == 0
    then ok (0, false)
    else elim (get_elem? indices (intn (length indices))) [ none ↦ panic | some i ↦ ok (i, true) ]

-- The `copy` of Update: the words of `a`, overwritten by those of `o` as far as both go.
unfoldable pub copy_over : List Word → List Word → List Word
copy_over [] o = []
copy_over (w ∷ a) [] = w ∷ a
copy_over (w ∷ a) (v ∷ o) = v ∷ copy_over a o

unfoldable pub update : Option BitArray → Option BitArray → Option BitArray
unfolding copy_over
update none o = none
update (some a) none = some a
update (some a) (some o) = some (record a { elems = copy_over a.elems o.elems })
