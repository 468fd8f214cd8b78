-- ===== src/Bits/Word.antt =====
-- A uint64 that is used bit by bit: the list of its 64 bits, the least significant first.
use ostracon.Prelude.{
  ℕ, zero, suc, ◌<◌, ◌≡◌, refl, ap, Bool, true, false, not, ◌&&◌, List, [], ◌∷◌, map, arith, length,
  get_or, replicate, set, length-map, ◌==◌, if◌then◌else◌,
}

abbrev pub Word : Type 0
Word = List Bool

abbrev pub word_size : ℕ
word_size = 64

-- uint64(0)
unfoldable pub zero_word : Word
zero_word = replicate word_size false

-- The bit at `j`: `w & (1 << j) > 0`.
abbrev pub bit : Word → ℕ → Bool
bit w j = get_or w j false

-- A binary operation, bit by bit.
unfoldable pub zip_word : (Bool → Bool → Bool) → Word → Word → Word
zip_word f [] v = []
zip_word f (b ∷ w) [] = []
zip_word f (b ∷ w) (c ∷ v) = f b c ∷ zip_word f w v

abbrev pub and_not : Bool → Bool → Bool
and_not a b = a && not b

-- ^w
unfoldable pub not_word : Word → Word
not_word w = map not w

-- w + 1, wrapping
unfoldable pub increment : Word → Word
increment [] = []
increment (false ∷ w) = true ∷ w
increment (true ∷ w) = false ∷ increment w

-- w == 0
unfoldable pub is_zero : Word → Bool
is_zero [] = true
is_zero (b ∷ w) = not b && is_zero w

pub length-zero_word : length zero_word ≡ 64
unfolding zero_word
length-zero_word = refl

pub bit-replicate : (n j : ℕ) → bit (replicate n false) j ≡ false
bit-replicate zero j = refl
bit-replicate (suc n) zero = refl
bit-replicate (suc n) (suc j) = bit-replicate n j

pub bit-zero_word : (j : ℕ) → bit zero_word j ≡ false
unfolding zero_word
bit-zero_word j = bit-replicate 64 j

pub length-zip_word :
    (f : Bool → Bool → Bool) (w v : Word) → length w ≡ length v → length (zip_word f w v) ≡ length w
unfolding zip_word
length-zip_word f [] v e = refl
length-zip_word f (b ∷ w) [] e = absurd (omega arith)
length-zip_word f (b ∷ w) (c ∷ v) e = ap suc (length-zip_word f w v (omega arith))

pub bit-zip_word :
    (f : Bool → Bool → Bool) (w v : Word) (j : ℕ)
    → length w ≡ length v
    → j < length w
    → bit (zip_word f w v) j ≡ f (bit w j) (bit v j)
unfolding zip_word
bit-zip_word f [] v j e h = absurd (omega arith)
bit-zip_word f (b ∷ w) [] j e h = absurd (omega arith)
bit-zip_word f (b ∷ w) (c ∷ v) zero e h = refl
bit-zip_word f (b ∷ w) (c ∷ v) (suc j) e h = bit-zip_word f w v j (omega arith) (omega arith)

pub length-not_word : (w : Word) → length (not_word w) ≡ length w
unfolding not_word
length-not_word w = length-map w not

pub bit-not_word : (w : Word) (j : ℕ) → j < length w → bit (not_word w) j ≡ not (bit w j)
unfolding not_word
bit-not_word [] j h = absurd (omega arith)
bit-not_word (b ∷ w) zero h = refl
bit-not_word (b ∷ w) (suc j) h = unfold not_word in bit-not_word w j (omega arith)

pub bit-set :
    (w : Word) (i j : ℕ) (v : Bool)
    → i < length w
    → bit (set w i v) j ≡ (if i == j then v else bit w j)
bit-set [] i j v h = absurd (omega arith)
bit-set (b ∷ w) zero zero v h = refl
bit-set (b ∷ w) zero (suc j) v h = ground arith
bit-set (b ∷ w) (suc i) zero v h = ground arith
bit-set (b ∷ w) (suc i) (suc j) v h = ground (arith, bit-set w i j v)

-- A zero word has no bit set, and a word with no bit set is zero.
pub is_zero→bit : (w : Word) → is_zero w ≡ true → (j : ℕ) → bit w j ≡ false
unfolding is_zero
is_zero→bit [] h j = refl
is_zero→bit (b ∷ w) h zero = ground arith
is_zero→bit (b ∷ w) h (suc j) = is_zero→bit w (ground arith) j

pub bit→is_zero : (w : Word) → ((j : ℕ) → j < length w → bit w j ≡ false) → is_zero w ≡ true
unfolding is_zero
bit→is_zero [] h = refl
bit→is_zero (b ∷ w) h =
    ground (arith, h 0 (omega arith), bit→is_zero w (λ j p. h (suc j) (omega arith)))
