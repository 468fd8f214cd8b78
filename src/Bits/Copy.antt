-- ===== src/Bits/Copy.antt =====
-- copyBits and the loops over the words of two arrays, bit by bit.
use ostracon.Prelude.{
  ℕ, zero, suc, ◌≤◌, ◌<◌, ◌≡◌, refl, ap, ◌∙◌, Bool, List, [], ◌∷◌, arith, length, get_or, ltb,
  if◌then◌else◌,
}
use ostracon.Prelude.Run.{ok}
use ostracon.Bits.Word.{
  Word, bit, length-zero_word, bit-zero_word, zip_word, length-zip_word, bit-zip_word,
}
use ostracon.Bits.Array.{pad, combine}
use ostracon.Bits.Access.{AllWords}

pub length-pad : (n : ℕ) (ws : List Word) → length (pad n ws) ≡ n
unfolding pad
length-pad zero ws = refl
length-pad (suc n) [] = ap suc (length-pad n [])
length-pad (suc n) (w ∷ ws) = ap suc (length-pad n ws)

pub AllWords-pad : (n : ℕ) (ws : List Word) → AllWords ws → AllWords (pad n ws)
unfolding pad
AllWords-pad zero ws h = tt
AllWords-pad (suc n) [] h = (length-zero_word, AllWords-pad n [] h)
AllWords-pad (suc n) (w ∷ ws) h = (h.0, AllWords-pad n ws h.1)

pub bit-pad :
    (n : ℕ) (ws : List Word) (i j : ℕ)
    → i < n
    → bit (get_or (pad n ws) i []) j ≡ bit (get_or ws i []) j
unfolding pad
bit-pad zero ws i j h = absurd (omega arith)
bit-pad (suc n) [] zero j h = bit-zero_word j
bit-pad (suc n) [] (suc i) j h = bit-pad n [] i j (omega arith)
bit-pad (suc n) (w ∷ ws) zero j h = refl
bit-pad (suc n) (w ∷ ws) (suc i) j h = bit-pad n ws i j (omega arith)

-- The words after the loop over the first `n`.
pub record Combined (f : Bool → Bool → Bool) (n : ℕ) (c o r : List Word) : Type 0 where
  pub sized : length r ≡ length c
  pub words : AllWords r
  pub bits :
      (i j : ℕ)
      → i < length c
      → j < 64
      → bit (get_or r i []) j ≡ (
          if ltb i n
          then f (bit (get_or c i []) j) (bit (get_or o i []) j)
          else bit (get_or c i []) j)

Combined-cons :
    (f : Bool → Bool → Bool) (n : ℕ) (c o r : List Word) (w v : Word)
    → length w ≡ 64
    → length v ≡ 64
    → Combined f n c o r
    → Combined f (suc n) (w ∷ c) (v ∷ o) (zip_word f w v ∷ r)
Combined-cons f n c o r w v lw lv s = record {
  sized = ap suc s.sized;
  words = (length-zip_word f w v (omega arith) ∙ lw, s.words);
  bits = go;
}
  where
    go :
        (i j : ℕ)
        → i < length (w ∷ c)
        → j < 64
        → bit (get_or (zip_word f w v ∷ r) i []) j ≡ (
            if ltb i (suc n)
            then f (bit (get_or (w ∷ c) i []) j) (bit (get_or (v ∷ o) i []) j)
            else bit (get_or (w ∷ c) i []) j)
    go zero j lt lj = bit-zip_word f w v j (omega arith) (omega arith) ∙ ground arith
    go (suc i) j lt lj = ground (arith, s.bits i j)

pub combine-Combined :
    (f : Bool → Bool → Bool) (n : ℕ) (c o : List Word)
    → AllWords c
    → AllWords o
    → n ≤ length c
    → n ≤ length o
    → (r : List Word) × (combine f n c o ≡ ok r) × Combined f n c o r
unfolding combine
combine-Combined f zero c o hc ho p q =
    (c, refl, record { sized = refl; words = hc; bits = λ i j lt lj. ground arith })
combine-Combined f (suc n) [] o hc ho p q = absurd (omega arith)
combine-Combined f (suc n) (w ∷ c) [] hc ho p q = absurd (omega arith)
combine-Combined f (suc n) (w ∷ c) (v ∷ o) hc ho p q =
    let (r, e, s) = combine-Combined f n c o hc.1 ho.1 (omega arith) (omega arith) in
    (zip_word f w v ∷ r, rw e, Combined-cons f n c o r w v hc.0 ho.0 s)
