-- ===== src/Bits/Sized.antt =====
-- Bit arrays of a given size that are not nil.
use ostracon.Prelude.{ℕ, ◌<◌, ◌≡◌, refl, ◌∙◌, true, Option, some, arith}
use ostracon.Prelude.Run.{ok}
use ostracon.Bits.Array.{BitArray, new_bit_array, set_index}
use ostracon.Bits.Access.{IsWf, set_index-Written, new_bit_array-clear}

-- A well-formed bit array of the size.
abbrev pub BitsFor : ℕ → Option BitArray → Type 0
BitsFor n o = (a : BitArray) × (o ≡ some a) × IsWf a × (a.bits ≡ n)

pub BitsFor-new_bit_array : (n : ℕ) → 0 < n → BitsFor n (new_bit_array n)
BitsFor-new_bit_array n h =
    let (_, (a, e, wf, size, _)) = new_bit_array-clear n h in (a, e, wf, size)

pub BitsFor-set_index :
    (n : ℕ) (o : Option BitArray) (i : ℕ)
    → BitsFor n o
    → i < n
    → (o' : Option BitArray) × (set_index o i true ≡ ok (o', true)) × BitsFor n o'
BitsFor-set_index n o i (a, e, wf, size) lt =
    let (b, run, w) = set_index-Written a i true wf (omega arith) in
    (some b, rw e run, (b, refl, w.wf, w.same_size ∙ size))
