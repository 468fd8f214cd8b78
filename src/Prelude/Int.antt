-- ===== src/Prelude/Int.antt =====
-- Signed integers over the native numbers: int64, int32 and int8 values of the source.
use Prim.Native.Nat.{ℕ, suc, ◌+◌, ◌-◌, ◌≤◌, ◌<◌}
use mathlib.Core.Path.{◌≡◌}
use mathlib.Core.Logic.{◌↔◌, ◌≢◌, inl, inr}
use mathlib.Core.Bool.{Bool, true, false, ◌&&◌}
use native.Mathlib.Omega.{arith}
use ostracon.Prelude.Tests.{leb, ltb, ◌==◌, if◌then◌else◌, Bool-cases}

-- `negsuc n` is -(n + 1).
pub data ℤ : Type 0 where
  pos : ℕ → ℤ
  negsuc : ℕ → ℤ

abbrev pub pos_part : ℤ → ℕ
pos_part (pos n) = n
pos_part (negsuc n) = 0

abbrev pub neg_part : ℤ → ℕ
neg_part (pos n) = 0
neg_part (negsuc n) = suc n

-- a - b, as an integer.
abbrev pub sub_ℕ : ℕ → ℕ → ℤ
sub_ℕ a b = if leb b a then pos (a - b) else negsuc (b - a - 1)

infixl 65 ◌+ℤ◌ ◌-ℤ◌
infix 50 ◌≤ℤ◌ ◌<ℤ◌
unfoldable pub ◌+ℤ◌ : ℤ → ℤ → ℤ
a +ℤ b = sub_ℕ (pos_part a + pos_part b) (neg_part a + neg_part b)

unfoldable pub ◌-ℤ◌ : ℤ → ℤ → ℤ
a -ℤ b = sub_ℕ (pos_part a + neg_part b) (neg_part a + pos_part b)

abbrev pub ◌≤ℤ◌ : ℤ → ℤ → Type 0
a ≤ℤ b = pos_part a + neg_part b ≤ pos_part b + neg_part a

abbrev pub ◌<ℤ◌ : ℤ → ℤ → Type 0
a <ℤ b = pos_part a + neg_part b < pos_part b + neg_part a

abbrev pub ltb_ℤ : ℤ → ℤ → Bool
ltb_ℤ a b = ltb (pos_part a + neg_part b) (pos_part b + neg_part a)

abbrev pub eqb_ℤ : ℤ → ℤ → Bool
eqb_ℤ a b = (pos_part a == pos_part b) && (neg_part a == neg_part b)

pub +ℤ_parts :
    (a b : ℤ)
    → pos_part (a +ℤ b) + neg_part a + neg_part b ≡ neg_part (a +ℤ b) + pos_part a + pos_part b
unfolding ◌+ℤ◌
+ℤ_parts a b = ground arith

pub -ℤ_parts :
    (a b : ℤ)
    → pos_part (a -ℤ b) + neg_part a + pos_part b ≡ neg_part (a -ℤ b) + pos_part a + neg_part b
unfolding ◌-ℤ◌
-ℤ_parts a b = ground arith

pub eq_of_parts : (a b : ℤ) → pos_part a + neg_part b ≡ pos_part b + neg_part a → a ≡ b
eq_of_parts a b h = ground arith

pub eqb_ℤ_iff : (a b : ℤ) → (eqb_ℤ a b ≡ true) ↔ (a ≡ b)
eqb_ℤ_iff a b = ground arith

ne_of_eqb : (a b : ℤ) → eqb_ℤ a b ≡ false → pos_part a + neg_part b ≢ pos_part b + neg_part a
ne_of_eqb a b e = ground arith

ge_of_ltb : (a b : ℤ) → ltb_ℤ b a ≡ false → a ≤ℤ b
ge_of_ltb a b e = ground arith

pub ruleset int_laws = (arith, +ℤ_parts, -ℤ_parts, eq_of_parts)

-- The three ways in which two integers compare, with what the tests compute to.
pub data Compared (a b : ℤ) : Type 0 where
  above : ltb_ℤ b a ≡ true → b <ℤ a → Compared a b
  equal : ltb_ℤ b a ≡ false → eqb_ℤ a b ≡ true → a ≡ b → Compared a b
  below : ltb_ℤ b a ≡ false → eqb_ℤ a b ≡ false → a <ℤ b → Compared a b

pub compare_ℤ : (a b : ℤ) → Compared a b
compare_ℤ a b = elim (Bool-cases (ltb_ℤ b a)) [
  | inl e ↦ above e (ground arith)
  | inr e ↦ elim (Bool-cases (eqb_ℤ a b)) [
    | inl f ↦ equal e f ((eqb_ℤ_iff a b).0 f)
    | inr f ↦ below e f (omega (arith, ne_of_eqb a b f, ge_of_ltb a b e))
  ]
]
