-- ===== src/Commits/Sums.antt =====
-- The int64 sums and products of the verification of commits. An int64 value stands for the number
-- below 2^64 with the same bits, and is negative from 2^63 on.
use native.Mathlib.Nat.{le-div_iff_mul-le, mul-zero, div-le_self}
use ostracon.Prelude.{
  ℕ, ◌+◌, ◌-◌, ◌*◌, ◌/◌, ◌%◌, ◌<◌, ◌≡◌, ◌⊎◌, sym, ◌∙◌, refl, true, false, not, Bool, ◌||◌, Option,
  none, some, arith, ltb, ◌==◌, if◌then◌else◌, Bool-cases, inl, inr, zero, suc,
}

abbrev pub two_63 : ℕ
two_63 = 9223372036854775808

abbrev pub two_64 : ℕ
two_64 = 18446744073709551616

-- a + b
unfoldable pub add_int64 : ℕ → ℕ → ℕ
add_int64 a b = (a + b) % two_64

-- a > b
unfoldable pub gt_int64 : ℕ → ℕ → Bool
gt_int64 a b = ltb ((b + two_63) % two_64) ((a + two_63) % two_64)

-- a < 0
abbrev pub is_negative : ℕ → Bool
is_negative a = not (ltb a two_63)

-- -a, where the least int64 is its own negation.
abbrev pub neg_int64 : ℕ → ℕ
neg_int64 a = (two_64 - a) % two_64

-- The absolute value, as a number.
abbrev pub magnitude : ℕ → ℕ
magnitude a = if is_negative a then two_64 - a else a

-- a / b, which rounds to zero.
unfoldable pub quot_int64 : ℕ → ℕ → ℕ
quot_int64 a b =
    let q = magnitude a / magnitude b in
    if is_negative a
    then if is_negative b then q else neg_int64 q
    else if is_negative b
    then neg_int64 q
    else q

-- safeMul: `none` is an overflow.
unfoldable pub safe_mul : ℕ → ℕ → Option ℕ
unfolding gt_int64 quot_int64
safe_mul a b =
    if (a == 0) || (b == 0)
    then some 0
    else (let abs_b = if is_negative b then neg_int64 b else b in
        let abs_a = if is_negative a then neg_int64 a else a in
        if gt_int64 abs_a (quot_int64 (two_63 - 1) abs_b) then none else some (a * b % two_64))

pub quot_int64-small : (a b : ℕ) → a < two_63 → b < two_63 → quot_int64 a b ≡ a / b
unfolding quot_int64
quot_int64-small a b h k =
    let pa : ltb a two_63 ≡ true = ground arith in
    let pb : ltb b two_63 ≡ true = ground arith in rw (pa, pb) refl

pub add_int64-small : (a b : ℕ) → a + b < two_64 → add_int64 a b ≡ a + b
unfolding add_int64
add_int64-small a b h = omega arith

pub gt_int64-small : (a b : ℕ) → a < two_63 → b < two_63 → gt_int64 a b ≡ ltb b a
unfolding gt_int64
gt_int64-small a b h k =
    let ea : (a + two_63) % two_64 ≡ a + two_63 = omega arith in
    let eb : (b + two_63) % two_64 ≡ b + two_63 = omega arith in rw (ea, eb) (ground arith)

-- safeMul of numbers that are not negative.
safe_mul-small :
    (a b : ℕ)
    → a < two_63
    → b < two_63
    → safe_mul a b ≡ (
        if (a == 0) || (b == 0)
        then some 0
        else if ltb ((two_63 - 1) / b) a
        then none
        else some (a * b % two_64))
unfolding safe_mul
safe_mul-small a b h k =
    let pa : ltb a two_63 ≡ true = ground arith in
    let pb : ltb b two_63 ≡ true = ground arith in
    let less = div-le_self (two_63 - 1) b in
    let gt = gt_int64-small a ((two_63 - 1) / b) h (omega (arith, less)) in
    let quot = quot_int64-small (two_63 - 1) b (omega arith) k in rw (pa, pb, quot, gt) refl

small_product :
    (a b : ℕ) {product : ℕ}
    → (if (a == 0) || (b == 0)
        then some 0
        else if ltb ((two_63 - 1) / b) a
        then none
        else some (a * b % two_64))
      ≡ some product
    → (product ≡ a * b) × (product < two_63)
small_product zero b e = ground arith
small_product (suc a) zero e = let none_there = mul-zero (suc a) in ground arith
small_product (suc a) (suc b) {product} e = elim (Bool-cases (ltb ((two_63 - 1) / suc b) (suc a))) [
  | inl big ↦ ground arith
  | inr small ↦
      let fits =
        (le-div_iff_mul-le {k = suc b} {x = suc a} {y = two_63 - 1} (omega arith)).0
          (ground arith) in
      let value : (if (suc a == 0) || (suc b == 0)
            then some 0
            else if ltb ((two_63 - 1) / suc b) (suc a)
            then none
            else some (suc a * suc b % two_64))
          ≡ some (suc a * suc b % two_64) =
        let factors : ((suc a == 0) || (suc b == 0)) ≡ false = ground arith in
        rw (factors, small) refl in
      let both : some product ≡ some (suc a * suc b % two_64) = sym e ∙ value in
      let wraps : product ≡ suc a * suc b % two_64 = cc in
      let is : product ≡ suc a * suc b = omega (arith, wraps, fits) in (is, omega (arith, is, fits))
]

-- A product without overflow, of numbers that are not negative.
pub safe_mul-product :
    (a b : ℕ) {product : ℕ}
    → a < two_63
    → b < two_63
    → safe_mul a b ≡ some product
    → (product ≡ a * b) × (product < two_63)
safe_mul-product a b h k e = small_product a b (sym (safe_mul-small a b h k) ∙ e)

pub safe_mul-one : (a : ℕ) → a < two_63 → safe_mul a 1 ≡ some a
safe_mul-one a h = safe_mul-small a 1 h (omega arith) ∙ once (Bool-cases (a == 0))
  where
    once :
        ((a == 0) ≡ true) ⊎ ((a == 0) ≡ false)
        → (if (a == 0) || (1 == 0)
            then some 0
            else if ltb ((two_63 - 1) / 1) a
            then none
            else some (a * 1 % two_64))
          ≡ some a
    once (inl e) = ground arith
    once (inr e) = ground arith
