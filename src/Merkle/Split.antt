-- ===== src/Merkle/Split.antt =====
-- getSplitPoint of crypto/merkle/tree.go.
use native.Mathlib.Nat.{pow-suc, pow-le-pow_right}
use native.Mathlib.Decide.{ℕ_discrete, dec_lt}
use ostracon.Prelude.{
  ℕ, zero, suc, ◌+◌, ◌-◌, ◌*◌, ◌/◌, ◌^◌, ◌≤◌, ◌<◌, ◌≡◌, refl, sym, ap, ◌∙◌, inl, inr, arith, ◌==◌,
  ltb, if◌then◌else◌, Bool-cases,
}
use ostracon.Prelude.Run.{Run, ok, panic}

-- bits.Len: how many bits it takes to write `n`. The fuel `n` is more than the halvings.
bit_len_go : ℕ → ℕ → ℕ
bit_len_go zero n = 0
bit_len_go (suc f) n = let rest = suc (bit_len_go f (n / 2)) in if n == 0 then 0 else rest

pub bit_len : ℕ → ℕ
unfolding bit_len_go
bit_len n = bit_len_go n n

-- The body of getSplitPoint behind its guard.
unfoldable pub split_point : ℕ → ℕ
unfolding bit_len
split_point length = let k = 2 ^ (bit_len length - 1) in if k == length then k / 2 else k

unfoldable pub get_split_point : ℕ → Run ℕ
unfolding split_point
get_split_point length = if ltb length 1 then panic else ok (split_point length)

two_pow-suc : (j : ℕ) → 2 ^ suc j ≡ 2 * 2 ^ j
two_pow-suc j = simp pow-suc (omega arith)

bit_len_go-zero : (f : ℕ) → bit_len_go f 0 ≡ 0
unfolding bit_len_go
bit_len_go-zero zero = refl
bit_len_go-zero (suc f) = refl

-- The bit length of a positive number, between two powers of two.
abbrev Measures : ℕ → ℕ → ℕ → Type 0
Measures n b j = (b ≡ suc j) × (2 ^ j ≤ n) × (n < 2 ^ suc j)

bit_len_go_bounds : (f n : ℕ) → n ≤ f → 0 < n → (j : ℕ) × Measures n (bit_len_go f n) j
unfolding bit_len_go
bit_len_go_bounds zero n h p = absurd (omega arith)
bit_len_go_bounds (suc f) n h p = elim (Bool-cases (ltb (n / 2) 1)) [
  | inl small ↦
      let half : n / 2 ≡ 0 = ground arith in
      (0, (rw half (ground (arith, bit_len_go-zero f)), omega arith, omega arith))
  | inr large ↦
      let half : 0 < n / 2 = ground arith in
      let (j, m) = bit_len_go_bounds f (n / 2) (omega arith) half in
      (
        suc j,
        (
          ground (arith, m.0),
          rw two_pow-suc (omega (arith, m.1)),
          rw two_pow-suc (omega (arith, m.2)),
        ),
      )
]

-- `k` is the power of two, with exponent `j`, below `n` and at least half of it.
abbrev pub IsSplit : ℕ → ℕ → ℕ → Type 0
IsSplit n k j = (k ≡ 2 ^ j) × (k < n) × (n ≤ 2 * k)

IsSplit-of :
    (n j : ℕ)
    → 2 ≤ n
    → 2 ^ j ≤ n
    → n < 2 ^ suc j
    → (i : ℕ) × IsSplit n (if 2 ^ j == n then 2 ^ j / 2 else 2 ^ j) i
IsSplit-of n zero h lo hi = absurd (omega arith)
IsSplit-of n (suc i) h lo hi = elim (Bool-cases (2 ^ suc i == n)) [
  | inl exact ↦ (i, rw exact (ground (arith, two_pow-suc i)))
  | inr below ↦ (suc i, rw below (ground (arith, two_pow-suc (suc i))))
]

pub split_point-IsSplit : (n : ℕ) → 2 ≤ n → (j : ℕ) × IsSplit n (split_point n) j
unfolding split_point
split_point-IsSplit n h =
    let (j, m) = bit_len_go_bounds n n (omega arith) (omega arith) in
    let top : bit_len_go n n - 1 ≡ j = omega (arith, m.0) in rw top (IsSplit-of n j h m.1 m.2)

pow_gap : (i j : ℕ) → i < j → 2 * 2 ^ i ≤ 2 ^ j
pow_gap i j h = rw (← two_pow-suc i) (pow-le-pow_right (omega arith) h)

-- At most one power of two lies below `n` and not below half of it.
split_unique : (n k l i j : ℕ) → IsSplit n k i → IsSplit n l j → k ≡ l
split_unique n k l i j s t = elim (ℕ_discrete i j) [
  | yes e ↦ s.0 ∙ ap (λ (x : ℕ). 2 ^ x) e ∙ sym t.0
  | no ne ↦ elim (dec_lt i j) [
    | yes lt ↦ absurd (omega (arith, pow_gap i j lt, s, t))
    | no ge ↦ absurd (omega (arith, pow_gap j i (omega arith), s, t))
  ]
]

-- Half of the nodes of a level, rounded up, split at half of the split point.
pub split_point_half : (n : ℕ) → 3 ≤ n → split_point n ≡ 2 * split_point ((n + 1) / 2)
split_point_half n h =
    let (j, s) = split_point-IsSplit n (omega arith) in
    let (i, t) = split_point-IsSplit ((n + 1) / 2) (omega arith) in
    split_unique n _ _ j (suc i) s
      (ap (λ (x : ℕ). 2 * x) t.0 ∙ sym (two_pow-suc i), omega (arith, t), omega (arith, t))

-- getSplitPoint returns the largest power of two below a length of two or more, which is at least
-- half of the length; it panics on zero, and returns zero for one.
pub get_split_point_lem :
    (n : ℕ)
    → 2 ≤ n
    → (get_split_point 0 ≡ panic)
      × (get_split_point 1 ≡ ok 0)
      × ((k j : ℕ) × (get_split_point n ≡ ok k) × IsSplit n k j)
unfolding get_split_point
get_split_point_lem n h =
    let (j, s) = split_point-IsSplit n h in (refl, refl, (split_point n, j, ground arith, s))
