-- ===== src/Commits/Picks.antt =====
-- For each voter the slot of a commit in which it is counted, if any, and whether by a signature of
-- its own.
use ostracon.Prelude.{
  ℕ, zero, suc, ◌+◌, ◌≤◌, ◌≡◌, refl, Bool, true, false, List, [], ◌∷◌, Option, none, some, arith,
  Bytes, bytes_eq, get_elem?, set, replicate, if◌then◌else◌, Bool-cases, inl, inr,
}
use ostracon.Votes.Voters.{Voter, find_address}
use ostracon.Votes.Total.{weights}

abbrev pub Picks : Type 0
Picks = List (Option (ℕ × Bool))

abbrev same : Bool → Bool → Bool
same true b = b
same false true = false
same false false = true

-- The weight of the voters that are counted by their own signature, or by one that was left out.
abbrev pub weight_of : Bool → List Voter → Picks → ℕ
weight_of own [] ps = 0
weight_of own (v ∷ vs) [] = 0
weight_of own (v ∷ vs) (none ∷ ps) = weight_of own vs ps
weight_of own (v ∷ vs) (some (i, o) ∷ ps) =
    (if same own o then v.voting_weight else 0) + weight_of own vs ps

pub weight_of-bound :
    (vs : List Voter) (ps : Picks) → weight_of true vs ps + weight_of false vs ps ≤ weights vs
weight_of-bound [] ps = omega arith
weight_of-bound (v ∷ vs) [] = omega arith
weight_of-bound (v ∷ vs) (none ∷ ps) = omega (arith, weight_of-bound vs ps)
weight_of-bound (v ∷ vs) (some (i, true) ∷ ps) = omega (arith, weight_of-bound vs ps)
weight_of-bound (v ∷ vs) (some (i, false) ∷ ps) = omega (arith, weight_of-bound vs ps)

pub weight_of-replicate :
    (own : Bool) (vs : List Voter) (n : ℕ) → weight_of own vs (replicate n none) ≡ 0
weight_of-replicate own [] n = refl
weight_of-replicate own (v ∷ vs) zero = refl
weight_of-replicate own (v ∷ vs) (suc n) = weight_of-replicate own vs n

pub weight_of-set :
    (own : Bool) (vs : List Voter) (ps : Picks) (j i : ℕ) (o : Bool) {v : Voter}
    → get_elem? vs j ≡ some v
    → get_elem? ps j ≡ some none
    → weight_of own vs (set ps j (some (i, o)))
      ≡ weight_of own vs ps + (if same own o then v.voting_weight else 0)
weight_of-set own [] ps j i o p q = ground arith
weight_of-set own (v ∷ vs) [] j i o p q = ground arith
weight_of-set own (v ∷ vs) (none ∷ ps) zero i o p q = ground arith
weight_of-set own (v ∷ vs) (some x ∷ ps) zero i o p q = ground arith
weight_of-set own (v ∷ vs) (none ∷ ps) (suc j) i o p q = weight_of-set own vs ps j i o p q
weight_of-set own (v ∷ vs) (some x ∷ ps) (suc j) i o p q =
    omega (arith, weight_of-set own vs ps j i o p q)

-- What GetByAddress finds.
pub find_address-found :
    (k : ℕ) (a : Bytes) (vs : List Voter) {j : ℕ} {v : Voter}
    → find_address k a vs ≡ some (j, v)
    → (d : ℕ) × (j ≡ k + d) × (get_elem? vs d ≡ some v) × (bytes_eq v.address a ≡ true)
unfolding find_address
find_address-found k a [] e = ground arith
find_address-found k a (u ∷ vs) {j} {v} e = elim (Bool-cases (bytes_eq u.address a)) [
  | inl t ↦ (0, ground arith, ground arith, ground arith)
  | inr n ↦
      let (d, at, here, same_address) =
        find_address-found (k + 1) a vs {j = j} {v = v} (ground arith) in
      (suc d, omega (arith, at), here, same_address)
]
