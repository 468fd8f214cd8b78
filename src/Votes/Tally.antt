-- ===== src/Votes/Tally.antt =====
-- The weight of the votes in a slice, and slices whose votes are covered by another slice.
use ostracon.Prelude.{
  ℕ, zero, suc, ◌+◌, ◌≤◌, ◌≡◌, refl, ap, List, [], ◌∷◌, Option, none, some, arith, length,
  get_elem?, set, replicate,
}
use ostracon.Prelude.Run.{ok, ◌>>=◌}
use ostracon.Types.Vote.{Vote}
use ostracon.Votes.Voters.{Voter}
use ostracon.Votes.Total.{weights}
use ostracon.Votes.VoteSet.{copy_votes}

abbrev pub Slots : Type 0
Slots = List (Option Vote)

-- The weight of the voters whose slot holds a vote.
abbrev pub weigh : List Voter → Slots → ℕ
weigh [] xs = 0
weigh (v ∷ vs) [] = 0
weigh (v ∷ vs) (none ∷ xs) = weigh vs xs
weigh (v ∷ vs) (some x ∷ xs) = v.voting_weight + weigh vs xs

-- The slices are of one length, and where the first has a vote the second has one.
abbrev pub Covered : Slots → Slots → Type 0
Covered [] [] = Unit
Covered (none ∷ a) (y ∷ b) = Covered a b
Covered (some x ∷ a) (some y ∷ b) = Covered a b
Covered (some x ∷ a) (none ∷ b) = ⊥
Covered [] (y ∷ b) = ⊥
Covered (x ∷ a) [] = ⊥

pub weigh-bound : (vs : List Voter) (xs : Slots) → weigh vs xs ≤ weights vs
weigh-bound [] xs = omega arith
weigh-bound (v ∷ vs) [] = omega arith
weigh-bound (v ∷ vs) (none ∷ xs) = omega (arith, weigh-bound vs xs)
weigh-bound (v ∷ vs) (some x ∷ xs) = omega (arith, weigh-bound vs xs)

pub weigh-replicate : (vs : List Voter) (n : ℕ) → weigh vs (replicate n none) ≡ 0
weigh-replicate [] n = refl
weigh-replicate (v ∷ vs) zero = refl
weigh-replicate (v ∷ vs) (suc n) = weigh-replicate vs n

pub weigh-set_empty :
    (vs : List Voter) (xs : Slots) (i : ℕ) (x : Vote) {v : Voter}
    → get_elem? vs i ≡ some v
    → get_elem? xs i ≡ some none
    → weigh vs (set xs i (some x)) ≡ weigh vs xs + v.voting_weight
weigh-set_empty [] xs i x p q = ground arith
weigh-set_empty (v ∷ vs) [] i x p q = ground arith
weigh-set_empty (v ∷ vs) (none ∷ xs) zero x p q = ground arith
weigh-set_empty (v ∷ vs) (some y ∷ xs) zero x p q = ground arith
weigh-set_empty (v ∷ vs) (none ∷ xs) (suc i) x p q = weigh-set_empty vs xs i x p q
weigh-set_empty (v ∷ vs) (some y ∷ xs) (suc i) x p q = omega (arith, weigh-set_empty vs xs i x p q)

pub weigh-set_full :
    (vs : List Voter) (xs : Slots) (i : ℕ) (x : Vote) {y : Vote}
    → get_elem? xs i ≡ some (some y)
    → weigh vs (set xs i (some x)) ≡ weigh vs xs
weigh-set_full [] xs i x q = refl
weigh-set_full (v ∷ vs) [] i x q = refl
weigh-set_full (v ∷ vs) (none ∷ xs) zero x q = ground arith
weigh-set_full (v ∷ vs) (some z ∷ xs) zero x q = refl
weigh-set_full (v ∷ vs) (none ∷ xs) (suc i) x q = weigh-set_full vs xs i x q
weigh-set_full (v ∷ vs) (some z ∷ xs) (suc i) x q = omega (arith, weigh-set_full vs xs i x q)

pub Covered-refl : (a : Slots) → Covered a a
Covered-refl [] = tt
Covered-refl (none ∷ a) = Covered-refl a
Covered-refl (some x ∷ a) = Covered-refl a

pub Covered-length : (a b : Slots) → Covered a b → length a ≡ length b
Covered-length [] [] c = refl
Covered-length (none ∷ a) (y ∷ b) c = ap suc (Covered-length a b c)
Covered-length (some x ∷ a) (some y ∷ b) c = ap suc (Covered-length a b c)
Covered-length (some x ∷ a) (none ∷ b) c = absurd c
Covered-length [] (y ∷ b) c = absurd c
Covered-length (x ∷ a) [] c = absurd c

pub Covered-replicate : (b : Slots) → Covered (replicate (length b) none) b
Covered-replicate [] = tt
Covered-replicate (y ∷ b) = Covered-replicate b

pub Covered-set_right :
    (a b : Slots) (i : ℕ) (x : Vote) → Covered a b → Covered a (set b i (some x))
Covered-set_right [] [] i x c = tt
Covered-set_right (none ∷ a) (y ∷ b) zero x c = c
Covered-set_right (none ∷ a) (y ∷ b) (suc i) x c = Covered-set_right a b i x c
Covered-set_right (some z ∷ a) (some y ∷ b) zero x c = c
Covered-set_right (some z ∷ a) (some y ∷ b) (suc i) x c = Covered-set_right a b i x c
Covered-set_right (some z ∷ a) (none ∷ b) i x c = absurd c
Covered-set_right [] (y ∷ b) i x c = absurd c
Covered-set_right (z ∷ a) [] i x c = absurd c

pub Covered-set_left :
    (a b : Slots) (i : ℕ) (x : Vote) {y : Vote}
    → Covered a b
    → get_elem? b i ≡ some (some y)
    → Covered (set a i (some x)) b
Covered-set_left [] [] i x c e = tt
Covered-set_left (none ∷ a) (some y ∷ b) zero x c e = c
Covered-set_left (none ∷ a) (none ∷ b) zero x c e = ground arith
Covered-set_left (none ∷ a) (y ∷ b) (suc i) x c e = Covered-set_left a b i x c e
Covered-set_left (some z ∷ a) (some y ∷ b) zero x c e = c
Covered-set_left (some z ∷ a) (some y ∷ b) (suc i) x c e = Covered-set_left a b i x c e
Covered-set_left (some z ∷ a) (none ∷ b) i x c e = absurd c
Covered-set_left [] (y ∷ b) i x c e = absurd c
Covered-set_left (z ∷ a) [] i x c e = absurd c

-- Copying covered votes changes no slot from empty to filled or back.
pub copy_votes-Covered :
    (from to : Slots)
    → Covered from to
    → (xs : Slots) × (copy_votes to from ≡ ok xs)
      × ((vs : List Voter) → weigh vs xs ≡ weigh vs to)
      × ((a : Slots) → Covered a to → Covered a xs)
unfolding copy_votes
copy_votes-Covered [] [] c = ([], refl, λ vs. refl, λ a h. h)
copy_votes-Covered (none ∷ from) (y ∷ to) c =
    let (xs, e, w, k) = copy_votes-Covered from to c in
    (y ∷ xs, ap (λ r. r >>= λ rest. ok (y ∷ rest)) e, kept_weight y xs to w, kept_cover y xs to k)
  where
    kept_weight :
        (y : Option Vote) (xs to : Slots)
        → ((vs : List Voter) → weigh vs xs ≡ weigh vs to)
        → (vs : List Voter) → weigh vs (y ∷ xs) ≡ weigh vs (y ∷ to)
    kept_weight y xs to w [] = refl
    kept_weight none xs to w (v ∷ vs) = w vs
    kept_weight (some y) xs to w (v ∷ vs) = ap (λ (n : ℕ). v.voting_weight + n) (w vs)

    kept_cover :
        (y : Option Vote) (xs to : Slots)
        → ((a : Slots) → Covered a to → Covered a xs)
        → (a : Slots) → Covered a (y ∷ to)
        → Covered a (y ∷ xs)
    kept_cover y xs to k [] h = h
    kept_cover y xs to k (none ∷ a) h = k a h
    kept_cover (some y) xs to k (some z ∷ a) h = k a h
    kept_cover none xs to k (some z ∷ a) h = h
copy_votes-Covered (some x ∷ from) (some y ∷ to) c =
    let (xs, e, w, k) = copy_votes-Covered from to c in
    (
      some x ∷ xs,
      ap (λ r. r >>= λ rest. ok (some x ∷ rest)) e,
      kept_weight xs to w,
      kept_cover xs to k,
    )
  where
    kept_weight :
        (xs to : Slots)
        → ((vs : List Voter) → weigh vs xs ≡ weigh vs to)
        → (vs : List Voter) → weigh vs (some x ∷ xs) ≡ weigh vs (some y ∷ to)
    kept_weight xs to w [] = refl
    kept_weight xs to w (v ∷ vs) = ap (λ (n : ℕ). v.voting_weight + n) (w vs)

    kept_cover :
        (xs to : Slots)
        → ((a : Slots) → Covered a to → Covered a xs)
        → (a : Slots) → Covered a (some y ∷ to)
        → Covered a (some x ∷ xs)
    kept_cover xs to k [] h = h
    kept_cover xs to k (none ∷ a) h = k a h
    kept_cover xs to k (some z ∷ a) h = k a h
copy_votes-Covered (some x ∷ from) (none ∷ to) c = absurd c
copy_votes-Covered [] (y ∷ to) c = absurd c
copy_votes-Covered (x ∷ from) [] c = absurd c
