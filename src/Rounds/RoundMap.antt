-- ===== src/Rounds/RoundMap.antt =====
-- The rounds of a HeightVoteSet as a map.
use ostracon.Prelude.{
  false, ◌≡◌, inl, inr, refl, sym, ap, ◌∙◌, subst, Bool, List, [], ◌∷◌, Option, some, arith,
  Bool-cases, if◌then◌else◌,
}
use ostracon.Prelude.Int.{ℤ, eqb_ℤ, eqb_ℤ_iff}
use ostracon.Rounds.HeightVoteSet.{RoundVoteSet, find_round, put_round}

abbrev pub AllRounds : (RoundVoteSet → Type 0) → List (ℤ × RoundVoteSet) → Type 0
AllRounds P [] = Unit
AllRounds P ((r, s) ∷ m) = P s × AllRounds P m

pub AllRounds-find :
    (P : RoundVoteSet → Type 0) (r : ℤ) (m : List (ℤ × RoundVoteSet)) {s : RoundVoteSet}
    → AllRounds P m
    → find_round r m ≡ some s
    → P s
unfolding find_round
AllRounds-find P r [] h e = ground arith
AllRounds-find P r ((r', s') ∷ m) {s} h e = elim (Bool-cases (eqb_ℤ r r')) [
  | inl t ↦
      let both : some s' ≡ some s = sym (ap first t) ∙ e in
      let same : s' ≡ s = cc in subst P same h.0
  | inr n ↦ AllRounds-find P r m h.1 (sym (ap first n) ∙ e)
]
  where
    first : Bool → Option RoundVoteSet
    first b = let rest = find_round r m in if b then some s' else rest

pub AllRounds-put :
    (P : RoundVoteSet → Type 0) (r : ℤ) (s : RoundVoteSet) (m : List (ℤ × RoundVoteSet))
    → AllRounds P m
    → P s
    → AllRounds P (put_round r s m)
unfolding put_round
AllRounds-put P r s [] h p = (p, tt)
AllRounds-put P r s ((r', s') ∷ m) h p =
    let rest = AllRounds-put P r s m h.1 p in
    elim (Bool-cases (eqb_ℤ r r')) [
      | inl t ↦ subst (AllRounds P) (sym (ap first t)) (p, h.1)
      | inr n ↦ subst (AllRounds P) (sym (ap first n)) (h.0, rest)
    ]
  where
    first : Bool → List (ℤ × RoundVoteSet)
    first b = let rest = put_round r s m in if b then (r, s) ∷ m else (r', s') ∷ rest

pub find_round-put :
    (r : ℤ) (s : RoundVoteSet) (m : List (ℤ × RoundVoteSet))
    → find_round r (put_round r s m) ≡ some s
unfolding find_round put_round
find_round-put r s [] = let self = (eqb_ℤ_iff r r).1 refl in rw self refl
find_round-put r s ((r', s') ∷ m) = elim (Bool-cases (eqb_ℤ r r')) [
  | inl t ↦ let self = (eqb_ℤ_iff r r).1 refl in rw (t, self) refl
  | inr n ↦ rw (n, n) (find_round-put r s m)
]

-- A round that is known stays so.
pub find_round-put_keeps :
    (r r' : ℤ) (s : RoundVoteSet) (m : List (ℤ × RoundVoteSet)) {o : RoundVoteSet}
    → find_round r' m ≡ some o
    → (o' : RoundVoteSet) × (find_round r' (put_round r s m) ≡ some o')
unfolding find_round put_round
find_round-put_keeps r r' s [] e = ground arith
find_round-put_keeps r r' s ((r1, s1) ∷ m) {o} e = elim (Bool-cases (eqb_ℤ r r1)) [
  | inl t ↦
      let at = (eqb_ℤ_iff r r1).0 t in
      elim (Bool-cases (eqb_ℤ r' r)) [
        | inl u ↦ (s, rw (t, u) refl)
        | inr v ↦
            let other : eqb_ℤ r' r1 ≡ false = subst (λ (x : ℤ). eqb_ℤ r' x ≡ false) at v in
            (o, rw (t, v) (sym (ap first other) ∙ e))
      ]
  | inr n ↦ elim (Bool-cases (eqb_ℤ r' r1)) [
    | inl u ↦ (s1, rw (n, u) refl)
    | inr v ↦
        let (o', later) = find_round-put_keeps r r' s m (sym (ap first v) ∙ e) in
        (o', rw (n, v) later)
  ]
]
  where
    first : Bool → Option RoundVoteSet
    first b = let rest = find_round r' m in if b then some s1 else rest
