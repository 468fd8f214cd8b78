-- ===== src/Rounds/Pol.antt =====
-- POLInfo of HeightVoteSet.
use ostracon.Prelude.{
  ℕ, zero, suc, ◌<◌, ◌≤◌, ◌≡◌, ◌⊎◌, inl, inr, refl, sym, ap, ◌∙◌, subst, Bool, true, false, Option,
  none, some, arith, Option-cases, Bool-cases, ltb, ltb→lt, if◌then◌else◌,
}
use ostracon.Prelude.Int.{ℤ, pos, negsuc}
use ostracon.Prelude.Run.{Run, ok, ◌>>=◌}
use ostracon.Types.BlockId.{BlockId, zero_block_id}
use ostracon.Types.Vote.{prevote_type}
use ostracon.Votes.VoteSet.{VoteSet}
use ostracon.Votes.AddVote.{two_thirds_majority}
use ostracon.Rounds.HeightVoteSet.{
  HeightVoteSet, RoundVoteSet, find_round, get_vote_set, pol_at, pol_below, pol_info,
}

-- The prevotes of a round that is known have a majority for the block.
abbrev pub HasPol : HeightVoteSet → ℕ → BlockId → Type 0
HasPol hvs r b =
    (s : RoundVoteSet) × (find_round (pos r) hvs.round_vote_sets ≡ some s)
    × (s.prevotes.maj23 ≡ some b)

abbrev pub NoPol : HeightVoteSet → ℕ → Type 0
NoPol hvs r =
    (s : RoundVoteSet) → find_round (pos r) hvs.round_vote_sets ≡ some s → s.prevotes.maj23 ≡ none

prevotes_of :
    (hvs : HeightVoteSet) (r : ℕ) {s : RoundVoteSet}
    → find_round (pos r) hvs.round_vote_sets ≡ some s
    → get_vote_set hvs (pos r) prevote_type ≡ ok (some s.prevotes)
unfolding get_vote_set
prevotes_of hvs r e = ground arith

no_prevotes :
    (hvs : HeightVoteSet) (r : ℕ)
    → find_round (pos r) hvs.round_vote_sets ≡ none
    → get_vote_set hvs (pos r) prevote_type ≡ ok none
unfolding get_vote_set
no_prevotes hvs r e = ground arith

-- A round without a majority is passed over, one with a majority ends the search.
pol_at_cases :
    (hvs : HeightVoteSet) (r : ℕ) (rest : Run (ℤ × BlockId))
    → (NoPol hvs r × (pol_at hvs r rest ≡ rest))
      ⊎ ((b : BlockId) × HasPol hvs r b × (pol_at hvs r rest ≡ ok (pos r, b)))
unfolding pol_at two_thirds_majority
pol_at_cases hvs r rest = elim (Option-cases (find_round (pos r) hvs.round_vote_sets)) [
  | inl unknown ↦
      inl (λ s known. absurd (ground arith), ap (λ t. t >>= look) (no_prevotes hvs r unknown))
  | inr (s, known) ↦
      let looked = ap (λ t. t >>= look) (prevotes_of hvs r known) in
      elim (Option-cases s.prevotes.maj23) [
        | inl no_majority ↦ inl (
          λ s' known'.
              let both : some s ≡ some s' = sym known ∙ known' in
              let same : s ≡ s' = cc in
              subst (λ (t : RoundVoteSet). t.prevotes.maj23 ≡ none) same no_majority,
          looked ∙ ap (λ o. pick (majority_of o)) no_majority,
        )
        | inr (b, majority) ↦
            inr (b, (s, known, majority), looked ∙ ap (λ o. pick (majority_of o)) majority)
      ]
]
  where
    pick : BlockId × Bool → Run (ℤ × BlockId)
    pick (b, found) = if found then ok (pos r, b) else rest

    look : Option VoteSet → Run (ℤ × BlockId)
    look none = rest
    look (some vs) = pick (two_thirds_majority vs)

    majority_of : Option BlockId → BlockId × Bool
    majority_of none = (zero_block_id, false)
    majority_of (some b) = (b, true)

below_or_at : (P : ℕ → Type 0) (k n : ℕ) → k < suc n → P n → (k < n → P k) → P k
below_or_at P k n lt at below = elim (Bool-cases (ltb k n)) [
  | inl less ↦ below (ltb→lt k n less)
  | inr not_less ↦ let same : n ≡ k = ground arith in subst P same at
]

-- What the search below a round finds: the last round with a majority, or that there is none.
abbrev Latest : HeightVoteSet → ℕ → ℤ → BlockId → Type 0
Latest hvs n r b =
    ((r ≡ negsuc 0) × ((k : ℕ) → k < n → NoPol hvs k))
    ⊎ ((k : ℕ) × (k < n) × (r ≡ pos k) × HasPol hvs k b × ((m : ℕ) → k < m → m < n → NoPol hvs m))

pol_below-Latest :
    (hvs : HeightVoteSet) (n : ℕ)
    → (r : ℤ) × (b : BlockId) × (pol_below hvs n ≡ ok (r, b)) × Latest hvs n r b
unfolding pol_below
pol_below-Latest hvs zero = (negsuc 0, zero_block_id, refl, inl (refl, λ k lt. elim lt [ ]))
pol_below-Latest hvs (suc n) = elim (pol_at_cases hvs n (pol_below hvs n)) [
  | inr (b, has, run) ↦ (
    pos n,
    b,
    run,
    inr (n, omega arith, refl, has, λ m above below. absurd (omega (arith, above, below))),
  )
  | inl (no_pol, run) ↦
      let (r, b, run', found) = pol_below-Latest hvs n in
      (
        r,
        b,
        run ∙ run',
        elim found [
          | inl (nowhere, none_below) ↦
              inl (nowhere, λ k lt. below_or_at (NoPol hvs) k n lt no_pol (none_below k))
          | inr (k, lt, is, has, none_above) ↦ inr (
            k,
            omega (arith, lt),
            is,
            has,
            λ m above below. below_or_at (NoPol hvs) m n below no_pol (none_above m above),
          )
        ],
      )
]

-- POLInfo, at a round that is not negative, returns the last round up to it whose prevotes have a
-- majority, with the block of the majority; it returns -1 where no round up to it has one.
pub pol_info-Latest :
    (hvs : HeightVoteSet) (n : ℕ)
    → hvs.round ≡ pos n
    → (r : ℤ) × (b : BlockId) × (pol_info hvs ≡ ok (r, b))
      × (((r ≡ negsuc 0) × ((k : ℕ) → k ≤ n → NoPol hvs k))
          ⊎ ((k : ℕ) × (k ≤ n)
              × (r ≡ pos k)
              × HasPol hvs k b
              × ((m : ℕ) → k < m → m ≤ n → NoPol hvs m)))
unfolding pol_info
pol_info-Latest hvs n at =
    let (r, b, run, found) = pol_below-Latest hvs (suc n) in
    (
      r,
      b,
      ap search at ∙ run,
      elim found [
        | inl (nowhere, none_below) ↦ inl (nowhere, λ k le. none_below k (omega arith))
        | inr (k, lt, is, has, none_above) ↦
            inr (k, omega (arith, lt), is, has, λ m above le. none_above m above (omega arith))
      ],
    )
  where
    search : ℤ → Run (ℤ × BlockId)
    search (negsuc r) = ok (negsuc 0, zero_block_id)
    search (pos r) = pol_below hvs (suc r)
