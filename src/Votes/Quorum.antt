-- ===== src/Votes/Quorum.antt =====
-- Two majorities have voters in common.
use ostracon.Prelude.{◌+◌, ◌*◌, ◌≤◌, ◌<◌, ◌≡◌, sym, subst, List, [], ◌∷◌, none, some, arith}
use ostracon.Types.BlockId.{BlockId, key}
use ostracon.Votes.Voters.{Voter}
use ostracon.Votes.Total.{weights}
use ostracon.Votes.VoteSet.{Crypto, BlockVotes, VoteSet, lookup, quorum_of}
use ostracon.Votes.Tally.{Slots, weigh, weigh-bound}
use ostracon.Votes.Tracked.{AllValues-lookup}
use ostracon.Votes.Invariant.{BlockOk, IsConsistent}

-- The slots that hold a vote in both slices, with the vote of the first.
abbrev pub in_both : Slots → Slots → Slots
in_both [] ys = []
in_both (x ∷ xs) [] = []
in_both (none ∷ xs) (y ∷ ys) = none ∷ in_both xs ys
in_both (some x ∷ xs) (none ∷ ys) = none ∷ in_both xs ys
in_both (some x ∷ xs) (some y ∷ ys) = some x ∷ in_both xs ys

weigh-in_both :
    (vs : List Voter) (xs ys : Slots)
    → weigh vs xs + weigh vs ys ≤ weights vs + weigh vs (in_both xs ys)
weigh-in_both [] xs ys = omega arith
weigh-in_both (v ∷ vs) [] ys = omega (arith, weigh-bound (v ∷ vs) ys)
weigh-in_both (v ∷ vs) (x ∷ xs) [] = omega (arith, weigh-bound (v ∷ vs) (x ∷ xs))
weigh-in_both (v ∷ vs) (none ∷ xs) (none ∷ ys) = omega (arith, weigh-in_both vs xs ys)
weigh-in_both (v ∷ vs) (none ∷ xs) (some y ∷ ys) = omega (arith, weigh-in_both vs xs ys)
weigh-in_both (v ∷ vs) (some x ∷ xs) (none ∷ ys) = omega (arith, weigh-in_both vs xs ys)
weigh-in_both (v ∷ vs) (some x ∷ xs) (some y ∷ ys) = omega (arith, weigh-in_both vs xs ys)

module _ (c : Crypto) where
  -- The votes behind the majority of a consistent vote set have a quorum of the weight.
  majority-weight :
      (s : VoteSet) (b : BlockId)
      → IsConsistent c s
      → s.maj23 ≡ some b
      → (bv : BlockVotes) × (lookup (key c.marshal_header b) s.votes_by_block ≡ some bv)
        × (quorum_of (weights s.voter_set.voters) ≤ weigh s.voter_set.voters bv.votes)
  majority-weight s b h m =
      let (bv, here, enough) = h.majority b m in
      let held =
        AllValues-lookup (BlockOk s.voter_set.voters s.votes) (key c.marshal_header b)
          s.votes_by_block h.blocks here in
      let counted = held.counted in (bv, here, omega (arith, enough, counted))

  -- Where two consistent vote sets of the same voters have a majority each, voters of more than one
  -- third of the total weight are counted for the block of the one and for the block of the other.
  pub two_majorities :
      (s s' : VoteSet) (b b' : BlockId)
      → IsConsistent c s
      → IsConsistent c s'
      → s.voter_set.voters ≡ s'.voter_set.voters
      → s.maj23 ≡ some b
      → s'.maj23 ≡ some b'
      → (bv : BlockVotes) × (bv' : BlockVotes) × (lookup (key c.marshal_header b) s.votes_by_block
          ≡ some bv)
        × (lookup (key c.marshal_header b') s'.votes_by_block ≡ some bv')
        × (weights s.voter_set.voters < 3 * weigh s.voter_set.voters (in_both bv.votes bv'.votes))
  two_majorities s s' b b' h h' same m m' =
      let (bv, here, enough) = majority-weight s b h m in
      let (bv', here', enough') = majority-weight s' b' h' m' in
      let enough_too : quorum_of (weights s.voter_set.voters) ≤ weigh s.voter_set.voters bv'.votes =
        subst (λ vs. quorum_of (weights vs) ≤ weigh vs bv'.votes) (sym same) enough' in
      let overlap = weigh-in_both s.voter_set.voters bv.votes bv'.votes in
      (bv, bv', here, here', omega (arith, enough, enough_too, overlap))
