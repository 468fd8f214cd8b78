-- ===== src/Votes/Invariant.antt =====
-- What holds of a vote set at all times, and that placing a vote keeps it.
use ostracon.Prelude.{
  ℕ, ◌+◌, ◌≤◌, ◌<◌, ◌≡◌, refl, sym, ap, ◌∙◌, false, List, Option, none, some, arith, Bytes, length,
  get_elem?, set, length-set, get_elem?-set_self, get_elem?-lt, get_elem?-in, Bool-cases, inl, inr,
}
use ostracon.Prelude.Run.{ok}
use ostracon.Bits.Array.{BitArray}
use ostracon.Bits.Sized.{BitsFor, BitsFor-set_index}
use ostracon.Types.BlockId.{BlockId, key, equals}
use ostracon.Types.Vote.{Vote}
use ostracon.Votes.Voters.{Voter, get_total_voting_weight}
use ostracon.Votes.Total.{weights}
use ostracon.Votes.VoteSet.{
  Crypto, BlockVotes, VoteSet, lookup, vote_at, set_vote, maj23_is, place, quorum_of,
}
use ostracon.Votes.Tally.{Slots, weigh, Covered, weigh-set_empty, weigh-set_full, Covered-set_right}
use ostracon.Votes.Tracked.{AllValues, AllValues-map}

pub vote_at-ok :
    (xs : Slots) (i : ℕ) {o : Option Vote} → get_elem? xs i ≡ some o → vote_at xs i ≡ ok o
unfolding vote_at
vote_at-ok xs i h = ground arith

pub get_elem?-vote_at :
    (xs : Slots) (i : ℕ) {o : Option Vote} → vote_at xs i ≡ ok o → get_elem? xs i ≡ some o
unfolding vote_at
get_elem?-vote_at xs i h = ground arith

-- The votes for a block: each is in the vote set's votes too, and the sum is their weight.
pub record BlockOk (voters : List Voter) (votes : Slots) (bv : BlockVotes) : Type 0 where
  pub bits : BitsFor (length voters) bv.bit_array
  pub covered : Covered bv.votes votes
  pub counted : bv.sum ≡ weigh voters bv.votes

module _ (c : Crypto) where
  -- The sums are the weights of the votes held, and a block with a majority has a quorum.
  pub record IsConsistent (s : VoteSet) : Type 0 where
    pub some_voters : 0 < length s.voter_set.voters
    pub total : get_total_voting_weight s.voter_set ≡ ok (s.voter_set, weights s.voter_set.voters)
    pub sized : length s.votes ≡ length s.voter_set.voters
    pub bits : BitsFor (length s.voter_set.voters) s.votes_bit_array
    pub counted : s.sum ≡ weigh s.voter_set.voters s.votes
    pub blocks : AllValues (BlockOk s.voter_set.voters s.votes) s.votes_by_block
    pub majority :
        (b : BlockId)
        → s.maj23 ≡ some b
        → (bv : BlockVotes) × (lookup (key c.marshal_header b) s.votes_by_block ≡ some bv)
          × (quorum_of (weights s.voter_set.voters) ≤ bv.sum)

  BlockOk-set :
      (voters : List Voter) (xs : Slots) (i : ℕ) (vote : Vote) (m : List (Bytes × BlockVotes))
      → AllValues (BlockOk voters xs) m
      → AllValues (BlockOk voters (set xs i (some vote))) m
  BlockOk-set voters xs i vote m h =
      AllValues-map (BlockOk voters xs) (BlockOk voters (set xs i (some vote))) m
        (λ bv b. record {
          bits = b.bits;
          covered = Covered-set_right bv.votes xs i vote b.covered;
          counted = b.counted;
        })
        h

  -- What placing a vote leaves as it is, and that the voter's slot is filled afterwards.
  pub record Placed (s : VoteSet) (i : ℕ) (s' : VoteSet) : Type 0 where
    pub consistent : IsConsistent s'
    pub same_voters : s'.voter_set ≡ s.voter_set
    pub same_maj23 : s'.maj23 ≡ s.maj23
    pub same_blocks : s'.votes_by_block ≡ s.votes_by_block
    pub filled : (y : Vote) × (get_elem? s'.votes i ≡ some (some y))

  set_vote-Placed :
      (s : VoteSet) (i : ℕ) (vote : Vote) (sum : ℕ)
      → IsConsistent s
      → i < length s.voter_set.voters
      → sum ≡ weigh s.voter_set.voters (set s.votes i (some vote))
      → (o : Option BitArray) × (set_vote s i vote
          ≡ ok (record s { votes = set s.votes i (some vote); votes_bit_array = o }))
        × Placed s i
            (record s { votes = set s.votes i (some vote); votes_bit_array = o; sum = sum })
  unfolding set_vote
  set_vote-Placed s i vote sum h lt counted =
      let (o, run, bits) =
        BitsFor-set_index (length s.voter_set.voters) s.votes_bit_array i h.bits lt in
      let size = h.sized in
      (
        o,
        rw run refl,
        record {
          consistent = record {
            some_voters = h.some_voters;
            total = h.total;
            sized = length-set s.votes i (some vote) ∙ h.sized;
            bits = bits;
            counted = counted;
            blocks = BlockOk-set s.voter_set.voters s.votes i vote s.votes_by_block h.blocks;
            majority = h.majority;
          };
          same_voters = refl;
          same_maj23 = refl;
          same_blocks = refl;
          filled = (vote, get_elem?-set_self s.votes i (some vote) (omega arith));
        },
      )

  -- A vote for a voter in the set, and for another block than a vote of that voter in votes.
  pub place-Placed :
      (s : VoteSet) (vote : Vote) (i : ℕ) (k : Bytes) {voter : Voter}
      → IsConsistent s
      → get_elem? s.voter_set.voters i ≡ some voter
      → ((e : Vote) → get_elem? s.votes i ≡ some (some e) → equals e.block_id vote.block_id ≡ false)
      → (s' : VoteSet) × (conflicting : Option Vote) × (place c s vote i k voter.voting_weight
          ≡ ok (s', conflicting))
        × Placed s i s'
  unfolding place
  place-Placed s vote i k {voter} h here fresh =
      let size = h.sized in let (o, at) = get_elem?-in s.votes i (omega (arith, lt)) in by_slot o at
    where
      lt : i < length s.voter_set.voters
      lt = get_elem?-lt s.voter_set.voters i here

      by_slot :
          (o : Option Vote)
          → get_elem? s.votes i ≡ some o
          → (s' : VoteSet) × (conflicting : Option Vote) × (place c s vote i k voter.voting_weight
              ≡ ok (s', conflicting))
            × Placed s i s'
      by_slot none at =
          let more = weigh-set_empty s.voter_set.voters s.votes i vote here at in
          let (bits, run, p) =
            set_vote-Placed s i vote (s.sum + voter.voting_weight) h lt
              (ap (λ (n : ℕ). n + voter.voting_weight) h.counted ∙ sym more) in
          (_, none, rw (vote_at-ok s.votes i at) (rw run refl), p)
      by_slot (some e) at = elim (Bool-cases (maj23_is c s.maj23 k)) [
        | inl t ↦
            let same = weigh-set_full s.voter_set.voters s.votes i vote at in
            let (bits, run, p) = set_vote-Placed s i vote s.sum h lt (h.counted ∙ sym same) in
            (_, some e, rw (vote_at-ok s.votes i at) (rw (fresh e at) (rw t (rw run refl))), p)
        | inr n ↦ (
          s,
          some e,
          rw (vote_at-ok s.votes i at) (rw (fresh e at) (rw n refl)),
          record {
            consistent = h;
            same_voters = refl;
            same_maj23 = refl;
            same_blocks = refl;
            filled = (e, at);
          },
        )
      ]
