-- ===== src/Votes/Peers.antt =====
-- NewVoteSet and SetPeerMaj23.
use ostracon.Prelude.{
  ℕ, ◌⊎◌, ◌≤◌, ◌<◌, ◌≡◌, refl, sym, ap, ◌∙◌, subst, Bool, true, false, List, [], Option, none, some,
  arith, Bytes, length, replicate, length-replicate, ltb, ◌==◌, Bool-cases, Option-cases, inl, inr,
  if◌then◌else◌,
}
use ostracon.Prelude.Int.{ℤ, pos, eqb_ℤ}
use ostracon.Prelude.Run.{Run, ok, panic, ◌>>=◌}
use ostracon.Bits.Array.{new_bit_array}
use ostracon.Types.BlockId.{BlockId, key, equals}
use ostracon.Votes.Voters.{
  Voter, VoterSet, size, max_total_voting_weight, add_weights, wrap_sorted,
  update_total_voting_weight, get_total_voting_weight,
}
use ostracon.Votes.Total.{weights, add_weights-total, wrap_sorted-total}
use ostracon.Votes.VoteSet.{
  Crypto, BlockVotes, VoteSet, lookup, insert, new_vote_set, new_block_votes, quorum_of,
}
use ostracon.Votes.AddVote.{set_peer_maj23}
use ostracon.Votes.Tally.{Covered, Covered-replicate, weigh-replicate}
use ostracon.Votes.Tracked.{AllValues-insert, AllValues-lookup}
use ostracon.Bits.Sized.{BitsFor-new_bit_array}
use ostracon.Votes.Invariant.{BlockOk, IsConsistent}
use ostracon.Votes.Counting.{Counted, majority-insert}

wrap_sorted-weight :
    (vals : List Voter) (voters : VoterSet)
    → wrap_sorted vals ≡ ok voters
    → (voters.voters ≡ vals) × (get_total_voting_weight voters ≡ ok (voters, weights voters.voters))
unfolding get_total_voting_weight update_total_voting_weight
wrap_sorted-weight vals voters e = elim (Bool-cases (ltb max_total_voting_weight (weights vals))) [
  | inl big ↦
      let over : wrap_sorted vals ≡ panic = wrap_sorted-total vals ∙ rw big refl in cc (e, over)
  | inr fits ↦
      let made : wrap_sorted vals ≡ ok (whole vals) = wrap_sorted-total vals ∙ rw fits refl in
      let same : whole vals ≡ voters = whole_is made in
      subst
        (λ (s : VoterSet).
          (s.voters ≡ vals) × (get_total_voting_weight s ≡ ok (s, weights s.voters)))
        same (refl, total fits)
]
  where
    whole : List Voter → VoterSet
    whole vs = record { voters = vs; total_voting_weight = weights vs }

    whole_is : wrap_sorted vals ≡ ok (whole vals) → whole vals ≡ voters
    whole_is made = let both : ok (whole vals) ≡ ok voters = sym made ∙ e in ground arith

    stored : Run ℕ → Run (VoterSet × ℕ)
    stored r =
        (r >>= λ sum. ok (record { voters = vals; total_voting_weight = sum }))
        >>= λ (t : VoterSet). ok (t, t.total_voting_weight)

    total :
        ltb max_total_voting_weight (weights vals) ≡ false
        → get_total_voting_weight (whole vals) ≡ ok (whole vals, weights vals)
    total fits = elim (Bool-cases (weights vals == 0)) [
      | inr n ↦ rw n refl
      | inl z ↦
          let again : add_weights 0 vals ≡ ok (weights vals) =
            add_weights-total 0 vals (omega arith) ∙ ground arith in
          rw z (ap stored again)
    ]

module _ (c : Crypto) where
  -- For voters made by WrapValidatorsToVoterSet of a sorted list that is not empty, and a height
  -- that is not zero, NewVoteSet makes a vote set, and it is consistent.
  pub new_vote_set-IsConsistent :
      (vals : List Voter) (voters : VoterSet) (chain : Bytes) (height round : ℤ) (type : ℕ)
      → 0 < length vals
      → wrap_sorted vals ≡ ok voters
      → eqb_ℤ height (pos 0) ≡ false
      → (s : VoteSet) × (new_vote_set chain height round type voters ≡ ok s) × IsConsistent c s
  unfolding new_vote_set size
  new_vote_set-IsConsistent vals voters chain height round type some_vals made positive =
      let (same, total) = wrap_sorted-weight vals voters made in
      let some_voters = subst (λ (vs : List Voter). 0 < length vs) (sym same) some_vals in
      (
        fresh,
        rw positive refl,
        record {
          some_voters = some_voters;
          total = total;
          sized = length-replicate (length voters.voters) none;
          bits = BitsFor-new_bit_array (length voters.voters) some_voters;
          counted = sym (weigh-replicate voters.voters (length voters.voters));
          blocks = tt;
          majority = λ b e. ground arith;
        },
      )
    where
      fresh : VoteSet
      fresh = record {
        chain_id = chain;
        height = height;
        round = round;
        signed_msg_type = type;
        voter_set = voters;
        votes_bit_array = new_bit_array (length voters.voters);
        votes = replicate (length voters.voters) none;
        sum = 0;
        maj23 = none;
        votes_by_block = [];
        peer_maj23s = [];
      }

  -- SetPeerMaj23 keeps a consistent vote set consistent, with the same voters and majority.
  pub set_peer_maj23-Counted :
      (s : VoteSet) (peer : Bytes) (b : BlockId)
      → IsConsistent c s
      → Counted c s (set_peer_maj23 c s peer b).0
  unfolding set_peer_maj23 new_block_votes size
  set_peer_maj23-Counted s peer b h = elim (Option-cases (lookup peer s.peer_maj23s)) [
    | inr (known, told) ↦
        subst (λ o. Counted c s (on_peer o).0) (sym told) (same_blocks s.peer_maj23s)
    | inl untold ↦
        subst (λ o. Counted c s (on_peer o).0) (sym untold)
          (elim (Option-cases (lookup k s.votes_by_block)) [
            | inl unseen ↦
                subst (λ o. Counted c s (on_block o).0) (sym unseen)
                  (put (new_block_votes true (length s.voter_set.voters))
                    (new_block_votes true (length s.voter_set.voters)) empty_ok (inr unseen)
                    (omega arith))
            | inr (bv, seen) ↦
                let good =
                  AllValues-lookup (BlockOk s.voter_set.voters s.votes) k s.votes_by_block h.blocks
                    seen in
                subst (λ o. Counted c s (on_block o).0) (sym seen)
                  (elim (Bool-cases bv.peer_maj23) [
                    | inl t ↦ rw t (same_blocks (insert peer b s.peer_maj23s))
                    | inr n ↦ rw n (
                        put bv (record bv { peer_maj23 = true })
                          (record {
                            bits = good.bits;
                            covered = good.covered;
                            counted = good.counted;
                          })
                          (inl seen) (omega arith))
                  ])
          ])
  ]
    where
      k : Bytes
      k = key c.marshal_header b

      on_block : Option BlockVotes → VoteSet × Bool
      on_block o = elim o [
        | none ↦ (
          record s {
            peer_maj23s = insert peer b s.peer_maj23s;
            votes_by_block =
                insert k (new_block_votes true (length s.voter_set.voters)) s.votes_by_block;
          },
          true,
        )
        | some bv ↦
            if bv.peer_maj23
            then (record s { peer_maj23s = insert peer b s.peer_maj23s }, true)
            else (
              record s {
                peer_maj23s = insert peer b s.peer_maj23s;
                votes_by_block = insert k (record bv { peer_maj23 = true }) s.votes_by_block;
              },
              true,
            )
      ]

      on_peer : Option BlockId → VoteSet × Bool
      on_peer o = elim o [
        | some known ↦ (s, equals known b)
        | none ↦ on_block (lookup k s.votes_by_block)
      ]

      same_blocks : (ps : List (Bytes × BlockId)) → Counted c s (record s { peer_maj23s = ps })
      same_blocks ps = record {
        consistent = record {
          some_voters = h.some_voters;
          total = h.total;
          sized = h.sized;
          bits = h.bits;
          counted = h.counted;
          blocks = h.blocks;
          majority = h.majority;
        };
        same_voters = refl;
        same_maj23 = λ b e. e;
      }

      empty_ok :
          BlockOk s.voter_set.voters s.votes (new_block_votes true (length s.voter_set.voters))
      empty_ok = record {
        bits = BitsFor-new_bit_array (length s.voter_set.voters) h.some_voters;
        covered =
            subst (λ (n : ℕ). Covered (replicate n none) s.votes) h.sized
              (Covered-replicate s.votes);
        counted = sym (weigh-replicate s.voter_set.voters (length s.voter_set.voters));
      }

      put :
          (bv bv' : BlockVotes)
          → BlockOk s.voter_set.voters s.votes bv'
          → (lookup (key c.marshal_header b) s.votes_by_block ≡ some bv)
            ⊎ (lookup (key c.marshal_header b) s.votes_by_block ≡ none)
          → bv.sum ≤ bv'.sum
          → Counted c s (record s {
            peer_maj23s = insert peer b s.peer_maj23s;
            votes_by_block = insert (key c.marshal_header b) bv' s.votes_by_block;
          })
      put bv bv' good known grows = record {
        consistent = record {
          some_voters = h.some_voters;
          total = h.total;
          sized = h.sized;
          bits = h.bits;
          counted = h.counted;
          blocks =
              AllValues-insert (BlockOk s.voter_set.voters s.votes) (key c.marshal_header b) bv'
                s.votes_by_block h.blocks good;
          majority = λ b' e.
              let (bv0, look, enough) = h.majority b' e in
              majority-insert s.votes_by_block (key c.marshal_header b) bv bv'
                (quorum_of (weights s.voter_set.voters)) (key c.marshal_header b') bv0 known grows
                look enough;
        };
        same_voters = refl;
        same_maj23 = λ b' e. e;
      }
