-- ===== src/Votes/Adding.antt =====
-- addVote never panics on a consistent vote set, and keeps it consistent.
use ostracon.Prelude.{
  ℕ, ◌≡◌, ◌⊎◌, refl, sym, ap, ◌∙◌, subst, Bool, true, false, not, ◌&&◌, Option, none, some, arith,
  Bytes, length, get_elem?, replicate, Bool-cases, Option-cases, inl, inr, if◌then◌else◌,
}
use ostracon.Prelude.Run.{Run, ok, panic, ◌>>=◌}
use ostracon.Types.BlockId.{key, equals}
use ostracon.Types.Vote.{Vote}
use ostracon.Votes.Voters.{Voter, VoterSet, size}
use ostracon.Votes.VoteSet.{
  Crypto, BlockVotes, VoteSet, VoteError, lookup, is_some, new_block_votes, tracked,
  add_verified_vote, tally, conflicting_votes,
}
use ostracon.Votes.AddVote.{Added, add_checked}
use ostracon.Votes.Tally.{Covered, Covered-replicate, weigh-replicate}
use ostracon.Votes.Tracked.{AllValues-lookup}
use ostracon.Bits.Sized.{BitsFor-new_bit_array}
use ostracon.Votes.Invariant.{BlockOk, IsConsistent, Placed, place-Placed}
use ostracon.Votes.Counting.{Counted, tally-Counted}

module _ (c : Crypto) where
  tracked-BlockOk :
      (s : VoteSet) (k : Bytes) (conflicting : Option Vote)
      → IsConsistent c s
      → ((tracked c s k conflicting ≡ none) × ((e : Vote) × (conflicting ≡ some e)))
        ⊎ ((bv : BlockVotes) × (tracked c s k conflicting ≡ some bv)
            × BlockOk s.voter_set.voters s.votes bv
            × ((lookup k s.votes_by_block ≡ some bv) ⊎ (lookup k s.votes_by_block ≡ none)))
  unfolding tracked new_block_votes size
  tracked-BlockOk s k conflicting h = elim (Option-cases (lookup k s.votes_by_block)) [
    | inl unseen ↦ new conflicting unseen
    | inr (bv, seen) ↦
        old conflicting bv seen
          (AllValues-lookup (BlockOk s.voter_set.voters s.votes) k s.votes_by_block h.blocks seen)
  ]
    where
      Result : Option Vote → Type 0
      Result o =
          ((tracked c s k o ≡ none) × ((e : Vote) × (o ≡ some e)))
          ⊎ ((bv : BlockVotes) × (tracked c s k o ≡ some bv)
              × BlockOk s.voter_set.voters s.votes bv
              × ((lookup k s.votes_by_block ≡ some bv) ⊎ (lookup k s.votes_by_block ≡ none)))

      choose : Option Vote → Option BlockVotes → Option BlockVotes
      choose o found = elim found [
        | some bv ↦ if is_some o && not bv.peer_maj23 then none else some bv
        | none ↦
            if is_some o then none else some (new_block_votes false (length s.voter_set.voters))
      ]

      new : (o : Option Vote) → lookup k s.votes_by_block ≡ none → Result o
      new (some e) unseen = inl (ap (choose (some e)) unseen, (e, refl))
      new none unseen = inr (
        new_block_votes false (length s.voter_set.voters),
        ap (choose none) unseen,
        record {
          bits = BitsFor-new_bit_array (length s.voter_set.voters) h.some_voters;
          covered =
              subst (λ (n : ℕ). Covered (replicate n none) s.votes) h.sized
                (Covered-replicate s.votes);
          counted = sym (weigh-replicate s.voter_set.voters (length s.voter_set.voters));
        },
        inr unseen,
      )

      old :
          (o : Option Vote) (bv : BlockVotes)
          → lookup k s.votes_by_block ≡ some bv
          → BlockOk s.voter_set.voters s.votes bv
          → Result o
      old none bv seen good = inr (bv, ap (choose none) seen, good, inl seen)
      old (some e) bv seen good = elim (Bool-cases bv.peer_maj23) [
        | inl special ↦ inr (bv, ap (choose (some e)) seen ∙ rw special refl, good, inl seen)
        | inr plain ↦ inl (ap (choose (some e)) seen ∙ rw plain refl, (e, refl))
      ]

  Counted-after : (s s1 s2 : VoteSet) (i : ℕ) → Placed c s i s1 → Counted c s1 s2 → Counted c s s2
  Counted-after s s1 s2 i p n = record {
    consistent = n.consistent;
    same_voters = n.same_voters ∙ p.same_voters;
    same_maj23 = λ b e. n.same_maj23 b (p.same_maj23 ∙ e);
  }

  -- addVerifiedVote of a vote that no vote of the voter equals.
  add_verified_vote-Counted :
      (s : VoteSet) (vote : Vote) (i : ℕ) {voter : Voter}
      → IsConsistent c s
      → get_elem? s.voter_set.voters i ≡ some voter
      → ((e : Vote) → get_elem? s.votes i ≡ some (some e) → equals e.block_id vote.block_id ≡ false)
      → (s' : VoteSet) × (added : Bool) × (conflicting : Option Vote) × (add_verified_vote c s vote
            i
            (key c.marshal_header vote.block_id)
            voter.voting_weight
          ≡ ok (s', added, conflicting))
        × Counted c s s'
        × ((added ≡ true) ⊎ ((e : Vote) × (conflicting ≡ some e)))
  unfolding add_verified_vote
  add_verified_vote-Counted s vote i {voter} h here fresh =
      let k = key c.marshal_header vote.block_id in
      let (s1, conflicting, run, p) = place-Placed c s vote i k h here fresh in
      let at = p.filled in
      let here1 =
        subst (λ (t : VoterSet). get_elem? t.voters i ≡ some voter) (sym p.same_voters) here in
      elim (tracked-BlockOk s1 k conflicting p.consistent) [
        | inl (forgotten, (e, eq)) ↦ (
          s1,
          false,
          conflicting,
          ap (λ r. r >>= cont) run ∙ ap (finish s1 conflicting) forgotten,
          record {
            consistent = p.consistent;
            same_voters = p.same_voters;
            same_maj23 = λ b t. p.same_maj23 ∙ t;
          },
          inr (e, eq),
        )
        | inr (bv, seen, good, known) ↦
            let (s2, counted, n) =
              tally-Counted c s1 vote i bv p.consistent here1 at.1 good known in
            (
              s2,
              true,
              conflicting,
              ap (λ r. r >>= cont) run
                  ∙ (ap (finish s1 conflicting) seen
                      ∙ ap (λ r. r >>= λ t. ok (t, true, conflicting)) counted),
              Counted-after s s1 s2 i p n,
              inl refl,
            )
      ]
    where
      finish : VoteSet → Option Vote → Option BlockVotes → Run (VoteSet × Bool × Option Vote)
      finish s1 conflicting o = elim o [
        | none ↦ ok (s1, false, conflicting)
        | some bv ↦
            tally c s1 vote i (key c.marshal_header vote.block_id) voter.voting_weight bv >>= λ s2.
            ok (s2, true, conflicting)
      ]

      cont : VoteSet × Option Vote → Run (VoteSet × Bool × Option Vote)
      cont (s1, conflicting) =
          finish s1 conflicting (tracked c s1 (key c.marshal_header vote.block_id) conflicting)

  -- How addVote ends where it does not panic, and what it keeps.
  pub record Ends (s : VoteSet) (run : Run Added) : Type 0 where
    pub after : VoteSet
    pub added : Bool
    pub error : Option VoteError
    pub returned : run ≡ ok (after, added, error)
    pub kept : Counted c s after

  pub unchanged :
      (s : VoteSet) (added : Bool) (e : Option VoteError) {run : Run Added}
      → IsConsistent c s
      → run ≡ ok (s, added, e)
      → Ends s run
  unchanged s added e h eq = record {
    after = s;
    added = added;
    error = e;
    returned = eq;
    kept = record { consistent = h; same_voters = refl; same_maj23 = λ b t. t };
  }

  pub add_checked-Ends :
      (s : VoteSet) (vote : Vote) (i : ℕ) {voter : Voter}
      → IsConsistent c s
      → get_elem? s.voter_set.voters i ≡ some voter
      → ((e : Vote) → get_elem? s.votes i ≡ some (some e) → equals e.block_id vote.block_id ≡ false)
      → Ends s (add_checked c s vote i voter.voting_weight)
  unfolding add_checked
  add_checked-Ends s vote i {voter} h here fresh =
      let (s', added, conflicting, run, n, sure) =
        add_verified_vote-Counted s vote i h here fresh in
      by_conflict s' added conflicting run n sure
    where
      cont : VoteSet × Bool × Option Vote → Run Added
      cont (s', added, conflicting) = elim conflicting [
        | some e ↦ ok (s', added, some (conflicting_votes e vote))
        | none ↦ if added then ok (s', true, none) else panic
      ]

      by_conflict :
          (s' : VoteSet) (added : Bool) (conflicting : Option Vote)
          → add_verified_vote c s vote i (key c.marshal_header vote.block_id) voter.voting_weight
            ≡ ok (s', added, conflicting)
          → Counted c s s'
          → (added ≡ true) ⊎ ((e : Vote) × (conflicting ≡ some e))
          → Ends s (add_checked c s vote i voter.voting_weight)
      by_conflict s' added (some e) run n sure = record {
        after = s';
        added = added;
        error = some (conflicting_votes e vote);
        returned = ap (λ r. r >>= cont) run;
        kept = n;
      }
      by_conflict s' added none run n (inl t) =
          let then_added : cont (s', added, none) ≡ ok (s', true, none) = rw t refl in
          record {
            after = s';
            added = true;
            error = none;
            returned = ap (λ r. r >>= cont) run ∙ then_added;
            kept = n;
          }
      by_conflict s' added none run n (inr (e, eq)) = ground arith
