-- ===== src/Rounds/Kept.antt =====
-- What is always true of the vote sets of a height.
use ostracon.Prelude.{
  ℕ, ◌<◌, ◌≤◌, ◌≡◌, inl, inr, refl, sym, ap, ◌∙◌, subst, Bool, true, false, List, Option, none,
  some, arith, Option-cases, Bool-cases, ◌==◌, length, if◌then◌else◌,
}
use ostracon.Prelude.Int.{ℤ, pos, eqb_ℤ}
use ostracon.Prelude.Run.{Run, ok, panic, ◌>>=◌}
use ostracon.Types.Vote.{is_vote_type_valid, prevote_type, precommit_type}
use ostracon.Votes.Voters.{Voter, wrap_sorted}
use ostracon.Votes.VoteSet.{Crypto, VoteSet, new_vote_set}
use ostracon.Votes.Tracked.{AllValues}
use ostracon.Votes.Invariant.{IsConsistent}
use ostracon.Votes.Peers.{new_vote_set-IsConsistent}
use ostracon.Rounds.HeightVoteSet.{
  HeightVoteSet, RoundVoteSet, find_round, put_round, add_round, get_vote_set, put_vote_set,
}
use ostracon.Rounds.RoundMap.{
  AllRounds, AllRounds-find, AllRounds-put, find_round-put, find_round-put_keeps,
}

module _ (c : Crypto) where
  abbrev pub BothConsistent : RoundVoteSet → Type 0
  BothConsistent s = IsConsistent c s.prevotes × IsConsistent c s.precommits

  abbrev pub AtMostTwo : List ℤ → Type 0
  AtMostTwo rounds = length rounds ≤ 2

  -- The voters can be counted, the vote sets are consistent, and no peer has more than two rounds.
  pub record IsKept (hvs : HeightVoteSet) : Type 0 where
    pub vals : List Voter
    pub some_vals : 0 < length vals
    pub made : wrap_sorted vals ≡ ok hvs.voter_set
    pub height : eqb_ℤ hvs.height (pos 0) ≡ false
    pub rounds : AllRounds BothConsistent hvs.round_vote_sets
    pub peers : AllValues AtMostTwo hvs.peer_catchup_rounds

  pub add_round-IsKept :
      (hvs : HeightVoteSet) (r : ℤ)
      → IsKept hvs
      → find_round r hvs.round_vote_sets ≡ none
      → (hvs' : HeightVoteSet) × (s : RoundVoteSet) × (add_round hvs r ≡ ok hvs')
        × IsKept hvs'
        × (find_round r hvs'.round_vote_sets ≡ some s)
        × (hvs'.peer_catchup_rounds ≡ hvs.peer_catchup_rounds)
        × ((r' : ℤ)
            → (o : RoundVoteSet) × (find_round r' hvs.round_vote_sets ≡ some o)
            → (o : RoundVoteSet) × (find_round r' hvs'.round_vote_sets ≡ some o))
  unfolding add_round
  add_round-IsKept hvs r h new =
      let (p, p_made, p_consistent) =
        new_vote_set-IsConsistent c h.vals hvs.voter_set hvs.chain_id hvs.height r prevote_type
          h.some_vals h.made h.height in
      let (q, q_made, q_consistent) =
        new_vote_set-IsConsistent c h.vals hvs.voter_set hvs.chain_id hvs.height r precommit_type
          h.some_vals h.made h.height in
      let s : RoundVoteSet = record { prevotes = p; precommits = q } in
      (
        with_both p q,
        s,
        ap after_find new
            ∙ (ap (λ t. t >>= after_prevotes) p_made ∙ ap (λ t. t >>= after_precommits p) q_made),
        record {
          vals = h.vals;
          some_vals = h.some_vals;
          made = h.made;
          height = h.height;
          rounds =
              AllRounds-put BothConsistent r s hvs.round_vote_sets h.rounds
                (p_consistent, q_consistent);
          peers = h.peers;
        },
        find_round-put r s hvs.round_vote_sets,
        refl,
        λ r' (o, known). find_round-put_keeps r r' s hvs.round_vote_sets known,
      )
    where
      with_both : VoteSet → VoteSet → HeightVoteSet
      with_both p q = record hvs {
        round_vote_sets = put_round r (record { prevotes = p; precommits = q }) hvs.round_vote_sets;
      }

      after_precommits : VoteSet → VoteSet → Run HeightVoteSet
      after_precommits p q = ok (with_both p q)

      after_prevotes : VoteSet → Run HeightVoteSet
      after_prevotes p =
          new_vote_set hvs.chain_id hvs.height r precommit_type hvs.voter_set >>= after_precommits p

      after_find : Option RoundVoteSet → Run HeightVoteSet
      after_find (some s) = panic
      after_find none =
          new_vote_set hvs.chain_id hvs.height r prevote_type hvs.voter_set >>= after_prevotes

  -- The vote set of a known round and a vote type.
  pub get_vote_set-found :
      (hvs : HeightVoteSet) (r : ℤ) (type : ℕ) {s : RoundVoteSet}
      → IsKept hvs
      → is_vote_type_valid type ≡ true
      → find_round r hvs.round_vote_sets ≡ some s
      → (vs : VoteSet) × (get_vote_set hvs r type ≡ ok (some vs)) × IsConsistent c vs
  unfolding get_vote_set is_vote_type_valid
  get_vote_set-found hvs r type {s} h valid known =
      let (p, q) = AllRounds-find BothConsistent r hvs.round_vote_sets h.rounds known in
      elim (Bool-cases (type == prevote_type)) [
        | inl t ↦ (s.prevotes, ap after_find known ∙ rw t refl, p)
        | inr n ↦
            let other : (type == precommit_type) ≡ true = ground arith in
            (s.precommits, ap after_find known ∙ rw (n, other) refl, q)
      ]
    where
      after_find : Option RoundVoteSet → Run (Option VoteSet)
      after_find none = ok none
      after_find (some s') =
          if type == prevote_type
          then ok (some s'.prevotes)
          else if type == precommit_type
          then ok (some s'.precommits)
          else panic

  pub get_vote_set-none :
      (hvs : HeightVoteSet) (r : ℤ) (type : ℕ)
      → find_round r hvs.round_vote_sets ≡ none
      → get_vote_set hvs r type ≡ ok none
  unfolding get_vote_set
  get_vote_set-none hvs r type e = ground arith

  pub put_vote_set-IsKept :
      (hvs : HeightVoteSet) (r : ℤ) (type : ℕ) (vs : VoteSet)
      → IsKept hvs
      → IsConsistent c vs
      → IsKept (put_vote_set hvs r type vs)
  unfolding put_vote_set
  put_vote_set-IsKept hvs r type vs h good =
      elim (Option-cases (find_round r hvs.round_vote_sets)) [
        | inl unknown ↦ subst IsKept (sym (ap after_find unknown)) h
        | inr (s, known) ↦
            let (p, q) = AllRounds-find BothConsistent r hvs.round_vote_sets h.rounds known in
            let changed : BothConsistent (replaced s) = elim (Bool-cases (type == prevote_type)) [
              | inl t ↦ subst BothConsistent (sym (ap (choose s) t)) (good, q)
              | inr n ↦ subst BothConsistent (sym (ap (choose s) n)) (p, good)
            ] in
            subst IsKept (sym (ap after_find known)) (record {
              vals = h.vals;
              some_vals = h.some_vals;
              made = h.made;
              height = h.height;
              rounds =
                  AllRounds-put BothConsistent r (replaced s) hvs.round_vote_sets h.rounds changed;
              peers = h.peers;
            })
      ]
    where
      choose : RoundVoteSet → Bool → RoundVoteSet
      choose s b = if b then record s { prevotes = vs } else record s { precommits = vs }

      replaced : RoundVoteSet → RoundVoteSet
      replaced s = choose s (type == prevote_type)

      after_find : Option RoundVoteSet → HeightVoteSet
      after_find none = hvs
      after_find (some s) = record hvs {
        round_vote_sets = put_round r (replaced s) hvs.round_vote_sets;
      }
