-- ===== src/Rounds/Adding.antt =====
-- AddVote of HeightVoteSet.
use ostracon.Prelude.{
  ◌≡◌, inl, inr, sym, ap, ◌∙◌, subst, Bool, true, false, not, [], ◌∷◌, ◌++◌, Option, none, some,
  arith, Option-cases, Bool-cases, Bytes, length, length-append, ltb, ltb→lt, if◌then◌else◌,
}
use ostracon.Prelude.Run.{Run, ok, ◌>>=◌}
use ostracon.Types.BlockId.{block_id_invalid}
use ostracon.Types.Vote.{Vote, is_vote_type_valid}
use ostracon.Votes.VoteSet.{Crypto, VoteSet, VoteError, insert}
use ostracon.Votes.AddVote.{Added}
use ostracon.Votes.Tracked.{AllValues-insert}
use ostracon.Votes.Invariant.{IsConsistent}
use ostracon.Votes.Handling.{CanEncode, add_signed_vote-Ends}
use ostracon.Rounds.HeightVoteSet.{
  HeightVoteSet, HeightVoteError, unwanted_round, vote_error, find_round, add_round, get_vote_set,
  put_vote_set, catchup_rounds, add_to_vote_set, add_height_vote,
}
use ostracon.Rounds.Kept.{
  AtMostTwo, IsKept, add_round-IsKept, get_vote_set-found, get_vote_set-none, put_vote_set-IsKept,
}

module _ (c : Crypto) where
  -- How AddVote ends: it returns, and the vote sets are as before well kept.
  abbrev pub Returns : Run (HeightVoteSet × Bool × Option HeightVoteError) → Type 0
  Returns run =
      (hvs : HeightVoteSet) × (added : Bool) × (e : Option HeightVoteError) × (run
        ≡ ok (hvs, added, e))
      × IsKept c hvs

  add_to_vote_set-Returns :
      (hvs : HeightVoteSet) (vote : Vote) (vs : VoteSet)
      → IsKept c hvs
      → IsConsistent c vs
      → block_id_invalid vote.block_id ≡ false
      → CanEncode c vs.chain_id vote
      → Returns (add_to_vote_set c hvs vote (some vs))
  unfolding add_to_vote_set
  add_to_vote_set-Returns hvs vote vs h good valid enc =
      let ends = add_signed_vote-Ends c vs vote good valid enc in
      (
        put_vote_set hvs vote.round vote.type ends.after,
        ends.added,
        error_of ends.error,
        ap (λ r. r >>= after_add) ends.returned,
        put_vote_set-IsKept c hvs vote.round vote.type ends.after h ends.kept.consistent,
      )
    where
      error_of : Option VoteError → Option HeightVoteError
      error_of none = none
      error_of (some x) = some (vote_error x)

      after_add : Added → Run (HeightVoteSet × Bool × Option HeightVoteError)
      after_add (vs', added, e) = ok (put_vote_set hvs vote.round vote.type vs', added, error_of e)

  -- AddVote of a vote whose block identifier is valid and whose canonical form can be encoded, for
  -- whatever chain the vote sets have, returns, on well kept vote sets of a height, and keeps them so: each vote set is consistent, and no peer has more than two catch-up rounds.
  pub add_height_vote-Returns :
      (hvs : HeightVoteSet) (vote : Vote) (peer : Bytes)
      → IsKept c hvs
      → block_id_invalid vote.block_id ≡ false
      → ((chain : Bytes) → CanEncode c chain vote)
      → Returns (add_height_vote c hvs vote peer)
  unfolding add_height_vote
  add_height_vote-Returns hvs vote peer h valid enc =
      elim (Bool-cases (is_vote_type_valid vote.type)) [
        | inr n ↦ (hvs, false, none, ap tested n, h)
        | inl t ↦
            subst Returns (sym (ap tested t))
              (elim (Option-cases (find_round vote.round hvs.round_vote_sets)) [
                | inr (s, known) ↦
                    let (vs, got, good) = get_vote_set-found c hvs vote.round vote.type h t known in
                    subst Returns (sym (ap (λ r. r >>= after_get) got))
                      (add_to_vote_set-Returns hvs vote vs h good valid (enc vs.chain_id))
                | inl unknown ↦
                    subst Returns
                      (sym (
                        ap (λ r. r >>= after_get)
                          (get_vote_set-none c hvs vote.round vote.type unknown)))
                      (catch_up t unknown)
              ])
      ]
    where
      with_peer : HeightVoteSet → HeightVoteSet
      with_peer hvs' = record hvs' {
        peer_catchup_rounds =
            insert peer (catchup_rounds hvs peer ++ (vote.round ∷ [])) hvs'.peer_catchup_rounds;
      }

      after_round : HeightVoteSet → Run (HeightVoteSet × Bool × Option HeightVoteError)
      after_round hvs' = get_vote_set hvs' vote.round vote.type >>= λ made.
          add_to_vote_set c (with_peer hvs') vote made

      limited : Bool → Run (HeightVoteSet × Bool × Option HeightVoteError)
      limited b =
          if b
          then (add_round hvs vote.round >>= after_round)
          else ok (hvs, false, some unwanted_round)

      after_get : Option VoteSet → Run (HeightVoteSet × Bool × Option HeightVoteError)
      after_get none = limited (ltb (length (catchup_rounds hvs peer)) 2)
      after_get (some vs) = add_to_vote_set c hvs vote (some vs)

      tested : Bool → Run (HeightVoteSet × Bool × Option HeightVoteError)
      tested b =
          if not b
          then ok (hvs, false, none)
          else (get_vote_set hvs vote.round vote.type >>= after_get)

      catch_up :
          is_vote_type_valid vote.type ≡ true
          → find_round vote.round hvs.round_vote_sets ≡ none
          → Returns (after_get none)
      catch_up t unknown = elim (Bool-cases (ltb (length (catchup_rounds hvs peer)) 2)) [
        | inr full ↦ (hvs, false, some unwanted_round, ap limited full, h)
        | inl room ↦
            let (hvs', s, run, h', known, same_peers, _) =
              add_round-IsKept c hvs vote.round h unknown in
            let (vs, got, good) = get_vote_set-found c hvs' vote.round vote.type h' t known in
            let counted = length-append (catchup_rounds hvs peer) (vote.round ∷ []) in
            let less = ltb→lt (length (catchup_rounds hvs peer)) 2 room in
            let kept : IsKept c (with_peer hvs') = record {
              vals = h'.vals;
              some_vals = h'.some_vals;
              made = h'.made;
              height = h'.height;
              rounds = h'.rounds;
              peers =
                  AllValues-insert (AtMostTwo c) peer _ hvs'.peer_catchup_rounds h'.peers
                    (omega (arith, counted, less));
            } in
            subst Returns
              (sym (
                ap limited room
                ∙ (ap (λ r. r >>= after_round) run
                    ∙ ap (λ r. r >>= λ made. add_to_vote_set c (with_peer hvs') vote made) got)))
              (add_to_vote_set-Returns (with_peer hvs') vote vs kept good valid (enc vs.chain_id))
      ]
