-- ===== src/Rounds/HeightVoteSet.antt =====
-- HeightVoteSet and RoundVoteSet of consensus/types/height_vote_set.go. The mutex is left out: each
-- method is one step. The map of rounds is a list; a vote set that a method changes through a pointer
-- is written back. The voter set, which the vote sets share, has its cached total when it is made.
use ostracon.Prelude.{
  ℕ, zero, suc, Bool, true, false, not, List, [], ◌∷◌, ◌++◌, Option, none, some, Bytes, length, ltb,
  ◌==◌, ◌&&◌, if◌then◌else◌,
}
use ostracon.Prelude.Int.{ℤ, pos, negsuc, ltb_ℤ, eqb_ℤ, ◌+ℤ◌, ◌-ℤ◌}
use ostracon.Prelude.Run.{Run, ok, panic, ◌>>=◌}
use ostracon.Types.BlockId.{BlockId, zero_block_id}
use ostracon.Types.Vote.{Vote, is_vote_type_valid, prevote_type, precommit_type}
use ostracon.Votes.Voters.{VoterSet}
use ostracon.Votes.VoteSet.{Crypto, VoteSet, VoteError, lookup, insert, new_vote_set}
use ostracon.Votes.AddVote.{add_signed_vote, set_peer_maj23, two_thirds_majority}

pub record RoundVoteSet : Type 0 where
  pub prevotes : VoteSet
  pub precommits : VoteSet

pub record HeightVoteSet : Type 0 where
  pub chain_id : Bytes
  pub height : ℤ
  pub voter_set : VoterSet
  pub round : ℤ
  pub round_vote_sets : List (ℤ × RoundVoteSet)
  pub peer_catchup_rounds : List (Bytes × List ℤ)

pub data HeightVoteError : Type 0 where
  unwanted_round : HeightVoteError
  vote_error : VoteError → HeightVoteError

unfoldable pub find_round : ℤ → List (ℤ × RoundVoteSet) → Option RoundVoteSet
find_round r [] = none
find_round r ((r', s) ∷ m) = let rest = find_round r m in if eqb_ℤ r r' then some s else rest

unfoldable pub put_round : ℤ → RoundVoteSet → List (ℤ × RoundVoteSet) → List (ℤ × RoundVoteSet)
put_round r s [] = (r, s) ∷ []
put_round r s ((r', s') ∷ m) =
    let rest = put_round r s m in if eqb_ℤ r r' then (r, s) ∷ m else (r', s') ∷ rest

unfoldable pub add_round : HeightVoteSet → ℤ → Run HeightVoteSet
add_round hvs round = elim (find_round round hvs.round_vote_sets) [
  | some s ↦ panic
  | none ↦ new_vote_set hvs.chain_id hvs.height round prevote_type hvs.voter_set >>= λ prevotes.
      new_vote_set hvs.chain_id hvs.height round precommit_type hvs.voter_set >>= λ precommits.
      ok (record hvs {
        round_vote_sets =
            put_round round (record { prevotes = prevotes; precommits = precommits })
              hvs.round_vote_sets;
      })
]

-- Reset
unfoldable pub reset_height : HeightVoteSet → ℤ → VoterSet → Run HeightVoteSet
unfolding add_round
reset_height hvs height voters =
    add_round
      (record hvs {
        height = height;
        voter_set = voters;
        round_vote_sets = [];
        peer_catchup_rounds = [];
      })
      (pos 0)
    >>= λ hvs'. ok (record hvs' { round = pos 0 })

unfoldable pub new_height_vote_set : Bytes → ℤ → VoterSet → Run HeightVoteSet
unfolding reset_height
new_height_vote_set chain height voters =
    reset_height
      (record {
        chain_id = chain;
        height = pos 0;
        voter_set = record { voters = []; total_voting_weight = 0 };
        round = pos 0;
        round_vote_sets = [];
        peer_catchup_rounds = [];
      })
      height voters

abbrev pub min_int32 : ℤ
min_int32 = negsuc 2147483647

abbrev pub max_int32 : ℤ
max_int32 = pos 2147483647

-- r++ of an int32, which wraps.
abbrev pub next_int32 : ℤ → ℤ
next_int32 r = if eqb_ℤ r max_int32 then min_int32 else r +ℤ pos 1

-- The loop of SetRound from r to a last round, on fuel: `none` is a loop that is still running.
unfoldable pub add_rounds : ℕ → ℤ → ℤ → HeightVoteSet → Run (Option HeightVoteSet)
unfolding add_round
add_rounds zero r last hvs = ok none
add_rounds (suc n) r last hvs =
    let rest = add_rounds n (next_int32 r) last in
    if ltb_ℤ last r then ok (some hvs) else elim (find_round r hvs.round_vote_sets) [
      | some s ↦ rest hvs
      | none ↦ add_round hvs r >>= λ hvs'. rest hvs'
    ]

-- SetRound, with the fuel of its loop.
unfoldable pub set_round : ℕ → HeightVoteSet → ℤ → Run (Option HeightVoteSet)
unfolding add_rounds
set_round fuel hvs round =
    let new_round = hvs.round -ℤ pos 1 in
    if ltb_ℤ hvs.round (min_int32 +ℤ pos 1)
    then panic
    else if not (eqb_ℤ hvs.round (pos 0)) && ltb_ℤ round new_round
    then panic
    else (add_rounds fuel new_round round hvs >>= λ ended. elim ended [
      | none ↦ ok none
      | some hvs' ↦ ok (some (record hvs' { round = round }))
    ])

unfoldable pub get_vote_set : HeightVoteSet → ℤ → ℕ → Run (Option VoteSet)
get_vote_set hvs round type = elim (find_round round hvs.round_vote_sets) [
  | none ↦ ok none
  | some s ↦
      if type == prevote_type
      then ok (some s.prevotes)
      else if type == precommit_type
      then ok (some s.precommits)
      else panic
]

-- A vote set of a round that was changed in place.
unfoldable pub put_vote_set : HeightVoteSet → ℤ → ℕ → VoteSet → HeightVoteSet
put_vote_set hvs round type vs = elim (find_round round hvs.round_vote_sets) [
  | none ↦ hvs
  | some s ↦ record hvs {
    round_vote_sets =
        put_round round
          (if type == prevote_type
            then record s { prevotes = vs }
            else record s { precommits = vs })
          hvs.round_vote_sets;
  }
]

-- The rounds of a peer; a missing key has none.
abbrev pub catchup_rounds : HeightVoteSet → Bytes → List ℤ
catchup_rounds hvs peer = elim (lookup peer hvs.peer_catchup_rounds) [
  | none ↦ []
  | some rounds ↦ rounds
]

module _ (c : Crypto) where
  -- The call of voteSet.AddVote at the end of AddVote.
  unfoldable pub add_to_vote_set :
      HeightVoteSet → Vote → Option VoteSet → Run (HeightVoteSet × Bool × Option HeightVoteError)
  unfolding put_vote_set
  add_to_vote_set hvs vote none = panic
  add_to_vote_set hvs vote (some vs) = add_signed_vote c vs (some vote) >>= λ (vs', added, e). ok (
    put_vote_set hvs vote.round vote.type vs',
    added,
    elim e [ none ↦ none | some x ↦ some (vote_error x) ],
  )

  -- AddVote of a vote that is not nil.
  unfoldable pub add_height_vote :
      HeightVoteSet → Vote → Bytes → Run (HeightVoteSet × Bool × Option HeightVoteError)
  unfolding get_vote_set add_to_vote_set
  add_height_vote hvs vote peer =
      if not (is_vote_type_valid vote.type)
      then ok (hvs, false, none)
      else (get_vote_set hvs vote.round vote.type >>= λ known. elim known [
        | some vs ↦ add_to_vote_set hvs vote (some vs)
        | none ↦
            if ltb (length (catchup_rounds hvs peer)) 2
            then (add_round hvs vote.round >>= λ hvs'.
                get_vote_set hvs' vote.round vote.type >>= λ made.
                add_to_vote_set
                  (record hvs' {
                    peer_catchup_rounds =
                        insert peer (catchup_rounds hvs peer ++ (vote.round ∷ []))
                          hvs'.peer_catchup_rounds;
                  })
                  vote made)
            else ok (hvs, false, some unwanted_round)
      ])

  -- SetPeerMaj23: whether there is no error, and the state.
  unfoldable pub set_height_peer_maj23 :
      HeightVoteSet → ℤ → ℕ → Bytes → BlockId → Run (HeightVoteSet × Bool)
  unfolding get_vote_set put_vote_set
  set_height_peer_maj23 hvs round type peer b =
      if not (is_vote_type_valid type)
      then ok (hvs, false)
      else (get_vote_set hvs round type >>= λ known. elim known [
        | none ↦ ok (hvs, true)
        | some vs ↦
            let (vs', fine) = set_peer_maj23 c vs peer b in
            ok (put_vote_set hvs round type vs', fine)
      ])

-- One round of POLInfo: its majority, or what the later rounds of the loop find.
unfoldable pub pol_at : HeightVoteSet → ℕ → Run (ℤ × BlockId) → Run (ℤ × BlockId)
unfolding get_vote_set
pol_at hvs r rest = get_vote_set hvs (pos r) prevote_type >>= λ known. elim known [
  | none ↦ rest
  | some vs ↦ let (b, found) = two_thirds_majority vs in if found then ok (pos r, b) else rest
]

-- The loop of POLInfo, for the n rounds below n.
unfoldable pub pol_below : HeightVoteSet → ℕ → Run (ℤ × BlockId)
unfolding pol_at
pol_below hvs zero = ok (negsuc 0, zero_block_id)
pol_below hvs (suc r) = let rest = pol_below hvs r in pol_at hvs r rest

unfoldable pub pol_info : HeightVoteSet → Run (ℤ × BlockId)
unfolding pol_below
pol_info hvs = elim hvs.round [
  | negsuc r ↦ ok (negsuc 0, zero_block_id)
  | pos r ↦ pol_below hvs (suc r)
]
