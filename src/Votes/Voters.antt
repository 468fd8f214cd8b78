-- ===== src/Votes/Voters.antt =====
-- VoterSet of types/voter_set.go. Weights are not negative; they are int64 values, and their sum is
-- clipped at the largest one. The cached total is zero until it is computed.
use ostracon.Prelude.{
  ℕ, ◌+◌, ◌/◌, Bool, true, false, List, [], ◌∷◌, Option, none, some, Bytes, bytes_eq, length,
  get_elem?, ltb, ◌==◌, if◌then◌else◌,
}
use ostracon.Prelude.Int.{ℤ, pos, negsuc}
use ostracon.Prelude.Run.{Run, ok, panic, ◌>>=◌}

pub record Voter : Type 0 where
  pub address : Bytes
  pub pub_key : Bytes
  pub voting_power : ℕ
  pub voting_weight : ℕ

pub record VoterSet : Type 0 where
  pub voters : List Voter
  pub total_voting_weight : ℕ

abbrev pub max_int64 : ℕ
max_int64 = 9223372036854775807

abbrev pub max_total_voting_weight : ℕ
max_total_voting_weight = max_int64 / 8 + 1000

-- safeAddClip of numbers that are not negative.
unfoldable pub safe_add_clip : ℕ → ℕ → ℕ
safe_add_clip a b = if ltb max_int64 (a + b) then max_int64 else a + b

-- The loop of updateTotalVotingWeight.
unfoldable pub add_weights : ℕ → List Voter → Run ℕ
unfolding safe_add_clip
add_weights sum [] = ok sum
add_weights sum (v ∷ vs) =
    let sum' = safe_add_clip sum v.voting_weight in
    let rest = add_weights sum' vs in if ltb max_total_voting_weight sum' then panic else rest

unfoldable pub update_total_voting_weight : VoterSet → Run VoterSet
unfolding add_weights
update_total_voting_weight s =
    add_weights 0 s.voters >>= λ sum. ok (record s { total_voting_weight = sum })

-- TotalVotingWeight, which stores what it computes.
unfoldable pub get_total_voting_weight : VoterSet → Run (VoterSet × ℕ)
unfolding update_total_voting_weight
get_total_voting_weight s =
    if s.total_voting_weight == 0
    then (update_total_voting_weight s >>= λ s'. ok (s', s'.total_voting_weight))
    else ok (s, s.total_voting_weight)

-- WrapValidatorsToVoterSet past its sort.
unfoldable pub wrap_sorted : List Voter → Run VoterSet
unfolding update_total_voting_weight
wrap_sorted vals = update_total_voting_weight (record { voters = vals; total_voting_weight = 0 })

unfoldable pub size : VoterSet → ℕ
size s = length s.voters

unfoldable pub find_address : ℕ → Bytes → List Voter → Option (ℕ × Voter)
find_address i a [] = none
find_address i a (v ∷ vs) =
    let rest = find_address (i + 1) a vs in if bytes_eq v.address a then some (i, v) else rest

-- GetByAddress: `none` stands for -1 and nil.
unfoldable pub get_by_address : VoterSet → Bytes → Option (ℕ × Voter)
unfolding find_address
get_by_address s a = find_address 0 a s.voters

unfoldable pub has_address : List Voter → Bytes → Bool
has_address [] a = false
has_address (v ∷ vs) a = let rest = has_address vs a in if bytes_eq v.address a then true else rest

unfoldable pub get_by_index : VoterSet → ℤ → Option Voter
get_by_index s (pos i) = get_elem? s.voters i
get_by_index s (negsuc i) = none
