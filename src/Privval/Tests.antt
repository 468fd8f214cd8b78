-- ===== src/Privval/Tests.antt =====
-- The theorems about the signer at concrete inputs: an encoding of canonical messages as lists of
-- numbers, a key that signs with the length, and a file that can always be written.
use mathlib.Core.Option
use ostracon.Prelude.{
  ℕ, zero, suc, ◌≡◌, refl, ap, ◌∙◌, true, Option, none, some, List, [], ◌∷◌, ◌++◌, arith, Bytes,
  length, take, drop, get_elem?,
}
use ostracon.Prelude.Slices.{bytes_eq}
use ostracon.Prelude.Int.{ℤ, pos, negsuc}
use ostracon.Prelude.Run.{ok}
use ostracon.Types.BlockId.{block_id_invalid, is_zero, BlockId, zero_block_id}
use ostracon.Types.Vote.{Vote, Proposal, prevote_type}
use ostracon.Types.Canonical.{
  canonicalize_vote, canonicalize_proposal, vote_equal, CanonicalVote, CanonicalProposal,
}
use ostracon.Privval.State.{
  height_regression, conflicting_data, vote_to_step, LastSignState, Checked, check_hrs,
  check_hrs-Checked,
}
use ostracon.Privval.Sign.{
  Env, RoundTrips, FilePv, fresh_vote, save_signed, reuse_vote, votes_only_differ, sign_proposal,
  fresh_proposal, proposal_sign_bytes, load, sign_vote, new_last_sign_state, vote_sign_bytes,
}
use ostracon.Privval.Release.{Encodes, IsSigned}
use ostracon.Privval.SignVote.{VoteReleased, sign_vote-Released}
use ostracon.Privval.SignProposal.{sign_proposal-Released, ProposalReleased}
use ostracon.Privval.Errors.{sign_vote-error, sign_proposal-error}
use ostracon.Privval.History.{Request, votes, restarts, Entry, serve, serve_all}
use ostracon.Privval.Safety.{no_double_sign}

tag : ℤ → ℕ
tag (pos n) = 0
tag (negsuc n) = 1

size_of : ℤ → ℕ
size_of (pos n) = n
size_of (negsuc n) = n

get_int : ℕ → ℕ → ℤ
get_int zero n = pos n
get_int (suc _) n = negsuc n

get_int-tag : (a : ℤ) → get_int (tag a) (size_of a) ≡ a
unfolding get_int tag size_of
get_int-tag (pos n) = refl
get_int-tag (negsuc n) = refl

put_int : ℤ → Bytes → Bytes
put_int a rest = tag a ∷ size_of a ∷ rest

put_block : Option BlockId → Bytes → Bytes
put_block none rest = 0 ∷ rest
put_block (some b) rest =
    1 ∷ b.parts.total ∷ length b.hash ∷ length b.parts.hash ∷ (b.hash ++ (b.parts.hash ++ rest))

get_block : Bytes → Option (Option BlockId × Bytes)
get_block [] = none
get_block (zero ∷ rest) = some (none, rest)
get_block (suc _ ∷ total ∷ n ∷ m ∷ rest) = some (
  some (record {
    hash = take n rest;
    parts = record { total = total; hash = take m (drop n rest) };
  }),
  drop m (drop n rest),
)
get_block (suc _ ∷ _) = none

put_vote : CanonicalVote → Bytes
put_vote c =
    c.type
    ∷ put_int c.height (put_int c.round (put_int c.timestamp (put_block c.block_id c.chain_id)))

vote_of : ℕ → ℤ → ℤ → ℤ → Option BlockId × Bytes → CanonicalVote
vote_of type height round timestamp (b, chain) = record {
  type = type;
  height = height;
  round = round;
  block_id = b;
  timestamp = timestamp;
  chain_id = chain;
}

decode_vote : Bytes → Option CanonicalVote
decode_vote (t ∷ a ∷ h ∷ b ∷ r ∷ c ∷ s ∷ rest) =
    Option.map (vote_of t (get_int a h) (get_int b r) (get_int c s)) (get_block rest)
decode_vote _ = none

take-length_append : (x y : Bytes) → take (length x) (x ++ y) ≡ x
take-length_append [] y = refl
take-length_append (a ∷ x) y = ap (◌∷◌ a) (take-length_append x y)

drop-length_append : (x y : Bytes) → drop (length x) (x ++ y) ≡ y
drop-length_append [] y = refl
drop-length_append (a ∷ x) y = drop-length_append x y

get_block-put : (b : Option BlockId) (rest : Bytes) → get_block (put_block b rest) ≡ some (b, rest)
unfolding get_block put_block
get_block-put none rest = refl
get_block-put (some b) rest = simp (take-length_append, drop-length_append)

decode_vote-put : (c : CanonicalVote) → decode_vote (put_vote c) ≡ some c
unfolding decode_vote put_vote put_int vote_of
decode_vote-put c = simp (
  get_block-put c.block_id c.chain_id,
  get_int-tag c.height,
  get_int-tag c.round,
  get_int-tag c.timestamp,
)

put_proposal : CanonicalProposal → Bytes
put_proposal c =
    c.type
    ∷ put_int c.height (
        put_int c.round
          (put_int c.pol_round (put_int c.timestamp (put_block c.block_id c.chain_id))))

proposal_of : ℕ → ℤ → ℤ → ℤ → ℤ → Option BlockId × Bytes → CanonicalProposal
proposal_of type height round pol_round timestamp (b, chain) = record {
  type = type;
  height = height;
  round = round;
  pol_round = pol_round;
  block_id = b;
  timestamp = timestamp;
  chain_id = chain;
}

decode_proposal : Bytes → Option CanonicalProposal
decode_proposal (t ∷ a ∷ h ∷ b ∷ r ∷ p ∷ q ∷ c ∷ s ∷ rest) =
    Option.map (proposal_of t (get_int a h) (get_int b r) (get_int p q) (get_int c s))
      (get_block rest)
decode_proposal _ = none

decode_proposal-put : (c : CanonicalProposal) → decode_proposal (put_proposal c) ≡ some c
unfolding decode_proposal put_proposal put_int proposal_of
decode_proposal-put c = simp (
  get_block-put c.block_id c.chain_id,
  get_int-tag c.height,
  get_int-tag c.round,
  get_int-tag c.pol_round,
  get_int-tag c.timestamp,
)

abbrev test_env : Env
test_env = record {
  marshal_vote = λ c. some (put_vote c);
  unmarshal_vote = decode_vote;
  marshal_proposal = λ c. some (put_proposal c);
  unmarshal_proposal = decode_proposal;
  sign = λ b. some (length b ∷ []);
  now = pos 0;
  write_succeeds = λ _. true;
}

encoded : (a b : Bytes) → ◌≡◌ {A = Option Bytes} (some a) (some b) → b ≡ a
encoded a b e = ground arith

test_trips : RoundTrips test_env
test_trips = record {
  vote = λ c b e. ap decode_vote (encoded _ b e) ∙ decode_vote-put c;
  proposal = λ c b e. ap decode_proposal (encoded _ b e) ∙ decode_proposal-put c;
}

abbrev sample_vote : ℕ → Vote
sample_vote time = record {
  type = prevote_type;
  height = pos 5;
  round = pos 0;
  block_id = zero_block_id;
  timestamp = pos time;
  validator_address = [];
  validator_index = pos 0;
  signature = none;
}

abbrev sample_proposal : Proposal
sample_proposal = record {
  type = 32;
  height = pos 4;
  round = pos 1;
  pol_round = negsuc 0;
  block_id = zero_block_id;
  timestamp = pos 8;
  signature = none;
}

abbrev new_pv : FilePv
new_pv = record { last = new_last_sign_state (7 ∷ []); disk = new_last_sign_state (7 ∷ []) }

new_pv-Encodes : Encodes test_env new_pv.last
unfolding new_last_sign_state
new_pv-Encodes = record { votes = λ b e s. ground arith; proposals = λ b e s. ground arith }

new_pv-IsSigned : IsSigned test_env new_pv.last
unfolding new_last_sign_state
new_pv-IsSigned = λ b e. ground arith

abbrev chain : Bytes
chain = 9 ∷ 9 ∷ []

check_hrs-Checked_example :
    Checked new_pv.last (pos 2) (pos 0) (pos 1) (check_hrs new_pv.last (pos 2) (pos 0) (pos 1))
check_hrs-Checked_example = check_hrs-Checked new_pv.last (pos 2) (pos 0) (pos 1)

-- The state after one vote has been signed.
abbrev signed_state : LastSignState
signed_state = record {
  height = pos 5;
  round = pos 0;
  step = pos 2;
  signature = some (10 ∷ []);
  sign_bytes = some (1 ∷ 0 ∷ 5 ∷ 0 ∷ 0 ∷ 0 ∷ 3 ∷ 0 ∷ 9 ∷ 9 ∷ []);
  file_path = 7 ∷ [];
}

abbrev signed_pv : FilePv
signed_pv = record { last = signed_state; disk = signed_state }

abbrev signed_vote : Vote
signed_vote = record (sample_vote 3) { signature = some (10 ∷ []) }

first_vote : sign_vote test_env new_pv chain (sample_vote 3) ≡ ok (signed_pv, signed_vote, none)
unfolding sign_vote vote_to_step check_hrs new_last_sign_state vote_sign_bytes canonicalize_vote
    block_id_invalid is_zero fresh_vote save_signed put_vote put_int tag size_of put_block
first_vote = refl

sign_vote-Released_example :
    (step : ℤ) × (bytes : Bytes) × (sig : Bytes) × VoteReleased test_env new_pv chain
      (sample_vote 3)
      signed_pv
      signed_vote
      step
      bytes
    × (test_env.sign bytes ≡ some sig)
    × (signed_vote.signature ≡ some sig)
    × IsSigned test_env signed_pv.last
sign_vote-Released_example =
    sign_vote-Released test_env test_trips new_pv chain (sample_vote 3) new_pv-Encodes
      new_pv-IsSigned first_vote

-- A proposal for an earlier height.
late_proposal :
    sign_proposal test_env signed_pv chain sample_proposal
    ≡ ok (signed_pv, sample_proposal, some height_regression)
unfolding sign_proposal check_hrs
late_proposal = refl

sign_proposal-error_example : (signed_pv ≡ signed_pv) × (sample_proposal ≡ sample_proposal)
sign_proposal-error_example =
    sign_proposal-error test_env signed_pv chain sample_proposal late_proposal

-- A vote for another block, at the position signed last.
abbrev other_vote : Vote
other_vote = record (sample_vote 6) {
  block_id = record { hash = []; parts = record { total = 4; hash = [] } };
}

conflict :
    sign_vote test_env signed_pv chain other_vote
    ≡ ok (signed_pv, other_vote, some conflicting_data)
unfolding sign_vote vote_to_step check_hrs vote_sign_bytes canonicalize_vote block_id_invalid
    is_zero reuse_vote votes_only_differ put_vote put_int tag size_of put_block bytes_eq decode_vote
    get_block vote_equal vote_of get_int
conflict = refl

sign_vote-error_example : (signed_pv ≡ signed_pv) × (other_vote ≡ other_vote)
sign_vote-error_example = sign_vote-error test_env signed_pv chain other_vote conflict

abbrev proposal_state : LastSignState
proposal_state = record {
  height = pos 4;
  round = pos 1;
  step = pos 1;
  signature = some (12 ∷ []);
  sign_bytes = some (32 ∷ 0 ∷ 4 ∷ 0 ∷ 1 ∷ 1 ∷ 0 ∷ 0 ∷ 8 ∷ 0 ∷ 9 ∷ 9 ∷ []);
  file_path = 7 ∷ [];
}

abbrev proposal_pv : FilePv
proposal_pv = record { last = proposal_state; disk = proposal_state }

abbrev signed_proposal : Proposal
signed_proposal = record sample_proposal { signature = some (12 ∷ []) }

first_proposal :
    sign_proposal test_env new_pv chain sample_proposal ≡ ok (proposal_pv, signed_proposal, none)
unfolding sign_proposal check_hrs new_last_sign_state proposal_sign_bytes canonicalize_proposal
    block_id_invalid is_zero fresh_proposal save_signed put_proposal put_int tag size_of put_block
first_proposal = refl

sign_proposal-Released_example :
    (bytes : Bytes) × (sig : Bytes) × ProposalReleased test_env new_pv chain sample_proposal
      proposal_pv signed_proposal bytes
    × (test_env.sign bytes ≡ some sig)
    × (signed_proposal.signature ≡ some sig)
    × IsSigned test_env proposal_pv.last
sign_proposal-Released_example =
    sign_proposal-Released test_env test_trips new_pv chain sample_proposal new_pv-Encodes
      new_pv-IsSigned first_proposal

-- The same vote twice, with a later timestamp and a restart between.
abbrev requests : List Request
requests = votes chain (sample_vote 3) ∷ restarts ∷ votes chain (sample_vote 6) ∷ []

abbrev entry : Entry
entry = record {
  height = pos 5;
  round = pos 0;
  step = pos 2;
  bytes = 1 ∷ 0 ∷ 5 ∷ 0 ∷ 0 ∷ 0 ∷ 3 ∷ 0 ∷ 9 ∷ 9 ∷ [];
  signature = some (10 ∷ []);
}

both_logged : (serve_all test_env new_pv [] requests).1 ≡ entry ∷ entry ∷ []
unfolding serve_all serve sign_vote vote_to_step check_hrs load new_last_sign_state vote_sign_bytes
    canonicalize_vote block_id_invalid is_zero fresh_vote save_signed reuse_vote bytes_eq put_vote
    put_int tag size_of put_block votes_only_differ vote_equal decode_vote get_block vote_of get_int
both_logged = refl

no_double_sign_example : (entry.bytes ≡ entry.bytes) × (entry.signature ≡ entry.signature)
no_double_sign_example =
    no_double_sign test_env test_trips new_pv requests 0 1 refl new_pv-Encodes
      (ap (λ log. get_elem? log 0) both_logged) (ap (λ log. get_elem? log 1) both_logged) refl refl
      refl
