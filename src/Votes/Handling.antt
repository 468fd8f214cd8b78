-- ===== src/Votes/Handling.antt =====
-- getVote and addVote on a consistent vote set.
use ostracon.Prelude.{
  ℕ, ◌<◌, ◌≡◌, ◌⊎◌, refl, sym, ap, ◌∙◌, subst, true, false, Option, none, some, arith, Bytes,
  bytes_eq, bytes_eq_refl, length, get_elem?, get_elem?-lt, Bool-cases, Option-cases, inl, inr,
  if◌then◌else◌,
}
use ostracon.Prelude.Run.{Run, ok, ◌>>=◌, or_panic}
use ostracon.Types.BlockId.{BlockId, key, equals, equals_iff, block_id_invalid, is_zero}
use ostracon.Types.Vote.{Vote, contents}
use ostracon.Types.Canonical.{CanonicalVote, canonicalize_vote, canonicalize_block_id}
use ostracon.Votes.Voters.{Voter, get_by_index}
use ostracon.Votes.VoteSet.{
  invalid_address, invalid_signature, non_deterministic_signature, Crypto, VoteSet, VoteError,
  lookup, get_vote, block_vote_at, vote_verify, sign_bytes_of,
}
use ostracon.Votes.AddVote.{Added, check_vote, add_checked, add_vote, add_signed_vote}
use ostracon.Votes.Tally.{Covered-length}
use ostracon.Votes.Tracked.{AllValues-lookup}
use ostracon.Prelude.{get_elem?-in}
use ostracon.Votes.Invariant.{BlockOk, IsConsistent, vote_at-ok}
use ostracon.Votes.Adding.{Ends, unchanged, add_checked-Ends}

check_vote-voter :
    (s : VoteSet) (vote : Vote) (i : ℕ) (voter : Voter)
    → check_vote s vote ≡ inr (i, voter)
    → get_elem? s.voter_set.voters i ≡ some voter
unfolding check_vote get_by_index
check_vote-voter s vote i voter h = ground arith

canonicalize_vote-runs :
    (chain : Bytes) (vote : Vote)
    → block_id_invalid vote.block_id ≡ false
    → (cv : CanonicalVote) × (canonicalize_vote chain vote ≡ ok cv)
unfolding canonicalize_vote canonicalize_block_id
canonicalize_vote-runs chain vote valid = elim (Bool-cases (is_zero vote.block_id)) [
  | inl z ↦ (signed none, rw valid (rw z refl))
  | inr nz ↦ (signed (some vote.block_id), rw valid (rw nz refl))
]
  where
    signed : Option BlockId → CanonicalVote
    signed b = record {
      type = vote.type;
      height = vote.height;
      round = vote.round;
      block_id = b;
      timestamp = vote.timestamp;
      chain_id = chain;
    }

module _ (c : Crypto) where
  -- getVote returns, and a vote it does not know is for another block than the voter's in votes.
  get_vote-fresh :
      (s : VoteSet) (vote : Vote) (i : ℕ)
      → IsConsistent c s
      → i < length s.voter_set.voters
      → (known : Option Vote) × (get_vote c s i (key c.marshal_header vote.block_id) ≡ ok known)
        × (known ≡ none
            → (e : Vote) → get_elem? s.votes i ≡ some (some e)
            → equals e.block_id vote.block_id ≡ false)
  unfolding get_vote block_vote_at
  get_vote-fresh s vote i h lt =
      let size = h.sized in let (o, at) = get_elem?-in s.votes i (omega (arith, lt)) in by_slot o at
    where
      k : Bytes
      k = key c.marshal_header vote.block_id

      Fresh : Type 0
      Fresh =
          (e : Vote) → get_elem? s.votes i ≡ some (some e) → equals e.block_id vote.block_id ≡ false

      there : Option Vote → Run (Option Vote)
      there o = elim o [
        | none ↦ block_vote_at c (lookup k s.votes_by_block) i
        | some e ↦
            if bytes_eq (key c.marshal_header e.block_id) k
            then ok (some e)
            else block_vote_at c (lookup k s.votes_by_block) i
      ]

      in_block : (r : Option Vote) × (block_vote_at c (lookup k s.votes_by_block) i ≡ ok r)
      in_block = elim (Option-cases (lookup k s.votes_by_block)) [
        | inl unseen ↦ (none, ap (λ m. block_vote_at c m i) unseen)
        | inr (bv, seen) ↦
            let good =
              AllValues-lookup (BlockOk s.voter_set.voters s.votes) k s.votes_by_block h.blocks
                seen in
            let same = Covered-length bv.votes s.votes good.covered in
            let size = h.sized in
            let (r, at) = get_elem?-in bv.votes i (omega (arith, lt)) in
            (r, ap (λ m. block_vote_at c m i) seen ∙ vote_at-ok bv.votes i at)
      ]

      differs :
          (e : Vote)
          → bytes_eq (key c.marshal_header e.block_id) k ≡ false
          → equals e.block_id vote.block_id ≡ false
      differs e n = elim (Bool-cases (equals e.block_id vote.block_id)) [
        | inr d ↦ d
        | inl t ↦
            let same = (equals_iff e.block_id vote.block_id).0 t in
            let keys : key c.marshal_header e.block_id ≡ k = ap (key c.marshal_header) same in
            let yes_eq : bytes_eq (key c.marshal_header e.block_id) k ≡ true =
              subst (λ x. bytes_eq x k ≡ true) (sym keys) (bytes_eq_refl k) in
            cc (n, yes_eq)
      ]

      by_slot :
          (o : Option Vote)
          → get_elem? s.votes i ≡ some o
          → (known : Option Vote) × (get_vote c s i k ≡ ok known) × (known ≡ none → Fresh)
      by_slot none at = (
        in_block.0,
        ap (λ r. r >>= there) (vote_at-ok s.votes i at) ∙ in_block.1,
        λ n e filled. ground arith,
      )
      by_slot (some e) at = elim (Bool-cases (bytes_eq (key c.marshal_header e.block_id) k)) [
        | inl t ↦ (
          some e,
          ap (λ r. r >>= there) (vote_at-ok s.votes i at) ∙ rw t refl,
          λ n e' filled. ground arith,
        )
        | inr n ↦ (
          in_block.0,
          ap (λ r. r >>= there) (vote_at-ok s.votes i at) ∙ rw n in_block.1,
          λ u e' filled.
              let same : e ≡ e' = ground arith in
              subst (λ (x : Vote). equals x.block_id vote.block_id ≡ false) same (differs e n),
        )
      ]

  -- addVote, where the test of the signature returns.
  add_vote-Ends :
      (check : Bytes → Bytes → Vote → Run (Option VoteError)) (s : VoteSet) (vote : Vote)
      → IsConsistent c s
      → ((pub_key : Bytes) → (r : Option VoteError) × (check s.chain_id pub_key vote ≡ ok r))
      → Ends c s (add_vote c check s (some vote))
  unfolding add_vote
  add_vote-Ends check s vote h runs = by_check (check_vote s vote) refl
    where
      k : Bytes
      k = key c.marshal_header vote.block_id

      decide : VoteError ⊎ (ℕ × Voter) → Run Added
      decide r = elim r [
        | inl e ↦ ok (s, false, some e)
        | inr (i, voter) ↦ get_vote c s i k >>= λ known. elim known [
          | some e ↦
              if bytes_eq (contents e.signature) (contents vote.signature)
              then ok (s, false, none)
              else ok (s, false, some non_deterministic_signature)
          | none ↦ check s.chain_id voter.pub_key vote >>= λ refused. elim refused [
            | some e ↦ ok (s, false, some e)
            | none ↦ add_checked c s vote i voter.voting_weight
          ]
        ]
      ]

      tested : ℕ → Voter → Option VoteError → Run Added
      tested i voter refused = elim refused [
        | some e ↦ ok (s, false, some e)
        | none ↦ add_checked c s vote i voter.voting_weight
      ]

      looked : ℕ → Voter → Option Vote → Run Added
      looked i voter known = elim known [
        | some e ↦
            if bytes_eq (contents e.signature) (contents vote.signature)
            then ok (s, false, none)
            else ok (s, false, some non_deterministic_signature)
        | none ↦ check s.chain_id voter.pub_key vote >>= tested i voter
      ]

      by_refusal :
          (i : ℕ) (voter : Voter) (r : Option VoteError)
          → get_elem? s.voter_set.voters i ≡ some voter
          → ((e : Vote)
              → get_elem? s.votes i ≡ some (some e)
              → equals e.block_id vote.block_id ≡ false)
          → Ends c s (tested i voter r)
      by_refusal i voter (some e) here fresh = unchanged c s false (some e) h refl
      by_refusal i voter none here fresh = add_checked-Ends c s vote i h here fresh

      by_known :
          (i : ℕ) (voter : Voter) (known : Option Vote)
          → get_elem? s.voter_set.voters i ≡ some voter
          → (known ≡ none
              → (e : Vote) → get_elem? s.votes i ≡ some (some e)
              → equals e.block_id vote.block_id ≡ false)
          → Ends c s (looked i voter known)
      by_known i voter (some e) here fresh =
          elim (Bool-cases (bytes_eq (contents e.signature) (contents vote.signature))) [
            | inl t ↦ unchanged c s false none h (rw t refl)
            | inr n ↦ unchanged c s false (some non_deterministic_signature) h (rw n refl)
          ]
      by_known i voter none here fresh =
          let (r, ran) = runs voter.pub_key in
          subst (Ends c s) (sym (ap (λ t. t >>= tested i voter) ran))
            (by_refusal i voter r here (fresh refl))

      by_check : (r : VoteError ⊎ (ℕ × Voter)) → check_vote s vote ≡ r → Ends c s (decide r)
      by_check (inl e) checked = unchanged c s false (some e) h refl
      by_check (inr (i, voter)) checked =
          let here = check_vote-voter s vote i voter checked in
          let (known, ran, fresh) =
            get_vote-fresh s vote i h (get_elem?-lt s.voter_set.voters i here) in
          subst (Ends c s) (sym (ap (λ t. t >>= looked i voter) ran))
            (by_known i voter known here fresh)

  -- The encoding of a vote for a chain does not fail.
  abbrev pub CanEncode : Bytes → Vote → Type 0
  CanEncode chain vote =
      (cv : CanonicalVote)
      → canonicalize_vote chain vote ≡ ok cv
      → (b : Bytes) × (c.marshal_vote cv ≡ some b)

  sign_bytes_of-runs :
      (vote : Vote) (chain : Bytes)
      → block_id_invalid vote.block_id ≡ false
      → CanEncode chain vote
      → (b : Bytes) × (sign_bytes_of c chain vote ≡ ok b)
  unfolding sign_bytes_of
  sign_bytes_of-runs vote chain valid enc =
      let (cv, e) = canonicalize_vote-runs chain vote valid in
      let (b, said) = enc cv e in
      (b, ap (λ r. r >>= λ x. or_panic (c.marshal_vote x)) e ∙ ap or_panic said)

  vote_verify-runs :
      (vote : Vote) (chain pub_key : Bytes)
      → block_id_invalid vote.block_id ≡ false
      → CanEncode chain vote
      → (r : Option VoteError) × (vote_verify c chain pub_key vote ≡ ok r)
  unfolding vote_verify
  vote_verify-runs vote chain pub_key valid enc =
      elim (Bool-cases (bytes_eq (c.address_of pub_key) vote.validator_address)) [
        | inr n ↦ (some invalid_address, rw n refl)
        | inl t ↦
            let (bytes, e) = sign_bytes_of-runs vote chain valid enc in
            (verdict bytes, rw t (ap (λ r. r >>= λ x. ok (verdict x)) e))
      ]
    where
      verdict : Bytes → Option VoteError
      verdict bytes =
          if c.verify_signature pub_key bytes (contents vote.signature)
          then none
          else some invalid_signature

  pub add_signed_vote-Ends :
      (s : VoteSet) (vote : Vote)
      → IsConsistent c s
      → block_id_invalid vote.block_id ≡ false
      → CanEncode s.chain_id vote
      → Ends c s (add_signed_vote c s (some vote))
  unfolding add_signed_vote
  add_signed_vote-Ends s vote h valid enc =
      add_vote-Ends (vote_verify c) s vote h (λ pk. vote_verify-runs vote s.chain_id pk valid enc)
