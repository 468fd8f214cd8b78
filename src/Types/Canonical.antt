-- ===== src/Types/Canonical.antt =====
-- types/canonical.go: what of a vote and of a proposal is signed.
use ostracon.Prelude.{
  ℕ, Bool, true, ◌&&◌, ◌≡◌, refl, Option, none, some, arith, Bytes, bytes_eq, bytes_eq→eq, ◌==◌,
  ==_iff, &&_elim, if◌then◌else◌,
}
use ostracon.Prelude.Int.{ℤ, eqb_ℤ, eqb_ℤ_iff}
use ostracon.Prelude.Run.{Run, ok, panic, ◌>>=◌}
use ostracon.Types.BlockId.{BlockId, block_id_invalid, is_zero, equals, equals_iff}
use ostracon.Types.Vote.{Vote, Proposal, proposal_type}

-- A canonical block identifier has the fields of a block identifier.
pub record CanonicalVote : Type 0 where
  pub type : ℕ
  pub height : ℤ
  pub round : ℤ
  pub block_id : Option BlockId
  pub timestamp : ℤ
  pub chain_id : Bytes

pub record CanonicalProposal : Type 0 where
  pub type : ℕ
  pub height : ℤ
  pub round : ℤ
  pub pol_round : ℤ
  pub block_id : Option BlockId
  pub timestamp : ℤ
  pub chain_id : Bytes

-- BlockIDFromProto validates, and its error is a panic here.
unfoldable pub canonicalize_block_id : BlockId → Run (Option BlockId)
canonicalize_block_id b =
    if block_id_invalid b then panic else if is_zero b then ok none else ok (some b)

unfoldable pub canonicalize_vote : Bytes → Vote → Run CanonicalVote
unfolding canonicalize_block_id
canonicalize_vote chain v = canonicalize_block_id v.block_id >>= λ b. ok (record {
  type = v.type;
  height = v.height;
  round = v.round;
  block_id = b;
  timestamp = v.timestamp;
  chain_id = chain;
})

unfoldable pub canonicalize_proposal : Bytes → Proposal → Run CanonicalProposal
unfolding canonicalize_block_id
canonicalize_proposal chain p = canonicalize_block_id p.block_id >>= λ b. ok (record {
  type = proposal_type;
  height = p.height;
  round = p.round;
  pol_round = p.pol_round;
  block_id = b;
  timestamp = p.timestamp;
  chain_id = chain;
})

abbrev same_block_id : Option BlockId → Option BlockId → Bool
same_block_id none none = true
same_block_id (some a) (some b) = equals a b
same_block_id none (some b) = Bool.false
same_block_id (some a) none = Bool.false

-- proto.Equal on canonical votes and proposals: field by field.
unfoldable pub vote_equal : CanonicalVote → CanonicalVote → Bool
vote_equal a b =
    (a.type == b.type)
    && (eqb_ℤ a.height b.height
        && (eqb_ℤ a.round b.round
            && (same_block_id a.block_id b.block_id
                && (eqb_ℤ a.timestamp b.timestamp && bytes_eq a.chain_id b.chain_id))))

unfoldable pub proposal_equal : CanonicalProposal → CanonicalProposal → Bool
proposal_equal a b =
    (a.type == b.type)
    && (eqb_ℤ a.height b.height
        && (eqb_ℤ a.round b.round
            && (eqb_ℤ a.pol_round b.pol_round
                && (same_block_id a.block_id b.block_id
                    && (eqb_ℤ a.timestamp b.timestamp && bytes_eq a.chain_id b.chain_id)))))

same_block_id→eq : (a b : Option BlockId) → same_block_id a b ≡ true → a ≡ b
same_block_id→eq none none e = refl
same_block_id→eq (some a) (some b) e = ground (arith, (equals_iff a b).0)
same_block_id→eq none (some b) e = ground arith
same_block_id→eq (some a) none e = ground arith

-- What the field by field comparison decides.
pub vote_equal→eq : (a b : CanonicalVote) → vote_equal a b ≡ true → a ≡ b
unfolding vote_equal
vote_equal→eq a b e =
    let (t, e1) = &&_elim e in
    let (h, e2) = &&_elim e1 in
    let (r, e3) = &&_elim e2 in
    let (i, e4) = &&_elim e3 in
    let (s, c) = &&_elim e4 in
    let type_eq = (==_iff a.type b.type).0 t in
    let height_eq = (eqb_ℤ_iff a.height b.height).0 h in
    let round_eq = (eqb_ℤ_iff a.round b.round).0 r in
    let id_eq = same_block_id→eq a.block_id b.block_id i in
    let time_eq = (eqb_ℤ_iff a.timestamp b.timestamp).0 s in
    let chain_eq = bytes_eq→eq a.chain_id b.chain_id c in
    λ d. record {
      type = type_eq d;
      height = height_eq d;
      round = round_eq d;
      block_id = id_eq d;
      timestamp = time_eq d;
      chain_id = chain_eq d;
    }

pub proposal_equal→eq : (a b : CanonicalProposal) → proposal_equal a b ≡ true → a ≡ b
unfolding proposal_equal
proposal_equal→eq a b e =
    let (t, e1) = &&_elim e in
    let (h, e2) = &&_elim e1 in
    let (r, e3) = &&_elim e2 in
    let (p, e4) = &&_elim e3 in
    let (i, e5) = &&_elim e4 in
    let (s, c) = &&_elim e5 in
    let type_eq = (==_iff a.type b.type).0 t in
    let height_eq = (eqb_ℤ_iff a.height b.height).0 h in
    let round_eq = (eqb_ℤ_iff a.round b.round).0 r in
    let pol_eq = (eqb_ℤ_iff a.pol_round b.pol_round).0 p in
    let id_eq = same_block_id→eq a.block_id b.block_id i in
    let time_eq = (eqb_ℤ_iff a.timestamp b.timestamp).0 s in
    let chain_eq = bytes_eq→eq a.chain_id b.chain_id c in
    λ d. record {
      type = type_eq d;
      height = height_eq d;
      round = round_eq d;
      pol_round = pol_eq d;
      block_id = id_eq d;
      timestamp = time_eq d;
      chain_id = chain_eq d;
    }
