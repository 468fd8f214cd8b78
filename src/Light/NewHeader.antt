-- ===== src/Light/NewHeader.antt =====
-- What the tests of a new header show: verifyNewHeaderAndValsAndVoters and SignedHeader.ValidateBasic.
use ostracon.Prelude.{
  ◌≡◌, inl, inr, refl, sym, ap, ◌∙◌, Bool, true, false, not, List, Option, none, some, arith, Bytes,
  bytes_eq, bytes_eq→eq, Option-cases, if◌then◌else◌,
}
use ostracon.Prelude.Int.{ℤ, ltb_ℤ, eqb_ℤ, eqb_ℤ_iff, ◌+ℤ◌}
use ostracon.Prelude.Run.{Run, ok}
use ostracon.Types.Header.{
  SignedHeader, InvalidHeader, header_validate_basic, header_hash, signed_header_validate_basic,
  another_chain, height_mismatch, other_block, missing_commit, invalid_commit,
}
use ostracon.Types.Commit.{Commit, InvalidCommit, commit_validate_basic}
use ostracon.Votes.Voters.{Voter, VoterSet}
use ostracon.Light.Verifier.{
  Calls, LightError, InvalidNewHeader, not_basic, not_higher, not_later, from_the_future,
  other_validators, other_voters, validators_hash_of, voters_hash_of, verify_new_header,
}

-- The tests that a chain of them passes where it returns no error.
pub passed {ℓ} :
    {E : Type ℓ} (b : Bool) (x : E) {rest : Option E}
    → (if not b then some x else rest) ≡ none
    → (b ≡ true) × (rest ≡ none)
passed true x e = (refl, e)
passed false x e = cc

pub passed_run :
    (b : Bool) (x : LightError) {rest : Run (Option LightError)}
    → (if not b then ok (some x) else rest) ≡ ok none
    → (b ≡ true) × (rest ≡ ok none)
passed_run true x e = (refl, e)
passed_run false x e = cc

pub avoided_run :
    (b : Bool) (x : LightError) {rest : Run (Option LightError)}
    → (if b then ok (some x) else rest) ≡ ok none
    → (b ≡ false) × (rest ≡ ok none)
avoided_run false x e = (refl, e)
avoided_run true x e = cc

module _ (c : Calls) where
  -- A signed header that is valid for a chain has a commit for its height and its hash.
  pub record ForChain (new : SignedHeader) (chain : Bytes) : Type 0 where
    pub commit : Commit
    pub present : new.commit ≡ some commit
    pub same_chain : new.head.chain_id ≡ chain
    pub same_height : commit.height ≡ new.head.height
    pub same_block : header_hash c.sum c.encodings new.head ≡ commit.block_id.hash

  signed_header-ForChain :
      (new : SignedHeader) (chain : Bytes)
      → signed_header_validate_basic c.sum c.encodings c.proof_size c.max_signature new chain ≡ none
      → ForChain new chain
  unfolding signed_header_validate_basic
  signed_header-ForChain new chain e = elim (Option-cases new.commit) [
    | inl missing ↦
        let both : some missing_commit ≡ none = sym (ap after_commit missing) ∙ e in
        absurd (ground arith)
    | inr (commit, here) ↦
        let e1 = sym (ap after_commit here) ∙ e in
        elim (Option-cases (header_validate_basic c.proof_size new.head)) [
          | inr (x, bad) ↦
              let both : some x ≡ none = sym (ap (after_header commit) bad) ∙ e1 in
              absurd (ground arith)
          | inl good ↦
              let e2 = sym (ap (after_header commit) good) ∙ e1 in
              elim (Option-cases (commit_validate_basic c.max_signature commit)) [
                | inr (x, bad) ↦
                    let both : some (invalid_commit x) ≡ none =
                      sym (ap (after_check commit) bad) ∙ e2 in
                    absurd (ground arith)
                | inl fine ↦
                    let (chains, e3) =
                      passed (bytes_eq new.head.chain_id chain) another_chain
                        (sym (ap (after_check commit) fine) ∙ e2) in
                    let (heights, e4) =
                      passed (eqb_ℤ commit.height new.head.height) height_mismatch e3 in
                    let (blocks, _) =
                      passed
                        (bytes_eq (header_hash c.sum c.encodings new.head) commit.block_id.hash)
                        other_block e4 in
                    record {
                      commit = commit;
                      present = here;
                      same_chain = bytes_eq→eq _ _ chains;
                      same_height = (eqb_ℤ_iff commit.height new.head.height).0 heights;
                      same_block = bytes_eq→eq _ _ blocks;
                    }
              ]
        ]
  ]
    where
      after_check : Commit → Option InvalidCommit → Option InvalidHeader
      after_check commit (some x) = some (invalid_commit x)
      after_check commit none =
          if not (bytes_eq new.head.chain_id chain)
          then some another_chain
          else if not (eqb_ℤ commit.height new.head.height)
          then some height_mismatch
          else if not (bytes_eq (header_hash c.sum c.encodings new.head) commit.block_id.hash)
          then some other_block
          else none

      after_header : Commit → Option InvalidHeader → Option InvalidHeader
      after_header commit (some x) = some x
      after_header commit none = after_check commit (commit_validate_basic c.max_signature commit)

      after_commit : Option Commit → Option InvalidHeader
      after_commit none = some missing_commit
      after_commit (some commit) = after_header commit (header_validate_basic c.proof_size new.head)

  -- What the tests of a new header against the trusted one have shown.
  pub record NewHeader (trusted new : SignedHeader) (vals : List Voter) (voters : VoterSet)
      (now drift : ℤ) : Type 0 where
    pub higher : ltb_ℤ trusted.head.height new.head.height ≡ true
    pub later : ltb_ℤ trusted.head.time new.head.time ≡ true
    pub not_future : ltb_ℤ new.head.time (now +ℤ drift) ≡ true
    pub own_validators : new.head.validators_hash ≡ validators_hash_of c vals
    pub own_voters : new.head.voters_hash ≡ voters_hash_of c voters
    pub for_chain : ForChain new trusted.head.chain_id

  pub verify_new_header-NewHeader :
      (trusted new : SignedHeader) (vals : List Voter) (voters : VoterSet) (now drift : ℤ)
      → verify_new_header c new vals voters trusted now drift ≡ none
      → NewHeader trusted new vals voters now drift
  unfolding verify_new_header
  verify_new_header-NewHeader trusted new vals voters now drift e = elim (Option-cases basic) [
    | inr (x, bad) ↦
        let both : some (not_basic x) ≡ none = sym (ap after_basic bad) ∙ e in absurd (ground arith)
    | inl good ↦
        let (higher, e1) =
          passed (ltb_ℤ trusted.head.height new.head.height) not_higher
            (sym (ap after_basic good) ∙ e) in
        let (later, e2) = passed (ltb_ℤ trusted.head.time new.head.time) not_later e1 in
        let (not_future, e3) = passed (ltb_ℤ new.head.time (now +ℤ drift)) from_the_future e2 in
        let (own, e4) =
          passed (bytes_eq new.head.validators_hash (validators_hash_of c vals)) other_validators
            e3 in
        let (own_voters, _) =
          passed (bytes_eq new.head.voters_hash (voters_hash_of c voters)) other_voters e4 in
        record {
          higher = higher;
          later = later;
          not_future = not_future;
          own_validators = bytes_eq→eq _ _ own;
          own_voters = bytes_eq→eq _ _ own_voters;
          for_chain = signed_header-ForChain new trusted.head.chain_id good;
        }
  ]
    where
      basic : Option InvalidHeader
      basic =
          signed_header_validate_basic c.sum c.encodings c.proof_size c.max_signature new
            trusted.head.chain_id

      after_basic : Option InvalidHeader → Option InvalidNewHeader
      after_basic (some x) = some (not_basic x)
      after_basic none =
          if not (ltb_ℤ trusted.head.height new.head.height)
          then some not_higher
          else if not (ltb_ℤ trusted.head.time new.head.time)
          then some not_later
          else if not (ltb_ℤ new.head.time (now +ℤ drift))
          then some from_the_future
          else if not (bytes_eq new.head.validators_hash (validators_hash_of c vals))
          then some other_validators
          else if not (bytes_eq new.head.voters_hash (voters_hash_of c voters))
          then some other_voters
          else none
