-- ===== src/Commits/Signed.antt =====
-- What the slots of a commit must hold for VerifyCommit: slot by slot with the voters.
use ostracon.Prelude.{
  ℕ, ◌+◌, ◌<◌, ◌≡◌, refl, sym, ap, ◌∙◌, true, false, ◌⊎◌, inl, inr, List, [], ◌∷◌, ◌++◌, append-nil,
  Option, none, some, arith, Bytes, get_elem?, if◌then◌else◌, Bool-cases, Option-cases,
}
use ostracon.Prelude.Run.{Run, ok, panic, ◌>>=◌, >>=-returns}
use ostracon.Types.Commit.{CommitSig, Commit, for_block, is_absent}
use ostracon.Votes.Voters.{Voter, VoterSet}
use ostracon.Votes.VoteSet.{Crypto}
use ostracon.Commits.Sums.{two_63, add_int64, add_int64-small}
use ostracon.Commits.Slot.{
  Bls, CommitError, get_signature_key, commit_sign_bytes, verify_or_collect,
}
use ostracon.Commits.Verify.{Counts, verify_slot}

abbrev checked : ℕ → ℕ → List Bytes → List Bytes → CommitError ⊎ (ℕ × ℕ × List Bytes × List Bytes)
checked w u keys messages = inr (w, u, keys, messages)

module _ (c : Crypto) (bls : Bls) (chain : Bytes) (commit : Commit) where
  -- How the voter of a slot has signed it: with a signature of its own, or with one that was left
  -- out; then its key and what it signed are in the lists.
  pub data SignedBy (v : Voter) (i : ℕ) (cs : CommitSig) : List Bytes → List Bytes → Type 0 where
    own_signature :
        (bytes sig : Bytes)
        → commit_sign_bytes c chain commit i ≡ ok bytes
        → cs.signature ≡ some sig
        → c.verify_signature v.pub_key bytes sig ≡ true
        → SignedBy v i cs [] []
    left_out :
        (bytes key : Bytes)
        → commit_sign_bytes c chain commit i ≡ ok bytes
        → cs.signature ≡ none
        → get_signature_key (bls.decode_key v.pub_key) ≡ some key
        → SignedBy v i cs (key ∷ []) (bytes ∷ [])

  -- The slots from an index on and their voters: each slot is absent or signed by its voter. The
  -- keys and messages are those of the signatures that were left out, the weight that of the voters
  -- whose slot is for the block.
  pub data Signed : ℕ → List Voter → List CommitSig → List Bytes → List Bytes → ℕ → Type 0 where
    no_slots : {i : ℕ} → Signed i [] [] [] [] 0
    absent_slot :
        {i : ℕ} {v : Voter} {vs : List Voter} {cs : CommitSig} {sigs : List CommitSig}
        {keys messages : List Bytes} {w : ℕ}
        → is_absent cs ≡ true
        → Signed (i + 1) vs sigs keys messages w
        → Signed i (v ∷ vs) (cs ∷ sigs) keys messages w
    signed_slot :
        {i : ℕ} {v : Voter} {vs : List Voter} {cs : CommitSig} {sigs : List CommitSig}
        {ks ms keys messages : List Bytes} {w : ℕ}
        → is_absent cs ≡ false
        → SignedBy v i cs ks ms
        → Signed (i + 1) vs sigs keys messages w
        → Signed i
            (v ∷ vs)
            (cs ∷ sigs)
            (ks ++ keys)
            (ms ++ messages)
            ((if for_block cs then v.voting_weight else 0) + w)

  pub verify_or_collect-SignedBy :
      {w u : ℕ} {keys' messages' : List Bytes} (v : Voter) (i : ℕ) (cs : CommitSig) (bytes : Bytes)
      (keys messages : List Bytes)
      → commit_sign_bytes c chain commit i ≡ ok bytes
      → verify_or_collect c bls i cs v bytes keys messages ≡ checked w u keys' messages'
      → (ks : List Bytes) × (ms : List Bytes) × SignedBy v i cs ks ms
  unfolding verify_or_collect
  verify_or_collect-SignedBy v i cs bytes keys messages said e = elim (Option-cases cs.signature) [
    | inr (sig, here) ↦ elim (Bool-cases (c.verify_signature v.pub_key bytes sig)) [
      | inl good ↦ ([], [], own_signature bytes sig said here good)
      | inr bad ↦ ground arith
    ]
    | inl gone ↦ elim (Option-cases (get_signature_key (bls.decode_key v.pub_key))) [
      | inl no_key ↦ ground arith
      | inr (k, key) ↦ (k ∷ [], bytes ∷ [], left_out bytes k said gone key)
    ]
  ]

  pub SignedBy-verify_or_collect :
      (v : Voter) (i : ℕ) (cs : CommitSig) (keys messages : List Bytes) {ks ms : List Bytes}
      → SignedBy v i cs ks ms
      → (bytes : Bytes) × (w : ℕ) × (u : ℕ) × (commit_sign_bytes c chain commit i ≡ ok bytes)
        × (verify_or_collect c bls i cs v bytes keys messages
            ≡ checked w u (keys ++ ks) (messages ++ ms))
        × (w + u ≡ v.voting_weight)
  unfolding verify_or_collect
  SignedBy-verify_or_collect v i cs keys messages (own_signature bytes sig said here good) = (
    bytes,
    v.voting_weight,
    0,
    said,
    rw (append-nil keys, append-nil messages) (ground arith),
    omega arith,
  )
  SignedBy-verify_or_collect v i cs keys messages (left_out bytes key said gone found) =
      (bytes, 0, v.voting_weight, said, ground arith, omega arith)

  -- What follows the test of one slot in the loop of VerifyCommit.
  abbrev after_check :
      CommitSig
      → Counts
      → (Counts → Run (CommitError ⊎ Counts))
      → CommitError ⊎ (ℕ × ℕ × List Bytes × List Bytes)
      → Run (CommitError ⊎ Counts)
  after_check cs n next (inl e) = ok (inl e)
  after_check cs n next (inr (w, u, keys, messages)) = next (record {
    tallied = if for_block cs then add_int64 n.tallied (add_int64 w u) else n.tallied;
    unverified = 0;
    keys = keys;
    messages = messages;
  })

  after_check-returns :
      (cs : CommitSig) (n : Counts) (next : Counts → Run (CommitError ⊎ Counts))
      (x : CommitError ⊎ (ℕ × ℕ × List Bytes × List Bytes)) {r : Counts}
      → after_check cs n next x ≡ ok (inr r)
      → (w : ℕ) × (u : ℕ) × (keys : List Bytes) × (messages : List Bytes) × (n' : Counts) × (x
          ≡ checked w u keys messages)
        × (next n' ≡ ok (inr r))
  after_check-returns cs n next (inl e) h = cc
  after_check-returns cs n next (inr (w, u, keys, messages)) h = (w, u, keys, messages, _, refl, h)

  pub verify_slot-inv :
      {r : Counts} (vs : VoterSet) (i : ℕ) (cs : CommitSig) (n : Counts)
      (next : Counts → Run (CommitError ⊎ Counts))
      → verify_slot c bls chain commit vs i cs n next ≡ ok (inr r)
      → (v : Voter) × (ks : List Bytes) × (ms : List Bytes) × (n' : Counts) × (get_elem? vs.voters i
          ≡ some v)
        × SignedBy v i cs ks ms
        × (next n' ≡ ok (inr r))
  unfolding verify_slot
  verify_slot-inv {r} vs i cs n next e = elim (Option-cases (get_elem? vs.voters i)) [
    | inl out ↦ ground arith
    | inr (v, here) ↦
        let (bytes, said, e') =
          >>=-returns (commit_sign_bytes c chain commit i) (after_bytes v)
            (sym (ap after_voter here) ∙ e) in
        let (w, u, keys, messages, n', is, e'') = after_check-returns cs n next _ e' in
        let (ks, ms, by) = verify_or_collect-SignedBy v i cs bytes n.keys n.messages said is in
        (v, ks, ms, n', here, by, e'')
  ]
    where
      after_bytes : Voter → Bytes → Run (CommitError ⊎ Counts)
      after_bytes v bytes =
          after_check cs n next (verify_or_collect c bls i cs v bytes n.keys n.messages)

      after_voter : Option Voter → Run (CommitError ⊎ Counts)
      after_voter none = panic
      after_voter (some v) = commit_sign_bytes c chain commit i >>= after_bytes v

  pub verify_slot-run :
      {ks ms : List Bytes} (vs : VoterSet) (v : Voter) (i : ℕ) (cs : CommitSig) (n : Counts)
      (next : Counts → Run (CommitError ⊎ Counts))
      → get_elem? vs.voters i ≡ some v
      → SignedBy v i cs ks ms
      → n.tallied + v.voting_weight < two_63
      → verify_slot c bls chain commit vs i cs n next
        ≡ next (record {
          tallied = n.tallied + (if for_block cs then v.voting_weight else 0);
          unverified = 0;
          keys = n.keys ++ ks;
          messages = n.messages ++ ms;
        })
  unfolding verify_slot
  verify_slot-run {ks} {ms} vs v i cs n next here by fits =
      let (bytes, w, u, said, is, sum) = SignedBy-verify_or_collect v i cs n.keys n.messages by in
      let tally : (if for_block cs then add_int64 n.tallied (add_int64 w u) else n.tallied)
          ≡ n.tallied + (if for_block cs then v.voting_weight else 0) =
        rw
          (
            add_int64-small w u (omega (arith, sum, fits)),
            sum,
            add_int64-small n.tallied v.voting_weight (omega (arith, fits)),
          )
          (ground arith) in
      ap after_voter here
      ∙ (ap (λ r. r >>= after_bytes) said
          ∙ (ap (after_check cs n next) is
              ∙ ap
                  (λ (t : ℕ). next (record {
                    tallied = t;
                    unverified = 0;
                    keys = n.keys ++ ks;
                    messages = n.messages ++ ms;
                  }))
                  tally))
    where
      after_bytes : Bytes → Run (CommitError ⊎ Counts)
      after_bytes bytes =
          after_check cs n next (verify_or_collect c bls i cs v bytes n.keys n.messages)

      after_voter : Option Voter → Run (CommitError ⊎ Counts)
      after_voter none = panic
      after_voter (some v') = commit_sign_bytes c chain commit i >>= λ bytes.
          after_check cs n next (verify_or_collect c bls i cs v' bytes n.keys n.messages)
