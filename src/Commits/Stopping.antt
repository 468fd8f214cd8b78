-- ===== src/Commits/Stopping.antt =====
-- One signature of a loop that stops when the weight is enough.
use ostracon.Prelude.{
  ℕ, ◌+◌, ◌<◌, ◌≡◌, ap, ap₂, ◌∙◌, Bool, true, false, ◌⊎◌, inl, inr, List, [], ◌∷◌, ◌++◌, none, some,
  sym, Bool-cases, Option-cases, arith, Bytes, ltb,
}
use ostracon.Prelude.Run.{Run, ok, ◌>>=◌, >>=-returns}
use ostracon.Types.Commit.{CommitSig, Commit}
use ostracon.Votes.Voters.{Voter}
use ostracon.Votes.VoteSet.{Crypto}
use ostracon.Commits.Sums.{two_63, add_int64, add_int64-small, gt_int64, gt_int64-small}
use ostracon.Commits.Slot.{
  Bls, CommitError, wrong_signature, omitted_signature, get_signature_key, commit_sign_bytes,
  verify_or_collect,
}
use ostracon.Commits.Verify.{Counts, Outcome, failed, enough, count_slot}

ok_end : {a : Outcome} {b : Outcome} → ok a ≡ ok b → b ≡ a
ok_end e = cc

module _ (c : Crypto) (bls : Bls) (chain : Bytes) (commit : Commit) (needed : ℕ) where
  -- What follows the test of a slot.
  abbrev after_check :
      Counts
      → (Counts → Run Outcome)
      → CommitError ⊎ (ℕ × ℕ × List Bytes × List Bytes)
      → Run Outcome
  after_check n next (inl e) = ok (failed e)
  after_check n next (inr (w, u, keys, messages)) =
      let n' : Counts = record {
        tallied = add_int64 n.tallied w;
        unverified = add_int64 n.unverified u;
        keys = keys;
        messages = messages;
      } in
      elim (gt_int64 n'.tallied needed) [ true ↦ ok enough | false ↦ next n' ]

  -- A slot whose test succeeds.
  pub count_slot-step :
      (v : Voter) (i : ℕ) (cs : CommitSig) (n : Counts) (next : Counts → Run Outcome)
      {bytes : Bytes} {keys messages : List Bytes} {w u : ℕ}
      → commit_sign_bytes c chain commit i ≡ ok bytes
      → verify_or_collect c bls i cs v bytes n.keys n.messages ≡ inr (w, u, keys, messages)
      → n.tallied + w < two_63
      → n.unverified + u < two_63
      → needed < two_63
      → count_slot c bls chain commit needed i cs v n next ≡ elim (ltb needed (n.tallied + w)) [
        | true ↦ ok enough
        | false ↦ next (record {
          tallied = n.tallied + w;
          unverified = n.unverified + u;
          keys = keys;
          messages = messages;
        })
      ]
  unfolding count_slot
  count_slot-step v i cs n next {keys} {messages} {w} {u} said checked fits fits_too small =
      let sum = add_int64-small n.tallied w (omega (arith, fits)) in
      let left = add_int64-small n.unverified u (omega (arith, fits_too)) in
      ap (λ r. r >>= after_bytes) said
      ∙ (ap (after_check n next) checked
          ∙ (ap₂ stop
              (ap (λ (t : ℕ). gt_int64 t needed) sum
                ∙ gt_int64-small (n.tallied + w) needed fits small)
              (λ k. record {
                tallied = sum k;
                unverified = left k;
                keys = keys;
                messages = messages;
              })))
    where
      after_bytes : Bytes → Run Outcome
      after_bytes b = after_check n next (verify_or_collect c bls i cs v b n.keys n.messages)

      stop : Bool → Counts → Run Outcome
      stop b n' = elim b [ true ↦ ok enough | false ↦ next n' ]

  pub count_slot-own :
      (v : Voter) (i : ℕ) (cs : CommitSig) (n : Counts) (next : Counts → Run Outcome)
      (bytes sig : Bytes)
      → commit_sign_bytes c chain commit i ≡ ok bytes
      → cs.signature ≡ some sig
      → c.verify_signature v.pub_key bytes sig ≡ true
      → n.tallied + v.voting_weight < two_63
      → n.unverified < two_63
      → needed < two_63
      → count_slot c bls chain commit needed i cs v n next
        ≡ elim (ltb needed (n.tallied + v.voting_weight)) [
          | true ↦ ok enough
          | false ↦ next (record n { tallied = n.tallied + v.voting_weight })
        ]
  unfolding verify_or_collect
  count_slot-own v i cs n next bytes sig said here good fits fits_too small =
      let left : n.unverified + 0 ≡ n.unverified = omega arith in
      count_slot-step v i cs n next said checked fits (omega (arith, fits_too)) small
      ∙ ap
          (λ (u : ℕ). elim (ltb needed (n.tallied + v.voting_weight)) [
            | true ↦ ok enough
            | false ↦ next (record n { tallied = n.tallied + v.voting_weight; unverified = u })
          ])
          left
    where
      checked :
          verify_or_collect c bls i cs v bytes n.keys n.messages
          ≡ inr (v.voting_weight, 0, n.keys, n.messages)
      checked = ground arith

  pub count_slot-left :
      (v : Voter) (i : ℕ) (cs : CommitSig) (n : Counts) (next : Counts → Run Outcome)
      (bytes key : Bytes)
      → commit_sign_bytes c chain commit i ≡ ok bytes
      → cs.signature ≡ none
      → get_signature_key (bls.decode_key v.pub_key) ≡ some key
      → n.tallied < two_63
      → n.unverified + v.voting_weight < two_63
      → needed < two_63
      → count_slot c bls chain commit needed i cs v n next ≡ elim (ltb needed (n.tallied + 0)) [
        | true ↦ ok enough
        | false ↦ next (record {
          tallied = n.tallied + 0;
          unverified = n.unverified + v.voting_weight;
          keys = n.keys ++ (key ∷ []);
          messages = n.messages ++ (bytes ∷ []);
        })
      ]
  unfolding verify_or_collect
  count_slot-left v i cs n next bytes key said gone found fits fits_too small =
      count_slot-step v i cs n next said checked (omega (arith, fits)) fits_too small
    where
      checked :
          verify_or_collect c bls i cs v bytes n.keys n.messages
          ≡ inr (0, v.voting_weight, n.keys ++ (key ∷ []), n.messages ++ (bytes ∷ []))
      checked = ground arith

  -- What a slot that is counted changes, and whether by a signature of its own.
  pub data Change (v : Voter) (i : ℕ) (cs : CommitSig) (n : Counts) : Bool → Counts → Type 0 where
    own_change :
        (bytes sig : Bytes)
        → commit_sign_bytes c chain commit i ≡ ok bytes
        → cs.signature ≡ some sig
        → c.verify_signature v.pub_key bytes sig ≡ true
        → Change v i cs n true (record n { tallied = n.tallied + v.voting_weight })
    left_change :
        (bytes key : Bytes)
        → commit_sign_bytes c chain commit i ≡ ok bytes
        → cs.signature ≡ none
        → get_signature_key (bls.decode_key v.pub_key) ≡ some key
        → Change v i cs n false (record {
          tallied = n.tallied + 0;
          unverified = n.unverified + v.voting_weight;
          keys = n.keys ++ (key ∷ []);
          messages = n.messages ++ (bytes ∷ []);
        })

  -- A slot that is counted with no failure changes the counts; then there is enough weight, or the
  -- rest of the loop follows.
  pub count_slot-inv :
      (v : Voter) (i : ℕ) (cs : CommitSig) (n : Counts) (next : Counts → Run Outcome)
      (end : Outcome)
      → n.tallied + v.voting_weight < two_63
      → n.unverified + v.voting_weight < two_63
      → needed < two_63
      → count_slot c bls chain commit needed i cs v n next ≡ ok end
      → ((e : CommitError) × (end ≡ failed e))
        ⊎ ((own : Bool) × (n' : Counts) × Change v i cs n own n'
            × (((end ≡ enough) × (needed < n'.tallied)) ⊎ (next n' ≡ ok end)))
  unfolding count_slot verify_or_collect
  count_slot-inv v i cs n next end fits fits_too small e =
      let (bytes, said, e') = >>=-returns (commit_sign_bytes c chain commit i) after_bytes e in
      elim (Option-cases cs.signature) [
        | inr (sig, here) ↦ elim (Bool-cases (c.verify_signature v.pub_key bytes sig)) [
          | inr bad ↦ inl (
            wrong_signature i,
            ok_end (sym (ap (after_check n next) (bad_signature bytes sig here bad)) ∙ e'),
          )
          | inl good ↦ inr (
            true,
            _,
            own_change bytes sig said here good,
            decide (n.tallied + v.voting_weight) _ (
                sym (
                  count_slot-own v i cs n next bytes sig said here good fits
                    (omega (arith, fits_too)) small)
                ∙ e),
          )
        ]
        | inl gone ↦ elim (Option-cases (get_signature_key (bls.decode_key v.pub_key))) [
          | inl no_key ↦ inl (
            omitted_signature i,
            ok_end (sym (ap (after_check n next) (no_bls_key bytes gone no_key)) ∙ e'),
          )
          | inr (k, found) ↦ inr (
            false,
            _,
            left_change bytes k said gone found,
            decide (n.tallied + 0) _ (
                sym (
                  count_slot-left v i cs n next bytes k said gone found (omega (arith, fits))
                    fits_too small)
                ∙ e),
          )
        ]
      ]
    where
      after_bytes : Bytes → Run Outcome
      after_bytes b = after_check n next (verify_or_collect c bls i cs v b n.keys n.messages)

      stop : Counts → Bool → Run Outcome
      stop n' true = ok enough
      stop n' false = next n'

      bad_signature :
          (bytes sig : Bytes)
          → cs.signature ≡ some sig
          → c.verify_signature v.pub_key bytes sig ≡ false
          → verify_or_collect c bls i cs v bytes n.keys n.messages ≡ inl (wrong_signature i)
      bad_signature bytes sig here bad = ground arith

      no_bls_key :
          (bytes : Bytes)
          → cs.signature ≡ none
          → get_signature_key (bls.decode_key v.pub_key) ≡ none
          → verify_or_collect c bls i cs v bytes n.keys n.messages ≡ inl (omitted_signature i)
      no_bls_key bytes gone no_key = ground arith

      decide :
          (t : ℕ) (n' : Counts)
          → elim (ltb needed t) as (λ _. Run Outcome) [ true ↦ ok enough | false ↦ next n' ]
            ≡ ok end
          → ((end ≡ enough) × (needed < t)) ⊎ (next n' ≡ ok end)
      decide t n' h = elim (Bool-cases (ltb needed t)) [
        | inl more ↦ inl (ok_end (sym (ap (stop n') more) ∙ h), ground arith)
        | inr less ↦ inr (sym (ap (stop n') less) ∙ h)
      ]
