-- ===== src/Commits/Tests.antt =====
-- The theorems about the verification of commits at concrete inputs: three voters of one weight.
use ostracon.Prelude.{
  ℕ, zero, suc, ap, get_elem?, ◌*◌, ◌/◌, ◌<◌, ◌≡◌, ◌↔◌, refl, true, false, List, [], ◌∷◌, Option,
  none, some, arith, Bytes, replicate,
}
use ostracon.Prelude.Int.{pos}
use ostracon.Prelude.Run.{ok}
use ostracon.Types.BlockId.{BlockId, block_id_invalid, is_zero}
use ostracon.Types.Canonical.{canonicalize_vote}
use ostracon.Types.Commit.{CommitSig, Commit, absent_sig, for_block, flag_commit, sig_block_id}
use ostracon.Votes.Voters.{VoterSet, get_by_address, get_total_voting_weight}
use ostracon.Votes.VoteSet.{Crypto}
use ostracon.Commits.Slot.{
  verify_or_collect, get_signature_key, Bls, composite_key, bls_key, other_key, commit_sign_bytes,
}
use ostracon.Commits.Verify.{
  verify_commit, verify_commit_light, verify_commit_light_trusting, trusting_slots, seen_at,
  count_slot, finish,
}
use ostracon.Commits.Sums.{safe_mul, quot_int64, add_int64, gt_int64}
use ostracon.Commits.Trusting.{Trusted, verify_commit_light_trusting_sound}
use ostracon.Commits.Accepted.{Holds, verify_commit_iff}
use ostracon.Commits.Negative.{verify_commit_light_trusting-negative}
use ostracon.Commits.Repeated.{verify_commit_light-repeats}

abbrev toy_crypto : Crypto
toy_crypto = record {
  marshal_header = λ h. h.total ∷ h.hash;
  marshal_vote = λ v. some (v.type ∷ v.chain_id);
  address_of = λ k. k;
  verify_signature = λ k m s. true;
}

abbrev toy_bls : Bls
toy_bls = record {
  decode_key = λ k. composite_key (bls_key k) other_key;
  hash = λ m. m;
  is_signature = λ s. true;
  is_key = λ k. true;
  verify_hashes = λ s ks hs. true;
}

abbrev three_voters : VoterSet
three_voters = record {
  voters =
      record { address = 1 ∷ []; pub_key = 1 ∷ []; voting_power = 10; voting_weight = 10 }
      ∷ record { address = 2 ∷ []; pub_key = 2 ∷ []; voting_power = 10; voting_weight = 10 }
      ∷ record { address = 3 ∷ []; pub_key = 3 ∷ []; voting_power = 10; voting_weight = 10 }
      ∷ [];
  total_voting_weight = 30;
}

abbrev block : BlockId
block = record { hash = replicate 32 7; parts = record { total = 1; hash = replicate 32 8 } }

abbrev slot_of : Bytes → Option Bytes → CommitSig
slot_of address sig = record {
  block_id_flag = flag_commit;
  validator_address = address;
  timestamp = pos 4;
  signature = sig;
}

-- One signature left out, and two of the voters' own.
abbrev good_commit : Commit
good_commit = record {
  height = pos 5;
  round = pos 0;
  block_id = block;
  signatures =
      slot_of (1 ∷ []) none
      ∷ slot_of (2 ∷ []) (some (6 ∷ []))
      ∷ slot_of (3 ∷ []) (some (6 ∷ []))
      ∷ [];
  aggregated_signature = some (9 ∷ []);
}

abbrev repeated_commit : Commit
repeated_commit = record {
  height = pos 5;
  round = pos 0;
  block_id = block;
  signatures = replicate 3 (slot_of (2 ∷ []) (some (6 ∷ [])));
  aggregated_signature = none;
}

second_found :
    get_by_address three_voters (2 ∷ [])
    ≡ some (1, record { address = 2 ∷ []; pub_key = 2 ∷ []; voting_power = 10; voting_weight = 10 })
unfolding get_by_address ostracon.Prelude.Slices.bytes_eq
second_found = refl

repeated_signed : commit_sign_bytes toy_crypto (9 ∷ []) repeated_commit 0 ≡ ok (2 ∷ 9 ∷ [])
unfolding commit_sign_bytes canonicalize_vote sig_block_id block_id_invalid is_zero
repeated_signed = refl

verify_commit_iff_example :
    (verify_commit toy_crypto toy_bls three_voters (9 ∷ []) block (pos 5) good_commit
      ≡ ok (three_voters, none))
    ↔ Holds toy_crypto toy_bls three_voters (9 ∷ []) block (pos 5) good_commit
verify_commit_iff_example =
    verify_commit_iff toy_crypto toy_bls three_voters (9 ∷ []) block (pos 5) good_commit refl
      (omega arith) (omega arith)

verify_commit_light-repeats_example :
    verify_commit_light toy_crypto toy_bls three_voters (9 ∷ []) block (pos 5) repeated_commit
    ≡ ok (three_voters, none)
verify_commit_light-repeats_example =
    verify_commit_light-repeats toy_crypto toy_bls three_voters (9 ∷ []) block (pos 5)
      repeated_commit (slot_of (2 ∷ []) (some (6 ∷ []))) 1
      (record { address = 2 ∷ []; pub_key = 2 ∷ []; voting_power = 10; voting_weight = 10 })
      (2 ∷ 9 ∷ []) (6 ∷ []) refl refl refl refl second_found refl repeated_signed refl (omega arith)
      (omega arith) (omega arith) (omega arith) (omega arith)

trusting_accepts :
    verify_commit_light_trusting toy_crypto toy_bls three_voters (9 ∷ []) good_commit 1 3
    ≡ ok (three_voters, none)
unfolding verify_commit_light_trusting get_total_voting_weight safe_mul quot_int64 trusting_slots
    get_by_address ostracon.Prelude.Slices.bytes_eq seen_at count_slot commit_sign_bytes
    sig_block_id canonicalize_vote block_id_invalid is_zero verify_or_collect get_signature_key
    gt_int64 add_int64 finish
trusting_accepts = refl

sig_of : {a b : CommitSig} → ◌≡◌ {A = Option CommitSig} (some a) (some b) → b ≡ a
sig_of e = cc

-- A commit that nobody signed.
abbrev absent_commit : Commit
absent_commit = record good_commit {
  signatures = replicate 3 absent_sig;
  aggregated_signature = none;
}

absent_slots :
    (j : ℕ) (cs : CommitSig) → get_elem? absent_commit.signatures j ≡ some cs → for_block cs ≡ false
absent_slots zero cs e = ap for_block (sig_of e)
absent_slots (suc zero) cs e = ap for_block (sig_of e)
absent_slots (suc (suc zero)) cs e = ap for_block (sig_of e)
absent_slots (suc (suc (suc j))) cs e = ground arith

verify_commit_light_trusting-negative_example :
    verify_commit_light_trusting toy_crypto toy_bls three_voters
      (9 ∷ [])
      absent_commit
      1
      18446744073709551615
    ≡ ok (three_voters, none)
verify_commit_light_trusting-negative_example =
    verify_commit_light_trusting-negative toy_crypto toy_bls three_voters (9 ∷ []) absent_commit
      18446744073709551615 (omega arith) (omega arith) (omega arith) (omega arith) (omega arith)
      absent_slots refl

verify_commit_light_trusting_sound_example :
    Trusted toy_crypto toy_bls
      (9 ∷ [])
      good_commit
      three_voters
      (three_voters.total_voting_weight * 1 / 3)
verify_commit_light_trusting_sound_example =
    verify_commit_light_trusting_sound toy_crypto toy_bls (9 ∷ []) good_commit three_voters 1 3 refl
      (omega arith) (omega arith) (omega arith) (omega arith) trusting_accepts
