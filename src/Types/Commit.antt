-- ===== src/Types/Commit.antt =====
-- CommitSig and Commit of types/block.go. A timestamp counts from the zero time. The memoized hash and
-- bit array of a commit are left out.
use ostracon.Prelude.{
  ℕ, suc, ◌≡◌, refl, inl, inr, Bool, true, false, not, ◌&&◌, List, [], ◌∷◌, Option, none, some,
  arith, Bytes, length, ltb, ◌==◌, if◌then◌else◌, Bool-cases, &&_elim,
}
use ostracon.Prelude.Int.{ℤ, pos, ltb_ℤ, eqb_ℤ}
use ostracon.Prelude.Run.{Run, ok, panic}
use ostracon.Types.BlockId.{BlockId, is_zero, header_is_zero, is_complete, zero_block_id}
use ostracon.Types.Vote.{Vote, contents, address_size_bytes}

-- BlockIDFlag
abbrev pub flag_absent : ℕ
flag_absent = 1

abbrev pub flag_commit : ℕ
flag_commit = 2

abbrev pub flag_nil : ℕ
flag_nil = 3

pub record CommitSig : Type 0 where
  pub block_id_flag : ℕ
  pub validator_address : Bytes
  pub timestamp : ℤ
  pub signature : Option Bytes

pub record Commit : Type 0 where
  pub height : ℤ
  pub round : ℤ
  pub block_id : BlockId
  pub signatures : List CommitSig
  pub aggregated_signature : Option Bytes

pub data InvalidCommit : Type 0 where
  unknown_flag address_present time_present signature_present : InvalidCommit
  wrong_address_size too_big_signature : InvalidCommit
  commit_negative_height commit_negative_round commit_for_nil no_signatures : InvalidCommit
  no_aggregate no_erased aggregate_too_big : InvalidCommit

abbrev pub absent_sig : CommitSig
absent_sig = record {
  block_id_flag = flag_absent;
  validator_address = [];
  timestamp = pos 0;
  signature = none;
}

abbrev pub for_block : CommitSig → Bool
for_block cs = cs.block_id_flag == flag_commit

abbrev pub is_absent : CommitSig → Bool
is_absent cs = cs.block_id_flag == flag_absent

-- CommitSig.BlockID
unfoldable pub sig_block_id : CommitSig → BlockId → Run BlockId
sig_block_id cs commit_id =
    if cs.block_id_flag == flag_absent
    then ok zero_block_id
    else if cs.block_id_flag == flag_commit
    then ok commit_id
    else if cs.block_id_flag == flag_nil
    then ok zero_block_id
    else panic

-- CommitSig.ValidateBasic, with MaxSignatureSize as an argument.
unfoldable pub sig_validate_basic : ℕ → CommitSig → Option InvalidCommit
sig_validate_basic max_signature cs =
    if not (cs.block_id_flag == flag_absent)
      && (not (cs.block_id_flag == flag_commit) && not (cs.block_id_flag == flag_nil))
    then some unknown_flag
    else if cs.block_id_flag == flag_absent
    then (if not (length cs.validator_address == 0)
        then some address_present
        else if not (eqb_ℤ cs.timestamp (pos 0))
        then some time_present
        else if not (length (contents cs.signature) == 0)
        then some signature_present
        else none)
    else if not (length cs.validator_address == address_size_bytes)
    then some wrong_address_size
    else if ltb max_signature (length (contents cs.signature))
    then some too_big_signature
    else none

-- Vote.CommitSig, where `none` is the nil vote.
unfoldable pub commit_sig : Option Vote → Run CommitSig
commit_sig none = ok absent_sig
commit_sig (some v) =
    let signed : ℕ → Run CommitSig = λ flag. ok (record {
      block_id_flag = flag;
      validator_address = v.validator_address;
      timestamp = v.timestamp;
      signature = v.signature;
    }) in
    if is_complete v.block_id
    then signed flag_commit
    else if is_zero v.block_id
    then signed flag_nil
    else panic

unfoldable pub new_commit : ℤ → ℤ → BlockId → List CommitSig → Commit
new_commit height round id sigs = record {
  height = height;
  round = round;
  block_id = id;
  signatures = sigs;
  aggregated_signature = none;
}

-- The first error of the signatures.
unfoldable pub sigs_validate : ℕ → List CommitSig → Option InvalidCommit
unfolding sig_validate_basic
sigs_validate max_signature [] = none
sigs_validate max_signature (cs ∷ sigs) =
    let rest = sigs_validate max_signature sigs in
    elim (sig_validate_basic max_signature cs) [ some e ↦ some e | none ↦ rest ]

-- The number of signatures that were left out.
unfoldable pub omitted : List CommitSig → ℕ
omitted [] = 0
omitted (cs ∷ sigs) =
    let rest = omitted sigs in
    elim cs.signature [ some sig ↦ rest | none ↦ if is_absent cs then rest else suc rest ]

unfoldable pub commit_validate_basic : ℕ → Commit → Option InvalidCommit
unfolding sigs_validate omitted
commit_validate_basic max_signature c =
    if ltb_ℤ c.height (pos 0)
    then some commit_negative_height
    else if ltb_ℤ c.round (pos 0)
    then some commit_negative_round
    else if ltb_ℤ c.height (pos 1)
    then none
    else if is_zero c.block_id
    then some commit_for_nil
    else if length c.signatures == 0
    then some no_signatures
    else elim (sigs_validate max_signature c.signatures) [
      | some e ↦ some e
      | none ↦ elim c.aggregated_signature [
        | none ↦ if ltb 0 (omitted c.signatures) then some no_aggregate else none
        | some a ↦
            if omitted c.signatures == 0
            then some no_erased
            else if ltb max_signature (length a)
            then some aggregate_too_big
            else none
      ]
    ]

nil_of_length : (b : Bytes) → (length b == 0) ≡ true → b ≡ []
nil_of_length [] h = refl
nil_of_length (x ∷ b) h = ground arith

is_zero→eq : (b : BlockId) → is_zero b ≡ true → b ≡ zero_block_id
unfolding is_zero header_is_zero
is_zero→eq b h =
    let (hash, parts) = &&_elim {a = length b.hash == 0} {b = header_is_zero b.parts} h in
    let (total, inner) = &&_elim {a = b.parts.total == 0} {b = length b.parts.hash == 0} parts in
    let hash_eq = nil_of_length b.hash hash in
    let inner_eq = nil_of_length b.parts.hash inner in
    let total_eq : b.parts.total ≡ 0 = ground arith in
    λ i. record { hash = hash_eq i; parts = record { total = total_eq i; hash = inner_eq i } }

-- The commit signature of a vote, where making it does not panic, is not absent, and is for the block
-- exactly where the block identifier of the vote is complete; in a commit for any block it stands for
-- the block of the commit then, and for no block otherwise; in a commit for the block of the vote it
-- stands for that, also where the vote is for nil.
pub commit_sig-block_id :
    (v : Vote) (cs : CommitSig) (b : BlockId)
    → commit_sig (some v) ≡ ok cs
    → (is_absent cs ≡ false)
      × (for_block cs ≡ is_complete v.block_id)
      × (sig_block_id cs b ≡ ok (if is_complete v.block_id then b else zero_block_id))
      × (sig_block_id cs v.block_id ≡ ok v.block_id)
unfolding commit_sig sig_block_id
commit_sig-block_id v cs b h = elim (Bool-cases (is_complete v.block_id)) [
  | inl t ↦ ground arith
  | inr n ↦ elim (Bool-cases (is_zero v.block_id)) [
    | inl z ↦ let eq = is_zero→eq v.block_id z in ground arith
    | inr nz ↦ ground arith
  ]
]
