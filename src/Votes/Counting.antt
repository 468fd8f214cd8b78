-- ===== src/Votes/Counting.antt =====
-- Counting a vote keeps a vote set consistent, and its majority.
use ostracon.Prelude.{
  ℕ, ◌+◌, ◌≤◌, ◌≡◌, ◌⊎◌, refl, sym, ap, ◌∙◌, subst, not, ◌&&◌, List, Option, none, some, arith,
  Bytes, bytes_eq, bytes_eq→eq, length, get_elem?, set, get_elem?-lt, ltb, leb, Bool-cases, &&_elim,
  inl, inr,
}
use ostracon.Prelude.Run.{ok}
use ostracon.Types.BlockId.{BlockId, key}
use ostracon.Types.Vote.{Vote}
use ostracon.Votes.Voters.{Voter}
use ostracon.Votes.Total.{weights}
use ostracon.Votes.VoteSet.{
  Crypto, BlockVotes, VoteSet, lookup, insert, is_some, add_to_block, quorum_of, tally,
}
use ostracon.Votes.Tally.{
  Slots, Covered-length, Covered-set_left, weigh-set_empty, copy_votes-Covered, Covered-refl,
}
use ostracon.Votes.Tracked.{AllValues-insert, AllValues-map, lookup-insert_self, lookup-insert_ne}
use ostracon.Prelude.{get_elem?-in}
use ostracon.Bits.Sized.{BitsFor-set_index}
use ostracon.Votes.Invariant.{BlockOk, IsConsistent, vote_at-ok}

add_to_block-BlockOk :
    (voters : List Voter) (votes : Slots) (bv : BlockVotes) (vote : Vote) (i : ℕ) {voter : Voter}
    {y : Vote}
    → BlockOk voters votes bv
    → get_elem? voters i ≡ some voter
    → get_elem? votes i ≡ some (some y)
    → (bv' : BlockVotes) × (add_to_block bv vote i voter.voting_weight ≡ ok bv')
      × BlockOk voters votes bv'
      × (bv.sum ≤ bv'.sum)
unfolding add_to_block
add_to_block-BlockOk voters votes bv vote i {voter} {y} h here filled =
    let same = Covered-length bv.votes votes h.covered in
    let lt = get_elem?-lt votes i filled in
    let (o, at) = get_elem?-in bv.votes i (omega (arith, same, lt)) in by_slot o at
  where
    by_slot :
        (o : Option Vote)
        → get_elem? bv.votes i ≡ some o
        → (bv' : BlockVotes) × (add_to_block bv vote i voter.voting_weight ≡ ok bv')
          × BlockOk voters votes bv'
          × (bv.sum ≤ bv'.sum)
    by_slot (some e) at = (bv, rw (vote_at-ok bv.votes i at) refl, h, omega arith)
    by_slot none at =
        let (bits, run, ok_bits) =
          BitsFor-set_index (length voters) bv.bit_array i h.bits (get_elem?-lt voters i here) in
        let more = weigh-set_empty voters bv.votes i vote here at in
        let counted = h.counted in
        (
          record bv {
            bit_array = bits;
            votes = set bv.votes i (some vote);
            sum = bv.sum + voter.voting_weight;
          },
          rw (vote_at-ok bv.votes i at) (rw run refl),
          record {
            bits = ok_bits;
            covered = Covered-set_left bv.votes votes i vote h.covered filled;
            counted = omega (arith, more, counted);
          },
          omega arith,
        )

-- A block with a quorum still has one where another entry is put in, or its own with a larger sum.
pub majority-insert :
    (m : List (Bytes × BlockVotes)) (k : Bytes) (bv bv' : BlockVotes) (q : ℕ) (kb : Bytes)
    (bv0 : BlockVotes)
    → (lookup k m ≡ some bv) ⊎ (lookup k m ≡ none)
    → bv.sum ≤ bv'.sum
    → lookup kb m ≡ some bv0
    → q ≤ bv0.sum
    → (bv1 : BlockVotes) × (lookup kb (insert k bv' m) ≡ some bv1) × (q ≤ bv1.sum)
majority-insert m k bv bv' q kb bv0 known grows look enough = elim (Bool-cases (bytes_eq kb k)) [
  | inr n ↦ (bv0, lookup-insert_ne k kb bv' m n ∙ look, enough)
  | inl e ↦
      let same : kb ≡ k = bytes_eq→eq kb k e in
      let at : lookup k m ≡ some bv0 = subst (λ t. lookup t m ≡ some bv0) same look in
      (
        bv',
        subst (λ t. lookup t (insert k bv' m) ≡ some bv') (sym same) (lookup-insert_self k bv' m),
        elim known [
          | inl was ↦
              let eq : bv0 ≡ bv = ground arith in
              let sums : bv0.sum ≡ bv.sum = ap (λ (t : BlockVotes). t.sum) eq in omega arith
          | inr unseen ↦ ground arith
        ],
      )
]

module _ (c : Crypto) where
  -- What counting leaves as it is: the voters, and a majority once there is one.
  pub record Counted (s s' : VoteSet) : Type 0 where
    pub consistent : IsConsistent c s'
    pub same_voters : s'.voter_set ≡ s.voter_set
    pub same_maj23 : (b : BlockId) → s.maj23 ≡ some b → s'.maj23 ≡ some b

  pub tally-Counted :
      (s : VoteSet) (vote : Vote) (i : ℕ) (bv : BlockVotes) {voter : Voter} {y : Vote}
      → let k = key c.marshal_header vote.block_id in
        IsConsistent c s
        → get_elem? s.voter_set.voters i ≡ some voter
        → get_elem? s.votes i ≡ some (some y)
        → BlockOk s.voter_set.voters s.votes bv
        → (lookup k s.votes_by_block ≡ some bv) ⊎ (lookup k s.votes_by_block ≡ none)
        → (s' : VoteSet) × (tally c s vote i k voter.voting_weight bv ≡ ok s') × Counted s s'
  unfolding tally
  tally-Counted s vote i bv {voter} {y} h here filled good known =
      let (bv', run, good', grows) =
        add_to_block-BlockOk s.voter_set.voters s.votes bv vote i good here filled in
      by_quorum bv' run good' grows
    where
      k : Bytes
      k = key c.marshal_header vote.block_id

      by_quorum :
          (bv' : BlockVotes)
          → add_to_block bv vote i voter.voting_weight ≡ ok bv'
          → BlockOk s.voter_set.voters s.votes bv'
          → bv.sum ≤ bv'.sum
          → (s' : VoteSet) × (tally c s vote i k voter.voting_weight bv ≡ ok s') × Counted s s'
      by_quorum bv' run good' grows =
          let q = quorum_of (weights s.voter_set.voters) in
          let m = s.votes_by_block in
          let blocks' =
            AllValues-insert (BlockOk s.voter_set.voters s.votes) k bv' m h.blocks good' in
          elim (Bool-cases (ltb bv.sum q && (leb q bv'.sum && not (is_some s.maj23)))) [
            | inr n ↦ (
              record s { votes_by_block = insert k bv' m },
              rw h.total (rw run (rw n refl)),
              record {
                consistent = record {
                  some_voters = h.some_voters;
                  total = h.total;
                  sized = h.sized;
                  bits = h.bits;
                  counted = h.counted;
                  blocks = blocks';
                  majority = λ b e.
                      let (bv0, look, enough) = h.majority b e in
                      majority-insert m k bv bv' q (key c.marshal_header b) bv0 known grows look
                        enough;
                };
                same_voters = refl;
                same_maj23 = λ b e. e;
              },
            )
            | inl t ↦
                let (_, t1) =
                  &&_elim {a = ltb bv.sum q} {b = leb q bv'.sum && not (is_some s.maj23)} t in
                let (reached, unset) = &&_elim {a = leb q bv'.sum} {b = not (is_some s.maj23)} t1 in
                let (xs, copied, weight, covers) =
                  copy_votes-Covered bv'.votes s.votes good'.covered in
                (
                  record s {
                    votes_by_block = insert k bv' m;
                    maj23 = some vote.block_id;
                    votes = xs;
                  },
                  rw h.total (rw run (rw t (rw copied refl))),
                  record {
                    consistent = record {
                      some_voters = h.some_voters;
                      total = h.total;
                      sized =
                          sym (Covered-length s.votes xs (covers s.votes (Covered-refl s.votes)))
                          ∙ h.sized;
                      bits = h.bits;
                      counted = h.counted ∙ sym (weight s.voter_set.voters);
                      blocks =
                          AllValues-map (BlockOk s.voter_set.voters s.votes)
                            (BlockOk s.voter_set.voters xs) (insert k bv' m)
                            (λ v b. record {
                              bits = b.bits;
                              covered = covers v.votes b.covered;
                              counted = b.counted;
                            })
                            blocks';
                      majority = λ b e.
                          let same : vote.block_id ≡ b = ground arith in
                          (
                            bv',
                            subst (λ t. lookup (key c.marshal_header t) (insert k bv' m) ≡ some bv')
                                same (lookup-insert_self k bv' m),
                            ground arith,
                          );
                    };
                    same_voters = refl;
                    same_maj23 = λ b e. ground arith;
                  },
                )
          ]
