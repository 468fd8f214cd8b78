-- ===== src/Lib.antt =====
-- Verification of parts of Ostracon, a Byzantine fault tolerant consensus engine written in Go.
--
-- The parts that are modelled, and the files that model them:
--
-- - privval/file.go, the signer that keeps its last signed position in a file: Privval. State holds
--   CheckHRS and the last sign state, Sign the operations of FilePV (signVote, signProposal,
--   saveSigned, Reset, loading), History a sequence of calls with restarts. The other modules
--   prove: Votes, Proposals and Release hold the lemmas of SignVote and SignProposal, Errors the
--   error branches, Order the order of positions, Safety the sequences.
-- - crypto/merkle: Merkle. Split is getSplitPoint, Tree is HashFromByteSlices, Iterative is
--   HashFromByteSlicesIterative, Proof the inclusion proofs; Trails, Complete and Sound are about
--   them.
-- - libs/bits/bit_array.go: Bits. Word is a uint64 as its 64 bits, Array the operations; Access,
--   Sized, Copy, Combine, Reads, Complement, Empty and Full their theorems.
-- - types/block.go, part_set.go, vote.go, proposal.go, canonical.go, validation.go: Types. BlockId,
--   Vote with Proposal, Canonical with what is signed, and Commit.
-- - types/voter_set.go and types/vote_set.go: Votes. Voters and Total are the voter set and its
--   total weight; VoteSet holds blockVotes and addVerifiedVote, AddVote the methods of a vote set;
--   Tally and Tracked hold lemmas on slices of votes and on the map by block; Invariant states what
--   is always true of a vote set, and Counting, Adding, Handling and Peers prove that it is kept;
--   Quorum is about two majorities; MakeCommit makes a commit of a vote set.
-- - types/part_set.go: Parts. PartSet holds the part set and its operations, Cutting and FromData
--   are about NewPartSetFromData, Slots and Adding about AddPart, Receiving about a sequence of
--   parts, Reader about the reader of a complete set.
-- - types/voter_set.go again, with crypto/bls/bls.go: Commits. Slot is the test of one slot of a
--   commit and of the aggregate, Verify the methods VerifyCommit, VerifyCommitLight and
--   VerifyCommitLightTrusting, Sums their int64 arithmetic; Signed, VerifySlots and Accepted are
--   about VerifyCommit, Stopping and Repeated about VerifyCommitLight, Picks, Held, TrustingLoop,
--   Trusting and Negative about VerifyCommitLightTrusting.
-- - consensus/types/height_vote_set.go: Rounds. HeightVoteSet holds the methods, RoundMap lemmas on
--   the map of rounds, Kept what is always true, Adding that AddVote keeps it, Advance is about
--   SetRound, Pol about POLInfo.
-- - light/verifier.go: Light. Verifier holds the functions, on the Header of Types (types/block.go,
--   types/light.go); NewHeader and Signed say what its tests show, Accepted what Verify shows.
--
-- Prelude holds what the modules share: Boolean tests, list functions over the native numbers, byte
-- slices, signed integers, and runs that may panic. The modules called Tests apply the theorems at
-- concrete inputs.
--
-- How the parts interact: the signer checks the position of a vote or proposal of Types, signs its
-- canonical form, and stores position, sign bytes and signature before the signature leaves. A vote
-- set keeps its votes as bit arrays of Bits, by the block identifiers of Types; a height has vote
-- sets for its rounds. A commit, made of a vote set, is verified with the voters. The light client
-- checks a header, and its commit with the voters. A block travels as the parts of a part set, each
-- with a Merkle proof.
--
-- Conventions. A function that may panic returns a Run, whose other case is `ok`. An error value is
-- an Option, `none` for nil. A method that changes its receiver returns the new receiver. A slice
-- that may be nil is an Option where the difference matters. Code outside this repository is a
-- parameter: the digest SHA-256 (`sum`), the protobuf encodings, of
-- which that of a vote or proposal may fail and its caller then panics, the keys, the clock, the file
-- system. Voting weights are numbers that are not negative. Integers of 64, 32 and 8 bits that are
-- only compared and copied are ℤ without a bound. The uint32 totals of a part set, the int64 sums,
-- products and quotients of the verification of commits and the int32 round of SetRound's loop wrap
-- as the code's do.
--
-- Fuel. HashFromByteSlices and its relatives recurse on the parts of a split list; the fuel is the
-- length of the list, which every split makes smaller. The iterative hash makes at most as many
-- passes as there are items. The loop of SetRound takes its fuel as an argument, and `none` is
-- a loop that is still running: one step more than there are rounds to look at is enough below the
-- largest int32, and no fuel is enough there.
--
-- Not modelled: networking, storage, the application interface, cryptographic primitives, generated
-- code, printing, and so far the consensus state machine, fast sync and the client of
-- light/client.go. The mutexes are left out: a method is one step.
pub mod Prelude
pub mod Merkle
pub mod Bits
pub mod Types
pub mod Privval
pub mod Votes
pub mod Parts
pub mod Commits
pub mod Rounds
pub mod Light
