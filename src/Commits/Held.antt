-- ===== src/Commits/Held.antt =====
-- The voters that VerifyCommitLightTrusting has counted, and the slots that back them.
use ostracon.Prelude.{
  ℕ, ◌+◌, ◌≤◌, ◌<◌, ◌≡◌, refl, sym, ap, ◌∙◌, subst, Bool, true, false, inl, inr, List, [], ◌∷◌,
  ◌++◌, Option, none, some, arith, Bytes, bytes_eq, length, get_elem?, set, length-set,
  length-append, get_elem?-set_self, get_elem?-set_ne, get_elem?-lt, get_elem?-append_left, ◌==◌,
  Bool-cases, ◌≢◌,
}
use ostracon.Prelude.Run.{ok}
use ostracon.Types.Commit.{CommitSig, Commit, for_block}
use ostracon.Votes.Voters.{Voter, VoterSet, get_by_address}
use ostracon.Votes.Total.{weights}
use ostracon.Votes.VoteSet.{Crypto}
use ostracon.Commits.Slot.{Bls, get_signature_key, commit_sign_bytes}
use ostracon.Commits.Verify.{Counts, seen_at}
use ostracon.Commits.Stopping.{Change, own_change, left_change}
use ostracon.Commits.Picks.{Picks, weight_of, weight_of-bound, weight_of-set, find_address-found}

abbrev picked : ℕ → Bool → Option (Option (ℕ × Bool))
picked i own = some (some (i, own))

same_pick : {i i' : ℕ} {own own' : Bool} → picked i own ≡ picked i' own' → (i ≡ i') × (own ≡ own')
same_pick e = (cc, cc)

module _ (c : Crypto) (bls : Bls) (chain : Bytes) (commit : Commit) where
  -- A slot for the block, with the voter's address, that the voter has signed: with a signature of
  -- its own, or with one that was left out, whose key and message are in the lists.
  pub data Backed (keys messages : List Bytes) (v : Voter) (i : ℕ) : Bool → Type 0 where
    own_backed :
        (cs : CommitSig) (bytes sig : Bytes)
        → get_elem? commit.signatures i ≡ some cs
        → for_block cs ≡ true
        → bytes_eq v.address cs.validator_address ≡ true
        → commit_sign_bytes c chain commit i ≡ ok bytes
        → cs.signature ≡ some sig
        → c.verify_signature v.pub_key bytes sig ≡ true
        → Backed keys messages v i true
    left_backed :
        (cs : CommitSig) (bytes key : Bytes) (m : ℕ)
        → get_elem? commit.signatures i ≡ some cs
        → for_block cs ≡ true
        → bytes_eq v.address cs.validator_address ≡ true
        → commit_sign_bytes c chain commit i ≡ ok bytes
        → cs.signature ≡ none
        → get_signature_key (bls.decode_key v.pub_key) ≡ some key
        → get_elem? keys m ≡ some key
        → get_elem? messages m ≡ some bytes
        → Backed keys messages v i false

  Backed-append :
      {keys messages : List Bytes} {v : Voter} {i : ℕ} {own : Bool} (ks ms : List Bytes)
      → Backed keys messages v i own
      → Backed (keys ++ ks) (messages ++ ms) v i own
  Backed-append ks ms (own_backed cs bytes sig at signed address said here good) =
      own_backed cs bytes sig at signed address said here good
  Backed-append {keys} {messages} ks ms
        (left_backed cs bytes key m at signed address said gone found in_keys in_messages) =
      left_backed cs bytes key m at signed address said gone found
        (get_elem?-append_left keys ks m (get_elem?-lt keys m in_keys) ∙ in_keys)
        (get_elem?-append_left messages ms m (get_elem?-lt messages m in_messages) ∙ in_messages)

  -- What is counted: at most one slot for a voter, and each is backed.
  pub record Held (vs : List Voter) (ps : Picks) (n : Counts) : Type 0 where
    pub sized : length ps ≡ length vs
    pub paired : length n.keys ≡ length n.messages
    pub tallied : n.tallied ≡ weight_of true vs ps
    pub unverified : n.unverified ≡ weight_of false vs ps
    pub backed :
        (j i : ℕ) (own : Bool)
        → get_elem? ps j ≡ some (some (i, own))
        → (v : Voter) × (get_elem? vs j ≡ some v) × Backed n.keys n.messages v i own

  abbrev pub AllBacked : List Voter → Picks → List Bytes → List Bytes → Type 0
  AllBacked vs ps keys messages =
      (j i : ℕ) (own : Bool)
      → get_elem? ps j ≡ some (some (i, own))
      → (v : Voter) × (get_elem? vs j ≡ some v) × Backed keys messages v i own

  AllBacked-set :
      (vs : List Voter) (ps : Picks) (keys messages : List Bytes) (j i : ℕ) (own : Bool) {v : Voter}
      → AllBacked vs ps keys messages
      → get_elem? vs j ≡ some v
      → j < length ps
      → Backed keys messages v i own
      → AllBacked vs (set ps j (some (i, own))) keys messages
  AllBacked-set vs ps keys messages j i own {v} all here lt new j' i' own' e =
      elim (Bool-cases (j == j')) [
        | inr other ↦
            let differ : j ≢ j' = λ eq. ground arith in
            all j' i' own' (sym (get_elem?-set_ne ps (some (i, own)) differ) ∙ e)
        | inl eq ↦
            let at : j ≡ j' = ground arith in
            let both : picked i own ≡ picked i' own' =
              sym (get_elem?-set_self ps j (some (i, own)) lt)
              ∙ (ap (get_elem? (set ps j (some (i, own)))) at ∙ e) in
            let (same_slot, same_own) = same_pick both in
            (
              v,
              ap (get_elem? vs) (sym at) ∙ here,
              subst (λ (x : ℕ). Backed keys messages v x own') same_slot
                  (subst (λ (o : Bool). Backed keys messages v i o) same_own new),
            )
      ]

  get_elem?-last {ℓ} :
      {A : Type ℓ} (xs : List A) (x : A) → get_elem? (xs ++ (x ∷ [])) (length xs) ≡ some x
  get_elem?-last [] x = refl
  get_elem?-last (y ∷ xs) x = get_elem?-last xs x

  -- A change of the counts by a slot, of a voter that has none yet.
  pub Held-Change :
      {needed : ℕ} {v : Voter} {own : Bool} (vs : List Voter) (ps : Picks) (n n' : Counts) (j i : ℕ)
      (cs : CommitSig)
      → Held vs ps n
      → get_elem? vs j ≡ some v
      → get_elem? ps j ≡ some none
      → get_elem? commit.signatures i ≡ some cs
      → for_block cs ≡ true
      → bytes_eq v.address cs.validator_address ≡ true
      → Change c bls chain commit needed v i cs n own n'
      → Held vs (set ps j (some (i, own))) n'
  Held-Change {v} vs ps n n' j i cs h here empty at signed address
        (own_change bytes sig said signature good) =
      let paired = h.paired in
      let tallied = h.tallied in
      let unverified = h.unverified in
      record {
        sized = length-set ps j (some (i, true)) ∙ h.sized;
        paired = paired;
        tallied = omega (arith, tallied, weight_of-set true vs ps j i true here empty);
        unverified = omega (arith, unverified, weight_of-set false vs ps j i true here empty);
        backed =
            AllBacked-set vs ps n.keys n.messages j i true h.backed here (get_elem?-lt ps j empty)
              (own_backed cs bytes sig at signed address said signature good);
      }
  Held-Change {v} vs ps n n' j i cs h here empty at signed address
        (left_change bytes key said gone found) =
      let paired = h.paired in
      let tallied = h.tallied in
      let unverified = h.unverified in
      record {
        sized = length-set ps j (some (i, false)) ∙ h.sized;
        paired =
            omega (
              arith,
              paired,
              length-append n.keys (key ∷ []),
              length-append n.messages (bytes ∷ []),
            );
        tallied = omega (arith, tallied, weight_of-set true vs ps j i false here empty);
        unverified = omega (arith, unverified, weight_of-set false vs ps j i false here empty);
        backed =
            AllBacked-set vs ps (n.keys ++ (key ∷ [])) (n.messages ++ (bytes ∷ [])) j i false
              (λ j' i' own' e.
                let (u, at', b) = h.backed j' i' own' e in
                (u, at', Backed-append (key ∷ []) (bytes ∷ []) b))
              here (get_elem?-lt ps j empty)
              (left_backed cs bytes key (length n.keys) at signed address said gone found
                (get_elem?-last n.keys key)
                (ap (get_elem? (n.messages ++ (bytes ∷ []))) paired
                  ∙ get_elem?-last n.messages bytes));
      }

  -- The weight of a voter that is not counted yet is left.
  pub Held-room :
      {v : Voter} (vs : List Voter) (ps : Picks) (n : Counts) (j i : ℕ)
      → Held vs ps n
      → get_elem? vs j ≡ some v
      → get_elem? ps j ≡ some none
      → (n.tallied + v.voting_weight ≤ weights vs) × (n.unverified + v.voting_weight ≤ weights vs)
  Held-room vs ps n j i h here empty =
      let tallied = h.tallied in
      let unverified = h.unverified in
      (
        omega (
          arith,
          tallied,
          weight_of-set true vs ps j i true here empty,
          weight_of-bound vs (set ps j (some (i, true))),
        ),
        omega (
          arith,
          unverified,
          weight_of-set false vs ps j i false here empty,
          weight_of-bound vs (set ps j (some (i, false))),
        ),
      )

  pub voter_found :
      (vs : VoterSet) (a : Bytes) {j : ℕ} {v : Voter}
      → get_by_address vs a ≡ some (j, v)
      → (get_elem? vs.voters j ≡ some v) × (bytes_eq v.address a ≡ true)
  unfolding get_by_address
  voter_found vs a e =
      let (d, at, here, address) = find_address-found 0 a vs.voters e in
      (ap (get_elem? vs.voters) (at ∙ omega arith) ∙ here, address)

  -- The voters that were not seen are not counted.
  abbrev pub Fresh : Picks → List (ℕ × ℕ) → Type 0
  Fresh ps seen = (j : ℕ) → j < length ps → seen_at j seen ≡ none → get_elem? ps j ≡ some none

  pub Fresh-set :
      (ps : Picks) (seen : List (ℕ × ℕ)) (j i : ℕ) (own : Bool)
      → Fresh ps seen
      → Fresh (set ps j (some (i, own))) ((j, i) ∷ seen)
  unfolding seen_at
  Fresh-set ps seen j i own f j' lt e = elim (Bool-cases (j' == j)) [
    | inl eq ↦ ground arith
    | inr other ↦
        let differ : j ≢ j' = λ eq. ground arith in
        let sized = length-set ps j (some (i, own)) in
        get_elem?-set_ne ps (some (i, own)) differ ∙ f j' (omega (arith, lt, sized)) (ground arith)
  ]
