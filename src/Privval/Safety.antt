-- ===== src/Privval/Safety.antt =====
-- The signer never signs two different messages at one height, round and step.
use ostracon.Prelude.{
  ℕ, zero, suc, ◌≡◌, refl, sym, ap, subst, ◌∙◌, ◌⊎◌, inl, inr, Option, none, some, List, [], ◌∷◌,
  ◌++◌, arith, Bytes, get_elem?,
}
use mathlib.Core.Path.{subst₃}
use ostracon.Prelude.Int.{ℤ}
use ostracon.Prelude.Run.{Run, ok, panic}
use ostracon.Types.Vote.{Vote, Proposal}
use ostracon.Privval.State.{LastSignState, SignError, step_propose}
use ostracon.Privval.Sign.{Env, RoundTrips, FilePv, sign_vote, sign_proposal, load}
use ostracon.Privval.Order.{Less, Less-trans, Less-irrefl, Less-cong}
use ostracon.Privval.Release.{Encodes, Released}
use ostracon.Privval.SignVote.{sign_vote-VoteReleased}
use ostracon.Privval.SignProposal.{sign_proposal-ProposalReleased}
use ostracon.Privval.Errors.{sign_vote-error, sign_proposal-error}
use ostracon.Privval.History.{
  Request, votes, proposes, restarts, Entry, after_vote, after_proposal, serve, serve_all,
}

-- Two entries at one position agree.
abbrev Agree : Entry → Entry → Type 0
Agree a b =
    a.height ≡ b.height
    → a.round ≡ b.round
    → a.step ≡ b.step
    → (a.bytes ≡ b.bytes) × (a.signature ≡ b.signature)

abbrev All : (Entry → Type 0) → List Entry → Type 0
All P [] = Unit
All P (x ∷ xs) = P x × All P xs

abbrev Consistent : List Entry → Type 0
Consistent [] = Unit
Consistent (x ∷ xs) = All (λ y. Agree y x) xs × Consistent xs

-- An entry comes before the stored position, or it is what is stored.
abbrev Covered : LastSignState → Entry → Type 0
Covered l a =
    Less a.height a.round a.step l.height l.round l.step
    ⊎ ((l.height ≡ a.height)
        × (l.round ≡ a.round)
        × (l.step ≡ a.step)
        × (l.sign_bytes ≡ some a.bytes)
        × (l.signature ≡ a.signature))

module _ (e : Env) where
  record Inv (pv : FilePv) (log : List Entry) : Type 0 where
    synced : pv.disk ≡ pv.last
    encodes : Encodes e pv.last
    covered : All (Covered pv.last) log
    consistent : Consistent log

All-map :
    (P Q : Entry → Type 0) (log : List Entry) → ((a : Entry) → P a → Q a) → All P log → All Q log
All-map P Q [] f h = tt
All-map P Q (x ∷ xs) f h = (f x h.0, All-map P Q xs f h.1)

-- What the stored position covers comes before every later position.
Covered-Less :
    (l : LastSignState) (a : Entry) (h r s : ℤ)
    → Covered l a
    → Less l.height l.round l.step h r s
    → Less a.height a.round a.step h r s
Covered-Less l a h r s (inl p) q = Less-trans _ _ _ l.height l.round l.step h r s p q
Covered-Less l a h r s (inr (e, f, g, _, _)) q = Less-cong _ _ _ _ _ _ h r s e f g q

entry-inj : (a b : Entry) → ◌≡◌ {A = Option Entry} (some a) (some b) → a ≡ b
entry-inj a b h = ap (λ (o : Option Entry). elim o as (λ _. Entry) [ none ↦ a | some x ↦ x ]) h

some-inj : (a b : Bytes) → ◌≡◌ {A = Option Bytes} (some a) (some b) → a ≡ b
some-inj a b h = ground arith

module _ (e : Env) where
  -- The entry of a released signature.
  abbrev entry : ℤ → ℤ → ℤ → Bytes → Option Bytes → Entry
  entry h r s b sig = record { height = h; round = r; step = s; bytes = b; signature = sig }

  Covered-Agree :
      (l : LastSignState) (a b : Entry)
      → Covered l a
      → l.height ≡ b.height
      → l.round ≡ b.round
      → l.step ≡ b.step
      → l.sign_bytes ≡ some b.bytes
      → l.signature ≡ b.signature
      → Agree a b
  Covered-Agree l a b (inl p) h r s m g =
      λ x y z. absurd (Less-irrefl _ _ _ _ _ _ p (x ∙ sym h) (y ∙ sym r) (z ∙ sym s))
  Covered-Agree l a b (inr (_, _, _, m', g')) h r s m g =
      λ x y z. (some-inj a.bytes b.bytes (sym m' ∙ m), sym g' ∙ g)

  -- A released signature keeps the invariant, with its entry in the log.
  Released-Inv :
      (pv : FilePv) (log : List Entry) (h r s : ℤ) (b : Bytes) (sig : Option Bytes) (pv' : FilePv)
      → Inv e pv log
      → Released e pv h r s b sig pv'
      → Encodes e pv'.last
      → Inv e pv' (entry h r s b sig ∷ log)
  Released-Inv pv log h r s b sig pv' inv rel enc = elim rel.moved [
    | inl stay ↦
        let old = subst (λ (p : FilePv). All (Covered p.last) log) (sym stay) inv.covered in
        record {
          synced = subst (λ (p : FilePv). p.disk ≡ p.last) (sym stay) inv.synced;
          encodes = enc;
          covered = (newest, old);
          consistent = (
            All-map (Covered pv'.last) (λ a. Agree a new) log
                (λ a c.
                  Covered-Agree pv'.last a new c rel.at.0 rel.at.1 rel.at.2 rel.stored rel.signed)
                old,
            inv.consistent,
          );
        }
    | inr (before, disk, _) ↦
        let earlier =
          All-map (Covered pv.last) (λ a. Less a.height a.round a.step h r s) log
            (λ a c. Covered-Less pv.last a h r s c before) inv.covered in
        record {
          synced = disk;
          encodes = enc;
          covered = (
            newest,
            All-map (λ a. Less a.height a.round a.step h r s) (Covered pv'.last) log
                (λ a p. inl (
                  subst₃ (λ x y z. Less a.height a.round a.step x y z) (sym rel.at.0) (sym rel.at.1)
                    (sym rel.at.2) p))
                earlier,
          );
          consistent = (
            All-map (λ a. Less a.height a.round a.step h r s) (λ a. Agree a new) log
                (λ a p x y z. absurd (Less-irrefl _ _ _ _ _ _ p x y z)) earlier,
            inv.consistent,
          );
        }
  ]
    where
      new : Entry
      new = entry h r s b sig

      newest : Covered pv'.last new
      newest = inr (rel.at.0, rel.at.1, rel.at.2, rel.stored, rel.signed)

  load-synced : (pv : FilePv) → pv.disk ≡ pv.last → load pv ≡ pv
  unfolding load
  load-synced pv s = λ i. record {
    last = record {
      height = (s i).height;
      round = (s i).round;
      step = (s i).step;
      signature = (s i).signature;
      sign_bytes = (s i).sign_bytes;
      file_path = pv.last.file_path;
    };
    disk = pv.disk;
  }

  serve-Inv :
      (laws : RoundTrips e) (pv : FilePv) (log : List Entry) (q : Request)
      → Inv e pv log
      → Inv e (serve e pv q).0 ((serve e pv q).1 ++ log)
  unfolding serve
  serve-Inv laws pv log restarts inv =
      subst (λ p. Inv e p log) (sym (load-synced pv inv.synced)) inv
  serve-Inv laws pv log (votes chain v) inv = go (sign_vote e pv chain v) refl
    where
      go :
          (r : Run (FilePv × Vote × Option SignError))
          → sign_vote e pv chain v ≡ r
          → Inv e (after_vote e pv chain r).0 ((after_vote e pv chain r).1 ++ log)
      go panic h = subst (λ p. Inv e p log) (sym (load-synced pv inv.synced)) inv
      go (ok (pv', v', some x)) h =
          subst (λ p. Inv e p log) (sym (sign_vote-error e pv chain v h).0) inv
      go (ok (pv', v', none)) h =
          let (step, bytes, rel) = sign_vote-VoteReleased e laws pv chain v inv.encodes h in
          rw (rel.covers, rel.stepped)
            (Released-Inv pv log v'.height v'.round step bytes v'.signature pv' inv rel.released
              rel.encodes)
  serve-Inv laws pv log (proposes chain p) inv = go (sign_proposal e pv chain p) refl
    where
      go :
          (r : Run (FilePv × Proposal × Option SignError))
          → sign_proposal e pv chain p ≡ r
          → Inv e (after_proposal e pv chain r).0 ((after_proposal e pv chain r).1 ++ log)
      go panic h = subst (λ p. Inv e p log) (sym (load-synced pv inv.synced)) inv
      go (ok (pv', p', some x)) h =
          subst (λ p. Inv e p log) (sym (sign_proposal-error e pv chain p h).0) inv
      go (ok (pv', p', none)) h =
          let (bytes, rel) = sign_proposal-ProposalReleased e laws pv chain p inv.encodes h in
          rw rel.covers (
            Released-Inv pv log p'.height p'.round step_propose bytes p'.signature pv' inv
              rel.released rel.encodes)

  serve_all-Inv :
      (laws : RoundTrips e) (pv : FilePv) (log : List Entry) (qs : List Request)
      → Inv e pv log
      → Inv e (serve_all e pv log qs).0 (serve_all e pv log qs).1
  unfolding serve_all
  serve_all-Inv laws pv log [] inv = inv
  serve_all-Inv laws pv log (q ∷ qs) inv =
      serve_all-Inv laws (serve e pv q).0 ((serve e pv q).1 ++ log) qs (serve-Inv laws pv log q inv)

All-get_elem? :
    (P : Entry → Type 0) (log : List Entry) (i : ℕ) {a : Entry}
    → All P log
    → get_elem? log i ≡ some a
    → P a
All-get_elem? P [] i h e = ground arith
All-get_elem? P (x ∷ xs) zero h e = subst P (entry-inj x _ e) h.0
All-get_elem? P (x ∷ xs) (suc i) h e = All-get_elem? P xs i h.1 e

Consistent-get_elem? :
    (log : List Entry) (i j : ℕ) {a b : Entry}
    → Consistent log
    → get_elem? log i ≡ some a
    → get_elem? log j ≡ some b
    → Agree a b
Consistent-get_elem? [] i j c p q = ground arith
Consistent-get_elem? (x ∷ xs) zero zero {a} {b} c p q = λ _ _ _.
    let e = sym (entry-inj x a p) ∙ entry-inj x b q in
    (ap (λ (t : Entry). t.bytes) e, ap (λ (t : Entry). t.signature) e)
Consistent-get_elem? (x ∷ xs) zero (suc j) {a} {b} c p q = λ h r s.
    let m = subst (Agree b) (entry-inj x a p) (All-get_elem? (λ y. Agree y x) xs j c.0 q) in
    let agreed = m (sym h) (sym r) (sym s) in (sym agreed.0, sym agreed.1)
Consistent-get_elem? (x ∷ xs) (suc i) zero {a} {b} c p q =
    subst (Agree a) (entry-inj x b q) (All-get_elem? (λ y. Agree y x) xs i c.0 p)
Consistent-get_elem? (x ∷ xs) (suc i) (suc j) c p q = Consistent-get_elem? xs i j c.1 p q

-- A signer that starts from a file which it holds in memory too, and whose stored sign bytes encode
-- a message of the stored kind, never releases signatures over different sign bytes at one height,
-- round and step, whatever votes and proposals it is asked to sign, also across restarts and
-- panics: two releases at one position have the same sign bytes and the same signature.
pub no_double_sign :
    (e : Env) (laws : RoundTrips e) (pv : FilePv) (qs : List Request) (i j : ℕ) {a b : Entry}
    → pv.disk ≡ pv.last
    → Encodes e pv.last
    → get_elem? (serve_all e pv [] qs).1 i ≡ some a
    → get_elem? (serve_all e pv [] qs).1 j ≡ some b
    → a.height ≡ b.height
    → a.round ≡ b.round
    → a.step ≡ b.step
    → (a.bytes ≡ b.bytes) × (a.signature ≡ b.signature)
no_double_sign e laws pv qs i j synced enc p q =
    let start : Inv e pv [] = record {
      synced = synced;
      encodes = enc;
      covered = tt;
      consistent = tt;
    } in
    Consistent-get_elem? (serve_all e pv [] qs).1 i j
      (serve_all-Inv e laws pv [] qs start).consistent p q
