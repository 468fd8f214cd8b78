-- ===== src/Rounds/Advance.antt =====
-- SetRound of HeightVoteSet.
use ostracon.Prelude.{
  ℕ, zero, suc, ◌+◌, ◌-◌, ◌<◌, ◌≤◌, ◌≡◌, inl, inr, refl, sym, ap, ◌∙◌, subst, Bool, true, false,
  not, ◌&&◌, Option, none, some, arith, Option-cases, if◌then◌else◌,
}
use ostracon.Prelude.Int.{ℤ, pos, ltb_ℤ, eqb_ℤ, ◌+ℤ◌, ◌-ℤ◌, +ℤ_parts, eq_of_parts}
use ostracon.Prelude.Run.{Run, ok, panic, ◌>>=◌}
use ostracon.Votes.VoteSet.{Crypto}
use ostracon.Rounds.HeightVoteSet.{
  HeightVoteSet, RoundVoteSet, find_round, add_round, add_rounds, set_round, min_int32, max_int32,
  next_int32,
}
use ostracon.Rounds.Kept.{IsKept, add_round-IsKept}

-- The round has its vote sets.
abbrev pub IsKnown : HeightVoteSet → ℤ → Type 0
IsKnown hvs r = (s : RoundVoteSet) × (find_round r hvs.round_vote_sets ≡ some s)

-- The round n steps from the start is the first past the last, and no step before it wraps.
abbrev IsRange : ℤ → ℤ → ℕ → Type 0
IsRange r last n =
    ((k : ℕ)
      → k < n
      → (ltb_ℤ last (r +ℤ pos k) ≡ false) × (next_int32 (r +ℤ pos k) ≡ r +ℤ pos (suc k)))
    × (ltb_ℤ last (r +ℤ pos n) ≡ true)

+ℤ-zero : (r : ℤ) → r +ℤ pos 0 ≡ r
+ℤ-zero r = eq_of_parts (r +ℤ pos 0) r (omega (arith, +ℤ_parts r (pos 0)))

+ℤ-suc : (r : ℤ) (k : ℕ) → r +ℤ pos 1 +ℤ pos k ≡ r +ℤ pos (suc k)
+ℤ-suc r k =
    eq_of_parts (r +ℤ pos 1 +ℤ pos k) (r +ℤ pos (suc k))
      (omega (arith, +ℤ_parts r (pos (suc k)), +ℤ_parts r (pos 1), +ℤ_parts (r +ℤ pos 1) (pos k)))

IsRange-suc : (r last : ℤ) (n : ℕ) → IsRange r last (suc n) → IsRange (r +ℤ pos 1) last n
IsRange-suc r last n (steps, end) = (
  λ k lt.
      let (more, next) = steps (suc k) (omega arith) in
      (
        ap (ltb_ℤ last) (+ℤ-suc r k) ∙ more,
        ap next_int32 (+ℤ-suc r k) ∙ (next ∙ sym (+ℤ-suc r (suc k))),
      ),
  ap (ltb_ℤ last) (+ℤ-suc r n) ∙ end,
)

module _ (c : Crypto) where
  -- Adding n rounds with more fuel than that ends, makes them known, and what was known stays so.
  add_rounds-IsKnown :
      (fuel n : ℕ) (r last : ℤ) (hvs : HeightVoteSet)
      → IsKept c hvs
      → n < fuel
      → IsRange r last n
      → (hvs' : HeightVoteSet) × (add_rounds fuel r last hvs ≡ ok (some hvs'))
        × IsKept c hvs'
        × ((r' : ℤ) → IsKnown hvs r' → IsKnown hvs' r')
        × ((k : ℕ) → k < n → IsKnown hvs' (r +ℤ pos k))
  unfolding add_rounds
  add_rounds-IsKnown zero n r last hvs h lt range = elim lt [ ]
  add_rounds-IsKnown (suc fuel) zero r last hvs h lt range =
      let past = ap (ltb_ℤ last) (sym (+ℤ-zero r)) ∙ range.1 in
      (hvs, rw past refl, h, λ r' known. known, λ k less. elim less [ ])
  add_rounds-IsKnown (suc fuel) (suc n) r last hvs h lt range =
      let first = range.0 0 (omega arith) in
      let inside = ap (ltb_ℤ last) (sym (+ℤ-zero r)) ∙ first.0 in
      let next = ap next_int32 (sym (+ℤ-zero r)) ∙ first.1 in
      let range' = IsRange-suc r last n range in
      elim (Option-cases (find_round r hvs.round_vote_sets)) [
        | inr (s, here) ↦
            let (hvs2, run, h2, keeps, all) =
              add_rounds-IsKnown fuel n (r +ℤ pos 1) last hvs h (omega arith) range' in
            (
              hvs2,
              ap after_test inside ∙ (ap after_find here ∙ (ap (λ x. go x hvs) next ∙ run)),
              h2,
              keeps,
              reach hvs2 (keeps r (s, here)) all,
            )
        | inl new ↦
            let (hvs1, s, run1, h1, here, _, kept) = add_round-IsKept c hvs r h new in
            let (hvs2, run2, h2, keeps, all) =
              add_rounds-IsKnown fuel n (r +ℤ pos 1) last hvs1 h1 (omega arith) range' in
            (
              hvs2,
              ap after_test inside
                  ∙ (ap after_find new
                      ∙ (ap (λ t. t >>= go (next_int32 r)) run1
                          ∙ (ap (λ x. go x hvs1) next ∙ run2))),
              h2,
              λ r' known. keeps r' (kept r' known),
              reach hvs2 (keeps r (s, here)) all,
            )
      ]
    where
      go : ℤ → HeightVoteSet → Run (Option HeightVoteSet)
      go x hvs' = add_rounds fuel x last hvs'

      after_find : Option RoundVoteSet → Run (Option HeightVoteSet)
      after_find none = add_round hvs r >>= go (next_int32 r)
      after_find (some s) = go (next_int32 r) hvs

      after_test : Bool → Run (Option HeightVoteSet)
      after_test b = if b then ok (some hvs) else after_find (find_round r hvs.round_vote_sets)

      reach :
          (hvs' : HeightVoteSet)
          → IsKnown hvs' r
          → ((k : ℕ) → k < n → IsKnown hvs' (r +ℤ pos 1 +ℤ pos k))
          → (k : ℕ) → k < suc n
          → IsKnown hvs' (r +ℤ pos k)
      reach hvs' first rest zero lt = subst (IsKnown hvs') (sym (+ℤ-zero r)) first
      reach hvs' first rest (suc k) lt = subst (IsKnown hvs') (+ℤ-suc r k) (rest k (omega arith))

  -- The rounds from one below a round to another, below the largest int32.
  rounds-IsRange : (m n : ℕ) → m ≤ n → n < 2147483647 → IsRange (pos m -ℤ pos 1) (pos n) (n + 2 - m)
  unfolding ◌+ℤ◌ ◌-ℤ◌
  rounds-IsRange m n le small = (λ k lt. (ground arith, ground arith), ground arith)

  -- SetRound to a round that is no less than the round of well kept vote sets, and that is below the
  -- largest int32, returns where its loop is given a step for each round from the one before the old
  -- round to the one after the new round; the vote sets are then well kept, the round is the new one,
  -- and every round from the old to the new one is known.
  pub set_round-IsKnown :
      (fuel : ℕ) (hvs : HeightVoteSet) (m n : ℕ)
      → IsKept c hvs
      → hvs.round ≡ pos m
      → m ≤ n
      → n < 2147483647
      → n + 3 ≤ fuel + m
      → (hvs' : HeightVoteSet) × (set_round fuel hvs (pos n) ≡ ok (some hvs'))
        × IsKept c hvs'
        × (hvs'.round ≡ pos n)
        × ((j : ℕ) → m ≤ j → j ≤ n → IsKnown hvs' (pos j))
  unfolding set_round ◌+ℤ◌ ◌-ℤ◌
  set_round-IsKnown fuel hvs m n h at le small enough =
      let start : ℤ = pos m -ℤ pos 1 in
      let low_enough : ltb_ℤ (pos m) (min_int32 +ℤ pos 1) ≡ false = ground arith in
      let no_panic : (not (eqb_ℤ (pos m) (pos 0)) && ltb_ℤ (pos n) start) ≡ false = ground arith in
      let (hvs', run, h', _, all) =
        add_rounds-IsKnown fuel (n + 2 - m) start (pos n) hvs h (omega arith)
          (rounds-IsRange m n le small) in
      (
        record hvs' { round = pos n },
        ap after at ∙ (rw (low_enough, no_panic) (ap (λ t. t >>= moved) run)),
        record {
          vals = h'.vals;
          some_vals = h'.some_vals;
          made = h'.made;
          height = h'.height;
          rounds = h'.rounds;
          peers = h'.peers;
        },
        refl,
        λ j low high.
            let at_j : start +ℤ pos (j + 1 - m) ≡ pos j = ground arith in
            subst (IsKnown hvs') at_j (all (j + 1 - m) (ground arith)),
      )
    where
      moved : Option HeightVoteSet → Run (Option HeightVoteSet)
      moved ended = elim ended [
        | none ↦ ok none
        | some hvs' ↦ ok (some (record hvs' { round = pos n }))
      ]

      after : ℤ → Run (Option HeightVoteSet)
      after round =
          let new_round = round -ℤ pos 1 in
          if ltb_ℤ round (min_int32 +ℤ pos 1)
          then panic
          else if not (eqb_ℤ round (pos 0)) && ltb_ℤ (pos n) new_round
          then panic
          else (add_rounds fuel new_round (pos n) hvs >>= moved)

-- No int32 is past the largest one.
abbrev pub IsInt32 : ℤ → Type 0
IsInt32 r = ltb_ℤ max_int32 r ≡ false

next_int32-IsInt32 : (r : ℤ) → IsInt32 r → IsInt32 (next_int32 r)
unfolding ◌+ℤ◌
next_int32-IsInt32 r h = ground arith

pred-IsInt32 : (r : ℤ) → IsInt32 r → IsInt32 (r -ℤ pos 1)
unfolding ◌-ℤ◌
pred-IsInt32 r h = ground arith

module _ (c : Crypto) where
  -- The loop up to the largest int32 is still running, on any fuel.
  add_rounds-endless :
      (fuel : ℕ) (r : ℤ) (hvs : HeightVoteSet)
      → IsKept c hvs
      → IsInt32 r
      → add_rounds fuel r max_int32 hvs ≡ ok none
  unfolding add_rounds
  add_rounds-endless zero r hvs h small = refl
  add_rounds-endless (suc fuel) r hvs h small =
      let small' = next_int32-IsInt32 r small in
      ap after_test small ∙ (elim (Option-cases (find_round r hvs.round_vote_sets)) [
        | inr (s, here) ↦ ap after_find here ∙ add_rounds-endless fuel (next_int32 r) hvs h small'
        | inl new ↦
            let (hvs1, _, run, h1, _, _, _) = add_round-IsKept c hvs r h new in
            ap after_find new
            ∙ (ap (λ t. t >>= go) run ∙ add_rounds-endless fuel (next_int32 r) hvs1 h1 small')
      ])
    where
      go : HeightVoteSet → Run (Option HeightVoteSet)
      go h' = add_rounds fuel (next_int32 r) max_int32 h'

      after_find : Option RoundVoteSet → Run (Option HeightVoteSet)
      after_find none = add_round hvs r >>= go
      after_find (some s) = go hvs

      after_test : Bool → Run (Option HeightVoteSet)
      after_test b = if b then ok (some hvs) else after_find (find_round r hvs.round_vote_sets)

  -- SetRound of well kept vote sets to the largest int32 does not return: however many steps its
  -- loop is given, it is still running, since its int32 wraps and is never past the last round.
  pub set_round-max :
      (fuel : ℕ) (hvs : HeightVoteSet) (m : ℕ)
      → IsKept c hvs
      → hvs.round ≡ pos m
      → m ≤ 2147483647
      → set_round fuel hvs max_int32 ≡ ok none
  unfolding set_round ◌+ℤ◌ ◌-ℤ◌
  set_round-max fuel hvs m h at small =
      let low_enough : ltb_ℤ (pos m) (min_int32 +ℤ pos 1) ≡ false = ground arith in
      let no_panic : (not (eqb_ℤ (pos m) (pos 0)) && ltb_ℤ max_int32 (pos m -ℤ pos 1)) ≡ false =
        ground arith in
      let run =
        add_rounds-endless fuel (pos m -ℤ pos 1) hvs h (pred-IsInt32 (pos m) (ground arith)) in
      ap after at ∙ (rw (low_enough, no_panic) (ap (λ t. t >>= moved) run))
    where
      moved : Option HeightVoteSet → Run (Option HeightVoteSet)
      moved ended = elim ended [
        | none ↦ ok none
        | some hvs' ↦ ok (some (record hvs' { round = max_int32 }))
      ]

      after : ℤ → Run (Option HeightVoteSet)
      after round =
          let new_round = round -ℤ pos 1 in
          if ltb_ℤ round (min_int32 +ℤ pos 1)
          then panic
          else if not (eqb_ℤ round (pos 0)) && ltb_ℤ max_int32 new_round
          then panic
          else (add_rounds fuel new_round max_int32 hvs >>= moved)
