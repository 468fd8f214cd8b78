-- ===== src/Votes/Tracked.antt =====
-- The map of votes by block.
use ostracon.Prelude.{
  ◌≡◌, subst, false, List, [], ◌∷◌, some, arith, Bytes, bytes_eq, bytes_eq_refl, bytes_eq→eq,
  Bool-cases, inl, inr, if◌then◌else◌,
}
use ostracon.Votes.VoteSet.{lookup, insert}

-- Every value of the map satisfies `P`.
abbrev pub AllValues {ℓ} : {A : Type ℓ} → (A → Type 0) → List (Bytes × A) → Type 0
AllValues P [] = Unit
AllValues P ((k, v) ∷ m) = P v × AllValues P m

module _ {ℓ} {A : Type ℓ} where
  pub lookup-insert_self :
      (k : Bytes) (v : A) (m : List (Bytes × A)) → lookup k (insert k v m) ≡ some v
  unfolding lookup insert
  lookup-insert_self k v [] = rw (bytes_eq_refl k)
  lookup-insert_self k v ((k', v') ∷ m) = elim (Bool-cases (bytes_eq k k')) [
    | inl e ↦ rw e (rw (bytes_eq_refl k))
    | inr n ↦ rw n (rw n (lookup-insert_self k v m))
  ]

  pub lookup-insert_ne :
      (k k' : Bytes) (v : A) (m : List (Bytes × A))
      → bytes_eq k' k ≡ false
      → lookup k' (insert k v m) ≡ lookup k' m
  unfolding lookup insert
  lookup-insert_ne k k' v [] h = rw h
  lookup-insert_ne k k' v ((k1, v1) ∷ m) h = elim (Bool-cases (bytes_eq k k1)) [
    | inl e ↦
        let same_key = bytes_eq→eq k k1 e in
        rw e (
          subst
            (λ t.
              (if bytes_eq k' k then some v else lookup k' m)
              ≡ (if bytes_eq k' t then some v1 else lookup k' m))
            same_key (rw h))
    | inr n ↦ rw n (rw (lookup-insert_ne k k' v m h))
  ]

  pub AllValues-insert :
      (P : A → Type 0) (k : Bytes) (v : A) (m : List (Bytes × A))
      → AllValues P m
      → P v
      → AllValues P (insert k v m)
  unfolding insert
  AllValues-insert P k v [] h p = (p, tt)
  AllValues-insert P k v ((k1, v1) ∷ m) h p = elim (Bool-cases (bytes_eq k k1)) [
    | inl e ↦ rw e (p, h.1)
    | inr n ↦ rw n (h.0, AllValues-insert P k v m h.1 p)
  ]

  pub AllValues-lookup :
      (P : A → Type 0) (k : Bytes) (m : List (Bytes × A)) {v : A}
      → AllValues P m
      → lookup k m ≡ some v
      → P v
  unfolding lookup
  AllValues-lookup P k [] h e = ground arith
  AllValues-lookup P k ((k1, v1) ∷ m) {v} h e = elim (Bool-cases (bytes_eq k k1)) [
    | inl t ↦ let at : v1 ≡ v = ground arith in subst P at h.0
    | inr n ↦ AllValues-lookup P k m h.1 (ground arith)
  ]

  pub AllValues-map :
      (P Q : A → Type 0) (m : List (Bytes × A))
      → ((v : A) → P v → Q v)
      → AllValues P m
      → AllValues Q m
  AllValues-map P Q [] f h = tt
  AllValues-map P Q ((k, v) ∷ m) f h = (f v h.0, AllValues-map P Q m f h.1)
