-- ===== src/Privval/Order.antt =====
-- The order of positions: height, round and step.
use mathlib.Core.Path.{subst}
use ostracon.Prelude.{◌≡◌, sym, ap, ◌∙◌, ◌⊎◌, inl, inr, arith}
use ostracon.Prelude.Int.{ℤ, pos_part, neg_part, ◌<ℤ◌}

-- One position comes before another: the height, then the round, then the step.
abbrev pub Less : (h r s h' r' s' : ℤ) → Type 0
Less h r s h' r' s' = (h <ℤ h') ⊎ ((h ≡ h') × (r <ℤ r')) ⊎ ((h ≡ h') × (r ≡ r') × (s <ℤ s'))

lt_trans : (a b c : ℤ) → a <ℤ b → b <ℤ c → a <ℤ c
lt_trans a b c p q = omega arith

lt_irrefl : (a b : ℤ) → a <ℤ b → a ≡ b → ⊥
lt_irrefl a b p e = omega (arith, ap pos_part e, ap neg_part e)

pub Less-trans :
    (h r s h' r' s' h'' r'' s'' : ℤ)
    → Less h r s h' r' s'
    → Less h' r' s' h'' r'' s''
    → Less h r s h'' r'' s''
Less-trans h r s h' r' s' h'' r'' s'' (inl p) (inl q) = inl (lt_trans h h' h'' p q)
Less-trans h r s h' r' s' h'' r'' s'' (inl p) (inr (inl (e, q))) = inl (subst (λ x. h <ℤ x) e p)
Less-trans h r s h' r' s' h'' r'' s'' (inl p) (inr (inr (e, _, q))) = inl (subst (λ x. h <ℤ x) e p)
Less-trans h r s h' r' s' h'' r'' s'' (inr (inl (e, p))) (inl q) =
    inl (subst (λ x. x <ℤ h'') (sym e) q)
Less-trans h r s h' r' s' h'' r'' s'' (inr (inr (e, _, p))) (inl q) =
    inl (subst (λ x. x <ℤ h'') (sym e) q)
Less-trans h r s h' r' s' h'' r'' s'' (inr (inl (e, p))) (inr (inl (e', q))) =
    inr (inl (e ∙ e', lt_trans r r' r'' p q))
Less-trans h r s h' r' s' h'' r'' s'' (inr (inl (e, p))) (inr (inr (e', f, q))) =
    inr (inl (e ∙ e', subst (λ x. r <ℤ x) f p))
Less-trans h r s h' r' s' h'' r'' s'' (inr (inr (e, f, p))) (inr (inl (e', q))) =
    inr (inl (e ∙ e', subst (λ x. x <ℤ r'') (sym f) q))
Less-trans h r s h' r' s' h'' r'' s'' (inr (inr (e, f, p))) (inr (inr (e', f', q))) =
    inr (inr (e ∙ e', f ∙ f', lt_trans s s' s'' p q))

pub Less-irrefl : (h r s h' r' s' : ℤ) → Less h r s h' r' s' → h ≡ h' → r ≡ r' → s ≡ s' → ⊥
Less-irrefl h r s h' r' s' (inl p) e f g = lt_irrefl h h' p e
Less-irrefl h r s h' r' s' (inr (inl p)) e f g = lt_irrefl r r' p.1 f
Less-irrefl h r s h' r' s' (inr (inr p)) e f g = lt_irrefl s s' p.2 g

pub Less-cong :
    (h r s h' r' s' k t u : ℤ) → h ≡ h' → r ≡ r' → s ≡ s' → Less h r s k t u → Less h' r' s' k t u
Less-cong h r s h' r' s' k t u e f g (inl p) = inl (subst (λ x. x <ℤ k) e p)
Less-cong h r s h' r' s' k t u e f g (inr (inl (i, p))) =
    inr (inl (sym e ∙ i, subst (λ x. x <ℤ t) f p))
Less-cong h r s h' r' s' k t u e f g (inr (inr (i, j, p))) =
    inr (inr (sym e ∙ i, sym f ∙ j, subst (λ x. x <ℤ u) g p))
