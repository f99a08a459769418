-- ===== src/Tree.antt =====
-- core/tree.hh: a node holds its data, its first child and its next sibling, so a value of
-- `Forest` is a node together with the siblings behind it.
use cadabra.Base.{ℕ, suc, ◌+◌, ◌≡◌, refl, ap, arith}

pub data Forest {ℓ} (A : Type ℓ) : Type ℓ where
  nil : Forest A
  node : A → Forest A → Forest A → Forest A

module _ {ℓ} {A : Type ℓ} where
  -- The siblings `b` behind the siblings `a`: what `flatten` relinks.
  infixr 65 ◌⊕◌
  abbrev pub ◌⊕◌ : Forest A → Forest A → Forest A
  nil ⊕ b = b
  node x c a ⊕ b = node x c (a ⊕ b)

  -- `number_of_children` of the parent of these siblings.
  abbrev pub count : Forest A → ℕ
  count nil = 0
  count (node x c r) = suc (count r)

  pub ⊕_nil : (a : Forest A) → a ⊕ nil ≡ a
  ⊕_nil nil = refl
  ⊕_nil (node x c r) = ap (node x c) (⊕_nil r)

  pub ⊕_assoc : (a b c : Forest A) → (a ⊕ b) ⊕ c ≡ a ⊕ (b ⊕ c)
  ⊕_assoc nil b c = refl
  ⊕_assoc (node x k r) b c = ap (node x k) (⊕_assoc r b c)

  pub count-⊕ : (a b : Forest A) → count (a ⊕ b) ≡ count a + count b
  count-⊕ nil b = omega arith
  count-⊕ (node x c r) b = omega (arith, count-⊕ r b)
