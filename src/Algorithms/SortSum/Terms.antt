-- ===== src/Algorithms/SortSum/Terms.antt =====
-- What the bubble sort of core/algorithms/sort_sum.cc leaves: the same terms, in some order, and
-- nothing changed exactly where no two neighbours are out of order.
use cadabra.Base.{
  ℕ, zero, suc, ◌-◌, ◌≤◌, Bool, true, false, List, [], ◌∷◌, ◌≡◌, ◌↔◌, refl, inl, inr, Bool-cases,
  arith,
}
use mathlib.Core.List.{Perm}
use mathlib.Core.List.Perm
use cadabra.Tree.{Forest, nil, node, count}
use cadabra.Storage.{StrNode, Ex}
use cadabra.Storage.Multiplier.{Rational}
use cadabra.Compare.{Settings}
use cadabra.Algorithms.SortSum.{SortOrder, out_of_order, bubble, bubbles, sort_sum}

module _ {Q : Type 0} where
  unfoldable pub terms : Forest (StrNode Q) → List (StrNode Q × Forest (StrNode Q))
  terms nil = []
  terms (node s c r) = (s, c) ∷ terms r

module _ (m : Rational) (less : m.Q → m.Q → Bool) (settings : Settings m.Q)
    (sort_order : SortOrder m.Q) where
  open m use {Q}

  abbrev wrong : StrNode Q → Forest (StrNode Q) → StrNode Q → Forest (StrNode Q) → Bool
  wrong s c t d =
      out_of_order m less settings sort_order (record { head = s; children = c })
        (record { head = t; children = d })

  -- No two neighbours are out of order.
  unfoldable pub InOrder : Forest (StrNode Q) → Type 0
  InOrder (node s c (node t d r)) = (wrong s c t d ≡ false) × InOrder (node t d r)
  InOrder f = Unit

  terms-bubble :
      (k : ℕ) (f : Forest (StrNode Q))
      → Perm (terms (bubble m less settings sort_order k f).1) (terms f)
  unfolding bubble terms
  terms-bubble zero f = Perm.refl _
  terms-bubble (suc k) nil = Perm.refl _
  terms-bubble (suc k) (node s c nil) = Perm.refl _
  terms-bubble (suc k) (node s c (node t d r)) = elim (Bool-cases (wrong s c t d)) [
    | inl e ↦ rw e (Perm.trans (Perm.cons (t, d) (terms-bubble k (node s c r))) (Perm.swap _ _ _))
    | inr e ↦ rw e (Perm.cons (s, c) (terms-bubble k (node t d r)))
  ]

  terms-bubbles :
      (k : ℕ) (f : Forest (StrNode Q))
      → Perm (terms (bubbles m less settings sort_order k f).1) (terms f)
  unfolding bubbles
  terms-bubbles zero f = Perm.refl _
  terms-bubbles (suc k) f = Perm.trans (terms-bubbles k _) (terms-bubble (suc k) f)

  bubble-InOrder :
      (k : ℕ) (f : Forest (StrNode Q))
      → InOrder f
      → bubble m less settings sort_order k f ≡ (false, f)
  unfolding bubble InOrder
  bubble-InOrder zero f h = refl
  bubble-InOrder (suc k) nil h = refl
  bubble-InOrder (suc k) (node s c nil) h = refl
  bubble-InOrder (suc k) (node s c (node t d r)) h =
      let rest = bubble-InOrder k (node t d r) h.1 in rw (h.0, rest)

  InOrder-bubble :
      (k : ℕ) (f : Forest (StrNode Q))
      → count f ≤ suc k
      → (bubble m less settings sort_order k f).0 ≡ false
      → InOrder f
  unfolding bubble InOrder
  InOrder-bubble k nil n h = tt
  InOrder-bubble k (node s c nil) n h = tt
  InOrder-bubble zero (node s c (node t d r)) n h = absurd (omega arith)
  InOrder-bubble (suc k) (node s c (node t d r)) n h = elim (Bool-cases (wrong s c t d)) [
    | inl e ↦ absurd (let h' : true ≡ false = rw e at h in cc)
    | inr e ↦ (e, InOrder-bubble k (node t d r) (omega arith) (rw e at h))
  ]

  bubbles-InOrder :
      (k : ℕ) (f : Forest (StrNode Q))
      → InOrder f
      → bubbles m less settings sort_order k f ≡ (false, f)
  unfolding bubbles
  bubbles-InOrder zero f h = refl
  bubbles-InOrder (suc k) f h = rw (bubble-InOrder (suc k) f h, bubbles-InOrder k f h)

  bubbles_unchanged :
      (f : Forest (StrNode Q))
      → (bubbles m less settings sort_order (count f - 1) f).0 ≡ false
      → InOrder f
  unfolding bubbles InOrder
  bubbles_unchanged nil h = tt
  bubbles_unchanged (node s c nil) h = tt
  bubbles_unchanged (node s c (node t d r)) h =
      InOrder-bubble (suc (count r)) (node s c (node t d r)) (omega arith) (ground (arith, h))

  unchanged :
      (e : Ex Q)
      → ((sort_sum m less settings sort_order e).0 ≡ false)
        ↔ (InOrder e.children × (sort_sum m less settings sort_order e ≡ (false, e)))
  unfolding sort_sum
  unchanged e = (
    λ h.
        let order = bubbles_unchanged e.children h in
        (order, rw (bubbles-InOrder (count e.children - 1) e.children order)),
    λ h. rw (bubbles-InOrder (count e.children - 1) e.children h.0),
  )

  -- `sort_sum` leaves the terms that it was given, in some order; and it reports that nothing
  -- changed exactly where no two neighbours among the terms are out of order, and the expression is
  -- then the one given.
  pub terms-sort_sum :
      (e : Ex Q)
      → Perm (terms (sort_sum m less settings sort_order e).1.children) (terms e.children)
        × (((sort_sum m less settings sort_order e).0 ≡ false)
            ↔ (InOrder e.children × (sort_sum m less settings sort_order e ≡ (false, e))))
  unfolding sort_sum
  terms-sort_sum e = (terms-bubbles (count e.children - 1) e.children, unchanged e)
