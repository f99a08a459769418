-- ===== src/Cleanup/Derivative.antt =====
-- Theorems on the simplification of derivatives in core/Cleanup.cc.
use cadabra.Base.{
  suc, ◌+◌, ◌<◌, ◌≤◌, true, false, Option, none, some, ◌≡◌, refl, ◌==◌, ltb, arith, bytes_eq,
  bytes_eq_refl, Bool-cases, inl, inr,
}
use mathlib.Core.Path.{subst}
use cadabra.Tree.{Forest, nil, node, ◌⊕◌, count, count-⊕}
use cadabra.Storage.{StrNode, Ex, is_index, multiply}
use cadabra.Storage.Multiplier.{Rational}
use cadabra.Cleanup.{number_of_direct_indices}
use cadabra.Cleanup.Indices.{
  find_argument, splice_argument, cleanup_partialderivative, cleanup_derivative,
}

module _ {Q : Type 0} where
  number_of_direct_indices-⊕ :
      (f g : Forest (StrNode Q))
      → number_of_direct_indices (f ⊕ g) ≡ number_of_direct_indices f + number_of_direct_indices g
  unfolding number_of_direct_indices
  number_of_direct_indices-⊕ nil g = omega arith
  number_of_direct_indices-⊕ (node s c r) g = omega (arith, number_of_direct_indices-⊕ r g)

  number_of_direct_indices-le : (f : Forest (StrNode Q)) → number_of_direct_indices f ≤ count f
  unfolding number_of_direct_indices
  number_of_direct_indices-le nil = omega arith
  number_of_direct_indices-le (node s c r) = ground (arith, number_of_direct_indices-le r)

  -- Only indices: no child that is an argument.
  find_argument-all_indices :
      (f : Forest (StrNode Q)) → number_of_direct_indices f ≡ count f → find_argument f ≡ none
  unfolding number_of_direct_indices find_argument
  find_argument-all_indices nil h = refl
  find_argument-all_indices (node s c r) h =
      ground (arith, find_argument-all_indices r, number_of_direct_indices-le r)

  -- The children of the argument in its place: their indices add up.
  splice_argument-indices :
      (f : Forest (StrNode Q)) (s : StrNode Q) (c : Forest (StrNode Q))
      → find_argument f ≡ some (s, c)
      → (number_of_direct_indices (splice_argument f)
          ≡ number_of_direct_indices f + number_of_direct_indices c)
        × (suc (count (splice_argument f)) ≡ count f + count c)
  unfolding number_of_direct_indices find_argument splice_argument
  splice_argument-indices nil s c h = absurd (cc)
  splice_argument-indices (node t d r) s c h = elim (Bool-cases (is_index t)) [
    | inl e ↦ ground (arith, splice_argument-indices r s c)
    | inr e ↦
        let h' : ◌≡◌ {A = Option (StrNode Q × Forest (StrNode Q))} (some (t, d)) (some (s, c)) =
          rw e at h in
        let same : d ≡ c = cc in
        let a = number_of_direct_indices-⊕ d r in let b = count-⊕ d r in ground (arith, a, b, same)
  ]

  -- The first child behind the indices is the argument.
  find_argument-behind :
      (f g : Forest (StrNode Q)) (s : StrNode Q) (c : Forest (StrNode Q))
      → number_of_direct_indices f ≡ count f
      → is_index s ≡ false
      → find_argument (f ⊕ node s c g) ≡ some (s, c)
  unfolding number_of_direct_indices find_argument
  find_argument-behind nil g s c h n = rw n refl
  find_argument-behind (node t d r) g s c h n =
      ground (arith, find_argument-behind r g s c, number_of_direct_indices-le r)

  splice_argument-behind :
      (f g : Forest (StrNode Q)) (s : StrNode Q) (c : Forest (StrNode Q))
      → number_of_direct_indices f ≡ count f
      → is_index s ≡ false
      → splice_argument (f ⊕ node s c g) ≡ f ⊕ (c ⊕ g)
  unfolding number_of_direct_indices splice_argument
  splice_argument-behind nil g s c h n = rw n refl
  splice_argument-behind (node t d r) g s c h n =
      ground (arith, splice_argument-behind r g s c, number_of_direct_indices-le r)

module _ (m : Rational) where
  open m use {Q, eqb}

  -- Where the first child of a derivative behind its first indices is a derivative of the same name,
  -- and both have an index, `cleanup_partialderivative` makes one derivative of them: with the product
  -- of the multipliers, and with the children of the inner derivative in its place among the children
  -- of the outer one, so that it has as many indices as both had.
  pub cleanup_partialderivative-nested :
      (e : Ex Q) (f g : Forest (StrNode Q)) (s : StrNode Q) (c : Forest (StrNode Q))
      → e.children ≡ f ⊕ node s c g
      → number_of_direct_indices f ≡ count f
      → is_index s ≡ false
      → e.head.name ≡ s.name
      → 0 < number_of_direct_indices e.children
      → 0 < number_of_direct_indices c
      → (cleanup_partialderivative m e
          ≡ (true, record { head = multiply m e.head s.multiplier; children = f ⊕ (c ⊕ g) }))
        × (number_of_direct_indices (f ⊕ (c ⊕ g))
            ≡ number_of_direct_indices e.children + number_of_direct_indices c)
  unfolding cleanup_partialderivative
  cleanup_partialderivative-nested e f g s c shape indices argument same outer inner =
      let found : find_argument e.children ≡ some (s, c) =
        rw shape (find_argument-behind f g s c indices argument) in
      let spliced : splice_argument e.children ≡ f ⊕ (c ⊕ g) =
        rw shape (splice_argument-behind f g s c indices argument) in
      let named : bytes_eq e.head.name s.name ≡ true =
        subst (λ n. bytes_eq e.head.name n ≡ true) same (bytes_eq_refl e.head.name) in
      let o : ltb 0 (number_of_direct_indices e.children) ≡ true = ground arith in
      let i : ltb 0 (number_of_direct_indices c) ≡ true = ground arith in
      let (a, b) = splice_argument-indices e.children s c found in
      (
        rw (found, cleanup_partialderivative) (rw (named, o, i, spliced) refl),
        subst
            (λ x.
              number_of_direct_indices x
              ≡ number_of_direct_indices e.children + number_of_direct_indices c)
            spliced a,
      )

  -- Where `cleanup_derivative` sets a derivative with children to zero, since it acts on nothing,
  -- `cleanup_partialderivative` does the same.
  pub cleanup_partialderivative-cleanup_derivative :
      (e : Ex Q)
      → 0 < count e.children
      → (cleanup_derivative m e).0 ≡ true
      → cleanup_partialderivative m e ≡ cleanup_derivative m e
  unfolding cleanup_partialderivative cleanup_derivative
  cleanup_partialderivative-cleanup_derivative e some_children vanishes =
      elim (Bool-cases (number_of_direct_indices e.children == count e.children)) [
        | inl h ↦
            let none_found = find_argument-all_indices e.children (ground arith) in
            let not_empty : count e.children == 0 ≡ false = ground arith in
            rw (none_found, cleanup_partialderivative) (rw (not_empty, h) refl)
        | inr h ↦ absurd (ground arith)
      ]
