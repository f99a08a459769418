-- ===== src/Algorithms/CollectTerms/Collected.antt =====
-- core/algorithms/collect_terms.cc and the value of a sum.
use cadabra.Base.{
  ℕ, zero, suc, Bool, true, List, [], ◌∷◌, length, Bytes, ◌≡◌, refl, sym, ap, ap₂, ◌∙◌, inl, inr,
  Bool-cases, arith,
}
use cadabra.Tree.{Forest, nil, node}
use cadabra.Storage.{StrNode, Ex, set_one}
use cadabra.Storage.Multiplier.{Rational, add_mul}
use cadabra.Cleanup.{is_sum}
use cadabra.Cleanup.Value.{Assignment, sum_value, value}
use cadabra.Cleanup.Scale.{value-set_one, value_zero, sum_value_node}
use cadabra.Cleanup.Sum.{value_of_terms}
use cadabra.Compare.{Settings}
use cadabra.Compare.Equal.{Alike, subtree_exact_equal-Alike}
use cadabra.Algorithms.CollectTerms.{
  Entry, entries, terms_of, equal_terms, merges, absorb, collect, collect_terms,
}
use cadabra.Algorithms.CollectTerms.Zeroed.{sum_value-remove_zeroed_terms, value-collapse}
use cadabra.Algorithms.CollectTerms.Values.{Plain, value-Alike}

module _ {Q : Type 0} where
  unfoldable pub PlainTerms : List (Entry Q) → Type 0
  PlainTerms [] = Unit
  PlainTerms (x ∷ r) = Plain x.term.children × PlainTerms r

  -- No term has a wildcard below it.
  unfoldable pub PlainChildren : Forest (StrNode Q) → Type 0
  PlainChildren nil = Unit
  PlainChildren (node s c r) = Plain c × PlainChildren r

  PlainTerms-entries : (f : Forest (StrNode Q)) → PlainChildren f → PlainTerms (entries f)
  unfolding PlainTerms PlainChildren entries
  PlainTerms-entries nil h = tt
  PlainTerms-entries (node s c r) h = (h.0, PlainTerms-entries r h.1)

  terms_of-entries : (f : Forest (StrNode Q)) → terms_of (entries f) ≡ f
  unfolding terms_of entries
  terms_of-entries nil = refl
  terms_of-entries (node s c r) = ap (node s c) (terms_of-entries r)

module _ (m : Rational) (less : m.Q → m.Q → Bool) (settings : Settings m.Q)
    (address : Bytes → ℕ) where
  open m use {Q}

  PlainTerms-absorb :
      (one : Ex Q) (es : List (Entry Q)) (q : Q)
      → PlainTerms es
      → PlainTerms (absorb m less settings address one q es).rest
  unfolding PlainTerms absorb
  PlainTerms-absorb one [] q h = tt
  PlainTerms-absorb one (x ∷ r) q h = elim (Bool-cases (merges m less settings address one x)) [
    | inl e ↦ rw e (h.0, PlainTerms-absorb one r (m.add x.term.head.multiplier q) h.1)
    | inr e ↦ rw e (h.0, PlainTerms-absorb one r q h.1)
  ]

  merges-Alike :
      (one : Ex Q) (x : Entry Q)
      → merges m less settings address one x ≡ true
      → (one.head.name ≡ x.term.head.name)
        × (one.head.parent_rel ≡ x.term.head.parent_rel)
        × Alike one.children x.term.children
  unfolding merges equal_terms
  merges-Alike one x h =
      (subtree_exact_equal-Alike m less
          (record settings { checksets = true; literal_wildcards = true }) refl one x.term).0
        (ground (arith, h))

module _ (m : Rational) (less : m.Q → m.Q → Bool) (settings : Settings m.Q) (address : Bytes → ℕ)
    (a : Assignment m.Q)
    (atoms : (n : Bytes) (c d : Forest (StrNode m.Q)) → Alike c d → a.atom n c ≡ a.atom n d)
    (weights : (s t : StrNode m.Q) (c d : Forest (StrNode m.Q))
      → Alike (node s c nil) (node t d nil)
      → a.weight s c ≡ a.weight t d) where
  open m use {
    Q, eqb, eqb_iff, zero as q_zero, one as q_one, add, mul, add_assoc, add_comm, add_zero_left,
    mul_zero_left, mul_one_left,
  }

  abbrev total : List (Entry Q) → Q
  total es = sum_value m a (terms_of es)

  -- The value of a term with multiplier one.
  abbrev unit : Ex Q → Q
  unit e = value m a (record e { head = set_one m e.head })

  total_cons : (x : Entry Q) (r : List (Entry Q)) → total (x ∷ r) ≡ add (value m a x.term) (total r)
  unfolding terms_of
  total_cons x r = sum_value_node m a _ _ _

  value_of_merged :
      (one : Ex Q) (x : Entry Q)
      → Plain one.children
      → merges m less settings address one x ≡ true
      → value m a x.term ≡ mul x.term.head.multiplier (unit one)
  value_of_merged one x p h =
      let h' = merges-Alike m less settings address one x h in
      value-set_one m a x.term.head x.term.children
      ∙ ap (mul x.term.head.multiplier) (sym (value-Alike m a atoms weights one x.term h'.0 h'.2 p))

  add_left_comm : (x y z : Q) → add x (add y z) ≡ add y (add x z)
  add_left_comm x y z = sym (add_assoc x y z) ∙ ap (λ t. add t z) (add_comm x y) ∙ add_assoc y x z

  total-absorb :
      (one : Ex Q) (es : List (Entry Q)) (q : Q)
      → Plain one.children
      → add
          (mul (absorb m less settings address one q es).multiplier (unit one))
          (total (absorb m less settings address one q es).rest)
        ≡ add (mul q (unit one)) (total es)
  unfolding absorb
  total-absorb one [] q p = refl
  total-absorb one (x ∷ r) q p =
      let U = unit one in
      let k = x.term.head.multiplier in
      elim (Bool-cases (merges m less settings address one x)) [
        | inl e ↦
            let later = absorb m less settings address one (add k q) r in
            rw e (
              ap (add (mul later.multiplier U)) (
                total_cons _ later.rest
                ∙ ap (λ t. add t (total later.rest)) (value_zero m a _ _ refl)
                ∙ add_zero_left _)
              ∙ total-absorb one r (add k q) p
              ∙ ap (λ t. add t (total r)) (add_mul m k q U ∙ add_comm _ _)
              ∙ add_assoc _ _ _
              ∙ ap (add (mul q U)) (
                  ap (λ t. add t (total r)) (sym (value_of_merged one x p e))
                  ∙ sym (total_cons x r)))
        | inr e ↦
            let later = absorb m less settings address one q r in
            rw e (
              ap (add (mul later.multiplier U)) (total_cons x later.rest)
              ∙ add_left_comm _ _ _
              ∙ ap (add (value m a x.term)) (total-absorb one r q p)
              ∙ add_left_comm _ _ _
              ∙ ap (add (mul q U)) (sym (total_cons x r)))
      ]

  total-collect :
      (n : ℕ) (es : List (Entry Q))
      → PlainTerms es
      → total (collect m less settings address n es).1 ≡ total es
  unfolding collect PlainTerms terms_of
  total-collect zero es h = refl
  total-collect (suc n) [] h = refl
  total-collect (suc n) (x ∷ r) h = elim (Bool-cases x.listed) [
    | inl e ↦
        let A = absorb m less settings address x.term x.term.head.multiplier r in
        rw e (
          sum_value_node m a _ _ _
          ∙ ap₂ add (value-set_one m a _ x.term.children)
              (total-collect n A.rest (PlainTerms-absorb m less settings address x.term r _ h.1))
          ∙ total-absorb x.term r x.term.head.multiplier h.0
          ∙ ap (λ t. add t (total r)) (sym (value-set_one m a x.term.head x.term.children))
          ∙ sym (sum_value_node m a _ _ _))
    | inr e ↦ rw e (
        sum_value_node m a _ _ _
        ∙ ap (add _) (total-collect n r h.1)
        ∙ sym (sum_value_node m a _ _ _))
  ]

  -- `collect_terms` keeps the value of a sum with the multiplier one, if no name below its terms is
  -- a wildcard, and if the numbers assigned to atoms and the weights of index values are the same
  -- for children that the comparison does not tell apart.
  pub value-collect_terms :
      (e : Ex Q)
      → is_sum e.head ≡ true
      → e.head.multiplier ≡ q_one
      → PlainChildren e.children
      → value m a (collect_terms m less settings address e).1 ≡ value m a e
  unfolding collect_terms
  value-collect_terms e h o p =
      let es = entries e.children in
      value-collapse m a e.head _ h o
      ∙ value_of_terms m a e.head _ _ h (
          sum_value-remove_zeroed_terms m a _
          ∙ total-collect (length es) es (PlainTerms-entries e.children p)
          ∙ ap (sum_value m a) (terms_of-entries e.children))
