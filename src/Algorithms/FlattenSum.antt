-- ===== src/Algorithms/FlattenSum.antt =====
-- core/algorithms/flatten_sum.cc: the terms of inner sums become terms of the sum.
use cadabra.Base.{
  Bool, true, false, not, ◌&&◌, ◌||◌, Option, none, some, ◌==◌, if◌then◌else◌, ◌≡◌, ◌≢◌, ◌⊎◌, refl,
  sym, ap, ap₂, ◌∙◌, inl, inr, Bool-cases, codes, arith,
}
use cadabra.Base.Options.{◌>>=◌}
use cadabra.Tree.{Forest, nil, node, ◌⊕◌, count}
use cadabra.Storage.{StrNode, Ex, Bracket, b_none, b_no, multiply}
use cadabra.Storage.Multiplier.{Rational}
use cadabra.Storage.Names.{is_range_wildcard}
use cadabra.Cleanup.{is_sum, has_sum, last_bracket, first_bracket, spread_terms}
use cadabra.Cleanup.Value.{Assignment, sum_value, value}
use cadabra.Cleanup.Scale.{value_zero, sum_value_node, value_sum}
use cadabra.Cleanup.Sum.{
  sum_value-⊕, sum_value-spread_terms, value_of_terms, value_no_terms, value_one_term,
}

abbrev is_plain : Bracket → Bool
is_plain b_none = true
is_plain b_no = true
is_plain _ = false

module _ (m : Rational) where
  open m use {Q, zero}

  -- `Algorithm::node_zero`.
  unfoldable pub node_zero : Ex Q → Ex Q
  node_zero e = record {
    head = record (e.head) { name = codes "1"; multiplier = zero };
    children = nil;
  }

  unfoldable pub can_apply : Ex Q → Bool
  can_apply e =
      is_sum e.head && (count e.children == 1 || count e.children == 0 || has_sum m e.children)

  -- The loop over the terms of a sum with several, and whether it spliced any. The bracket of the
  -- first term of an inner sum is read, which is undefined where that has none.
  unfoldable pub splice : Bool → Bracket → Forest (StrNode Q) → Option (Bool × Forest (StrNode Q))
  splice only b nil = some (false, nil)
  splice only b (node s c r) = splice only b r >>= λ rest.
      (if is_sum s
        then (elim c [
          | nil ↦ none
          | node t d q ↦
              if not only || is_plain t.bracket
              then some (true, spread_terms m s.multiplier b (node t d q) ⊕ rest.1)
              else some (rest.0, node s (node t d q) rest.1)
        ])
        else some (rest.0, node s c rest.1))

  -- The case of several terms, of a single wildcard for a range too.
  unfoldable pub flatten_terms : Bool → Ex Q → Option (Bool × Ex Q)
  unfolding splice
  flatten_terms only e =
      splice only (last_bracket (first_bracket e.children) e.children) e.children >>= λ r.
      some (r.0, record e { children = r.1 })

  unfoldable pub apply : Bool → Ex Q → Option (Bool × Ex Q)
  unfolding flatten_terms node_zero
  apply only e = elim e.children [
    | nil ↦ some (true, node_zero e)
    | node s c nil ↦
        if is_range_wildcard s.name
        then flatten_terms only e
        else some (true, record { head = multiply m s e.head.multiplier; children = c })
    | _ ↦ flatten_terms only e
  ]

module _ {Q : Type 0} where
  -- No term is a sum without terms.
  unfoldable pub NoEmptySum : Forest (StrNode Q) → Type 0
  NoEmptySum nil = Unit
  NoEmptySum (node s c r) = ((is_sum s ≡ false) ⊎ (count c ≢ 0)) × NoEmptySum r

module _ (m : Rational) (a : Assignment m.Q) where
  open m use {Q, add, mul}

  value_of_rest :
      (s : StrNode Q) (c f g : Forest (StrNode Q))
      → sum_value m a f ≡ sum_value m a g
      → sum_value m a (node s c f) ≡ sum_value m a (node s c g)
  value_of_rest s c f g v = sum_value_node m a s c f ∙ ap (add _) v ∙ sym (sum_value_node m a s c g)

  value-splice :
      (only : Bool) (b : Bracket) (f : Forest (StrNode Q))
      → NoEmptySum f
      → (r : Bool × Forest (StrNode Q)) × (splice m only b f ≡ some r)
        × (sum_value m a r.1 ≡ sum_value m a f)
  unfolding splice NoEmptySum
  value-splice only b nil h = ((false, nil), refl, refl)
  value-splice only b (node s nil r) (ok, h) =
      let (rest, e, v) = value-splice only b r h in
      elim (Bool-cases (is_sum s)) [
        | inl i ↦ absurd (ground (arith, ok))
        | inr i ↦ ((rest.0, node s nil rest.1), rw (e, i), value_of_rest s nil rest.1 r v)
      ]
  value-splice only b (node s (node t d q) r) (ok, h) =
      let c = node t d q in
      let (rest, e, v) = value-splice only b r h in
      elim (Bool-cases (is_sum s)) [
        | inl i ↦ elim (Bool-cases (not only || is_plain t.bracket)) [
          | inl j ↦ (
            (true, spread_terms m s.multiplier b c ⊕ rest.1),
            rw (e, i, j),
            sum_value-⊕ m a (spread_terms m s.multiplier b c) rest.1
                ∙ ap₂ add (sum_value-spread_terms m a s.multiplier b c ∙ sym (value_sum m a s c i))
                    v
                ∙ sym (sum_value_node m a s c r),
          )
          | inr j ↦ ((rest.0, node s c rest.1), rw (e, i, j), value_of_rest s c rest.1 r v)
        ]
        | inr i ↦ ((rest.0, node s c rest.1), rw (e, i), value_of_rest s c rest.1 r v)
      ]

  value-flatten_terms :
      (only : Bool) (e : Ex Q)
      → is_sum e.head ≡ true
      → NoEmptySum e.children
      → (r : Bool × Ex Q) × (flatten_terms m only e ≡ some r) × (value m a r.1 ≡ value m a e)
  unfolding flatten_terms
  value-flatten_terms only e i h =
      let b = last_bracket (first_bracket e.children) e.children in
      let (r, eq, v) = value-splice only b e.children h in
      ((r.0, record e { children = r.1 }), rw eq, value_of_terms m a e.head r.1 e.children i v)

  value-apply_node :
      (only : Bool) (s : StrNode Q) (f : Forest (StrNode Q))
      → is_sum s ≡ true
      → NoEmptySum f
      → (r : Bool × Ex Q) × (apply m only (record { head = s; children = f }) ≡ some r)
        × (value m a r.1 ≡ value m a (record { head = s; children = f }))
  unfolding apply node_zero
  value-apply_node only s nil i h =
      (_, refl, value_zero m a _ nil refl ∙ sym (value_no_terms m a s i))
  value-apply_node only s (node t c nil) i h = elim (Bool-cases (is_range_wildcard t.name)) [
    | inl w ↦
        let (r, e, v) =
          value-flatten_terms only (record { head = s; children = node t c nil }) i h in
        (r, rw w e, v)
    | inr w ↦ (
      (true, record { head = multiply m t s.multiplier; children = c }),
      rw w,
      value_one_term m a s t c i,
    )
  ]
  value-apply_node only s (node t c (node u d q)) i h =
      value-flatten_terms only (record { head = s; children = node t c (node u d q) }) i h

  -- `flatten_sum` ends at every sum, unless one of its terms is a sum without terms, and what it
  -- leaves has the value of the sum.
  pub value-apply :
      (make_consistent_only : Bool) (e : Ex Q)
      → is_sum e.head ≡ true
      → NoEmptySum e.children
      → (r : Bool × Ex Q) × (apply m make_consistent_only e ≡ some r)
        × (value m a r.1 ≡ value m a e)
  value-apply only e i h = value-apply_node only e.head e.children i h
