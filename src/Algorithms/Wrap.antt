-- ===== src/Algorithms/Wrap.antt =====
-- core/Algorithm.cc: the helpers that replace a node by a number, and those that put a term into a
-- product of one factor and take it out again.
use cadabra.Base.{
  Bool, true, false, not, ◌&&◌, ◌||◌, Option, none, some, if◌then◌else◌, ◌≡◌, codes, bytes_eq,
}
use cadabra.Tree.{nil, node}
use cadabra.Storage.{StrNode, Ex, b_none, p_none, is_named, multiply, str_node, set_one}
use cadabra.Storage.Multiplier.{Rational}
use cadabra.Cleanup.{is_prod, is_sum}

-- A node and its parent, if it is not the head of the expression.
pub record NodeAt (Q : Type 0) : Type 0 where
  pub above : Option (StrNode Q)
  pub it : Ex Q

module _ {Q : Type 0} where
  abbrev below : (StrNode Q → Bool) → Option (StrNode Q) → Bool
  below test none = false
  below test (some p) = test p

  unfoldable pub is_termlike : NodeAt Q → Bool
  is_termlike p = elim p.above [ none ↦ not (is_sum p.it.head) | some s ↦ is_sum s ]

  unfoldable pub is_factorlike : NodeAt Q → Bool
  is_factorlike p = below is_prod p.above

  -- The names that neither a term nor a factor has.
  unfoldable pub is_structure : StrNode Q → Bool
  is_structure s =
      is_prod s
      || is_sum s
      || is_named (codes "\\asymimplicit") s
      || is_named (codes "\\comma") s
      || is_named (codes "\\equals") s

  unfoldable pub is_single_term : NodeAt Q → Bool
  unfolding is_structure
  is_single_term p =
      not (is_structure p.it.head || is_named (codes "\\arrow") p.it.head)
      && (elim p.above [ none ↦ true | some s ↦ is_sum s ])

  unfoldable pub is_nonprod_factor_in_prod : NodeAt Q → Bool
  unfolding is_structure
  is_nonprod_factor_in_prod p = not (is_structure p.it.head) && below is_prod p.above

module _ (m : Rational) where
  open m use {Q, one, mul}

  unfoldable pub node_one : Ex Q → Ex Q
  node_one e = record {
    head = record (e.head) { name = codes "1"; multiplier = one };
    children = nil;
  }

  unfoldable pub node_integer : Ex Q → Q → Ex Q
  unfolding node_one
  node_integer e num = let r = node_one e in record r { head = multiply m r.head num }

  unfoldable pub force_prod_wrap : Ex Q → Ex Q
  force_prod_wrap e =
      let prod = str_node m (codes "\\prod") b_none p_none in
      record {
        head = record prod { bracket = e.head.bracket; multiplier = e.head.multiplier };
        children = node (set_one m (record (e.head) { bracket = b_none })) e.children nil;
      }

  unfoldable pub prod_wrap_single_term : NodeAt Q → Bool × Ex Q
  unfolding force_prod_wrap
  prod_wrap_single_term p = if is_single_term p then (true, force_prod_wrap p.it) else (false, p.it)

  -- The only factor gets the multiplier of the product twice: multiplied to its own, and then in the
  -- place of the result.
  unfoldable pub prod_unwrap_single_term : Ex Q → Bool × Ex Q
  prod_unwrap_single_term e = elim e.children [
    | node s c nil ↦
        if is_prod e.head
        then (let s1 = multiply m s e.head.multiplier in
            let s2 = record s1 { bracket = e.head.bracket } in
            let s3 = record s2 { multiplier = e.head.multiplier } in
            (true, record { head = s3; children = c }))
        else (false, e)
    | _ ↦ (false, e)
  ]

  -- What `prod_wrap_single_term` puts into a product, `prod_unwrap_single_term` takes out again
  -- unchanged.
  pub prod_unwrap_single_term-prod_wrap_single_term :
      (p : NodeAt Q)
      → is_single_term p ≡ true
      → prod_unwrap_single_term (prod_wrap_single_term p).1 ≡ (true, p.it)
  unfolding prod_unwrap_single_term prod_wrap_single_term is_prod is_named bytes_eq
  prod_unwrap_single_term-prod_wrap_single_term p h = rw h
