-- ===== src/Cleanup.antt =====
-- core/Cleanup.cc: the simplifications of one node that every algorithm ends with. `it` is a node
-- with its children; where the code replaces the node by its only child, the result is that child.
-- Each function gives its `bool` result and the new node.
pub mod Value
pub mod Scale
pub mod Sum
pub mod Product
pub mod Collapse
pub mod LostFactor
pub mod Indices
pub mod Derivative
mod DerivativeTests
mod Tests
use cadabra.Base.{
  ℕ, suc, ◌+◌, ◌<◌, Bool, true, false, not, ◌&&◌, ◌||◌, Option, none, some, ltb, ◌==◌,
  if◌then◌else◌, Bytes, codes, bytes_eq,
}
use cadabra.Tree.{Forest, nil, node, ◌⊕◌, count}
use cadabra.Storage.{
  StrNode, Ex, Bracket, b_none, is_named, is_index, is_rational, is_zero, multiply, set_zero,
  set_one,
}
use cadabra.Storage.Multiplier.{Rational}
use cadabra.Storage.Names.{is_range_wildcard}

abbrev pub is_b_none : Bracket → Bool
is_b_none b_none = true
is_b_none _ = false

module _ {Q : Type 0} where
  unfoldable pub is_prod : StrNode Q → Bool
  is_prod s = is_named (codes "\\prod") s

  unfoldable pub is_sum : StrNode Q → Bool
  is_sum s = is_named (codes "\\sum") s

  unfoldable pub is_components : StrNode Q → Bool
  is_components s = is_named (codes "\\components") s

  unfoldable pub is_comma : StrNode Q → Bool
  is_comma s = is_named (codes "\\comma") s

  -- `Algorithm::number_of_direct_indices`.
  pub number_of_direct_indices : Forest (StrNode Q) → ℕ
  number_of_direct_indices nil = 0
  number_of_direct_indices (node s c r) = (if is_index s then 1 else 0) + number_of_direct_indices r

  -- The bracket of the last child that has one, or of the first child.
  abbrev pub last_bracket : Bracket → Forest (StrNode Q) → Bracket
  last_bracket b nil = b
  last_bracket b (node s c r) = last_bracket (if not (is_b_none s.bracket) then s.bracket else b) r

  abbrev pub first_bracket : Forest (StrNode Q) → Bracket
  first_bracket nil = b_none
  first_bracket (node s c r) = s.bracket

-- Siblings after one of the loops over them, with the number that the loop collected and whether it
-- changed anything.
pub record Loop (Q : Type 0) : Type 0 where
  pub factor : Q
  pub changed : Bool
  pub siblings : Forest (StrNode Q)

module _ (m : Rational) where
  open m use {Q, eqb, one, mul, parse}

  -- The body of `push_down_multiplier` at a node, given what its children become when they are
  -- multiplied as terms and as a list of component values.
  unfoldable pub choose_push :
      StrNode Q → Forest (StrNode Q) → Forest (StrNode Q) → Forest (StrNode Q) → Ex Q
  choose_push s c terms values =
      if eqb s.multiplier one
      then record { head = s; children = c }
      else if is_sum s
      then record { head = set_one m s; children = terms }
      else if is_components s
      then record { head = set_one m s; children = values }
      else record { head = s; children = c }

  -- Its loops: over terms that are multiplied by `q` and pushed down further (`push_children`); over
  -- the entries of a components node (`push_last` finds the last child, and `do_list` goes through
  -- it by `push_values`), whose second child is the value (`push_value`). An entry without a second
  -- child, where the code would read past the end, stays as it is.
  unfoldable mutual
    pub push_children : Q → Forest (StrNode Q) → Forest (StrNode Q)
    push_children q nil = nil
    push_children q (node s c r) =
        let s' = multiply m s q in
        let e = choose_push s' c (push_children s'.multiplier c) (push_last s'.multiplier c) in
        node e.head e.children (push_children q r)

    pub push_last : Q → Forest (StrNode Q) → Forest (StrNode Q)
    push_last q nil = nil
    push_last q (node s c nil) = node s (if is_comma s then push_values q c else push_value q c) nil
    push_last q (node s c (node t d r)) = node s c (push_last q (node t d r))

    pub push_values : Q → Forest (StrNode Q) → Forest (StrNode Q)
    push_values q nil = nil
    push_values q (node s c r) = node s (push_value q c) (push_values q r)

    pub push_value : Q → Forest (StrNode Q) → Forest (StrNode Q)
    push_value q nil = nil
    push_value q (node s c nil) = node s c nil
    push_value q (node s c (node v d r)) =
        let v' = multiply m v q in
        let e = choose_push v' d (push_children v'.multiplier d) (push_last v'.multiplier d) in
        node s c (node e.head e.children r)

  unfoldable pub push_down_multiplier : Ex Q → Bool × Ex Q
  unfolding choose_push push_children
  push_down_multiplier e =
      let mult = e.head.multiplier in
      (
        not (eqb mult one) && (is_sum e.head || is_components e.head),
        choose_push e.head e.children (push_children mult e.children) (push_last mult e.children),
      )

  -- The loop of `cleanup_numericalflat`, from a factor collected so far.
  next_factor : Q → StrNode Q → Q
  next_factor factor s =
      if is_index s
      then factor
      else if is_rational s
      then mul (mul factor s.multiplier) (parse s.name)
      else mul factor s.multiplier

  keep_factor : StrNode Q → Forest (StrNode Q) → Loop Q → Loop Q
  keep_factor s c rest =
      if is_index s
      then record rest { siblings = node s c rest.siblings }
      else if is_rational s
      then record rest { changed = true }
      else record rest {
        changed = not (eqb s.multiplier one) || rest.changed;
        siblings = node (set_one m s) c rest.siblings;
      }

  pub collect_factors : Q → Forest (StrNode Q) → Loop Q
  unfolding next_factor keep_factor
  collect_factors factor nil = record { factor = factor; changed = false; siblings = nil }
  collect_factors factor (node s c r) = keep_factor s c (collect_factors (next_factor factor s) r)

  unfoldable pub cleanup_numericalflat : Ex Q → Bool × Ex Q
  unfolding collect_factors
  cleanup_numericalflat e =
      let l = collect_factors one e.children in
      (
        l.changed || not (eqb l.factor one),
        record { head = multiply m e.head l.factor; children = l.siblings },
      )

  -- The first loop of `cleanup_productlike`: the children of an inner product take its place, and
  -- the loop goes on at the first of them.
  pub flatten_prods : Q → Forest (StrNode Q) → Loop Q
  flatten_prods q nil = record { factor = q; changed = false; siblings = nil }
  flatten_prods q (node s c r) = elim (is_prod s) [
    | true ↦
        let inner = flatten_prods (mul s.multiplier q) c in
        let rest = flatten_prods inner.factor r in
        record { factor = rest.factor; changed = true; siblings = inner.siblings ⊕ rest.siblings }
    | false ↦ let rest = flatten_prods q r in record rest { siblings = node s c rest.siblings }
  ]

  -- `tr.begin(it)->is_range_wildcard()` for a single child.
  unfoldable pub single_range_wildcard : Forest (StrNode Q) → Bool
  single_range_wildcard (node s c nil) = is_range_wildcard s.name
  single_range_wildcard _ = false

  -- The end of `cleanup_productlike`, on the number of factors that are left.
  unfoldable pub collapse_product : Bool → StrNode Q → Forest (StrNode Q) → Bool × Ex Q
  collapse_product ret s nil =
      (true, record { head = record s { name = codes "1" }; children = nil })
  collapse_product ret s (node t c nil) =
      let t' = record t {
        multiplier = s.multiplier;
        bracket = s.bracket;
        parent_rel = s.parent_rel;
      } in
      (true, (push_down_multiplier (record { head = t'; children = c })).1)
  collapse_product ret s (node t c (node u d r)) =
      (ret, record { head = s; children = node t c (node u d r) })

  unfoldable pub cleanup_productlike : Ex Q → Bool × Ex Q
  unfolding collapse_product single_range_wildcard flatten_prods
  cleanup_productlike e =
      let l = flatten_prods e.head.multiplier e.children in
      let flat : Ex Q = record {
        head = record (e.head) { multiplier = l.factor };
        children = l.siblings;
      } in
      let f = if l.changed then (true, flat) else cleanup_numericalflat flat in
      if single_range_wildcard l.siblings
      then (l.changed, flat)
      else collapse_product f.0 f.1.head f.1.children

  -- `cleanup_sumlike`: the terms that vanish go, and inner sums are spliced in.
  pub remove_zeros : Forest (StrNode Q) → Forest (StrNode Q)
  remove_zeros nil = nil
  remove_zeros (node s c r) =
      let rest = remove_zeros r in if is_zero m s then rest else node s c rest

  pub has_zero : Forest (StrNode Q) → Bool
  has_zero nil = false
  has_zero (node s c r) = is_zero m s || has_zero r

  pub spread_terms : Q → Bracket → Forest (StrNode Q) → Forest (StrNode Q)
  spread_terms q b nil = nil
  spread_terms q b (node t c r) =
      node (record t { multiplier = mul q t.multiplier; bracket = b }) c (spread_terms q b r)

  pub flatten_sums : Bracket → Forest (StrNode Q) → Forest (StrNode Q)
  flatten_sums b nil = nil
  flatten_sums b (node s c r) =
      let rest = flatten_sums b r in
      if is_sum s then spread_terms s.multiplier b c ⊕ rest else node s c rest

  pub has_sum : Forest (StrNode Q) → Bool
  has_sum nil = false
  has_sum (node s c r) = is_sum s || has_sum r

  -- What follows the removal of the zeros, on the terms that are left.
  unfoldable pub collapse_sum : Bool → StrNode Q → Forest (StrNode Q) → Bool × Ex Q
  collapse_sum ret s nil = (true, record { head = set_zero m s; children = nil })
  collapse_sum ret s (node t c nil) =
      if is_range_wildcard t.name
      then (ret, record { head = s; children = node t c nil })
      else (true, record { head = multiply m t s.multiplier; children = c })
  collapse_sum ret s (node t c (node u d r)) =
      let terms = node t c (node u d r) in
      let flat : Ex Q = record {
        head = s;
        children = flatten_sums (last_bracket (first_bracket terms) terms) terms;
      } in
      if ret || has_sum terms then (true, flat) else push_down_multiplier flat

  unfoldable pub cleanup_sumlike : Ex Q → Bool × Ex Q
  unfolding collapse_sum remove_zeros has_zero
  cleanup_sumlike e = collapse_sum (has_zero e.children) e.head (remove_zeros e.children)
