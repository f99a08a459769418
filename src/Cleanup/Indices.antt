-- ===== src/Cleanup/Indices.antt =====
-- core/Cleanup.cc: the simplification of derivatives, deltas and components, and of a whole tree.
use cadabra.Base.{
  Bool, true, false, not, ◌&&◌, Option, none, some, ◌==◌, ltb, if◌then◌else◌, codes, bytes_eq,
}
use cadabra.Tree.{Forest, nil, node, ◌⊕◌, count}
use cadabra.Storage.{StrNode, Ex, is_index, is_rational, multiply, set_zero}
use cadabra.Storage.Multiplier.{Rational}
use cadabra.Cleanup.{is_comma, number_of_direct_indices, push_down_multiplier}

module _ {Q : Type 0} where
  -- The first child that is not an index, with its children.
  unfoldable pub find_argument : Forest (StrNode Q) → Option (StrNode Q × Forest (StrNode Q))
  find_argument nil = none
  find_argument (node s c r) =
      let rest = find_argument r in if is_index s then rest else some (s, c)

  -- `flatten` and `erase` at that child: its children take its place.
  unfoldable pub splice_argument : Forest (StrNode Q) → Forest (StrNode Q)
  splice_argument nil = nil
  splice_argument (node s c r) =
      let rest = splice_argument r in if is_index s then node s c rest else c ⊕ r

module _ (m : Rational) where
  open m use {Q, eqb}

  unfoldable pub cleanup_partialderivative : Ex Q → Bool × Ex Q
  unfolding find_argument splice_argument
  cleanup_partialderivative e = elim (find_argument e.children) [
    | none ↦
        if count e.children == 0 then (false, e) else (true, record e { head = set_zero m e.head })
    | some (s, c) ↦
        if bytes_eq e.head.name s.name
          && ltb 0 (number_of_direct_indices e.children)
          && ltb 0 (number_of_direct_indices c)
        then (
          true,
          record { head = multiply m e.head s.multiplier; children = splice_argument e.children },
        )
        else (false, e)
  ]

  unfoldable pub cleanup_derivative : Ex Q → Bool × Ex Q
  cleanup_derivative e =
      if number_of_direct_indices e.children == count e.children
      then (true, record e { head = set_zero m e.head })
      else (false, e)

  unfoldable pub cleanup_diagonal : Ex Q → Bool × Ex Q
  cleanup_diagonal e = elim e.children [
    | node s c (node t d nil) ↦
        if is_rational s && is_rational t && not (eqb s.multiplier t.multiplier)
        then (true, record e { head = set_zero m e.head })
        else (false, e)
    | _ ↦ (false, e)
  ]

  unfoldable pub cleanup_kronecker : Ex Q → Bool × Ex Q
  cleanup_kronecker e = elim e.children [
    | node s c (node t d nil) ↦
        if is_rational s && is_rational t
        then (if not (eqb s.multiplier t.multiplier)
            then (true, record e { head = set_zero m e.head })
            else (true, record { head = record (e.head) { name = codes "1" }; children = nil }))
        else (false, e)
    | _ ↦ (false, e)
  ]

  -- The loop of `cleanup_components` for a tensor with indices: whether it reaches a list with
  -- entries.
  unfoldable pub has_entries : Forest (StrNode Q) → Bool
  has_entries nil = false
  has_entries (node s c r) =
      let rest = has_entries r in if is_comma s then not (count c == 0) else rest

  -- The nodes that stand in the place of a scalar components node, whose list has this first entry:
  -- the list, the entry and its empty list of index values are taken away, and then the node itself.
  -- Taking away a node that is not there is undefined.
  unfoldable pub unwrap_scalar :
      Forest (StrNode Q) → Forest (StrNode Q) → Option (Forest (StrNode Q))
  unwrap_scalar (node u x values) others = some (values ⊕ others)
  unwrap_scalar nil (node u x others) = some others
  unwrap_scalar nil nil = none

  -- `cleanup_components`, with the nodes that stand in the place of the node afterwards.
  unfoldable pub cleanup_components : Ex Q → Option (Bool × Forest (StrNode Q))
  unfolding has_entries unwrap_scalar
  cleanup_components e =
      let (ret, e1) = push_down_multiplier m e in
      let vanishing = node (set_zero m e1.head) e1.children nil in
      elim e1.children [
        | nil ↦ none
        | node s entries r ↦
            if is_comma s
            then (elim entries [
              | nil ↦ some (true, vanishing)
              | node q d others ↦ elim (unwrap_scalar d (others ⊕ r)) [
                | none ↦ none
                | some f ↦ some (true, f)
              ]
            ])
            else if has_entries e1.children
            then some (ret, node e1.head e1.children nil)
            else some (true, vanishing)
      ]

  -- `cleanup_dispatch_deep`: every node, the deepest first.
  unfoldable pub cleanup_dispatch_deep : (Ex Q → Ex Q) → Forest (StrNode Q) → Forest (StrNode Q)
  cleanup_dispatch_deep dispatch nil = nil
  cleanup_dispatch_deep dispatch (node s c r) =
      let e = dispatch (record { head = s; children = cleanup_dispatch_deep dispatch c }) in
      node e.head e.children (cleanup_dispatch_deep dispatch r)
