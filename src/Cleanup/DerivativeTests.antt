-- ===== src/Cleanup/DerivativeTests.antt =====
-- Runs of the simplification of derivatives, deltas and components, and the theorems there.
use cadabra.Base.{ℕ, ◌≡◌, ◌+◌, refl, some, true, false, arith, codes, bytes_eq}
use Prim.Native.String.{String}
use cadabra.Tree.{Forest, nil, node, ◌⊕◌}
use cadabra.Storage.{
  StrNode, Ex, ParentRel, b_none, p_none, p_sub, is_named, is_index, is_rational, multiply,
}
use cadabra.Storage.Multiplier.{whole}
use cadabra.Cleanup.{
  is_comma, is_components, is_sum, choose_push, number_of_direct_indices, push_down_multiplier,
}
use cadabra.Cleanup.Indices.{
  find_argument, splice_argument, cleanup_partialderivative, cleanup_derivative, cleanup_diagonal,
  cleanup_kronecker, cleanup_components, unwrap_scalar, has_entries,
}
use cadabra.Cleanup.Derivative.{
  cleanup_partialderivative-nested, cleanup_partialderivative-cleanup_derivative,
}

abbrev sym_node : String → ℕ → ParentRel → StrNode ℕ
sym_node n q p = record { name = codes n; multiplier = q; bracket = b_none; parent_rel = p }

abbrev index_node : String → Forest (StrNode ℕ) → Forest (StrNode ℕ)
index_node n r = node (sym_node n 1 p_sub) nil r

abbrev number : ℕ → Forest (StrNode ℕ) → Forest (StrNode ℕ)
number q r = node (sym_node "1" q p_none) nil r

-- 2 \partial_{a}{3 \partial_{b}{A}}.
abbrev inner : Forest (StrNode ℕ)
inner = index_node "b" (node (sym_node "A" 1 p_none) nil nil)

abbrev nested : Ex ℕ
nested = record {
  head = sym_node "\\partial" 2 p_none;
  children = index_node "a" (node (sym_node "\\partial" 3 p_none) inner nil);
}

cleanup_partialderivative_run :
    cleanup_partialderivative whole nested
    ≡ (true, record { head = sym_node "\\partial" 6 p_none; children = index_node "a" inner })
unfolding cleanup_partialderivative find_argument splice_argument is_index number_of_direct_indices
    bytes_eq
cleanup_partialderivative_run = refl

cleanup_partialderivative-nested_example :
    (cleanup_partialderivative whole nested ≡ (
      true,
      record { head = multiply whole nested.head 3; children = index_node "a" nil ⊕ (inner ⊕ nil) },
    ))
    × (number_of_direct_indices (index_node "a" nil ⊕ (inner ⊕ nil))
        ≡ number_of_direct_indices nested.children + number_of_direct_indices inner)
unfolding is_index number_of_direct_indices
cleanup_partialderivative-nested_example =
    cleanup_partialderivative-nested whole nested (index_node "a" nil) nil
      (sym_node "\\partial" 3 p_none) inner refl refl refl refl (omega arith) (omega arith)

-- \partial_{a}, which acts on nothing.
abbrev bare : Ex ℕ
bare = record { head = sym_node "\\partial" 2 p_none; children = index_node "a" nil }

cleanup_partialderivative-cleanup_derivative_example :
    cleanup_partialderivative whole bare ≡ cleanup_derivative whole bare
unfolding cleanup_derivative is_index number_of_direct_indices
cleanup_partialderivative-cleanup_derivative_example =
    cleanup_partialderivative-cleanup_derivative whole bare (omega arith) refl

abbrev delta : ℕ → ℕ → Ex ℕ
delta a b = record { head = sym_node "\\delta" 5 p_none; children = number a (number b nil) }

deltas_run :
    (cleanup_kronecker whole (delta 1 1)
      ≡ (true, record { head = sym_node "1" 5 p_none; children = nil }))
    × (cleanup_kronecker whole (delta 1 2)
        ≡ (true, record { head = sym_node "\\delta" 0 p_none; children = number 1 (number 2 nil) }))
    × (cleanup_diagonal whole (delta 1 1) ≡ (false, delta 1 1))
    × (cleanup_diagonal whole (delta 1 2) ≡ cleanup_kronecker whole (delta 1 2))
unfolding cleanup_kronecker cleanup_diagonal is_rational bytes_eq
deltas_run = (refl, refl, refl, refl)

-- A components node without indices, with the value 3 A.
abbrev scalar : Ex ℕ
scalar = record {
  head = sym_node "\\components" 2 p_none;
  children =
      node (sym_node "\\comma" 1 p_none)
        (node (sym_node "\\equals" 1 p_none)
          (node (sym_node "\\comma" 1 p_none) nil (node (sym_node "A" 3 p_none) nil nil)) nil)
        nil;
}

cleanup_components_run :
    cleanup_components whole scalar ≡ some (true, node (sym_node "A" 6 p_none) nil nil)
unfolding cleanup_components push_down_multiplier choose_push is_sum is_components is_comma is_named
    bytes_eq unwrap_scalar has_entries
cleanup_components_run = refl
