-- ===== src/Algorithms/Tests.antt =====
-- Runs of the algorithms on small expressions with whole multipliers, and the theorems there.
use cadabra.Base.{
  ℕ, Bool, true, false, none, some, ◌≡◌, ◌↔◌, refl, inl, inr, arith, codes, bytes_eq, ltb, Bytes,
}
use Prim.Native.String.{String}
use mathlib.Core.List.{Perm}
use cadabra.Tree.{Forest, nil, node, count}
use cadabra.Storage.{StrNode, Ex, b_none, p_none, is_named, is_rational, is_index, is_zero}
use cadabra.Storage.Multiplier.{whole}
use cadabra.Storage.Names.{is_name_wildcard}
use cadabra.Cleanup.{is_prod, is_sum}
use cadabra.Cleanup.Value.{Assignment, value}
use cadabra.Compare.{
  Settings, bytes_less, compare_sets, compare_heads, subtree_compare, subtree_exact_equal,
}
use cadabra.Algorithms.FlattenSum
use cadabra.Algorithms.Distribute.{distribute}
use cadabra.Algorithms.Distribute.Choices.{choices}
use cadabra.Algorithms.Distribute.Expansion.{value-distribute}
use cadabra.Algorithms.CollectTerms.{
  calc_hash, entries, terms_of, collect, absorb, merges, equal_terms, collapse, remove_zeroed_terms,
  collect_terms,
}
use cadabra.Algorithms.CollectTerms.Collected.{PlainChildren, value-collect_terms}
use cadabra.Algorithms.CollectTerms.Values.{Plain}
use cadabra.Algorithms.CollectTerms.Distinct.{Distinct, Distinct-collect}
use cadabra.Algorithms.SortSum.{SortOrder, should_swap, out_of_order, bubble, bubbles, sort_sum}
use cadabra.Algorithms.SortSum.Terms.{terms, InOrder, terms-sort_sum}
use cadabra.Algorithms.Wrap.{
  NodeAt, is_single_term, is_structure, prod_wrap_single_term, prod_unwrap_single_term,
  prod_unwrap_single_term-prod_wrap_single_term,
}

abbrev sym_node : String → ℕ → StrNode ℕ
sym_node n q = record { name = codes n; multiplier = q; bracket = b_none; parent_rel = p_none }

abbrev leaf : String → ℕ → Forest (StrNode ℕ) → Forest (StrNode ℕ)
leaf n q r = node (sym_node n q) nil r

abbrev all_three : Assignment ℕ
all_three = record { atom = λ n c. 3; weight = λ s c. 1 }

abbrev plain : Settings ℕ
plain = record { properties = none; checksets = true; literal_wildcards = false }

abbrev less : ℕ → ℕ → Bool
less a b = ltb a b

abbrev address : Bytes → ℕ
address n = 5

abbrev no_order : SortOrder ℕ
no_order e = none

-- 5 a + 7 (3 c + d).
abbrev nested : Ex ℕ
nested = record {
  head = sym_node "\\sum" 1;
  children = leaf "a" 5 (node (sym_node "\\sum" 7) (leaf "c" 3 (leaf "d" 1 nil)) nil);
}

value-apply_example :
    (r : Bool × Ex ℕ) × (FlattenSum.apply whole false nested ≡ some r)
    × (value whole all_three r.1 ≡ value whole all_three nested)
unfolding is_sum is_named bytes_eq FlattenSum.NoEmptySum
value-apply_example =
    FlattenSum.value-apply whole all_three false nested refl
      (inl refl, (inr (λ h. absurd (omega arith)), tt))

-- 2 a (3 c + 4 d) (b + c).
abbrev product : Ex ℕ
product = record {
  head = sym_node "\\prod" 2;
  children = leaf "a" 1 (
      node (sym_node "\\sum" 1) (leaf "c" 3 (leaf "d" 4 nil))
        (node (sym_node "\\sum" 1) (leaf "b" 1 (leaf "c" 1 nil)) nil));
}

value-distribute_example :
    (r : Ex ℕ) × (distribute whole product ≡ some r)
    × (is_sum r.head ≡ true)
    × (count r.children ≡ choices product.children)
    × (value whole all_three r ≡ value whole all_three product)
unfolding is_prod is_sum is_named bytes_eq choices
value-distribute_example = value-distribute whole all_three product refl (λ h. absurd (omega arith))

run-distribute :
    distribute whole product
    ≡ some (record {
      head = sym_node "\\sum" 1;
      children = node (sym_node "\\prod" 6) (leaf "a" 1 (leaf "c" 1 (leaf "b" 1 nil))) (
          node (sym_node "\\prod" 6) (leaf "a" 1 (leaf "c" 1 (leaf "c" 1 nil))) (
            node
              (sym_node "\\prod" 8)
              (leaf "a" 1 (leaf "d" 1 (leaf "b" 1 nil)))
              (node (sym_node "\\prod" 8) (leaf "a" 1 (leaf "d" 1 (leaf "c" 1 nil))) nil)));
    })
unfolding distribute is_sum is_named bytes_eq
run-distribute = refl

-- 5 a + 2 b + 3 a.
abbrev repeated : Ex ℕ
repeated = record { head = sym_node "\\sum" 1; children = leaf "a" 5 (leaf "b" 2 (leaf "a" 3 nil)) }

run-collect_terms :
    collect_terms whole less plain address repeated
    ≡ (true, record { head = sym_node "\\sum" 1; children = leaf "a" 8 (leaf "b" 2 nil) })
unfolding collect_terms collect absorb merges equal_terms collapse remove_zeroed_terms entries
    terms_of calc_hash subtree_exact_equal subtree_compare compare_heads compare_sets is_index
    is_rational is_name_wildcard is_zero is_sum is_named bytes_eq bytes_less
run-collect_terms = refl

value-collect_terms_example :
    value whole all_three (collect_terms whole less plain address repeated).1
    ≡ value whole all_three repeated
unfolding is_sum is_named bytes_eq PlainChildren Plain
value-collect_terms_example =
    value-collect_terms whole less plain address all_three (λ n c d h. refl) (λ s t c d h. refl)
      repeated refl refl (tt, (tt, (tt, tt)))

Distinct-collect_example :
    Distinct whole less plain address
      (collect whole less plain address 3 (entries repeated.children)).1
unfolding entries
Distinct-collect_example = Distinct-collect whole less plain address repeated.children

terms-sort_sum_example :
    Perm (terms (sort_sum whole less plain no_order repeated).1.children) (terms repeated.children)
    × (((sort_sum whole less plain no_order repeated).0 ≡ false) ↔ (
        InOrder whole less plain no_order repeated.children
        × (sort_sum whole less plain no_order repeated ≡ (false, repeated))))
terms-sort_sum_example = terms-sort_sum whole less plain no_order repeated

run-sort_sum : sort_sum whole less plain no_order repeated ≡ (
  true,
  record { head = sym_node "\\sum" 1; children = leaf "a" 5 (leaf "a" 3 (leaf "b" 2 nil)) },
)
unfolding sort_sum bubbles bubble out_of_order should_swap subtree_compare compare_heads
    compare_sets is_index is_rational is_name_wildcard bytes_eq bytes_less
run-sort_sum = refl

-- The term 3 a.
abbrev term : NodeAt ℕ
term = record {
  above = some (sym_node "\\sum" 1);
  it = record { head = sym_node "a" 3; children = nil };
}

prod_unwrap_single_term-wrapped :
    prod_unwrap_single_term whole (prod_wrap_single_term whole term).1 ≡ (true, term.it)
unfolding is_single_term is_structure is_prod is_sum is_named bytes_eq
prod_unwrap_single_term-wrapped = prod_unwrap_single_term-prod_wrap_single_term whole term refl

-- \prod{3 a} with the multiplier 2 becomes 2 a: the factor's own multiplier is lost.
prod_unwrap_single_term-loses :
    prod_unwrap_single_term whole (record { head = sym_node "\\prod" 2; children = leaf "a" 3 nil })
    ≡ (true, record { head = sym_node "a" 2; children = nil })
unfolding prod_unwrap_single_term is_prod is_named bytes_eq
prod_unwrap_single_term-loses = refl

-- 3 a + 4 a in a sum with the multiplier 2 becomes 7 a: the multiplier of the sum is lost.
collect_terms-loses :
    collect_terms whole less plain address
      (record { head = sym_node "\\sum" 2; children = leaf "a" 3 (leaf "a" 4 nil) })
    ≡ (true, record { head = sym_node "a" 7; children = nil })
unfolding collect_terms collect absorb merges equal_terms collapse remove_zeroed_terms entries
    terms_of calc_hash subtree_exact_equal subtree_compare compare_heads compare_sets is_index
    is_rational is_name_wildcard is_zero is_sum is_named bytes_eq bytes_less
collect_terms-loses = refl
