-- ===== src/Cleanup/Tests.antt =====
-- Runs of the simplifications on small expressions with whole multipliers, and the theorems there.
use cadabra.Base.{ℕ, ◌≡◌, refl, inr, true, arith, codes, bytes_eq}
use Prim.Native.String.{String}
use cadabra.Tree.{Forest, nil, node}
use cadabra.Storage.{StrNode, Ex, b_none, p_none, is_named, is_index, is_zero}
use cadabra.Storage.Multiplier.{whole}
use cadabra.Storage.Names.{is_range_wildcard}
use cadabra.Cleanup.{
  is_prod, is_sum, is_components, cleanup_productlike, cleanup_sumlike, push_down_multiplier,
  cleanup_numericalflat, number_of_direct_indices, flatten_prods, flatten_sums, spread_terms,
  has_sum,
}
use cadabra.Cleanup.Value.{Assignment, value}
use cadabra.Cleanup.Scale.{value-push_down_multiplier}
use cadabra.Cleanup.Sum.{value-cleanup_sumlike}
use cadabra.Cleanup.Product.{value-cleanup_numericalflat}
use cadabra.Cleanup.Collapse.{value-cleanup_productlike}
use cadabra.Cleanup.LostFactor.{cleanup_productlike-ignores_multiplier}

abbrev sym_node : String → ℕ → StrNode ℕ
sym_node n q = record { name = codes n; multiplier = q; bracket = b_none; parent_rel = p_none }

abbrev leaf : String → ℕ → Forest (StrNode ℕ) → Forest (StrNode ℕ)
leaf n q r = node (sym_node n q) nil r

abbrev all_three : Assignment ℕ
all_three = record { atom = λ n c. 3; weight = λ s c. 1 }

-- 2 (5 a + 0 b + 7 (3 c + d)).
abbrev terms : Ex ℕ
terms = record {
  head = sym_node "\\sum" 2;
  children = leaf "a" 5 (leaf "b" 0 (node (sym_node "\\sum" 7) (leaf "c" 3 (leaf "d" 1 nil)) nil));
}

-- 2 * 5 a * 7 (3 c * 4).
abbrev factors : Ex ℕ
factors = record {
  head = sym_node "\\prod" 2;
  children = leaf "a" 5 (node (sym_node "\\prod" 7) (leaf "c" 3 (leaf "1" 4 nil)) nil);
}

run-cleanup_sumlike : cleanup_sumlike whole terms ≡ (
  true,
  record { head = sym_node "\\sum" 2; children = leaf "a" 5 (leaf "c" 21 (leaf "d" 7 nil)) },
)
unfolding cleanup_sumlike flatten_sums spread_terms has_sum is_zero is_sum is_named bytes_eq
    is_range_wildcard
run-cleanup_sumlike = refl

value-cleanup_sumlike_example :
    value whole all_three (cleanup_sumlike whole terms).1 ≡ value whole all_three terms
unfolding is_sum is_named bytes_eq
value-cleanup_sumlike_example = value-cleanup_sumlike whole all_three terms refl

value-push_down_multiplier_example :
    value whole all_three (push_down_multiplier whole terms).1 ≡ value whole all_three terms
value-push_down_multiplier_example = value-push_down_multiplier whole all_three terms

value-cleanup_numericalflat_example :
    value whole all_three (cleanup_numericalflat whole factors).1 ≡ value whole all_three factors
unfolding is_prod is_named bytes_eq
value-cleanup_numericalflat_example = value-cleanup_numericalflat whole all_three factors refl

value-cleanup_productlike_example :
    value whole all_three (cleanup_productlike whole factors).1 ≡ value whole all_three factors
unfolding is_prod is_named bytes_eq number_of_direct_indices is_index flatten_prods
value-cleanup_productlike_example =
    value-cleanup_productlike whole all_three factors refl refl (inr (omega arith))

-- \prod{\prod{5 a}}, which stands for 5 a, becomes a.
abbrev lone : Ex ℕ
lone = record {
  head = sym_node "\\prod" 1;
  children = node (sym_node "\\prod" 1) (leaf "a" 5 nil) nil;
}

cleanup_productlike-lone :
    cleanup_productlike whole lone ≡ (true, record { head = sym_node "a" 1; children = nil })
unfolding cleanup_productlike is_prod is_named bytes_eq is_range_wildcard push_down_multiplier
    is_sum is_components
cleanup_productlike-lone = refl

cleanup_productlike-ignores_multiplier_example :
    cleanup_productlike whole lone
    ≡ cleanup_productlike whole (record {
      head = sym_node "\\prod" 1;
      children = node (sym_node "\\prod" 1) (leaf "a" 1 nil) nil;
    })
unfolding is_prod is_named bytes_eq is_range_wildcard
cleanup_productlike-ignores_multiplier_example =
    cleanup_productlike-ignores_multiplier whole (sym_node "\\prod" 1) (sym_node "\\prod" 1)
      (sym_node "a" 5) nil refl refl refl
