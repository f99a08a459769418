-- ===== src/Compare/Tests.antt =====
-- Runs of the comparison with whole multipliers, and the theorems there.
use cadabra.Base.{ℕ, ◌≡◌, ◌↔◌, refl, Bool, true, none, ltb, arith, codes, bytes_eq}
use Prim.Native.String.{String}
use cadabra.Tree.{nil, node}
use cadabra.Storage.{StrNode, Ex, ParentRel, b_none, p_sub, p_none, is_index, is_rational}
use cadabra.Storage.Multiplier.{whole}
use cadabra.Storage.Names.{is_name_wildcard}
use cadabra.Compare.{
  Settings, across, before, flip, pos, negsuc, bytes_less, compare_sets, compare_heads,
  subtree_compare, subtree_exact_equal,
}
use cadabra.Compare.Antisymmetry.{Aligned, subtree_compare-flip}
use cadabra.Compare.Equal.{Alike, subtree_exact_equal-Alike}

abbrev at : String → ℕ → ParentRel → StrNode ℕ
at n q p = record { name = codes n; multiplier = q; bracket = b_none; parent_rel = p }

abbrev literal : Settings ℕ
literal = record { properties = none; checksets = true; literal_wildcards = true }

abbrev less : ℕ → ℕ → Bool
less a b = ltb a b

-- 2 f(a), 3 f(a) and 3 f(b).
abbrev two_fa : Ex ℕ
two_fa = record { head = at "f" 2 p_none; children = node (at "a" 1 p_none) nil nil }

abbrev three_fa : Ex ℕ
three_fa = record { head = at "f" 3 p_none; children = node (at "a" 1 p_none) nil nil }

abbrev three_fb : Ex ℕ
three_fb = record { head = at "f" 3 p_none; children = node (at "b" 1 p_none) nil nil }

run-subtree_compare :
    subtree_compare whole less literal (negsuc 1) (pos 0) two_fa three_fb ≡ before across
unfolding subtree_compare compare_heads compare_sets is_index is_rational is_name_wildcard bytes_eq
    bytes_less
run-subtree_compare = refl

subtree_compare-flip_example :
    subtree_compare whole less literal (negsuc 1) (pos 0) three_fb two_fa
    ≡ flip (subtree_compare whole less literal (negsuc 1) (pos 0) two_fa three_fb)
unfolding Aligned is_index
subtree_compare-flip_example =
    subtree_compare-flip whole less literal (λ a b h. ground arith) (negsuc 1) (pos 0) two_fa
      three_fb (refl, tt, tt)

subtree_exact_equal-Alike_example :
    (subtree_exact_equal whole less literal (negsuc 1) (pos 0) two_fa three_fa ≡ true) ↔ (
      (two_fa.head.name ≡ three_fa.head.name)
      × (two_fa.head.parent_rel ≡ three_fa.head.parent_rel)
      × Alike two_fa.children three_fa.children)
subtree_exact_equal-Alike_example =
    subtree_exact_equal-Alike whole less literal refl two_fa three_fa

-- f_{c}(x) and f(b)_{z}: the children that are no indices stand at different places, and each of the
-- two is less than the other.
abbrev index_first : Ex ℕ
index_first = record {
  head = at "f" 1 p_none;
  children = node (at "c" 1 p_sub) nil (node (at "x" 1 p_none) nil nil);
}

abbrev index_last : Ex ℕ
index_last = record {
  head = at "f" 1 p_none;
  children = node (at "b" 1 p_none) nil (node (at "z" 1 p_sub) nil nil);
}

subtree_compare-misaligned :
    (subtree_compare whole less literal (negsuc 1) (negsuc 1) index_first index_last
      ≡ before across)
    × (subtree_compare whole less literal (negsuc 1) (negsuc 1) index_last index_first
        ≡ before across)
unfolding subtree_compare compare_heads compare_sets is_index is_rational is_name_wildcard bytes_eq
    bytes_less
subtree_compare-misaligned = (refl, refl)

-- f(2 A?) and f(3 A?): wildcards are to be taken for ordinary names, and yet their multipliers are
-- not compared.
abbrev wild_argument : ℕ → Ex ℕ
wild_argument q = record { head = at "f" 1 p_none; children = node (at "A?" q p_none) nil nil }

subtree_exact_equal-wildcards :
    subtree_exact_equal whole less literal (negsuc 1) (pos 0) (wild_argument 2) (wild_argument 3)
    ≡ true
unfolding subtree_exact_equal subtree_compare compare_heads compare_sets is_index is_rational
    is_name_wildcard bytes_eq bytes_less
subtree_exact_equal-wildcards = refl
