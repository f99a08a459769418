-- ===== src/Storage/Tests.antt =====
-- Runs on the nodes, states and equations of core/Storage.cc, and the theorems there.
use cadabra.Base.{ℕ, ◌≡◌, refl, inr, true, false, none, some, [], ◌∷◌, ◌++◌, arith, codes, bytes_eq}
use cadabra.Tree.{Forest, nil, node}
use Prim.Native.String.{String}
use cadabra.Storage.{StrNode, b_none, p_none, is_named}
use cadabra.Storage.Names.{
  name_only, is_name_wildcard, is_object_wildcard, is_autodeclare_wildcard, is_numbered_symbol,
  isdigit, name_only-name_wildcard, name_only-object_wildcard,
}
use cadabra.Storage.State.{
  l_error, l_applied, l_no_action, l_checkpointed, update_all, reset_state, changed_state,
  update_all-outcome, changed_state-update_all,
}
use cadabra.Storage.Equations.{
  is_history, find_equation, count_equations, number_of_equations, equation_by_number,
  equation_number, equation_number-equation_by_number, equation_by_number_out_of_range,
}

abbrev plain : String → StrNode ℕ
plain n = record { name = codes n; multiplier = 1; bracket = b_none; parent_rel = p_none }

-- Two equations, with an expression between them that is not one.
abbrev sheet : Forest (StrNode ℕ)
sheet =
    node (plain "\\history") (node (plain "a") nil nil)
      (node (plain "b") nil (node (plain "\\history") (node (plain "c") nil nil) nil))

name_only_run : name_only (codes "a12") ≡ codes "a"
unfolding name_only is_name_wildcard is_object_wildcard is_autodeclare_wildcard is_numbered_symbol
    isdigit
name_only_run = refl

name_only-name_wildcard_example : name_only (codes "ab" ++ b'?' ∷ []) ≡ codes "ab"
name_only-name_wildcard_example =
    name_only-name_wildcard (codes "ab") (λ e. absurd (omega (arith, e)))

name_only-object_wildcard_example : name_only ((codes "ab" ++ b'?' ∷ []) ++ b'?' ∷ []) ≡ codes "ab"
name_only-object_wildcard_example = name_only-object_wildcard (codes "ab")

equation_by_number_run : equation_by_number 2 sheet ≡ some 2
unfolding equation_by_number find_equation is_history is_named bytes_eq
equation_by_number_run = refl

equation_number-equation_by_number_example :
    (p : ℕ) × (equation_by_number 2 sheet ≡ some p) × (equation_number p sheet ≡ 2)
unfolding number_of_equations count_equations is_history is_named bytes_eq
equation_number-equation_by_number_example =
    equation_number-equation_by_number sheet 2 (omega arith) (omega arith)

equation_by_number_out_of_range_example : equation_by_number 3 sheet ≡ none
unfolding number_of_equations count_equations is_history is_named bytes_eq
equation_by_number_out_of_range_example =
    equation_by_number_out_of_range sheet 3 (inr (omega arith))

update_all-outcome_example :
    update_all l_checkpointed (l_applied ∷ l_error ∷ l_applied ∷ []) ≡ l_error
update_all-outcome_example =
    update_all-outcome l_checkpointed (l_applied ∷ l_error ∷ l_applied ∷ [])

changed_state-update_all_example :
    (changed_state (update_all (reset_state l_error) (l_applied ∷ l_no_action ∷ []))
      ≡ (true, l_no_action))
    × (changed_state
          (changed_state (update_all (reset_state l_error) (l_applied ∷ l_no_action ∷ []))).1
        ≡ (false, l_no_action))
changed_state-update_all_example = changed_state-update_all l_error (l_applied ∷ l_no_action ∷ [])
