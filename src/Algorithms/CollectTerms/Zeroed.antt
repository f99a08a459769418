-- ===== src/Algorithms/CollectTerms/Zeroed.antt =====
-- The end of `collect_terms`: terms that vanish go, and a single term takes the place of the sum.
use cadabra.Base.{true, not, ◌&&◌, ◌≡◌, refl, sym, ap, ap₂, ◌∙◌, inl, inr, Bool-cases, arith}
use cadabra.Tree.{Forest, nil, node}
use cadabra.Storage.{StrNode, is_zero, set_one, is_named}
use cadabra.Storage.Multiplier.{Rational, mul_zero_right}
use cadabra.Cleanup.{is_sum}
use cadabra.Cleanup.Value.{Assignment, sum_value, value}
use cadabra.Cleanup.Scale.{
  value_zero, value_restyled, value_sum, value_multiplied, sum_value_node, sum_value_nil,
}
use cadabra.Cleanup.Sum.{value_no_terms, value_one_term}
use cadabra.Algorithms.FlattenSum.{node_zero}
use cadabra.Algorithms.CollectTerms.{multiply_all, remove_zeroed_terms, collapse}

module _ (m : Rational) (a : Assignment m.Q) where
  open m use {Q, eqb, eqb_iff, zero, one as q_one, add, mul, add_zero_left, mul_one_left, mul_add}

  sum_value-multiply_all :
      (q : Q) (f : Forest (StrNode Q))
      → sum_value m a (multiply_all m q f) ≡ mul q (sum_value m a f)
  unfolding multiply_all
  sum_value-multiply_all q nil =
      sum_value_nil m a ∙ sym (mul_zero_right m q) ∙ ap (mul q) (sym (sum_value_nil m a))
  sum_value-multiply_all q (node s c r) =
      sum_value_node m a _ _ _
      ∙ ap₂ add (value_multiplied m a s c q) (sum_value-multiply_all q r)
      ∙ sym (mul_add q _ _)
      ∙ ap (mul q) (sym (sum_value_node m a s c r))

  value_pushed :
      (s : StrNode Q) (c : Forest (StrNode Q))
      → is_sum s ≡ true
      → value m a (record { head = set_one m s; children = multiply_all m s.multiplier c })
        ≡ value m a (record { head = s; children = c })
  unfolding is_sum is_named
  value_pushed s c h =
      value_sum m a (set_one m s) _ h
      ∙ mul_one_left _
      ∙ sum_value-multiply_all s.multiplier c
      ∙ sym (value_sum m a s c h)

  pub sum_value-remove_zeroed_terms :
      (f : Forest (StrNode Q)) → sum_value m a (remove_zeroed_terms m f) ≡ sum_value m a f
  unfolding remove_zeroed_terms is_zero
  sum_value-remove_zeroed_terms nil = refl
  sum_value-remove_zeroed_terms (node s c r) =
      let rest = sum_value-remove_zeroed_terms r in
      elim (Bool-cases (eqb s.multiplier zero)) [
        | inl e ↦ rw e (
            rest
            ∙ sym (add_zero_left _)
            ∙ ap (λ t. add t (sum_value m a r)) (sym (value_zero m a s c ((eqb_iff _ _).0 e)))
            ∙ sym (sum_value_node m a s c r))
        | inr e ↦ elim (Bool-cases (is_sum s && not (eqb s.multiplier q_one))) [
          | inl i ↦
              let h : is_sum s ≡ true = ground (arith, i) in
              rw (e, i)
                (sum_value_node m a (set_one m s) (multiply_all m s.multiplier c)
                    (remove_zeroed_terms m r)
                  ∙ ap₂ add (value_pushed s c h) rest
                  ∙ sym (sum_value_node m a s c r))
          | inr i ↦
              rw (e, i)
                (sum_value_node m a s c _ ∙ ap (add _) rest ∙ sym (sum_value_node m a s c r))
        ]
      ]

  pub value-collapse :
      (s : StrNode Q) (f : Forest (StrNode Q))
      → is_sum s ≡ true
      → s.multiplier ≡ q_one
      → value m a (collapse m s f) ≡ value m a (record { head = s; children = f })
  unfolding collapse node_zero
  value-collapse s nil h e = value_zero m a _ nil refl ∙ sym (value_no_terms m a s h)
  value-collapse s (node t c nil) h e =
      value_restyled m a t c s.bracket s.parent_rel
      ∙ sym (mul_one_left _)
      ∙ ap (λ q. mul q (value m a (record { head = t; children = c }))) (sym e)
      ∙ sym (value_multiplied m a t c s.multiplier)
      ∙ value_one_term m a s t c h
  value-collapse s (node t c (node u d r)) h e = refl
