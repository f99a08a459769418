-- ===== src/Cleanup/Sum.antt =====
-- `cleanup_sumlike` keeps the value of a sum.
use cadabra.Base.{Bool, true, inl, inr, Bool-cases, ◌≡◌, refl, sym, ap, ap₂, ◌∙◌, ◌||◌}
use cadabra.Tree.{Forest, nil, node, ◌⊕◌}
use cadabra.Storage.{StrNode, Ex, Bracket, is_zero, multiply, set_zero}
use cadabra.Storage.Multiplier.{Rational, mul_zero_right, add_zero_right}
use cadabra.Storage.Names.{is_range_wildcard}
use cadabra.Cleanup.{
  is_sum, remove_zeros, has_zero, spread_terms, flatten_sums, has_sum, collapse_sum,
  cleanup_sumlike, last_bracket, first_bracket,
}
use cadabra.Cleanup.Value.{Assignment, sum_value, value}
use cadabra.Cleanup.Scale.{
  value_restyled, value_zero, sum_value_node, sum_value_nil, value_sum, value_multiplied,
  value-push_down_multiplier,
}

module _ (m : Rational) (a : Assignment m.Q) where
  open m use {Q, eqb, zero, one, add, mul, eqb_iff, mul_zero_left, mul_assoc, mul_add}
  open m use {add_zero_left, add_assoc}

  abbrev ex : StrNode Q → Forest (StrNode Q) → Ex Q
  ex s c = record { head = s; children = c }

  pub sum_value-⊕ :
      (f g : Forest (StrNode Q)) → sum_value m a (f ⊕ g) ≡ add (sum_value m a f) (sum_value m a g)
  sum_value-⊕ nil g =
      sym (add_zero_left _) ∙ ap (λ t. add t (sum_value m a g)) (sym (sum_value_nil m a))
  sum_value-⊕ (node s c r) g =
      sum_value_node m a s c (r ⊕ g)
      ∙ ap (add _) (sum_value-⊕ r g)
      ∙ sym (add_assoc _ _ _)
      ∙ ap (λ t. add t (sum_value m a g)) (sym (sum_value_node m a s c r))

  sum_value-remove_zeros :
      (f : Forest (StrNode Q)) → sum_value m a (remove_zeros m f) ≡ sum_value m a f
  unfolding remove_zeros is_zero
  sum_value-remove_zeros nil = refl
  sum_value-remove_zeros (node s c r) = elim (Bool-cases (eqb s.multiplier zero)) [
    | inl e ↦ rw e (
        sum_value-remove_zeros r
        ∙ sym (add_zero_left _)
        ∙ ap (λ t. add t (sum_value m a r)) (sym (value_zero m a s c ((eqb_iff _ _).0 e)))
        ∙ sym (sum_value_node m a s c r))
    | inr e ↦ rw e (
        sum_value_node m a s c _
        ∙ ap (add _) (sum_value-remove_zeros r)
        ∙ sym (sum_value_node m a s c r))
  ]

  pub sum_value-spread_terms :
      (q : Q) (b : Bracket) (f : Forest (StrNode Q))
      → sum_value m a (spread_terms m q b f) ≡ mul q (sum_value m a f)
  unfolding spread_terms
  sum_value-spread_terms q b nil =
      sum_value_nil m a ∙ sym (mul_zero_right m q) ∙ ap (mul q) (sym (sum_value_nil m a))
  sum_value-spread_terms q b (node t c r) =
      sum_value_node m a _ c _
      ∙ ap₂ add (value_restyled m a (multiply m t q) c b t.parent_rel ∙ value_multiplied m a t c q)
          (sum_value-spread_terms q b r)
      ∙ sym (mul_add q _ _)
      ∙ ap (mul q) (sym (sum_value_node m a t c r))

  sum_value-flatten_sums :
      (b : Bracket) (f : Forest (StrNode Q)) → sum_value m a (flatten_sums m b f) ≡ sum_value m a f
  unfolding flatten_sums
  sum_value-flatten_sums b nil = refl
  sum_value-flatten_sums b (node s c r) = elim (Bool-cases (is_sum s)) [
    | inl e ↦ rw e (
        sum_value-⊕ (spread_terms m s.multiplier b c) (flatten_sums m b r)
        ∙ ap₂ add (sum_value-spread_terms s.multiplier b c ∙ sym (value_sum m a s c e))
            (sum_value-flatten_sums b r)
        ∙ sym (sum_value_node m a s c r))
    | inr e ↦ rw e (
        sum_value_node m a s c _
        ∙ ap (add _) (sum_value-flatten_sums b r)
        ∙ sym (sum_value_node m a s c r))
  ]

  pub value_of_terms :
      (s : StrNode Q) (f g : Forest (StrNode Q))
      → is_sum s ≡ true
      → sum_value m a f ≡ sum_value m a g
      → value m a (record { head = s; children = f })
        ≡ value m a (record { head = s; children = g })
  value_of_terms s f g h e =
      value_sum m a s f h ∙ ap (mul s.multiplier) e ∙ sym (value_sum m a s g h)

  -- A sum without terms, and one with a single term.
  pub value_no_terms : (s : StrNode Q) → is_sum s ≡ true → value m a (ex s nil) ≡ zero
  value_no_terms s h =
      value_sum m a s nil h ∙ ap (mul s.multiplier) (sum_value_nil m a) ∙ mul_zero_right m _

  pub value_one_term :
      (s t : StrNode Q) (c : Forest (StrNode Q))
      → is_sum s ≡ true
      → value m a (ex (multiply m t s.multiplier) c) ≡ value m a (ex s (node t c nil))
  value_one_term s t c h =
      value_multiplied m a t c s.multiplier
      ∙ ap (mul s.multiplier) (
          sym (add_zero_right m _)
          ∙ ap (add _) (sym (sum_value_nil m a))
          ∙ sym (sum_value_node m a t c nil))
      ∙ sym (value_sum m a s (node t c nil) h)

  value-collapse_sum :
      (ret : Bool) (s : StrNode Q) (f : Forest (StrNode Q))
      → is_sum s ≡ true
      → value m a (collapse_sum m ret s f).1 ≡ value m a (record { head = s; children = f })
  unfolding collapse_sum
  value-collapse_sum ret s nil h = value_zero m a (set_zero m s) nil refl ∙ sym (value_no_terms s h)
  value-collapse_sum ret s (node t c nil) h = elim (Bool-cases (is_range_wildcard t.name)) [
    | inl e ↦ rw e
    | inr e ↦ rw e (value_one_term s t c h)
  ]
  value-collapse_sum ret s (node t c (node u d r)) h =
      let terms = node t c (node u d r) in
      let same =
        value_of_terms s (flatten_sums m (last_bracket (first_bracket terms) terms) terms) terms h
          (sum_value-flatten_sums _ terms) in
      elim (Bool-cases (ret || has_sum m terms)) [
        | inl e ↦ rw e same
        | inr e ↦ rw e (value-push_down_multiplier m a _ ∙ same)
      ]

  -- `cleanup_sumlike` keeps the value of every sum.
  pub value-cleanup_sumlike :
      (e : Ex Q) → is_sum e.head ≡ true → value m a (cleanup_sumlike m e).1 ≡ value m a e
  unfolding cleanup_sumlike
  value-cleanup_sumlike e h =
      value-collapse_sum (has_zero m e.children) e.head (remove_zeros m e.children) h
      ∙ value_of_terms e.head _ _ h (sum_value-remove_zeros e.children)
