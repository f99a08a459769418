-- ===== src/Cleanup/Product.antt =====
-- `cleanup_numericalflat` and `cleanup_productlike` and the value of a product.
use cadabra.Base.{true, inl, inr, Bool-cases, ◌≡◌, refl, sym, ap, ◌∙◌, codes, bytes_eq_iff}
use cadabra.Tree.{Forest, nil, node, ◌⊕◌}
use cadabra.Storage.{StrNode, Ex, is_named, is_index, is_rational, multiply, set_one}
use cadabra.Storage.Multiplier.{Rational, mul_left_comm}
use cadabra.Cleanup.{
  is_prod, Loop, next_factor, keep_factor, collect_factors, cleanup_numericalflat, flatten_prods,
}
use cadabra.Cleanup.Value.{Assignment, prod_value, value}
use cadabra.Cleanup.Scale.{value_number, value-set_one, value_prod, prod_value_node, prod_value_nil}

module _ (m : Rational) (a : Assignment m.Q) where
  open m use {Q, eqb, zero, one, mul, parse, eqb_iff, mul_one_left, mul_assoc, mul_comm, parse_one}

  abbrev pub ex : StrNode Q → Forest (StrNode Q) → Ex Q
  ex s c = record { head = s; children = c }

  abbrev pub total : Loop Q → Q
  total l = mul l.factor (prod_value m a l.siblings)

  pub prod_value-⊕ :
      (f g : Forest (StrNode Q))
      → prod_value m a (f ⊕ g) ≡ mul (prod_value m a f) (prod_value m a g)
  prod_value-⊕ nil g =
      sym (mul_one_left _) ∙ ap (λ t. mul t (prod_value m a g)) (sym (prod_value_nil m a))
  prod_value-⊕ (node s c r) g =
      prod_value_node m a s c (r ⊕ g)
      ∙ ap (mul _) (prod_value-⊕ r g)
      ∙ sym (mul_assoc _ _ _)
      ∙ ap (λ t. mul t (prod_value m a g)) (sym (prod_value_node m a s c r))

  pub total-flatten_prods :
      (q : Q) (f : Forest (StrNode Q)) → total (flatten_prods m q f) ≡ mul q (prod_value m a f)
  unfolding flatten_prods
  total-flatten_prods q nil = refl
  total-flatten_prods q (node s c r) = elim (Bool-cases (is_prod s)) [
    | inl e ↦
        let inner = flatten_prods m (mul s.multiplier q) c in
        let rest = flatten_prods m inner.factor r in
        rw (e, flatten_prods)
          (ap (mul rest.factor) (prod_value-⊕ inner.siblings rest.siblings)
            ∙ mul_left_comm m _ _ _
            ∙ ap (mul (prod_value m a inner.siblings)) (total-flatten_prods inner.factor r)
            ∙ mul_left_comm m _ _ _
            ∙ sym (mul_assoc _ _ _)
            ∙ ap (λ t. mul t (prod_value m a r))
                (total-flatten_prods (mul s.multiplier q) c
                  ∙ ap (λ t. mul t (prod_value m a c)) (mul_comm _ _)
                  ∙ mul_assoc _ _ _
                  ∙ ap (mul q) (sym (value_prod m a s c e)))
            ∙ mul_assoc _ _ _
            ∙ ap (mul q) (sym (prod_value_node m a s c r)))
    | inr e ↦
        rw (e, flatten_prods)
          (ap (mul _) (prod_value_node m a s c _)
            ∙ mul_left_comm m _ _ _
            ∙ ap (mul _) (total-flatten_prods q r)
            ∙ mul_left_comm m _ _ _
            ∙ ap (mul q) (sym (prod_value_node m a s c r)))
  ]

  value_rational :
      (s : StrNode Q) (c : Forest (StrNode Q))
      → is_rational s ≡ true
      → value m a (ex s c) ≡ mul s.multiplier (parse s.name)
  unfolding is_rational
  value_rational s c h =
      value_number m a s c h
      ∙ ap (mul s.multiplier) (sym (ap parse ((bytes_eq_iff s.name (codes "1")).0 h) ∙ parse_one))

  total-keep_factor :
      (s : StrNode Q) (c : Forest (StrNode Q)) (q x : Q) (l : Loop Q)
      → total l ≡ mul (next_factor m q s) x
      → total (keep_factor m s c l) ≡ mul q (mul (value m a (ex s c)) x)
  unfolding next_factor keep_factor
  total-keep_factor s c q x l h = elim (Bool-cases (is_index s)) [
    | inl e ↦
        let h' : total l ≡ mul q x = rw e at h in
        rw e (
          ap (mul l.factor) (prod_value_node m a s c l.siblings)
          ∙ mul_left_comm m _ _ _
          ∙ ap (mul (value m a (ex s c))) h'
          ∙ mul_left_comm m _ _ _)
    | inr n ↦ elim (Bool-cases (is_rational s)) [
      | inl e ↦
          let h' : total l ≡ mul (mul (mul q s.multiplier) (parse s.name)) x = rw (n, e) at h in
          rw (n, e)
            (h'
              ∙ ap (λ t. mul t x) (mul_assoc _ _ _ ∙ ap (mul q) (sym (value_rational s c e)))
              ∙ mul_assoc _ _ _)
      | inr e ↦
          let h' : total l ≡ mul (mul q s.multiplier) x = rw (n, e) at h in
          rw (n, e)
            (ap (mul l.factor) (prod_value_node m a (set_one m s) c l.siblings)
              ∙ mul_left_comm m _ _ _
              ∙ ap (mul (value m a (ex (set_one m s) c))) h'
              ∙ mul_left_comm m _ _ _
              ∙ mul_assoc _ _ _
              ∙ ap (mul q)
                  (sym (mul_assoc _ _ _) ∙ ap (λ t. mul t x) (sym (value-set_one m a s c))))
    ]
  ]

  total-collect_factors :
      (q : Q) (f : Forest (StrNode Q)) → total (collect_factors m q f) ≡ mul q (prod_value m a f)
  unfolding collect_factors
  total-collect_factors q nil = refl
  total-collect_factors q (node s c r) =
      total-keep_factor s c q (prod_value m a r) _ (total-collect_factors (next_factor m q s) r)
      ∙ ap (mul q) (sym (prod_value_node m a s c r))

  -- `cleanup_numericalflat` keeps the value of every product.
  pub value-cleanup_numericalflat :
      (e : Ex Q) → is_prod e.head ≡ true → value m a (cleanup_numericalflat m e).1 ≡ value m a e
  unfolding cleanup_numericalflat is_prod is_named
  value-cleanup_numericalflat e h =
      let l = collect_factors m one e.children in
      value_prod m a (multiply m e.head l.factor) l.siblings h
      ∙ ap (λ t. mul t (prod_value m a l.siblings)) (mul_comm _ _)
      ∙ mul_assoc _ _ _
      ∙ ap (mul e.head.multiplier) (total-collect_factors one e.children ∙ mul_one_left _)
      ∙ sym (value_prod m a e.head e.children h)
