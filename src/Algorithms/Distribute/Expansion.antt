-- ===== src/Algorithms/Distribute/Expansion.antt =====
-- What core/algorithms/distribute.cc makes of a product has the value of the product.
use cadabra.Base.{
  true, false, some, ◌==◌, ◌≡◌, ◌≢◌, refl, sym, ap, ap₂, ◌∙◌, inl, inr, Bool-cases, arith, codes,
  bytes_eq,
}
use cadabra.Tree.{Forest, nil, node, ◌⊕◌, count}
use cadabra.Storage.{StrNode, Ex, multiply, set_one, is_named, str_node}
use cadabra.Storage.Multiplier.{
  Rational, mul_one_right, mul_zero_right, add_zero_right, mul_mul_mul_comm, add_mul,
}
use cadabra.Cleanup.{is_prod, is_sum}
use cadabra.Cleanup.Value.{Assignment, sum_value, prod_value, value}
use cadabra.Cleanup.Scale.{
  value_sum, value_prod, value_restyled, value-set_one, sum_value_node, sum_value_nil,
  prod_value_node, prod_value_nil,
}
use cadabra.Cleanup.Sum.{sum_value-⊕}
use cadabra.Cleanup.Product.{prod_value-⊕}
use cadabra.Algorithms.Distribute.{
  distribute_product, distribute_products, append_factor, distribute_factors, distribute, first,
}
use cadabra.Algorithms.Distribute.Choices.{
  AllProducts, AllProducts-append_factor, AllProducts-distribute_products, choices,
  count-distribute_factors,
}

module _ (m : Rational) (a : Assignment m.Q) where
  open m use {Q, zero, one, add, mul, mul_assoc, mul_comm, mul_add}
  open m use {mul_zero_left, mul_one_left}

  abbrev ex : StrNode Q → Forest (StrNode Q) → Ex Q
  ex s c = record { head = s; children = c }

  -- The product `p k` with the further factor `t c`, which leaves its multiplier and that of its sum
  -- with the product.
  value_of_product :
      (s : StrNode Q) (t : StrNode Q) (c : Forest (StrNode Q)) (p : StrNode Q)
      (k : Forest (StrNode Q))
      → is_prod p ≡ true
      → value m a (record {
        head = multiply m (multiply m p t.multiplier) s.multiplier;
        children = k ⊕ node (record (set_one m t) { bracket = s.bracket }) c nil;
      })
        ≡ mul
            (value m a (record { head = p; children = k }))
            (mul s.multiplier (value m a (record { head = t; children = c })))
  unfolding is_prod is_named
  value_of_product s t c p k h =
      let S = s.multiplier in
      let T = t.multiplier in
      let P = p.multiplier in
      let K = prod_value m a k in
      let V = value m a (record { head = set_one m t; children = c }) in
      value_prod m a _ _ h
      ∙ ap (mul (mul S (mul T P))) (
          prod_value-⊕ m a k _
          ∙ ap (mul K) (
              prod_value_node m a _ c nil
              ∙ ap₂ mul (value_restyled m a (set_one m t) c s.bracket t.parent_rel)
                  (prod_value_nil m a)
              ∙ mul_one_right m V))
      ∙ ap (λ x. mul x (mul K V)) (sym (mul_assoc S T P))
      ∙ ap (mul (mul (mul S T) P)) (mul_comm K V)
      ∙ mul_mul_mul_comm m (mul S T) P V K
      ∙ mul_comm _ _
      ∙ ap₂ mul (sym (value_prod m a p k h))
          (mul_assoc S T V ∙ ap (mul S) (sym (value-set_one m a t c)))

  value-distribute_product :
      (s : StrNode Q) (c : Forest (StrNode Q)) (p : StrNode Q) (k : Forest (StrNode Q))
      → is_prod p ≡ true
      → sum_value m a (distribute_product m s c p k)
        ≡ mul (value m a (record { head = p; children = k })) (mul s.multiplier (sum_value m a c))
  unfolding distribute_product
  value-distribute_product s nil p k h =
      sum_value_nil m a
      ∙ sym (
          ap (λ x. mul (value m a (ex p k)) (mul s.multiplier x)) (sum_value_nil m a)
          ∙ ap (mul _) (mul_zero_right m _)
          ∙ mul_zero_right m _)
  value-distribute_product s (node t c r) p k h =
      sum_value_node m a _ _ _
      ∙ ap₂ add (value_of_product s t c p k h) (value-distribute_product s r p k h)
      ∙ sym (mul_add _ _ _)
      ∙ ap (mul _)
          (sym (mul_add s.multiplier _ _) ∙ ap (mul s.multiplier) (sym (sum_value_node m a t c r)))

  value-distribute_products :
      (s : StrNode Q) (c f : Forest (StrNode Q))
      → is_sum s ≡ true
      → AllProducts f
      → sum_value m a (distribute_products m s c f)
        ≡ mul (sum_value m a f) (value m a (record { head = s; children = c }))
  unfolding distribute_products AllProducts
  value-distribute_products s c nil i h =
      sum_value_nil m a
      ∙ sym (mul_zero_left _)
      ∙ ap (λ x. mul x (value m a (ex s c))) (sym (sum_value_nil m a))
  value-distribute_products s c (node p k r) i h =
      sum_value-⊕ m a _ _
      ∙ ap₂ add (value-distribute_product s c p k h.0 ∙ ap (mul _) (sym (value_sum m a s c i)))
          (value-distribute_products s c r i h.1)
      ∙ sym (add_mul m _ _ _)
      ∙ ap (λ x. mul x (value m a (ex s c))) (sym (sum_value_node m a p k r))

  value-append_factor :
      (s : StrNode Q) (c f : Forest (StrNode Q))
      → AllProducts f
      → sum_value m a (append_factor m s c f)
        ≡ mul (sum_value m a f) (value m a (record { head = s; children = c }))
  unfolding append_factor AllProducts
  value-append_factor s c nil h =
      sum_value_nil m a
      ∙ sym (mul_zero_left _)
      ∙ ap (λ x. mul x (value m a (ex s c))) (sym (sum_value_nil m a))
  value-append_factor s c (node p k r) h =
      sum_value_node m a p _ _
      ∙ ap₂ add
          (value_prod m a p _ h.0
            ∙ ap (mul p.multiplier) (
                prod_value-⊕ m a k _
                ∙ ap (mul _) (
                    prod_value_node m a s c nil
                    ∙ ap (mul _) (prod_value_nil m a)
                    ∙ mul_one_right m _))
            ∙ sym (mul_assoc _ _ _)
            ∙ ap (λ x. mul x (value m a (ex s c))) (sym (value_prod m a p k h.0)))
          (value-append_factor s c r h.1)
      ∙ sym (add_mul m _ _ _)
      ∙ ap (λ x. mul x (value m a (ex s c))) (sym (sum_value_node m a p k r))

  value-distribute_factors :
      (f products : Forest (StrNode Q))
      → AllProducts products
      → sum_value m a (distribute_factors m f products)
        ≡ mul (sum_value m a products) (prod_value m a f)
  unfolding distribute_factors
  value-distribute_factors nil products h =
      sym (mul_one_right m _) ∙ ap (mul _) (sym (prod_value_nil m a))
  value-distribute_factors (node s c r) products h = elim (Bool-cases (is_sum s)) [
    | inl e ↦
        rw (e, distribute_factors)
          (value-distribute_factors r (distribute_products m s c products)
              (AllProducts-distribute_products m s c products h)
            ∙ ap (λ x. mul x (prod_value m a r)) (value-distribute_products s c products e h)
            ∙ mul_assoc _ _ _
            ∙ ap (mul _) (sym (prod_value_node m a s c r)))
    | inr e ↦
        rw (e, distribute_factors)
          (value-distribute_factors r (append_factor m s c products)
              (AllProducts-append_factor m s c products h)
            ∙ ap (λ x. mul x (prod_value m a r)) (value-append_factor s c products h)
            ∙ mul_assoc _ _ _
            ∙ ap (mul _) (sym (prod_value_node m a s c r)))
  ]

  -- Where there is not exactly one way to choose a term from every sum among the factors of a
  -- product, `distribute` makes a sum of the product, with a term for every choice, and of the same
  -- value.
  pub value-distribute :
      (e : Ex Q)
      → is_prod e.head ≡ true
      → choices e.children ≢ 1
      → (r : Ex Q) × (distribute m e ≡ some r)
        × (is_sum r.head ≡ true)
        × (count r.children ≡ choices e.children)
        × (value m a r ≡ value m a e)
  unfolding distribute is_sum is_prod is_named bytes_eq AllProducts
  value-distribute e h many =
      let products = distribute_factors m e.children (node (first m e) nil nil) in
      let n : count products ≡ choices e.children =
        count-distribute_factors m e.children (node (first m e) nil nil) ∙ grind arith in
      let not_one : (count products == 1) ≡ false = ground arith in
      let r : Ex Q = record {
        head = str_node m (codes "\\sum") e.head.bracket e.head.parent_rel;
        children = products;
      } in
      (
        r,
        rw not_one,
        refl,
        n,
        value_sum m a r.head products refl
            ∙ mul_one_left _
            ∙ value-distribute_factors e.children _ (h, tt)
            ∙ ap (λ x. mul x (prod_value m a e.children))
                (sum_value_node m a _ nil nil
                  ∙ ap₂ add
                      (value_prod m a (first m e) nil h
                        ∙ ap (mul _) (prod_value_nil m a)
                        ∙ mul_one_right m _)
                      (sum_value_nil m a)
                  ∙ add_zero_right m _)
            ∙ sym (value_prod m a e.head e.children h),
      )
