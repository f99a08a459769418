-- ===== src/Cleanup/Collapse.antt =====
-- `cleanup_productlike`: when it keeps the value of a product.
use cadabra.Base.{
  ◌+◌, ◌⊎◌, ◌≢◌, Bool, true, false, inl, inr, Bool-cases, ◌≡◌, refl, sym, ap, ◌∙◌, codes, bytes_eq,
  arith,
}
use cadabra.Tree.{Forest, nil, node, count}
use cadabra.Storage.{StrNode, Ex, is_named, is_index, is_rational, set_one}
use cadabra.Storage.Multiplier.{Rational, mul_one_right}
use cadabra.Cleanup.{
  is_prod, Loop, next_factor, keep_factor, collect_factors, cleanup_numericalflat, flatten_prods,
  single_range_wildcard, collapse_product, cleanup_productlike, number_of_direct_indices,
}
use cadabra.Cleanup.Value.{Assignment, value}
use cadabra.Cleanup.Scale.{
  value_number, value-set_one, value_prod, value_restyled, prod_value_node, prod_value_nil,
  value-push_down_multiplier,
}
use cadabra.Cleanup.Product.{ex, total-flatten_prods, value-cleanup_numericalflat}

module _ (m : Rational) (a : Assignment m.Q) where
  open m use {Q, eqb, one, mul, mul_one_left}

  -- A factor that stands alone has the multiplier one.
  abbrev LoneUnit : Forest (StrNode Q) → Type 0
  LoneUnit nil = Unit
  LoneUnit (node t c nil) = t.multiplier ≡ one
  LoneUnit (node t c (node u d r)) = Unit

  abbrev Units : Forest (StrNode Q) → Type 0
  Units nil = Unit
  Units (node t c r) = (t.multiplier ≡ one) × Units r

  Units-LoneUnit : (f : Forest (StrNode Q)) → Units f → LoneUnit f
  Units-LoneUnit nil u = tt
  Units-LoneUnit (node t c nil) u = u.0
  Units-LoneUnit (node t c (node v d r)) u = tt

  Units-keep_factor :
      (s : StrNode Q) (c : Forest (StrNode Q)) (l : Loop Q)
      → is_index s ≡ false
      → Units l.siblings
      → Units (keep_factor m s c l).siblings
  unfolding keep_factor
  Units-keep_factor s c l n u = elim (Bool-cases (is_rational s)) [
    | inl e ↦ rw (n, e) u
    | inr e ↦ rw (n, e) (refl, u)
  ]

  Units-collect_factors :
      (q : Q) (f : Forest (StrNode Q))
      → number_of_direct_indices f ≡ 0
      → Units (collect_factors m q f).siblings
  unfolding collect_factors number_of_direct_indices
  Units-collect_factors q nil h = tt
  Units-collect_factors q (node s c r) h = elim (Bool-cases (is_index s)) [
    | inl e ↦ absurd (let h' : 1 + number_of_direct_indices r ≡ 0 = rw e at h in omega arith)
    | inr n ↦
        let h' : 0 + number_of_direct_indices r ≡ 0 = rw n at h in
        Units-keep_factor s c _ n (Units-collect_factors (next_factor m q s) r (omega arith))
  ]

  LoneUnit-many : (f : Forest (StrNode Q)) → count f ≢ 1 → LoneUnit f
  LoneUnit-many nil h = tt
  LoneUnit-many (node t c nil) h = absurd (h refl)
  LoneUnit-many (node t c (node v d r)) h = tt

  renamed-is_rational : (s : StrNode Q) → is_rational {Q = Q} (record s { name = codes "1" }) ≡ true
  unfolding is_rational bytes_eq
  renamed-is_rational s = refl

  value-collapse_product :
      (ret : Bool) (s : StrNode Q) (f : Forest (StrNode Q))
      → is_prod s ≡ true
      → LoneUnit f
      → value m a (collapse_product m ret s f).1 ≡ value m a (ex m a s f)
  unfolding collapse_product
  value-collapse_product ret s nil h u =
      value_number m a (record s { name = codes "1" }) nil (renamed-is_rational s)
      ∙ ap (mul s.multiplier) (sym (prod_value_nil m a))
      ∙ sym (value_prod m a s nil h)
  value-collapse_product ret s (node t c nil) h u =
      value-push_down_multiplier m a _
      ∙ value_restyled m a (record t { multiplier = s.multiplier }) c s.bracket s.parent_rel
      ∙ value-set_one m a (record t { multiplier = s.multiplier }) c
      ∙ ap (mul s.multiplier) (
          sym (mul_one_left _)
          ∙ ap (λ q. mul q (value m a (ex m a (set_one m t) c))) (sym u)
          ∙ sym (value-set_one m a t c)
          ∙ sym (mul_one_right m _)
          ∙ ap (mul _) (sym (prod_value_nil m a))
          ∙ sym (prod_value_node m a t c nil))
      ∙ sym (value_prod m a s (node t c nil) h)
  value-collapse_product ret s (node t c (node v d r)) h u = refl

  -- The product behind the first loop.
  abbrev flat : Ex Q → Ex Q
  flat e =
      let l = flatten_prods m e.head.multiplier e.children in
      record { head = record (e.head) { multiplier = l.factor }; children = l.siblings }

  value-flat : (e : Ex Q) → is_prod e.head ≡ true → value m a (flat e) ≡ value m a e
  unfolding is_prod is_named
  value-flat e h =
      value_prod m a (flat e).head (flat e).children h
      ∙ total-flatten_prods m a e.head.multiplier e.children
      ∙ sym (value_prod m a e.head e.children h)

  flat-is_prod : (e : Ex Q) → is_prod e.head ≡ true → is_prod (flat e).head ≡ true
  unfolding is_prod is_named
  flat-is_prod e h = h

  numericalflat-is_prod :
      (e : Ex Q) → is_prod e.head ≡ true → is_prod (cleanup_numericalflat m e).1.head ≡ true
  unfolding is_prod is_named cleanup_numericalflat
  numericalflat-is_prod e h = h

  numericalflat-LoneUnit :
      (e : Ex Q)
      → number_of_direct_indices e.children ≡ 0
      → LoneUnit (cleanup_numericalflat m e).1.children
  unfolding cleanup_numericalflat
  numericalflat-LoneUnit e h = Units-LoneUnit _ (Units-collect_factors one e.children h)

  -- `cleanup_productlike` keeps the value of a product, if none of the factors, inner products
  -- spliced in, is an index, and if an inner product was spliced in only where this leaves no
  -- factor or at least two.
  pub value-cleanup_productlike :
      (e : Ex Q)
      → is_prod e.head ≡ true
      → number_of_direct_indices (flatten_prods m e.head.multiplier e.children).siblings ≡ 0
      → ((flatten_prods m e.head.multiplier e.children).changed ≡ false)
        ⊎ (count (flatten_prods m e.head.multiplier e.children).siblings ≢ 1)
      → value m a (cleanup_productlike m e).1 ≡ value m a e
  unfolding cleanup_productlike
  value-cleanup_productlike e h no_index ok =
      let l = flatten_prods m e.head.multiplier e.children in
      let p = flat-is_prod e h in
      elim (Bool-cases (single_range_wildcard m l.siblings)) [
        | inl w ↦ rw w (value-flat e h)
        | inr w ↦ elim (Bool-cases l.changed) [
          | inl c ↦
              let many : count l.siblings ≢ 1 = elim ok [ inl n ↦ absurd (cc) | inr n ↦ n ] in
              rw (w, c)
                (value-collapse_product true (flat e).head l.siblings p
                    (LoneUnit-many l.siblings many)
                  ∙ value-flat e h)
          | inr c ↦
              let f = cleanup_numericalflat m (flat e) in
              rw (w, c)
                (value-collapse_product f.0 f.1.head f.1.children (numericalflat-is_prod (flat e) p)
                    (numericalflat-LoneUnit (flat e) no_index)
                  ∙ value-cleanup_numericalflat m a (flat e) p
                  ∙ value-flat e h)
        ]
      ]
