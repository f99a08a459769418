-- ===== src/Cleanup/Scale.antt =====
-- Pushing a multiplier down does not change what the expression stands for.
use cadabra.Base.{
  refl, true, inl, inr, Bool-cases, ◌≡◌, sym, ap, ap₂, ◌∙◌, codes, bytes_eq, bytes_eq_iff,
}
use cadabra.Tree.{Forest, nil, node}
use cadabra.Storage.{Bracket, ParentRel, is_rational, StrNode, Ex, is_named, multiply, set_one}
use cadabra.Storage.Multiplier.{Rational, mul_zero_right, mul_left_comm}
use cadabra.Cleanup.{
  is_prod, is_sum, is_components, is_comma, choose_push, push_children, push_last, push_values,
  push_value, push_down_multiplier,
}
use cadabra.Cleanup.Value.{
  number, Kind, product, summation, components, kind, pick, Assignment, prod_value, sum_value,
  last_value, list_value, entry_value, value,
}

module _ {Q : Type 0} where
  pub kind-sum : (s : StrNode Q) → is_sum s ≡ true → kind s ≡ summation
  unfolding kind is_sum is_prod is_named bytes_eq
  kind-sum s h = rw ((bytes_eq_iff s.name (codes "\\sum")).0 h)

  pub kind-prod : (s : StrNode Q) → is_prod s ≡ true → kind s ≡ product
  unfolding kind
  kind-prod s h = rw h

  pub kind-components : (s : StrNode Q) → is_components s ≡ true → kind s ≡ components
  unfolding kind is_sum is_prod is_components is_named bytes_eq
  kind-components s h = rw ((bytes_eq_iff s.name (codes "\\components")).0 h)

  pub kind-number : (s : StrNode Q) → is_rational s ≡ true → kind s ≡ number
  unfolding kind is_sum is_prod is_components is_named is_rational bytes_eq
  kind-number s h = rw ((bytes_eq_iff s.name (codes "1")).0 h)

module _ (m : Rational) (a : Assignment m.Q) where
  open m use {Q, zero, mul_zero_left, eqb, one, add, mul, eqb_iff, mul_one_left, mul_assoc, mul_add}

  -- The value of a node of kind `k`.
  abbrev of_kind : StrNode Q → Forest (StrNode Q) → Kind → Q
  of_kind s c k =
      mul s.multiplier
        (pick k (prod_value m a c) (sum_value m a c) one (last_value m a c) (a.atom s.name c))

  pub value_sum :
      (s : StrNode Q) (c : Forest (StrNode Q))
      → is_sum s ≡ true
      → value m a (record { head = s; children = c }) ≡ mul s.multiplier (sum_value m a c)
  unfolding value
  value_sum s c h = ap (of_kind s c) (kind-sum s h)

  pub value_prod :
      (s : StrNode Q) (c : Forest (StrNode Q))
      → is_prod s ≡ true
      → value m a (record { head = s; children = c }) ≡ mul s.multiplier (prod_value m a c)
  unfolding value
  value_prod s c h = ap (of_kind s c) (kind-prod s h)

  pub value_number :
      (s : StrNode Q) (c : Forest (StrNode Q))
      → is_rational s ≡ true
      → value m a (record { head = s; children = c }) ≡ mul s.multiplier one
  unfolding value
  value_number s c h = ap (of_kind s c) (kind-number s h)

  value_components :
      (s : StrNode Q) (c : Forest (StrNode Q))
      → is_components s ≡ true
      → value m a (record { head = s; children = c }) ≡ mul s.multiplier (last_value m a c)
  unfolding value
  value_components s c h = ap (of_kind s c) (kind-components s h)

  -- The value of a node whose multiplier is multiplied.
  pub value_multiplied :
      (s : StrNode Q) (c : Forest (StrNode Q)) (q : Q)
      → value m a (record { head = multiply m s q; children = c })
        ≡ mul q (value m a (record { head = s; children = c }))
  unfolding value kind is_prod is_sum is_components is_named
  value_multiplied s c q = mul_assoc _ _ _

  -- Bracket and parent relation do not matter.
  pub value_restyled :
      (s : StrNode Q) (c : Forest (StrNode Q)) (b : Bracket) (p : ParentRel)
      → value m a (record { head = record s { bracket = b; parent_rel = p }; children = c })
        ≡ value m a (record { head = s; children = c })
  unfolding value kind is_prod is_sum is_components is_named
  value_restyled s c b p = refl

  -- The multiplier of a node, taken out.
  pub value-set_one :
      (s : StrNode Q) (c : Forest (StrNode Q))
      → value m a (record { head = s; children = c })
        ≡ mul s.multiplier (value m a (record { head = set_one m s; children = c }))
  unfolding value kind is_prod is_sum is_components is_named
  value-set_one s c = ap (mul s.multiplier) (sym (mul_one_left _))

  pub value_zero :
      (s : StrNode Q) (c : Forest (StrNode Q))
      → s.multiplier ≡ zero
      → value m a (record { head = s; children = c }) ≡ zero
  unfolding value
  value_zero s c e =
      ap
        (λ t. mul t (
          pick (kind s) (prod_value m a c) (sum_value m a c) one (last_value m a c)
            (a.atom s.name c)))
        e
      ∙ mul_zero_left _

  pub sum_value_node :
      (s : StrNode Q) (c r : Forest (StrNode Q))
      → sum_value m a (node s c r)
        ≡ add (value m a (record { head = s; children = c })) (sum_value m a r)
  unfolding value
  sum_value_node s c r = refl

  pub prod_value_node :
      (s : StrNode Q) (c r : Forest (StrNode Q))
      → prod_value m a (node s c r)
        ≡ mul (value m a (record { head = s; children = c })) (prod_value m a r)
  unfolding value
  prod_value_node s c r = refl

  pub sum_value_nil : sum_value m a nil ≡ zero
  unfolding prod_value
  sum_value_nil = refl

  pub prod_value_nil : prod_value m a nil ≡ one
  unfolding prod_value
  prod_value_nil = refl

  value-choose_push :
      (s : StrNode Q) (c terms values : Forest (StrNode Q))
      → sum_value m a terms ≡ mul s.multiplier (sum_value m a c)
      → last_value m a values ≡ mul s.multiplier (last_value m a c)
      → value m a (choose_push m s c terms values) ≡ value m a (record { head = s; children = c })
  unfolding choose_push is_sum is_components is_named
  value-choose_push s c terms values hs hl = elim (Bool-cases (eqb s.multiplier one)) [
    | inl e ↦ rw e
    | inr n ↦ elim (Bool-cases (is_sum s)) [
      | inl e ↦
          rw (n, e) (value_sum (set_one m s) terms e ∙ mul_one_left _ ∙ hs ∙ sym (value_sum s c e))
      | inr n' ↦ elim (Bool-cases (is_components s)) [
        | inl e ↦
            rw (n, n', e)
              (value_components (set_one m s) values e
                ∙ mul_one_left _
                ∙ hl
                ∙ sym (value_components s c e))
        | inr n'' ↦ rw (n, n', n'')
      ]
    ]
  ]

  -- A child that is multiplied by `q` and then pushed down.
  abbrev pushed : Q → StrNode Q → Forest (StrNode Q) → Ex Q
  pushed q s c =
      let s' = multiply m s q in
      choose_push m s' c (push_children m s'.multiplier c) (push_last m s'.multiplier c)

  mutual
    unfolding prod_value push_children value

    pub sum_value-push :
        (q : Q) (f : Forest (StrNode Q))
        → sum_value m a (push_children m q f) ≡ mul q (sum_value m a f)
    sum_value-push q nil = sym (mul_zero_right m q)
    sum_value-push q (node s c r) =
        ap₂ add
          (value-choose_push (multiply m s q) c _ _ (sum_value-push (mul q s.multiplier) c)
              (last_value-push (mul q s.multiplier) c)
            ∙ value_multiplied s c q)
          (sum_value-push q r)
        ∙ sym (mul_add q _ _)

    pub last_value-push :
        (q : Q) (f : Forest (StrNode Q))
        → last_value m a (push_last m q f) ≡ mul q (last_value m a f)
    last_value-push q nil = sym (mul_zero_right m q)
    last_value-push q (node s c nil) = elim (Bool-cases (is_comma s)) [
      | inl e ↦ rw e (list_value-push q c)
      | inr e ↦ rw e (entry_value-push q c)
    ]
    last_value-push q (node s c (node t d nil)) = last_value-push q (node t d nil)
    last_value-push q (node s c (node t d (node u k r))) = last_value-push q (node t d (node u k r))

    list_value-push :
        (q : Q) (f : Forest (StrNode Q))
        → list_value m a (push_values m q f) ≡ mul q (list_value m a f)
    list_value-push q nil = sym (mul_zero_right m q)
    list_value-push q (node s c r) =
        ap₂ add (entry_value-push q c) (list_value-push q r) ∙ sym (mul_add q _ _)

    entry_value-push :
        (q : Q) (f : Forest (StrNode Q))
        → entry_value m a (push_value m q f) ≡ mul q (entry_value m a f)
    entry_value-push q nil = sym (mul_zero_right m q)
    entry_value-push q (node s c nil) = sym (mul_zero_right m q)
    entry_value-push q (node s c (node v d r)) =
        ap (mul (a.weight s c)) (
          value-choose_push (multiply m v q) d _ _ (sum_value-push (mul q v.multiplier) d)
            (last_value-push (mul q v.multiplier) d)
          ∙ value_multiplied v d q)
        ∙ mul_left_comm m _ _ _

  -- `push_down_multiplier` keeps the value of every expression.
  pub value-push_down_multiplier : (e : Ex Q) → value m a (push_down_multiplier m e).1 ≡ value m a e
  unfolding push_down_multiplier
  value-push_down_multiplier e =
      value-choose_push e.head e.children _ _ (sum_value-push e.head.multiplier e.children)
        (last_value-push e.head.multiplier e.children)
