-- ===== src/Cleanup/Value.antt =====
-- What an expression stands for: an assignment of numbers to the atoms. A product is the product
-- of its factors, a sum the sum of its terms, a components node the sum of its values with the
-- weights of their index values, and any other node what the assignment says of its name and
-- children; all are multiplied by the node's multiplier.
use cadabra.Base.{if◌then◌else◌, Bytes, codes}
use cadabra.Tree.{Forest, nil, node}
use cadabra.Storage.{StrNode, Ex, is_named}
use cadabra.Storage.Multiplier.{Rational}
use cadabra.Cleanup.{is_prod, is_sum, is_components, is_comma}

pub data Kind : Type 0 where
  product summation number components atomic : Kind

module _ {Q : Type 0} where
  unfoldable pub kind : StrNode Q → Kind
  kind s =
      if is_prod s
      then product
      else if is_sum s
      then summation
      else if is_named (codes "1") s
      then number
      else if is_components s
      then components
      else atomic

abbrev pub pick {ℓ} : {A : Type ℓ} → Kind → A → A → A → A → A → A
pick product p s n c a = p
pick summation p s n c a = s
pick number p s n c a = n
pick components p s n c a = c
pick atomic p s n c a = a

-- The numbers that atoms and index values stand for.
pub record Assignment (Q : Type 0) : Type 0 where
  pub atom : Bytes → Forest (StrNode Q) → Q
  pub weight : StrNode Q → Forest (StrNode Q) → Q

module _ (m : Rational) (a : Assignment m.Q) where
  open m use {Q, zero, one, add, mul}

  abbrev pub node_value : StrNode Q → Forest (StrNode Q) → Q → Q → Q → Q
  node_value s c product_of sum_of list_of =
      mul s.multiplier (pick (kind s) product_of sum_of one list_of (a.atom s.name c))

  unfoldable mutual
    pub prod_value : Forest (StrNode Q) → Q
    prod_value nil = one
    prod_value (node s c r) =
        mul (node_value s c (prod_value c) (sum_value c) (last_value c)) (prod_value r)

    pub sum_value : Forest (StrNode Q) → Q
    sum_value nil = zero
    sum_value (node s c r) =
        add (node_value s c (prod_value c) (sum_value c) (last_value c)) (sum_value r)

    pub last_value : Forest (StrNode Q) → Q
    last_value nil = zero
    last_value (node s c nil) = if is_comma s then list_value c else entry_value c
    last_value (node s c (node t d r)) = last_value (node t d r)

    pub list_value : Forest (StrNode Q) → Q
    list_value nil = zero
    list_value (node s c r) = add (entry_value c) (list_value r)

    pub entry_value : Forest (StrNode Q) → Q
    entry_value nil = zero
    entry_value (node s c nil) = zero
    entry_value (node s c (node v d r)) =
        mul (a.weight s c) (node_value v d (prod_value d) (sum_value d) (last_value d))

  unfoldable pub value : Ex Q → Q
  unfolding prod_value
  value e =
      node_value e.head e.children (prod_value e.children) (sum_value e.children)
        (last_value e.children)
