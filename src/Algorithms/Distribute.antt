-- ===== src/Algorithms/Distribute.antt =====
-- core/algorithms/distribute.cc: a product of sums becomes a sum of products.
pub mod Choices
pub mod Expansion
use cadabra.Base.{
  ◌&&◌, ℕ, suc, ◌+◌, ◌*◌, Bool, true, false, Option, none, some, ◌==◌, if◌then◌else◌, ◌≡◌, codes,
}
use cadabra.Tree.{Forest, nil, node, ◌⊕◌, count}
use cadabra.Storage.{StrNode, Ex, b_none, p_none, multiply, set_one, str_node}
use cadabra.Storage.Multiplier.{Rational}
use cadabra.Cleanup.{is_sum, has_sum}

module _ (m : Rational) where
  open m use {Q}

  -- Whether the node is `Distributable` is for the registry of properties to say.
  unfoldable pub can_apply : (Ex Q → Bool) → Ex Q → Bool
  can_apply distributable e = distributable e && has_sum m e.children

  -- The terms of the sum `s` as further factors of one product: a product for each term, which takes
  -- over the multipliers of the term and of the sum.
  pub distribute_product :
      StrNode Q → Forest (StrNode Q) → StrNode Q → Forest (StrNode Q) → Forest (StrNode Q)
  distribute_product s nil p k = nil
  distribute_product s (node t c r) p k =
      let factor = record (set_one m t) { bracket = s.bracket } in
      node (multiply m (multiply m p t.multiplier) s.multiplier) (k ⊕ node factor c nil)
        (distribute_product s r p k)

  -- That for every product constructed so far.
  pub distribute_products : StrNode Q → Forest (StrNode Q) → Forest (StrNode Q) → Forest (StrNode Q)
  distribute_products s c nil = nil
  distribute_products s c (node p k r) = distribute_product s c p k ⊕ distribute_products s c r

  -- A factor that is not a sum goes to the end of every product.
  pub append_factor : StrNode Q → Forest (StrNode Q) → Forest (StrNode Q) → Forest (StrNode Q)
  append_factor s c nil = nil
  append_factor s c (node p k r) = node p (k ⊕ node s c nil) (append_factor s c r)

  -- The loop over the factors.
  pub distribute_factors : Forest (StrNode Q) → Forest (StrNode Q) → Forest (StrNode Q)
  unfolding distribute_product distribute_products append_factor
  distribute_factors nil products = products
  distribute_factors (node s c r) products =
      distribute_factors r
        (if is_sum s then distribute_products s c products else append_factor s c products)

  -- The product without factors that the loop starts from.
  abbrev pub first : Ex Q → StrNode Q
  first e =
      let s = e.head in
      record (str_node m s.name s.bracket s.parent_rel) { multiplier = s.multiplier }

  -- `apply`, up to the cleanup of what it has constructed: nothing where there was no sum.
  unfoldable pub distribute : Ex Q → Option (Ex Q)
  unfolding distribute_factors
  distribute e =
      let s = e.head in
      let products = distribute_factors e.children (node (first e) nil nil) in
      if count products == 1
      then none
      else some
          (record { head = str_node m (codes "\\sum") s.bracket s.parent_rel; children = products })
