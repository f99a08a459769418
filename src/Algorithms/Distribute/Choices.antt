-- ===== src/Algorithms/Distribute/Choices.antt =====
-- How many terms core/algorithms/distribute.cc makes: one for every way to choose a term from every
-- sum.
use cadabra.Base.{
  ℕ, suc, ◌*◌, true, none, if◌then◌else◌, ◌≡◌, ◌↔◌, refl, ap, ◌∙◌, inl, inr, Bool-cases, arith,
}
use native.Mathlib.Nat.{mul_assoc}
use cadabra.Tree.{Forest, nil, node, ◌⊕◌, count, count-⊕}
use cadabra.Storage.{StrNode, Ex, is_named}
use cadabra.Storage.Multiplier.{Rational}
use cadabra.Cleanup.{is_prod, is_sum}
use cadabra.Algorithms.Distribute.{
  distribute_product, distribute_products, append_factor, distribute_factors, distribute, first,
}

module _ {Q : Type 0} where
  -- The ways to choose one term from every factor that is a sum.
  unfoldable pub choices : Forest (StrNode Q) → ℕ
  choices nil = 1
  choices (node s c r) = (if is_sum s then count c else 1) * choices r

  unfoldable pub AllProducts : Forest (StrNode Q) → Type 0
  AllProducts nil = Unit
  AllProducts (node p k r) = (is_prod p ≡ true) × AllProducts r

  pub AllProducts-⊕ :
      (f g : Forest (StrNode Q)) → AllProducts f → AllProducts g → AllProducts (f ⊕ g)
  unfolding AllProducts
  AllProducts-⊕ nil g h k = k
  AllProducts-⊕ (node p c r) g h k = (h.0, AllProducts-⊕ r g h.1 k)

module _ (m : Rational) where
  open m use {Q}

  pub AllProducts-distribute_product :
      (s : StrNode Q) (c : Forest (StrNode Q)) (p : StrNode Q) (k : Forest (StrNode Q))
      → is_prod p ≡ true
      → AllProducts (distribute_product m s c p k)
  unfolding AllProducts distribute_product is_prod is_named
  AllProducts-distribute_product s nil p k h = tt
  AllProducts-distribute_product s (node t c r) p k h =
      (h, AllProducts-distribute_product s r p k h)

  pub AllProducts-distribute_products :
      (s : StrNode Q) (c f : Forest (StrNode Q))
      → AllProducts f
      → AllProducts (distribute_products m s c f)
  unfolding AllProducts distribute_products
  AllProducts-distribute_products s c nil h = tt
  AllProducts-distribute_products s c (node p k r) h =
      AllProducts-⊕ _ _ (AllProducts-distribute_product s c p k h.0)
        (AllProducts-distribute_products s c r h.1)

  pub AllProducts-append_factor :
      (s : StrNode Q) (c f : Forest (StrNode Q))
      → AllProducts f
      → AllProducts (append_factor m s c f)
  unfolding AllProducts append_factor
  AllProducts-append_factor s c nil h = tt
  AllProducts-append_factor s c (node p k r) h = (h.0, AllProducts-append_factor s c r h.1)

  pub count-distribute_product :
      (s : StrNode Q) (c : Forest (StrNode Q)) (p : StrNode Q) (k : Forest (StrNode Q))
      → count (distribute_product m s c p k) ≡ count c
  unfolding distribute_product
  count-distribute_product s nil p k = refl
  count-distribute_product s (node t c r) p k = ap suc (count-distribute_product s r p k)

  pub count-distribute_products :
      (s : StrNode Q) (c f : Forest (StrNode Q))
      → count (distribute_products m s c f) ≡ count f * count c
  unfolding distribute_products
  count-distribute_products s c nil = omega arith
  count-distribute_products s c (node p k r) =
      let h = count-⊕ (distribute_product m s c p k) (distribute_products m s c r) in
      rw (h, count-distribute_product s c p k, count-distribute_products s c r) (grind arith)

  pub count-append_factor :
      (s : StrNode Q) (c f : Forest (StrNode Q)) → count (append_factor m s c f) ≡ count f
  unfolding append_factor
  count-append_factor s c nil = refl
  count-append_factor s c (node p k r) = ap suc (count-append_factor s c r)

  pub count-distribute_factors :
      (f products : Forest (StrNode Q))
      → count (distribute_factors m f products) ≡ count products * choices f
  unfolding distribute_factors choices
  count-distribute_factors nil products = grind arith
  count-distribute_factors (node s c r) products = elim (Bool-cases (is_sum s)) [
    | inl e ↦
        rw (e, distribute_factors)
          (count-distribute_factors r (distribute_products m s c products)
            ∙ ap (λ n. n * choices r) (count-distribute_products s c products)
            ∙ mul_assoc _ _ _)
    | inr e ↦
        rw (e, distribute_factors)
          (count-distribute_factors r (append_factor m s c products)
            ∙ ap (λ n. n * choices r) (count-append_factor s c products)
            ∙ grind arith)
  ]

  -- `distribute` does nothing exactly where there is one way to choose a term from every sum.
  pub distribute-choices : (e : Ex Q) → (distribute m e ≡ none) ↔ (choices e.children ≡ 1)
  unfolding distribute
  distribute-choices e =
      rw (count-distribute_factors e.children (node (first m e) nil nil)) (ground arith)
