-- ===== src/Cleanup/LostFactor.antt =====
-- The product of an inner product that stands alone: where `cleanup_productlike` goes wrong.
use cadabra.Base.{true, false, ◌≡◌, sym, ◌∙◌}
use cadabra.Tree.{Forest, nil, node}
use cadabra.Storage.{StrNode, is_named, set_one}
use cadabra.Storage.Multiplier.{Rational}
use cadabra.Storage.Names.{is_range_wildcard}
use cadabra.Cleanup.{is_prod, flatten_prods, cleanup_productlike, push_down_multiplier}

module _ (m : Rational) where
  open m use {Q}

  -- What the collapse makes of a product of one product of one factor.
  lone_result :
      (s p t : StrNode Q) (c : Forest (StrNode Q))
      → is_prod p ≡ true
      → is_prod t ≡ false
      → is_range_wildcard t.name ≡ false
      → cleanup_productlike m (record { head = s; children = node p (node t c nil) nil }) ≡ (
        true,
        (push_down_multiplier m (record {
          head = record s { name = t.name; multiplier = m.mul p.multiplier s.multiplier };
          children = c;
        })).1,
      )
  unfolding cleanup_productlike
  lone_result s p t c hp ht hw = rw (hp, ht, hw, flatten_prods)

  set_one-is_prod : (t : StrNode Q) → is_prod t ≡ false → is_prod (set_one m t) ≡ false
  unfolding is_prod is_named
  set_one-is_prod t h = h

  -- Where a product has an inner product as its only child, and that has one factor `t`, neither a
  -- product nor a range wildcard, the multiplier of `t` has no influence on the result of
  -- `cleanup_productlike`: it is lost.
  pub cleanup_productlike-ignores_multiplier :
      (s p t : StrNode Q) (c : Forest (StrNode Q))
      → is_prod p ≡ true
      → is_prod t ≡ false
      → is_range_wildcard t.name ≡ false
      → cleanup_productlike m (record { head = s; children = node p (node t c nil) nil })
        ≡ cleanup_productlike m
            (record { head = s; children = node p (node (set_one m t) c nil) nil })
  cleanup_productlike-ignores_multiplier s p t c hp ht hw =
      lone_result s p t c hp ht hw
      ∙ sym (lone_result s p (set_one m t) c hp (set_one-is_prod t ht) hw)
