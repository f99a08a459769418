-- ===== src/Algorithms/CollectTerms/Values.antt =====
-- Terms that the comparison of core/Compare.cc finds exactly equal stand for the same number, but
-- for their multipliers.
use cadabra.Base.{true, false, ◌≡◌, ◌⊎◌, refl, ap, ap₂, ◌∙◌, inl, inr, Bytes}
use cadabra.Tree.{Forest, nil, node}
use cadabra.Storage.{StrNode, Ex, is_named, set_one}
use cadabra.Storage.Multiplier.{Rational}
use cadabra.Storage.Names.{is_name_wildcard}
use cadabra.Cleanup.{is_prod, is_sum, is_components, is_comma}
use cadabra.Cleanup.Value.{
  kind, pick, Assignment, node_value, prod_value, sum_value, last_value, list_value, entry_value,
  value,
}
use cadabra.Compare.Equal.{Alike}

module _ {Q : Type 0} where
  -- No name below the node is a wildcard.
  unfoldable pub Plain : Forest (StrNode Q) → Type 0
  Plain nil = Unit
  Plain (node s c r) = (is_name_wildcard s.name ≡ false) × Plain c × Plain r

  kind-same_name : (s t : StrNode Q) → s.name ≡ t.name → kind s ≡ kind t
  unfolding kind is_prod is_sum is_components is_named
  kind-same_name s t h = rw h

  is_comma-same_name : (s t : StrNode Q) → s.name ≡ t.name → is_comma s ≡ is_comma t
  unfolding is_comma is_named
  is_comma-same_name s t h = rw h

  same_multiplier :
      (s t : StrNode Q)
      → (is_name_wildcard s.name ≡ true) ⊎ (s.multiplier ≡ t.multiplier)
      → is_name_wildcard s.name ≡ false
      → s.multiplier ≡ t.multiplier
  same_multiplier s t (inl w) n = absurd (cc)
  same_multiplier s t (inr e) n = e

module _ (m : Rational) (a : Assignment m.Q)
    (atoms : (n : Bytes) (c d : Forest (StrNode m.Q)) → Alike c d → a.atom n c ≡ a.atom n d)
    (weights : (s t : StrNode m.Q) (c d : Forest (StrNode m.Q))
      → Alike (node s c nil) (node t d nil)
      → a.weight s c ≡ a.weight t d) where
  open m use {Q, one}

  node_value-same :
      (s t : StrNode Q) (c d : Forest (StrNode Q)) (p p' q q' l l' : Q)
      → s.name ≡ t.name
      → s.multiplier ≡ t.multiplier
      → Alike c d
      → p ≡ p'
      → q ≡ q'
      → l ≡ l'
      → node_value m a s c p q l ≡ node_value m a t d p' q' l'
  node_value-same s t c d p p' q q' l l' n e h hp hq hl =
      let k = kind-same_name s t n in
      let x : a.atom s.name c ≡ a.atom t.name d = ap (λ y. a.atom y c) n ∙ atoms t.name c d h in
      let inner : pick (kind s) p q one l (a.atom s.name c)
          ≡ pick (kind t) p' q' one l' (a.atom t.name d) =
        rw (k, hp, hq, hl, x) in
      ap₂ m.mul e inner

  mutual
    unfolding prod_value Alike Plain

    prod_value-Alike :
        (c d : Forest (StrNode Q)) → Alike c d → Plain c → prod_value m a c ≡ prod_value m a d
    prod_value-Alike nil nil h p = refl
    prod_value-Alike nil (node t d q) h p = elim h [ ]
    prod_value-Alike (node s c r) nil h p = elim h [ ]
    prod_value-Alike (node s c r) (node t d q) h p =
        ap₂ m.mul
          (node_value-same s t c d _ _ _ _ _ _ h.0 (same_multiplier s t h.2 p.0) h.3
            (prod_value-Alike c d h.3 p.1) (sum_value-Alike c d h.3 p.1)
            (last_value-Alike c d h.3 p.1))
          (prod_value-Alike r q h.4 p.2)

    sum_value-Alike :
        (c d : Forest (StrNode Q)) → Alike c d → Plain c → sum_value m a c ≡ sum_value m a d
    sum_value-Alike nil nil h p = refl
    sum_value-Alike nil (node t d q) h p = elim h [ ]
    sum_value-Alike (node s c r) nil h p = elim h [ ]
    sum_value-Alike (node s c r) (node t d q) h p =
        ap₂ m.add
          (node_value-same s t c d _ _ _ _ _ _ h.0 (same_multiplier s t h.2 p.0) h.3
            (prod_value-Alike c d h.3 p.1) (sum_value-Alike c d h.3 p.1)
            (last_value-Alike c d h.3 p.1))
          (sum_value-Alike r q h.4 p.2)

    last_value-Alike :
        (c d : Forest (StrNode Q)) → Alike c d → Plain c → last_value m a c ≡ last_value m a d
    last_value-Alike nil nil h p = refl
    last_value-Alike nil (node t d q) h p = elim h [ ]
    last_value-Alike (node s c r) nil h p = elim h [ ]
    last_value-Alike (node s c nil) (node t d nil) h p =
        rw (is_comma-same_name s t h.0, list_value-Alike c d h.3 p.1, entry_value-Alike c d h.3 p.1)
    last_value-Alike (node s c nil) (node t d (node u x q)) h p = elim h.4 [ ]
    last_value-Alike (node s c (node u x r)) (node t d nil) h p = elim h.4 [ ]
    last_value-Alike (node s c (node u x r)) (node t d (node v y q)) h p =
        last_value-Alike (node u x r) (node v y q) h.4 p.2

    list_value-Alike :
        (c d : Forest (StrNode Q)) → Alike c d → Plain c → list_value m a c ≡ list_value m a d
    list_value-Alike nil nil h p = refl
    list_value-Alike nil (node t d q) h p = elim h [ ]
    list_value-Alike (node s c r) nil h p = elim h [ ]
    list_value-Alike (node s c r) (node t d q) h p =
        ap₂ m.add (entry_value-Alike c d h.3 p.1) (list_value-Alike r q h.4 p.2)

    entry_value-Alike :
        (c d : Forest (StrNode Q)) → Alike c d → Plain c → entry_value m a c ≡ entry_value m a d
    entry_value-Alike nil nil h p = refl
    entry_value-Alike nil (node t d q) h p = elim h [ ]
    entry_value-Alike (node s c r) nil h p = elim h [ ]
    entry_value-Alike (node s c nil) (node t d nil) h p = refl
    entry_value-Alike (node s c nil) (node t d (node u x q)) h p = elim h.4 [ ]
    entry_value-Alike (node s c (node u x r)) (node t d nil) h p = elim h.4 [ ]
    entry_value-Alike (node s c (node u x r)) (node v d (node t y q)) h p =
        ap₂ m.mul (weights s v c d (h.0, h.1, h.2, h.3, tt)) (
          node_value-same u t x y _ _ _ _ _ _ h.4.0 (same_multiplier u t h.4.2 p.2.0) h.4.3
            (prod_value-Alike x y h.4.3 p.2.1) (sum_value-Alike x y h.4.3 p.2.1)
            (last_value-Alike x y h.4.3 p.2.1))

  -- Alike children, and no wildcard among them: a name has the same value before them.
  pub value-Alike :
      (e f : Ex Q)
      → e.head.name ≡ f.head.name
      → Alike e.children f.children
      → Plain e.children
      → value m a (record e { head = set_one m e.head })
        ≡ value m a (record f { head = set_one m f.head })
  unfolding value
  value-Alike e f n h p =
      node_value-same (set_one m e.head) (set_one m f.head) e.children f.children _ _ _ _ _ _ n refl
        h (prod_value-Alike _ _ h p) (sum_value-Alike _ _ h p) (last_value-Alike _ _ h p)
