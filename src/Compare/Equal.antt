-- ===== src/Compare/Equal.antt =====
-- What the exact comparison finds equal, with wildcards taken for ordinary names, as the
-- algorithms that collect terms call it.
use cadabra.Base.{
  suc, Bool, true, false, not, ◌&&◌, none, some, ◌≡◌, ◌≢◌, ◌↔◌, ◌⊎◌, refl, ap, ◌∙◌, inl, inr,
  Bool-cases, Option-cases, arith,
}
use mathlib.Core.Path.{subst}
use cadabra.Tree.{Forest, nil, node, count}
use cadabra.Storage.{StrNode, Ex, is_index, is_rational}
use cadabra.Storage.Multiplier.{Rational}
use cadabra.Storage.Names.{is_name_wildcard}
use cadabra.Compare.{
  ℤ, pos, negsuc, Mult, across, same, is_same, Settings, stop, remember, compare_wildcards,
  compare_multipliers, compare_sets, compare_heads, compare_node, compare_pass, subtree_compare,
  subtree_exact_equal, agree, is_now,
}
use cadabra.Compare.Parts.{
  or_else-none, none-or_else, sided-Differs, or_else-Differs, names-Differs, compare_names-none,
  ranks-Differs, compare_ranks-none, counts-Differs, compare_counts-none, two_passes_same,
  next_child-not_stop, chosen_same, Differs,
}

module _ {Q : Type 0} where
  -- Equal names, parent relations and, unless the name is a wildcard, multipliers, on every level.
  unfoldable pub Alike : Forest (StrNode Q) → Forest (StrNode Q) → Type 0
  Alike (node s c r) (node t d q) =
      (s.name ≡ t.name)
      × (s.parent_rel ≡ t.parent_rel)
      × ((is_name_wildcard s.name ≡ true) ⊎ (s.multiplier ≡ t.multiplier))
      × Alike c d
      × Alike r q
  Alike nil nil = Unit
  Alike _ _ = ⊥

  pub count-Alike : (c d : Forest (StrNode Q)) → Alike c d → count c ≡ count d
  unfolding Alike
  count-Alike nil nil h = refl
  count-Alike nil (node t d q) h = elim h [ ]
  count-Alike (node s c r) nil h = elim h [ ]
  count-Alike (node s c r) (node t d q) h = ap suc (count-Alike r q h.4)

module _ (m : Rational) (less : m.Q → m.Q → Bool) (settings : Settings m.Q) where
  open m use {Q, eqb, eqb_iff}

  -- Parent relations are compared everywhere.
  abbrev level : ℤ
  level = negsuc 1

  multipliers-Differs :
      (k : ℤ) (s t : StrNode Q) → Differs (compare_multipliers m less settings k s t)
  unfolding compare_multipliers
  multipliers-Differs k s t =
      elim (Bool-cases (
        agree (is_rational s) (is_rational t)
        && is_now k
        && not (is_name_wildcard t.name)
        && not (is_name_wildcard s.name)
        && not (eqb s.multiplier t.multiplier))) [
          | inl e ↦ rw e (sided-Differs across _)
          | inr n ↦ rw n tt
        ]

  multipliers_none :
      (s t : StrNode Q)
      → s.name ≡ t.name
      → (compare_multipliers m less settings (negsuc 1) s t ≡ none)
        ↔ ((is_name_wildcard s.name ≡ true) ⊎ (s.multiplier ≡ t.multiplier))
  unfolding compare_multipliers is_rational
  multipliers_none s t e = rw e (ground (arith, eqb_iff s.multiplier t.multiplier))

  multipliers_later : (s t : StrNode Q) → compare_multipliers m less settings (pos 0) s t ≡ none
  unfolding compare_multipliers
  multipliers_later s t = ground arith

  heads-Differs :
      settings.literal_wildcards ≡ true
      → (k : ℤ) (e f : Ex Q) → Differs (compare_heads m less settings level k e f)
  unfolding compare_heads compare_wildcards
  heads-Differs w k e f = rw w (
      or_else-Differs _ _ (multipliers-Differs k e.head f.head) (
        or_else-Differs _ _ (names-Differs _ e.head.name f.head.name) (
          or_else-Differs _ _ (ranks-Differs e.head.parent_rel f.head.parent_rel)
            (counts-Differs (count e.children) (count f.children)))))

  -- What the heads say: everything but the multipliers.
  heads_none :
      settings.literal_wildcards ≡ true
      → (k : ℤ) (e f : Ex Q)
      → (compare_heads m less settings level k e f ≡ none) ↔ (
          (compare_multipliers m less settings k e.head f.head ≡ none)
          × (e.head.name ≡ f.head.name)
          × (e.head.parent_rel ≡ f.head.parent_rel)
          × (count e.children ≡ count f.children))
  unfolding compare_heads compare_wildcards
  heads_none w k e f = rw w (
    λ h.
        let a = or_else-none _ _ h in
        let b = or_else-none _ _ a.1 in
        let c = or_else-none _ _ b.1 in
        (
          a.0,
          (compare_names-none _ _ _).0 b.0,
          (compare_ranks-none _ _).0 c.0,
          (compare_counts-none _ _).0 c.1,
        ),
    λ h. none-or_else _ _ h.0 (
        none-or_else _ _ ((compare_names-none _ _ _).1 h.1)
          (none-or_else _ _ ((compare_ranks-none _ _).1 h.2) ((compare_counts-none _ _).1 h.3))),
  )

  pass-not_stop :
      (k : ℤ) (c d : Forest (StrNode Q)) (u : Mult) (b : Bool)
      → compare_pass m less settings level k c d u b ≢ stop same
  unfolding compare_pass
  pass-not_stop k nil d u b h = absurd (cc)
  pass-not_stop k (node s c r) nil u b h = absurd (cc)
  pass-not_stop k (node s c r) (node t d q) u b h = elim (Bool-cases (agree (is_index s) b)) [
    | inl e ↦ next_child-not_stop u _ _ (pass-not_stop k r q u b) (rw e at h)
    | inr e ↦ pass-not_stop k r q u b (rw e at h)
  ]

  node_same :
      settings.literal_wildcards ≡ true
      → (k l : ℤ) (e f : Ex Q) (c d : Forest (StrNode Q))
      → compare_node m less settings level k e f (compare_pass m less settings level l c d) ≡ same
      → (compare_heads m less settings level k e f ≡ none)
        × (compare_pass m less settings level l c d (compare_sets m less settings e f).0 false
            ≡ remember same)
        × (compare_pass m less settings level l c d (compare_sets m less settings e f).0 true
            ≡ remember same)
  unfolding compare_node
  node_same w k l e f c d h =
      let u = (compare_sets m less settings e f).0 in
      elim (Option-cases (compare_heads m less settings level k e f)) [
        | inl o ↦
            let both =
              two_passes_same _ _ (pass-not_stop l c d u false) (pass-not_stop l c d u true)
                (rw o at h) in
            (o, both.0, both.1)
        | inr (r, o) ↦
            let r≡same : r ≡ same = rw o at h in
            let differs = heads-Differs w k e f in
            elim (subst Differs (o ∙ ap some r≡same) differs) [ ]
      ]

  pass-Alike :
      settings.literal_wildcards ≡ true
      → (c d : Forest (StrNode Q)) (u : Mult) → count c ≡ count d
      → compare_pass m less settings level level c d u false ≡ remember same
      → compare_pass m less settings level level c d u true ≡ remember same
      → Alike c d
  unfolding compare_pass Alike
  pass-Alike w nil nil u n h g = tt
  pass-Alike w nil (node t d q) u n h g = absurd (omega arith)
  pass-Alike w (node s c r) nil u n h g = absurd (omega arith)
  pass-Alike w (node s c r) (node t d q) u n h g =
      let one : Ex Q = record { head = s; children = c } in
      let two : Ex Q = record { head = t; children = d } in
      let parts = chosen_same (is_index s) u _ _ _ h g in
      let inner = node_same w level level one two c d parts.0 in
      let heads = (heads_none w level one two).0 inner.0 in
      (
        heads.1,
        heads.2,
        (multipliers_none s t heads.1).0 heads.0,
        pass-Alike w c d _ heads.3 inner.1 inner.2,
        pass-Alike w r q u (omega arith) parts.1 parts.2,
      )

  Alike-pass :
      settings.literal_wildcards ≡ true
      → (c d : Forest (StrNode Q)) (u : Mult) (b : Bool) → Alike c d
      → compare_pass m less settings level level c d u b ≡ remember same
  unfolding compare_pass Alike compare_node
  Alike-pass w nil d u b h = refl
  Alike-pass w (node s c r) nil u b h = elim h [ ]
  Alike-pass w (node s c r) (node t d q) u b h =
      let one : Ex Q = record { head = s; children = c } in
      let two : Ex Q = record { head = t; children = d } in
      let v = (compare_sets m less settings one two).0 in
      let heads =
        (heads_none w level one two).1
          ((multipliers_none s t h.0).1 h.2, h.0, h.1, count-Alike c d h.3) in
      let rest = Alike-pass w r q u b h.4 in
      rw (heads, Alike-pass w c d v false h.3, Alike-pass w c d v true h.3, rest) (ground arith)

  Alike-subtree_compare :
      settings.literal_wildcards ≡ true
      → (e f : Ex Q)
      → (e.head.name ≡ f.head.name)
        × (e.head.parent_rel ≡ f.head.parent_rel)
        × Alike e.children f.children
      → subtree_compare m less settings (negsuc 1) (pos 0) e f ≡ same
  unfolding subtree_compare compare_node
  Alike-subtree_compare w e f h =
      let u = (compare_sets m less settings e f).0 in
      let heads =
        (heads_none w (pos 0) e f).1
          (multipliers_later e.head f.head, h.0, h.1, count-Alike e.children f.children h.2) in
      rw (
        heads,
        Alike-pass w e.children f.children u false h.2,
        Alike-pass w e.children f.children u true h.2,
      )

  -- With wildcards taken for ordinary names, two terms are exactly equal in the comparison that
  -- collects terms just when their names and parent relations agree, and their children agree in
  -- names, parent relations and, where the name is not a wildcard, multipliers, on every level.
  -- Neither the properties nor the multipliers of the two terms themselves matter.
  pub subtree_exact_equal-Alike :
      settings.literal_wildcards ≡ true
      → (one two : Ex Q)
      → (subtree_exact_equal m less settings (negsuc 1) (pos 0) one two ≡ true) ↔ (
          (one.head.name ≡ two.head.name)
          × (one.head.parent_rel ≡ two.head.parent_rel)
          × Alike one.children two.children)
  unfolding subtree_exact_equal subtree_compare
  subtree_exact_equal-Alike w e f = (
    λ h.
        let inner = node_same w (pos 0) level e f e.children f.children (ground arith) in
        let heads = (heads_none w (pos 0) e f).0 inner.0 in
        (heads.1, heads.2, pass-Alike w e.children f.children _ heads.3 inner.1 inner.2),
    λ h. ap is_same (Alike-subtree_compare w e f h),
  )
