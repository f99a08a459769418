-- ===== src/Compare/Antisymmetry.antt =====
-- Comparing in the other order: what `subtree_compare` in core/Compare.cc promises to a sort.
use cadabra.Base.{
  ℕ, Bool, true, false, not, ◌&&◌, Option-cases, Option, none, some, [], ◌∷◌, ◌≡◌, refl, ap, ◌∙◌,
  inl, inr, Bool-cases, arith, ◌==◌, Bytes, bytes_eq, bytes_eq_iff,
}
use mathlib.Core.Option.{map as map_some}
use cadabra.Tree.{Forest, nil, node, count}
use cadabra.Storage.{StrNode, Ex, ParentRel, is_index, is_rational}
use cadabra.Storage.Multiplier.{Rational}
use cadabra.Storage.Names.{name_only}
use cadabra.Compare.{
  ℤ, pos, negsuc, Mult, within, across, Comparison, same, before, after, flip, sided, bytes_less,
  Position, Settings, Pass, stop, remember, or_else, in_set, super_as_sub, compare_ranks,
  compare_parent_rels, compare_names, compare_wildcards, compare_counts, compare_multipliers,
  compare_sets, compare_heads, compare_node, compare_pass, subtree_compare, deeper, next_child,
  two_passes, agree, start_set,
}

-- Children at the same place are both indices or both not, on every level.
module _ {Q : Type 0} where
  unfoldable pub Aligned : Forest (StrNode Q) → Forest (StrNode Q) → Type 0
  Aligned (node s c r) (node t d q) = (is_index s ≡ is_index t) × Aligned c d × Aligned r q
  Aligned f g = Unit

bytes_less-flip : (a b : Bytes) → bytes_eq a b ≡ false → bytes_less b a ≡ not (bytes_less a b)
unfolding bytes_less bytes_eq
bytes_less-flip [] [] h = absurd (cc)
bytes_less-flip [] (y ∷ b) h = refl
bytes_less-flip (x ∷ a) [] h = refl
bytes_less-flip (x ∷ a) (y ∷ b) h = ground (arith, bytes_less-flip a b)

bytes_eq_sym : (a b : Bytes) → bytes_eq b a ≡ bytes_eq a b
bytes_eq_sym a b = ground (arith, bytes_eq_iff a b, bytes_eq_iff b a)

and_comm : (a b : Bool) → (a && b) ≡ (b && a)
and_comm a b = ground arith

flip-sided : (k : Mult) (a b : Bool) → a ≡ not b → sided k a ≡ flip (sided k b)
flip-sided k a true e = rw e
flip-sided k a false e = rw e

abbrev flip_pass : Pass → Pass
flip_pass (stop r) = stop (flip r)
flip_pass (remember r) = remember (flip r)

next_child-flip :
    (k : Mult) (r : Comparison) (p : Pass)
    → next_child k (flip r) (flip_pass p) ≡ flip_pass (next_child k r p)
next_child-flip k same p = refl
next_child-flip k (before across) p = refl
next_child-flip k (after across) p = refl
next_child-flip k (before within) (stop r) = refl
next_child-flip k (before within) (remember r) = refl
next_child-flip k (after within) (stop r) = refl
next_child-flip k (after within) (remember r) = refl

two_passes-flip : (p q : Pass) → two_passes (flip_pass p) (flip_pass q) ≡ flip (two_passes p q)
two_passes-flip (stop r) q = refl
two_passes-flip (remember same) (stop r) = refl
two_passes-flip (remember same) (remember r) = refl
two_passes-flip (remember (before k)) q = refl
two_passes-flip (remember (after k)) q = refl

-- The results of two comparisons are each other's opposites.
abbrev Opposite : Option Comparison → Option Comparison → Type 0
Opposite a b = a ≡ map_some flip b

or_else-flip :
    (a b c d : Option Comparison)
    → Opposite a b
    → Opposite c d
    → Opposite (or_else a c) (or_else b d)
or_else-flip a none c d e f = rw (e, f)
or_else-flip a (some r) c d e f = rw e

compare_names-flip :
    (literal : Bool) (k : Mult) (s t : Bytes)
    → Opposite (compare_names literal k t s) (compare_names literal k s t)
unfolding compare_names
compare_names-flip literal k s t = elim (Bool-cases (bytes_eq s t)) [
  | inl e ↦ rw (bytes_eq_sym s t, e)
  | inr n ↦
      let f = bytes_less-flip s t n in
      rw (bytes_eq_sym s t, n, f, bytes_eq_sym (name_only s) (name_only t)) (ground arith)
]

compare_wildcards-flip :
    (literal : Bool) (s t : Bytes)
    → Opposite (compare_wildcards literal t s) (compare_wildcards literal s t)
unfolding compare_wildcards
compare_wildcards-flip literal s t = ground arith

compare_counts-flip : (a b : ℕ) → Opposite (compare_counts b a) (compare_counts a b)
unfolding compare_counts
compare_counts-flip a b = ground arith

compare_ranks-flip : (p q : ParentRel) → Opposite (compare_ranks q p) (compare_ranks p q)
compare_ranks-flip p q = ground arith

compare_parent_rels-flip :
    (l : ℤ) (position : Position) (p q : ParentRel)
    → Opposite (compare_parent_rels l position q p) (compare_parent_rels l position p q)
compare_parent_rels-flip (pos n) position p q = refl
compare_parent_rels-flip (negsuc l) position p q =
    ground (arith, compare_ranks-flip p q, compare_ranks-flip (super_as_sub p) (super_as_sub q))

in_set-flip :
    (position_type : ℕ → Position) (a b : Option ℕ) (start : Mult × Position)
    → in_set position_type b a start ≡ in_set position_type a b start
in_set-flip position_type none none start = refl
in_set-flip position_type none (some b) start = refl
in_set-flip position_type (some a) none start = refl
in_set-flip position_type (some a) (some b) start = elim (Bool-cases (a == b)) [
  | inl e ↦ let a≡b : a ≡ b = ground arith in rw a≡b
  | inr e ↦ let e' : (b == a) ≡ false = ground arith in rw (e, e')
]

start_set-flip : (a b : Bool) → start_set a b ≡ start_set b a
unfolding start_set
start_set-flip a b = ground arith

module _ (m : Rational) (less : m.Q → m.Q → Bool) (settings : Settings m.Q) where
  open m use {Q, eqb, eqb_iff}

  -- Of two different numbers one is less.
  abbrev Total : Type 0
  Total = (a b : Q) → eqb a b ≡ false → less b a ≡ not (less a b)

  compare_multipliers-flip :
      Total
      → (l : ℤ) (s t : StrNode Q)
      → Opposite
          (compare_multipliers m less settings l t s)
          (compare_multipliers m less settings l s t)
  unfolding compare_multipliers
  compare_multipliers-flip total l s t = elim (Bool-cases (eqb s.multiplier t.multiplier)) [
    | inl e ↦ ground (arith, eqb_iff s.multiplier t.multiplier, eqb_iff t.multiplier s.multiplier)
    | inr n ↦ ground (
      arith,
      eqb_iff s.multiplier t.multiplier,
      eqb_iff t.multiplier s.multiplier,
      total s.multiplier t.multiplier n,
    )
  ]

  compare_sets-flip :
      (e f : Ex Q) → compare_sets m less settings f e ≡ compare_sets m less settings e f
  unfolding compare_sets
  compare_sets-flip e f =
      let ie = is_rational e.head in
      let jf = is_rational f.head in
      elim (Option-cases settings.properties) [
        | inl o ↦ rw o (ground (arith, start_set-flip ie jf))
        | inr (p, o) ↦ rw o (
            ground (
              arith,
              start_set-flip ie jf,
              in_set-flip p.position_type (p.indices e) (p.indices f) (start_set ie jf),
            ))
      ]

  compare_heads-flip :
      Total
      → (l k : ℤ) (e f : Ex Q)
      → Opposite (compare_heads m less settings l k f e) (compare_heads m less settings l k e f)
  unfolding compare_heads
  compare_heads-flip total l k e f =
      let sets = compare_sets m less settings e f in
      rw (compare_sets-flip e f) (
        or_else-flip _ _ _ _ (compare_multipliers-flip total k e.head f.head) (
          or_else-flip _ _ _ _
            (compare_wildcards-flip settings.literal_wildcards e.head.name f.head.name)
            (or_else-flip _ _ _ _
              (compare_names-flip settings.literal_wildcards sets.0 e.head.name f.head.name)
              (or_else-flip _ _ _ _
                (compare_parent_rels-flip l sets.1 e.head.parent_rel f.head.parent_rel)
                (compare_counts-flip (count e.children) (count f.children))))))

  compare_node-flip :
      Total
      → (l k : ℤ) (e f : Ex Q) (p q : Mult → Bool → Pass)
      → ((u : Mult) (b : Bool) → p u b ≡ flip_pass (q u b))
      → compare_node m less settings l k f e p ≡ flip (compare_node m less settings l k e f q)
  unfolding compare_node
  compare_node-flip total l k e f p q h =
      let u = (compare_sets m less settings e f).0 in
      let heads = compare_heads-flip total l k e f in
      elim (Option-cases (compare_heads m less settings l k e f)) [
        | inl o ↦
            let o' : compare_heads m less settings l k f e ≡ none = heads ∙ ap (map_some flip) o in
            rw (o, o', compare_sets-flip e f, h u false, h u true)
              (two_passes-flip (q u false) (q u true))
        | inr (r, o) ↦
            let o' : compare_heads m less settings l k f e ≡ some (flip r) =
              heads ∙ ap (map_some flip) o in
            rw (o, o')
      ]

  compare_pass-flip :
      Total
      → (l k : ℤ) (c d : Forest (StrNode Q)) (u : Mult) (b : Bool) → Aligned c d
      → compare_pass m less settings l k d c u b
        ≡ flip_pass (compare_pass m less settings l k c d u b)
  unfolding compare_pass Aligned
  compare_pass-flip total l k nil nil u b h = refl
  compare_pass-flip total l k nil (node t d q) u b h = refl
  compare_pass-flip total l k (node s c r) nil u b h = refl
  compare_pass-flip total l k (node s c r) (node t d q) u b h =
      let here =
        compare_node-flip total l k (record { head = s; children = c })
          (record { head = t; children = d }) _ _
          (λ v i. compare_pass-flip total (deeper l) (deeper k) c d v i h.1) in
      let rest = compare_pass-flip total l k r q u b h.2 in
      elim (Bool-cases (agree (is_index t) b)) [
        | inl e ↦ rw (h.0, e, here, rest) (next_child-flip u _ _)
        | inr e ↦ rw (h.0, e, rest)
      ]

  -- For two subtrees whose children at the same places are both indices or both not, comparing in
  -- the other order gives the opposite result, whatever the levels, the properties and the
  -- treatment of wildcards, if of two different multipliers exactly one is less than the other.
  pub subtree_compare-flip :
      ((a b : Q) → eqb a b ≡ false → less b a ≡ not (less a b))
      → (mod_prel compare_multiplier : ℤ) (one two : Ex Q) → Aligned one.children two.children
      → subtree_compare m less settings mod_prel compare_multiplier two one
        ≡ flip (subtree_compare m less settings mod_prel compare_multiplier one two)
  unfolding subtree_compare
  subtree_compare-flip total l k e f h =
      compare_node-flip total l k e f _ _
        (λ u b. compare_pass-flip total (deeper l) (deeper k) e.children f.children u b h)
