-- ===== src/Compare/Parts.antt =====
-- When the parts of a comparison in core/Compare.cc find no difference.
use cadabra.Base.{
  ℕ, Bool, true, false, ◌==◌, Option, none, some, if◌then◌else◌, ◌≡◌, ◌≢◌, ◌↔◌, refl, inl, inr,
  Bool-cases, arith, Bytes, bytes_eq, bytes_eq_iff,
}
use cadabra.Storage.{ParentRel}
use cadabra.Compare.{
  Mult, across, Comparison, same, sided, Pass, stop, remember, or_else, compare_ranks,
  compare_names, compare_counts, next_child, two_passes, agree, rank,
}

pub or_else-none : (a b : Option Comparison) → or_else a b ≡ none → (a ≡ none) × (b ≡ none)
or_else-none none b h = (refl, h)
or_else-none (some r) b h = absurd (cc)

pub none-or_else : (a b : Option Comparison) → a ≡ none → b ≡ none → or_else a b ≡ none
none-or_else a b e f = rw e f

-- The result of a test that found a difference.
abbrev pub Differs : Option Comparison → Type 0
Differs none = Unit
Differs (some same) = ⊥
Differs (some r) = Unit

pub sided-Differs : (k : Mult) (b : Bool) → Differs (some (sided k b))
sided-Differs k true = tt
sided-Differs k false = tt

pub or_else-Differs : (a b : Option Comparison) → Differs a → Differs b → Differs (or_else a b)
or_else-Differs none b h k = k
or_else-Differs (some r) b h k = h

pub names-Differs : (k : Mult) (s t : Bytes) → Differs (compare_names true k s t)
unfolding compare_names
names-Differs k s t = elim (Bool-cases (bytes_eq s t)) [
  | inl e ↦ rw e tt
  | inr n ↦ rw n (sided-Differs k _)
]

pub compare_names-none : (k : Mult) (s t : Bytes) → (compare_names true k s t ≡ none) ↔ (s ≡ t)
unfolding compare_names
compare_names-none k s t = ground (arith, bytes_eq_iff s t)

pub ranks-Differs : (p q : ParentRel) → Differs (compare_ranks p q)
ranks-Differs p q = elim (Bool-cases (rank p == rank q)) [
  | inl e ↦ rw e tt
  | inr n ↦ rw n (sided-Differs across _)
]

pub compare_ranks-none : (p q : ParentRel) → (compare_ranks p q ≡ none) ↔ (p ≡ q)
compare_ranks-none p q = ground arith

pub counts-Differs : (a b : ℕ) → Differs (compare_counts a b)
unfolding compare_counts
counts-Differs a b = elim (Bool-cases (a == b)) [
  | inl e ↦ rw e tt
  | inr n ↦ rw n (sided-Differs across _)
]

pub compare_counts-none : (a b : ℕ) → (compare_counts a b ≡ none) ↔ (a ≡ b)
unfolding compare_counts
compare_counts-none a b = ground arith

-- The parts of a result of the children.
pub two_passes_same :
    (p q : Pass)
    → (p ≢ stop same)
    → (q ≢ stop same)
    → two_passes p q ≡ same
    → (p ≡ remember same) × (q ≡ remember same)
two_passes_same p q u v h = ground arith

pub next_child_same :
    (k : Mult) (r : Comparison) (p : Pass)
    → next_child k r p ≡ remember same
    → (r ≡ same) × (p ≡ remember same)
next_child_same k r p h = ground arith

pub next_child-not_stop :
    (k : Mult) (r : Comparison) (p : Pass) → p ≢ stop same → next_child k r p ≢ stop same
next_child-not_stop k r p h = ground arith

pub chosen_same :
    (i : Bool) (k : Mult) (r : Comparison) (p q : Pass)
    → (if agree i false then next_child k r p else p) ≡ remember same
    → (if agree i true then next_child k r q else q) ≡ remember same
    → (r ≡ same) × (p ≡ remember same) × (q ≡ remember same)
chosen_same true k r p q h g = let both = next_child_same k r q g in (both.0, h, both.1)
chosen_same false k r p q h g = let both = next_child_same k r p h in (both.0, both.1, g)
