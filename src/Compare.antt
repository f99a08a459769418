-- ===== src/Compare.antt =====
-- core/Compare.cc: the comparison of two subtrees, on which sorting and collecting rest.
pub mod Antisymmetry
pub mod Parts
pub mod Equal
mod Tests
use cadabra.Base.{
  ℕ, zero, suc, Bool, true, false, not, ◌&&◌, ◌||◌, Option, none, some, [], ◌∷◌, ltb, ◌==◌,
  if◌then◌else◌, Bytes, bytes_eq,
}
use Prim.Native.Nat.{compare, Ordering}
use cadabra.Tree.{Forest, node, count}
use cadabra.Storage.{
  StrNode, Ex, ParentRel, p_sub, p_super, p_none, p_property, p_exponent, p_components, is_index,
  is_rational,
}
use cadabra.Storage.Multiplier.{Rational}
use cadabra.Storage.Names.{
  is_name_wildcard, is_object_wildcard, is_autodeclare_wildcard, is_numbered_symbol, name_only,
}

-- The argument levels `mod_prel` and `compare_multiplier` are numbers with a sign.
pub data ℤ : Type 0 where
  pos : ℕ → ℤ
  negsuc : ℕ → ℤ

-- `mult`: 1 for indices of one set, 2 for all else.
pub data Mult : Type 0 where
  within across : Mult

-- The result: 0, or `mult` if the first is less, or `-mult` if the second is.
pub data Comparison : Type 0 where
  same : Comparison
  before : Mult → Comparison
  after : Mult → Comparison

abbrev pub flip : Comparison → Comparison
flip same = same
flip (before k) = after k
flip (after k) = before k

abbrev pub is_same : Comparison → Bool
is_same same = true
is_same _ = false

abbrev pub sided : Mult → Bool → Comparison
sided k true = before k
sided k false = after k

-- std::string's operator<.
unfoldable pub bytes_less : Bytes → Bytes → Bool
bytes_less _ [] = false
bytes_less [] (y ∷ b) = true
bytes_less (x ∷ a) (y ∷ b) = elim (compare x y) [
  | Ordering.lt ↦ true
  | Ordering.eq ↦ bytes_less a b
  | Ordering.gt ↦ false
]

pub data Position : Type 0 where
  free fixed independent : Position

-- What the comparison asks of the registry of properties: the `Indices` that a node belongs to, by
-- a number for the object, and the position type of that object.
pub record Properties (Q : Type 0) : Type 0 where
  pub indices : Ex Q → Option ℕ
  pub position_type : ℕ → Position

-- The arguments that do not change on the way down.
pub record Settings (Q : Type 0) : Type 0 where
  pub properties : Option (Properties Q)
  pub checksets : Bool
  pub literal_wildcards : Bool

-- What one run through the children has led to: a result, or the one to remember.
pub data Pass : Type 0 where
  stop : Comparison → Pass
  remember : Comparison → Pass

abbrev pub or_else : Option Comparison → Option Comparison → Option Comparison
or_else none b = b
or_else (some r) b = some r

abbrev pub decide : Option Comparison → Comparison → Comparison
decide (some r) children = r
decide none children = children

abbrev pub rank : ParentRel → ℕ
rank p_sub = 0
rank p_super = 1
rank p_none = 2
rank p_property = 3
rank p_exponent = 4
rank p_components = 5

abbrev pub super_as_sub : ParentRel → ParentRel
super_as_sub p_super = p_sub
super_as_sub p = p

-- `compare_multiplier==-2`, and what the next level gets.
abbrev pub is_now : ℤ → Bool
is_now (negsuc (suc zero)) = true
is_now _ = false

abbrev pub deeper : ℤ → ℤ
deeper (pos zero) = negsuc 1
deeper (pos (suc n)) = pos n
deeper (negsuc n) = negsuc n

abbrev pub agree : Bool → Bool → Bool
agree true b = b
agree false b = not b

abbrev pub next_child : Mult → Comparison → Pass → Pass
next_child k (before across) rest = stop (before k)
next_child k (after across) rest = stop (after k)
next_child k same rest = rest
next_child k r (stop x) = stop x
next_child k r (remember y) = remember r

abbrev pub two_passes : Pass → Pass → Comparison
two_passes (stop r) second = r
two_passes (remember same) (stop r) = r
two_passes (remember same) (remember r) = r
two_passes (remember r) second = r

-- Of two purely numerical indices the set is not known.
unfoldable pub start_set : Bool → Bool → Mult × Position
start_set a b = if a && b then (across, fixed) else (within, free)

-- The type of the indices of one set, or what two nodes that are not in one set get.
abbrev pub in_set : (ℕ → Position) → Option ℕ → Option ℕ → Mult × Position → Mult × Position
in_set position_type none none (k, p) = (k, p)
in_set position_type (some a) (some b) (k, p) = if a == b then (k, position_type a) else (across, p)
in_set position_type _ _ (k, p) = (across, p)

-- The relations that are compared, and how.
abbrev pub compare_ranks : ParentRel → ParentRel → Option Comparison
compare_ranks p q = if rank p == rank q then none else some (sided across (ltb (rank p) (rank q)))

abbrev pub compare_parent_rels : ℤ → Position → ParentRel → ParentRel → Option Comparison
compare_parent_rels (negsuc (suc (suc zero))) free p q =
    compare_ranks (super_as_sub p) (super_as_sub q)
compare_parent_rels (negsuc (suc n)) position p q = compare_ranks p q
compare_parent_rels _ position p q = none

-- Nodes with different names.
unfoldable pub compare_names : Bool → Mult → Bytes → Bytes → Option Comparison
compare_names literal k s t =
    if bytes_eq s t
    then none
    else if literal
    then some (sided k (bytes_less s t))
    else if (is_autodeclare_wildcard s && is_numbered_symbol t)
        || (is_autodeclare_wildcard t && is_numbered_symbol s)
    then (if bytes_eq (name_only s) (name_only t) then none else some (sided k (bytes_less s t)))
    else if not (is_name_wildcard s) && not (is_name_wildcard t)
    then some (sided k (bytes_less s t))
    else none

unfoldable pub compare_wildcards : Bool → Bytes → Bytes → Option Comparison
compare_wildcards literal s t =
    if not literal && (is_object_wildcard s || is_object_wildcard t) then some same else none

unfoldable pub compare_counts : ℕ → ℕ → Option Comparison
compare_counts a b = if a == b then none else some (sided across (ltb a b))

module _ (m : Rational) (less : m.Q → m.Q → Bool) (settings : Settings m.Q) where
  open m use {Q, eqb}

  unfoldable pub compare_multipliers : ℤ → StrNode Q → StrNode Q → Option Comparison
  compare_multipliers compare_multiplier s t =
      if agree (is_rational s) (is_rational t)
        && is_now compare_multiplier
        && not (is_name_wildcard t.name)
        && not (is_name_wildcard s.name)
        && not (eqb s.multiplier t.multiplier)
      then some (sided across (less s.multiplier t.multiplier))
      else none

  unfoldable pub compare_sets : Ex Q → Ex Q → Mult × Position
  compare_sets one two =
      if is_index one.head && is_index two.head
      then (let start = start_set (is_rational one.head) (is_rational two.head) in
          if settings.checksets
          then (elim settings.properties [
            | none ↦ start
            | some p ↦ in_set p.position_type (p.indices one) (p.indices two) start
          ])
          else start)
      else (across, free)

  -- Everything before the children.
  unfoldable pub compare_heads : ℤ → ℤ → Ex Q → Ex Q → Option Comparison
  unfolding compare_names compare_wildcards compare_counts compare_multipliers
  compare_heads mod_prel compare_multiplier one two =
      let sets = compare_sets one two in
      let s = one.head in
      let t = two.head in
      let literal = settings.literal_wildcards in
      or_else (compare_multipliers compare_multiplier s t) (
        or_else (compare_wildcards literal s.name t.name) (
          or_else (compare_names literal sets.0 s.name t.name) (
            or_else (compare_parent_rels mod_prel sets.1 s.parent_rel t.parent_rel)
              (compare_counts (count one.children) (count two.children)))))

  -- The comparison of two nodes, given the two runs through their children.
  unfoldable pub compare_node : ℤ → ℤ → Ex Q → Ex Q → (Mult → Bool → Pass) → Comparison
  compare_node mod_prel compare_multiplier one two pass =
      let k = (compare_sets one two).0 in
      decide (compare_heads mod_prel compare_multiplier one two)
        (two_passes (pass k false) (pass k true))

  -- One run through the children: those that are indices, or those that are not.
  unfoldable pub compare_pass : ℤ → ℤ → Forest (StrNode Q) → Forest (StrNode Q) → Mult → Bool → Pass
  unfolding compare_node
  compare_pass mod_prel compare_multiplier (node s c r) (node t d q) k do_indices =
      let rest = compare_pass mod_prel compare_multiplier r q k do_indices in
      let one : Ex Q = record { head = s; children = c } in
      let two : Ex Q = record { head = t; children = d } in
      if agree (is_index s) do_indices
      then next_child k
          (compare_node mod_prel compare_multiplier one two
            (compare_pass (deeper mod_prel) (deeper compare_multiplier) c d))
          rest
      else rest
  compare_pass mod_prel compare_multiplier _ _ k do_indices = remember same

  unfoldable pub subtree_compare : ℤ → ℤ → Ex Q → Ex Q → Comparison
  unfolding compare_pass
  subtree_compare mod_prel compare_multiplier one two =
      compare_node mod_prel compare_multiplier one two
        (compare_pass (deeper mod_prel) (deeper compare_multiplier) one.children two.children)

-- The Boolean tests; the two that are not exact never take wildcards for ordinary names.
module _ (m : Rational) (less : m.Q → m.Q → Bool) (settings : Settings m.Q) where
  open m use {Q}

  abbrev wild : Settings Q
  wild = record settings { literal_wildcards = false }

  unfoldable pub subtree_less : ℤ → ℤ → Ex Q → Ex Q → Bool
  subtree_less mod_prel compare_multiplier one two =
      elim (subtree_compare m less wild mod_prel compare_multiplier one two) [
        | before across ↦ true
        | _ ↦ false
      ]

  unfoldable pub subtree_equal : ℤ → ℤ → Ex Q → Ex Q → Bool
  subtree_equal mod_prel compare_multiplier one two =
      elim (subtree_compare m less wild mod_prel compare_multiplier one two) [
        | same ↦ true
        | before within ↦ true
        | after within ↦ true
        | _ ↦ false
      ]

  unfoldable pub subtree_exact_less : ℤ → ℤ → Ex Q → Ex Q → Bool
  subtree_exact_less mod_prel compare_multiplier one two =
      elim (subtree_compare m less settings mod_prel compare_multiplier one two) [
        | before k ↦ true
        | _ ↦ false
      ]

  unfoldable pub subtree_exact_equal : ℤ → ℤ → Ex Q → Ex Q → Bool
  subtree_exact_equal mod_prel compare_multiplier one two =
      is_same (subtree_compare m less settings mod_prel compare_multiplier one two)
