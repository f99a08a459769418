-- ===== src/Algorithms/SortSum.antt =====
-- core/algorithms/sort_sum.cc: a bubble sort of the terms of a sum.
pub mod Terms
use cadabra.Base.{
  ℕ, zero, suc, ◌-◌, Bool, true, false, ◌||◌, Option, none, some, ltb, ◌==◌, if◌then◌else◌,
}
use cadabra.Tree.{Forest, nil, node, count}
use cadabra.Storage.{StrNode, Ex}
use cadabra.Storage.Multiplier.{Rational}
use cadabra.Cleanup.{is_sum}
use cadabra.Compare.{
  Settings, Comparison, same, before, after, across, within, pos, negsuc, subtree_compare,
}

-- `get_composite<SortOrder>`: the object that a node belongs to, by a number, and its place in it.
abbrev pub SortOrder : Type 0 → Type 0
SortOrder Q = Ex Q → Option (ℕ × ℕ)

module _ (m : Rational) (less : m.Q → m.Q → Bool) (settings : Settings m.Q)
    (sort_order : SortOrder m.Q) where
  open m use {Q}

  unfoldable pub can_apply : Ex Q → Bool
  can_apply e = is_sum e.head

  unfoldable pub should_swap : Ex Q → Ex Q → Comparison → Bool
  should_swap one two es = elim (sort_order one) [
    | none ↦ elim es [ after k ↦ true | _ ↦ false ]
    | some (so1, num1) ↦ elim (sort_order two) [
      | none ↦ elim es [ after k ↦ true | _ ↦ false ]
      | some (so2, num2) ↦ elim es [
        | after within ↦ true
        | same ↦ false
        | before within ↦ false
        | _ ↦ if so1 == so2 then ltb num2 num1 else false
      ]
    ]
  ]

  -- The test of the inner loop, on two terms that follow each other.
  unfoldable pub out_of_order : Ex Q → Ex Q → Bool
  out_of_order one two = should_swap one two (
      subtree_compare m less (record settings { checksets = true; literal_wildcards = true })
        (negsuc 1) (pos 0) one two)

  -- The inner loop: so many comparisons, from the first term on.
  unfoldable pub bubble : ℕ → Forest (StrNode Q) → Bool × Forest (StrNode Q)
  bubble zero f = (false, f)
  bubble (suc k) nil = (false, nil)
  bubble (suc k) (node s c nil) = (false, node s c nil)
  bubble (suc k) (node s c (node t d r)) =
      let one : Ex Q = record { head = s; children = c } in
      let two : Ex Q = record { head = t; children = d } in
      let swap = out_of_order one two in
      let here = if swap then two else one in
      let next = if swap then one else two in
      let later = bubble k (node next.head next.children r) in
      (swap || later.0, node here.head here.children later.1)

  -- The outer loop, with one comparison less each time.
  unfoldable pub bubbles : ℕ → Forest (StrNode Q) → Bool × Forest (StrNode Q)
  bubbles zero f = (false, f)
  bubbles (suc k) f =
      let first = bubble (suc k) f in let later = bubbles k first.1 in (first.0 || later.0, later.1)

  unfoldable pub sort_sum : Ex Q → Bool × Ex Q
  sort_sum e =
      let r = bubbles (count e.children - 1) e.children in (r.0, record e { children = r.1 })
