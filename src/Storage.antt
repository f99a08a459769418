-- ===== src/Storage.antt =====
-- core/Storage.hh, core/Storage.cc: the nodes of an expression. The global sets of names and of
-- rationals hold each value once, so two iterators into them are equal exactly when the values are;
-- a node holds the values themselves.
pub mod Multiplier
pub mod Names
pub mod State
pub mod History
pub mod Equations
mod Tests
use cadabra.Base.{Bool, true, false, ◌&&◌, Bytes, codes, bytes_eq}
use cadabra.Tree.{Forest}
use Multiplier.{Rational}

pub data Bracket : Type 0 where
  b_round b_square b_curly b_pointy b_none b_no b_invalid : Bracket

pub data ParentRel : Type 0 where
  p_sub p_super p_none p_property p_exponent p_components : ParentRel

-- `str_node`, without the two flags that only concern printing.
pub record StrNode (Q : Type 0) : Type 0 where
  pub name : Bytes
  pub multiplier : Q
  pub bracket : Bracket
  pub parent_rel : ParentRel

-- An iterator into an expression: the node and its children.
pub record Ex (Q : Type 0) : Type 0 where
  pub head : StrNode Q
  pub children : Forest (StrNode Q)

module _ {Q : Type 0} where
  -- `*it->name=="..."`.
  unfoldable pub is_named : Bytes → StrNode Q → Bool
  is_named n s = bytes_eq s.name n

  unfoldable pub is_index : StrNode Q → Bool
  is_index s = elim s.parent_rel [ p_sub ↦ true | p_super ↦ true | _ ↦ false ]

  unfoldable pub is_rational : StrNode Q → Bool
  is_rational s = bytes_eq s.name (codes "1")

module _ (m : Rational) where
  open m use {Q, eqb, zero, one, mul}

  unfoldable pub is_zero : StrNode Q → Bool
  is_zero s = eqb s.multiplier zero

  unfoldable pub is_identity : StrNode Q → Bool
  unfolding is_rational
  is_identity s = is_rational s && eqb s.multiplier one

  -- `multiply(s->multiplier, fac)`.
  abbrev pub multiply : StrNode Q → Q → StrNode Q
  multiply s fac = record s { multiplier = mul fac s.multiplier }

  -- `zero(s->multiplier)` and `one(s->multiplier)`.
  abbrev pub set_zero : StrNode Q → StrNode Q
  set_zero s = record s { multiplier = zero }

  abbrev pub set_one : StrNode Q → StrNode Q
  set_one s = record s { multiplier = one }

  -- `str_node(name, bracket, parent_rel)`.
  abbrev pub str_node : Bytes → Bracket → ParentRel → StrNode Q
  str_node n b p = record { name = n; multiplier = one; bracket = b; parent_rel = p }
