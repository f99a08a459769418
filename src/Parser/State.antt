-- ===== src/Parser/State.antt =====
-- core/Parser.hh, core/Parser.cc: tokens, and the state of `string2tree`. What is left of the string
-- stands for the position in it.
use cadabra.Base.{
  ℕ, ◌+◌, Bool, true, false, List, [], ◌∷◌, Option, none, some, ltb, ◌==◌, if◌then◌else◌, Bytes,
  drop, get_or,
}
use cadabra.Tree.{Forest, nil, node, ◌⊕◌}
use cadabra.Storage.{
  Bracket, b_round, b_square, b_curly, b_pointy, b_none, b_no, ParentRel, p_sub, p_super, p_none,
  p_property, p_exponent, StrNode,
}

-- `mode_t`.
pub data Mode : Type 0 where
  m_skipwhite m_name m_findchildren m_verbatim m_property m_singlecharname m_backslashname : Mode
  m_childgroup m_initialgroup : Mode

unfoldable pub is_closing_bracket : ℕ → Bracket
is_closing_bracket br =
    if br == b')'
    then b_none
    else if br == b']'
    then b_square
    else if br == b'}'
    then b_none
    else if br == b'}' + 128
    then b_curly
    else if br == b'>' + 128
    then b_pointy
    else b_no

unfoldable pub is_opening_bracket : ℕ → Bracket
is_opening_bracket br =
    if br == b'('
    then b_none
    else if br == b'['
    then b_square
    else if br == b'{'
    then b_none
    else if br == b'{' + 128
    then b_curly
    else if br == b'<' + 128
    then b_pointy
    else b_no

unfoldable pub is_link : ℕ → ParentRel
is_link ln =
    if ln == b'^'
    then p_super
    else if ln == b'_'
    then p_sub
    else if ln == b'$'
    then p_property
    else if ln == b'&'
    then p_exponent
    else p_none

-- `br!=str_node::b_no` and `pr!=str_node::p_none`.
abbrev pub is_some_bracket : Bracket → Bool
is_some_bracket b_no = false
is_some_bracket _ = true

abbrev pub is_some_link : ParentRel → Bool
is_some_link p_none = false
is_some_link _ = true

-- A bracket as the condition of an `if`: is its number not zero?
abbrev pub bracket_nonzero : Bracket → Bool
bracket_nonzero b_round = false
bracket_nonzero _ = true

-- `get_token(i)`; behind the last byte a std::string has a zero.
unfoldable pub get_token : Bytes → ℕ
get_token s =
    let c = get_or s 0 0 in
    let d = get_or s 1 0 in
    if c == b'\\'
    then (if is_some_bracket (is_opening_bracket d)
        then d + 128
        else if is_some_bracket (is_closing_bracket d)
        then d + 128
        else c)
    else c

-- `advance(i)`.
unfoldable pub advance : Bytes → Bytes
advance s = if ltb 128 (get_token s) then drop 2 s else drop 1 s

-- A node that is still open, with the children that it has so far.
pub record Open (Q : Type 0) : Type 0 where
  pub head : StrNode Q
  pub children : Forest (StrNode Q)

-- The tree with the iterator `current_parent`: inside a node below others, innermost first, all the
-- last children of the next; or the null iterator above the root.
pub data Place (Q : Type 0) : Type 0 where
  inside : Open Q → List (Open Q) → Place Q
  above : Open Q → Place Q

module _ {Q : Type 0} where
  -- `tree->append_child(current_parent, n)`; on a null iterator it is undefined.
  unfoldable pub append : StrNode Q → Place Q → Option (Place Q)
  append n (inside o path) =
      some (inside (record o { children = o.children ⊕ node n nil nil }) path)
  append n (above o) = none

  -- The same, with the new node as the current parent.
  unfoldable pub descend : StrNode Q → Place Q → Option (Place Q)
  descend n (inside o path) = some (inside (record { head = n; children = nil }) (o ∷ path))
  descend n (above o) = none

  -- `tree->parent(current_parent)`.
  unfoldable pub ascend : Place Q → Option (Place Q)
  ascend (inside o []) = some (above o)
  ascend (inside o (p ∷ path)) =
      some (inside (record p { children = p.children ⊕ node o.head o.children nil }) path)
  ascend (above o) = none

-- The variables of `string2tree`; the back of a vector is the head of its list.
pub record State (Q : Type 0) : Type 0 where
  pub str : Bytes
  pub tmp : Bytes
  pub current_mode : List Mode
  pub current_bracket : List Bracket
  pub current_parent_rel : List ParentRel
  pub place : Place Q

module _ {Q : Type 0} where
  -- All nodes closed but the root, for the iterator `parts` at it.
  close_all : Open Q → List (Open Q) → Open Q
  close_all o [] = o
  close_all o (p ∷ path) =
      close_all (record p { children = p.children ⊕ node o.head o.children nil }) path

  unfoldable pub to_root : Place Q → Open Q
  unfolding close_all
  to_root (inside o path) = close_all o path
  to_root (above o) = o
