-- ===== src/Parser/Group.antt =====
-- How `string2tree` in core/Parser.cc reads a node with its children.
use cadabra.Base.{
  ◌<◌, Bool, true, false, ◌&&◌, ◌||◌, List, [], ◌∷◌, ◌++◌, ◌≡◌, refl, length, arith, Bytes,
}
use mathlib.Core.Path.{subst}
use cadabra.Tree.{Forest, nil, node, ◌⊕◌, ⊕_assoc, ⊕_nil}
use cadabra.Storage.{
  Bracket, b_square, b_curly, b_none, ParentRel, p_sub, p_super, p_none, p_property, p_exponent,
  p_components, StrNode, str_node,
}
use cadabra.Storage.Multiplier.{Rational}
use cadabra.Parser.State.{
  Mode, m_skipwhite, m_name, m_findchildren, m_childgroup, is_closing_bracket, is_opening_bracket,
  is_link, is_some_bracket, is_some_link, get_token, Open, inside, append, descend, ascend,
}
use cadabra.Parser.Machine.{step_in, step_name, step_findchildren, step_childgroup, step_skipwhite}
use cadabra.Parser.Text.{
  open_text, close_text, link_text, is_symbol, has_bracket, has_link, IsPlainNode, IsPlain, groups,
  get_token-close_text, is_symbol-not_at, is_symbol-length,
}
use cadabra.Parser.Reach.{Reach, at, turn, and_then, stay}
use cadabra.Parser.Read.{open_group, enter_symbol}

and_true : (b : Bool) → b && true ≡ b
and_true true = refl
and_true false = refl

module _ (m : Rational) where
  open m use {Q}

  module _ (b : Bracket) (bs : List Bracket) (p : ParentRel) (rs : List ParentRel) where
    -- The bracket closes behind a name.
    close_leaf :
        (o : Open Q) (path : List (Open Q)) (name r : Bytes) (ms : List Mode)
        → has_bracket b ≡ true
        → is_symbol name ≡ true
        → Reach m
            (at m
              (close_text b ++ r)
              name
              (m_name ∷ m_childgroup ∷ ms)
              (b ∷ bs)
              (p ∷ rs)
              (inside o path))
            (at m r [] ms bs rs (
              inside
                (record o { children = o.children ⊕ node (str_node m name b p) nil nil })
                path))
    unfolding step_in step_name step_childgroup append
    close_leaf o path name r ms hb h =
        let (x1, x2, x3, x4, _, pos) = get_token-close_text r b hb in
        let some_name = is_symbol-length name h in
        let grown =
          inside (record o { children = o.children ⊕ node (str_node m name b p) nil nil }) path in
        and_then m _ (at m (close_text b ++ r) [] (m_childgroup ∷ ms) (b ∷ bs) (p ∷ rs) grown) _
          (turn m m_name (m_childgroup ∷ ms) (close_text b ++ r) name (b ∷ bs) (p ∷ rs) _ _ pos
            (rw (x1, x2, x4, some_name) refl))
          (turn m m_childgroup ms (close_text b ++ r) [] (b ∷ bs) (p ∷ rs) _ _ pos
            (rw (x4, x3) refl))

    -- It closes behind the children of the innermost node.
    close_node :
        (i o : Open Q) (path : List (Open Q)) (r : Bytes) (ms : List Mode)
        → has_bracket b ≡ true
        → Reach m
            (at m
              (close_text b ++ r)
              []
              (m_findchildren ∷ m_name ∷ m_childgroup ∷ ms)
              (b ∷ bs)
              (p ∷ rs)
              (inside i (o ∷ path)))
            (at m r [] ms bs rs
              (inside (record o { children = o.children ⊕ node i.head i.children nil }) path))
    unfolding step_in step_findchildren step_skipwhite step_name step_childgroup ascend
    close_node i o path r ms hb =
        let (x1, x2, x3, x4, x5, pos) = get_token-close_text r b hb in
        let grown = inside (record o { children = o.children ⊕ node i.head i.children nil }) path in
        let str = close_text b ++ r in
        let s1 = at m str [] (m_skipwhite ∷ m_name ∷ m_childgroup ∷ ms) (b ∷ bs) (p ∷ rs) grown in
        let s2 = at m str [] (m_name ∷ m_childgroup ∷ ms) (b ∷ bs) (p ∷ rs) grown in
        let s3 = at m str [] (m_childgroup ∷ ms) (b ∷ bs) (p ∷ rs) grown in
        and_then m _ s1 _
          (turn m m_findchildren (m_name ∷ m_childgroup ∷ ms) str [] (b ∷ bs) (p ∷ rs) _ _ pos
            (rw (x2, x1) refl))
          (and_then m _ s2 _
            (turn m m_skipwhite (m_name ∷ m_childgroup ∷ ms) str [] (b ∷ bs) (p ∷ rs) _ _ pos
              (rw (x5) refl))
            (and_then m _ s3 _
              (turn m m_name (m_childgroup ∷ ms) str [] (b ∷ bs) (p ∷ rs) _ _ pos
                (rw (x1, x2, x4) refl))
              (turn m m_childgroup ms str [] (b ∷ bs) (p ∷ rs) _ _ pos (rw (x4, x3) refl))))

  -- Where a child starts, behind the name of its parent.
  pub group_start :
      (p : ParentRel) (b : Bracket) (r : Bytes)
      → has_link p ≡ true
      → has_bracket b ≡ true
      → (is_some_bracket (is_opening_bracket (get_token (link_text p ++ (open_text b ++ r))))
            || is_some_link (is_link (get_token (link_text p ++ (open_text b ++ r))))
          ≡ true)
        × (0 < length (link_text p ++ (open_text b ++ r)))
  unfolding get_token is_link is_opening_bracket is_closing_bracket
  group_start p_none b_square r hp hb = (refl, omega arith)
  group_start p_none b_curly r hp hb = (refl, omega arith)
  group_start p_none b_none r hp hb = (refl, omega arith)
  group_start p_none _ r hp hb = absurd (cc)
  group_start p_sub b r hp hb = (refl, omega arith)
  group_start p_super b r hp hb = (refl, omega arith)
  group_start p_property b r hp hb = (refl, omega arith)
  group_start p_exponent b r hp hb = (refl, omega arith)
  group_start p_components b r hp hb = absurd (cc)

  -- The name behind which a child starts is that of the new current parent.
  pub open_node :
      (str name : Bytes) (ms : List Mode) (b : Bracket) (bs : List Bracket) (p : ParentRel)
      (rs : List ParentRel) (o : Open Q) (path : List (Open Q))
      → is_symbol name ≡ true
      → is_some_bracket (is_opening_bracket (get_token str))
          || is_some_link (is_link (get_token str))
        ≡ true
      → 0 < length str
      → Reach m (at m str name (m_name ∷ ms) (b ∷ bs) (p ∷ rs) (inside o path)) (
          at m str []
            (m_findchildren ∷ m_name ∷ ms)
            (b ∷ bs)
            (p ∷ rs)
            (inside (record { head = str_node m name b p; children = nil }) (o ∷ path)))
  unfolding step_in step_name descend
  open_node str name ms b bs p rs o path h start pos =
      let not_at = is_symbol-not_at name h in
      let some_name = is_symbol-length name h in
      turn m m_name ms str name (b ∷ bs) (p ∷ rs) _ _ pos
        (rw (not_at, some_name, and_true (is_some_link (is_link (get_token str))), start) refl)

  -- A child, from its bracket on, where its own children are read.
  read_group :
      (s : StrNode Q) (c : Forest (StrNode Q)) (text : Bytes) (ms : List Mode) (bs : List Bracket)
      (rs : List ParentRel) (o : Open Q) (path : List (Open Q))
      → IsPlainNode m s
      → IsPlain m c
      → ((i : Open Q) (p : List (Open Q))
          → Reach m
              (at m
                (groups m c (close_text s.bracket ++ text))
                []
                (m_findchildren ∷ m_name ∷ m_childgroup ∷ ms)
                (s.bracket ∷ bs)
                (s.parent_rel ∷ rs)
                (inside i p))
              (at m
                (close_text s.bracket ++ text)
                []
                (m_findchildren ∷ m_name ∷ m_childgroup ∷ ms)
                (s.bracket ∷ bs)
                (s.parent_rel ∷ rs)
                (inside (record i { children = i.children ⊕ c }) p)))
      → Reach m
          (at m
            (s.name ++ groups m c (close_text s.bracket ++ text))
            []
            (m_childgroup ∷ ms)
            (s.bracket ∷ bs)
            (s.parent_rel ∷ rs)
            (inside o path))
          (at m text [] ms bs rs (
            inside
              (record o {
                children = o.children ⊕ node (str_node m s.name s.bracket s.parent_rel) c nil;
              })
              path))
  read_group s nil text ms bs rs o path (h1, h2, h3, h4) hc inner =
      and_then m _
        (at m (close_text s.bracket ++ text) s.name (m_name ∷ m_childgroup ∷ ms) (s.bracket ∷ bs)
          (s.parent_rel ∷ rs) (inside o path))
        _ (enter_symbol m (s.bracket ∷ bs) (s.parent_rel ∷ rs) (inside o path) s.name _ ms h1)
        (close_leaf s.bracket bs s.parent_rel rs o path s.name text ms h2 h1)
  read_group s (node t d r) text ms bs rs o path (h1, h2, h3, h4) ((_, ht2, ht3, _), _) inner =
      let c = node t d r in
      let str = groups m c (close_text s.bracket ++ text) in
      let bs' = s.bracket ∷ bs in
      let rs' = s.parent_rel ∷ rs in
      let i : Open Q = record { head = str_node m s.name s.bracket s.parent_rel; children = nil } in
      let (start, pos) = group_start t.parent_rel t.bracket _ ht3 ht2 in
      and_then m _ (at m str s.name (m_name ∷ m_childgroup ∷ ms) bs' rs' (inside o path)) _
        (enter_symbol m bs' rs' (inside o path) s.name str ms h1)
        (and_then m _
          (at m str [] (m_findchildren ∷ m_name ∷ m_childgroup ∷ ms) bs' rs' (inside i (o ∷ path)))
          _
          (open_node str s.name (m_childgroup ∷ ms) s.bracket bs s.parent_rel rs o path h1 start
            pos)
          (and_then m _
            (at m (close_text s.bracket ++ text) [] (m_findchildren ∷ m_name ∷ m_childgroup ∷ ms)
              bs' rs' (inside (record i { children = c }) (o ∷ path)))
            _ (inner i (o ∷ path))
            (close_node s.bracket bs s.parent_rel rs (record i { children = c }) o path text ms
              h2)))

  -- The children of a node, one after the other.
  pub read_groups :
      (c : Forest (StrNode Q)) (text : Bytes) (ms : List Mode) (bs : List Bracket)
      (rs : List ParentRel) (o : Open Q) (path : List (Open Q))
      → IsPlain m c
      → Reach m (at m (groups m c text) [] (m_findchildren ∷ ms) bs rs (inside o path)) (
          at m text []
            (m_findchildren ∷ ms)
            bs
            rs
            (inside (record o { children = o.children ⊕ c }) path))
  read_groups nil text ms bs rs o path h = rw (⊕_nil o.children) (stay m _)
  read_groups (node s c r) text ms bs rs o path ((h1, h2, h3, h4), (hc, hr)) =
      let ending = close_text s.bracket ++ groups m r text in
      let o' : Open Q = record o { children = o.children ⊕ node s c nil } in
      let joined : (o.children ⊕ node s c nil) ⊕ r ≡ o.children ⊕ node s c r =
        ⊕_assoc o.children (node s c nil) r in
      and_then m _
        (at m (s.name ++ groups m c ending) [] (m_childgroup ∷ m_findchildren ∷ ms) (s.bracket ∷ bs)
          (s.parent_rel ∷ rs) (inside o path))
        _
        (open_group m bs rs (inside o path) s.parent_rel s.bracket (s.name ++ groups m c ending) []
          ms h3 h2)
        (and_then m _ (at m (groups m r text) [] (m_findchildren ∷ ms) bs rs (inside o' path)) _
          (subst
            (λ x.
              Reach m
                (at m (s.name ++ groups m c ending) [] (m_childgroup ∷ m_findchildren ∷ ms)
                  (s.bracket ∷ bs) (s.parent_rel ∷ rs) (inside o path))
                (at m (groups m r text) [] (m_findchildren ∷ ms) bs rs
                  (inside (record o { children = o.children ⊕ node x c nil }) path)))
            h4
            (read_group s c (groups m r text) (m_findchildren ∷ ms) bs rs o path (h1, h2, h3, h4) hc
              (λ i p.
                read_groups c ending (m_name ∷ m_childgroup ∷ m_findchildren ∷ ms) (s.bracket ∷ bs)
                  (s.parent_rel ∷ rs) i p hc)))
          (subst
            (λ x.
              Reach m (at m (groups m r text) [] (m_findchildren ∷ ms) bs rs (inside o' path)) (
                at m text [] (m_findchildren ∷ ms) bs rs (inside (record o { children = x }) path)))
            joined (read_groups r text ms bs rs o' path hr)))
