-- ===== src/Parser/RoundTrip.antt =====
-- `string2tree` in core/Parser.cc reads what the preprocessor leaves in canonical form.
use cadabra.Base.{
  ℕ, ◌<◌, true, false, List, [], ◌∷◌, ◌++◌, ◌≡◌, refl, sym, ap, ◌∙◌, length, arith, Bytes, codes,
  bytes_eq, ap₂, append_assoc,
}
use cadabra.Tree.{Forest, nil, node}
use cadabra.Storage.{is_named, b_none, p_none, StrNode, str_node}
use cadabra.Storage.Multiplier.{Rational}
use cadabra.Parser.State.{
  Mode, m_skipwhite, m_name, m_findchildren, m_initialgroup, is_closing_bracket, is_opening_bracket,
  is_link, get_token, advance, State, Place, Open, inside, append, ascend, to_root,
}
use cadabra.Parser.Machine.{
  step_in, step_name, step_findchildren, step_initialgroup, step_skipwhite, goes_on, start,
  read_preprocessed, erased, returned, finalise,
}
use cadabra.Preprocess.Run.{done, preprocess}
use cadabra.Parser.Input.{is_skipped, string2tree}
use cadabra.Parser.Text.{
  is_symbol, IsPlainNode, IsPlain, groups, groups-append, print, is_symbol-length,
}
use cadabra.Parser.Reach.{Reach, at, turn, and_then, loop-turns}
use cadabra.Parser.Read.{first_symbol, read_symbol}
use cadabra.Parser.Group.{group_start, open_node, read_groups}

module _ (m : Rational) where
  open m use {Q}

  abbrev root : Forest (StrNode Q) → Open Q
  root c = record { head = str_node m (codes "\\expression") b_none p_none; children = c }

  -- The state at the top, between expressions.
  abbrev top : Bytes → Bytes → List Mode → Place Q → State Q
  top str tmp ms p = at m str tmp ms (b_none ∷ []) (p_none ∷ []) p

  abbrev below : List Mode
  below = m_name ∷ m_initialgroup ∷ []

  skip_blank :
      (str : Bytes) (p : Place Q)
      → Reach m (top (b' ' ∷ str) [] (m_skipwhite ∷ below) p) (top str [] (m_skipwhite ∷ below) p)
  unfolding step_in step_skipwhite get_token advance is_opening_bracket is_closing_bracket
  skip_blank str p =
      turn m m_skipwhite below (b' ' ∷ str) [] (b_none ∷ []) (p_none ∷ []) p _ (omega arith) refl

  -- The blanks at the end.
  skip_end :
      (p : Place Q)
      → Reach m (top (codes "  ") [] (m_skipwhite ∷ below) p) (top [] [] (m_skipwhite ∷ below) p)
  skip_end p =
      and_then m _ (top (codes " ") [] (m_skipwhite ∷ below) p) _ (skip_blank (codes " ") p)
        (skip_blank [] p)

  start_group :
      (str : Bytes) (p : Place Q)
      → 0 < length str
      → Reach m (top str [] (m_initialgroup ∷ []) p) (top str [] (m_skipwhite ∷ below) p)
  unfolding step_in step_initialgroup
  start_group str p pos = turn m m_initialgroup [] str [] (b_none ∷ []) (p_none ∷ []) p _ pos refl

  -- From the start to the first character of the name.
  skip_start :
      (name r : Bytes) (p : Place Q)
      → is_symbol name ≡ true
      → Reach m
          (top (codes "  " ++ (name ++ r)) [] (m_initialgroup ∷ []) p)
          (top (name ++ r) [] below p)
  unfolding step_in step_skipwhite
  skip_start name r p h =
      let str = name ++ r in
      let (blank, pos) = first_symbol name r h in
      and_then m _ (top (b' ' ∷ b' ' ∷ str) [] (m_skipwhite ∷ below) p) _
        (start_group (b' ' ∷ b' ' ∷ str) p (omega arith))
        (and_then m _ (top (b' ' ∷ str) [] (m_skipwhite ∷ below) p) _ (skip_blank (b' ' ∷ str) p) (
          and_then m _ (top str [] (m_skipwhite ∷ below) p) _ (skip_blank str p)
            (turn m m_skipwhite below str [] (b_none ∷ []) (p_none ∷ []) p _ pos (rw blank refl))))

  -- The end of the text behind a name, and behind the children of a node.
  end_leaf :
      (name : Bytes)
      → is_symbol name ≡ true
      → Reach m (top (codes "  ") name below (inside (root nil) [])) (
          top [] []
            (m_skipwhite ∷ below)
            (inside (root (node (str_node m name b_none p_none) nil nil)) []))
  unfolding step_in step_name get_token advance is_opening_bracket is_closing_bracket is_link append
  end_leaf name h =
      let p = inside (root (node (str_node m name b_none p_none) nil nil)) [] in
      let some_name = is_symbol-length name h in
      and_then m _ (top (codes " ") [] (m_initialgroup ∷ []) p) _
        (turn m m_name (m_initialgroup ∷ []) (codes "  ") name (b_none ∷ []) (p_none ∷ []) _ _
          (omega arith) (rw some_name refl))
        (and_then m _ (top (codes " ") [] (m_skipwhite ∷ below) p) _
          (start_group (codes " ") p (omega arith)) (skip_blank [] p))

  end_node :
      (s : StrNode Q) (c : Forest (StrNode Q))
      → Reach m
          (top
            (codes "  ")
            []
            (m_findchildren ∷ below)
            (inside (record { head = s; children = c }) (root nil ∷ [])))
          (top [] [] (m_skipwhite ∷ below) (inside (root (node s c nil)) []))
  unfolding step_in step_findchildren get_token is_opening_bracket is_closing_bracket is_link ascend
  end_node s c =
      let p = inside (root (node s c nil)) [] in
      and_then m _ (top (codes "  ") [] (m_skipwhite ∷ below) p) _
        (turn m m_findchildren below (codes "  ") [] (b_none ∷ []) (p_none ∷ []) _ _ (omega arith)
          refl)
        (skip_end p)

  -- The text from the name on.
  read_top :
      (name : Bytes) (c : Forest (StrNode Q))
      → is_symbol name ≡ true
      → IsPlain m c
      → Reach m (top (groups m c (codes "  ")) name below (inside (root nil) [])) (
          top [] []
            (m_skipwhite ∷ below)
            (inside (root (node (str_node m name b_none p_none) c nil)) []))
  read_top name nil h plain = end_leaf name h
  read_top name (node t d r) h ((t1, t2, t3, t4), (hd, hr)) =
      let c = node t d r in
      let s = str_node m name b_none p_none in
      let (start, pos) = group_start m t.parent_rel t.bracket _ t3 t2 in
      and_then m _
        (top (groups m c (codes "  ")) [] (m_findchildren ∷ below)
          (inside (record { head = s; children = nil }) (root nil ∷ [])))
        _
        (open_node m (groups m c (codes "  ")) name (m_initialgroup ∷ []) b_none [] p_none []
          (root nil) [] h start pos)
        (and_then m _
          (top (codes "  ") [] (m_findchildren ∷ below)
            (inside (record { head = s; children = c }) (root nil ∷ [])))
          _
          (read_groups m c (codes "  ") below (b_none ∷ []) (p_none ∷ [])
            (record { head = s; children = nil }) (root nil ∷ []) ((t1, t2, t3, t4), (hd, hr)))
          (end_node s c))

  print-blanks :
      (s : StrNode Q) (c : Forest (StrNode Q))
      → print m s c ++ codes "  " ≡ s.name ++ groups m c (codes "  ")
  unfolding print
  print-blanks s c =
      append_assoc s.name (groups m c []) (codes "  ")
      ∙ ap (λ (t : Bytes). s.name ++ t) (sym (groups-append m c [] (codes "  ")))

  read_preprocessed-print :
      (s : StrNode Q) (c : Forest (StrNode Q))
      → IsPlainNode m s
      → s.bracket ≡ b_none
      → s.parent_rel ≡ p_none
      → IsPlain m c
      → (fuel : ℕ) × (t : State Q) × (read_preprocessed m fuel (print m s c) (erased m)
          ≡ returned true t)
        × (finalise m (to_root t.place) ≡ node s c nil)
  unfolding read_preprocessed start to_root finalise goes_on is_named bytes_eq
  read_preprocessed-print s c (h1, h2, h3, h4) hb hp plain =
      let p = inside (root nil) [] in
      let x = str_node m s.name b_none p_none in
      let str = s.name ++ groups m c (codes "  ") in
      let t = top [] [] (m_skipwhite ∷ below) (inside (root (node x c nil)) []) in
      let (n, run) =
        and_then m _ (top str [] below p) _ (skip_start s.name (groups m c (codes "  ")) p h1) (
          and_then m _ (top (groups m c (codes "  ")) s.name below p) t
            (read_symbol m (b_none ∷ []) (p_none ∷ []) p s.name (groups m c (codes "  "))
              (m_initialgroup ∷ []) h1)
            (read_top s.name c h1 plain)) in
      let same : x ≡ s = ap₂ (λ b r. str_node m s.name b r) (sym hb) (sym hp) ∙ h4 in
      (n, t, rw (print-blanks s c) (loop-turns m n _ t run refl), ap (λ y. node y c nil) same)

  -- A fresh parser reads every text that the preprocessor turns into the canonical form of an
  -- expression: for some fuel `string2tree` returns true, and this expression stands below the root of
  -- the tree. The text is no comment and not empty. The names of the nodes are plain and their
  -- multipliers one; their brackets and relations are ones that can be written (no pointy brackets, and
  -- not the relation of components); the head has no bracket and no link.
  pub string2tree-print :
      (lines_fuel : ℕ) (inp : Bytes) (s : StrNode Q) (c : Forest (StrNode Q))
      → is_skipped inp ≡ false
      → preprocess lines_fuel inp ≡ done (print m s c)
      → IsPlainNode m s
      → s.bracket ≡ b_none
      → s.parent_rel ≡ p_none
      → IsPlain m c
      → (fuel : ℕ) × (t : State Q) × (string2tree m lines_fuel fuel inp (erased m)
          ≡ returned true t)
        × (finalise m (to_root t.place) ≡ node s c nil)
  unfolding string2tree
  string2tree-print lines_fuel inp s c some_text pre node_plain hb hp plain =
      let (fuel, t, run, result) = read_preprocessed-print s c node_plain hb hp plain in
      (fuel, t, rw (some_text, pre, string2tree) run, result)
