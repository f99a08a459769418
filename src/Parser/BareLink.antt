-- ===== src/Parser/BareLink.antt =====
-- core/Parser.cc: how `string2tree` reads a link that no bracket follows.
use cadabra.Base.{
  ℕ, true, false, List, [], ◌∷◌, ◌++◌, ◌≡◌, refl, sym, ap, ◌∙◌, arith, Bytes, append_assoc,
  append-nil,
}
use cadabra.Tree.{nil, node, ◌⊕◌}
use cadabra.Storage.{
  Bracket, b_none, b_no, b_round, b_square, b_curly, b_pointy, b_invalid, ParentRel, p_sub, p_super,
  str_node,
}
use cadabra.Storage.Multiplier.{Rational}
use cadabra.Parser.State.{
  is_some_bracket, Mode, m_findchildren, m_singlecharname, m_backslashname, is_closing_bracket,
  is_opening_bracket, is_link, get_token, advance, Place, Open, inside, append,
}
use cadabra.Parser.Machine.{step_in, step_findchildren, step_singlecharname, step_backslashname}
use cadabra.Parser.Text.{is_plain, all_plain, is_plain-facts}
use cadabra.Parser.Reach.{Reach, at, turn, and_then, stay}
use cadabra.Parser.Read.{get_token_plain, advance_plain, get_token_backslash}

-- A subscript or a superscript.
pub data Script : Type 0 where
  sub super : Script

abbrev pub script_sign : Script → ℕ
script_sign sub = b'_'
script_sign super = b'^'

abbrev pub script_rel : Script → ParentRel
script_rel sub = p_sub
script_rel super = p_super

is_some_bracket-no : (b : Bracket) → is_some_bracket b ≡ false → b ≡ b_no
is_some_bracket-no b_no h = refl
is_some_bracket-no b_round h = absurd (cc)
is_some_bracket-no b_square h = absurd (cc)
is_some_bracket-no b_curly h = absurd (cc)
is_some_bracket-no b_pointy h = absurd (cc)
is_some_bracket-no b_none h = absurd (cc)
is_some_bracket-no b_invalid h = absurd (cc)

module _ (m : Rational) (ms : List Mode) (bs : List Bracket) (rs : List ParentRel) where
  open m use {Q}

  bare_sign :
      (k : Script) (str : Bytes) (p : Place Q)
      → is_opening_bracket (get_token str) ≡ b_no
      → Reach m
          (at m (script_sign k ∷ str) [] (m_findchildren ∷ ms) bs rs p)
          (at m str [] (m_singlecharname ∷ m_findchildren ∷ ms) (b_none ∷ bs) (script_rel k ∷ rs) p)
  unfolding step_in step_findchildren get_token advance is_link is_opening_bracket
      is_closing_bracket
  bare_sign sub str p h =
      turn m m_findchildren ms (b'_' ∷ str) [] bs rs p _ (omega arith) (rw h refl)
  bare_sign super str p h =
      turn m m_findchildren ms (b'^' ∷ str) [] bs rs p _ (omega arith) (rw h refl)

  bare_character :
      (c : ℕ) (r : Bytes) (rel : ParentRel) (o : Open Q) (path : List (Open Q))
      → is_plain c ≡ true
      → Reach m
          (at m
            (c ∷ r)
            []
            (m_singlecharname ∷ m_findchildren ∷ ms)
            (b_none ∷ bs)
            (rel ∷ rs)
            (inside o path))
          (at m r [] (m_findchildren ∷ ms) bs rs (
            inside
              (record o { children = o.children ⊕ node (str_node m (c ∷ []) b_none rel) nil nil })
              path))
  unfolding step_in step_singlecharname append
  bare_character c r rel o path h =
      let (e1, _, _, _, _, _, _, _) = is_plain-facts c h in
      turn m m_singlecharname (m_findchildren ∷ ms) (c ∷ r) [] (b_none ∷ bs) (rel ∷ rs) _ _
        (omega arith) (rw (get_token_plain c r h, advance_plain c r h, e1) refl)

  -- The characters of a name behind a backslash.
  backslash_characters :
      (ds tmp r : Bytes) (bs' : List Bracket) (rs' : List ParentRel) (p : Place Q)
      → all_plain ds ≡ true
      → Reach m
          (at m (ds ++ r) tmp (m_backslashname ∷ m_findchildren ∷ ms) bs' rs' p)
          (at m r (tmp ++ ds) (m_backslashname ∷ m_findchildren ∷ ms) bs' rs' p)
  unfolding all_plain step_in step_backslashname
  backslash_characters [] tmp r bs' rs' p h = rw (append-nil tmp) (stay m _)
  backslash_characters (d ∷ ds) tmp r bs' rs' p h =
      let first : is_plain d ≡ true = ground arith in
      let others : all_plain ds ≡ true = ground arith in
      let (e1, _, e3, e4, _, e6, e7, _) = is_plain-facts d first in
      let e : tmp ++ d ∷ ds ≡ (tmp ++ d ∷ []) ++ ds = sym (append_assoc tmp (d ∷ []) ds) in
      let modes = m_backslashname ∷ m_findchildren ∷ ms in
      and_then m _ (at m (ds ++ r) (tmp ++ d ∷ []) modes bs' rs' p) _
        (turn m m_backslashname (m_findchildren ∷ ms) (d ∷ (ds ++ r)) tmp bs' rs' p _ (omega arith)
          (rw
            (get_token_plain d (ds ++ r) first, advance_plain d (ds ++ r) first, e6, e1, e3, e4, e7)
            refl))
        (rw e (backslash_characters ds (tmp ++ d ∷ []) r bs' rs' p others))

  bare_backslash :
      (d : ℕ) (ds r : Bytes) (rel : ParentRel) (o : Open Q) (path : List (Open Q))
      → is_plain d ≡ true
      → all_plain ds ≡ true
      → Reach m
          (at m
            (b'\\' ∷ d ∷ (ds ++ b' ' ∷ r))
            []
            (m_singlecharname ∷ m_findchildren ∷ ms)
            (b_none ∷ bs)
            (rel ∷ rs)
            (inside o path))
          (at m (b' ' ∷ r) [] (m_findchildren ∷ ms) (b_none ∷ bs) (rel ∷ rs) (
            inside
              (record o {
                children = o.children ⊕ node (str_node m (b'\\' ∷ d ∷ ds) b_none rel) nil nil;
              })
              path))
  unfolding step_in step_singlecharname step_backslashname append all_plain get_token
      is_opening_bracket is_closing_bracket
  bare_backslash d ds r rel o path h hs =
      let (tok, adv) = get_token_backslash d (ds ++ b' ' ∷ r) h in
      let modes = m_backslashname ∷ m_findchildren ∷ ms in
      let bs' = b_none ∷ bs in
      let rs' = rel ∷ rs in
      let p = inside o path in
      and_then m _ (at m (d ∷ (ds ++ b' ' ∷ r)) (b'\\' ∷ []) modes bs' rs' p) _
        (turn m m_singlecharname (m_findchildren ∷ ms) (b'\\' ∷ d ∷ (ds ++ b' ' ∷ r)) [] bs' rs' p _
          (omega arith) (rw (tok, adv) refl))
        (and_then m _ (at m (b' ' ∷ r) (b'\\' ∷ d ∷ ds) modes bs' rs' p) _
          (backslash_characters (d ∷ ds) (b'\\' ∷ []) (b' ' ∷ r) bs' rs' p (rw (h, hs) refl))
          (turn m m_backslashname (m_findchildren ∷ ms) (b' ' ∷ r) (b'\\' ∷ d ∷ ds) bs' rs' p _
            (omega arith) refl))

  -- A plain character behind a subscript or superscript sign without a bracket becomes a child of
  -- the current parent, and the stacks of brackets and relations are left as they were.
  pub string2tree-bare_character :
      (k : Script) (c : ℕ) (r : Bytes) (o : Open Q) (path : List (Open Q))
      → is_plain c ≡ true
      → Reach m (at m (script_sign k ∷ c ∷ r) [] (m_findchildren ∷ ms) bs rs (inside o path)) (
          at m r [] (m_findchildren ∷ ms) bs rs (
            inside
              (record o {
                children = o.children ⊕ node (str_node m (c ∷ []) b_none (script_rel k)) nil nil;
              })
              path))
  string2tree-bare_character k c r o path h =
      let (_, e2, _, _, _, _, _, _) = is_plain-facts c h in
      let no = is_some_bracket-no (is_opening_bracket c) e2 in
      and_then m _
        (at m (c ∷ r) [] (m_singlecharname ∷ m_findchildren ∷ ms) (b_none ∷ bs) (script_rel k ∷ rs)
          (inside o path))
        _ (bare_sign k (c ∷ r) (inside o path) (ap is_opening_bracket (get_token_plain c r h) ∙ no))
        (bare_character c r (script_rel k) o path h)

  -- A name with a backslash behind a subscript or superscript sign, up to a blank, becomes a child
  -- of the current parent, but its bracket
  -- and its relation stay on the stacks.
  pub string2tree-bare_backslash :
      (k : Script) (d : ℕ) (ds r : Bytes) (o : Open Q) (path : List (Open Q))
      → is_plain d ≡ true
      → all_plain ds ≡ true
      → Reach m
          (at m
            (script_sign k ∷ b'\\' ∷ d ∷ (ds ++ b' ' ∷ r))
            []
            (m_findchildren ∷ ms)
            bs
            rs
            (inside o path))
          (at m (b' ' ∷ r) [] (m_findchildren ∷ ms) (b_none ∷ bs) (script_rel k ∷ rs) (
            inside
              (record o {
                children =
                    o.children ⊕ node (str_node m (b'\\' ∷ d ∷ ds) b_none (script_rel k)) nil nil;
              })
              path))
  unfolding is_opening_bracket
  string2tree-bare_backslash k d ds r o path h hs =
      let str = b'\\' ∷ d ∷ (ds ++ b' ' ∷ r) in
      and_then m _
        (at m str [] (m_singlecharname ∷ m_findchildren ∷ ms) (b_none ∷ bs) (script_rel k ∷ rs)
          (inside o path))
        _
        (bare_sign k str (inside o path)
          (ap is_opening_bracket (get_token_backslash d (ds ++ b' ' ∷ r) h).0))
        (bare_backslash d ds r (script_rel k) o path h hs)
