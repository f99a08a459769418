-- ===== src/Parser/Read.antt =====
-- How `string2tree` in core/Parser.cc reads the parts of the canonical form.
use cadabra.Base.{
  ℕ, ◌<◌, Bool, true, false, not, ◌&&◌, List, [], ◌∷◌, ◌++◌, ◌≡◌, refl, sym, length, ◌==◌, arith,
  Bytes, append_assoc, append-nil, ltb, inl, inr,
}
use mathlib.Core.Path.{subst}
use cadabra.Storage.{
  Bracket, ParentRel, p_sub, p_super, p_none, p_property, p_exponent, p_components,
}
use cadabra.Storage.Multiplier.{Rational}
use cadabra.Parser.State.{
  Mode, m_skipwhite, m_name, m_findchildren, m_childgroup, is_closing_bracket, is_opening_bracket,
  is_link, is_some_bracket, is_some_link, get_token, advance, Place,
}
use cadabra.Parser.Machine.{
  is_blank, step_in, step_name, step_findchildren, step_childgroup, step_skipwhite,
}
use cadabra.Parser.Text.{
  open_text, link_text, is_plain, all_plain, is_symbol, has_bracket, has_link, get_token-open_text,
  is_plain-facts, is_symbol-cases,
}
use cadabra.Parser.Reach.{Reach, at, turn, and_then, stay}

pub get_token_plain : (c : ℕ) (r : Bytes) → is_plain c ≡ true → get_token (c ∷ r) ≡ c
unfolding get_token
get_token_plain c r h = let (e, _, _, _, _, _, _, _) = is_plain-facts c h in rw e refl

pub advance_plain : (c : ℕ) (r : Bytes) → is_plain c ≡ true → advance (c ∷ r) ≡ r
unfolding advance
advance_plain c r h =
    let (_, _, _, _, _, _, _, e) = is_plain-facts c h in
    let small : ltb 128 c ≡ false = ground arith in rw (get_token_plain c r h) (rw small refl)

and_false : (b : Bool) → b && false ≡ false
and_false true = refl
and_false false = refl

-- A backslash in front of a plain character is a character of its own.
pub get_token_backslash :
    (d : ℕ) (r : Bytes)
    → is_plain d ≡ true
    → (get_token (b'\\' ∷ d ∷ r) ≡ b'\\') × (advance (b'\\' ∷ d ∷ r) ≡ d ∷ r)
unfolding get_token advance
get_token_backslash d r h =
    let (_, e2, _, e4, _, _, _, _) = is_plain-facts d h in (rw (e2, e4) refl, rw (e2, e4) refl)

-- A name starts with a character that is no blank.
pub first_symbol :
    (name r : Bytes)
    → is_symbol name ≡ true
    → (is_blank (get_token (name ++ r)) ≡ false) × (0 < length (name ++ r))
first_symbol name r h = elim (is_symbol-cases name h) [
  | inl (c, cs, e, f, g) ↦
      let (_, _, _, _, _, e6, _, _) = is_plain-facts c f in
      rw (e, get_token_plain c (cs ++ r) f, e6) (refl, omega arith)
  | inr (d, ds, e, f, g) ↦ rw (e, (get_token_backslash d (ds ++ r) f).0) (refl, omega arith)
]

module _ (m : Rational) where
  open m use {Q}

  module _ (bs : List Bracket) (rs : List ParentRel) (pl : Place Q) where
    open_link :
        (ch : ℕ) (p : ParentRel) (b : Bracket) (r tmp : Bytes) (ms : List Mode)
        → has_bracket b ≡ true
        → is_some_link p ≡ true
        → is_link ch ≡ p
        → ((x : Bytes) → (get_token (ch ∷ x) ≡ ch) × (advance (ch ∷ x) ≡ x))
        → Reach m
            (at m (ch ∷ (open_text b ++ r)) tmp (m_findchildren ∷ ms) bs rs pl)
            (at m r tmp (m_childgroup ∷ m_findchildren ∷ ms) (b ∷ bs) (p ∷ rs) pl)
    unfolding step_in step_findchildren
    open_link ch p b r tmp ms hb hp e t =
        let (o, l, a, k, pos) = get_token-open_text r b hb in
        let (tok, adv) = t (open_text b ++ r) in
        turn m m_findchildren ms (ch ∷ (open_text b ++ r)) tmp bs rs pl _ (omega arith)
          (rw (tok, adv, e, hp, o, k, a) refl)

    -- A bracket opens, behind its link.
    pub open_group :
        (p : ParentRel) (b : Bracket) (r tmp : Bytes) (ms : List Mode)
        → has_link p ≡ true
        → has_bracket b ≡ true
        → Reach m
            (at m (link_text p ++ (open_text b ++ r)) tmp (m_findchildren ∷ ms) bs rs pl)
            (at m r tmp (m_childgroup ∷ m_findchildren ∷ ms) (b ∷ bs) (p ∷ rs) pl)
    unfolding step_in step_findchildren get_token advance is_link is_opening_bracket
        is_closing_bracket
    open_group p_none b r tmp ms hp hb =
        let (o, l, a, k, pos) = get_token-open_text r b hb in
        turn m m_findchildren ms (open_text b ++ r) tmp bs rs pl _ pos (rw (l, o, k, a) refl)
    open_group p_sub b r tmp ms hp hb =
        open_link _ p_sub b r tmp ms hb refl refl (λ x. (refl, refl))
    open_group p_super b r tmp ms hp hb =
        open_link _ p_super b r tmp ms hb refl refl (λ x. (refl, refl))
    open_group p_property b r tmp ms hp hb =
        open_link _ p_property b r tmp ms hb refl refl (λ x. (refl, refl))
    open_group p_exponent b r tmp ms hp hb =
        open_link _ p_exponent b r tmp ms hb refl refl (λ x. (refl, refl))
    open_group p_components b r tmp ms hp hb = absurd (cc)

    -- One character of a name.
    read_one :
        (c : ℕ) (tmp r : Bytes) (ms : List Mode)
        → is_plain c ≡ true
        → Reach m
            (at m (c ∷ r) tmp (m_name ∷ ms) bs rs pl)
            (at m r (tmp ++ c ∷ []) (m_name ∷ ms) bs rs pl)
    unfolding step_in step_name
    read_one c tmp r ms h =
        let (e1, e2, e3, e4, e5, e6, e7, _) = is_plain-facts c h in
        turn m m_name ms (c ∷ r) tmp bs rs pl _ (omega arith) (
          rw (get_token_plain c r h, advance_plain c r h, e2, e3, e4, e5, e1, e6, e7)
            (rw (and_false (not (length tmp == 0))) refl))

    -- The characters of a name.
    read_plain :
        (cs tmp r : Bytes) (ms : List Mode)
        → all_plain cs ≡ true
        → Reach m
            (at m (cs ++ r) tmp (m_name ∷ ms) bs rs pl)
            (at m r (tmp ++ cs) (m_name ∷ ms) bs rs pl)
    unfolding all_plain
    read_plain [] tmp r ms h = rw (append-nil tmp) (stay m _)
    read_plain (c ∷ cs) tmp r ms h =
        let first : is_plain c ≡ true = ground arith in
        let others : all_plain cs ≡ true = ground arith in
        let e : tmp ++ c ∷ cs ≡ (tmp ++ c ∷ []) ++ cs = sym (append_assoc tmp (c ∷ []) cs) in
        and_then m _ (at m (cs ++ r) (tmp ++ c ∷ []) (m_name ∷ ms) bs rs pl) _
          (read_one c tmp (cs ++ r) ms first) (rw e (read_plain cs (tmp ++ c ∷ []) r ms others))

    -- The first character of a name, where a group or the text starts.
    enter_name :
        (c : ℕ) (str : Bytes) (ms : List Mode)
        → 0 < length str
        → get_token str ≡ c
        → is_some_bracket (is_closing_bracket c) ≡ false
        → is_blank c ≡ false
        → Reach m
            (at m str [] (m_childgroup ∷ ms) bs rs pl)
            (at m str [] (m_name ∷ m_childgroup ∷ ms) bs rs pl)
    unfolding step_in step_childgroup step_skipwhite
    enter_name c str ms pos tok e b =
        and_then m _ (at m str [] (m_skipwhite ∷ m_name ∷ m_childgroup ∷ ms) bs rs pl) _
          (turn m m_childgroup ms str [] bs rs pl _ pos (rw (tok, e) refl))
          (turn m m_skipwhite (m_name ∷ m_childgroup ∷ ms) str [] bs rs pl _ pos (rw (tok, b) refl))

    -- A whole name, from its first character on.
    pub read_symbol :
        (name r : Bytes) (ms : List Mode)
        → is_symbol name ≡ true
        → Reach m (at m (name ++ r) [] (m_name ∷ ms) bs rs pl) (at m r name (m_name ∷ ms) bs rs pl)
    unfolding step_in step_name is_opening_bracket is_closing_bracket is_link all_plain
    read_symbol name r ms h =
        let reads : Bytes → Type 0 = λ x.
          Reach m (at m (x ++ r) [] (m_name ∷ ms) bs rs pl) (at m r x (m_name ∷ ms) bs rs pl) in
        elim (is_symbol-cases name h) [
          | inl (c, cs, e, f, g) ↦
              subst reads (sym e) (read_plain (c ∷ cs) [] r ms (rw (f, g) refl))
          | inr (d, ds, e, f, g) ↦
              let (tok, adv) = get_token_backslash d (ds ++ r) f in
              subst reads (sym e) (
                and_then m _ (at m (d ∷ (ds ++ r)) (b'\\' ∷ []) (m_name ∷ ms) bs rs pl) _
                  (turn m m_name ms (b'\\' ∷ d ∷ (ds ++ r)) [] bs rs pl _ (omega arith)
                    (rw (tok, adv) refl))
                  (read_plain (d ∷ ds) (b'\\' ∷ []) r ms (rw (f, g) refl)))
        ]

    -- From the start of a group to the end of the name in it.
    pub enter_symbol :
        (name r : Bytes) (ms : List Mode)
        → is_symbol name ≡ true
        → Reach m
            (at m (name ++ r) [] (m_childgroup ∷ ms) bs rs pl)
            (at m r name (m_name ∷ m_childgroup ∷ ms) bs rs pl)
    unfolding is_closing_bracket
    enter_symbol name r ms h =
        let enters : Bytes → Type 0 = λ x.
          Reach m (at m (x ++ r) [] (m_childgroup ∷ ms) bs rs pl)
            (at m (x ++ r) [] (m_name ∷ m_childgroup ∷ ms) bs rs pl) in
        and_then m _ (at m (name ++ r) [] (m_name ∷ m_childgroup ∷ ms) bs rs pl) _
          (elim (is_symbol-cases name h) [
            | inl (c, cs, e, f, g) ↦
                let (_, _, _, e4, _, e6, _, _) = is_plain-facts c f in
                subst enters (sym e) (
                  enter_name c (c ∷ (cs ++ r)) ms (omega arith) (get_token_plain c (cs ++ r) f) e4
                    e6)
            | inr (d, ds, e, f, g) ↦ subst enters (sym e) (
                enter_name b'\\' (b'\\' ∷ d ∷ (ds ++ r)) ms (omega arith)
                  (get_token_backslash d (ds ++ r) f).0 refl refl)
          ])
          (read_symbol name r (m_childgroup ∷ ms) h)
