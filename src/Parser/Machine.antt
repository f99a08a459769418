-- ===== src/Parser/Machine.antt =====
-- core/Parser.cc: `string2tree`, one turn of its loop for each mode, and the loop. Where the code is
-- undefined (an assertion fails, an empty vector is popped, a null iterator is used) a turn gives
-- `none`.
use cadabra.Base.{
  ℕ, zero, suc, Bool, true, false, not, ◌&&◌, ◌||◌, List, [], ◌∷◌, ◌++◌, Option, none, some, ◌==◌,
  if◌then◌else◌, Bytes, length, get_or, codes,
}
use cadabra.Base.Options.{◌>>=◌}
use cadabra.Tree.{Forest, nil, node}
use cadabra.Storage.{b_none, ParentRel, p_none, p_property, StrNode, is_named, str_node}
use cadabra.Storage.Multiplier.{Rational}
use cadabra.Parser.State.{
  Mode, m_skipwhite, m_name, m_findchildren, m_verbatim, m_property, m_singlecharname,
  m_backslashname, m_childgroup, m_initialgroup, is_closing_bracket, is_opening_bracket, is_link,
  is_some_bracket, is_some_link, bracket_nonzero, get_token, advance, Open, inside, append, descend,
  ascend, to_root, State,
}

abbrev pub is_blank : ℕ → Bool
is_blank c = c == b' ' || c == b'\n'

abbrev pub is_arithmetic : ℕ → Bool
is_arithmetic c = c == b'+' || c == b'-' || c == b'*' || c == b'/'

-- A name that starts with @ or \@, which links belong to.
unfoldable pub is_at_name : Bytes → Bool
is_at_name tmp = get_or tmp 0 0 == b'@' || (get_or tmp 0 0 == b'\\' && get_or tmp 1 0 == b'@')

abbrev pub is_property : ParentRel → Bool
is_property p_property = true
is_property _ = false

-- `back()` and `pop_back()`.
abbrev pub back : {A : Type 0} → List A → Option A
back [] = none
back (a ∷ as') = some a

abbrev pub pop_back : {A : Type 0} → List A → Option (List A)
pop_back [] = none
pop_back (a ∷ as') = some as'

module _ (m : Rational) where
  open m use {Q}

  -- `str_node(tmp, current_bracket.back(), current_parent_rel.back())`.
  abbrev pub named : State Q → Option (StrNode Q)
  named s = do
    b ← back s.current_bracket
    r ← back s.current_parent_rel
    some (str_node m s.tmp b r)

  -- It is appended to the current parent, and the buffer cleared.
  abbrev pub append_named : State Q → Option (State Q)
  append_named s = do n ← named s; p ← append n s.place; some (record s { place = p; tmp = [] })

  -- `current_bracket.pop_back(); current_parent_rel.pop_back();`.
  abbrev pub leave_group : State Q → Option (State Q)
  leave_group s = do
    bs ← pop_back s.current_bracket
    rs ← pop_back s.current_parent_rel
    some (record s { current_bracket = bs; current_parent_rel = rs })

  -- The mode on top is taken off in these; `ms` are the modes below it.
  unfoldable pub step_skipwhite : ℕ → List Mode → State Q → Option (State Q)
  step_skipwhite c ms s =
      if not (is_blank c)
      then some (record s { current_mode = ms })
      else some (record s { str = advance s.str })

  unfoldable pub step_name : ℕ → List Mode → State Q → Option (State Q)
  step_name c ms s =
      let here = m_name ∷ ms in
      let empty = length s.tmp == 0 in
      if is_some_bracket (is_opening_bracket c)
        || (is_some_link (is_link c) && (empty || not (is_at_name s.tmp)))
      then (do
        n ← named s
        p ← descend n s.place
        some (record s { place = p; tmp = []; current_mode = m_findchildren ∷ here }))
      else if is_some_bracket (is_closing_bracket c)
      then (do t ← if empty then some s else append_named s; some (record t { current_mode = ms }))
      else if not empty && (is_arithmetic c || c == b'\\' || is_blank c)
      then (do
        t ← append_named s
        let rest = if is_blank c then advance t.str else t.str
        some (record t { str = rest; current_mode = ms }))
      else if is_arithmetic c
      then (do
        t ← append_named (record s { tmp = s.tmp ++ c ∷ [] })
        some (record t { str = advance t.str; current_mode = ms }))
      else if is_blank c
      then none
      else some (record s {
        tmp = s.tmp ++ c ∷ [];
        str = advance s.str;
        current_mode = if c == b'"' then m_verbatim ∷ here else here;
      })

  unfoldable pub step_findchildren : ℕ → List Mode → State Q → Option (State Q)
  step_findchildren c ms s =
      let here = m_findchildren ∷ ms in
      let pr = is_link c in
      if is_some_link pr
      then (let rest = advance s.str in
          let br = is_opening_bracket (get_token rest) in
          if is_some_bracket br
          then some (record s {
            str = advance rest;
            current_mode = m_childgroup ∷ here;
            current_bracket = br ∷ s.current_bracket;
            current_parent_rel = pr ∷ s.current_parent_rel;
          })
          else some (record s {
            str = rest;
            current_mode = (if is_property pr then m_property else m_singlecharname) ∷ here;
            current_bracket = b_none ∷ s.current_bracket;
            current_parent_rel = pr ∷ s.current_parent_rel;
          }))
      else (let br = is_opening_bracket c in
          if is_some_bracket br
          then some (record s {
            str = advance s.str;
            current_mode = m_childgroup ∷ here;
            current_bracket = br ∷ s.current_bracket;
            current_parent_rel = p_none ∷ s.current_parent_rel;
          })
          else (do
            p ← ascend s.place
            some (record s { place = p; current_mode = m_skipwhite ∷ ms })))

  unfoldable pub step_singlecharname : ℕ → List Mode → State Q → Option (State Q)
  step_singlecharname c ms s =
      let tmp = s.tmp ++ c ∷ [] in
      if c == b'\\'
      then some (record s { tmp = tmp; str = advance s.str; current_mode = m_backslashname ∷ ms })
      else (do
        r ← back s.current_parent_rel
        p ← append (str_node m tmp b_none r) s.place
        leave_group (record s { place = p; tmp = []; str = advance s.str; current_mode = ms }))

  -- The condition of the second branch is a bracket, taken as a number.
  unfoldable pub step_property : ℕ → List Mode → State Q → Option (State Q)
  step_property c ms s =
      (if is_blank c
        then (do
          t ← leave_group (record s { current_mode = ms })
          p ← ascend t.place
          some (record t { place = p }))
        else if bracket_nonzero (is_opening_bracket c)
        then (do
          p ← if length s.tmp == 0 then some s.place else (do n ← named s; descend n s.place)
          some (record s { place = p; current_mode = m_childgroup ∷ m_property ∷ ms }))
        else some s)
      >>= λ (t : State Q). some (record t { str = advance t.str; tmp = t.tmp ++ c ∷ [] })

  unfoldable pub step_verbatim : ℕ → List Mode → State Q → Option (State Q)
  step_verbatim c ms s = some (record s {
    tmp = s.tmp ++ c ∷ [];
    str = advance s.str;
    current_mode = if c == b'"' then ms else m_verbatim ∷ ms;
  })

  unfoldable pub step_backslashname : ℕ → List Mode → State Q → Option (State Q)
  step_backslashname c ms s =
      let here = m_backslashname ∷ ms in
      if is_blank c
        || c == b'\\'
        || is_some_link (is_link c)
        || is_some_bracket (is_closing_bracket c)
      then append_named (record s { current_mode = ms })
      else some (record s {
        tmp = s.tmp ++ c ∷ [];
        str = advance s.str;
        current_mode = if c == b'"' then m_verbatim ∷ here else here;
      })

  unfoldable pub step_childgroup : ℕ → List Mode → State Q → Option (State Q)
  step_childgroup c ms s =
      if is_some_bracket (is_closing_bracket c)
      then leave_group (record s { str = advance s.str; current_mode = ms })
      else some (record s { current_mode = m_skipwhite ∷ m_name ∷ m_childgroup ∷ ms })

  unfoldable pub step_initialgroup : List Mode → State Q → Option (State Q)
  step_initialgroup ms s =
      some (record s { current_mode = m_skipwhite ∷ m_name ∷ m_initialgroup ∷ ms })

  -- The switch, in a mode.
  unfoldable pub step_in : Mode → List Mode → State Q → Option (State Q)
  step_in m_skipwhite ms s = step_skipwhite (get_token s.str) ms s
  step_in m_name ms s = step_name (get_token s.str) ms s
  step_in m_findchildren ms s = step_findchildren (get_token s.str) ms s
  step_in m_singlecharname ms s = step_singlecharname (get_token s.str) ms s
  step_in m_property ms s = step_property (get_token s.str) ms s
  step_in m_verbatim ms s = step_verbatim (get_token s.str) ms s
  step_in m_backslashname ms s = step_backslashname (get_token s.str) ms s
  step_in m_childgroup ms s = step_childgroup (get_token s.str) ms s
  step_in m_initialgroup ms s = step_initialgroup ms s

  -- One turn of the loop, where there is a mode.
  unfoldable pub step : State Q → Option (State Q)
  unfolding step_in
  step s = elim s.current_mode [ [] ↦ none | mode ∷ ms ↦ step_in mode ms s ]

-- What a call of `string2tree` comes to: with more fuel the loop may go on, and the preprocessor may
-- throw.
pub data Outcome (Q : Type 0) : Type 0 where
  returned : Bool → State Q → Outcome Q
  undefined_behaviour out_of_fuel : Outcome Q
  exception : Outcome Q

module _ (m : Rational) where
  open m use {Q}

  -- The loop goes on: there are characters left, and modes.
  unfoldable pub goes_on : State Q → Bool
  goes_on s = not (length s.str == 0) && not (length s.current_mode == 0)

  unfoldable pub loop : ℕ → State Q → Outcome Q
  unfolding goes_on step
  loop zero s = if goes_on s then out_of_fuel else returned (length s.str == 0) s
  loop (suc fuel) s = elim (goes_on s) [
    | false ↦ returned (length s.str == 0) s
    | true ↦ elim (step m s) [ none ↦ undefined_behaviour | some t ↦ loop fuel t ]
  ]

  -- `string2tree` behind the preprocessor, which gave `pre`: the string with spaces around it for
  -- lookahead, and the initial mode on the stacks.
  unfoldable pub start : Bytes → State Q → State Q
  start pre s =
      let root = to_root s.place in
      record {
        str = codes "  " ++ (pre ++ codes "  ");
        tmp = [];
        current_mode = m_initialgroup ∷ s.current_mode;
        current_bracket = root.head.bracket ∷ s.current_bracket;
        current_parent_rel = root.head.parent_rel ∷ s.current_parent_rel;
        place = inside root [];
      }

  unfoldable pub read_preprocessed : ℕ → Bytes → State Q → Outcome Q
  unfolding start loop
  read_preprocessed fuel pre s = loop fuel (start pre s)

  -- `Parser::Parser` and `erase`.
  abbrev pub erased : State Q
  erased = record {
    str = [];
    tmp = [];
    current_mode = [];
    current_bracket = [];
    current_parent_rel = [];
    place =
        inside (record { head = str_node m (codes "\\expression") b_none p_none; children = nil })
          [];
  }

  -- `finalise`: the children of the root take its place.
  unfoldable pub finalise : Open Q → Forest (StrNode Q)
  finalise o =
      if is_named (codes "\\expression") o.head then o.children else node o.head o.children nil
