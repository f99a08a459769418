-- ===== src/Preprocess/Scan.antt =====
-- core/PreProcessor.cc: `get_token_`, which reads a token and joins operators of two characters.
use cadabra.Base.{
  ℕ, zero, suc, ◌+◌, ◌%◌, Bool, true, false, not, ◌&&◌, ◌||◌, List, [], ◌∷◌, ◌++◌, Option, none,
  some, ◌==◌, ltb, if◌then◌else◌, Bytes, length, get_or, drop,
}
use cadabra.Storage.Names.{isdigit}
use cadabra.Preprocess.Tokens.{
  Accu, tok_arrow, tok_unequals, tok_wedge, tok_pow, tok_set_option, tok_declare, tok_sequence,
  tok_siblings, is_infix_operator_, is_link_, is_opening_bracket_, is_closing_bracket_, is_bracket_,
  is_digits_, nonzero, default_is_product_,
}

-- The members of `preprocessor`; the back of `accus` is the head of the list.
pub record Pre : Type 0 where
  pub verbatim_ : Bool
  pub next_is_product_ : Bool
  pub eat_initial_whitespace_ : Bool
  pub cur_pos : ℕ
  pub cur_str : Bytes
  pub cur : Accu
  pub accus : List Accu

-- `++cur_pos` and `--cur_pos` of an unsigned int.
abbrev pub up : ℕ → ℕ
up p = (p + 1) % 4294967296

abbrev pub down : ℕ → ℕ
down p = (p + 4294967295) % 4294967296

abbrev set_at : Bytes → ℕ → ℕ → Bytes
set_at [] i v = []
set_at (c ∷ cs) zero v = v ∷ cs
set_at (c ∷ cs) (suc i) v = c ∷ set_at cs i v

abbrev isblank : ℕ → Bool
isblank c = c == b' ' || c == 9

-- The text and the position while a token is read, and the character there.
pub record Cursor : Type 0 where
  pub pos : ℕ
  pub str : Bytes
  pub char : ℕ

-- Two characters become one token, which stands in the place of the second.
join : ℕ → ℕ → ℕ → Cursor → Cursor
join a b tok k =
    if k.char == a && get_or k.str (up k.pos) 0 == b
    then record { pos = up k.pos; str = set_at k.str (up k.pos) tok; char = tok }
    else k

-- The operators of two characters, in the order of the tests.
unfoldable pub join_all : Cursor → Cursor
unfolding join
join_all k = join b'!' b'=' tok_unequals (
    join b':' b'>' tok_set_option (
      join b'-' b'>' tok_arrow
        (join b'*' b'*' tok_pow (join b':' b':' b'$' (join b':' b'=' tok_declare k)))))

-- What the dots at the cursor are: a single one is returned, two make a sequence, and three return
-- the token for siblings.
pub data Dots : Type 0 where
  returned_dot : ℕ → Cursor → Dots
  dots_read : Cursor → Dots

unfoldable pub read_dots : Cursor → Dots
read_dots k =
    if k.char == b'.'
    then (let p1 = up k.pos in
        let p2 = up p1 in
        if get_or k.str p1 0 == b'.'
        then (if get_or k.str p2 0 == b'.'
            then returned_dot b'@' (record {
              pos = p2;
              str = set_at (set_at k.str p1 tok_siblings) p2 tok_siblings;
              char = tok_siblings;
            })
            else dots_read
                (record { pos = p1; str = set_at k.str p1 tok_sequence; char = tok_sequence }))
        else returned_dot b'.' k)
    else dots_read k

-- A turn of the loop goes on, with a candidate, or returns a token.
pub data Turn : Type 0 where
  goes_on returns : ℕ → Pre → Turn

-- Positions behind blanks, and behind the digits of a label.
skip_blanks : Bytes → ℕ → ℕ
skip_blanks [] p = p
skip_blanks (c ∷ cs) p = let rest = skip_blanks cs (up p) in if isblank c then rest else p

skip_digits : Bytes → ℕ → ℕ
skip_digits [] p = p
skip_digits (c ∷ cs) p = let rest = skip_digits cs (up p) in if isdigit c then rest else p

module _ (prev : ℕ) where
  -- The end of `get_token_`: the character `c` with no candidate for an operator before it.
  unfoldable pub take_character : ℕ → Pre → ℕ × Pre
  take_character c s =
      let accu = s.cur.accu in
      let ends =
        (nonzero (is_closing_bracket_ prev)
          && (nonzero (is_opening_bracket_ c) && s.cur.head_is_generated))
        || ((nonzero (is_closing_bracket_ prev)
              && (not (is_infix_operator_ c)
                  && (not (nonzero (is_bracket_ c)) && not (is_link_ c))))
            || ((is_digits_ accu
                  && (not (is_digits_ (accu ++ c ∷ []))
                      && (not (is_link_ c) && not (nonzero (is_closing_bracket_ c)))))
                || (not (is_infix_operator_ prev)
                    && (not (nonzero (is_opening_bracket_ prev))
                        && (not (is_link_ prev) && (not (prev == b' ') && c == b'\\')))))) in
      if ends
      then (
        if default_is_product_ s.cur s.accus then b'*' else b' ',
        record s { cur_pos = down s.cur_pos },
      )
      else (let at_name =
            get_or accu 0 0 == b'@' || (get_or accu 0 0 == b'\\' && get_or accu 1 0 == b'@') in
          let splits =
            is_link_ prev
            && (not (nonzero (is_opening_bracket_ c) || (c == b'\\' || prev == b'$'))
                && (length accu == 0 || not at_name)) in
          (c, if splits then record s { next_is_product_ = true } else s))

  abbrev at_cursor : Cursor → Pre → Pre
  at_cursor k s = record s { cur_pos = k.pos; cur_str = k.str }

  -- A turn of the loop, with the candidate for an operator, zero if there is none.
  unfoldable pub read_character : ℕ → Pre → Turn
  unfolding join_all read_dots skip_digits take_character
  read_character candidate s =
      elim (read_dots (
        join_all
          (record { pos = s.cur_pos; str = s.cur_str; char = get_or s.cur_str s.cur_pos 0 }))) [
            | returned_dot c k ↦ returns c (at_cursor k s)
            | dots_read k ↦
                let c = k.char in
                let t = at_cursor k s in
                let ahead = record t { cur_pos = up k.pos } in
                let none_yet = candidate == 0 in
                let after = get_or k.str (up k.pos) 0 in
                let escaped = none_yet && (c == b'\\' && nonzero (is_bracket_ after)) in
                let c' = if escaped then (after + 128) % 256 else c in
                let t' = if escaped then ahead else t in
                if isblank c
                then goes_on (if none_yet then b' ' else candidate) ahead
                else if c == b'^' && candidate == b' '
                then returns tok_wedge (record ahead { cur_str = set_at k.str k.pos tok_wedge })
                else if is_infix_operator_ c
                then (if not none_yet && not (candidate == b' ')
                    then returns candidate (record t { cur_pos = down k.pos })
                    else goes_on c ahead)
                else if c == b'@' && isdigit after
                then goes_on candidate
                    (record t { cur_pos = skip_digits (drop (up k.pos) k.str) (up k.pos) })
                else if not none_yet
                then returns
                    (if candidate == b' ' && default_is_product_ s.cur s.accus
                      then b'*'
                      else candidate)
                    (record t' { cur_pos = down t'.cur_pos })
                else (let (tok, r) = take_character c' t' in returns tok r)
          ]

  -- The end of the text: a candidate is returned, or an exception thrown.
  abbrev at_end : ℕ → Pre → Option (ℕ × Pre)
  at_end candidate s =
      if candidate == 0 then none else some (candidate, record s { cur_pos = down s.cur_pos })

  -- The loop, with a unit of fuel for each turn that goes on.
  unfoldable pub scan : ℕ → ℕ → Pre → Option (ℕ × Pre)
  unfolding read_character
  scan zero candidate s = if ltb s.cur_pos (length s.cur_str) then none else at_end candidate s
  scan (suc fuel) candidate s = elim (ltb s.cur_pos (length s.cur_str)) [
    | false ↦ at_end candidate s
    | true ↦ elim (read_character candidate s) [
      | goes_on candidate' t ↦ scan fuel candidate' t
      | returns c t ↦ some (c, t)
    ]
  ]

  -- `get_token_`; `none` is the exception at the end of the text.
  unfoldable pub get_token_ : Pre → Option (ℕ × Pre)
  unfolding scan skip_blanks
  get_token_ s =
      if s.verbatim_
      then some (get_or s.cur_str s.cur_pos 0, s)
      else (let candidate = if s.next_is_product_ then b'*' else 0 in
          let start =
            if nonzero (is_opening_bracket_ prev)
            then skip_blanks (drop s.cur_pos s.cur_str) s.cur_pos
            else s.cur_pos in
          scan (suc (length s.cur_str)) candidate
            (record s { next_is_product_ = false; cur_pos = start }))
