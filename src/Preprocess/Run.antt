-- ===== src/Preprocess/Run.antt =====
-- core/PreProcessor.cc: `parse_internal_`, which reads a line, and the two operators that read the
-- lines of a text and write the result.
use cadabra.Base.{
  ℕ, zero, suc, ◌-◌, true, false, not, ◌&&◌, ◌||◌, List, [], ◌∷◌, ◌++◌, Option, none, some, ◌==◌,
  ltb, if◌then◌else◌, Bytes, codes, length, get_or, take, drop,
}
use cadabra.Base.Options.{◌>>=◌}
use cadabra.Preprocess.Tokens.{
  Accu, new_accu, erase_accu, orders, no_order, order_minus, place_of, is_link_,
  is_opening_bracket_, is_closing_bracket_, is_already_bracketed_, nonzero,
}
use cadabra.Preprocess.Unwind.{unwind_}
use cadabra.Preprocess.Scan.{Pre, up, get_token_}

-- `preprocessor::preprocessor`.
abbrev pub preprocessor : Pre
preprocessor = record {
  verbatim_ = false;
  next_is_product_ = false;
  eat_initial_whitespace_ = true;
  cur_pos = 0;
  cur_str = [];
  cur = new_accu;
  accus = [];
}

-- `preprocessor::erase`.
abbrev pub erase_pre : Pre → Pre
erase_pre s = record s {
  cur_pos = 0;
  cur_str = [];
  cur = erase_accu s.cur;
  accus = [];
  next_is_product_ = false;
}

-- An operator at the level of its own order, below it, or above it.
unfoldable pub same_level : ℕ → Pre → Pre
same_level onum s =
    let c = s.cur in
    let operand = if onum == order_minus && length c.accu == 0 then codes "0" else c.accu in
    record s {
      cur = record c {
        order = onum;
        parts = c.parts ++ operand ∷ [];
        accu = [];
        head_is_generated = false;
      };
    }

unfoldable pub push_level : ℕ → Pre → Pre
push_level onum s =
    let c = s.cur in
    let operand = if length c.accu == 0 && onum == order_minus then codes "0" else c.accu in
    let below = record c { accu = []; head_is_generated = false } in
    record s {
      cur = record (erase_accu below) { parts = operand ∷ []; order = onum };
      accus = below ∷ s.accus;
    }

unfoldable pub unwind_level : ℕ → Pre → Option Pre
unwind_level onum s = do
  u ← unwind_ onum 0 false s.cur s.accus
  let c = u.cur
  let lower = ltb onum c.order
  let cleared = record c { accu = [] }
  if u.reached || lower
      then some (record s {
        cur = record cleared { parts = c.accu ∷ []; order = onum };
        accus = if lower then cleared ∷ u.accus else u.accus;
      })
      else some (record s {
        cur = record c {
          parts = if length c.accu == 0 then c.parts else c.parts ++ c.accu ∷ [];
          accu = [];
          head_is_generated = false;
        };
        accus = u.accus;
      })

unfoldable pub read_operator : ℕ → Pre → Option Pre
read_operator onum s =
    if s.cur.order == no_order || onum == s.cur.order
    then some (same_level onum s)
    else if ltb onum s.cur.order
    then some (push_level onum s)
    else unwind_level onum s

-- What is no operator: a bracket, a space, or a character of a name.
unfoldable pub read_opening : ℕ → ℕ → Pre → Pre
read_opening ind prev s =
    let below = record (s.cur) { bracket = ind } in
    record s {
      cur = record (erase_accu below) { is_index = is_link_ prev };
      accus = below ∷ s.accus;
    }

unfoldable pub read_closing : ℕ → Pre → Option Pre
read_closing ind s = do
  let c = s.cur
  let empty_list = ind == 1 && length c.accu == 0 && length c.parts == 0
  u ← unwind_ no_order ind true (if empty_list then record c { parts = c.accu ∷ [] } else c) s.accus
  some (record s { cur = record (u.cur) { bracket = 0 }; accus = u.accus })

unfoldable pub read_other : ℕ → ℕ → Pre → Option Pre
read_other c prev s =
    let a = s.cur in
    let read : Option Pre =
      if nonzero (is_opening_bracket_ c)
      then some (read_opening (is_opening_bracket_ c) prev s)
      else if nonzero (is_closing_bracket_ c)
      then read_closing (is_closing_bracket_ c) s
      else if c == b' '
      then some (
          if length a.accu == 0 then s else record s {
            cur = record a { parts = a.parts ++ a.accu ∷ []; accu = []; head_is_generated = false };
          })
      else some (record s { cur = record a { accu = a.accu ++ c ∷ [] } }) in
    if c == b' ' && not (a.order == no_order)
    then (if s.cur_pos == length s.cur_str - 1 then some s else none)
    else (do t ← read; some (if c == b'"' then record t { verbatim_ = true } else t))

-- The body of the loop of `parse_internal_`, for the token `c` behind `prev`.
unfoldable pub read_token : ℕ → ℕ → Pre → Option Pre
read_token c prev s =
    let at_command = c == b'!' && (not (length s.cur.accu == 0) && get_or s.cur.accu 0 0 == b'@') in
    if s.eat_initial_whitespace_ && c == b'*'
    then some s
    else (let t = record s { eat_initial_whitespace_ = false } in
        let a = t.cur in
        if t.verbatim_
        then some
            (record t { verbatim_ = not (c == b'"'); cur = record a { accu = a.accu ++ c ∷ [] } })
        else if at_command
        then read_other c prev t
        else (elim (place_of c orders) [
          | none ↦ read_other c prev t
          | some onum ↦ read_operator onum t
        ]))

-- How a call ends: with a value, with an exception, or not with this fuel.
pub data Ending (A : Type 0) : Type 0 where
  done : A → Ending A
  exception no_end : Ending A

unfoldable pub parse_loop : ℕ → ℕ → Pre → Ending Pre
parse_loop zero c s = if ltb s.cur_pos (length s.cur_str) then no_end else done s
parse_loop (suc fuel) c s = elim (ltb s.cur_pos (length s.cur_str)) [
  | false ↦ done s
  | true ↦ elim (get_token_ c s) [
    | none ↦ exception
    | some (c', t) ↦ elim (read_token c' c t) [
      | none ↦ exception
      | some u ↦ parse_loop fuel c' (record u { cur_pos = up u.cur_pos })
    ]
  ]
]

-- `parse_`.
unfoldable pub parse_ : ℕ → Bytes → Pre → Ending Pre
unfolding parse_loop
parse_ fuel line s = parse_loop fuel 0 (record s { cur_str = line; cur_pos = 0 })

-- The lines that `std::getline` gives one after the other: a newline ends a line, and there is no line
-- behind the last one.
unfoldable pub lines_of : Bytes → List Bytes
lines_of [] = []
lines_of (c ∷ cs) =
    let rest = lines_of cs in
    if c == b'\n' then [] ∷ rest else (elim rest [ [] ↦ (c ∷ []) ∷ [] | l ∷ ls ↦ (c ∷ l) ∷ ls ])

-- `operator>>`: the lines into one state, each with this fuel.
unfoldable pub parse_lines : ℕ → List Bytes → Pre → Ending Pre
unfolding parse_
parse_lines fuel [] s = done s
parse_lines fuel (line ∷ ls) s = elim (parse_ fuel line s) [
  | done t ↦ parse_lines fuel ls t
  | exception ↦ exception
  | no_end ↦ no_end
]

unfoldable pub strip_outer_brackets : Bytes → Bytes
strip_outer_brackets s = if is_already_bracketed_ s then take (length s - 2) (drop 1 s) else s

-- The loop of `operator<<`, and then the last unwinding and the text.
unfoldable pub unwind_all : ℕ → Accu → List Accu → Ending Bytes
unwind_all fuel cur [] = elim (unwind_ no_order 0 true cur []) [
  | none ↦ exception
  | some u ↦ done (strip_outer_brackets u.cur.accu)
]
unwind_all zero cur (a ∷ accus) = no_end
unwind_all (suc fuel) cur (a ∷ accus) = elim (unwind_ no_order 0 true cur (a ∷ accus)) [
  | none ↦ exception
  | some u ↦ unwind_all fuel u.cur u.accus
]

-- `operator<<`, with a unit of fuel for each level.
unfoldable pub text_of : Pre → Ending Bytes
unfolding unwind_all
text_of s = unwind_all (length s.accus) s.cur s.accus

-- What the parser is given for its input.
unfoldable pub preprocess : ℕ → Bytes → Ending Bytes
unfolding parse_lines lines_of
preprocess fuel inp = elim (parse_lines fuel (lines_of inp) preprocessor) [
  | done s ↦ text_of s
  | exception ↦ exception
  | no_end ↦ no_end
]
