-- ===== src/Preprocess/Tokens.antt =====
-- core/PreProcessor.hh, core/PreProcessor.cc: operators, brackets, and the levels of the stack.
use cadabra.Base.{
  ℕ, zero, suc, ◌+◌, ◌-◌, Bool, true, false, not, ◌&&◌, ◌||◌, List, [], ◌∷◌, Option, none, some,
  ◌==◌, ltb, if◌then◌else◌, Bytes, codes, length, get_or,
}
use cadabra.Storage.Names.{isdigit}

-- The tokens above ASCII.
abbrev pub tok_arrow : ℕ
tok_arrow = 172

abbrev pub tok_unequals : ℕ
tok_unequals = 173

abbrev pub tok_wedge : ℕ
tok_wedge = 174

abbrev pub tok_pow : ℕ
tok_pow = 175

abbrev pub tok_set_option : ℕ
tok_set_option = 176

abbrev pub tok_declare : ℕ
tok_declare = 177

abbrev pub tok_sequence : ℕ
tok_sequence = 178

abbrev pub tok_siblings : ℕ
tok_siblings = 179

-- `orders`, with the zero at its end.
abbrev pub orders : List ℕ
orders =
    b'!' ∷ tok_pow ∷ b'/' ∷ b'*' ∷ tok_wedge ∷ b'-' ∷ b'+' ∷ tok_sequence ∷ b'=' ∷ tok_unequals
    ∷ b'<' ∷ b'>' ∷ b'|' ∷ tok_arrow ∷ tok_set_option ∷ tok_declare ∷ b',' ∷ b'~' ∷ 0 ∷ []

-- `sizeof(orders)`, the order of a level that has no operator.
abbrev pub no_order : ℕ
no_order = 19

abbrev pub order_factorial : ℕ
order_factorial = 0

abbrev pub order_minus : ℕ
order_minus = 5

-- `order_names`; the last entry is a null pointer.
abbrev pub order_names : List Bytes
order_names =
    codes "\\factorial"
    ∷ codes "\\pow"
    ∷ codes "\\frac"
    ∷ codes "\\prod"
    ∷ codes "\\wedge"
    ∷ codes "\\sub"
    ∷ codes "\\sum"
    ∷ codes "\\sequence"
    ∷ codes "\\equals"
    ∷ codes "\\unequals"
    ∷ codes "\\less"
    ∷ codes "\\greater"
    ∷ codes "\\conditional"
    ∷ codes "\\arrow"
    ∷ codes "\\setoption"
    ∷ codes "\\declare"
    ∷ codes "\\comma"
    ∷ codes "\\tie"
    ∷ []

abbrev pub nth_name : List Bytes → ℕ → Option Bytes
nth_name [] i = none
nth_name (n ∷ ns) zero = some n
nth_name (n ∷ ns) (suc i) = nth_name ns i

-- The place of a character in a list.
abbrev pub place_of : ℕ → List ℕ → Option ℕ
place_of c [] = none
place_of c (d ∷ ds) =
    let rest = place_of c ds in
    if c == d then some 0 else elim rest [ none ↦ none | some i ↦ some (suc i) ]

unfoldable pub is_infix_operator_ : ℕ → Bool
is_infix_operator_ c = elim (place_of c orders) [ none ↦ false | some i ↦ true ]

unfoldable pub is_link_ : ℕ → Bool
is_link_ c = c == b'_' || c == b'^' || c == b'$' || c == b'&'

-- The number of a bracket: its place, from one, and 128 more with a backslash.
abbrev pub bracket_number : ℕ → ℕ → ℕ → ℕ → ℕ
bracket_number a b d c =
    if c == a
    then 1
    else if c == a + 128
    then 129
    else if c == b
    then 2
    else if c == b + 128
    then 130
    else if c == d
    then 3
    else if c == d + 128
    then 131
    else 0

unfoldable pub is_opening_bracket_ : ℕ → ℕ
is_opening_bracket_ c = bracket_number b'{' b'(' b'[' c

unfoldable pub is_closing_bracket_ : ℕ → ℕ
is_closing_bracket_ c = bracket_number b'}' b')' b']' c

abbrev pub nonzero : ℕ → Bool
nonzero n = not (n == 0)

unfoldable pub is_bracket_ : ℕ → ℕ
is_bracket_ c =
    if nonzero (is_opening_bracket_ c) then is_opening_bracket_ c else is_closing_bracket_ c

unfoldable pub is_already_bracketed_ : Bytes → Bool
is_already_bracketed_ s =
    not (ltb (length s) 2)
    && nonzero (is_bracket_ (get_or s 0 0))
    && is_opening_bracket_ (get_or s 0 0) == is_closing_bracket_ (get_or s (length s - 1) 0)

abbrev all_digits : Bytes → Bool
all_digits [] = true
all_digits (c ∷ cs) = (isdigit c || c == b'.') && all_digits cs

unfoldable pub is_digits_ : Bytes → Bool
is_digits_ s = not (length s == 0) && all_digits s

-- `bracket_strings_`: the texts of a bracket by its number.
unfoldable pub bracket_strings_ : ℕ → Bytes × Bytes
bracket_strings_ cb =
    if cb == 0
    then ([], [])
    else if cb == 1
    then (codes "{", codes "}")
    else if cb == 2
    then (codes "(", codes ")")
    else if cb == 3
    then (codes "[", codes "]")
    else if cb == 129
    then (codes "\\{", codes "\\}")
    else if cb == 130
    then (codes "\\(", codes "\\)")
    else (codes "\\[", codes "\\]")

-- `accu_t`: a level of the stack.
pub record Accu : Type 0 where
  pub head_is_generated : Bool
  pub accu : Bytes
  pub order : ℕ
  pub parts : List Bytes
  pub bracket : ℕ
  pub is_index : Bool

abbrev pub new_accu : Accu
new_accu = record {
  head_is_generated = false;
  accu = [];
  order = no_order;
  parts = [];
  bracket = 0;
  is_index = false;
}

-- `accu_t::erase`, which keeps `is_index`.
abbrev pub erase_accu : Accu → Accu
erase_accu a = record new_accu { is_index = a.is_index }

-- `current_bracket_`; the back of `accus` is the head of the list.
unfoldable pub current_bracket_ : List Accu → ℕ
current_bracket_ [] = 0
current_bracket_ (a ∷ as') = a.bracket

unfoldable pub current_bracket_deep : List Accu → ℕ
current_bracket_deep [] = 0
current_bracket_deep (a ∷ as') =
    let rest = current_bracket_deep as' in if nonzero a.bracket then a.bracket else rest

-- The operators behind which a space is a product: frac, prod, minus, plus, equals, unequals, arrow
-- and comma.
unfoldable pub default_is_product_ : Accu → List Accu → Bool
default_is_product_ cur accus =
    let o = cur.order in
    let n = current_bracket_deep accus in
    (o == 3 || o == 2 || o == 13 || o == 16 || o == 5 || o == 6 || o == 8 || o == 9)
    || (n == 2 || n == 3 || n == 0 || (n == 1 && not cur.is_index))
