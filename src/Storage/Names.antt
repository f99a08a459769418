-- ===== src/Storage/Names.antt =====
-- core/Storage.cc: what the name of a node says about it, and the part of a name without its marks.
use cadabra.Base.{
  ℕ, zero, suc, ◌-◌, ◌<◌, Bool, true, false, not, ◌&&◌, ◌||◌, [], ◌∷◌, ◌++◌, ◌≡◌, ◌≢◌, refl, ap,
  arith, append_assoc, ltb, leb, ◌==◌, if◌then◌else◌, Bytes, length, get_or, take, length-append,
}

-- `name[i]`; at `name.size()` a std::string has a zero.
abbrev pub byte_at : Bytes → ℕ → ℕ
byte_at s i = get_or s i 0

-- `name[name.size()-1-k]`.
abbrev pub from_end : Bytes → ℕ → ℕ
from_end s k = byte_at s (length s - suc k)

unfoldable pub isdigit : ℕ → Bool
isdigit c = leb b'0' c && leb c b'9'

-- Every byte satisfies the test.
abbrev pub every : (ℕ → Bool) → Bytes → Bool
every p [] = true
every p (c ∷ cs) = p c && every p cs

-- The position of the first byte that satisfies the test, or the length.
abbrev pub find_if : (ℕ → Bool) → Bytes → ℕ
find_if p [] = 0
find_if p (c ∷ cs) = if p c then 0 else suc (find_if p cs)

unfoldable pub is_unsimplified_rational : Bytes → Bool
unfolding isdigit
is_unsimplified_rational s = ltb 0 (length s) && every (λ c. isdigit c || c == b'/' || c == b'-') s

unfoldable pub is_unsimplified_integer : Bytes → Bool
unfolding isdigit
is_unsimplified_integer s = ltb 0 (length s) && every (λ c. isdigit c || c == b'-') s

unfoldable pub is_quoted_string : Bytes → Bool
is_quoted_string s =
    if ltb (length s) 2
    then false
    else if not (byte_at s 0 == b'"')
    then false
    else if not (from_end s 0 == b'"')
    then false
    else true

unfoldable pub is_command : Bytes → Bool
is_command s =
    ltb 0 (length s)
    && byte_at s 0 == b'@'
    && (if ltb 1 (length s) then not (byte_at s 1 == b'@') else true)

unfoldable pub is_inert_command : Bytes → Bool
is_inert_command s = ltb 1 (length s) && byte_at s 0 == b'@' && byte_at s 1 == b'@'

unfoldable pub is_name_wildcard : Bytes → Bool
is_name_wildcard s =
    ltb 0 (length s)
    && from_end s 0 == b'?'
    && (if ltb 1 (length s) then not (from_end s 1 == b'?') else true)

unfoldable pub is_object_wildcard : Bytes → Bool
is_object_wildcard s = ltb 1 (length s) && from_end s 0 == b'?' && from_end s 1 == b'?'

unfoldable pub is_range_wildcard : Bytes → Bool
is_range_wildcard s = ltb 0 (length s) && byte_at s 0 == b'#'

unfoldable pub is_siblings_wildcard : Bytes → Bool
is_siblings_wildcard s = ltb 0 (length s) && from_end s 0 == b'@'

unfoldable pub is_autodeclare_wildcard : Bytes → Bool
is_autodeclare_wildcard s = ltb 0 (length s) && from_end s 0 == b'#'

unfoldable pub is_indexstar_wildcard : Bytes → Bool
is_indexstar_wildcard s = ltb 1 (length s) && from_end s 0 == b'?' && from_end s 1 == b'*'

unfoldable pub is_indexplus_wildcard : Bytes → Bool
is_indexplus_wildcard s = ltb 1 (length s) && from_end s 0 == b'?' && from_end s 1 == b'+'

unfoldable pub is_numbered_symbol : Bytes → Bool
unfolding isdigit
is_numbered_symbol s = ltb 1 (length s) && isdigit (from_end s 0)

unfoldable pub name_only : Bytes → Bytes
unfolding isdigit
name_only s =
    if is_name_wildcard s
    then take (length s - 1) s
    else if is_object_wildcard s
    then take (length s - 2) s
    else if is_autodeclare_wildcard s
    then take (find_if (λ c. c == b'#') s) s
    else if is_numbered_symbol s
    then take (find_if isdigit s) s
    else s

length_snoc : (a : Bytes) (c : ℕ) → length (a ++ c ∷ []) ≡ suc (length a)
length_snoc a c = omega (arith, length-append a (c ∷ []))

get_or-append_at : (a r : Bytes) (c : ℕ) → get_or (a ++ c ∷ r) (length a) 0 ≡ c
get_or-append_at [] r c = refl
get_or-append_at (x ∷ a) r c = get_or-append_at a r c

get_or-append_left : (a r : Bytes) (i : ℕ) → i < length a → get_or (a ++ r) i 0 ≡ get_or a i 0
get_or-append_left [] r i h = elim h [ ]
get_or-append_left (x ∷ a) r zero h = refl
get_or-append_left (x ∷ a) r (suc i) h = get_or-append_left a r i (omega arith)

take-append_self : (a r : Bytes) → take (length a) (a ++ r) ≡ a
take-append_self [] r = refl
take-append_self (x ∷ a) r = ap (x ∷◌) (take-append_self a r)

from_end_snoc : (a : Bytes) (c : ℕ) → from_end (a ++ c ∷ []) 0 ≡ c
from_end_snoc a c =
    let e : length (a ++ c ∷ []) - 1 ≡ length a = omega (arith, length_snoc a c) in
    rw e (get_or-append_at a [] c)

from_end_snoc_suc : (a : Bytes) (c : ℕ) → a ≢ [] → from_end (a ++ c ∷ []) 1 ≡ from_end a 0
from_end_snoc_suc [] c h = absurd (h refl)
from_end_snoc_suc (x ∷ a) c h =
    let e : length (x ∷ (a ++ c ∷ [])) - 2 ≡ length (x ∷ a) - 1 = omega (arith, length_snoc a c) in
    rw e (get_or-append_left (x ∷ a) (c ∷ []) (length (x ∷ a) - 1) (omega arith))

-- A name that does not itself end in a question mark is what `name_only` gives for it with one
-- mark (a name wildcard).
pub name_only-name_wildcard : (n : Bytes) → from_end n 0 ≢ b'?' → name_only (n ++ b'?' ∷ []) ≡ n
unfolding name_only is_name_wildcard
name_only-name_wildcard [] h = refl
name_only-name_wildcard (x ∷ a) h =
    let ne : x ∷ a ≢ [] = λ e. cc in
    let two : length (x ∷ (a ++ b'?' ∷ [])) - 1 ≡ length (x ∷ a) =
      omega (arith, length_snoc a b'?') in
    let kept : take (length (x ∷ a)) (x ∷ (a ++ b'?' ∷ [])) ≡ x ∷ a =
      take-append_self (x ∷ a) (b'?' ∷ []) in
    ground (
      arith,
      length_snoc a b'?',
      from_end_snoc (x ∷ a) b'?',
      from_end_snoc_suc (x ∷ a) b'?' ne,
      two,
      kept,
    )

-- Every name is what `name_only` gives for it with two question marks (an object wildcard).
pub name_only-object_wildcard : (n : Bytes) → name_only ((n ++ b'?' ∷ []) ++ b'?' ∷ []) ≡ n
unfolding name_only is_name_wildcard is_object_wildcard
name_only-object_wildcard n =
    let m = n ++ b'?' ∷ [] in
    let ne : m ≢ [] = λ e. absurd (omega (arith, length_snoc n b'?', ap {B = ℕ} length e)) in
    let two : length (m ++ b'?' ∷ []) - 2 ≡ length n =
      omega (arith, length_snoc m b'?', length_snoc n b'?') in
    let kept : take (length n) (m ++ b'?' ∷ []) ≡ n =
      rw append_assoc (take-append_self n (b'?' ∷ b'?' ∷ [])) in
    ground (
      arith,
      length_snoc m b'?',
      length_snoc n b'?',
      from_end_snoc m b'?',
      from_end_snoc n b'?',
      from_end_snoc_suc m b'?' ne,
      two,
      kept,
    )
