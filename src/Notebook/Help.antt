-- ===== src/Notebook/Help.antt =====
-- client_server/DocumentThread.cc: `help_type_and_topic`, which finds the word at the cursor.
use cadabra.Base.{
  ℕ, zero, suc, ◌-◌, ◌<◌, ◌≤◌, Bool, true, false, not, ◌&&◌, ◌||◌, [], ◌∷◌, ◌++◌, ltb, leb, ◌==◌,
  if◌then◌else◌, Bytes, length, take, drop, ◌≡◌, ◌≢◌, ◌⊎◌, refl, ap, arith, inl, inr, Bool-cases,
}
use cadabra.Storage.Names.{byte_at, every}

pub data HelpType : Type 0 where
  algorithm property latex no_help : HelpType

-- In the C locale.
unfoldable pub isalnum : ℕ → Bool
isalnum c = (leb b'0' c && leb c b'9') || (leb b'A' c && leb c b'Z') || (leb b'a' c && leb c b'z')

-- What a name may consist of, to the left of the cursor.
unfoldable pub is_word : ℕ → Bool
is_word c = isalnum c || c == b'_'

-- The kind that a delimiter at position `n` of the text gives.
unfoldable pub kind_at : Bytes → ℕ → HelpType
kind_at before n =
    let c = byte_at before n in
    if c == b':' && ltb 0 n && byte_at before (n - 1) == b':'
    then property
    else if c == b'\\'
    then latex
    else algorithm

-- The loop to the left, with `lpos + 1`: the kind, and where the word starts.
unfoldable pub scan_left : Bytes → ℕ → HelpType × ℕ
scan_left before zero = (algorithm, 0)
scan_left before (suc n) =
    let rest = scan_left before n in
    if is_word (byte_at before n) then rest else (kind_at before n, suc n)

-- Whether the loop to the right stops at this byte.
unfoldable pub stops : HelpType → ℕ → Bool
stops property c = not (isalnum c)
stops algorithm c = c == b'('
stops latex c = not (isalnum c) && not (c == b'_')
stops no_help c = false

unfoldable pub scan_right : HelpType → Bytes → ℕ
scan_right t [] = 0
scan_right t (c ∷ r) = let rest = scan_right t r in if stops t c then 0 else suc rest

-- With the topic from before, which stays where there is no text.
unfoldable pub help_type_and_topic : Bytes → Bytes → Bytes → HelpType × Bytes
help_type_and_topic before after help_topic =
    let left = scan_left before (length before) in
    let rpos = scan_right left.0 after in
    if length before == 0 && length after == 0
    then (algorithm, help_topic)
    else (left.0, drop left.1 before ++ take rpos after)

drop_at : (s : Bytes) (n : ℕ) → n < length s → drop n s ≡ byte_at s n ∷ drop (suc n) s
drop_at [] n h = absurd (omega arith)
drop_at (c ∷ s) zero h = refl
drop_at (c ∷ s) (suc n) h = drop_at s n (omega arith)

drop_all : (s : Bytes) → drop (length s) s ≡ []
drop_all [] = refl
drop_all (c ∷ s) = drop_all s

-- The word to the left of the cursor: it lies in the text, and cannot be longer.
abbrev pub LeftWord : Bytes → ℕ → Type 0
LeftWord before l =
    (l ≤ length before)
    × (every is_word (drop l before) ≡ true)
    × ((l ≡ 0) ⊎ (is_word (byte_at before (l - 1)) ≡ false))

-- The part to the right of the cursor: it lies in the text, and goes up to the first stop.
abbrev pub RightPart : HelpType → Bytes → ℕ → Type 0
RightPart t after r =
    (r ≤ length after)
    × (every (λ c. not (stops t c)) (take r after) ≡ true)
    × ((r ≡ length after) ⊎ (stops t (byte_at after r) ≡ true))

scan_left-LeftWord :
    (before : Bytes) (n : ℕ)
    → n ≤ length before
    → every is_word (drop n before) ≡ true
    → LeftWord before (scan_left before n).1
unfolding scan_left
scan_left-LeftWord before zero h w = (omega arith, w, inl refl)
scan_left-LeftWord before (suc n) h w = elim (Bool-cases (is_word (byte_at before n))) [
  | inr e ↦
      let p : suc n - 1 ≡ n = omega arith in
      let e' : is_word (byte_at before (suc n - 1)) ≡ false = rw p e in rw e (h, w, inr e')
  | inl e ↦ rw e (scan_left-LeftWord before n (omega arith) (rw (drop_at before n h, e) w))
]

scan_right-RightPart : (t : HelpType) (after : Bytes) → RightPart t after (scan_right t after)
unfolding scan_right
scan_right-RightPart t [] = (omega arith, refl, inl refl)
scan_right-RightPart t (c ∷ r) =
    let (bound, all, end) = scan_right-RightPart t r in
    elim (Bool-cases (stops t c)) [
      | inl e ↦ rw e (omega arith, refl, inr e)
      | inr e ↦ rw e (
        omega (arith, bound),
        rw (e, all) refl,
        elim end [ inl q ↦ inl (ap suc q) | inr q ↦ inr q ],
      )
    ]

-- Where there is text on either side of the cursor, the topic is the longest word to the left of the
-- cursor, which lies in the text, and what is on the right up to the first byte that ends a topic of
-- the kind that was found, or up to the end of the text.
pub help_type_and_topic-LeftWord :
    (before after help_topic : Bytes)
    → (length before ≢ 0) ⊎ (length after ≢ 0)
    → (l r : ℕ) × ((help_type_and_topic before after help_topic).1 ≡ drop l before ++ take r after)
      × LeftWord before l
      × RightPart (help_type_and_topic before after help_topic).0 after r
unfolding help_type_and_topic
help_type_and_topic-LeftWord before after help_topic some_text =
    let left = scan_left before (length before) in
    let start : every is_word (drop (length before) before) ≡ true = rw (drop_all before) in
    let none_empty : (length before == 0 && length after == 0) ≡ false =
      ground (arith, some_text) in
    (
      left.1,
      scan_right left.0 after,
      rw none_empty,
      scan_left-LeftWord before (length before) (omega arith) start,
      rw none_empty (scan_right-RightPart left.0 after),
    )
