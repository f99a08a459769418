-- ===== src/Parser/Text.antt =====
-- The canonical prefix form of an expression, which `string2tree` in core/Parser.cc reads: the name of
-- a node, and behind it each child in its own bracket, with the link in front that says how the child
-- belongs to its parent.
use cadabra.Base.{
  ℕ, ◌<◌, length, Bool, true, false, not, ◌&&◌, [], ◌∷◌, ◌++◌, ◌≡◌, refl, leb, ◌==◌, if◌then◌else◌,
  Bytes, arith, Bool-cases, ==_iff, inl, inr, ◌⊎◌, sym, ap, ◌∙◌, append_assoc,
}
use cadabra.Tree.{Forest, nil, node}
use cadabra.Storage.{
  Bracket, b_square, b_curly, b_none, b_no, ParentRel, p_sub, p_super, p_none, p_property,
  p_exponent, p_components, StrNode, str_node,
}
use cadabra.Storage.Multiplier.{Rational}
use cadabra.Parser.State.{
  is_closing_bracket, is_opening_bracket, is_link, is_some_bracket, is_some_link, get_token,
  advance,
}
use cadabra.Parser.Machine.{is_blank, is_arithmetic, is_at_name}

abbrev pub open_text : Bracket → Bytes
open_text b_square = b'[' ∷ []
open_text b_curly = b'\\' ∷ b'{' ∷ []
open_text _ = b'{' ∷ []

abbrev pub close_text : Bracket → Bytes
close_text b_square = b']' ∷ []
close_text b_curly = b'\\' ∷ b'}' ∷ []
close_text _ = b'}' ∷ []

abbrev pub link_text : ParentRel → Bytes
link_text p_sub = b'_' ∷ []
link_text p_super = b'^' ∷ []
link_text p_property = b'$' ∷ []
link_text p_exponent = b'&' ∷ []
link_text _ = []

-- A character of a name that means nothing else to the parser, and is a character of its own.
unfoldable pub is_plain : ℕ → Bool
is_plain c =
    not (c == b'\\')
    && (not (is_some_bracket (is_opening_bracket c))
        && (not (is_some_link (is_link c))
            && (not (is_some_bracket (is_closing_bracket c))
                && (not (is_arithmetic c)
                    && (not (is_blank c) && (not (c == b'"') && leb c 128))))))

unfoldable pub all_plain : Bytes → Bool
all_plain [] = true
all_plain (c ∷ cs) = is_plain c && all_plain cs

unfoldable pub some_plain : Bytes → Bool
some_plain [] = false
some_plain (c ∷ cs) = is_plain c && all_plain cs

-- A name: plain characters, perhaps behind one backslash, that do not start with @ or \@.
unfoldable pub is_symbol : Bytes → Bool
is_symbol [] = false
is_symbol (c ∷ cs) =
    not (is_at_name (c ∷ cs)) && (if c == b'\\' then some_plain cs else is_plain c && all_plain cs)

-- The brackets that can be written: `get_token` does not know the pointy ones.
abbrev pub has_bracket : Bracket → Bool
has_bracket b_square = true
has_bracket b_curly = true
has_bracket b_none = true
has_bracket _ = false

abbrev pub has_link : ParentRel → Bool
has_link p_components = false
has_link _ = true

module _ (m : Rational) where
  open m use {Q}

  -- The parser makes nodes with a multiplier of one.
  abbrev pub IsPlainNode : StrNode Q → Type 0
  IsPlainNode s =
      (is_symbol s.name ≡ true)
      × (has_bracket s.bracket ≡ true)
      × (has_link s.parent_rel ≡ true)
      × (str_node m s.name s.bracket s.parent_rel ≡ s)

  abbrev pub IsPlain : Forest (StrNode Q) → Type 0
  IsPlain nil = Unit
  IsPlain (node s c r) = IsPlainNode s × (IsPlain c × IsPlain r)

  -- The children of a node, in their brackets, in front of a text.
  abbrev pub groups : Forest (StrNode Q) → Bytes → Bytes
  groups nil text = text
  groups (node s c r) text =
      link_text s.parent_rel
      ++ (open_text s.bracket ++ (s.name ++ groups c (close_text s.bracket ++ groups r text)))

  -- The canonical form of the node with its children.
  unfoldable pub print : StrNode Q → Forest (StrNode Q) → Bytes
  print s c = s.name ++ groups c []

  pub groups-append : (f : Forest (StrNode Q)) (a b : Bytes) → groups f (a ++ b) ≡ groups f a ++ b
  groups-append nil a b = refl
  groups-append (node s c r) a b =
      let e = groups-append r a b in
      let inner : groups c (close_text s.bracket ++ groups r (a ++ b))
          ≡ groups c (close_text s.bracket ++ groups r a) ++ b =
        ap (λ (t : Bytes). groups c (close_text s.bracket ++ t)) e
        ∙ ap (groups c) (sym (append_assoc (close_text s.bracket) (groups r a) b))
        ∙ groups-append c (close_text s.bracket ++ groups r a) b in
      let x = groups c (close_text s.bracket ++ groups r a) in
      ap (λ (t : Bytes). link_text s.parent_rel ++ (open_text s.bracket ++ (s.name ++ t))) inner
      ∙ ap (λ (t : Bytes). link_text s.parent_rel ++ (open_text s.bracket ++ t))
          (sym (append_assoc s.name x b))
      ∙ ap (λ (t : Bytes). link_text s.parent_rel ++ t)
          (sym (append_assoc (open_text s.bracket) (s.name ++ x) b))
      ∙ sym (append_assoc (link_text s.parent_rel) (open_text s.bracket ++ (s.name ++ x)) b)

module _ (r : Bytes) where
  pub get_token-open_text :
      (b : Bracket)
      → has_bracket b ≡ true
      → (is_opening_bracket (get_token (open_text b ++ r)) ≡ b)
        × (is_link (get_token (open_text b ++ r)) ≡ p_none)
        × (advance (open_text b ++ r) ≡ r)
        × (is_some_bracket b ≡ true)
        × (0 < length (open_text b ++ r))
  unfolding get_token is_opening_bracket is_closing_bracket is_link advance
  get_token-open_text b_square h = (refl, refl, refl, refl, omega arith)
  get_token-open_text b_curly h = (refl, refl, refl, refl, omega arith)
  get_token-open_text b_none h = (refl, refl, refl, refl, omega arith)
  get_token-open_text _ h = absurd (cc)

  pub get_token-close_text :
      (b : Bracket)
      → has_bracket b ≡ true
      → (is_opening_bracket (get_token (close_text b ++ r)) ≡ b_no)
        × (is_link (get_token (close_text b ++ r)) ≡ p_none)
        × (advance (close_text b ++ r) ≡ r)
        × (is_some_bracket (is_closing_bracket (get_token (close_text b ++ r))) ≡ true)
        × (is_blank (get_token (close_text b ++ r)) ≡ false)
        × (0 < length (close_text b ++ r))
  unfolding get_token is_opening_bracket is_closing_bracket is_link advance
  get_token-close_text b_square h = (refl, refl, refl, refl, refl, omega arith)
  get_token-close_text b_curly h = (refl, refl, refl, refl, refl, omega arith)
  get_token-close_text b_none h = (refl, refl, refl, refl, refl, omega arith)
  get_token-close_text _ h = absurd (cc)

pub is_plain-facts :
    (c : ℕ)
    → is_plain c ≡ true
    → (c == b'\\' ≡ false)
      × (is_some_bracket (is_opening_bracket c) ≡ false)
      × (is_some_link (is_link c) ≡ false)
      × (is_some_bracket (is_closing_bracket c) ≡ false)
      × (is_arithmetic c ≡ false)
      × (is_blank c ≡ false)
      × (c == b'"' ≡ false)
      × (leb c 128 ≡ true)
unfolding is_plain
is_plain-facts c h = ground arith

-- The two kinds of names.
pub is_symbol-cases :
    (name : Bytes)
    → is_symbol name ≡ true
    → ((c : ℕ) × (cs : Bytes) × (name ≡ c ∷ cs) × (is_plain c ≡ true) × (all_plain cs ≡ true))
      ⊎ ((d : ℕ) × (ds : Bytes) × (name ≡ b'\\' ∷ d ∷ ds)
          × (is_plain d ≡ true)
          × (all_plain ds ≡ true))
unfolding is_symbol some_plain all_plain
is_symbol-cases [] h = absurd (cc)
is_symbol-cases (c ∷ []) h = elim (Bool-cases (c == b'\\')) [
  | inl e ↦ absurd (ground arith)
  | inr e ↦ inl (c, [], refl, ground arith, refl)
]
is_symbol-cases (c ∷ d ∷ ds) h = elim (Bool-cases (c == b'\\')) [
  | inl e ↦
      let is_backslash : c ≡ b'\\' = (==_iff c b'\\').0 e in
      inr (d, ds, ap (λ (x : ℕ). x ∷ d ∷ ds) is_backslash, ground arith, ground arith)
  | inr e ↦ inl (c, d ∷ ds, refl, ground arith, ground arith)
]

pub is_symbol-not_at : (name : Bytes) → is_symbol name ≡ true → is_at_name name ≡ false
unfolding is_symbol
is_symbol-not_at [] h = absurd (cc)
is_symbol-not_at (c ∷ cs) h = ground arith

pub is_symbol-length : (name : Bytes) → is_symbol name ≡ true → length name == 0 ≡ false
unfolding is_symbol
is_symbol-length [] h = absurd (cc)
is_symbol-length (c ∷ cs) h = ground arith
