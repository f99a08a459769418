-- ===== src/Parser/Tests.antt =====
-- Runs of the parser on small texts, and the theorems there.
use cadabra.Base.{ℕ, true, [], ◌∷◌, ◌≡◌, refl, codes}
use cadabra.Base.{Bytes}
use Prim.Native.String.{String}
use cadabra.Tree.{Forest, nil, node}
use cadabra.Storage.{StrNode, ParentRel, b_none, b_curly, p_none, p_sub, p_super}
use cadabra.Storage.Multiplier.{whole}
use cadabra.Parser.State.{
  m_findchildren, m_name, State, inside, to_root, is_opening_bracket, is_closing_bracket, is_link,
}
use cadabra.Parser.Machine.{erased, returned, finalise, is_at_name}
use cadabra.Parser.Text.{print, is_symbol, is_plain, all_plain, some_plain}
use cadabra.Parser.Reach.{Reach, at}
use cadabra.Storage.Names.{isdigit}
use cadabra.Preprocess.Tokens.{
  is_opening_bracket_, is_infix_operator_, is_closing_bracket_, is_digits_, is_link_,
  default_is_product_, bracket_strings_, current_bracket_deep, is_already_bracketed_, is_bracket_,
}
use cadabra.Preprocess.Unwind.{
  unwind_, reaches, level_text, add_text, argument_brackets, bracketed_parts, spaced_parts,
  unwind_loop,
}
use cadabra.Preprocess.Scan.{get_token_, join_all, read_character, read_dots, scan, take_character}
use cadabra.Preprocess.Run.{
  read_token, read_other, read_operator, same_level, push_level, text_of, parse_, parse_lines,
  lines_of, done, parse_loop, read_closing, read_opening, strip_outer_brackets, unwind_all,
  unwind_level, preprocess,
}
use cadabra.Parser.Input.{is_skipped, string2tree}
use cadabra.Parser.Machine.{exception}
use cadabra.Parser.RoundTrip.{string2tree-print}
use cadabra.Parser.BareLink.{sub, super, string2tree-bare_character, string2tree-bare_backslash}

abbrev plain : String → ParentRel → StrNode ℕ
plain n p = record { name = codes n; multiplier = 1; bracket = b_none; parent_rel = p }

-- \prod{A_{m}^{n}}\{b\}.
abbrev head : StrNode ℕ
head = plain "\\prod" p_none

abbrev kids : Forest (StrNode ℕ)
kids =
    node (plain "A" p_none) (node (plain "m" p_sub) nil (node (plain "n" p_super) nil nil))
      (node (record (plain "b" p_none) { bracket = b_curly }) nil nil)

print_run : print whole head kids ≡ codes "\\prod{A_{m}^{n}}\\{b\\}"
unfolding print
print_run = refl

-- The preprocessor makes \\sum{A_{m}}{\\prod{b}{c}} of it.
abbrev text : Bytes
text = codes "A_{m}+b c"

abbrev sum : StrNode ℕ
sum = plain "\\sum" p_none

abbrev terms : Forest (StrNode ℕ)
terms = node (plain "A" p_none) (node (plain "m" p_sub) nil nil) (
    node (plain "\\prod" p_none) (node (plain "b" p_none) nil (node (plain "c" p_none) nil nil))
      nil)

text_preprocessed : preprocess 40 text ≡ done (print whole sum terms)
unfolding print is_opening_bracket_ is_infix_operator_ is_closing_bracket_ is_digits_ is_link_
    default_is_product_ bracket_strings_ current_bracket_deep is_already_bracketed_ is_bracket_
    unwind_ reaches level_text add_text argument_brackets bracketed_parts spaced_parts unwind_loop
    read_token read_other read_operator same_level push_level text_of parse_ parse_loop read_closing
    read_opening strip_outer_brackets unwind_all unwind_level preprocess get_token_ join_all
    read_character read_dots scan take_character isdigit lines_of parse_lines
text_preprocessed = refl

string2tree-print_example :
    (fuel : ℕ) × (t : State ℕ) × (string2tree whole 40 fuel text (erased whole) ≡ returned true t)
    × (finalise whole (to_root t.place) ≡ node sum terms nil)
unfolding is_symbol is_plain all_plain some_plain is_at_name is_opening_bracket is_closing_bracket
    is_link is_skipped
string2tree-print_example =
    string2tree-print whole 40 text sum terms refl text_preprocessed (refl, refl, refl, refl) refl
      refl
      (
        (refl, refl, refl, refl),
        (
          ((refl, refl, refl, refl), (tt, tt)),
          (
            (refl, refl, refl, refl),
            (((refl, refl, refl, refl), (tt, ((refl, refl, refl, refl), (tt, tt)))), tt),
          ),
        ),
      )

-- A comment is skipped, and a bracket closed by another one makes the preprocessor throw.
string2tree_comment :
    string2tree whole 0 0 (codes "# a") (erased whole) ≡ returned true (erased whole)
unfolding string2tree is_skipped
string2tree_comment = refl

string2tree_mismatch : string2tree whole 40 40 (codes "(a]") (erased whole) ≡ exception
unfolding string2tree is_skipped is_opening_bracket_ is_infix_operator_ is_closing_bracket_
    is_digits_ is_link_ default_is_product_ bracket_strings_ current_bracket_deep
    is_already_bracketed_ is_bracket_ unwind_ reaches level_text add_text argument_brackets
    bracketed_parts spaced_parts unwind_loop read_token read_other read_operator same_level
    push_level text_of parse_ parse_loop read_closing read_opening strip_outer_brackets unwind_all
    unwind_level preprocess get_token_ join_all read_character read_dots scan take_character isdigit
    lines_of parse_lines
string2tree_mismatch = refl

string2tree-bare_character_example :
    Reach whole
      (at whole
        (codes "_m B")
        []
        (m_findchildren ∷ m_name ∷ [])
        (b_none ∷ [])
        (p_none ∷ [])
        (inside (record { head = plain "A" p_none; children = nil }) []))
      (at whole
        (codes " B")
        []
        (m_findchildren ∷ m_name ∷ [])
        (b_none ∷ [])
        (p_none ∷ [])
        (inside (record { head = plain "A" p_none; children = node (plain "m" p_sub) nil nil }) []))
unfolding is_plain is_opening_bracket is_closing_bracket is_link
string2tree-bare_character_example =
    string2tree-bare_character whole (m_name ∷ []) (b_none ∷ []) (p_none ∷ []) sub b'm' (codes " B")
      (record { head = plain "A" p_none; children = nil }) [] refl

string2tree-bare_backslash_example :
    Reach whole
      (at whole
        (codes "^\\mu B")
        []
        (m_findchildren ∷ m_name ∷ [])
        (b_none ∷ [])
        (p_none ∷ [])
        (inside (record { head = plain "A" p_none; children = nil }) []))
      (at whole
        (codes " B")
        []
        (m_findchildren ∷ m_name ∷ [])
        (b_none ∷ b_none ∷ [])
        (p_super ∷ p_none ∷ [])
        (inside
          (record { head = plain "A" p_none; children = node (plain "\\mu" p_super) nil nil })
          []))
unfolding is_plain all_plain is_opening_bracket is_closing_bracket is_link
string2tree-bare_backslash_example =
    string2tree-bare_backslash whole (m_name ∷ []) (b_none ∷ []) (p_none ∷ []) super b'm'
      (codes "u") (codes "B") (record { head = plain "A" p_none; children = nil }) [] refl refl
