-- ===== src/Preprocess/Tests.antt =====
-- Runs of the preprocessor, and the theorems there.
use cadabra.Base.{Bytes, none, ◌⊎◌, [], ◌∷◌, ◌≡◌, refl, arith, codes}
use cadabra.Storage.Names.{isdigit}
use cadabra.Preprocess.Tokens.{
  Accu, new_accu, is_opening_bracket_, is_infix_operator_, is_closing_bracket_, is_digits_,
  is_link_, default_is_product_, bracket_strings_, current_bracket_deep, is_already_bracketed_,
  is_bracket_,
}
use cadabra.Preprocess.Unwind.{
  unwind_, reaches, level_text, add_text, argument_brackets, bracketed_parts, spaced_parts,
  unwind_loop,
}
use cadabra.Preprocess.Scan.{
  Pre, get_token_, join_all, read_character, read_dots, scan, take_character,
}
use cadabra.Preprocess.Run.{
  preprocessor, read_token, read_other, read_operator, same_level, push_level, text_of, parse_,
  lines_of, done, exception, parse_loop, read_closing, read_opening, strip_outer_brackets,
  unwind_all, unwind_level, preprocess,
}
use cadabra.Preprocess.Brackets.{read_closing-mismatch, unwind_all-fuel}

-- The states behind "(" and behind "(a b": the second has a level that the product opened.
abbrev round : Accu
round = record new_accu { bracket = 2 }

abbrev product : Accu
product = record new_accu { order = 6; parts = codes "a" ∷ [] }

abbrev inside_round : Pre
inside_round = record preprocessor {
  cur = record new_accu { accu = codes "c"; order = 3; parts = codes "b" ∷ [] };
  accus = product ∷ round ∷ [];
}

preprocess_run : preprocess 40 (codes "a+b c") ≡ done (codes "\\sum{a}{\\prod{b}{c}}")
unfolding is_opening_bracket_ is_infix_operator_ is_closing_bracket_ is_digits_ is_link_
    default_is_product_ bracket_strings_ current_bracket_deep is_already_bracketed_ is_bracket_
    unwind_ reaches level_text add_text argument_brackets bracketed_parts spaced_parts unwind_loop
    read_token read_other read_operator same_level push_level text_of parse_ parse_loop read_closing
    read_opening strip_outer_brackets unwind_all unwind_level preprocess get_token_ join_all
    read_character read_dots scan take_character isdigit
preprocess_run = refl

lines_of_run : lines_of (codes "a\n\nb\n") ≡ codes "a" ∷ [] ∷ codes "b" ∷ []
unfolding lines_of
lines_of_run = refl

read_closing-mismatch_example : read_closing 3 inside_round ≡ none
read_closing-mismatch_example =
    read_closing-mismatch 3 round [] (omega arith) (omega arith) (λ e. absurd (omega (arith, e)))
      (product ∷ []) inside_round ((refl, omega arith), tt) refl

unwind_all-fuel_example :
    (unwind_all 5 inside_round.cur inside_round.accus
      ≡ unwind_all 2 inside_round.cur inside_round.accus)
    × (((text : Bytes) × (unwind_all 5 inside_round.cur inside_round.accus ≡ done text))
        ⊎ (unwind_all 5 inside_round.cur inside_round.accus ≡ exception))
unwind_all-fuel_example = unwind_all-fuel 5 inside_round.cur inside_round.accus (omega arith)
