-- ===== src/Parser/Input.antt =====
-- core/Parser.cc: `string2tree` from its input to an expression, through the preprocessor, and what
-- `operator>>` does to a line before.
use cadabra.Base.{
  ℕ, Bool, true, not, ◌&&◌, ◌||◌, ◌-◌, ◌==◌, if◌then◌else◌, Bytes, length, get_or, take,
}
use cadabra.Storage.Multiplier.{Rational}
use cadabra.Parser.State.{State}
use cadabra.Parser.Machine.{read_preprocessed, returned, out_of_fuel, exception, Outcome}
use cadabra.Preprocess.Run.{Ending, done, no_end, preprocess}

-- A line without text, or a comment.
unfoldable pub is_skipped : Bytes → Bool
is_skipped inp = length inp == 0 || get_or inp 0 0 == b'#' || get_or inp 0 0 == b'%'

-- `operator>>` takes a full stop off the end of a line.
unfoldable pub strip_stop : Bytes → Bytes
strip_stop inp =
    let n = length inp - 1 in
    if not (length inp == 0) && get_or inp n 0 == b'.' then take n inp else inp

-- `string2tree`, with fuel for each line in the preprocessor, and for the loop of the parser.
unfoldable pub string2tree : (m : Rational) → ℕ → ℕ → Bytes → State m.Q → Outcome m.Q
unfolding is_skipped
string2tree m lines_fuel fuel inp s =
    if is_skipped inp then returned true s else (elim (preprocess lines_fuel inp) [
      | done pre ↦ read_preprocessed m fuel pre s
      | Ending.exception ↦ exception
      | no_end ↦ out_of_fuel
    ])
