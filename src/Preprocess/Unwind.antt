-- ===== src/Preprocess/Unwind.antt =====
-- core/PreProcessor.cc: `unwind_`, which closes levels of the stack.
use cadabra.Base.{
  ℕ, Bool, true, false, not, ◌&&◌, ◌||◌, List, [], ◌∷◌, ◌++◌, Option, none, some, ◌==◌, ltb, leb,
  if◌then◌else◌, Bytes, codes, length, get_or,
}
use cadabra.Base.Options.{◌>>=◌}
use cadabra.Preprocess.Tokens.{
  Accu, erase_accu, no_order, order_factorial, order_names, nth_name, nonzero, is_opening_bracket_,
  is_already_bracketed_, bracket_strings_,
}

abbrev pub first_byte : Bytes → ℕ
first_byte s = get_or s 0 0

-- The arguments of a function, in their brackets.
unfoldable pub bracketed_parts : Bytes → Bytes → List Bytes → Bytes
bracketed_parts o c [] = []
bracketed_parts o c (p ∷ ps) =
    let rest = bracketed_parts o c ps in
    if length p == 0
    then rest
    else if is_already_bracketed_ p && (first_byte p == first_byte o || first_byte o == b'{')
    then p ++ rest
    else o ++ (p ++ (c ++ rest))

-- Parts with spaces between them.
unfoldable pub spaced_parts : List Bytes → Bytes
spaced_parts [] = []
spaced_parts (p ∷ []) = p
spaced_parts (p ∷ q ∷ ps) = p ++ b' ' ∷ spaced_parts (q ∷ ps)

-- The text of a level with these parts, and whether it got a head: `cb` is the bracket around it.
unfoldable pub level_text : ℕ → ℕ → ℕ → List Bytes → Bytes × Bytes → Option (Bool × Bytes)
level_text onum order cb parts (o, c) =
    let (o1, c1) = bracket_strings_ cb in
    if ltb 1 (length parts) || order == order_factorial
    then (if ltb order no_order
        then (do name ← nth_name order_names order; some (true, name ++ bracketed_parts o c parts))
        else some (false, o ++ (spaced_parts parts ++ c)))
    else (elim parts [
      | [] ↦ some (false, [])
      | p ∷ _ ↦ some (
        false,
        if not (onum == no_order)
              || (is_already_bracketed_ p
                  && (first_byte p == first_byte o1 || first_byte o1 == b'{'))
            then p
            else o1 ++ (p ++ c1),
      )
    ])

-- The text of a level is added to what stands at the level below.
unfoldable pub add_text : ℕ → Bytes → Accu → Accu
add_text cb tmp a =
    let (o, c) = bracket_strings_ cb in
    if not (length a.accu == 0)
      && (not (length tmp == 0)
          && (not (nonzero (is_opening_bracket_ (first_byte tmp)))
              && (not (first_byte tmp == b'\\' && nonzero (is_opening_bracket_ (get_or tmp 1 0)))
                  && (not (is_already_bracketed_ tmp) || not (first_byte tmp == first_byte o)))))
    then record a { accu = a.accu ++ (o ++ (tmp ++ c)) }
    else record a { accu = a.accu ++ tmp }

-- The state behind a turn of the loop.
pub record Unwound : Type 0 where
  pub reached : Bool
  pub generated : Bool
  pub cur : Accu
  pub accus : List Accu

-- `bracket_reached`, or the exception for a wrong bracket.
unfoldable pub reaches : ℕ → ℕ → ℕ → Option Bool
reaches onum goal cb =
    if onum == no_order && nonzero goal
    then (if cb == 0 then some false else if cb == goal then some true else none)
    else some (nonzero cb)

-- The brackets around arguments.
unfoldable pub argument_brackets : ℕ → Bool → ℕ → Bool → List Accu → Bytes × Bytes
argument_brackets onum usebracket cb reached accus =
    let below : Bool = elim accus [ [] ↦ false | a ∷ _ ↦ not (length a.accu == 0) ] in
    if cb == 0 || not usebracket || (onum == no_order && reached && below)
    then (codes "{", codes "}")
    else bracket_strings_ cb

-- The loop of `unwind_`, along the stack.
unfoldable pub unwind_loop : ℕ → ℕ → Bool → Accu → List Accu → Option Unwound
unwind_loop onum goal usebracket cur [] = do
  reached ← reaches onum goal 0
  let parts = if length cur.accu == 0 then cur.parts else cur.parts ++ cur.accu ∷ []
  let brackets = argument_brackets onum usebracket 0 reached []
  (generated, tmp) ← level_text onum cur.order 0 parts brackets
  some (record {
    reached = reached;
    generated = generated;
    cur = record (erase_accu cur) { order = onum; accu = tmp };
    accus = [];
  })
unwind_loop onum goal usebracket cur (a ∷ accus) = do
  let cb = a.bracket
  reached ← reaches onum goal cb
  let parts = if length cur.accu == 0 then cur.parts else cur.parts ++ cur.accu ∷ []
  let brackets = argument_brackets onum usebracket cb reached (a ∷ accus)
  (generated, tmp) ← level_text onum cur.order cb parts brackets
  if not (onum == no_order) && reached
      then some (record {
        reached = reached;
        generated = generated;
        cur = record cur { accu = tmp; parts = [] };
        accus = a ∷ accus;
      })
      else (let next = add_text cb tmp a in
          let generated' = generated && length a.accu == 0 in
          let further = unwind_loop onum goal usebracket next accus in
          if ltb a.order onum && not reached
          then further
          else some
              (record { reached = reached; generated = generated'; cur = next; accus = accus }))

-- What follows the loop.
unfoldable pub unwind_ : ℕ → ℕ → Bool → Accu → List Accu → Option Unwound
unfolding unwind_loop
unwind_ onum goal usebracket cur accus = do
  u ← unwind_loop onum goal usebracket cur accus
  let c = record (u.cur) { head_is_generated = false }
  let kept =
      if not (onum == no_order) && not (length c.accu == 0) && leb c.order onum && not u.reached
      then record c { parts = c.parts ++ c.accu ∷ []; accu = [] }
      else c
  let final =
      if u.generated && not (length kept.accu == 0)
      then record kept { head_is_generated = true }
      else kept
  some (record u { cur = final })
