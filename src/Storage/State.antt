-- ===== src/Storage/State.antt =====
-- core/Storage.cc: the result state of an expression, which algorithms report to.
use cadabra.Base.{Bool, true, false, ◌||◌, List, [], ◌∷◌, ◌≡◌, arith, if◌then◌else◌}

pub data ResultState : Type 0 where
  l_checkpointed l_no_action l_applied l_error : ResultState

-- `update_state`.
pub update_state : ResultState → ResultState → ResultState
update_state state l_error = l_error
update_state state l_applied = elim state [ l_error ↦ l_error | _ ↦ l_applied ]
update_state state _ = state

-- `reset_state`.
pub reset_state : ResultState → ResultState
reset_state state = l_checkpointed

-- `changed_state`: the answer, and the state behind it.
pub changed_state : ResultState → Bool × ResultState
changed_state l_checkpointed = (true, l_no_action)
changed_state l_applied = (true, l_no_action)
changed_state _ = (false, l_no_action)

-- The reports of several algorithms, in order.
abbrev pub update_all : ResultState → List ResultState → ResultState
update_all s [] = s
update_all s (u ∷ us) = update_all (update_state s u) us

abbrev is_error : ResultState → Bool
is_error l_error = true
is_error _ = false

abbrev is_applied : ResultState → Bool
is_applied l_applied = true
is_applied _ = false

abbrev pub any_error : List ResultState → Bool
any_error [] = false
any_error (u ∷ us) = is_error u || any_error us

abbrev pub any_applied : List ResultState → Bool
any_applied [] = false
any_applied (u ∷ us) = is_applied u || any_applied us

-- After any sequence of reports the state is an error if one was reported or there before;
-- otherwise it is applied if that was reported; otherwise it is what it was, also where no action was
-- reported.
pub update_all-outcome :
    (s : ResultState) (us : List ResultState)
    → update_all s us
      ≡ (if is_error s || any_error us then l_error else if any_applied us then l_applied else s)
unfolding update_state
update_all-outcome s [] = ground arith
update_all-outcome s (u ∷ us) = ground (arith, update_all-outcome (update_state s u) us)

-- After a reset and any reports, `changed_state` answers true exactly when none was an error, also
-- where no action was reported, and leaves the state at no action, after an error too, so that a second
-- query answers false.
pub changed_state-update_all :
    (s : ResultState) (us : List ResultState)
    → (changed_state (update_all (reset_state s) us)
        ≡ (if any_error us then false else true, l_no_action))
      × (changed_state (changed_state (update_all (reset_state s) us)).1 ≡ (false, l_no_action))
unfolding changed_state reset_state
changed_state-update_all s us = ground (arith, update_all-outcome l_checkpointed us)
