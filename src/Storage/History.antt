-- ===== src/Storage/History.antt =====
-- core/Storage.cc: the history of an expression, with the selectors that led to each step.
use cadabra.Base.{ℕ, suc, List, [], ◌∷◌, Option, none, some, ◌≡◌, refl, length}

-- An expression with its two stacks; the head of a list is the back of the vector.
pub record Tracked (T : Type 0) : Type 0 where
  pub current : T
  pub history : List T
  pub selectors : List T

module _ {T : Type 0} where
  pub push_history : Tracked T → T → Tracked T
  push_history e selector = record e {
    history = e.current ∷ e.history;
    selectors = selector ∷ e.selectors;
  }

  -- `back()` of an empty vector is undefined: `none`.
  pub pop_history : Tracked T → Option (Tracked T × T)
  pop_history e = elim e.history [
    | [] ↦ none
    | h ∷ hs ↦ elim e.selectors [
      | [] ↦ none
      | s ∷ ss ↦ some (record { current = h; history = hs; selectors = ss }, s)
    ]
  ]

  pub history_size : Tracked T → ℕ
  history_size e = length e.history

  -- Whatever an algorithm makes of the current expression after a push, the next pop gives back
  -- the expression as it was pushed, with both stacks, and the selector; in between the history is
  -- one step longer.
  pub pop_history-push_history :
      (e : Tracked T) (selector changed : T)
      → (pop_history (record (push_history e selector) { current = changed }) ≡ some (e, selector))
        × (history_size (record (push_history e selector) { current = changed })
            ≡ suc (history_size e))
  unfolding pop_history push_history history_size
  pop_history-push_history e selector changed = (refl, refl)
