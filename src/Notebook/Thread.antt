-- ===== src/Notebook/Thread.antt =====
-- client_server/DocumentThread.cc: the queue of pending actions and the undo and redo stacks, on the
-- GUI thread. No action queues another one while it is executed, and the mutex only guards the
-- stacks, so the loop goes through the queue as it stands.
use cadabra.Base.{ℕ, List, [], ◌∷◌, ◌++◌, Option, some, if◌then◌else◌}
use cadabra.Base.Options.{◌>>=◌}
use cadabra.Notebook.Cells.{Tree}
use cadabra.Notebook.Actions.{Doc, Action, undoable}
use cadabra.Notebook.Moves.{execute, revert}

-- The head of a stack is its top; the head of the queue is its front.
pub record DocumentThread : Type 0 where
  pub doc : Doc
  pub undo_stack : List Action
  pub redo_stack : List Action
  pub pending_actions : List Action

unfoldable pub queue_action : Action → DocumentThread → DocumentThread
queue_action a t = record t { pending_actions = t.pending_actions ++ a ∷ [] }

module _ (cursor_at : Tree → ℕ → ℕ) where
  -- The loop of `process_action_queue`, over the actions that are pending.
  unfoldable pub process : List Action → Doc → List Action → Option (Doc × List Action)
  process [] d undos = some (d, undos)
  process (a ∷ as') d undos = do
    (a', d') ← execute cursor_at a d
    process as' d' (if undoable a' then a' ∷ undos else undos)

  unfoldable pub process_action_queue : DocumentThread → Option DocumentThread
  unfolding process
  process_action_queue t = do
    (d, undos) ← process t.pending_actions t.doc t.undo_stack
    some (record t { doc = d; undo_stack = undos; pending_actions = [] })

unfoldable pub undo : DocumentThread → Option DocumentThread
undo t = elim t.undo_stack [
  | [] ↦ some t
  | ua ∷ rest ↦ do
    d ← revert ua t.doc
    some (record t { doc = d; undo_stack = rest; redo_stack = ua ∷ t.redo_stack })
]
