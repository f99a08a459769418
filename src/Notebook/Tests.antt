-- ===== src/Notebook/Tests.antt =====
-- Runs on a small document, and the theorems on undoing there.
use cadabra.Base.{ℕ, [], ◌∷◌, Option, none, some, ◌≡◌, ◌≢◌, refl, codes, arith}
use mathlib.Core.Option
use Prim.Native.String.{String}
use cadabra.Tree.{nil, node}
use cadabra.Notebook.Cells.{
  python, output, Cell, Tree, has, find, put, kids_of, append_child, insert_after, erase, child,
  nth, index, sib_index, index_below,
}
use cadabra.Notebook.Actions.{
  Doc, AddCell, new_node, after, child_of, InsertText, EraseText, add_cell, insert_text, erase_text,
  data_cell, execute_add, revert_add, execute_insert, revert_insert, execute_erase, revert_erase,
}
use cadabra.Notebook.Moves.{execute}
use cadabra.Notebook.Thread.{DocumentThread, process, process_action_queue}
use cadabra.Notebook.Text.{revert_insert-execute_insert, revert_erase-execute_erase}
use cadabra.Notebook.AddUndo.{beside, grown, revert_add-execute_add, revert_add-execute_add_beside}
use cadabra.Notebook.Undo.{IsAllocated, undo_times, undo_times-process_action_queue}

abbrev text_cell : ℕ → String → Cell
text_cell a s = record { addr = a; content = data_cell python (codes s) }

-- A document with two cells.
abbrev two_cells : Tree
two_cells = node (text_cell 0 "") (node (text_cell 1 "ab") nil (node (text_cell 2 "c") nil nil)) nil

abbrev start : Doc
start = record { tree = two_cells; fresh = 3; gui = [] }

abbrev typed : InsertText
typed = record { this_cell = 1; insert_pos = 1; text = codes "xy" }

abbrev erased : EraseText
erased = record { this_cell = 1; from_pos = 0; to_pos = 2; removed_text = [] }

abbrev added : AddCell
added = record {
  newcell = data_cell output (codes "5");
  ref = 1;
  pos = child_of;
  newref = 0;
  child_num = 0;
}

abbrev added_behind : AddCell
added_behind = record added { pos = after }

-- What a step gives, for steps that succeed.
abbrev given {ℓ} : {A : Type ℓ} → A → Option A → A
given a none = a
given a (some b) = b

abbrev thread : DocumentThread
thread = record {
  doc = start;
  undo_stack = [];
  redo_stack = [];
  pending_actions = insert_text typed ∷ add_cell added ∷ erase_text erased ∷ [];
}

abbrev no_cursor : Tree → ℕ → ℕ
no_cursor t a = 0

start-IsAllocated : IsAllocated start
unfolding has
start-IsAllocated n later = ground arith

abbrev ended : DocumentThread
ended = given thread (process_action_queue no_cursor thread)

undo_times-process_action_queue_example :
    (u : DocumentThread) × (undo_times 3 ended ≡ some u)
    × (u.doc.tree ≡ two_cells)
    × (u.undo_stack ≡ [])
unfolding process_action_queue process execute execute_insert execute_add execute_erase has find put
    append_child index index_below sib_index
undo_times-process_action_queue_example =
    undo_times-process_action_queue no_cursor thread ended (tt, (refl, (tt, tt))) start-IsAllocated
      refl

undo_times-process_action_queue_run : ended.doc.tree ≢ two_cells
unfolding process_action_queue process execute execute_insert execute_add execute_erase has find put
    append_child index index_below sib_index
undo_times-process_action_queue_run h = absurd (cc)

abbrev typed_doc : Doc
typed_doc = (given (typed, start) (execute_insert typed start)).1

revert_insert-execute_insert_example :
    (r : Doc) × (revert_insert typed typed_doc ≡ some r) × (r.tree ≡ two_cells)
unfolding execute_insert find put has
revert_insert-execute_insert_example =
    revert_insert-execute_insert typed typed start typed_doc refl typed_doc refl

abbrev erased_given : EraseText × Doc
erased_given = given (erased, start) (execute_erase erased start)

revert_erase-execute_erase_example :
    (r : Doc) × (revert_erase erased_given.0 erased_given.1 ≡ some r) × (r.tree ≡ two_cells)
unfolding execute_erase find put has
revert_erase-execute_erase_example =
    revert_erase-execute_erase erased erased_given.0 start erased_given.1 refl erased_given.1 refl

abbrev added_given : AddCell × Doc
added_given = given (added, start) (execute_add added start)

revert_add-execute_add_example :
    (r : Doc) × (revert_add added_given.0 added_given.1 ≡ some r) × (r.tree ≡ two_cells)
unfolding execute_add append_child has index index_below sib_index
revert_add-execute_add_example =
    revert_add-execute_add added added_given.0 start added_given.1 refl refl refl added_given.1 refl

abbrev behind_given : AddCell × Doc
behind_given = given (added_behind, start) (execute_add added_behind start)

-- The cell behind which the new one stands has no children: undoing fails.
revert_add-execute_add_beside_example :
    Option.map (λ (r : Doc). r.tree) (revert_add behind_given.0 behind_given.1)
    ≡ Option.map
        (λ ch.
          erase ch (
            grown added_behind.pos added_behind.ref
              (new_node added_behind.newcell start)
              two_cells))
        (nth nil (beside added_behind.pos 0))
unfolding execute_add insert_after has index index_below sib_index kids_of
revert_add-execute_add_beside_example =
    revert_add-execute_add_beside added_behind behind_given.0 start behind_given.1 refl 0 nil
      (λ e. absurd (cc)) refl refl refl

revert_add_run : revert_add behind_given.0 behind_given.1 ≡ none
unfolding execute_add insert_after has index index_below sib_index kids_of child revert_add nth
revert_add_run = refl
