-- ===== src/Notebook/Actions.antt =====
-- client_server/Actions.hh, client_server/Actions.cc: the actions, with `execute` and `revert`. An
-- action is its object: `execute` gives the action back with the members that it has set.
use cadabra.Base.{
  ℕ, suc, ◌+◌, ◌-◌, Bool, true, false, List, ◌∷◌, ◌++◌, Option, none, some, ltb, leb, if◌then◌else◌,
  Bytes, length, take, drop,
}
use cadabra.Base.Options.{◌>>=◌, ◌>>◌, guard}
use cadabra.Tree.{nil}
use cadabra.Notebook.Cells.{
  CellType, DataCell, Cell, Tree, has, find, put, insert_before, insert_after, append_child, erase,
  index, child,
}

-- Calls of GUIBase's methods; the position -1 is `none`.
pub data GuiCall : Type 0 where
  gui_add_cell gui_remove_cell gui_update_cell : ℕ → GuiCall
  gui_position_cursor : ℕ → Option ℕ → GuiCall

-- The document, the address that the next new node gets, and the calls of the GUI.
pub record Doc : Type 0 where
  pub tree : Tree
  pub fresh : ℕ
  pub gui : List GuiCall

pub data AddPosition : Type 0 where
  before after child_of : AddPosition

pub data CursorPosition : Type 0 where
  here next previous : CursorPosition

pub record AddCell : Type 0 where
  pub newcell : DataCell
  pub ref : ℕ
  pub pos : AddPosition
  pub newref : ℕ
  pub child_num : ℕ

pub record PositionCursor : Type 0 where
  pub needed_new_cell : Bool
  pub ref : ℕ
  pub newref : ℕ
  pub pos : CursorPosition

pub record SetRunStatus : Type 0 where
  pub this_cell : ℕ
  pub was_running : Bool
  pub new_running : Bool

-- `removed_tree` holds copies, so its addresses mean nothing.
pub record RemoveCell : Type 0 where
  pub this_cell : ℕ
  pub removed_tree : Tree
  pub reference_parent_cell : ℕ
  pub reference_child_index : ℕ

pub record SplitCell : Type 0 where
  pub this_cell : ℕ
  pub newref : ℕ

pub record InsertText : Type 0 where
  pub this_cell : ℕ
  pub insert_pos : ℕ
  pub text : Bytes

pub record EraseText : Type 0 where
  pub this_cell : ℕ
  pub from_pos : ℕ
  pub to_pos : ℕ
  pub removed_text : Bytes

pub data Action : Type 0 where
  add_cell : AddCell → Action
  position_cursor : PositionCursor → Action
  set_run_status : SetRunStatus → Action
  remove_cell : RemoveCell → Action
  split_cell : SplitCell → Action
  insert_text : InsertText → Action
  erase_text : EraseText → Action

-- `undoable`.
unfoldable pub undoable : Action → Bool
undoable (set_run_status a) = false
undoable _ = true

abbrev pub call : GuiCall → Doc → Doc
call g d = record d { gui = g ∷ d.gui }

-- `DataCell(type, text)`.
abbrev pub data_cell : CellType → Bytes → DataCell
data_cell t s = record { cell_type = t; textbuf = s; hidden = false; running = false }

-- std::string's `insert(pos, text)` and `substr(pos)` throw behind the end; `erase(pos, n)` too, and
-- takes what there is.
abbrev pub string_insert : ℕ → Bytes → Bytes → Option Bytes
string_insert pos text s =
    if leb pos (length s) then some (take pos s ++ (text ++ drop pos s)) else none

abbrev pub string_erase : ℕ → ℕ → Bytes → Option Bytes
string_erase pos n s = if leb pos (length s) then some (take pos s ++ drop n (drop pos s)) else none

abbrev pub string_substr : ℕ → ℕ → Bytes → Option Bytes
string_substr pos n s = if leb pos (length s) then some (take n (drop pos s)) else none

-- The text of a cell changes in place.
abbrev pub set_text : ℕ → DataCell → Bytes → Doc → Doc
set_text a c s d = record d { tree = put a (record c { textbuf = s }) d.tree }

-- A new node with this content.
abbrev pub new_node : DataCell → Doc → Cell
new_node c d = record { addr = d.fresh; content = c }

-- `ActionAddCell::execute`.
unfoldable pub execute_add : AddCell → Doc → Option (AddCell × Doc)
execute_add a d = do
  guard (has a.ref d.tree)
  let x = new_node a.newcell d
  let t : Tree = elim a.pos [
    | before ↦ insert_before a.ref x nil d.tree
    | after ↦ insert_after a.ref x nil d.tree
    | child_of ↦ append_child a.ref x nil d.tree
  ]
  n ← index d.fresh t
  some (
    record a { newref = d.fresh; child_num = n },
    call (gui_add_cell d.fresh) (record d { tree = t; fresh = suc d.fresh }),
  )

-- `ActionAddCell::revert`.
unfoldable pub revert_add : AddCell → Doc → Option Doc
revert_add a d = do
  ch ← child a.ref a.child_num d.tree
  some (call (gui_remove_cell ch) (record d { tree = erase ch d.tree }))

-- `ActionSetRunStatus::execute`; its `revert` does nothing.
unfoldable pub execute_run_status : SetRunStatus → Doc → Option (SetRunStatus × Doc)
execute_run_status a d = do
  c ← find a.this_cell d.tree
  let d' = call (gui_update_cell a.this_cell) d
  some (
    record a { was_running = c.running },
    record d' { tree = put a.this_cell (record c { running = a.new_running }) d'.tree },
  )

-- `ActionInsertText`.
unfoldable pub execute_insert : InsertText → Doc → Option (InsertText × Doc)
execute_insert a d = do
  c ← find a.this_cell d.tree
  s ← string_insert a.insert_pos a.text c.textbuf
  some (a, set_text a.this_cell c s d)

unfoldable pub revert_insert : InsertText → Doc → Option Doc
revert_insert a d = do
  c ← find a.this_cell d.tree
  s ← string_erase a.insert_pos (length a.text) c.textbuf
  some (call (gui_update_cell a.this_cell) (set_text a.this_cell c s d))

-- `ActionEraseText`: where `to_pos` is before `from_pos` the difference is a huge size_t, and all of
-- the rest of the text is meant.
abbrev pub erase_count : EraseText → Bytes → ℕ
erase_count a s = if ltb a.to_pos a.from_pos then length s else a.to_pos - a.from_pos

unfoldable pub execute_erase : EraseText → Doc → Option (EraseText × Doc)
execute_erase a d = do
  c ← find a.this_cell d.tree
  removed ← string_substr a.from_pos (erase_count a c.textbuf) c.textbuf
  s ← string_erase a.from_pos (erase_count a c.textbuf) c.textbuf
  some (record a { removed_text = removed }, set_text a.this_cell c s d)

unfoldable pub revert_erase : EraseText → Doc → Option Doc
revert_erase a d = do
  c ← find a.this_cell d.tree
  s ← string_insert a.from_pos a.removed_text c.textbuf
  let d' = call (gui_update_cell a.this_cell) (set_text a.this_cell c s d)
  some (call (gui_position_cursor a.this_cell (some (a.from_pos + length a.removed_text))) d')
