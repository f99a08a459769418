-- ===== src/Notebook/Moves.antt =====
-- client_server/Actions.cc: the actions that remove, split and step between cells, and `execute` and
-- `revert` of any action.
use cadabra.Base.{
  ℕ, suc, Bool, true, false, not, [], ◌∷◌, Option, none, some, leb, ◌==◌, if◌then◌else◌, Bytes,
  length, take, drop,
}
use cadabra.Base.Options.{◌>>=◌, ◌>>◌, guard}
use cadabra.Tree.{nil, node, ◌⊕◌, count}
use cadabra.Notebook.Cells.{
  python, latex, DataCell, Cell, Tree, has, find, put, kids_of, insert_after, append_child, erase,
  index, parent, nth,
}
use cadabra.Notebook.Actions.{
  Doc, call, gui_add_cell, gui_remove_cell, gui_update_cell, gui_position_cursor, here, next,
  previous, PositionCursor, RemoveCell, SplitCell, Action, add_cell, position_cursor,
  set_run_status, remove_cell, split_cell, insert_text, erase_text, data_cell, new_node,
  execute_add, revert_add, execute_run_status, execute_insert, revert_insert, execute_erase,
  revert_erase,
}

-- `DTree(a)`: a copy of the node with everything below it.
unfoldable pub subtree : ℕ → Tree → Option Tree
subtree a nil = none
subtree a (node c k r) = elim (c.addr == a) [
  | true ↦ some (node c k nil)
  | false ↦ elim (subtree a k) [ some t ↦ some t | none ↦ subtree a r ]
]

-- New nodes for a copy, in document order, and the next free address.
unfoldable pub renumber : ℕ → Tree → Tree × ℕ
renumber n nil = (nil, n)
renumber n (node c k r) =
    let below = renumber (suc n) k in
    let behind = renumber below.1 r in (node (record c { addr = n }) below.0 behind.0, behind.1)

-- The siblings behind `a`, and those in front of it, nearest first.
unfoldable pub following : ℕ → Tree → Option Tree
following a nil = none
following a (node c k r) = elim (c.addr == a) [
  | true ↦ some r
  | false ↦ elim (following a k) [ some t ↦ some t | none ↦ following a r ]
]

unfoldable pub preceding : ℕ → Tree → Tree → Option Tree
preceding a seen nil = none
preceding a seen (node c k r) = elim (c.addr == a) [
  | true ↦ some seen
  | false ↦ elim (preceding a nil k) [ some t ↦ some t | none ↦ preceding a (node c k seen) r ]
]

-- A cell that the cursor stops at.
unfoldable pub is_input : DataCell → Bool
is_input d = elim d.cell_type [ python ↦ not d.hidden | latex ↦ not d.hidden | _ ↦ false ]

unfoldable pub first_input : Tree → Option ℕ
unfolding is_input
first_input nil = none
first_input (node c k r) = if is_input c.content then some c.addr else first_input r

-- `ActionRemoveCell::execute`.
unfoldable pub execute_remove : RemoveCell → Doc → Option (RemoveCell × Doc)
unfolding subtree
execute_remove a d = do
  t ← subtree a.this_cell d.tree
  p ← parent a.this_cell d.tree
  i ← index a.this_cell d.tree
  some (
    record a { removed_tree = t; reference_parent_cell = p; reference_child_index = i },
    record (call (gui_remove_cell a.this_cell) d) { tree = erase a.this_cell d.tree },
  )

-- `ActionRemoveCell::revert`: the new nodes go behind the child at the index that was kept, since
-- the iterator is advanced before `insert_subtree`.
unfoldable pub revert_remove : RemoveCell → Doc → Option Doc
unfolding renumber
revert_remove a d = do
  kids ← kids_of a.reference_parent_cell d.tree
  let (copy, fresh') = renumber d.fresh a.removed_tree
  elim copy [
    | nil ↦ none
    | node x j _ ↦
        if count kids == 0
        then some (
            call (gui_add_cell x.addr)
              (record d { tree = append_child a.reference_parent_cell x j d.tree; fresh = fresh' }))
        else do
          it ← nth kids a.reference_child_index
          some (
              call (gui_add_cell x.addr)
                (record d { tree = insert_after it x j d.tree; fresh = fresh' }))
  ]

-- A leading newline goes.
abbrev pub strip_newline : Bytes → Bytes
strip_newline [] = []
strip_newline (c ∷ s) = if c == b'\n' then s else c ∷ s

module _ (cursor_at : Tree → ℕ → ℕ) where
  -- `ActionSplitCell::execute`, with the GUI's `get_cursor_position`; its `revert` does nothing.
  unfoldable pub execute_split : SplitCell → Doc → Option (SplitCell × Doc)
  execute_split a d = do
    c ← find a.this_cell d.tree
    let pos = cursor_at d.tree a.this_cell
    guard (leb pos (length c.textbuf))
    let segment2 = strip_newline (drop pos c.textbuf)
    let x = new_node (data_cell c.cell_type segment2) d
    let t = insert_after a.this_cell x nil d.tree
    let t' = put a.this_cell (record c { textbuf = take pos c.textbuf }) t
    some (
      record a { newref = d.fresh },
      call (gui_update_cell a.this_cell)
          (call (gui_add_cell d.fresh) (record d { tree = t'; fresh = suc d.fresh })),
    )

-- A new python cell behind the last sibling of `ref`.
abbrev pub append_sibling : ℕ → Cell → Tree → Tree
append_sibling ref x t = elim (parent ref t) [
  | some p ↦ append_child p x nil t
  | none ↦ t ⊕ node x nil nil
]

abbrev pub to_cell : PositionCursor → ℕ → Doc → PositionCursor × Doc
to_cell a newref d =
    let d' = if a.needed_new_cell then call (gui_add_cell newref) d else d in
    (record a { newref = newref }, call (gui_position_cursor newref none) d')

-- `ActionPositionCursor::execute`.
unfoldable pub execute_position : PositionCursor → Doc → Option (PositionCursor × Doc)
unfolding following preceding first_input
execute_position a d = do
  c ← find a.ref d.tree
  elim a.pos [
    | here ↦ some (to_cell a a.ref d)
    | next ↦ do
      sibs ← following a.ref d.tree
      let x = new_node (data_cell python []) d
      let grown = record d { tree = append_sibling a.ref x d.tree; fresh = suc d.fresh }
      some (elim (first_input sibs) [
        | some n ↦ to_cell a n d
        | none ↦
            if length c.textbuf == 0
            then to_cell a a.ref d
            else to_cell (record a { needed_new_cell = true }) d.fresh grown
      ])
    | previous ↦ do
      sibs ← preceding a.ref nil d.tree
      some (elim (first_input sibs) [ some n ↦ to_cell a n d | none ↦ to_cell a a.ref d ])
  ]

-- `ActionPositionCursor::revert`.
unfoldable pub revert_position : PositionCursor → Doc → Option Doc
revert_position a d =
    if a.needed_new_cell
    then (do
      guard (has a.newref d.tree)
      some (
          call (gui_position_cursor a.ref none)
            (record (call (gui_remove_cell a.newref) d) { tree = erase a.newref d.tree })))
    else some (call (gui_position_cursor a.ref none) d)

-- The virtual methods.
module _ (cursor_at : Tree → ℕ → ℕ) where
  unfoldable pub execute : Action → Doc → Option (Action × Doc)
  execute (add_cell a) d = do (a', d') ← execute_add a d; some (add_cell a', d')
  execute (position_cursor a) d = do (a', d') ← execute_position a d; some (position_cursor a', d')
  execute (set_run_status a) d = do (a', d') ← execute_run_status a d; some (set_run_status a', d')
  execute (remove_cell a) d = do (a', d') ← execute_remove a d; some (remove_cell a', d')
  execute (split_cell a) d = do (a', d') ← execute_split cursor_at a d; some (split_cell a', d')
  execute (insert_text a) d = do (a', d') ← execute_insert a d; some (insert_text a', d')
  execute (erase_text a) d = do (a', d') ← execute_erase a d; some (erase_text a', d')

unfoldable pub revert : Action → Doc → Option Doc
revert (add_cell a) d = revert_add a d
revert (position_cursor a) d = revert_position a d
revert (set_run_status a) d = some d
revert (remove_cell a) d = revert_remove a d
revert (split_cell a) d = some d
revert (insert_text a) d = revert_insert a d
revert (erase_text a) d = revert_erase a d
