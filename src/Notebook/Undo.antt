-- ===== src/Notebook/Undo.antt =====
-- A session of edits, and as many undos.
use cadabra.Base.{
  Bytes, ℕ, zero, suc, ◌≤◌, true, false, ◌||◌, List, [], ◌∷◌, Option, none, some, ◌≡◌, refl, sym,
  ap, ◌∙◌, ◌==◌, if◌then◌else◌, length, arith,
}
use mathlib.Core.Path.{subst, subst₂}
use cadabra.Base.Options.{◌>>=◌, >>=-eq-some, pair_of_some, some_inj}
use cadabra.Tree.{nil, node, ◌⊕◌}
use cadabra.Notebook.Cells.{DataCell, Cell, Tree, has, append_child}
use cadabra.Notebook.Actions.{
  Doc, AddCell, child_of, InsertText, EraseText, Action, add_cell, insert_text, erase_text,
  new_node, set_text, undoable, execute_add, execute_insert, execute_erase,
}
use cadabra.Notebook.Moves.{execute, revert}
use cadabra.Notebook.Thread.{DocumentThread, process, process_action_queue, undo}
use cadabra.Notebook.Lens.{has-put_any}
use cadabra.Notebook.Text.{
  execute_insert-inv, revert_insert-execute_insert, execute_erase-inv, revert_erase-execute_erase,
}
use cadabra.Notebook.AddUndo.{grown, execute_add-inv, revert_add-execute_add}

-- The actions of a session: typing, erasing, and adding a cell as the last child of another.
abbrev pub IsEdit : Action → Type 0
IsEdit (insert_text a) = Unit
IsEdit (erase_text a) = Unit
IsEdit (add_cell a) = a.pos ≡ child_of
IsEdit _ = ⊥

abbrev pub AllEdits : List Action → Type 0
AllEdits [] = Unit
AllEdits (a ∷ as') = IsEdit a × AllEdits as'

-- Every address in the document was handed out.
abbrev pub IsAllocated : Doc → Type 0
IsAllocated d = (n : ℕ) → d.fresh ≤ n → has n d.tree ≡ false

has_append : (n : ℕ) (f g : Tree) → has n (f ⊕ g) ≡ has n f || has n g
unfolding has
has_append n nil g = refl
has_append n (node c k r) g = ground (arith, has_append n r g)

has-append_child :
    (n ref : ℕ) (x : Cell) (f : Tree)
    → x.addr == n ≡ false
    → has n f ≡ false
    → has n (append_child ref x nil f) ≡ false
unfolding has append_child
has-append_child n ref x nil h e = refl
has-append_child n ref x (node c k r) h e =
    ground (
      arith,
      has-append_child n ref x k,
      has-append_child n ref x r,
      has_append n k (node x nil nil),
    )

-- What undoing an action needs to know of its execution.
record Undoable (a' : Action) (d d' : Doc) : Type 0 where
  stacked : undoable a' ≡ true
  allocated : IsAllocated d'
  restores : (e : Doc) → e.tree ≡ d'.tree → (r : Doc) × (revert a' e ≡ some r) × (r.tree ≡ d.tree)

text-IsAllocated :
    (i : ℕ) (c : DataCell) (s : Bytes) (d d' : Doc)
    → set_text i c s d ≡ d'
    → IsAllocated d
    → IsAllocated d'
text-IsAllocated i c s d d' q b =
    subst IsAllocated q (λ n h. has-put_any n i d.tree (record c { textbuf = s }) ∙ b n h)

add-IsAllocated :
    (a a' : AddCell) (d d' : Doc)
    → a.pos ≡ child_of
    → IsAllocated d
    → execute_add a d ≡ some (a', d')
    → IsAllocated d'
add-IsAllocated a a' d d' p b h n later =
    let (_, _, _, _, t, f) = execute_add-inv a a' d d' h in
    let t' = subst (λ s. grown s a.ref (new_node a.newcell d) d.tree ≡ d'.tree) p t in
    rw (← t')
      (has-append_child n a.ref (new_node a.newcell d) d.tree (ground arith) (b n (omega arith)))

module _ (d d1 : Doc) (b : IsAllocated d) where
  insert-Undoable :
      (a a1 : InsertText) → execute_insert a d ≡ some (a1, d1) → Undoable (insert_text a1) d d1
  unfolding revert undoable
  insert-Undoable a a1 h =
      let (c, s, _, _, _, q) = execute_insert-inv a a1 d d1 h in
      record {
        stacked = refl;
        allocated = text-IsAllocated a.this_cell c s d d1 q b;
        restores = revert_insert-execute_insert a a1 d d1 h;
      }

  erase-Undoable :
      (a a1 : EraseText) → execute_erase a d ≡ some (a1, d1) → Undoable (erase_text a1) d d1
  unfolding revert undoable
  erase-Undoable a a1 h =
      let (c, s, _, _, _, _, _, q) = execute_erase-inv a a1 d d1 h in
      record {
        stacked = refl;
        allocated = text-IsAllocated a.this_cell c s d d1 q b;
        restores = revert_erase-execute_erase a a1 d d1 h;
      }

  add-Undoable :
      (a a1 : AddCell)
      → a.pos ≡ child_of
      → execute_add a d ≡ some (a1, d1)
      → Undoable (add_cell a1) d d1
  unfolding revert undoable
  add-Undoable a a1 p h = record {
    stacked = refl;
    allocated = add-IsAllocated a a1 d d1 p b h;
    restores = revert_add-execute_add a a1 d d1 h p (b d.fresh (omega arith));
  }

-- The step of a virtual method: the result of the class's method, with its constructor.
wrapped :
    {T : Type 0} (o : Option (T × Doc)) (f : T → Action) (d d' : Doc) (a' : Action)
    → ((a1 : T) (d1 : Doc) → o ≡ some (a1, d1) → Undoable (f a1) d d1)
    → (◌>>=◌ {B = Action × Doc} o (λ (r : T × Doc). some (f r.0, r.1))) ≡ some (a', d')
    → Undoable a' d d'
wrapped none f d d' a' ok h = absurd (cc)
wrapped (some (a1, d1)) f d d' a' ok h =
    let (p, q) = pair_of_some h in subst₂ (λ x y. Undoable x d y) p q (ok a1 d1 refl)

module _ (cursor_at : Tree → ℕ → ℕ) where
  execute-Undoable :
      (a a' : Action) (d d' : Doc)
      → IsEdit a
      → IsAllocated d
      → execute cursor_at a d ≡ some (a', d')
      → Undoable a' d d'
  unfolding execute
  execute-Undoable (insert_text a) a' d d' i b h =
      wrapped (execute_insert a d) insert_text d d' a' (λ a1 d1. insert-Undoable d d1 b a a1) h
  execute-Undoable (erase_text a) a' d d' i b h =
      wrapped (execute_erase a d) erase_text d d' a' (λ a1 d1. erase-Undoable d d1 b a a1) h
  execute-Undoable (add_cell a) a' d d' i b h =
      wrapped (execute_add a d) add_cell d d' a' (λ a1 d1. add-Undoable d d1 b a a1 i) h
  execute-Undoable _ a' d d' i b h = absurd i

-- So many calls of `undo`.
pub undo_times : ℕ → DocumentThread → Option DocumentThread
undo_times zero t = some t
undo_times (suc n) t = undo_times n t >>= undo

undo_step :
    (t : DocumentThread) (a : Action) (rest : List Action) (r : Doc)
    → t.undo_stack ≡ a ∷ rest
    → revert a t.doc ≡ some r
    → (u : DocumentThread) × (undo t ≡ some u) × (u.doc ≡ r) × (u.undo_stack ≡ rest)
unfolding undo
undo_step t a rest r s h = (
  record t { doc = r; undo_stack = rest; redo_stack = a ∷ t.redo_stack },
  rw (s, undo) (rw h),
  refl,
  refl,
)

module _ (cursor_at : Tree → ℕ → ℕ) where
  undo_times-process :
      (as' : List Action) (d d' : Doc) (undos undos' : List Action) (t : DocumentThread)
      → AllEdits as'
      → IsAllocated d
      → process cursor_at as' d undos ≡ some (d', undos')
      → t.doc.tree ≡ d'.tree
      → t.undo_stack ≡ undos'
      → (u : DocumentThread) × (undo_times (length as') t ≡ some u)
        × (u.doc.tree ≡ d.tree)
        × (u.undo_stack ≡ undos)
  unfolding process undo_times
  undo_times-process [] d d' undos undos' t edits b h same stack =
      let (p, q) = pair_of_some h in
      (t, refl, same ∙ sym (ap (λ (x : Doc). x.tree) p), stack ∙ sym q)
  undo_times-process (a ∷ rest) d d' undos undos' t edits b h same stack =
      let ((a1, d1), g, h1) = >>=-eq-some (execute cursor_at a d) _ h in
      let step = execute-Undoable cursor_at a a1 d d1 edits.0 b g in
      let pushed : (if undoable a1 then a1 ∷ undos else undos) ≡ a1 ∷ undos = rw (step.stacked) in
      let (u, e, e_tree, e_stack) =
        undo_times-process rest d1 d' (if undoable a1 then a1 ∷ undos else undos) undos' t edits.1
          step.allocated h1 same stack in
      let (r, f, f_tree) = step.restores u.doc e_tree in
      let (v, k, k_doc, k_stack) = undo_step u a1 undos r (e_stack ∙ pushed) f in
      (v, rw e k, ap (λ (x : Doc). x.tree) k_doc ∙ f_tree, k_stack)

  -- A session of edits (insertions and removals of text, cells added as last children) that the
  -- queue executes, in a document whose addresses were all handed out before: as many undos as
  -- there were actions succeed, and give back the document tree and the undo stack of the start.
  pub undo_times-process_action_queue :
      (t t' : DocumentThread)
      → AllEdits t.pending_actions
      → IsAllocated t.doc
      → process_action_queue cursor_at t ≡ some t'
      → (u : DocumentThread) × (undo_times (length t.pending_actions) t' ≡ some u)
        × (u.doc.tree ≡ t.doc.tree)
        × (u.undo_stack ≡ t.undo_stack)
  unfolding process_action_queue
  undo_times-process_action_queue t t' edits b h =
      let ((d, undos), g, h1) =
        >>=-eq-some (process cursor_at t.pending_actions t.doc t.undo_stack) _ h in
      let p = some_inj h1 in
      undo_times-process t.pending_actions t.doc d t.undo_stack undos t' edits b g
        (sym (ap (λ (x : DocumentThread). x.doc.tree) p))
        (sym (ap (λ (x : DocumentThread). x.undo_stack) p))
