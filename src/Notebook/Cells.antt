-- ===== src/Notebook/Cells.antt =====
-- client_server/DataCell.hh: cells; client_server/tree.hh: the operations on the document tree.
use cadabra.Base.{ℕ, zero, suc, Bool, true, false, ◌||◌, Option, none, some, ◌==◌, Bytes}
use cadabra.Tree.{Forest, nil, node, ◌⊕◌}

pub data CellType : Type 0 where
  document python latex output verbatim latex_view image_png error : CellType

-- `DataCell`, without its serial number and the flag `sensitive`.
pub record DataCell : Type 0 where
  pub cell_type : CellType
  pub textbuf : Bytes
  pub hidden : Bool
  pub running : Bool

-- A node of the tree: its address and its data.
pub record Cell : Type 0 where
  pub addr : ℕ
  pub content : DataCell

abbrev pub Tree : Type 0
Tree = Forest Cell

-- Is the iterator `a` into this tree?
unfoldable pub has : ℕ → Tree → Bool
has a nil = false
has a (node c k r) = c.addr == a || has a k || has a r

-- `*a`.
unfoldable pub find : ℕ → Tree → Option DataCell
find a nil = none
find a (node c k r) = elim (c.addr == a) [
  | true ↦ some c.content
  | false ↦ elim (find a k) [ some d ↦ some d | none ↦ find a r ]
]

-- `*a = d`.
unfoldable pub put : ℕ → DataCell → Tree → Tree
unfolding has
put a d nil = nil
put a d (node c k r) = elim (c.addr == a) [
  | true ↦ node (record c { content = d }) k r
  | false ↦ elim (has a k) [ true ↦ node c (put a d k) r | false ↦ node c k (put a d r) ]
]

-- The children of `a`.
unfoldable pub kids_of : ℕ → Tree → Option Tree
kids_of a nil = none
kids_of a (node c k r) = elim (c.addr == a) [
  | true ↦ some k
  | false ↦ elim (kids_of a k) [ some j ↦ some j | none ↦ kids_of a r ]
]

-- `insert(a, x)`, `insert_after(a, x)` and `append_child(a, x)`, for a cell with its children.
unfoldable pub insert_before : ℕ → Cell → Tree → Tree → Tree
insert_before a x j nil = nil
insert_before a x j (node c k r) = elim (c.addr == a) [
  | true ↦ node x j (node c k r)
  | false ↦ node c (insert_before a x j k) (insert_before a x j r)
]

unfoldable pub insert_after : ℕ → Cell → Tree → Tree → Tree
insert_after a x j nil = nil
insert_after a x j (node c k r) = elim (c.addr == a) [
  | true ↦ node c k (node x j r)
  | false ↦ node c (insert_after a x j k) (insert_after a x j r)
]

unfoldable pub append_child : ℕ → Cell → Tree → Tree → Tree
append_child a x j nil = nil
append_child a x j (node c k r) = elim (c.addr == a) [
  | true ↦ node c (k ⊕ node x j nil) r
  | false ↦ node c (append_child a x j k) (append_child a x j r)
]

-- `erase(a)`, with everything below it.
unfoldable pub erase : ℕ → Tree → Tree
erase a nil = nil
erase a (node c k r) = elim (c.addr == a) [ true ↦ r | false ↦ node c (erase a k) (erase a r) ]

-- The place of `a` among these siblings.
unfoldable pub sib_index : ℕ → Tree → Option ℕ
sib_index a nil = none
sib_index a (node c k r) = elim (c.addr == a) [
  | true ↦ some 0
  | false ↦ elim (sib_index a r) [ some i ↦ some (suc i) | none ↦ none ]
]

unfoldable pub index_below : ℕ → Tree → Option ℕ
unfolding sib_index
index_below a nil = none
index_below a (node c k r) = elim (sib_index a k) [
  | some i ↦ some i
  | none ↦ elim (index_below a k) [ some i ↦ some i | none ↦ index_below a r ]
]

-- `index(a)`: the number of siblings in front of it.
unfoldable pub index : ℕ → Tree → Option ℕ
unfolding index_below
index a f = elim (sib_index a f) [ some i ↦ some i | none ↦ index_below a f ]

-- `parent(a)`: the address of the node that has `a` among its children.
unfoldable pub parent : ℕ → Tree → Option ℕ
unfolding sib_index
parent a nil = none
parent a (node c k r) = elim (sib_index a k) [
  | some i ↦ some c.addr
  | none ↦ elim (parent a k) [ some p ↦ some p | none ↦ parent a r ]
]

-- The node at a place among these siblings, and the one behind a place.
unfoldable pub nth : Tree → ℕ → Option ℕ
nth nil i = none
nth (node c k r) zero = some c.addr
nth (node c k r) (suc i) = nth r i

-- `child(a, num)`.
unfoldable pub child : ℕ → ℕ → Tree → Option ℕ
unfolding kids_of nth
child a num f = elim (kids_of a f) [ none ↦ none | some k ↦ nth k num ]
