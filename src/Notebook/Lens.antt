-- ===== src/Notebook/Lens.antt =====
-- Reading and writing one cell of a document.
use cadabra.Base.{ℕ, false, none, some, ◌≡◌, refl, arith}
use cadabra.Tree.{nil, node}
use cadabra.Notebook.Cells.{DataCell, Tree, has, find, put}

find-not_has : (a : ℕ) (f : Tree) → has a f ≡ false → find a f ≡ none
unfolding has find
find-not_has a nil h = refl
find-not_has a (node c k r) h = ground (arith, find-not_has a k, find-not_has a r)

has-find-none : (a : ℕ) (f : Tree) → find a f ≡ none → has a f ≡ false
unfolding has find
has-find-none a nil h = refl
has-find-none a (node c k r) h = ground (arith, has-find-none a k, has-find-none a r)

has-put : (a : ℕ) (f : Tree) (d : DataCell) → has a (put a d f) ≡ has a f
unfolding has put
has-put a nil d = refl
has-put a (node c k r) d = ground (arith, has-put a k d, has-put a r d)

pub find-put : (a : ℕ) (f : Tree) (d e : DataCell) → find a f ≡ some d → find a (put a e f) ≡ some e
unfolding find put
find-put a nil d e h = absurd (cc)
find-put a (node c k r) d e h =
    ground (arith, find-put a k d e, find-put a r d e, find-not_has a k, has-find-none a k)

pub put-put : (a : ℕ) (f : Tree) (d e : DataCell) → put a e (put a d f) ≡ put a e f
unfolding put
put-put a nil d e = refl
put-put a (node c k r) d e = ground (arith, put-put a k d e, put-put a r d e, has-put a k d)

pub put_same : (a : ℕ) (f : Tree) (d : DataCell) → find a f ≡ some d → put a d f ≡ f
unfolding find put
put_same a nil d h = refl
put_same a (node c k r) d h =
    ground (arith, put_same a k d, put_same a r d, find-not_has a k, has-find-none a k)

pub has-put_any : (b a : ℕ) (f : Tree) (d : DataCell) → has b (put a d f) ≡ has b f
unfolding has put
has-put_any b a nil d = refl
has-put_any b a (node c k r) d = ground (arith, has-put_any b a k d, has-put_any b a r d)
