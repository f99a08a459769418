-- ===== src/Notebook/Added.antt =====
-- A new cell in a document: where it stands, and taking it away again where it is a last child.
use mathlib.Core.Option
use cadabra.Base.{ℕ, suc, false, none, some, ◌≡◌, refl, arith}
use cadabra.Tree.{nil, node, ◌⊕◌, count}
use cadabra.Notebook.Cells.{
  Cell, Tree, has, kids_of, append_child, erase, sib_index, index_below, index, insert_before,
  insert_after, nth,
}

module _ (n : ℕ) where
  erase_fresh : (f : Tree) → has n f ≡ false → erase n f ≡ f
  unfolding has erase
  erase_fresh nil h = refl
  erase_fresh (node c k r) h = ground (arith, erase_fresh k, erase_fresh r)

  sib_index_fresh : (f : Tree) → has n f ≡ false → sib_index n f ≡ none
  unfolding has sib_index
  sib_index_fresh nil h = refl
  sib_index_fresh (node c k r) h = ground (arith, sib_index_fresh r)

  index_below_fresh : (f : Tree) → has n f ≡ false → index_below n f ≡ none
  unfolding has index_below
  index_below_fresh nil h = refl
  index_below_fresh (node c k r) h =
      ground (arith, sib_index_fresh k, index_below_fresh k, index_below_fresh r)

  module _ (x : Cell) (new : x.addr ≡ n) where
    erase_last : (f : Tree) → has n f ≡ false → erase n (f ⊕ node x nil nil) ≡ f
    unfolding has erase
    erase_last nil h = ground arith
    erase_last (node c k r) h = ground (arith, erase_last r, erase_fresh k)

    sib_index_last :
        (f : Tree) → has n f ≡ false → sib_index n (f ⊕ node x nil nil) ≡ some (count f)
    unfolding has sib_index
    sib_index_last nil h = ground arith
    sib_index_last (node c k r) h = ground (arith, sib_index_last r)

    module _ (ref : ℕ) where
      pub erase-append_child : (f : Tree) → has n f ≡ false → erase n (append_child ref x nil f) ≡ f
      unfolding has erase append_child
      erase-append_child nil h = refl
      erase-append_child (node c k r) h =
          ground (arith, erase-append_child k, erase-append_child r, erase_last k, erase_fresh r)

      pub sib_index-append_child :
          (f : Tree) → has n f ≡ false → sib_index n (append_child ref x nil f) ≡ none
      unfolding has sib_index append_child
      sib_index-append_child nil h = refl
      sib_index-append_child (node c k r) h =
          ground (arith, sib_index-append_child r, sib_index_fresh r)

      append_child_absent : (f : Tree) → kids_of ref f ≡ none → append_child ref x nil f ≡ f
      unfolding kids_of append_child
      append_child_absent nil h = refl
      append_child_absent (node c k r) h =
          ground (arith, append_child_absent k, append_child_absent r)

      pub kids_of-append_child :
          (f j : Tree)
          → kids_of ref f ≡ some j
          → kids_of ref (append_child ref x nil f) ≡ some (j ⊕ node x nil nil)
      unfolding kids_of append_child
      kids_of-append_child nil j h = absurd (cc)
      kids_of-append_child (node c k r) j h =
          ground (arith, kids_of-append_child k j, kids_of-append_child r j, append_child_absent k)

      pub index_below-append_child :
          (f j : Tree)
          → has n f ≡ false
          → kids_of ref f ≡ some j
          → index_below n (append_child ref x nil f) ≡ some (count j)
      unfolding has kids_of append_child index_below
      index_below-append_child nil j h e = absurd (cc)
      index_below-append_child (node c k r) j h e = ground (
        arith,
        index_below-append_child k j,
        index_below-append_child r j,
        append_child_absent k,
        sib_index_last k,
        sib_index-append_child k,
        sib_index_fresh k,
        index_below_fresh k,
      )

  pub nth_last : (f : Tree) (x : Cell) → nth (f ⊕ node x nil nil) (count f) ≡ some x.addr
  unfolding nth
  nth_last nil x = refl
  nth_last (node c k r) x = nth_last r x

  -- The index of the new cell in front of or behind the cell `ref`, by that of `ref`.
  module _ (x : Cell) (new : x.addr ≡ n) (ref : ℕ) where
    sib_index-insert_before :
        (f : Tree) → has n f ≡ false → sib_index n (insert_before ref x nil f) ≡ sib_index ref f
    unfolding has sib_index insert_before
    sib_index-insert_before nil h = refl
    sib_index-insert_before (node c k r) h = ground (arith, sib_index-insert_before r)

    sib_index-insert_after :
        (f : Tree)
        → has n f ≡ false
        → sib_index n (insert_after ref x nil f) ≡ Option.map suc (sib_index ref f)
    unfolding has sib_index insert_after
    sib_index-insert_after nil h = refl
    sib_index-insert_after (node c k r) h = ground (arith, sib_index-insert_after r)

    index_below-insert_before :
        (f : Tree)
        → has n f ≡ false
        → sib_index ref f ≡ none
        → index_below n (insert_before ref x nil f) ≡ index_below ref f
    unfolding has sib_index insert_before index_below
    index_below-insert_before nil h e = refl
    index_below-insert_before (node c k r) h e =
        ground (
          arith,
          sib_index-insert_before k,
          index_below-insert_before k,
          index_below-insert_before r,
        )

    index_below-insert_after :
        (f : Tree)
        → has n f ≡ false
        → sib_index ref f ≡ none
        → index_below n (insert_after ref x nil f) ≡ Option.map suc (index_below ref f)
    unfolding has sib_index insert_after index_below
    index_below-insert_after nil h e = refl
    index_below-insert_after (node c k r) h e =
        ground
          (arith, sib_index-insert_after k, index_below-insert_after k, index_below-insert_after r)

    pub index-insert_before :
        (f : Tree) → has n f ≡ false → index n (insert_before ref x nil f) ≡ index ref f
    unfolding index
    index-insert_before f h =
        ground (arith, sib_index-insert_before f h, index_below-insert_before f h)

    pub index-insert_after :
        (f : Tree)
        → has n f ≡ false
        → index n (insert_after ref x nil f) ≡ Option.map suc (index ref f)
    unfolding index
    index-insert_after f h =
        ground (arith, sib_index-insert_after f h, index_below-insert_after f h)
