-- ===== src/Notebook/AddUndo.antt =====
-- `ActionAddCell::revert` behind `ActionAddCell::execute`.
use cadabra.Base.{
  ℕ, suc, Bool, true, false, none, some, inl, inr, ◌≢◌, Bool-cases, Option-cases, ◌≡◌, refl, sym,
  ap, ◌∙◌, ◌==◌, ==_iff, arith,
}
use mathlib.Core.Path.{subst}
use mathlib.Core.Option
use cadabra.Base.Options.{>>=-eq-some, pair_of_some, some_inj, guard}
use cadabra.Tree.{nil, node, ◌⊕◌, count}
use cadabra.Notebook.Cells.{
  Cell, Tree, has, kids_of, insert_before, insert_after, append_child, erase, index, nth, child,
}
use cadabra.Notebook.Actions.{
  Doc, AddCell, AddPosition, before, after, child_of, new_node, call, gui_remove_cell, execute_add,
  revert_add,
}
use cadabra.Notebook.Added.{
  erase-append_child, sib_index-append_child, kids_of-append_child, index_below-append_child,
  nth_last, index-insert_before, index-insert_after,
}

has-kids_of-none : (a : ℕ) (f : Tree) → kids_of a f ≡ none → has a f ≡ false
unfolding has kids_of
has-kids_of-none a nil h = refl
has-kids_of-none a (node c k r) h = ground (arith, has-kids_of-none a k, has-kids_of-none a r)

module _ (ref : ℕ) (x : Cell) (ne : x.addr == ref ≡ false) where
  kids_of-insert_before : (f : Tree) → kids_of ref (insert_before ref x nil f) ≡ kids_of ref f
  unfolding kids_of insert_before
  kids_of-insert_before nil = refl
  kids_of-insert_before (node c k r) =
      ground (arith, kids_of-insert_before k, kids_of-insert_before r)

  kids_of-insert_after : (f : Tree) → kids_of ref (insert_after ref x nil f) ≡ kids_of ref f
  unfolding kids_of insert_after
  kids_of-insert_after nil = refl
  kids_of-insert_after (node c k r) = ground (arith, kids_of-insert_after k, kids_of-insert_after r)

-- The tree with the new cell.
abbrev pub grown : AddPosition → ℕ → Cell → Tree → Tree
grown p ref x t = elim p [
  | before ↦ insert_before ref x nil t
  | after ↦ insert_after ref x nil t
  | child_of ↦ append_child ref x nil t
]

module _ (a a' : AddCell) (d d' : Doc) (done : execute_add a d ≡ some (a', d')) where
  pub execute_add-inv :
      (n : ℕ) × (has a.ref d.tree ≡ true)
      × (index d.fresh (grown a.pos a.ref (new_node a.newcell d) d.tree) ≡ some n)
      × (record a { newref = d.fresh; child_num = n } ≡ a')
      × (grown a.pos a.ref (new_node a.newcell d) d.tree ≡ d'.tree)
      × (suc d.fresh ≡ d'.fresh)
  unfolding execute_add
  execute_add-inv =
      let (_, g, h1) = >>=-eq-some (guard (has a.ref d.tree)) _ done in
      let (n, i, h2) =
        >>=-eq-some (index d.fresh (grown a.pos a.ref (new_node a.newcell d) d.tree)) _ h1 in
      let (p, q) = pair_of_some h2 in
      (
        n,
        guarded (has a.ref d.tree) g,
        i,
        p,
        ap (λ (y : Doc). y.tree) q,
        ap (λ (y : Doc). y.fresh) q,
      )
    where
      guarded : (b : Bool) {u : Unit {0}} → guard b ≡ some u → b ≡ true
      guarded true h = refl
      guarded false h = absurd (cc)

-- The index of a new cell, by that of the cell that it is added to.
abbrev pub beside : AddPosition → ℕ → ℕ
beside before k = k
beside _ k = suc k

revert_add-found :
    (a : AddCell) (e : Doc) (ch : ℕ)
    → child a.ref a.child_num e.tree ≡ some ch
    → (r : Doc) × (revert_add a e ≡ some r) × (r.tree ≡ erase ch e.tree)
unfolding revert_add
revert_add-found a e ch h =
    (call (gui_remove_cell ch) (record e { tree = erase ch e.tree }), rw h, refl)

-- The tree that `revert` gives, by what it finds.
revert_add-tree :
    (a : AddCell) (e : Doc)
    → Option.map (λ (r : Doc). r.tree) (revert_add a e)
      ≡ Option.map (λ ch. erase ch e.tree) (child a.ref a.child_num e.tree)
unfolding revert_add
revert_add-tree a e = elim (Option-cases (child a.ref a.child_num e.tree)) [
  | inl h ↦ rw h refl
  | inr (ch, h) ↦ rw h refl
]

child-kids : (ref num : ℕ) (f j : Tree) → kids_of ref f ≡ some j → child ref num f ≡ nth j num
unfolding child
child-kids ref num f j h = rw (h, child)

module _ (ref : ℕ) (x : Cell) (t : Tree) (new : has x.addr t ≡ false) where
  -- The child that `revert` finds is the new one.
  child-append_child :
      (n : ℕ)
      → has ref t ≡ true
      → index x.addr (append_child ref x nil t) ≡ some n
      → child ref n (append_child ref x nil t) ≡ some x.addr
  unfolding index
  child-append_child n h i = elim (Option-cases (kids_of ref t)) [
    | inl none_there ↦ absurd (cc (has-kids_of-none ref t none_there))
    | inr (j, kids) ↦
        let there = index_below-append_child x.addr x refl ref t j new kids in
        let at : some n ≡ some (count j) =
          sym (rw (sib_index-append_child x.addr x refl ref t new, index) at i) ∙ there in
        child-kids ref n _ (j ⊕ node x nil nil) (kids_of-append_child x.addr x refl ref t j kids)
        ∙ ap (nth (j ⊕ node x nil nil)) (some_inj at)
        ∙ nth_last x.addr j x
  ]

module _ (a a' : AddCell) (d d' : Doc) (done : execute_add a d ≡ some (a', d')) where
  -- After a cell was added as the last child of another, at an address that is not in the
  -- document, `revert` in any document with the resulting tree succeeds and gives back the tree from
  -- before.
  pub revert_add-execute_add :
      a.pos ≡ child_of
      → has d.fresh d.tree ≡ false
      → (e : Doc) → e.tree ≡ d'.tree
      → (r : Doc) × (revert_add a' e ≡ some r) × (r.tree ≡ d.tree)
  revert_add-execute_add p new e same =
      let (n, there, i, q, t, _) = execute_add-inv a a' d d' done in
      let x = new_node a.newcell d in
      let i' = subst (λ s. index d.fresh (grown s a.ref x d.tree) ≡ some n) p i in
      let t' = subst (λ s. grown s a.ref x d.tree ≡ d'.tree) p t in
      let at : append_child a.ref x nil d.tree ≡ e.tree = t' ∙ sym same in
      let found =
        subst (λ u. child a.ref n u ≡ some d.fresh) at
          (child-append_child a.ref x d.tree new n there i') in
      let (r, h, rt) =
        revert_add-found (record a { newref = d.fresh; child_num = n }) e d.fresh found in
      (
        r,
        subst (λ y. revert_add y e ≡ some r) q h,
        rt ∙ ap (erase d.fresh) (sym at) ∙ erase-append_child d.fresh x refl a.ref d.tree new,
      )

  kids_of-grown :
      (j : Tree)
      → a.pos ≢ child_of
      → has d.fresh d.tree ≡ false
      → has a.ref d.tree ≡ true
      → kids_of a.ref d.tree ≡ some j
      → kids_of a.ref (grown a.pos a.ref (new_node a.newcell d) d.tree) ≡ some j
  kids_of-grown j side new there kids = by_position a.pos side
    where
      distinct : d.fresh == a.ref ≡ false
      distinct = elim (Bool-cases (d.fresh == a.ref)) [
        | inl e ↦ absurd (
            let f : d.fresh ≡ a.ref = (==_iff d.fresh a.ref).0 e in
            let g : has d.fresh d.tree ≡ true = rw f there in cc)
        | inr e ↦ e
      ]

      by_position :
          (p : AddPosition)
          → p ≢ child_of
          → kids_of a.ref (grown p a.ref (new_node a.newcell d) d.tree) ≡ some j
      by_position before ne =
          kids_of-insert_before a.ref (new_node a.newcell d) distinct d.tree ∙ kids
      by_position after ne =
          kids_of-insert_after a.ref (new_node a.newcell d) distinct d.tree ∙ kids
      by_position child_of ne = absurd (ne refl)

  -- The index of the new cell.
  child_num-beside :
      (k : ℕ)
      → a.pos ≢ child_of
      → has d.fresh d.tree ≡ false
      → index a.ref d.tree ≡ some k
      → a'.child_num ≡ beside a.pos k
  child_num-beside k side new at =
      let (n, there, i, q, t, _) = execute_add-inv a a' d d' done in
      let num : n ≡ a'.child_num = ap (λ (y : AddCell). y.child_num) q in
      sym num ∙ some_inj (sym i ∙ by_position a.pos side)
    where
      by_position :
          (p : AddPosition)
          → p ≢ child_of
          → index d.fresh (grown p a.ref (new_node a.newcell d) d.tree) ≡ some (beside p k)
      by_position before ne =
          index-insert_before d.fresh (new_node a.newcell d) refl a.ref d.tree new ∙ at
      by_position after ne =
          index-insert_after d.fresh (new_node a.newcell d) refl a.ref d.tree new
          ∙ ap (Option.map suc) at
      by_position child_of ne = absurd (ne refl)

  -- After a cell was added in front of or behind another, at an address that is not in the
  -- document, `revert` erases the child of the other cell at the new cell's index, and fails where it
  -- has no such child. In front of the other cell that index is the one the
  -- other cell had, and behind it the next one.
  pub revert_add-execute_add_beside :
      (k : ℕ) (j : Tree)
      → a.pos ≢ child_of
      → has d.fresh d.tree ≡ false
      → index a.ref d.tree ≡ some k
      → kids_of a.ref d.tree ≡ some j
      → Option.map (λ (r : Doc). r.tree) (revert_add a' d')
        ≡ Option.map
            (λ ch. erase ch (grown a.pos a.ref (new_node a.newcell d) d.tree))
            (nth j (beside a.pos k))
  revert_add-execute_add_beside k j side new at kids =
      let (n, there, i, q, t, _) = execute_add-inv a a' d d' done in
      let same_ref : a.ref ≡ a'.ref = ap (λ (y : AddCell). y.ref) q in
      let kids' : kids_of a'.ref d'.tree ≡ some j =
        subst (λ y. kids_of y d'.tree ≡ some j) same_ref
          (subst (λ u. kids_of a.ref u ≡ some j) t (kids_of-grown j side new there kids)) in
      revert_add-tree a' d'
      ∙ ap (Option.map (λ ch. erase ch d'.tree)) (child-kids a'.ref a'.child_num d'.tree j kids')
      ∙ ap (λ u. Option.map (λ ch. erase ch u) (nth j a'.child_num)) (sym t)
      ∙ ap
          (λ u.
            Option.map (λ ch. erase ch (grown a.pos a.ref (new_node a.newcell d) d.tree)) (nth j u))
          (child_num-beside k side new at)
