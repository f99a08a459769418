-- ===== src/Notebook/Text.antt =====
-- Undoing the insertion and the removal of text.
use cadabra.Base.{
  ℕ, ◌+◌, ◌≤◌, true, ◌++◌, none, some, inl, inr, Bool-cases, ◌≡◌, refl, sym, ap, ◌∙◌, leb, Bytes,
  length, take, drop, arith, take-append-drop, take-take_append, drop-take_append, drop-append_self,
  le-length-take_append,
}
use cadabra.Base.Options.{>>=-eq-some, pair_of_some, some_inj}
use mathlib.Core.Path.{subst}
use cadabra.Notebook.Cells.{DataCell, Tree, find, put}
use cadabra.Notebook.Actions.{
  gui_update_cell, gui_position_cursor, call, Doc, InsertText, EraseText, string_insert,
  string_erase, string_substr, erase_count, set_text, execute_insert, revert_insert, execute_erase,
  revert_erase,
}
use cadabra.Notebook.Lens.{find-put, put-put, put_same}

module _ (pos : ℕ) (s : Bytes) (within : pos ≤ length s) where
  -- What is written behind the first `pos` bytes is found there again.
  spliced :
      (r : Bytes) → (take pos (take pos s ++ r) ≡ take pos s) × (drop pos (take pos s ++ r) ≡ r)
  spliced r = (take-take_append pos s r within, drop-take_append pos s r within)

  spliced_within : (r : Bytes) → leb pos (length (take pos s ++ r)) ≡ true
  spliced_within r = ground (arith, le-length-take_append pos s r within)

  string_erase-inserted :
      (text : Bytes) → string_erase pos (length text) (take pos s ++ (text ++ drop pos s)) ≡ some s
  string_erase-inserted text =
      let r = text ++ drop pos s in
      rw (spliced_within r) (
        rw ((spliced r).0, (spliced r).1)
          (rw (drop-append_self text (drop pos s)) (rw (take-append-drop pos s))))

  string_insert-erased :
      (n : ℕ) → string_insert pos (take n (drop pos s)) (take pos s ++ drop n (drop pos s)) ≡ some s
  string_insert-erased n =
      let r = drop n (drop pos s) in
      rw (spliced_within r) (
        rw ((spliced r).0, (spliced r).1)
          (rw (take-append-drop n (drop pos s)) (rw (take-append-drop pos s))))

string_insert-inv :
    (pos : ℕ) (text s s' : Bytes)
    → string_insert pos text s ≡ some s'
    → (pos ≤ length s) × (s' ≡ take pos s ++ (text ++ drop pos s))
string_insert-inv pos text s s' h = elim (Bool-cases (leb pos (length s))) [
  | inl e ↦ (
    ground arith,
    sym (let h' : some (take pos s ++ (text ++ drop pos s)) ≡ some s' = rw e at h in some_inj h'),
  )
  | inr e ↦ absurd (let h' : none ≡ some s' = rw e at h in cc)
]

string_erase-string_insert :
    (pos : ℕ) (text s : Bytes) {s' : Bytes}
    → string_insert pos text s ≡ some s'
    → string_erase pos (length text) s' ≡ some s
string_erase-string_insert pos text s {s'} h =
    let (within, e) = string_insert-inv pos text s s' h in
    rw e (string_erase-inserted pos s within text)

string_insert-string_erase :
    (pos n : ℕ) (s : Bytes) {s' removed : Bytes}
    → string_substr pos n s ≡ some removed
    → string_erase pos n s ≡ some s'
    → string_insert pos removed s' ≡ some s
string_insert-string_erase pos n s {s'} {removed} h k = elim (Bool-cases (leb pos (length s))) [
  | inl e ↦
      let p : take n (drop pos s) ≡ removed =
        let h' : some (take n (drop pos s)) ≡ some removed = rw e at h in some_inj h' in
      let q : take pos s ++ drop n (drop pos s) ≡ s' =
        let k' : some (take pos s ++ drop n (drop pos s)) ≡ some s' = rw e at k in some_inj k' in
      rw (← p, ← q) (string_insert-erased pos s (ground arith) n)
  | inr e ↦ absurd (let h' : none ≡ some removed = rw e at h in cc)
]

-- A cell whose text was replaced is what it was when the text is put back.
put_back :
    (i : ℕ) (t u : Tree) (c : DataCell) (s : Bytes)
    → find i t ≡ some c
    → put i (record c { textbuf = s }) t ≡ u
    → (find i u ≡ some (record c { textbuf = s })) × (put i c u ≡ t)
put_back i t u c s f q = (
  rw (← q) (find-put i t c (record c { textbuf = s }) f),
  rw (← q) (put-put i t (record c { textbuf = s }) c ∙ put_same i t c f),
)

module _ (a : InsertText) (e : Doc) (c : DataCell) (s : Bytes) where
  revert_insert-found :
      find a.this_cell e.tree ≡ some c
      → string_erase a.insert_pos (length a.text) c.textbuf ≡ some s
      → (r : Doc) × (revert_insert a e ≡ some r)
        × (r.tree ≡ put a.this_cell (record c { textbuf = s }) e.tree)
  unfolding revert_insert
  revert_insert-found f g =
      (call (gui_update_cell a.this_cell) (set_text a.this_cell c s e), rw f (rw g), refl)

module _ (a : EraseText) (e : Doc) (c : DataCell) (s : Bytes) where
  revert_erase-found :
      find a.this_cell e.tree ≡ some c
      → string_insert a.from_pos a.removed_text c.textbuf ≡ some s
      → (r : Doc) × (revert_erase a e ≡ some r)
        × (r.tree ≡ put a.this_cell (record c { textbuf = s }) e.tree)
  unfolding revert_erase
  revert_erase-found f g =
      let moved = gui_position_cursor a.this_cell (some (a.from_pos + length a.removed_text)) in
      (
        call moved (call (gui_update_cell a.this_cell) (set_text a.this_cell c s e)),
        rw f (rw g),
        refl,
      )

module _ (a a' : InsertText) (d d' : Doc) (done : execute_insert a d ≡ some (a', d')) where
  pub execute_insert-inv :
      (c : DataCell) × (s : Bytes) × (find a.this_cell d.tree ≡ some c)
      × (string_insert a.insert_pos a.text c.textbuf ≡ some s)
      × (a ≡ a')
      × (set_text a.this_cell c s d ≡ d')
  unfolding execute_insert
  execute_insert-inv =
      let (c, f, h1) = >>=-eq-some (find a.this_cell d.tree) _ done in
      let (s, g, h2) = >>=-eq-some (string_insert a.insert_pos a.text c.textbuf) _ h1 in
      let (p, q) = pair_of_some h2 in (c, s, f, g, p, q)

  -- After text was inserted, `revert` in any document with the resulting tree succeeds and gives
  -- back the tree from before.
  pub revert_insert-execute_insert :
      (e : Doc) → e.tree ≡ d'.tree → (r : Doc) × (revert_insert a' e ≡ some r) × (r.tree ≡ d.tree)
  revert_insert-execute_insert e same =
      let (c, s, f, g, p, q) = execute_insert-inv in
      let (found, back) =
        put_back a.this_cell d.tree e.tree c s f (ap (λ (x : Doc). x.tree) q ∙ sym same) in
      let (r, h, t) =
        revert_insert-found a e (record c { textbuf = s }) c.textbuf found
          (string_erase-string_insert a.insert_pos a.text c.textbuf g) in
      (r, subst (λ x. revert_insert x e ≡ some r) p h, t ∙ back)

module _ (a a' : EraseText) (d d' : Doc) (done : execute_erase a d ≡ some (a', d')) where
  pub execute_erase-inv :
      (c : DataCell) × (s removed : Bytes) × (find a.this_cell d.tree ≡ some c)
      × (string_substr a.from_pos (erase_count a c.textbuf) c.textbuf ≡ some removed)
      × (string_erase a.from_pos (erase_count a c.textbuf) c.textbuf ≡ some s)
      × (record a { removed_text = removed } ≡ a')
      × (set_text a.this_cell c s d ≡ d')
  unfolding execute_erase
  execute_erase-inv =
      let (c, f, h1) = >>=-eq-some (find a.this_cell d.tree) _ done in
      let n = erase_count a c.textbuf in
      let (removed, g, h2) = >>=-eq-some (string_substr a.from_pos n c.textbuf) _ h1 in
      let (s, k, h3) = >>=-eq-some (string_erase a.from_pos n c.textbuf) _ h2 in
      let (p, q) = pair_of_some h3 in (c, s, removed, f, g, k, p, q)

  -- After text was erased, `revert` in any document with the resulting tree succeeds and gives back
  -- the tree from before.
  pub revert_erase-execute_erase :
      (e : Doc) → e.tree ≡ d'.tree → (r : Doc) × (revert_erase a' e ≡ some r) × (r.tree ≡ d.tree)
  revert_erase-execute_erase e same =
      let (c, s, removed, f, g, k, p, q) = execute_erase-inv in
      let (found, back) =
        put_back a.this_cell d.tree e.tree c s f (ap (λ (x : Doc). x.tree) q ∙ sym same) in
      let (r, h, t) =
        revert_erase-found (record a { removed_text = removed }) e (record c { textbuf = s })
          c.textbuf found
          (string_insert-string_erase a.from_pos (erase_count a c.textbuf) c.textbuf g k) in
      (r, subst (λ x. revert_erase x e ≡ some r) p h, t ∙ back)
