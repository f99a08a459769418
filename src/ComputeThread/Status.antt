-- ===== src/ComputeThread/Status.antt =====
-- The run status that the thread of client_server/ComputeThread.cc last queued for a cell, and the
-- cells that it takes for running.
use cadabra.Base.{
  ℕ, Bool, true, false, ◌||◌, List, [], ◌∷◌, Option, none, some, ◌==◌, ==_iff, if◌then◌else◌, codes,
  bytes_eq, ◌≡◌, refl, sym, ap, ◌∙◌, arith, Bool-cases, Option-cases, inl, inr,
}
use mathlib.Core.Path.{subst}
use cadabra.Base.Options.{some_inj}
use cadabra.Notebook.Cells.{CellType, DataCell}
use cadabra.Notebook.Actions.{set_run_status}
use cadabra.ComputeThread.RunningCells.{
  CellId, CellMap, find_running, assign, erase_running, holds, id_less, id_eq, id_eq_iff,
  holds-assign, holds-erase_running,
}
use cadabra.ComputeThread.{
  Effect, queued, ComputeThread, Message, run_status, queue_nonrunning, all_cells_nonrunning,
  show_reply, reply, is_type, deliver, finished, on_message, execute_cell, by_type, emit, initial,
}

-- The status that was queued last for the cell at this place.
unfoldable pub status : ℕ → List Effect → Bool
status x [] = false
status x (queued (set_run_status a) ∷ r) =
    let earlier = status x r in if a.this_cell == x then a.new_running else earlier
status x (_ ∷ r) = status x r

status-queue_nonrunning :
    (x : ℕ) (c : CellMap) (log : List Effect)
    → status x log ≡ false
    → status x (queue_nonrunning c log) ≡ false
unfolding queue_nonrunning status
status-queue_nonrunning x [] log h = h
status-queue_nonrunning x ((i, a) ∷ r) log h =
    status-queue_nonrunning x r (run_status a false ∷ log) (ground (arith, h))

pub status-show_reply :
    (x it : ℕ) (msg : Message) (s : ComputeThread)
    → (status x (show_reply it msg s).log ≡ status x s.log)
      × ((show_reply it msg s).running_cells ≡ s.running_cells)
unfolding show_reply status
status-show_reply x it msg s = elim (Bool-cases (bytes_eq msg.output_text [])) [
  | inl e ↦ rw e (refl, refl)
  | inr e ↦ elim (Option-cases (reply msg)) [
    | inl n ↦ rw (e, n) (refl, refl)
    | inr ((t, text), h) ↦ elim (Bool-cases (is_type msg (codes "error"))) [
      | inl i ↦ rw (e, h, i) (refl, refl)
      | inr i ↦ rw (e, h, i) (refl, refl)
    ]
  ]
]

module _ (id_of : ℕ → CellId) where
  -- Every cell is in the map under its own id.
  unfoldable pub WellKeyed : CellMap → Type 0
  WellKeyed [] = Unit
  WellKeyed ((i, a) ∷ r) = (i ≡ id_of a) × WellKeyed r

  WellKeyed-assign : (a : ℕ) (c : CellMap) → WellKeyed c → WellKeyed (assign (id_of a) a c)
  unfolding WellKeyed assign
  WellKeyed-assign a [] h = (refl, tt)
  WellKeyed-assign a ((j, b) ∷ r) h = elim (Bool-cases (id_eq j (id_of a))) [
    | inl e ↦ rw e (refl, h.1)
    | inr e ↦ elim (Bool-cases (id_less (id_of a) j)) [
      | inl l ↦ rw (e, l) (refl, h)
      | inr l ↦ rw (e, l) (h.0, WellKeyed-assign a r h.1)
    ]
  ]

  WellKeyed-erase_running : (i : CellId) (c : CellMap) → WellKeyed c → WellKeyed (erase_running i c)
  unfolding WellKeyed erase_running
  WellKeyed-erase_running i [] h = tt
  WellKeyed-erase_running i ((j, b) ∷ r) h = elim (Bool-cases (id_eq j i)) [
    | inl e ↦ rw e (WellKeyed-erase_running i r h.1)
    | inr e ↦ rw e (h.0, WellKeyed-erase_running i r h.1)
  ]

  find_running-WellKeyed :
      (i : CellId) (a : ℕ) (c : CellMap) → WellKeyed c → find_running i c ≡ some a → i ≡ id_of a
  unfolding WellKeyed find_running
  find_running-WellKeyed i a [] h e = absurd (cc)
  find_running-WellKeyed i a ((j, b) ∷ r) h e = elim (Bool-cases (id_eq j i)) [
    | inl q ↦
        let same : some b ≡ some a = rw q at e in
        let j≡i = (id_eq_iff j i).0 q in sym j≡i ∙ h.0 ∙ ap id_of (some_inj same)
    | inr q ↦ find_running-WellKeyed i a r h.1 (rw q at e)
  ]

module _ (id_of : ℕ → CellId) (injective : (a b : ℕ) → id_of a ≡ id_of b → a ≡ b) where
  same_id : (a b : ℕ) → id_eq (id_of a) (id_of b) ≡ (a == b)
  same_id a b = elim (Bool-cases (id_eq (id_of a) (id_of b))) [
    | inl e ↦ let a≡b = injective a b ((id_eq_iff _ _).0 e) in e ∙ sym ((==_iff a b).1 a≡b)
    | inr e ↦ elim (Bool-cases (a == b)) [
      | inr f ↦ e ∙ sym f
      | inl f ↦
          let a≡b : a ≡ b = (==_iff a b).0 f in
          absurd (let h = (id_eq_iff (id_of a) (id_of b)).1 (ap id_of a≡b) in cc)
    ]
  ]

  nonrunning-status :
      (x : ℕ) (c : CellMap) (log : List Effect)
      → WellKeyed id_of c
      → (status x log ≡ true → holds (id_of x) c ≡ true)
      → status x (queue_nonrunning c log) ≡ false
  unfolding queue_nonrunning WellKeyed holds status
  nonrunning-status x [] log k h = elim (Bool-cases (status x log)) [
    | inl e ↦ absurd (let h' : false ≡ true = h e in cc)
    | inr e ↦ e
  ]
  nonrunning-status x ((i, a) ∷ r) log k h = elim (Bool-cases (a == x)) [
    | inl e ↦ status-queue_nonrunning x r (run_status a false ∷ log) (rw e)
    | inr e ↦
        let other : id_eq i (id_of x) ≡ false = ap (λ j. id_eq j (id_of x)) k.0 ∙ same_id a x ∙ e in
        nonrunning-status x r (run_status a false ∷ log) k.1 (λ q.
          let q' : status x log ≡ true = rw e at q in
          let q'' : (id_eq i (id_of x) || holds (id_of x) r) ≡ true = h q' in rw other at q'')
  ]

  -- The status that was queued last says which cells run.
  unfoldable pub Tracks : ComputeThread → Type 0
  Tracks s =
      ((x : ℕ) → status x s.log ≡ holds (id_of x) s.running_cells) × WellKeyed id_of s.running_cells

  pub Tracks-all_cells_nonrunning : (s : ComputeThread) → Tracks s → Tracks (all_cells_nonrunning s)
  unfolding Tracks all_cells_nonrunning holds WellKeyed status
  Tracks-all_cells_nonrunning s h =
      (λ x. nonrunning-status x s.running_cells s.log h.1 (λ e. sym (h.0 x) ∙ e), tt)

  pub Tracks-same :
      (s t : ComputeThread)
      → ((x : ℕ) → status x t.log ≡ status x s.log)
      → t.running_cells ≡ s.running_cells
      → Tracks s
      → Tracks t
  unfolding Tracks
  Tracks-same s t l c h =
      (λ x. l x ∙ h.0 x ∙ ap (holds (id_of x)) (sym c), subst (WellKeyed id_of) (sym c) h.1)

  pub status-Tracks :
      (x : ℕ) (s : ComputeThread) → Tracks s → status x s.log ≡ holds (id_of x) s.running_cells
  unfolding Tracks
  status-Tracks x s h = h.0 x

  pub Tracks-initial : Tracks initial
  unfolding Tracks status holds WellKeyed
  Tracks-initial = (λ x. refl, tt)

  Tracks-by_type :
      (t : CellType) (a b c : ComputeThread)
      → Tracks a
      → Tracks b
      → Tracks c
      → Tracks (by_type t a b c)
  Tracks-by_type CellType.python a b c h k l = h
  Tracks-by_type CellType.latex a b c h k l = k
  Tracks-by_type CellType.document a b c h k l = l
  Tracks-by_type CellType.output a b c h k l = l
  Tracks-by_type CellType.verbatim a b c h k l = l
  Tracks-by_type CellType.latex_view a b c h k l = l
  Tracks-by_type CellType.image_png a b c h k l = l
  Tracks-by_type CellType.error a b c h k l = l

  pub Tracks-execute_cell :
      (it : ℕ) (dc : DataCell) (s : ComputeThread)
      → Tracks s
      → Tracks (execute_cell (id_of it) it dc s)
  unfolding Tracks execute_cell status
  Tracks-execute_cell it dc s h = elim (Bool-cases s.connection_is_open) [
    | inr c ↦ rw c h
    | inl c ↦ rw c (
        Tracks-by_type dc.cell_type _ _ _
          (
            λ x.
                ground (
                  arith,
                  h.0 x,
                  same_id it x,
                  holds-assign (id_of x) (id_of it) it s.running_cells,
                ),
            WellKeyed-assign id_of it s.running_cells h.1,
          )
          h h)
  ]

  Tracks-show_reply :
      (it : ℕ) (msg : Message) (s : ComputeThread) → Tracks s → Tracks (show_reply it msg s)
  unfolding Tracks
  Tracks-show_reply it msg s h = (
    λ x.
        let same = status-show_reply x it msg s in
        same.0 ∙ h.0 x ∙ ap (holds (id_of x)) (sym same.1),
    subst (WellKeyed id_of) (sym (status-show_reply 0 it msg s).1) h.1,
  )

  keyed : (s : ComputeThread) → Tracks s → WellKeyed id_of s.running_cells
  unfolding Tracks
  keyed s h = h.1

  Tracks-ended :
      (it : ℕ) (i : CellId) (s : ComputeThread)
      → Tracks s
      → i ≡ id_of it
      → Tracks (
          emit (run_status it false) (record s { running_cells = erase_running i s.running_cells }))
  unfolding Tracks status
  Tracks-ended it i s h key = (
    λ x. ground (
      arith,
      h.0 x,
      same_id it x,
      ap (λ j. id_eq j (id_of x)) key,
      holds-erase_running (id_of x) i s.running_cells,
    ),
    WellKeyed-erase_running id_of i s.running_cells h.1,
  )

  Tracks-deliver : (msg : Message) (s : ComputeThread) → Tracks s → Tracks (deliver msg s)
  unfolding deliver
  Tracks-deliver msg s h = elim (Option-cases (find_running msg.parent_id s.running_cells)) [
    | inl o ↦ rw (deliver, o) h
    | inr (it, o) ↦
        let key = find_running-WellKeyed id_of msg.parent_id it s.running_cells (keyed s h) o in
        elim (Bool-cases (finished msg)) [
          | inr f ↦ rw (deliver, o, f) (Tracks-show_reply it msg s h)
          | inl f ↦
              rw (deliver, o, f)
                (Tracks-show_reply it msg _ (Tracks-ended it msg.parent_id s h key))
        ]
  ]

  pub Tracks-on_message :
      (msg : Option Message) (s : ComputeThread) → Tracks s → Tracks (on_message msg s)
  unfolding Tracks on_message status
  Tracks-on_message none s h = h
  Tracks-on_message (some msg) s h = Tracks-deliver msg s h
