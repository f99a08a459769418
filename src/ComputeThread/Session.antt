-- ===== src/ComputeThread/Session.antt =====
-- Sessions of the thread of client_server/ComputeThread.cc: any events in any order.
use cadabra.Base.{
  ℕ, Bool, true, false, ◌&&◌, List, [], ◌∷◌, Option, none, some, ◌≡◌, refl, sym, ap, ◌∙◌, arith,
  Bool-cases, inl, inr,
}
use cadabra.Notebook.Cells.{CellType, DataCell}
use cadabra.ComputeThread.RunningCells.{CellId, CellMap, holds, assign}
use cadabra.ComputeThread.{
  ComputeThread, initial, busy, some_running, by_type, Message, terminate, all_cells_nonrunning,
  on_open, on_close, on_message, execute_cell, stop, restart_kernel, Event, opened, stopped,
  restarted, terminated, failed, started, closed, received, executed, handle, run,
}
use cadabra.ComputeThread.Status.{
  status, Tracks, Tracks-all_cells_nonrunning, Tracks-execute_cell, Tracks-on_message, Tracks-same,
  status-Tracks, Tracks-initial,
}
use cadabra.ComputeThread.Quiet.{
  Quiet, indicator, Quiet-on_open, Quiet-on_close, Quiet-stop, Quiet-terminate, Quiet-on_fail,
  Quiet-run_start,
}

-- A port could be read from the server that was started.
unfoldable pub port_read : Event → Bool
port_read (failed p made) = p.port_read
port_read (started p made) = p.port_read
port_read _ = true

unfoldable pub every_event : (Event → Bool) → List Event → Bool
every_event ok [] = true
every_event ok (e ∷ es) = ok e && every_event ok es

-- What every such event keeps, a session of them keeps.
run_kept :
    (id_of : ℕ → CellId) (P : ComputeThread → Type 0) (ok : Event → Bool)
    → ((e : Event) (s : ComputeThread)
        → P s
        → ok e ≡ true
        → (t : ComputeThread) × (handle id_of e s ≡ some t) × P t)
    → (es : List Event) (s : ComputeThread) → P s
    → every_event ok es ≡ true
    → (t : ComputeThread) × (run id_of es s ≡ some t) × P t
unfolding run every_event
run_kept id_of P ok kept [] s h p = (s, refl, h)
run_kept id_of P ok kept (e ∷ es) s h p =
    let (t, eq, k) = kept e s h (ground (arith, p)) in
    let (u, eq', k') = run_kept id_of P ok kept es t k (ground (arith, p)) in (u, rw eq eq', k')

module _ (id_of : ℕ → CellId) (injective : (a b : ℕ) → id_of a ≡ id_of b → a ≡ b) where
  abbrev Ends : Event → ComputeThread → Type 0
  Ends e s = (t : ComputeThread) × (handle id_of e s ≡ some t) × Tracks id_of injective t

  abbrev T : ComputeThread → Type 0
  T = Tracks id_of injective

  Tracks-Quiet : (s t : ComputeThread) → Quiet s t → T s → T t
  Tracks-Quiet s t q h = Tracks-same id_of injective s t q.statuses q.cells h

  Tracks-restart_kernel : (s : ComputeThread) → T s → T (restart_kernel s)
  unfolding restart_kernel status
  Tracks-restart_kernel s h = elim (Bool-cases s.connection_is_open) [
    | inl e ↦ rw e (Tracks-same id_of injective s _ (λ x. refl) refl h)
    | inr e ↦ rw e (Tracks-same id_of injective s _ (λ x. refl) refl h)
  ]

  Tracks-handle : (e : Event) (s : ComputeThread) → T s → port_read e ≡ true → Ends e s
  unfolding handle port_read
  Tracks-handle opened s h p = (on_open s, refl, Tracks-Quiet s _ (Quiet-on_open s) h)
  Tracks-handle stopped s h p = (stop s, refl, Tracks-Quiet s _ (Quiet-stop s) h)
  Tracks-handle restarted s h p = (restart_kernel s, refl, Tracks-restart_kernel s h)
  Tracks-handle terminated s h p = (terminate s, refl, Tracks-Quiet s _ (Quiet-terminate s) h)
  Tracks-handle (started p made) s h ok =
      let (t, e, q) = Quiet-run_start p made s ok in (t, e, Tracks-Quiet s t q h)
  Tracks-handle (failed p made) s h ok =
      let off = record s { connection_is_open = false } in
      let (t, e, q) = Quiet-on_fail p made s ok in
      (
        t,
        e,
        Tracks-Quiet (all_cells_nonrunning off) t q (
            Tracks-all_cells_nonrunning id_of injective off
              (Tracks-same id_of injective s off (λ x. refl) refl h)),
      )
  Tracks-handle (closed made) s h p =
      (on_close made s, refl, Tracks-Quiet s _ (Quiet-on_close made s) h)
  Tracks-handle (received msg) s h p =
      (on_message msg s, refl, Tracks-on_message id_of injective msg s h)
  Tracks-handle (executed it dc) s h p =
      (execute_cell (id_of it) it dc s, refl, Tracks-execute_cell id_of injective it dc s h)

  -- A session from the start, in which no two cells have the same id and a port could be read from
  -- every server that was started, ends, whatever the events and their order; and the run status
  -- that was queued last for any cell then says whether it is among the running cells.
  pub run-status :
      (events : List Event)
      → every_event port_read events ≡ true
      → (x : ℕ)
      → (s : ComputeThread) × (run id_of events initial ≡ some s)
        × (status x s.log ≡ holds (id_of x) s.running_cells)
  run-status events p x =
      let (s, e, h) =
        run_kept id_of T port_read Tracks-handle events initial (Tracks-initial id_of injective)
          p in
      (s, e, status-Tracks id_of injective x s h)

-- A session in which the kernel is not restarted.
unfoldable pub orderly : Event → Bool
orderly restarted = false
orderly e = port_read e

module _ (id_of : ℕ → CellId) where
  -- The GUI was told last whether cells are running.
  abbrev pub Shows : ComputeThread → Type 0
  Shows s = indicator s.log ≡ busy s

  Shows-Quiet : (s t : ComputeThread) → Quiet s t → Shows s → Shows t
  Shows-Quiet s t q h = q.told ∙ h ∙ ap some_running (sym q.cells)

  some_running-assign : (i : CellId) (a : ℕ) (c : CellMap) → some_running (assign i a c) ≡ true
  unfolding assign
  some_running-assign i a [] = refl
  some_running-assign i a ((j, b) ∷ r) = ground arith

  Shows-by_type :
      (t : CellType) (a b c : ComputeThread) → Shows a → Shows b → Shows c → Shows (by_type t a b c)
  Shows-by_type CellType.python a b c h k l = h
  Shows-by_type CellType.latex a b c h k l = k
  Shows-by_type CellType.document a b c h k l = l
  Shows-by_type CellType.output a b c h k l = l
  Shows-by_type CellType.verbatim a b c h k l = l
  Shows-by_type CellType.latex_view a b c h k l = l
  Shows-by_type CellType.image_png a b c h k l = l
  Shows-by_type CellType.error a b c h k l = l

  Shows-execute_cell :
      (i : CellId) (it : ℕ) (dc : DataCell) (s : ComputeThread)
      → Shows s
      → Shows (execute_cell i it dc s)
  unfolding execute_cell indicator
  Shows-execute_cell i it dc s h = elim (Bool-cases s.connection_is_open) [
    | inr c ↦ rw c h
    | inl c ↦
        rw c (Shows-by_type dc.cell_type _ _ _ (sym (some_running-assign i it s.running_cells)) h h)
  ]

  pub Shows-on_message :
      (msg : Option Message) (s : ComputeThread) → Shows s → Shows (on_message msg s)
  unfolding on_message indicator
  Shows-on_message none s h = h
  Shows-on_message (some msg) s h = refl

  Shows-handle :
      (e : Event) (s : ComputeThread)
      → Shows s
      → orderly e ≡ true
      → (t : ComputeThread) × (handle id_of e s ≡ some t) × Shows t
  unfolding handle orderly port_read all_cells_nonrunning indicator
  Shows-handle opened s h p = (on_open s, refl, Shows-Quiet s _ (Quiet-on_open s) h)
  Shows-handle stopped s h p = (stop s, refl, Shows-Quiet s _ (Quiet-stop s) h)
  Shows-handle restarted s h p = absurd (cc)
  Shows-handle terminated s h p = (terminate s, refl, Shows-Quiet s _ (Quiet-terminate s) h)
  Shows-handle (started p made) s h ok =
      let (t, e, q) = Quiet-run_start p made s ok in (t, e, Shows-Quiet s t q h)
  Shows-handle (failed p made) s h ok =
      let (t, e, q) = Quiet-on_fail p made s ok in (t, e, Shows-Quiet _ t q refl)
  Shows-handle (closed made) s h p =
      (on_close made s, refl, Shows-Quiet s _ (Quiet-on_close made s) h)
  Shows-handle (received msg) s h p = (on_message msg s, refl, Shows-on_message msg s h)
  Shows-handle (executed it dc) s h p =
      (execute_cell (id_of it) it dc s, refl, Shows-execute_cell (id_of it) it dc s h)

  -- A session from the start, in which the kernel is not restarted and a port could be read from
  -- every server that was started, ends, and what the GUI was told last of the kernel, running or
  -- not, is whether there are running cells.
  pub run-indicator :
      (events : List Event)
      → every_event orderly events ≡ true
      → (s : ComputeThread) × (run id_of events initial ≡ some s) × (indicator s.log ≡ busy s)
  unfolding indicator
  run-indicator events p = run_kept id_of Shows orderly Shows-handle events initial refl p
