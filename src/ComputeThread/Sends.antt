-- ===== src/ComputeThread/Sends.antt =====
-- What the thread of client_server/ComputeThread.cc sends to the server, and when.
use cadabra.Base.{
  ℕ, Bool, true, false, List, [], ◌∷◌, ◌++◌, Option, none, some, if◌then◌else◌, ◌==◌, codes,
  bytes_eq, ◌≡◌, refl, sym, ap, ◌∙◌, Bool-cases, Option-cases, inl, inr,
}
use cadabra.ComputeThread.RunningCells.{CellId, CellMap, find_running}
use cadabra.Base.Options.{some_inj}
use cadabra.Notebook.Cells.{CellType, DataCell}
use cadabra.Notebook.Cells.CellType.{python}
use cadabra.ComputeThread.{
  execute_request, execute_interrupt, exit, by_type, Effect, send, ComputeThread, Request, Spawned,
  Message, try_spawn_server, try_connect, terminate, all_cells_nonrunning, queue_nonrunning,
  on_fail, run_start, on_open, on_close, on_message, deliver, show_reply, reply, is_type, finished,
  execute_cell, stop, restart_kernel, kill_server, Event, opened, stopped, restarted, terminated,
  failed, started, closed, received, executed, handle, run_status, spawned,
}

-- The requests that were sent, the newest first.
unfoldable pub sent : List Effect → List Request
sent [] = []
sent (send r ∷ log) = r ∷ sent log
sent (_ ∷ log) = sent log

sent-queue_nonrunning : (c : CellMap) (log : List Effect) → sent (queue_nonrunning c log) ≡ sent log
unfolding queue_nonrunning sent
sent-queue_nonrunning [] log = refl
sent-queue_nonrunning ((i, a) ∷ r) log = sent-queue_nonrunning r (run_status a false ∷ log)

sent-show_reply :
    (it : ℕ) (msg : Message) (s : ComputeThread) → sent (show_reply it msg s).log ≡ sent s.log
unfolding show_reply sent
sent-show_reply it msg s = elim (Bool-cases (bytes_eq msg.output_text [])) [
  | inl e ↦ rw e
  | inr e ↦ elim (Option-cases (reply msg)) [
    | inl n ↦ rw (e, n)
    | inr ((t, text), h) ↦ elim (Bool-cases (is_type msg (codes "error"))) [
      | inl i ↦ rw (e, h, i)
      | inr i ↦ rw (e, h, i)
    ]
  ]
]

sent-on_message :
    (msg : Option Message) (s : ComputeThread) → sent (on_message msg s).log ≡ sent s.log
unfolding on_message deliver sent
sent-on_message none s = refl
sent-on_message (some msg) s = elim (Option-cases (find_running msg.parent_id s.running_cells)) [
  | inl o ↦ rw (deliver, o)
  | inr (it, o) ↦ elim (Bool-cases (finished msg)) [
    | inl f ↦ rw (deliver, o, f) (sent-show_reply it msg _)
    | inr f ↦ rw (deliver, o, f) (sent-show_reply it msg s)
  ]
]

sent-try_connect : (made : Bool) (s : ComputeThread) → sent (try_connect made s).log ≡ sent s.log
unfolding try_connect sent
sent-try_connect true s = refl
sent-try_connect false s = refl

sent-kill_server : (s : ComputeThread) → sent (kill_server s).log ≡ sent s.log
unfolding kill_server sent
sent-kill_server s = elim (Bool-cases (s.server_pid == 0)) [ inl e ↦ rw e | inr e ↦ rw e ]

sent-terminate : (s : ComputeThread) → sent (terminate s).log ≡ sent s.log
unfolding terminate sent
sent-terminate s = elim (Bool-cases (s.server_pid == 0)) [
  | inl e ↦ rw e
  | inr e ↦ elim (Bool-cases s.server_stdout) [ inl o ↦ rw (e, o) | inr o ↦ rw (e, o) ]
]

sent-on_fail :
    (p : Spawned) (made : Bool) (s t : ComputeThread)
    → on_fail p made s ≡ some t
    → sent t.log ≡ sent s.log
unfolding on_fail try_spawn_server all_cells_nonrunning sent
sent-on_fail p made s t h = elim (Bool-cases p.port_read) [
  | inr e ↦ absurd (let h' : none ≡ some t = rw e at h in cc)
  | inl e ↦
      let s1 = all_cells_nonrunning (record s { connection_is_open = false }) in
      let h' : some (try_connect made (spawned p (kill_server s1))) ≡ some t = rw e at h in
      ap (λ u. sent u.log) (sym (some_inj h'))
      ∙ sent-try_connect made (spawned p (kill_server s1))
      ∙ sent-kill_server s1
      ∙ sent-queue_nonrunning s.running_cells s.log
]

sent-run_start :
    (p : Spawned) (made : Bool) (s t : ComputeThread)
    → run_start p made s ≡ some t
    → sent t.log ≡ sent s.log
unfolding run_start try_spawn_server sent
sent-run_start p made s t h = elim (Bool-cases p.port_read) [
  | inr e ↦ absurd (let h' : none ≡ some t = rw e at h in cc)
  | inl e ↦
      let h' : some (try_connect made (spawned p s)) ≡ some t = rw e at h in
      ap (λ u. sent u.log) (sym (some_inj h')) ∙ sent-try_connect made (spawned p s)
]

abbrev pub code_only : CellType → Request → List Request
code_only python r = r ∷ []
code_only _ r = []

sent-by_type :
    (t : CellType) (a b c : ComputeThread) (r : Request) (l : List Request)
    → sent a.log ≡ r ∷ l
    → sent b.log ≡ l
    → sent c.log ≡ l
    → sent (by_type t a b c).log ≡ code_only t r ++ l
sent-by_type CellType.python a b c r l h k j = h
sent-by_type CellType.latex a b c r l h k j = k
sent-by_type CellType.document a b c r l h k j = j
sent-by_type CellType.output a b c r l h k j = j
sent-by_type CellType.verbatim a b c r l h k j = j
sent-by_type CellType.latex_view a b c r l h k j = j
sent-by_type CellType.image_png a b c r l h k j = j
sent-by_type CellType.error a b c r l h k j = j

-- What an event is to send: nothing while the connection is closed.
unfoldable pub requests : (ℕ → CellId) → Event → ComputeThread → List Request
requests id_of e s =
    if s.connection_is_open
    then (elim e [
      | stopped ↦ execute_interrupt ∷ []
      | restarted ↦ exit ∷ []
      | executed it dc ↦ code_only dc.cell_type (execute_request (id_of it) dc.textbuf)
      | _ ↦ []
    ])
    else []

arrive :
    (s t : ComputeThread) (r : List Request) → some s ≡ some t → sent s.log ≡ r → sent t.log ≡ r
arrive s t r h e = ap (λ u. sent u.log) (sym (some_inj h)) ∙ e

nothing_else : (b : Bool) (l : List Request) → l ≡ (if b then [] else []) ++ l
nothing_else true l = refl
nothing_else false l = refl

sent-execute_cell :
    (id_of : ℕ → CellId) (it : ℕ) (dc : DataCell) (s : ComputeThread)
    → sent (execute_cell (id_of it) it dc s).log ≡ requests id_of (executed it dc) s ++ sent s.log
unfolding execute_cell requests sent
sent-execute_cell id_of it dc s = elim (Bool-cases s.connection_is_open) [
  | inl c ↦ rw c (sent-by_type dc.cell_type _ _ _ _ _ refl refl refl)
  | inr c ↦ rw c
]

sent-stop :
    (id_of : ℕ → CellId) (s : ComputeThread)
    → sent (stop s).log ≡ requests id_of stopped s ++ sent s.log
unfolding stop requests sent
sent-stop id_of s = elim (Bool-cases s.connection_is_open) [ inl c ↦ rw c | inr c ↦ rw c ]

sent-restart_kernel :
    (id_of : ℕ → CellId) (s : ComputeThread)
    → sent (restart_kernel s).log ≡ requests id_of restarted s ++ sent s.log
unfolding restart_kernel requests sent
sent-restart_kernel id_of s = elim (Bool-cases s.connection_is_open) [ inl c ↦ rw c | inr c ↦ rw c ]

-- An event sends to the server what it is to send, in front of what was sent before: the code of a
-- Python cell, an interrupt or an exit while the connection is open, and nothing at all while it is
-- closed.
pub sent-handle :
    (id_of : ℕ → CellId) (e : Event) (s t : ComputeThread)
    → handle id_of e s ≡ some t
    → sent t.log ≡ requests id_of e s ++ sent s.log
unfolding handle on_open on_close stop restart_kernel requests sent
sent-handle id_of opened s t h = arrive _ t _ h (nothing_else s.connection_is_open _)
sent-handle id_of stopped s t h = arrive _ t _ h (sent-stop id_of s)
sent-handle id_of restarted s t h = arrive _ t _ h (sent-restart_kernel id_of s)
sent-handle id_of terminated s t h =
    arrive _ t _ h (sent-terminate s ∙ nothing_else s.connection_is_open _)
sent-handle id_of (failed p made) s t h =
    sent-on_fail p made s t h ∙ nothing_else s.connection_is_open _
sent-handle id_of (started p made) s t h =
    sent-run_start p made s t h ∙ nothing_else s.connection_is_open _
sent-handle id_of (closed made) s t h =
    arrive _ t _ h (sent-try_connect made _ ∙ nothing_else s.connection_is_open _)
sent-handle id_of (received msg) s t h =
    arrive _ t _ h (sent-on_message msg s ∙ nothing_else s.connection_is_open _)
sent-handle id_of (executed it dc) s t h = arrive _ t _ h (sent-execute_cell id_of it dc s)
