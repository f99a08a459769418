-- ===== src/ComputeThread/Tests.antt =====
-- Sessions of the thread that talks to the server, and the theorems there.
use cadabra.Base.{ℕ, true, false, List, [], ◌∷◌, ◌++◌, map, some, ◌≡◌, refl, ap, codes, bytes_eq}
use cadabra.Notebook.Cells.{DataCell}
use cadabra.Notebook.Cells.CellType.{python}
use cadabra.ComputeThread.RunningCells.{CellId, holds, id_eq}
use cadabra.ComputeThread.{
  ComputeThread, initial, busy, Message, Event, opened, started, executed, received, restarted,
  handle, run, send, stop, terminate, restart_kernel, finished, is_type, Effect, stop_client,
  execute_interrupt,
}
use cadabra.ComputeThread.Status.{status}
use cadabra.ComputeThread.Quiet.{indicator}
use cadabra.ComputeThread.Session.{port_read, every_event, orderly, run-status, run-indicator}
use cadabra.ComputeThread.Drain.{all_finished, answers, covers, run-drain}
use cadabra.ComputeThread.Sends.{sent, requests, sent-handle}

abbrev id_of : ℕ → CellId
id_of x = record { id = x; created_by_client = true }

abbrev code_cell : DataCell
code_cell = record { cell_type = python; textbuf = codes "x:=1;"; hidden = false; running = false }

abbrev reply_to : ℕ → Message
reply_to x = record { msg_type = codes "output"; output_text = codes "1"; parent_id = id_of x }

abbrev session : List Event
session =
    started (record { pid = 9; port_read = true }) true
    ∷ opened
    ∷ executed 0 code_cell
    ∷ executed 7 code_cell
    ∷ received (some (reply_to 0))
    ∷ []

run-status_example :
    (s : ComputeThread) × (run id_of session initial ≡ some s)
    × (status 7 s.log ≡ holds (id_of 7) s.running_cells)
unfolding every_event port_read
run-status_example = run-status id_of (λ a b h. ap (λ i. i.id) h) session refl 7

run-indicator_example :
    (s : ComputeThread) × (run id_of session initial ≡ some s) × (indicator s.log ≡ busy s)
unfolding every_event orderly port_read
run-indicator_example = run-indicator id_of session refl

-- Two cells are running.
abbrev two_running : ComputeThread
two_running = record initial {
  connection_is_open = true;
  running_cells = (id_of 0, 0) ∷ (id_of 7, 7) ∷ [];
  log = Effect.on_kernel_runstatus true ∷ [];
}

run-drain_example :
    (t : ComputeThread) × (run id_of
        (map (λ msg. received (some msg)) (reply_to 7 ∷ reply_to 3 ∷ reply_to 0 ∷ []))
        two_running
      ≡ some t)
    × (t.running_cells ≡ [])
    × (indicator t.log ≡ false)
unfolding all_finished finished is_type bytes_eq covers answers id_eq indicator
run-drain_example =
    run-drain id_of (reply_to 7 ∷ reply_to 3 ∷ reply_to 0 ∷ []) two_running refl refl refl

sent-handle_example :
    sent (restart_kernel two_running).log
    ≡ requests id_of restarted two_running ++ sent two_running.log
unfolding handle
sent-handle_example = sent-handle id_of restarted two_running (restart_kernel two_running) refl

-- After a restart the GUI is told that nothing runs, and both cells stay among the running ones.
restart_kernel-still_busy :
    (indicator (restart_kernel two_running).log ≡ false)
    × (busy (restart_kernel two_running) ≡ true)
unfolding restart_kernel indicator
restart_kernel-still_busy = (refl, refl)

-- After an interrupt the server that was started is not killed at the end.
terminate-stop :
    (terminate (stop (record two_running { server_pid = 42 }))).log
    ≡ stop_client ∷ send execute_interrupt ∷ Effect.on_kernel_runstatus true ∷ []
unfolding terminate stop
terminate-stop = refl
