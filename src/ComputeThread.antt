-- ===== src/ComputeThread.antt =====
-- client_server/ComputeThread.cc: the thread of the client that talks to the server. The network
-- library, the pipe to the server and the GUI are known by the calls they get, which the log holds,
-- the newest first. `set_master` has been called, so there is a GUI.
pub mod RunningCells
pub mod Status
pub mod Quiet
pub mod Session
pub mod Drain
pub mod Sends
mod Tests
use cadabra.Base.{
  ℕ, Bool, true, false, not, ◌&&◌, ◌||◌, List, [], ◌∷◌, ◌++◌, Option, none, some, ◌==◌,
  if◌then◌else◌, Bytes, codes, bytes_eq,
}
use cadabra.Base.Options.{◌>>=◌}
use cadabra.Notebook.Cells.{CellType, DataCell}
use cadabra.Notebook.Cells.CellType.{python, latex, output, verbatim, latex_view, image_png, error}
use cadabra.Notebook.Actions.{
  Action, add_cell, position_cursor, set_run_status, AddPosition, child_of, CursorPosition, here,
  next, data_cell,
}
use cadabra.ComputeThread.RunningCells.{CellId, CellMap, find_running, assign, erase_running}

-- The messages to the server.
pub data Request : Type 0 where
  execute_request : CellId → Bytes → Request
  execute_interrupt : Request
  exit : Request

-- The calls of the document thread, of the GUI, of the network library and of the system.
pub data Effect : Type 0 where
  queued : Action → Effect
  process_data on_connect on_network_error : Effect
  on_disconnect : Bytes → Effect
  on_kernel_runstatus : Bool → Effect
  send : Request → Effect
  connect stop_client spawn_server : Effect
  kill pclose : ℕ → Effect

-- `ComputeThread`, with the process that it has started.
pub record ComputeThread : Type 0 where
  pub connection_is_open : Bool
  pub restarting_kernel : Bool
  pub server_pid : ℕ
  pub server_stdout : Bool
  pub running_cells : CellMap
  pub log : List Effect

abbrev pub initial : ComputeThread
initial = record {
  connection_is_open = false;
  restarting_kernel = false;
  server_pid = 0;
  server_stdout = false;
  running_cells = [];
  log = [];
}

abbrev pub emit : Effect → ComputeThread → ComputeThread
emit x s = record s { log = x ∷ s.log }

-- What the server's process gives: its number, and whether a port could be read from it.
pub record Spawned : Type 0 where
  pub pid : ℕ
  pub port_read : Bool

-- A message of the server that could be parsed.
pub record Message : Type 0 where
  pub msg_type : Bytes
  pub output_text : Bytes
  pub parent_id : CellId

abbrev pub run_status : ℕ → Bool → Effect
run_status a b =
    queued (set_run_status (record { this_cell = a; was_running = false; new_running = b }))

abbrev pub cursor : ℕ → CursorPosition → Effect
cursor a p =
    queued (position_cursor (record { needed_new_cell = false; ref = a; newref = 0; pos = p }))

abbrev pub result_cell : ℕ → CellType → Bytes → Effect
result_cell a t text = queued (
    add_cell
      (record { newcell = data_cell t text; ref = a; pos = child_of; newref = 0; child_num = 0 }))

-- Without a port the exception leaves the thread.
abbrev pub spawned : Spawned → ComputeThread → ComputeThread
spawned p s = record (emit spawn_server s) { server_pid = p.pid; server_stdout = true }

unfoldable pub try_spawn_server : Spawned → ComputeThread → Option ComputeThread
try_spawn_server p s = if p.port_read then some (spawned p s) else none

-- Whether the library made a connection object.
unfoldable pub try_connect : Bool → ComputeThread → ComputeThread
try_connect made s = if made then emit connect s else s

-- `run`, up to the loop of the network library, which calls the handlers.
unfoldable pub run_start : Spawned → Bool → ComputeThread → Option ComputeThread
run_start p made s = try_spawn_server p s >>= λ s2. some (try_connect made s2)

unfoldable pub terminate : ComputeThread → ComputeThread
terminate s =
    let s1 = emit stop_client s in
    if s.server_pid == 0
    then s1
    else if s.server_stdout
    then emit (pclose s.server_pid) (emit (kill s.server_pid) s1)
    else emit (kill s.server_pid) s1

-- The loop of `all_cells_nonrunning`.
unfoldable pub queue_nonrunning : CellMap → List Effect → List Effect
queue_nonrunning [] log = log
queue_nonrunning ((i, a) ∷ r) log = queue_nonrunning r (run_status a false ∷ log)

unfoldable pub all_cells_nonrunning : ComputeThread → ComputeThread
all_cells_nonrunning s = record s {
  running_cells = [];
  log = on_kernel_runstatus false ∷ process_data ∷ queue_nonrunning s.running_cells s.log;
}

unfoldable pub kill_server : ComputeThread → ComputeThread
kill_server s =
    if s.server_pid == 0
    then s
    else emit on_network_error (record (emit (kill s.server_pid) s) { server_pid = 0 })

unfoldable pub on_fail : Spawned → Bool → ComputeThread → Option ComputeThread
on_fail p made s =
    let s1 = all_cells_nonrunning (record s { connection_is_open = false }) in
    try_spawn_server p (kill_server s1) >>= λ s2. some (try_connect made s2)

unfoldable pub on_open : ComputeThread → ComputeThread
on_open s = emit on_connect (record s { connection_is_open = true; restarting_kernel = false })

unfoldable pub on_close : Bool → ComputeThread → ComputeThread
on_close made s =
    let why = if s.restarting_kernel then codes "restarting kernel" else codes "not connected" in
    try_connect made (emit (on_disconnect why) (record s { connection_is_open = false }))

unfoldable pub is_type : Message → Bytes → Bool
is_type msg t = bytes_eq msg.msg_type t

unfoldable pub finished : Message → Bool
finished msg = is_type msg (codes "output") || is_type msg (codes "error")

-- The cell that shows the result: the branch of a kernel fault inside that of an error is never
-- taken.
unfoldable pub reply : Message → Option (CellType × Bytes)
reply msg =
    let text = msg.output_text in
    let boxed = codes "\\begin{verbatim}" ++ (text ++ codes "\\end{verbatim}") in
    let framed = codes "{\\color{red}{\\begin{verbatim}" ++ (text ++ codes "\\end{verbatim}}}") in
    if is_type msg (codes "output")
    then some (output, boxed)
    else if is_type msg (codes "verbatim")
    then some (verbatim, boxed)
    else if is_type msg (codes "latex_view")
    then some (latex_view, text)
    else if is_type msg (codes "error")
    then some (error, framed)
    else if is_type msg (codes "image_png")
    then some (image_png, text)
    else none

-- The result of the cell at `it`, and after an error the cursor there.
unfoldable pub show_reply : ℕ → Message → ComputeThread → ComputeThread
show_reply it msg s = if bytes_eq msg.output_text [] then s else elim (reply msg) [
  | none ↦ s
  | some (t, text) ↦
      let s1 = emit (result_cell it t text) s in
      if is_type msg (codes "error") then emit (cursor it here) s1 else s1
]

-- The body of the `try` block: an id that no running cell has is an error that is caught.
unfoldable pub deliver : Message → ComputeThread → ComputeThread
deliver msg s = elim (find_running msg.parent_id s.running_cells) [
  | none ↦ s
  | some it ↦
      let s1 =
        emit (run_status it false)
          (record s { running_cells = erase_running msg.parent_id s.running_cells }) in
      show_reply it msg (if finished msg then s1 else s)
]

-- `number_of_cells_executing()>0`.
abbrev pub some_running : CellMap → Bool
some_running [] = false
some_running (c ∷ r) = true

abbrev pub busy : ComputeThread → Bool
busy s = some_running s.running_cells

unfoldable pub on_message : Option Message → ComputeThread → ComputeThread
on_message none s = s
on_message (some msg) s =
    let s1 = deliver msg s in emit process_data (emit (on_kernel_runstatus (busy s1)) s1)

abbrev pub by_type : CellType → ComputeThread → ComputeThread → ComputeThread → ComputeThread
by_type python code text other = code
by_type latex code text other = text
by_type _ code text other = other

-- The cell at `it` with this id.
unfoldable pub execute_cell : CellId → ℕ → DataCell → ComputeThread → ComputeThread
execute_cell id it dc s =
    let s1 = emit process_data (emit (cursor it next) s) in
    let s2 = record s1 { running_cells = assign id it s.running_cells } in
    let s3 = emit (send (execute_request id dc.textbuf)) (emit (run_status it true) s2) in
    if not s.connection_is_open
    then s
    else by_type dc.cell_type (emit (on_kernel_runstatus true) s3)
        (emit (result_cell it latex_view dc.textbuf) s1) s1

unfoldable pub stop : ComputeThread → ComputeThread
stop s =
    if s.connection_is_open then emit (send execute_interrupt) (record s { server_pid = 0 }) else s

unfoldable pub restart_kernel : ComputeThread → ComputeThread
restart_kernel s =
    if s.connection_is_open
    then emit (send exit) (emit (on_kernel_runstatus false) (record s { restarting_kernel = true }))
    else s

-- What the thread reacts to; a cell is executed at its place in the document, with what stands there.
pub data Event : Type 0 where
  opened stopped restarted terminated : Event
  failed started : Spawned → Bool → Event
  closed : Bool → Event
  received : Option Message → Event
  executed : ℕ → DataCell → Event

module _ (id_of : ℕ → CellId) where
  unfoldable pub handle : Event → ComputeThread → Option ComputeThread
  handle opened s = some (on_open s)
  handle stopped s = some (stop s)
  handle restarted s = some (restart_kernel s)
  handle terminated s = some (terminate s)
  handle (failed p made) s = on_fail p made s
  handle (started p made) s = run_start p made s
  handle (closed made) s = some (on_close made s)
  handle (received msg) s = some (on_message msg s)
  handle (executed it dc) s = some (execute_cell (id_of it) it dc s)

  unfoldable pub run : List Event → ComputeThread → Option ComputeThread
  run [] s = some s
  run (e ∷ es) s = handle e s >>= run es
