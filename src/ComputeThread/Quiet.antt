-- ===== src/ComputeThread/Quiet.antt =====
-- The handlers of client_server/ComputeThread.cc that neither start nor end cells.
use cadabra.Base.{
  ℕ, Bool, true, false, List, [], ◌∷◌, some, ◌==◌, ◌≡◌, refl, ◌∙◌, Bool-cases, inl, inr,
}
use cadabra.ComputeThread.{
  Effect, on_kernel_runstatus, ComputeThread, Spawned, try_spawn_server, try_connect, terminate,
  all_cells_nonrunning, on_fail, run_start, on_open, on_close, stop, kill_server, spawned,
}
use cadabra.ComputeThread.Status.{status}

-- What the GUI was told last of the kernel.
unfoldable pub indicator : List Effect → Bool
indicator [] = false
indicator (on_kernel_runstatus b ∷ r) = b
indicator (_ ∷ r) = indicator r

-- From `s` to `t` the running cells, their status and the indicator stay as they were.
pub record Quiet (s t : ComputeThread) : Type 0 where
  pub statuses : (x : ℕ) → status x t.log ≡ status x s.log
  pub cells : t.running_cells ≡ s.running_cells
  pub told : indicator t.log ≡ indicator s.log

pub Quiet-refl : (s : ComputeThread) → Quiet s s
Quiet-refl s = record { statuses = λ x. refl; cells = refl; told = refl }

pub Quiet-on_open : (s : ComputeThread) → Quiet s (on_open s)
unfolding on_open status indicator
Quiet-on_open s = record { statuses = λ x. refl; cells = refl; told = refl }

pub Quiet-try_connect : (made : Bool) (s : ComputeThread) → Quiet s (try_connect made s)
unfolding try_connect status indicator
Quiet-try_connect true s = record { statuses = λ x. refl; cells = refl; told = refl }
Quiet-try_connect false s = Quiet-refl s

pub Quiet-trans : (s t u : ComputeThread) → Quiet s t → Quiet t u → Quiet s u
Quiet-trans s t u a b = record {
  statuses = λ x. b.statuses x ∙ a.statuses x;
  cells = b.cells ∙ a.cells;
  told = b.told ∙ a.told;
}

pub Quiet-on_close : (made : Bool) (s : ComputeThread) → Quiet s (on_close made s)
unfolding on_close status indicator
Quiet-on_close made s =
    Quiet-trans s _ _ (record { statuses = λ x. refl; cells = refl; told = refl })
      (Quiet-try_connect made _)

pub Quiet-stop : (s : ComputeThread) → Quiet s (stop s)
unfolding stop status indicator
Quiet-stop s = elim (Bool-cases s.connection_is_open) [
  | inl e ↦ rw e (record { statuses = λ x. refl; cells = refl; told = refl })
  | inr e ↦ rw e (Quiet-refl _)
]

pub Quiet-terminate : (s : ComputeThread) → Quiet s (terminate s)
unfolding terminate status indicator
Quiet-terminate s = elim (Bool-cases (s.server_pid == 0)) [
  | inl e ↦ rw e (record { statuses = λ x. refl; cells = refl; told = refl })
  | inr e ↦ elim (Bool-cases s.server_stdout) [
    | inl o ↦ rw (e, o) (record { statuses = λ x. refl; cells = refl; told = refl })
    | inr o ↦ rw (e, o) (record { statuses = λ x. refl; cells = refl; told = refl })
  ]
]

Quiet-kill_server : (s : ComputeThread) → Quiet s (kill_server s)
unfolding kill_server status indicator
Quiet-kill_server s = elim (Bool-cases (s.server_pid == 0)) [
  | inl e ↦ rw e (Quiet-refl _)
  | inr e ↦ rw e (record { statuses = λ x. refl; cells = refl; told = refl })
]

pub Quiet-run_start :
    (p : Spawned) (made : Bool) (s : ComputeThread)
    → p.port_read ≡ true
    → (t : ComputeThread) × (run_start p made s ≡ some t) × Quiet s t
unfolding run_start try_spawn_server status indicator
Quiet-run_start p made s ok =
    let spawn : Quiet s (spawned p s) = record {
      statuses = λ x. refl;
      cells = refl;
      told = refl;
    } in
    (
      try_connect made (spawned p s),
      rw ok,
      Quiet-trans s (spawned p s) _ spawn (Quiet-try_connect made (spawned p s)),
    )

-- After a failure all cells have ended, and a new server is started.
pub Quiet-on_fail :
    (p : Spawned) (made : Bool) (s : ComputeThread)
    → p.port_read ≡ true
    → (t : ComputeThread) × (on_fail p made s ≡ some t)
      × Quiet (all_cells_nonrunning (record s { connection_is_open = false })) t
unfolding on_fail try_spawn_server status indicator
Quiet-on_fail p made s ok =
    let s1 = all_cells_nonrunning (record s { connection_is_open = false }) in
    let s2 = spawned p (kill_server s1) in
    let spawn : Quiet (kill_server s1) s2 = record {
      statuses = λ x. refl;
      cells = refl;
      told = refl;
    } in
    (
      try_connect made s2,
      rw ok,
      Quiet-trans s1 _ _ (Quiet-kill_server s1)
          (Quiet-trans (kill_server s1) s2 _ spawn (Quiet-try_connect made s2)),
    )
