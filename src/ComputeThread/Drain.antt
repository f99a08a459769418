-- ===== src/ComputeThread/Drain.antt =====
-- Replies of the server end the running cells of client_server/ComputeThread.cc.
use cadabra.Base.{
  ℕ, Bool, true, false, ◌&&◌, ◌||◌, List, [], ◌∷◌, map, none, some, ◌≡◌, refl, sym, ap, ◌∙◌, arith,
  Bool-cases, Option-cases, inl, inr,
}
use cadabra.ComputeThread.RunningCells.{CellId, CellMap, find_running, erase_running, id_eq}
use cadabra.ComputeThread.{
  ComputeThread, Message, finished, deliver, on_message, busy, some_running, received, handle, run,
}
use cadabra.ComputeThread.Status.{status-show_reply}
use cadabra.ComputeThread.Quiet.{indicator}
use cadabra.ComputeThread.Session.{Shows-on_message}

-- Messages that end a cell: its output or an error.
unfoldable pub all_finished : List Message → Bool
all_finished [] = true
all_finished (msg ∷ r) = finished msg && all_finished r

-- Some message is for the cell with this id.
unfoldable pub answers : List Message → CellId → Bool
answers [] i = false
answers (msg ∷ r) i = id_eq i msg.parent_id || answers r i

-- Every running cell has a message.
unfoldable pub covers : List Message → CellMap → Bool
covers ms [] = true
covers ms ((j, a) ∷ r) = answers ms j && covers ms r

erase_missing : (i : CellId) (c : CellMap) → find_running i c ≡ none → erase_running i c ≡ c
unfolding find_running erase_running
erase_missing i [] h = refl
erase_missing i ((j, a) ∷ r) h = elim (Bool-cases (id_eq j i)) [
  | inl e ↦ absurd (let h' : some a ≡ none = rw e at h in cc)
  | inr e ↦ rw e (ap ((j, a) ∷◌) (erase_missing i r (rw e at h)))
]

cells-deliver :
    (msg : Message) (s : ComputeThread)
    → finished msg ≡ true
    → (deliver msg s).running_cells ≡ erase_running msg.parent_id s.running_cells
unfolding deliver
cells-deliver msg s f = elim (Option-cases (find_running msg.parent_id s.running_cells)) [
  | inl o ↦ rw (deliver, o) (sym (erase_missing msg.parent_id s.running_cells o))
  | inr (it, o) ↦ rw (deliver, o, f) (status-show_reply 0 it msg _).1
]

cells-on_message :
    (msg : Message) (s : ComputeThread)
    → finished msg ≡ true
    → (on_message (some msg) s).running_cells ≡ erase_running msg.parent_id s.running_cells
unfolding on_message
cells-on_message msg s f = cells-deliver msg s f

covers-erase_running :
    (msg : Message) (r : List Message) (c : CellMap)
    → covers (msg ∷ r) c ≡ true
    → covers r (erase_running msg.parent_id c) ≡ true
unfolding covers answers erase_running
covers-erase_running msg r [] h = refl
covers-erase_running msg r ((j, a) ∷ q) h = elim (Bool-cases (id_eq j msg.parent_id)) [
  | inl e ↦ rw e (covers-erase_running msg r q (ground (arith, h)))
  | inr e ↦ rw e (ground (arith, h, covers-erase_running msg r q (ground (arith, h))))
]

covers_none : (c : CellMap) → covers [] c ≡ true → c ≡ []
unfolding covers answers
covers_none [] h = refl
covers_none ((j, a) ∷ r) h = absurd (cc)

-- If every running cell gets a message that ends it, in any order and with any others of the kind
-- among them, then no cell is running afterwards, and the GUI, if it was told before whether there
-- are running cells, is told last that there are none.
pub run-drain :
    (id_of : ℕ → CellId) (messages : List Message) (s : ComputeThread)
    → all_finished messages ≡ true
    → covers messages s.running_cells ≡ true
    → indicator s.log ≡ busy s
    → (t : ComputeThread) × (run id_of (map (λ msg. received (some msg)) messages) s ≡ some t)
      × (t.running_cells ≡ [])
      × (indicator t.log ≡ false)
unfolding run handle all_finished indicator
run-drain id_of [] s f c b =
    let gone = covers_none s.running_cells c in (s, refl, gone, b ∙ ap some_running gone)
run-drain id_of (msg ∷ r) s f c b =
    let s' = on_message (some msg) s in
    let cells = cells-on_message msg s (ground (arith, f)) in
    let covered : covers r s'.running_cells ≡ true =
      ap (covers r) cells ∙ covers-erase_running msg r s.running_cells c in
    run-drain id_of r s' (ground (arith, f)) covered (Shows-on_message id_of (some msg) s b)
