-- ===== src/ComputeThread/RunningCells.antt =====
-- client_server/ComputeThread.hh: `running_cells`, a std::map from the id of a cell to its place in
-- the document, in the order of the ids (client_server/DataCell.cc). A key occurs once.
use cadabra.Base.{
  ℕ, Bool, true, false, not, ◌&&◌, ◌||◌, List, [], ◌∷◌, Option, none, some, ltb, ◌==◌,
  if◌then◌else◌, ◌≡◌, ◌↔◌, refl, sym, ◌∙◌, arith, Bool-cases, inl, inr,
}

pub record CellId : Type 0 where
  pub id : ℕ
  pub created_by_client : Bool

abbrev pub same_bool : Bool → Bool → Bool
same_bool true b = b
same_bool false b = not b

-- `id_t::operator<`.
unfoldable pub id_less : CellId → CellId → Bool
id_less a b =
    if not (same_bool a.created_by_client b.created_by_client)
    then a.created_by_client
    else ltb a.id b.id

unfoldable pub id_eq : CellId → CellId → Bool
id_eq a b = same_bool a.created_by_client b.created_by_client && a.id == b.id

abbrev pub CellMap : Type 0
CellMap = List (CellId × ℕ)

-- `running_cells.find(id)`.
unfoldable pub find_running : CellId → CellMap → Option ℕ
find_running i [] = none
find_running i ((j, a) ∷ r) = let rest = find_running i r in if id_eq j i then some a else rest

-- `running_cells[id]=it`.
unfoldable pub assign : CellId → ℕ → CellMap → CellMap
assign i a [] = (i, a) ∷ []
assign i a ((j, b) ∷ r) =
    let rest = assign i a r in
    if id_eq j i then (i, a) ∷ r else if id_less i j then (i, a) ∷ (j, b) ∷ r else (j, b) ∷ rest

-- `running_cells.erase(it)`.
unfoldable pub erase_running : CellId → CellMap → CellMap
erase_running i [] = []
erase_running i ((j, a) ∷ r) =
    let rest = erase_running i r in if id_eq j i then rest else (j, a) ∷ rest

unfoldable pub holds : CellId → CellMap → Bool
holds i [] = false
holds i ((j, a) ∷ r) = id_eq j i || holds i r

pub id_eq_iff : (a b : CellId) → (id_eq a b ≡ true) ↔ (a ≡ b)
unfolding id_eq
id_eq_iff a b = ground arith

pub holds-assign :
    (i j : CellId) (a : ℕ) (r : CellMap) → holds i (assign j a r) ≡ (id_eq j i || holds i r)
unfolding holds assign
holds-assign i j a [] = refl
holds-assign i j a ((k, b) ∷ r) = elim (Bool-cases (id_eq k j)) [
  | inl e ↦ let k≡j : k ≡ j = (id_eq_iff k j).0 e in rw e (rw k≡j (ground arith))
  | inr e ↦ elim (Bool-cases (id_less j k)) [
    | inl l ↦ rw (e, l)
    | inr l ↦ rw (e, l, holds-assign i j a r) (ground arith)
  ]
]

differs : (k j i : CellId) → id_eq k j ≡ false → id_eq k i ≡ true → id_eq j i ≡ false
differs k j i e f = elim (Bool-cases (id_eq j i)) [
  | inr n ↦ n
  | inl t ↦
      let k≡j : k ≡ j = (id_eq_iff k i).0 f ∙ sym ((id_eq_iff j i).0 t) in
      absurd (let h = (id_eq_iff k j).1 k≡j in cc)
]

pub holds-erase_running :
    (i j : CellId) (r : CellMap) → holds i (erase_running j r) ≡ (not (id_eq j i) && holds i r)
unfolding holds erase_running
holds-erase_running i j [] = ground arith
holds-erase_running i j ((k, b) ∷ r) = elim (Bool-cases (id_eq k j)) [
  | inl e ↦
      let k≡j : k ≡ j = (id_eq_iff k j).0 e in
      rw (e, holds-erase_running i j r) (rw k≡j (ground arith))
  | inr e ↦
      rw (e, holds-erase_running i j r)
        (elim (Bool-cases (id_eq k i)) [
          | inl f ↦ let g = differs k j i e f in rw (f, g)
          | inr f ↦ rw f
        ])
]
