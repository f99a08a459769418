-- ===== src/Storage/Equations.antt =====
-- core/Storage.cc: the numbering of the equations that stand at the top of an expression. The loops
-- skip the children of each node, so they go through the siblings at the top; a position is the
-- place of a node among them, and `none` is `end()`.
use cadabra.Base.{
  ℕ, suc, ◌+◌, ◌≤◌, Bool, Option, none, some, ◌≡◌, arith, ◌==◌, if◌then◌else◌, codes, Bool-cases,
  inl, inr, ◌⊎◌, ◌<◌, Option-cases,
}
use cadabra.Tree.{Forest, nil, node}
use cadabra.Storage.{StrNode, is_named}

module _ {Q : Type 0} where
  unfoldable pub is_history : StrNode Q → Bool
  is_history s = is_named (codes "\\history") s

  -- `number_of_equations`, with the count so far.
  unfoldable pub count_equations : ℕ → Forest (StrNode Q) → ℕ
  count_equations last_eq nil = last_eq
  count_equations last_eq (node s c r) =
      count_equations (if is_history s then last_eq + 1 else last_eq) r

  unfoldable pub number_of_equations : Forest (StrNode Q) → ℕ
  number_of_equations f = count_equations 0 f

  -- `equation_by_number`: the loop from position `pos`, with `num` the number of the next equation.
  unfoldable pub find_equation : ℕ → ℕ → ℕ → Forest (StrNode Q) → Option ℕ
  find_equation i num pos nil = none
  find_equation i num pos (node s c r) =
      let rest = find_equation i (if is_history s then num + 1 else num) (pos + 1) r in
      if is_history s then (if num == i then some pos else rest) else rest

  unfoldable pub equation_by_number : ℕ → Forest (StrNode Q) → Option ℕ
  equation_by_number i f = find_equation i 1 0 f

  -- `equation_number`, for the position of the history node that `named_parent` finds.
  number_at : ℕ → ℕ → ℕ → Forest (StrNode Q) → ℕ
  number_at historynode num pos nil = 0
  number_at historynode num pos (node s c r) =
      let rest = number_at historynode (if is_history s then num + 1 else num) (pos + 1) r in
      if is_history s then (if historynode == pos then num + 1 else rest) else rest

  pub equation_number : ℕ → Forest (StrNode Q) → ℕ
  equation_number historynode f = number_at historynode 0 0 f

  find_equation-pos :
      (f : Forest (StrNode Q)) (i num pos p : ℕ) → find_equation i num pos f ≡ some p → pos ≤ p
  unfolding find_equation
  find_equation-pos nil i num pos p h = cc
  find_equation-pos (node s c r) i num pos p h =
      let num' = if is_history s then num + 1 else num in
      ground (arith, find_equation-pos r i num' (pos + 1) p)

  number_at-find_equation :
      (f : Forest (StrNode Q)) (i num pos p : ℕ)
      → find_equation i (num + 1) pos f ≡ some p
      → number_at p num pos f ≡ i
  unfolding find_equation number_at
  number_at-find_equation nil i num pos p h = cc
  number_at-find_equation (node s c r) i num pos p h = elim (Bool-cases (is_history s)) [
    | inl yes_history ↦ ground (
      arith,
      find_equation-pos r i (num + 1 + 1) (pos + 1) p,
      number_at-find_equation r i (num + 1) (pos + 1) p,
    )
    | inr no_history ↦ ground (arith, number_at-find_equation r i num (pos + 1) p)
  ]

  count_equations-le : (f : Forest (StrNode Q)) (num : ℕ) → num ≤ count_equations num f
  unfolding count_equations
  count_equations-le nil num = omega arith
  count_equations-le (node s c r) num =
      ground (arith, count_equations-le r (if is_history s then num + 1 else num))

  find_equation-range :
      (f : Forest (StrNode Q)) (i num pos p : ℕ)
      → find_equation i (num + 1) pos f ≡ some p
      → (suc num ≤ i) × (i ≤ count_equations num f)
  unfolding find_equation count_equations
  find_equation-range nil i num pos p h = absurd (cc)
  find_equation-range (node s c r) i num pos p h = elim (Bool-cases (is_history s)) [
    | inl e ↦
        ground
          (arith, find_equation-range r i (num + 1) (pos + 1) p, count_equations-le r (num + 1))
    | inr e ↦ ground (arith, find_equation-range r i num (pos + 1) p)
  ]

  find_equation-some :
      (f : Forest (StrNode Q)) (i num pos : ℕ)
      → suc num ≤ i
      → i ≤ count_equations num f
      → (p : ℕ) × (find_equation i (num + 1) pos f ≡ some p)
  unfolding find_equation count_equations
  find_equation-some nil i num pos lo hi = absurd (omega arith)
  find_equation-some (node s c r) i num pos lo hi = elim (Bool-cases (is_history s)) [
    | inl e ↦ elim (Bool-cases (num + 1 == i)) [
      | inl q ↦ (pos, ground arith)
      | inr q ↦
          let (p, found) =
            find_equation-some r i (num + 1) (pos + 1) (ground arith) (ground arith) in
          (p, ground arith)
    ]
    | inr e ↦
        let (p, found) = find_equation-some r i num (pos + 1) lo (ground arith) in (p, ground arith)
  ]

  -- For each number from 1 up to the number of equations `equation_by_number` finds a node, and
  -- `equation_number` of that node is the number again.
  pub equation_number-equation_by_number :
      (f : Forest (StrNode Q)) (i : ℕ)
      → 1 ≤ i
      → i ≤ number_of_equations f
      → (p : ℕ) × (equation_by_number i f ≡ some p) × (equation_number p f ≡ i)
  unfolding equation_by_number number_of_equations equation_number
  equation_number-equation_by_number f i lo hi =
      let (p, found) = find_equation-some f i 0 0 lo hi in
      let found' : find_equation i 1 0 f ≡ some p = found in
      (p, found', number_at-find_equation f i 0 0 p found)

  -- For the number 0 and for numbers above the number of equations `equation_by_number` gives the
  -- end of the tree.
  pub equation_by_number_out_of_range :
      (f : Forest (StrNode Q)) (i : ℕ)
      → (i ≡ 0) ⊎ (number_of_equations f < i)
      → equation_by_number i f ≡ none
  unfolding equation_by_number number_of_equations
  equation_by_number_out_of_range f i out = elim (Option-cases (find_equation i 1 0 f)) [
    | inl e ↦ e
    | inr (p, e) ↦ absurd (omega (arith, find_equation-range f i 0 0 p e))
  ]
