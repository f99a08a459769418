-- ===== src/Combinatorics/Removing.antt =====
-- core/Combinatorics.hh: `ordersign`, with the places that are crossed off taken out of the list.
use cadabra.Base.{
  ℕ, zero, suc, ◌≤◌, Bool, true, false, ◌&&◌, some, if◌then◌else◌, List, [], ◌∷◌, ◌++◌, length, ◌≡◌,
  inl, inr, refl, ap, ◌∙◌, arith, Bool-cases,
}
use cadabra.Combinatorics.{Sign, plus, negate, none_crossed, Pass, cross, cross_all, ordersign}
use cadabra.Combinatorics.NoRepeat.{has}
use cadabra.Combinatorics.Marks.{length-none_crossed}

and_false : (b : Bool) → (b && false) ≡ false
and_false true = refl
and_false false = refl

module _ {ℓ} {A : Type ℓ} (eq : A → A → Bool) where
  -- The places not crossed off.
  unfoldable pub remaining : List A → List Bool → List A
  remaining [] crossed = []
  remaining (y ∷ ys) [] = []
  remaining (y ∷ ys) (c ∷ crossed) = let rest = remaining ys crossed in if c then rest else y ∷ rest

  unfoldable pub remove : A → List A → List A
  remove x [] = []
  remove x (y ∷ ys) = let rest = remove x ys in if eq y x then ys else y ∷ rest

  unfoldable pub signed : A → List A → Sign → Sign
  signed x [] s = s
  signed x (y ∷ ys) s = let rest = signed x ys (negate s) in if eq y x then s else rest

  -- `ordersign` with the places crossed off taken out of the list.
  unfoldable pub removing : List A → List A → Sign → Sign
  removing [] ys s = s
  removing (x ∷ xs) ys s = removing xs (remove x ys) (signed x ys s)

  pub cross-removing :
      (x : A) (ys : List A) (crossed : List Bool) (s : Sign)
      → length ys ≤ length crossed
      → (p : Pass) × (cross eq x ys crossed s ≡ some p)
        × (remaining ys p.crossedoff ≡ remove x (remaining ys crossed))
        × (p.sign ≡ signed x (remaining ys crossed) s)
        × (length p.crossedoff ≡ length crossed)
  unfolding cross remaining remove signed
  cross-removing x [] crossed s h =
      (record { crossedoff = crossed; sign = s }, refl, refl, refl, refl)
  cross-removing x (y ∷ ys) [] s h = absurd (omega arith)
  cross-removing x (y ∷ ys) (true ∷ crossed) s h =
      let ih = cross-removing x ys crossed s (omega arith) in
      (
        record (ih.0) { crossedoff = true ∷ ih.0.crossedoff },
        rw (and_false, ih.1) refl,
        ih.2,
        ih.3,
        ap suc ih.4,
      )
  cross-removing x (y ∷ ys) (false ∷ crossed) s h = elim (Bool-cases (eq y x)) [
    | inl e ↦
        (record { crossedoff = true ∷ crossed; sign = s }, rw e refl, rw e refl, rw e refl, refl)
    | inr n ↦
        let ih = cross-removing x ys crossed (negate s) (omega arith) in
        (
          record (ih.0) { crossedoff = false ∷ ih.0.crossedoff },
          rw (n, ih.1) refl,
          rw (n, ih.2) refl,
          rw n ih.3,
          ap suc ih.4,
        )
  ]

  pub cross_all-removing :
      (xs ys : List A) (crossed : List Bool) (s : Sign)
      → length ys ≤ length crossed
      → cross_all eq xs ys crossed s ≡ some (removing xs (remaining ys crossed) s)
  unfolding cross_all removing
  cross_all-removing [] ys crossed s h = refl
  cross_all-removing (x ∷ xs) ys crossed s h =
      let p = cross-removing x ys crossed s h in
      rw p.1 (cross_all-removing xs ys (p.0.crossedoff) (p.0.sign) (rw p.4 h) ∙ rw (p.2, p.3) refl)

  pub remaining-none_crossed :
      (ys : List A) (n : ℕ) → length ys ≡ n → remaining ys (none_crossed n) ≡ ys
  unfolding remaining
  remaining-none_crossed [] n h = refl
  remaining-none_crossed (y ∷ ys) zero h = absurd (omega arith)
  remaining-none_crossed (y ∷ ys) (suc n) h = ap (y ∷◌) (remaining-none_crossed ys n (omega arith))

  pub ordersign-removing :
      (xs ys : List A) → length ys ≡ length xs → ordersign eq xs ys ≡ some (removing xs ys plus)
  unfolding ordersign
  ordersign-removing xs ys h =
      cross_all-removing xs ys (none_crossed (length xs)) plus
        (rw (length-none_crossed, h) (omega arith))
      ∙ rw (remaining-none_crossed ys (length xs) h) refl

  -- Neither a nor b is in the list.
  unfoldable pub Without : A → A → List A → Type 0
  Without a b l = (has eq a l ≡ false) × (has eq b l ≡ false)

  pub Without-cons :
      (a b c : A) (l l' : List A) → Without a b (c ∷ l) → Without a b l' → Without a b (c ∷ l')
  unfolding Without has
  Without-cons a b c l l' w v = (ground arith, ground arith)

  -- The sign that is handed on.
  pub signed-negate :
      (x : A) (ys : List A) (s : Sign) → signed x ys (negate s) ≡ negate (signed x ys s)
  unfolding signed
  signed-negate x [] s = refl
  signed-negate x (y ∷ ys) s = elim (Bool-cases (eq y x)) [
    | inl e ↦ rw e refl
    | inr n ↦ rw n (signed-negate x ys (negate s))
  ]

  pub removing-negate :
      (xs ys : List A) (s : Sign) → removing xs ys (negate s) ≡ negate (removing xs ys s)
  unfolding removing
  removing-negate [] ys s = refl
  removing-negate (x ∷ xs) ys s =
      rw (signed-negate x ys s) (removing-negate xs (remove x ys) (signed x ys s))

  -- The first of the two neighbours is taken out: one place more is passed in the other order.
  pub remove-first :
      (x a b : A) (l r : List A)
      → has eq x l ≡ false
      → eq a x ≡ true
      → eq b x ≡ false
      → (remove x (l ++ (a ∷ b ∷ r)) ≡ l ++ (b ∷ r))
        × (remove x (l ++ (b ∷ a ∷ r)) ≡ l ++ (b ∷ r))
        × ((s : Sign) → signed x (l ++ (b ∷ a ∷ r)) s ≡ negate (signed x (l ++ (a ∷ b ∷ r)) s))
  unfolding has remove signed
  remove-first x a b [] r h e n = (rw e refl, rw (n, e) refl, λ s. rw (n, e) refl)
  remove-first x a b (c ∷ l) r h e n =
      let c≢x : eq c x ≡ false = ground arith in
      let ih = remove-first x a b l r (ground arith) e n in
      (rw (c≢x, ih.0) refl, rw (c≢x, ih.1) refl, λ s. rw c≢x (ih.2 (negate s)))

  -- What is taken out is neither of the neighbours: they stay neighbours.
  pub remove-other :
      (x a b : A) (l r : List A)
      → Without a b l
      → eq a x ≡ false
      → eq b x ≡ false
      → (l' : List A) × (r' : List A) × (remove x (l ++ (a ∷ b ∷ r)) ≡ l' ++ (a ∷ b ∷ r'))
        × (remove x (l ++ (b ∷ a ∷ r)) ≡ l' ++ (b ∷ a ∷ r'))
        × Without a b l'
        × ((s : Sign) → signed x (l ++ (b ∷ a ∷ r)) s ≡ signed x (l ++ (a ∷ b ∷ r)) s)
  unfolding has remove signed Without
  remove-other x a b [] r w m n =
      ([], remove x r, rw (m, n) refl, rw (m, n) refl, w, λ s. rw (m, n) refl)
  remove-other x a b (c ∷ l) r w m n = elim (Bool-cases (eq c x)) [
    | inl e ↦ (l, r, rw e refl, rw e refl, (ground arith, ground arith), λ s. rw e refl)
    | inr c≢x ↦
        let ih = remove-other x a b l r (ground arith, ground arith) m n in
        (
          c ∷ ih.0,
          ih.1,
          rw (c≢x, ih.2) refl,
          rw (c≢x, ih.3) refl,
          Without-cons a b c l (ih.0) w (ih.4),
          λ s. rw c≢x (ih.5 (negate s)),
        )
  ]
