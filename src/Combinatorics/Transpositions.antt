-- ===== src/Combinatorics/Transpositions.antt =====
-- core/Combinatorics.hh: `ordersign` counts the transpositions of neighbours.
use cadabra.Base.{
  ℕ, Bool, true, false, some, ◌==◌, List, [], ◌∷◌, ◌++◌, length, ◌≡◌, ◌↔◌, inl, inr, refl, sym, ap,
  ◌∙◌, arith, Bool-cases, length-append, ==_iff,
}
use cadabra.Combinatorics.{Sign, plus, minus, negate, upto, ordersign_of, ordersign}
use cadabra.Combinatorics.NoRepeat.{
  has, NoRepeat, has-transposed, has-middle, not_has-middle, NoRepeat-upto,
}
use cadabra.Combinatorics.Removing.{
  remove, signed, removing, ordersign-removing, Without, removing-negate, remove-first,
  remove-other,
}

-- The second list comes from the first by transpositions of neighbours, an even number of them for
-- plus and an odd one for minus.
pub data Swapped {ℓ} {A : Type ℓ} : Sign → List A → List A → Type ℓ where
  start : {xs : List A} → Swapped plus xs xs
  transposed :
      {s : Sign} {xs : List A} (l : List A) (a b : A) (r : List A)
      → Swapped s xs (l ++ (a ∷ b ∷ r))
      → Swapped (negate s) xs (l ++ (b ∷ a ∷ r))

negate-negate : (s : Sign) → negate (negate s) ≡ s
negate-negate plus = refl
negate-negate minus = refl

module _ {ℓ} {A : Type ℓ} (eq : A → A → Bool) where
  length-transposed :
      (l : List A) (a b : A) (r : List A) → length (l ++ (a ∷ b ∷ r)) ≡ length (l ++ (b ∷ a ∷ r))
  length-transposed l a b r = length-append l (a ∷ b ∷ r) ∙ sym (length-append l (b ∷ a ∷ r))

module _ {ℓ} {A : Type ℓ} (eq : A → A → Bool) (same : (x y : A) → (eq x y ≡ true) ↔ (x ≡ y)) where
  not_eq-sym : (x y : A) → eq x y ≡ false → eq y x ≡ false
  not_eq-sym x y n = elim (Bool-cases (eq y x)) [
    | inl e ↦ absurd (let p : eq x y ≡ true = (same x y).1 (sym ((same y x).0 e)) in cc)
    | inr n' ↦ n'
  ]

  removing-transposed :
      (xs l : List A) (a b : A) (r : List A) (s : Sign)
      → has eq a xs ≡ true
      → Without eq a b l
      → eq a b ≡ false
      → removing eq xs (l ++ (b ∷ a ∷ r)) s ≡ negate (removing eq xs (l ++ (a ∷ b ∷ r)) s)
  unfolding has removing Without
  removing-transposed [] l a b r s h w n = absurd (cc)
  removing-transposed (x ∷ xs) l a b r s h w n = elim (Bool-cases (eq a x)) [
    | inl e ↦
        let a≡x = (same a x).0 e in
        let f =
          remove-first eq x a b l r (rw (sym a≡x) (w.0)) e (rw (sym a≡x) (not_eq-sym a b n)) in
        rw (f.0, f.1, f.2 s) (removing-negate eq xs (l ++ (b ∷ r)) _)
    | inr m ↦ elim (Bool-cases (eq b x)) [
      | inl e ↦
          let b≡x = (same b x).0 e in
          let f = remove-first eq x b a l r (rw (sym b≡x) (w.1)) e m in
          rw (f.0, f.1, f.2 s, removing-negate eq xs (l ++ (a ∷ r)) _) (sym (negate-negate _))
      | inr k ↦
          let f = remove-other eq x a b l r w m k in
          let x≢a = not_eq-sym a x m in
          rw (f.2, f.3, f.5 s) (removing-transposed xs (f.0) a b (f.1) _ (ground arith) (f.4) n)
    ]
  ]

  -- Two neighbours of a list without repetitions.
  NoRepeat-neighbours :
      (l : List A) (a b : A) (r : List A)
      → NoRepeat eq (l ++ (a ∷ b ∷ r))
      → Without eq a b l × (eq a b ≡ false)
  unfolding NoRepeat Without has
  NoRepeat-neighbours [] a b r h =
      let n : eq b a ≡ false = (let q = h.0 in ground arith) in ((refl, refl), not_eq-sym b a n)
  NoRepeat-neighbours (c ∷ l) a b r h =
      let ih = NoRepeat-neighbours l a b r (h.1) in
      let na = not_eq-sym a c (not_has-middle eq c a l (b ∷ r) (h.0)) in
      let nb =
        not_eq-sym b c
          (not_has-middle eq c b l (a ∷ r) (sym (has-transposed eq c l a b r) ∙ h.0)) in
      let w = ih.0 in ((rw (na, w.0) refl, rw (nb, w.1) refl), ih.1)

  NoRepeat-transposed :
      (l : List A) (a b : A) (r : List A)
      → NoRepeat eq (l ++ (a ∷ b ∷ r))
      → NoRepeat eq (l ++ (b ∷ a ∷ r))
  unfolding NoRepeat has
  NoRepeat-transposed [] a b r h =
      let p = h.0 in
      let q = h.1.0 in
      let m = not_eq-sym b a (ground arith) in (rw (m, q) refl, (ground arith, h.1.1))
  NoRepeat-transposed (c ∷ l) a b r h =
      (rw (sym (has-transposed eq c l a b r)) (h.0), NoRepeat-transposed l a b r (h.1))

  Swapped-same :
      {s : Sign} {xs ys : List A}
      → Swapped s xs ys
      → NoRepeat eq xs
      → NoRepeat eq ys × ((c : A) → has eq c ys ≡ has eq c xs) × (length ys ≡ length xs)
  Swapped-same start d = (d, λ c. refl, refl)
  Swapped-same (transposed l a b r w) d =
      let ih = Swapped-same w d in
      (
        NoRepeat-transposed l a b r (ih.0),
        λ c. sym (has-transposed eq c l a b r) ∙ ih.1 c,
        sym (length-transposed eq l a b r) ∙ ih.2,
      )

  has_self : (x : A) (xs : List A) → has eq x (x ∷ xs) ≡ true
  unfolding has
  has_self x xs = rw ((same x x).1 refl) refl

  removing-same : (xs : List A) (s : Sign) → removing eq xs xs s ≡ s
  unfolding removing remove signed
  removing-same [] s = refl
  removing-same (x ∷ xs) s = rw ((same x x).1 refl) (removing-same xs s)

  removing-Swapped :
      {t : Sign} {xs ys : List A} → Swapped t xs ys → NoRepeat eq xs → removing eq xs ys plus ≡ t
  removing-Swapped {xs = xs} start d = removing-same xs plus
  removing-Swapped {xs = xs} (transposed l a b r w) d =
      let i = Swapped-same w d in
      let n = NoRepeat-neighbours l a b r (i.0) in
      let a∈xs = sym (i.1 a) ∙ has-middle eq a l (a ∷ b ∷ r) (has_self a (b ∷ r)) in
      removing-transposed xs l a b r plus a∈xs (n.0) (n.1) ∙ ap negate (removing-Swapped w d)

  -- `ordersign` gives 1 for two lists where the second one comes from the first by an even number of
  -- transpositions of neighbours, and -1 where it does by an odd number, if no element occurs twice
  -- and the test for equality tells elements apart.
  pub ordersign-Swapped :
      (s : Sign) (xs ys : List A) → NoRepeat eq xs → Swapped s xs ys → ordersign eq xs ys ≡ some s
  ordersign-Swapped s xs ys d w =
      ordersign-removing eq xs ys ((Swapped-same w d).2) ∙ ap some (removing-Swapped w d)

pub ordersign_of-Swapped :
    (s : Sign) (ys : List ℕ) → Swapped s (upto 0 (length ys)) ys → ordersign_of ys ≡ some s
unfolding ordersign_of
ordersign_of-Swapped s ys w =
    ordersign-Swapped ◌==◌ ==_iff s (upto 0 (length ys)) ys (NoRepeat-upto 0 (length ys)) w
