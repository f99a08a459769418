-- ===== src/Combinatorics/Reached.antt =====
-- core/Combinatorics.hh: the loop of `nextstep` makes every recursive call that it is to make.
use cadabra.Base.{
  ℕ, zero, suc, ◌+◌, ◌≤◌, Bool, true, false, Option, some, ◌==◌, List, [], ◌∷◌, ◌++◌, ◌≡◌, ◌⊎◌, inl,
  inr, refl, sym, ap, ◌∙◌, arith, Bool-cases, ==_iff,
}
use cadabra.Base.Options.{>>=-eq-some, some_inj}
use cadabra.Combinatorics.NoRepeat.{has, has-snoc}
use cadabra.Combinatorics.Marks.{had-set_other, ne_of}
use cadabra.Combinatorics.Combinations.{Picking, had, set, accepted, Vectors, pick, choose}

unfoldable pub In : List ℕ → Vectors → Type 0
In v [] = ⊥
In v (w ∷ r) = (v ≡ w) ⊎ In v r

pub In-append_left : (v : List ℕ) (xs ys : Vectors) → In v xs → In v (xs ++ ys)
unfolding In
In-append_left v [] ys h = elim h [ ]
In-append_left v (x ∷ xs) ys (inl e) = inl e
In-append_left v (x ∷ xs) ys (inr h) = inr (In-append_left v xs ys h)

pub In-append_right : (v : List ℕ) (xs ys : Vectors) → In v ys → In v (xs ++ ys)
unfolding In
In-append_right v [] ys h = h
In-append_right v (x ∷ xs) ys h = inr (In-append_right v xs ys h)

-- Only what is picked is marked.
unfoldable pub OnlyMarked : List ℕ → List Bool → Type 0
OnlyMarked t algehad = (j : ℕ) → had j algehad ≡ true → has ◌==◌ j t ≡ true

pub OnlyMarked-snoc :
    (t : List ℕ) (algehad : List Bool) (i : ℕ)
    → OnlyMarked t algehad
    → OnlyMarked (t ++ (i ∷ [])) (set i true algehad)
unfolding OnlyMarked
OnlyMarked-snoc t algehad i m = λ j h. elim (Bool-cases (i == j)) [
  | inl e ↦ has-snoc j t i ∙ rw e (ground arith)
  | inr k ↦ has-snoc j t i ∙ rw (m j (sym (had-set_other i j true algehad (ne_of i j k)) ∙ h)) refl
]

pub had-reset :
    (i j : ℕ) (algehad : List Bool)
    → had j (set i false (set i true algehad)) ≡ true
    → had j algehad ≡ true
had-reset i j [] h = h
had-reset zero zero (c ∷ r) h = absurd (cc)
had-reset zero (suc j) (c ∷ r) h = h
had-reset (suc i) zero (c ∷ r) h = h
had-reset (suc i) (suc j) (c ∷ r) h = had-reset i j r h

pub OnlyMarked-reset :
    (t : List ℕ) (algehad : List Bool) (i : ℕ)
    → OnlyMarked t algehad
    → OnlyMarked t (set i false (set i true algehad))
unfolding OnlyMarked
OnlyMarked-reset t algehad i m = λ j h. m j (had-reset i j algehad h)

pub OnlyMarked-free :
    (t : List ℕ) (algehad : List Bool) (i : ℕ)
    → OnlyMarked t algehad
    → has ◌==◌ i t ≡ false
    → had i algehad ≡ false
unfolding OnlyMarked
OnlyMarked-free t algehad i m h = elim (Bool-cases (had i algehad)) [
  | inl e ↦ absurd (let x = m i e in cc)
  | inr f ↦ f
]

pub pick-OnlyMarked :
    (t : List ℕ) (b : Bool) (next : ℕ → List Bool → Option Vectors) (i : ℕ) (algehad : List Bool)
    (found : Vectors × List Bool)
    → pick b next i algehad ≡ some found
    → OnlyMarked t algehad
    → OnlyMarked t (found.1)
pick-OnlyMarked t false next i algehad found h m = rw (sym (ap (λ x. x.1) (some_inj h))) m
pick-OnlyMarked t true next i algehad found h m =
    let s = >>=-eq-some (next i (set i true algehad)) _ h in
    rw (sym (ap (λ x. x.1) (some_inj (s.2)))) (OnlyMarked-reset t algehad i m)

pub pick-true :
    (b : Bool) (next : ℕ → List Bool → Option Vectors) (i : ℕ) (algehad : List Bool)
    (found : Vectors × List Bool)
    → b ≡ true
    → pick b next i algehad ≡ some found
    → next i (set i true algehad) ≡ some (found.0)
pick-true false next i algehad found b h = absurd (cc)
pick-true true next i algehad found b h =
    let s = >>=-eq-some (next i (set i true algehad)) _ h in
    s.1 ∙ ap (λ x. some (x.0)) (some_inj (s.2))

module _ (p : Picking) (plain : p.input_asym ≡ []) where
  pub accepted_plain :
      (algehad : List Bool) (i : ℕ) → had i algehad ≡ false → accepted p 0 algehad i ≡ true
  unfolding accepted
  accepted_plain algehad i h = rw (h, plain) (ground arith)

  -- What the call for the block j gives is in what the loop gives.
  pub choose-In :
      (v t : List ℕ) (next : ℕ → List Bool → Option Vectors) (j : ℕ)
      → has ◌==◌ j t ≡ false
      → ((had' : List Bool) (o : Vectors)
          → OnlyMarked (t ++ (j ∷ [])) had'
          → next j had' ≡ some o
          → In v o)
      → (i : ℕ) (algehad : List Bool) (k : ℕ) (out : Vectors) → i ≤ j
      → suc j ≤ i + k
      → OnlyMarked t algehad
      → choose p next 0 i algehad k ≡ some out
      → In v out
  unfolding choose
  choose-In v t next j free f i algehad zero out lo hi m h = absurd (omega arith)
  choose-In v t next j free f i algehad (suc k) out lo hi m h =
      let first = pick (accepted p 0 algehad i) next i algehad in
      let s = >>=-eq-some first _ h in
      let found = s.0 in
      let r = >>=-eq-some (choose p next 0 (suc i) (found.1) k) _ (s.2) in
      let whole : found.0 ++ r.0 ≡ out = some_inj (r.2) in
      rw (sym whole) (elim (Bool-cases (i == j)) [
        | inl e ↦
            let i≡j = (==_iff i j).0 e in
            let free' : has ◌==◌ i t ≡ false = rw i≡j free in
            let a = accepted_plain algehad i (OnlyMarked-free t algehad i m free') in
            let n = pick-true (accepted p 0 algehad i) next i algehad found a (s.1) in
            In-append_left v (found.0) (r.0) (
              f (set i true algehad) (found.0) (rw (sym i≡j) (OnlyMarked-snoc t algehad i m))
                (ap (λ x. next x (set i true algehad)) (sym i≡j) ∙ n))
        | inr k' ↦ In-append_right v (found.0) (r.0) (
            choose-In v t next j free f (suc i) (found.1) k (r.0) (omega (arith, lo, ne_of i j k'))
              (omega (arith, hi))
              (pick-OnlyMarked t (accepted p 0 algehad i) next i algehad found (s.1) m) (r.1))
      ])
