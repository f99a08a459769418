-- ===== src/Preprocess/Brackets.antt =====
-- core/PreProcessor.cc: closing brackets, and the end of the unwinding.
use cadabra.Base.{
  ℕ, zero, suc, ◌<◌, ◌≤◌, Bool, true, false, not, ◌&&◌, List, [], ◌∷◌, ◌++◌, Option, none, some,
  ◌==◌, ltb, if◌then◌else◌, Bytes, length, ◌≡◌, ◌≢◌, refl, ap, arith, Option-cases, inl, inr, ◌⊎◌,
}
use mathlib.Core.Path.{subst}
use cadabra.Base.Options.{>>=-eq-some, >>=-none, some_inj}
use cadabra.Preprocess.Tokens.{Accu, no_order}
use cadabra.Preprocess.Unwind.{
  Unwound, unwind_, unwind_loop, reaches, level_text, argument_brackets, add_text,
}
use cadabra.Preprocess.Scan.{Pre}
use cadabra.Preprocess.Run.{read_closing, unwind_all, strip_outer_brackets, done, exception}

-- Levels that operators opened, above the innermost bracket.
abbrev pub AreLifted : List Accu → Type 0
AreLifted [] = Unit
AreLifted (a ∷ as') = ((a.bracket ≡ 0) × (a.order < no_order)) × AreLifted as'

module _ (ind : ℕ) (opened : Accu) (rest : List Accu) (closing : 0 < ind)
    (bracket : 0 < opened.bracket) (other : opened.bracket ≢ ind) where
  reaches-wrong : reaches no_order ind opened.bracket ≡ none
  unfolding reaches
  reaches-wrong = let different : opened.bracket == ind ≡ false = ground arith in ground arith

  reaches-lifted : (a : Accu) → a.bracket ≡ 0 → reaches no_order ind a.bracket ≡ some false
  unfolding reaches
  reaches-lifted a h = ground arith

  unwind_loop-wrong :
      (lifted : List Accu) (cur : Accu)
      → AreLifted lifted
      → unwind_loop no_order ind true cur (lifted ++ opened ∷ rest) ≡ none
  unfolding unwind_loop
  unwind_loop-wrong [] cur h = rw reaches-wrong refl
  unwind_loop-wrong (a ∷ as') cur ((z, o), h) =
      let below : ltb a.order no_order ≡ true = ground arith in
      rw (reaches-lifted a z, below)
        (>>=-none _ _ (λ (x : Bool × Bytes). unwind_loop-wrong as' (add_text a.bracket x.1 a) h))

  -- A closing bracket throws where another one is open, with levels above it that only operators
  -- opened.
  pub read_closing-mismatch :
      (lifted : List Accu) (s : Pre)
      → AreLifted lifted
      → s.accus ≡ lifted ++ opened ∷ rest
      → read_closing ind s ≡ none
  unfolding read_closing unwind_
  read_closing-mismatch lifted s h e = rw e (rw (unwind_loop-wrong lifted _ h) refl)

unwind_loop-bottom :
    (cur : Accu) (u : Unwound) → unwind_loop no_order 0 true cur [] ≡ some u → length u.accus ≤ 0
unfolding unwind_loop
unwind_loop-bottom cur u h =
    let (reached, e1, h1) = >>=-eq-some (reaches no_order 0 0) _ h in
    let (g, e2, h2) = >>=-eq-some (level_text no_order cur.order 0 _ _) _ h1 in
    subst (λ x. length x ≤ 0) (ap (λ (x : Unwound). x.accus) (some_inj h2)) (omega arith)

either_way :
    (c : Bool) (further : Option Unwound) (v u : Unwound)
    → (if c then further else some v) ≡ some u
    → (further ≡ some u) ⊎ (v ≡ u)
either_way true further v u h = inl h
either_way false further v u h = inr (some_inj h)

-- A turn of the loop without a goal: it goes on with the levels below, or ends there.
unwind_loop-turn :
    (accus : List Accu) (a cur : Accu) (u : Unwound)
    → unwind_loop no_order 0 true cur (a ∷ accus) ≡ some u
    → ((next : Accu) × (unwind_loop no_order 0 true next accus ≡ some u)) ⊎ (accus ≡ u.accus)
unfolding unwind_loop
unwind_loop-turn accus a cur u h =
    let (reached, e1, h1) = >>=-eq-some (reaches no_order 0 a.bracket) _ h in
    let parts = if length cur.accu == 0 then cur.parts else cur.parts ++ cur.accu ∷ [] in
    let ((generated, tmp), e2, h2) =
      >>=-eq-some
        (level_text no_order cur.order a.bracket parts
          (argument_brackets no_order true a.bracket reached (a ∷ accus)))
        _ h1 in
    let next = add_text a.bracket tmp a in
    elim (either_way (ltb a.order no_order && not reached) (unwind_loop no_order 0 true next accus)
      (record {
        reached = reached;
        generated = generated && length a.accu == 0;
        cur = next;
        accus = accus;
      })
      u h2) [
        | inl further ↦ inl (next, further)
        | inr ended ↦ inr (ap (λ (x : Unwound). x.accus) ended)
      ]

-- Each unwinding to no order takes a level off the stack.
unwind_loop-pops :
    (accus : List Accu) (a cur : Accu) (u : Unwound)
    → unwind_loop no_order 0 true cur (a ∷ accus) ≡ some u
    → length u.accus ≤ length accus
unwind_loop-pops [] a cur u h = elim (unwind_loop-turn [] a cur u h) [
  | inl (next, further) ↦ unwind_loop-bottom next u further
  | inr ended ↦ subst (λ x. length x ≤ 0) ended (omega arith)
]
unwind_loop-pops (b ∷ bs) a cur u h = elim (unwind_loop-turn (b ∷ bs) a cur u h) [
  | inl (next, further) ↦ omega (arith, unwind_loop-pops bs b next u further)
  | inr ended ↦ subst (λ x. length x ≤ suc (length bs)) ended (omega arith)
]

unwind_-pops :
    (accus : List Accu) (a cur : Accu) (u : Unwound)
    → unwind_ no_order 0 true cur (a ∷ accus) ≡ some u
    → length u.accus ≤ length accus
unfolding unwind_
unwind_-pops accus a cur u h =
    let (v, e, h1) = >>=-eq-some (unwind_loop no_order 0 true cur (a ∷ accus)) _ h in
    let same : v.accus ≡ u.accus = ap (λ (x : Unwound). x.accus) (some_inj h1) in
    subst (λ x. length x ≤ length accus) same (unwind_loop-pops accus a cur v e)

unwind_all-more :
    (fuel more : ℕ) (cur : Accu) (accus : List Accu)
    → length accus ≤ fuel
    → length accus ≤ more
    → unwind_all fuel cur accus ≡ unwind_all more cur accus
unfolding unwind_all
unwind_all-more fuel more cur [] h k = refl
unwind_all-more zero more cur (a ∷ accus) h k = absurd (omega arith)
unwind_all-more (suc fuel) zero cur (a ∷ accus) h k = absurd (omega arith)
unwind_all-more (suc fuel) (suc more) cur (a ∷ accus) h k =
    elim (Option-cases (unwind_ no_order 0 true cur (a ∷ accus))) [
      | inl e ↦ rw (e, unwind_all) refl
      | inr (u, e) ↦
          let pops = unwind_-pops accus a cur u e in
          rw (e, unwind_all) (unwind_all-more fuel more u.cur u.accus (omega arith) (omega arith))
    ]

unwind_all-ends :
    (fuel : ℕ) (cur : Accu) (accus : List Accu)
    → length accus ≤ fuel
    → ((text : Bytes) × (unwind_all fuel cur accus ≡ done text))
      ⊎ (unwind_all fuel cur accus ≡ exception)
unfolding unwind_all
unwind_all-ends fuel cur [] h = elim (Option-cases (unwind_ no_order 0 true cur [])) [
  | inl e ↦ inr (rw (e, unwind_all) refl)
  | inr (u, e) ↦ inl (strip_outer_brackets u.cur.accu, rw (e, unwind_all) refl)
]
unwind_all-ends zero cur (a ∷ accus) h = absurd (omega arith)
unwind_all-ends (suc fuel) cur (a ∷ accus) h =
    elim (Option-cases (unwind_ no_order 0 true cur (a ∷ accus))) [
      | inl e ↦ inr (rw (e, unwind_all) refl)
      | inr (u, e) ↦
          let pops = unwind_-pops accus a cur u e in
          rw (e, unwind_all) (unwind_all-ends fuel u.cur u.accus (omega arith))
    ]

-- The loop that writes the text ends, with the text or an exception: with fuel for as many turns as
-- the stack is deep it does not run out, and more fuel changes nothing.
pub unwind_all-fuel :
    (fuel : ℕ) (cur : Accu) (accus : List Accu)
    → length accus ≤ fuel
    → (unwind_all fuel cur accus ≡ unwind_all (length accus) cur accus)
      × (((text : Bytes) × (unwind_all fuel cur accus ≡ done text))
          ⊎ (unwind_all fuel cur accus ≡ exception))
unwind_all-fuel fuel cur accus h = (
  unwind_all-more fuel (length accus) cur accus h (omega arith),
  unwind_all-ends fuel cur accus h,
)
