-- ===== src/Parser/Reach.antt =====
-- Runs of the loop of `string2tree` in core/Parser.cc.
use cadabra.Base.{
  ℕ, zero, suc, ◌<◌, ◌+◌, true, false, List, ◌∷◌, Option, none, some, ◌≡◌, refl, sym, ap, ◌∙◌,
  length, ◌==◌, Bool-cases, inl, inr, arith, Bytes, if◌then◌else◌,
}
use mathlib.Core.Path.{subst}
use cadabra.Base.Options.{◌>>=◌, >>=-eq-some, some_inj}
use cadabra.Storage.{Bracket, ParentRel}
use cadabra.Storage.Multiplier.{Rational}
use cadabra.Parser.State.{State, Mode, Place}
use cadabra.Parser.Machine.{step_in, step, goes_on, loop, returned}

module _ (m : Rational) where
  open m use {Q}

  -- The next state, if the loop goes on.
  unfoldable pub next : State Q → Option (State Q)
  next s = if goes_on m s then step m s else none

  unfoldable pub turns : ℕ → State Q → Option (State Q)
  turns zero s = some s
  turns (suc n) s = next s >>= turns n

  -- Some number of turns leads from one state to the other.
  abbrev pub Reach : State Q → State Q → Type 0
  Reach s t = (n : ℕ) × (turns n s ≡ some t)

  pub stay : (s : State Q) → Reach s s
  unfolding turns
  stay s = (0, refl)

  turns-append :
      (n k : ℕ) (s t u : State Q)
      → turns n s ≡ some t
      → turns k t ≡ some u
      → turns (n + k) s ≡ some u
  unfolding turns
  turns-append zero k s t u h e =
      let same : 0 + k ≡ k = omega arith in
      rw same (subst (λ x. turns k x ≡ some u) (sym (some_inj h)) e)
  turns-append (suc n) k s t u h e =
      let (s', f, g) = >>=-eq-some (next s) (turns n) h in
      let same : suc n + k ≡ suc (n + k) = omega arith in
      rw same (subst (λ o. (o >>= turns (n + k)) ≡ some u) (sym f) (turns-append n k s' t u g e))

  pub and_then : (s t u : State Q) → Reach s t → Reach t u → Reach s u
  and_then s t u (n, h) (k, e) = (n + k, turns-append n k s t u h e)

  -- A state by its parts.
  abbrev pub at : Bytes → Bytes → List Mode → List Bracket → List ParentRel → Place Q → State Q
  at str tmp ms bs rs p = record {
    str = str;
    tmp = tmp;
    current_mode = ms;
    current_bracket = bs;
    current_parent_rel = rs;
    place = p;
  }

  goes_on-at :
      (mode : Mode) (ms : List Mode) (str tmp : Bytes) (bs : List Bracket) (rs : List ParentRel)
      (p : Place Q)
      → 0 < length str
      → goes_on m (at str tmp (mode ∷ ms) bs rs p) ≡ true
  unfolding goes_on
  goes_on-at mode ms str tmp bs rs p h = ground arith

  pub next-at :
      (mode : Mode) (ms : List Mode) (str tmp : Bytes) (bs : List Bracket) (rs : List ParentRel)
      (p : Place Q) (t : State Q)
      → 0 < length str
      → step_in m mode ms (at str tmp (mode ∷ ms) bs rs p) ≡ some t
      → next (at str tmp (mode ∷ ms) bs rs p) ≡ some t
  unfolding next step
  next-at mode ms str tmp bs rs p t l h =
      let s = at str tmp (mode ∷ ms) bs rs p in
      subst (λ b. (if b then step m s else none) ≡ some t)
        (sym (goes_on-at mode ms str tmp bs rs p l)) h

  -- One turn in a mode, at a character.
  pub turn :
      (mode : Mode) (ms : List Mode) (str tmp : Bytes) (bs : List Bracket) (rs : List ParentRel)
      (p : Place Q) (t : State Q)
      → 0 < length str
      → step_in m mode ms (at str tmp (mode ∷ ms) bs rs p) ≡ some t
      → Reach (at str tmp (mode ∷ ms) bs rs p) t
  unfolding turns
  turn mode ms str tmp bs rs p t l h =
      (1, ap (λ o. o >>= turns 0) (next-at mode ms str tmp bs rs p t l h))

  pub loop-next : (n : ℕ) (s t : State Q) → next s ≡ some t → loop m (suc n) s ≡ loop m n t
  unfolding loop next
  loop-next n s t h = elim (Bool-cases (goes_on m s)) [
    | inl e ↦ let h' : step m s ≡ some t = rw (e, next) at h in rw (e, loop) (rw h' refl)
    | inr e ↦ absurd (ground arith)
  ]

  -- A run to a state where the loop ends: with as much fuel, the loop returns there.
  pub loop-turns :
      (n : ℕ) (s t : State Q)
      → turns n s ≡ some t
      → goes_on m t ≡ false
      → loop m n s ≡ returned (length t.str == 0) t
  unfolding turns loop
  loop-turns zero s t h e =
      subst (λ x. loop m 0 x ≡ returned (length t.str == 0) t) (sym (some_inj h)) (rw e refl)
  loop-turns (suc n) s t h e =
      let (s', f, g) = >>=-eq-some (next s) (turns n) h in
      loop-next n s s' f ∙ loop-turns n s' t g e
