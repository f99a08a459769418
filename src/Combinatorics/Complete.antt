-- ===== src/Combinatorics/Complete.antt =====
-- core/Combinatorics.hh: with groups of one entry each, `permute` of `combinations` generates every
-- ordering of the blocks.
use cadabra.Base.{
  ℕ, zero, suc, ◌≤◌, ◌/◌, ◌%◌, ◌*◌, leb, Bool-cases, Bool, true, false, Option, none, some, ◌==◌,
  List, [], ◌∷◌, ◌++◌, length, ◌≡◌, ◌↔◌, inl, inr, refl, sym, ap, ◌∙◌, arith, length-append, ==_iff,
  append_assoc, append-nil,
}
use cadabra.Base.Options.{some_inj}
use native.Mathlib.Nat.{div-mul-le_self, div-zero}
use cadabra.Combinatorics.{none_crossed}
use cadabra.Combinatorics.NoRepeat.{has, NoRepeat, not_has-middle}
use cadabra.Combinatorics.Combinations.{
  Picking, had, sum_of_sublengths, grouplen, starti, width, Vectors, choose, nextstep, permute,
  from_start, asserts, generated, blocks, unit_sublengths,
}
use cadabra.Combinatorics.Arrangements.{
  Each, Below, IsArrangement, IsPositive, from_start-IsArrangement,
}
use cadabra.Combinatorics.Reached.{In, OnlyMarked, choose-In}

-- Groups of one entry.
length-unit_sublengths : (n : ℕ) → length (unit_sublengths n) ≡ n
unfolding unit_sublengths
length-unit_sublengths zero = refl
length-unit_sublengths (suc n) = ap suc (length-unit_sublengths n)

grouplen-unit_sublengths : (n g : ℕ) → suc g ≤ n → grouplen (unit_sublengths n) g ≡ suc g
unfolding unit_sublengths grouplen
grouplen-unit_sublengths zero g h = absurd (omega arith)
grouplen-unit_sublengths (suc n) zero h = refl
grouplen-unit_sublengths (suc n) (suc g) h =
    omega (arith, grouplen-unit_sublengths n g (omega arith))

Below-middle : (n : ℕ) (t : List ℕ) (i : ℕ) (w : List ℕ) → Below n (t ++ (i ∷ w)) → suc i ≤ n
unfolding Below
Below-middle n [] i w b = b.0
Below-middle n (c ∷ t) i w b = Below-middle n t i w (b.1)

NoRepeat-middle :
    (t : List ℕ) (i : ℕ) (w : List ℕ) → NoRepeat ◌==◌ (t ++ (i ∷ w)) → has ◌==◌ i t ≡ false
unfolding NoRepeat has
NoRepeat-middle [] i w d = refl
NoRepeat-middle (c ∷ t) i w d =
    let n = not_has-middle ◌==◌ c i t w (d.0) in let r = NoRepeat-middle t i w (d.1) in ground arith

nextstep_zero :
    (p : Picking) (current lowest g : ℕ) (algehad : List Bool) (t : List ℕ)
    → nextstep p 0 current lowest g algehad t ≡ none
unfolding nextstep
nextstep_zero p current lowest g algehad t = refl

IsPositive-unit_sublengths : (n : ℕ) → IsPositive (unit_sublengths n)
unfolding IsPositive unit_sublengths
IsPositive-unit_sublengths zero = tt
IsPositive-unit_sublengths (suc n) = (omega arith, IsPositive-unit_sublengths n)

sum_of_sublengths-unit_sublengths : (n : ℕ) → sum_of_sublengths (unit_sublengths n) ≡ n
unfolding sum_of_sublengths unit_sublengths
sum_of_sublengths-unit_sublengths zero = refl
sum_of_sublengths-unit_sublengths (suc n) = omega (arith, sum_of_sublengths-unit_sublengths n)

had-none_crossed : (n j : ℕ) → had j (none_crossed n) ≡ false
had-none_crossed zero j = refl
had-none_crossed (suc n) zero = refl
had-none_crossed (suc n) (suc j) = had-none_crossed n j

OnlyMarked-none_crossed : (n : ℕ) → OnlyMarked [] (none_crossed n)
unfolding OnlyMarked
OnlyMarked-none_crossed n = λ j h. absurd (let x = had-none_crossed n j in cc)

In-Each : (P : List ℕ → Type 0) (v : List ℕ) (r : Vectors) → Each P r → In v r → P v
unfolding Each In
In-Each P v [] e h = elim h [ ]
In-Each P v (w ∷ r) e (inl h) = rw h (e.0)
In-Each P v (w ∷ r) e (inr h) = In-Each P v r (e.1) h

leb-true : (a b : ℕ) → a ≤ b → leb a b ≡ true
leb-true a b h = ground arith

-- One block at a time out of all of them.
unfoldable pub IsPlain : Picking → Type 0
IsPlain p =
    (p.input_asym ≡ [])
    × (p.sub_problem_blocksize ≡ 0)
    × (p.sublengths ≡ unit_sublengths (blocks p))
    × (p.size % p.block_length ≡ 0)

module _ (p : Picking) (plain : IsPlain p) where
  choose_all-In :
      (t : List ℕ) (i : ℕ) (w : List ℕ) (next : ℕ → List Bool → Option Vectors) (current : ℕ)
      (algehad : List Bool) (out : Vectors)
      → NoRepeat ◌==◌ (t ++ (i ∷ w))
      → Below (blocks p) (t ++ (i ∷ w))
      → ((had' : List Bool) (o : Vectors)
          → OnlyMarked (t ++ (i ∷ [])) had'
          → next i had' ≡ some o
          → In (t ++ (i ∷ w)) o)
      → OnlyMarked t algehad
      → choose p next 0 (starti p current) algehad (width p) ≡ some out
      → In (t ++ (i ∷ w)) out
  unfolding IsPlain
  choose_all-In t i w next current algehad out d b f m h =
      let all = plain.1 in
      let whole : choose p next 0 (starti p current) algehad (width p)
          ≡ choose p next 0 0 algehad (blocks p) =
        rw all refl in
      choose-In p (plain.0) (t ++ (i ∷ w)) t next i (NoRepeat-middle t i w d) f 0 algehad (blocks p)
        out (omega arith) (omega (arith, Below-middle (blocks p) t i w b)) m (sym whole ∙ h)

  plain_filled : (g : ℕ) → suc g ≤ (blocks p) → (suc g == grouplen p.sublengths g) ≡ true
  unfolding IsPlain
  plain_filled g h = (==_iff _ _).1 (sym (rw (plain.2) (grouplen-unit_sublengths (blocks p) g h)))

  plain_length : length p.sublengths ≡ (blocks p)
  unfolding IsPlain
  plain_length = ap length (plain.2) ∙ length-unit_sublengths (blocks p)

  plain_sum : sum_of_sublengths p.sublengths ≡ blocks p
  unfolding IsPlain
  plain_sum = ap sum_of_sublengths (plain.2) ∙ sum_of_sublengths-unit_sublengths (blocks p)

  nextstep_last :
      (fuel g lowest : ℕ) (algehad : List Bool) (t : List ℕ)
      → suc g ≡ (blocks p)
      → nextstep p (suc fuel) (suc g) lowest g algehad t ≡ some (t ∷ [])
  unfolding nextstep
  nextstep_last fuel g lowest algehad t h =
      let filled = plain_filled g (omega arith) in
      let last : (suc g == length p.sublengths) ≡ true = (==_iff _ _).1 (h ∙ sym plain_length) in
      rw (filled, last) refl

  nextstep_group :
      (fuel g lowest : ℕ) (algehad : List Bool) (t : List ℕ)
      → suc (suc g) ≤ (blocks p)
      → nextstep p (suc fuel) (suc g) lowest g algehad t
        ≡ choose p
            (λ i had'. nextstep p fuel (suc (suc g)) i (suc g) had' (t ++ (i ∷ [])))
            0
            (starti p (suc g))
            algehad
            (width p)
  unfolding nextstep
  nextstep_group fuel g lowest algehad t h =
      let filled = plain_filled g (omega arith) in
      let n = plain_length in
      let more : (suc g == length p.sublengths) ≡ false = ground arith in rw (filled, more) refl

  nextstep-In :
      (fuel g lowest : ℕ) (algehad : List Bool) (t w : List ℕ) (out : Vectors)
      → length t ≡ suc g
      → length (t ++ w) ≡ (blocks p)
      → NoRepeat ◌==◌ (t ++ w)
      → Below (blocks p) (t ++ w)
      → OnlyMarked t algehad
      → nextstep p fuel (suc g) lowest g algehad t ≡ some out
      → In (t ++ w) out
  unfolding In
  nextstep-In zero g lowest algehad t w out len whole d b m h =
      absurd (let x : none ≡ some out = sym (nextstep_zero p _ _ _ _ _) ∙ h in cc)
  nextstep-In (suc fuel) g lowest algehad t [] out len whole d b m h =
      let e = nextstep_last fuel g lowest algehad t (omega (arith, length-append t [])) in
      rw (append-nil t, sym (some_inj (sym e ∙ h))) (inl refl)
  nextstep-In (suc fuel) g lowest algehad t (i ∷ w) out len whole d b m h =
      let e = nextstep_group fuel g lowest algehad t (omega (arith, length-append t (i ∷ w))) in
      let same = append_assoc t (i ∷ []) w in
      choose_all-In t i w (λ i had'. nextstep p fuel (suc (suc g)) i (suc g) had' (t ++ (i ∷ [])))
        (suc g) algehad out d b
        (λ had' o m' h'. rw (sym same) (
          nextstep-In fuel (suc g) i had' (t ++ (i ∷ [])) w o
            (omega (arith, length-append t (i ∷ []))) (rw same whole) (rw same d) (rw same b) m'
            h'))
        m (sym e ∙ h)

  nextstep_start :
      (fuel : ℕ) (algehad : List Bool)
      → 1 ≤ (blocks p)
      → nextstep p (suc fuel) 0 0 0 algehad []
        ≡ choose p (λ i had'. nextstep p fuel 1 i 0 had' (i ∷ [])) 0 (starti p 0) algehad (width p)
  unfolding nextstep
  nextstep_start fuel algehad h =
      let filled = (==_iff _ _).0 (plain_filled 0 h) in
      let room : (0 == grouplen p.sublengths 0) ≡ false = ground arith in rw room refl

  from_start-In :
      (v : List ℕ) (out : Vectors)
      → 1 ≤ (blocks p)
      → length v ≡ (blocks p)
      → NoRepeat ◌==◌ v
      → Below (blocks p) v
      → from_start p ≡ some out
      → In v out
  unfolding from_start
  from_start-In [] out h len d b e = absurd (omega arith)
  from_start-In (i ∷ w) out h len d b e =
      let fuel = sum_of_sublengths p.sublengths in
      choose_all-In [] i w (λ i' had'. nextstep p fuel 1 i' 0 had' (i' ∷ [])) 0
        (none_crossed (blocks p)) out d b
        (λ had' o m h'. nextstep-In fuel 0 i had' (i ∷ []) w o refl len d b m h')
        (OnlyMarked-none_crossed (blocks p))
        (sym (nextstep_start fuel (none_crossed (blocks p)) h) ∙ e)

  plain-asserts : p.multiple_pick ≡ false → 1 ≤ blocks p → asserts p ≡ true
  unfolding IsPlain asserts blocks
  plain-asserts single h =
      let some_groups : length p.sublengths == 0 ≡ false = (let n = plain_length in ground arith) in
      let some_length : p.block_length == 0 ≡ false = elim (Bool-cases (p.block_length == 0)) [
        | inl e ↦ absurd (
            let zero_length = (==_iff p.block_length 0).0 e in
            let no_blocks = ap (λ n. p.size / n) zero_length ∙ div-zero p.size in
            omega (arith, h, no_blocks))
        | inr e ↦ e
      ] in
      let divides : p.size % p.block_length == 0 ≡ true = (==_iff _ _).1 (plain.3) in
      let enough : leb (sum_of_sublengths p.sublengths * p.block_length) p.size ≡ true =
        rw plain_sum (leb-true _ _ (div-mul-le_self p.size p.block_length)) in
      rw (some_groups, some_length, divides, single, enough) refl

  -- Where there are as many groups as blocks, at least one, each with room for one block, and blocks
  -- are picked among all of them, none more than once, with no order asked for by `input_asym`, and
  -- the length of a block divides the size, as `permute` asserts, then `permute` ends: a vector is
  -- generated just when it has as many entries as the groups have room for, all different, and each
  -- the place of a block.
  pub permute_iff :
      p.multiple_pick ≡ false
      → 1 ≤ blocks p
      → (v : List ℕ)
      → (out : Vectors) × (permute p ≡ generated out) × (In v out ↔ IsArrangement p v)
  unfolding IsPlain IsArrangement permute
  permute_iff single h v =
      let groups = plain.2 in
      let asserted = plain-asserts single h in
      let r =
        from_start-IsArrangement p single (plain.1)
          (rw groups (IsPositive-unit_sublengths (blocks p))) (rw plain_length h) in
      (
        r.0,
        rw (asserted, r.1, permute) refl,
        (
          In-Each (IsArrangement p) v (r.0) (r.2),
          λ a. from_start-In v (r.0) h (a.0 ∙ plain_sum) (a.1) (a.2) (r.1),
        ),
      )
