-- ===== src/Combinatorics/Arrangements.antt =====
-- core/Combinatorics.hh: what `permute` of `combinations` generates, where it picks among all blocks
-- and none more than once.
use cadabra.Base.{
  ℕ, zero, suc, ◌+◌, ◌≤◌, Bool, true, false, not, ◌&&◌, ◌||◌, Option, some, ◌==◌, List, [], ◌∷◌,
  ◌++◌, length, ◌≡◌, inl, inr, refl, ◌∙◌, arith, Bool-cases, length-append, ==_iff,
}
use cadabra.Combinatorics.{none_crossed}
use cadabra.Combinatorics.NoRepeat.{has, NoRepeat, NoRepeat-snoc}
use cadabra.Combinatorics.Marks.{
  Marked, ne_of, Marked-free, Marked-none_crossed, Marked-snoc, Marked-reset,
}
use cadabra.Combinatorics.Combinations.{
  Picking, had, set, sum_of_sublengths, grouplen, accepted, starti, width, Vectors, choose,
  nextstep, from_start, asserts, permute, generated, blocks,
}

-- The predicate holds of every vector.
unfoldable pub Each : (List ℕ → Type 0) → Vectors → Type 0
Each P [] = Unit
Each P (v ∷ r) = P v × Each P r

unfoldable pub Below : ℕ → List ℕ → Type 0
Below n [] = Unit
Below n (i ∷ r) = (suc i ≤ n) × Below n r

-- So many different places of blocks as the groups have room for.
unfoldable pub IsArrangement : Picking → List ℕ → Type 0
IsArrangement p v =
    (length v ≡ sum_of_sublengths p.sublengths) × NoRepeat ◌==◌ v × Below (blocks p) v

unfoldable pub IsPositive : List ℕ → Type 0
IsPositive [] = Unit
IsPositive (s ∷ r) = (1 ≤ s) × IsPositive r

arrangement :
    (p : Picking) (v : List ℕ)
    → length v ≡ sum_of_sublengths p.sublengths
    → NoRepeat ◌==◌ v
    → Below (blocks p) v
    → IsArrangement p v
unfolding IsArrangement
arrangement p v h d b = (h, d, b)

Each-append : (P : List ℕ → Type 0) (xs ys : Vectors) → Each P xs → Each P ys → Each P (xs ++ ys)
unfolding Each
Each-append P [] ys e f = f
Each-append P (x ∷ xs) ys e f = (e.0, Each-append P xs ys (e.1) f)

Each-one : (P : List ℕ → Type 0) (v : List ℕ) → P v → Each P (v ∷ [])
unfolding Each
Each-one P v h = (h, tt)

Below-snoc : (n : ℕ) (v : List ℕ) (i : ℕ) → Below n v → suc i ≤ n → Below n (v ++ (i ∷ []))
unfolding Below
Below-snoc n [] i b h = (h, tt)
Below-snoc n (c ∷ v) i b h = (b.0, Below-snoc n v i (b.1) h)

-- The groups.
grouplen-le : (ss : List ℕ) (g : ℕ) → grouplen ss g ≤ sum_of_sublengths ss
unfolding grouplen sum_of_sublengths
grouplen-le [] g = omega arith
grouplen-le (s ∷ ss) zero = omega arith
grouplen-le (s ∷ ss) (suc g) = omega (arith, grouplen-le ss g)

grouplen_next :
    (ss : List ℕ) (g : ℕ)
    → IsPositive ss
    → suc (suc g) ≤ length ss
    → suc (grouplen ss g) ≤ grouplen ss (suc g)
unfolding grouplen IsPositive
grouplen_next [] g w h = absurd (omega arith)
grouplen_next (s ∷ []) g w h = absurd (omega arith)
grouplen_next (s ∷ t ∷ ss) zero w h = omega (arith, w.1.0)
grouplen_next (s ∷ t ∷ ss) (suc g) w h = omega (arith, grouplen_next (t ∷ ss) g (w.1) (omega arith))

grouplen_last : (ss : List ℕ) (g : ℕ) → suc g ≡ length ss → grouplen ss g ≡ sum_of_sublengths ss
unfolding grouplen sum_of_sublengths
grouplen_last [] g h = absurd (omega arith)
grouplen_last (s ∷ []) zero h = omega arith
grouplen_last (s ∷ t ∷ ss) zero h = absurd (omega arith)
grouplen_last (s ∷ ss) (suc g) h = omega (arith, grouplen_last ss g (omega arith))

free_of : (h m x y : Bool) → m ≡ false → ((not h || m) && x && y) ≡ true → h ≡ false
free_of h m x y e t = ground arith

module _ (p : Picking) (single : p.multiple_pick ≡ false) where
  accepted-free :
      (lowest : ℕ) (algehad : List Bool) (i : ℕ)
      → accepted p lowest algehad i ≡ true
      → had i algehad ≡ false
  unfolding accepted
  accepted-free lowest algehad i h = free_of (had i algehad) p.multiple_pick _ _ single h

  -- The loop, if every recursive call gives vectors with the property.
  choose-Each :
      (P : List ℕ → Type 0) (v : List ℕ) (next : ℕ → List Bool → Option Vectors) (lowest : ℕ)
      → ((i : ℕ) (had' : List Bool)
          → suc i ≤ (blocks p)
          → has ◌==◌ i v ≡ false
          → Marked (blocks p) (v ++ (i ∷ [])) had'
          → (out : Vectors) × (next i had' ≡ some out) × Each P out)
      → (i : ℕ) (algehad : List Bool) (k : ℕ) → i + k ≤ (blocks p)
      → Marked (blocks p) v algehad
      → (out : Vectors) × (choose p next lowest i algehad k ≡ some out) × Each P out
  unfolding choose Each
  choose-Each P v next lowest f i algehad zero h m = ([], refl, tt)
  choose-Each P v next lowest f i algehad (suc k) h m =
      elim (Bool-cases (accepted p lowest algehad i)) [
        | inr n ↦
            let rest = choose-Each P v next lowest f (suc i) algehad k (omega arith) m in
            (rest.0, rw (n, rest.1) refl, rest.2)
        | inl y ↦
            let free = accepted-free lowest algehad i y in
            let here =
              f i (set i true algehad) (omega arith)
                (Marked-free (blocks p) v algehad i (omega arith) free m)
                (Marked-snoc (blocks p) v algehad i (omega arith) m) in
            let rest =
              choose-Each P v next lowest f (suc i) (set i false (set i true algehad)) k
                (omega arith) (Marked-reset (blocks p) v algehad i (omega arith) free m) in
            (
              here.0 ++ rest.0,
              rw (y, here.1, rest.1) refl,
              Each-append P (here.0) (rest.0) (here.2) (rest.2),
            )
      ]

asserts-length : (p : Picking) → asserts p ≡ true → 1 ≤ length p.sublengths
unfolding asserts
asserts-length p h = ground arith

module _ (p : Picking) (single : p.multiple_pick ≡ false) (all : p.sub_problem_blocksize ≡ 0)
    (positive : IsPositive p.sublengths) where
  choose_all-Each :
      (P : List ℕ → Type 0) (v : List ℕ) (next : ℕ → List Bool → Option Vectors)
      (lowest current : ℕ) (algehad : List Bool)
      → ((i : ℕ) (had' : List Bool)
          → suc i ≤ (blocks p)
          → has ◌==◌ i v ≡ false
          → Marked (blocks p) (v ++ (i ∷ [])) had'
          → (out : Vectors) × (next i had' ≡ some out) × Each P out)
      → Marked (blocks p) v algehad
      → (out : Vectors) × (choose p next lowest (starti p current) algehad (width p) ≡ some out)
        × Each P out
  choose_all-Each P v next lowest current algehad f m =
      let start : starti p current ≡ 0 = rw all refl in
      let wide : width p ≡ (blocks p) = rw all refl in
      let whole : choose p next lowest (starti p current) algehad (width p)
          ≡ choose p next lowest 0 algehad (blocks p) =
        rw (start, wide) refl in
      let r = choose-Each p single P v next lowest f 0 algehad (blocks p) (omega arith) m in
      (r.0, whole ∙ r.1, r.2)

  nextstep-IsArrangement :
      (fuel current lowest g : ℕ) (algehad : List Bool) (v : List ℕ)
      → suc (sum_of_sublengths p.sublengths) ≤ fuel + current
      → current ≤ grouplen p.sublengths g
      → suc g ≤ length p.sublengths
      → length v ≡ current
      → NoRepeat ◌==◌ v
      → Below (blocks p) v
      → Marked (blocks p) v algehad
      → (out : Vectors) × (nextstep p fuel current lowest g algehad v ≡ some out)
        × Each (IsArrangement p) out
  unfolding nextstep
  nextstep-IsArrangement zero current lowest g algehad v enough c l len d b m =
      absurd (omega (arith, grouplen-le p.sublengths g))
  nextstep-IsArrangement (suc fuel) current lowest g algehad v enough c l len d b m =
      let P = IsArrangement p in
      let below : (g' : ℕ) → ℕ → List Bool → Option Vectors =
        (λ g' i had'. nextstep p fuel (suc current) i g' had' (v ++ (i ∷ []))) in
      let step : (g' lowest' : ℕ)
          → suc current ≤ grouplen p.sublengths g'
          → suc g' ≤ length p.sublengths
          → (out : Vectors) × (choose p (below g') lowest' (starti p current) algehad (width p)
              ≡ some out)
            × Each P out =
        (λ g' lowest' c' l'.
          choose_all-Each P v (below g') lowest' current algehad
            (λ i had' h free m'.
              nextstep-IsArrangement fuel (suc current) i g' had' (v ++ (i ∷ [])) (omega arith) c'
                l' (length-append v (i ∷ []) ∙ omega (arith, len)) (NoRepeat-snoc v i d free)
                (Below-snoc (blocks p) v i b h) m')
            m) in
      elim (Bool-cases (current == grouplen p.sublengths g)) [
        | inl filled ↦
            let full = (==_iff current (grouplen p.sublengths g)).0 filled in
            elim (Bool-cases (suc g == length p.sublengths)) [
              | inl last ↦
                  let l' = (==_iff (suc g) (length p.sublengths)).0 last in
                  (
                    v ∷ [],
                    rw (filled, last) refl,
                    Each-one P v
                        (arrangement p v (len ∙ full ∙ grouplen_last p.sublengths g l') d b),
                  )
              | inr more ↦
                  let l' : suc (suc g) ≤ length p.sublengths = omega (arith, l, ne_of _ _ more) in
                  let r = step (suc g) 0 (rw full (grouplen_next p.sublengths g positive l')) l' in
                  (r.0, rw (filled, more) (r.1), r.2)
            ]
        | inr room ↦
            let r = step g lowest (omega (arith, c, ne_of _ _ room)) l in (r.0, rw room (r.1), r.2)
      ]

  pub from_start-IsArrangement :
      1 ≤ length p.sublengths
      → (out : Vectors) × (from_start p ≡ some out) × Each (IsArrangement p) out
  unfolding from_start NoRepeat Below
  from_start-IsArrangement l =
      nextstep-IsArrangement (suc (sum_of_sublengths p.sublengths)) 0 0 0 (none_crossed (blocks p))
        [] (omega arith) (omega arith) l refl tt tt (Marked-none_crossed (blocks p))

  -- Where its assertions hold, every group has room for something, and blocks are picked among all of
  -- them and none more than once, `permute` ends: every vector that it generates has as many entries
  -- as the groups have room for, all different, and each the place of a block.
  pub permute-IsArrangement :
      asserts p ≡ true → (out : Vectors) × (permute p ≡ generated out) × Each (IsArrangement p) out
  unfolding permute
  permute-IsArrangement h =
      let r = from_start-IsArrangement (asserts-length p h) in (r.0, rw (h, r.1, permute) refl, r.2)
