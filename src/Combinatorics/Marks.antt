-- ===== src/Combinatorics/Marks.antt =====
-- core/Combinatorics.hh: the places marked in a `std::vector<bool>`.
use cadabra.Base.{
  ℕ, zero, suc, ◌≤◌, Bool, true, false, ◌==◌, List, [], ◌∷◌, ◌++◌, length, ◌≡◌, ◌≢◌, inl, inr, refl,
  sym, ap, ◌∙◌, arith, Bool-cases, ==_iff,
}
use cadabra.Combinatorics.{none_crossed}
use cadabra.Combinatorics.NoRepeat.{has, has-snoc}
use cadabra.Combinatorics.Combinations.{had, set}

-- The places that are marked.
pub length-set : (i : ℕ) (b : Bool) (l : List Bool) → length (set i b l) ≡ length l
length-set i b [] = refl
length-set zero b (c ∷ l) = refl
length-set (suc i) b (c ∷ l) = ap suc (length-set i b l)

pub had-set : (i : ℕ) (b : Bool) (l : List Bool) → suc i ≤ length l → had i (set i b l) ≡ b
had-set i b [] h = absurd (omega arith)
had-set zero b (c ∷ l) h = refl
had-set (suc i) b (c ∷ l) h = had-set i b l (omega arith)

pub had-set_other : (i j : ℕ) (b : Bool) (l : List Bool) → i ≢ j → had j (set i b l) ≡ had j l
had-set_other i j b [] h = refl
had-set_other zero zero b (c ∷ l) h = absurd (h refl)
had-set_other zero (suc j) b (c ∷ l) h = refl
had-set_other (suc i) zero b (c ∷ l) h = refl
had-set_other (suc i) (suc j) b (c ∷ l) h = had-set_other i j b l (λ e. h (ap suc e))

pub length-none_crossed : (n : ℕ) → length (none_crossed n) ≡ n
length-none_crossed zero = refl
length-none_crossed (suc n) = ap suc (length-none_crossed n)

-- The blocks that are not marked are not picked yet; the length is that of the marks.
unfoldable pub Marked : ℕ → List ℕ → List Bool → Type 0
Marked n v algehad =
    (length algehad ≡ n) × ((j : ℕ) → suc j ≤ n → had j algehad ≡ false → has ◌==◌ j v ≡ false)

pub ne_of : (i j : ℕ) → (i == j) ≡ false → i ≢ j
ne_of i j k e = ground arith

pub Marked-free :
    (n : ℕ) (v : List ℕ) (algehad : List Bool) (i : ℕ)
    → suc i ≤ n
    → had i algehad ≡ false
    → Marked n v algehad
    → has ◌==◌ i v ≡ false
unfolding Marked
Marked-free n v algehad i h free m = m.1 i h free

pub Marked-none_crossed : (n : ℕ) → Marked n [] (none_crossed n)
unfolding Marked has
Marked-none_crossed n = (length-none_crossed n, λ j below free. refl)

pub Marked-snoc :
    (n : ℕ) (v : List ℕ) (algehad : List Bool) (i : ℕ)
    → suc i ≤ n
    → Marked n v algehad
    → Marked n (v ++ (i ∷ [])) (set i true algehad)
unfolding Marked
Marked-snoc n v algehad i h m = (
  length-set i true algehad ∙ m.0,
  λ j below f. elim (Bool-cases (i == j)) [
    | inl e ↦
        let i≡j = (==_iff i j).0 e in
        let t : had j (set i true algehad) ≡ true =
          (rw i≡j (had-set j true algehad (rw (m.0) below))) in
        absurd (cc)
    | inr k ↦
        has-snoc j v i
        ∙ rw (m.1 j below (sym (had-set_other i j true algehad (ne_of i j k)) ∙ f), k) refl
  ],
)

pub Marked-reset :
    (n : ℕ) (v : List ℕ) (algehad : List Bool) (i : ℕ)
    → suc i ≤ n
    → had i algehad ≡ false
    → Marked n v algehad
    → Marked n v (set i false (set i true algehad))
unfolding Marked
Marked-reset n v algehad i h free m = (
  length-set i false (set i true algehad) ∙ length-set i true algehad ∙ m.0,
  λ j below f. elim (Bool-cases (i == j)) [
    | inl e ↦ m.1 j below (rw (sym ((==_iff i j).0 e)) free)
    | inr k ↦ m.1 j below (
        sym (
          had-set_other i j false (set i true algehad) (ne_of i j k)
          ∙ had-set_other i j true algehad (ne_of i j k))
        ∙ f)
  ],
)
