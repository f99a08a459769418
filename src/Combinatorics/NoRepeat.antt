-- ===== src/Combinatorics/NoRepeat.antt =====
-- Lists without repetitions, where elements are told apart by a Boolean test.
use cadabra.Base.{
  ℕ, zero, suc, ◌≤◌, Bool, true, false, ◌||◌, ◌==◌, List, [], ◌∷◌, ◌++◌, ◌≡◌, refl, ◌∙◌, arith,
}
use cadabra.Combinatorics.{upto}

module _ {ℓ} {A : Type ℓ} (eq : A → A → Bool) where
  unfoldable pub has : A → List A → Bool
  has x [] = false
  has x (y ∷ ys) = eq y x || has x ys

  unfoldable pub NoRepeat : List A → Type 0
  NoRepeat [] = Unit
  NoRepeat (x ∷ xs) = (has x xs ≡ false) × NoRepeat xs

  -- A reordering of lists without repetitions.
  pub has-transposed :
      (c : A) (l : List A) (a b : A) (r : List A)
      → has c (l ++ (a ∷ b ∷ r)) ≡ has c (l ++ (b ∷ a ∷ r))
  unfolding has
  has-transposed c [] a b r = ground arith
  has-transposed c (d ∷ l) a b r = rw (has-transposed c l a b r) refl

  pub has-middle : (c : A) (l r : List A) → has c r ≡ true → has c (l ++ r) ≡ true
  unfolding has
  has-middle c [] r h = h
  has-middle c (d ∷ l) r h = rw (has-middle c l r h) (ground arith)

  pub not_has-middle : (c d : A) (l r : List A) → has c (l ++ (d ∷ r)) ≡ false → eq d c ≡ false
  unfolding has
  not_has-middle c d [] r h = ground arith
  not_has-middle c d (e ∷ l) r h = not_has-middle c d l r (ground arith)

-- One place more.
pub has-snoc : (c : ℕ) (v : List ℕ) (i : ℕ) → has ◌==◌ c (v ++ (i ∷ [])) ≡ (has ◌==◌ c v || i == c)
unfolding has
has-snoc c [] i = ground arith
has-snoc c (d ∷ v) i = rw (has-snoc c v i) (ground arith)

pub NoRepeat-snoc :
    (v : List ℕ) (i : ℕ) → NoRepeat ◌==◌ v → has ◌==◌ i v ≡ false → NoRepeat ◌==◌ (v ++ (i ∷ []))
unfolding NoRepeat has
NoRepeat-snoc [] i d h = (refl, tt)
NoRepeat-snoc (c ∷ v) i d h =
    let e : (i == c) ≡ false = ground arith in
    (has-snoc c v i ∙ rw (d.0, e) refl, NoRepeat-snoc v i (d.1) (ground arith))

-- `ordersign_of`: the numbers from 0 on have no repetitions.
pub has-upto : (c n k : ℕ) → suc c ≤ n → has ◌==◌ c (upto n k) ≡ false
unfolding has
has-upto c n zero h = refl
has-upto c n (suc k) h = let ih = has-upto c (suc n) k (omega arith) in ground arith

pub NoRepeat-upto : (n k : ℕ) → NoRepeat ◌==◌ (upto n k)
unfolding NoRepeat
NoRepeat-upto n zero = tt
NoRepeat-upto n (suc k) = (has-upto n (suc n) k (omega arith), NoRepeat-upto (suc n) k)
