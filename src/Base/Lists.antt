-- ===== src/Base/Lists.antt =====
-- Lists measured and indexed by native numbers, under the library's names.
use Prim.Native.Nat.{ℕ, zero, suc, ◌+◌, ◌≤◌}
use mathlib.Core.Path.{◌≡◌, refl, ap}
use mathlib.Core.List.{List, [], ◌∷◌, ◌++◌}
use mathlib.Core.Option.{Option, none, some}
use native.Mathlib.Omega.{arith}

module _ {ℓ} {A : Type ℓ} where
  abbrev pub length : List A → ℕ
  length [] = 0
  length (x ∷ xs) = suc (length xs)

  abbrev pub get_elem? : List A → ℕ → Option A
  get_elem? [] i = none
  get_elem? (x ∷ xs) zero = some x
  get_elem? (x ∷ xs) (suc i) = get_elem? xs i

  abbrev pub get_or : List A → ℕ → A → A
  get_or [] i d = d
  get_or (x ∷ xs) zero d = x
  get_or (x ∷ xs) (suc i) d = get_or xs i d

  abbrev pub take : ℕ → List A → List A
  take zero xs = []
  take (suc n) [] = []
  take (suc n) (x ∷ xs) = x ∷ take n xs

  abbrev pub drop : ℕ → List A → List A
  drop zero xs = xs
  drop (suc n) [] = []
  drop (suc n) (x ∷ xs) = drop n xs

  pub length-append : (xs ys : List A) → length (xs ++ ys) ≡ length xs + length ys
  length-append [] ys = omega arith
  length-append (x ∷ xs) ys = omega (arith, length-append xs ys)

module _ {ℓ} {A : Type ℓ} where
  pub take-append-drop : (n : ℕ) (xs : List A) → take n xs ++ drop n xs ≡ xs
  take-append-drop zero xs = refl
  take-append-drop (suc n) [] = refl
  take-append-drop (suc n) (x ∷ xs) = ap (x ∷◌) (take-append-drop n xs)

  pub take-take_append :
      (n : ℕ) (xs r : List A) → n ≤ length xs → take n (take n xs ++ r) ≡ take n xs
  take-take_append zero xs r h = refl
  take-take_append (suc n) [] r h = absurd (omega arith)
  take-take_append (suc n) (x ∷ xs) r h = ap (x ∷◌) (take-take_append n xs r (omega arith))

  pub drop-take_append : (n : ℕ) (xs r : List A) → n ≤ length xs → drop n (take n xs ++ r) ≡ r
  drop-take_append zero xs r h = refl
  drop-take_append (suc n) [] r h = absurd (omega arith)
  drop-take_append (suc n) (x ∷ xs) r h = drop-take_append n xs r (omega arith)

  pub drop-append_self : (xs r : List A) → drop (length xs) (xs ++ r) ≡ r
  drop-append_self [] r = refl
  drop-append_self (x ∷ xs) r = drop-append_self xs r

  pub le-length-take_append : (n : ℕ) (xs r : List A) → n ≤ length xs → n ≤ length (take n xs ++ r)
  le-length-take_append zero xs r h = omega arith
  le-length-take_append (suc n) [] r h = absurd (omega arith)
  le-length-take_append (suc n) (x ∷ xs) r h =
      omega (arith, le-length-take_append n xs r (omega arith))
