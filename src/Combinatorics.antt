-- ===== src/Combinatorics.antt =====
-- core/Combinatorics.hh: the sign of a reordering. An `int` that is only ever 1 or -1 is a Sign. The
-- children have the combinations of blocks.
mod NoRepeat
mod Removing
mod Marks
mod Transpositions
mod Arrangements
mod Reached
mod Complete
pub mod Combinations
mod Tests
use cadabra.Base.{
  ℕ, zero, suc, ◌-◌, ◌*◌, ◌%◌, ◌^◌, Bool, true, false, not, ◌&&◌, Option, none, some, ◌==◌,
  if◌then◌else◌, List, [], ◌∷◌, length, map,
}
use cadabra.Base.Options.{◌>>=◌}

pub data Sign : Type 0 where
  plus : Sign
  minus : Sign

abbrev pub negate : Sign → Sign
negate plus = minus
negate minus = plus

-- `std::vector<bool>(n, false)`.
abbrev pub none_crossed : ℕ → List Bool
none_crossed zero = []
none_crossed (suc n) = false ∷ none_crossed n

-- The numbers from n on, as many as asked for.
abbrev pub upto : ℕ → ℕ → List ℕ
upto n zero = []
upto n (suc k) = n ∷ upto (suc n) k

-- What the inner loop of `ordersign` leaves: the places crossed off, and the sign.
pub record Pass : Type 0 where
  pub crossedoff : List Bool
  pub sign : Sign

abbrev pub behind : Bool → Option Pass → Option Pass
behind c none = none
behind c (some p) = some (record p { crossedoff = c ∷ p.crossedoff })

module _ {ℓ} {A : Type ℓ} (eq : A → A → Bool) where
  -- The inner loop: `it` from `b2` on, with the places crossed off from `otherpos` on. It reads
  -- outside `crossedoff` where the second sequence is longer than the first: none.
  unfoldable pub cross : A → List A → List Bool → Sign → Option Pass
  cross b1 [] crossedoff sign = some (record { crossedoff = crossedoff; sign = sign })
  cross b1 (it ∷ e2) [] sign = none
  cross b1 (it ∷ e2) (c ∷ crossedoff) sign =
      let next = behind c (cross b1 e2 crossedoff (if c then sign else negate sign)) in
      if eq it b1 && not c
      then some (record { crossedoff = true ∷ crossedoff; sign = sign })
      else next

  -- The outer loop, over the first sequence.
  unfoldable pub cross_all : List A → List A → List Bool → Sign → Option Sign
  cross_all [] s2 crossedoff sign = some sign
  cross_all (b1 ∷ e1) s2 crossedoff sign = do
    p ← cross b1 s2 crossedoff sign
    cross_all e1 s2 p.crossedoff p.sign

  -- `ordersign(b1, e1, b2, e2)`, with the default step of one.
  unfoldable pub ordersign : List A → List A → Option Sign
  ordersign s1 s2 = cross_all s1 s2 (none_crossed (length s1)) plus

-- `ordersign(b1, e1)`: against 0, 1, 2 and so on.
unfoldable pub ordersign_of : List ℕ → Option Sign
ordersign_of s1 = ordersign ◌==◌ (upto 0 (length s1)) s1
