-- ===== src/Combinatorics/Combinations.antt =====
-- core/Combinatorics.hh: `combinations`, without weights, which then allow everything. The vectors
-- are given as the places of the blocks that are picked, in the order in which they are generated.
use cadabra.Base.{
  ℕ, zero, suc, ◌+◌, ◌-◌, ◌*◌, ◌/◌, ◌%◌, Bool, true, false, not, ◌&&◌, ◌||◌, Option, none, some,
  ◌==◌, ltb, leb, if◌then◌else◌, List, [], ◌∷◌, ◌++◌, length, get_or, take, drop,
}
use cadabra.Base.Options.{◌>>=◌}
use cadabra.Combinatorics.{none_crossed}

-- `size` is `original.size()`, and `input_asym` holds ranges in their order, as `permute` sorts them.
pub record Picking : Type 0 where
  pub size : ℕ
  pub block_length : ℕ
  pub sublengths : List ℕ
  pub input_asym : List (List ℕ)
  pub multiple_pick : Bool
  pub sub_problem_blocksize : ℕ

-- `original.size()/block_length`.
unfoldable pub blocks : Picking → ℕ
blocks p = p.size / p.block_length

-- `algehad[i]`, and the assignment to it.
abbrev pub had : ℕ → List Bool → Bool
had i algehad = get_or algehad i false

abbrev pub set : ℕ → Bool → List Bool → List Bool
set i b [] = []
set zero b (c ∷ r) = b ∷ r
set (suc i) b (c ∷ r) = c ∷ set i b r

unfoldable pub sum_of_sublengths : List ℕ → ℕ
sum_of_sublengths [] = 0
sum_of_sublengths (s ∷ r) = s + sum_of_sublengths r

-- The lengths of the groups up to and with `groupindex`.
unfoldable pub grouplen : List ℕ → ℕ → ℕ
grouplen [] g = 0
grouplen (s ∷ r) zero = s
grouplen (s ∷ r) (suc g) = s + grouplen r g

-- Whether i stands in the range behind a place that is not picked yet.
abbrev pub behind_missing : List Bool → ℕ → Bool → List ℕ → Bool
behind_missing algehad i missing [] = false
behind_missing algehad i missing (j ∷ r) =
    (i == j && missing) || behind_missing algehad i (missing || not (had j algehad)) r

abbrev pub discard : List Bool → ℕ → List (List ℕ) → Bool
discard algehad i [] = false
discard algehad i (asym ∷ r) = behind_missing algehad i false asym || discard algehad i r

unfoldable pub accepted : Picking → ℕ → List Bool → ℕ → Bool
accepted p lowest_in_group algehad i =
    (not (had i algehad) || p.multiple_pick)
    && not (discard algehad i p.input_asym)
    && ltb lowest_in_group (suc i)

abbrev pub starti : Picking → ℕ → ℕ
starti p current =
    if p.sub_problem_blocksize == 0 then 0 else current - current % p.sub_problem_blocksize

-- `endi - starti`.
abbrev pub width : Picking → ℕ
width p = if p.sub_problem_blocksize == 0 then blocks p else p.sub_problem_blocksize

abbrev pub Vectors : Type 0
Vectors = List (List ℕ)

-- The body of the loop: `next` is the recursive call.
abbrev pub pick :
    Bool → (ℕ → List Bool → Option Vectors) → ℕ → List Bool → Option (Vectors × List Bool)
pick false next i algehad = some ([], algehad)
pick true next i algehad = do
  found ← next i (set i true algehad)
  some (found, set i false (set i true algehad))

-- The loop from i on, so many times.
unfoldable pub choose :
    Picking → (ℕ → List Bool → Option Vectors) → ℕ → ℕ → List Bool → ℕ → Option Vectors
choose p next lowest_in_group i algehad zero = some []
choose p next lowest_in_group i algehad (suc k) = do
  found ← pick (accepted p lowest_in_group algehad i) next i algehad
  rest ← choose p next lowest_in_group (suc i) (found.1) k
  some (found.0 ++ rest)

-- `nextstep`: none where the fuel runs out. The first `current` entries of `temparr` are given.
unfoldable pub nextstep : Picking → ℕ → ℕ → ℕ → ℕ → List Bool → List ℕ → Option Vectors
nextstep p zero current lowest_in_group groupindex algehad temparr = none
nextstep p (suc fuel) current lowest_in_group groupindex algehad temparr =
    let step : ℕ → ℕ → Option Vectors = (λ g lowest.
      choose p (λ i had'. nextstep p fuel (suc current) i g had' (temparr ++ (i ∷ []))) lowest
        (starti p current) algehad (width p)) in
    if current == grouplen p.sublengths groupindex
    then (if suc groupindex == length p.sublengths
        then some (temparr ∷ [])
        else step (suc groupindex) 0)
    else step groupindex lowest_in_group

-- The first call of `nextstep` in `permute`.
unfoldable pub from_start : Picking → Option Vectors
from_start p = nextstep p (suc (sum_of_sublengths p.sublengths)) 0 0 0 (none_crossed (blocks p)) []

-- The assertions of `permute`, where there are no weights: there is a group, the length of a block
-- divides the size, and there are blocks enough if none is picked twice. A remainder by zero is
-- undefined, as if it were asserted not to be.
unfoldable pub asserts : Picking → Bool
asserts p =
    not (length p.sublengths == 0)
    && (not (p.block_length == 0) && p.size % p.block_length == 0)
    && (p.multiple_pick || leb (sum_of_sublengths p.sublengths * p.block_length) p.size)

pub data Permuted : Type 0 where
  generated : Vectors → Permuted
  assertion_failed out_of_fuel : Permuted

-- `permute`.
unfoldable pub permute : Picking → Permuted
unfolding from_start asserts
permute p =
    if asserts p
    then (elim (from_start p) [ none ↦ out_of_fuel | some found ↦ generated found ])
    else assertion_failed

-- `combinations::vector_generated`: what is stored.
unfoldable pub vector_generated {ℓ} : {A : Type ℓ} → List A → ℕ → List ℕ → List A
vector_generated original block_length [] = []
vector_generated original block_length (j ∷ toadd) =
    take block_length (drop (j * block_length) original)
    ++ vector_generated original block_length toadd

-- `set_unit_sublengths`.
unfoldable pub unit_sublengths : ℕ → List ℕ
unit_sublengths zero = []
unit_sublengths (suc n) = 1 ∷ unit_sublengths n
