-- ===== src/Combinatorics/Tests.antt =====
-- Runs of the combinatorial functions, and the theorems there.
use cadabra.Base.{ℕ, ◌↔◌, ◌≡◌, refl, false, some, ◌==◌, ==_iff, [], ◌∷◌, arith}
use cadabra.Combinatorics.{plus, minus, ordersign, ordersign_of, cross, cross_all}
use cadabra.Combinatorics.Transpositions.{Swapped, start, transposed, ordersign-Swapped}
use cadabra.Combinatorics.NoRepeat.{has, NoRepeat}
use cadabra.Combinatorics.Combinations.{
  Picking, Vectors, sum_of_sublengths, grouplen, accepted, choose, nextstep, from_start, asserts,
  blocks, permute, generated, assertion_failed, vector_generated, unit_sublengths,
}
use cadabra.Combinatorics.Reached.{In}
use cadabra.Combinatorics.Complete.{IsPlain, permute_iff}
use cadabra.Combinatorics.Arrangements.{Each, IsArrangement, IsPositive, permute-IsArrangement}

-- 4 7 5 goes to 4 5 7 and then to 5 4 7.
abbrev two_steps : Swapped {A = ℕ} plus (4 ∷ 7 ∷ 5 ∷ []) (5 ∷ 4 ∷ 7 ∷ [])
two_steps = transposed [] 4 5 (7 ∷ []) (transposed (4 ∷ []) 7 5 [] start)

run-ordersign_of : ordersign_of (2 ∷ 1 ∷ 0 ∷ 3 ∷ []) ≡ some minus
unfolding ordersign_of ordersign cross_all cross
run-ordersign_of = refl

no_repeat : NoRepeat ◌==◌ (4 ∷ 7 ∷ 5 ∷ [])
unfolding NoRepeat has
no_repeat = (refl, (refl, (refl, tt)))

ordersign-Swapped_example : ordersign ◌==◌ (4 ∷ 7 ∷ 5 ∷ []) (5 ∷ 4 ∷ 7 ∷ []) ≡ some plus
ordersign-Swapped_example =
    ordersign-Swapped ◌==◌ ==_iff plus (4 ∷ 7 ∷ 5 ∷ []) (5 ∷ 4 ∷ 7 ∷ []) no_repeat two_steps

-- Three blocks: one for the first group, two for the second.
abbrev one_and_two : Picking
one_and_two = record {
  size = 6;
  block_length = 2;
  sublengths = 1 ∷ 2 ∷ [];
  input_asym = [];
  multiple_pick = false;
  sub_problem_blocksize = 0;
}

run-permute :
    permute one_and_two ≡ generated ((0 ∷ 1 ∷ 2 ∷ []) ∷ (1 ∷ 0 ∷ 2 ∷ []) ∷ (2 ∷ 0 ∷ 1 ∷ []) ∷ [])
unfolding permute from_start asserts blocks nextstep choose accepted grouplen sum_of_sublengths
run-permute = refl

-- The entries of a range of `input_asym` stay in their order.
run-permute_asym :
    permute (record one_and_two { sublengths = unit_sublengths 3; input_asym = (0 ∷ 2 ∷ []) ∷ [] })
    ≡ generated ((0 ∷ 1 ∷ 2 ∷ []) ∷ (0 ∷ 2 ∷ 1 ∷ []) ∷ (1 ∷ 0 ∷ 2 ∷ []) ∷ [])
unfolding permute from_start asserts blocks nextstep choose accepted grouplen sum_of_sublengths
    unit_sublengths
run-permute_asym = refl

run-vector_generated :
    vector_generated {A = ℕ} (5 ∷ 6 ∷ 7 ∷ 8 ∷ []) 2 (1 ∷ 0 ∷ []) ≡ 7 ∷ 8 ∷ 5 ∷ 6 ∷ []
unfolding vector_generated
run-vector_generated = refl

one_and_two-IsPositive : IsPositive (1 ∷ 2 ∷ [])
unfolding IsPositive
one_and_two-IsPositive = (omega arith, (omega arith, tt))

permute-IsArrangement_example :
    (out : Vectors) × (permute one_and_two ≡ generated out) × Each (IsArrangement one_and_two) out
unfolding asserts sum_of_sublengths
permute-IsArrangement_example =
    permute-IsArrangement one_and_two refl refl one_and_two-IsPositive refl

-- More room than blocks.
run-permute_assertion : permute (record one_and_two { size = 4 }) ≡ assertion_failed
unfolding permute asserts sum_of_sublengths
run-permute_assertion = refl

-- One group for each of three blocks.
abbrev three : Picking
three = record {
  size = 6;
  block_length = 2;
  sublengths = unit_sublengths 3;
  input_asym = [];
  multiple_pick = false;
  sub_problem_blocksize = 0;
}

three-IsPlain : IsPlain three
unfolding IsPlain blocks
three-IsPlain = (refl, refl, refl, refl)

permute_iff_example :
    (out : Vectors) × (permute three ≡ generated out)
    × (In (2 ∷ 0 ∷ 1 ∷ []) out ↔ IsArrangement three (2 ∷ 0 ∷ 1 ∷ []))
unfolding blocks
permute_iff_example = permute_iff three three-IsPlain refl (omega arith) (2 ∷ 0 ∷ 1 ∷ [])
