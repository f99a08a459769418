-- ===== src/Algorithms/CollectTerms.antt =====
-- core/algorithms/collect_terms.cc: equal terms of a sum become one. The terms of one bin of the
-- hash map are compared in the order of the sum, and bins do not affect each other, so the model
-- goes through the terms in their order and compares those with equal hash values.
pub mod Values
pub mod Zeroed
pub mod Collected
pub mod Distinct
use cadabra.Base.{
  ℕ, zero, suc, ◌+◌, ◌*◌, ◌%◌, ◌^◌, Bool, true, false, not, ◌&&◌, ◌||◌, none, some, ◌==◌,
  if◌then◌else◌, List, [], ◌∷◌, length, Bytes,
}
use cadabra.Tree.{Forest, nil, node}
use cadabra.Storage.{StrNode, Ex, is_zero, multiply, set_one}
use cadabra.Storage.Multiplier.{Rational}
use cadabra.Cleanup.{is_sum}
use cadabra.Compare.{Settings, pos, negsuc, subtree_exact_equal}
use cadabra.Algorithms.FlattenSum.{node_zero}

-- `hashval_t` is `uintptr_t`, of 64 bits.
abbrev pub wrap : ℕ → ℕ
wrap n = n % 2 ^ 64

module _ {Q : Type 0} where
  -- `Ex::calc_hash`: a name counts by the address at which the set of names holds it.
  unfoldable pub hash_from : (Bytes → ℕ) → ℕ → Forest (StrNode Q) → ℕ
  hash_from address ret nil = ret
  hash_from address ret (node s c r) =
      hash_from address (wrap (wrap (ret * 17) + hash_from address (wrap (address s.name)) c)) r

  unfoldable pub calc_hash : (Bytes → ℕ) → Ex Q → ℕ
  unfolding hash_from
  calc_hash address e = hash_from address (wrap (address e.head.name)) e.children

-- A term of the sum, and whether the hash map still holds it.
pub record Entry (Q : Type 0) : Type 0 where
  pub listed : Bool
  pub term : Ex Q

module _ {Q : Type 0} where
  -- `fill_hash_map`.
  unfoldable pub entries : Forest (StrNode Q) → List (Entry Q)
  entries nil = []
  entries (node s c r) =
      record { listed = true; term = record { head = s; children = c } } ∷ entries r

  unfoldable pub terms_of : List (Entry Q) → Forest (StrNode Q)
  terms_of [] = nil
  terms_of (x ∷ r) = node x.term.head x.term.children (terms_of r)

module _ (m : Rational) where
  open m use {Q, eqb, one}

  unfoldable pub multiply_all : Q → Forest (StrNode Q) → Forest (StrNode Q)
  multiply_all q nil = nil
  multiply_all q (node s c r) = node (multiply m s q) c (multiply_all q r)

  unfoldable pub remove_zeroed_terms : Forest (StrNode Q) → Forest (StrNode Q)
  remove_zeroed_terms nil = nil
  remove_zeroed_terms (node s c r) =
      let rest = remove_zeroed_terms r in
      if is_zero m s
      then rest
      else if is_sum s && not (eqb s.multiplier one)
      then node (set_one m s) (multiply_all s.multiplier c) rest
      else node s c rest

  -- The end of `apply`, but for a multiplier that is pushed up into the nodes above.
  unfoldable pub collapse : StrNode Q → Forest (StrNode Q) → Ex Q
  unfolding node_zero
  collapse s nil = node_zero m (record { head = s; children = nil })
  collapse s (node t c nil) = record {
    head = record t { bracket = s.bracket; parent_rel = s.parent_rel };
    children = c;
  }
  collapse s f = record { head = s; children = f }

-- What the inner loop has done with the terms behind one.
pub record Absorbed (Q : Type 0) : Type 0 where
  pub applied : Bool
  pub multiplier : Q
  pub rest : List (Entry Q)

module _ (m : Rational) (less : m.Q → m.Q → Bool) (settings : Settings m.Q)
    (address : Bytes → ℕ) where
  open m use {Q, zero as q_zero, add}

  -- `subtree_exact_equal(&kernel.properties, one, two, -2, true, 0, true)`.
  unfoldable pub equal_terms : Ex Q → Ex Q → Bool
  equal_terms =
      subtree_exact_equal m less (record settings { checksets = true; literal_wildcards = true })
        (negsuc 1) (pos 0)

  -- The two terms are in one bin and equal.
  unfoldable pub merges : Ex Q → Entry Q → Bool
  merges one x =
      x.listed && calc_hash address one == calc_hash address x.term && equal_terms one x.term

  -- The inner loop: equal terms give up their multipliers.
  unfoldable pub absorb : Ex Q → Q → List (Entry Q) → Absorbed Q
  absorb one q [] = record { applied = false; multiplier = q; rest = [] }
  absorb one q (x ∷ r) =
      let gone : Entry Q = record {
        listed = false;
        term = record (x.term) { head = record (x.term.head) { multiplier = q_zero } };
      } in
      let hit = merges one x in
      let later = absorb one (if hit then add x.term.head.multiplier q else q) r in
      if hit
      then record later { applied = true; rest = gone ∷ later.rest }
      else record later { rest = x ∷ later.rest }

  -- `collect_from_hash_map`, with as many rounds as there are terms.
  unfoldable pub collect : ℕ → List (Entry Q) → Bool × List (Entry Q)
  collect zero es = (false, es)
  collect (suc n) [] = (false, [])
  collect (suc n) (x ∷ r) =
      let a = absorb x.term x.term.head.multiplier r in
      let kept : Entry Q = record x {
        term = record (x.term) { head = record (x.term.head) { multiplier = a.multiplier } };
      } in
      let skipped = collect n (if x.listed then a.rest else r) in
      if x.listed then (a.applied || skipped.0, kept ∷ skipped.1) else (skipped.0, x ∷ skipped.1)

  unfoldable pub collect_terms : Ex Q → Bool × Ex Q
  collect_terms e =
      let es = entries e.children in
      let r = collect (length es) es in
      (r.0, collapse m e.head (remove_zeroed_terms m (terms_of r.1)))
