-- ===== src/Algorithms/CollectTerms/Distinct.antt =====
-- core/algorithms/collect_terms.cc: the terms that the hash map holds after `collect_from_hash_map`,
-- and how terms that are equal come to be in one bin.
use cadabra.Base.{
  ℕ, zero, suc, ◌≤◌, Bool, true, false, List, [], ◌∷◌, length, Bytes, ◌≡◌, ◌⊎◌, refl, sym, ap, ◌∙◌,
  inl, inr, Bool-cases, arith,
}
use cadabra.Tree.{Forest, nil, node}
use cadabra.Storage.{StrNode, Ex}
use cadabra.Storage.Multiplier.{Rational}
use cadabra.Compare.{Settings}
use cadabra.Compare.Equal.{Alike, subtree_exact_equal-Alike}
use cadabra.Algorithms.CollectTerms.{
  wrap, hash_from, calc_hash, Entry, entries, equal_terms, merges, absorb, collect,
}

bool_of_iff : (a b : Bool) → (a ≡ true → b ≡ true) → (b ≡ true → a ≡ true) → a ≡ b
bool_of_iff true b f g = sym (f refl)
bool_of_iff false true f g = g refl
bool_of_iff false false f g = refl

module _ {Q : Type 0} where
  hash_from-Alike :
      (address : Bytes → ℕ) (c d : Forest (StrNode Q)) (n : ℕ)
      → Alike c d
      → hash_from address n c ≡ hash_from address n d
  unfolding hash_from Alike
  hash_from-Alike address nil nil n h = refl
  hash_from-Alike address nil (node t d q) n h = elim h [ ]
  hash_from-Alike address (node s c r) nil n h = elim h [ ]
  hash_from-Alike address (node s c r) (node t d q) n h =
      rw (h.0, hash_from-Alike address c d (wrap (address t.name)) h.3)
        (hash_from-Alike address r q _ h.4)

module _ (m : Rational) (less : m.Q → m.Q → Bool) (settings : Settings m.Q)
    (address : Bytes → ℕ) where
  open m use {Q, add, zero as q_zero}

  -- The term does not equal any that the hash map still holds.
  abbrev equal : Ex Q → Ex Q → Bool
  equal = equal_terms m less settings address

  unfoldable pub Apart : Ex Q → List (Entry Q) → Type 0
  Apart e [] = Unit
  Apart e (x ∷ r) = ((x.listed ≡ false) ⊎ (equal e x.term ≡ false)) × Apart e r

  -- No two terms that the hash map still holds are equal.
  unfoldable pub Distinct : List (Entry Q) → Type 0
  Distinct [] = Unit
  Distinct (x ∷ r) = ((x.listed ≡ false) ⊎ Apart x.term r) × Distinct r

  -- Multipliers of the terms themselves do not matter.
  equal-multiplier :
      (e f : Ex Q) (p q : Q)
      → equal
          (record e { head = record (e.head) { multiplier = p } })
          (record f { head = record (f.head) { multiplier = q } })
        ≡ equal e f
  unfolding equal_terms
  equal-multiplier e f p q =
      let S : Settings Q = record settings { checksets = true; literal_wildcards = true } in
      let a = subtree_exact_equal-Alike m less S refl e f in
      let b =
        subtree_exact_equal-Alike m less S refl
          (record e { head = record (e.head) { multiplier = p } })
          (record f { head = record (f.head) { multiplier = q } }) in
      bool_of_iff _ _ (λ h. a.1 (b.0 h)) (λ h. b.1 (a.0 h))

  equal-merges :
      (e : Ex Q) (x : Entry Q)
      → merges m less settings address e x ≡ false
      → (x.listed ≡ false) ⊎ (equal e x.term ≡ false)
  unfolding merges equal_terms calc_hash
  equal-merges e x h = elim (Bool-cases (equal e x.term)) [
    | inr n ↦ inr n
    | inl i ↦
        let S : Settings Q = record settings { checksets = true; literal_wildcards = true } in
        let alike = (subtree_exact_equal-Alike m less S refl e x.term).0 i in
        let same =
          ap (λ n. hash_from address (wrap (address n)) e.children) alike.0
          ∙ hash_from-Alike address e.children x.term.children _ alike.2 in
        ground (arith, i, same)
  ]

  Apart-multiplier :
      (e : Ex Q) (p : Q) (es : List (Entry Q))
      → Apart e es
      → Apart (record e { head = record (e.head) { multiplier = p } }) es
  unfolding Apart
  Apart-multiplier e p [] h = tt
  Apart-multiplier e p (x ∷ r) h = (
    elim h.0 [
      | inl n ↦ inl n
      | inr n ↦ inr (equal-multiplier e x.term p x.term.head.multiplier ∙ n)
    ],
    Apart-multiplier e p r h.1,
  )

  Apart-absorb :
      (e one : Ex Q) (es : List (Entry Q)) (q : Q)
      → Apart e es
      → Apart e (absorb m less settings address one q es).rest
  unfolding Apart absorb
  Apart-absorb e one [] q h = tt
  Apart-absorb e one (x ∷ r) q h = elim (Bool-cases (merges m less settings address one x)) [
    | inl i ↦ rw i (inl refl, Apart-absorb e one r (add x.term.head.multiplier q) h.1)
    | inr i ↦ rw i (h.0, Apart-absorb e one r q h.1)
  ]

  absorb-Apart :
      (one : Ex Q) (es : List (Entry Q)) (q : Q)
      → Apart one (absorb m less settings address one q es).rest
  unfolding Apart absorb
  absorb-Apart one [] q = tt
  absorb-Apart one (x ∷ r) q = elim (Bool-cases (merges m less settings address one x)) [
    | inl i ↦ rw i (inl refl, absorb-Apart one r (add x.term.head.multiplier q))
    | inr i ↦ rw i (equal-merges one x i, absorb-Apart one r q)
  ]

  length-absorb :
      (one : Ex Q) (es : List (Entry Q)) (q : Q)
      → length (absorb m less settings address one q es).rest ≡ length es
  unfolding absorb
  length-absorb one [] q = refl
  length-absorb one (x ∷ r) q = elim (Bool-cases (merges m less settings address one x)) [
    | inl i ↦ rw i (ap suc (length-absorb one r (add x.term.head.multiplier q)))
    | inr i ↦ rw i (ap suc (length-absorb one r q))
  ]

  Apart-collect :
      (e : Ex Q) (n : ℕ) (es : List (Entry Q))
      → Apart e es
      → Apart e (collect m less settings address n es).1
  unfolding Apart collect
  Apart-collect e zero es h = h
  Apart-collect e (suc n) [] h = tt
  Apart-collect e (suc n) (x ∷ r) h =
      let a = absorb m less settings address x.term x.term.head.multiplier r in
      elim (Bool-cases x.listed) [
        | inl i ↦
            let apart : equal e x.term ≡ false = ground (arith, h.0) in
            rw i (
              inr (equal-multiplier e x.term e.head.multiplier a.multiplier ∙ apart),
              Apart-collect e n a.rest (Apart-absorb e x.term r _ h.1),
            )
        | inr i ↦ rw i (inl refl, Apart-collect e n r h.1)
      ]

  Distinct-rounds :
      (n : ℕ) (es : List (Entry Q))
      → length es ≤ n
      → Distinct (collect m less settings address n es).1
  unfolding Distinct collect
  Distinct-rounds zero [] h = tt
  Distinct-rounds zero (x ∷ r) h = absurd (omega arith)
  Distinct-rounds (suc n) [] h = tt
  Distinct-rounds (suc n) (x ∷ r) h =
      let q = x.term.head.multiplier in
      let a = absorb m less settings address x.term q r in
      elim (Bool-cases x.listed) [
        | inl i ↦ rw i (
          inr (
              Apart-multiplier x.term a.multiplier _
                (Apart-collect x.term n a.rest (absorb-Apart x.term r q))),
          Distinct-rounds n a.rest (omega (arith, length-absorb x.term r q)),
        )
        | inr i ↦ rw i (inl refl, Distinct-rounds n r (omega arith))
      ]

  -- `collect_from_hash_map` goes through all the terms, and no two of the terms that the hash map
  -- still holds then are exactly equal.
  pub Distinct-collect :
      (f : Forest (StrNode Q))
      → Distinct (collect m less settings address (length (entries f)) (entries f)).1
  Distinct-collect f = Distinct-rounds (length (entries f)) (entries f) (omega arith)
