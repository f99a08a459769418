-- ===== src/Storage/Multiplier.antt =====
-- The type `multiplier_t` is GMP's mpq_class, which is not part of the repository: its values, the
-- operations that the code calls and the laws of exact arithmetic that it relies on are parameters.
use Prim.Native.Nat.{ℕ, ◌+◌, ◌*◌}
use cadabra.Base.{
  ◌∙◌, sym, ap, ap₂, Bool, true, ◌≡◌, ◌↔◌, refl, Bytes, codes, length, ◌==◌, ==_iff, arith,
}
use native.Mathlib.Nat.{mul_comm, mul_assoc}

pub record Rational : Type 1 where
  pub Q : Type 0
  pub zero : Q
  pub one : Q
  pub add : Q → Q → Q
  pub mul : Q → Q → Q
  pub eqb : Q → Q → Bool
  -- `mpq_class` assigned from a string.
  pub parse : Bytes → Q
  pub eqb_iff : (a b : Q) → (eqb a b ≡ true) ↔ (a ≡ b)
  pub add_zero_left : (a : Q) → add zero a ≡ a
  pub add_comm : (a b : Q) → add a b ≡ add b a
  pub add_assoc : (a b c : Q) → add (add a b) c ≡ add a (add b c)
  pub mul_one_left : (a : Q) → mul one a ≡ a
  pub mul_zero_left : (a : Q) → mul zero a ≡ zero
  pub mul_comm : (a b : Q) → mul a b ≡ mul b a
  pub mul_assoc : (a b c : Q) → mul (mul a b) c ≡ mul a (mul b c)
  pub mul_add : (a b c : Q) → mul a (add b c) ≡ add (mul a b) (mul a c)
  pub parse_one : parse (codes "1") ≡ one

module _ (m : Rational) where
  open m use {Q, zero, one, add, mul, mul_one_left, mul_zero_left, mul_comm as m_comm}
  open m use {mul_assoc as m_assoc, add_comm as a_comm, add_zero_left, mul_add}

  pub mul_one_right : (a : Q) → mul a one ≡ a
  mul_one_right a = m_comm a one ∙ mul_one_left a

  pub mul_zero_right : (a : Q) → mul a zero ≡ zero
  mul_zero_right a = m_comm a zero ∙ mul_zero_left a

  pub add_zero_right : (a : Q) → add a zero ≡ a
  add_zero_right a = a_comm a zero ∙ add_zero_left a

  pub mul_left_comm : (a b c : Q) → mul a (mul b c) ≡ mul b (mul a c)
  mul_left_comm a b c = sym (m_assoc a b c) ∙ ap (λ t. mul t c) (m_comm a b) ∙ m_assoc b a c

  pub mul_mul_mul_comm : (a b c d : Q) → mul (mul a b) (mul c d) ≡ mul (mul a c) (mul b d)
  mul_mul_mul_comm a b c d =
      m_assoc a b (mul c d) ∙ ap (mul a) (mul_left_comm b c d) ∙ sym (m_assoc a c (mul b d))

  pub add_mul : (a b c : Q) → mul (add a b) c ≡ add (mul a c) (mul b c)
  add_mul a b c = m_comm (add a b) c ∙ mul_add c a b ∙ ap₂ add (m_comm c a) (m_comm c b)

-- Whole numbers meet the laws; a name is read as a numeral of its length, which is enough for "1".
abbrev pub whole : Rational
whole = record {
  Q = ℕ;
  zero = 0;
  one = 1;
  add = λ a b. a + b;
  mul = λ a b. a * b;
  eqb = λ a b. a == b;
  parse = length;
  eqb_iff = ==_iff;
  add_zero_left = λ a. omega arith;
  add_comm = λ a b. omega arith;
  add_assoc = λ a b c. omega arith;
  mul_one_left = λ a. omega arith;
  mul_zero_left = λ a. omega arith;
  mul_comm = mul_comm;
  mul_assoc = mul_assoc;
  mul_add = λ a b c. omega arith;
  parse_one = refl;
}
