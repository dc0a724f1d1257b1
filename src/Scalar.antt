-- ===== src/Scalar.antt =====
-- Python's floats, which the development takes as a parameter: a type, its arithmetic and its
-- comparisons. `Order` states what a proof may use of the comparisons between floats none of which
-- is NaN.
use nano_vllm_qos.Prelude.{ℕ, ◌≡◌, Bool, true, ◌⊎◌, leb, ◌+◌, ◌-◌, ◌*◌, ◌/◌, not, arith}
use nano_vllm_qos.Prelude.Int.{ℤ, pos}

pub record Scalar : Type 1 where
  pub F : Type 0
  pub add : F → F → F
  pub sub : F → F → F
  pub mul : F → F → F
  pub div : F → F → F
  pub of_ℕ : ℕ → F
  pub le : F → F → Bool
  pub floor : F → ℤ

pub record Order (S : Scalar) : Type 0 where
  pub le_total : (a b : S.F) → (S.le a b ≡ true) ⊎ (S.le b a ≡ true)
  pub le_trans : (a b c : S.F) → S.le a b ≡ true → S.le b c ≡ true → S.le a c ≡ true

-- `a < b`
abbrev pub lt : (S : Scalar) → S.F → S.F → Bool
lt S a b = not (S.le b a)

-- `max(a, b)`: the first of the two unless the second is greater.
abbrev pub max_of : (S : Scalar) → S.F → S.F → S.F
max_of S a b = elim (S.le b a) [ true ↦ a | _ ↦ b ]

-- Whole numbers serve as an instance of the parameter.
abbrev pub whole : Scalar
whole = record {
  F = ℕ;
  add = λ a b. a + b;
  sub = λ a b. a - b;
  mul = λ a b. a * b;
  div = λ a b. a / b;
  of_ℕ = λ n. n;
  le = leb;
  floor = pos;
}

pub whole_le_total : (a b : ℕ) → (leb a b ≡ true) ⊎ (leb b a ≡ true)
whole_le_total a b = ground arith

pub whole_le_trans : (a b c : ℕ) → leb a b ≡ true → leb b c ≡ true → leb a c ≡ true
whole_le_trans a b c p q = ground arith

abbrev pub whole_order : Order whole
whole_order = record { le_total = whole_le_total; le_trans = whole_le_trans }
