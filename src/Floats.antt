-- ===== src/Floats.antt =====
-- The C type `float`, which the program computes with and does not implement: a parameter of the
-- models. A comparison is a Boolean, so that a NaN may answer false to all of them.
pub mod Thousandths
use hispark_soc_china.Prelude.{ℕ, ◌≤◌, ◌≡◌, Bool, true}

-- `lit n d` is the constant n / d, as in `1.5f`.
pub record FloatOps : Type 1 where
  pub F : Type 0
  pub lt : F → F → Bool
  pub le : F → F → Bool
  pub add : F → F → F
  pub sub : F → F → F
  pub mul : F → F → F
  pub div : F → F → F
  pub neg : F → F
  pub lit : ℕ → ℕ → F
  -- `isfinite`, and the conversion to an unsigned number
  pub finite : F → Bool
  pub truncated : F → ℕ

-- What IEEE 754 says of the comparisons, where no operand is assumed to be a number.
pub record OrderLaws (fl : FloatOps) : Type 0 where
  pub lt_trans : (a b c : fl.F) → fl.lt a b ≡ true → fl.lt b c ≡ true → fl.lt a c ≡ true
  pub lt-le_trans : (a b c : fl.F) → fl.lt a b ≡ true → fl.le b c ≡ true → fl.le a c ≡ true

-- What C says of the conversion to an integer: it drops the fraction.
pub record TruncatedLaws (fl : FloatOps) : Type 0 where
  pub truncated_ge : (n : ℕ) (x : fl.F) → fl.le (fl.lit n 1) x ≡ true → n ≤ fl.truncated x
  pub truncated_le : (n : ℕ) (x : fl.F) → fl.le x (fl.lit n 1) ≡ true → fl.truncated x ≤ n
