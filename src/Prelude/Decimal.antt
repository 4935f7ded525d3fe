-- ===== src/Prelude/Decimal.antt =====
-- What is read back from a number that `%u` or `%llu` prints, and how long the print is.
use Prim.Native.Nat.{ℕ, zero, suc, ◌+◌, ◌/◌, ◌%◌, ◌^◌, ◌≤◌, ◌<◌}
use mathlib.Core.Path.{◌≡◌, refl, ◌∙◌}
use mathlib.Core.Bool.{false}
use mathlib.Core.List.{List, [], ◌∷◌, ◌++◌}
use native.Mathlib.Omega.{arith}
use hispark_soc_china.Prelude.Lists.{length}
use hispark_soc_china.Prelude.Strings.{is_digit, digits_onto, digits_value, show_unsigned}

-- No digit stands at the head.
abbrev pub NoDigit : List ℕ → Type 0
NoDigit [] = Unit
NoDigit (c ∷ s) = is_digit c ≡ false

-- A digit stands at the head.
abbrev pub DigitFirst : List ℕ → Type 0
DigitFirst [] = ⊥
DigitFirst (c ∷ s) = (48 ≤ c) × (c ≤ 57)

digits_value_digit :
    (n : ℕ) (s : List ℕ) → digits_value (n / 10) ((b'0' + n % 10) ∷ s) ≡ digits_value n s
unfolding digits_value is_digit
digits_value_digit n s = ground arith

digits_value-digits_onto :
    (fuel n : ℕ) (s : List ℕ) → n < fuel → digits_value 0 (digits_onto fuel n s) ≡ digits_value n s
unfolding digits_onto
digits_value-digits_onto zero n s h = absurd (omega arith)
digits_value-digits_onto (suc fuel) n s h =
    grind
      (arith, digits_value_digit n s, digits_value-digits_onto fuel (n / 10) ((b'0' + n % 10) ∷ s))

digits_value_end : (n : ℕ) (s : List ℕ) → NoDigit s → digits_value n s ≡ n
unfolding digits_value
digits_value_end n [] v = refl
digits_value_end n (c ∷ s) v = ground arith

digits_onto-DigitFirst :
    (fuel n : ℕ) (s : List ℕ) → DigitFirst s → DigitFirst (digits_onto fuel n s)
unfolding digits_onto
digits_onto-DigitFirst zero n s v = v
digits_onto-DigitFirst (suc fuel) n s v =
    ground (arith, digits_onto-DigitFirst fuel (n / 10) ((b'0' + n % 10) ∷ s))

pub show-DigitFirst : (n : ℕ) (s : List ℕ) → DigitFirst (digits_onto (suc n) n s)
unfolding digits_onto
show-DigitFirst n s = ground (arith, digits_onto-DigitFirst n (n / 10) ((b'0' + n % 10) ∷ s))

digits_onto-append :
    (fuel n : ℕ) (s t : List ℕ) → digits_onto fuel n s ++ t ≡ digits_onto fuel n (s ++ t)
unfolding digits_onto
digits_onto-append zero n s t = refl
digits_onto-append (suc fuel) n s t =
    ground (arith, digits_onto-append fuel (n / 10) ((b'0' + n % 10) ∷ s) t)

pub show_unsigned-append : (n : ℕ) (t : List ℕ) → show_unsigned n ++ t ≡ digits_onto (suc n) n t
unfolding show_unsigned
show_unsigned-append n t = digits_onto-append (suc n) n [] t

pub digits_value-show :
    (n : ℕ) (t : List ℕ) → NoDigit t → digits_value 0 (digits_onto (suc n) n t) ≡ n
digits_value-show n t v =
    digits_value-digits_onto (suc n) n t (omega arith) ∙ digits_value_end n t v

-- A number below 10 ^ k has at most k digits.
length-digits_onto :
    (fuel n k : ℕ) (s : List ℕ) → n < 10 ^ suc k → length (digits_onto fuel n s) ≤ suc k + length s
unfolding digits_onto
length-digits_onto zero n k s h = omega arith
length-digits_onto (suc fuel) n zero s h = ground arith
length-digits_onto (suc fuel) n (suc k) s h =
    ground (arith, length-digits_onto fuel (n / 10) k ((b'0' + n % 10) ∷ s))

-- A number of 64 bits has at most 20 digits.
pub length-show : (n : ℕ) → n < 2 ^ 64 → length (show_unsigned n) ≤ 20
unfolding show_unsigned
length-show n h = omega (arith, length-digits_onto (suc n) n 19 [] (omega arith))
