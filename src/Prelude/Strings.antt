-- ===== src/Prelude/Strings.antt =====
-- C strings as lists of bytes, and what the program uses of string.h, stdio.h and stdlib.h.
use Prim.Native.Nat.{ℕ, zero, suc, ◌+◌, ◌-◌, ◌*◌, ◌/◌, ◌%◌}
use Prim.Native.Char.{code}
use mathlib.Core.Bool.{Bool, true, false, ◌&&◌, ◌||◌}
use mathlib.Core.Option.{Option, none, some}
use mathlib.Core.List.{List, [], ◌∷◌}
use hispark_soc_china.Prelude.Tests.{ltb, leb, ◌==◌, if◌then◌else◌}
use Prim.Native.String.{String}

-- The bytes of an ASCII literal.
abbrev pub bytes_of : String → List ℕ
bytes_of String.[] = []
bytes_of (String.◌∷◌ c s) = code c ∷ bytes_of s

-- What a C function sees of a buffer: the bytes before the first NUL.
unfoldable pub c_string : List ℕ → List ℕ
c_string [] = []
c_string (c ∷ s) = let rest = c_string s in if c == 0 then [] else c ∷ rest

-- `strcmp(a, b) == 0`
unfoldable pub same : List ℕ → List ℕ → Bool
same [] [] = true
same (a ∷ s) (b ∷ t) = a == b && same s t
same _ _ = false

unfoldable pub starts_with : List ℕ → List ℕ → Bool
starts_with s [] = true
starts_with [] (p ∷ pat) = false
starts_with (c ∷ s) (p ∷ pat) = c == p && starts_with s pat

-- `strstr` of a string and a pattern that is not empty: the offset of the first occurrence.
unfoldable pub find_text : List ℕ → List ℕ → Option ℕ
unfolding starts_with
find_text [] pat = none
find_text (c ∷ s) pat =
    let later = find_text s pat in
    if starts_with (c ∷ s) pat then some 0 else elim later [ none ↦ none | some k ↦ some (suc k) ]

unfoldable pub has_text : List ℕ → List ℕ → Bool
unfolding find_text
has_text s pat = elim (find_text s pat) [ none ↦ false | some k ↦ true ]

-- `isspace`
unfoldable pub is_space : ℕ → Bool
is_space c = c == b' ' || (leb 9 c && leb c 13)

unfoldable pub skip_spaces : List ℕ → List ℕ
unfolding is_space
skip_spaces [] = []
skip_spaces (c ∷ s) = let rest = skip_spaces s in if is_space c then rest else c ∷ s

-- The word at the head of a string, at most so many bytes of it.
unfoldable pub word_at : ℕ → List ℕ → List ℕ
unfolding is_space
word_at zero s = []
word_at (suc n) [] = []
word_at (suc n) (c ∷ s) = let rest = word_at n s in if is_space c then [] else c ∷ rest

-- `sscanf(s, "%<n>s", word)`; `none` is any answer but 1.
unfoldable pub scan_word : ℕ → List ℕ → Option (List ℕ)
unfolding skip_spaces word_at
scan_word n s = elim (skip_spaces s) [ [] ↦ none | c ∷ rest ↦ some (word_at n (c ∷ rest)) ]

unfoldable pub is_digit : ℕ → Bool
is_digit c = leb b'0' c && leb c b'9'

-- The number that the digits at the head make, on top of `acc`.
unfoldable pub digits_value : ℕ → List ℕ → ℕ
unfolding is_digit
digits_value acc [] = acc
digits_value acc (c ∷ s) =
    let rest = digits_value (acc * 10 + (c - b'0')) s in if is_digit c then rest else acc

-- An `int`: its sign, and its magnitude.
pub record CInt : Type 0 where
  pub negative : Bool
  pub magnitude : ℕ

-- `atoi`, where the value fits an int; C does not say what it is where it does not.
unfoldable pub atoi : List ℕ → CInt
unfolding skip_spaces digits_value
atoi s = elim (skip_spaces s) [
  | [] ↦ record { negative = false; magnitude = 0 }
  | c ∷ rest ↦
      if c == b'-'
      then record { negative = true; magnitude = digits_value 0 rest }
      else if c == b'+'
      then record { negative = false; magnitude = digits_value 0 rest }
      else record { negative = false; magnitude = digits_value 0 (c ∷ rest) }
]

-- The digits of a number in front of a text. A number has fewer digits than one more than itself,
-- which is the fuel.
unfoldable pub digits_onto : ℕ → ℕ → List ℕ → List ℕ
digits_onto zero n s = s
digits_onto (suc fuel) n s =
    let digit = b'0' + n % 10 in
    let more = digits_onto fuel (n / 10) (digit ∷ s) in if ltb n 10 then digit ∷ s else more

-- `%u`
unfoldable pub show_unsigned : ℕ → List ℕ
unfolding digits_onto
show_unsigned n = digits_onto (suc n) n []

-- `%d`
unfoldable pub show_int : CInt → List ℕ
unfolding show_unsigned
show_int i =
    if i.negative && ltb 0 i.magnitude
    then b'-' ∷ show_unsigned i.magnitude
    else show_unsigned i.magnitude
