-- ===== src/AppControl/Json.antt =====
-- The field extractor of board/src/app_control.c: `find_key` and the four `parse_` functions. A line
-- is a C string; a pointer into it is what stands from there on.
use hispark_soc_china.Prelude.{
  ℕ, zero, suc, ◌+◌, ◌-◌, ◌%◌, ◌^◌, Bool, true, false, ◌||◌, Option, none, some, List, [], ◌∷◌,
  length, drop, ltb, ◌==◌, if◌then◌else◌,
}
use hispark_soc_china.Prelude.Strings.{
  bytes_of, find_text, starts_with, skip_spaces, is_digit, digits_value,
}
use hispark_soc_china.Floats.{FloatOps}

-- `while (*p == ' ' || *p == '\t') p++`
unfoldable pub skip_blanks : List ℕ → List ℕ
skip_blanks [] = []
skip_blanks (c ∷ s) = let rest = skip_blanks s in if c == b' ' || c == b'\t' then rest else c ∷ s

-- What follows the key: blanks, a colon, blanks.
unfoldable pub after_colon : List ℕ → Option (List ℕ)
after_colon [] = none
after_colon (c ∷ s) = if c == b':' then some (skip_blanks s) else none

-- `key` has its quotation marks. `none` is NULL.
unfoldable pub find_key : List ℕ → List ℕ → Option (List ℕ)
unfolding skip_blanks after_colon
find_key json key = elim (find_text json key) [
  | none ↦ none
  | some k ↦ after_colon (skip_blanks (drop (k + length key) json))
]

abbrev pub ullong_max : ℕ
ullong_max = 2 ^ 64 - 1

-- The digits that `strtoull` stops behind, as a number; `none` if it stops where it began.
unfoldable pub digits_at : List ℕ → Option ℕ
digits_at [] = none
digits_at (c ∷ s) = if is_digit c then some (digits_value 0 (c ∷ s)) else none

-- A number too large is the largest one, and a negative one wraps.
unfoldable pub clamp_ull : Bool → ℕ → ℕ
clamp_ull negative v =
    if ltb ullong_max v then ullong_max else if negative then (2 ^ 64 - v) % 2 ^ 64 else v

unfoldable pub signed_digits : Bool → Option ℕ → Option ℕ
signed_digits negative none = none
signed_digits negative (some v) = some (clamp_ull negative v)

unfoldable pub strtoull : List ℕ → Option ℕ
unfolding digits_at clamp_ull signed_digits
strtoull p = elim (skip_spaces p) [
  | [] ↦ none
  | c ∷ s ↦
      if c == b'-'
      then signed_digits true (digits_at s)
      else if c == b'+'
      then signed_digits false (digits_at s)
      else signed_digits false (digits_at (c ∷ s))
]

-- The value that is written through `out`; `none` is the answer -1.
unfoldable pub parse_uint64 : List ℕ → List ℕ → Option ℕ
unfolding find_key strtoull
parse_uint64 json key = elim (find_key json key) [ none ↦ none | some p ↦ strtoull p ]

abbrev pub in_front : ℕ → Option (List ℕ) → Option (List ℕ)
in_front c none = none
in_front c (some t) = some (c ∷ t)

-- The characters before the closing quotation mark, if `room` of them are enough.
unfoldable pub quoted : ℕ → List ℕ → Option (List ℕ)
quoted room [] = none
quoted zero (c ∷ s) = if c == b'"' then some [] else none
quoted (suc room) (c ∷ s) =
    let rest = in_front c (quoted room s) in if c == b'"' then some [] else rest

unfoldable pub open_quote : ℕ → List ℕ → Option (List ℕ)
unfolding quoted
open_quote room [] = none
open_quote room (c ∷ s) = if c == b'"' then quoted room s else none

-- `outlen` is the size of the array, its terminator included.
unfoldable pub parse_string : List ℕ → List ℕ → ℕ → Option (List ℕ)
unfolding find_key open_quote
parse_string json key outlen = elim (find_key json key) [
  | none ↦ none
  | some p ↦ open_quote (outlen - 1) p
]

unfoldable pub bool_at : List ℕ → Option Bool
bool_at p =
    if starts_with p (bytes_of "true")
    then some true
    else if starts_with p (bytes_of "false")
    then some false
    else if starts_with p (bytes_of "1")
    then some true
    else if starts_with p (bytes_of "0")
    then some false
    else none

unfoldable pub parse_bool : List ℕ → List ℕ → Option Bool
unfolding find_key bool_at
parse_bool json key = elim (find_key json key) [ none ↦ none | some p ↦ bool_at p ]

-- `strtod` of the C library, narrowed to `float`; `none` where it reads no number.
module _ (fl : FloatOps) (strtod : List ℕ → Option (fl.F)) where
  unfoldable pub parse_float : List ℕ → List ℕ → Option (fl.F)
  unfolding find_key
  parse_float json key = elim (find_key json key) [ none ↦ none | some p ↦ strtod p ]
