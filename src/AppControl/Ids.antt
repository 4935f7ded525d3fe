-- ===== src/AppControl/Ids.antt =====
-- The number of a request, as board/src/app_control.c reads it.
use hispark_soc_china.Prelude.{
  ℕ, ◌+◌, ◌≤◌, ◌≡◌, refl, ap, sym, ◌∙◌, Bool, true, false, Option, none, some, List, [], ◌∷◌, ◌++◌,
  length, length-append, drop, drop-length-append, append_assoc, arith, if_both, ◌==◌,
  if◌then◌else◌,
}
use hispark_soc_china.Prelude.Strings.{
  bytes_of, find_text, starts_with, skip_spaces, is_space, is_digit, digits_value, show_unsigned,
}
use hispark_soc_china.Prelude.Decimal.{
  NoDigit, DigitFirst, show-DigitFirst, show_unsigned-append, digits_value-show,
}
use hispark_soc_china.AppControl.Json.{
  skip_blanks, after_colon, find_key, ullong_max, digits_at, clamp_ull, signed_digits, strtoull,
  parse_uint64,
}
use hispark_soc_china.AppControl.Request.{id_or_zero}

abbrev pub id_key : List ℕ
id_key = bytes_of "\"id\""

skip_blanks_digit : (s : List ℕ) → DigitFirst s → skip_blanks s ≡ s
unfolding skip_blanks
skip_blanks_digit [] v = refl
skip_blanks_digit (c ∷ s) v = ground arith

strtoull_digit :
    (s : List ℕ)
    → DigitFirst s
    → digits_value 0 s ≤ ullong_max
    → strtoull s ≡ some (digits_value 0 s)
unfolding strtoull skip_spaces is_space digits_at clamp_ull signed_digits is_digit
strtoull_digit [] v h = absurd v
strtoull_digit (c ∷ s) v h = ground arith

-- A printed number is read back.
strtoull-show :
    (n : ℕ) (rest : List ℕ)
    → n ≤ ullong_max
    → NoDigit rest
    → strtoull (skip_blanks (show_unsigned n ++ rest)) ≡ some n
strtoull-show n rest h v =
    let e = show_unsigned-append n rest in
    let d = show-DigitFirst n rest in
    let r = digits_value-show n rest v in
    ap (λ t. strtoull (skip_blanks t)) e
    ∙ ap strtoull (skip_blanks_digit _ d)
    ∙ strtoull_digit _ d (omega (arith, r))
    ∙ ap some r

abbrev pub Fits : Option ℕ → Type 0
Fits o = id_or_zero o ≤ ullong_max

clamp_ull_le : (negative : Bool) (v : ℕ) → clamp_ull negative v ≤ ullong_max
unfolding clamp_ull
clamp_ull_le negative v = ground arith

signed_digits-Fits : (negative : Bool) (o : Option ℕ) → Fits (signed_digits negative o)
unfolding signed_digits
signed_digits-Fits negative none = omega arith
signed_digits-Fits negative (some v) = clamp_ull_le negative v

strtoull-Fits : (s : List ℕ) → Fits (strtoull s)
unfolding strtoull
strtoull-Fits s =
    elim (skip_spaces s)
      as (λ t. Fits (elim t [
        | [] ↦ none
        | c ∷ r ↦
            if c == b'-'
            then signed_digits true (digits_at r)
            else if c == b'+'
            then signed_digits false (digits_at r)
            else signed_digits false (digits_at (c ∷ r))
      ])) [
        | [] ↦ omega arith
        | c ∷ r ↦
            if_both (c == b'-') Fits (λ e. signed_digits-Fits true (digits_at r))
              (λ e.
                if_both (c == b'+') Fits (λ e'. signed_digits-Fits false (digits_at r))
                  (λ e'. signed_digits-Fits false (digits_at (c ∷ r))))
      ]

pub parse_uint64-Fits : (json key : List ℕ) → Fits (parse_uint64 json key)
unfolding parse_uint64
parse_uint64-Fits json key =
    elim (find_key json key) as (λ o. Fits (elim o [ none ↦ none | some p ↦ strtoull p ])) [
      | none ↦ omega arith
      | some p ↦ strtoull-Fits p
    ]

-- The key stands nowhere in this text, with the key behind it, but at the end.
abbrev pub FirstAtEnd : List ℕ → List ℕ → Type 0
FirstAtEnd key [] = Unit
FirstAtEnd key (c ∷ pre) = (starts_with (c ∷ (pre ++ key)) key ≡ false) × FirstAtEnd key pre

starts_with-append :
    (s t pat : List ℕ) → length pat ≤ length s → starts_with (s ++ t) pat ≡ starts_with s pat
unfolding starts_with
starts_with-append s t [] h = refl
starts_with-append [] t (p ∷ pat) h = absurd (omega arith)
starts_with-append (c ∷ s) t (p ∷ pat) h = rw (starts_with-append s t pat (omega arith)) refl

starts_with_self : (s : List ℕ) → starts_with s s ≡ true
unfolding starts_with
starts_with_self [] = refl
starts_with_self (c ∷ s) = ground (arith, starts_with_self s)

find_text-append :
    (k : ℕ) (key pre t : List ℕ)
    → FirstAtEnd (k ∷ key) pre
    → find_text (pre ++ ((k ∷ key) ++ t)) (k ∷ key) ≡ some (length pre)
unfolding find_text
find_text-append k key [] t v =
    ground
      (arith, starts_with-append (k ∷ key) t (k ∷ key) (omega arith), starts_with_self (k ∷ key))
find_text-append k key (c ∷ pre) t v =
    let longer =
      starts_with-append (c ∷ (pre ++ (k ∷ key))) t (k ∷ key)
        (omega (arith, length-append pre (k ∷ key))) in
    grind (arith, longer, append_assoc pre (k ∷ key) t, find_text-append k key pre t v.1)

-- What follows the key in place of `pre`, a colon and `t`.
find_key-first :
    (k : ℕ) (key pre t : List ℕ)
    → FirstAtEnd (k ∷ key) pre
    → find_key (pre ++ ((k ∷ key) ++ (b':' ∷ t))) (k ∷ key) ≡ some (skip_blanks t)
unfolding find_key after_colon skip_blanks
find_key-first k key pre t v =
    let text = pre ++ ((k ∷ key) ++ (b':' ∷ t)) in
    let behind : drop (length pre + length (k ∷ key)) text ≡ b':' ∷ t =
      ap (λ n. drop n text) (sym (length-append pre (k ∷ key)))
      ∙ ap (drop (length (pre ++ (k ∷ key)))) (sym (append_assoc pre (k ∷ key) (b':' ∷ t)))
      ∙ drop-length-append (pre ++ (k ∷ key)) (b':' ∷ t) in
    ap
      (λ o. elim o [
        | none ↦ none
        | some j ↦ after_colon (skip_blanks (drop (j + length (k ∷ key)) text))
      ])
      (find_text-append k key pre (b':' ∷ t) v)
    ∙ ap (λ u. after_colon (skip_blanks u)) behind

pub parse_uint64_id :
    (pre rest : List ℕ) (n : ℕ)
    → FirstAtEnd id_key pre
    → n ≤ ullong_max
    → NoDigit rest
    → parse_uint64 (pre ++ (id_key ++ (b':' ∷ (show_unsigned n ++ rest)))) id_key ≡ some n
unfolding parse_uint64
parse_uint64_id pre rest n v h w =
    ap (λ o. elim o [ none ↦ none | some p ↦ strtoull p ])
      (find_key-first b'"' (bytes_of "id\"") pre (show_unsigned n ++ rest) v)
    ∙ strtoull-show n rest h w
