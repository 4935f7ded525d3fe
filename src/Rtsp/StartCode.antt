-- ===== src/Rtsp/StartCode.antt =====
-- `find_start_code` of board/src/rtsp_server.c on an access unit in Annex-B form.
use hispark_soc_china.Prelude.{
  ℕ, suc, ◌+◌, ◌≡◌, ◌≢◌, refl, ap, ◌∙◌, Bool, true, false, Option, none, some, List, [], ◌∷◌, ◌++◌,
  length, drop, length-append, drop-length-append, append_assoc, arith,
}
use hispark_soc_china.Rtsp.Annexb.{start_code_here, find_start_code, strip_zeros}

-- 00 00 01 stands nowhere in the bytes.
abbrev pub NoCode : List ℕ → Type 0
NoCode [] = Unit
NoCode (a ∷ []) = Unit
NoCode (a ∷ b ∷ []) = Unit
NoCode (a ∷ b ∷ c ∷ rest) = ¬ ((a ≡ 0) × (b ≡ 0) × (c ≡ 1)) × NoCode (b ∷ c ∷ rest)

-- There is a last byte, and it is not zero.
abbrev pub EndsNonzero : List ℕ → Type 0
EndsNonzero [] = ⊥
EndsNonzero (a ∷ []) = a ≢ 0
EndsNonzero (a ∷ b ∷ rest) = EndsNonzero (b ∷ rest)

-- The start code of four bytes, or that of three.
abbrev pub start_code : Bool → List ℕ
start_code true = 0 ∷ 0 ∷ 0 ∷ 1 ∷ []
start_code false = 0 ∷ 0 ∷ 1 ∷ []

-- Units behind start codes of either length: an access unit of the encoder.
abbrev pub annexb : List (Bool × List ℕ) → List ℕ
annexb [] = []
annexb ((four, u) ∷ us) = start_code four ++ (u ++ annexb us)

head_nonzero : (a : ℕ) (t : List ℕ) → a ≢ 0 → start_code_here (a ∷ t) ≡ none
unfolding start_code_here
head_nonzero a [] h = refl
head_nonzero a (b ∷ []) h = refl
head_nonzero a (b ∷ c ∷ []) h = ground arith
head_nonzero a (b ∷ c ∷ d ∷ t) h = ground arith

second_nonzero : (a b : ℕ) (t : List ℕ) → b ≢ 0 → start_code_here (a ∷ b ∷ t) ≡ none
unfolding start_code_here
second_nonzero a b [] h = refl
second_nonzero a b (c ∷ []) h = ground arith
second_nonzero a b (c ∷ d ∷ t) h = ground arith

third_nonzero :
    (a b c : ℕ) (t : List ℕ)
    → ¬ ((a ≡ 0) × (b ≡ 0) × (c ≡ 1))
    → c ≢ 0
    → start_code_here (a ∷ b ∷ c ∷ t) ≡ none
unfolding start_code_here
third_nonzero a b c [] k h = ground arith
third_nonzero a b c (d ∷ t) k h = ground arith

-- No start code begins inside a unit, whatever follows the unit.
NoCode-here :
    (a : ℕ) (u t : List ℕ)
    → NoCode (a ∷ u)
    → EndsNonzero (a ∷ u)
    → start_code_here (a ∷ (u ++ t)) ≡ none
unfolding start_code_here
NoCode-here a [] t c e = head_nonzero a t e
NoCode-here a (b ∷ []) t c e = second_nonzero a b t e
NoCode-here a (b ∷ d ∷ []) t c e = third_nonzero a b d t c.0 e
NoCode-here a (b ∷ d ∷ f ∷ u) t c e = ground arith

abbrev shift : ℕ → Option (ℕ × ℕ) → Option (ℕ × ℕ)
shift m none = none
shift m (some (k, n)) = some (m + k, n)

NoCode-tail : (a : ℕ) (u : List ℕ) → NoCode (a ∷ u) → NoCode u
NoCode-tail a [] c = tt
NoCode-tail a (b ∷ []) c = tt
NoCode-tail a (b ∷ d ∷ u) c = c.1

step_none :
    (a : ℕ) (t : List ℕ) (m : ℕ) (o : Option (ℕ × ℕ))
    → start_code_here (a ∷ t) ≡ none
    → find_start_code t ≡ shift m o
    → find_start_code (a ∷ t) ≡ shift (suc m) o
unfolding find_start_code
step_none a t m none h k = ground arith
step_none a t m (some (i, n)) h k = ground arith

shift_zero : (o : Option (ℕ × ℕ)) → o ≡ shift 0 o
shift_zero none = refl
shift_zero (some (k, n)) = ground arith

pub find_start_code-unit :
    (u t : List ℕ)
    → NoCode u
    → EndsNonzero u
    → find_start_code (u ++ t) ≡ shift (length u) (find_start_code t)
find_start_code-unit [] t c e = absurd e
find_start_code-unit (a ∷ []) t c e =
    step_none a t 0 (find_start_code t) (NoCode-here a [] t c e) (shift_zero (find_start_code t))
find_start_code-unit (a ∷ b ∷ u) t c e =
    step_none a (b ∷ (u ++ t)) (length (b ∷ u)) (find_start_code t) (NoCode-here a (b ∷ u) t c e)
      (find_start_code-unit (b ∷ u) t (NoCode-tail a (b ∷ u) c) e)

pub find_start_code-code :
    (four : Bool) (t : List ℕ)
    → find_start_code (start_code four ++ t) ≡ some (0, length (start_code four))
unfolding find_start_code start_code_here
find_start_code-code true t = refl
find_start_code-code false [] = refl
find_start_code-code false (d ∷ t) = refl

-- The code behind a unit is found at the end of the unit.
pub find_start_code-next :
    (u t : List ℕ) (four : Bool)
    → NoCode u
    → EndsNonzero u
    → find_start_code (u ++ (start_code four ++ t)) ≡ some (length u, length (start_code four))
find_start_code-next u t four c e =
    find_start_code-unit u (start_code four ++ t) c e
    ∙ ap (shift (length u)) (find_start_code-code four t)
    ∙ ap (λ k. some (k, length (start_code four))) (omega arith)

pub find_start_code-last :
    (u : List ℕ) → NoCode u → EndsNonzero u → find_start_code (u ++ []) ≡ none
unfolding find_start_code
find_start_code-last u c e = find_start_code-unit u [] c e

pub strip_zeros-unit : (u : List ℕ) → EndsNonzero u → strip_zeros u ≡ u
unfolding strip_zeros
strip_zeros-unit [] e = absurd e
strip_zeros-unit (a ∷ []) e = ground arith
strip_zeros-unit (a ∷ b ∷ u) e = rw (strip_zeros-unit (b ∷ u) e)

pub drop_unit_and_code : (u c t : List ℕ) → drop (length u + length c) (u ++ (c ++ t)) ≡ t
drop_unit_and_code u c t =
    rw (← append_assoc u c t, ← length-append u c) (drop-length-append (u ++ c) t)
