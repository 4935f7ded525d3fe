-- ===== src/AppControl/Line.antt =====
-- `read_line` of board/src/app_control.c.
use hispark_soc_china.Prelude.{
  ℕ, zero, suc, ◌+◌, ◌-◌, Option, none, some, List, [], ◌∷◌, ◌++◌, length, drop, ◌==◌,
  if◌then◌else◌,
}

-- CTRL_LINE_CAP
abbrev pub ctrl_line_cap : ℕ
ctrl_line_cap = 512

-- Why the loop ends: a line feed, the end of the array, or a `recv` that brings no byte.
pub data LineEnd : Type 0 where
  line_feed array_full no_byte : LineEnd

-- What the loop leaves: the bytes written into the array, its end, the answers of `recv` not used.
pub record LineRun : Type 0 where
  pub got : List ℕ
  pub ending : LineEnd
  pub rest : List (Option ℕ)

abbrev with_byte : ℕ → LineRun → LineRun
with_byte c r = record r { got = c ∷ r.got }

-- One answer of `recv` for each byte: `none` is 0 or less, and so is what comes after the list.
unfoldable pub read_loop : ℕ → List (Option ℕ) → LineRun
read_loop zero evs = record { got = []; ending = array_full; rest = evs }
read_loop (suc room) [] = record { got = []; ending = no_byte; rest = [] }
read_loop (suc room) (none ∷ evs) = record { got = []; ending = no_byte; rest = evs }
read_loop (suc room) (some c ∷ evs) =
    let skipped = read_loop (suc room) evs in
    let kept = with_byte c (read_loop room evs) in
    if c == b'\n'
    then record { got = []; ending = line_feed; rest = evs }
    else if c == b'\r'
    then skipped
    else kept

-- The array after the bytes and the terminator, and after the bytes alone.
abbrev pub terminated : List ℕ → List ℕ → List ℕ
terminated got buf = got ++ (0 ∷ drop (length got + 1) buf)

abbrev pub unterminated : List ℕ → List ℕ → List ℕ
unterminated got buf = got ++ drop (length got) buf

-- The array and the number that is returned; `none` is -1.
unfoldable pub line_result : List ℕ → LineRun → List ℕ × Option ℕ
line_result buf r = elim r.ending [
  | no_byte ↦
      if length r.got == 0 then (buf, none) else (unterminated r.got buf, some (length r.got))
  | e ↦ (terminated r.got buf, some (length r.got))
]

unfoldable pub read_line : List ℕ → List (Option ℕ) → ℕ → List ℕ × Option ℕ × List (Option ℕ)
unfolding read_loop line_result
read_line buf evs cap =
    let r = read_loop (cap - 1) evs in let (buf', n) = line_result buf r in (buf', n, r.rest)
