-- ===== src/AppControl/Framing.antt =====
-- How `handle_client` of board/src/app_control.c cuts what a client sends into lines.
use hispark_soc_china.Prelude.{
  ℕ, zero, suc, ◌+◌, ◌<◌, ◌≡◌, ◌≢◌, refl, ap, append-nil, ◌∙◌, Option, none, some, List, [], ◌∷◌,
  ◌++◌, length, drop, sym, ◌⊎◌, inl, inr, arith,
}
use hispark_soc_china.Prelude.Strings.{c_string}
use hispark_soc_china.Floats.{FloatOps}
use hispark_soc_china.AppControl.Mailbox.{Mailbox}
use hispark_soc_china.AppControl.Line.{
  line_feed, no_byte, read_loop, read_line, terminated, unterminated, ctrl_line_cap,
}
use hispark_soc_china.AppControl.Request.{handle_line}
use hispark_soc_china.AppControl.Serve.{Served, after_line, client_round, handle_client}

-- The text of a line: no NUL, line feed or carriage return.
abbrev pub IsLineText : List ℕ → Type 0
IsLineText [] = Unit
IsLineText (c ∷ s) = ((c ≢ 0) × (c ≢ b'\n') × (c ≢ b'\r')) × IsLineText s

-- `recv` brings these bytes, one by one, in front of what it brings later.
abbrev pub sent : List ℕ → List (Option ℕ) → List (Option ℕ)
sent [] later = later
sent (c ∷ s) later = some c ∷ sent s later

read_loop-line :
    (room : ℕ) (l : List ℕ) (later : List (Option ℕ))
    → length l < room
    → IsLineText l
    → read_loop room (sent l (some b'\n' ∷ later))
      ≡ record { got = l; ending = line_feed; rest = later }
unfolding read_loop
read_loop-line zero l later fits v = absurd (omega arith)
read_loop-line (suc room) [] later fits v = refl
read_loop-line (suc room) (c ∷ l) later fits v =
    ground (arith, read_loop-line room l later (omega arith) v.1)

read_loop-cut :
    (room : ℕ) (l : List ℕ) (later : List (Option ℕ))
    → length l < room
    → IsLineText l
    → read_loop room (sent l (none ∷ later)) ≡ record { got = l; ending = no_byte; rest = later }
unfolding read_loop
read_loop-cut zero l later fits v = absurd (omega arith)
read_loop-cut (suc room) [] later fits v = refl
read_loop-cut (suc room) (c ∷ l) later fits v =
    ground (arith, read_loop-cut room l later (omega arith) v.1)

c_string-append : (l s : List ℕ) → IsLineText l → c_string (l ++ s) ≡ l ++ c_string s
unfolding c_string
c_string-append [] s v = refl
c_string-append (c ∷ l) s v = ground (arith, c_string-append l s v.1)

c_string_zero : (s : List ℕ) → c_string (0 ∷ s) ≡ []
unfolding c_string
c_string_zero s = refl

c_string-terminated : (l buf : List ℕ) → IsLineText l → c_string (terminated l buf) ≡ l
c_string-terminated l buf v =
    c_string-append l (0 ∷ drop (length l + 1) buf) v
    ∙ ap (λ t. l ++ t) (c_string_zero (drop (length l + 1) buf))
    ∙ append-nil l

read_line-line :
    (buf l : List ℕ) (later : List (Option ℕ))
    → length l < 511
    → IsLineText l
    → read_line buf (sent l (some b'\n' ∷ later)) ctrl_line_cap
      ≡ (terminated l buf, some (length l), later)
unfolding read_line
read_line-line buf l later fits v = rw (read_loop-line 511 l later fits v) refl

read_line-cut :
    (buf : List ℕ) (c : ℕ) (l : List ℕ) (later : List (Option ℕ))
    → length (c ∷ l) < 511
    → IsLineText (c ∷ l)
    → read_line buf (sent (c ∷ l) (none ∷ later)) ctrl_line_cap
      ≡ (unterminated (c ∷ l) buf, some (length (c ∷ l)), later)
unfolding read_line
read_line-cut buf c l later fits v = rw (read_loop-cut 511 (c ∷ l) later fits v) (ground arith)

abbrev pub HasNul : List ℕ → Type 0
HasNul [] = ⊥
HasNul (c ∷ s) = (c ≡ 0) ⊎ HasNul s

c_string-HasNul : (s beyond : List ℕ) → HasNul s → c_string (s ++ beyond) ≡ c_string s
unfolding c_string
c_string-HasNul [] beyond h = absurd h
c_string-HasNul (c ∷ s) beyond (inl e) = ground arith
c_string-HasNul (c ∷ s) beyond (inr h) = ground (arith, c_string-HasNul s beyond h)

drop-append {ℓ} : {A : Type ℓ} (xs ys : List A) → drop (length xs) (xs ++ ys) ≡ ys
drop-append [] ys = refl
drop-append (x ∷ xs) ys = drop-append xs ys

module _ (fl : FloatOps) (strtod : List ℕ → Option (fl.F)) where
  client_round-some :
      (next : Mailbox fl → List ℕ → List (Option ℕ) → Served fl strtod) (status : List ℕ)
      (m : Mailbox fl) (line : List ℕ) (k : ℕ) (rest : List (Option ℕ))
      → client_round fl strtod next status m (line, some (suc k), rest)
        ≡ after_line fl strtod
            (handle_line fl strtod status m (c_string line))
            (next (handle_line fl strtod status m (c_string line)).0 line rest)
  unfolding client_round
  client_round-some next status m line k rest = ground arith

  -- A line of 1 to 510 characters, none of them NUL or a carriage return, is answered as that text,
  -- whatever was in the array before; the rest of the connection is served from the slot that the
  -- line leaves.
  pub handle_client-line :
      (rounds : ℕ) (status : List ℕ) (m : Mailbox fl) (buf : List ℕ) (c : ℕ) (l : List ℕ)
      (later : List (Option ℕ))
      → length (c ∷ l) < 511
      → IsLineText (c ∷ l)
      → handle_client fl strtod (suc rounds) status m buf (sent (c ∷ l) (some b'\n' ∷ later))
        ≡ after_line fl strtod (handle_line fl strtod status m (c ∷ l)) (
            handle_client fl strtod rounds status
              (handle_line fl strtod status m (c ∷ l)).0
              (terminated (c ∷ l) buf)
              later)
  unfolding handle_client
  handle_client-line rounds status m buf c l later fits v =
      let next = handle_client fl strtod rounds status in
      ap (client_round fl strtod next status m) (read_line-line buf (c ∷ l) later fits v)
      ∙ client_round-some next status m (terminated (c ∷ l) buf) (length l) later
      ∙ ap
          (λ t.
            after_line fl strtod (handle_line fl strtod status m t)
              (next (handle_line fl strtod status m t).0 (terminated (c ∷ l) buf) later))
          (c_string-terminated (c ∷ l) buf v)

  -- A text that the end of the connection, an error or the timeout cuts short is not dropped. It is
  -- answered as a request, with what an earlier line left in the array behind it as its end, up to the
  -- first NUL there, provided that there is one: the array of 512 bytes holds `old` where the text
  -- comes to lie, then `left`, and `beyond` is the memory behind it. The text has 1 to 510
  -- characters, none of them NUL or a carriage return.
  pub handle_client-cut :
      (rounds : ℕ) (status : List ℕ) (m : Mailbox fl) (c : ℕ) (l old left beyond : List ℕ)
      (later : List (Option ℕ))
      → length old ≡ length (c ∷ l)
      → length old + length left ≡ ctrl_line_cap
      → HasNul left
      → length (c ∷ l) < 511
      → IsLineText (c ∷ l)
      → handle_client fl strtod
          (suc rounds)
          status
          m
          (old ++ (left ++ beyond))
          (sent (c ∷ l) (none ∷ later))
        ≡ after_line fl strtod (handle_line fl strtod status m ((c ∷ l) ++ c_string left)) (
            handle_client fl strtod rounds status
              (handle_line fl strtod status m ((c ∷ l) ++ c_string left)).0
              ((c ∷ l) ++ (left ++ beyond))
              later)
  unfolding handle_client
  handle_client-cut rounds status m c l old left beyond later size whole nul fits v =
      let next = handle_client fl strtod rounds status in
      let memory = left ++ beyond in
      ap (client_round fl strtod next status m) (read_line-cut (old ++ memory) c l later fits v)
      ∙ client_round-some next status m (unterminated (c ∷ l) (old ++ memory)) (length l) later
      ∙ ap
          (λ kept.
            after_line fl strtod (handle_line fl strtod status m (c_string ((c ∷ l) ++ kept))) (
              next (handle_line fl strtod status m (c_string ((c ∷ l) ++ kept))).0 ((c ∷ l) ++ kept)
                later))
          (ap (λ n. drop n (old ++ memory)) (sym size) ∙ drop-append old memory)
      ∙ ap
          (λ t.
            after_line fl strtod (handle_line fl strtod status m t)
              (next (handle_line fl strtod status m t).0 ((c ∷ l) ++ memory) later))
          (c_string-append (c ∷ l) memory v
            ∙ ap (λ t. (c ∷ l) ++ t) (c_string-HasNul left beyond nul))
