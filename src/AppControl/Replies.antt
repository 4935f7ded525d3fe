-- ===== src/AppControl/Replies.antt =====
-- The replies of the control socket of board/src/app_control.c: none is cut by the array that it is
-- written into, and each carries the number of its request.
use hispark_soc_china.Prelude.{
  ℕ, ◌-◌, ◌≤◌, ◌<◌, ◌^◌, ◌≡◌, refl, ap, ◌∙◌, Option, none, some, List, [], ◌∷◌, ◌++◌, length,
  length-append, length-take, take_long, arith, if_both,
}
use hispark_soc_china.Prelude.Strings.{bytes_of, same, starts_with, is_digit, show_unsigned}
use hispark_soc_china.Prelude.Decimal.{NoDigit, length-show}
use hispark_soc_china.Floats.{FloatOps}
use hispark_soc_china.AppControl.Mailbox.{Mailbox}
use hispark_soc_china.AppControl.Json.{ullong_max, parse_uint64, parse_string}
use hispark_soc_china.AppControl.Request.{
  ctrl_resp_cap, fit, reply_text, status_tail, load_isp, run_op, answer_op, handle_line, id_or_zero,
}
use hispark_soc_china.AppControl.Ids.{id_key, FirstAtEnd, parse_uint64-Fits, parse_uint64_id}

-- A reply to the request of this number.
record ReplyTo (id : ℕ) (text : List ℕ) : Type 0 where
  members : List ℕ
  is_reply : text ≡ reply_text id (b',' ∷ members)
  short : length members ≤ 1993

ReplyTo-short :
    (id : ℕ) (members : List ℕ)
    → length members ≤ 1993
    → ReplyTo id (reply_text id (b',' ∷ members))
ReplyTo-short id members h = record { members = members; is_reply = refl; short = h }

status_tail-ReplyTo :
    (id : ℕ) (body : List ℕ) → length body ≤ 1983 → ReplyTo id (reply_text id (status_tail body))
status_tail-ReplyTo id [] h = ReplyTo-short id _ (omega arith)
status_tail-ReplyTo id (c ∷ body) h = ReplyTo-short id _ (omega arith)

length-fit : (cap : ℕ) (text : List ℕ) → length (fit cap text) ≤ cap - 1
length-fit cap text = omega (arith, length-take (cap - 1) text)

length-reply_text :
    (id : ℕ) (tail : List ℕ)
    → id ≤ ullong_max
    → length tail ≤ 1994
    → length (reply_text id tail) ≤ 2022
unfolding reply_text
length-reply_text id tail h k = omega (
  arith,
  length-show id (omega arith),
  length-append (show_unsigned id) (tail ++ bytes_of "}\n"),
  length-append tail (bytes_of "}\n"),
)

module _ (fl : FloatOps) (strtod : List ℕ → Option (fl.F)) where
  abbrev Replied : ℕ → Mailbox fl × List ℕ → Type 0
  Replied id r = ReplyTo id r.1

  load_isp-Replied :
      (m : Mailbox fl) (id : ℕ) (o : Option (List ℕ)) → Replied id (load_isp fl strtod m id o)
  unfolding load_isp
  load_isp-Replied m id none = ReplyTo-short id _ (omega arith)
  load_isp-Replied m id (some path) = ReplyTo-short id _ (omega arith)

  run_op-Replied :
      (status : List ℕ) (m : Mailbox fl) (line : List ℕ) (id : ℕ) (op : List ℕ)
      → Replied id (run_op fl strtod status m line id op)
  unfolding run_op
  run_op-Replied status m line id op =
      if_both (same op (bytes_of "status")) (Replied id)
        (λ e.
          status_tail-ReplyTo id (fit (ctrl_resp_cap - 64) status)
            (length-fit (ctrl_resp_cap - 64) status))
        (λ e.
          if_both (same op (bytes_of "set")) (Replied id) (λ e'. ReplyTo-short id _ (omega arith))
            (λ e'.
              if_both (same op (bytes_of "load_isp")) (Replied id) (λ h. load_isp-Replied m id _)
                (λ h. ReplyTo-short id _ (omega arith))))

  answer_op-Replied :
      (status : List ℕ) (m : Mailbox fl) (line : List ℕ) (id : ℕ) (o : Option (List ℕ))
      → Replied id (answer_op fl strtod status m line id o)
  unfolding answer_op
  answer_op-Replied status m line id none = ReplyTo-short id _ (omega arith)
  answer_op-Replied status m line id (some op) = run_op-Replied status m line id op

  -- Every reply fits its array of 2048 bytes: what is sent is the whole text that the request is
  -- answered with, whatever the line and whatever the status function writes.
  pub handle_line_whole :
      (status : List ℕ) (m : Mailbox fl) (line : List ℕ)
      → (handle_line fl strtod status m line).1
        ≡ (answer_op fl strtod status m line
            (id_or_zero (parse_uint64 line (bytes_of "\"id\"")))
            (parse_string line (bytes_of "\"op\"") 32)).1
  unfolding handle_line
  handle_line_whole status m line =
      let r =
        answer_op-Replied status m line (id_or_zero (parse_uint64 line id_key))
          (parse_string line (bytes_of "\"op\"") 32) in
      take_long 2047 _ (
        omega (
          arith,
          ap length r.is_reply,
          length-reply_text (id_or_zero (parse_uint64 line id_key)) (b',' ∷ r.members)
              (parse_uint64-Fits line id_key) (omega (arith, r.short)),
        ))

  -- The number that the reply carries, read as a request is, is the one that the request carries,
  -- and 0 where it carries none.
  pub handle_line_number :
      (status : List ℕ) (m : Mailbox fl) (line : List ℕ)
      → parse_uint64 (handle_line fl strtod status m line).1 (bytes_of "\"id\"")
        ≡ some (id_or_zero (parse_uint64 line (bytes_of "\"id\"")))
  unfolding reply_text starts_with is_digit
  handle_line_number status m line =
      let r =
        answer_op-Replied status m line (id_or_zero (parse_uint64 line id_key))
          (parse_string line (bytes_of "\"op\"") 32) in
      ap (λ t. parse_uint64 t id_key) (handle_line_whole status m line ∙ r.is_reply)
      ∙ parse_uint64_id (bytes_of "{") _ _ (refl, tt) (parse_uint64-Fits line id_key) refl

  -- A request that carries a printed number of 64 bits, not followed by a digit, where the key
  -- `"id"` first stands, is answered under that number.
  pub handle_line_echo :
      (status : List ℕ) (m : Mailbox fl) (pre rest : List ℕ) (n : ℕ)
      → FirstAtEnd (bytes_of "\"id\"") pre
      → n < 2 ^ 64
      → NoDigit rest
      → parse_uint64
          (handle_line fl strtod status m
            (pre ++ (bytes_of "\"id\"" ++ (b':' ∷ (show_unsigned n ++ rest))))).1
          (bytes_of "\"id\"")
        ≡ some n
  handle_line_echo status m pre rest n v h w =
      handle_line_number status m _
      ∙ ap (λ o. some (id_or_zero o)) (parse_uint64_id pre rest n v (omega arith) w)
