-- ===== src/AppControl/SocketTests.antt =====
-- Runs of the control socket of board/src/app_control.c.
use hispark_soc_china.Prelude.{
  ℕ, ◌≡◌, refl, ◌*◌, ◌∷◌, ◌++◌, [], true, Option, none, some, List, drop, arith, replicate, inl,
  inr,
}
use hispark_soc_china.Prelude.Strings.{
  bytes_of, c_string, show_unsigned, starts_with, is_digit, digits_value, find_text, skip_spaces,
}
use hispark_soc_china.Floats.Thousandths.{thousandths, thousandths-TruncatedLaws}
use hispark_soc_china.AppControl.Mailbox.{Mailbox, empty_mailbox, app_ctrl_drain}
use hispark_soc_china.AppControl.Settings.{Settings, take_drained}
use hispark_soc_china.AppControl.Json.{digits_at, parse_uint64, parse_string}
use hispark_soc_china.AppControl.Line.{terminated}
use hispark_soc_china.AppControl.Request.{answer_op, handle_line, id_or_zero}
use hispark_soc_china.AppControl.Serve.{Client, handle_client, after_line, accept_loop}
use hispark_soc_china.AppControl.Framing.{sent, handle_client-line, handle_client-cut}
use hispark_soc_china.AppControl.Ranges.{SettingsInBounds, SlotInBounds, InBounds-no_params}
use hispark_soc_china.AppControl.Bounded.{accept_loop-SlotInBounds, accept_loop-SettingsInBounds}
use hispark_soc_china.AppControl.Replies.{handle_line_whole, handle_line_number, handle_line_echo}

-- A `strtod` that reads whole numbers.
abbrev whole_number : List ℕ → Option ℕ
whole_number p = elim (digits_at p) [ none ↦ none | some v ↦ some (v * 1000) ]

abbrev slot : Mailbox thousandths
slot = empty_mailbox thousandths

abbrev set_request : List ℕ
set_request = bytes_of "{\"id\":7,\"op\":\"set\",\"tone_strength\":1,\"bitrate_kbps\":4000}"

-- `{"op":"status"` without its end, in an array that holds an earlier request.
abbrev half_request : List ℕ
half_request = bytes_of "{\"op\":\"status\""

abbrev stack : List ℕ
stack = bytes_of "{\"op\":\"set\",  \"id\":9}" ++ (0 ∷ replicate 40 0)

abbrev settings : Settings thousandths
settings = record {
  strength = 500;
  high_clip_guard = 3000;
  nn_enabled = true;
  enhancement_enabled = true;
  tone_enabled = true;
  drc_mode = 1;
  drc_strength = 0;
  ldci_mode = 1;
}

abbrev status_text : List ℕ
status_text = bytes_of "\"pipeline\":{}"

abbrev client : Client thousandths whole_number
client = record {
  rounds = 3;
  status = status_text;
  stack = stack;
  events = sent set_request (some b'\n' ∷ sent half_request (none ∷ []));
}

handle_line_whole_example :
    (handle_line thousandths whole_number [] slot set_request).1
    ≡ (answer_op thousandths whole_number [] slot set_request
        (id_or_zero (parse_uint64 set_request (bytes_of "\"id\"")))
        (parse_string set_request (bytes_of "\"op\"") 32)).1
handle_line_whole_example = handle_line_whole thousandths whole_number [] slot set_request

handle_line_number_example :
    parse_uint64 (handle_line thousandths whole_number [] slot set_request).1 (bytes_of "\"id\"")
    ≡ some (id_or_zero (parse_uint64 set_request (bytes_of "\"id\"")))
handle_line_number_example = handle_line_number thousandths whole_number [] slot set_request

handle_line_echo_example :
    parse_uint64
      (handle_line thousandths whole_number [] slot (
        bytes_of "{"
        ++ (bytes_of "\"id\"" ++ (b':' ∷ (show_unsigned 7 ++ bytes_of ",\"op\":\"set\"}"))))).1
      (bytes_of "\"id\"")
    ≡ some 7
unfolding starts_with is_digit
handle_line_echo_example =
    handle_line_echo thousandths whole_number [] slot (bytes_of "{") (bytes_of ",\"op\":\"set\"}") 7
      (refl, tt) (omega arith) refl

accept_loop-SettingsInBounds_example : SettingsInBounds thousandths (
    take_drained thousandths settings
      (app_ctrl_drain thousandths
        (accept_loop thousandths whole_number (empty_mailbox thousandths) (client ∷ [])).0).1)
accept_loop-SettingsInBounds_example =
    accept_loop-SettingsInBounds thousandths whole_number thousandths-TruncatedLaws settings
      (client ∷ []) (ground arith)

accept_loop-SlotInBounds_example :
    SlotInBounds thousandths (accept_loop thousandths whole_number slot (client ∷ [])).0
unfolding empty_mailbox
accept_loop-SlotInBounds_example =
    accept_loop-SlotInBounds thousandths whole_number thousandths-TruncatedLaws slot (client ∷ [])
      (InBounds-no_params thousandths)

handle_client-line_example :
    handle_client thousandths whole_number 3 [] slot stack (sent half_request (some b'\n' ∷ []))
    ≡ after_line thousandths whole_number
        (handle_line thousandths whole_number [] slot half_request)
        (handle_client thousandths whole_number 2 []
          (handle_line thousandths whole_number [] slot half_request).0
          (terminated half_request stack)
          [])
handle_client-line_example =
    handle_client-line thousandths whole_number 2 [] slot stack b'{' (drop 1 half_request) []
      (omega arith) (ground arith)

-- The array that holds an earlier request, as far as the new one comes to lie, and from there on.
abbrev overwritten : List ℕ
overwritten = bytes_of "{\"op\":\"set\",  "

abbrev left : List ℕ
left = bytes_of "\"id\":9}" ++ (0 ∷ replicate 490 0)

-- What is served is `{"op":"status"` and the end of the request before it.
abbrev stale_request : List ℕ
stale_request = half_request ++ c_string left

handle_client-cut_example :
    handle_client thousandths whole_number 3 [] slot
      (overwritten ++ (left ++ (7 ∷ [])))
      (sent half_request (none ∷ []))
    ≡ after_line thousandths whole_number
        (handle_line thousandths whole_number [] slot stale_request)
        (handle_client thousandths whole_number 2 []
          (handle_line thousandths whole_number [] slot stale_request).0
          (half_request ++ (left ++ (7 ∷ [])))
          [])
handle_client-cut_example =
    handle_client-cut thousandths whole_number 2 [] slot b'{' (drop 1 half_request) overwritten left
      (7 ∷ []) [] refl refl (inr (inr (inr (inr (inr (inr (inr (inl refl)))))))) (omega arith)
      (ground arith)

-- The number 9 is the one of the earlier request.
cut_request_takes_the_number_before : parse_uint64 stale_request (bytes_of "\"id\"") ≡ some 9
unfolding parse_uint64 find_text c_string skip_spaces is_digit digits_value
cut_request_takes_the_number_before = refl
