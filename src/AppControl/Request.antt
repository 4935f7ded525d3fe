-- ===== src/AppControl/Request.antt =====
-- One line from the control socket: the body of `handle_client` of board/src/app_control.c.
use hispark_soc_china.Prelude.{
  ℕ, ◌-◌, ◌&&◌, Option, none, some, List, [], ◌∷◌, ◌++◌, take, if◌then◌else◌,
}
use hispark_soc_china.Prelude.Strings.{bytes_of, same, show_unsigned}
use hispark_soc_china.Floats.{FloatOps}
use hispark_soc_china.AppControl.Mailbox.{AppCtrlParams, no_params, Mailbox, merge_pending}
use hispark_soc_china.AppControl.Json.{parse_uint64, parse_string, parse_bool, parse_float}

-- CTRL_RESP_CAP
abbrev pub ctrl_resp_cap : ℕ
ctrl_resp_cap = 2048

-- `snprintf` into an array of this size, as the string that it leaves.
abbrev pub fit : ℕ → List ℕ → List ℕ
fit cap text = take (cap - 1) text

-- A reply with this text behind the number of the request.
unfoldable pub reply_text : ℕ → List ℕ → List ℕ
reply_text id tail = bytes_of "{\"id\":" ++ (show_unsigned id ++ (tail ++ bytes_of "}\n"))

abbrev pub failed_with : List ℕ → List ℕ
failed_with error = bytes_of ",\"ok\":false,\"error\":\"" ++ (error ++ bytes_of "\"")

abbrev pub queued : List ℕ
queued = bytes_of ",\"ok\":true,\"queued\":true"

-- The members that the status function writes, behind a comma if there are any.
abbrev pub status_tail : List ℕ → List ℕ
status_tail [] = bytes_of ",\"ok\":true"
status_tail (c ∷ body) = bytes_of ",\"ok\":true" ++ (b',' ∷ c ∷ body)

-- The names of the modes, numbered from 0 in this order.
unfoldable pub drc_mode_of : List ℕ → Option ℕ
drc_mode_of t =
    if same t (bytes_of "off")
    then some 0
    else if same t (bytes_of "auto")
    then some 1
    else if same t (bytes_of "manual")
    then some 2
    else none

unfoldable pub ldci_mode_of : List ℕ → Option ℕ
ldci_mode_of t =
    if same t (bytes_of "off") then some 0 else if same t (bytes_of "auto") then some 1 else none

abbrev pub and_then_mode : (List ℕ → Option ℕ) → Option (List ℕ) → Option ℕ
and_then_mode mode_of none = none
and_then_mode mode_of (some t) = mode_of t

abbrev pub id_or_zero : Option ℕ → ℕ
id_or_zero none = 0
id_or_zero (some v) = v

module _ (fl : FloatOps) where
  open fl use {F, le, lit, truncated}

  -- `fv >= low && fv <= high`
  unfoldable pub in_range : ℕ → ℕ → Option F → Option F
  in_range low high none = none
  in_range low high (some v) = if le (lit low 1) v && le v (lit high 1) then some v else none

  abbrev pub truncated_opt : Option F → Option ℕ
  truncated_opt none = none
  truncated_opt (some v) = some (truncated v)

  -- The first value, or the second where there is none.
  abbrev pub first_of : Option F → Option F → Option F
  first_of none second = second
  first_of (some v) second = some v

module _ (fl : FloatOps) (strtod : List ℕ → Option (fl.F)) where
  open fl use {F}

  -- The parameters that a `set` request names.
  unfoldable pub set_params : List ℕ → AppCtrlParams fl
  unfolding in_range drc_mode_of ldci_mode_of
  set_params line =
      let number : List ℕ → Option F = λ key. parse_float fl strtod line key in
      record {
        tone_strength = in_range fl 0 1 (number (bytes_of "\"tone_strength\""));
        nn_clut_enabled = parse_bool line (bytes_of "\"nn_clut_enabled\"");
        high_clip_guard = in_range fl 0 100 (
            first_of fl (number (bytes_of "\"nn_high_clip_guard\""))
              (number (bytes_of "\"high_clip_guard\"")));
        enhancement_enabled = parse_bool line (bytes_of "\"enhancement_enabled\"");
        tone_enabled = parse_bool line (bytes_of "\"tone_enabled\"");
        drc_mode = and_then_mode drc_mode_of (parse_string line (bytes_of "\"drc_mode\"") 16);
        drc_strength = truncated_opt fl (in_range fl 0 1023 (number (bytes_of "\"drc_strength\"")));
        ldci_mode = and_then_mode ldci_mode_of (parse_string line (bytes_of "\"ldci_mode\"") 16);
        bitrate_kbps =
            truncated_opt fl (in_range fl 128 51200 (number (bytes_of "\"bitrate_kbps\"")));
        isp_blob_path = none;
      }

  abbrev pub load_params : List ℕ → AppCtrlParams fl
  load_params path = record (no_params fl) { isp_blob_path = some path }

  -- The slot, and the reply that is sent. `status` is what the status function writes into its array
  -- of 1984 bytes.
  unfoldable pub load_isp : Mailbox fl → ℕ → Option (List ℕ) → Mailbox fl × List ℕ
  load_isp m id none = (m, reply_text id (failed_with (bytes_of "missing_file")))
  load_isp m id (some path) = (merge_pending fl m (load_params path), reply_text id queued)

  unfoldable pub run_op : List ℕ → Mailbox fl → List ℕ → ℕ → List ℕ → Mailbox fl × List ℕ
  unfolding set_params load_isp
  run_op status m line id op =
      if same op (bytes_of "status")
      then (m, reply_text id (status_tail (fit (ctrl_resp_cap - 64) status)))
      else if same op (bytes_of "set")
      then (merge_pending fl m (set_params line), reply_text id queued)
      else if same op (bytes_of "load_isp")
      then load_isp m id (parse_string line (bytes_of "\"file\"") 256)
      else (m, reply_text id (failed_with (bytes_of "unknown_op")))

  -- Before it is cut to the array `resp`.
  unfoldable pub answer_op :
      List ℕ → Mailbox fl → List ℕ → ℕ → Option (List ℕ) → Mailbox fl × List ℕ
  unfolding run_op
  answer_op status m line id none = (m, reply_text id (failed_with (bytes_of "missing_op")))
  answer_op status m line id (some op) = run_op status m line id op

  unfoldable pub handle_line : List ℕ → Mailbox fl → List ℕ → Mailbox fl × List ℕ
  unfolding answer_op
  handle_line status m line =
      let id = id_or_zero (parse_uint64 line (bytes_of "\"id\"")) in
      let r = answer_op status m line id (parse_string line (bytes_of "\"op\"") 32) in
      (r.0, fit ctrl_resp_cap r.1)
