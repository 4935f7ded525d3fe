-- ===== src/AppControl/Bounded.antt =====
-- Whatever is sent to the control socket of board/src/app_control.c, what it queues lies in range.
use hispark_soc_china.Prelude.{
  ℕ, ◌-◌, zero, suc, Option, none, some, List, [], ◌∷◌, arith, if_both, ◌==◌,
}
use hispark_soc_china.Prelude.Strings.{bytes_of, c_string, same}
use hispark_soc_china.Floats.{FloatOps, TruncatedLaws}
use hispark_soc_china.AppControl.Mailbox.{Mailbox, empty_mailbox, app_ctrl_drain}
use hispark_soc_china.AppControl.Settings.{Settings, take_drained}
use hispark_soc_china.AppControl.Json.{find_key, quoted, in_front, open_quote, parse_string}
use hispark_soc_china.AppControl.Line.{read_line, ctrl_line_cap}
use hispark_soc_china.AppControl.Request.{
  set_params, load_params, load_isp, run_op, answer_op, handle_line,
}
use hispark_soc_china.AppControl.Serve.{
  Served, after_line, client_round, handle_client, Client, accept_loop,
}
use hispark_soc_china.AppControl.Ranges.{
  ShortBy, ShortPath, InBounds, SlotInBounds, SlotInBounds-merge_pending, InBounds-no_params,
  in_range-FloatBetween, truncated_opt-Between, drc_mode_of-Between, ldci_mode_of-Between,
  SettingsInBounds, SettingsInBounds-take_drained,
}

in_front-ShortBy :
    (room c : ℕ) (o : Option (List ℕ)) → ShortBy room o → ShortBy (suc room) (in_front c o)
in_front-ShortBy room c none v = tt
in_front-ShortBy room c (some t) v = omega arith

quoted-ShortBy : (room : ℕ) (s : List ℕ) → ShortBy room (quoted room s)
unfolding quoted
quoted-ShortBy room [] = tt
quoted-ShortBy zero (c ∷ s) = if_both (c == b'"') (ShortBy 0) (λ e. omega arith) (λ e. tt)
quoted-ShortBy (suc room) (c ∷ s) =
    if_both (c == b'"') (ShortBy (suc room)) (λ e. omega arith)
      (λ e. in_front-ShortBy room c (quoted room s) (quoted-ShortBy room s))

open_quote-ShortBy : (room : ℕ) (s : List ℕ) → ShortBy room (open_quote room s)
unfolding open_quote
open_quote-ShortBy room [] = tt
open_quote-ShortBy room (c ∷ s) =
    if_both (c == b'"') (ShortBy room) (λ e. quoted-ShortBy room s) (λ e. tt)

parse_string-ShortBy : (json key : List ℕ) (n : ℕ) → ShortBy (n - 1) (parse_string json key n)
unfolding parse_string
parse_string-ShortBy json key n =
    elim (find_key json key)
      as (λ o. ShortBy (n - 1) (elim o [ none ↦ none | some p ↦ open_quote (n - 1) p ])) [
        | none ↦ tt
        | some p ↦ open_quote-ShortBy (n - 1) p
      ]

module _ (fl : FloatOps) (strtod : List ℕ → Option (fl.F)) (laws : TruncatedLaws fl) where
  set_params-InBounds : (line : List ℕ) → InBounds fl (set_params fl strtod line)
  unfolding set_params
  set_params-InBounds line = record {
    tone = in_range-FloatBetween fl 0 1 _;
    guard = in_range-FloatBetween fl 0 100 _;
    drc = drc_mode_of-Between _;
    strength = truncated_opt-Between fl laws 0 1023 _ (in_range-FloatBetween fl 0 1023 _);
    ldci = ldci_mode_of-Between _;
    bitrate = truncated_opt-Between fl laws 128 51200 _ (in_range-FloatBetween fl 128 51200 _);
    path = tt;
  }

  load_isp-SlotInBounds :
      (m : Mailbox fl) (id : ℕ) (o : Option (List ℕ))
      → ShortPath o
      → SlotInBounds fl m
      → SlotInBounds fl (load_isp fl strtod m id o).0
  unfolding load_isp
  load_isp-SlotInBounds m id none short v = v
  load_isp-SlotInBounds m id (some path) short v =
      SlotInBounds-merge_pending fl m (load_params fl strtod path) v (ground arith)

  -- The slot of what an operation returns.
  abbrev Answered : Mailbox fl × List ℕ → Type 0
  Answered r = SlotInBounds fl r.0

  run_op-SlotInBounds :
      (status : List ℕ) (m : Mailbox fl) (line : List ℕ) (id : ℕ) (op : List ℕ)
      → SlotInBounds fl m
      → SlotInBounds fl (run_op fl strtod status m line id op).0
  unfolding run_op
  run_op-SlotInBounds status m line id op v =
      if_both (same op (bytes_of "status")) Answered (λ e. v)
        (λ e.
          if_both (same op (bytes_of "set")) Answered
            (λ e'. SlotInBounds-merge_pending fl m _ v (set_params-InBounds line))
            (λ e'.
              if_both (same op (bytes_of "load_isp")) Answered
                (λ h.
                  load_isp-SlotInBounds m id _ (parse_string-ShortBy line (bytes_of "\"file\"") 256)
                    v)
                (λ h. v)))

  answer_op-SlotInBounds :
      (status : List ℕ) (m : Mailbox fl) (line : List ℕ) (id : ℕ) (o : Option (List ℕ))
      → SlotInBounds fl m
      → SlotInBounds fl (answer_op fl strtod status m line id o).0
  unfolding answer_op
  answer_op-SlotInBounds status m line id none v = v
  answer_op-SlotInBounds status m line id (some op) v = run_op-SlotInBounds status m line id op v

  handle_line-SlotInBounds :
      (status : List ℕ) (m : Mailbox fl) (line : List ℕ)
      → SlotInBounds fl m
      → SlotInBounds fl (handle_line fl strtod status m line).0
  unfolding handle_line
  handle_line-SlotInBounds status m line v = answer_op-SlotInBounds status m line _ _ v

  handle_client-SlotInBounds :
      (rounds : ℕ) (status : List ℕ) (m : Mailbox fl) (line : List ℕ) (evs : List (Option ℕ))
      → SlotInBounds fl m
      → SlotInBounds fl (handle_client fl strtod rounds status m line evs).mailbox
  unfolding handle_client client_round after_line
  handle_client-SlotInBounds zero status m line evs v = v
  handle_client-SlotInBounds (suc rounds) status m line evs v =
      go (handle_client-SlotInBounds rounds status) (read_line line evs ctrl_line_cap)
    where
      go :
          ((m' : Mailbox fl) (line' : List ℕ) (evs' : List (Option ℕ))
            → SlotInBounds fl m'
            → SlotInBounds fl (handle_client fl strtod rounds status m' line' evs').mailbox)
          → (r : List ℕ × Option ℕ × List (Option ℕ))
          → SlotInBounds fl
              (client_round fl strtod (handle_client fl strtod rounds status) status m r).mailbox
      go next (line', none, rest) = v
      go next (line', some k, rest) =
          let handled = handle_line-SlotInBounds status m (c_string line') v in
          if_both (k == 0) (λ (s : Served fl strtod). SlotInBounds fl s.mailbox)
            (λ e. next m line' rest v) (λ e. next _ line' rest handled)

  -- If the conversion of a float to an integer drops the fraction: the parameters that wait in the
  -- slot after any clients, whatever they send byte for byte, lie in their ranges, if those did that
  -- waited before: a bitrate is 128 to 51200, a path has 255 bytes at most.
  pub accept_loop-SlotInBounds :
      (m : Mailbox fl) (clients : List (Client fl strtod))
      → SlotInBounds fl m
      → SlotInBounds fl (accept_loop fl strtod m clients).0
  unfolding accept_loop
  accept_loop-SlotInBounds m [] v = v
  accept_loop-SlotInBounds m (c ∷ cs) v =
      accept_loop-SlotInBounds
        (handle_client fl strtod c.rounds c.status m c.stack c.events).mailbox cs
        (handle_client-SlotInBounds c.rounds c.status m c.stack c.events v)

  -- If the conversion of a float to an integer drops the fraction: whatever the clients of the
  -- control socket send, byte for byte, from an empty slot on, the settings that the control thread
  -- has after draining the slot lie in their ranges, if they did before.
  pub accept_loop-SettingsInBounds :
      (s : Settings fl) (clients : List (Client fl strtod))
      → SettingsInBounds fl s
      → SettingsInBounds fl (
          take_drained fl s
            (app_ctrl_drain fl (accept_loop fl strtod (empty_mailbox fl) clients).0).1)
  unfolding empty_mailbox
  accept_loop-SettingsInBounds s clients v =
      SettingsInBounds-take_drained fl s _ v
        (accept_loop-SlotInBounds (empty_mailbox fl) clients (InBounds-no_params fl))
