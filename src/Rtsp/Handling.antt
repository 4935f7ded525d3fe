-- ===== src/Rtsp/Handling.antt =====
-- What a request does to the session of board/src/rtsp_server.c: it stays sane.
use hispark_soc_china.Prelude.{
  ℕ, ◌≡◌, Bool, true, false, Option, none, some, List, length, leb, arith, if_both,
}
use hispark_soc_china.Prelude.Strings.{CInt, bytes_of, scan_word}
use hispark_soc_china.Rtsp.State.{Session, Outcome, done, lost, waiting}
use hispark_soc_china.Rtsp.Request.{
  response_bytes, error_bytes, send_response, send_error, Action, respond, refuse, play, teardown,
  act, parse_cseq, choose_action, process_request, rtp_info, after_play, after_teardown,
}
use hispark_soc_china.Rtsp.Sane.{Sane, SaneEnd, Sane-close_client, Sane-send_nonblock}

Sane-send_response :
    (s : Session) (cseq : CInt) (extra body : Option (List ℕ))
    → Sane s
    → Sane (send_response s cseq extra body).0
unfolding send_response
Sane-send_response s cseq extra body v =
    if_both (leb 2048 (length (response_bytes cseq extra body))) SaneEnd (λ long. v)
      (λ short. Sane-send_nonblock s _ v)

Sane-send_error :
    (s : Session) (cseq : CInt) (code : ℕ) (reason : List ℕ)
    → Sane s
    → Sane (send_error s cseq code reason).0
unfolding send_error
Sane-send_error s cseq code reason v =
    if_both (leb 256 (length (error_bytes cseq code reason))) SaneEnd (λ long. v)
      (λ short. Sane-send_nonblock s _ v)

Sane-after_play : (r : Session × Outcome) → Sane r.0 → Sane (after_play r).0
unfolding after_play
Sane-after_play (t, done) v = v
Sane-after_play (t, lost) v = v
Sane-after_play (t, waiting) v = v

Sane-after_teardown : (r : Session × Outcome) → Sane r.0 → Sane (after_teardown r).0
unfolding after_teardown
Sane-after_teardown (t, done) v = Sane-close_client t v
Sane-after_teardown (t, lost) v = Sane-close_client t v
Sane-after_teardown (t, waiting) v = v

plays-Sane :
    (s : Session) (fd : ℕ) → s.client_fd ≡ some fd → Sane s → Sane (record s { playing = true })
plays-Sane s fd e v = ground arith

-- For a session with a client.
Sane-act :
    (s : Session) (fd : ℕ) (cseq : CInt) (action : Action)
    → s.client_fd ≡ some fd
    → Sane s
    → Sane (act s cseq action).0
unfolding act
Sane-act s fd cseq (respond extra body) e v = Sane-send_response s cseq extra body v
Sane-act s fd cseq (refuse code reason) e v = Sane-send_error s cseq code reason v
Sane-act s fd cseq play e v = Sane-after_play _ (
    Sane-send_response (record s { playing = true }) cseq (some (rtp_info s)) none
      (plays-Sane s fd e v))
Sane-act s fd cseq teardown e v =
    Sane-after_teardown _
      (Sane-send_response s cseq (some (bytes_of "Session: 534f4343\r\n")) none v)

abbrev SaneAct : Session × Outcome × Bool → Type 0
SaneAct r = Sane r.0

pub Sane-process_request :
    (s : Session) (fd : ℕ) (request : List ℕ)
    → s.client_fd ≡ some fd
    → Sane s
    → Sane (process_request s request).0
unfolding process_request
Sane-process_request s fd request e v =
    elim (scan_word 23 request)
      as (λ o. SaneAct (elim o [
        | none ↦ (s, done, false)
        | some method ↦ act s (parse_cseq request) (choose_action s request method)
      ])) [
        | none ↦ v
        | some method ↦ Sane-act s fd (parse_cseq request) (choose_action s request method) e v
      ]
