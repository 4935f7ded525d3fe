-- ===== src/Rtsp/Request.antt =====
-- One request of an RTSP client: `process_request` of board/src/rtsp_server.c and what it calls.
use hispark_soc_china.Prelude.{
  ℕ, ◌+◌, Bool, true, false, not, ◌&&◌, Option, none, some, List, [], ◌∷◌, ◌++◌, length, leb, drop,
  if◌then◌else◌,
}
use hispark_soc_china.Prelude.Strings.{
  bytes_of, same, find_text, has_text, scan_word, CInt, atoi, show_unsigned, show_int,
}
use hispark_soc_china.Rtsp.State.{Session, Outcome, done, lost, waiting, close_client}
use hispark_soc_china.Rtsp.Send.{send_nonblock}

-- The text after the seven characters that were found.
unfoldable pub parse_cseq : List ℕ → CInt
parse_cseq request = elim (find_text request (bytes_of "\r\nCSeq:")) [
  | some k ↦ atoi (drop (k + 7) request)
  | none ↦ elim (find_text request (bytes_of "\r\nCseq:")) [
    | some k ↦ atoi (drop (k + 7) request)
    | none ↦ record { negative = false; magnitude = 0 }
  ]
]

-- The array `response` of `send_response_locked`; a NULL text is `none`.
unfoldable pub response_bytes : CInt → Option (List ℕ) → Option (List ℕ) → List ℕ
response_bytes cseq extra body =
    let extra_text : List ℕ = elim extra [ none ↦ [] | some t ↦ t ] in
    let head =
      bytes_of "RTSP/1.0 200 OK\r\nCSeq: "
      ++ (show_int cseq ++ (bytes_of "\r\nServer: socchina-rtsp/1.0\r\n" ++ extra_text)) in
    elim body [
      | none ↦ head ++ bytes_of "\r\n"
      | some b ↦
          head
          ++ (bytes_of "Content-Length: "
              ++ (show_unsigned (length b) ++ (bytes_of "\r\n" ++ (bytes_of "\r\n" ++ b))))
    ]

-- A response that does not fit the array is not sent.
unfoldable pub send_response :
    Session → CInt → Option (List ℕ) → Option (List ℕ) → Session × Outcome
unfolding response_bytes
send_response s cseq extra body =
    let response = response_bytes cseq extra body in
    if leb 2048 (length response) then (s, lost) else send_nonblock s response

unfoldable pub error_bytes : CInt → ℕ → List ℕ → List ℕ
error_bytes cseq code reason =
    bytes_of "RTSP/1.0 "
    ++ (show_unsigned code
        ++ (bytes_of " "
            ++ (reason ++ (bytes_of "\r\nCSeq: " ++ (show_int cseq ++ bytes_of "\r\n\r\n")))))

unfoldable pub send_error : Session → CInt → ℕ → List ℕ → Session × Outcome
unfolding error_bytes
send_error s cseq code reason =
    let response = error_bytes cseq code reason in
    if leb 256 (length response) then (s, lost) else send_nonblock s response

-- The path is shorter than the array `expected`, which therefore holds all of it.
unfoldable pub request_targets_stream : Session → List ℕ → Bool
request_targets_stream s request = has_text request (b'/' ∷ s.path)

-- What a request asks for: an answer with these headers and this body, an error, or one of the two
-- methods that change the session.
pub data Action : Type 0 where
  respond : Option (List ℕ) → Option (List ℕ) → Action
  refuse : ℕ → List ℕ → Action
  play : Action
  teardown : Action

abbrev sdp : List ℕ
sdp =
    bytes_of "v=0\r\no=- 0 0 IN IP6 ::\r\ns=SocChina H264 Stream\r\nt=0 0\r\na=control:*\r\n"
    ++ (bytes_of "m=video 0 RTP/AVP 96\r\nc=IN IP6 ::\r\na=rtpmap:96 H264/90000\r\n"
        ++ bytes_of "a=fmtp:96 packetization-mode=1\r\na=control:trackID=0\r\n")

-- The chain of tests on the method.
unfoldable pub choose_action : Session → List ℕ → List ℕ → Action
choose_action s request method =
    let here = request_targets_stream s request in
    if same method (bytes_of "OPTIONS")
    then respond
        (some (bytes_of "Public: OPTIONS, DESCRIBE, SETUP, PLAY, TEARDOWN, GET_PARAMETER\r\n")) none
    else if same method (bytes_of "DESCRIBE") && here
    then respond (some (bytes_of "Content-Type: application/sdp\r\n")) (some sdp)
    else if same method (bytes_of "SETUP") && here
    then if has_text request (bytes_of "RTP/AVP/TCP")
      then respond
          (some
            (bytes_of "Transport: RTP/AVP/TCP;unicast;interleaved=0-1\r\nSession: 534f4343\r\n"))
          none
      else refuse 461 (bytes_of "Unsupported Transport")
    else if same method (bytes_of "PLAY") && here
    then play
    else if same method (bytes_of "GET_PARAMETER")
    then respond (some (bytes_of "Session: 534f4343\r\n")) none
    else if same method (bytes_of "TEARDOWN")
    then teardown
    else if not here
    then refuse 404 (bytes_of "Not Found")
    else refuse 405 (bytes_of "Method Not Allowed")

-- The headers of the answer to PLAY.
unfoldable pub rtp_info : Session → List ℕ
rtp_info s =
    bytes_of "Session: 534f4343\r\nRTP-Info: url=rtsp://0.0.0.0:"
    ++ (show_unsigned s.port
        ++ (b'/'
            ∷ (s.path
                ++ (bytes_of "/trackID=0;seq="
                    ++ (show_unsigned s.rtp_seq
                        ++ (bytes_of ";rtptime="
                            ++ (show_unsigned s.rtp_timestamp ++ bytes_of "\r\n")))))))

-- What follows the answer to PLAY: the callback, if there is one.
unfoldable pub after_play : Session × Outcome → Session × Outcome × Bool
after_play (t, waiting) = (t, waiting, false)
after_play (t, done) = (t, done, t.request_idr)
after_play (t, lost) = (t, lost, t.request_idr)

-- What follows the answer to TEARDOWN: the client is closed.
unfoldable pub after_teardown : Session × Outcome → Session × Outcome × Bool
after_teardown (t, waiting) = (t, waiting, false)
after_teardown (t, done) = (close_client t, done, false)
after_teardown (t, lost) = (close_client t, lost, false)

-- The session afterwards, how the answer's sending ended, and whether the callback was called that
-- asks the encoder for an IDR frame. The answer of a send is ignored, as long as it returns.
unfoldable pub act : Session → CInt → Action → Session × Outcome × Bool
unfolding send_response send_error rtp_info after_play after_teardown
act s cseq (respond extra body) = let (t, o) = send_response s cseq extra body in (t, o, false)
act s cseq (refuse code reason) = let (t, o) = send_error s cseq code reason in (t, o, false)
act s cseq play =
    after_play (send_response (record s { playing = true }) cseq (some (rtp_info s)) none)
act s cseq teardown =
    after_teardown (send_response s cseq (some (bytes_of "Session: 534f4343\r\n")) none)

-- The request is a C string. One without a word in it is ignored.
unfoldable pub process_request : Session → List ℕ → Session × Outcome × Bool
unfolding parse_cseq choose_action act
process_request s request = elim (scan_word 23 request) [
  | none ↦ (s, done, false)
  | some method ↦ act s (parse_cseq request) (choose_action s request method)
]
