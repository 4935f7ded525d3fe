-- ===== src/Rtsp/SessionTests.antt =====
-- Runs of the requests and the life of the server of board/src/rtsp_server.c.
use hispark_soc_china.Prelude.{
  ℕ, ◌≡◌, refl, true, false, some, none, List, [], ◌∷◌, ◌++◌, replicate, length,
}
use hispark_soc_china.Prelude.Strings.{
  bytes_of, find_text, c_string, scan_word, same, show_int, atoi, has_text,
}
use hispark_soc_china.Rtsp.Request.{process_request, request_targets_stream}
use hispark_soc_china.Rtsp.Send.{send_nonblock}
use hispark_soc_china.Rtsp.State.{Session, wrote}
use hispark_soc_china.Rtsp.Consume.{received, would_block, consume_client_data}
use hispark_soc_china.Rtsp.Server.{
  RtspServerCfg, StartAnswers, PollAnswers, ServerOp, start, round, publish, halt, server_run,
  fresh_server,
}
use hispark_soc_china.Rtsp.Sane.{Sane}
use hispark_soc_china.Rtsp.Steps.{server_run-Sane}

abbrev config : RtspServerCfg
config = record {
  port = 8554;
  fps = 30;
  stream_path = some (bytes_of "live");
  bind_addr = none;
  request_idr = true;
}

abbrev all_well : StartAnswers
all_well = record {
  socket = some 3;
  address_ok = true;
  bind_ok = true;
  listen_ok = true;
  nonblock_ok = true;
  thread_ok = true;
}

abbrev new_client : PollAnswers
new_client = record {
  listen_in = true;
  accepted = some (7, true);
  script = replicate 8 (wrote 4096);
  client_in = false;
  client_error = false;
  received = [];
}

abbrev play_request : List ℕ
play_request = bytes_of "PLAY rtsp://board/live RTSP/1.0\r\nCSeq: 4\r\n\r\n"

abbrev says : List ℕ → PollAnswers
says bytes = record {
  listen_in = false;
  accepted = none;
  script = [];
  client_in = true;
  client_error = false;
  received = received bytes ∷ would_block ∷ [];
}

abbrev life : List ServerOp
life =
    start config all_well
    ∷ round new_client
    ∷ round (says play_request)
    ∷ publish (0 ∷ 0 ∷ 1 ∷ 0x65 ∷ 9 ∷ [])
    ∷ halt
    ∷ []

server_run-Sane_example : Sane (server_run fresh_server life)
server_run-Sane_example = server_run-Sane life

abbrev options_request : List ℕ
options_request = bytes_of "OPTIONS * RTSP/1.0\r\nCSeq: 1\r\n\r\n"

abbrev connected : Session
connected = record fresh_server {
  running = true;
  client_fd = some 7;
  path = bytes_of "live";
  sock = replicate 8 (wrote 4096);
}

-- A request of which one half has arrived behind another.
abbrev one_and_a_half : Session
one_and_a_half = consume_client_data connected (received (options_request ++ bytes_of "DESC") ∷ [])

abbrev waited : Session
waited =
    consume_client_data connected (received (options_request ++ bytes_of "DESC") ∷ would_block ∷ [])

-- The half request is answered although it never ends: behind it in the array stands what is left
-- of the request before it, with its empty line.
half_answered : length waited.wire ≡ 155
unfolding consume_client_data find_text c_string process_request scan_word same show_int atoi
    send_nonblock request_targets_stream has_text
half_answered = refl
