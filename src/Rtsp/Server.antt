-- ===== src/Rtsp/Server.antt =====
-- The life of the server of board/src/rtsp_server.c: `rtsp_server_start`, `server_thread`,
-- `accept_client`, `rtsp_server_stop`.
use hispark_soc_china.Prelude.{
  ℕ, Bool, true, false, not, ◌&&◌, ◌||◌, Option, none, some, List, [], ◌∷◌, length, ltb, ◌==◌,
  if◌then◌else◌,
}
use hispark_soc_china.Prelude.Strings.{bytes_of, same, has_text}
use hispark_soc_china.Rtsp.State.{Session, SendEvent, close_client}
use hispark_soc_china.Rtsp.Annexb.{publish_h264}
use hispark_soc_china.Rtsp.Consume.{RecvEvent, consume_client_data}

-- `rtsp_server_cfg_t`; a NULL pointer is `none`, and of the callback only its presence is kept.
pub record RtspServerCfg : Type 0 where
  pub port : ℕ
  pub fps : ℕ
  pub stream_path : Option (List ℕ)
  pub bind_addr : Option (List ℕ)
  pub request_idr : Bool

-- What the system answers to the calls of `rtsp_server_start`: `socket` (`none` if it fails),
-- `inet_pton`, `bind`, `listen`, `set_nonblock` and `pthread_create`.
pub record StartAnswers : Type 0 where
  pub socket : Option ℕ
  pub address_ok : Bool
  pub bind_ok : Bool
  pub listen_ok : Bool
  pub nonblock_ok : Bool
  pub thread_ok : Bool

-- RTSP_PATH_CAP
abbrev pub rtsp_path_cap : ℕ
rtsp_path_cap = 128

unfoldable pub path_ok : List ℕ → Bool
path_ok path =
    ltb 0 (length path) && (not (same path (bytes_of "/")) && ltb (length path) rtsp_path_cap)

-- The path without the slash in front of it.
unfoldable pub stripped_path : List ℕ → List ℕ
stripped_path [] = []
stripped_path (c ∷ path) = if c == b'/' then path else c ∷ path

-- An address with a dot in it is an IPv4 address, and must be one.
unfoldable pub address_refused : RtspServerCfg → StartAnswers → Bool
address_refused cfg a = elim cfg.bind_addr [
  | none ↦ false
  | some t ↦ has_text t (bytes_of ".") && not a.address_ok
]

-- The session once it listens on `fd`, for a thread that was created.
unfoldable pub started : Session → RtspServerCfg → List ℕ → ℕ → Session
unfolding stripped_path
started s cfg path fd = record s {
  listen_fd = some fd;
  port = cfg.port;
  fps = cfg.fps;
  path = stripped_path path;
  request_idr = cfg.request_idr;
  rtp = record { rtp_seq = 1; rtp_timestamp = 0; rtp_ssrc = 0x534f4343 };
  stop = false;
  running = true;
}

-- What is left when `pthread_create` fails: all is set, and nothing runs.
unfoldable pub not_started : Session → Session
not_started s = record s { listen_fd = none; running = false }

-- The session, and whether the answer is 0.
unfoldable pub rtsp_server_start : Session → RtspServerCfg → StartAnswers → Session × Bool
unfolding path_ok address_refused started not_started
rtsp_server_start s cfg a = elim cfg.stream_path [
  | none ↦ (s, false)
  | some path ↦
      if cfg.port == 0 || (cfg.fps == 0 || not (path_ok path))
      then (s, false)
      else if s.running
      then (s, true)
      else if address_refused cfg a
      then (s, false)
      else elim a.socket [
        | none ↦ (record s { listen_fd = none }, false)
        | some fd ↦
            if a.bind_ok && (a.listen_ok && a.nonblock_ok)
            then if a.thread_ok
              then (started s cfg path fd, true)
              else (not_started (started s cfg path fd), false)
            else (record s { listen_fd = none }, false)
      ]
]

-- `accept_client`: what `accept` gives, and whether the descriptor could be made non-blocking.
unfoldable pub accept_client : Session → Option (ℕ × Bool) → List SendEvent → Session
accept_client s none script = s
accept_client s (some (fd, nonblock_ok)) script =
    if nonblock_ok
    then record (close_client s) { client_fd = some fd; sock = script; wire = [] }
    else s

-- What `poll` and the calls behind it answer in a round of `server_thread`. `script` is how the
-- socket of a new client will take what is sent to it.
pub record PollAnswers : Type 0 where
  pub listen_in : Bool
  pub accepted : Option (ℕ × Bool)
  pub script : List SendEvent
  pub client_in : Bool
  pub client_error : Bool
  pub received : List RecvEvent

-- A round of `server_thread` in which `poll` reports something. The client is watched if there was
-- one before a new one is accepted.
unfoldable pub server_round : Session → PollAnswers → Session
unfolding accept_client
server_round s a =
    let s' = if a.listen_in then accept_client s a.accepted a.script else s in
    elim s.client_fd [
      | none ↦ s'
      | some fd ↦
          if a.client_in
          then consume_client_data s' a.received
          else if a.client_error
          then close_client s'
          else s'
    ]

unfoldable pub rtsp_server_stop : Session → Session
rtsp_server_stop s =
    if s.running
    then record (close_client (record s { stop = true })) { listen_fd = none; running = false }
    else s

-- What the threads do to the session, one after the other: each holds the lock for its step.
pub data ServerOp : Type 0 where
  start : RtspServerCfg → StartAnswers → ServerOp
  round : PollAnswers → ServerOp
  publish : List ℕ → ServerOp
  halt : ServerOp

-- The thread runs only between a start and a stop.
unfoldable pub server_step : Session → ServerOp → Session
unfolding rtsp_server_start server_round rtsp_server_stop
server_step s (start cfg a) = (rtsp_server_start s cfg a).0
server_step s (round a) = if s.running then server_round s a else s
server_step s (publish annexb) = (publish_h264 s annexb).0
server_step s halt = rtsp_server_stop s

unfoldable pub server_run : Session → List ServerOp → Session
unfolding server_step
server_run s [] = s
server_run s (op ∷ ops) = server_run (server_step s op) ops

-- `g_rtsp` as it is initialised.
abbrev pub fresh_server : Session
fresh_server = record {
  running = false;
  stop = false;
  listen_fd = none;
  client_fd = none;
  playing = false;
  port = 0;
  fps = 0;
  path = [];
  request = [];
  request_len = 0;
  rtp = record { rtp_seq = 0; rtp_timestamp = 0; rtp_ssrc = 0 };
  request_idr = false;
  sock = [];
  wire = [];
}
