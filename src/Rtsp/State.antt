-- ===== src/Rtsp/State.antt =====
-- The state `g_rtsp` of board/src/rtsp_server.c, and the socket that it writes to.
use hispark_soc_china.Prelude.{ℕ, Bool, false, List, Option, none}

-- The outcome of one `send` in `send_nonblock_locked`: the number of bytes that it took, EINTR,
-- EAGAIN with the answer of the `poll` that follows it, or any other error.
pub data SendEvent : Type 0 where
  wrote : ℕ → SendEvent
  intr : SendEvent
  again : Bool → SendEvent
  failed : SendEvent

-- How a call that writes to the client ends. `waiting` is a call that has not returned, because
-- the script of socket outcomes ends there.
pub data Outcome : Type 0 where
  done lost waiting : Outcome

-- The fields `rtp_seq`, `rtp_timestamp` and `rtp_ssrc`, which every packet carries.
pub record Stamp : Type 0 where
  pub rtp_seq : ℕ
  pub rtp_timestamp : ℕ
  pub rtp_ssrc : ℕ

-- A descriptor that is negative in the source is `none`. `sock` is what the socket will answer, and
-- `wire` what has been written to the client that is connected. `request` is the array, as far as it
-- was ever written, and `request_len` says how much of it counts.
pub record Session : Type 0 where
  pub running : Bool
  pub stop : Bool
  pub listen_fd : Option ℕ
  pub client_fd : Option ℕ
  pub playing : Bool
  pub port : ℕ
  pub fps : ℕ
  pub path : List ℕ
  pub request : List ℕ
  pub request_len : ℕ
  pub rtp : Stamp
  pub open rtp use *
  pub request_idr : Bool
  pub sock : List SendEvent
  pub wire : List ℕ

-- `close_client_locked`
unfoldable pub close_client : Session → Session
close_client s = record s { client_fd = none; playing = false; request_len = 0 }

-- Going on with `q` after a call that is done, and returning at once after any other.
abbrev pub and_then : Session × Outcome → Session × Outcome → Session × Outcome
and_then (t, done) q = q
and_then (t, o) q = (t, o)
