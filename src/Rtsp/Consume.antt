-- ===== src/Rtsp/Consume.antt =====
-- What the server thread reads of a client: `consume_client_data` of board/src/rtsp_server.c.
use hispark_soc_china.Prelude.{
  ℕ, zero, suc, ◌+◌, ◌-◌, ◌*◌, ◌%◌, ◌^◌, Bool, true, false, ◌&&◌, Option, none, some, List, [], ◌∷◌,
  ◌++◌, length, take, drop, leb, ltb, ◌==◌, if◌then◌else◌,
}
use hispark_soc_china.Prelude.Strings.{bytes_of, c_string, find_text}
use hispark_soc_china.Rtsp.State.{Session, Outcome, done, lost, waiting, close_client}
use hispark_soc_china.Rtsp.Request.{process_request}

-- RTSP_REQUEST_CAP
abbrev pub request_cap : ℕ
request_cap = 8192

-- What one `recv` answers: bytes (one at least), the end of the stream, nothing yet (or EINTR), or an
-- error. It takes at most as many bytes as it is given room for. No other thread is let in between.
pub data RecvEvent : Type 0 where
  received : List ℕ → RecvEvent
  ended : RecvEvent
  would_block : RecvEvent
  broken : RecvEvent

-- A byte of the array; one that was never written is 0.
abbrev pub byte_at : List ℕ → ℕ
byte_at [] = 0
byte_at (b ∷ bs) = b

-- `request_len - consumed`, a size_t.
abbrev pub size_left : Session → ℕ → ℕ
size_left s consumed = (s.request_len + (2 ^ 64 - consumed)) % 2 ^ 64

-- The bytes of a `recv`, and the terminator behind them.
unfoldable pub append_data : Session → List ℕ → Session
append_data s bytes =
    let n = s.request_len + length bytes in
    record s {
      request = take s.request_len s.request ++ (bytes ++ (0 ∷ drop (n + 1) s.request));
      request_len = n;
    }

-- How the inner loop ends: with so many bytes consumed, by returning from the function, or in a
-- write that waits.
pub data Drained : Type 0 where
  broke : ℕ → Drained
  returned : Drained
  stuck : Drained

-- `if (g_rtsp.client_fd < 0) return`
unfoldable pub going_on : Session → Option ℕ → Session × Drained → Session × Drained
going_on t none more = (t, returned)
going_on t (some fd) more = more

unfoldable pub after_request : Session × Outcome × Bool → Session × Drained → Session × Drained
unfolding going_on
after_request (t, waiting, idr) more = (t, stuck)
after_request (t, done, idr) more = going_on t t.client_fd more
after_request (t, lost, idr) more = going_on t t.client_fd more

-- The `while (request_len - consumed >= 4)` loop. Each round consumes four bytes at least, and beyond
-- the array there is nothing to consume.
unfoldable pub drain_loop : ℕ → Session → ℕ → Session × Drained
unfolding after_request
drain_loop zero s consumed = (s, broke consumed)
drain_loop (suc fuel) s consumed =
    let here = drop consumed s.request in
    let frame = byte_at (drop 2 here) * 256 + byte_at (drop 3 here) + 4 in
    let skipped = drain_loop fuel s (consumed + frame) in
    if ltb (size_left s consumed) 4
    then (s, broke consumed)
    else if byte_at here == b'$'
    then if ltb (size_left s consumed) frame then (s, broke consumed) else skipped
    else elim (find_text (c_string here) (bytes_of "\r\n\r\n")) [
      | none ↦ (s, broke consumed)
      | some k ↦
          let answered = process_request s (c_string (take (k + 4) here)) in
          let more = drain_loop fuel answered.0 (consumed + (k + 4)) in
          if leb request_cap (k + 4)
          then (close_client s, returned)
          else after_request answered more
    ]

-- The memmove, if there is something to move, and the test for a full array.
unfoldable pub compact : Session → ℕ → Session
compact s consumed =
    let moved = record s {
      request =
          drop consumed (take s.request_len s.request) ++ drop (s.request_len - consumed) s.request;
      request_len = s.request_len - consumed;
    } in
    let kept = if ltb 0 consumed && leb consumed s.request_len then moved else s in
    if kept.request_len == request_cap then close_client kept else kept

-- One round of the `for (;;)` loop with what `recv` answers in it; `true` if another follows.
unfoldable pub consume_round : Session → RecvEvent → Session × Bool
unfolding drain_loop compact append_data
consume_round s ended = (close_client s, false)
consume_round s broken = (close_client s, false)
consume_round s would_block =
    let (t, d) = drain_loop (suc (length s.request)) s 0 in
    elim d [ broke consumed ↦ (compact t consumed, false) | e ↦ (t, false) ]
consume_round s (received bytes) =
    let s' = append_data s (take (request_cap - s.request_len) bytes) in
    let (t, d) = drain_loop (suc (length s'.request)) s' 0 in
    elim d [ broke consumed ↦ (compact t consumed, true) | e ↦ (t, false) ]

-- The loop, over the answers of `recv`.
unfoldable pub consume_client_data : Session → List RecvEvent → Session
unfolding consume_round
consume_client_data s [] = s
consume_client_data s (r ∷ rs) =
    let round = consume_round s r in
    let more = consume_client_data round.0 rs in
    let going : Session = if round.1 then more else round.0 in
    if s.request_len == request_cap then s else elim s.client_fd [ none ↦ s | some fd ↦ going ]
