-- ===== src/Rtsp/Steps.antt =====
-- The rounds and the life of the server of board/src/rtsp_server.c keep its session
-- sane.
use hispark_soc_china.Prelude.{
  ℕ, zero, suc, ◌+◌, ◌-◌, ◌*◌, ◌≡◌, refl, ◌∙◌, Bool, true, false, Option, none, some, List, [], ◌∷◌,
  length, length-take, take, drop, leb, ltb, ◌==◌, arith, if◌then◌else◌, if_both,
}
use hispark_soc_china.Prelude.Strings.{bytes_of, c_string, find_text}
use hispark_soc_china.Rtsp.State.{Session, SendEvent, Outcome, done, lost, waiting, close_client}
use hispark_soc_china.Rtsp.Request.{process_request}
use hispark_soc_china.Rtsp.Consume.{
  request_cap, RecvEvent, received, ended, would_block, broken, append_data, Drained, broke,
  returned, stuck, byte_at, size_left, going_on, after_request, drain_loop, compact, consume_round,
  consume_client_data,
}
use hispark_soc_china.Rtsp.Server.{
  RtspServerCfg, StartAnswers, rtsp_server_start, started, not_started, accept_client, PollAnswers,
  server_round, rtsp_server_stop, ServerOp, start, round, publish, halt, server_step, server_run,
  fresh_server,
}
use hispark_soc_china.Rtsp.Sane.{Sane, Sane-close_client, Sane-publish_h264}
use hispark_soc_china.Rtsp.Handling.{Sane-process_request}

abbrev SaneDrain : Session × Drained → Type 0
SaneDrain r = Sane r.0

Sane-going_on :
    (t : Session) (o : Option ℕ) (more : Session × Drained)
    → Sane t
    → ((fd : ℕ) → o ≡ some fd → SaneDrain more)
    → SaneDrain (going_on t o more)
unfolding going_on
Sane-going_on t none more v m = v
Sane-going_on t (some fd) more v m = m fd refl

Sane-after_request :
    (r : Session × Outcome × Bool) (more : Session × Drained)
    → Sane r.0
    → ((fd : ℕ) → r.0.client_fd ≡ some fd → SaneDrain more)
    → SaneDrain (after_request r more)
unfolding after_request
Sane-after_request (t, waiting, idr) more v m = v
Sane-after_request (t, done, idr) more v m = Sane-going_on t t.client_fd more v m
Sane-after_request (t, lost, idr) more v m = Sane-going_on t t.client_fd more v m

Sane-drain_loop :
    (fuel : ℕ) (s : Session) (consumed fd : ℕ)
    → s.client_fd ≡ some fd
    → Sane s
    → SaneDrain (drain_loop fuel s consumed)
unfolding drain_loop
Sane-drain_loop zero s consumed fd e v = v
Sane-drain_loop (suc fuel) s consumed fd e v =
    let here = drop consumed s.request in
    let frame = byte_at (drop 2 here) * 256 + byte_at (drop 3 here) + 4 in
    let skipped = Sane-drain_loop fuel s (consumed + frame) fd e v in
    if_both (ltb (size_left s consumed) 4) SaneDrain (λ few. v)
      (λ many.
        if_both (byte_at here == b'$') SaneDrain
          (λ dollar.
            if_both (ltb (size_left s consumed) frame) SaneDrain (λ short. v) (λ full. skipped))
          (λ text.
            elim (find_text (c_string here) (bytes_of "\r\n\r\n"))
              as (λ o. SaneDrain (elim o [
                | none ↦ (s, broke consumed)
                | some k ↦
                    let answered = process_request s (c_string (take (k + 4) here)) in
                    let more = drain_loop fuel answered.0 (consumed + (k + 4)) in
                    if leb request_cap (k + 4)
                    then (close_client s, returned)
                    else after_request answered more
              ])) [
                | none ↦ v
                | some k ↦
                    let answered = Sane-process_request s fd (c_string (take (k + 4) here)) e v in
                    if_both (leb request_cap (k + 4)) SaneDrain (λ long. Sane-close_client s v)
                      (λ fits.
                        Sane-after_request _ _ answered
                          (λ fd' e'. Sane-drain_loop fuel _ (consumed + (k + 4)) fd' e' answered))
              ]))

Sane-compact : (s : Session) (consumed : ℕ) → Sane s → Sane (compact s consumed)
unfolding compact close_client
Sane-compact s consumed v = ground arith

Sane-append_data :
    (s : Session) (bytes : List ℕ)
    → Sane s
    → Sane (append_data s (take (request_cap - s.request_len) bytes))
unfolding append_data
Sane-append_data s bytes v = ground (arith, length-take (request_cap - s.request_len) bytes)

append_data-client : (s : Session) (bytes : List ℕ) → (append_data s bytes).client_fd ≡ s.client_fd
unfolding append_data
append_data-client s bytes = refl

Sane-accept_client :
    (s : Session) (o : Option (ℕ × Bool)) (script : List SendEvent)
    → Sane s
    → Sane (accept_client s o script)
unfolding accept_client close_client
Sane-accept_client s none script v = v
Sane-accept_client s (some (fd, ok)) script v = ground arith

Sane-rtsp_server_stop : (s : Session) → Sane s → Sane (rtsp_server_stop s)
unfolding rtsp_server_stop close_client
Sane-rtsp_server_stop s v = ground arith

Sane-rtsp_server_start :
    (s : Session) (cfg : RtspServerCfg) (a : StartAnswers)
    → Sane s
    → Sane (rtsp_server_start s cfg a).0
unfolding rtsp_server_start started not_started
Sane-rtsp_server_start s cfg a v = ground arith

-- The end of a round after which another follows or not.
abbrev SaneRound : Session × Bool → Type 0
SaneRound r = Sane r.0

Sane-drained :
    (r : Session × Drained) (again : Bool)
    → SaneDrain r
    → SaneRound (elim r.1 [ broke consumed ↦ (compact r.0 consumed, again) | e ↦ (r.0, false) ])
Sane-drained (t, broke consumed) again v = Sane-compact t consumed v
Sane-drained (t, returned) again v = v
Sane-drained (t, stuck) again v = v

Sane-consume_round :
    (s : Session) (r : RecvEvent) (fd : ℕ)
    → s.client_fd ≡ some fd
    → Sane s
    → SaneRound (consume_round s r)
unfolding consume_round
Sane-consume_round s ended fd e v = Sane-close_client s v
Sane-consume_round s broken fd e v = Sane-close_client s v
Sane-consume_round s would_block fd e v =
    Sane-drained (drain_loop (suc (length s.request)) s 0) false
      (Sane-drain_loop (suc (length s.request)) s 0 fd e v)
Sane-consume_round s (received bytes) fd e v =
    let fitting = take (request_cap - s.request_len) bytes in
    let s' = append_data s fitting in
    Sane-drained (drain_loop (suc (length s'.request)) s' 0) true (
      Sane-drain_loop (suc (length s'.request)) s' 0 fd (append_data-client s fitting ∙ e)
        (Sane-append_data s bytes v))

Sane-consume_client_data :
    (s : Session) (rs : List RecvEvent) → Sane s → Sane (consume_client_data s rs)
unfolding consume_client_data
Sane-consume_client_data s [] v = v
Sane-consume_client_data s (r ∷ rs) v =
    if_both (s.request_len == request_cap) Sane (λ full. v)
      (λ space. go (Sane-consume_client_data (consume_round s r).0 rs) s.client_fd refl)
  where
    go :
        (more : Sane (consume_round s r).0 → Sane (consume_client_data (consume_round s r).0 rs))
        (o : Option ℕ)
        → s.client_fd ≡ o
        → Sane (elim o [
          | none ↦ s
          | some fd ↦
              if (consume_round s r).1
              then consume_client_data (consume_round s r).0 rs
              else (consume_round s r).0
        ])
    go more none e = v
    go more (some fd) e =
        let u = Sane-consume_round s r fd e v in
        if_both (consume_round s r).1 Sane (λ another. more u) (λ last. u)

Sane-server_round : (s : Session) (a : PollAnswers) → Sane s → Sane (server_round s a)
unfolding server_round
Sane-server_round s a v =
    let s' = if a.listen_in then accept_client s a.accepted a.script else s in
    let u : Sane s' =
      if_both a.listen_in Sane (λ on. Sane-accept_client s a.accepted a.script v) (λ off. v) in
    elim s.client_fd
      as (λ o. Sane (elim o [
        | none ↦ s'
        | some fd ↦
            if a.client_in
            then consume_client_data s' a.received
            else if a.client_error
            then close_client s'
            else s'
      ])) [
        | none ↦ u
        | some fd ↦
            if_both a.client_in Sane (λ on. Sane-consume_client_data s' a.received u)
              (λ off. if_both a.client_error Sane (λ bad. Sane-close_client s' u) (λ fine. u))
      ]

Sane-server_step : (s : Session) (op : ServerOp) → Sane s → Sane (server_step s op)
unfolding server_step
Sane-server_step s (start cfg a) v = Sane-rtsp_server_start s cfg a v
Sane-server_step s (round a) v = if_both s.running Sane (λ up. Sane-server_round s a v) (λ down. v)
Sane-server_step s (publish bytes) v = Sane-publish_h264 s bytes v
Sane-server_step s halt v = Sane-rtsp_server_stop s v

Sane-server_run : (s : Session) (ops : List ServerOp) → Sane s → Sane (server_run s ops)
unfolding server_run
Sane-server_run s [] v = v
Sane-server_run s (op ∷ ops) v = Sane-server_run (server_step s op) ops (Sane-server_step s op v)

-- From its initialisation on, whatever starts, stops, rounds of its thread and access units follow
-- each other, and whatever the client and the system answer: a session that plays has a client, the
-- bytes that count of a request fit the array, and the sequence number and the timestamp are words
-- of 16 and 32 bits.
pub server_run-Sane : (ops : List ServerOp) → Sane (server_run fresh_server ops)
server_run-Sane ops = Sane-server_run fresh_server ops (ground arith)
