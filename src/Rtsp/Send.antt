-- ===== src/Rtsp/Send.antt =====
-- `send_nonblock_locked` of board/src/rtsp_server.c.
use hispark_soc_china.Prelude.{
  ℕ, zero, suc, ◌+◌, List, [], ◌∷◌, ◌++◌, take, drop, ltb, ◌&&◌, if◌then◌else◌,
}
use hispark_soc_china.Rtsp.State.{
  Session, SendEvent, wrote, intr, again, failed, Outcome, done, lost, waiting, close_client,
}

-- What a run of the loop leaves: the socket outcomes not used, the bytes written, how it ended.
pub record SendRun : Type 0 where
  pub rest : List SendEvent
  pub bytes : List ℕ
  pub outcome : Outcome

-- The `while (sent < len)` loop; the list is what is still to be sent.
unfoldable pub send_loop : List SendEvent → ℕ → List ℕ → SendRun
send_loop evs waits [] = record { rest = evs; bytes = []; outcome = done }
send_loop [] waits (b ∷ bs) = record { rest = []; bytes = []; outcome = waiting }
send_loop (wrote zero ∷ evs) waits (b ∷ bs) = record { rest = evs; bytes = []; outcome = lost }
send_loop (wrote (suc n) ∷ evs) waits (b ∷ bs) =
    let r = send_loop evs waits (drop n bs) in
    record { rest = r.rest; bytes = b ∷ (take n bs ++ r.bytes); outcome = r.outcome }
send_loop (intr ∷ evs) waits (b ∷ bs) = send_loop evs waits (b ∷ bs)
send_loop (again ready ∷ evs) waits (b ∷ bs) =
    let retry = send_loop evs (waits + 1) (b ∷ bs) in
    if ltb waits 4 && ready then retry else record { rest = evs; bytes = []; outcome = lost }
send_loop (failed ∷ evs) waits (b ∷ bs) = record { rest = evs; bytes = []; outcome = lost }

-- The session after the loop: a send that is lost closes the client.
unfoldable pub settle : Session → SendRun → Session × Outcome
settle s r =
    let s' : Session = record s { sock = r.rest; wire = s.wire ++ r.bytes } in
    elim r.outcome [ lost ↦ (close_client s', lost) | o ↦ (s', o) ]

unfoldable pub send_nonblock : Session → List ℕ → Session × Outcome
unfolding send_loop settle
send_nonblock s data' = settle s (send_loop s.sock 0 data')
