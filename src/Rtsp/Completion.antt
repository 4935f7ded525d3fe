-- ===== src/Rtsp/Completion.antt =====
-- A socket that keeps taking bytes: `send_nonblock_locked` of board/src/rtsp_server.c ends well.
use hispark_soc_china.Prelude.{
  ℕ, zero, suc, ◌+◌, ◌≤◌, ◌≡◌, refl, List, [], ◌∷◌, length, drop, length-drop, arith,
}
use hispark_soc_china.Rtsp.State.{Session, SendEvent, wrote, intr, again, failed, Outcome, done}
use hispark_soc_china.Rtsp.Send.{SendRun, send_loop, settle, send_nonblock}

-- Every outcome is a write of one byte at least.
abbrev pub Accepts : List SendEvent → Type 0
Accepts [] = Unit
Accepts (wrote zero ∷ evs) = ⊥
Accepts (wrote (suc n) ∷ evs) = Accepts evs
Accepts (_ ∷ evs) = ⊥

-- The run is done, with at most one outcome used for each byte.
send_loop-done :
    (evs : List SendEvent) (waits : ℕ) (bs : List ℕ)
    → Accepts evs
    → length bs ≤ length evs
    → let r = send_loop evs waits bs in
      (r.outcome ≡ done) × Accepts r.rest × (length evs ≤ length r.rest + length bs)
unfolding send_loop
send_loop-done [] waits [] h le = (refl, h, omega arith)
send_loop-done (e ∷ evs) waits [] h le = (refl, h, omega arith)
send_loop-done [] waits (b ∷ bs) h le = absurd (omega arith)
send_loop-done (wrote zero ∷ evs) waits (b ∷ bs) h le = absurd h
send_loop-done (wrote (suc n) ∷ evs) waits (b ∷ bs) h le =
    let ih = send_loop-done evs waits (drop n bs) h (omega (arith, length-drop n bs)) in
    (ih.0, ih.1, omega (arith, ih.2, length-drop n bs))
send_loop-done (intr ∷ evs) waits (b ∷ bs) h le = absurd h
send_loop-done (again ready ∷ evs) waits (b ∷ bs) h le = absurd h
send_loop-done (failed ∷ evs) waits (b ∷ bs) h le = absurd h

-- The call is done if the socket accepts and has outcomes for `n` bytes, and then leaves the rest.
pub record Serves (s : Session) (n : ℕ) (r : Session × Outcome) : Type 0 where
  pub ends :
      Accepts s.sock
      → n ≤ length s.sock
      → (r.1 ≡ done) × Accepts r.0.sock × (length s.sock ≤ length r.0.sock + n)

settle-done :
    (s : Session) (r : SendRun)
    → r.outcome ≡ done
    → ((settle s r).1 ≡ done) × ((settle s r).0.sock ≡ r.rest)
unfolding settle
settle-done s r e = ground arith

pub Serves-send_nonblock : (s : Session) (bs : List ℕ) → Serves s (length bs) (send_nonblock s bs)
unfolding send_nonblock
Serves-send_nonblock s bs = record {
  ends = λ a le.
      let d = send_loop-done s.sock 0 bs a le in
      let e = settle-done s (send_loop s.sock 0 bs) d.0 in (e.0, rw e.1 d.1, rw e.1 d.2);
}
