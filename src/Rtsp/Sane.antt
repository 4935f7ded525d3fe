-- ===== src/Rtsp/Sane.antt =====
-- What every step of the server of board/src/rtsp_server.c keeps true of its session.
use hispark_soc_china.Prelude.{
  ℕ, zero, suc, ◌+◌, ◌^◌, ◌≤◌, ◌<◌, ◌≡◌, Bool, true, false, none, some, List, [], ◌∷◌, length, take,
  drop, leb, arith, if◌then◌else◌, if_both,
}
use hispark_soc_china.Rtsp.State.{Session, Outcome, done, lost, waiting, close_client, and_then}
use hispark_soc_china.Rtsp.Send.{SendRun, send_loop, settle, send_nonblock}
use hispark_soc_china.Rtsp.Packet.{
  payload_max, next_seq, send_rtp_packet, fu_loop, send_nalu, packet_bytes,
}
use hispark_soc_china.Rtsp.Annexb.{
  Published, accepted, find_start_code, strip_zeros, send_unit, nalu_loop, send_access_unit,
  advance_timestamp, finish, publish_h264,
}
use hispark_soc_china.Rtsp.Consume.{request_cap}

-- Only a client plays; the request fits its array; the counters are words of their widths.
pub record Sane (s : Session) : Type 0 where
  pub linked : (elim s.client_fd [ none ↦ s.playing | some fd ↦ false ]) ≡ false
  pub room : s.request_len ≤ request_cap
  pub seq : s.rtp_seq < 2 ^ 16
  pub timestamp : s.rtp_timestamp < 2 ^ 32

abbrev pub SaneEnd : Session × Outcome → Type 0
SaneEnd r = Sane r.0

abbrev SaneAnswer : Session × Published → Type 0
SaneAnswer r = Sane r.0

pub Sane-close_client : (s : Session) → Sane s → Sane (close_client s)
unfolding close_client
Sane-close_client s v = ground arith

Sane-settle : (s : Session) (r : SendRun) → Sane s → Sane (settle s r).0
unfolding settle close_client
Sane-settle s r v = ground arith

pub Sane-send_nonblock : (s : Session) (bytes : List ℕ) → Sane s → Sane (send_nonblock s bytes).0
unfolding send_nonblock
Sane-send_nonblock s bytes v = Sane-settle s (send_loop s.sock 0 bytes) v

Sane-send_rtp_packet :
    (s : Session) (payload : List ℕ) (marker : Bool)
    → Sane s
    → Sane (send_rtp_packet s payload marker).0
unfolding send_rtp_packet next_seq
Sane-send_rtp_packet s payload marker v =
    Sane-send_nonblock (record s { rtp = next_seq s.rtp }) (packet_bytes s.rtp payload marker)
      (ground arith)

Sane-and_then : (p q : Session × Outcome) → Sane p.0 → Sane q.0 → Sane (and_then p q).0
Sane-and_then (t, done) q u v = v
Sane-and_then (t, lost) q u v = u
Sane-and_then (t, waiting) q u v = u

Sane-fu_loop :
    (fuel : ℕ) (s : Session) (h : ℕ) (first : Bool) (rest : List ℕ) (last : Bool)
    → Sane s
    → Sane (fu_loop fuel s h first rest last).0
unfolding fu_loop
Sane-fu_loop zero s h first rest last v = v
Sane-fu_loop (suc fuel) s h first [] last v = v
Sane-fu_loop (suc fuel) s h first (b ∷ bs) last v =
    let sent = Sane-send_rtp_packet s _ _ v in
    Sane-and_then _ _ sent (Sane-fu_loop fuel _ h false _ last sent)

Sane-send_nalu : (s : Session) (u : List ℕ) (last : Bool) → Sane s → Sane (send_nalu s u last).0
unfolding send_nalu
Sane-send_nalu s [] last v = Sane-send_rtp_packet s [] last v
Sane-send_nalu s (h ∷ rest) last v =
    if_both (leb (length (h ∷ rest)) payload_max) SaneEnd
      (λ short. Sane-send_rtp_packet s (h ∷ rest) last v)
      (λ long. Sane-fu_loop (length rest) s h true rest last v)

Sane-send_unit : (s : Session) (u : List ℕ) (last : Bool) → Sane s → Sane (send_unit s u last).0
unfolding send_unit
Sane-send_unit s [] last v = v
Sane-send_unit s (x ∷ xs) last v = Sane-send_nalu s (x ∷ xs) last v

Sane-nalu_loop : (fuel : ℕ) (s : Session) (nalu : List ℕ) → Sane s → Sane (nalu_loop fuel s nalu).0
unfolding nalu_loop
Sane-nalu_loop zero s nalu v = v
Sane-nalu_loop (suc fuel) s nalu v =
    elim (find_start_code nalu)
      as (λ o. SaneEnd (elim o [
        | none ↦ send_unit s (strip_zeros nalu) true
        | some (k, n) ↦
            let sent = send_unit s (strip_zeros (take k nalu)) false in
            let more = nalu_loop fuel sent.0 (drop (k + n) nalu) in and_then sent more
      ])) [
        | none ↦ Sane-send_unit s _ true v
        | some (k, n) ↦
            let sent = Sane-send_unit s (strip_zeros (take k nalu)) false v in
            Sane-and_then _ _ sent (Sane-nalu_loop fuel _ (drop (k + n) nalu) sent)
      ]

Sane-send_access_unit : (s : Session) (bytes : List ℕ) → Sane s → Sane (send_access_unit s bytes).0
unfolding send_access_unit
Sane-send_access_unit s bytes v =
    elim (find_start_code bytes)
      as (λ o. SaneEnd (elim o [
        | none ↦ send_nalu s bytes true
        | some (k, n) ↦ nalu_loop (length bytes) s (drop (k + n) bytes)
      ])) [
        | none ↦ Sane-send_nalu s bytes true v
        | some (k, n) ↦ Sane-nalu_loop (length bytes) s (drop (k + n) bytes) v
      ]

Sane-finish : (r : Session × Outcome) → Sane r.0 → Sane (finish r).0
unfolding finish advance_timestamp
Sane-finish (t, done) v = ground arith
Sane-finish (t, lost) v = ground arith
Sane-finish (t, waiting) v = v

pub Sane-publish_h264 : (s : Session) (bytes : List ℕ) → Sane s → Sane (publish_h264 s bytes).0
unfolding publish_h264
Sane-publish_h264 s [] v = v
Sane-publish_h264 s (x ∷ xs) v =
    let sent = finish (send_access_unit s (x ∷ xs)) in
    let good = Sane-finish (send_access_unit s (x ∷ xs)) (Sane-send_access_unit s (x ∷ xs) v) in
    if_both s.running SaneAnswer
      (λ up.
        elim s.client_fd
          as (λ o. SaneAnswer (elim o [
            | none ↦ (s, accepted)
            | some fd ↦ if s.playing then sent else (s, accepted)
          ])) [ none ↦ v | some fd ↦ if_both s.playing SaneAnswer (λ on. good) (λ off. v) ])
      (λ down. v)
