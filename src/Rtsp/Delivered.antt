-- ===== src/Rtsp/Delivered.antt =====
-- `rtsp_server_publish_h264` of board/src/rtsp_server.c from end to end: what is on the connection of
-- a client that plays.
use hispark_soc_china.Prelude.{
  ℕ, ◌+◌, ◌%◌, ◌/◌, ◌^◌, ◌≤◌, ◌<◌, ◌≡◌, refl, ap, ap₂, ◌∙◌, sym, Bool, true, none, some, List, [],
  ◌∷◌, ◌++◌, length, append-nil, arith, ◌⊎◌, inl, inr,
}
use hispark_soc_china.Rtsp.State.{Session, Stamp, Outcome, done, lost, waiting}
use hispark_soc_china.Rtsp.Packet.{next_seq}
use hispark_soc_china.Rtsp.Annexb.{publish_h264, Published, accepted, advance_timestamp, finish}
use hispark_soc_china.Rtsp.Completion.{Accepts}
use hispark_soc_china.Rtsp.Framing.{InRange}
use hispark_soc_china.Rtsp.Packets.{encode, stamp_after}
use hispark_soc_china.Rtsp.StartCode.{annexb}
use hispark_soc_china.Rtsp.Sending.{Sends, ClientAfter}
use hispark_soc_china.Rtsp.Publish.{IsNalu, AllNalus, units, unit_packets}
use hispark_soc_china.Rtsp.Received.{
  Carries, Carries-encode, length-read-Carries-encode, walk, Sends-walk, publish_h264-walk,
  finish_done,
}

stamp_after-fields :
    (s : Stamp) (qs : List (List ℕ × Bool))
    → s.rtp_seq < 2 ^ 16
    → ((stamp_after s qs).rtp_seq ≡ (s.rtp_seq + length qs) % 2 ^ 16)
      × ((stamp_after s qs).rtp_timestamp ≡ s.rtp_timestamp)
      × ((stamp_after s qs).rtp_ssrc ≡ s.rtp_ssrc)
unfolding next_seq
stamp_after-fields s [] h = (omega arith, refl, refl)
stamp_after-fields s (q ∷ qs) h =
    let ih = stamp_after-fields (next_seq s) qs (omega arith) in (omega (arith, ih.0), ih.1, ih.2)

-- What was added to the connection between two states carries the units, and the stamp has moved on
-- by the number of packets and one frame's time.
pub record Delivers (s t : Session) (us : List (List ℕ)) : Type 0 where
  pub bytes : List ℕ
  pub wire : t.wire ≡ s.wire ++ bytes
  pub carries : Carries s.rtp us bytes
  pub seq : t.rtp_seq ≡ (s.rtp_seq + length carries.read) % 2 ^ 16
  pub timestamp : t.rtp_timestamp ≡ (s.rtp_timestamp + 90000 / s.fps) % 2 ^ 32
  pub ssrc : t.rtp_ssrc ≡ s.rtp_ssrc

Delivers-Sends :
    (s t : Session) (u : List ℕ) (us : List (Bool × List ℕ))
    → InRange s.rtp
    → IsNalu u
    → AllNalus us
    → Sends s (unit_packets u us) (t, done)
    → Delivers s (advance_timestamp t) (u ∷ units us)
unfolding advance_timestamp
Delivers-Sends s t u us r v vs a =
    let qs = unit_packets u us in
    let f = stamp_after-fields s.rtp qs r.seq in
    let e = ap (λ (x : Stamp). x.rtp_seq) (a.whole refl).1 in
    record {
      bytes = encode s.rtp qs;
      wire =
          a.wire
          ∙ ap (λ x. s.wire ++ x)
              (sym (append-nil a.bytes) ∙ ap (λ x. a.bytes ++ x) (sym (a.whole refl).0) ∙ a.split);
      carries = Carries-encode s.rtp u us r v vs;
      seq =
          e
          ∙ f.0
          ∙ ap (λ n. (s.rtp_seq + n) % 2 ^ 16) (sym (length-read-Carries-encode s.rtp u us r v vs));
      timestamp =
          ap₂ (λ (x y : ℕ). (x + 90000 / y) % 2 ^ 32)
            (ap (λ (x : Stamp). x.rtp_timestamp) (a.whole refl).1 ∙ f.1) a.fps;
      ssrc = ap (λ (x : Stamp). x.rtp_ssrc) (a.whole refl).1 ∙ f.2;
    }

finish_keeps :
    (r : Session × Outcome)
    → ((finish r).0.wire ≡ r.0.wire) × ((finish r).0.client_fd ≡ r.0.client_fd)
unfolding finish advance_timestamp
finish_keeps (t, done) = (refl, refl)
finish_keeps (t, lost) = (refl, refl)
finish_keeps (t, waiting) = (refl, refl)

client_of_finish :
    (s : Session) (fd : ℕ) (r : Session × Outcome)
    → s.client_fd ≡ some fd
    → ClientAfter s r
    → ((finish r).0.client_fd ≡ none) ⊎ ((finish r).0.client_fd ≡ some fd)
client_of_finish s fd (t, lost) con c = inl ((finish_keeps (t, lost)).1 ∙ c.0)
client_of_finish s fd (t, done) con c = inr ((finish_keeps (t, done)).1 ∙ c.0 ∙ con)
client_of_finish s fd (t, waiting) con c = inr ((finish_keeps (t, waiting)).1 ∙ c.0 ∙ con)

done_publishes :
    (s : Session) (fd : ℕ) (w : Session × Outcome) (u : List ℕ) (us : List (Bool × List ℕ))
    → InRange s.rtp
    → IsNalu u
    → AllNalus us
    → s.client_fd ≡ some fd
    → Sends s (unit_packets u us) w
    → w.1 ≡ done
    → let (t, status) = finish w in
      (status ≡ accepted) × (t.client_fd ≡ some fd) × Delivers s t (u ∷ units us)
unfolding finish
done_publishes s fd (t, done) u us r v vs con w e =
    (refl, (finish_keeps (t, done)).1 ∙ w.client.0 ∙ con, Delivers-Sends s t u us r v vs w)
done_publishes s fd (t, lost) u us r v vs con w e = cc
done_publishes s fd (t, waiting) u us r v vs con w e = cc

-- If a client plays, and is still connected when `rtsp_server_publish_h264` has returned, then what
-- was added to its connection carries exactly the units of the access unit, in order, in packets
-- that are numbered from the session's stamp, the last one marked; the session's number has moved
-- on by the number of packets, and its time by one frame.
pub publish_h264-Delivers :
    (s : Session) (fd : ℕ) (four : Bool) (u : List ℕ) (us : List (Bool × List ℕ))
    → InRange s.rtp
    → IsNalu u
    → AllNalus us
    → s.running ≡ true
    → s.client_fd ≡ some fd
    → s.playing ≡ true
    → (publish_h264 s (annexb ((four, u) ∷ us))).1 ≡ accepted
    → (publish_h264 s (annexb ((four, u) ∷ us))).0.client_fd ≡ some fd
    → Delivers s (publish_h264 s (annexb ((four, u) ∷ us))).0 (u ∷ units us)
publish_h264-Delivers s fd four u us r v vs run con play acc still =
    let e = publish_h264-walk s fd four u us run con play in
    let w = Sends-walk s four u us v vs in
    let d =
      finish_done s fd (walk s u us four) w.client
        (sym (ap (λ (x : Session × Published). x.1) e) ∙ acc)
        (sym (ap (λ (x : Session × Published). x.0.client_fd) e) ∙ still) in
    rw (e, d.1) (Delivers-Sends s (walk s u us four).0 u us r v vs (rw d.0 at w))

-- A client that plays, on a socket that takes at least a byte at each send and has an outcome for
-- each byte: the access unit is accepted, the client stays, and its connection carries the units.
pub publish_h264_total :
    (s : Session) (fd : ℕ) (four : Bool) (u : List ℕ) (us : List (Bool × List ℕ))
    → InRange s.rtp
    → IsNalu u
    → AllNalus us
    → s.running ≡ true
    → s.client_fd ≡ some fd
    → s.playing ≡ true
    → Accepts s.sock
    → length (encode s.rtp (unit_packets u us)) ≤ length s.sock
    → let (t, status) = publish_h264 s (annexb ((four, u) ∷ us)) in
      (status ≡ accepted) × (t.client_fd ≡ some fd) × Delivers s t (u ∷ units us)
publish_h264_total s fd four u us r v vs run con play acc le =
    let w = Sends-walk s four u us v vs in
    let d = (w.serves.ends acc le).0 in
    rw (publish_h264-walk s fd four u us run con play)
      (done_publishes s fd (walk s u us four) u us r v vs con w d)

-- Whatever the socket answers, what is added to the connection is a front part of bytes that carry
-- the units of the access unit, and the client is closed or is the one that was connected.
pub publish_h264_front :
    (s : Session) (fd : ℕ) (four : Bool) (u : List ℕ) (us : List (Bool × List ℕ))
    → InRange s.rtp
    → IsNalu u
    → AllNalus us
    → s.running ≡ true
    → s.client_fd ≡ some fd
    → s.playing ≡ true
    → let t = (publish_h264 s (annexb ((four, u) ∷ us))).0 in
      (bytes : List ℕ) × (tail : List ℕ) × (t.wire ≡ s.wire ++ bytes)
      × Carries s.rtp (u ∷ units us) (bytes ++ tail)
      × ((t.client_fd ≡ none) ⊎ (t.client_fd ≡ some fd))
publish_h264_front s fd four u us r v vs run con play =
    let w = Sends-walk s four u us v vs in
    rw (publish_h264-walk s fd four u us run con play) (
      w.bytes,
      w.tail,
      (finish_keeps (walk s u us four)).0 ∙ w.wire,
      rw w.split (Carries-encode s.rtp u us r v vs),
      client_of_finish s fd (walk s u us four) con w.client,
    )
