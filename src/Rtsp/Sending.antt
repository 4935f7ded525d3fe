-- ===== src/Rtsp/Sending.antt =====
-- Sending a unit as packets: `send_rtp_packet_locked`, `send_nalu_locked` of
-- board/src/rtsp_server.c, whatever the socket answers.
use hispark_soc_china.Prelude.{
  ℕ, zero, suc, ◌+◌, ◌-◌, ◌≤◌, ◌≡◌, ◌≢◌, refl, ap, ◌∙◌, sym, Bool, true, false, none, List, [], ◌∷◌,
  ◌++◌, length, drop, take_all, drop_all, length-append, append_assoc, append-nil, arith, leb, ltb,
  ◌==◌, Bool-cases, ◌⊎◌, inl, inr,
}
use hispark_soc_china.Rtsp.State.{Session, Stamp, Outcome, done, lost, waiting, and_then}
use hispark_soc_china.Rtsp.Packet.{
  send_rtp_packet, packet_bytes, next_seq, fu_loop, fu_payload, chunk_of, send_nalu, payload_max,
}
use hispark_soc_china.Rtsp.Delivery.{Wrote, send_nonblock-Wrote}
use hispark_soc_china.Rtsp.Completion.{Serves, Serves-send_nonblock}
use hispark_soc_china.Rtsp.Packets.{encode, encode-append, stamp_after, stamp_after-append}
use hispark_soc_china.Rtsp.Fragments.{fu_packets, nalu_packets}

-- The client is closed by a call that lost it, and is as before after any other.
abbrev pub ClientAfter : Session → Session × Outcome → Type 0
ClientAfter s (t, lost) = (t.client_fd ≡ none) × (t.playing ≡ false)
ClientAfter s (t, _) = (t.client_fd ≡ s.client_fd) × (t.playing ≡ s.playing)

length-encode-append :
    (s : Stamp) (ps qs : List (List ℕ × Bool))
    → length (encode s (ps ++ qs)) ≡ length (encode s ps) + length (encode (stamp_after s ps) qs)
length-encode-append s ps qs =
    ap (λ (t : List ℕ). length t) (encode-append s ps qs) ∙ length-append (encode s ps) _

length-encode-le :
    (s : Stamp) (ps qs : List (List ℕ × Bool)) {n : ℕ}
    → length (encode s (ps ++ qs)) ≤ n
    → length (encode s ps) ≤ n
length-encode-le s ps qs le = omega (arith, length-encode-append s ps qs)

-- What a call that sends packets leaves: a front part of their bytes on the wire; all of them, and
-- the stamp behind them, if it is done.
pub record Sends (s : Session) (ps : List (List ℕ × Bool)) (r : Session × Outcome) : Type 0 where
  pub bytes : List ℕ
  pub tail : List ℕ
  pub split : bytes ++ tail ≡ encode s.rtp ps
  pub wire : r.0.wire ≡ s.wire ++ bytes
  pub whole : r.1 ≡ done → (tail ≡ []) × (r.0.rtp ≡ stamp_after s.rtp ps)
  pub client : ClientAfter s r
  pub fps : r.0.fps ≡ s.fps
  pub serves : Serves s (length (encode s.rtp ps)) r

pub Sends-nil : (s : Session) → Sends s [] (s, done)
Sends-nil s = record {
  bytes = [];
  tail = [];
  split = refl;
  wire = sym (append-nil s.wire);
  whole = λ e. (refl, refl);
  client = (refl, refl);
  fps = refl;
  serves = record { ends = λ a le. (refl, a, omega arith) };
}

client_of_Wrote :
    (s : Session) (given : List ℕ) (r : Session × Outcome) → Wrote s given r → ClientAfter s r
client_of_Wrote s given (t, lost) w = ((w.closed refl).0, (w.closed refl).1)
client_of_Wrote s given (t, done) w = ground (arith, w.open_still)
client_of_Wrote s given (t, waiting) w = ground (arith, w.open_still)

pub Sends-packet :
    (s : Session) (p : List ℕ) (m : Bool) → Sends s ((p, m) ∷ []) (send_rtp_packet s p m)
unfolding send_rtp_packet
Sends-packet s p m =
    let s' : Session = record s { rtp = next_seq s.rtp } in
    let w = send_nonblock-Wrote s' (packet_bytes s.rtp p m) in
    record {
      bytes = w.bytes;
      tail = w.tail;
      split = w.split ∙ sym (append-nil (packet_bytes s.rtp p m));
      wire = w.wire;
      whole = λ e. (w.whole e, w.same.rtp);
      client = client_of_Wrote s' (packet_bytes s.rtp p m) _ w;
      fps = w.same.fps;
      serves =
          rw (append-nil (packet_bytes s.rtp p m))
            (record { ends = (Serves-send_nonblock s' (packet_bytes s.rtp p m)).ends });
    }

Sends-stop :
    (s : Session) (ps qs : List (List ℕ × Bool)) (r : Session × Outcome)
    → r.1 ≢ done
    → Sends s ps r
    → Sends s (ps ++ qs) r
Sends-stop s ps qs r nd a = record {
  bytes = a.bytes;
  tail = a.tail ++ encode (stamp_after s.rtp ps) qs;
  split =
      sym (append_assoc a.bytes a.tail _)
      ∙ ap (λ t. t ++ encode (stamp_after s.rtp ps) qs) a.split
      ∙ sym (encode-append s.rtp ps qs);
  wire = a.wire;
  whole = λ e. absurd (nd e);
  client = a.client;
  fps = a.fps;
  serves = record {
    ends = λ h le. absurd (nd (a.serves.ends h (length-encode-le s.rtp ps qs le)).0);
  };
}

ClientAfter-trans :
    (s t : Session) (q : Session × Outcome)
    → t.client_fd ≡ s.client_fd
    → t.playing ≡ s.playing
    → ClientAfter t q
    → ClientAfter s q
ClientAfter-trans s t (u, done) e f h = (h.0 ∙ e, h.1 ∙ f)
ClientAfter-trans s t (u, lost) e f h = h
ClientAfter-trans s t (u, waiting) e f h = (h.0 ∙ e, h.1 ∙ f)

Sends-go :
    (s t : Session) (ps qs : List (List ℕ × Bool)) (q : Session × Outcome)
    → Sends s ps (t, done)
    → Sends t qs q
    → Sends s (ps ++ qs) q
Sends-go s t ps qs q a b = record {
  bytes = a.bytes ++ b.bytes;
  tail = b.tail;
  split =
      append_assoc a.bytes b.bytes b.tail
      ∙ ap (λ x. a.bytes ++ x) (b.split ∙ ap (λ x. encode x qs) (a.whole refl).1)
      ∙ ap (λ x. x ++ encode (stamp_after s.rtp ps) qs)
          (sym (append-nil a.bytes) ∙ ap (λ x. a.bytes ++ x) (sym (a.whole refl).0) ∙ a.split)
      ∙ sym (encode-append s.rtp ps qs);
  wire = b.wire ∙ ap (λ x. x ++ b.bytes) a.wire ∙ append_assoc s.wire a.bytes b.bytes;
  whole = λ e. (
    (b.whole e).0,
    (b.whole e).1
        ∙ ap (λ x. stamp_after x qs) (a.whole refl).1
        ∙ sym (stamp_after-append s.rtp ps qs),
  );
  client = ClientAfter-trans s t q a.client.0 a.client.1 b.client;
  fps = b.fps ∙ a.fps;
  serves = record {
    ends = λ h le.
        let len = length-encode-append s.rtp ps qs in
        let x = a.serves.ends h (omega (arith, len)) in
        let y = (rw (a.whole refl).1 at b.serves.ends) x.1 (omega (arith, x.2, len)) in
        (y.0, y.1, omega (arith, x.2, y.2, len));
  };
}

pub Sends-then :
    (s : Session) (ps qs : List (List ℕ × Bool)) (r q : Session × Outcome)
    → Sends s ps r
    → Sends r.0 qs q
    → Sends s (ps ++ qs) (and_then r q)
Sends-then s ps qs (t, done) q a b = Sends-go s t ps qs q a b
Sends-then s ps qs (t, lost) q a b = Sends-stop s ps qs (t, lost) (λ e. cc) a
Sends-then s ps qs (t, waiting) q a b = Sends-stop s ps qs (t, waiting) (λ e. cc) a

==_refl : (a : ℕ) → (a == a) ≡ true
==_refl a = ground arith

chunk_cases :
    (b : ℕ) (bs : List ℕ)
    → ((ltb (payload_max - 2) (length (b ∷ bs)) ≡ true)
        × (chunk_of (b ∷ bs) ≡ payload_max - 2)
        × ((payload_max - 2 == length (b ∷ bs)) ≡ false))
      ⊎ ((ltb (payload_max - 2) (length (b ∷ bs)) ≡ false) × (chunk_of (b ∷ bs) ≡ length (b ∷ bs)))
unfolding chunk_of
chunk_cases b bs = ground arith

fu_loop-nil :
    (fuel : ℕ) (s : Session) (h : ℕ) (first l : Bool) → fu_loop fuel s h first [] l ≡ (s, done)
unfolding fu_loop
fu_loop-nil zero s h first l = refl
fu_loop-nil (suc fuel) s h first l = refl

pub Sends-fu_loop :
    (fuel : ℕ) (s : Session) (h : ℕ) (first : Bool) (rest : List ℕ) (l : Bool)
    → Sends s (fu_packets fuel h first rest l) (fu_loop fuel s h first rest l)
unfolding fu_loop fu_packets fu_payload
Sends-fu_loop zero s h first rest l = Sends-nil s
Sends-fu_loop (suc fuel) s h first [] l = Sends-nil s
Sends-fu_loop (suc fuel) s h first (b ∷ bs) l = elim (chunk_cases b bs) [
  | inl (long, c, ne) ↦
      rw (long, c, ne)
        (Sends-then s _ _ _ _ (Sends-packet s _ false)
          (Sends-fu_loop fuel _ h false (drop (payload_max - 2) (b ∷ bs)) l))
  | inr (short, c) ↦
      rw (short, c, ==_refl (length (b ∷ bs)), take_all bs, drop_all bs)
        (rw (fu_loop-nil fuel) (Sends-then s (_ ∷ []) [] _ _ (Sends-packet s _ l) (Sends-nil _)))
]

-- Whatever the socket answers, `send_nalu_locked` puts a front part of the unit's packets on the
-- wire, and all of them if it is done.
pub Sends-send_nalu :
    (s : Session) (nalu : List ℕ) (l : Bool) → Sends s (nalu_packets nalu l) (send_nalu s nalu l)
unfolding send_nalu nalu_packets
Sends-send_nalu s [] l = Sends-packet s [] l
Sends-send_nalu s (h ∷ rest) l = elim (Bool-cases (leb (length (h ∷ rest)) payload_max)) [
  | inl short ↦ rw short (Sends-packet s (h ∷ rest) l)
  | inr long ↦ rw long (Sends-fu_loop (length rest) s h true rest l)
]
