-- ===== src/Rtsp/Received.antt =====
-- What a client receives of `rtsp_server_publish_h264` (board/src/rtsp_server.c).
use hispark_soc_china.Prelude.{
  ℕ, suc, ◌+◌, ◌%◌, ◌^◌, ◌≤◌, ◌≡◌, refl, ap, ◌∙◌, Bool, true, false, none, some, List, [], ◌∷◌,
  ◌++◌, length, drop, length-append, arith,
}
use hispark_soc_china.Rtsp.State.{Session, Stamp, Outcome, done, lost, waiting}
use hispark_soc_china.Rtsp.Packet.{next_seq}
use hispark_soc_china.Rtsp.Annexb.{
  find_start_code, nalu_loop, send_access_unit, publish_h264, accepted, advance_timestamp, finish,
}
use hispark_soc_china.Rtsp.Receiver.{Packet, read_packets, reassemble}
use hispark_soc_china.Rtsp.Framing.{InRange}
use hispark_soc_china.Rtsp.Packets.{encode, packets, read_packets-encode, length-le-encode}
use hispark_soc_china.Rtsp.Fragments.{payloads, nalu_packets}
use hispark_soc_china.Rtsp.StartCode.{annexb, find_start_code-code}
use hispark_soc_china.Rtsp.Sending.{Sends, ClientAfter}
use hispark_soc_china.Rtsp.Markers.{Marks, Marks-append, Marks-nalu_packets}
use hispark_soc_china.Rtsp.Publish.{
  IsNalu, AllNalus, units, unit_packets, Sends-nalu_loop, unit_packets-AllShort,
  reassemble-unit_packets,
}

-- The payloads of packets that a receiver has read.
abbrev pub payloads_of : List Packet → List (List ℕ)
payloads_of [] = []
payloads_of (p ∷ ps) = p.payload ∷ payloads_of ps

payloads_of-packets :
    (s : Stamp) (qs : List (List ℕ × Bool)) → payloads_of (packets s qs) ≡ payloads qs
unfolding payloads
payloads_of-packets s [] = refl
payloads_of-packets s ((p, m) ∷ qs) = ap (λ t. p ∷ t) (payloads_of-packets (next_seq s) qs)

-- The numbers of packets run on from a stamp, at one time and from one source.
abbrev pub Numbered : Stamp → List Packet → Type 0
Numbered s [] = Unit
Numbered s (p ∷ ps) =
    (p.seq ≡ s.rtp_seq)
    × (p.timestamp ≡ s.rtp_timestamp)
    × (p.ssrc ≡ s.rtp_ssrc)
    × Numbered (record s { rtp_seq = (s.rtp_seq + 1) % 2 ^ 16 }) ps

-- The marker stands on the last packet, and on no other.
abbrev pub LastMarked : List Packet → Type 0
LastMarked [] = ⊥
LastMarked (p ∷ []) = p.marker ≡ true
LastMarked (p ∷ q ∷ ps) = (p.marker ≡ false) × LastMarked (q ∷ ps)

Numbered-packets : (s : Stamp) (qs : List (List ℕ × Bool)) → Numbered s (packets s qs)
unfolding next_seq
Numbered-packets s [] = tt
Numbered-packets s (q ∷ qs) = (refl, refl, refl, Numbered-packets (next_seq s) qs)

Marks-unit_packets : (u : List ℕ) (us : List (Bool × List ℕ)) → Marks true (unit_packets u us)
unfolding unit_packets
Marks-unit_packets u [] = Marks-nalu_packets u true
Marks-unit_packets u ((four, v) ∷ us) =
    Marks-append true (nalu_packets u false) (unit_packets v us) (Marks-nalu_packets u false)
      (Marks-unit_packets v us)

LastMarked-packets :
    (s : Stamp) (qs : List (List ℕ × Bool)) → Marks true qs → LastMarked (packets s qs)
LastMarked-packets s [] h = h
LastMarked-packets s ((p, m) ∷ []) h = h
LastMarked-packets s ((p, m) ∷ (q, n) ∷ qs) h =
    (h.0, LastMarked-packets (next_seq s) ((q, n) ∷ qs) h.1)

-- A client that reads these bytes gets these units, in packets that are numbered from the stamp and
-- of which the last alone has the marker.
pub record Carries (s : Stamp) (us : List (List ℕ)) (bytes : List ℕ) : Type 0 where
  pub read : List Packet
  pub parsed : read_packets (length bytes) bytes ≡ some read
  pub content : reassemble none (payloads_of read) ≡ some us
  pub numbered : Numbered s read
  pub marked : LastMarked read

length-packets : (s : Stamp) (qs : List (List ℕ × Bool)) → length (packets s qs) ≡ length qs
length-packets s [] = refl
length-packets s (q ∷ qs) = ap suc (length-packets (next_seq s) qs)

pub Carries-encode :
    (s : Stamp) (u : List ℕ) (us : List (Bool × List ℕ))
    → InRange s
    → IsNalu u
    → AllNalus us
    → Carries s (u ∷ units us) (encode s (unit_packets u us))
Carries-encode s u us r v vs =
    let qs = unit_packets u us in
    record {
      read = packets s qs;
      parsed =
          read_packets-encode (length (encode s qs)) s qs r (unit_packets-AllShort u us)
            (length-le-encode s qs);
      content = ap (reassemble none) (payloads_of-packets s qs) ∙ reassemble-unit_packets u us v vs;
      numbered = Numbered-packets s qs;
      marked = LastMarked-packets s qs (Marks-unit_packets u us);
    }

pub length-read-Carries-encode :
    (s : Stamp) (u : List ℕ) (us : List (Bool × List ℕ)) (r : InRange s) (v : IsNalu u)
    (vs : AllNalus us)
    → length (Carries-encode s u us r v vs).read ≡ length (unit_packets u us)
unfolding Carries-encode
length-read-Carries-encode s u us r v vs = length-packets s (unit_packets u us)

-- The run of the loop over the access unit `u`, `us`.
abbrev pub walk : Session → List ℕ → List (Bool × List ℕ) → Bool → Session × Outcome
walk s u us four = nalu_loop (length (annexb ((four, u) ∷ us))) s (u ++ annexb us)

length-annexb : (us : List (Bool × List ℕ)) → length us ≤ length (annexb us)
length-annexb [] = omega arith
length-annexb ((true, u) ∷ us) = omega (arith, length-append u (annexb us), length-annexb us)
length-annexb ((false, u) ∷ us) = omega (arith, length-append u (annexb us), length-annexb us)

pub Sends-walk :
    (s : Session) (four : Bool) (u : List ℕ) (us : List (Bool × List ℕ))
    → IsNalu u
    → AllNalus us
    → Sends s (unit_packets u us) (walk s u us four)
Sends-walk s four u us v vs =
    Sends-nalu_loop _ s u us v vs
      (omega (arith, length-annexb ((four, u) ∷ us), length-append u (annexb us)))

send_access_unit-found :
    (s : Session) (xs : List ℕ) {k n : ℕ}
    → find_start_code xs ≡ some (k, n)
    → send_access_unit s xs ≡ nalu_loop (length xs) s (drop (k + n) xs)
unfolding send_access_unit
send_access_unit-found s xs h = rw (h, send_access_unit)

pub send_access_unit-walk :
    (s : Session) (four : Bool) (u : List ℕ) (us : List (Bool × List ℕ))
    → send_access_unit s (annexb ((four, u) ∷ us)) ≡ walk s u us four
send_access_unit-walk s true u us =
    send_access_unit-found s (annexb ((true, u) ∷ us)) (find_start_code-code true (u ++ annexb us))
send_access_unit-walk s false u us =
    send_access_unit-found s (annexb ((false, u) ∷ us))
      (find_start_code-code false (u ++ annexb us))

pub publish_h264-playing :
    (s : Session) (fd x : ℕ) (xs : List ℕ)
    → s.running ≡ true
    → s.client_fd ≡ some fd
    → s.playing ≡ true
    → publish_h264 s (x ∷ xs) ≡ finish (send_access_unit s (x ∷ xs))
unfolding publish_h264
publish_h264-playing s fd x xs r c p = ground arith

-- What `publish_h264` makes of an access unit when a client plays.
pub publish_h264-walk :
    (s : Session) (fd : ℕ) (four : Bool) (u : List ℕ) (us : List (Bool × List ℕ))
    → s.running ≡ true
    → s.client_fd ≡ some fd
    → s.playing ≡ true
    → publish_h264 s (annexb ((four, u) ∷ us)) ≡ finish (walk s u us four)
publish_h264-walk s fd true u us r c p =
    publish_h264-playing s fd _ _ r c p ∙ ap finish (send_access_unit-walk s true u us)
publish_h264-walk s fd false u us r c p =
    publish_h264-playing s fd _ _ r c p ∙ ap finish (send_access_unit-walk s false u us)

-- How the walk ended, from what `publish_h264` returned and left of the client.
pub finish_done :
    (s : Session) (fd : ℕ) (r : Session × Outcome)
    → ClientAfter s r
    → (finish r).1 ≡ accepted
    → (finish r).0.client_fd ≡ some fd
    → (r.1 ≡ done) × (finish r ≡ (advance_timestamp r.0, accepted))
unfolding finish advance_timestamp
finish_done s fd (t, done) c a o = (refl, refl)
finish_done s fd (t, lost) c a o = absurd (cc (c.0))
finish_done s fd (t, waiting) c a o = cc
