-- ===== src/Rtsp/Packets.antt =====
-- Sequences of packets: their bytes, what a receiver reads of them, and how they are sent.
use hispark_soc_china.Prelude.{
  ℕ, zero, suc, ◌≤◌, ◌≡◌, refl, Bool, some, List, [], ◌∷◌, ◌++◌, length, arith, append_assoc,
  length-append, ap, ◌∙◌, sym,
}
use hispark_soc_china.Rtsp.State.{Stamp}
use hispark_soc_china.Rtsp.Packet.{packet_bytes, next_seq, payload_max}
use hispark_soc_china.Rtsp.Receiver.{Packet, read_packet, read_packets}
use hispark_soc_china.Rtsp.Framing.{InRange, next_seq-InRange, packet_of, read_packet-packet_bytes}

-- The stamp after so many packets.
abbrev pub stamp_after {ℓ} : {A : Type ℓ} → Stamp → List A → Stamp
stamp_after s [] = s
stamp_after s (p ∷ ps) = stamp_after (next_seq s) ps

-- The bytes of the packets that carry these payloads and markers, in order.
abbrev pub encode : Stamp → List (List ℕ × Bool) → List ℕ
encode s [] = []
encode s ((p, m) ∷ ps) = packet_bytes s p m ++ encode (next_seq s) ps

-- What a receiver reads of them.
abbrev pub packets : Stamp → List (List ℕ × Bool) → List Packet
packets s [] = []
packets s (p ∷ ps) = packet_of s p ∷ packets (next_seq s) ps

-- No payload is larger than RTP_PAYLOAD_MAX.
abbrev pub AllShort : List (List ℕ × Bool) → Type 0
AllShort [] = Unit
AllShort ((p, m) ∷ ps) = (length p ≤ payload_max) × AllShort ps

pub encode-append :
    (s : Stamp) (ps qs : List (List ℕ × Bool))
    → encode s (ps ++ qs) ≡ encode s ps ++ encode (stamp_after s ps) qs
encode-append s [] qs = refl
encode-append s ((p, m) ∷ ps) qs =
    ap (λ t. packet_bytes s p m ++ t) (encode-append (next_seq s) ps qs)
    ∙ sym (append_assoc (packet_bytes s p m) _ _)

pub stamp_after-append :
    (s : Stamp) (ps qs : List (List ℕ × Bool))
    → stamp_after s (ps ++ qs) ≡ stamp_after (stamp_after s ps) qs
stamp_after-append s [] qs = refl
stamp_after-append s (p ∷ ps) qs = stamp_after-append (next_seq s) ps qs

pub AllShort-append :
    (ps qs : List (List ℕ × Bool)) → AllShort ps → AllShort qs → AllShort (ps ++ qs)
AllShort-append [] qs h k = k
AllShort-append ((p, m) ∷ ps) qs h k = (h.0, AllShort-append ps qs h.1 k)

pub length-le-encode : (s : Stamp) (ps : List (List ℕ × Bool)) → length ps ≤ length (encode s ps)
unfolding packet_bytes
length-le-encode s [] = omega arith
length-le-encode s ((p, m) ∷ ps) =
    omega (arith, length-le-encode (next_seq s) ps, length-append p (encode (next_seq s) ps))

read_packets-cons :
    (fuel b : ℕ) (bs rest : List ℕ) {q : Packet} {ps : List Packet}
    → read_packet (b ∷ bs) ≡ some (q, rest)
    → read_packets fuel rest ≡ some ps
    → read_packets (suc fuel) (b ∷ bs) ≡ some (q ∷ ps)
unfolding read_packets
read_packets-cons fuel b bs rest h k = ground arith

-- A receiver reads back every packet, in order, with consecutive stamps.
pub read_packets-encode :
    (fuel : ℕ) (s : Stamp) (ps : List (List ℕ × Bool))
    → InRange s
    → AllShort ps
    → length ps ≤ fuel
    → read_packets fuel (encode s ps) ≡ some (packets s ps)
unfolding read_packets packet_bytes
read_packets-encode zero s [] r h le = refl
read_packets-encode (suc fuel) s [] r h le = refl
read_packets-encode zero s (p ∷ ps) r h le = absurd (omega arith)
read_packets-encode (suc fuel) s ((p, m) ∷ ps) r h le =
    read_packets-cons fuel _ _ (encode (next_seq s) ps)
      (read_packet-packet_bytes s p m (encode (next_seq s) ps) r h.0)
      (read_packets-encode fuel (next_seq s) ps (next_seq-InRange s r) h.1 (omega arith))
