-- ===== src/Rtsp/Framing.antt =====
-- The bytes of a packet (`send_rtp_packet_locked` of board/src/rtsp_server.c) against the receiver.
use hispark_soc_china.Prelude.{
  ℕ, ◌+◌, ◌/◌, ◌%◌, ◌^◌, ◌≤◌, ◌<◌, ◌≡◌, Bool, true, false, some, List, ◌++◌, length, length-append,
  take-length-append, drop-length-append, arith,
}
use hispark_soc_china.Rtsp.State.{Stamp}
use hispark_soc_china.Rtsp.Packet.{packet_bytes, next_seq, payload_max}
use hispark_soc_china.Rtsp.Receiver.{Packet, read_packet, word16, word32}

-- The ranges of the C types of the fields that a packet carries.
pub record InRange (s : Stamp) : Type 0 where
  pub seq : s.rtp_seq < 2 ^ 16
  pub timestamp : s.rtp_timestamp < 2 ^ 32
  pub ssrc : s.rtp_ssrc < 2 ^ 32

pub next_seq-InRange : (s : Stamp) → InRange s → InRange (next_seq s)
unfolding next_seq
next_seq-InRange s r = omega arith

-- What a receiver reads of the packet that a session sends.
abbrev pub packet_of : Stamp → List ℕ × Bool → Packet
packet_of s (payload, marker) = record {
  marker = marker;
  seq = s.rtp_seq;
  timestamp = s.rtp_timestamp;
  ssrc = s.rtp_ssrc;
  payload = payload;
}

word16-split : (x : ℕ) → x < 2 ^ 16 → word16 (x / 2 ^ 8 % 256) (x % 256) ≡ x
word16-split x h = omega arith

word32-split :
    (x : ℕ)
    → x < 2 ^ 32
    → word32 (x / 2 ^ 24 % 256) (x / 2 ^ 16 % 256) (x / 2 ^ 8 % 256) (x % 256) ≡ x
word32-split x h = omega arith

packet-eq :
    {p q : Packet}
    → p.marker ≡ q.marker
    → p.seq ≡ q.seq
    → p.timestamp ≡ q.timestamp
    → p.ssrc ≡ q.ssrc
    → p.payload ≡ q.payload
    → p ≡ q
packet-eq a b c d e =
    λ i. record { marker = a i; seq = b i; timestamp = c i; ssrc = d i; payload = e i }

-- A receiver reads back the packet that was sent, and what follows it.
pub read_packet-packet_bytes :
    (s : Stamp) (payload : List ℕ) (marker : Bool) (rest : List ℕ)
    → InRange s
    → length payload ≤ payload_max
    → read_packet (packet_bytes s payload marker ++ rest)
      ≡ some (packet_of s (payload, marker), rest)
unfolding read_packet packet_bytes
read_packet-packet_bytes s payload true rest r le =
    rw
      (
        word16-split (12 + length payload) (omega arith),
        word16-split s.rtp_seq r.seq,
        word32-split s.rtp_timestamp r.timestamp,
        word32-split s.rtp_ssrc r.ssrc,
      )
      (ground (
        arith,
        length-append payload rest,
        take-length-append payload rest,
        drop-length-append payload rest,
      ))
read_packet-packet_bytes s payload false rest r le =
    rw
      (
        word16-split (12 + length payload) (omega arith),
        word16-split s.rtp_seq r.seq,
        word32-split s.rtp_timestamp r.timestamp,
        word32-split s.rtp_ssrc r.ssrc,
      )
      (ground (
        arith,
        length-append payload rest,
        take-length-append payload rest,
        drop-length-append payload rest,
      ))
