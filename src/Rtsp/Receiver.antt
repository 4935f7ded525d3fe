-- ===== src/Rtsp/Receiver.antt =====
-- What a client does with the bytes of the connection: interleaved framing (RFC 2326, 10.12), the
-- RTP header (RFC 3550) and H.264 payloads (RFC 6184, single units and FU-A). A description of the
-- protocol that is independent of the server's code.
use hispark_soc_china.Prelude.{
  ℕ, zero, suc, ◌+◌, ◌-◌, ◌*◌, ◌/◌, ◌%◌, Bool, Option, none, some, List, [], ◌∷◌, ◌++◌, length,
  take, drop, leb, ◌==◌, if◌then◌else◌,
}

pub record Packet : Type 0 where
  pub marker : Bool
  pub seq : ℕ
  pub timestamp : ℕ
  pub ssrc : ℕ
  pub payload : List ℕ

abbrev pub word16 : ℕ → ℕ → ℕ
word16 a b = a * 256 + b

abbrev pub word32 : ℕ → ℕ → ℕ → ℕ → ℕ
word32 a b c d = word16 (word16 (word16 a b) c) d

-- The first frame of the bytes, and what stands behind it. A frame on channel 0 whose header says
-- version 2, no padding, no extension, no sources and payload type 96 is an H.264 packet.
unfoldable pub read_packet : List ℕ → Option (Packet × List ℕ)
read_packet
      (dollar ∷ chan ∷ l1 ∷ l0 ∷ v ∷ m ∷ q1 ∷ q0 ∷ t3 ∷ t2 ∷ t1 ∷ t0 ∷ c3 ∷ c2 ∷ c1 ∷ c0 ∷ rest) =
    let n = word16 l1 l0 - 12 in
    if dollar == 0x24
    then if chan == 0
      then if v == 0x80
        then if m % 128 == 96
          then if leb 12 (word16 l1 l0)
            then if leb n (length rest)
              then some (
                record {
                  marker = leb 128 m;
                  seq = word16 q1 q0;
                  timestamp = word32 t3 t2 t1 t0;
                  ssrc = word32 c3 c2 c1 c0;
                  payload = take n rest;
                },
                drop n rest,
              )
              else none
            else none
          else none
        else none
      else none
    else none
read_packet _ = none

-- All the packets of a stream of bytes; the fuel is its length.
unfoldable pub read_packets : ℕ → List ℕ → Option (List Packet)
read_packets fuel [] = some []
read_packets zero (b ∷ bs) = none
read_packets (suc fuel) (b ∷ bs) = elim (read_packet (b ∷ bs)) [
  | none ↦ none
  | some (p, rest) ↦ elim (read_packets fuel rest) [ none ↦ none | some ps ↦ some (p ∷ ps) ]
]

-- One payload, with the unit that is being put together: the units that it completes, and the
-- unit that is open after it. `none` is a protocol error.
unfoldable pub take_payload : Option (List ℕ) → List ℕ → Option (List (List ℕ) × Option (List ℕ))
take_payload part (ind ∷ hdr ∷ bytes) =
    let header = ind / 32 * 32 + hdr % 32 in
    let ended : List ℕ → Option (List (List ℕ) × Option (List ℕ)) =
      λ unit. if hdr / 64 % 2 == 1 then some (unit ∷ [], none) else some ([], some unit) in
    if ind % 32 == 28
    then if hdr / 128 == 1
      then elim part [ none ↦ ended (header ∷ bytes) | some u ↦ none ]
      else elim part [ none ↦ none | some u ↦ ended (u ++ bytes) ]
    else elim part [ none ↦ some ((ind ∷ hdr ∷ bytes) ∷ [], none) | some u ↦ none ]
take_payload none (ind ∷ []) = if ind % 32 == 28 then none else some ((ind ∷ []) ∷ [], none)
take_payload _ _ = none

-- The units that a sequence of payloads carries; the last one must be complete.
unfoldable pub reassemble : Option (List ℕ) → List (List ℕ) → Option (List (List ℕ))
reassemble none [] = some []
reassemble (some u) [] = none
reassemble part (p ∷ ps) = elim (take_payload part p) [
  | none ↦ none
  | some (units, part') ↦ elim (reassemble part' ps) [
    | none ↦ none
    | some more ↦ some (units ++ more)
  ]
]
