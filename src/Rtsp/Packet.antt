-- ===== src/Rtsp/Packet.antt =====
-- `send_rtp_packet_locked` and `send_nalu_locked` of board/src/rtsp_server.c.
use hispark_soc_china.Prelude.{
  ℕ, zero, suc, ◌+◌, ◌-◌, ◌/◌, ◌%◌, ◌^◌, Bool, true, false, List, [], ◌∷◌, length, take, drop, leb,
  ltb, ◌==◌, ◌&&◌, if◌then◌else◌, bit_and, bit_or,
}
use hispark_soc_china.Prelude.Bytes.{to_byte}
use hispark_soc_china.Rtsp.State.{Stamp, Session, Outcome, done, and_then}
use hispark_soc_china.Rtsp.Send.{send_nonblock}

-- RTP_PAYLOAD_MAX, RTP_PT_H264
abbrev pub payload_max : ℕ
payload_max = 1400

abbrev pub pt_h264 : ℕ
pt_h264 = 96

-- The array `packet`: four bytes of interleaved framing, twelve of RTP header, the payload.
-- `packet[7] = (uint8_t) g_rtsp.rtp_seq++` reads the number before it is raised.
unfoldable pub packet_bytes : Stamp → List ℕ → Bool → List ℕ
packet_bytes s payload marker =
    let rtp_len = 12 + length payload in
    b'$'
    ∷ 0
    ∷ to_byte (rtp_len / 2 ^ 8)
    ∷ to_byte rtp_len
    ∷ 0x80
    ∷ to_byte (bit_or pt_h264 (if marker then 0x80 else 0))
    ∷ to_byte (s.rtp_seq / 2 ^ 8)
    ∷ to_byte s.rtp_seq
    ∷ to_byte (s.rtp_timestamp / 2 ^ 24)
    ∷ to_byte (s.rtp_timestamp / 2 ^ 16)
    ∷ to_byte (s.rtp_timestamp / 2 ^ 8)
    ∷ to_byte s.rtp_timestamp
    ∷ to_byte (s.rtp_ssrc / 2 ^ 24)
    ∷ to_byte (s.rtp_ssrc / 2 ^ 16)
    ∷ to_byte (s.rtp_ssrc / 2 ^ 8)
    ∷ to_byte s.rtp_ssrc
    ∷ payload

-- `rtp_seq` is a uint16_t.
unfoldable pub next_seq : Stamp → Stamp
next_seq s = record s { rtp_seq = (s.rtp_seq + 1) % 2 ^ 16 }

unfoldable pub send_rtp_packet : Session → List ℕ → Bool → Session × Outcome
send_rtp_packet s payload marker =
    send_nonblock (record s { rtp = next_seq s.rtp }) (packet_bytes s.rtp payload marker)

-- fu[0] and fu[1] of a fragment
unfoldable pub fu_indicator : ℕ → ℕ
fu_indicator nal_header = to_byte (bit_or (bit_and nal_header 0xe0) 28)

unfoldable pub fu_header : ℕ → Bool → Bool → ℕ
fu_header nal_header first last = to_byte (
    bit_or (bit_or (bit_and nal_header 0x1f) (if first then 0x80 else 0))
      (if last then 0x40 else 0))

-- The length of the next fragment of what is left.
unfoldable pub chunk_of : List ℕ → ℕ
chunk_of rest = if ltb (payload_max - 2) (length rest) then payload_max - 2 else length rest

-- The array `fu`, and the marker that its packet gets.
unfoldable pub fu_payload : ℕ → Bool → List ℕ → List ℕ
fu_payload nal_header first rest =
    let chunk = chunk_of rest in
    fu_indicator nal_header ∷ fu_header nal_header first (chunk == length rest) ∷ take chunk rest

-- The `while (offset < len)` loop; the list is what stands from `offset` on. Each round takes at
-- least one byte, so the length of the list is enough fuel.
unfoldable pub fu_loop : ℕ → Session → ℕ → Bool → List ℕ → Bool → Session × Outcome
fu_loop zero s nal_header first rest last_nalu = (s, done)
fu_loop (suc fuel) s nal_header first [] last_nalu = (s, done)
fu_loop (suc fuel) s nal_header first (b ∷ bs) last_nalu =
    let rest = b ∷ bs in
    let chunk = chunk_of rest in
    let last = chunk == length rest in
    let sent = send_rtp_packet s (fu_payload nal_header first rest) (last && last_nalu) in
    let more = fu_loop fuel sent.0 nal_header false (drop chunk rest) last_nalu in
    and_then sent more

-- The callers pass a unit of at least one byte; `nalu[0]` is read only of one longer than
-- `payload_max`.
unfoldable pub send_nalu : Session → List ℕ → Bool → Session × Outcome
send_nalu s [] last_nalu = send_rtp_packet s [] last_nalu
send_nalu s (h ∷ rest) last_nalu =
    if leb (length (h ∷ rest)) payload_max
    then send_rtp_packet s (h ∷ rest) last_nalu
    else fu_loop (length rest) s h true rest last_nalu
