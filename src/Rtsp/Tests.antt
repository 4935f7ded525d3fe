-- ===== src/Rtsp/Tests.antt =====
-- Runs of the server's packetiser, and its theorems at concrete inputs.
use hispark_soc_china.Prelude.{
  ℕ, ◌≡◌, refl, true, false, some, none, Bool, List, [], ◌∷◌, ◌++◌, replicate, arith, ◌⊎◌,
}
use hispark_soc_china.Rtsp.State.{Session, SendEvent, wrote, intr, failed, close_client}
use hispark_soc_china.Rtsp.Send.{send_nonblock}
use hispark_soc_china.Rtsp.Packet.{send_nalu, send_rtp_packet, packet_bytes, next_seq}
use hispark_soc_china.Rtsp.Annexb.{
  find_start_code, strip_zeros, send_unit, nalu_loop, send_access_unit, publish_h264, accepted,
}
use hispark_soc_china.Rtsp.Fragments.{nalu_packets}
use hispark_soc_china.Rtsp.Framing.{InRange}
use hispark_soc_china.Rtsp.StartCode.{annexb}
use hispark_soc_china.Rtsp.Publish.{IsNalu, units, unit_packets}
use hispark_soc_china.Rtsp.Received.{Carries}
use hispark_soc_china.Rtsp.Delivered.{
  Delivers, publish_h264-Delivers, publish_h264_total, publish_h264_front,
}

abbrev pub playing_on : List SendEvent → Session
playing_on evs = record {
  running = true;
  stop = false;
  listen_fd = some 3;
  client_fd = some 7;
  playing = true;
  port = 8554;
  fps = 30;
  path = b'l' ∷ b'i' ∷ b'v' ∷ b'e' ∷ [];
  request = [];
  request_len = 0;
  rtp = record { rtp_seq = 65535; rtp_timestamp = 3000; rtp_ssrc = 0x534f4343 };
  request_idr = true;
  sock = evs;
  wire = [];
}

abbrev steady : Session
steady = playing_on (replicate 40 (wrote 9))

-- A parameter set and a slice.
abbrev sps : List ℕ
sps = 0x67 ∷ 0x42 ∷ 0 ∷ 0 ∷ 3 ∷ []

abbrev slice : List ℕ
slice = 0x65 ∷ 0x88 ∷ []

abbrev rest_of : List (Bool × List ℕ)
rest_of = (false, slice) ∷ []

sps-IsNalu : IsNalu sps
sps-IsNalu = record {
  unit = record {
    header = 0x67;
    rest = 0x42 ∷ 0 ∷ 0 ∷ 3 ∷ [];
    shape = refl;
    byte = omega arith;
    kind = omega arith;
  };
  no_code = ((λ h. omega arith), ((λ h. omega arith), ((λ h. omega arith), tt)));
  ends = omega arith;
}

slice-IsNalu : IsNalu slice
slice-IsNalu = record {
  unit = record {
    header = 0x65;
    rest = 0x88 ∷ [];
    shape = refl;
    byte = omega arith;
    kind = omega arith;
  };
  no_code = tt;
  ends = omega arith;
}

steady-InRange : InRange steady.rtp
steady-InRange = omega arith

publish_h264-Delivers_example :
    Delivers steady (publish_h264 steady (annexb ((true, sps) ∷ rest_of))).0 (sps ∷ units rest_of)
unfolding publish_h264 send_access_unit nalu_loop find_start_code strip_zeros send_unit send_nalu
    send_rtp_packet packet_bytes next_seq send_nonblock
publish_h264-Delivers_example =
    publish_h264-Delivers steady 7 true sps rest_of steady-InRange sps-IsNalu (slice-IsNalu, tt)
      refl refl refl refl refl

publish_h264_total_example :
    let (t, status) = publish_h264 steady (annexb ((true, sps) ∷ rest_of)) in
    (status ≡ accepted) × (t.client_fd ≡ some 7) × Delivers steady t (sps ∷ units rest_of)
unfolding unit_packets nalu_packets packet_bytes next_seq
publish_h264_total_example =
    publish_h264_total steady 7 true sps rest_of steady-InRange sps-IsNalu (slice-IsNalu, tt) refl
      refl refl tt (omega arith)

-- A socket that takes one send and then fails.
abbrev cut : Session
cut = playing_on (wrote 9 ∷ intr ∷ failed ∷ [])

publish_h264_front_example :
    let t = (publish_h264 cut (annexb ((true, sps) ∷ rest_of))).0 in
    (bytes : List ℕ) × (tail : List ℕ) × (t.wire ≡ cut.wire ++ bytes)
    × Carries cut.rtp (sps ∷ units rest_of) (bytes ++ tail)
    × ((t.client_fd ≡ none) ⊎ (t.client_fd ≡ some 7))
publish_h264_front_example =
    publish_h264_front cut 7 true sps rest_of (omega arith) sps-IsNalu (slice-IsNalu, tt) refl refl
      refl

publish_h264-cut : (publish_h264 cut (annexb ((true, sps) ∷ rest_of))).0.client_fd ≡ none
unfolding publish_h264 send_access_unit nalu_loop find_start_code strip_zeros send_unit send_nalu
    send_rtp_packet packet_bytes next_seq send_nonblock close_client
publish_h264-cut = refl
