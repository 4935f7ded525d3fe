-- ===== src/Rtsp/Annexb.antt =====
-- The Annex-B walk of board/src/rtsp_server.c: `find_start_code` and `rtsp_server_publish_h264`.
use hispark_soc_china.Prelude.{
  ℕ, zero, suc, ◌+◌, ◌/◌, ◌%◌, ◌^◌, Bool, true, false, Option, none, some, List, [], ◌∷◌, length,
  take, drop, ◌==◌, ◌&&◌, if◌then◌else◌,
}
use hispark_soc_china.Rtsp.State.{Session, Outcome, done, waiting, and_then}
use hispark_soc_china.Rtsp.Packet.{send_nalu}

-- The length of a start code that stands at the head of the bytes: the two tests of the loop.
unfoldable pub start_code_here : List ℕ → Option ℕ
start_code_here (a ∷ b ∷ c ∷ []) = if a == 0 && (b == 0 && c == 1) then some 3 else none
start_code_here (a ∷ b ∷ c ∷ d ∷ rest) =
    if a == 0 && (b == 0 && c == 1)
    then some 3
    else if a == 0 && (b == 0 && (c == 0 && d == 1))
    then some 4
    else none
start_code_here _ = none

-- The loop `while (p + 3 <= end)`: the offset of the code from `p`, and its length.
unfoldable pub find_start_code : List ℕ → Option (ℕ × ℕ)
unfolding start_code_here
find_start_code [] = none
find_start_code (a ∷ rest) =
    let later = find_start_code rest in
    elim (start_code_here (a ∷ rest)) [
      | some n ↦ some (0, n)
      | none ↦ elim later [ none ↦ none | some (k, n) ↦ some (suc k, n) ]
    ]

-- `while (nalu_end > nalu && nalu_end[-1] == 0) nalu_end--`
unfoldable pub strip_zeros : List ℕ → List ℕ
strip_zeros [] = []
strip_zeros (x ∷ xs) = elim (strip_zeros xs) [
  | [] ↦ if x == 0 then [] else x ∷ []
  | y ∷ ys ↦ x ∷ y ∷ ys
]

-- What is sent of one round of the loop: nothing, if only zeros stand before the next code.
unfoldable pub send_unit : Session → List ℕ → Bool → Session × Outcome
send_unit s [] last_nalu = (s, done)
send_unit s (x ∷ xs) last_nalu = send_nalu s (x ∷ xs) last_nalu

-- The `while (start != NULL)` loop; the list is what stands from `nalu` on, `next` what
-- `find_start_code` says of it. A start code has three bytes at least, so the list gets shorter and
-- its length is enough fuel.
unfoldable pub nalu_loop : ℕ → Session → List ℕ → Session × Outcome
unfolding send_unit
nalu_loop zero s nalu = (s, done)
nalu_loop (suc fuel) s nalu = elim (find_start_code nalu) [
  | none ↦ send_unit s (strip_zeros nalu) true
  | some (k, n) ↦
      let sent = send_unit s (strip_zeros (take k nalu)) false in
      let more = nalu_loop fuel sent.0 (drop (k + n) nalu) in and_then sent more
]

-- `rtp_timestamp` is a uint32_t.
unfoldable pub advance_timestamp : Session → Session
advance_timestamp s = record s {
  rtp = record s.rtp { rtp_timestamp = (s.rtp_timestamp + 90000 / s.fps) % 2 ^ 32 };
}

-- The status that `rtsp_server_publish_h264` returns; `pending` while a write is still waiting.
pub data Published : Type 0 where
  accepted rejected pending : Published

-- A failed send breaks the loop, and the timestamp moves on all the same.
unfoldable pub finish : Session × Outcome → Session × Published
unfolding advance_timestamp
finish r = elim r.1 [ waiting ↦ (r.0, pending) | o ↦ (advance_timestamp r.0, accepted) ]

-- The units of an access unit; one without a start code is sent as it stands.
unfoldable pub send_access_unit : Session → List ℕ → Session × Outcome
send_access_unit s annexb = elim (find_start_code annexb) [
  | none ↦ send_nalu s annexb true
  | some (k, n) ↦ nalu_loop (length annexb) s (drop (k + n) annexb)
]

unfoldable pub publish_h264 : Session → List ℕ → Session × Published
unfolding finish
publish_h264 s [] = (s, rejected)
publish_h264 s (x ∷ xs) =
    let sent = finish (send_access_unit s (x ∷ xs)) in
    if s.running
    then elim s.client_fd [
      | none ↦ (s, accepted)
      | some fd ↦ if s.playing then sent else (s, accepted)
    ]
    else (s, rejected)
