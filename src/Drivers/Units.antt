-- ===== src/Drivers/Units.antt =====
-- What `drain_worker` of board/src/stream.c publishes: the bytes of the packs of a frame.
use hispark_soc_china.Prelude.{
  ℕ, ◌+◌, ◌≤◌, ◌≡◌, refl, ap₂, Option, none, some, List, [], ◌∷◌, ◌++◌, length, length-append,
  append_assoc, append-nil, arith, ltb, leb, ◌&&◌, if◌then◌else◌,
}
use hispark_soc_china.Drivers.Drain.{
  Pack, pack_bytes, gather, stream_au_cap, stream_max_packs, take_frame, fetch, status_round,
  DrainAnswers, DrainCall, fetched, released, published, drain_worker,
}

-- The bytes of all packs, in order.
abbrev pub frame_bytes : List Pack → List ℕ
frame_bytes [] = []
frame_bytes (p ∷ ps) = pack_bytes p ++ frame_bytes ps

gather_all :
    (cap : ℕ) (unit : List ℕ) (packs : List Pack)
    → length unit ≤ cap
    → gather cap unit packs ≡ (
        if leb (length unit + length (frame_bytes packs)) cap
        then unit ++ frame_bytes packs
        else [])
unfolding gather
gather_all cap unit [] h = rw (append-nil unit) (ground arith)
gather_all cap unit (p ∷ ps) h =
    let tail = length-append (pack_bytes p) (frame_bytes ps) in
    let next = length-append unit (pack_bytes p) in
    let rest = gather_all cap (unit ++ pack_bytes p) ps in
    let step = append_assoc unit (pack_bytes p) (frame_bytes ps) in
    grind (arith, tail, next, step, rest)

-- What a frame is worth: its bytes in one access unit, if they are not too many.
abbrev pub unit_calls : List ℕ → List DrainCall
unit_calls bytes =
    if ltb 0 (length bytes) && leb (length bytes) stream_au_cap then published bytes ∷ [] else []

-- A round as it is meant: a frame, which has a pack at least, is fetched, published and released.
abbrev pub round_calls : Option ℕ → Option (List Pack) → List DrainCall
round_calls none packs = []
round_calls (some n) none = []
round_calls (some n) (some packs) =
    if ltb 0 n then fetched ∷ (unit_calls (frame_bytes packs) ++ (released ∷ [])) else []

abbrev pub all_calls : List DrainAnswers → List DrainCall
all_calls [] = []
all_calls (a ∷ rounds) = round_calls a.cur_packs a.get_stream ++ all_calls rounds

-- The encoder reports no frame of more than 64 packs.
abbrev pub Fits : Option ℕ → Type 0
Fits none = Unit
Fits (some n) = n ≤ stream_max_packs

abbrev pub AllFit : List DrainAnswers → Type 0
AllFit [] = Unit
AllFit (a ∷ rounds) = Fits a.cur_packs × AllFit rounds

unit_calls-take_frame :
    (packs : List Pack)
    → take_frame packs ≡ fetched ∷ (unit_calls (frame_bytes packs) ++ (released ∷ []))
unfolding take_frame
unit_calls-take_frame packs = ground (arith, gather_all stream_au_cap [] packs (omega arith))

status_round-round_calls :
    (n : Option ℕ) (packs : Option (List Pack))
    → Fits n
    → status_round n packs ≡ round_calls n packs
unfolding status_round fetch
status_round-round_calls none packs h = refl
status_round-round_calls (some n) none h = ground arith
status_round-round_calls (some n) (some packs) h = ground (arith, unit_calls-take_frame packs)

-- If the encoder reports no frame of more than 64 packs: in every round in which it reports a frame and
-- hands it over, the frame is fetched, its bytes are published as one access unit if there are 1 to
-- 2097152 of them, and it is released whether they are published or not; in the other rounds
-- nothing is done.
pub drain_worker-all_calls :
    (rounds : List DrainAnswers) → AllFit rounds → drain_worker rounds ≡ all_calls rounds
unfolding drain_worker
drain_worker-all_calls [] h = refl
drain_worker-all_calls (a ∷ rounds) h =
    ap₂ (λ x y. x ++ y) (status_round-round_calls a.cur_packs a.get_stream h.0)
      (drain_worker-all_calls rounds h.1)
