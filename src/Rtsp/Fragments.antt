-- ===== src/Rtsp/Fragments.antt =====
-- The fragmentation of `send_nalu_locked` (board/src/rtsp_server.c) against the receiver.
use hispark_soc_china.Prelude.{
  ℕ, zero, suc, ◌+◌, ◌-◌, ◌*◌, ◌/◌, ◌%◌, ◌≤◌, ◌<◌, ◌≡◌, ◌≢◌, refl, ap, ◌∙◌, Bool, true, false,
  Option, none, some, List, [], ◌∷◌, ◌++◌, length, take, drop, take-append-drop, length-take,
  length-drop, append_assoc, arith, leb, ltb, ◌==◌, ltb→lt, lt→ltb, leb→le, ◌&&◌, if◌then◌else◌,
  Bool-cases, inl, inr,
}
use hispark_soc_china.Prelude.Bytes.{passes_under, passes_at}
use hispark_soc_china.Rtsp.Packet.{fu_indicator, fu_header, payload_max}
use hispark_soc_china.Rtsp.Packets.{AllShort}
use hispark_soc_china.Rtsp.Receiver.{take_payload, reassemble}

-- The payloads and markers of the fragments of `rest`, behind the header byte `h`.
unfoldable pub fu_packets : ℕ → ℕ → Bool → List ℕ → Bool → List (List ℕ × Bool)
fu_packets zero h first rest last_nalu = []
fu_packets (suc fuel) h first [] last_nalu = []
fu_packets (suc fuel) h first (b ∷ bs) last_nalu =
    if ltb (payload_max - 2) (length (b ∷ bs))
    then (fu_indicator h ∷ fu_header h first false ∷ take (payload_max - 2) (b ∷ bs), false)
      ∷ fu_packets fuel h false (drop (payload_max - 2) (b ∷ bs)) last_nalu
    else (fu_indicator h ∷ fu_header h first true ∷ b ∷ bs, last_nalu) ∷ []

-- The payloads and markers of one unit.
unfoldable pub nalu_packets : List ℕ → Bool → List (List ℕ × Bool)
nalu_packets [] last_nalu = ([], last_nalu) ∷ []
nalu_packets (h ∷ rest) last_nalu =
    if leb (length (h ∷ rest)) payload_max
    then (h ∷ rest, last_nalu) ∷ []
    else fu_packets (length rest) h true rest last_nalu

unfoldable pub payloads : List (List ℕ × Bool) → List (List ℕ)
payloads [] = []
payloads ((p, m) ∷ ps) = p ∷ payloads ps

pub payloads-append :
    (ps qs : List (List ℕ × Bool)) → payloads (ps ++ qs) ≡ payloads ps ++ payloads qs
unfolding payloads
payloads-append [] qs = refl
payloads-append ((p, m) ∷ ps) qs = ap (λ t. p ∷ t) (payloads-append ps qs)

abbrev bit : Bool → ℕ
bit true = 1
bit false = 0

-- What the header bytes of a fragment say, for every byte `h`.
abbrev header_ok : Bool → Bool → ℕ → Bool
header_ok first last h =
    fu_indicator h % 32 == 28
    && (fu_indicator h / 32 * 32 + fu_header h first last % 32 == h
        && (fu_header h first last / 128 == bit first
            && fu_header h first last / 64 % 2 == bit last))

header_table : (first last : Bool) → passes_under (header_ok first last) 256 ≡ true
unfolding passes_under fu_indicator fu_header
header_table true true = refl
header_table true false = refl
header_table false true = refl
header_table false false = refl

record Header (first last : Bool) (h : ℕ) : Type 0 where
  kind : fu_indicator h % 32 ≡ 28
  header : fu_indicator h / 32 * 32 + fu_header h first last % 32 ≡ h
  start : fu_header h first last / 128 ≡ bit first
  ending : fu_header h first last / 64 % 2 ≡ bit last

Header-read : (first last : Bool) (h : ℕ) → header_ok first last h ≡ true → Header first last h
Header-read first last h e = ground arith

Header-of_byte : (first last : Bool) (h : ℕ) → h < 256 → Header first last h
Header-of_byte first last h lt =
    Header-read first last h (passes_at (header_ok first last) (header_table first last) lt)

-- The unit `u` in front of the units that follow.
abbrev pub with_unit : List ℕ → Option (List (List ℕ)) → Option (List (List ℕ))
with_unit u none = none
with_unit u (some us) = some (u ∷ us)

module _ (h : ℕ) (lt : h < 256) where
  take_first :
      (bytes : List ℕ)
      → take_payload none (fu_indicator h ∷ fu_header h true false ∷ bytes)
        ≡ some ([], some (h ∷ bytes))
  unfolding take_payload
  take_first bytes = ground (arith, Header-of_byte true false h lt)

  take_only :
      (bytes : List ℕ)
      → take_payload none (fu_indicator h ∷ fu_header h true true ∷ bytes)
        ≡ some ((h ∷ bytes) ∷ [], none)
  unfolding take_payload
  take_only bytes = ground (arith, Header-of_byte true true h lt)

  take_next :
      (u bytes : List ℕ)
      → take_payload (some u) (fu_indicator h ∷ fu_header h false false ∷ bytes)
        ≡ some ([], some (u ++ bytes))
  unfolding take_payload
  take_next u bytes = ground (arith, Header-of_byte false false h lt)

  take_last :
      (u bytes : List ℕ)
      → take_payload (some u) (fu_indicator h ∷ fu_header h false true ∷ bytes)
        ≡ some ((u ++ bytes) ∷ [], none)
  unfolding take_payload
  take_last u bytes = ground (arith, Header-of_byte false true h lt)

reassemble-open :
    (part : Option (List ℕ)) (p : List ℕ) (ps : List (List ℕ)) (u : List ℕ)
    → take_payload part p ≡ some ([], some u)
    → reassemble part (p ∷ ps) ≡ reassemble (some u) ps
unfolding reassemble
reassemble-open part p ps u e = ground arith

reassemble-close :
    (part : Option (List ℕ)) (p : List ℕ) (ps : List (List ℕ)) (u : List ℕ)
    → take_payload part p ≡ some (u ∷ [], none)
    → reassemble part (p ∷ ps) ≡ with_unit u (reassemble none ps)
unfolding reassemble
reassemble-close none p ps u e = ground arith
reassemble-close (some v) p ps u e = ground arith

-- The fragments that follow the first one complete the open unit `u`.
reassemble-fu_packets :
    (fuel h : ℕ) (u rest : List ℕ) (l : Bool) (qs : List (List ℕ))
    → h < 256
    → length rest ≤ fuel
    → rest ≢ []
    → reassemble (some u) (payloads (fu_packets fuel h false rest l) ++ qs)
      ≡ with_unit (u ++ rest) (reassemble none qs)
unfolding fu_packets payloads
reassemble-fu_packets zero h u [] l qs lt le ne = absurd (ne refl)
reassemble-fu_packets zero h u (b ∷ bs) l qs lt le ne = absurd (omega arith)
reassemble-fu_packets (suc fuel) h u [] l qs lt le ne = absurd (ne refl)
reassemble-fu_packets (suc fuel) h u (b ∷ bs) l qs lt le ne =
    elim (Bool-cases (ltb (payload_max - 2) (length (b ∷ bs)))) [
      | inl long ↦ rw long (
          reassemble-open _ _ _ _ (take_next h lt u (take 1398 (b ∷ bs)))
          ∙ reassemble-fu_packets fuel h (u ++ take 1398 (b ∷ bs)) (drop 1398 (b ∷ bs)) l qs lt
              (omega (arith, length-drop 1398 (b ∷ bs)))
              (λ e. omega (
                arith,
                ltb→lt _ _ long,
                length-drop 1398 (b ∷ bs),
                ap (λ (t : List ℕ). length t) e,
              ))
          ∙ ap (λ t. with_unit t (reassemble none qs))
              (append_assoc u _ _ ∙ ap (λ t. u ++ t) (take-append-drop 1398 (b ∷ bs))))
      | inr short ↦ rw short (reassemble-close _ _ _ _ (take_last h lt u (b ∷ bs)))
    ]

-- A unit that the protocol can carry: its header is a byte, and not that of a fragment.
pub record IsUnit (nalu : List ℕ) : Type 0 where
  pub header : ℕ
  pub rest : List ℕ
  pub shape : nalu ≡ header ∷ rest
  pub byte : header < 256
  pub kind : header % 32 ≢ 28

take_single :
    (h : ℕ) (rest : List ℕ)
    → h % 32 ≢ 28
    → take_payload none (h ∷ rest) ≡ some ((h ∷ rest) ∷ [], none)
unfolding take_payload
take_single h [] k = ground arith
take_single h (b ∷ bs) k = ground arith

reassemble-first :
    (h : ℕ) (rest : List ℕ) (l : Bool) (qs : List (List ℕ))
    → h < 256
    → 1400 ≤ length rest
    → reassemble none (payloads (fu_packets (length rest) h true rest l) ++ qs)
      ≡ with_unit (h ∷ rest) (reassemble none qs)
unfolding fu_packets payloads
reassemble-first h [] l qs lt long = absurd (omega arith)
reassemble-first h (b ∷ bs) l qs lt long = rw (lt→ltb 1398 (length (b ∷ bs)) (omega arith)) (
    reassemble-open _ _ _ _ (take_first h lt (take 1398 (b ∷ bs)))
    ∙ reassemble-fu_packets (length bs) h (h ∷ take 1398 (b ∷ bs)) (drop 1398 (b ∷ bs)) l qs lt
        (omega (arith, length-drop 1398 (b ∷ bs)))
        (λ e. omega (arith, length-drop 1398 (b ∷ bs), ap (λ (t : List ℕ). length t) e))
    ∙ ap (λ t. with_unit (h ∷ t) (reassemble none qs)) (take-append-drop 1398 (b ∷ bs)))

reassemble-unit :
    (h : ℕ) (rest : List ℕ) (l : Bool) (qs : List (List ℕ))
    → h < 256
    → h % 32 ≢ 28
    → reassemble none (payloads (nalu_packets (h ∷ rest) l) ++ qs)
      ≡ with_unit (h ∷ rest) (reassemble none qs)
unfolding nalu_packets payloads
reassemble-unit h rest l qs lt kind = elim (Bool-cases (leb (length (h ∷ rest)) payload_max)) [
  | inl short ↦ rw short (reassemble-close _ _ _ _ (take_single h rest kind))
  | inr long ↦ rw long (reassemble-first h rest l qs lt (ground arith))
]

-- The payloads of a unit, whole or in fragments, are read as that unit, in front of what follows.
pub reassemble-nalu_packets :
    (nalu : List ℕ) (l : Bool) (qs : List (List ℕ))
    → IsUnit nalu
    → reassemble none (payloads (nalu_packets nalu l) ++ qs) ≡ with_unit nalu (reassemble none qs)
reassemble-nalu_packets nalu l qs v =
    rw v.shape (reassemble-unit v.header v.rest l qs v.byte v.kind)

pub fu_packets-AllShort :
    (fuel h : ℕ) (first : Bool) (rest : List ℕ) (l : Bool)
    → AllShort (fu_packets fuel h first rest l)
unfolding fu_packets
fu_packets-AllShort zero h first rest l = tt
fu_packets-AllShort (suc fuel) h first [] l = tt
fu_packets-AllShort (suc fuel) h first (b ∷ bs) l =
    elim (Bool-cases (ltb (payload_max - 2) (length (b ∷ bs)))) [
      | inl long ↦ rw long (
        omega (arith, length-take 1398 (b ∷ bs)),
        fu_packets-AllShort fuel h false (drop 1398 (b ∷ bs)) l,
      )
      | inr short ↦ rw short (ground arith, tt)
    ]

-- No packet of a unit has a payload larger than RTP_PAYLOAD_MAX.
pub nalu_packets-AllShort : (nalu : List ℕ) (l : Bool) → AllShort (nalu_packets nalu l)
unfolding nalu_packets
nalu_packets-AllShort [] l = (omega arith, tt)
nalu_packets-AllShort (h ∷ rest) l = elim (Bool-cases (leb (length (h ∷ rest)) payload_max)) [
  | inl short ↦ rw short (leb→le _ _ short, tt)
  | inr long ↦ rw long (fu_packets-AllShort (length rest) h true rest l)
]
