-- ===== src/Rtsp/Markers.antt =====
-- The marker bits of the packets of an access unit (`last_nalu` of board/src/rtsp_server.c).
use hispark_soc_china.Prelude.{
  ℕ, zero, suc, ◌-◌, ◌≤◌, ◌<◌, ◌≡◌, refl, Bool, true, false, List, [], ◌∷◌, ◌++◌, length, take,
  drop, length-drop, arith, leb, ltb, ltb→lt, Bool-cases, inl, inr,
}
use hispark_soc_china.Rtsp.Packet.{payload_max, fu_indicator, fu_header}
use hispark_soc_china.Rtsp.Fragments.{fu_packets, nalu_packets}

-- All markers but the last are clear, and the last one is `l`.
abbrev pub Marks : Bool → List (List ℕ × Bool) → Type 0
Marks l [] = ⊥
Marks l ((p, m) ∷ []) = m ≡ l
Marks l ((p, m) ∷ q ∷ qs) = (m ≡ false) × Marks l (q ∷ qs)

Marks-cons :
    (l : Bool) (p : List ℕ) (qs : List (List ℕ × Bool)) → Marks l qs → Marks l ((p, false) ∷ qs)
Marks-cons l p [] h = absurd h
Marks-cons l p (q ∷ qs) h = (refl, h)

pub Marks-append :
    (l : Bool) (ps qs : List (List ℕ × Bool)) → Marks false ps → Marks l qs → Marks l (ps ++ qs)
Marks-append l [] qs h k = absurd h
Marks-append l ((p, m) ∷ []) [] h k = absurd k
Marks-append l ((p, m) ∷ []) (q ∷ qs) h k = (h, k)
Marks-append l ((p, m) ∷ r ∷ ps) qs h k = (h.0, Marks-append l (r ∷ ps) qs h.1 k)

Marks-fu_packets :
    (fuel h : ℕ) (first : Bool) (rest : List ℕ) (l : Bool)
    → 0 < length rest
    → length rest ≤ fuel
    → Marks l (fu_packets fuel h first rest l)
unfolding fu_packets
Marks-fu_packets zero h first rest l pos le = absurd (omega arith)
Marks-fu_packets (suc fuel) h first [] l pos le = absurd (omega arith)
Marks-fu_packets (suc fuel) h first (b ∷ bs) l pos le =
    elim (Bool-cases (ltb (payload_max - 2) (length (b ∷ bs)))) [
      | inl long ↦ rw long (
          Marks-cons l (fu_indicator h ∷ fu_header h first false ∷ take 1398 (b ∷ bs)) _ (
            Marks-fu_packets fuel h false (drop 1398 (b ∷ bs)) l
              (omega (arith, ltb→lt _ _ long, length-drop 1398 (b ∷ bs)))
              (omega (arith, length-drop 1398 (b ∷ bs)))))
      | inr short ↦ rw short refl
    ]

pub Marks-nalu_packets : (nalu : List ℕ) (l : Bool) → Marks l (nalu_packets nalu l)
unfolding nalu_packets
Marks-nalu_packets [] l = refl
Marks-nalu_packets (h ∷ rest) l = elim (Bool-cases (leb (length (h ∷ rest)) payload_max)) [
  | inl short ↦ rw short refl
  | inr long ↦ rw long (Marks-fu_packets (length rest) h true rest l (ground arith) (omega arith))
]
