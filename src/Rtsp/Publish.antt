-- ===== src/Rtsp/Publish.antt =====
-- The walk over an access unit in `rtsp_server_publish_h264` of board/src/rtsp_server.c: the packets
-- of its units, sent in order.
use hispark_soc_china.Prelude.{
  ℕ, zero, suc, ◌<◌, ◌≡◌, refl, ap, ◌∙◌, sym, Bool, true, false, none, some, List, [], ◌∷◌, ◌++◌,
  length, take-length-append, append-nil, arith,
}
use hispark_soc_china.Rtsp.State.{Session}
use hispark_soc_china.Rtsp.Packet.{send_nalu}
use hispark_soc_china.Rtsp.Annexb.{send_unit, nalu_loop}
use hispark_soc_china.Rtsp.Receiver.{reassemble}
use hispark_soc_china.Rtsp.Packets.{AllShort, AllShort-append}
use hispark_soc_china.Rtsp.Fragments.{
  nalu_packets, nalu_packets-AllShort, payloads, payloads-append, IsUnit, reassemble-nalu_packets,
  with_unit,
}
use hispark_soc_china.Rtsp.StartCode.{
  NoCode, EndsNonzero, start_code, annexb, find_start_code-next, find_start_code-last,
  strip_zeros-unit, drop_unit_and_code,
}
use hispark_soc_china.Rtsp.Sending.{Sends, Sends-then, Sends-send_nalu}

-- What H.264 promises of a unit: a header byte that is no fragment's, no start code inside, and a
-- last byte that is not zero.
pub record IsNalu (u : List ℕ) : Type 0 where
  pub unit : IsUnit u
  pub no_code : NoCode u
  pub ends : EndsNonzero u

abbrev pub AllNalus : List (Bool × List ℕ) → Type 0
AllNalus [] = Unit
AllNalus ((four, u) ∷ us) = IsNalu u × AllNalus us

-- The units without their start codes.
abbrev pub units : List (Bool × List ℕ) → List (List ℕ)
units [] = []
units ((four, u) ∷ us) = u ∷ units us

-- The packets of `u` and of the units that follow: the marker is on the last one.
unfoldable pub unit_packets : List ℕ → List (Bool × List ℕ) → List (List ℕ × Bool)
unit_packets u [] = nalu_packets u true
unit_packets u ((four, v) ∷ us) = nalu_packets u false ++ unit_packets v us

send_unit-nalu :
    (s : Session) (u : List ℕ) (l : Bool) → EndsNonzero u → send_unit s u l ≡ send_nalu s u l
unfolding send_unit
send_unit-nalu s [] l e = absurd e
send_unit-nalu s (x ∷ xs) l e = refl

-- The loop sends the packets of the units, one after the other.
pub Sends-nalu_loop :
    (fuel : ℕ) (s : Session) (u : List ℕ) (us : List (Bool × List ℕ))
    → IsNalu u
    → AllNalus us
    → length us < fuel
    → Sends s (unit_packets u us) (nalu_loop fuel s (u ++ annexb us))
unfolding nalu_loop unit_packets
Sends-nalu_loop zero s u us v vs lt = absurd (omega arith)
Sends-nalu_loop (suc fuel) s u [] v vs lt =
    rw
      (
        find_start_code-last u v.no_code v.ends,
        nalu_loop,
        append-nil u,
        strip_zeros-unit u v.ends,
        send_unit-nalu s u true v.ends,
      )
      (Sends-send_nalu s u true)
Sends-nalu_loop (suc fuel) s u ((four, w) ∷ us) v vs lt =
    rw
      (
        find_start_code-next u (w ++ annexb us) four v.no_code v.ends,
        nalu_loop,
        take-length-append u (start_code four ++ (w ++ annexb us)),
        drop_unit_and_code u (start_code four) (w ++ annexb us),
        strip_zeros-unit u v.ends,
        send_unit-nalu s u false v.ends,
      )
      (Sends-then s _ _ _ _ (Sends-send_nalu s u false)
        (Sends-nalu_loop fuel _ w us vs.0 vs.1 (omega arith)))

pub unit_packets-AllShort : (u : List ℕ) (us : List (Bool × List ℕ)) → AllShort (unit_packets u us)
unfolding unit_packets
unit_packets-AllShort u [] = nalu_packets-AllShort u true
unit_packets-AllShort u ((four, v) ∷ us) =
    AllShort-append (nalu_packets u false) (unit_packets v us) (nalu_packets-AllShort u false)
      (unit_packets-AllShort v us)

pub reassemble-unit_packets :
    (u : List ℕ) (us : List (Bool × List ℕ))
    → IsNalu u
    → AllNalus us
    → reassemble none (payloads (unit_packets u us)) ≡ some (u ∷ units us)
unfolding unit_packets reassemble
reassemble-unit_packets u [] v vs =
    ap (reassemble none) (sym (append-nil (payloads (nalu_packets u true))))
    ∙ reassemble-nalu_packets u true [] v.unit
reassemble-unit_packets u ((four, w) ∷ us) v vs =
    ap (reassemble none) (payloads-append (nalu_packets u false) (unit_packets w us))
    ∙ reassemble-nalu_packets u false (payloads (unit_packets w us)) v.unit
    ∙ ap (with_unit u) (reassemble-unit_packets w us vs.0 vs.1)
