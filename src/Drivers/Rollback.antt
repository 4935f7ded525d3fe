-- ===== src/Drivers/Rollback.antt =====
-- Whatever fails, board/src/display.c asks for each part that it has brought up to be taken down, the last
-- part first.
use hispark_soc_china.Prelude.{
  ◌≡◌, refl, ap, ◌∙◌, Bool, true, false, some, List, [], ◌∷◌, arith, if_both,
}
use hispark_soc_china.Drivers.Journal.{
  Part, vo_device, vo_layer, vo_channel, hdmi_library, hdmi_device, hdmi_output, Entry, up,
  standing, standing_then,
}
use hispark_soc_china.Drivers.Display.{
  VoAnswers, HdmiAnswers, BlackAnswers, DisplayAnswers, display_start_vo, display_config_hdmi,
  display_show_black, start_output, after_vo, fresh_display, display_deinit, DisplayOp, fail_vo,
  VoEnd, end_hdmi, DisplayEnd,
}

abbrev vo_parts : List Part → List Part
vo_parts st = vo_channel ∷ vo_layer ∷ vo_device ∷ st

abbrev hdmi_parts : List Part → List Part
hdmi_parts st = hdmi_device ∷ hdmi_library ∷ st

-- The parts of a display that is up.
abbrev pub display_parts : List Part → List Part
display_parts st = hdmi_output ∷ hdmi_parts (vo_parts st)

-- The parts, or none of them.
abbrev pub parts_if : (List Part → List Part) → Bool → List Part → List Part
parts_if parts false st = st
parts_if parts true st = parts st

-- The library maps no block at the address 0.
abbrev pub MapsNoZero : BlackAnswers → Type 0
MapsNoZero a = a.phys_addr ≡ false → a.mmap ≡ false

-- A call with its answer leaves the parts, or the stack as it was.
abbrev pub Leaves : (List Part → List Part) → List Part → List Entry × Bool → Type 0
Leaves parts st r = standing st r.0 ≡ some (parts_if parts r.1 st)

display_start_vo-Leaves : (a : VoAnswers) (st : List Part) → Leaves vo_parts st (display_start_vo a)
unfolding display_start_vo standing
display_start_vo-Leaves a st = ground arith

display_config_hdmi-Leaves :
    (a : HdmiAnswers) (st : List Part) → Leaves hdmi_parts st (display_config_hdmi a)
unfolding display_config_hdmi standing
display_config_hdmi-Leaves a st = ground arith

display_show_black-standing :
    (a : BlackAnswers) (st : List Part)
    → MapsNoZero a
    → standing st (display_show_black a).0 ≡ some st
unfolding display_show_black standing
display_show_black-standing a st z = ground arith

standing-fail_vo : (e : VoEnd) (st : List Part) → standing (vo_parts st) (fail_vo e) ≡ some st
unfolding standing
standing-fail_vo e st = refl

standing-display_parts :
    (e : DisplayEnd) (st : List Part)
    → standing (display_parts st) (display_deinit true e).0 ≡ some st
unfolding standing display_deinit
standing-display_parts e st = refl

start_output-Leaves :
    (a : DisplayAnswers) (st : List Part)
    → MapsNoZero a.black
    → standing (hdmi_parts (vo_parts st)) (start_output a).0
      ≡ some (parts_if display_parts (start_output a).1 st)
unfolding start_output standing
start_output-Leaves a st z =
    let j = (display_show_black a.black).0 in
    let hdmi_up = hdmi_parts (vo_parts st) in
    let black = display_show_black-standing a.black hdmi_up z in
    if_both a.hdmi_start
      (λ (r : List Entry × Bool).
        standing (hdmi_parts (vo_parts st)) r.0 ≡ some (parts_if display_parts r.1 st))
      (λ e. standing_then j (up hdmi_output ∷ []) hdmi_up hdmi_up black)
      (λ e. standing_then j (end_hdmi a.hdmi_end (fail_vo a.vo_end)) hdmi_up hdmi_up black)

known-Leaves :
    (parts : List Part → List Part) (st : List Part) (r : List Entry × Bool) (b : Bool)
    → Leaves parts st r
    → r.1 ≡ b
    → standing st r.0 ≡ some (parts_if parts b st)
known-Leaves parts st r b h e = h ∙ ap (λ x. some (parts_if parts x st)) e

after_vo-Leaves :
    (a : DisplayAnswers) (st : List Part)
    → MapsNoZero a.black
    → standing (vo_parts st) (after_vo a).0 ≡ some (parts_if display_parts (after_vo a).1 st)
unfolding after_vo
after_vo-Leaves a st z =
    let hdmi = display_config_hdmi a.hdmi in
    let leaves = known-Leaves hdmi_parts (vo_parts st) hdmi in
    let config = display_config_hdmi-Leaves a.hdmi (vo_parts st) in
    if_both hdmi.1
      (λ (r : List Entry × Bool). standing (vo_parts st) r.0 ≡ some (parts_if display_parts r.1 st))
      (λ e.
        standing_then hdmi.0 (start_output a).0 (vo_parts st) (hdmi_parts (vo_parts st))
          (leaves true config e)
        ∙ start_output-Leaves a st z)
      (λ e.
        standing_then hdmi.0 (fail_vo a.vo_end) (vo_parts st) (vo_parts st) (leaves false config e)
        ∙ standing-fail_vo a.vo_end st)

pub fresh_display-Leaves :
    (a : DisplayAnswers) (st : List Part)
    → MapsNoZero a.black
    → Leaves display_parts st (fresh_display a)
unfolding fresh_display
fresh_display-Leaves a st z =
    let vo = display_start_vo a.vo in
    let start = display_start_vo-Leaves a.vo st in
    if_both vo.1 (Leaves display_parts st)
      (λ e.
        standing_then vo.0 (after_vo a).0 st (vo_parts st)
          (known-Leaves vo_parts st vo true start e)
        ∙ after_vo-Leaves a st z)
      (λ e. known-Leaves vo_parts st vo false start e)

-- No answer to a call of the run maps a block at the address 0.
abbrev pub RunMapsNoZero : List DisplayOp → Type 0
RunMapsNoZero [] = Unit
RunMapsNoZero (DisplayOp.init a ∷ ops) = MapsNoZero a.black × RunMapsNoZero ops
RunMapsNoZero (DisplayOp.deinit e ∷ ops) = RunMapsNoZero ops
