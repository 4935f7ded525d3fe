-- ===== src/AppControl/Tests.antt =====
-- Runs of the models of board/src/app_control.c.
use hispark_soc_china.Prelude.{◌≡◌, refl, true, false, some, List, [], ◌∷◌}
use hispark_soc_china.Floats.Thousandths.{thousandths}
use hispark_soc_china.AppControl.Mailbox.{AppCtrlParams, no_params, empty_mailbox}
use hispark_soc_china.AppControl.Settings.{
  Settings, apply_params, SlotOp, push, drain, slot_run, settled, pushed, slot_run-pushed,
}

abbrev settings : Settings thousandths
settings = record {
  strength = 500;
  high_clip_guard = 3000;
  nn_enabled = true;
  enhancement_enabled = true;
  tone_enabled = true;
  drc_mode = 1;
  drc_strength = 0;
  ldci_mode = 1;
}

abbrev stronger : AppCtrlParams thousandths
stronger = record (no_params thousandths) { tone_strength = some 900; bitrate_kbps = some 4000 }

abbrev network_off : AppCtrlParams thousandths
network_off = record (no_params thousandths) {
  tone_strength = some 200;
  nn_clut_enabled = some false;
}

-- Two threads push before the worker drains, and one pushes afterwards.
abbrev ops : List (SlotOp thousandths)
ops = push stronger ∷ push network_off ∷ drain ∷ drain ∷ push stronger ∷ []

slot_run-pushed_example :
    settled thousandths
      (slot_run thousandths (record { slot = empty_mailbox thousandths; settings = settings }) ops)
    ≡ pushed thousandths settings ops
slot_run-pushed_example = slot_run-pushed thousandths settings ops

two_threads_settle :
    pushed thousandths settings ops ≡ record settings { strength = 900; nn_enabled = false }
unfolding apply_params
two_threads_settle = refl
