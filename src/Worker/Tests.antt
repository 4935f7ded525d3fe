-- ===== src/Worker/Tests.antt =====
-- Runs of the model of `control_worker` (board/src/main.c).
use hispark_soc_china.Prelude.{ℕ, ◌≡◌, refl, true, false, none, some, List, [], ◌∷◌, replicate}
use hispark_soc_china.Floats.Thousandths.{thousandths}
use hispark_soc_china.Control.Decide.{LumaStats}
use hispark_soc_china.AppControl.Mailbox.{AppCtrlParams, no_params}
use hispark_soc_china.AppControl.Settings.{Settings}
use hispark_soc_china.LutBridge.Limit.{clut_node_count}
use hispark_soc_china.Worker.State.{infer_ok, infer_other, Worker, Answers, Modes}
use hispark_soc_china.Worker.Poll.{worker_start, worker_poll, worker_run}
use hispark_soc_china.Worker.Degraded.{NetworkIdle, worker_run-NetworkIdle}
use hispark_soc_china.Worker.Stale.{with_stats, worker_poll-stale}
use hispark_soc_china.Worker.Near.{NearLut, worker_poll-NearLut}

abbrev settings : Settings thousandths
settings = record {
  strength = 500;
  high_clip_guard = 3000;
  nn_enabled = true;
  enhancement_enabled = true;
  tone_enabled = true;
  drc_mode = 1;
  drc_strength = 0;
  ldci_mode = 1;
}

abbrev dark_scene : LumaStats thousandths
dark_scene = record { mean_luma = 30000; clip_high_pct = 200; clip_low_pct = 12000 }

abbrev bright_scene : LumaStats thousandths
bright_scene = record { mean_luma = 120000; clip_high_pct = 9000; clip_low_pct = 100 }

abbrev cotf_mode : Modes thousandths
cotf_mode = record { ctbg_mode = false; paramnet_mode = false }

abbrev packed : List ℕ
packed = replicate clut_node_count 1049601

-- A round in which all goes well, and one in which the inference fails.
abbrev good_round : Answers thousandths
good_round = record {
  params = none;
  stats = some dark_scene;
  gamma_ok = true;
  frame_ok = true;
  release_ok = true;
  infer = infer_ok;
  estimator_ok = true;
  packed = some packed;
  load_ok = true;
  clut_ok = true;
}

abbrev bad_round : Answers thousandths
bad_round = record good_round { infer = infer_other }

abbrev start : Worker thousandths
start = worker_start thousandths false settings dark_scene

abbrev broken : Worker thousandths
broken = record start { health = record { consecutive_failures = 3; degraded = true } }

worker_run-NetworkIdle_example :
    NetworkIdle thousandths broken (worker_run thousandths cotf_mode broken (good_round ∷ []))
worker_run-NetworkIdle_example =
    worker_run-NetworkIdle thousandths cotf_mode broken (good_round ∷ []) refl

abbrev louder : AppCtrlParams thousandths
louder = record (no_params thousandths) { tone_strength = some 900 }

abbrev told_round : Answers thousandths
told_round = record good_round { params = some louder }

worker_poll-stale_example :
    worker_poll thousandths cotf_mode start (with_stats thousandths told_round dark_scene)
    ≡ worker_poll thousandths cotf_mode start (with_stats thousandths told_round bright_scene)
worker_poll-stale_example =
    worker_poll-stale thousandths cotf_mode start told_round louder dark_scene bright_scene refl

abbrev coloured : Worker thousandths
coloured = record start { have_previous_lut = true; previous_lut = replicate clut_node_count 0 }

worker_poll-NearLut_example :
    NearLut thousandths coloured.previous_lut
      (worker_poll thousandths cotf_mode coloured good_round)
worker_poll-NearLut_example =
    worker_poll-NearLut thousandths cotf_mode coloured good_round
      (record { present = refl; filled = refl }) refl
