-- ===== src/Worker/Poll.antt =====
-- One round of the loop of `control_worker` (board/src/main.c), its start and its end.
use hispark_soc_china.Prelude.{
  ◌+◌, Bool, true, false, ◌&&◌, not, Option, none, some, List, [], ◌∷◌, ltb, if◌then◌else◌,
}
use hispark_soc_china.Floats.{FloatOps}
use hispark_soc_china.Control.Decide.{LumaStats, ExpoMode, bypass, brighten, control_decide}
use hispark_soc_china.Control.Health.{ControlHealth, control_health_record, control_health_init}
use hispark_soc_china.Control.Feedback.{
  control_feedback_init, control_feedback_observe, control_feedback_commit,
}
use hispark_soc_china.AppControl.Mailbox.{AppCtrlParams}
use hispark_soc_china.AppControl.Settings.{Settings, apply_params, given_or}
use hispark_soc_china.Worker.State.{
  running, degraded, Metrics, tick, infer_ok, tone_bypass, mode_to_tone, Call, clut_off, gamma,
  load_blob, set_bitrate, Worker, Answers, call, Modes,
}
use hispark_soc_china.Worker.Cotf.{cotf_path, app_nn_failure_limit}

module _ (fl : FloatOps) where
  open fl use {F, lt, lit}

  abbrev no_counts : Metrics
  no_counts = record {
    state = running;
    control_polls = 0;
    frame_timeouts = 0;
    infer_runs = 0;
    lut_requests = 0;
    lut_updates = 0;
    lut_failures = 0;
    transient_errors = 0;
    fatal_errors = 0;
    degraded_events = 0;
  }

  -- What `main` hands over, if `infer_init` failed: a thread that is degraded from the start, without
  -- the network, and with the event counted.
  abbrev pub start_settings : Bool → Settings fl → Settings fl
  start_settings infer_failed s = if infer_failed then record s { nn_enabled = false } else s

  abbrev pub start_health : Bool → ControlHealth
  start_health infer_failed =
      if infer_failed then record control_health_init { degraded = true } else control_health_init

  abbrev pub start_metrics : Bool → Metrics
  start_metrics infer_failed =
      if infer_failed then record no_counts { state = degraded; degraded_events = 1 } else no_counts

  -- The state when the loop begins. `garbage` is what `cur` holds before it is written.
  unfoldable pub worker_start : Bool → Settings fl → LumaStats fl → Worker fl
  worker_start infer_failed settings garbage = record {
    settings = start_settings infer_failed settings;
    bridge_strength = settings.strength;
    health = start_health infer_failed;
    feedback = control_feedback_init fl;
    cur = garbage;
    have_previous_lut = false;
    previous_lut = [];
    params_dirty = false;
    nn_retry = 0;
    metrics = start_metrics infer_failed;
    fatal_error = false;
    stop = false;
    coeff_ready = false;
    scene_changed = false;
    calls = gamma tone_bypass settings.strength ∷ clut_off ∷ [];
  }

  -- The calls for the fields that act at once: the bitrate first, then the ISP file.
  unfoldable pub direct_calls : AppCtrlParams fl → List (Call fl) → List (Call fl)
  direct_calls p calls =
      let after_bitrate : List (Call fl) = elim p.bitrate_kbps [
        | none ↦ calls
        | some k ↦ set_bitrate k ∷ calls
      ] in
      elim p.isp_blob_path [ none ↦ after_bitrate | some path ↦ load_blob path ∷ after_bitrate ]

  -- The block that follows `app_ctrl_drain`.
  unfoldable pub consume_params : Worker fl → Option (AppCtrlParams fl) → Worker fl
  unfolding direct_calls
  consume_params w none = w
  consume_params w (some p) = record w {
    settings = apply_params fl w.settings p;
    bridge_strength = given_or w.bridge_strength p.tone_strength;
    params_dirty = true;
    calls = direct_calls p w.calls;
  }

  -- `refresh = params_dirty || control_feedback_observe(&feedback, &raw_stats, &cur)`: with
  -- `params_dirty` set the second operand is not evaluated, and `cur` is not written.
  unfoldable pub refresh_test : Worker fl → LumaStats fl → Worker fl × Bool
  refresh_test w raw =
      let (f, changed, out) = control_feedback_observe fl w.feedback (some raw) in
      let observed = record w { feedback = f; cur = given_or w.cur out } in
      if w.params_dirty then (w, true) else (observed, changed)

  -- The two switches.
  unfoldable pub effective_strength : Settings fl → F
  effective_strength s = if s.tone_enabled && s.enhancement_enabled then s.strength else lit 0 1

  unfoldable pub effective_nn : Settings fl → Bool
  effective_nn s = s.enhancement_enabled && s.nn_enabled

  -- `effective_nn && !ctx->health.degraded`
  unfoldable pub nn_ready : Worker fl → Bool
  nn_ready w = effective_nn w.settings && not w.health.degraded

  -- The ParamNet path.
  unfoldable pub paramnet_run : Worker fl → Answers fl → Worker fl
  paramnet_run w a =
      let m = record w.metrics { lut_requests = tick w.metrics.lut_requests } in
      let m_released =
        if a.release_ok then m else record m { transient_errors = tick m.transient_errors } in
      let m_run = record m_released { infer_runs = tick m_released.infer_runs } in
      let good = record w {
        health = (control_health_record w.health true app_nn_failure_limit).0;
        metrics = record m_run { lut_updates = tick m_run.lut_updates };
        feedback = control_feedback_commit fl w.feedback;
      } in
      let bad = record w {
        metrics = record m_run {
          lut_failures = tick m_run.lut_failures;
          transient_errors = tick m_run.transient_errors;
        };
      } in
      if a.frame_ok
      then elim a.infer [ infer_ok ↦ good | _ ↦ bad ]
      else record w { metrics = record m { frame_timeouts = tick m.frame_timeouts } }

  unfoldable pub paramnet_path : Worker fl → Answers fl → Worker fl
  unfolding paramnet_run
  paramnet_path w a =
      let ran = if nn_ready w then paramnet_run w a else w in record ran { params_dirty = false }

  -- The mode that is asked of the ISP: a strength that the user set turns BYPASS into BRIGHTEN.
  unfoldable pub tone_mode : Worker fl → ExpoMode
  tone_mode w = elim (control_decide fl (some w.cur)) [
    | bypass ↦ if lt (lit 0 1) (effective_strength w.settings) then brighten else bypass
    | m ↦ m
  ]

  -- Whether the manual change is kept for another round.
  unfoldable pub keep_dirty : Worker fl → Worker fl
  keep_dirty w =
      if w.params_dirty
        && (effective_nn w.settings && (not w.have_previous_lut && ltb w.nn_retry 10))
      then record w { nn_retry = w.nn_retry + 1 }
      else record w { params_dirty = false; nn_retry = 0 }

  -- The CTBG path.
  unfoldable pub ctbg_path : Worker fl → Answers fl → Worker fl
  ctbg_path w a =
      let m = record w.metrics { lut_requests = tick w.metrics.lut_requests } in
      let m_frame =
        if a.frame_ok
        then if a.release_ok then m else record m { transient_errors = tick m.transient_errors }
        else record m { frame_timeouts = tick m.frame_timeouts } in
      let good = record w {
        health = (control_health_record w.health true app_nn_failure_limit).0;
        metrics = record m_frame {
          lut_updates = tick m_frame.lut_updates;
          infer_runs = tick m_frame.infer_runs;
        };
        feedback = control_feedback_commit fl w.feedback;
        coeff_ready = true;
        scene_changed = true;
      } in
      let bad = record w {
        metrics = record m_frame {
          lut_failures = tick m_frame.lut_failures;
          transient_errors = tick m_frame.transient_errors;
        };
      } in
      if a.frame_ok && a.estimator_ok then good else bad

  -- A CLUT that is left from before is switched off when the network is.
  unfoldable pub clear_clut : Worker fl → Worker fl
  clear_clut w =
      if not (effective_nn w.settings) && w.have_previous_lut
      then record w { have_previous_lut = false; calls = clut_off ∷ w.calls }
      else w

  -- The high-clip guard: the CLUT is bypassed.
  unfoldable pub guard_clut : Worker fl → Worker fl
  guard_clut w = record w {
    have_previous_lut = false;
    feedback = control_feedback_commit fl w.feedback;
    calls = clut_off ∷ w.calls;
  }

  -- Gamma alone: no model, or a degraded one.
  unfoldable pub gamma_alone : Worker fl → Worker fl
  gamma_alone w = record w { feedback = control_feedback_commit fl w.feedback }

  -- From the CLUT's clearing on: the guard, then the CTBG path, the CoTF path, or Gamma alone.
  unfoldable pub nn_stage : Modes fl → Worker fl → Answers fl → Worker fl
  unfolding clear_clut guard_clut gamma_alone
  nn_stage modes w a =
      let w' = clear_clut w in
      if not modes.ctbg_mode && (nn_ready w' && lt w'.settings.high_clip_guard w'.cur.clip_high_pct)
      then guard_clut w'
      else if nn_ready w'
      then if modes.ctbg_mode then ctbg_path w' a else cotf_path fl w' a
      else gamma_alone w'

  unfoldable pub refused_gamma : Worker fl → Worker fl
  refused_gamma w = record w {
    metrics = record w.metrics { transient_errors = tick w.metrics.transient_errors };
  }

  -- A refresh: Gamma first, and nothing more if the ISP refuses it.
  unfoldable pub refresh : Modes fl → Worker fl → Answers fl → Worker fl
  unfolding nn_stage keep_dirty paramnet_path refused_gamma
  refresh modes w a =
      let kept = keep_dirty w in
      let toned =
        call fl (gamma (mode_to_tone (tone_mode w)) (effective_strength w.settings)) kept in
      if modes.paramnet_mode
      then paramnet_path w a
      else if a.gamma_ok
      then nn_stage modes toned a
      else refused_gamma toned

  -- The statistics, and the decision whether to refresh.
  unfoldable pub sample : Modes fl → Worker fl → Answers fl → Worker fl
  unfolding refresh
  sample modes w a =
      let polled = record w.metrics { control_polls = tick w.metrics.control_polls } in
      elim a.stats [
        | none ↦ record w {
          metrics = record polled { transient_errors = tick polled.transient_errors };
        }
        | some raw ↦
            let (w', due) = refresh_test (record w { metrics = polled }) raw in
            if due then refresh modes w' a else w'
      ]

  unfoldable pub worker_poll : Modes fl → Worker fl → Answers fl → Worker fl
  unfolding consume_params sample
  worker_poll modes w a = sample modes (consume_params w a.params) a

  -- What is done when the loop is left.
  unfoldable pub worker_exit : Worker fl → Worker fl
  worker_exit w = call fl (gamma tone_bypass w.settings.strength) (call fl clut_off w)

  -- The loop, round by round; `g_stop` is set by a round or, from outside, by the end of the list.
  unfoldable pub worker_run : Modes fl → Worker fl → List (Answers fl) → Worker fl
  worker_run modes w [] = w
  worker_run modes w (a ∷ as') =
      let next = worker_run modes (worker_poll modes w a) as' in if w.stop then w else next
