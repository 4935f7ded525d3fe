-- ===== src/Worker/Cotf.antt =====
-- The CoTF path of `control_worker` (board/src/main.c): frame, inference, bridge, CLUT.
use hispark_soc_china.Prelude.{ℕ, true, false, Option, none, some, List, ◌∷◌, if◌then◌else◌}
use hispark_soc_china.Floats.{FloatOps}
use hispark_soc_china.Control.Health.{control_health_record}
use hispark_soc_china.Control.Feedback.{control_feedback_commit}
use hispark_soc_china.LutBridge.Limit.{limit_packed_step, clut_node_count}
use hispark_soc_china.Worker.State.{
  degraded, failed, tick, InferStatus, infer_ok, infer_runtime, infer_other, clut_off, clut_auto,
  load_clut, Worker, Answers, call,
}

abbrev pub app_nn_failure_limit : ℕ
app_nn_failure_limit = 3

abbrev pub app_clut_max_step_10bit : ℕ
app_clut_max_step_10bit = 64

module _ (fl : FloatOps) where
  -- The borrowed frame: what the inference returns, and the counters. A frame that cannot be given
  -- back counts as an I/O error.
  unfoldable pub cotf_infer : Worker fl → Answers fl → Worker fl × InferStatus
  cotf_infer w a =
      let m = record w.metrics { lut_requests = tick w.metrics.lut_requests } in
      let m_run = record m { infer_runs = tick m.infer_runs } in
      if a.frame_ok
      then if a.release_ok then (record w { metrics = m_run }, a.infer) else (
        record w { metrics = record m_run { transient_errors = tick m_run.transient_errors } },
        infer_other,
      )
      else (record w { metrics = record m { frame_timeouts = tick m.frame_timeouts } }, infer_other)

  -- The LUT that goes to the ISP: the packed one, limited against the previous one if there is one.
  unfoldable pub cotf_lut : Worker fl → Answers fl → Option (List ℕ)
  cotf_lut w a = elim a.packed [
    | none ↦ none
    | some packed ↦
        if w.have_previous_lut
        then limit_packed_step (some w.previous_lut) (some packed) clut_node_count
            app_clut_max_step_10bit
        else some packed
  ]

  -- A transaction that failed.
  unfoldable pub cotf_failure : Worker fl → Worker fl
  cotf_failure w =
      let m = record w.metrics {
        lut_failures = tick w.metrics.lut_failures;
        transient_errors = tick w.metrics.transient_errors;
      } in
      let (h, now_degraded) = control_health_record w.health false app_nn_failure_limit in
      let m_degraded = record m { degraded_events = tick m.degraded_events; state = degraded } in
      if now_degraded
      then record w {
        health = h;
        metrics = m_degraded;
        feedback = control_feedback_commit fl w.feedback;
        calls = clut_off ∷ w.calls;
      }
      else record w { health = h; metrics = m }

  -- A transaction that succeeded with this LUT.
  unfoldable pub cotf_success : Worker fl → List ℕ → Worker fl
  cotf_success w lut = record w {
    health = (control_health_record w.health true app_nn_failure_limit).0;
    metrics = record w.metrics { lut_updates = tick w.metrics.lut_updates };
    previous_lut = lut;
    have_previous_lut = true;
    feedback = control_feedback_commit fl w.feedback;
  }

  -- Loading the LUT, and enabling the CLUT if that worked.
  unfoldable pub cotf_apply : Worker fl → Answers fl → List ℕ → Worker fl
  unfolding cotf_failure cotf_success
  cotf_apply w a lut =
      let loaded = call fl (load_clut lut) w in
      let enabled = call fl clut_auto loaded in
      if a.load_ok
      then if a.clut_ok then cotf_success enabled lut else cotf_failure enabled
      else cotf_failure loaded

  unfoldable pub cotf_transaction : Worker fl → Answers fl → InferStatus → Worker fl
  unfolding cotf_lut cotf_apply cotf_failure
  cotf_transaction w a infer_runtime = record w {
    fatal_error = true;
    metrics = record w.metrics { fatal_errors = tick w.metrics.fatal_errors; state = failed };
    stop = true;
  }
  cotf_transaction w a infer_other = cotf_failure w
  cotf_transaction w a infer_ok = elim (cotf_lut w a) [
    | none ↦ cotf_failure w
    | some lut ↦ cotf_apply w a lut
  ]

  unfoldable pub cotf_path : Worker fl → Answers fl → Worker fl
  unfolding cotf_infer cotf_transaction
  cotf_path w a = let (w', status) = cotf_infer w a in cotf_transaction w' a status
