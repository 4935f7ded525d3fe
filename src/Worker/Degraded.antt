-- ===== src/Worker/Degraded.antt =====
-- What is left of `control_worker` (board/src/main.c) once its health is degraded.
use hispark_soc_china.Prelude.{
  ℕ, ◌+◌, ◌≡◌, ap, ◌∙◌, true, false, Option, none, some, List, [], ◌∷◌, arith, if_both,
}
use hispark_soc_china.Floats.{FloatOps}
use hispark_soc_china.Control.Decide.{LumaStats}
use hispark_soc_china.AppControl.Mailbox.{AppCtrlParams}
use hispark_soc_china.Worker.State.{
  Call, load_clut, clut_auto, clut_off, gamma, load_blob, set_bitrate, Worker, Answers, Modes, call,
  tick, mode_to_tone,
}
use hispark_soc_china.Worker.Poll.{
  direct_calls, consume_params, keep_dirty, refresh_test, clear_clut, nn_ready, nn_stage,
  gamma_alone, refused_gamma, paramnet_path, refresh, sample, tone_mode, effective_strength,
  worker_poll, worker_run,
}

module _ (fl : FloatOps) where
  -- The calls that give the ISP a LUT or switch its CLUT on.
  abbrev pub clut_writes : List (Call fl) → ℕ
  clut_writes [] = 0
  clut_writes (load_clut lut ∷ calls) = 1 + clut_writes calls
  clut_writes (clut_auto ∷ calls) = 1 + clut_writes calls
  clut_writes (clut_off ∷ calls) = clut_writes calls
  clut_writes (gamma tone strength ∷ calls) = clut_writes calls
  clut_writes (load_blob path ∷ calls) = clut_writes calls
  clut_writes (set_bitrate k ∷ calls) = clut_writes calls

  -- From `w` to `w'` the network did nothing, and the health stayed as it was.
  pub record NetworkIdle (w w' : Worker fl) : Type 0 where
    pub health : w'.health ≡ w.health
    pub requests : w'.metrics.lut_requests ≡ w.metrics.lut_requests
    pub runs : w'.metrics.infer_runs ≡ w.metrics.infer_runs
    pub updates : w'.metrics.lut_updates ≡ w.metrics.lut_updates
    pub failures : w'.metrics.lut_failures ≡ w.metrics.lut_failures
    pub events : w'.metrics.degraded_events ≡ w.metrics.degraded_events
    pub fatal : w'.fatal_error ≡ w.fatal_error
    pub stop : w'.stop ≡ w.stop
    pub writes : clut_writes w'.calls ≡ clut_writes w.calls

  NetworkIdle-trans : (a b c : Worker fl) → NetworkIdle a b → NetworkIdle b c → NetworkIdle a c
  NetworkIdle-trans a b c u v = record {
    health = v.health ∙ u.health;
    requests = v.requests ∙ u.requests;
    runs = v.runs ∙ u.runs;
    updates = v.updates ∙ u.updates;
    failures = v.failures ∙ u.failures;
    events = v.events ∙ u.events;
    fatal = v.fatal ∙ u.fatal;
    stop = v.stop ∙ u.stop;
    writes = v.writes ∙ u.writes;
  }

  clut_writes-direct_calls :
      (p : AppCtrlParams fl) (calls : List (Call fl))
      → clut_writes (direct_calls fl p calls) ≡ clut_writes calls
  unfolding direct_calls
  clut_writes-direct_calls p calls = ground arith

  consume_params-idle :
      (w : Worker fl) (p : Option (AppCtrlParams fl)) → NetworkIdle w (consume_params fl w p)
  unfolding consume_params
  consume_params-idle w none = ground arith
  consume_params-idle w (some p) = ground (arith, clut_writes-direct_calls p w.calls)

  keep_dirty-idle : (w : Worker fl) → NetworkIdle w (keep_dirty fl w)
  unfolding keep_dirty
  keep_dirty-idle w = ground arith

  refresh_test-idle : (w : Worker fl) (raw : LumaStats fl) → NetworkIdle w (refresh_test fl w raw).0
  unfolding refresh_test
  refresh_test-idle w raw = ground arith

  not_ready : (w : Worker fl) → w.health.degraded ≡ true → nn_ready fl w ≡ false
  unfolding nn_ready
  not_ready w d = ground arith

  clear_clut-idle : (w : Worker fl) → NetworkIdle w (clear_clut fl w)
  unfolding clear_clut
  clear_clut-idle w = ground arith

  gamma_alone-idle : (w : Worker fl) → NetworkIdle w (gamma_alone fl w)
  unfolding gamma_alone
  gamma_alone-idle w = ground arith

  nn_stage-idle :
      (modes : Modes fl) (w : Worker fl) (a : Answers fl)
      → w.health.degraded ≡ true
      → NetworkIdle w (nn_stage fl modes w a)
  unfolding nn_stage
  nn_stage-idle modes w a d =
      let u = clear_clut-idle w in
      let off = not_ready (clear_clut fl w) (ground arith) in
      NetworkIdle-trans _ _ _ u (rw off (ground (arith, gamma_alone-idle (clear_clut fl w))))

  paramnet_path-idle :
      (w : Worker fl) (a : Answers fl)
      → w.health.degraded ≡ true
      → NetworkIdle w (paramnet_path fl w a)
  unfolding paramnet_path
  paramnet_path-idle w a d = rw (not_ready w d) (ground arith)

  toned-idle :
      (w : Worker fl) (g : Call fl) → clut_writes (g ∷ []) ≡ 0 → NetworkIdle w (call fl g w)
  toned-idle w g e = ground arith

  refused_gamma-idle : (w : Worker fl) → NetworkIdle w (refused_gamma fl w)
  unfolding refused_gamma
  refused_gamma-idle w = ground arith

  refresh-idle :
      (modes : Modes fl) (w : Worker fl) (a : Answers fl)
      → w.health.degraded ≡ true
      → NetworkIdle w (refresh fl modes w a)
  unfolding refresh
  refresh-idle modes w a d =
      let g = gamma (mode_to_tone (tone_mode fl w)) (effective_strength fl w.settings) in
      let kept = keep_dirty-idle w in
      let toned : NetworkIdle w (call fl g (keep_dirty fl w)) = ground arith in
      if_both modes.paramnet_mode (NetworkIdle w) (λ on. paramnet_path-idle w a d)
        (λ off.
          if_both a.gamma_ok (NetworkIdle w)
            (λ ok.
              NetworkIdle-trans _ _ _ toned
                (nn_stage-idle modes _ a (ap (λ h. h.degraded) toned.health ∙ d)))
            (λ no. NetworkIdle-trans _ _ _ toned (refused_gamma-idle _)))

  sampled-idle :
      (modes : Modes fl) (w : Worker fl) (a : Answers fl) (stats : Option (LumaStats fl))
      → w.health.degraded ≡ true
      → NetworkIdle w (sample fl modes w (record a { stats = stats }))
  unfolding sample
  sampled-idle modes w a none d = ground arith
  sampled-idle modes w a (some raw) d =
      let polled = record w {
        metrics = record w.metrics { control_polls = tick w.metrics.control_polls };
      } in
      let v : NetworkIdle w (refresh_test fl polled raw).0 =
        NetworkIdle-trans w polled _ (ground arith) (refresh_test-idle polled raw) in
      if_both (refresh_test fl polled raw).1 (NetworkIdle w)
        (λ due.
          NetworkIdle-trans _ _ _ v (refresh-idle modes _ _ (ap (λ h. h.degraded) v.health ∙ d)))
        (λ idle. v)

  worker_poll-idle :
      (modes : Modes fl) (w : Worker fl) (a : Answers fl)
      → w.health.degraded ≡ true
      → NetworkIdle w (worker_poll fl modes w a)
  unfolding worker_poll
  worker_poll-idle modes w a d =
      let u = consume_params-idle w a.params in
      NetworkIdle-trans _ _ _ u (sampled-idle modes _ a a.stats (ap (λ h. h.degraded) u.health ∙ d))

  -- Once the health is degraded, no parameters and no answers make the network act again, in any of
  -- the three modes: the health stays degraded, no inference, LUT request, failure or event is
  -- counted any more, the CLUT is neither loaded nor switched on, and the thread does not stop itself.
  pub worker_run-NetworkIdle :
      (modes : Modes fl) (w : Worker fl) (as' : List (Answers fl))
      → w.health.degraded ≡ true
      → NetworkIdle w (worker_run fl modes w as')
  unfolding worker_run
  worker_run-NetworkIdle modes w [] d = ground arith
  worker_run-NetworkIdle modes w (a ∷ as') d =
      let u = worker_poll-idle modes w a d in
      if_both w.stop (NetworkIdle w) (λ e. ground arith)
        (λ e. NetworkIdle-trans _ _ _ u (
          worker_run-NetworkIdle modes (worker_poll fl modes w a) as'
            (ap (λ h. h.degraded) u.health ∙ d)))
