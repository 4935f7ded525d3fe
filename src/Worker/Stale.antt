-- ===== src/Worker/Stale.antt =====
-- What `control_worker` (board/src/main.c) makes of the statistics in a round with new parameters.
use hispark_soc_china.Prelude.{◌≡◌, refl, ap, sym, ◌∙◌, Bool, true, Option, some, if◌then◌else◌}
use hispark_soc_china.Floats.{FloatOps}
use hispark_soc_china.Control.Decide.{LumaStats}
use hispark_soc_china.AppControl.Mailbox.{AppCtrlParams}
use hispark_soc_china.Worker.State.{
  InferStatus, infer_ok, infer_runtime, infer_other, Worker, Answers, Modes, gamma, mode_to_tone,
  call, tick,
}
use hispark_soc_china.Worker.Cotf.{cotf_lut, cotf_apply, cotf_infer, cotf_transaction, cotf_path}
use hispark_soc_china.Worker.Poll.{
  clear_clut, keep_dirty, tone_mode, effective_strength, consume_params, refresh_test, refresh,
  sample, worker_poll, nn_stage, ctbg_path, paramnet_path, paramnet_run,
}

module _ (fl : FloatOps) where
  -- The answers of a round with these statistics.
  abbrev pub with_stats : Answers fl → LumaStats fl → Answers fl
  with_stats a x = record a { stats = some x }

  transaction-stats :
      (w : Worker fl) (a : Answers fl) (x y : LumaStats fl) (status : InferStatus)
      → cotf_transaction fl w (with_stats a x) status
        ≡ cotf_transaction fl w (with_stats a y) status
  unfolding cotf_transaction cotf_lut cotf_apply
  transaction-stats w a x y infer_ok = refl
  transaction-stats w a x y infer_runtime = refl
  transaction-stats w a x y infer_other = refl

  path-stats :
      (w : Worker fl) (a : Answers fl) (x y : LumaStats fl)
      → cotf_path fl w (with_stats a x) ≡ cotf_path fl w (with_stats a y)
  unfolding cotf_path cotf_infer
  path-stats w a x y = let r = cotf_infer fl w (with_stats a x) in transaction-stats r.0 a x y r.1

  nn_stage-stats :
      (modes : Modes fl) (w : Worker fl) (a : Answers fl) (x y : LumaStats fl)
      → nn_stage fl modes w (with_stats a x) ≡ nn_stage fl modes w (with_stats a y)
  unfolding nn_stage ctbg_path
  nn_stage-stats modes w a x y = rw (path-stats (clear_clut fl w) a x y) refl

  refresh-stats :
      (modes : Modes fl) (w : Worker fl) (a : Answers fl) (x y : LumaStats fl)
      → refresh fl modes w (with_stats a x) ≡ refresh fl modes w (with_stats a y)
  unfolding refresh paramnet_path paramnet_run
  refresh-stats modes w a x y =
      let g = gamma (mode_to_tone (tone_mode fl w)) (effective_strength fl w.settings) in
      rw (nn_stage-stats modes (call fl g (keep_dirty fl w)) a x y) refl

  refresh_test-dirty :
      (w : Worker fl) (x : LumaStats fl) → w.params_dirty ≡ true → refresh_test fl w x ≡ (w, true)
  unfolding refresh_test
  refresh_test-dirty w x e = rw e refl

  dirty-sample :
      (modes : Modes fl) (w : Worker fl) (a : Answers fl) (x y : LumaStats fl)
      → w.params_dirty ≡ true
      → sample fl modes w (with_stats a x) ≡ sample fl modes w (with_stats a y)
  unfolding sample
  dirty-sample modes w a x y e =
      let polled = record w {
        metrics = record w.metrics { control_polls = tick w.metrics.control_polls };
      } in
      let go : LumaStats fl → Worker fl × Bool → Worker fl =
        λ stats r. if r.1 then refresh fl modes r.0 (with_stats a stats) else r.0 in
      ap (go x) (refresh_test-dirty polled x e)
      ∙ refresh-stats modes polled a x y
      ∙ ap (go y) (sym (refresh_test-dirty polled y e))

  consume_params-dirty :
      (w : Worker fl) (p : AppCtrlParams fl) → (consume_params fl w (some p)).params_dirty ≡ true
  unfolding consume_params
  consume_params-dirty w p = refl

  -- In a round that takes new parameters the statistics that the round reads are not used: the
  -- round does the same for any two of them, so the mode that it asks of the ISP, and the high-clip
  -- guard, go by the statistics of an earlier round, or by what they held at the start.
  pub worker_poll-stale :
      (modes : Modes fl) (w : Worker fl) (a : Answers fl) (p : AppCtrlParams fl)
      (x y : LumaStats fl)
      → a.params ≡ some p
      → worker_poll fl modes w (with_stats a x) ≡ worker_poll fl modes w (with_stats a y)
  unfolding worker_poll
  worker_poll-stale modes w a p x y e =
      let go : LumaStats fl → Option (AppCtrlParams fl) → Worker fl =
        λ stats q. sample fl modes (consume_params fl w q) (with_stats a stats) in
      ap (go x) e
      ∙ dirty-sample modes (consume_params fl w (some p)) a x y (consume_params-dirty w p)
      ∙ ap (go y) (sym e)
