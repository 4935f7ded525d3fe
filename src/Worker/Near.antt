-- ===== src/Worker/Near.antt =====
-- How far the LUT of `control_worker` (board/src/main.c) moves in one round.
use hispark_soc_china.Prelude.{
  ℕ, ◌≡◌, refl, sym, subst, true, not, ◌&&◌, Option, none, some, List, arith, if◌then◌else◌,
  if_both, length,
}
use hispark_soc_china.Floats.{FloatOps}
use hispark_soc_china.Control.Decide.{LumaStats}
use hispark_soc_china.AppControl.Mailbox.{AppCtrlParams}
use hispark_soc_china.LutBridge.Limit.{clut_node_count}
use hispark_soc_china.LutBridge.Near.{Near, Near-refl, limit_packed_step-Near}
use hispark_soc_china.Worker.State.{
  load_clut, clut_auto, gamma, InferStatus, infer_ok, infer_runtime, infer_other, Worker, Answers,
  Modes, call, tick, mode_to_tone,
}
use hispark_soc_china.Worker.Cotf.{
  cotf_lut, cotf_infer, cotf_path, cotf_apply, cotf_failure, cotf_success, cotf_transaction,
  app_clut_max_step_10bit,
}
use hispark_soc_china.Worker.Poll.{
  consume_params, keep_dirty, refresh_test, clear_clut, nn_ready, nn_stage, gamma_alone, ctbg_path,
  guard_clut, refused_gamma, paramnet_path, paramnet_run, refresh, sample, tone_mode,
  effective_strength, worker_poll,
}

-- `lut_bridge_pack` fills the whole array.
abbrev pub IsFilled : Option (List ℕ) → Type 0
IsFilled none = Unit
IsFilled (some packed) = length packed ≡ clut_node_count

module _ (fl : FloatOps) where
  -- A thread that has a LUT.
  pub record HasLut (w : Worker fl) : Type 0 where
    pub present : w.have_previous_lut ≡ true
    pub filled : length w.previous_lut ≡ clut_node_count

  -- The LUT of the thread is at most a step from this one.
  abbrev pub NearLut : List ℕ → Worker fl → Type 0
  NearLut old w = Near app_clut_max_step_10bit old w.previous_lut

  NearLut-same : (old : List ℕ) (w : Worker fl) → old ≡ w.previous_lut → NearLut old w
  NearLut-same old w e = subst (Near app_clut_max_step_10bit old) e (Near-refl _ old)

  cotf_lut-Near :
      (w : Worker fl) (a : Answers fl) (packed : Option (List ℕ)) (lut : List ℕ)
      → HasLut w
      → IsFilled packed
      → cotf_lut fl w (record a { packed = packed }) ≡ some lut
      → Near app_clut_max_step_10bit w.previous_lut lut
  unfolding cotf_lut
  cotf_lut-Near w a none lut v f e = absurd (ground arith)
  cotf_lut-Near w a (some packed) lut v f e =
      limit_packed_step-Near w.previous_lut packed lut app_clut_max_step_10bit v.filled f
        (omega arith) (omega arith) (ground arith)

  cotf_failure-same : (w : Worker fl) → w.previous_lut ≡ (cotf_failure fl w).previous_lut
  unfolding cotf_failure
  cotf_failure-same w = ground arith

  cotf_apply-Near :
      (w : Worker fl) (a : Answers fl) (lut : List ℕ)
      → Near app_clut_max_step_10bit w.previous_lut lut
      → NearLut w.previous_lut (cotf_apply fl w a lut)
  unfolding cotf_apply cotf_success
  cotf_apply-Near w a lut n =
      let loaded = call fl (load_clut lut) w in
      let enabled = call fl clut_auto loaded in
      if_both a.load_ok (NearLut w.previous_lut)
        (λ ok.
          if_both a.clut_ok (NearLut w.previous_lut) (λ ok'. n)
            (λ no. NearLut-same _ (cotf_failure fl enabled) (cotf_failure-same enabled)))
        (λ no. NearLut-same _ (cotf_failure fl loaded) (cotf_failure-same loaded))

  cotf_transaction-Near :
      (w : Worker fl) (a : Answers fl) (status : InferStatus)
      → HasLut w
      → IsFilled a.packed
      → NearLut w.previous_lut (cotf_transaction fl w a status)
  unfolding cotf_transaction
  cotf_transaction-Near w a infer_runtime v f = Near-refl _ w.previous_lut
  cotf_transaction-Near w a infer_other v f =
      NearLut-same _ (cotf_failure fl w) (cotf_failure-same w)
  cotf_transaction-Near w a infer_ok v f = go (cotf_lut fl w a) refl
    where
      go :
          (o : Option (List ℕ))
          → cotf_lut fl w a ≡ o
          → NearLut w.previous_lut
              (elim o [ none ↦ cotf_failure fl w | some lut ↦ cotf_apply fl w a lut ])
      go none e = NearLut-same _ (cotf_failure fl w) (cotf_failure-same w)
      go (some lut) e = cotf_apply-Near w a lut (cotf_lut-Near w a a.packed lut v f e)

  HasLut-cotf_infer : (w : Worker fl) (a : Answers fl) → HasLut w → HasLut (cotf_infer fl w a).0
  unfolding cotf_infer
  HasLut-cotf_infer w a v = ground arith

  cotf_infer-lut :
      (w : Worker fl) (a : Answers fl) → (cotf_infer fl w a).0.previous_lut ≡ w.previous_lut
  unfolding cotf_infer
  cotf_infer-lut w a = ground arith

  cotf_path-Near :
      (w : Worker fl) (a : Answers fl)
      → HasLut w
      → IsFilled a.packed
      → NearLut w.previous_lut (cotf_path fl w a)
  unfolding cotf_path
  cotf_path-Near w a v f =
      let r = cotf_infer fl w a in
      subst (λ l. NearLut l (cotf_transaction fl r.0 a r.1)) (cotf_infer-lut w a)
        (cotf_transaction-Near r.0 a r.1 (HasLut-cotf_infer w a v) f)

  ctbg_path-same :
      (w : Worker fl) (a : Answers fl) → w.previous_lut ≡ (ctbg_path fl w a).previous_lut
  unfolding ctbg_path
  ctbg_path-same w a = ground arith

  -- The CLUT is cleared only if the network is off.
  HasLut-clear_clut :
      (w : Worker fl) → nn_ready fl (clear_clut fl w) ≡ true → HasLut w → HasLut (clear_clut fl w)
  unfolding clear_clut nn_ready
  HasLut-clear_clut w e v = ground arith

  clear_clut-same : (w : Worker fl) → w.previous_lut ≡ (clear_clut fl w).previous_lut
  unfolding clear_clut
  clear_clut-same w = ground arith

  guard_clut-same : (w : Worker fl) → w.previous_lut ≡ (guard_clut fl w).previous_lut
  unfolding guard_clut
  guard_clut-same w = refl

  gamma_alone-same : (w : Worker fl) → w.previous_lut ≡ (gamma_alone fl w).previous_lut
  unfolding gamma_alone
  gamma_alone-same w = refl

  refused_gamma-same : (w : Worker fl) → w.previous_lut ≡ (refused_gamma fl w).previous_lut
  unfolding refused_gamma
  refused_gamma-same w = refl

  paramnet_path-same :
      (w : Worker fl) (a : Answers fl) → w.previous_lut ≡ (paramnet_path fl w a).previous_lut
  unfolding paramnet_path paramnet_run
  paramnet_path-same w a = ground arith

  nn_stage-Near :
      (modes : Modes fl) (w : Worker fl) (a : Answers fl)
      → HasLut w
      → IsFilled a.packed
      → NearLut w.previous_lut (nn_stage fl modes w a)
  unfolding nn_stage
  nn_stage-Near modes w a v f =
      let c = clear_clut fl w in
      let e = clear_clut-same w in
      subst (λ l. NearLut l (nn_stage fl modes w a)) (sym e)
        (if_both
          (not modes.ctbg_mode
            && (nn_ready fl c && fl.lt c.settings.high_clip_guard c.cur.clip_high_pct))
          (NearLut c.previous_lut) (λ g. NearLut-same _ (guard_clut fl c) (guard_clut-same c))
          (λ g.
            if_both (nn_ready fl c) (NearLut c.previous_lut)
              (λ on.
                if_both modes.ctbg_mode (NearLut c.previous_lut)
                  (λ m. NearLut-same _ (ctbg_path fl c a) (ctbg_path-same c a))
                  (λ m. cotf_path-Near c a (HasLut-clear_clut w on v) f))
              (λ off. NearLut-same _ (gamma_alone fl c) (gamma_alone-same c))))

  HasLut-keep_dirty : (w : Worker fl) → HasLut w → HasLut (keep_dirty fl w)
  unfolding keep_dirty
  HasLut-keep_dirty w v = ground arith

  keep_dirty-same : (w : Worker fl) → (keep_dirty fl w).previous_lut ≡ w.previous_lut
  unfolding keep_dirty
  keep_dirty-same w = ground arith

  refresh-Near :
      (modes : Modes fl) (w : Worker fl) (a : Answers fl)
      → HasLut w
      → IsFilled a.packed
      → NearLut w.previous_lut (refresh fl modes w a)
  unfolding refresh
  refresh-Near modes w a v f =
      let g = gamma (mode_to_tone (tone_mode fl w)) (effective_strength fl w.settings) in
      let toned = call fl g (keep_dirty fl w) in
      let kept = HasLut-keep_dirty w v in
      let at_toned : NearLut (keep_dirty fl w).previous_lut
          (if a.gamma_ok then nn_stage fl modes toned a else refused_gamma fl toned) =
        if_both a.gamma_ok (NearLut toned.previous_lut)
          (λ ok.
            nn_stage-Near modes toned a (record { present = kept.present; filled = kept.filled }) f)
          (λ no. NearLut-same _ (refused_gamma fl toned) (refused_gamma-same toned)) in
      if_both modes.paramnet_mode (NearLut w.previous_lut)
        (λ on. NearLut-same _ (paramnet_path fl w a) (paramnet_path-same w a))
        (λ off.
          subst
            (λ l.
              NearLut l (if a.gamma_ok then nn_stage fl modes toned a else refused_gamma fl toned))
            (keep_dirty-same w) at_toned)

  HasLut-refresh_test :
      (w : Worker fl) (raw : LumaStats fl) → HasLut w → HasLut (refresh_test fl w raw).0
  unfolding refresh_test
  HasLut-refresh_test w raw v = ground arith

  refresh_test-same :
      (w : Worker fl) (raw : LumaStats fl) → (refresh_test fl w raw).0.previous_lut ≡ w.previous_lut
  unfolding refresh_test
  refresh_test-same w raw = ground arith

  sampled-Near :
      (modes : Modes fl) (w : Worker fl) (a : Answers fl) (stats : Option (LumaStats fl))
      → HasLut w
      → IsFilled a.packed
      → NearLut w.previous_lut (sample fl modes w (record a { stats = stats }))
  unfolding sample
  sampled-Near modes w a none v f = Near-refl _ w.previous_lut
  sampled-Near modes w a (some raw) v f =
      let polled = record w {
        metrics = record w.metrics { control_polls = tick w.metrics.control_polls };
      } in
      let r = refresh_test fl polled raw in
      let a' = record a { stats = some raw } in
      let v' = HasLut-refresh_test polled raw (record { present = v.present; filled = v.filled }) in
      subst (λ l. NearLut l (if r.1 then refresh fl modes r.0 a' else r.0))
        (refresh_test-same polled raw)
        (if_both r.1 (NearLut r.0.previous_lut) (λ due. refresh-Near modes r.0 a' v' f)
          (λ idle. Near-refl _ r.0.previous_lut))

  HasLut-consume_params :
      (w : Worker fl) (p : Option (AppCtrlParams fl)) → HasLut w → HasLut (consume_params fl w p)
  unfolding consume_params
  HasLut-consume_params w none v = v
  HasLut-consume_params w (some p) v = record { present = v.present; filled = v.filled }

  consume_params-same :
      (w : Worker fl) (p : Option (AppCtrlParams fl))
      → (consume_params fl w p).previous_lut ≡ w.previous_lut
  unfolding consume_params
  consume_params-same w none = refl
  consume_params-same w (some p) = refl

  -- In each round of a thread that has a LUT, whatever the settings, the mode and the answers, no
  -- channel of any node of the LUT moves by more than 64, provided that a LUT that
  -- `lut_bridge_pack` makes fills its array.
  pub worker_poll-NearLut :
      (modes : Modes fl) (w : Worker fl) (a : Answers fl)
      → HasLut w
      → IsFilled a.packed
      → NearLut w.previous_lut (worker_poll fl modes w a)
  unfolding worker_poll
  worker_poll-NearLut modes w a v f =
      subst (λ l. NearLut l (worker_poll fl modes w a)) (consume_params-same w a.params)
        (sampled-Near modes (consume_params fl w a.params) a a.stats
          (HasLut-consume_params w a.params v) f)
