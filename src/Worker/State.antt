-- ===== src/Worker/State.antt =====
-- The state that `control_worker` of board/src/main.c keeps and the calls that it makes.
use hispark_soc_china.Prelude.{ℕ, ◌+◌, ◌%◌, ◌^◌, Bool, Option, List, ◌∷◌}
use hispark_soc_china.Floats.{FloatOps}
use hispark_soc_china.Control.Decide.{LumaStats, ExpoMode, bypass, brighten, compress, bidir}
use hispark_soc_china.Control.Health.{ControlHealth}
use hispark_soc_china.Control.Feedback.{ControlFeedback}
use hispark_soc_china.AppControl.Mailbox.{AppCtrlParams}
use hispark_soc_china.AppControl.Settings.{Settings}

-- `pipeline_state_t`
pub data PipelineState : Type 0 where
  stopped starting running degraded stopping failed : PipelineState

-- `isp_tone_t`
pub data IspTone : Type 0 where
  tone_bypass tone_brighten tone_compress tone_bidir : IspTone

unfoldable pub mode_to_tone : ExpoMode → IspTone
mode_to_tone brighten = tone_brighten
mode_to_tone compress = tone_compress
mode_to_tone bidir = tone_bidir
mode_to_tone bypass = tone_bypass

-- The counters of `app_runtime_metrics_t` that the control thread writes, as 64-bit words. The times
-- in milliseconds are not kept.
pub record Metrics : Type 0 where
  pub state : PipelineState
  pub control_polls : ℕ
  pub frame_timeouts : ℕ
  pub infer_runs : ℕ
  pub lut_requests : ℕ
  pub lut_updates : ℕ
  pub lut_failures : ℕ
  pub transient_errors : ℕ
  pub fatal_errors : ℕ
  pub degraded_events : ℕ

-- `atomic_fetch_add(…, 1)`
abbrev pub tick : ℕ → ℕ
tick n = (n + 1) % 2 ^ 64

-- What an inference returns: PIPELINE_OK, PIPELINE_ERR_RUNTIME, or another error.
pub data InferStatus : Type 0 where
  infer_ok infer_runtime infer_other : InferStatus

module _ (fl : FloatOps) where
  open fl use {F}

  -- The calls with an effect outside the thread.
  pub data Call : Type 0 where
    clut_off : Call
    clut_auto : Call
    load_clut : List ℕ → Call
    gamma : IspTone → F → Call
    load_blob : List ℕ → Call
    set_bitrate : ℕ → Call

  -- `app_control_ctx_t`, the local variables of the thread, the flags that it writes, and the calls
  -- that it has made, the newest first. `cur` is not initialised in the source.
  pub record Worker : Type 0 where
    pub settings : Settings fl
    pub bridge_strength : F
    pub health : ControlHealth
    pub feedback : ControlFeedback fl
    pub cur : LumaStats fl
    pub have_previous_lut : Bool
    pub previous_lut : List ℕ
    pub params_dirty : Bool
    pub nn_retry : ℕ
    pub metrics : Metrics
    pub fatal_error : Bool
    pub stop : Bool
    pub coeff_ready : Bool
    pub scene_changed : Bool
    pub calls : List Call

  -- What the rest of the system answers in one round of the loop: the parameters that are drained,
  -- the AE statistics, and the outcome of each call that the round may make. `packed` is what
  -- `lut_bridge_pack` makes of the network's output (`none` if it refuses).
  pub record Answers : Type 0 where
    pub params : Option (AppCtrlParams fl)
    pub stats : Option (LumaStats fl)
    pub gamma_ok : Bool
    pub frame_ok : Bool
    pub release_ok : Bool
    pub infer : InferStatus
    pub estimator_ok : Bool
    pub packed : Option (List ℕ)
    pub load_ok : Bool
    pub clut_ok : Bool

  abbrev pub call : Call → Worker → Worker
  call c w = record w { calls = c ∷ w.calls }

  -- `g_ctbg_mode` and `g_paramnet_mode`
  pub record Modes : Type 0 where
    pub ctbg_mode : Bool
    pub paramnet_mode : Bool
