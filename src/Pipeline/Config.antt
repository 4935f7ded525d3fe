-- ===== src/Pipeline/Config.antt =====
-- `pipeline_config_t`, `pipeline_config_defaults`, `pipeline_config_validate` and
-- `pipeline_state_name`.
use hispark_soc_china.Prelude.{
  ℕ, Bool, true, false, not, ◌&&◌, ◌||◌, Option, none, some, List, [], ◌∷◌, leb, ltb, ◌==◌,
  if◌then◌else◌,
}
use hispark_soc_china.Prelude.Strings.{bytes_of, CInt}
use hispark_soc_china.Floats.{FloatOps}
use hispark_soc_china.Worker.State.{
  PipelineState, stopped, starting, running, degraded, stopping, failed,
}

-- `pipeline_status_t`
pub data PipelineStatus : Type 0 where
  status_ok status_invalid status_state status_timeout status_io status_runtime : PipelineStatus

-- The test of one character of the path; `strchr` finds one of four characters.
unfoldable pub path_char : ℕ → Bool
path_char c =
    (leb b'a' c && leb c b'z')
    || ((leb b'A' c && leb c b'Z')
        || ((leb b'0' c && leb c b'9') || (c == b'.' || (c == b'_' || (c == b'~' || c == b'-')))))

unfoldable pub path_chars : List ℕ → Bool
unfolding path_char
path_chars [] = true
path_chars (c ∷ cs) = path_char c && path_chars cs

unfoldable pub bad_sensor : CInt → Bool
bad_sensor i = (i.negative && ltb 0 i.magnitude) || (not i.negative && ltb 1 i.magnitude)

unfoldable pub no_path : Option (List ℕ) → Bool
no_path none = true
no_path (some []) = true
no_path (some (c ∷ cs)) = false

unfoldable pub bad_path : Option (List ℕ) → Bool
unfolding path_chars
bad_path none = false
bad_path (some path) = not (path_chars path)

module _ (fl : FloatOps) where
  open fl use {F, lt, lit, finite}

  -- A NULL pointer is `none`, and `input_mode` the number of the enumeration's constant.
  pub record PipelineConfig : Type 0 where
    pub sensor_index : CInt
    pub use_wdr : Bool
    pub target_fps : ℕ
    pub model_path : Option (List ℕ)
    pub input_mode : ℕ
    pub enable_display : Bool
    pub enable_stream : Bool
    pub control_poll_frames : ℕ
    pub tone_strength : F
    pub nn_high_clip_guard : F
    pub stream_bitrate_kbps : ℕ
    pub rtsp_port : ℕ
    pub stream_path : Option (List ℕ)
    pub rtsp_bind_addr : Option (List ℕ)
    pub ctrl_sock_path : Option (List ℕ)
    pub ctbg_est_om_path : Option (List ℕ)
    pub ctbg_app_om_path : Option (List ℕ)

  unfoldable pub pipeline_config_defaults : PipelineConfig
  pipeline_config_defaults = record {
    sensor_index = record { negative = false; magnitude = 1 };
    use_wdr = false;
    target_fps = 30;
    model_path = none;
    input_mode = 0;
    enable_display = true;
    enable_stream = false;
    control_poll_frames = 3;
    tone_strength = lit 1 4;
    nn_high_clip_guard = lit 3 1;
    stream_bitrate_kbps = 3000;
    rtsp_port = 8554;
    stream_path = some (bytes_of "live");
    rtsp_bind_addr = none;
    ctrl_sock_path = none;
    ctbg_est_om_path = some (bytes_of "/root/socchina-2026/ctbg6ch_estimator_256x144.om");
    ctbg_app_om_path = some (bytes_of "/root/socchina-2026/ctbg6ch_apply_1024x576.om");
  }

  unfoldable pub bad_fps : PipelineConfig → Bool
  bad_fps c =
      (not c.use_wdr && (ltb c.target_fps 1 || ltb 30 c.target_fps))
      || (c.use_wdr && (ltb c.target_fps 5 || ltb 30 c.target_fps))

  unfoldable pub bad_control : PipelineConfig → Bool
  bad_control c =
      c.control_poll_frames == 0
      || (not (finite c.tone_strength)
          || (not (finite c.nn_high_clip_guard)
              || (lt c.tone_strength (lit 0 1)
                  || (lt (lit 1 1) c.tone_strength
                      || (lt c.nn_high_clip_guard (lit 0 1)
                          || lt (lit 100 1) c.nn_high_clip_guard)))))

  unfoldable pub bad_stream : PipelineConfig → Bool
  unfolding no_path
  bad_stream c =
      c.enable_stream
      && (ltb c.stream_bitrate_kbps 128
          || (c.rtsp_port == 0 || (ltb 65535 c.rtsp_port || no_path c.stream_path)))

  unfoldable pub pipeline_config_validate : Option PipelineConfig → PipelineStatus
  unfolding bad_sensor bad_fps bad_control bad_stream bad_path
  pipeline_config_validate none = status_invalid
  pipeline_config_validate (some c) =
      if bad_sensor c.sensor_index
      then status_invalid
      else if bad_fps c
      then status_invalid
      else if not c.enable_display && not c.enable_stream
      then status_invalid
      else if not (c.input_mode == 0) && not (c.input_mode == 1)
      then status_invalid
      else if bad_control c
      then status_invalid
      else if bad_stream c
      then status_invalid
      else if bad_path c.stream_path
      then status_invalid
      else status_ok

unfoldable pub pipeline_state_name : PipelineState → List ℕ
pipeline_state_name stopped = bytes_of "STOPPED"
pipeline_state_name starting = bytes_of "STARTING"
pipeline_state_name running = bytes_of "RUNNING"
pipeline_state_name degraded = bytes_of "DEGRADED"
pipeline_state_name stopping = bytes_of "STOPPING"
pipeline_state_name failed = bytes_of "FAILED"
