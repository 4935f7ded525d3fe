-- ===== src/App/Options.antt =====
-- The options of the program: the head of `main` in board/src/main.c, up to the test of the
-- configuration. The functions of stdlib.h that read a number are parameters.
use hispark_soc_china.Prelude.{
  ℕ, ◌%◌, ◌^◌, Bool, true, false, not, ◌&&◌, Option, none, some, List, [], ◌∷◌, if◌then◌else◌,
}
use hispark_soc_china.Prelude.Strings.{bytes_of, same, CInt}
use hispark_soc_china.Floats.{FloatOps}
use hispark_soc_china.Pipeline.Config.{
  PipelineConfig, PipelineStatus, status_ok, pipeline_config_defaults, pipeline_config_validate,
}

-- The options that stand alone.
pub data PlainOption : Type 0 where
  opt_wdr opt_stream opt_no_display opt_no_nn opt_ctbg opt_paramnet opt_ctbg_writeback : PlainOption

-- The options that take the next word, which are known only if there is one.
pub data ValueOption : Type 0 where
  opt_sensor opt_fps opt_strength opt_bitrate opt_rtsp_port opt_rtsp_bind opt_ctrl_sock :
      ValueOption
  opt_stream_path opt_model opt_nn_high_clip opt_ctbg_est_om opt_ctbg_app_om : ValueOption

unfoldable pub plain_option : List ℕ → Option PlainOption
plain_option w =
    if same w (bytes_of "--wdr")
    then some opt_wdr
    else if same w (bytes_of "--stream")
    then some opt_stream
    else if same w (bytes_of "--no-display")
    then some opt_no_display
    else if same w (bytes_of "--no-nn")
    then some opt_no_nn
    else if same w (bytes_of "--ctbg")
    then some opt_ctbg
    else if same w (bytes_of "--paramnet")
    then some opt_paramnet
    else if same w (bytes_of "--ctbg-writeback")
    then some opt_ctbg_writeback
    else none

unfoldable pub value_option : List ℕ → Option ValueOption
value_option w =
    if same w (bytes_of "--sensor")
    then some opt_sensor
    else if same w (bytes_of "--fps")
    then some opt_fps
    else if same w (bytes_of "--strength")
    then some opt_strength
    else if same w (bytes_of "--bitrate")
    then some opt_bitrate
    else if same w (bytes_of "--rtsp-port")
    then some opt_rtsp_port
    else if same w (bytes_of "--rtsp-bind")
    then some opt_rtsp_bind
    else if same w (bytes_of "--ctrl-sock")
    then some opt_ctrl_sock
    else if same w (bytes_of "--stream-path")
    then some opt_stream_path
    else if same w (bytes_of "--model")
    then some opt_model
    else if same w (bytes_of "--nn-high-clip")
    then some opt_nn_high_clip
    else if same w (bytes_of "--ctbg-est-om")
    then some opt_ctbg_est_om
    else if same w (bytes_of "--ctbg-app-om")
    then some opt_ctbg_app_om
    else none

abbrev pub next_word : List (List ℕ) → Option (List ℕ)
next_word [] = none
next_word (w ∷ ws) = some w

abbrev pub is_null : Option (List ℕ) → Bool
is_null none = true
is_null (some path) = false

module _ (fl : FloatOps) where
  open fl use {F, lit}

  -- `atoi`, `strtoul` in base 10, and `atof` with the conversion to `float`.
  pub record Stdlib : Type 0 where
    pub atoi : List ℕ → CInt
    pub strtoul : List ℕ → ℕ
    pub atof : List ℕ → F

  -- `cfg`, `enable_nn`, and the three globals of the modes.
  pub record MainOptions : Type 0 where
    pub cfg : PipelineConfig fl
    pub enable_nn : Bool
    pub ctbg_mode : Bool
    pub paramnet_mode : Bool
    pub ctbg_writeback : Bool

  unfoldable pub main_defaults : MainOptions
  main_defaults = record {
    cfg = record (pipeline_config_defaults fl) { nn_high_clip_guard = lit 3 1 };
    enable_nn = true;
    ctbg_mode = false;
    paramnet_mode = false;
    ctbg_writeback = false;
  }

  unfoldable pub set_plain : PlainOption → MainOptions → MainOptions
  set_plain opt_wdr s = record s { cfg = record (s.cfg) { use_wdr = true } }
  set_plain opt_stream s = record s { cfg = record (s.cfg) { enable_stream = true } }
  set_plain opt_no_display s = record s { cfg = record (s.cfg) { enable_display = false } }
  set_plain opt_no_nn s = record s { enable_nn = false }
  set_plain opt_ctbg s = record s { ctbg_mode = true }
  set_plain opt_paramnet s = record s { paramnet_mode = true }
  set_plain opt_ctbg_writeback s = record s { ctbg_writeback = true }

  unfoldable pub without_model : MainOptions → MainOptions
  without_model s =
      if is_null s.cfg.model_path && not s.ctbg_mode then record s { enable_nn = false } else s

  unfoldable pub if_ok : PipelineStatus → MainOptions → Option MainOptions
  if_ok status_ok s = some s
  if_ok _ s = none

  module _ (lib : Stdlib) where
    open lib use {atoi, strtoul, atof}

    abbrev unsigned_of : List ℕ → ℕ
    unsigned_of w = strtoul w % 2 ^ 32

    unfoldable pub set_value : ValueOption → List ℕ → MainOptions → MainOptions
    set_value opt_sensor w s = record s { cfg = record (s.cfg) { sensor_index = atoi w } }
    set_value opt_fps w s = record s { cfg = record (s.cfg) { target_fps = unsigned_of w } }
    set_value opt_strength w s = record s { cfg = record (s.cfg) { tone_strength = atof w } }
    set_value opt_bitrate w s = record s {
      cfg = record (s.cfg) { stream_bitrate_kbps = unsigned_of w };
    }
    set_value opt_rtsp_port w s = record s { cfg = record (s.cfg) { rtsp_port = unsigned_of w } }
    set_value opt_rtsp_bind w s = record s { cfg = record (s.cfg) { rtsp_bind_addr = some w } }
    set_value opt_ctrl_sock w s = record s { cfg = record (s.cfg) { ctrl_sock_path = some w } }
    set_value opt_stream_path w s = record s { cfg = record (s.cfg) { stream_path = some w } }
    set_value opt_model w s = record s { cfg = record (s.cfg) { model_path = some w } }
    set_value opt_nn_high_clip w s = record s {
      cfg = record (s.cfg) { nn_high_clip_guard = atof w };
    }
    set_value opt_ctbg_est_om w s = record s { cfg = record (s.cfg) { ctbg_est_om_path = some w } }
    set_value opt_ctbg_app_om w s = record s { cfg = record (s.cfg) { ctbg_app_om_path = some w } }

    -- The settings, and whether the next word is used up (`argv[++i]`).
    unfoldable pub take_value :
        Option ValueOption → Option (List ℕ) → MainOptions → Option (MainOptions × Bool)
    take_value (some v) (some w) s = some (set_value v w s, true)
    take_value (some v) none s = none
    take_value none _ s = none

    unfoldable pub take_option :
        Option PlainOption
        → Option ValueOption
        → Option (List ℕ)
        → MainOptions
        → Option (MainOptions × Bool)
    take_option (some p) v next s = some (set_plain p s, false)
    take_option none v next s = take_value v next s

    -- The words behind the name of the program. The first is passed over if it is used up.
    unfoldable pub read_options : Bool → List (List ℕ) → MainOptions → Option MainOptions
    read_options used [] s = some s
    read_options true (w ∷ ws) s = read_options false ws s
    read_options false (w ∷ ws) s =
        elim (take_option (plain_option w) (value_option w) (next_word ws) s) [
          | none ↦ none
          | some r ↦ read_options r.1 ws r.0
        ]

    -- `none` is the exit with the code 2.
    unfoldable pub main_options : List (List ℕ) → Option MainOptions
    main_options ws = elim (read_options false ws main_defaults) [
      | none ↦ none
      | some s ↦ let t = without_model s in if_ok (pipeline_config_validate fl (some t.cfg)) t
    ]
