-- ===== src/Drivers/Camera.antt =====
-- board/src/capture.c and board/src/vpss.c. A call of the vendor's library is an answer, `true` for
-- success.
use hispark_soc_china.Prelude.{
  ℕ, Bool, true, false, not, ◌&&◌, Option, none, some, List, [], ◌∷◌, ◌==◌, if◌then◌else◌,
}
use hispark_soc_china.Prelude.Strings.{CInt}
use hispark_soc_china.Pipeline.Config.{bad_sensor}
use hispark_soc_china.Drivers.Journal.{Entry, up, down, gone, vi_pipe, vpss_group, vi_vpss_binding}

-- The sensor types of the vendor's library that the program chooses between.
pub data SensorType : Type 0 where
  linear_12bit wdr_2to1_12bit : SensorType

pub record CaptureCfg : Type 0 where
  pub sensor_index : CInt
  pub wdr_2to1 : Bool
  pub raw_replay : Bool

unfoldable pub capture_mode_to_sns_type : Bool → SensorType
capture_mode_to_sns_type wdr = if wdr then wdr_2to1_12bit else linear_12bit

-- What `g_vi_cfg` is set to, beside the defaults of the library.
pub record ViCfg : Type 0 where
  pub sensor : SensorType
  pub bus_id : ℕ
  pub sns_clk_src : ℕ
  pub sns_rst_src : ℕ
  pub vi_dev : ℕ
  pub isp_need_run : Bool

abbrev is_one : CInt → Bool
is_one i = not i.negative && (i.magnitude == 1)

unfoldable pub capture_build_vi_cfg : SensorType → CInt → ViCfg
capture_build_vi_cfg sensor index =
    if is_one index
    then record {
      sensor = sensor;
      bus_id = 7;
      sns_clk_src = 1;
      sns_rst_src = 1;
      vi_dev = 2;
      isp_need_run = true;
    }
    else record {
      sensor = sensor;
      bus_id = 5;
      sns_clk_src = 0;
      sns_rst_src = 0;
      vi_dev = 0;
      isp_need_run = true;
    }

-- `g_capture_inited` and `g_vi_cfg`.
pub record Capture : Type 0 where
  pub inited : Bool
  pub vi_cfg : Option ViCfg

pub record CaptureAnswers : Type 0 where
  pub set_vi_vpss_mode : Bool
  pub start_vi : Bool

unfoldable pub vi_cfg_of : CaptureCfg → ViCfg
unfolding capture_build_vi_cfg capture_mode_to_sns_type
vi_cfg_of cfg =
    let built = capture_build_vi_cfg (capture_mode_to_sns_type cfg.wdr_2to1) cfg.sensor_index in
    if cfg.raw_replay then record built { isp_need_run = false } else built

unfoldable pub begin_capture : Capture → CaptureCfg → CaptureAnswers → List Entry × Capture × Bool
unfolding bad_sensor vi_cfg_of
begin_capture s cfg a =
    let configured = record s { vi_cfg = some (vi_cfg_of cfg) } in
    if bad_sensor cfg.sensor_index
    then ([], s, false)
    else if not a.set_vi_vpss_mode
    then ([], s, false)
    else if not a.start_vi
    then ([], configured, false)
    else (up vi_pipe ∷ [], record configured { inited = true }, true)

-- The journal, the state, and whether the answer is 0. A `cfg` that is NULL is `none`.
unfoldable pub capture_init :
    Capture → Option CaptureCfg → CaptureAnswers → List Entry × Capture × Bool
unfolding begin_capture
capture_init s none a = if s.inited then ([], s, true) else ([], s, false)
capture_init s (some cfg) a = if s.inited then ([], s, true) else begin_capture s cfg a

-- Reading the public attributes of the ISP and writing them back with the rate.
unfoldable pub capture_set_fps : Capture → Bool → Bool → Bool
capture_set_fps s get_pub_attr set_pub_attr = s.inited && (get_pub_attr && set_pub_attr)

unfoldable pub capture_set_mirror_flip : Capture → Bool → Bool → Bool
capture_set_mirror_flip s get_chn_attr set_chn_attr = s.inited && (get_chn_attr && set_chn_attr)

unfoldable pub capture_bind_vpss : Capture → Bool → List Entry × Bool
capture_bind_vpss s bind =
    if not s.inited
    then ([], false)
    else if bind
    then (up vi_vpss_binding ∷ [], true)
    else ([], false)

unfoldable pub capture_unbind_vpss : Bool → List Entry × Bool
capture_unbind_vpss un_bind = (down vi_vpss_binding un_bind ∷ [], un_bind)

unfoldable pub capture_deinit : Capture → List Entry × Capture
capture_deinit s =
    if not s.inited then ([], s) else (gone vi_pipe ∷ [], record s { inited = false })

-- `vpss_chn_cfg_t`
pub record VpssChnCfg : Type 0 where
  pub enable : Bool
  pub width : ℕ
  pub height : ℕ
  pub depth : ℕ

-- `g_vpss_grp`, `none` below 0, and `g_chn_enable`.
pub record Vpss : Type 0 where
  pub grp : Option ℕ
  pub chn_enable : List Bool

abbrev enables : List VpssChnCfg → List Bool
enables [] = []
enables (c ∷ cs) = c.enable ∷ enables cs

unfoldable pub begin_vpss : ℕ → List VpssChnCfg → Bool → List Entry × Vpss × Bool
begin_vpss grp cfg start =
    if start
    then (up vpss_group ∷ [], record { grp = some grp; chn_enable = enables cfg }, true)
    else ([], record { grp = none; chn_enable = enables cfg }, false)

-- A `chn_cfg` that is NULL is `none`.
unfoldable pub vpss_init : Vpss → ℕ → Option (List VpssChnCfg) → Bool → List Entry × Vpss × Bool
unfolding begin_vpss
vpss_init s grp cfg start = elim s.grp [
  | some g ↦ ([], s, true)
  | none ↦ elim cfg [ none ↦ ([], s, false) | some c ↦ begin_vpss grp c start ]
]

-- Whether the answer is 0, for a frame that is given.
unfoldable pub vpss_get_frame : Bool → Bool → Bool
vpss_get_frame frame got = frame && got

unfoldable pub vpss_release_frame : Bool → Bool → Bool
vpss_release_frame frame released = frame && released

-- `stop` is the answer of `sample_common_vpss_stop`. A failure is logged and passed over.
unfoldable pub stop_vpss : Vpss → ℕ → ℕ → Bool → List Entry × Vpss × Bool
stop_vpss s grp g stop =
    if not (grp == g)
    then ([], s, false)
    else (down vpss_group stop ∷ [], record s { grp = none }, true)

unfoldable pub vpss_deinit : Vpss → ℕ → Bool → List Entry × Vpss × Bool
unfolding stop_vpss
vpss_deinit s grp stop = elim s.grp [ none ↦ ([], s, true) | some g ↦ stop_vpss s grp g stop ]
