-- ===== src/App/Life.antt =====
-- What `main` of board/src/main.c brings up, in which order, and its cleanup. The vendor's calls, the
-- models and the threads are answers, `true` for success; the drivers are the models of their files.
use hispark_soc_china.Prelude.{
  ℕ, Bool, true, false, not, ◌&&◌, ◌||◌, none, some, List, [], ◌∷◌, ◌++◌, ◌==◌, if◌then◌else◌,
}
use hispark_soc_china.Drivers.Journal.{
  Entry, up, gone, sys_vb, touch_device, colour_model, ctbg_model, control_thread, stream_thread,
  socket_thread,
}
use hispark_soc_china.Drivers.Camera.{
  CaptureCfg, CaptureAnswers, Capture, capture_init, capture_set_fps, capture_bind_vpss, Vpss,
  VpssChnCfg, vpss_init,
}
use hispark_soc_china.Drivers.Display.{DisplayAnswers, DisplayEnd, display_init}
use hispark_soc_china.Drivers.Stream.{
  StreamCfg, StreamAnswers, StreamEnd, Stream, zeroed, stream_init,
}

-- What `main` takes from the options, after they are validated.
pub record LifeCfg : Type 0 where
  pub capture : CaptureCfg
  pub target_fps : ℕ
  pub channels : List VpssChnCfg
  pub enable_display : Bool
  pub enable_stream : Bool
  pub stream : StreamCfg
  pub enable_nn : Bool
  pub ctbg : Bool
  pub ctrl_sock : Bool

-- The answers during the cleanup.
pub record EndAnswers : Type 0 where
  pub infer : Bool
  pub stream : StreamEnd
  pub display : DisplayEnd
  pub un_bind : Bool
  pub vpss_stop : Bool

-- `touch_ready` is that the menu has its blocks and the touch device opens.
pub record LifeAnswers : Type 0 where
  pub sys_init : Bool
  pub capture : CaptureAnswers
  pub get_pub_attr : Bool
  pub set_pub_attr : Bool
  pub vpss_start : Bool
  pub bind : Bool
  pub display : DisplayAnswers
  pub touch_ready : Bool
  pub stream : StreamAnswers
  pub infer : Bool
  pub ctbg : Bool
  pub ctbg_memory : Bool
  pub ctrl_create : Bool
  pub stream_create : Bool
  pub socket_create : Bool
  pub ending : EndAnswers

-- The state of the drivers, the flags of `main`, and the journal of the run.
pub record System : Type 0 where
  pub journal : List Entry
  pub capture : Capture
  pub vpss : Vpss
  pub display : Bool
  pub stream : Stream
  pub infer_loaded : Bool
  pub ctbg_loaded : Bool
  pub sys_up : Bool
  pub cap_up : Bool
  pub vpss_up : Bool
  pub bound : Bool
  pub disp_up : Bool
  pub touch : Bool
  pub stream_up : Bool
  pub infer_up : Bool
  pub ctbg_mode : Bool
  pub ctrl_up : Bool
  pub stream_thread_up : Bool
  pub app_ctrl_up : Bool

abbrev pub fresh_system : Bool → System
fresh_system ctbg = record {
  journal = [];
  capture = record { inited = false; vi_cfg = none };
  vpss = record { grp = none; chn_enable = [] };
  display = false;
  stream = zeroed;
  infer_loaded = false;
  ctbg_loaded = false;
  sys_up = false;
  cap_up = false;
  vpss_up = false;
  bound = false;
  disp_up = false;
  touch = false;
  stream_up = false;
  infer_up = false;
  ctbg_mode = ctbg;
  ctrl_up = false;
  stream_thread_up = false;
  app_ctrl_up = false;
}

abbrev pub noted : System → List Entry → System
noted s j = record s { journal = s.journal ++ j }

-- A step of the start: the state, and whether it goes on; `false` is `goto cleanup`.
unfoldable pub start_sys : LifeAnswers → System → System × Bool
start_sys a s =
    if a.sys_init then (noted (record s { sys_up = true }) (up sys_vb ∷ []), true) else (s, false)

unfoldable pub start_camera : LifeCfg → LifeAnswers → System → System × Bool
unfolding capture_init
start_camera c a s =
    let r = capture_init s.capture (some c.capture) a.capture in
    (noted (record s { capture = r.1; cap_up = r.2 }) r.0, r.2)

unfoldable pub start_fps : LifeCfg → LifeAnswers → System → System × Bool
unfolding capture_set_fps
start_fps c a s =
    (s, (c.target_fps == 30) || capture_set_fps s.capture a.get_pub_attr a.set_pub_attr)

unfoldable pub start_vpss : LifeCfg → LifeAnswers → System → System × Bool
unfolding vpss_init
start_vpss c a s =
    let r = vpss_init s.vpss 0 (some c.channels) a.vpss_start in
    (noted (record s { vpss = r.1; vpss_up = r.2 }) r.0, r.2)

unfoldable pub start_binding : LifeAnswers → System → System × Bool
unfolding capture_bind_vpss
start_binding a s =
    let r = capture_bind_vpss s.capture a.bind in (noted (record s { bound = r.1 }) r.0, r.1)

unfoldable pub start_display : LifeCfg → LifeAnswers → System → System × Bool
unfolding display_init
start_display c a s =
    let r = display_init s.display a.display in
    let s' = noted (record s { display = r.1; disp_up = r.2 }) r.0 in
    if not c.enable_display then (s, true) else (s', r.2)

unfoldable pub start_touch : LifeCfg → LifeAnswers → System → System × Bool
start_touch c a s =
    if c.enable_display && a.touch_ready
    then (noted (record s { touch = true }) (up touch_device ∷ []), true)
    else (s, true)

unfoldable pub start_stream : LifeCfg → LifeAnswers → System → System × Bool
unfolding stream_init
start_stream c a s =
    let r = stream_init s.stream (some c.stream) a.stream in
    let s' = noted (record s { stream = r.1; stream_up = r.2 }) r.0 in
    if not c.enable_stream then (s, true) else (s', r.2)

-- A network that does not load is no reason to stop.
unfoldable pub start_infer : LifeCfg → LifeAnswers → System → System × Bool
start_infer c a s =
    if c.enable_nn && (not s.ctbg_mode && a.infer)
    then (noted (record s { infer_loaded = true; infer_up = true }) (up colour_model ∷ []), true)
    else (s, true)

-- Without its buffers the estimator is closed again.
unfoldable pub start_ctbg : LifeAnswers → System → System × Bool
start_ctbg a s =
    if not s.ctbg_mode
    then (s, true)
    else if not a.ctbg
    then (record s { ctbg_mode = false }, true)
    else if not a.ctbg_memory
    then (noted (record s { ctbg_mode = false }) (up ctbg_model ∷ gone ctbg_model ∷ []), true)
    else (noted (record s { ctbg_loaded = true; infer_up = true }) (up ctbg_model ∷ []), true)

unfoldable pub start_control : LifeAnswers → System → System × Bool
start_control a s =
    if a.ctrl_create
    then (noted (record s { ctrl_up = true }) (up control_thread ∷ []), true)
    else (s, false)

unfoldable pub start_stream_thread : LifeCfg → LifeAnswers → System → System × Bool
start_stream_thread c a s =
    if not c.enable_stream
    then (s, true)
    else if a.stream_create
    then (noted (record s { stream_thread_up = true }) (up stream_thread ∷ []), true)
    else (s, false)

-- `app_ctrl_init` and `pthread_create`
unfoldable pub start_socket : LifeCfg → LifeAnswers → System → System × Bool
start_socket c a s =
    if c.ctrl_sock && a.socket_create
    then (noted (record s { app_ctrl_up = true }) (up socket_thread ∷ []), true)
    else (s, true)

abbrev pub and_then_start : (System → System × Bool) → System × Bool → System × Bool
and_then_start f (s, true) = f s
and_then_start f (s, false) = (s, false)
