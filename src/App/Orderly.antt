-- ===== src/App/Orderly.antt =====
-- Every step of the start of `main` (board/src/main.c) leaves the system as its flags say.
use hispark_soc_china.Prelude.{
  ◌≡◌, ap, ◌∙◌, Bool, false, not, ◌&&◌, some, List, [], ◌∷◌, ◌++◌, arith, if_both,
}
use hispark_soc_china.Drivers.Journal.{
  Part, Entry, up, gone, standing, standing_then, sys_vb, vi_pipe, vpss_group, vi_vpss_binding,
  touch_device, colour_model, ctbg_model, control_thread, stream_thread, socket_thread,
}
use hispark_soc_china.Drivers.Camera.{
  capture_init, begin_capture, begin_vpss, vpss_init, capture_bind_vpss,
}
use hispark_soc_china.Drivers.Stream.{zeroed}
use hispark_soc_china.App.Life.{
  LifeCfg, LifeAnswers, System, start_sys, start_camera, start_fps, start_vpss, start_binding,
  start_touch, start_infer, start_ctbg, start_control, start_stream_thread, start_socket,
}
use hispark_soc_china.App.Layers.{Sound, system_parts}

-- What is not up yet, from a layer on.
abbrev pub NoSocket : System → Type 0
NoSocket s = s.app_ctrl_up ≡ false

abbrev pub NoStreamThread : System → Type 0
NoStreamThread s = (s.stream_thread_up ≡ false) × NoSocket s

abbrev pub NoThreads : System → Type 0
NoThreads s = (s.ctrl_up ≡ false) × NoStreamThread s

abbrev pub NoCtbg : System → Type 0
NoCtbg s = (s.ctbg_loaded ≡ false) × NoThreads s

abbrev pub NoModels : System → Type 0
NoModels s = (s.infer_loaded ≡ false) × NoCtbg s

abbrev pub NoStream : System → Type 0
NoStream s = (s.stream ≡ zeroed) × NoModels s

abbrev pub NoTouch : System → Type 0
NoTouch s = (s.touch ≡ false) × NoStream s

abbrev pub NoOutputs : System → Type 0
NoOutputs s = (s.disp_up ≡ false) × NoTouch s

abbrev pub NoBinding : System → Type 0
NoBinding s = (s.bound ≡ false) × NoOutputs s

abbrev pub NoVpss : System → Type 0
NoVpss s = (s.vpss_up ≡ false) × NoBinding s

abbrev pub NoCamera : System → Type 0
NoCamera s = (s.cap_up ≡ false) × NoVpss s

-- The journal with more entries, where they take the parts from one list to the other.
parts_noted :
    (s : System) (j : List Entry) (st st' : List Part)
    → Sound s
    → system_parts s ≡ st
    → standing st j ≡ some st'
    → standing [] (s.journal ++ j) ≡ some st'
parts_noted s j st st' v e h =
    standing_then s.journal j [] (system_parts s) v.parts ∙ ap (λ x. standing x j) e ∙ h

-- Nothing to keep.
abbrev pub Any : System → Type 0
Any s = Unit

pub start_sys-Kept :
    (a : LifeAnswers) (s : System)
    → Sound s × (s.sys_up ≡ false) × NoCamera s
    → Sound (start_sys a s).0 × NoCamera (start_sys a s).0
unfolding start_sys standing
start_sys-Kept a s (v, off, q) =
    let more = standing_then s.journal (up sys_vb ∷ []) [] (system_parts s) v.parts in
    ground (arith, more, v)

pub start_camera-Kept :
    (c : LifeCfg) (a : LifeAnswers) (s : System)
    → Sound s × NoCamera s
    → Sound (start_camera c a s).0 × NoVpss (start_camera c a s).0
unfolding start_camera capture_init begin_capture standing
start_camera-Kept c a s (v, q) =
    let more = standing_then s.journal (up vi_pipe ∷ []) [] (system_parts s) v.parts in
    let none_more = standing_then s.journal [] [] (system_parts s) v.parts in
    ground (arith, more, none_more, v)

pub start_vpss-Kept :
    (c : LifeCfg) (a : LifeAnswers) (s : System)
    → Sound s × NoVpss s
    → Sound (start_vpss c a s).0 × NoBinding (start_vpss c a s).0
unfolding start_vpss begin_vpss vpss_init standing
start_vpss-Kept c a s (v, q) =
    let more = standing_then s.journal (up vpss_group ∷ []) [] (system_parts s) v.parts in
    let none_more = standing_then s.journal [] [] (system_parts s) v.parts in
    ground (arith, more, none_more, v)

pub start_binding-Kept :
    (a : LifeAnswers) (s : System)
    → Sound s × NoBinding s
    → Sound (start_binding a s).0 × NoOutputs (start_binding a s).0
unfolding start_binding capture_bind_vpss standing
start_binding-Kept a s (v, q) =
    let more = standing_then s.journal (up vi_vpss_binding ∷ []) [] (system_parts s) v.parts in
    let none_more = standing_then s.journal [] [] (system_parts s) v.parts in
    ground (arith, more, none_more, v)

pub start_touch-Kept :
    (c : LifeCfg) (a : LifeAnswers) (s : System)
    → Sound s × NoTouch s
    → Sound (start_touch c a s).0 × NoStream (start_touch c a s).0
unfolding start_touch standing
start_touch-Kept c a s (v, q) =
    let more = standing_then s.journal (up touch_device ∷ []) [] (system_parts s) v.parts in
    if_both (c.enable_display && a.touch_ready) (λ (r : System × Bool). Sound r.0 × NoStream r.0)
      (λ e. ground (arith, more, v)) (λ e. (v, q.1))

pub start_infer-Kept :
    (c : LifeCfg) (a : LifeAnswers) (s : System)
    → Sound s × NoModels s
    → Sound (start_infer c a s).0 × NoCtbg (start_infer c a s).0
unfolding start_infer standing
start_infer-Kept c a s (v, q) =
    let more = standing_then s.journal (up colour_model ∷ []) [] (system_parts s) v.parts in
    if_both (c.enable_nn && (not s.ctbg_mode && a.infer))
      (λ (r : System × Bool). Sound r.0 × NoCtbg r.0) (λ e. ground (arith, more, v)) (λ e. (v, q.1))

pub start_ctbg-Kept :
    (a : LifeAnswers) (s : System)
    → Sound s × NoCtbg s
    → Sound (start_ctbg a s).0 × NoThreads (start_ctbg a s).0
unfolding start_ctbg standing
start_ctbg-Kept a s (v, q) =
    let more = standing_then s.journal (up ctbg_model ∷ []) [] (system_parts s) v.parts in
    let both =
      standing_then s.journal (up ctbg_model ∷ gone ctbg_model ∷ []) [] (system_parts s) v.parts in
    ground (arith, more, both, v)

pub start_control-Kept :
    (a : LifeAnswers) (s : System)
    → Sound s × NoThreads s
    → Sound (start_control a s).0 × NoStreamThread (start_control a s).0
unfolding start_control standing
start_control-Kept a s (v, q) =
    let more = standing_then s.journal (up control_thread ∷ []) [] (system_parts s) v.parts in
    ground (arith, more, v)

pub start_stream_thread-Kept :
    (c : LifeCfg) (a : LifeAnswers) (s : System)
    → Sound s × NoStreamThread s
    → Sound (start_stream_thread c a s).0 × NoSocket (start_stream_thread c a s).0
unfolding start_stream_thread standing
start_stream_thread-Kept c a s (v, q) =
    let more = standing_then s.journal (up stream_thread ∷ []) [] (system_parts s) v.parts in
    ground (arith, more, v)

pub start_socket-Kept :
    (c : LifeCfg) (a : LifeAnswers) (s : System)
    → Sound s × NoSocket s
    → Sound (start_socket c a s).0 × Any (start_socket c a s).0
unfolding start_socket standing
start_socket-Kept c a s (v, q) =
    let more = standing_then s.journal (up socket_thread ∷ []) [] (system_parts s) v.parts in
    if_both (c.ctrl_sock && a.socket_create) (λ (r : System × Bool). Sound r.0 × Any r.0)
      (λ e. ground (arith, more, v)) (λ e. (v, tt))

pub start_fps-Kept :
    (c : LifeCfg) (a : LifeAnswers) (s : System)
    → Sound s × NoVpss s
    → Sound (start_fps c a s).0 × NoVpss (start_fps c a s).0
unfolding start_fps
start_fps-Kept c a s h = h
