-- ===== src/App/Layers.antt =====
-- The parts of the system in layers, and the cleanup of each layer.
use hispark_soc_china.Prelude.{
  ℕ, ◌≡◌, ap, ◌∙◌, Bool, true, false, Option, none, some, List, [], ◌++◌, arith, if_both,
}
use hispark_soc_china.Drivers.Journal.{
  Part, part_if, standing, standing_then, vi_pipe, vpss_group, vi_vpss_binding, sys_vb,
  touch_device, colour_model, ctbg_model, control_thread, stream_thread, socket_thread,
}
use hispark_soc_china.Drivers.Camera.{capture_unbind_vpss, capture_deinit, vpss_deinit, stop_vpss}
use hispark_soc_china.Drivers.Display.{display_deinit}
use hispark_soc_china.Drivers.Rollback.{display_parts, parts_if}
use hispark_soc_china.Drivers.Channel.{Idle, stream_parts, stream_deinit-standing}
use hispark_soc_china.App.Life.{EndAnswers, System}
use hispark_soc_china.App.Shutdown.{
  close_threads, close_models, close_stream, close_outputs, close_camera, cleanup,
}

abbrev pub thread_parts : System → List Part → List Part
thread_parts s st =
    part_if s.app_ctrl_up socket_thread
      (part_if s.stream_thread_up stream_thread (part_if s.ctrl_up control_thread st))

abbrev pub model_parts : System → List Part → List Part
model_parts s st = part_if s.ctbg_loaded ctbg_model (part_if s.infer_loaded colour_model st)

abbrev pub output_parts : System → List Part → List Part
output_parts s st = part_if s.touch touch_device (parts_if display_parts s.disp_up st)

abbrev pub camera_parts : System → List Part
camera_parts s =
    part_if s.bound vi_vpss_binding
      (part_if s.vpss_up vpss_group (part_if s.cap_up vi_pipe (part_if s.sys_up sys_vb [])))

-- What stands while the flags are as they are.
abbrev pub system_parts : System → List Part
system_parts s =
    thread_parts s (model_parts s (stream_parts s.stream (output_parts s (camera_parts s))))

abbrev pub group_if : Bool → Option ℕ
group_if false = none
group_if true = some 0

-- The journal and the drivers are as the flags say.
pub record Sound (s : System) : Type 0 where
  pub parts : standing [] s.journal ≡ some (system_parts s)
  pub capture : s.capture.inited ≡ s.cap_up
  pub vpss : s.vpss.grp ≡ group_if s.vpss_up
  pub display : s.display ≡ s.disp_up
  pub stream : s.stream.initialized ≡ s.stream_up
  pub idle : Idle s.stream
  pub ctbg : s.ctbg_loaded ≡ true → s.ctbg_mode ≡ true
  pub infer : s.infer_loaded ≡ true → s.infer_up ≡ true

close_threads-standing :
    (s : System) (st : List Part) → standing (thread_parts s st) (close_threads s) ≡ some st
unfolding close_threads standing
close_threads-standing s st = ground arith

close_models-standing :
    (e : EndAnswers) (s : System) (st : List Part)
    → Sound s
    → standing (model_parts s st) (close_models e s) ≡ some st
unfolding close_models standing
close_models-standing e s st v = ground (arith, v.ctbg, v.infer)

close_stream-standing :
    (e : EndAnswers) (s : System) (st : List Part)
    → Sound s
    → standing (stream_parts s.stream st) (close_stream e s) ≡ some st
unfolding close_stream standing
close_stream-standing e s st v =
    if_both s.stream_up (λ j. standing (stream_parts s.stream st) j ≡ some st)
      (λ on. stream_deinit-standing e.stream s.stream st)
      (λ off. ap (λ x. standing (stream_parts x st) []) (v.idle (v.stream ∙ off)))

close_outputs-standing :
    (e : EndAnswers) (s : System) (st : List Part)
    → Sound s
    → standing (output_parts s st) (close_outputs e s) ≡ some st
unfolding close_outputs display_deinit standing
close_outputs-standing e s st v = ground (arith, v.display)

close_camera-standing :
    (e : EndAnswers) (s : System) → Sound s → standing (camera_parts s) (close_camera e s) ≡ some []
unfolding close_camera capture_unbind_vpss vpss_deinit stop_vpss capture_deinit standing
close_camera-standing e s v = ground (arith, v.capture, v.vpss)

pub cleanup-standing :
    (e : EndAnswers) (s : System) → Sound s → standing (system_parts s) (cleanup e s) ≡ some []
unfolding cleanup
cleanup-standing e s v =
    let camera = camera_parts s in
    let outputs = output_parts s camera in
    let streamed = stream_parts s.stream outputs in
    let models = model_parts s streamed in
    let after_outputs = close_camera e s in
    let after_stream = close_outputs e s ++ after_outputs in
    let after_models = close_stream e s ++ after_stream in
    standing_then (close_threads s) (close_models e s ++ after_models) (system_parts s) models
      (close_threads-standing s models)
    ∙ standing_then (close_models e s) after_models models streamed
        (close_models-standing e s streamed v)
    ∙ standing_then (close_stream e s) after_stream streamed outputs
        (close_stream-standing e s outputs v)
    ∙ standing_then (close_outputs e s) after_outputs outputs camera
        (close_outputs-standing e s camera v)
    ∙ close_camera-standing e s v
