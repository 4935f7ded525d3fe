-- ===== src/App/Shutdown.antt =====
-- The cleanup of `main` of board/src/main.c, and the whole of its life.
use hispark_soc_china.Prelude.{Bool, ◌&&◌, List, [], ◌++◌, if◌then◌else◌}
use hispark_soc_china.Drivers.Journal.{
  Entry, entry_if, down, gone, sys_vb, touch_device, colour_model, ctbg_model, control_thread,
  stream_thread, socket_thread,
}
use hispark_soc_china.Drivers.Camera.{capture_unbind_vpss, capture_deinit, vpss_deinit}
use hispark_soc_china.Drivers.Display.{display_deinit}
use hispark_soc_china.Drivers.Stream.{stream_deinit}
use hispark_soc_china.App.Life.{
  LifeCfg, EndAnswers, LifeAnswers, System, fresh_system, start_sys, start_camera, start_fps,
  start_vpss, start_binding, start_display, start_touch, start_stream, start_infer, start_ctbg,
  start_control, start_stream_thread, start_socket, and_then_start,
}

unfoldable pub close_threads : System → List Entry
close_threads s =
    entry_if s.app_ctrl_up (gone socket_thread)
    ++ (entry_if s.stream_thread_up (gone stream_thread)
        ++ entry_if s.ctrl_up (gone control_thread))

-- `ctbg_deinit` and `infer_deinit` do nothing to a model that is not loaded.
unfoldable pub close_models : EndAnswers → System → List Entry
close_models e s =
    entry_if (s.ctbg_mode && s.ctbg_loaded) (gone ctbg_model)
    ++ entry_if (s.infer_up && s.infer_loaded) (down colour_model e.infer)

unfoldable pub close_stream : EndAnswers → System → List Entry
unfolding stream_deinit
close_stream e s = if s.stream_up then (stream_deinit e.stream s.stream).0 else []

unfoldable pub close_outputs : EndAnswers → System → List Entry
unfolding display_deinit
close_outputs e s =
    entry_if s.touch (gone touch_device)
    ++ (if s.disp_up then (display_deinit s.display e.display).0 else [])

unfoldable pub close_camera : EndAnswers → System → List Entry
unfolding capture_unbind_vpss vpss_deinit capture_deinit
close_camera e s =
    (if s.bound then (capture_unbind_vpss e.un_bind).0 else [])
    ++ ((if s.vpss_up then (vpss_deinit s.vpss 0 e.vpss_stop).0 else [])
        ++ ((if s.cap_up then (capture_deinit s.capture).0 else [])
            ++ entry_if s.sys_up (gone sys_vb)))

-- What fails is logged and passed over.
unfoldable pub cleanup : EndAnswers → System → List Entry
unfolding close_threads close_models close_stream close_outputs close_camera
cleanup e s =
    close_threads s
    ++ (close_models e s ++ (close_stream e s ++ (close_outputs e s ++ close_camera e s)))

-- The start up to the drivers of the outputs.
unfoldable pub start_drivers : LifeCfg → LifeAnswers → System → System × Bool
unfolding start_sys start_camera start_fps start_vpss start_binding start_display start_touch
    start_stream
start_drivers c a s = and_then_start (start_stream c a) (
    and_then_start (start_touch c a) (
      and_then_start (start_display c a) (
        and_then_start (start_binding a) (
          and_then_start (start_vpss c a)
            (and_then_start (start_fps c a) (and_then_start (start_camera c a) (start_sys a s)))))))

unfoldable pub start_all : LifeCfg → LifeAnswers → System → System × Bool
unfolding start_drivers start_infer start_ctbg start_control start_stream_thread start_socket
start_all c a s = and_then_start (start_socket c a) (
    and_then_start (start_stream_thread c a) (
      and_then_start (start_control a)
        (and_then_start (start_ctbg a) (and_then_start (start_infer c a) (start_drivers c a s)))))

-- The journal of a run, from the first driver to the return. Between the start and the cleanup
-- nothing is brought up or taken down.
unfoldable pub main_life : LifeCfg → LifeAnswers → List Entry
unfolding start_all cleanup
main_life c a = let s = (start_all c a (fresh_system c.ctbg)).0 in s.journal ++ cleanup a.ending s
