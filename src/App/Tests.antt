-- ===== src/App/Tests.antt =====
-- Runs of `main`.
use hispark_soc_china.Prelude.{◌≡◌, refl, true, false, some, List, [], ◌∷◌}
use hispark_soc_china.Prelude.Strings.{bytes_of}
use hispark_soc_china.Drivers.Display.{HdmiEnd, VoEnd}
use hispark_soc_china.App.Life.{LifeCfg, LifeAnswers}
use hispark_soc_china.App.StreamLoop.{
  StreamMetrics, StreamMode, RoundAnswers, get_frame, write_back, send_frame, release_frame,
  diag_apply, stream_worker, stream_start,
}
use hispark_soc_china.App.Pace.{no_frame, handled, Paced, frames_got, stream_worker-Paced}

abbrev cfg : LifeCfg
cfg = record {
  capture = record {
    sensor_index = record { negative = false; magnitude = 1 };
    wdr_2to1 = false;
    raw_replay = false;
  };
  target_fps = 25;
  channels = record { enable = true; width = 1024; height = 600; depth = 2 } ∷ [];
  enable_display = true;
  enable_stream = true;
  stream = record {
    width = 1024;
    height = 576;
    fps = 25;
    bitrate_kbps = 4000;
    rtsp_port = 8554;
    stream_path = some (bytes_of "live");
  };
  enable_nn = true;
  ctbg = false;
  ctrl_sock = true;
}

abbrev hdmi_ends : HdmiEnd
hdmi_ends = record { close = true; deinit = true }

abbrev vo_ends : VoEnd
vo_ends = record { disable_chn = true; disable_video_layer = true; disable = true }

-- Everything works but the thread of the stream, and the unbinding in the cleanup.
abbrev answers : LifeAnswers
answers = record {
  sys_init = true;
  capture = record { set_vi_vpss_mode = true; start_vi = true };
  get_pub_attr = true;
  set_pub_attr = true;
  vpss_start = true;
  bind = true;
  display = record {
    vo = record {
      set_pub_attr = true;
      set_user_sync_info = true;
      set_dev_frame_rate = true;
      enable = true;
      set_video_layer_attr = true;
      enable_video_layer = true;
      set_chn_attr = true;
      enable_chn = true;
      disable_video_layer = true;
      disable = true;
    };
    hdmi = record {
      init = true;
      open_device = true;
      get_hdmi_param = true;
      set_hdmi_param = true;
      get_attr = true;
      set_attr = true;
      close = true;
      deinit = true;
    };
    black = record {
      get_blk = true;
      phys_addr = true;
      mmap = true;
      send_frame = true;
      munmap = true;
      release_blk = true;
    };
    hdmi_start = true;
    hdmi_end = hdmi_ends;
    vo_end = vo_ends;
  };
  touch_ready = true;
  stream = record {
    calloc = true;
    malloc = true;
    buf_size = true;
    create_chn = true;
    start_chn = true;
    rtsp_start = true;
    create_thread = true;
    ending = record { stop_chn = true; destroy_chn = true };
  };
  infer = true;
  ctbg = false;
  ctbg_memory = false;
  ctrl_create = true;
  stream_create = false;
  socket_create = true;
  ending = record {
    infer = true;
    stream = record { stop_chn = true; destroy_chn = true };
    display = record { hdmi_stop = true; hdmi = hdmi_ends; vo = vo_ends };
    un_bind = false;
    vpss_stop = true;
  };
}

abbrev counters : StreamMetrics
counters = record {
  stream_frames = 0;
  stream_drops = 0;
  frame_timeouts = 0;
  infer_runs = 0;
  transient_errors = 0;
}

abbrev writing : StreamMode
writing = record { ctbg = true; writeback = true }

-- The scene has changed, and everything works.
abbrev changed : RoundAnswers
changed = record {
  got = true;
  coeff_ready = true;
  scene_changed = true;
  mapped = true;
  frame_set = true;
  applied = true;
  applied_set = true;
  sent = true;
  released = true;
  diag_applied = true;
  diag_set = false;
}

abbrev rounds : List RoundAnswers
rounds = changed ∷ record changed { got = false } ∷ changed ∷ []

stream_worker-Paced_example :
    handled no_frame (stream_worker writing (stream_start true counters) rounds).1 ≡ some no_frame
    × Paced (frames_got rounds) (stream_worker writing (stream_start true counters) rounds).0
stream_worker-Paced_example = stream_worker-Paced writing true counters rounds

-- The second frame comes too soon after the first for another write-back.
one_writeback :
    (stream_worker writing (stream_start true counters) rounds).1
    ≡ get_frame ∷ write_back ∷ send_frame ∷ release_frame ∷ get_frame ∷ send_frame ∷ release_frame
      ∷ diag_apply ∷ []
unfolding stream_worker
one_writeback = refl
