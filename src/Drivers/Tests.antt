-- ===== src/Drivers/Tests.antt =====
-- Runs of the drivers.
use hispark_soc_china.Prelude.{◌≡◌, refl, true, false, none, some, List, [], ◌∷◌, arith}
use hispark_soc_china.Prelude.Strings.{bytes_of}
use hispark_soc_china.Drivers.Journal.{outcome, refused, vo_layer, hdmi_output}
use hispark_soc_china.Drivers.Display.{
  VoAnswers, HdmiAnswers, BlackAnswers, DisplayAnswers, DisplayOp, VoEnd, HdmiEnd, DisplayEnd,
  display_run,
}
use hispark_soc_china.Drivers.Stream.{
  StreamCfg, StreamAnswers, RateAnswers, StreamOp, zeroed, stream_run,
}
use hispark_soc_china.Drivers.Channel.{Idle, stream_parts, stream_run-outcome}
use hispark_soc_china.Drivers.Drain.{DrainAnswers, fetched, released, published, drain_worker}
use hispark_soc_china.Drivers.Units.{all_calls, drain_worker-all_calls}

abbrev vo_up : VoAnswers
vo_up = record {
  set_pub_attr = true;
  set_user_sync_info = true;
  set_dev_frame_rate = true;
  enable = true;
  set_video_layer_attr = true;
  enable_video_layer = true;
  set_chn_attr = true;
  enable_chn = true;
  disable_video_layer = true;
  disable = true;
}

abbrev hdmi_up : HdmiAnswers
hdmi_up = record {
  init = true;
  open_device = true;
  get_hdmi_param = true;
  set_hdmi_param = true;
  get_attr = true;
  set_attr = true;
  close = true;
  deinit = true;
}

abbrev black : BlackAnswers
black = record {
  get_blk = true;
  phys_addr = true;
  mmap = true;
  send_frame = true;
  munmap = true;
  release_blk = true;
}

abbrev layer_stays : VoEnd
layer_stays = record { disable_chn = true; disable_video_layer = false; disable = true }

abbrev hdmi_ends : HdmiEnd
hdmi_ends = record { close = true; deinit = true }

abbrev display_up : DisplayAnswers
display_up = record {
  vo = vo_up;
  hdmi = hdmi_up;
  black = black;
  hdmi_start = true;
  hdmi_end = hdmi_ends;
  vo_end = layer_stays;
}

abbrev output_stays : DisplayEnd
output_stays = record { hdmi_stop = false; hdmi = hdmi_ends; vo = layer_stays }

abbrev no_signal : DisplayAnswers
no_signal = record display_up { hdmi_start = false }

-- A start that fails at the output, one that works, and the end; some calls of the end fail.
abbrev display_ops : List DisplayOp
display_ops =
    DisplayOp.init no_signal
    ∷ DisplayOp.init display_up
    ∷ DisplayOp.deinit output_stays
    ∷ DisplayOp.init display_up
    ∷ []

layer_and_output_stay :
    refused (display_run false display_ops).0 ≡ vo_layer ∷ hdmi_output ∷ vo_layer ∷ []
unfolding refused display_run
layer_and_output_stay = refl

abbrev cfg : StreamCfg
cfg = record {
  width = 1024;
  height = 576;
  fps = 30;
  bitrate_kbps = 4000;
  rtsp_port = 8554;
  stream_path = some (bytes_of "live");
}

abbrev all_work : StreamAnswers
all_work = record {
  calloc = true;
  malloc = true;
  buf_size = true;
  create_chn = true;
  start_chn = true;
  rtsp_start = true;
  create_thread = true;
  ending = record { stop_chn = true; destroy_chn = false };
}

abbrev port_taken : StreamAnswers
port_taken = record all_work { rtsp_start = false }

abbrev rate_works : RateAnswers
rate_works = record { get_chn_attr = true; h264_cbr = true; set_chn_attr = true }

abbrev stream_ops : List StreamOp
stream_ops =
    StreamOp.init (some cfg) port_taken
    ∷ StreamOp.init (some cfg) all_work
    ∷ StreamOp.set_bitrate rate_works 2000
    ∷ []

stream_run-outcome_example :
    outcome [] (stream_run zeroed stream_ops).0
      ≡ some (
        stream_parts (stream_run zeroed stream_ops).1 [],
        refused (stream_run zeroed stream_ops).0,
      )
    × Idle (stream_run zeroed stream_ops).1
stream_run-outcome_example = stream_run-outcome zeroed stream_ops [] (λ off. refl)

abbrev rounds : List DrainAnswers
rounds =
    record { cur_packs = none; get_stream = none }
    ∷ record {
      cur_packs = some 2;
      get_stream = some (
          record { addr = 9 ∷ 1 ∷ 2 ∷ []; offset = 1 } ∷ record { addr = 3 ∷ []; offset = 0 } ∷ []);
    }
    ∷ record { cur_packs = some 64; get_stream = none }
    ∷ []

drain_worker-all_calls_example : drain_worker rounds ≡ all_calls rounds
drain_worker-all_calls_example = drain_worker-all_calls rounds (ground arith)

one_unit_is_published : drain_worker rounds ≡ fetched ∷ published (1 ∷ 2 ∷ 3 ∷ []) ∷ released ∷ []
unfolding drain_worker
one_unit_is_published = refl
