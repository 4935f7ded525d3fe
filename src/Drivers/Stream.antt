-- ===== src/Drivers/Stream.antt =====
-- board/src/stream.c: the encoder channel with its memory, its RTSP server and its thread. A call of
-- the vendor's library is an answer, `true` for success.
use hispark_soc_china.Prelude.{
  ℕ, Bool, true, false, not, ◌&&◌, ◌||◌, Option, none, some, List, [], ◌∷◌, ◌++◌, ltb, ◌==◌,
  if◌then◌else◌,
}
use hispark_soc_china.Drivers.Journal.{
  Entry, entry_if, up, down, gone, pack_memory, unit_memory, venc_channel, venc_receiving,
  rtsp_server, drain_thread,
}

-- `stream_cfg_t`; a NULL path is `none`.
pub record StreamCfg : Type 0 where
  pub width : ℕ
  pub height : ℕ
  pub fps : ℕ
  pub bitrate_kbps : ℕ
  pub rtsp_port : ℕ
  pub stream_path : Option (List ℕ)

abbrev path_given : Option (List ℕ) → Bool
path_given none = false
path_given (some path) = true

-- `cfg` is NULL for `none`.
unfoldable pub stream_cfg_ok : Option StreamCfg → Bool
stream_cfg_ok none = false
stream_cfg_ok (some cfg) = not (
    cfg.width == 0
    || (cfg.height == 0
        || (cfg.fps == 0
            || (cfg.bitrate_kbps == 0
                || (cfg.rtsp_port == 0 || not (path_given cfg.stream_path))))))

-- `g_stream`; a pointer is whether it is set. `rtsp_running` is kept by the RTSP server, and `venc_rate`
-- by the channel.
pub record Stream : Type 0 where
  pub initialized : Bool
  pub stop : Bool
  pub venc_created : Bool
  pub venc_started : Bool
  pub drain_started : Bool
  pub packs : Bool
  pub access_unit : Bool
  pub rtsp_running : Bool
  pub venc_rate : ℕ

abbrev pub zeroed : Stream
zeroed = record {
  initialized = false;
  stop = false;
  venc_created = false;
  venc_started = false;
  drain_started = false;
  packs = false;
  access_unit = false;
  rtsp_running = false;
  venc_rate = 0;
}

-- What the channel answers when it is stopped and destroyed. A failure is logged and passed over.
pub record StreamEnd : Type 0 where
  pub stop_chn : Bool
  pub destroy_chn : Bool

-- What `calloc`, `malloc`, the channel, the server and `pthread_create` answer.
pub record StreamAnswers : Type 0 where
  pub calloc : Bool
  pub malloc : Bool
  pub buf_size : Bool
  pub create_chn : Bool
  pub start_chn : Bool
  pub rtsp_start : Bool
  pub create_thread : Bool
  pub ending : StreamEnd

-- The journal and the state.
unfoldable pub stream_deinit : StreamEnd → Stream → List Entry × Stream
stream_deinit e s = (
  entry_if s.drain_started (gone drain_thread)
      ++ (entry_if s.rtsp_running (gone rtsp_server)
          ++ (entry_if s.venc_started (down venc_receiving e.stop_chn)
              ++ (entry_if s.venc_created (down venc_channel e.destroy_chn)
                  ++ (entry_if s.access_unit (gone unit_memory)
                      ++ entry_if s.packs (gone pack_memory))))),
  zeroed,
)

-- The memory, before the channel is made.
unfoldable pub allocate : StreamAnswers → List Entry × Stream
allocate a = (
  entry_if a.calloc (up pack_memory) ++ entry_if a.malloc (up unit_memory),
  record zeroed { packs = a.calloc; access_unit = a.malloc },
)

-- The journal, the state, and whether the answer is 0.
unfoldable pub venc_create : ℕ → StreamAnswers → Stream → List Entry × Stream × Bool
venc_create rate a s =
    let created = record s { venc_created = true; venc_rate = rate } in
    if not (a.buf_size && a.create_chn)
    then ([], s, false)
    else if not a.start_chn
    then (up venc_channel ∷ [], created, false)
    else (up venc_channel ∷ up venc_receiving ∷ [], record created { venc_started = true }, true)

-- The server and the thread, behind `venc_create`.
unfoldable pub serve : StreamAnswers → Stream → List Entry × Stream × Bool
serve a s =
    let serving = record s { rtsp_running = true } in
    if not a.rtsp_start
    then ([], s, false)
    else if not a.create_thread
    then (up rtsp_server ∷ [], serving, false)
    else (
      up rtsp_server ∷ up drain_thread ∷ [],
      record serving { drain_started = true; initialized = true },
      true,
    )

-- One part of `stream_init` after another, if the part before did not fail.
unfoldable pub next_part :
    (Stream → List Entry × Stream × Bool) → List Entry × Stream × Bool → List Entry × Stream × Bool
next_part f (j, s, ok) = let r = f s in if ok then (j ++ r.0, r.1, r.2) else (j, s, false)

unfoldable pub bring_up : ℕ → StreamAnswers → List Entry × Stream × Bool
unfolding next_part allocate venc_create serve
bring_up rate a =
    next_part (serve a)
      (next_part (venc_create rate a) ((allocate a).0, (allocate a).1, a.calloc && a.malloc))

-- `goto cleanup`
unfoldable pub or_cleanup : StreamEnd → List Entry × Stream × Bool → List Entry × Stream × Bool
unfolding stream_deinit
or_cleanup e (j, s, ok) =
    if ok then (j, s, true) else (j ++ (stream_deinit e s).0, (stream_deinit e s).1, false)

abbrev pub rate_of : Option StreamCfg → ℕ
rate_of none = 0
rate_of (some cfg) = cfg.bitrate_kbps

unfoldable pub stream_init : Stream → Option StreamCfg → StreamAnswers → List Entry × Stream × Bool
unfolding stream_cfg_ok bring_up or_cleanup
stream_init s cfg a =
    if not (stream_cfg_ok cfg)
    then ([], s, false)
    else if s.initialized
    then ([], s, true)
    else or_cleanup a.ending (bring_up (rate_of cfg) a)

-- What the channel answers: its attributes can be read, its mode is CBR, they can be written.
pub record RateAnswers : Type 0 where
  pub get_chn_attr : Bool
  pub h264_cbr : Bool
  pub set_chn_attr : Bool

-- The state, and whether the answer is 0.
unfoldable pub stream_set_bitrate : Stream → RateAnswers → ℕ → Stream × Bool
stream_set_bitrate s a kbps =
    if not s.initialized
    then (s, false)
    else if ltb kbps 128 || ltb 51200 kbps
    then (s, false)
    else if not (a.get_chn_attr && a.h264_cbr)
    then (s, false)
    else if s.venc_rate == kbps
    then (s, true)
    else if not a.set_chn_attr
    then (s, false)
    else (record s { venc_rate = kbps }, true)

-- Whether the answer is 0, for a frame that is given and a channel that takes it.
unfoldable pub stream_send_frame : Stream → Bool → Bool → Bool
stream_send_frame s frame sent = s.initialized && (frame && sent)

pub data StreamOp : Type 0 where
  init : Option StreamCfg → StreamAnswers → StreamOp
  set_bitrate : RateAnswers → ℕ → StreamOp
  deinit : StreamEnd → StreamOp

unfoldable pub stream_step : Stream → StreamOp → List Entry × Stream
unfolding stream_init stream_set_bitrate
stream_step s (init cfg a) = ((stream_init s cfg a).0, (stream_init s cfg a).1)
stream_step s (set_bitrate a kbps) = ([], (stream_set_bitrate s a kbps).0)
stream_step s (deinit e) = stream_deinit e s

unfoldable pub stream_run : Stream → List StreamOp → List Entry × Stream
unfolding stream_step
stream_run s [] = ([], s)
stream_run s (op ∷ ops) =
    let r = stream_step s op in let later = stream_run r.1 ops in (r.0 ++ later.0, later.1)
