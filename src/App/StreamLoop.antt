-- ===== src/App/StreamLoop.antt =====
-- `stream_worker` of board/src/main.c: the thread that hands frames to the encoder, and in CTBG mode
-- writes corrected ones back. What the vendor's calls, the network and the other threads do in a round
-- is an answer; the conversion of the pixels is left out but for the first byte that the loop tests.
use hispark_soc_china.Prelude.{
  ℕ, suc, ◌-◌, ◌%◌, Bool, false, not, ◌&&◌, List, [], ◌∷◌, ◌++◌, ltb, ◌==◌, if◌then◌else◌,
}
use hispark_soc_china.Worker.State.{tick}

-- CTBG_WRITEBACK_COOLDOWN, DIAG_INTERVAL and MAX_DIAG_APPLY.
abbrev pub ctbg_writeback_cooldown : ℕ
ctbg_writeback_cooldown = 45

abbrev pub diag_interval : ℕ
diag_interval = 15

abbrev pub max_diag_apply : ℕ
max_diag_apply = 5

-- The counters of `app_runtime_metrics_t` that the thread moves.
pub record StreamMetrics : Type 0 where
  pub stream_frames : ℕ
  pub stream_drops : ℕ
  pub frame_timeouts : ℕ
  pub infer_runs : ℕ
  pub transient_errors : ℕ

-- The variables of the loop; `nv_set` is that the first byte of `ctbg_nv` is not 0.
pub record StreamLoop : Type 0 where
  pub wb_cooldown : ℕ
  pub apply_count : ℕ
  pub diag_seq : ℕ
  pub diag_apply_done : ℕ
  pub nv_set : Bool
  pub metrics : StreamMetrics

-- The options that the thread goes by.
pub record StreamMode : Type 0 where
  pub ctbg : Bool
  pub writeback : Bool

-- A round: `got` and `sent` and `released` are answers of the VPSS and the encoder; `coeff_ready` and
-- `scene_changed` come from the control thread; `mapped` is that both planes are mapped; `frame_set`,
-- `applied_set` and `diag_set` are the first byte after the copy and after the two conversions.
pub record RoundAnswers : Type 0 where
  pub got : Bool
  pub coeff_ready : Bool
  pub scene_changed : Bool
  pub mapped : Bool
  pub frame_set : Bool
  pub applied : Bool
  pub applied_set : Bool
  pub sent : Bool
  pub released : Bool
  pub diag_applied : Bool
  pub diag_set : Bool

-- What a round does with the frame, in order.
pub data FrameCall : Type 0 where
  get_frame write_back send_frame release_frame diag_apply : FrameCall

unfoldable pub ready : StreamMode → RoundAnswers → Bool
ready mode a = mode.ctbg && a.coeff_ready

unfoldable pub do_writeback : StreamMode → StreamLoop → RoundAnswers → Bool
unfolding ready
do_writeback mode s a =
    mode.writeback
    && ((ready mode a && a.scene_changed) && (s.wb_cooldown == 0 && ltb s.apply_count 20))

unfoldable pub count_infer : StreamLoop → StreamLoop
count_infer s = record s { metrics = record s.metrics { infer_runs = tick s.metrics.infer_runs } }

-- The write-back, for a frame whose planes are mapped.
unfoldable pub write_frame : StreamLoop → RoundAnswers → StreamLoop
unfolding count_infer
write_frame s a =
    let copied = record s { nv_set = a.frame_set } in
    let written = record (count_infer copied) {
      apply_count = suc s.apply_count;
      nv_set = a.applied_set;
      wb_cooldown = ctbg_writeback_cooldown;
    } in
    if not a.mapped then s else if a.applied then written else copied

-- Every fifteenth frame is copied.
unfoldable pub copy_frame : StreamMode → StreamLoop → RoundAnswers → StreamLoop
unfolding ready
copy_frame mode s a =
    let counted = record s { diag_seq = suc s.diag_seq } in
    if not (ready mode a && ltb s.apply_count 30)
    then s
    else if (suc s.diag_seq % diag_interval == 0) && a.mapped
    then record counted { nv_set = a.frame_set }
    else counted

-- Sending and giving back.
unfoldable pub send_and_release : StreamLoop → RoundAnswers → StreamLoop
send_and_release s a =
    let m = s.metrics in
    let dropped : StreamMetrics → StreamMetrics = λ x. record x {
      stream_drops = tick x.stream_drops;
      transient_errors = tick x.transient_errors;
    } in
    let sent = if a.sent then record m { stream_frames = tick m.stream_frames } else dropped m in
    record s { metrics = if a.released then sent else dropped sent }

unfoldable pub diag_due : StreamMode → StreamLoop → RoundAnswers → Bool
unfolding ready
diag_due mode s a = ready mode a && (s.nv_set && ltb s.diag_apply_done max_diag_apply)

unfoldable pub diagnose : StreamLoop → RoundAnswers → StreamLoop
unfolding count_infer
diagnose s a =
    let begun = record s { nv_set = false; diag_apply_done = suc s.diag_apply_done } in
    if a.diag_applied then record (count_infer begun) { nv_set = a.diag_set } else begun

unfoldable pub timed_out : StreamLoop → StreamLoop
timed_out s =
    let m = s.metrics in
    record s {
      metrics = record m {
        stream_drops = tick m.stream_drops;
        frame_timeouts = tick m.frame_timeouts;
      };
    }

-- The rest of a round that writes back, and of one that does not.
unfoldable pub writing_round : StreamLoop → RoundAnswers → StreamLoop × List FrameCall
unfolding write_frame send_and_release
writing_round s a =
    (send_and_release (write_frame s a) a, get_frame ∷ write_back ∷ send_frame ∷ release_frame ∷ [])

unfoldable pub plain_round : StreamMode → StreamLoop → RoundAnswers → StreamLoop × List FrameCall
unfolding copy_frame send_and_release diag_due diagnose
plain_round mode s a =
    let s' = send_and_release (copy_frame mode s a) a in
    if diag_due mode s' a
    then (diagnose s' a, get_frame ∷ send_frame ∷ release_frame ∷ diag_apply ∷ [])
    else (s', get_frame ∷ send_frame ∷ release_frame ∷ [])

unfoldable pub stream_round : StreamMode → StreamLoop → RoundAnswers → StreamLoop × List FrameCall
unfolding timed_out do_writeback writing_round plain_round
stream_round mode s a =
    let cooled = record s { wb_cooldown = s.wb_cooldown - 1 } in
    if not a.got
    then (timed_out s, [])
    else if do_writeback mode cooled a
    then writing_round cooled a
    else plain_round mode cooled a

-- One round for each that finds `g_stop` unset.
unfoldable pub stream_worker :
    StreamMode → StreamLoop → List RoundAnswers → StreamLoop × List FrameCall
unfolding stream_round
stream_worker mode s [] = (s, [])
stream_worker mode s (a ∷ rounds) =
    let r = stream_round mode s a in
    let later = stream_worker mode r.0 rounds in (later.0, r.1 ++ later.1)

-- The loop's variables when the thread starts: `nv_set` is what `malloc` leaves.
abbrev pub stream_start : Bool → StreamMetrics → StreamLoop
stream_start nv_set m = record {
  wb_cooldown = 0;
  apply_count = 0;
  diag_seq = 0;
  diag_apply_done = 0;
  nv_set = nv_set;
  metrics = m;
}
