-- ===== src/App/Pace.antt =====
-- How `stream_worker` (board/src/main.c) treats its frames, and how often it writes back.
use hispark_soc_china.Prelude.{
  ℕ, suc, ◌+◌, ◌-◌, ◌*◌, ◌≤◌, ◌<◌, ◌≡◌, refl, sym, subst, ◌∙◌, Option, none, some, Bool, true,
  false, not, List, [], ◌∷◌, ◌++◌, arith, if_both,
}
use hispark_soc_china.App.StreamLoop.{
  StreamMetrics, StreamLoop, StreamMode, RoundAnswers, FrameCall, get_frame, write_back, send_frame,
  release_frame, diag_apply, do_writeback, count_infer, write_frame, copy_frame, send_and_release,
  diag_due, diagnose, timed_out, writing_round, plain_round, stream_round, stream_worker,
  stream_start,
}

abbrev pub one_more : Bool → ℕ → ℕ
one_more false n = n
one_more true n = suc n

-- The number of rounds that got a frame.
abbrev pub frames_got : List RoundAnswers → ℕ
frames_got [] = 0
frames_got (a ∷ rounds) = one_more a.got (frames_got rounds)

-- How far the loop has come after `n` frames.
pub record Paced (n : ℕ) (s : StreamLoop) : Type 0 where
  pub few_writes : s.apply_count ≤ 20
  pub few_diagnoses : s.diag_apply_done ≤ 5
  pub spaced : 45 * s.apply_count ≤ n + s.wb_cooldown
  pub cooling : s.wb_cooldown ≤ 45

send_and_release-Paced :
    (n : ℕ) (s : StreamLoop) (a : RoundAnswers) → Paced n s → Paced n (send_and_release s a)
unfolding send_and_release
send_and_release-Paced n s a v = record {
  few_writes = v.few_writes;
  few_diagnoses = v.few_diagnoses;
  spaced = v.spaced;
  cooling = v.cooling;
}

timed_out-Paced : (n : ℕ) (s : StreamLoop) → Paced n s → Paced n (timed_out s)
unfolding timed_out
timed_out-Paced n s v = record {
  few_writes = v.few_writes;
  few_diagnoses = v.few_diagnoses;
  spaced = v.spaced;
  cooling = v.cooling;
}

cooled-Paced :
    (n : ℕ) (s : StreamLoop)
    → Paced n s
    → Paced (suc n) (record s { wb_cooldown = s.wb_cooldown - 1 })
cooled-Paced n s v = ground arith

write_frame-Paced :
    (n : ℕ) (s : StreamLoop) (a : RoundAnswers)
    → s.wb_cooldown ≡ 0
    → s.apply_count < 20
    → Paced n s
    → Paced n (write_frame s a)
unfolding write_frame count_infer
write_frame-Paced n s a z h v = ground arith

copy_frame-Paced :
    (mode : StreamMode) (n : ℕ) (s : StreamLoop) (a : RoundAnswers)
    → Paced n s
    → Paced n (copy_frame mode s a)
unfolding copy_frame
copy_frame-Paced mode n s a v = ground arith

diagnose-Paced :
    (n : ℕ) (s : StreamLoop) (a : RoundAnswers)
    → s.diag_apply_done < 5
    → Paced n s
    → Paced n (diagnose s a)
unfolding diagnose count_infer
diagnose-Paced n s a h v = ground arith

plain_round-Paced :
    (mode : StreamMode) (n : ℕ) (s : StreamLoop) (a : RoundAnswers)
    → Paced n s
    → Paced n (plain_round mode s a).0
unfolding plain_round diag_due
plain_round-Paced mode n s a v =
    let s' = send_and_release (copy_frame mode s a) a in
    let v' = send_and_release-Paced n (copy_frame mode s a) a (copy_frame-Paced mode n s a v) in
    if_both (diag_due mode s' a) (λ (r : StreamLoop × List FrameCall). Paced n r.0)
      (λ e. diagnose-Paced n s' a (ground (arith, e)) v') (λ e. v')

writing_round-Paced :
    (mode : StreamMode) (n : ℕ) (s : StreamLoop) (a : RoundAnswers)
    → do_writeback mode s a ≡ true
    → Paced n s
    → Paced n (writing_round s a).0
unfolding writing_round do_writeback
writing_round-Paced mode n s a e v =
    send_and_release-Paced n (write_frame s a) a
      (write_frame-Paced n s a (ground (arith, e)) (ground (arith, e)) v)

one_more_add : (b : Bool) (n m : ℕ) → n + one_more b m ≡ one_more b n + m
one_more_add false n m = refl
one_more_add true n m = omega arith

stream_round-Paced :
    (mode : StreamMode) (n : ℕ) (s : StreamLoop) (a : RoundAnswers)
    → Paced n s
    → Paced (one_more a.got n) (stream_round mode s a).0
unfolding stream_round
stream_round-Paced mode n s a v =
    let cooled = record s { wb_cooldown = s.wb_cooldown - 1 } in
    let counted : (b : Bool)
        → a.got ≡ b
        → (x : StreamLoop) → Paced (one_more b n) x
        → Paced (one_more a.got n) x =
      λ b e x w. subst (λ c. Paced (one_more c n) x) (sym e) w in
    if_both (not a.got) (λ (r : StreamLoop × List FrameCall). Paced (one_more a.got n) r.0)
      (λ e. counted false (ground (arith, e)) (timed_out s) (timed_out-Paced n s v))
      (λ e.
        if_both (do_writeback mode cooled a)
          (λ (r : StreamLoop × List FrameCall). Paced (one_more a.got n) r.0)
          (λ w.
            counted true (ground (arith, e)) (writing_round cooled a).0
              (writing_round-Paced mode (suc n) cooled a w (cooled-Paced n s v)))
          (λ w.
            counted true (ground (arith, e)) (plain_round mode cooled a).0
              (plain_round-Paced mode (suc n) cooled a (cooled-Paced n s v))))

run-Paced :
    (mode : StreamMode) (m : ℕ) (s : StreamLoop) (rounds : List RoundAnswers)
    → Paced m s
    → Paced (frames_got rounds + m) (stream_worker mode s rounds).0
unfolding stream_worker
run-Paced mode m s [] v =
    let none_yet : m ≡ 0 + m = omega arith in subst (λ k. Paced k s) none_yet v
run-Paced mode m s (a ∷ rounds) v =
    let r = stream_round mode s a in
    subst (λ k. Paced k (stream_worker mode r.0 rounds).0)
      (one_more_add a.got (frames_got rounds) m)
      (run-Paced mode (one_more a.got m) r.0 rounds (stream_round-Paced mode m s a v))

-- Where a frame is: with the VPSS, with the thread, or with the thread after it was sent.
pub data Hand : Type 0 where
  no_frame held handed_on : Hand

-- What the calls make of it; `none` is a call that must not come there.
unfoldable pub handled : Hand → List FrameCall → Option Hand
handled h [] = some h
handled no_frame (get_frame ∷ cs) = handled held cs
handled no_frame (diag_apply ∷ cs) = handled no_frame cs
handled held (write_back ∷ cs) = handled held cs
handled held (send_frame ∷ cs) = handled handed_on cs
handled handed_on (release_frame ∷ cs) = handled no_frame cs
handled _ (_ ∷ cs) = none

stream_round-handled :
    (mode : StreamMode) (s : StreamLoop) (a : RoundAnswers) (cs : List FrameCall)
    → handled no_frame ((stream_round mode s a).1 ++ cs) ≡ handled no_frame cs
unfolding stream_round writing_round plain_round handled
stream_round-handled mode s a cs = ground arith

run-handled :
    (mode : StreamMode) (s : StreamLoop) (rounds : List RoundAnswers)
    → handled no_frame (stream_worker mode s rounds).1 ≡ some no_frame
unfolding stream_worker handled
run-handled mode s [] = refl
run-handled mode s (a ∷ rounds) =
    let r = stream_round mode s a in
    stream_round-handled mode s a (stream_worker mode r.0 rounds).1 ∙ run-handled mode r.0 rounds

-- In every run of the thread, in every mode and whatever its calls answer: each frame that it gets is
-- sent once and then given back once, before the next is asked for, a write-back falls before the
-- sending and a diagnosis behind the return; at most 20 write-backs succeed and at most 5 diagnoses
-- begin, and for every write-back but one there are 45 frames.
pub stream_worker-Paced :
    (mode : StreamMode) (nv_set : Bool) (m : StreamMetrics) (rounds : List RoundAnswers)
    → handled no_frame (stream_worker mode (stream_start nv_set m) rounds).1 ≡ some no_frame
      × Paced (frames_got rounds) (stream_worker mode (stream_start nv_set m) rounds).0
stream_worker-Paced mode nv_set m rounds =
    let start = stream_start nv_set m in
    let whole : frames_got rounds + 0 ≡ frames_got rounds = omega arith in
    (
      run-handled mode start rounds,
      subst (λ k. Paced k (stream_worker mode start rounds).0) whole
          (run-Paced mode 0 start rounds (ground arith)),
    )
