-- ===== src/Drivers/Channel.antt =====
-- Whatever fails, board/src/stream.c asks for each part that it has brought up to be taken down, the last
-- part first.
use hispark_soc_china.Prelude.{
  ◌≡◌, refl, ap, sym, ◌∙◌, ℕ, Bool, true, false, not, Option, some, List, [], ◌∷◌, arith, if_both,
}
use hispark_soc_china.Drivers.Journal.{
  Part, part_if, Entry, standing, standing_then, outcome, refused, outcome-standing, pack_memory,
  unit_memory, venc_channel, venc_receiving, rtsp_server, drain_thread,
}
use hispark_soc_china.Drivers.Stream.{
  StreamCfg, stream_cfg_ok, Stream, zeroed, StreamAnswers, stream_deinit, allocate, venc_create,
  serve, next_part, bring_up, or_cleanup, rate_of, stream_init, stream_set_bitrate, RateAnswers,
  StreamEnd, StreamOp, stream_step, stream_run,
}

-- The parts that the flags and the pointers of `g_stream` say are up.
abbrev pub stream_parts : Stream → List Part → List Part
stream_parts s st = part_if s.drain_started drain_thread (
    part_if s.rtsp_running rtsp_server (
      part_if s.venc_started venc_receiving (
        part_if s.venc_created venc_channel
          (part_if s.access_unit unit_memory (part_if s.packs pack_memory st)))))

pub stream_deinit-standing :
    (e : StreamEnd) (s : Stream) (st : List Part)
    → standing (stream_parts s st) (stream_deinit e s).0 ≡ some st
unfolding stream_deinit standing
stream_deinit-standing e s st = ground arith

bring_up-standing :
    (rate : ℕ) (a : StreamAnswers) (st : List Part)
    → standing st (bring_up rate a).0 ≡ some (stream_parts (bring_up rate a).1 st)
unfolding bring_up next_part allocate venc_create serve standing
bring_up-standing rate a st = ground arith

or_cleanup-standing :
    (e : StreamEnd) (r : List Entry × Stream × Bool) (st : List Part)
    → standing st r.0 ≡ some (stream_parts r.1 st)
    → standing st (or_cleanup e r).0 ≡ some (stream_parts (or_cleanup e r).1 st)
unfolding or_cleanup
or_cleanup-standing e (j, s, ok) st h =
    if_both ok (λ (r : List Entry × Stream × Bool). standing st r.0 ≡ some (stream_parts r.1 st))
      (λ on. h)
      (λ off.
        standing_then j (stream_deinit e s).0 st (stream_parts s st) h
        ∙ stream_deinit-standing e s st)

-- A stream that is not initialised holds nothing.
abbrev pub Idle : Stream → Type 0
Idle s = s.initialized ≡ false → s ≡ zeroed

bring_up_initialized :
    (rate : ℕ) (a : StreamAnswers)
    → (bring_up rate a).2 ≡ true
    → (bring_up rate a).1.initialized ≡ true
unfolding bring_up next_part allocate venc_create serve
bring_up_initialized rate a = ground arith

-- What a call leaves, as the next one finds it.
record Leaves (st : List Part) (j : List Entry) (s : Stream) : Type 0 where
  parts : standing st j ≡ some (stream_parts s st)
  idle : Idle s

or_cleanup-Idle :
    (e : StreamEnd) (r : List Entry × Stream × Bool)
    → (r.2 ≡ true → r.1.initialized ≡ true)
    → Idle (or_cleanup e r).1
unfolding or_cleanup stream_deinit
or_cleanup-Idle e (j, s, ok) h =
    if_both ok (λ (r : List Entry × Stream × Bool). Idle r.1) (λ on off. ground (arith, h on))
      (λ e' off. refl)

fresh_init-Leaves :
    (rate : ℕ) (a : StreamAnswers) (st : List Part)
    → Leaves st (or_cleanup a.ending (bring_up rate a)).0 (or_cleanup a.ending (bring_up rate a)).1
fresh_init-Leaves rate a st = record {
  parts = or_cleanup-standing a.ending (bring_up rate a) st (bring_up-standing rate a st);
  idle = or_cleanup-Idle a.ending (bring_up rate a) (bring_up_initialized rate a);
}

stream_set_bitrate-parts :
    (s : Stream) (a : RateAnswers) (kbps : ℕ) (st : List Part)
    → stream_parts (stream_set_bitrate s a kbps).0 st ≡ stream_parts s st
unfolding stream_set_bitrate
stream_set_bitrate-parts s a kbps st = ground arith

stream_set_bitrate-Idle :
    (s : Stream) (a : RateAnswers) (kbps : ℕ) → Idle s → Idle (stream_set_bitrate s a kbps).0
unfolding stream_set_bitrate
stream_set_bitrate-Idle s a kbps v = ground arith

pub stream_init-Leaves :
    (s : Stream) (cfg : Option StreamCfg) (a : StreamAnswers) (st : List Part)
    → Idle s
    → standing (stream_parts s st) (stream_init s cfg a).0
        ≡ some (stream_parts (stream_init s cfg a).1 st)
      × Idle (stream_init s cfg a).1
unfolding stream_init standing
stream_init-Leaves s cfg a st v =
    let Done : List Entry × Stream × Bool → Type 0 =
      λ r. (standing (stream_parts s st) r.0 ≡ some (stream_parts r.1 st)) × Idle r.1 in
    let fresh = fresh_init-Leaves (rate_of cfg) a st in
    if_both (not (stream_cfg_ok cfg)) Done (λ e. (refl, v))
      (λ e.
        if_both s.initialized Done (λ on. (refl, v))
          (λ off. (
            ap
                  (λ x.
                    standing (stream_parts x st) (or_cleanup a.ending (bring_up (rate_of cfg) a)).0)
                  (v off)
                ∙ fresh.parts,
            fresh.idle,
          )))

stream_run-standing :
    (s : Stream) (ops : List StreamOp) (st : List Part)
    → Idle s
    → standing (stream_parts s st) (stream_run s ops).0
        ≡ some (stream_parts (stream_run s ops).1 st)
      × Idle (stream_run s ops).1
unfolding stream_run stream_step standing
stream_run-standing s [] st v = (refl, v)
stream_run-standing s (StreamOp.init cfg a ∷ ops) st v =
    let done = stream_init-Leaves s cfg a st v in
    let later = stream_run-standing (stream_init s cfg a).1 ops st done.1 in
    (
      standing_then (stream_init s cfg a).0 (stream_run (stream_init s cfg a).1 ops).0
            (stream_parts s st) (stream_parts (stream_init s cfg a).1 st) done.0
          ∙ later.0,
      later.1,
    )
stream_run-standing s (StreamOp.set_bitrate a kbps ∷ ops) st v =
    let s' = (stream_set_bitrate s a kbps).0 in
    let later = stream_run-standing s' ops st (stream_set_bitrate-Idle s a kbps v) in
    (
      ap (λ x. standing x (stream_run s' ops).0) (sym (stream_set_bitrate-parts s a kbps st))
          ∙ later.0,
      later.1,
    )
stream_run-standing s (StreamOp.deinit e ∷ ops) st v =
    let later = stream_run-standing zeroed ops st (λ off. refl) in
    (
      standing_then (stream_deinit e s).0 (stream_run zeroed ops).0 (stream_parts s st) st
            (stream_deinit-standing e s st)
          ∙ later.0,
      later.1,
    )

or_cleanup_flag :
    (e : StreamEnd) (r : List Entry × Stream × Bool)
    → (r.2 ≡ true → r.1.initialized ≡ true)
    → (or_cleanup e r).1.initialized ≡ (or_cleanup e r).2
unfolding or_cleanup stream_deinit
or_cleanup_flag e (j, s, ok) h =
    if_both ok (λ (r : List Entry × Stream × Bool). r.1.initialized ≡ r.2) (λ on. h on)
      (λ off. refl)

-- What `stream_init` answers is whether the stream is initialised, if it was not before.
pub stream_init_flag :
    (s : Stream) (cfg : Option StreamCfg) (a : StreamAnswers)
    → s.initialized ≡ false
    → (stream_init s cfg a).1.initialized ≡ (stream_init s cfg a).2
unfolding stream_init
stream_init_flag s cfg a off =
    let flag =
      or_cleanup_flag a.ending (bring_up (rate_of cfg) a) (bring_up_initialized (rate_of cfg) a) in
    ground (arith, flag)

-- However calls of `stream_init`, `stream_set_bitrate` and `stream_deinit` follow each other, and
-- whichever of their calls fail, those that stop and destroy the channel included, from a state that
-- holds nothing unless it is initialised: a call to take a part down is only made for the last part
-- for which none has been made; after the run those parts stand that the state names, and of the
-- others that it has brought up exactly those whose calls to take them down failed; and the state
-- still holds nothing unless it is initialised.
pub stream_run-outcome :
    (s : Stream) (ops : List StreamOp) (st : List Part)
    → Idle s
    → outcome (stream_parts s st) (stream_run s ops).0
        ≡ some (stream_parts (stream_run s ops).1 st, refused (stream_run s ops).0)
      × Idle (stream_run s ops).1
stream_run-outcome s ops st v =
    let run = stream_run-standing s ops st v in
    (
      outcome-standing (stream_run s ops).0 (stream_parts s st)
          (stream_parts (stream_run s ops).1 st) run.0,
      run.1,
    )
