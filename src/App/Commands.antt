-- ===== src/App/Commands.antt =====
-- What the options of board/src/main.c set, and which configurations `main` goes on with.
use hispark_soc_china.Prelude.{
  ℕ, ◌≡◌, refl, Bool, true, false, not, ◌&&◌, Option, none, some, List, [], ◌∷◌, arith, if_both,
  if◌then◌else◌, subst,
}
use hispark_soc_china.Prelude.Strings.{bytes_of, same}
use hispark_soc_china.Floats.{FloatOps}
use hispark_soc_china.Pipeline.Config.{
  PipelineStatus, status_ok, status_invalid, status_state, status_timeout, status_io,
  status_runtime, pipeline_config_defaults, pipeline_config_validate,
}
use hispark_soc_china.Pipeline.Valid.{IsValid, pipeline_config_validate-ok_iff}
use hispark_soc_china.App.Options.{
  PlainOption, opt_wdr, opt_stream, opt_no_display, opt_no_nn, opt_ctbg, opt_paramnet,
  opt_ctbg_writeback, ValueOption, opt_sensor, opt_fps, opt_strength, opt_bitrate, opt_rtsp_port,
  opt_rtsp_bind, opt_ctrl_sock, opt_stream_path, opt_model, opt_nn_high_clip, opt_ctbg_est_om,
  opt_ctbg_app_om, plain_option, value_option, Stdlib, MainOptions, main_defaults, set_plain,
  set_value, take_value, take_option, read_options, without_model, next_word, is_null, if_ok,
  main_options,
}

abbrev pub plain_name : PlainOption → List ℕ
plain_name opt_wdr = bytes_of "--wdr"
plain_name opt_stream = bytes_of "--stream"
plain_name opt_no_display = bytes_of "--no-display"
plain_name opt_no_nn = bytes_of "--no-nn"
plain_name opt_ctbg = bytes_of "--ctbg"
plain_name opt_paramnet = bytes_of "--paramnet"
plain_name opt_ctbg_writeback = bytes_of "--ctbg-writeback"

abbrev pub value_name : ValueOption → List ℕ
value_name opt_sensor = bytes_of "--sensor"
value_name opt_fps = bytes_of "--fps"
value_name opt_strength = bytes_of "--strength"
value_name opt_bitrate = bytes_of "--bitrate"
value_name opt_rtsp_port = bytes_of "--rtsp-port"
value_name opt_rtsp_bind = bytes_of "--rtsp-bind"
value_name opt_ctrl_sock = bytes_of "--ctrl-sock"
value_name opt_stream_path = bytes_of "--stream-path"
value_name opt_model = bytes_of "--model"
value_name opt_nn_high_clip = bytes_of "--nn-high-clip"
value_name opt_ctbg_est_om = bytes_of "--ctbg-est-om"
value_name opt_ctbg_app_om = bytes_of "--ctbg-app-om"

-- One option of a command line, and the line that such options are written as.
pub data Command : Type 0 where
  plain : PlainOption → Command
  given : ValueOption → List ℕ → Command

abbrev pub words : List Command → List (List ℕ)
words [] = []
words (plain p ∷ cs) = plain_name p ∷ words cs
words (given v w ∷ cs) = value_name v ∷ w ∷ words cs

plain_option-plain_name : (p : PlainOption) → plain_option (plain_name p) ≡ some p
unfolding plain_option same
plain_option-plain_name opt_wdr = refl
plain_option-plain_name opt_stream = refl
plain_option-plain_name opt_no_display = refl
plain_option-plain_name opt_no_nn = refl
plain_option-plain_name opt_ctbg = refl
plain_option-plain_name opt_paramnet = refl
plain_option-plain_name opt_ctbg_writeback = refl

abbrev Told : ValueOption → Type 0
Told v = (plain_option (value_name v) ≡ none) × (value_option (value_name v) ≡ some v)

value_name-Told : (v : ValueOption) → Told v
unfolding plain_option value_option same
value_name-Told opt_sensor = (refl, refl)
value_name-Told opt_fps = (refl, refl)
value_name-Told opt_strength = (refl, refl)
value_name-Told opt_bitrate = (refl, refl)
value_name-Told opt_rtsp_port = (refl, refl)
value_name-Told opt_rtsp_bind = (refl, refl)
value_name-Told opt_ctrl_sock = (refl, refl)
value_name-Told opt_stream_path = (refl, refl)
value_name-Told opt_model = (refl, refl)
value_name-Told opt_nn_high_clip = (refl, refl)
value_name-Told opt_ctbg_est_om = (refl, refl)
value_name-Told opt_ctbg_app_om = (refl, refl)

module _ (fl : FloatOps) where
  -- The network has a model, or the CTBG mode has its own.
  abbrev pub Named : MainOptions fl → Type 0
  Named s = s.enable_nn ≡ true → s.ctbg_mode ≡ false → ¬ (s.cfg.model_path ≡ none)

  -- A configuration that `main` goes on with.
  pub record Ready (s : MainOptions fl) : Type 0 where
    pub valid : IsValid fl s.cfg
    pub linear : s.cfg.input_mode ≡ 0
    pub period : s.cfg.control_poll_frames ≡ 3
    pub model : Named s

module _ (fl : FloatOps) (lib : Stdlib fl) where
  -- The options of a list, set one after the other.
  abbrev pub set_all : List Command → MainOptions fl → MainOptions fl
  set_all [] s = s
  set_all (plain p ∷ cs) s = set_all cs (set_plain fl p s)
  set_all (given v w ∷ cs) s = set_all cs (set_value fl lib v w s)

  -- A command line that is written from options, whatever the texts of their values, is read as
  -- exactly these options in this order.
  pub read_options-words :
      (cs : List Command) (s : MainOptions fl)
      → read_options fl lib false (words cs) s ≡ some (set_all cs s)
  unfolding read_options take_option take_value
  read_options-words [] s = refl
  read_options-words (plain p ∷ cs) s =
      rw (read_options, plain_option-plain_name p) (read_options-words cs (set_plain fl p s))
  read_options-words (given v w ∷ cs) s =
      rw (read_options, (value_name-Told v).0, (value_name-Told v).1)
        (read_options-words cs (set_value fl lib v w s))

  -- What no option changes.
  abbrev Fixed : MainOptions fl → Type 0
  Fixed s = (s.cfg.input_mode ≡ 0) × (s.cfg.control_poll_frames ≡ 3)

  set_plain-Fixed : (p : PlainOption) (s : MainOptions fl) → Fixed s → Fixed (set_plain fl p s)
  unfolding set_plain
  set_plain-Fixed opt_wdr s h = h
  set_plain-Fixed opt_stream s h = h
  set_plain-Fixed opt_no_display s h = h
  set_plain-Fixed opt_no_nn s h = h
  set_plain-Fixed opt_ctbg s h = h
  set_plain-Fixed opt_paramnet s h = h
  set_plain-Fixed opt_ctbg_writeback s h = h

  set_value-Fixed :
      (v : ValueOption) (w : List ℕ) (s : MainOptions fl) → Fixed s → Fixed (set_value fl lib v w s)
  unfolding set_value
  set_value-Fixed opt_sensor w s h = h
  set_value-Fixed opt_fps w s h = h
  set_value-Fixed opt_strength w s h = h
  set_value-Fixed opt_bitrate w s h = h
  set_value-Fixed opt_rtsp_port w s h = h
  set_value-Fixed opt_rtsp_bind w s h = h
  set_value-Fixed opt_ctrl_sock w s h = h
  set_value-Fixed opt_stream_path w s h = h
  set_value-Fixed opt_model w s h = h
  set_value-Fixed opt_nn_high_clip w s h = h
  set_value-Fixed opt_ctbg_est_om w s h = h
  set_value-Fixed opt_ctbg_app_om w s h = h

  abbrev FixedIn : Option (MainOptions fl) → Type 0
  FixedIn none = Unit
  FixedIn (some s) = Fixed s

  abbrev TakenFixed : Option (MainOptions fl × Bool) → Type 0
  TakenFixed none = Unit
  TakenFixed (some r) = Fixed r.0

  take_option-TakenFixed :
      (p : Option PlainOption) (v : Option ValueOption) (next : Option (List ℕ))
      (s : MainOptions fl)
      → Fixed s
      → TakenFixed (take_option fl lib p v next s)
  unfolding take_option take_value
  take_option-TakenFixed (some p) v next s h = set_plain-Fixed p s h
  take_option-TakenFixed none none next s h = tt
  take_option-TakenFixed none (some v) none s h = tt
  take_option-TakenFixed none (some v) (some w) s h = set_value-Fixed v w s h

  read_options-FixedIn :
      (used : Bool) (ws : List (List ℕ)) (s : MainOptions fl)
      → Fixed s
      → FixedIn (read_options fl lib used ws s)
  unfolding read_options
  read_options-FixedIn true [] s h = h
  read_options-FixedIn false [] s h = h
  read_options-FixedIn true (w ∷ ws) s h = read_options-FixedIn false ws s h
  read_options-FixedIn false (w ∷ ws) s h =
      (elim (take_option fl lib (plain_option w) (value_option w) (next_word ws) s)
          as (λ o.
            TakenFixed o
            → FixedIn (elim o [ none ↦ none | some r ↦ read_options fl lib r.1 ws r.0 ])) [
              | none ↦ λ k. tt
              | some r ↦ λ k. read_options-FixedIn r.1 ws r.0 k
            ])
        (take_option-TakenFixed (plain_option w) (value_option w) (next_word ws) s h)

  abbrev ReadyIn : Option (MainOptions fl) → Type 0
  ReadyIn none = Unit
  ReadyIn (some s) = Ready fl s

  without_model-Fixed : (s : MainOptions fl) → Fixed s → Fixed (without_model fl s)
  unfolding without_model
  without_model-Fixed s h =
      if_both (is_null s.cfg.model_path && not s.ctbg_mode) Fixed (λ e. h) (λ e. h)

  without_model-Named : (s : MainOptions fl) → Named fl (without_model fl s)
  unfolding without_model
  without_model-Named s = go s.cfg.model_path refl s.ctbg_mode refl
    where
      go :
          (o : Option (List ℕ))
          → s.cfg.model_path ≡ o
          → (b : Bool) → s.ctbg_mode ≡ b
          → Named fl (if is_null o && not b then record s { enable_nn = false } else s)
      go (some w) p b q = λ x y z. ground arith
      go none p true q = λ x y z. ground arith
      go none p false q = λ x y z. ground arith

  if_ok-ReadyIn :
      (status : PipelineStatus) (s : MainOptions fl)
      → Fixed s
      → Named fl s
      → (status ≡ status_ok → IsValid fl s.cfg)
      → ReadyIn (if_ok fl status s)
  unfolding if_ok
  if_ok-ReadyIn status_ok s h m v = record { valid = v refl; linear = h.0; period = h.1; model = m }
  if_ok-ReadyIn status_invalid s h m v = tt
  if_ok-ReadyIn status_state s h m v = tt
  if_ok-ReadyIn status_timeout s h m v = tt
  if_ok-ReadyIn status_io s h m v = tt
  if_ok-ReadyIn status_runtime s h m v = tt

  main_options-ReadyIn : (ws : List (List ℕ)) → ReadyIn (main_options fl lib ws)
  unfolding main_options main_defaults pipeline_config_defaults
  main_options-ReadyIn ws =
      (elim (read_options fl lib false ws (main_defaults fl))
          as (λ o.
            FixedIn o
            → ReadyIn (elim o [
              | none ↦ none
              | some s ↦
                  let t = without_model fl s in
                  if_ok fl (pipeline_config_validate fl (some t.cfg)) t
            ])) [
              | none ↦ λ k. tt
              | some s ↦ λ k.
                  let t = without_model fl s in
                  if_ok-ReadyIn (pipeline_config_validate fl (some t.cfg)) t
                    (without_model-Fixed s k) (without_model-Named s)
                    ((pipeline_config_validate-ok_iff fl t.cfg).0)
            ])
        (read_options-FixedIn false ws (main_defaults fl) (refl, refl))

  -- Whatever the command line, and whatever numbers are read in it: a configuration that `main` goes
  -- on with is valid, has the input mode 0, polls the statistics every
  -- 3 frames, and has the path of a model wherever the network is enabled outside the CTBG mode.
  pub main_options-Ready :
      (ws : List (List ℕ)) (s : MainOptions fl) → main_options fl lib ws ≡ some s → Ready fl s
  main_options-Ready ws s e = subst ReadyIn e (main_options-ReadyIn ws)
