-- ===== src/Pipeline/Valid.antt =====
-- Which configurations `pipeline_config_validate` (board/src/pipeline.c) accepts.
use hispark_soc_china.Prelude.{
  ℕ, ◌≤◌, ◌<◌, ◌≡◌, refl, Bool, true, false, Option, none, some, List, [], ◌∷◌, length, ◌↔◌, ◌⊎◌,
  arith, if◌then◌else◌,
}
use hispark_soc_china.Prelude.Strings.{CInt}
use hispark_soc_china.Floats.{FloatOps}
use hispark_soc_china.Pipeline.Config.{
  PipelineConfig, status_ok, pipeline_config_validate, path_char, path_chars, bad_sensor, bad_fps,
  bad_control, no_path, bad_stream, bad_path,
}

-- A letter, a digit, or one of `._~-`.
abbrev pub PathChar : ℕ → Type 0
PathChar c =
    ((97 ≤ c) × (c ≤ 122))
    ⊎ (((65 ≤ c) × (c ≤ 90))
        ⊎ (((48 ≤ c) × (c ≤ 57)) ⊎ ((c ≡ 46) ⊎ ((c ≡ 95) ⊎ ((c ≡ 126) ⊎ (c ≡ 45))))))

abbrev pub AllPathChars : List ℕ → Type 0
AllPathChars [] = Unit
AllPathChars (c ∷ cs) = PathChar c × AllPathChars cs

abbrev pub PathFits : Option (List ℕ) → Type 0
PathFits none = Unit
PathFits (some path) = AllPathChars path

abbrev pub HasPath : Option (List ℕ) → Type 0
HasPath none = ⊥
HasPath (some path) = 0 < length path

path_char_iff : (c : ℕ) → (path_char c ≡ true) ↔ PathChar c
unfolding path_char
path_char_iff c = ground arith

path_chars_iff : (cs : List ℕ) → (path_chars cs ≡ true) ↔ AllPathChars cs
unfolding path_chars
path_chars_iff [] = (λ e. tt, λ e. refl)
path_chars_iff (c ∷ cs) =
    let here = path_char_iff c in
    let there = path_chars_iff cs in
    (
      λ e. (here.0 (ground arith), there.0 (ground arith)),
      λ v. ground (arith, here.1 v.0, there.1 v.1),
    )

bad_path_iff : (o : Option (List ℕ)) → (bad_path o ≡ false) ↔ PathFits o
unfolding bad_path
bad_path_iff none = (λ e. tt, λ v. refl)
bad_path_iff (some path) =
    let all = path_chars_iff path in (λ e. all.0 (ground arith), λ v. ground (arith, all.1 v))

no_path_iff : (o : Option (List ℕ)) → (no_path o ≡ false) ↔ HasPath o
unfolding no_path
no_path_iff none = ground arith
no_path_iff (some []) = ground arith
no_path_iff (some (c ∷ cs)) = ground arith

bad_sensor_iff :
    (i : CInt)
    → (bad_sensor i ≡ false) ↔ ((i.magnitude ≡ 0) ⊎ ((i.negative ≡ false) × (i.magnitude ≡ 1)))
unfolding bad_sensor
bad_sensor_iff i = ground arith

module _ (fl : FloatOps) where
  open fl use {F, lt, lit, finite}

  -- What a stream needs, if there is one.
  abbrev pub StreamFits : Bool → PipelineConfig fl → Type 0
  StreamFits false c = Unit
  StreamFits true c =
      (128 ≤ c.stream_bitrate_kbps)
      × (0 < c.rtsp_port)
      × (c.rtsp_port ≤ 65535)
      × HasPath c.stream_path

  -- A finite number in a range.
  pub record Within (low high x : F) : Type 0 where
    pub is_finite : finite x ≡ true
    pub above : lt x low ≡ false
    pub below : lt high x ≡ false

  pub record IsValid (c : PipelineConfig fl) : Type 0 where
    pub sensor :
        (c.sensor_index.magnitude ≡ 0)
        ⊎ ((c.sensor_index.negative ≡ false) × (c.sensor_index.magnitude ≡ 1))
    pub fps : ((if c.use_wdr then 5 else 1) ≤ c.target_fps) × (c.target_fps ≤ 30)
    pub output : (c.enable_display ≡ true) ⊎ (c.enable_stream ≡ true)
    pub input : c.input_mode ≤ 1
    pub polls : 0 < c.control_poll_frames
    pub tone : Within (lit 0 1) (lit 1 1) c.tone_strength
    pub guard : Within (lit 0 1) (lit 100 1) c.nn_high_clip_guard
    pub stream : StreamFits c.enable_stream c
    pub path : PathFits c.stream_path

  bad_fps_iff :
      (c : PipelineConfig fl)
      → (bad_fps fl c ≡ false)
        ↔ (((if c.use_wdr then 5 else 1) ≤ c.target_fps) × (c.target_fps ≤ 30))
  unfolding bad_fps
  bad_fps_iff c = ground arith

  bad_control_iff :
      (c : PipelineConfig fl)
      → (bad_control fl c ≡ false) ↔ (
          (0 < c.control_poll_frames)
          × Within (lit 0 1) (lit 1 1) c.tone_strength
          × Within (lit 0 1) (lit 100 1) c.nn_high_clip_guard)
  unfolding bad_control
  bad_control_iff c = ground arith

  bad_stream_iff :
      (c : PipelineConfig fl) → (bad_stream fl c ≡ false) ↔ StreamFits c.enable_stream c
  unfolding bad_stream
  bad_stream_iff c = go c.enable_stream refl
    where
      go : (b : Bool) → c.enable_stream ≡ b → (bad_stream fl c ≡ false) ↔ StreamFits b c
      go false e = (λ h. tt, λ v. ground arith)
      go true e =
          let path = no_path_iff c.stream_path in
          (
            λ h. (ground arith, ground arith, ground arith, path.0 (ground arith)),
            λ v. ground (arith, path.1 v.3),
          )

  -- The validation accepts a configuration exactly when it is valid: the sensor is 0 or 1; the frame
  -- rate is 1 to 30, or 5 to 30 with WDR; there is a display or a stream; the input mode is one of
  -- the two; statistics are polled; tone strength and clip guard are finite and in their ranges; a
  -- stream has 128 kbit/s at least, a port and a path; and a path has letters, digits and `._~-` only.
  pub pipeline_config_validate-ok_iff :
      (c : PipelineConfig fl) → (pipeline_config_validate fl (some c) ≡ status_ok) ↔ IsValid c
  unfolding pipeline_config_validate
  pipeline_config_validate-ok_iff c =
      let sensor = bad_sensor_iff c.sensor_index in
      let fps = bad_fps_iff c in
      let control = bad_control_iff c in
      let stream = bad_stream_iff c in
      let path = bad_path_iff c.stream_path in
      (
        λ e.
            let k = control.0 (ground arith) in
            record {
              sensor = sensor.0 (ground arith);
              fps = fps.0 (ground arith);
              output = ground arith;
              input = ground arith;
              polls = k.0;
              tone = k.1;
              guard = k.2;
              stream = stream.0 (ground arith);
              path = path.0 (ground arith);
            },
        λ v. ground (
          arith,
          sensor.1 v.sensor,
          fps.1 v.fps,
          control.1 (v.polls, v.tone, v.guard),
          stream.1 v.stream,
          path.1 v.path,
        ),
      )
