-- ===== src/Control/Decide.antt =====
-- `control_decide` and `control_should_refresh_lut` of board/src/control.c.
use hispark_soc_china.Prelude.{
  ℕ, ◌≡◌, ◌≢◌, Bool, true, false, ◌&&◌, ◌||◌, Option, none, some, arith, leb, ltb, if◌then◌else◌,
}
use hispark_soc_china.Floats.{FloatOps, OrderLaws}

-- `expo_mode_t`
pub data ExpoMode : Type 0 where
  bypass brighten compress bidir : ExpoMode

-- The modes that a scene may go to when more of its highlights clip.
abbrev pub Harsher : ExpoMode → ExpoMode → Type 0
Harsher compress m = m ≡ compress
Harsher bidir m = m ≡ bidir
Harsher bypass m = m ≢ brighten
Harsher brighten m = m ≢ compress

module _ (fl : FloatOps) where
  open fl use {F, lt, le, sub, neg, lit}

  -- `luma_stats_t`
  pub record LumaStats : Type 0 where
    pub mean_luma : F
    pub clip_high_pct : F
    pub clip_low_pct : F

  -- The thresholds at the top of the file.
  abbrev pub high_clip_compress_th : F
  high_clip_compress_th = lit 3 1

  abbrev pub high_clip_inhibit_th : F
  high_clip_inhibit_th = lit 3 2

  abbrev pub bright_luma_th : F
  bright_luma_th = lit 95 1

  abbrev pub brighten_luma_ceil : F
  brighten_luma_ceil = lit 62 1

  abbrev pub low_clip_th : F
  low_clip_th = lit 10 1

  abbrev pub dark_luma_th : F
  dark_luma_th = lit 40 1

  -- `none` is a NULL pointer.
  unfoldable pub control_decide : Option LumaStats → ExpoMode
  control_decide none = bypass
  control_decide (some s) =
      let over = lt high_clip_compress_th s.clip_high_pct || lt bright_luma_th s.mean_luma in
      let dark = lt low_clip_th s.clip_low_pct || lt s.mean_luma dark_luma_th in
      let brighten_safe =
        le s.clip_high_pct high_clip_inhibit_th && lt s.mean_luma brighten_luma_ceil in
      if over && dark
      then bidir
      else if over
      then compress
      else if dark && brighten_safe
      then brighten
      else bypass

  abbrev pub lut_min_interval : ℕ
  lut_min_interval = 3

  abbrev pub lut_max_interval : ℕ
  lut_max_interval = 60

  abbrev pub lut_dluma_th : F
  lut_dluma_th = lit 8 1

  abbrev pub lut_dclip_th : F
  lut_dclip_th = lit 3 1

  unfoldable pub fabsf_local : F → F
  fabsf_local x = if lt x (lit 0 1) then neg x else x

  -- The test `scene_changed`.
  unfoldable pub scene_changed : LumaStats → LumaStats → Bool
  scene_changed prev cur =
      lt lut_dluma_th (fabsf_local (sub cur.mean_luma prev.mean_luma))
      || (lt lut_dclip_th (fabsf_local (sub cur.clip_high_pct prev.clip_high_pct))
          || lt lut_dclip_th (fabsf_local (sub cur.clip_low_pct prev.clip_low_pct)))

  unfoldable pub control_should_refresh_lut : Option LumaStats → Option LumaStats → ℕ → Bool
  control_should_refresh_lut prev none frames_since_refresh = false
  control_should_refresh_lut none (some cur) frames_since_refresh = true
  control_should_refresh_lut (some prev) (some cur) frames_since_refresh =
      if ltb frames_since_refresh lut_min_interval
      then false
      else if leb lut_max_interval frames_since_refresh
      then true
      else scene_changed prev cur

  -- More clipped highlights, all else equal: what was compressed or corrected both ways stays so, no
  -- scene starts to be brightened, and one that was brightened is not merely compressed.
  pub control_decide_mono :
      OrderLaws fl
      → (s : LumaStats) (high : F) → lt s.clip_high_pct high ≡ true
      → Harsher
          (control_decide (some s))
          (control_decide (some (record s { clip_high_pct = high })))
  unfolding control_decide
  control_decide_mono laws s high more = ground (
    arith,
    laws.lt_trans high_clip_compress_th s.clip_high_pct high,
    laws.lt-le_trans s.clip_high_pct high high_clip_inhibit_th,
  )
