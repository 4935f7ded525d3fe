-- ===== src/AppControl/Ranges.antt =====
-- The values that the control socket of board/src/app_control.c lets through, and what they make of
-- the settings of `control_worker` (board/src/main.c).
use hispark_soc_china.Prelude.{
  ℕ, ◌≤◌, ◌≡◌, true, Option, none, some, List, length, length-take, arith, if_both,
}
use hispark_soc_china.Floats.{FloatOps, TruncatedLaws}
use hispark_soc_china.AppControl.Mailbox.{
  AppCtrlParams, no_params, newer, copy_path, blob_path_max, merge_params, Mailbox, merge_pending,
  app_ctrl_drain,
}
use hispark_soc_china.AppControl.Settings.{Settings, apply_params, given_or, take_drained}
use hispark_soc_china.AppControl.Request.{
  in_range, drc_mode_of, ldci_mode_of, and_then_mode, truncated_opt,
}

-- A number that is given lies in a range.
abbrev pub Between : ℕ → ℕ → Option ℕ → Type 0
Between low high none = Unit
Between low high (some n) = (low ≤ n) × (n ≤ high)

abbrev pub ShortBy : ℕ → Option (List ℕ) → Type 0
ShortBy n none = Unit
ShortBy n (some path) = length path ≤ n

abbrev pub ShortPath : Option (List ℕ) → Type 0
ShortPath = ShortBy blob_path_max

Between-newer :
    (low high : ℕ) (a b : Option ℕ)
    → Between low high a
    → Between low high b
    → Between low high (newer a b)
Between-newer low high none b u v = v
Between-newer low high (some n) b u v = u

pub drc_mode_of-Between : (o : Option (List ℕ)) → Between 0 2 (and_then_mode drc_mode_of o)
unfolding drc_mode_of
drc_mode_of-Between none = tt
drc_mode_of-Between (some t) = ground arith

pub ldci_mode_of-Between : (o : Option (List ℕ)) → Between 0 1 (and_then_mode ldci_mode_of o)
unfolding ldci_mode_of
ldci_mode_of-Between none = tt
ldci_mode_of-Between (some t) = ground arith

module _ (fl : FloatOps) where
  open fl use {F, le, lit}

  abbrev pub FloatBetween : ℕ → ℕ → Option F → Type 0
  FloatBetween low high none = Unit
  FloatBetween low high (some v) = (le (lit low 1) v ≡ true) × (le v (lit high 1) ≡ true)

  -- Every parameter that is given lies in its range.
  pub record InBounds (p : AppCtrlParams fl) : Type 0 where
    pub tone : FloatBetween 0 1 p.tone_strength
    pub guard : FloatBetween 0 100 p.high_clip_guard
    pub drc : Between 0 2 p.drc_mode
    pub strength : Between 0 1023 p.drc_strength
    pub ldci : Between 0 1 p.ldci_mode
    pub bitrate : Between 128 51200 p.bitrate_kbps
    pub path : ShortPath p.isp_blob_path

  FloatBetween-newer :
      (low high : ℕ) (a b : Option F)
      → FloatBetween low high a
      → FloatBetween low high b
      → FloatBetween low high (newer a b)
  FloatBetween-newer low high none b u v = v
  FloatBetween-newer low high (some n) b u v = u

  ShortPath-newer : (a b : Option (List ℕ)) → ShortPath b → ShortPath (newer (copy_path fl a) b)
  ShortPath-newer none b v = v
  ShortPath-newer (some p) b v = omega (arith, length-take blob_path_max p)

  pub InBounds-no_params : InBounds (no_params fl)
  InBounds-no_params = ground arith

  InBounds-merge_params :
      (slot p : AppCtrlParams fl) → InBounds slot → InBounds p → InBounds (merge_params fl slot p)
  unfolding merge_params
  InBounds-merge_params slot p v w = record {
    tone = FloatBetween-newer 0 1 p.tone_strength slot.tone_strength w.tone v.tone;
    guard = FloatBetween-newer 0 100 p.high_clip_guard slot.high_clip_guard w.guard v.guard;
    drc = Between-newer 0 2 p.drc_mode slot.drc_mode w.drc v.drc;
    strength = Between-newer 0 1023 p.drc_strength slot.drc_strength w.strength v.strength;
    ldci = Between-newer 0 1 p.ldci_mode slot.ldci_mode w.ldci v.ldci;
    bitrate = Between-newer 128 51200 p.bitrate_kbps slot.bitrate_kbps w.bitrate v.bitrate;
    path = ShortPath-newer p.isp_blob_path slot.isp_blob_path v.path;
  }

  -- What waits in the slot.
  abbrev pub SlotInBounds : Mailbox fl → Type 0
  SlotInBounds m = InBounds m.pending_params

  pub SlotInBounds-merge_pending :
      (m : Mailbox fl) (p : AppCtrlParams fl)
      → SlotInBounds m
      → InBounds p
      → SlotInBounds (merge_pending fl m p)
  unfolding merge_pending
  SlotInBounds-merge_pending m p v w = InBounds-merge_params m.pending_params p v w

  pub in_range-FloatBetween :
      (low high : ℕ) (o : Option F) → FloatBetween low high (in_range fl low high o)
  unfolding in_range
  in_range-FloatBetween low high none = tt
  in_range-FloatBetween low high (some v) = ground arith

  pub truncated_opt-Between :
      TruncatedLaws fl
      → (low high : ℕ) (o : Option F) → FloatBetween low high o
      → Between low high (truncated_opt fl o)
  truncated_opt-Between laws low high none v = tt
  truncated_opt-Between laws low high (some x) v =
      (laws.truncated_ge low x v.0, laws.truncated_le high x v.1)

  -- The settings of the control thread lie in their ranges.
  pub record SettingsInBounds (s : Settings fl) : Type 0 where
    pub tone : FloatBetween 0 1 (some s.strength)
    pub guard : FloatBetween 0 100 (some s.high_clip_guard)
    pub drc : s.drc_mode ≤ 2
    pub strength : s.drc_strength ≤ 1023
    pub ldci : s.ldci_mode ≤ 1

  given_or-FloatBetween :
      (low high : ℕ) (x : F) (o : Option F)
      → FloatBetween low high (some x)
      → FloatBetween low high o
      → FloatBetween low high (some (given_or x o))
  given_or-FloatBetween low high x none u v = u
  given_or-FloatBetween low high x (some y) u v = v

  given_or-le : (high n : ℕ) (o : Option ℕ) → n ≤ high → Between 0 high o → given_or n o ≤ high
  given_or-le high n none u v = u
  given_or-le high n (some k) u v = v.1

  pub SettingsInBounds-take_drained :
      (s : Settings fl) (m : Mailbox fl)
      → SettingsInBounds s
      → SlotInBounds m
      → SettingsInBounds (take_drained fl s (app_ctrl_drain fl m).1)
  unfolding app_ctrl_drain apply_params
  SettingsInBounds-take_drained s m v w =
      let p = m.pending_params in
      if_both m.pending
        (λ (r : Mailbox fl × Option (AppCtrlParams fl)). SettingsInBounds (take_drained fl s r.1))
        (λ on. record {
          tone = given_or-FloatBetween 0 1 s.strength p.tone_strength v.tone w.tone;
          guard = given_or-FloatBetween 0 100 s.high_clip_guard p.high_clip_guard v.guard w.guard;
          drc = given_or-le 2 s.drc_mode p.drc_mode v.drc w.drc;
          strength = given_or-le 1023 s.drc_strength p.drc_strength v.strength w.strength;
          ldci = given_or-le 1 s.ldci_mode p.ldci_mode v.ldci w.ldci;
        })
        (λ off. v)
