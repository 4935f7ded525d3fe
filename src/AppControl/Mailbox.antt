-- ===== src/AppControl/Mailbox.antt =====
-- The slot of pending parameters of board/src/app_control.c: `merge_pending`, `app_ctrl_drain`,
-- `app_ctrl_push`. Each takes the lock for its whole body, so each is one step.
use hispark_soc_china.Prelude.{ℕ, Bool, true, false, Option, none, some, List, take, if◌then◌else◌}
use hispark_soc_china.Floats.{FloatOps}

-- The newer value, where there is one.
abbrev pub newer {ℓ} : {A : Type ℓ} → Option A → Option A → Option A
newer none old = old
newer (some v) old = some v

-- `isp_blob_path` holds 255 characters and a terminator.
abbrev pub blob_path_max : ℕ
blob_path_max = 255

module _ (fl : FloatOps) where
  open fl use {F}

  -- `app_ctrl_params_t`: a field with its `has_` flag is an option.
  pub record AppCtrlParams : Type 0 where
    pub tone_strength : Option F
    pub nn_clut_enabled : Option Bool
    pub high_clip_guard : Option F
    pub enhancement_enabled : Option Bool
    pub tone_enabled : Option Bool
    pub drc_mode : Option ℕ
    pub drc_strength : Option ℕ
    pub ldci_mode : Option ℕ
    pub bitrate_kbps : Option ℕ
    pub isp_blob_path : Option (List ℕ)

  abbrev pub no_params : AppCtrlParams
  no_params = record {
    tone_strength = none;
    nn_clut_enabled = none;
    high_clip_guard = none;
    enhancement_enabled = none;
    tone_enabled = none;
    drc_mode = none;
    drc_strength = none;
    ldci_mode = none;
    bitrate_kbps = none;
    isp_blob_path = none;
  }

  -- `strncpy` into the slot, with the terminator set.
  abbrev pub copy_path : Option (List ℕ) → Option (List ℕ)
  copy_path none = none
  copy_path (some path) = some (take blob_path_max path)

  -- The slot's fields after the assignments of `merge_pending`.
  unfoldable pub merge_params : AppCtrlParams → AppCtrlParams → AppCtrlParams
  merge_params slot p = record {
    tone_strength = newer p.tone_strength slot.tone_strength;
    nn_clut_enabled = newer p.nn_clut_enabled slot.nn_clut_enabled;
    high_clip_guard = newer p.high_clip_guard slot.high_clip_guard;
    enhancement_enabled = newer p.enhancement_enabled slot.enhancement_enabled;
    tone_enabled = newer p.tone_enabled slot.tone_enabled;
    drc_mode = newer p.drc_mode slot.drc_mode;
    drc_strength = newer p.drc_strength slot.drc_strength;
    ldci_mode = newer p.ldci_mode slot.ldci_mode;
    bitrate_kbps = newer p.bitrate_kbps slot.bitrate_kbps;
    isp_blob_path = newer (copy_path p.isp_blob_path) slot.isp_blob_path;
  }

  -- The fields `pending` and `pending_params` of `g_ctrl`.
  pub record Mailbox : Type 0 where
    pub pending : Bool
    pub pending_params : AppCtrlParams

  unfoldable pub merge_pending : Mailbox → AppCtrlParams → Mailbox
  merge_pending m p = record { pending = true; pending_params = merge_params m.pending_params p }

  -- A NULL pointer is `none`.
  unfoldable pub app_ctrl_push : Mailbox → Option AppCtrlParams → Mailbox
  unfolding merge_pending
  app_ctrl_push m none = m
  app_ctrl_push m (some p) = merge_pending m p

  -- The slot after the call, and what is written through `out`; the answer is 1 if that is `some`.
  unfoldable pub app_ctrl_drain : Mailbox → Mailbox × Option AppCtrlParams
  app_ctrl_drain m =
      if m.pending
      then (record { pending = false; pending_params = no_params }, some m.pending_params)
      else (m, none)

  -- `app_ctrl_deinit`, as far as the slot goes.
  unfoldable pub empty_mailbox : Mailbox
  empty_mailbox = record { pending = false; pending_params = no_params }
