-- ===== src/AppControl/Settings.antt =====
-- What the control worker keeps of the parameters (`app_control_ctx_t` of board/src/main.c), and why
-- no update is lost between the threads that push and the worker that drains.
use hispark_soc_china.Prelude.{
  ℕ, ◌≡◌, refl, ap, sym, ◌∙◌, Bool, true, false, Option, none, some, List, [], ◌∷◌, arith,
}
use hispark_soc_china.Floats.{FloatOps}
use hispark_soc_china.AppControl.Mailbox.{
  AppCtrlParams, no_params, newer, merge_params, Mailbox, empty_mailbox, app_ctrl_push,
  app_ctrl_drain,
}

-- `if (p.has_x) field = p.x;`
abbrev pub given_or {ℓ} : {A : Type ℓ} → A → Option A → A
given_or old none = old
given_or old (some v) = v

given_or-newer {ℓ} :
    {A : Type ℓ} (old : A) (first second : Option A)
    → given_or old (newer second first) ≡ given_or (given_or old first) second
given_or-newer old first none = refl
given_or-newer old first (some v) = refl

module _ (fl : FloatOps) where
  open fl use {F}

  -- The fields of `app_control_ctx_t` that parameters set.
  pub record Settings : Type 0 where
    pub strength : F
    pub high_clip_guard : F
    pub nn_enabled : Bool
    pub enhancement_enabled : Bool
    pub tone_enabled : Bool
    pub drc_mode : ℕ
    pub drc_strength : ℕ
    pub ldci_mode : ℕ

  unfoldable pub apply_params : Settings → AppCtrlParams fl → Settings
  apply_params s p = record {
    strength = given_or s.strength p.tone_strength;
    high_clip_guard = given_or s.high_clip_guard p.high_clip_guard;
    nn_enabled = given_or s.nn_enabled p.nn_clut_enabled;
    enhancement_enabled = given_or s.enhancement_enabled p.enhancement_enabled;
    tone_enabled = given_or s.tone_enabled p.tone_enabled;
    drc_mode = given_or s.drc_mode p.drc_mode;
    drc_strength = given_or s.drc_strength p.drc_strength;
    ldci_mode = given_or s.ldci_mode p.ldci_mode;
  }

  apply_params-merge_params :
      (s : Settings) (a b : AppCtrlParams fl)
      → apply_params s (merge_params fl a b) ≡ apply_params (apply_params s a) b
  unfolding apply_params merge_params
  apply_params-merge_params s a b = λ i. record {
    strength = given_or-newer s.strength a.tone_strength b.tone_strength i;
    high_clip_guard = given_or-newer s.high_clip_guard a.high_clip_guard b.high_clip_guard i;
    nn_enabled = given_or-newer s.nn_enabled a.nn_clut_enabled b.nn_clut_enabled i;
    enhancement_enabled =
        given_or-newer s.enhancement_enabled a.enhancement_enabled b.enhancement_enabled i;
    tone_enabled = given_or-newer s.tone_enabled a.tone_enabled b.tone_enabled i;
    drc_mode = given_or-newer s.drc_mode a.drc_mode b.drc_mode i;
    drc_strength = given_or-newer s.drc_strength a.drc_strength b.drc_strength i;
    ldci_mode = given_or-newer s.ldci_mode a.ldci_mode b.ldci_mode i;
  }

  -- The steps of the threads that share the slot, in the order in which they take the lock.
  pub data SlotOp : Type 0 where
    push : AppCtrlParams fl → SlotOp
    drain : SlotOp

  -- The worker's settings and the slot.
  pub record Shared : Type 0 where
    pub slot : Mailbox fl
    pub settings : Settings

  abbrev pub take_drained : Settings → Option (AppCtrlParams fl) → Settings
  take_drained s none = s
  take_drained s (some p) = apply_params s p

  pub slot_step : Shared → SlotOp → Shared
  slot_step c (push p) = record c { slot = app_ctrl_push fl c.slot (some p) }
  slot_step c drain =
      let (slot', out) = app_ctrl_drain fl c.slot in
      record { slot = slot'; settings = take_drained c.settings out }

  pub slot_run : Shared → List SlotOp → Shared
  slot_run c [] = c
  slot_run c (op ∷ ops) = slot_run (slot_step c op) ops

  -- The settings if each push were applied at once.
  abbrev pub pushed : Settings → List SlotOp → Settings
  pushed s [] = s
  pushed s (push p ∷ ops) = pushed (apply_params s p) ops
  pushed s (drain ∷ ops) = pushed s ops

  -- The settings once the slot is drained.
  abbrev pub settled : Shared → Settings
  settled c = (slot_step c drain).settings

  -- A slot with nothing pending is empty.
  pub record IsSlot (m : Mailbox fl) : Type 0 where
    pub empty : m.pending ≡ false → m.pending_params ≡ no_params fl

  IsSlot-step : (c : Shared) (op : SlotOp) → IsSlot c.slot → IsSlot (slot_step c op).slot
  unfolding slot_step app_ctrl_push app_ctrl_drain
  IsSlot-step c (push p) v = record { empty = λ e. cc }
  IsSlot-step c drain v = go c.slot.pending refl
    where
      go : (b : Bool) → c.slot.pending ≡ b → IsSlot (slot_step c drain).slot
      go true e = record { empty = λ h. ground arith }
      go false e = record { empty = λ h. ground (arith, v.empty e) }

  drained_pending :
      (c : Shared)
      → c.slot.pending ≡ true
      → settled c ≡ apply_params c.settings c.slot.pending_params
  unfolding slot_step app_ctrl_drain
  drained_pending c e = ground arith

  drained_empty : (c : Shared) → c.slot.pending ≡ false → settled c ≡ c.settings
  unfolding slot_step app_ctrl_drain
  drained_empty c e = ground arith

  pushed_params :
      (c : Shared) (p : AppCtrlParams fl)
      → settled (slot_step c (push p))
        ≡ apply_params c.settings (merge_params fl c.slot.pending_params p)
  unfolding slot_step app_ctrl_push app_ctrl_drain
  pushed_params c p = refl

  apply_params-no_params : (s : Settings) → apply_params s (no_params fl) ≡ s
  unfolding apply_params
  apply_params-no_params s = refl

  settled-push :
      (c : Shared) (p : AppCtrlParams fl)
      → IsSlot c.slot
      → settled (slot_step c (push p)) ≡ apply_params (settled c) p
  settled-push c p v = go c.slot.pending refl
    where
      go :
          (b : Bool)
          → c.slot.pending ≡ b
          → settled (slot_step c (push p)) ≡ apply_params (settled c) p
      go true e =
          pushed_params c p
          ∙ apply_params-merge_params c.settings c.slot.pending_params p
          ∙ ap (λ t. apply_params t p) (sym (drained_pending c e))
      go false e =
          pushed_params c p
          ∙ apply_params-merge_params c.settings c.slot.pending_params p
          ∙ ap (λ t. apply_params (apply_params c.settings t) p) (v.empty e)
          ∙ ap (λ t. apply_params t p) (apply_params-no_params c.settings ∙ sym (drained_empty c e))

  settled-drain : (c : Shared) → settled (slot_step c drain) ≡ settled c
  unfolding slot_step app_ctrl_drain
  settled-drain c = ground arith

  settled-slot_run :
      (c : Shared) (ops : List SlotOp)
      → IsSlot c.slot
      → settled (slot_run c ops) ≡ pushed (settled c) ops
  unfolding slot_run
  settled-slot_run c [] v = refl
  settled-slot_run c (push p ∷ ops) v =
      settled-slot_run (slot_step c (push p)) ops (IsSlot-step c (push p) v)
      ∙ ap (λ t. pushed t ops) (settled-push c p v)
  settled-slot_run c (drain ∷ ops) v =
      settled-slot_run (slot_step c drain) ops (IsSlot-step c drain v)
      ∙ ap (λ t. pushed t ops) (settled-drain c)

  -- However pushes and drains interleave from an empty slot, the worker's settings after one more
  -- drain are those of all the pushes applied at once, in order: no update is lost or reordered.
  pub slot_run-pushed :
      (s : Settings) (ops : List SlotOp)
      → settled (slot_run (record { slot = empty_mailbox fl; settings = s }) ops) ≡ pushed s ops
  unfolding empty_mailbox
  slot_run-pushed s ops =
      settled-slot_run (record { slot = empty_mailbox fl; settings = s }) ops
        (record { empty = λ e. refl })
      ∙ ap (λ t. pushed t ops)
          (drained_empty (record { slot = empty_mailbox fl; settings = s }) refl)
