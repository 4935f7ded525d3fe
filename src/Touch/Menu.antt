-- ===== src/Touch/Menu.antt =====
-- What a touch does to the menu: the loop over touch_poll in `main` of board/src/main.c.
use hispark_soc_china.Prelude.{
  ℕ, zero, suc, ◌-◌, Bool, true, false, not, ◌&&◌, Option, none, some, ◌==◌, if◌then◌else◌,
}
use hispark_soc_china.Prelude.Int.{pos, pos_part, ltb_ℤ}
use hispark_soc_china.Floats.{FloatOps}
use hispark_soc_china.AppControl.Mailbox.{AppCtrlParams, no_params}
use hispark_soc_china.Menu.Layout.{menu_hittest}
use hispark_soc_china.Touch.Panel.{TouchEvent}

-- `menu_active` and `prev_pressed`.
pub record MenuUi : Type 0 where
  pub menu_active : Bool
  pub prev_pressed : Bool

abbrev pub display_height : ℕ
display_height = 600

-- The corner that opens the menu: x < 100 and y > DISPLAY_HEIGHT - 100.
unfoldable pub in_corner : TouchEvent → Bool
in_corner e = ltb_ℤ e.x (pos 100) && ltb_ℤ (pos (display_height - 100)) e.y

module _ (fl : FloatOps) where
  open fl use {F, lt, add, sub, lit}

  -- What the loop reads beside the touch: the settings of the control thread, and the options.
  pub record MenuEnv : Type 0 where
    pub strength : F
    pub high_clip_guard : F
    pub tone_strength : F
    pub enable_nn : Bool

  unfoldable pub lowered : F → F → F → F
  lowered v by least = let w = sub v by in if lt w least then least else w

  unfoldable pub raised : F → F → F → F
  raised v by most = let w = add v by in if lt most w then most else w

  -- The parameters of a button; `none` where nothing is set, and for the button that closes.
  unfoldable pub button_params : MenuEnv → ℕ → Option (AppCtrlParams fl)
  unfolding lowered raised
  button_params env zero = none
  button_params env (suc zero) =
      some (record (no_params fl) {
        tone_strength = some (lowered env.strength (lit 5 100) (lit 0 1));
      })
  button_params env (suc (suc zero)) =
      some
        (record (no_params fl) { tone_strength = some (raised env.strength (lit 5 100) (lit 1 1)) })
  button_params env (suc (suc (suc zero))) =
      some (record (no_params fl) { nn_clut_enabled = some true })
  button_params env (suc (suc (suc (suc zero)))) =
      some (record (no_params fl) { nn_clut_enabled = some false })
  button_params env (suc (suc (suc (suc (suc zero))))) = some (record (no_params fl) {
    high_clip_guard = some (lowered env.high_clip_guard (lit 5 10) (lit 5 10));
  })
  button_params env (suc (suc (suc (suc (suc (suc zero)))))) =
      some (record (no_params fl) { high_clip_guard = some (add env.high_clip_guard (lit 5 10)) })
  button_params env (suc (suc (suc (suc (suc (suc (suc zero))))))) = some (record (no_params fl) {
    tone_strength = some env.tone_strength;
    nn_clut_enabled = some env.enable_nn;
    high_clip_guard = some (lit 3 1);
  })
  button_params env (suc (suc (suc (suc (suc (suc (suc (suc n)))))))) = none

  abbrev closes : Option ℕ → Bool
  closes none = false
  closes (some i) = i == 0

  abbrev pub params_of : MenuEnv → Option ℕ → Option (AppCtrlParams fl)
  params_of env none = none
  params_of env (some i) = button_params env i

  -- Whether the menu is open afterwards, and what is pushed.
  unfoldable pub on_press : MenuEnv → Bool → TouchEvent → Bool × Option (AppCtrlParams fl)
  unfolding menu_hittest in_corner button_params
  on_press env active e =
      let button = menu_hittest (pos_part e.x) (pos_part e.y) in
      if not active then (in_corner e, none) else (not (closes button), params_of env button)

  -- Only the moment of a press counts. A point left of the screen or above it is on no button.
  unfoldable pub on_touch : MenuEnv → MenuUi → TouchEvent → MenuUi × Option (AppCtrlParams fl)
  unfolding on_press
  on_touch env ui e =
      let pressed = on_press env ui.menu_active e in
      if e.pressed && not ui.prev_pressed
      then (record { menu_active = pressed.0; prev_pressed = e.pressed }, pressed.1)
      else (record ui { prev_pressed = e.pressed }, none)
