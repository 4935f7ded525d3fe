-- ===== src/Touch/Pushes.antt =====
-- When the menu (`main` of board/src/main.c) pushes parameters, and which.
use hispark_soc_china.Prelude.{
  ℕ, ◌≡◌, refl, Bool, true, false, not, ◌&&◌, Option, none, some, get_elem?, arith, if_both,
}
use hispark_soc_china.Prelude.Int.{pos_part}
use hispark_soc_china.Floats.{FloatOps}
use hispark_soc_china.AppControl.Mailbox.{AppCtrlParams}
use hispark_soc_china.Menu.Layout.{btn_rects, menu_hittest}
use hispark_soc_china.Menu.Hit.{InsideOf, menu_hittest-Inside}
use hispark_soc_china.Touch.Panel.{TouchEvent}
use hispark_soc_china.Touch.Menu.{MenuUi, MenuEnv, button_params, on_press, on_touch, params_of}

module _ (fl : FloatOps) where
  -- The button that a press is on, in an open menu, and what it stands for.
  pub record PressedButton (env : MenuEnv fl) (ui : MenuUi) (e : TouchEvent) (p : AppCtrlParams fl)
      : Type 0 where
    pub was_open : ui.menu_active ≡ true
    pub was_up : ui.prev_pressed ≡ false
    pub is_down : e.pressed ≡ true
    pub button : ℕ
    pub inside : InsideOf (pos_part e.x) (pos_part e.y) (get_elem? btn_rects button)
    pub params : button_params fl env button ≡ some p

  none_is_no_push : {A : Type 0} (p : AppCtrlParams fl) → none ≡ some p → A
  none_is_no_push p h = absurd (ground (arith, h))

  -- The menu pushes parameters only at the moment of a press, while it is open, and then those of the
  -- button whose rectangle the touch lies in.
  pub on_touch-PressedButton :
      (env : MenuEnv fl) (ui : MenuUi) (e : TouchEvent) (p : AppCtrlParams fl)
      → (on_touch fl env ui e).1 ≡ some p
      → PressedButton env ui e p
  unfolding on_touch on_press
  on_touch-PressedButton env ui e p =
      let x = pos_part e.x in
      let y = pos_part e.y in
      if_both (e.pressed && not ui.prev_pressed)
        (λ (r : MenuUi × Option (AppCtrlParams fl)). r.1 ≡ some p → PressedButton env ui e p)
        (λ press.
          if_both (not ui.menu_active)
            (λ (r : Bool × Option (AppCtrlParams fl)). r.1 ≡ some p → PressedButton env ui e p)
            (λ closed h. none_is_no_push p h)
            (λ opened.
              elim (menu_hittest x y)
                  as (λ o.
                    menu_hittest x y ≡ o → params_of fl env o ≡ some p → PressedButton env ui e p) [
                      | none ↦ λ q h. none_is_no_push p h
                      | some i ↦ λ q h. record {
                        was_open = ground (arith, opened);
                        was_up = ground (arith, press);
                        is_down = ground (arith, press);
                        button = i;
                        inside = (menu_hittest-Inside x y i).0 q;
                        params = h;
                      }
                    ]
                refl))
        (λ still h. none_is_no_push p h)
