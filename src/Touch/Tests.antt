-- ===== src/Touch/Tests.antt =====
-- Runs of the touch panel and of the menu that it moves.
use hispark_soc_china.Prelude.{◌≡◌, refl, true, false, none, some, List, [], ◌∷◌, arith}
use hispark_soc_china.Prelude.Int.{pos, negsuc}
use hispark_soc_china.Floats.Thousandths.{thousandths}
use hispark_soc_china.AppControl.Mailbox.{AppCtrlParams, no_params}
use hispark_soc_china.Touch.Panel.{
  AbsInfo, touch_open, abs_x, abs_y, key_touch, syn_report, ReadAnswer, event, nothing, TouchEvent,
}
use hispark_soc_china.Touch.Screen.{polls_if, AllOnScreen, touch_open-AllOnScreen}
use hispark_soc_china.Touch.Menu.{MenuUi, MenuEnv, on_touch}
use hispark_soc_china.Touch.Pushes.{PressedButton, on_touch-PressedButton}

-- An axis from -10 to 4095.
abbrev axis : AbsInfo
axis = record { minimum = negsuc 9; maximum = pos 4095 }

-- A press far outside the axes, in two reports.
abbrev reads : List ReadAnswer
reads =
    event (abs_x (pos 9000))
    ∷ event (abs_y (negsuc 50))
    ∷ event (key_touch (pos 1))
    ∷ event syn_report
    ∷ event (key_touch (pos 0))
    ∷ event syn_report
    ∷ nothing
    ∷ []

touch_open-AllOnScreen_example :
    AllOnScreen 1024 600 (polls_if 3 (touch_open true (some axis) none 1024 600) reads)
touch_open-AllOnScreen_example =
    touch_open-AllOnScreen true (some axis) none 1024 600 3 reads (omega arith) tt (omega arith)
      (omega arith)

abbrev env : MenuEnv thousandths
env = record { strength = 980; high_clip_guard = 3000; tone_strength = 600; enable_nn = true }

abbrev opened : MenuUi
opened = record { menu_active = true; prev_pressed = false }

-- On the button that raises the tone strength.
abbrev on_plus : TouchEvent
on_plus = record { x = pos 610; y = pos 170; pressed = true }

abbrev full_tone : AppCtrlParams thousandths
full_tone = record (no_params thousandths) { tone_strength = some 1000 }

plus_pushes : (on_touch thousandths env opened on_plus).1 ≡ some full_tone
unfolding on_touch
plus_pushes = refl

on_touch-PressedButton_example : PressedButton thousandths env opened on_plus full_tone
on_touch-PressedButton_example =
    on_touch-PressedButton thousandths env opened on_plus full_tone plus_pushes
