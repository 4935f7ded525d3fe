-- ===== src/Menu/Tests.antt =====
-- Runs of the menu.
use hispark_soc_china.Prelude.{◌≡◌, ◌↔◌, refl, true, some, [], ◌∷◌, get_elem?, arith}
use hispark_soc_china.Prelude.Strings.{bytes_of}
use hispark_soc_china.Menu.Paint.{luma, chroma, set_pixel}
use hispark_soc_china.Menu.Layout.{btn_rects, menu_hittest, yuv_white}
use hispark_soc_china.Menu.Render.{MenuState, menu_render_into}
use hispark_soc_china.Menu.Inside.{AllInFrame}
use hispark_soc_china.Menu.Drawn.{menu_render_into-AllInFrame}
use hispark_soc_china.Menu.Hit.{InsideOf, menu_hittest-Inside}

abbrev state : MenuState
state = record {
  nn = true;
  state_str = some (bytes_of "RUNNING");
  fps_text = bytes_of "FPS:29.9";
  infer_text = bytes_of "INFER:6.1ms P95:7.0ms";
  frames_text = bytes_of "FRAMES:10  LUT:2";
  tone_text = bytes_of "0.60";
  guard_text = bytes_of "3.0";
}

menu_render_into-AllInFrame_example : AllInFrame 1088 (menu_render_into 1088 state)
menu_render_into-AllInFrame_example = menu_render_into-AllInFrame 1088 state (omega arith)

last_pixel :
    set_pixel 1024 1023 599 yuv_white ≡ luma 614399 235 ∷ chroma 307198 128 ∷ chroma 307199 128 ∷ []
unfolding set_pixel
last_pixel = refl

menu_hittest-Inside_example :
    (menu_hittest 945 30 ≡ some 0) ↔ InsideOf 945 30 (get_elem? btn_rects 0)
menu_hittest-Inside_example = menu_hittest-Inside 945 30 0
