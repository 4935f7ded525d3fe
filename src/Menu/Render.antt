-- ===== src/Menu/Render.antt =====
-- `menu_render_into` of board/src/menu_render.c: the calls of the primitives that it makes, in order.
use hispark_soc_china.Prelude.{
  ℕ, ◌+◌, ◌-◌, ◌*◌, ◌/◌, Bool, Option, none, some, List, [], ◌∷◌, ◌++◌, length, get_or, ◌==◌,
  if◌then◌else◌,
}
use hispark_soc_china.Prelude.Strings.{bytes_of}
use hispark_soc_china.Menu.Paint.{Write, Yuv, fill_rect, draw_rect_border, draw_str1x, draw_str2x}
use hispark_soc_china.Menu.Layout.{
  rect, Rect, yuv, yuv_white, yuv_dkgray, yuv_gray, yuv_ltgray, yuv_panel, yuv_btn, yuv_title,
  yuv_green, yuv_yellow, yuv_red, yuv_border, pnl_x, pnl_y, pnl_w, pnl_h, title_h, row_status,
  row_status2, row_sep1, row_tone, row_nn, row_guard, row_sep2, row_footer, col_label, col_val,
  btn_labels, btn_rect,
}

-- `menu_state_t`, with what `snprintf` makes of the numbers: the rate of frames, the times of the
-- network, the counters, the tone strength and the guard.
pub record MenuState : Type 0 where
  pub nn : Bool
  pub state_str : Option (List ℕ)
  pub fps_text : List ℕ
  pub infer_text : List ℕ
  pub frames_text : List ℕ
  pub tone_text : List ℕ
  pub guard_text : List ℕ

abbrev pub state_text : Option (List ℕ) → List ℕ
state_text none = bytes_of "?"
state_text (some s) = s

-- The colour goes by the first letter.
abbrev pub state_colour : List ℕ → Yuv
state_colour [] = yuv 76 85 220
state_colour (c ∷ s) =
    if c == b'R' then yuv 145 55 35 else if c == b'S' then yuv 210 128 128 else yuv 76 85 220

-- A call of `fill_rect`, `draw_rect_border`, `draw_str1x` or `draw_str2x`.
pub data Draw : Type 0 where
  fill border : Rect → Yuv → Draw
  small large : ℕ → ℕ → List ℕ → Yuv → Draw

unfoldable pub draw_one : ℕ → Draw → List Write
unfolding fill_rect draw_rect_border draw_str1x draw_str2x
draw_one stride (fill r c) = fill_rect stride r.x r.y r.w r.h c
draw_one stride (border r c) = draw_rect_border stride r.x r.y r.w r.h c
draw_one stride (small x y s c) = draw_str1x stride x y s c
draw_one stride (large x y s c) = draw_str2x stride x y s c

unfoldable pub draw_all : ℕ → List Draw → List Write
unfolding draw_one
draw_all stride [] = []
draw_all stride (d ∷ ds) = draw_one stride d ++ draw_all stride ds

-- A button, filled, framed and with its label, whose width is `tw`; `up` is how much above the middle.
abbrev draw_button : Rect → ℕ → ℕ → List ℕ → Yuv → List Draw
draw_button r tw up label c =
    fill r c
    ∷ border r yuv_border
    ∷ large (r.x + (r.w - tw) / 2) (r.y + (r.h - 32) / 2 - up) label yuv_white
    ∷ []

abbrev label_of : ℕ → List ℕ
label_of i = get_or btn_labels i []

-- DRAW_BTN
abbrev draw_btn : ℕ → Yuv → List Draw
draw_btn i c = draw_button (btn_rect i) (length (label_of i) * 16) 0 (label_of i) c

-- DRAW_ROW_LABEL
abbrev draw_row_label : ℕ → List ℕ → Draw
draw_row_label row label = large col_label (pnl_y + row + 14) label yuv_ltgray

unfoldable pub draw_panel : List Draw
draw_panel =
    fill (rect 0 0 1024 600) yuv_panel
    ∷ fill (rect pnl_x pnl_y pnl_w pnl_h) yuv_dkgray
    ∷ border (rect pnl_x pnl_y pnl_w pnl_h) yuv_border
    ∷ fill (rect (pnl_x + 1) (pnl_y + 1) (pnl_w - 2) (title_h - 1)) yuv_title
    ∷ large (pnl_x + 18) (pnl_y + 9) (bytes_of "SocChina Camera Control") yuv_white
    ∷ []

unfoldable pub draw_close : List Draw
draw_close =
    let r = btn_rect 0 in
    fill r yuv_red ∷ border r yuv_white ∷ large (r.x + 6) (r.y + 6) (bytes_of "X") yuv_white ∷ []

unfoldable pub draw_status : MenuState → List Draw
draw_status ms =
    let sy = pnl_y + row_status in
    let st = state_text ms.state_str in
    small col_label sy (bytes_of "STATE:") yuv_ltgray
    ∷ small (col_label + 8 * 7) sy st (state_colour st)
    ∷ small (col_label + 8 * 20) sy ms.fps_text yuv_yellow
    ∷ small (col_label + 8 * 33) sy ms.infer_text yuv_ltgray
    ∷ small col_label (pnl_y + row_status2) ms.frames_text yuv_ltgray
    ∷ []

unfoldable pub draw_separators : List Draw
draw_separators =
    fill (rect (pnl_x + 8) (pnl_y + row_sep1) (pnl_w - 16) 2) yuv_border
    ∷ fill (rect (pnl_x + 8) (pnl_y + row_sep2) (pnl_w - 16) 2) yuv_border
    ∷ []

unfoldable pub draw_tone : MenuState → List Draw
draw_tone ms =
    draw_row_label row_tone (bytes_of "Tone Strength")
    ∷ (draw_btn 1 yuv_btn
        ++ (draw_btn 2 yuv_btn
            ++ (large (col_val + 8) (pnl_y + row_tone + 14) ms.tone_text yuv_yellow ∷ [])))

unfoldable pub draw_nn : MenuState → List Draw
draw_nn ms =
    draw_row_label row_nn (bytes_of "NN CLUT")
    ∷ (draw_button (btn_rect 3) 32 0 (bytes_of "ON") (if ms.nn then yuv_green else yuv_btn)
        ++ draw_button (btn_rect 4) 48 0 (bytes_of "OFF") (if ms.nn then yuv_btn else yuv_red))

unfoldable pub draw_guard : MenuState → List Draw
draw_guard ms =
    draw_row_label row_guard (bytes_of "Clip Guard")
    ∷ (draw_btn 5 yuv_btn
        ++ (draw_btn 6 yuv_btn
            ++ (large (col_val + 8) (pnl_y + row_guard + 14) ms.guard_text yuv_yellow ∷ [])))

unfoldable pub draw_footer : List Draw
draw_footer =
    draw_button (btn_rect 7) (length (bytes_of "RESET") * 16) 4 (bytes_of "RESET") yuv_btn
    ++ (small (pnl_x + pnl_w - 8 * 34 - 8) (pnl_y + row_footer + 16)
          (bytes_of "Touch bottom-left corner to toggle") yuv_gray
        ∷ [])

unfoldable pub menu_commands : MenuState → List Draw
unfolding draw_panel draw_close draw_status draw_separators draw_tone draw_nn draw_guard draw_footer
menu_commands ms =
    draw_panel
    ++ (draw_close
        ++ (draw_status ms
            ++ (draw_separators
                ++ (draw_tone ms ++ (draw_nn ms ++ (draw_guard ms ++ draw_footer))))))

unfoldable pub menu_render_into : ℕ → MenuState → List Write
unfolding menu_commands draw_all
menu_render_into stride ms = draw_all stride (menu_commands ms)
