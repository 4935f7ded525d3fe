-- ===== src/Menu/Layout.antt =====
-- The layout of the menu of board/src/menu_render.c, and its hit test.
use hispark_soc_china.Prelude.{
  ℕ, suc, ◌+◌, ◌-◌, Bool, ◌&&◌, Option, none, some, List, [], ◌∷◌, get_or, ltb, leb, if◌then◌else◌,
}
use hispark_soc_china.Prelude.Strings.{bytes_of}
use hispark_soc_china.Menu.Paint.{Yuv}

abbrev pub yuv : ℕ → ℕ → ℕ → Yuv
yuv y v u = record { y = y; v = v; u = u }

abbrev pub yuv_white : Yuv
yuv_white = yuv 235 128 128

abbrev pub yuv_dkgray : Yuv
yuv_dkgray = yuv 40 128 128

abbrev pub yuv_gray : Yuv
yuv_gray = yuv 90 128 128

abbrev pub yuv_ltgray : Yuv
yuv_ltgray = yuv 160 128 128

abbrev pub yuv_panel : Yuv
yuv_panel = yuv 28 128 128

abbrev pub yuv_btn : Yuv
yuv_btn = yuv 55 128 128

abbrev pub yuv_title : Yuv
yuv_title = yuv 22 150 90

abbrev pub yuv_green : Yuv
yuv_green = yuv 145 55 35

abbrev pub yuv_yellow : Yuv
yuv_yellow = yuv 210 110 15

abbrev pub yuv_red : Yuv
yuv_red = yuv 76 85 220

abbrev pub yuv_border : Yuv
yuv_border = yuv 80 100 155

abbrev pub pnl_x : ℕ
pnl_x = 40

abbrev pub pnl_y : ℕ
pnl_y = 20

abbrev pub pnl_w : ℕ
pnl_w = 944

abbrev pub pnl_h : ℕ
pnl_h = 560

abbrev pub title_h : ℕ
title_h = 50

abbrev pub row_status : ℕ
row_status = title_h + 12

abbrev pub row_status2 : ℕ
row_status2 = title_h + 42

abbrev pub row_sep1 : ℕ
row_sep1 = title_h + 76

abbrev pub row_tone : ℕ
row_tone = title_h + 88

abbrev pub row_nn : ℕ
row_nn = title_h + 178

abbrev pub row_guard : ℕ
row_guard = title_h + 268

abbrev pub row_sep2 : ℕ
row_sep2 = title_h + 358

abbrev pub row_footer : ℕ
row_footer = title_h + 370

abbrev pub btn_h : ℕ
btn_h = 60

abbrev pub btn_sm : ℕ
btn_sm = 80

abbrev pub btn_md : ℕ
btn_md = 110

abbrev pub btn_lg : ℕ
btn_lg = 160

abbrev pub btn_cl : ℕ
btn_cl = 44

abbrev pub col_label : ℕ
col_label = pnl_x + 16

abbrev pub col_btn1 : ℕ
col_btn1 = pnl_x + 360

abbrev pub col_val : ℕ
col_val = pnl_x + 456

abbrev pub col_btn2 : ℕ
col_btn2 = pnl_x + 560

abbrev pub col_reset : ℕ
col_reset = pnl_x + 16

-- `brect_t`
pub record Rect : Type 0 where
  pub x : ℕ
  pub y : ℕ
  pub w : ℕ
  pub h : ℕ

abbrev pub rect : ℕ → ℕ → ℕ → ℕ → Rect
rect x y w h = record { x = x; y = y; w = w; h = h }

-- The numbers of the buttons are their places in the list.
abbrev pub btn_rects : List Rect
btn_rects =
    rect (pnl_x + pnl_w - btn_cl - 4) (pnl_y + 4) btn_cl btn_cl
    ∷ rect col_btn1 (pnl_y + row_tone) btn_sm btn_h
    ∷ rect col_btn2 (pnl_y + row_tone) btn_sm btn_h
    ∷ rect col_btn1 (pnl_y + row_nn) btn_md btn_h
    ∷ rect col_btn2 (pnl_y + row_nn) btn_md btn_h
    ∷ rect col_btn1 (pnl_y + row_guard) btn_sm btn_h
    ∷ rect col_btn2 (pnl_y + row_guard) btn_sm btn_h
    ∷ rect col_reset (pnl_y + row_footer) btn_lg (btn_h - 8)
    ∷ []

abbrev pub btn_labels : List (List ℕ)
btn_labels =
    bytes_of "X"
    ∷ bytes_of "-"
    ∷ bytes_of "+"
    ∷ bytes_of "ON"
    ∷ bytes_of "OFF"
    ∷ bytes_of "-"
    ∷ bytes_of "+"
    ∷ bytes_of "RESET"
    ∷ []

abbrev pub btn_rect : ℕ → Rect
btn_rect i = get_or btn_rects i (rect 0 0 0 0)

abbrev pub in_rect : ℕ → ℕ → Rect → Bool
in_rect tx ty r = leb r.x tx && (ltb tx (r.x + r.w) && (leb r.y ty && ltb ty (r.y + r.h)))

-- The search from the button `i` on.
unfoldable pub hit_from : ℕ → ℕ → ℕ → List Rect → Option ℕ
hit_from tx ty i [] = none
hit_from tx ty i (r ∷ rs) =
    let later = hit_from tx ty (suc i) rs in if in_rect tx ty r then some i else later

-- MENU_BTN_NONE is `none`.
unfoldable pub menu_hittest : ℕ → ℕ → Option ℕ
unfolding hit_from
menu_hittest tx ty = hit_from tx ty 0 btn_rects
