-- ===== src/Menu/Drawn.antt =====
-- All of the menu (`menu_render_into` of board/src/menu_render.c) lies in the frame.
use hispark_soc_china.Prelude.{ℕ, ◌≤◌, List, [], ◌∷◌}
use hispark_soc_china.Menu.Render.{
  MenuState, Draw, fill, border, small, large, draw_one, draw_all, menu_commands, menu_render_into,
}
use hispark_soc_china.Menu.Inside.{
  AllInFrame, AllInFrame-append, fill_rect-AllInFrame, draw_rect_border-AllInFrame,
  draw_str1x-AllInFrame, draw_str2x-AllInFrame,
}

draw_one-AllInFrame :
    (stride : ℕ) (d : Draw) → 1024 ≤ stride → AllInFrame stride (draw_one stride d)
unfolding draw_one
draw_one-AllInFrame stride (fill r c) h = fill_rect-AllInFrame stride r.x r.y r.w r.h c h
draw_one-AllInFrame stride (border r c) h = draw_rect_border-AllInFrame stride r.x r.y r.w r.h c h
draw_one-AllInFrame stride (small x y s c) h = draw_str1x-AllInFrame stride x y s c h
draw_one-AllInFrame stride (large x y s c) h = draw_str2x-AllInFrame stride x y s c h

draw_all-AllInFrame :
    (stride : ℕ) (ds : List Draw) → 1024 ≤ stride → AllInFrame stride (draw_all stride ds)
unfolding draw_all AllInFrame
draw_all-AllInFrame stride [] h = tt
draw_all-AllInFrame stride (d ∷ ds) h =
    AllInFrame-append stride (draw_one stride d) (draw_all stride ds)
      (draw_one-AllInFrame stride d h) (draw_all-AllInFrame stride ds h)

-- In planes of 600 and 300 lines of at least 1024 bytes each: whatever texts the menu shows, and
-- however long they are, every byte that it writes lies in its plane.
pub menu_render_into-AllInFrame :
    (stride : ℕ) (ms : MenuState) → 1024 ≤ stride → AllInFrame stride (menu_render_into stride ms)
unfolding menu_render_into
menu_render_into-AllInFrame stride ms h = draw_all-AllInFrame stride (menu_commands ms) h
