-- ===== src/Menu/Inside.antt =====
-- The menu (board/src/menu_render.c) writes nothing outside the frame.
use hispark_soc_china.Prelude.{
  ℕ, zero, suc, ◌+◌, ◌-◌, ◌*◌, ◌/◌, ◌≤◌, ◌<◌, ◌&&◌, List, [], ◌∷◌, ◌++◌, ltb, arith, if_both,
}
use hispark_soc_china.Menu.Paint.{
  Write, luma, chroma, Yuv, set_pixel, fill_row, fill_rect, border_row, border_column,
  draw_rect_border, dot1x, dot2x, pixel_set, glyph_row, glyph_rows, glyph_of, draw_char1x,
  draw_char2x, draw_str1x, draw_str2x,
}

-- A write lies in the planes of a frame of 600 lines.
abbrev pub InFrame : ℕ → Write → Type 0
InFrame stride (luma o v) = o < 600 * stride
InFrame stride (chroma o v) = o < 300 * stride

unfoldable pub AllInFrame : ℕ → List Write → Type 0
AllInFrame stride [] = Unit
AllInFrame stride (w ∷ ws) = InFrame stride w × AllInFrame stride ws

pub AllInFrame-append :
    (stride : ℕ) (a b : List Write)
    → AllInFrame stride a
    → AllInFrame stride b
    → AllInFrame stride (a ++ b)
unfolding AllInFrame
AllInFrame-append stride [] b u v = v
AllInFrame-append stride (w ∷ a) b u v = (u.0, AllInFrame-append stride a b u.1 v)

line_below : (n y stride : ℕ) → y < n → y * stride + stride ≤ n * stride
line_below zero y stride h = absurd (omega arith)
line_below (suc n) zero stride h = omega arith
line_below (suc n) (suc y) stride h = omega (arith, line_below n y stride (omega arith))

set_pixel-AllInFrame :
    (stride x y : ℕ) (c : Yuv) → 1024 ≤ stride → AllInFrame stride (set_pixel stride x y c)
unfolding set_pixel AllInFrame
set_pixel-AllInFrame stride x y c h =
    if_both (ltb x 1024 && ltb y 600) (AllInFrame stride)
      (λ e.
        let row : y < 600 = ground arith in
        let column : x < 1024 = ground arith in
        let below = line_below 600 y stride row in
        let half = line_below 300 (y / 2) stride (omega arith) in
        (omega (arith, below), (omega (arith, half), (omega (arith, half), tt))))
      (λ e. tt)

fill_row-AllInFrame :
    (stride x y n : ℕ) (c : Yuv) → 1024 ≤ stride → AllInFrame stride (fill_row stride x y n c)
unfolding fill_row AllInFrame
fill_row-AllInFrame stride x y zero c h = tt
fill_row-AllInFrame stride x y (suc n) c h =
    AllInFrame-append stride _ _ (set_pixel-AllInFrame stride x y c h)
      (fill_row-AllInFrame stride (x + 1) y n c h)

pub fill_rect-AllInFrame :
    (stride rx ry rw rh : ℕ) (c : Yuv)
    → 1024 ≤ stride
    → AllInFrame stride (fill_rect stride rx ry rw rh c)
unfolding fill_rect AllInFrame
fill_rect-AllInFrame stride rx ry rw zero c h = tt
fill_rect-AllInFrame stride rx ry rw (suc rh) c h =
    AllInFrame-append stride _ _ (fill_row-AllInFrame stride rx ry rw c h)
      (fill_rect-AllInFrame stride rx (ry + 1) rw rh c h)

border_row-AllInFrame :
    (stride x top bottom n : ℕ) (c : Yuv)
    → 1024 ≤ stride
    → AllInFrame stride (border_row stride x top bottom n c)
unfolding border_row AllInFrame
border_row-AllInFrame stride x top bottom zero c h = tt
border_row-AllInFrame stride x top bottom (suc n) c h =
    AllInFrame-append stride _ _ (set_pixel-AllInFrame stride x top c h) (
      AllInFrame-append stride _ _ (set_pixel-AllInFrame stride x bottom c h)
        (border_row-AllInFrame stride (x + 1) top bottom n c h))

border_column-AllInFrame :
    (stride left right y n : ℕ) (c : Yuv)
    → 1024 ≤ stride
    → AllInFrame stride (border_column stride left right y n c)
unfolding border_column AllInFrame
border_column-AllInFrame stride left right y zero c h = tt
border_column-AllInFrame stride left right y (suc n) c h =
    AllInFrame-append stride _ _ (set_pixel-AllInFrame stride left y c h) (
      AllInFrame-append stride _ _ (set_pixel-AllInFrame stride right y c h)
        (border_column-AllInFrame stride left right (y + 1) n c h))

pub draw_rect_border-AllInFrame :
    (stride rx ry rw rh : ℕ) (c : Yuv)
    → 1024 ≤ stride
    → AllInFrame stride (draw_rect_border stride rx ry rw rh c)
unfolding draw_rect_border AllInFrame
draw_rect_border-AllInFrame stride rx ry rw rh c h =
    AllInFrame-append stride _ _ (border_row-AllInFrame stride rx ry (ry + rh - 1) rw c h)
      (border_column-AllInFrame stride rx (rx + rw - 1) ry rh c h)

-- What a dot draws lies in the frame, wherever it is.
abbrev DotInFrame : ℕ → (ℕ → ℕ → Yuv → List Write) → Type 0
DotInFrame stride dot = (x y : ℕ) (c : Yuv) → AllInFrame stride (dot x y c)

glyph_row-AllInFrame :
    (stride : ℕ) (dot : ℕ → ℕ → Yuv → List Write) (size x y bits left : ℕ) (c : Yuv)
    → DotInFrame stride dot
    → AllInFrame stride (glyph_row dot size x y bits left c)
unfolding glyph_row AllInFrame
glyph_row-AllInFrame stride dot size x y bits zero c d = tt
glyph_row-AllInFrame stride dot size x y bits (suc left) c d =
    let rest = glyph_row-AllInFrame stride dot size (x + size) y bits left c d in
    if_both (pixel_set bits (suc left)) (AllInFrame stride)
      (λ e. AllInFrame-append stride _ _ (d x y c) rest) (λ e. rest)

glyph_rows-AllInFrame :
    (stride : ℕ) (dot : ℕ → ℕ → Yuv → List Write) (size x y : ℕ) (rows : List ℕ) (c : Yuv)
    → DotInFrame stride dot
    → AllInFrame stride (glyph_rows dot size x y rows c)
unfolding glyph_rows AllInFrame
glyph_rows-AllInFrame stride dot size x y [] c d = tt
glyph_rows-AllInFrame stride dot size x y (bits ∷ rows) c d =
    AllInFrame-append stride _ _ (glyph_row-AllInFrame stride dot size x y bits 8 c d)
      (glyph_rows-AllInFrame stride dot size x (y + size) rows c d)

dot2x-DotInFrame : (stride : ℕ) → 1024 ≤ stride → DotInFrame stride (dot2x stride)
unfolding dot2x AllInFrame
dot2x-DotInFrame stride h x y c =
    let pixel = λ (x' : ℕ). λ (y' : ℕ). set_pixel-AllInFrame stride x' y' c h in
    AllInFrame-append stride _ _ (pixel x y) (
      AllInFrame-append stride _ _ (pixel (x + 1) y)
        (AllInFrame-append stride _ _ (pixel x (y + 1)) (pixel (x + 1) (y + 1))))

pub draw_str2x-AllInFrame :
    (stride x y : ℕ) (s : List ℕ) (c : Yuv)
    → 1024 ≤ stride
    → AllInFrame stride (draw_str2x stride x y s c)
unfolding draw_str2x draw_char2x AllInFrame
draw_str2x-AllInFrame stride x y [] c h = tt
draw_str2x-AllInFrame stride x y (ch ∷ s) c h =
    AllInFrame-append stride _ _
      (glyph_rows-AllInFrame stride (dot2x stride) 2 x y (glyph_of ch) c
        (dot2x-DotInFrame stride h))
      (draw_str2x-AllInFrame stride (x + 16) y s c h)

pub draw_str1x-AllInFrame :
    (stride x y : ℕ) (s : List ℕ) (c : Yuv)
    → 1024 ≤ stride
    → AllInFrame stride (draw_str1x stride x y s c)
unfolding draw_str1x draw_char1x dot1x AllInFrame
draw_str1x-AllInFrame stride x y [] c h = tt
draw_str1x-AllInFrame stride x y (ch ∷ s) c h =
    AllInFrame-append stride _ _
      (glyph_rows-AllInFrame stride (dot1x stride) 1 x y (glyph_of ch) c
        (λ x' y' c'. set_pixel-AllInFrame stride x' y' c' h))
      (draw_str1x-AllInFrame stride (x + 8) y s c h)
