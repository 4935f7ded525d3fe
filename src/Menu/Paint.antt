-- ===== src/Menu/Paint.antt =====
-- The drawing primitives of board/src/menu_render.c, as the writes that they make into the two planes
-- of an NV21 frame, the first one first. The menu is laid out from constants, so no coordinate is
-- negative.
use hispark_soc_china.Prelude.{
  ℕ, zero, suc, ◌+◌, ◌-◌, ◌*◌, ◌/◌, ◌%◌, ◌^◌, Bool, ◌&&◌, ◌||◌, List, [], ◌∷◌, ◌++◌, get_or, ltb,
  ◌==◌, if◌then◌else◌,
}
use hispark_soc_china.Menu.Font.{font8x16}

pub data Write : Type 0 where
  luma chroma : ℕ → ℕ → Write

-- The values of Y, V and U.
pub record Yuv : Type 0 where
  pub y : ℕ
  pub v : ℕ
  pub u : ℕ

unfoldable pub set_pixel : ℕ → ℕ → ℕ → Yuv → List Write
set_pixel stride x y c =
    let uv_off = (y / 2) * stride + (x - x % 2) in
    if ltb x 1024 && ltb y 600
    then luma (y * stride + x) c.y ∷ chroma uv_off c.v ∷ chroma (uv_off + 1) c.u ∷ []
    else []

-- `n` pixels to the right of a point.
unfoldable pub fill_row : ℕ → ℕ → ℕ → ℕ → Yuv → List Write
unfolding set_pixel
fill_row stride x y zero c = []
fill_row stride x y (suc n) c = set_pixel stride x y c ++ fill_row stride (x + 1) y n c

unfoldable pub fill_rect : ℕ → ℕ → ℕ → ℕ → ℕ → Yuv → List Write
unfolding fill_row
fill_rect stride rx ry rw zero c = []
fill_rect stride rx ry rw (suc rh) c =
    fill_row stride rx ry rw c ++ fill_rect stride rx (ry + 1) rw rh c

-- The same pixel of the upper and of the lower line.
unfoldable pub border_row : ℕ → ℕ → ℕ → ℕ → ℕ → Yuv → List Write
unfolding set_pixel
border_row stride x top bottom zero c = []
border_row stride x top bottom (suc n) c =
    set_pixel stride x top c
    ++ (set_pixel stride x bottom c ++ border_row stride (x + 1) top bottom n c)

unfoldable pub border_column : ℕ → ℕ → ℕ → ℕ → ℕ → Yuv → List Write
unfolding set_pixel
border_column stride left right y zero c = []
border_column stride left right y (suc n) c =
    set_pixel stride left y c
    ++ (set_pixel stride right y c ++ border_column stride left right (y + 1) n c)

unfoldable pub draw_rect_border : ℕ → ℕ → ℕ → ℕ → ℕ → Yuv → List Write
unfolding border_row border_column
draw_rect_border stride rx ry rw rh c =
    border_row stride rx ry (ry + rh - 1) rw c ++ border_column stride rx (rx + rw - 1) ry rh c

-- A character that the font has.
abbrev pub shown : ℕ → ℕ
shown c = if ltb c 0x20 || ltb 0x7e c then b'?' else c

abbrev pub glyph_of : ℕ → List ℕ
glyph_of c = get_or font8x16 (shown c - 0x20) []

-- `bits & (0x80 >> col)`, with `left` columns from this one on.
abbrev pub pixel_set : ℕ → ℕ → Bool
pixel_set bits left = (bits / 2 ^ (left - 1)) % 2 == 1

-- A pixel of a glyph, in one of two sizes.
unfoldable pub dot1x : ℕ → ℕ → ℕ → Yuv → List Write
unfolding set_pixel
dot1x stride x y c = set_pixel stride x y c

unfoldable pub dot2x : ℕ → ℕ → ℕ → Yuv → List Write
unfolding set_pixel
dot2x stride x y c =
    set_pixel stride x y c
    ++ (set_pixel stride (x + 1) y c
        ++ (set_pixel stride x (y + 1) c ++ set_pixel stride (x + 1) (y + 1) c))

-- The columns of a row, from the one that has `left` columns from it on; `size` is the width of a
-- pixel, and `dot` draws it.
unfoldable pub glyph_row : (ℕ → ℕ → Yuv → List Write) → ℕ → ℕ → ℕ → ℕ → ℕ → Yuv → List Write
glyph_row dot size x y bits zero c = []
glyph_row dot size x y bits (suc left) c =
    let rest = glyph_row dot size (x + size) y bits left c in
    if pixel_set bits (suc left) then dot x y c ++ rest else rest

unfoldable pub glyph_rows : (ℕ → ℕ → Yuv → List Write) → ℕ → ℕ → ℕ → List ℕ → Yuv → List Write
unfolding glyph_row
glyph_rows dot size x y [] c = []
glyph_rows dot size x y (bits ∷ rows) c =
    glyph_row dot size x y bits 8 c ++ glyph_rows dot size x (y + size) rows c

unfoldable pub draw_char2x : ℕ → ℕ → ℕ → ℕ → Yuv → List Write
unfolding font8x16 glyph_rows dot2x
draw_char2x stride x y ch c = glyph_rows (dot2x stride) 2 x y (glyph_of ch) c

unfoldable pub draw_char1x : ℕ → ℕ → ℕ → ℕ → Yuv → List Write
unfolding font8x16 glyph_rows dot1x
draw_char1x stride x y ch c = glyph_rows (dot1x stride) 1 x y (glyph_of ch) c

-- No caller uses the x that is returned.
unfoldable pub draw_str2x : ℕ → ℕ → ℕ → List ℕ → Yuv → List Write
unfolding draw_char2x
draw_str2x stride x y [] c = []
draw_str2x stride x y (ch ∷ s) c = draw_char2x stride x y ch c ++ draw_str2x stride (x + 16) y s c

unfoldable pub draw_str1x : ℕ → ℕ → ℕ → List ℕ → Yuv → List Write
unfolding draw_char1x
draw_str1x stride x y [] c = []
draw_str1x stride x y (ch ∷ s) c = draw_char1x stride x y ch c ++ draw_str1x stride (x + 8) y s c
