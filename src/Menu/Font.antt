-- ===== src/Menu/Font.antt =====
-- The 8x16 font of board/src/menu_render.c: the printable characters, 16 rows of 8 pixels each, the
-- highest bit on the left.
use hispark_soc_china.Prelude.{ℕ, List, [], ◌∷◌, ◌++◌}

abbrev font_signs : List (List ℕ)
font_signs =
    (0 ∷ 0 ∷ 0 ∷ 0 ∷ 0 ∷ 0 ∷ 0 ∷ 0 ∷ 0 ∷ 0 ∷ 0 ∷ 0 ∷ 0 ∷ 0 ∷ 0 ∷ 0 ∷ [])
    ∷ (0 ∷ 0 ∷ 0x18 ∷ 0x18 ∷ 0x18 ∷ 0x18 ∷ 0x18 ∷ 0x18 ∷ 0x18 ∷ 0 ∷ 0x18 ∷ 0x18 ∷ 0 ∷ 0 ∷ 0 ∷ 0
        ∷ [])
    ∷ (0 ∷ 0 ∷ 0x6c ∷ 0x6c ∷ 0x6c ∷ 0 ∷ 0 ∷ 0 ∷ 0 ∷ 0 ∷ 0 ∷ 0 ∷ 0 ∷ 0 ∷ 0 ∷ 0 ∷ [])
    ∷ (0 ∷ 0 ∷ 0x36 ∷ 0x36 ∷ 0x7f ∷ 0x36 ∷ 0x36 ∷ 0x36 ∷ 0x7f ∷ 0x36 ∷ 0x36 ∷ 0x36 ∷ 0 ∷ 0 ∷ 0 ∷ 0
        ∷ [])
    ∷ (0 ∷ 0x18 ∷ 0x18 ∷ 0x7e ∷ 0xdb ∷ 0xd8 ∷ 0xd8 ∷ 0x7e ∷ 0x1b ∷ 0x1b ∷ 0xdb ∷ 0x7e ∷ 0x18 ∷ 0x18
        ∷ 0 ∷ 0 ∷ [])
    ∷ (0 ∷ 0 ∷ 0 ∷ 0x61 ∷ 0x62 ∷ 6 ∷ 0x0c ∷ 0x18 ∷ 0x30 ∷ 0x60 ∷ 0x43 ∷ 0x46 ∷ 0 ∷ 0 ∷ 0 ∷ 0 ∷ [])
    ∷ (0 ∷ 0 ∷ 0x38 ∷ 0x6c ∷ 0x6c ∷ 0x38 ∷ 0x30 ∷ 0x6f ∷ 0xc6 ∷ 0xc6 ∷ 0xcc ∷ 0x6b ∷ 0 ∷ 0 ∷ 0 ∷ 0
        ∷ [])
    ∷ (0 ∷ 0 ∷ 0x18 ∷ 0x18 ∷ 0x18 ∷ 0 ∷ 0 ∷ 0 ∷ 0 ∷ 0 ∷ 0 ∷ 0 ∷ 0 ∷ 0 ∷ 0 ∷ 0 ∷ [])
    ∷ (0 ∷ 0 ∷ 0x0c ∷ 0x18 ∷ 0x30 ∷ 0x30 ∷ 0x30 ∷ 0x30 ∷ 0x30 ∷ 0x30 ∷ 0x18 ∷ 0x0c ∷ 0 ∷ 0 ∷ 0 ∷ 0
        ∷ [])
    ∷ (0 ∷ 0 ∷ 0x30 ∷ 0x18 ∷ 0x0c ∷ 0x0c ∷ 0x0c ∷ 0x0c ∷ 0x0c ∷ 0x0c ∷ 0x18 ∷ 0x30 ∷ 0 ∷ 0 ∷ 0 ∷ 0
        ∷ [])
    ∷ (0 ∷ 0 ∷ 0 ∷ 0 ∷ 0x66 ∷ 0x3c ∷ 0xff ∷ 0x3c ∷ 0x66 ∷ 0 ∷ 0 ∷ 0 ∷ 0 ∷ 0 ∷ 0 ∷ 0 ∷ [])
    ∷ (0 ∷ 0 ∷ 0 ∷ 0 ∷ 0x18 ∷ 0x18 ∷ 0x18 ∷ 0xff ∷ 0x18 ∷ 0x18 ∷ 0x18 ∷ 0 ∷ 0 ∷ 0 ∷ 0 ∷ 0 ∷ [])
    ∷ (0 ∷ 0 ∷ 0 ∷ 0 ∷ 0 ∷ 0 ∷ 0 ∷ 0 ∷ 0 ∷ 0 ∷ 0x18 ∷ 0x18 ∷ 0x18 ∷ 0x30 ∷ 0 ∷ 0 ∷ [])
    ∷ (0 ∷ 0 ∷ 0 ∷ 0 ∷ 0 ∷ 0 ∷ 0 ∷ 0xff ∷ 0 ∷ 0 ∷ 0 ∷ 0 ∷ 0 ∷ 0 ∷ 0 ∷ 0 ∷ [])
    ∷ (0 ∷ 0 ∷ 0 ∷ 0 ∷ 0 ∷ 0 ∷ 0 ∷ 0 ∷ 0 ∷ 0 ∷ 0x18 ∷ 0x18 ∷ 0 ∷ 0 ∷ 0 ∷ 0 ∷ [])
    ∷ (0 ∷ 0 ∷ 3 ∷ 6 ∷ 6 ∷ 0x0c ∷ 0x18 ∷ 0x18 ∷ 0x30 ∷ 0x60 ∷ 0x60 ∷ 0xc0 ∷ 0 ∷ 0 ∷ 0 ∷ 0 ∷ [])
    ∷ (0 ∷ 0 ∷ 0x3c ∷ 0x66 ∷ 0xc3 ∷ 0xc3 ∷ 0xdb ∷ 0xdb ∷ 0xc3 ∷ 0xc3 ∷ 0x66 ∷ 0x3c ∷ 0 ∷ 0 ∷ 0 ∷ 0
        ∷ [])
    ∷ (0 ∷ 0 ∷ 0x18 ∷ 0x38 ∷ 0x78 ∷ 0x18 ∷ 0x18 ∷ 0x18 ∷ 0x18 ∷ 0x18 ∷ 0x18 ∷ 0xff ∷ 0 ∷ 0 ∷ 0 ∷ 0
        ∷ [])
    ∷ (0 ∷ 0 ∷ 0x7e ∷ 0xc3 ∷ 3 ∷ 6 ∷ 0x0c ∷ 0x18 ∷ 0x30 ∷ 0x60 ∷ 0xc3 ∷ 0xff ∷ 0 ∷ 0 ∷ 0 ∷ 0 ∷ [])
    ∷ (0 ∷ 0 ∷ 0x7e ∷ 0xc3 ∷ 3 ∷ 3 ∷ 0x3e ∷ 3 ∷ 3 ∷ 3 ∷ 0xc3 ∷ 0x7e ∷ 0 ∷ 0 ∷ 0 ∷ 0 ∷ [])
    ∷ (0 ∷ 0 ∷ 6 ∷ 0x0e ∷ 0x1e ∷ 0x36 ∷ 0x66 ∷ 0xc6 ∷ 0xff ∷ 6 ∷ 6 ∷ 6 ∷ 0 ∷ 0 ∷ 0 ∷ 0 ∷ [])
    ∷ (0 ∷ 0 ∷ 0xff ∷ 0xc0 ∷ 0xc0 ∷ 0xc0 ∷ 0xfe ∷ 3 ∷ 3 ∷ 3 ∷ 0xc3 ∷ 0x7e ∷ 0 ∷ 0 ∷ 0 ∷ 0 ∷ [])
    ∷ (0 ∷ 0 ∷ 0x3e ∷ 0x60 ∷ 0xc0 ∷ 0xc0 ∷ 0xfe ∷ 0xc3 ∷ 0xc3 ∷ 0xc3 ∷ 0x66 ∷ 0x3c ∷ 0 ∷ 0 ∷ 0 ∷ 0
        ∷ [])
    ∷ (0 ∷ 0 ∷ 0xff ∷ 0xc3 ∷ 3 ∷ 6 ∷ 0x0c ∷ 0x18 ∷ 0x18 ∷ 0x18 ∷ 0x18 ∷ 0x18 ∷ 0 ∷ 0 ∷ 0 ∷ 0 ∷ [])
    ∷ (0 ∷ 0 ∷ 0x3c ∷ 0x66 ∷ 0xc3 ∷ 0xc3 ∷ 0x66 ∷ 0x3c ∷ 0xc3 ∷ 0xc3 ∷ 0x66 ∷ 0x3c ∷ 0 ∷ 0 ∷ 0 ∷ 0
        ∷ [])
    ∷ (0 ∷ 0 ∷ 0x3c ∷ 0x66 ∷ 0xc3 ∷ 0xc3 ∷ 0xc3 ∷ 0x7f ∷ 3 ∷ 3 ∷ 6 ∷ 0x7c ∷ 0 ∷ 0 ∷ 0 ∷ 0 ∷ [])
    ∷ (0 ∷ 0 ∷ 0 ∷ 0 ∷ 0x18 ∷ 0x18 ∷ 0 ∷ 0 ∷ 0 ∷ 0 ∷ 0x18 ∷ 0x18 ∷ 0 ∷ 0 ∷ 0 ∷ 0 ∷ [])
    ∷ (0 ∷ 0 ∷ 0 ∷ 0 ∷ 0x18 ∷ 0x18 ∷ 0 ∷ 0 ∷ 0 ∷ 0 ∷ 0x18 ∷ 0x18 ∷ 0x18 ∷ 0x30 ∷ 0 ∷ 0 ∷ [])
    ∷ (0 ∷ 0 ∷ 0 ∷ 6 ∷ 0x0c ∷ 0x18 ∷ 0x30 ∷ 0x60 ∷ 0x30 ∷ 0x18 ∷ 0x0c ∷ 6 ∷ 0 ∷ 0 ∷ 0 ∷ 0 ∷ [])
    ∷ (0 ∷ 0 ∷ 0 ∷ 0 ∷ 0 ∷ 0xff ∷ 0 ∷ 0 ∷ 0xff ∷ 0 ∷ 0 ∷ 0 ∷ 0 ∷ 0 ∷ 0 ∷ 0 ∷ [])
    ∷ (0 ∷ 0 ∷ 0 ∷ 0x60 ∷ 0x30 ∷ 0x18 ∷ 0x0c ∷ 6 ∷ 0x0c ∷ 0x18 ∷ 0x30 ∷ 0x60 ∷ 0 ∷ 0 ∷ 0 ∷ 0 ∷ [])
    ∷ (0 ∷ 0 ∷ 0x7e ∷ 0xc3 ∷ 3 ∷ 6 ∷ 0x0c ∷ 0x0c ∷ 0x0c ∷ 0 ∷ 0x0c ∷ 0x0c ∷ 0 ∷ 0 ∷ 0 ∷ 0 ∷ [])
    ∷ []

abbrev font_upper : List (List ℕ)
font_upper =
    (0 ∷ 0 ∷ 0x7e ∷ 0xc3 ∷ 3 ∷ 0x6f ∷ 0xdb ∷ 0xdb ∷ 0xdb ∷ 0x6f ∷ 0 ∷ 0x7e ∷ 0 ∷ 0 ∷ 0 ∷ 0 ∷ [])
    ∷ (0 ∷ 0 ∷ 0x18 ∷ 0x3c ∷ 0x66 ∷ 0xc3 ∷ 0xc3 ∷ 0xff ∷ 0xc3 ∷ 0xc3 ∷ 0xc3 ∷ 0xc3 ∷ 0 ∷ 0 ∷ 0 ∷ 0
        ∷ [])
    ∷ (0 ∷ 0 ∷ 0xfe ∷ 0xc3 ∷ 0xc3 ∷ 0xc3 ∷ 0xfe ∷ 0xc3 ∷ 0xc3 ∷ 0xc3 ∷ 0xc3 ∷ 0xfe ∷ 0 ∷ 0 ∷ 0 ∷ 0
        ∷ [])
    ∷ (0 ∷ 0 ∷ 0x3c ∷ 0x66 ∷ 0xc3 ∷ 0xc0 ∷ 0xc0 ∷ 0xc0 ∷ 0xc0 ∷ 0xc3 ∷ 0x66 ∷ 0x3c ∷ 0 ∷ 0 ∷ 0 ∷ 0
        ∷ [])
    ∷ (0 ∷ 0 ∷ 0xf8 ∷ 0xcc ∷ 0xc6 ∷ 0xc3 ∷ 0xc3 ∷ 0xc3 ∷ 0xc3 ∷ 0xc6 ∷ 0xcc ∷ 0xf8 ∷ 0 ∷ 0 ∷ 0 ∷ 0
        ∷ [])
    ∷ (0 ∷ 0 ∷ 0xff ∷ 0xc0 ∷ 0xc0 ∷ 0xc0 ∷ 0xfc ∷ 0xc0 ∷ 0xc0 ∷ 0xc0 ∷ 0xc0 ∷ 0xff ∷ 0 ∷ 0 ∷ 0 ∷ 0
        ∷ [])
    ∷ (0 ∷ 0 ∷ 0xff ∷ 0xc0 ∷ 0xc0 ∷ 0xc0 ∷ 0xfc ∷ 0xc0 ∷ 0xc0 ∷ 0xc0 ∷ 0xc0 ∷ 0xc0 ∷ 0 ∷ 0 ∷ 0 ∷ 0
        ∷ [])
    ∷ (0 ∷ 0 ∷ 0x3c ∷ 0x66 ∷ 0xc3 ∷ 0xc0 ∷ 0xc0 ∷ 0xcf ∷ 0xc3 ∷ 0xc3 ∷ 0x66 ∷ 0x3c ∷ 0 ∷ 0 ∷ 0 ∷ 0
        ∷ [])
    ∷ (0 ∷ 0 ∷ 0xc3 ∷ 0xc3 ∷ 0xc3 ∷ 0xc3 ∷ 0xff ∷ 0xc3 ∷ 0xc3 ∷ 0xc3 ∷ 0xc3 ∷ 0xc3 ∷ 0 ∷ 0 ∷ 0 ∷ 0
        ∷ [])
    ∷ (0 ∷ 0 ∷ 0xff ∷ 0x18 ∷ 0x18 ∷ 0x18 ∷ 0x18 ∷ 0x18 ∷ 0x18 ∷ 0x18 ∷ 0x18 ∷ 0xff ∷ 0 ∷ 0 ∷ 0 ∷ 0
        ∷ [])
    ∷ (0 ∷ 0 ∷ 0x1f ∷ 6 ∷ 6 ∷ 6 ∷ 6 ∷ 6 ∷ 6 ∷ 0xc6 ∷ 0xc6 ∷ 0x7c ∷ 0 ∷ 0 ∷ 0 ∷ 0 ∷ [])
    ∷ (0 ∷ 0 ∷ 0xc3 ∷ 0xc6 ∷ 0xcc ∷ 0xd8 ∷ 0xf0 ∷ 0xf0 ∷ 0xd8 ∷ 0xcc ∷ 0xc6 ∷ 0xc3 ∷ 0 ∷ 0 ∷ 0 ∷ 0
        ∷ [])
    ∷ (0 ∷ 0 ∷ 0xc0 ∷ 0xc0 ∷ 0xc0 ∷ 0xc0 ∷ 0xc0 ∷ 0xc0 ∷ 0xc0 ∷ 0xc0 ∷ 0xc0 ∷ 0xff ∷ 0 ∷ 0 ∷ 0 ∷ 0
        ∷ [])
    ∷ (0 ∷ 0 ∷ 0xc3 ∷ 0xe7 ∷ 0xff ∷ 0xdb ∷ 0xc3 ∷ 0xc3 ∷ 0xc3 ∷ 0xc3 ∷ 0xc3 ∷ 0xc3 ∷ 0 ∷ 0 ∷ 0 ∷ 0
        ∷ [])
    ∷ (0 ∷ 0 ∷ 0xc3 ∷ 0xe3 ∷ 0xf3 ∷ 0xdb ∷ 0xcf ∷ 0xc7 ∷ 0xc3 ∷ 0xc3 ∷ 0xc3 ∷ 0xc3 ∷ 0 ∷ 0 ∷ 0 ∷ 0
        ∷ [])
    ∷ (0 ∷ 0 ∷ 0x3c ∷ 0x66 ∷ 0xc3 ∷ 0xc3 ∷ 0xc3 ∷ 0xc3 ∷ 0xc3 ∷ 0xc3 ∷ 0x66 ∷ 0x3c ∷ 0 ∷ 0 ∷ 0 ∷ 0
        ∷ [])
    ∷ (0 ∷ 0 ∷ 0xfe ∷ 0xc3 ∷ 0xc3 ∷ 0xc3 ∷ 0xfe ∷ 0xc0 ∷ 0xc0 ∷ 0xc0 ∷ 0xc0 ∷ 0xc0 ∷ 0 ∷ 0 ∷ 0 ∷ 0
        ∷ [])
    ∷ (0 ∷ 0 ∷ 0x3c ∷ 0x66 ∷ 0xc3 ∷ 0xc3 ∷ 0xc3 ∷ 0xc3 ∷ 0xc3 ∷ 0xdb ∷ 0x7e ∷ 0x3c ∷ 7 ∷ 0 ∷ 0 ∷ 0
        ∷ [])
    ∷ (0 ∷ 0 ∷ 0xfe ∷ 0xc3 ∷ 0xc3 ∷ 0xc3 ∷ 0xfe ∷ 0xd8 ∷ 0xcc ∷ 0xc6 ∷ 0xc3 ∷ 0xc3 ∷ 0 ∷ 0 ∷ 0 ∷ 0
        ∷ [])
    ∷ (0 ∷ 0 ∷ 0x7e ∷ 0xc3 ∷ 0xc0 ∷ 0xc0 ∷ 0x7e ∷ 3 ∷ 3 ∷ 3 ∷ 0xc3 ∷ 0x7e ∷ 0 ∷ 0 ∷ 0 ∷ 0 ∷ [])
    ∷ (0 ∷ 0 ∷ 0xff ∷ 0x18 ∷ 0x18 ∷ 0x18 ∷ 0x18 ∷ 0x18 ∷ 0x18 ∷ 0x18 ∷ 0x18 ∷ 0x18 ∷ 0 ∷ 0 ∷ 0 ∷ 0
        ∷ [])
    ∷ (0 ∷ 0 ∷ 0xc3 ∷ 0xc3 ∷ 0xc3 ∷ 0xc3 ∷ 0xc3 ∷ 0xc3 ∷ 0xc3 ∷ 0xc3 ∷ 0xc3 ∷ 0x7e ∷ 0 ∷ 0 ∷ 0 ∷ 0
        ∷ [])
    ∷ (0 ∷ 0 ∷ 0xc3 ∷ 0xc3 ∷ 0xc3 ∷ 0xc3 ∷ 0xc3 ∷ 0xc3 ∷ 0xc3 ∷ 0x66 ∷ 0x3c ∷ 0x18 ∷ 0 ∷ 0 ∷ 0 ∷ 0
        ∷ [])
    ∷ (0 ∷ 0 ∷ 0xc3 ∷ 0xc3 ∷ 0xc3 ∷ 0xc3 ∷ 0xc3 ∷ 0xdb ∷ 0xdb ∷ 0xff ∷ 0x66 ∷ 0x66 ∷ 0 ∷ 0 ∷ 0 ∷ 0
        ∷ [])
    ∷ (0 ∷ 0 ∷ 0xc3 ∷ 0xc3 ∷ 0x66 ∷ 0x66 ∷ 0x3c ∷ 0x3c ∷ 0x66 ∷ 0x66 ∷ 0xc3 ∷ 0xc3 ∷ 0 ∷ 0 ∷ 0 ∷ 0
        ∷ [])
    ∷ (0 ∷ 0 ∷ 0xc3 ∷ 0xc3 ∷ 0xc3 ∷ 0x66 ∷ 0x3c ∷ 0x18 ∷ 0x18 ∷ 0x18 ∷ 0x18 ∷ 0x18 ∷ 0 ∷ 0 ∷ 0 ∷ 0
        ∷ [])
    ∷ (0 ∷ 0 ∷ 0xff ∷ 3 ∷ 6 ∷ 0x0c ∷ 0x18 ∷ 0x30 ∷ 0x60 ∷ 0xc0 ∷ 0xc0 ∷ 0xff ∷ 0 ∷ 0 ∷ 0 ∷ 0 ∷ [])
    ∷ (0 ∷ 0 ∷ 0x3c ∷ 0x30 ∷ 0x30 ∷ 0x30 ∷ 0x30 ∷ 0x30 ∷ 0x30 ∷ 0x30 ∷ 0x30 ∷ 0x3c ∷ 0 ∷ 0 ∷ 0 ∷ 0
        ∷ [])
    ∷ (0 ∷ 0 ∷ 0xc0 ∷ 0x60 ∷ 0x60 ∷ 0x30 ∷ 0x18 ∷ 0x18 ∷ 0x0c ∷ 6 ∷ 6 ∷ 3 ∷ 0 ∷ 0 ∷ 0 ∷ 0 ∷ [])
    ∷ (0 ∷ 0 ∷ 0x3c ∷ 0x0c ∷ 0x0c ∷ 0x0c ∷ 0x0c ∷ 0x0c ∷ 0x0c ∷ 0x0c ∷ 0x0c ∷ 0x3c ∷ 0 ∷ 0 ∷ 0 ∷ 0
        ∷ [])
    ∷ (0 ∷ 0x18 ∷ 0x3c ∷ 0x66 ∷ 0xc3 ∷ 0 ∷ 0 ∷ 0 ∷ 0 ∷ 0 ∷ 0 ∷ 0 ∷ 0 ∷ 0 ∷ 0 ∷ 0 ∷ [])
    ∷ (0 ∷ 0 ∷ 0 ∷ 0 ∷ 0 ∷ 0 ∷ 0 ∷ 0 ∷ 0 ∷ 0 ∷ 0 ∷ 0 ∷ 0 ∷ 0 ∷ 0xff ∷ 0 ∷ [])
    ∷ []

abbrev font_lower : List (List ℕ)
font_lower =
    (0 ∷ 0x18 ∷ 0x18 ∷ 0x0c ∷ 0 ∷ 0 ∷ 0 ∷ 0 ∷ 0 ∷ 0 ∷ 0 ∷ 0 ∷ 0 ∷ 0 ∷ 0 ∷ 0 ∷ [])
    ∷ (0 ∷ 0 ∷ 0 ∷ 0 ∷ 0 ∷ 0 ∷ 0x7e ∷ 3 ∷ 0x7f ∷ 0xc3 ∷ 0xc3 ∷ 0x7f ∷ 0 ∷ 0 ∷ 0 ∷ 0 ∷ [])
    ∷ (0 ∷ 0 ∷ 0xc0 ∷ 0xc0 ∷ 0xc0 ∷ 0xde ∷ 0xf3 ∷ 0xc3 ∷ 0xc3 ∷ 0xc3 ∷ 0xf3 ∷ 0xde ∷ 0 ∷ 0 ∷ 0 ∷ 0
        ∷ [])
    ∷ (0 ∷ 0 ∷ 0 ∷ 0 ∷ 0 ∷ 0 ∷ 0x7e ∷ 0xc3 ∷ 0xc0 ∷ 0xc0 ∷ 0xc3 ∷ 0x7e ∷ 0 ∷ 0 ∷ 0 ∷ 0 ∷ [])
    ∷ (0 ∷ 0 ∷ 3 ∷ 3 ∷ 3 ∷ 0x7f ∷ 0xc3 ∷ 0xc3 ∷ 0xc3 ∷ 0xc3 ∷ 0xc3 ∷ 0x7f ∷ 0 ∷ 0 ∷ 0 ∷ 0 ∷ [])
    ∷ (0 ∷ 0 ∷ 0 ∷ 0 ∷ 0 ∷ 0 ∷ 0x7e ∷ 0xc3 ∷ 0xff ∷ 0xc0 ∷ 0xc3 ∷ 0x7e ∷ 0 ∷ 0 ∷ 0 ∷ 0 ∷ [])
    ∷ (0 ∷ 0 ∷ 0x1e ∷ 0x33 ∷ 0x30 ∷ 0x30 ∷ 0xfc ∷ 0x30 ∷ 0x30 ∷ 0x30 ∷ 0x30 ∷ 0x30 ∷ 0 ∷ 0 ∷ 0 ∷ 0
        ∷ [])
    ∷ (0 ∷ 0 ∷ 0 ∷ 0 ∷ 0 ∷ 0 ∷ 0x7f ∷ 0xc3 ∷ 0xc3 ∷ 0xc3 ∷ 0x7f ∷ 3 ∷ 0xc3 ∷ 0x7e ∷ 0 ∷ 0 ∷ [])
    ∷ (0 ∷ 0 ∷ 0xc0 ∷ 0xc0 ∷ 0xc0 ∷ 0xde ∷ 0xf3 ∷ 0xc3 ∷ 0xc3 ∷ 0xc3 ∷ 0xc3 ∷ 0xc3 ∷ 0 ∷ 0 ∷ 0 ∷ 0
        ∷ [])
    ∷ (0 ∷ 0 ∷ 0x18 ∷ 0x18 ∷ 0 ∷ 0 ∷ 0x78 ∷ 0x18 ∷ 0x18 ∷ 0x18 ∷ 0x18 ∷ 0xff ∷ 0 ∷ 0 ∷ 0 ∷ 0 ∷ [])
    ∷ (0 ∷ 0 ∷ 6 ∷ 6 ∷ 0 ∷ 0 ∷ 0x3e ∷ 6 ∷ 6 ∷ 6 ∷ 6 ∷ 0xc6 ∷ 0xc6 ∷ 0x7c ∷ 0 ∷ 0 ∷ [])
    ∷ (0 ∷ 0 ∷ 0xc0 ∷ 0xc0 ∷ 0xc0 ∷ 0xc6 ∷ 0xcc ∷ 0xd8 ∷ 0xf0 ∷ 0xd8 ∷ 0xcc ∷ 0xc6 ∷ 0 ∷ 0 ∷ 0 ∷ 0
        ∷ [])
    ∷ (0 ∷ 0 ∷ 0x78 ∷ 0x18 ∷ 0x18 ∷ 0x18 ∷ 0x18 ∷ 0x18 ∷ 0x18 ∷ 0x18 ∷ 0x18 ∷ 0xff ∷ 0 ∷ 0 ∷ 0 ∷ 0
        ∷ [])
    ∷ (0 ∷ 0 ∷ 0 ∷ 0 ∷ 0 ∷ 0 ∷ 0xc6 ∷ 0xee ∷ 0xfe ∷ 0xd6 ∷ 0xc6 ∷ 0xc6 ∷ 0 ∷ 0 ∷ 0 ∷ 0 ∷ [])
    ∷ (0 ∷ 0 ∷ 0 ∷ 0 ∷ 0 ∷ 0 ∷ 0xde ∷ 0xf3 ∷ 0xc3 ∷ 0xc3 ∷ 0xc3 ∷ 0xc3 ∷ 0 ∷ 0 ∷ 0 ∷ 0 ∷ [])
    ∷ (0 ∷ 0 ∷ 0 ∷ 0 ∷ 0 ∷ 0 ∷ 0x7e ∷ 0xc3 ∷ 0xc3 ∷ 0xc3 ∷ 0xc3 ∷ 0x7e ∷ 0 ∷ 0 ∷ 0 ∷ 0 ∷ [])
    ∷ (0 ∷ 0 ∷ 0 ∷ 0 ∷ 0 ∷ 0 ∷ 0xde ∷ 0xf3 ∷ 0xc3 ∷ 0xc3 ∷ 0xf3 ∷ 0xde ∷ 0xc0 ∷ 0xc0 ∷ 0 ∷ 0 ∷ [])
    ∷ (0 ∷ 0 ∷ 0 ∷ 0 ∷ 0 ∷ 0 ∷ 0x7f ∷ 0xc3 ∷ 0xc3 ∷ 0xc3 ∷ 0x7f ∷ 3 ∷ 3 ∷ 3 ∷ 0 ∷ 0 ∷ [])
    ∷ (0 ∷ 0 ∷ 0 ∷ 0 ∷ 0 ∷ 0 ∷ 0xde ∷ 0xf3 ∷ 0xc0 ∷ 0xc0 ∷ 0xc0 ∷ 0xc0 ∷ 0 ∷ 0 ∷ 0 ∷ 0 ∷ [])
    ∷ (0 ∷ 0 ∷ 0 ∷ 0 ∷ 0 ∷ 0 ∷ 0x7e ∷ 0xc3 ∷ 0x60 ∷ 0x1c ∷ 0xc3 ∷ 0x7e ∷ 0 ∷ 0 ∷ 0 ∷ 0 ∷ [])
    ∷ (0 ∷ 0 ∷ 0x30 ∷ 0x30 ∷ 0x30 ∷ 0xfc ∷ 0x30 ∷ 0x30 ∷ 0x30 ∷ 0x30 ∷ 0x33 ∷ 0x1e ∷ 0 ∷ 0 ∷ 0 ∷ 0
        ∷ [])
    ∷ (0 ∷ 0 ∷ 0 ∷ 0 ∷ 0 ∷ 0 ∷ 0xc3 ∷ 0xc3 ∷ 0xc3 ∷ 0xc3 ∷ 0xc3 ∷ 0x7f ∷ 0 ∷ 0 ∷ 0 ∷ 0 ∷ [])
    ∷ (0 ∷ 0 ∷ 0 ∷ 0 ∷ 0 ∷ 0 ∷ 0xc3 ∷ 0xc3 ∷ 0xc3 ∷ 0x66 ∷ 0x3c ∷ 0x18 ∷ 0 ∷ 0 ∷ 0 ∷ 0 ∷ [])
    ∷ (0 ∷ 0 ∷ 0 ∷ 0 ∷ 0 ∷ 0 ∷ 0xc3 ∷ 0xc3 ∷ 0xdb ∷ 0xdb ∷ 0xff ∷ 0x66 ∷ 0 ∷ 0 ∷ 0 ∷ 0 ∷ [])
    ∷ (0 ∷ 0 ∷ 0 ∷ 0 ∷ 0 ∷ 0 ∷ 0xc3 ∷ 0x66 ∷ 0x3c ∷ 0x3c ∷ 0x66 ∷ 0xc3 ∷ 0 ∷ 0 ∷ 0 ∷ 0 ∷ [])
    ∷ (0 ∷ 0 ∷ 0 ∷ 0 ∷ 0 ∷ 0 ∷ 0xc3 ∷ 0xc3 ∷ 0xc3 ∷ 0x7f ∷ 3 ∷ 0xc3 ∷ 0xc3 ∷ 0x7e ∷ 0 ∷ 0 ∷ [])
    ∷ (0 ∷ 0 ∷ 0 ∷ 0 ∷ 0 ∷ 0 ∷ 0xff ∷ 6 ∷ 0x0c ∷ 0x18 ∷ 0x30 ∷ 0xff ∷ 0 ∷ 0 ∷ 0 ∷ 0 ∷ [])
    ∷ (0 ∷ 0 ∷ 0x0e ∷ 0x18 ∷ 0x18 ∷ 0x18 ∷ 0x70 ∷ 0x18 ∷ 0x18 ∷ 0x18 ∷ 0x18 ∷ 0x0e ∷ 0 ∷ 0 ∷ 0 ∷ 0
        ∷ [])
    ∷ (0 ∷ 0 ∷ 0x18 ∷ 0x18 ∷ 0x18 ∷ 0x18 ∷ 0x18 ∷ 0x18 ∷ 0x18 ∷ 0x18 ∷ 0x18 ∷ 0x18 ∷ 0 ∷ 0 ∷ 0 ∷ 0
        ∷ [])
    ∷ (0 ∷ 0 ∷ 0x70 ∷ 0x18 ∷ 0x18 ∷ 0x18 ∷ 0x0e ∷ 0x18 ∷ 0x18 ∷ 0x18 ∷ 0x18 ∷ 0x70 ∷ 0 ∷ 0 ∷ 0 ∷ 0
        ∷ [])
    ∷ (0 ∷ 0 ∷ 0x76 ∷ 0xdc ∷ 0 ∷ 0 ∷ 0 ∷ 0 ∷ 0 ∷ 0 ∷ 0 ∷ 0 ∷ 0 ∷ 0 ∷ 0 ∷ 0 ∷ [])
    ∷ []

-- From 0x20 to 0x7e.
unfoldable pub font8x16 : List (List ℕ)
font8x16 = font_signs ++ (font_upper ++ font_lower)
