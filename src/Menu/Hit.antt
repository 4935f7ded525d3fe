-- ===== src/Menu/Hit.antt =====
-- The hit test of the menu (board/src/menu_render.c) finds the button that is there, and no other.
use hispark_soc_china.Prelude.{
  ℕ, zero, suc, ◌+◌, ◌-◌, ◌≤◌, ◌<◌, ◌≡◌, ◌↔◌, subst, true, Option, none, some, List, [], ◌∷◌,
  get_elem?, arith, if_both,
}
use hispark_soc_china.Menu.Layout.{Rect, in_rect, btn_rects, hit_from, menu_hittest}

-- A point of a rectangle.
abbrev pub Inside : ℕ → ℕ → Rect → Type 0
Inside tx ty r = (r.x ≤ tx) × (tx < r.x + r.w) × (r.y ≤ ty) × (ty < r.y + r.h)

-- A point of the rectangle, if there is one.
abbrev pub InsideOf : ℕ → ℕ → Option Rect → Type 0
InsideOf tx ty none = ⊥
InsideOf tx ty (some r) = Inside tx ty r

in_rect-Inside : (tx ty : ℕ) (r : Rect) → in_rect tx ty r ≡ true → Inside tx ty r
in_rect-Inside tx ty r h = ground arith

-- What is found from the button `k` on.
abbrev Found : ℕ → ℕ → ℕ → List Rect → Option ℕ → Type 0
Found tx ty k rs none = Unit
Found tx ty k rs (some j) = (k ≤ j) × InsideOf tx ty (get_elem? rs (j - k))

later-Found :
    (tx ty k : ℕ) (r : Rect) (rs : List Rect) (o : Option ℕ)
    → Found tx ty (suc k) rs o
    → Found tx ty k (r ∷ rs) o
later-Found tx ty k r rs none v = tt
later-Found tx ty k r rs (some j) v =
    let step : suc (j - suc k) ≡ j - k = omega (arith, v.0) in
    (omega (arith, v.0), subst (λ n. InsideOf tx ty (get_elem? (r ∷ rs) n)) step v.1)

hit_from-Found : (tx ty k : ℕ) (rs : List Rect) → Found tx ty k rs (hit_from tx ty k rs)
unfolding hit_from
hit_from-Found tx ty k [] = tt
hit_from-Found tx ty k (r ∷ rs) =
    if_both (in_rect tx ty r) (Found tx ty k (r ∷ rs))
      (λ e.
        let here : 0 ≡ k - k = omega arith in
        (
          omega arith,
          subst (λ n. InsideOf tx ty (get_elem? (r ∷ rs) n)) here (in_rect-Inside tx ty r e),
        ))
      (λ e. later-Found tx ty k r rs (hit_from tx ty (suc k) rs) (hit_from-Found tx ty (suc k) rs))

hittest_found : (tx ty i : ℕ) → menu_hittest tx ty ≡ some i → InsideOf tx ty (get_elem? btn_rects i)
unfolding menu_hittest
hittest_found tx ty i h =
    let place : i - 0 ≡ i = omega arith in
    let found = subst (Found tx ty 0 btn_rects) h (hit_from-Found tx ty 0 btn_rects) in
    subst (λ n. InsideOf tx ty (get_elem? btn_rects n)) place found.1

hittest_finds : (tx ty i : ℕ) → InsideOf tx ty (get_elem? btn_rects i) → menu_hittest tx ty ≡ some i
unfolding menu_hittest hit_from
hittest_finds tx ty zero v = ground arith
hittest_finds tx ty (suc zero) v = ground arith
hittest_finds tx ty (suc (suc zero)) v = ground arith
hittest_finds tx ty (suc (suc (suc zero))) v = ground arith
hittest_finds tx ty (suc (suc (suc (suc zero)))) v = ground arith
hittest_finds tx ty (suc (suc (suc (suc (suc zero))))) v = ground arith
hittest_finds tx ty (suc (suc (suc (suc (suc (suc zero)))))) v = ground arith
hittest_finds tx ty (suc (suc (suc (suc (suc (suc (suc zero))))))) v = ground arith
hittest_finds tx ty (suc (suc (suc (suc (suc (suc (suc (suc i)))))))) v = absurd v

-- The hit test answers a button exactly when the point lies in the rectangle of that button; so no
-- two buttons share a point.
pub menu_hittest-Inside :
    (tx ty i : ℕ) → (menu_hittest tx ty ≡ some i) ↔ InsideOf tx ty (get_elem? btn_rects i)
menu_hittest-Inside tx ty i = (hittest_found tx ty i, hittest_finds tx ty i)
