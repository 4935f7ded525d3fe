-- ===== src/Touch/Screen.antt =====
-- Every touch that board/src/touch.c reports lies on the screen.
use hispark_soc_china.Prelude.{
  ℕ, zero, suc, ◌+◌, ◌^◌, subst, ◌<◌, ◌≡◌, refl, Bool, false, not, Option, none, some, List, [],
  ◌∷◌, arith, if_both,
}
use hispark_soc_china.Prelude.Int.{ℤ, pos, negsuc, pos_part, neg_part, sub_ℕ, ltb_ℤ, to_int}
use hispark_soc_china.Touch.Panel.{
  TouchState, AbsInfo, axis_of, touch_open, hold, map_axis, InputEvent, ReadAnswer, event, failure,
  nothing, take_event, touch_of, PollAnswer, poll_touch, poll_nothing, poll_failed, touch_poll,
}

-- A coordinate of a line of `size` pixels.
abbrev pub OnLine : ℕ → ℤ → Type 0
OnLine size (pos n) = n < size
OnLine size (negsuc n) = ⊥

-- A touch on the screen, if there is one.
abbrev pub OnScreen : ℕ → ℕ → PollAnswer → Type 0
OnScreen w h poll_failed = Unit
OnScreen w h poll_nothing = Unit
OnScreen w h (poll_touch e) = OnLine w e.x × OnLine h e.y

hold-OnLine : (v : ℤ) (size : ℕ) → 0 < size → OnLine size (hold v size)
unfolding hold
hold-OnLine (negsuc n) size h = ground arith
hold-OnLine (pos n) size h = ground arith

map_axis-OnLine :
    (raw low range : ℤ) (size : ℕ)
    → 0 < pos_part range
    → 0 < size
    → OnLine size (map_axis raw low range size)
unfolding map_axis
map_axis-OnLine raw low range size r h =
    if_both (ltb_ℤ (pos 0) range) (OnLine size) (λ e. hold-OnLine _ size h)
      (λ e. absurd (ground arith))

-- A state whose axes can be mapped to a screen of this size.
pub record Mapped (w h : ℕ) (s : TouchState) : Type 0 where
  pub width : s.disp_w ≡ w
  pub height : s.disp_h ≡ h
  pub x_range : 0 < pos_part s.axis_x_range
  pub y_range : 0 < pos_part s.axis_y_range

-- What the device says of an axis, if it is more than one value, has a range that fits an `int`.
abbrev pub RangeFits : Option AbsInfo → Type 0
RangeFits none = Unit
RangeFits (some a) =
    pos_part a.maximum + neg_part a.minimum < pos_part a.minimum + neg_part a.maximum + 2 ^ 31

to_int-sub_ℕ : (a b : ℕ) → b < a → a < b + 2 ^ 31 → 0 < pos_part (to_int (sub_ℕ a b))
unfolding to_int
to_int-sub_ℕ a b l f = ground arith

axis_of_range :
    (a : Option AbsInfo) (size : ℕ) → RangeFits a → 1 < size → 0 < pos_part (axis_of a size).1
unfolding axis_of
axis_of_range none size f h = ground arith
axis_of_range (some a) size f h =
    if_both (ltb_ℤ a.minimum a.maximum) (λ (r : ℤ × ℤ). 0 < pos_part r.1)
      (λ e.
        to_int-sub_ℕ (pos_part a.maximum + neg_part a.minimum)
          (neg_part a.maximum + pos_part a.minimum) (ground arith) (omega arith))
      (λ e. ground arith)

abbrev MappedIf : ℕ → ℕ → Option TouchState → Type 0
MappedIf w h none = Unit
MappedIf w h (some s) = Mapped w h s

touch_open-Mapped :
    (opened : Bool) (ax ay : Option AbsInfo) (w h : ℕ)
    → RangeFits ax
    → RangeFits ay
    → 1 < w
    → 1 < h
    → MappedIf w h (touch_open opened ax ay w h)
unfolding touch_open
touch_open-Mapped opened ax ay w h fx fy u v =
    if_both (not opened) (MappedIf w h) (λ e. tt)
      (λ e. record {
        width = refl;
        height = refl;
        x_range = axis_of_range ax w fx u;
        y_range = axis_of_range ay h fy v;
      })

take_event-Mapped :
    (w h : ℕ) (s : TouchState) (e : InputEvent) → Mapped w h s → Mapped w h (take_event s e)
unfolding take_event
take_event-Mapped w h s e v = ground arith

touch_of-OnScreen :
    (w h : ℕ) (s : TouchState)
    → 0 < w
    → 0 < h
    → Mapped w h s
    → OnLine w (touch_of s).x × OnLine h (touch_of s).y
unfolding touch_of
touch_of-OnScreen w h s u t v = (
  subst (λ n. OnLine n (map_axis s.raw_x s.axis_x_min s.axis_x_range s.disp_w)) v.width
      (map_axis-OnLine s.raw_x s.axis_x_min s.axis_x_range s.disp_w v.x_range
        (omega (arith, v.width))),
  subst (λ n. OnLine n (map_axis s.raw_y s.axis_y_min s.axis_y_range s.disp_h)) v.height
      (map_axis-OnLine s.raw_y s.axis_y_min s.axis_y_range s.disp_h v.y_range
        (omega (arith, v.height))),
)

-- What a poll leaves and answers.
abbrev Polled : ℕ → ℕ → TouchState × List ReadAnswer × PollAnswer → Type 0
Polled w h r = Mapped w h r.0 × OnScreen w h r.2

pending_off-Mapped :
    (w h : ℕ) (s : TouchState) → Mapped w h s → Mapped w h (record s { pending = false })
pending_off-Mapped w h s v = ground arith

touch_poll-Polled :
    (w h : ℕ) (s : TouchState) (rs : List ReadAnswer)
    → 0 < w
    → 0 < h
    → Mapped w h s
    → Polled w h (touch_poll s rs)
unfolding touch_poll
touch_poll-Polled w h s [] u t v = (v, tt)
touch_poll-Polled w h s (failure ∷ rs) u t v = (v, tt)
touch_poll-Polled w h s (nothing ∷ rs) u t v = (v, tt)
touch_poll-Polled w h s (event e ∷ rs) u t v =
    let s' = take_event s e in
    let v' = take_event-Mapped w h s e v in
    if_both s'.pending (Polled w h)
      (λ on. (pending_off-Mapped w h s' v', touch_of-OnScreen w h s' u t v'))
      (λ off. touch_poll-Polled w h s' rs u t v')

-- The answers of so many polls, one after the other.
pub polls : ℕ → TouchState → List ReadAnswer → List PollAnswer
polls zero s rs = []
polls (suc n) s rs = let r = touch_poll s rs in r.2 ∷ polls n r.0 r.1

abbrev pub polls_if : ℕ → Option TouchState → List ReadAnswer → List PollAnswer
polls_if n none rs = []
polls_if n (some s) rs = polls n s rs

abbrev pub AllOnScreen : ℕ → ℕ → List PollAnswer → Type 0
AllOnScreen w h [] = Unit
AllOnScreen w h (a ∷ rest) = OnScreen w h a × AllOnScreen w h rest

polls-AllOnScreen :
    (w h n : ℕ) (s : TouchState) (rs : List ReadAnswer)
    → 0 < w
    → 0 < h
    → Mapped w h s
    → AllOnScreen w h (polls n s rs)
unfolding polls
polls-AllOnScreen w h zero s rs u t v = tt
polls-AllOnScreen w h (suc n) s rs u t v =
    let r = touch_poll s rs in
    let polled = touch_poll-Polled w h s rs u t v in
    (polled.1, polls-AllOnScreen w h n r.0 r.1 u t polled.0)

-- On a screen with at least two pixels in each direction, for a device that says nothing of its axes or
-- for each an extent, maximum less minimum, below 2^31: whatever events it sends, each touch that is
-- reported after the device is opened has coordinates on the screen.
pub touch_open-AllOnScreen :
    (opened : Bool) (ax ay : Option AbsInfo) (w h n : ℕ) (rs : List ReadAnswer)
    → RangeFits ax
    → RangeFits ay
    → 1 < w
    → 1 < h
    → AllOnScreen w h (polls_if n (touch_open opened ax ay w h) rs)
touch_open-AllOnScreen opened ax ay w h n rs fx fy u v =
    elim (touch_open opened ax ay w h)
        as (λ o. MappedIf w h o → AllOnScreen w h (polls_if n o rs)) [
          | none ↦ λ m. tt
          | some s ↦ λ m. polls-AllOnScreen w h n s rs (omega arith) (omega arith) m
        ]
      (touch_open-Mapped opened ax ay w h fx fy u v)
