-- ===== src/Touch/Panel.antt =====
-- board/src/touch.c: the events of the input device become touches in the coordinates of the screen.
use hispark_soc_china.Prelude.{
  ℕ, suc, ◌*◌, ◌/◌, Bool, true, false, not, Option, none, some, List, [], ◌∷◌, ltb, ◌==◌,
  if◌then◌else◌,
}
use hispark_soc_china.Prelude.Int.{ℤ, pos, negsuc, pos_part, sub_ℕ, ◌-ℤ◌, ltb_ℤ, to_int}

-- `touch_state_t`
pub record TouchState : Type 0 where
  pub disp_w : ℕ
  pub disp_h : ℕ
  pub axis_x_min : ℤ
  pub axis_x_range : ℤ
  pub axis_y_min : ℤ
  pub axis_y_range : ℤ
  pub raw_x : ℤ
  pub raw_y : ℤ
  pub pressed : Bool
  pub pending : Bool

-- `input_absinfo`: what `ioctl` answers for an axis, `none` if it fails.
pub record AbsInfo : Type 0 where
  pub minimum : ℤ
  pub maximum : ℤ

-- The least value of an axis and its range. The difference is an `int`, which a wide axis wraps.
unfoldable pub axis_of : Option AbsInfo → ℕ → ℤ × ℤ
axis_of none size = (pos 0, sub_ℕ size 1)
axis_of (some a) size =
    if ltb_ℤ a.minimum a.maximum
    then (a.minimum, to_int (a.maximum -ℤ a.minimum))
    else (pos 0, sub_ℕ size 1)

-- `none` is -1, when the device does not open; the file descriptor is not kept.
unfoldable pub touch_open : Bool → Option AbsInfo → Option AbsInfo → ℕ → ℕ → Option TouchState
unfolding axis_of
touch_open opened ax ay display_w display_h =
    let x = axis_of ax display_w in
    let y = axis_of ay display_h in
    if not opened
    then none
    else some (record {
      disp_w = display_w;
      disp_h = display_h;
      axis_x_min = x.0;
      axis_x_range = x.1;
      axis_y_min = y.0;
      axis_y_range = y.1;
      raw_x = pos (display_w / 2);
      raw_y = pos (display_h / 2);
      pressed = false;
      pending = false;
    })

-- The quotient of the product, which a `long` holds, towards 0.
unfoldable pub scaled : ℤ → ℕ → ℕ → ℤ
scaled (pos n) range size = pos (n * size / range)
scaled (negsuc n) range size = sub_ℕ 0 (suc n * size / range)

-- Held between 0 and the last pixel.
unfoldable pub hold : ℤ → ℕ → ℤ
hold (negsuc n) size = if ltb 0 size then pos 0 else sub_ℕ size 1
hold (pos n) size = if ltb n size then pos n else sub_ℕ size 1

-- The difference, and the quotient as well, are put into an `int`.
unfoldable pub map_axis : ℤ → ℤ → ℤ → ℕ → ℤ
unfolding scaled hold
map_axis raw raw_min raw_range screen_size =
    if ltb_ℤ (pos 0) raw_range
    then hold (to_int (scaled (to_int (raw -ℤ raw_min)) (pos_part raw_range) screen_size))
        screen_size
    else raw

-- The input events that are told apart: an absolute position, a key, SYN_REPORT, and all others.
pub data InputEvent : Type 0 where
  abs_x abs_y key_touch : ℤ → InputEvent
  syn_report other_event : InputEvent

-- What `read` answers: an event, an error but EAGAIN, or nothing.
pub data ReadAnswer : Type 0 where
  event : InputEvent → ReadAnswer
  failure nothing : ReadAnswer

-- `touch_event_t`
pub record TouchEvent : Type 0 where
  pub x : ℤ
  pub y : ℤ
  pub pressed : Bool

abbrev is_zero : ℤ → Bool
is_zero (pos n) = n == 0
is_zero (negsuc n) = false

unfoldable pub take_event : TouchState → InputEvent → TouchState
take_event s (abs_x v) = record s { raw_x = v }
take_event s (abs_y v) = record s { raw_y = v }
take_event s (key_touch v) = record s { pressed = not (is_zero v) }
take_event s syn_report = record s { pending = true }
take_event s other_event = s

unfoldable pub touch_of : TouchState → TouchEvent
unfolding map_axis
touch_of s = record {
  x = map_axis s.raw_x s.axis_x_min s.axis_x_range s.disp_w;
  y = map_axis s.raw_y s.axis_y_min s.axis_y_range s.disp_h;
  pressed = s.pressed;
}

-- The answer of `touch_poll`: -1, 0, or 1 with a touch.
pub data PollAnswer : Type 0 where
  poll_failed poll_nothing : PollAnswer
  poll_touch : TouchEvent → PollAnswer

-- The state, the answers of `read` not used, and the answer. After the list there is nothing.
unfoldable pub touch_poll : TouchState → List ReadAnswer → TouchState × List ReadAnswer × PollAnswer
unfolding take_event touch_of
touch_poll s [] = (s, [], poll_nothing)
touch_poll s (failure ∷ rs) = (s, rs, poll_failed)
touch_poll s (nothing ∷ rs) = (s, rs, poll_nothing)
touch_poll s (event e ∷ rs) =
    let s' = take_event s e in
    let later = touch_poll s' rs in
    if s'.pending then (record s' { pending = false }, rs, poll_touch (touch_of s')) else later
