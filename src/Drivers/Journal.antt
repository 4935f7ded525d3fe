-- ===== src/Drivers/Journal.antt =====
-- What the drivers bring up, and the calls to take it down, as a journal.
use hispark_soc_china.Prelude.{
  ℕ, ◌≡◌, refl, ap, ◌∙◌, Bool, true, false, Option, none, some, List, [], ◌∷◌, ◌++◌, ◌==◌,
  if◌then◌else◌, arith,
}

-- The parts of the system that a driver starts with one call and ends with another.
pub data Part : Type 0 where
  vo_device vo_layer vo_channel hdmi_library hdmi_device hdmi_output : Part
  vb_block vb_mapping : Part
  vi_pipe vpss_group : Part
  pack_memory unit_memory venc_channel venc_receiving rtsp_server drain_thread : Part
  vi_vpss_binding sys_vb touch_device colour_model ctbg_model : Part
  control_thread stream_thread socket_thread : Part

abbrev part_number : Part → ℕ
part_number vo_device = 0
part_number vo_layer = 1
part_number vo_channel = 2
part_number hdmi_library = 3
part_number hdmi_device = 4
part_number hdmi_output = 5
part_number vb_block = 6
part_number vb_mapping = 7
part_number vi_pipe = 8
part_number vpss_group = 9
part_number pack_memory = 10
part_number unit_memory = 11
part_number venc_channel = 12
part_number venc_receiving = 13
part_number rtsp_server = 14
part_number drain_thread = 15
part_number vi_vpss_binding = 16
part_number sys_vb = 17
part_number touch_device = 18
part_number colour_model = 19
part_number control_thread = 20
part_number stream_thread = 21
part_number socket_thread = 22
part_number ctbg_model = 23

-- A call that brought a part up, and a call to take one down with its answer, `true` for success.
pub data Entry : Type 0 where
  up : Part → Entry
  down : Part → Bool → Entry

-- A call to take a part down that answers nothing.
abbrev pub gone : Part → Entry
gone p = down p true

-- The parts that no call has been made to take down, the last one first, when those of the list stood
-- before and the journal has been gone through; `none` if such a call is made for another part than
-- the first of them.
unfoldable pub standing : List Part → List Entry → Option (List Part)
standing st [] = some st
standing st (up p ∷ j) = standing (p ∷ st) j
standing [] (down p ok ∷ j) = none
standing (q ∷ st) (down p ok ∷ j) =
    let rest = standing st j in if part_number p == part_number q then rest else none

abbrev pub standing_on : Option (List Part) → List Entry → Option (List Part)
standing_on none k = none
standing_on (some st) k = standing st k

pub standing-append :
    (j k : List Entry) (st : List Part) → standing st (j ++ k) ≡ standing_on (standing st j) k
unfolding standing
standing-append [] k st = refl
standing-append (up p ∷ j) k st = standing-append j k (p ∷ st)
standing-append (down p ok ∷ j) k [] = refl
standing-append (down p ok ∷ j) k (q ∷ st) = ground (arith, standing-append j k st)

pub standing_then :
    (j k : List Entry) (st st' : List Part)
    → standing st j ≡ some st'
    → standing st (j ++ k) ≡ standing st' k
standing_then j k st st' h = standing-append j k st ∙ ap (λ o. standing_on o k) h

-- What is left of a part when the call to take it down has been made, beside what comes later.
abbrev pub left_if : Bool → Part → Option (List Part × List Part) → Option (List Part × List Part)
left_if ok p none = none
left_if true p (some r) = some r
left_if false p (some r) = some (r.0, p ∷ r.1)

-- What really stands behind the journal: the parts that no call has been made to take down, and those
-- for which the call was made and failed; `none` as for `standing`.
unfoldable pub outcome : List Part → List Entry → Option (List Part × List Part)
outcome st [] = some (st, [])
outcome st (up p ∷ j) = outcome (p ∷ st) j
outcome [] (down p ok ∷ j) = none
outcome (q ∷ st) (down p ok ∷ j) =
    let rest = outcome st j in if part_number p == part_number q then left_if ok p rest else none

-- The parts whose calls to take them down failed, in the order of the calls.
unfoldable pub refused : List Entry → List Part
refused [] = []
refused (up p ∷ j) = refused j
refused (down p ok ∷ j) = let rest = refused j in if ok then rest else p ∷ rest

down_outcome :
    (same_part ok : Bool) (p : Part) (x : Option (List Part)) (y : Option (List Part × List Part))
    (st left : List Part)
    → (if same_part then x else none) ≡ some st
    → (x ≡ some st → y ≡ some (st, left))
    → (if same_part then left_if ok p y else none) ≡ some (st, if ok then left else p ∷ left)
down_outcome false ok p x y st left h k = ground arith
down_outcome true true p x y st left h k = ap (left_if true p) (k h)
down_outcome true false p x y st left h k = ap (left_if false p) (k h)

pub outcome-standing :
    (j : List Entry) (st st' : List Part)
    → standing st j ≡ some st'
    → outcome st j ≡ some (st', refused j)
unfolding outcome standing refused
outcome-standing [] st st' h = ground arith
outcome-standing (up p ∷ j) st st' h = outcome-standing j (p ∷ st) st' h
outcome-standing (down p ok ∷ j) [] st' h = ground arith
outcome-standing (down p ok ∷ j) (q ∷ st) st' h =
    down_outcome (part_number p == part_number q) ok p (standing st j) (outcome st j) st'
      (refused j) h (outcome-standing j st st')

-- The entry, if the flag is set.
abbrev pub entry_if : Bool → Entry → List Entry
entry_if false e = []
entry_if true e = e ∷ []

-- The part, if the flag is set.
abbrev pub part_if : Bool → Part → List Part → List Part
part_if false p st = st
part_if true p st = p ∷ st
