-- ===== src/Drivers/Display.antt =====
-- board/src/display.c: VO and HDMI. A call of the vendor's library is an answer, `true` for success.
use hispark_soc_china.Prelude.{Bool, true, false, not, ◌&&◌, List, [], ◌∷◌, ◌++◌, if◌then◌else◌}
use hispark_soc_china.Drivers.Journal.{
  vo_device, vo_layer, vo_channel, hdmi_library, hdmi_device, hdmi_output, vb_block, vb_mapping,
  Entry, up, down,
}

-- The answers to `display_start_vo`, in the order of its calls, with those of its failure paths.
pub record VoAnswers : Type 0 where
  pub set_pub_attr : Bool
  pub set_user_sync_info : Bool
  pub set_dev_frame_rate : Bool
  pub enable : Bool
  pub set_video_layer_attr : Bool
  pub enable_video_layer : Bool
  pub set_chn_attr : Bool
  pub enable_chn : Bool
  pub disable_video_layer : Bool
  pub disable : Bool

-- The journal, and whether the answer is 0.
unfoldable pub display_start_vo : VoAnswers → List Entry × Bool
display_start_vo a =
    if a.set_pub_attr && (a.set_user_sync_info && (a.set_dev_frame_rate && a.enable))
    then if a.set_video_layer_attr && a.enable_video_layer
      then if a.set_chn_attr && a.enable_chn
        then (up vo_device ∷ up vo_layer ∷ up vo_channel ∷ [], true)
        else (
          up vo_device
              ∷ up vo_layer
              ∷ down vo_layer a.disable_video_layer
              ∷ down vo_device a.disable
              ∷ [],
          false,
        )
      else (up vo_device ∷ down vo_device a.disable ∷ [], false)
    else ([], false)

pub record HdmiAnswers : Type 0 where
  pub init : Bool
  pub open_device : Bool
  pub get_hdmi_param : Bool
  pub set_hdmi_param : Bool
  pub get_attr : Bool
  pub set_attr : Bool
  pub close : Bool
  pub deinit : Bool

unfoldable pub display_config_hdmi : HdmiAnswers → List Entry × Bool
display_config_hdmi a =
    if a.init
    then if a.open_device
      then if a.get_hdmi_param && (a.set_hdmi_param && (a.get_attr && a.set_attr))
        then (up hdmi_library ∷ up hdmi_device ∷ [], true)
        else (
          up hdmi_library
              ∷ up hdmi_device
              ∷ down hdmi_device a.close
              ∷ down hdmi_library a.deinit
              ∷ [],
          false,
        )
      else (up hdmi_library ∷ down hdmi_library a.deinit ∷ [], false)
    else ([], false)

-- The block of the pool, its address and its mapping, and the frame that is sent.
pub record BlackAnswers : Type 0 where
  pub get_blk : Bool
  pub phys_addr : Bool
  pub mmap : Bool
  pub send_frame : Bool
  pub munmap : Bool
  pub release_blk : Bool

unfoldable pub display_show_black : BlackAnswers → List Entry × Bool
display_show_black a =
    if a.get_blk
    then if a.phys_addr && a.mmap
      then (
        up vb_block ∷ up vb_mapping ∷ down vb_mapping a.munmap ∷ down vb_block a.release_blk ∷ [],
        a.send_frame,
      )
      else if a.mmap
      then (up vb_block ∷ up vb_mapping ∷ down vb_block a.release_blk ∷ [], false)
      else (up vb_block ∷ down vb_block a.release_blk ∷ [], false)
    else ([], false)

-- The answers when the VO is taken down, and those when HDMI is. A failure is logged and passed over.
pub record VoEnd : Type 0 where
  pub disable_chn : Bool
  pub disable_video_layer : Bool
  pub disable : Bool

pub record HdmiEnd : Type 0 where
  pub close : Bool
  pub deinit : Bool

pub record DisplayAnswers : Type 0 where
  pub vo : VoAnswers
  pub hdmi : HdmiAnswers
  pub black : BlackAnswers
  pub hdmi_start : Bool
  pub hdmi_end : HdmiEnd
  pub vo_end : VoEnd

abbrev pub fail_vo : VoEnd → List Entry
fail_vo e =
    down vo_channel e.disable_chn
    ∷ down vo_layer e.disable_video_layer
    ∷ down vo_device e.disable
    ∷ []

abbrev pub end_hdmi : HdmiEnd → List Entry → List Entry
end_hdmi e j = down hdmi_device e.close ∷ down hdmi_library e.deinit ∷ j

-- The journal, and `g_display_inited`.
unfoldable pub start_output : DisplayAnswers → List Entry × Bool
unfolding display_show_black
start_output a =
    let black = (display_show_black a.black).0 in
    if a.hdmi_start
    then (black ++ (up hdmi_output ∷ []), true)
    else (black ++ end_hdmi a.hdmi_end (fail_vo a.vo_end), false)

unfoldable pub after_vo : DisplayAnswers → List Entry × Bool
unfolding display_config_hdmi start_output
after_vo a =
    let hdmi = display_config_hdmi a.hdmi in
    if hdmi.1
    then (hdmi.0 ++ (start_output a).0, (start_output a).1)
    else (hdmi.0 ++ fail_vo a.vo_end, false)

unfoldable pub fresh_display : DisplayAnswers → List Entry × Bool
unfolding display_start_vo after_vo
fresh_display a =
    let vo = display_start_vo a.vo in
    if vo.1 then (vo.0 ++ (after_vo a).0, (after_vo a).1) else (vo.0, false)

-- The journal, `g_display_inited` afterwards, and whether the answer is 0. What `display_clear_residual`
-- ends was left by another run of the program.
unfoldable pub display_init : Bool → DisplayAnswers → List Entry × Bool × Bool
unfolding fresh_display
display_init inited a =
    if inited
    then ([], true, true)
    else ((fresh_display a).0, (fresh_display a).1, (fresh_display a).1)

-- Whether the answer is 0; a frame that is NULL is `false`.
unfoldable pub display_send_frame : Bool → Bool → Bool → Bool
display_send_frame inited frame sent = inited && (frame && sent)

pub record DisplayEnd : Type 0 where
  pub hdmi_stop : Bool
  pub hdmi : HdmiEnd
  pub vo : VoEnd

-- The flag is cleared whatever fails, and the answer is always 0.
unfoldable pub display_deinit : Bool → DisplayEnd → List Entry × Bool
display_deinit inited e =
    if not inited
    then ([], false)
    else (down hdmi_output e.hdmi_stop ∷ end_hdmi e.hdmi (fail_vo e.vo), false)

-- The calls of the driver, one after the other.
pub data DisplayOp : Type 0 where
  init : DisplayAnswers → DisplayOp
  deinit : DisplayEnd → DisplayOp

unfoldable pub display_step : Bool → DisplayOp → List Entry × Bool
unfolding display_init display_deinit
display_step inited (init a) = ((display_init inited a).0, (display_init inited a).1)
display_step inited (deinit e) = display_deinit inited e

unfoldable pub display_run : Bool → List DisplayOp → List Entry × Bool
unfolding display_step
display_run inited [] = ([], inited)
display_run inited (op ∷ ops) =
    let s = display_step inited op in let later = display_run s.1 ops in (s.0 ++ later.0, later.1)
