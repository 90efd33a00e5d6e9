-- ===== src/Usb/Gadget.antt =====
-- ueventmonitor/usb_sd_ctrl.c: the functions of the USB gadget and the events of its connection.
-- usb_mode.c: the switch between the functions, with the build option USE_USB_WEBCAM as `webcam`.
use cvr_video.Base.{
  ℕ, ◌-◌, List, [], ◌∷◌, Bool, true, false, not, ◌&&◌, ◌==◌, if◌then◌else◌, Option, none, some,
}
use cvr_video.Base.Text.{codes, starts_with, same_text, contains, behind_equals}
use cvr_video.Usb.{
  Port, Host, Action, act, tell_usb, sysfs_write, usb_enable, usb_idvendor, usb_idproduct,
  usb_functions, run_adbd, ifconfig_rndis, uvc_exit, rndis_start, rndis_stop,
}

abbrev pub write_all : List Action → Port → Port
write_all [] p = p
write_all (a ∷ rest) p = write_all rest (act a p)

-- The writes that put one function into the gadget.
abbrev pub configure : List ℕ → List ℕ → Port → Port
configure product function p =
    write_all
      (sysfs_write usb_enable (codes "0")
        ∷ sysfs_write usb_idvendor (codes "2207")
        ∷ sysfs_write usb_idproduct product
        ∷ sysfs_write usb_functions function
        ∷ sysfs_write usb_enable (codes "1")
        ∷ [])
      p

unfoldable pub android_usb_config_ums : Port → Port
android_usb_config_ums p = configure (codes "0000") (codes "mass_storage") p

unfoldable pub android_usb_config_adb : Port → Port
android_usb_config_adb p = configure (codes "0006") (codes "adb") (act run_adbd p)

unfoldable pub android_usb_config_rndis : Port → Port
android_usb_config_rndis p = act ifconfig_rndis (configure (codes "0007") (codes "rndis") p)

unfoldable pub android_usb_config_uvc : Port → Port
android_usb_config_uvc p = configure (codes "0016") (codes "web_camera") p

-- The strings of a uevent from the fourth on, searched for the first with the prefix.
unfoldable pub find_prefixed : List ℕ → List (List ℕ) → Option (List ℕ)
find_prefixed prefix [] = none
find_prefixed prefix (s ∷ rest) = elim (starts_with prefix s) [
  | true ↦ some s
  | false ↦ find_prefixed prefix rest
]

abbrev pub from_fourth : List (List ℕ) → List (List ℕ)
from_fourth (a ∷ b ∷ c ∷ rest) = rest
from_fourth _ = []

unfoldable pub disconnected : Port → Port
disconnected p =
    let p' =
      if p.disc_deep == 1 && p.conn_deep == 1
      then record p { disc_deep = p.disc_deep - 1; conn_deep = p.conn_deep - 1 }
      else p in
    if not (p'.disc_deep == 0)
    then record p' { disc_deep = p'.disc_deep - 1 }
    else tell_usb false p'

unfoldable pub connected : Port → Port
connected p =
    if not (p.conn_deep == 0) then record p { conn_deep = p.conn_deep - 1 } else tell_usb true p

abbrev pub gadget_event : Option (List ℕ) → Port → Port
gadget_event none p = p
gadget_event (some s) p =
    if same_text (behind_equals s) (codes "DISCONNECTED")
    then disconnected p
    else if same_text (behind_equals s) (codes "CONNECTED")
    then connected p
    else p

unfoldable pub cvr_android_usb_ctl : Host → List (List ℕ) → Port → Port
unfolding contains same_text behind_equals find_prefixed starts_with android_usb_config_ums
    disconnected connected
cvr_android_usb_ctl h strs p =
    gadget_event (find_prefixed (codes "USB_STATE=") (from_fourth strs)) (
      if not (contains (codes "mass_storage") h.usb_functions_text)
      then android_usb_config_ums p
      else p)

unfoldable pub ui_deinit_uvc : Bool → Port → Port
ui_deinit_uvc webcam p = if webcam && p.video_usb == 2 then act uvc_exit p else p

unfoldable pub ui_init_uvc : Bool → Port → Port
ui_init_uvc webcam p = if webcam && p.video_usb == 2 then android_usb_config_uvc p else p

unfoldable pub cmd_idm_usb : Bool → Port → Port
cmd_idm_usb webcam p =
    act rndis_stop (android_usb_config_ums (record (ui_deinit_uvc webcam p) { video_usb = 0 }))

unfoldable pub cmd_idm_adb : Bool → Port → Port
cmd_idm_adb webcam p =
    act rndis_stop (android_usb_config_adb (record (ui_deinit_uvc webcam p) { video_usb = 1 }))

unfoldable pub cmd_idm_uvc : Bool → Port → Port
cmd_idm_uvc webcam p =
    if p.video_usb == 2 then p else act rndis_stop (ui_init_uvc webcam (record p { video_usb = 2 }))

unfoldable pub cmd_idm_rndis : Bool → Port → Port
cmd_idm_rndis webcam p =
    act rndis_start (android_usb_config_rndis (record (ui_deinit_uvc webcam p) { video_usb = 3 }))

abbrev pub leave_storage : Port → Port
leave_storage p = if p.video_usb == 0 then tell_usb false p else p

unfoldable pub mode_loop : Bool → List (List ℕ) → Port → Bool × Port
mode_loop webcam [] p = (false, p)
mode_loop webcam (s ∷ rest) p = elim (starts_with (codes "SET_UVC") s) [
  | true ↦ (true, cmd_idm_uvc webcam (leave_storage p))
  | false ↦ elim (starts_with (codes "SET_MSC") s) [
    | true ↦ (true, cmd_idm_usb webcam p)
    | false ↦ elim (starts_with (codes "SET_ADB") s) [
      | true ↦ (true, cmd_idm_adb webcam (leave_storage p))
      | false ↦ mode_loop webcam rest p
    ]
  ]
]

unfoldable pub cvr_usb_mode_switch : Bool → List (List ℕ) → Port → Bool × Port
cvr_usb_mode_switch webcam strs p = mode_loop webcam (from_fourth strs) p
