-- ===== src/Usb/Tests.antt =====
-- The card and the port on concrete calls.
use cvr_video.Base.{ℕ, refl, List, [], ◌∷◌, true, false, some}
use cvr_video.Base.Int.{pos}
use cvr_video.Base.Text.{codes, starts_with}
use cvr_video.Usb.{
  sd_out, sd_in, sd_err, Port, Host, cvr_usb_ctl, cvr_sd_ctl, share_volume, check_usb_connection,
  sysfs_write, sdcard_mount, mount_card, usb_functions, usb_ctrl, sd_ctrl, cvr_usb_sd_ctl,
}
use cvr_video.Usb.Sharing.{IsExclusive, IsTracked, Call, controls, controls-IsExclusive}
use cvr_video.Usb.Gadget.{cvr_usb_mode_switch}
use cvr_video.Usb.Modes.{Switches, mode_switch-Switches}

abbrev answering : Host
answering = record {
  sd_exist = true;
  mount_result = pos 0;
  unmount_result = pos 0;
  usb_state = some (codes "CONFIGURED");
  usb_functions_text = codes "mass_storage";
}

abbrev mounted : Port
mounted = record {
  sd_mount = sd_in;
  usb_mount_state = false;
  conn_deep = 0;
  disc_deep = 0;
  sdcard_event_call = true;
  usb_event_call = true;
  video_usb = 0;
  actions = sdcard_mount (pos 0) ∷ sysfs_write usb_functions (codes "mass_storage") ∷ [];
}

abbrev shared : Port
shared = record mounted { sd_mount = sd_out; usb_mount_state = true }

abbrev broken : Port
broken = record mounted { sd_mount = sd_err }

abbrev calls : List Call
calls =
    record { host = answering; control = usb_ctrl; state = true }
    ∷ record { host = answering; control = sd_ctrl; state = false }
    ∷ record { host = answering; control = sd_ctrl; state = true }
    ∷ []

mounted-IsTracked : IsTracked mounted
mounted-IsTracked = record { apart = refl; sharing = refl; unmounted = refl; exclusive = refl }

controls-IsExclusive_example : IsExclusive (controls calls mounted)
unfolding cvr_usb_sd_ctl cvr_sd_ctl cvr_usb_ctl share_volume check_usb_connection starts_with
    mount_card
controls-IsExclusive_example = controls-IsExclusive calls mounted refl mounted-IsTracked refl

abbrev request_adb : List (List ℕ)
request_adb =
    codes "change@/devices/port"
    ∷ codes "ACTION=change"
    ∷ codes "DEVPATH=/devices/port"
    ∷ codes "SUBSYSTEM=usb"
    ∷ codes "SET_ADB=1"
    ∷ []

mode_switch-Switches_example :
    Switches mounted (some 1) (cvr_usb_mode_switch true request_adb mounted)
unfolding starts_with
mode_switch-Switches_example = mode_switch-Switches request_adb mounted refl
