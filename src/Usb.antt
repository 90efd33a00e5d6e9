-- ===== src/Usb.antt =====
-- ueventmonitor/usb_sd_ctrl.c and usb_mode.c: who has the SD card (this device, or a PC over USB), and
-- which function the USB port has. This file has the state and the operations on card and port.
-- The registered callbacks only report: they do not change the state of these files.
pub mod Gadget
pub mod Sharing
pub mod Modes
mod Tests
use cvr_video.Base.{
  ℕ, suc, ◌+◌, ◌-◌, List, [], ◌∷◌, Bool, true, false, not, ◌&&◌, ◌||◌, ◌==◌, if◌then◌else◌, Option,
  none, some,
}
use cvr_video.Base.Int.{ℤ, pos, negsuc, eq_ℤ, ltb_ℤ}
use cvr_video.Base.Text.{codes, starts_with}

-- `enum sd_state_type`
pub data SdState : Type 0 where
  sd_out sd_in sd_err sd_formating : SdState

-- The files of the USB gadget driver that are written.
pub data SysfsFile : Type 0 where
  usb_enable usb_idvendor usb_idproduct usb_functions ums_lun0 : SysfsFile

-- What is done to the rest of the system, with the answers of the file manager: what
-- fs_manage_sdcard_mount and fs_manage_sdcard_unmount returned, and that there is no card.
pub data Action : Type 0 where
  sd_change : Bool → Action
  sd_mount_fail : Action
  usb_event : Bool → Action
  sdcard_mount sdcard_unmount : ℤ → Action
  no_sdcard : Action
  sysfs_write : SysfsFile → List ℕ → Action
  udisk_mount udisk_unmount : Action
  run_adbd ifconfig_rndis uvc_exit rndis_start rndis_stop : Action

-- The static variables, whether the two callbacks are registered, the USB mode of parameter.c, and
-- the actions, the newest first.
pub record Port : Type 0 where
  pub sd_mount : SdState
  pub usb_mount_state : Bool
  pub conn_deep : ℕ
  pub disc_deep : ℕ
  pub sdcard_event_call : Bool
  pub usb_event_call : Bool
  pub video_usb : ℕ
  pub actions : List Action

-- What the file manager and the kernel answer during one call.
pub record Host : Type 0 where
  pub sd_exist : Bool
  pub mount_result : ℤ
  pub unmount_result : ℤ
  pub usb_state : Option (List ℕ)
  pub usb_functions_text : List ℕ

abbrev pub act : Action → Port → Port
act a p = record p { actions = a ∷ p.actions }

abbrev pub is_out : SdState → Bool
is_out sd_out = true
is_out _ = false

abbrev pub is_err : SdState → Bool
is_err sd_err = true
is_err _ = false

abbrev pub tell_sd : Action → Port → Port
tell_sd a p = if p.sdcard_event_call then act a p else p

abbrev pub tell_usb : Bool → Port → Port
tell_usb b p = if p.usb_event_call then act (usb_event b) p else p

abbrev pub set_sd : SdState → Port → Port
set_sd s p = record p { sd_mount = s }

unfoldable pub mount_card : Host → Port → Port
mount_card h p0 =
    let p = act (sdcard_mount h.mount_result) p0 in
    if eq_ℤ h.mount_result (negsuc 0)
    then tell_sd sd_mount_fail (set_sd sd_err p)
    else if eq_ℤ h.mount_result (pos 0)
    then tell_sd (sd_change true) (set_sd sd_in p)
    else if eq_ℤ h.mount_result (negsuc 2)
    then set_sd sd_in p
    else set_sd sd_err p

unfoldable pub cvr_sd_ctl : Host → Bool → Port → Port
unfolding mount_card
cvr_sd_ctl h mount p =
    if not h.sd_exist
    then tell_sd (sd_change false) (set_sd sd_out (act no_sdcard p))
    else if mount
    then if is_out p.sd_mount then mount_card h p else p
    else if not (is_out p.sd_mount)
    then act (sdcard_unmount h.unmount_result) (tell_sd (sd_change false) (set_sd sd_out p))
    else p

unfoldable pub cvr_usb_storage_ctl : Bool → Port → Port
cvr_usb_storage_ctl status p = if status then act udisk_mount p else act udisk_unmount p

abbrev pub ums_share_volume : List ℕ
ums_share_volume = codes "/dev/mmcblk0p1"

unfoldable pub share_volume : List ℕ → Bool → Port → Port
share_volume path share p =
    if share
    then record (act (sysfs_write ums_lun0 path) p) {
      disc_deep = p.disc_deep + 1;
      conn_deep = p.conn_deep + 1;
      usb_mount_state = true;
    }
    else record (act (sysfs_write ums_lun0 []) p) { usb_mount_state = false }

-- True if the PC is connected, or if the state cannot be read.
unfoldable pub check_usb_connection : Host → Bool
unfolding starts_with
check_usb_connection h = elim h.usb_state [
  | none ↦ true
  | some text ↦ not (starts_with (codes "DISCONNECTED") text)
]

abbrev pub xor : Bool → Bool → Bool
xor true b = not b
xor false b = b

unfoldable pub cvr_usb_ctl : Bool → Port → Port
unfolding share_volume
cvr_usb_ctl state p =
    if xor state p.usb_mount_state then share_volume ums_share_volume state p else p

-- `enum usb_sd_type`
pub data Control : Type 0 where
  sd_ctrl usb_ctrl usb_storage_ctrl : Control

unfoldable pub cvr_usb_sd_ctl : Host → Control → Bool → Port → Port
cvr_usb_sd_ctl h usb_ctrl true p =
    cvr_usb_ctl true (if not (is_out p.sd_mount) then cvr_sd_ctl h false p else p)
cvr_usb_sd_ctl h usb_ctrl false p =
    let p' = cvr_usb_ctl false p in if is_out p'.sd_mount then cvr_sd_ctl h true p' else p'
cvr_usb_sd_ctl h sd_ctrl true p =
    if is_out p.sd_mount || is_err p.sd_mount then cvr_sd_ctl h true p else p
cvr_usb_sd_ctl h sd_ctrl false p =
    let p' = if check_usb_connection h then cvr_usb_ctl false p else p in
    if not (is_out p'.sd_mount) then cvr_sd_ctl h false p' else p'
cvr_usb_sd_ctl h usb_storage_ctrl b p = cvr_usb_storage_ctl b p
