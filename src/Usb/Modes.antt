-- ===== src/Usb/Modes.antt =====
-- ueventmonitor/usb_sd_ctrl.c and usb_mode.c: the stored USB mode and the function of the gadget; the
-- gadget events that a sharing announces.
use cvr_video.Base.{
  ℕ, zero, suc, ◌≡◌, refl, List, [], ◌∷◌, Bool, true, false, if◌then◌else◌, Option, none, some,
  arith, Bool-cases, inl, inr,
}
use cvr_video.Base.Text.{codes, starts_with}
use cvr_video.Usb.{Port, Action, usb_event, sysfs_write, usb_functions, cvr_usb_ctl}
use cvr_video.Usb.Gadget.{
  android_usb_config_ums, android_usb_config_adb, android_usb_config_uvc, ui_deinit_uvc,
  ui_init_uvc, cmd_idm_usb, cmd_idm_adb, cmd_idm_uvc, leave_storage, mode_loop, cvr_usb_mode_switch,
  from_fourth, disconnected, connected,
}

-- The function that was written last.
abbrev pub gadget_function : List Action → Option (List ℕ)
gadget_function [] = none
gadget_function (sysfs_write usb_functions f ∷ rest) = some f
gadget_function (a ∷ rest) = gadget_function rest

abbrev pub function_of : ℕ → List ℕ
function_of zero = codes "mass_storage"
function_of (suc zero) = codes "adb"
function_of (suc (suc zero)) = codes "web_camera"
function_of _ = codes "rndis"

-- The gadget has the function of the stored mode.
abbrev pub IsInStep : Port → Type 0
IsInStep p = gadget_function p.actions ≡ some (function_of p.video_usb)

-- What a string of the event asks for, as the number of the mode.
abbrev pub request : List ℕ → Option ℕ
request s =
    if starts_with (codes "SET_UVC") s
    then some 2
    else if starts_with (codes "SET_MSC") s
    then some 0
    else if starts_with (codes "SET_ADB") s
    then some 1
    else none

abbrev pub or_else : Option ℕ → Option ℕ → Option ℕ
or_else none b = b
or_else (some a) b = some a

abbrev pub first_request : List (List ℕ) → Option ℕ
first_request [] = none
first_request (s ∷ rest) = or_else (request s) (first_request rest)

abbrev pub Switches : Port → Option ℕ → Bool × Port → Type 0
Switches p none (done, q) = (done ≡ false) × (q ≡ p)
Switches p (some m) (done, q) = (done ≡ true) × (q.video_usb ≡ m) × IsInStep q

idm_usb_switch : (p : Port) → (IsInStep (cmd_idm_usb true p)) × ((cmd_idm_usb true p).video_usb ≡ 0)
unfolding cmd_idm_usb ui_deinit_uvc android_usb_config_ums
idm_usb_switch p = ground arith

idm_adb_switch : (p : Port) → (IsInStep (cmd_idm_adb true p)) × ((cmd_idm_adb true p).video_usb ≡ 1)
unfolding cmd_idm_adb ui_deinit_uvc android_usb_config_adb
idm_adb_switch p = ground arith

idm_uvc_switch :
    (p : Port) → IsInStep p → (IsInStep (cmd_idm_uvc true p)) × ((cmd_idm_uvc true p).video_usb ≡ 2)
unfolding cmd_idm_uvc ui_init_uvc android_usb_config_uvc
idm_uvc_switch p e = ground arith

leave_storage-IsInStep : (p : Port) → IsInStep p → IsInStep (leave_storage p)
leave_storage-IsInStep p e = ground arith

mode_loop-Switches :
    (strs : List (List ℕ)) (p : Port)
    → IsInStep p
    → Switches p (first_request strs) (mode_loop true strs p)
unfolding mode_loop
mode_loop-Switches [] p e = (refl, refl)
mode_loop-Switches (s ∷ rest) p e = elim (Bool-cases (starts_with (codes "SET_UVC") s)) [
  | inl uvc ↦
      let (step, mode) = idm_uvc_switch (leave_storage p) (leave_storage-IsInStep p e) in
      rw (uvc, mode_loop) (refl, mode, step)
  | inr other ↦
      rw (other, mode_loop)
        (elim (Bool-cases (starts_with (codes "SET_MSC") s)) [
          | inl msc ↦ rw (msc) (refl, (idm_usb_switch p).1, (idm_usb_switch p).0)
          | inr other' ↦ rw (other') (elim (Bool-cases (starts_with (codes "SET_ADB") s)) [
            | inl adb ↦
                rw (adb)
                  (refl, (idm_adb_switch (leave_storage p)).1, (idm_adb_switch (leave_storage p)).0)
            | inr none' ↦ rw none' (mode_loop-Switches rest p e)
          ])
        ])
]

-- Built with the webcam, and with the gadget in the function of the stored mode: a port event obeys
-- its first request from the fourth string on, the mode is stored, and the gadget has the function of
-- that mode. Without a request nothing changes and the answer is false.
pub mode_switch-Switches :
    (strs : List (List ℕ)) (p : Port)
    → IsInStep p
    → Switches p (first_request (from_fourth strs)) (cvr_usb_mode_switch true strs p)
unfolding cvr_usb_mode_switch
mode_switch-Switches strs p e = mode_loop-Switches (from_fourth strs) p e

-- A sharing of a port that is not shared, with no event awaited and a callback registered, is followed
-- by two events: if the connection comes first, both are kept from the user; if the disconnection
-- comes first, both are reported.
pub events_after_share :
    (p : Port)
    → p.usb_mount_state ≡ false
    → p.conn_deep ≡ 0
    → p.disc_deep ≡ 0
    → p.usb_event_call ≡ true
    → let q = cvr_usb_ctl true p in
      (disconnected (connected q) ≡ record q { conn_deep = 0; disc_deep = 0 })
      × (connected (disconnected q) ≡ record q {
        conn_deep = 0;
        disc_deep = 0;
        actions = usb_event true ∷ usb_event false ∷ q.actions;
      })
unfolding cvr_usb_ctl disconnected connected
events_after_share p s c d u = ground arith
