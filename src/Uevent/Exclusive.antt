-- ===== src/Uevent/Exclusive.antt =====
-- ueventmonitor/ueventmonitor.c with usb_sd_ctrl.c: who has the SD card over any history of events,
-- timer signals and calls of the user interface.
use cvr_video.Base.{
  ℕ, ◌≡◌, ◌⊎◌, refl, List, [], ◌∷◌, Bool, true, false, Option, none, some, get_elem?, ◌>>=◌, arith,
  Option-cases, Bool-cases, ◌&&◌, inl, inr,
}
use cvr_video.Base.Text.{codes}
use cvr_video.Usb.{Port, Host, cvr_usb_sd_ctl, sd_ctrl, usb_ctrl, usb_storage_ctrl}
use cvr_video.Usb.Gadget.{
  mode_loop, leave_storage, cvr_usb_mode_switch, cvr_android_usb_ctl, cmd_idm_uvc, cmd_idm_usb,
  cmd_idm_adb, ui_init_uvc, ui_deinit_uvc, android_usb_config_ums, android_usb_config_uvc,
  android_usb_config_adb, disconnected, connected, gadget_event, from_fourth, find_prefixed,
}
use cvr_video.Usb.Sharing.{card_use, IsExclusive, IsTracked, control-IsTracked}
use cvr_video.Uevent.{System, Env, control, skip}
use cvr_video.Uevent.Handlers.{
  Subsystem, power_supply, block, android_usb_port, cvr_uevent, video4linux, display_port,
  platform_device, gpio_detection, unknown, subsystem, dispatch, parse_event, cvr_block_ctl,
  timeout_handle, android_usb, cvr_power_supply_ctl, cvr_device, cvr_video_ctl, cvr_display_ctl,
  platform, cvr_gpios_ctl, cvr_thermal_ctl,
}

-- The card is where it was.
abbrev pub Keeps : Port → Port → Type 0
Keeps p q =
    (q.sd_mount ≡ p.sd_mount)
    × (q.usb_mount_state ≡ p.usb_mount_state)
    × (card_use q.actions ≡ card_use p.actions)

Keeps-IsTracked : (p q : Port) → Keeps p q → IsTracked p → IsTracked q
Keeps-IsTracked p q (s, u, c) v = record {
  apart = rw (s, u) v.apart;
  sharing = rw (u, c) v.sharing;
  unmounted = rw (s, c) v.unmounted;
  exclusive = rw c v.exclusive;
}

idm_uvc-Keeps : (b : Bool) (p : Port) → Keeps p (cmd_idm_uvc b p)
unfolding cmd_idm_uvc ui_init_uvc android_usb_config_uvc
idm_uvc-Keeps b p = ground arith

idm_usb-Keeps : (b : Bool) (p : Port) → Keeps p (cmd_idm_usb b p)
unfolding cmd_idm_usb ui_deinit_uvc android_usb_config_ums
idm_usb-Keeps b p = ground arith

idm_adb-Keeps : (b : Bool) (p : Port) → Keeps p (cmd_idm_adb b p)
unfolding cmd_idm_adb ui_deinit_uvc android_usb_config_adb
idm_adb-Keeps b p = ground arith

mode_loop-Keeps : (b : Bool) (strs : List (List ℕ)) (p : Port) → Keeps p (mode_loop b strs p).1
unfolding mode_loop
mode_loop-Keeps b [] p = (refl, refl, refl)
mode_loop-Keeps b (t ∷ strs) p = ground (
  arith,
  idm_uvc-Keeps b (leave_storage p),
  idm_usb-Keeps b p,
  idm_adb-Keeps b (leave_storage p),
  mode_loop-Keeps b strs p,
)

gadget_event-Keeps : (o : Option (List ℕ)) (p : Port) → Keeps p (gadget_event o p)
unfolding disconnected connected
gadget_event-Keeps none p = (refl, refl, refl)
gadget_event-Keeps (some t) p = ground arith

android_usb_ctl-Keeps :
    (h : Host) (strs : List (List ℕ)) (p : Port) → Keeps p (cvr_android_usb_ctl h strs p)
unfolding cvr_android_usb_ctl android_usb_config_ums
android_usb_ctl-Keeps h strs p = ground (
  arith,
  gadget_event-Keeps (find_prefixed (codes "USB_STATE=") (from_fourth strs)) p,
  gadget_event-Keeps (find_prefixed (codes "USB_STATE=") (from_fourth strs))
      (android_usb_config_ums p),
)

android_usb-Keeps :
    (env : Env) (strs : List (List ℕ)) (s : System) → Keeps s.port (android_usb env strs s).port
unfolding android_usb cvr_usb_mode_switch
android_usb-Keeps env strs s = ground (
  arith,
  mode_loop-Keeps env.use_usb_webcam (from_fourth strs) s.port,
  android_usb_ctl-Keeps env.host strs (mode_loop env.use_usb_webcam (from_fourth strs) s.port).1,
)

device_port : (strs : List (List ℕ)) (s t : System) → cvr_device strs s ≡ some t → t.port ≡ s.port
unfolding cvr_device
device_port strs s t e = ground arith

video_port :
    (env : Env) (strs : List (List ℕ)) (s t : System)
    → cvr_video_ctl env strs s ≡ some t
    → t.port ≡ s.port
unfolding cvr_video_ctl
video_port env strs s t e = ground arith

display_port_same :
    (strs : List (List ℕ)) (s t : System) → cvr_display_ctl strs s ≡ some t → t.port ≡ s.port
unfolding cvr_display_ctl
display_port_same strs s t e = ground arith

thermal_port :
    (env : Env) (strs : List (List ℕ)) (s t : System)
    → cvr_thermal_ctl env strs s ≡ some t
    → t.port ≡ s.port
unfolding cvr_thermal_ctl
thermal_port env strs s t e = ground arith

platform_port :
    (env : Env) (strs : List (List ℕ)) (s t : System)
    → platform env strs s ≡ some t
    → t.port ≡ s.port
unfolding platform
platform_port env strs s t e = ground (arith, thermal_port env strs s t)

gpios_port : (strs : List (List ℕ)) (s t : System) → cvr_gpios_ctl strs s ≡ some t → t.port ≡ s.port
unfolding cvr_gpios_ctl
gpios_port strs s t e = ground arith

power_port : (env : Env) (s : System) → (cvr_power_supply_ctl env s).port ≡ s.port
unfolding cvr_power_supply_ctl
power_port env s = ground arith

-- What a block event can do to the port.
block_port :
    (env : Env) (strs : List (List ℕ)) (s t : System)
    → cvr_block_ctl env strs s ≡ some t
    → (t.port ≡ s.port)
      ⊎ ((t.port ≡ cvr_usb_sd_ctl env.host sd_ctrl false s.port)
          ⊎ ((t.port ≡ cvr_usb_sd_ctl env.host usb_storage_ctrl true s.port)
              ⊎ (t.port ≡ cvr_usb_sd_ctl env.host usb_storage_ctrl false s.port)))
unfolding cvr_block_ctl
block_port env strs s t e = ground (arith, e)

block-IsTracked :
    (env : Env) (strs : List (List ℕ)) (s t : System)
    → IsTracked s.port
    → cvr_block_ctl env strs s ≡ some t
    → IsTracked t.port
block-IsTracked env strs s t v e = elim (block_port env strs s t e) [
  | inl q ↦ rw q v
  | inr (inl q) ↦ rw q (control-IsTracked env.host sd_ctrl false s.port refl v)
  | inr (inr (inl q)) ↦ rw q (control-IsTracked env.host usb_storage_ctrl true s.port refl v)
  | inr (inr (inr q)) ↦ rw q (control-IsTracked env.host usb_storage_ctrl false s.port refl v)
]

same_port-IsTracked : (s t : System) → t.port ≡ s.port → IsTracked s.port → IsTracked t.port
same_port-IsTracked s t e v = rw e v

dispatch-IsTracked :
    (env : Env) (strs : List (List ℕ)) (s t : System) (k : Subsystem)
    → IsTracked s.port
    → dispatch env strs s k ≡ some t
    → IsTracked t.port
unfolding dispatch
dispatch-IsTracked env strs s t power_supply v e =
    same_port-IsTracked s t (ground (arith, e, power_port env s)) v
dispatch-IsTracked env strs s t block v e = block-IsTracked env strs s t v e
dispatch-IsTracked env strs s t android_usb_port v e =
    let q : android_usb env strs s ≡ t = ground (arith, e) in
    rw (← q) (Keeps-IsTracked s.port _ (android_usb-Keeps env strs s) v)
dispatch-IsTracked env strs s t cvr_uevent v e = same_port-IsTracked s t (device_port strs s t e) v
dispatch-IsTracked env strs s t video4linux v e =
    same_port-IsTracked s t (video_port env strs s t e) v
dispatch-IsTracked env strs s t display_port v e =
    same_port-IsTracked s t (display_port_same strs s t e) v
dispatch-IsTracked env strs s t platform_device v e =
    same_port-IsTracked s t (platform_port env strs s t e) v
dispatch-IsTracked env strs s t gpio_detection v e =
    same_port-IsTracked s t (gpios_port strs s t e) v
dispatch-IsTracked env strs s t unknown v e = same_port-IsTracked s t (ground (arith, e)) v

parse_event-IsTracked :
    (env : Env) (strs : List (List ℕ)) (s t : System)
    → IsTracked s.port
    → parse_event env strs s ≡ some t
    → IsTracked t.port
unfolding parse_event
parse_event-IsTracked env [] s t v e = same_port-IsTracked s t (ground (arith, e)) v
parse_event-IsTracked env (a ∷ strs) s t v e =
    elim (Option-cases (get_elem? (a ∷ strs) 2 >>= skip 10)) [
      | inl f ↦ absurd (ground (arith, f))
      | inr (sysfs, f) ↦ dispatch-IsTracked env (a ∷ strs) s t (subsystem sysfs) v (rw f at e)
    ]

-- What can happen: an event of the kernel, the timer's signal while the PC does not have the volume,
-- and a call by which the user interface gives the volume to the PC or takes it back.
pub data Step : System → System → Type 0 where
  event :
      (env : Env) (strs : List (List ℕ)) (s t : System) → parse_event env strs s ≡ some t → Step s t
  signal : (env : Env) (s : System) → s.port.usb_mount_state ≡ false → Step s (timeout_handle env s)
  share : (env : Env) (b : Bool) (s : System) → Step s (control env.host usb_ctrl b s)

pub data Reach (s : System) : System → Type 0 where
  here : Reach s s
  next : {t u : System} → Reach s t → Step t u → Reach s u

timeout-IsTracked :
    (env : Env) (s : System)
    → s.port.usb_mount_state ≡ false
    → IsTracked s.port
    → IsTracked (timeout_handle env s).port
unfolding timeout_handle
timeout-IsTracked env s n v = elim (Bool-cases (s.timer && s.handler)) [
  | inl e ↦ rw e (control-IsTracked env.host sd_ctrl true s.port (ground (arith, n)) v)
  | inr e ↦ rw e v
]

Step-IsTracked : {s t : System} → Step s t → IsTracked s.port → IsTracked t.port
Step-IsTracked (event env strs s t e) v = parse_event-IsTracked env strs s t v e
Step-IsTracked (signal env s n) v = timeout-IsTracked env s n v
Step-IsTracked (share env b s) v = control-IsTracked env.host usb_ctrl b s.port refl v

Reach-IsTracked : {s t : System} → Reach s t → IsTracked s.port → IsTracked t.port
Reach-IsTracked here v = v
Reach-IsTracked (next r st) v = Step-IsTracked st (Reach-IsTracked r v)

-- Over any history of events, of timer signals outside a sharing, and of sharings and their ends, in
-- which fs_manage_sdcard_unmount never fails, the card is never mounted here while the gadget driver
-- has it for the PC: at no point between two actions of a handler is it both. Before the history, the
-- variables say what is the case.
pub Reach-IsExclusive :
    {s t : System}
    → Reach s t
    → IsTracked s.port
    → (card_use t.port.actions).refused ≡ false
    → IsExclusive t.port
Reach-IsExclusive {s} {t} r v n = let v' = Reach-IsTracked r v in ground (arith, v'.exclusive, n)
