-- ===== src/Uevent/Handlers.antt =====
-- ueventmonitor/ueventmonitor.c: the handlers of the subsystems, the dispatch of an event, the signal
-- of the card's timer, and what the monitor does at start.
use cvr_video.Base.{
  take, ℕ, ◌+◌, ◌-◌, List, [], ◌∷◌, Bool, true, false, not, ◌&&◌, ◌||◌, ◌==◌, ltb, leb,
  if◌then◌else◌, Option, none, some, get_elem?, length, ◌>>=◌,
}
use cvr_video.Base.Int.{ℤ, pos, eq_ℤ}
use cvr_video.Base.Text.{codes, starts_with, same_text, contains}
use cvr_video.Thermal.Levels.{thermal_update_state}
use cvr_video.Usb.{sd_ctrl, usb_storage_ctrl, cvr_sd_ctl}
use cvr_video.Usb.Gadget.{
  find_prefixed, from_fourth, cvr_android_usb_ctl, cvr_usb_mode_switch, android_usb_config_ums,
  android_usb_config_adb, android_usb_config_rndis,
}
use cvr_video.Uevent.{
  batt_event, hdmi_event, cvbsout_event, camera_event, fs_manage_set_device, System, Env, report,
  report_if, gpio_report, control, skip, after_last_slash, value_of, find_text, action,
}

abbrev pub number_or : ℤ → Option ℤ → ℤ
number_or d none = d
number_or d (some n) = n

unfoldable pub charging_status_check : Env → Bool
charging_status_check env =
    not (eq_ℤ (number_or (pos 0) env.ac_online) (pos 0))
    || not (eq_ℤ (number_or (pos 0) env.usb_online) (pos 0))

unfoldable pub battery_capability_get : Env → ℤ
battery_capability_get env = number_or (pos 100) env.capacity

unfoldable pub cvr_power_supply_ctl : Env → System → System
cvr_power_supply_ctl env s =
    if charging_status_check env
    then report_if s.batt_event_call (batt_event (pos 101)) (record s { vbus_last_status = 1 })
    else report_if s.batt_event_call (batt_event (battery_capability_get env)) s

-- DEVICENAME_LEN
abbrev pub devicename_len : ℕ
devicename_len = 64

-- The event of a card that comes: the timer starts anew, and the name is kept for its signal.
abbrev pub card_added : List ℕ → System → System
card_added name s = record s {
  handler = if s.event_flag == 0 then true else s.handler;
  timer = true;
  event_flag = s.event_flag + 1;
  device_name = name;
}

abbrev pub block_device : Env → List (List ℕ) → List ℕ → System → Option System
block_device env strs name s =
    if contains (codes "mmcblk0") name
    then (action strs >>= λ act.
        if same_text act (codes "add")
        then (if ltb (length name) devicename_len then some (card_added name s) else none)
        else some (control env.host sd_ctrl false s))
    else if contains (codes "sda1") name
    then (action strs >>= λ act.
        some (control env.host usb_storage_ctrl (same_text act (codes "add")) s))
    else some s

abbrev pub block_path : Env → List (List ℕ) → Option (List ℕ) → System → Option System
block_path env strs none s = some s
block_path env strs (some name) s = block_device env strs name s

unfoldable pub cvr_block_ctl : Env → List (List ℕ) → System → Option System
cvr_block_ctl env strs s =
    get_elem? strs 1 >>= λ path. block_path env strs (after_last_slash path) s

-- The number behind "video", with the action.
abbrev pub camera : List (List ℕ) → Option ℤ → System → Option System
camera strs none s = some s
camera strs (some id) s = action strs >>= λ act.
    some (report_if s.camera_event_call (camera_event id (same_text act (codes "add"))) s)

abbrev pub video_device : Env → List (List ℕ) → Option (List ℕ) → System → Option System
video_device env strs none s = some s
video_device env strs (some line) s =
    value_of line >>= λ name. skip 5 name >>= λ digits. camera strs (env.scan_int digits) s

unfoldable pub cvr_video_ctl : Env → List (List ℕ) → System → Option System
cvr_video_ctl env strs s =
    video_device env strs (find_prefixed (codes "DEVNAME=") (from_fourth strs)) s

-- strncmp(tmp, "HDMI", strlen(tmp)) compares no more than the value has.
abbrev pub display : List (List ℕ) → List ℕ → System → Option System
display strs value s =
    if starts_with value (codes "HDMI")
    then (action strs >>= λ act. some (
        report_if s.hdmi_event_call
          (hdmi_event (same_text act (codes "add") || same_text act (codes "change"))) s))
    else if starts_with value (codes "CVBSOUT")
    then (action strs >>= λ act.
        some (report_if s.cvbsout_event_call (cvbsout_event (same_text act (codes "add"))) s))
    else some s

abbrev pub display_line : List (List ℕ) → Option (List ℕ) → System → Option System
display_line strs none s = some s
display_line strs (some line) s = value_of line >>= λ value. display strs value s

unfoldable pub cvr_display_ctl : List (List ℕ) → System → Option System
cvr_display_ctl strs s = display_line strs (find_prefixed (codes "INTERFACE=") (from_fourth strs)) s

unfoldable pub cvr_thermal_ctl : Env → List (List ℕ) → System → Option System
cvr_thermal_ctl env strs s = action strs >>= λ act.
    if same_text act (codes "change")
    then (thermal_update_state env.world s.governor >>= λ g. some (record s { governor = g }))
    else some s

-- The name, cut at the character before the status; a status at its very start cuts the text before.
abbrev pub gpio_name : List ℕ → List ℕ → List ℕ
gpio_name name stat =
    if length stat == length name then name else take (length name - length stat - 1) name

abbrev pub gpio_status : List ℕ → Option (List ℕ) → System → Option System
gpio_status name none s = some s
gpio_status name (some stat) s = skip 11 stat >>= λ word.
    if same_text word (codes "on")
    then gpio_report (gpio_name name stat) true s
    else if same_text word (codes "over")
    then gpio_report (gpio_name name stat) false s
    else some s

abbrev pub gpio_line : Option (List ℕ) → System → Option System
gpio_line none s = some s
gpio_line (some line) s =
    skip 10 line >>= λ name. gpio_status name (find_text (codes "GPIO_STATE=") name) s

unfoldable pub cvr_gpios_ctl : List (List ℕ) → System → Option System
cvr_gpios_ctl strs s =
    if ltb (length strs) 4
    then some s
    else get_elem? strs 3 >>= λ line. gpio_line (find_text (codes "GPIO_NAME=") line) s

unfoldable pub cvr_check_reverse_system : Env → System → Option System
cvr_check_reverse_system env s =
    if env.vehicle_opens then some s else gpio_report (codes "vehicle_exit") false s

unfoldable pub android_usb : Env → List (List ℕ) → System → System
android_usb env strs s =
    if env.gdb_usb_debug
    then s
    else let (done, p) = cvr_usb_mode_switch env.use_usb_webcam strs s.port in
      if done
      then record s { port = p }
      else record s { port = if p.video_usb == 0 then cvr_android_usb_ctl env.host strs p else p }

unfoldable pub cvr_device : List (List ℕ) → System → Option System
cvr_device strs s = get_elem? strs 3 >>= λ line. value_of line >>= λ name. some (
    if same_text name (codes "gsensor")
    then record s { collision_state = s.collision_state + 1 }
    else s)

abbrev pub vehicle : List (List ℕ) → List ℕ → System → Option System
vehicle strs line s =
    if leb 5 (length strs) && same_text line (codes "vehicle_exit=done")
    then (get_elem? strs 4 >>= λ word.
        gpio_report (codes "vehicle_exit") (same_text word (codes "reverse_on")) s)
    else some s

unfoldable pub platform : Env → List (List ℕ) → System → Option System
platform env strs s = get_elem? strs 3 >>= λ line. skip 7 line >>= λ driver.
    if same_text driver (codes "tsadc") then cvr_thermal_ctl env strs s else vehicle strs line s

-- The subsystems that the dispatch knows, in the order of its tests.
pub data Subsystem : Type 0 where
  power_supply block android_usb_port cvr_uevent video4linux display_port platform_device
        gpio_detection :
      Subsystem
  unknown : Subsystem

unfoldable pub subsystem : List ℕ → Subsystem
subsystem sysfs =
    if same_text sysfs (codes "power_supply")
    then power_supply
    else if same_text sysfs (codes "block")
    then block
    else if same_text sysfs (codes "android_usb")
    then android_usb_port
    else if same_text sysfs (codes "cvr_uevent")
    then cvr_uevent
    else if same_text sysfs (codes "video4linux")
    then video4linux
    else if same_text sysfs (codes "display")
    then display_port
    else if same_text sysfs (codes "platform")
    then platform_device
    else if same_text sysfs (codes "gpio-detection")
    then gpio_detection
    else unknown

unfoldable pub dispatch : Env → List (List ℕ) → System → Subsystem → Option System
dispatch env strs s power_supply = some (cvr_power_supply_ctl env s)
dispatch env strs s block = cvr_block_ctl env strs s
dispatch env strs s android_usb_port = some (android_usb env strs s)
dispatch env strs s cvr_uevent = cvr_device strs s
dispatch env strs s video4linux = cvr_video_ctl env strs s
dispatch env strs s display_port = cvr_display_ctl strs s
dispatch env strs s platform_device = platform env strs s
dispatch env strs s gpio_detection = cvr_gpios_ctl strs s
dispatch env strs s unknown = some s

unfoldable pub parse_event : Env → List (List ℕ) → System → Option System
parse_event env [] s = some s
parse_event env (e ∷ strs) s =
    get_elem? (e ∷ strs) 2 >>= skip 10 >>= λ sysfs. dispatch env (e ∷ strs) s (subsystem sysfs)

-- The handler of the timer's signal. The test stands for the kernel: it sends the signal once for a
-- timer that runs, and calls the handler if one is set.
unfoldable pub timeout_handle : Env → System → System
timeout_handle env s =
    if s.timer && s.handler
    then control env.host sd_ctrl true
        (report (fs_manage_set_device s.device_name) (record s { timer = false }))
    else s

-- What event_monitor_thread does before its loop, once its socket is bound.
unfoldable pub monitor_start : Env → System → Option System
monitor_start env s =
    let p =
      if env.gdb_usb_debug
      then s.port
      else if s.port.video_usb == 0
      then android_usb_config_ums s.port
      else if s.port.video_usb == 1
      then android_usb_config_adb s.port
      else if s.port.video_usb == 3
      then android_usb_config_rndis s.port
      else s.port in
    let s' = cvr_power_supply_ctl env (record s { port = p }) in
    cvr_check_reverse_system env (record s' { port = cvr_sd_ctl env.host true s'.port })
