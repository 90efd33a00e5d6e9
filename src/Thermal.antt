-- ===== src/Thermal.antt =====
-- power/thermal.c and power/thermal.h: the thermal governor. This file has the data: the device
-- record, the settings of parameter.c that the governor reads and writes, and the outside world.
-- The files below it have the access to the device files, the level machine and the set-up.
pub mod Sysfs
pub mod Levels
pub mod Config
pub mod Window
pub mod Updates
pub mod Throttle
mod Tests
use cvr_video.Base.{ℕ, ◌/◌, ◌-◌, ◌%◌, ◌^◌, List, Bool}
use cvr_video.Base.Int.{ℤ, pos, negsuc}

-- The device files that the governor opens, by the names of their macros.
pub data DeviceFile : Type 0 where
  kernel_thermal temp_input temp_min temp_min_alarm temp_max temp_max_alarm : DeviceFile
  cpu_temp_target ddr_dev fb_fps_file brightness_file : DeviceFile

-- One `open` and `read` into a buffer of zeros: the value that `read` returns, and the bytes of the
-- buffer before its first zero.
pub data Reading : Type 0 where
  cannot_open : Reading
  did_read : ℤ → List ℕ → Reading

-- What the kernel and the C library answer. A call of the governor reads and writes a file at most
-- once, so one answer for each file and call is general.
pub record World : Type 0 where
  pub reading : DeviceFile → Reading
  pub opens_for_write : DeviceFile → Bool
  pub write_result : DeviceFile → ℤ
  pub atoi : List ℕ → ℤ
  pub strtol_16 : List ℕ → ℤ
  pub hdmi_connect : Bool
  pub screen_state : Bool

-- `struct thermal_dev_t`; its `name` is never used.
pub record Device : Type 0 where
  pub temp : ℤ
  pub ltemp : ℤ
  pub htemp : ℤ
  pub state : ℤ
  pub old_state : ℤ
  pub lthreshold : List ℤ
  pub hthreshold : List ℤ
  pub stop_kernel_thermal : Bool
  pub handle_brightness : Bool
  pub brightness : ℤ
  pub cur_brightness : ℤ
  pub handle_wifi : Bool
  pub off_wifi : Bool
  pub handle_fb_fps : Bool
  pub fb_fps : ℤ
  pub cur_fb_fps : ℤ
  pub handle_3dnr : Bool
  pub off_3dnr : Bool
  pub handle_ddr : Bool
  pub ddr_low_power : Bool
  pub ddr_state : ℕ

-- What the governor does to the rest of the system.
pub data Action : Type 0 where
  write_number : DeviceFile → ℤ → Action
  write_char : DeviceFile → ℕ → Action
  wifi_management_start wifi_management_stop : Action
  api_dvs_onoff : Bool → Action

-- The governor's static data, the three settings of parameter.c that it shares with the rest of the
-- program, and its actions, the newest first.
pub record Governor : Type 0 where
  pub dev : Device
  pub test_num : ℕ
  pub video_3dnr : ℕ
  pub wifi_en : ℕ
  pub debug_temp : ℕ
  pub actions : List Action

abbrev pub ddr_400m : ℕ
ddr_400m = b'l'

abbrev pub ddr_600m : ℕ
ddr_600m = b'n'

abbrev pub ddr_800m : ℕ
ddr_800m = b'p'

abbrev pub ddr_exit_low_power : ℕ
ddr_exit_low_power = b'L'

-- An `int` stored in a `char`, which is unsigned on the target.
abbrev pub to_char : ℤ → ℕ
to_char (pos n) = n % 256
to_char (negsuc n) = 255 - n % 256

-- `v >> k` on a `long`: the shift keeps the sign.
abbrev pub shift_right : ℤ → ℕ → ℤ
shift_right (pos n) k = pos (n / 2 ^ k)
shift_right (negsuc n) k = negsuc (n / 2 ^ k)
