-- ===== src/Parameter.antt =====
-- parameter.c: the settings, as they stand in memory and in the vendor storage of the board. This file
-- has the settings and the storage, which is outside of the sources and a parameter.
pub mod Vendor
pub mod Saves
pub mod Texts
pub mod Requests
pub mod Init
pub mod Effects
pub mod Kept
pub mod Start
mod Tests
use cvr_video.Base.{ℕ, List, Bool, Option}
use cvr_video.Base.Int.{ℤ}

-- `struct video_param`
pub record VideoParam : Type 0 where
  pub width : ℕ
  pub height : ℕ
  pub fps : ℕ

-- `struct photo_param`
pub record PhotoParam : Type 0 where
  pub width : ℤ
  pub height : ℤ
  pub max_num : ℕ

-- `struct sys_param`. An array of characters is the list of its bytes, and a pointer its address.
pub record SysParam : Type 0 where
  pub pararater_version : List ℕ
  pub firmware_version : List ℕ
  pub wifi_ssid : List ℕ
  pub wifi_pass : List ℕ
  pub sta_wifi_ssid : List ℕ
  pub sta_wifi_pass : List ℕ
  pub wifi_mode : ℕ
  pub wifi_en : ℕ
  pub vcam_resolution : ℕ
  pub ccam_resolution : ℕ
  pub recodetime : ℤ
  pub abmode : ℕ
  pub wb : ℕ
  pub ex : ℕ
  pub movedete : ℕ
  pub timemark : ℕ
  pub voicerec : ℕ
  pub video_de : ℕ
  pub video_mark : ℕ
  pub video_audioenable : ℕ
  pub video_autorec : ℕ
  pub video_lan : ℕ
  pub video_fre : ℕ
  pub video_3dnr : ℕ
  pub video_adas : ℕ
  pub video_adas_setting : List ℕ
  pub video_adas_direction : ℕ
  pub video_adas_alert_distance : ℕ
  pub video_backlt : ℕ
  pub video_pip : ℕ
  pub video_usb : ℕ
  pub video_frontcamera : ℕ
  pub video_backcamera : ℕ
  pub video_cifcamera : ℕ
  pub vcam_resolution_photo : ℕ
  pub debug_reboot : ℕ
  pub debug_recovery : ℕ
  pub cif_reso : VideoParam
  pub back_reso : VideoParam
  pub front_reso : VideoParam
  pub back_resos_ptr : ℕ
  pub front_resos_ptr : ℕ
  pub cif_resos_max : ℤ
  pub back_resos_max : ℤ
  pub front_resos_max : ℤ
  pub cif_inputid : ℤ
  pub colli_level : ℕ
  pub video_parkingmonitor : ℕ
  pub screenoff_time : ℤ
  pub bit_rate_per_pixel : ℕ
  pub video_idc : ℕ
  pub hot_share : ℕ
  pub time_lapse_interval : ℕ
  pub gyro_xl : ℕ
  pub gyro_xh : ℕ
  pub gyro_yl : ℕ
  pub gyro_yh : ℕ
  pub gyro_zl : ℕ
  pub gyro_zh : ℕ
  pub temp_l : ℕ
  pub temp_h : ℕ
  pub license_plate : List ℕ
  pub license_plate_flag : ℕ
  pub video_flip : ℕ
  pub reboot_cnt : ℤ
  pub tv_sec : ℤ
  pub rec_file_format : List ℕ
  pub rec_audio_enc_format : List ℕ
  pub carmode : ℕ
  pub dvs_enabled : ℕ
  pub photo_param : PhotoParam
  pub photo_resos_ptr : ℕ
  pub photo_resos_max : ℤ
  pub photo_burst_num : ℤ
  pub isp_max_width : ℕ
  pub isp_max_height : ℕ
  pub gps_mark : ℕ
  pub gps_watermark : ℤ
  pub cam_num : ℤ
  pub key_tone_vol : ℕ
  pub photo_burst : Bool
  pub video_lapse : Bool

-- The variables of the file: `parameter`, g_flash_param and the debug values. `V` is the state of the
-- storage.
pub record Settings {ℓ} (V : Type ℓ) : Type ℓ where
  pub parameter : SysParam
  pub flashed_flag : ℤ
  pub debug_standby : ℕ
  pub debug_mode_change : ℕ
  pub debug_photo : ℕ
  pub debug_video : ℕ
  pub debug_beg_end_video : ℕ
  pub debug_temp : ℕ
  pub debug_effect_watermark : ℕ
  pub storage : V
