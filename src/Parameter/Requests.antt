-- ===== src/Parameter/Requests.antt =====
-- parameter.c: a call of one of the functions that set values, as data.
use cvr_video.Base.{ℕ, List, Bool, true, false, not, ◌==◌, Option, some}
use cvr_video.Base.Int.{ℤ}
use cvr_video.Parameter.{Settings, VideoParam, PhotoParam}
use cvr_video.Parameter.Vendor.{Vendor}
use cvr_video.Parameter.Saves.{
  parameter_sav_wifi_mode, parameter_save_wb, parameter_save_ex, parameter_save_vcamresolution,
  parameter_save_video_idc, parameter_save_hot_share, parameter_save_video_flip,
  parameter_save_video_3dnr, parameter_save_video_frontcamera_all, parameter_save_video_fontcamera,
  parameter_save_video_frontcamera_reso, parameter_save_video_cifcamera_all,
  parameter_save_video_cifcamera, parameter_save_video_cifcamera_reso,
  parameter_save_video_backcamera_all, parameter_save_video_backcamera,
  parameter_save_video_backcamera_reso, parameter_save_video_adas,
  parameter_save_video_adas_alert_distance, parameter_save_video_adas_direction,
  parameter_save_video_de, parameter_save_video_mark, parameter_save_gps_mark,
  parameter_save_gps_watermark, parameter_save_video_audio, parameter_save_video_autorec,
  parameter_save_video_lan, parameter_save_video_usb, parameter_save_video_fre,
  parameter_save_video_backlt, parameter_save_video_pip, parameter_save_collision_level,
  parameter_save_parkingmonitor, parameter_save_ccamresolution, parameter_save_recodetime,
  parameter_save_cif_inputid, parameter_save_abmode, parameter_save_movedete,
  parameter_save_timemark, parameter_save_voicerec, parameter_save_licence_plate_flag,
  parameter_save_debug_reboot, parameter_save_debug_recovery, parameter_save_debug_standby,
  parameter_save_debug_modechange, parameter_save_debug_video, parameter_save_debug_beg_end_video,
  parameter_save_debug_photo, parameter_save_debug_temp, parameter_save_debug_effect_watermark,
  parameter_save_screenoff_time, parameter_save_bit_rate_per_pixel, parameter_save_wifi_en,
  parameter_save_time_lapse_interval, parameter_save_video_carmode, parameter_save_dvs_enabled,
  parameter_save_photo_burst_num, parameter_save_photo_param, parameter_save_isp_max_resolution,
  parameter_save_cam_num, parameter_save_key_tone_volume, parameter_save_photo_burst_state,
  parameter_save_video_lapse_state, parameter_save_cif_cam_resolutions_max,
  parameter_save_back_cam_resolutions_max, parameter_save_front_cam_resolutions_max,
  parameter_save_photo_resolutions_max,
}
use cvr_video.Parameter.Texts.{
  parameter_savewifipass, parameter_sav_staewifiinfo, parameter_save_video_adas_setting,
  parameter_save_gyro_calibration_data, parameter_save_licence_plate, parameter_save_reboot_cnt,
  parameter_save_back_cam_resolutions, parameter_save_front_cam_resolutions,
  parameter_save_photo_resolutions,
}

pub data Request : Type 0 where
  sav_wifi_mode : ℕ → Request
  save_wb : ℕ → Request
  save_ex : ℕ → Request
  save_vcamresolution : ℕ → Request
  save_video_idc : ℕ → Request
  save_hot_share : ℕ → Request
  save_video_flip : ℕ → Request
  save_video_3dnr : ℕ → Request
  save_video_fontcamera : ℕ → Request
  save_video_cifcamera : ℕ → Request
  save_video_backcamera : ℕ → Request
  save_video_adas : ℕ → Request
  save_video_adas_alert_distance : ℕ → Request
  save_video_adas_direction : ℕ → Request
  save_video_de : ℕ → Request
  save_video_mark : ℕ → Request
  save_gps_mark : ℕ → Request
  save_video_audio : ℕ → Request
  save_video_autorec : ℕ → Request
  save_video_lan : ℕ → Request
  save_video_usb : ℕ → Request
  save_video_fre : ℕ → Request
  save_video_backlt : ℕ → Request
  save_video_pip : ℕ → Request
  save_collision_level : ℕ → Request
  save_parkingmonitor : ℕ → Request
  save_ccamresolution : ℕ → Request
  save_abmode : ℕ → Request
  save_movedete : ℕ → Request
  save_timemark : ℕ → Request
  save_voicerec : ℕ → Request
  save_licence_plate_flag : ℕ → Request
  save_debug_reboot : ℕ → Request
  save_debug_recovery : ℕ → Request
  save_debug_standby : ℕ → Request
  save_debug_modechange : ℕ → Request
  save_debug_video : ℕ → Request
  save_debug_beg_end_video : ℕ → Request
  save_debug_photo : ℕ → Request
  save_debug_temp : ℕ → Request
  save_debug_effect_watermark : ℕ → Request
  save_bit_rate_per_pixel : ℕ → Request
  save_wifi_en : ℕ → Request
  save_time_lapse_interval : ℕ → Request
  save_video_carmode : ℕ → Request
  save_dvs_enabled : ℕ → Request
  save_key_tone_volume : ℕ → Request
  save_back_cam_resolutions : ℕ → Request
  save_front_cam_resolutions : ℕ → Request
  save_photo_resolutions : ℕ → Request
  save_video_frontcamera_all : ℕ → VideoParam → Request
  save_video_cifcamera_all : ℕ → VideoParam → Request
  save_video_backcamera_all : ℕ → VideoParam → Request
  save_video_frontcamera_reso : VideoParam → Request
  save_video_cifcamera_reso : VideoParam → Request
  save_video_backcamera_reso : VideoParam → Request
  save_gps_watermark : ℤ → Request
  save_recodetime : ℤ → Request
  save_cif_inputid : ℤ → Request
  save_screenoff_time : ℤ → Request
  save_photo_burst_num : ℤ → Request
  save_cam_num : ℤ → Request
  save_cif_cam_resolutions_max : ℤ → Request
  save_back_cam_resolutions_max : ℤ → Request
  save_front_cam_resolutions_max : ℤ → Request
  save_photo_resolutions_max : ℤ → Request
  save_reboot_cnt : ℤ → Request
  save_photo_param : PhotoParam → Request
  save_isp_max_resolution : ℕ → ℕ → Request
  save_photo_burst_state : Bool → Request
  save_video_lapse_state : Bool → Request
  savewifipass : List ℕ → Request
  save_video_adas_setting : List ℕ → Request
  save_gyro_calibration_data : List ℕ → Request
  sav_staewifiinfo : List ℕ → List ℕ → Request
  save_licence_plate : List ℕ → ℕ → Request

-- Whether the call saves the settings.
abbrev pub is_saved : Request → Bool
is_saved (save_video_adas_direction a) = false
is_saved (save_debug_standby a) = false
is_saved (save_debug_modechange a) = false
is_saved (save_debug_video a) = false
is_saved (save_debug_beg_end_video a) = false
is_saved (save_debug_photo a) = false
is_saved (save_debug_temp a) = false
is_saved (save_debug_effect_watermark a) = false
is_saved (save_back_cam_resolutions a) = not (a == 0)
is_saved (save_front_cam_resolutions a) = not (a == 0)
is_saved (save_photo_resolutions a) = not (a == 0)
is_saved _ = true

module _ {ℓ} {V : Type ℓ} (vendor : Vendor V) where
  unfoldable pub serve : Request → Settings V → Option (ℤ × Settings V)
  serve (sav_wifi_mode a) s = some (parameter_sav_wifi_mode vendor a s)
  serve (save_wb a) s = some (parameter_save_wb vendor a s)
  serve (save_ex a) s = some (parameter_save_ex vendor a s)
  serve (save_vcamresolution a) s = some (parameter_save_vcamresolution vendor a s)
  serve (save_video_idc a) s = some (parameter_save_video_idc vendor a s)
  serve (save_hot_share a) s = some (parameter_save_hot_share vendor a s)
  serve (save_video_flip a) s = some (parameter_save_video_flip vendor a s)
  serve (save_video_3dnr a) s = some (parameter_save_video_3dnr vendor a s)
  serve (save_video_frontcamera_all a b) s =
      some (parameter_save_video_frontcamera_all vendor a b s)
  serve (save_video_fontcamera a) s = some (parameter_save_video_fontcamera vendor a s)
  serve (save_video_frontcamera_reso a) s = some (parameter_save_video_frontcamera_reso vendor a s)
  serve (save_video_cifcamera_all a b) s = some (parameter_save_video_cifcamera_all vendor a b s)
  serve (save_video_cifcamera a) s = some (parameter_save_video_cifcamera vendor a s)
  serve (save_video_cifcamera_reso a) s = some (parameter_save_video_cifcamera_reso vendor a s)
  serve (save_video_backcamera_all a b) s = some (parameter_save_video_backcamera_all vendor a b s)
  serve (save_video_backcamera a) s = some (parameter_save_video_backcamera vendor a s)
  serve (save_video_backcamera_reso a) s = some (parameter_save_video_backcamera_reso vendor a s)
  serve (save_video_adas a) s = some (parameter_save_video_adas vendor a s)
  serve (save_video_adas_alert_distance a) s =
      some (parameter_save_video_adas_alert_distance vendor a s)
  serve (save_video_adas_direction a) s = some (parameter_save_video_adas_direction a s)
  serve (save_video_de a) s = some (parameter_save_video_de vendor a s)
  serve (save_video_mark a) s = some (parameter_save_video_mark vendor a s)
  serve (save_gps_mark a) s = some (parameter_save_gps_mark vendor a s)
  serve (save_gps_watermark a) s = some (parameter_save_gps_watermark vendor a s)
  serve (save_video_audio a) s = some (parameter_save_video_audio vendor a s)
  serve (save_video_autorec a) s = some (parameter_save_video_autorec vendor a s)
  serve (save_video_lan a) s = some (parameter_save_video_lan vendor a s)
  serve (save_video_usb a) s = some (parameter_save_video_usb vendor a s)
  serve (save_video_fre a) s = some (parameter_save_video_fre vendor a s)
  serve (save_video_backlt a) s = some (parameter_save_video_backlt vendor a s)
  serve (save_video_pip a) s = some (parameter_save_video_pip vendor a s)
  serve (save_collision_level a) s = some (parameter_save_collision_level vendor a s)
  serve (save_parkingmonitor a) s = some (parameter_save_parkingmonitor vendor a s)
  serve (save_ccamresolution a) s = some (parameter_save_ccamresolution vendor a s)
  serve (save_recodetime a) s = some (parameter_save_recodetime vendor a s)
  serve (save_cif_inputid a) s = some (parameter_save_cif_inputid vendor a s)
  serve (save_abmode a) s = some (parameter_save_abmode vendor a s)
  serve (save_movedete a) s = some (parameter_save_movedete vendor a s)
  serve (save_timemark a) s = some (parameter_save_timemark vendor a s)
  serve (save_voicerec a) s = some (parameter_save_voicerec vendor a s)
  serve (save_licence_plate_flag a) s = some (parameter_save_licence_plate_flag vendor a s)
  serve (save_debug_reboot a) s = some (parameter_save_debug_reboot vendor a s)
  serve (save_debug_recovery a) s = some (parameter_save_debug_recovery vendor a s)
  serve (save_debug_standby a) s = some (parameter_save_debug_standby a s)
  serve (save_debug_modechange a) s = some (parameter_save_debug_modechange a s)
  serve (save_debug_video a) s = some (parameter_save_debug_video a s)
  serve (save_debug_beg_end_video a) s = some (parameter_save_debug_beg_end_video a s)
  serve (save_debug_photo a) s = some (parameter_save_debug_photo a s)
  serve (save_debug_temp a) s = some (parameter_save_debug_temp a s)
  serve (save_debug_effect_watermark a) s = some (parameter_save_debug_effect_watermark a s)
  serve (save_screenoff_time a) s = some (parameter_save_screenoff_time vendor a s)
  serve (save_bit_rate_per_pixel a) s = some (parameter_save_bit_rate_per_pixel vendor a s)
  serve (save_wifi_en a) s = some (parameter_save_wifi_en vendor a s)
  serve (save_time_lapse_interval a) s = some (parameter_save_time_lapse_interval vendor a s)
  serve (save_video_carmode a) s = some (parameter_save_video_carmode vendor a s)
  serve (save_dvs_enabled a) s = some (parameter_save_dvs_enabled vendor a s)
  serve (save_photo_burst_num a) s = some (parameter_save_photo_burst_num vendor a s)
  serve (save_photo_param a) s = some (parameter_save_photo_param vendor a s)
  serve (save_isp_max_resolution a b) s = some (parameter_save_isp_max_resolution vendor a b s)
  serve (save_cam_num a) s = some (parameter_save_cam_num vendor a s)
  serve (save_key_tone_volume a) s = some (parameter_save_key_tone_volume vendor a s)
  serve (save_photo_burst_state a) s = some (parameter_save_photo_burst_state vendor a s)
  serve (save_video_lapse_state a) s = some (parameter_save_video_lapse_state vendor a s)
  serve (save_cif_cam_resolutions_max a) s =
      some (parameter_save_cif_cam_resolutions_max vendor a s)
  serve (save_back_cam_resolutions_max a) s =
      some (parameter_save_back_cam_resolutions_max vendor a s)
  serve (save_front_cam_resolutions_max a) s =
      some (parameter_save_front_cam_resolutions_max vendor a s)
  serve (save_photo_resolutions_max a) s = some (parameter_save_photo_resolutions_max vendor a s)
  serve (savewifipass a) s = parameter_savewifipass vendor a s
  serve (sav_staewifiinfo a b) s = parameter_sav_staewifiinfo vendor a b s
  serve (save_video_adas_setting a) s = parameter_save_video_adas_setting vendor a s
  serve (save_gyro_calibration_data a) s = parameter_save_gyro_calibration_data vendor a s
  serve (save_licence_plate a b) s = parameter_save_licence_plate vendor a b s
  serve (save_reboot_cnt a) s = some (parameter_save_reboot_cnt vendor a s)
  serve (save_back_cam_resolutions a) s = some (parameter_save_back_cam_resolutions vendor a s)
  serve (save_front_cam_resolutions a) s = some (parameter_save_front_cam_resolutions vendor a s)
  serve (save_photo_resolutions a) s = some (parameter_save_photo_resolutions vendor a s)
