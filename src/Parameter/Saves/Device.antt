-- ===== src/Parameter/Saves/Device.antt =====
-- parameter.c: the values of the device, of still pictures and of the lists of resolutions.
use cvr_video.Base.{ℕ, Bool}
use cvr_video.Base.Int.{ℤ}
use cvr_video.Parameter.{Settings, PhotoParam}
use cvr_video.Parameter.Vendor.{Vendor, parameter_save}

module _ {ℓ} {V : Type ℓ} (vendor : Vendor V) where
  abbrev pub parameter_save_collision_level : ℕ → Settings V → ℤ × Settings V
  parameter_save_collision_level resolution s =
      parameter_save vendor
        (record s { parameter = record s.parameter { colli_level = resolution } })

  abbrev pub parameter_save_parkingmonitor : ℕ → Settings V → ℤ × Settings V
  parameter_save_parkingmonitor resolution s =
      parameter_save vendor
        (record s { parameter = record s.parameter { video_parkingmonitor = resolution } })

  abbrev pub parameter_save_ccamresolution : ℕ → Settings V → ℤ × Settings V
  parameter_save_ccamresolution resolution s =
      parameter_save vendor
        (record s { parameter = record s.parameter { ccam_resolution = resolution } })

  abbrev pub parameter_save_recodetime : ℤ → Settings V → ℤ × Settings V
  parameter_save_recodetime time s =
      parameter_save vendor (record s { parameter = record s.parameter { recodetime = time } })

  abbrev pub parameter_save_cif_inputid : ℤ → Settings V → ℤ × Settings V
  parameter_save_cif_inputid cif_inputid s =
      parameter_save vendor
        (record s { parameter = record s.parameter { cif_inputid = cif_inputid } })

  abbrev pub parameter_save_abmode : ℕ → Settings V → ℤ × Settings V
  parameter_save_abmode mode s =
      parameter_save vendor (record s { parameter = record s.parameter { abmode = mode } })

  abbrev pub parameter_save_movedete : ℕ → Settings V → ℤ × Settings V
  parameter_save_movedete en s =
      parameter_save vendor (record s { parameter = record s.parameter { movedete = en } })

  abbrev pub parameter_save_timemark : ℕ → Settings V → ℤ × Settings V
  parameter_save_timemark en s =
      parameter_save vendor (record s { parameter = record s.parameter { timemark = en } })

  abbrev pub parameter_save_voicerec : ℕ → Settings V → ℤ × Settings V
  parameter_save_voicerec en s =
      parameter_save vendor (record s { parameter = record s.parameter { voicerec = en } })

  abbrev pub parameter_save_licence_plate_flag : ℕ → Settings V → ℤ × Settings V
  parameter_save_licence_plate_flag flag s =
      parameter_save vendor
        (record s { parameter = record s.parameter { license_plate_flag = flag } })

  abbrev pub parameter_save_debug_reboot : ℕ → Settings V → ℤ × Settings V
  parameter_save_debug_reboot resolution s =
      parameter_save vendor
        (record s { parameter = record s.parameter { debug_reboot = resolution } })

  abbrev pub parameter_save_debug_recovery : ℕ → Settings V → ℤ × Settings V
  parameter_save_debug_recovery resolution s =
      parameter_save vendor
        (record s { parameter = record s.parameter { debug_recovery = resolution } })

  abbrev pub parameter_save_screenoff_time : ℤ → Settings V → ℤ × Settings V
  parameter_save_screenoff_time screenoff_time s =
      parameter_save vendor
        (record s { parameter = record s.parameter { screenoff_time = screenoff_time } })

  abbrev pub parameter_save_bit_rate_per_pixel : ℕ → Settings V → ℤ × Settings V
  parameter_save_bit_rate_per_pixel val s =
      parameter_save vendor
        (record s { parameter = record s.parameter { bit_rate_per_pixel = val } })

  abbrev pub parameter_save_wifi_en : ℕ → Settings V → ℤ × Settings V
  parameter_save_wifi_en val s =
      parameter_save vendor (record s { parameter = record s.parameter { wifi_en = val } })

  abbrev pub parameter_save_time_lapse_interval : ℕ → Settings V → ℤ × Settings V
  parameter_save_time_lapse_interval val s =
      parameter_save vendor
        (record s { parameter = record s.parameter { time_lapse_interval = val } })

  abbrev pub parameter_save_video_carmode : ℕ → Settings V → ℤ × Settings V
  parameter_save_video_carmode resolution s =
      parameter_save vendor (record s { parameter = record s.parameter { carmode = resolution } })

  abbrev pub parameter_save_dvs_enabled : ℕ → Settings V → ℤ × Settings V
  parameter_save_dvs_enabled resolution s =
      parameter_save vendor
        (record s { parameter = record s.parameter { dvs_enabled = resolution } })

  abbrev pub parameter_save_photo_burst_num : ℤ → Settings V → ℤ × Settings V
  parameter_save_photo_burst_num burst_num s =
      parameter_save vendor
        (record s { parameter = record s.parameter { photo_burst_num = burst_num } })

  abbrev pub parameter_save_photo_param : PhotoParam → Settings V → ℤ × Settings V
  parameter_save_photo_param param s =
      parameter_save vendor (record s { parameter = record s.parameter { photo_param = param } })

  abbrev pub parameter_save_isp_max_resolution : ℕ → ℕ → Settings V → ℤ × Settings V
  parameter_save_isp_max_resolution width height s = parameter_save vendor (record s {
    parameter = record s.parameter { isp_max_width = width; isp_max_height = height };
  })

  abbrev pub parameter_save_cam_num : ℤ → Settings V → ℤ × Settings V
  parameter_save_cam_num num s =
      parameter_save vendor (record s { parameter = record s.parameter { cam_num = num } })

  abbrev pub parameter_save_key_tone_volume : ℕ → Settings V → ℤ × Settings V
  parameter_save_key_tone_volume vol s =
      parameter_save vendor (record s { parameter = record s.parameter { key_tone_vol = vol } })

  abbrev pub parameter_save_photo_burst_state : Bool → Settings V → ℤ × Settings V
  parameter_save_photo_burst_state is_photo_burst s =
      parameter_save vendor
        (record s { parameter = record s.parameter { photo_burst = is_photo_burst } })

  abbrev pub parameter_save_video_lapse_state : Bool → Settings V → ℤ × Settings V
  parameter_save_video_lapse_state is_video_lapse s =
      parameter_save vendor
        (record s { parameter = record s.parameter { video_lapse = is_video_lapse } })

  abbrev pub parameter_save_cif_cam_resolutions_max : ℤ → Settings V → ℤ × Settings V
  parameter_save_cif_cam_resolutions_max max_num s =
      parameter_save vendor
        (record s { parameter = record s.parameter { cif_resos_max = max_num } })

  abbrev pub parameter_save_back_cam_resolutions_max : ℤ → Settings V → ℤ × Settings V
  parameter_save_back_cam_resolutions_max max_num s =
      parameter_save vendor
        (record s { parameter = record s.parameter { back_resos_max = max_num } })

  abbrev pub parameter_save_front_cam_resolutions_max : ℤ → Settings V → ℤ × Settings V
  parameter_save_front_cam_resolutions_max max_num s =
      parameter_save vendor
        (record s { parameter = record s.parameter { front_resos_max = max_num } })

  abbrev pub parameter_save_photo_resolutions_max : ℤ → Settings V → ℤ × Settings V
  parameter_save_photo_resolutions_max max_num s =
      parameter_save vendor
        (record s { parameter = record s.parameter { photo_resos_max = max_num } })
