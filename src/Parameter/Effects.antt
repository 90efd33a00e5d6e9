-- ===== src/Parameter/Effects.antt =====
-- parameter.c: what a call of the functions that set values can do. None touches the version.
use cvr_video.Base.{
  ℕ, ◌≡◌, refl, true, false, not, ◌==◌, Option, none, some, ◌>>=◌, Bool-cases, inl, inr, get_or,
  ◌*◌,
}
use cvr_video.Base.Int.{ℤ, pos}
use cvr_video.Parameter.{SysParam, Settings}
use cvr_video.Parameter.Vendor.{Vendor, parameter_save}
use cvr_video.Parameter.Texts.{fill, first_bytes, overwrite}
use cvr_video.Parameter.Requests.{
  Request, is_saved, serve, sav_wifi_mode, save_wb, save_ex, save_vcamresolution, save_video_idc,
  save_hot_share, save_video_flip, save_video_3dnr, save_video_frontcamera_all,
  save_video_fontcamera, save_video_frontcamera_reso, save_video_cifcamera_all,
  save_video_cifcamera, save_video_cifcamera_reso, save_video_backcamera_all, save_video_backcamera,
  save_video_backcamera_reso, save_video_adas, save_video_adas_alert_distance,
  save_video_adas_direction, save_video_de, save_video_mark, save_gps_mark, save_gps_watermark,
  save_video_audio, save_video_autorec, save_video_lan, save_video_usb, save_video_fre,
  save_video_backlt, save_video_pip, save_collision_level, save_parkingmonitor, save_ccamresolution,
  save_recodetime, save_cif_inputid, save_abmode, save_movedete, save_timemark, save_voicerec,
  save_licence_plate_flag, save_debug_reboot, save_debug_recovery, save_debug_standby,
  save_debug_modechange, save_debug_video, save_debug_beg_end_video, save_debug_photo,
  save_debug_temp, save_debug_effect_watermark, save_screenoff_time, save_bit_rate_per_pixel,
  save_wifi_en, save_time_lapse_interval, save_video_carmode, save_dvs_enabled,
  save_photo_burst_num, save_photo_param, save_isp_max_resolution, save_cam_num,
  save_key_tone_volume, save_photo_burst_state, save_video_lapse_state,
  save_cif_cam_resolutions_max, save_back_cam_resolutions_max, save_front_cam_resolutions_max,
  save_photo_resolutions_max, savewifipass, sav_staewifiinfo, save_video_adas_setting,
  save_gyro_calibration_data, save_licence_plate, save_reboot_cnt, save_back_cam_resolutions,
  save_front_cam_resolutions, save_photo_resolutions,
}

module _ {ℓ} {V : Type ℓ} (vendor : Vendor V) where
  -- `o` is a fault, or what saving new settings gives, or a change of memory only.
  pub data Effect (r : Request) (s : Settings V) (o : Option (ℤ × Settings V)) : Type ℓ where
    fault : o ≡ none → Effect r s o
    saved :
        (p : SysParam)
        → o ≡ some (parameter_save vendor (record s { parameter = p }))
        → p.pararater_version ≡ s.parameter.pararater_version
        → is_saved r ≡ true
        → Effect r s o
    unsaved :
        (t : Settings V)
        → o ≡ some (pos 0, t)
        → t.storage ≡ s.storage
        → t.parameter.pararater_version ≡ s.parameter.pararater_version
        → is_saved r ≡ false
        → Effect r s o

  -- An address that may be NULL.
  if_given :
      (r : Request) (s : Settings V) (a : ℕ) (p : SysParam)
      → is_saved r ≡ not (a == 0)
      → p.pararater_version ≡ s.parameter.pararater_version
      → Effect r s (
          some (elim (a == 0) [
            | true ↦ (pos 0, s)
            | false ↦ parameter_save vendor (record s { parameter = p })
          ]))
  if_given r s a p e v = elim (Bool-cases (a == 0)) [
    | inl z ↦ rw z (unsaved s refl refl refl (rw z at e))
    | inr z ↦ rw z (saved p refl v (rw z at e))
  ]

  -- Bytes that may not fit.
  if_fits :
      {A : Type 0} (r : Request) (s : Settings V) (o : Option A) (f : A → SysParam)
      → is_saved r ≡ true
      → ((b : A) → (f b).pararater_version ≡ s.parameter.pararater_version)
      → Effect r s (o >>= λ b. some (parameter_save vendor (record s { parameter = f b })))
  if_fits r s none f e v = fault refl
  if_fits r s (some b) f e v = saved (f b) refl (v b) e

  if_both_fit :
      {A B : Type 0} (r : Request) (s : Settings V) (o : Option A) (q : A → Option B)
      (f : A → B → SysParam)
      → is_saved r ≡ true
      → ((a : A) (b : B) → (f a b).pararater_version ≡ s.parameter.pararater_version)
      → Effect r s
          (o >>= λ a. q a >>= λ b. some (parameter_save vendor (record s { parameter = f a b })))
  if_both_fit r s none q f e v = fault refl
  if_both_fit r s (some a) q f e v = if_fits r s (q a) (f a) e (v a)

  pub serve-Effect : (r : Request) (s : Settings V) → Effect r s (serve vendor r s)
  unfolding serve
  serve-Effect (sav_wifi_mode a) s = saved _ refl refl refl
  serve-Effect (save_wb a) s = saved _ refl refl refl
  serve-Effect (save_ex a) s = saved _ refl refl refl
  serve-Effect (save_vcamresolution a) s = saved _ refl refl refl
  serve-Effect (save_video_idc a) s = saved _ refl refl refl
  serve-Effect (save_hot_share a) s = saved _ refl refl refl
  serve-Effect (save_video_flip a) s = saved _ refl refl refl
  serve-Effect (save_video_3dnr a) s = saved _ refl refl refl
  serve-Effect (save_video_frontcamera_all a b) s = saved _ refl refl refl
  serve-Effect (save_video_fontcamera a) s = saved _ refl refl refl
  serve-Effect (save_video_frontcamera_reso a) s = saved _ refl refl refl
  serve-Effect (save_video_cifcamera_all a b) s = saved _ refl refl refl
  serve-Effect (save_video_cifcamera a) s = saved _ refl refl refl
  serve-Effect (save_video_cifcamera_reso a) s = saved _ refl refl refl
  serve-Effect (save_video_backcamera_all a b) s = saved _ refl refl refl
  serve-Effect (save_video_backcamera a) s = saved _ refl refl refl
  serve-Effect (save_video_backcamera_reso a) s = saved _ refl refl refl
  serve-Effect (save_video_adas a) s = saved _ refl refl refl
  serve-Effect (save_video_adas_alert_distance a) s = saved _ refl refl refl
  serve-Effect (save_video_adas_direction a) s = unsaved _ refl refl refl refl
  serve-Effect (save_video_de a) s = saved _ refl refl refl
  serve-Effect (save_video_mark a) s = saved _ refl refl refl
  serve-Effect (save_gps_mark a) s = saved _ refl refl refl
  serve-Effect (save_gps_watermark a) s = saved _ refl refl refl
  serve-Effect (save_video_audio a) s = saved _ refl refl refl
  serve-Effect (save_video_autorec a) s = saved _ refl refl refl
  serve-Effect (save_video_lan a) s = saved _ refl refl refl
  serve-Effect (save_video_usb a) s = saved _ refl refl refl
  serve-Effect (save_video_fre a) s = saved _ refl refl refl
  serve-Effect (save_video_backlt a) s = saved _ refl refl refl
  serve-Effect (save_video_pip a) s = saved _ refl refl refl
  serve-Effect (save_collision_level a) s = saved _ refl refl refl
  serve-Effect (save_parkingmonitor a) s = saved _ refl refl refl
  serve-Effect (save_ccamresolution a) s = saved _ refl refl refl
  serve-Effect (save_recodetime a) s = saved _ refl refl refl
  serve-Effect (save_cif_inputid a) s = saved _ refl refl refl
  serve-Effect (save_abmode a) s = saved _ refl refl refl
  serve-Effect (save_movedete a) s = saved _ refl refl refl
  serve-Effect (save_timemark a) s = saved _ refl refl refl
  serve-Effect (save_voicerec a) s = saved _ refl refl refl
  serve-Effect (save_licence_plate_flag a) s = saved _ refl refl refl
  serve-Effect (save_debug_reboot a) s = saved _ refl refl refl
  serve-Effect (save_debug_recovery a) s = saved _ refl refl refl
  serve-Effect (save_debug_standby a) s = unsaved _ refl refl refl refl
  serve-Effect (save_debug_modechange a) s = unsaved _ refl refl refl refl
  serve-Effect (save_debug_video a) s = unsaved _ refl refl refl refl
  serve-Effect (save_debug_beg_end_video a) s = unsaved _ refl refl refl refl
  serve-Effect (save_debug_photo a) s = unsaved _ refl refl refl refl
  serve-Effect (save_debug_temp a) s = unsaved _ refl refl refl refl
  serve-Effect (save_debug_effect_watermark a) s = unsaved _ refl refl refl refl
  serve-Effect (save_screenoff_time a) s = saved _ refl refl refl
  serve-Effect (save_bit_rate_per_pixel a) s = saved _ refl refl refl
  serve-Effect (save_wifi_en a) s = saved _ refl refl refl
  serve-Effect (save_time_lapse_interval a) s = saved _ refl refl refl
  serve-Effect (save_video_carmode a) s = saved _ refl refl refl
  serve-Effect (save_dvs_enabled a) s = saved _ refl refl refl
  serve-Effect (save_photo_burst_num a) s = saved _ refl refl refl
  serve-Effect (save_photo_param a) s = saved _ refl refl refl
  serve-Effect (save_isp_max_resolution a b) s = saved _ refl refl refl
  serve-Effect (save_cam_num a) s = saved _ refl refl refl
  serve-Effect (save_key_tone_volume a) s = saved _ refl refl refl
  serve-Effect (save_photo_burst_state a) s = saved _ refl refl refl
  serve-Effect (save_video_lapse_state a) s = saved _ refl refl refl
  serve-Effect (save_cif_cam_resolutions_max a) s = saved _ refl refl refl
  serve-Effect (save_back_cam_resolutions_max a) s = saved _ refl refl refl
  serve-Effect (save_front_cam_resolutions_max a) s = saved _ refl refl refl
  serve-Effect (save_photo_resolutions_max a) s = saved _ refl refl refl
  serve-Effect (savewifipass a) s =
      if_fits (savewifipass a) s (fill 65 a) (λ b. record s.parameter { wifi_pass = b }) refl
        (λ b. refl)
  serve-Effect (sav_staewifiinfo a b) s =
      if_both_fit (sav_staewifiinfo a b) s (fill 33 a) (λ _. fill 65 b)
        (λ c d. record s.parameter { sta_wifi_ssid = c; sta_wifi_pass = d }) refl (λ c d. refl)
  serve-Effect (save_video_adas_setting a) s =
      if_fits (save_video_adas_setting a) s (first_bytes 2 a)
        (λ b. record s.parameter { video_adas_setting = b }) refl (λ b. refl)
  serve-Effect (save_gyro_calibration_data a) s =
      if_fits (save_gyro_calibration_data a) s (first_bytes 8 a)
        (λ b. record s.parameter {
          gyro_xl = get_or b 0 0;
          gyro_xh = get_or b 1 0;
          gyro_yl = get_or b 2 0;
          gyro_yh = get_or b 3 0;
          gyro_zl = get_or b 4 0;
          gyro_zh = get_or b 5 0;
          temp_l = get_or b 6 0;
          temp_h = get_or b 7 0;
        })
        refl (λ b. refl)
  serve-Effect (save_licence_plate a b) s =
      if_both_fit (save_licence_plate a b) s (first_bytes (b * 3) a)
        (λ c. overwrite c s.parameter.license_plate)
        (λ c d. record s.parameter { license_plate = d }) refl (λ c d. refl)
  serve-Effect (save_reboot_cnt a) s = saved _ refl refl refl
  serve-Effect (save_back_cam_resolutions a) s =
      if_given (save_back_cam_resolutions a) s a _ refl refl
  serve-Effect (save_front_cam_resolutions a) s =
      if_given (save_front_cam_resolutions a) s a _ refl refl
  serve-Effect (save_photo_resolutions a) s = if_given (save_photo_resolutions a) s a _ refl refl
