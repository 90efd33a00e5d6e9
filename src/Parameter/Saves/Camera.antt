-- ===== src/Parameter/Saves/Camera.antt =====
-- parameter.c: the values of the cameras and the recording.
use cvr_video.Base.{ℕ}
use cvr_video.Base.Int.{ℤ}
use cvr_video.Parameter.{Settings, VideoParam}
use cvr_video.Parameter.Vendor.{Vendor, parameter_save}

module _ {ℓ} {V : Type ℓ} (vendor : Vendor V) where
  abbrev pub parameter_sav_wifi_mode : ℕ → Settings V → ℤ × Settings V
  parameter_sav_wifi_mode mode s =
      parameter_save vendor (record s { parameter = record s.parameter { wifi_mode = mode } })

  abbrev pub parameter_save_wb : ℕ → Settings V → ℤ × Settings V
  parameter_save_wb wb s =
      parameter_save vendor (record s { parameter = record s.parameter { wb = wb } })

  abbrev pub parameter_save_ex : ℕ → Settings V → ℤ × Settings V
  parameter_save_ex ex s =
      parameter_save vendor (record s { parameter = record s.parameter { ex = ex } })

  abbrev pub parameter_save_vcamresolution : ℕ → Settings V → ℤ × Settings V
  parameter_save_vcamresolution resolution s =
      parameter_save vendor
        (record s { parameter = record s.parameter { vcam_resolution = resolution } })

  abbrev pub parameter_save_video_idc : ℕ → Settings V → ℤ × Settings V
  parameter_save_video_idc idc s =
      parameter_save vendor (record s { parameter = record s.parameter { video_idc = idc } })

  abbrev pub parameter_save_hot_share : ℕ → Settings V → ℤ × Settings V
  parameter_save_hot_share onoff s =
      parameter_save vendor (record s { parameter = record s.parameter { hot_share = onoff } })

  abbrev pub parameter_save_video_flip : ℕ → Settings V → ℤ × Settings V
  parameter_save_video_flip flip s =
      parameter_save vendor (record s { parameter = record s.parameter { video_flip = flip } })

  abbrev pub parameter_save_video_3dnr : ℕ → Settings V → ℤ × Settings V
  parameter_save_video_3dnr resolution s =
      parameter_save vendor
        (record s { parameter = record s.parameter { video_3dnr = resolution } })

  abbrev pub parameter_save_video_frontcamera_all : ℕ → VideoParam → Settings V → ℤ × Settings V
  parameter_save_video_frontcamera_all resolution reso s = parameter_save vendor (record s {
    parameter = record s.parameter { video_frontcamera = resolution; front_reso = reso };
  })

  abbrev pub parameter_save_video_fontcamera : ℕ → Settings V → ℤ × Settings V
  parameter_save_video_fontcamera resolution s =
      parameter_save vendor
        (record s { parameter = record s.parameter { video_frontcamera = resolution } })

  abbrev pub parameter_save_video_frontcamera_reso : VideoParam → Settings V → ℤ × Settings V
  parameter_save_video_frontcamera_reso front_reso s =
      parameter_save vendor
        (record s { parameter = record s.parameter { front_reso = front_reso } })

  abbrev pub parameter_save_video_cifcamera_all : ℕ → VideoParam → Settings V → ℤ × Settings V
  parameter_save_video_cifcamera_all resolution reso s = parameter_save vendor (record s {
    parameter = record s.parameter { video_cifcamera = resolution; cif_reso = reso };
  })

  abbrev pub parameter_save_video_cifcamera : ℕ → Settings V → ℤ × Settings V
  parameter_save_video_cifcamera resolution s =
      parameter_save vendor
        (record s { parameter = record s.parameter { video_cifcamera = resolution } })

  abbrev pub parameter_save_video_cifcamera_reso : VideoParam → Settings V → ℤ × Settings V
  parameter_save_video_cifcamera_reso cif_reso s =
      parameter_save vendor (record s { parameter = record s.parameter { cif_reso = cif_reso } })

  abbrev pub parameter_save_video_backcamera_all : ℕ → VideoParam → Settings V → ℤ × Settings V
  parameter_save_video_backcamera_all resolution reso s = parameter_save vendor (record s {
    parameter = record s.parameter { video_backcamera = resolution; back_reso = reso };
  })

  abbrev pub parameter_save_video_backcamera : ℕ → Settings V → ℤ × Settings V
  parameter_save_video_backcamera resolution s =
      parameter_save vendor
        (record s { parameter = record s.parameter { video_backcamera = resolution } })

  abbrev pub parameter_save_video_backcamera_reso : VideoParam → Settings V → ℤ × Settings V
  parameter_save_video_backcamera_reso back_reso s =
      parameter_save vendor (record s { parameter = record s.parameter { back_reso = back_reso } })

  abbrev pub parameter_save_video_adas : ℕ → Settings V → ℤ × Settings V
  parameter_save_video_adas adas s =
      parameter_save vendor (record s { parameter = record s.parameter { video_adas = adas } })

  abbrev pub parameter_save_video_adas_alert_distance : ℕ → Settings V → ℤ × Settings V
  parameter_save_video_adas_alert_distance setting s =
      parameter_save vendor
        (record s { parameter = record s.parameter { video_adas_alert_distance = setting } })

  abbrev pub parameter_save_video_de : ℕ → Settings V → ℤ × Settings V
  parameter_save_video_de resolution s =
      parameter_save vendor (record s { parameter = record s.parameter { video_de = resolution } })

  abbrev pub parameter_save_video_mark : ℕ → Settings V → ℤ × Settings V
  parameter_save_video_mark resolution s =
      parameter_save vendor
        (record s { parameter = record s.parameter { video_mark = resolution } })

  abbrev pub parameter_save_gps_mark : ℕ → Settings V → ℤ × Settings V
  parameter_save_gps_mark resolution s =
      parameter_save vendor (record s { parameter = record s.parameter { gps_mark = resolution } })

  abbrev pub parameter_save_gps_watermark : ℤ → Settings V → ℤ × Settings V
  parameter_save_gps_watermark gps_watermark s =
      parameter_save vendor
        (record s { parameter = record s.parameter { gps_watermark = gps_watermark } })

  abbrev pub parameter_save_video_audio : ℕ → Settings V → ℤ × Settings V
  parameter_save_video_audio resolution s =
      parameter_save vendor
        (record s { parameter = record s.parameter { video_audioenable = resolution } })

  abbrev pub parameter_save_video_autorec : ℕ → Settings V → ℤ × Settings V
  parameter_save_video_autorec resolution s =
      parameter_save vendor
        (record s { parameter = record s.parameter { video_autorec = resolution } })

  abbrev pub parameter_save_video_lan : ℕ → Settings V → ℤ × Settings V
  parameter_save_video_lan resolution s =
      parameter_save vendor (record s { parameter = record s.parameter { video_lan = resolution } })

  abbrev pub parameter_save_video_usb : ℕ → Settings V → ℤ × Settings V
  parameter_save_video_usb resolution s =
      parameter_save vendor (record s { parameter = record s.parameter { video_usb = resolution } })

  abbrev pub parameter_save_video_fre : ℕ → Settings V → ℤ × Settings V
  parameter_save_video_fre resolution s =
      parameter_save vendor (record s { parameter = record s.parameter { video_fre = resolution } })

  abbrev pub parameter_save_video_backlt : ℕ → Settings V → ℤ × Settings V
  parameter_save_video_backlt resolution s =
      parameter_save vendor
        (record s { parameter = record s.parameter { video_backlt = resolution } })

  abbrev pub parameter_save_video_pip : ℕ → Settings V → ℤ × Settings V
  parameter_save_video_pip pip_status s =
      parameter_save vendor (record s { parameter = record s.parameter { video_pip = pip_status } })
