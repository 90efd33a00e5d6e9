-- ===== src/Parameter/Texts.antt =====
-- parameter.c: the functions that copy bytes into the settings. `none` is an access out of the bounds
-- of an array or of the bytes that the caller gives.
use cvr_video.Base.{
  ℕ, ◌-◌, ◌*◌, List, ◌++◌, true, false, ◌==◌, leb, if◌then◌else◌, Option, none, some, ◌>>=◌, length,
  take, drop, get_or, replicate,
}
use cvr_video.Base.Int.{ℤ, pos, ◌+ℤ◌}
use cvr_video.Parameter.{Settings}
use cvr_video.Parameter.Vendor.{Vendor, parameter_save}

-- memset of an array of `n` bytes, and memcpy of the text.
unfoldable pub fill : ℕ → List ℕ → Option (List ℕ)
fill n text = if leb (length text) n then some (text ++ replicate (n - length text) 0) else none

-- The bytes that memcpy reads.
unfoldable pub first_bytes : ℕ → List ℕ → Option (List ℕ)
first_bytes n bytes = if leb n (length bytes) then some (take n bytes) else none

-- memcpy to the start of an array.
unfoldable pub overwrite : List ℕ → List ℕ → Option (List ℕ)
overwrite bytes array =
    if leb (length bytes) (length array) then some (bytes ++ drop (length bytes) array) else none

-- ADAS_BASELINE_COUNT
abbrev pub adas_baseline_count : ℕ
adas_baseline_count = 2

module _ {ℓ} {V : Type ℓ} (vendor : Vendor V) where
  abbrev pub parameter_savewifipass : List ℕ → Settings V → Option (ℤ × Settings V)
  parameter_savewifipass password s = fill 65 password >>= λ b.
      some (parameter_save vendor (record s { parameter = record s.parameter { wifi_pass = b } }))

  abbrev pub parameter_sav_staewifiinfo : List ℕ → List ℕ → Settings V → Option (ℤ × Settings V)
  parameter_sav_staewifiinfo ssid password s = fill 33 ssid >>= λ b. fill 65 password >>= λ c.
      some (
        parameter_save vendor
          (record s { parameter = record s.parameter { sta_wifi_ssid = b; sta_wifi_pass = c } }))

  abbrev pub parameter_save_video_adas_setting : List ℕ → Settings V → Option (ℤ × Settings V)
  parameter_save_video_adas_setting setting s = first_bytes adas_baseline_count setting >>= λ b.
      some (
        parameter_save vendor
          (record s { parameter = record s.parameter { video_adas_setting = b } }))

  abbrev pub parameter_save_gyro_calibration_data : List ℕ → Settings V → Option (ℤ × Settings V)
  parameter_save_gyro_calibration_data bytes s = first_bytes 8 bytes >>= λ b. some (
      parameter_save vendor (record s {
        parameter = record s.parameter {
          gyro_xl = get_or b 0 0;
          gyro_xh = get_or b 1 0;
          gyro_yl = get_or b 2 0;
          gyro_yh = get_or b 3 0;
          gyro_zl = get_or b 4 0;
          gyro_zh = get_or b 5 0;
          temp_l = get_or b 6 0;
          temp_h = get_or b 7 0;
        };
      }))

  -- `n` plates of three bytes; the array has eight.
  abbrev pub parameter_save_licence_plate : List ℕ → ℕ → Settings V → Option (ℤ × Settings V)
  parameter_save_licence_plate licenseplate n s = first_bytes (n * 3) licenseplate >>= λ b.
      overwrite b s.parameter.license_plate >>= λ c.
      some
        (parameter_save vendor (record s { parameter = record s.parameter { license_plate = c } }))

  -- `now` is the time of gettimeofday.
  abbrev pub parameter_save_reboot_cnt : ℤ → Settings V → ℤ × Settings V
  parameter_save_reboot_cnt now s = parameter_save vendor (record s {
    parameter = record s.parameter { reboot_cnt = s.parameter.reboot_cnt +ℤ pos 1; tv_sec = now };
  })

  abbrev pub parameter_save_back_cam_resolutions : ℕ → Settings V → ℤ × Settings V
  parameter_save_back_cam_resolutions ptr s = elim (ptr == 0) [
    | true ↦ (pos 0, s)
    | false ↦
        parameter_save vendor (record s { parameter = record s.parameter { back_resos_ptr = ptr } })
  ]

  abbrev pub parameter_save_front_cam_resolutions : ℕ → Settings V → ℤ × Settings V
  parameter_save_front_cam_resolutions ptr s = elim (ptr == 0) [
    | true ↦ (pos 0, s)
    | false ↦
        parameter_save vendor
          (record s { parameter = record s.parameter { front_resos_ptr = ptr } })
  ]

  abbrev pub parameter_save_photo_resolutions : ℕ → Settings V → ℤ × Settings V
  parameter_save_photo_resolutions ptr s = elim (ptr == 0) [
    | true ↦ (pos 0, s)
    | false ↦
        parameter_save vendor
          (record s { parameter = record s.parameter { photo_resos_ptr = ptr } })
  ]
