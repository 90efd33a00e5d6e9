-- ===== src/Parameter/Init.antt =====
-- parameter.c: parameter_recover sets the default values, and parameter_init reads the settings at
-- start. The version as read ends within its array.
use cvr_video.Base.{
  ℕ, zero, suc, ◌+◌, ◌-◌, ◌/◌, ◌%◌, ◌^◌, List, [], ◌∷◌, ◌++◌, Bool, true, false, not, ◌&&◌, ◌==◌,
  ltb, if◌then◌else◌, length, take, replicate,
}
use cvr_video.Base.Int.{ℤ, pos, negsuc, eq_ℤ}
use cvr_video.Base.Text.{codes, c_string, same_text}
use cvr_video.Parameter.{SysParam, Settings}
use cvr_video.Parameter.Vendor.{
  Vendor, parameter_param_read, parameter_flash_get_flashed, parameter_flash_clear_flashed,
  parameter_save,
}

-- PARAM_VERSION and FIRMWARE_VERSION
abbrev pub param_version : List ℕ
param_version = codes "1.0.8"

abbrev pub firmware_version : List ℕ
firmware_version = codes "SDK-V0.1.0 2016-9-7"

-- What the build selects: CVR, SAMPLE or neither.
pub data Product : Type 0 where
  cvr sample other : Product

-- The build and the addresses of the lists of resolutions.
pub record Build : Type 0 where
  pub product : Product
  pub pcba_service : Bool
  pub back_video_resolutions : ℕ
  pub front_video_resolutions : ℕ
  pub photo_resolutions : ℕ

-- snprintf with "%s" to an array of zeros.
abbrev pub print : ℕ → List ℕ → List ℕ
print n text = let t = take (n - 1) text in t ++ replicate (n - length t) 0

abbrev pub hex_digit : ℕ → ℕ
hex_digit d = if ltb d 10 then b'0' + d else d - 10 + b'A'

-- "%X"; the first argument is the number of digits at most.
abbrev pub hex_digits : ℕ → ℕ → List ℕ
hex_digits zero n = []
hex_digits (suc k) n = elim (n / 16 == 0) [
  | true ↦ hex_digit n ∷ []
  | false ↦ hex_digits k (n / 16) ++ hex_digit (n % 16) ∷ []
]

-- (rand() + 0x1000) % 0x10000 as a word of 32 bits; the sum wraps.
abbrev pub random_name : ℕ → ℕ
random_name r =
    let w = (r + 0x1000) % 2 ^ 32 in
    if ltb w (2 ^ 31) then w % 0x10000 else (2 ^ 32 - (2 ^ 32 - w) % 0x10000) % 2 ^ 32

-- What depends on the product.
abbrev pub is_dv : Product → Bool
is_dv cvr = false
is_dv sample = false
is_dv other = true

abbrev pub is_cvr : Product → Bool
is_cvr cvr = true
is_cvr sample = false
is_cvr other = false

abbrev pub is_sample : Product → Bool
is_sample cvr = false
is_sample sample = true
is_sample other = false

abbrev pub flag : Bool → ℕ
flag b = if b then 1 else 0

-- The settings after memset and the assignments. The formats of recordings are those of a build that
-- does not configure others.
abbrev pub default_param : Build → ℕ → SysParam
default_param build r = record {
  pararater_version = print 12 param_version;
  firmware_version = print 30 firmware_version;
  wifi_ssid = print 33 (codes "RK_CVR_" ++ hex_digits 8 (random_name r));
  wifi_pass = print 65 (codes "123456789");
  sta_wifi_ssid = replicate 33 0;
  sta_wifi_pass = replicate 65 0;
  wifi_mode = flag (is_sample build.product);
  wifi_en = 0;
  vcam_resolution = 1;
  ccam_resolution = 0;
  recodetime = pos 60;
  abmode = 2;
  wb = 0;
  ex = 3;
  movedete = 0;
  timemark = 0;
  voicerec = 0;
  video_de = 0;
  video_mark = 1;
  video_audioenable = flag (not (is_sample build.product));
  video_autorec = flag (is_sample build.product && not build.pcba_service);
  video_lan = 0;
  video_fre = 1;
  video_3dnr = flag (not (is_dv build.product));
  video_adas = 0;
  video_adas_setting = 50 ∷ 95 ∷ [];
  video_adas_direction = 50;
  video_adas_alert_distance = 6;
  video_backlt = 200;
  video_pip = 1;
  video_usb = if build.pcba_service then 3 else 2;
  video_frontcamera = 0;
  video_backcamera = 1;
  video_cifcamera = 0;
  vcam_resolution_photo = 1;
  debug_reboot = 0;
  debug_recovery = 0;
  cif_reso = record { width = 720; height = 576; fps = 30 };
  back_reso = record { width = 640; height = 480; fps = 30 };
  front_reso = record { width = 1920; height = 1080; fps = 30 };
  back_resos_ptr = build.back_video_resolutions;
  front_resos_ptr = build.front_video_resolutions;
  cif_resos_max = pos 1;
  back_resos_max = pos 2;
  front_resos_max = if is_cvr build.product then pos 2 else pos 5;
  cif_inputid = pos 0;
  colli_level = 0;
  video_parkingmonitor = 0;
  screenoff_time = negsuc 0;
  bit_rate_per_pixel = 7;
  video_idc = flag (not (is_dv build.product));
  hot_share = 0;
  time_lapse_interval = 0;
  gyro_xl = 0;
  gyro_xh = 0;
  gyro_yl = 0;
  gyro_yh = 0;
  gyro_zl = 0;
  gyro_zh = 0;
  temp_l = 0;
  temp_h = 0;
  license_plate = replicate 24 0;
  license_plate_flag = 0;
  video_flip = 0;
  reboot_cnt = pos 0;
  tv_sec = pos 0;
  rec_file_format = print 8 (codes "mp4");
  rec_audio_enc_format = print 8 (codes "aac");
  carmode = 0;
  dvs_enabled = flag (is_dv build.product);
  photo_param = record { width = pos 1280; height = pos 720; max_num = 7 };
  photo_resos_ptr = build.photo_resolutions;
  photo_resos_max = pos 4;
  photo_burst_num = pos 3;
  isp_max_width = 1280;
  isp_max_height = 720;
  gps_mark = 0;
  gps_watermark = pos 0;
  cam_num = pos 5;
  key_tone_vol = 100;
  photo_burst = false;
  video_lapse = false;
}

module _ {ℓ} {V : Type ℓ} (vendor : Vendor V) (build : Build) where
  -- `r` is the number of rand.
  unfoldable pub parameter_recover : ℕ → Settings V → ℤ × Settings V
  parameter_recover r s = parameter_save vendor (record s { parameter = default_param build r })

  -- The answer is BOOT_FLASHED, which is 1.
  unfoldable pub parameter_init : ℕ → Settings V → ℤ × Settings V
  parameter_init r s =
      let f = parameter_flash_get_flashed vendor s in
      if eq_ℤ f.0 (pos 1)
      then (pos 0, (parameter_flash_clear_flashed vendor (parameter_recover r f.1).1).1)
      else (let p = parameter_param_read vendor f.1 in
          if eq_ℤ p.0 (negsuc 0)
          then parameter_recover r p.1
          else if eq_ℤ p.0 (negsuc 1)
          then (negsuc 0, p.1)
          else if not (same_text (c_string p.1.parameter.pararater_version) param_version)
          then parameter_recover r p.1
          else (pos 0, p.1))
