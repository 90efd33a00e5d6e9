-- ===== src/Parameter/Tests.antt =====
-- Runs of the settings over a storage that holds two cells.
use cvr_video.Base.{◌≡◌, ◌≢◌, ◌⊎◌, refl, List, [], ◌∷◌, true, false, some, arith}
use cvr_video.Base.Int.{ℤ, pos, negsuc}
use cvr_video.Base.Text.{c_string, same_text}
use cvr_video.Parameter.{SysParam, Settings}
use cvr_video.Parameter.Vendor.{
  Vendor, Keeps, parameter_save, parameter_param_write, parameter_vendor_write,
}
use cvr_video.Parameter.Requests.{Request, serve, save_recodetime, save_video_adas_direction}
use cvr_video.Parameter.Init.{Build, cvr, default_param, parameter_init}
use cvr_video.Parameter.Kept.{serve_all, last_saved}
use cvr_video.Parameter.Start.{
  is_current, parameter_init-last_saved, parameter_init-IsCurrent, parameter_init_flashed,
}

record Cells : Type 0 where
  settings : SysParam
  flag : ℤ

-- Requests always succeed.
abbrev two_cells : Vendor Cells
two_cells = record {
  opens = λ v. true;
  read_param = λ v. some v.settings;
  write_param = λ p v. (true, record v { settings = p });
  read_flash = λ v. some v.flag;
  write_flash = λ n v. (true, record v { flag = n });
}

two_cells-Keeps : Keeps two_cells
two_cells-Keeps = record {
  written = λ p v e. refl;
  unwritten = λ p v e. absurd (cc e);
  flash_written = λ n v e. refl;
  param_apart = λ n v. refl;
}

abbrev board : Build
board = record {
  product = cvr;
  pcba_service = false;
  back_video_resolutions = 16;
  front_video_resolutions = 32;
  photo_resolutions = 48;
}

abbrev factory : SysParam
factory = default_param board 7

abbrev started : ℤ → Settings Cells
started flag = record {
  parameter = factory;
  flashed_flag = pos 0;
  debug_standby = 0;
  debug_mode_change = 0;
  debug_photo = 0;
  debug_video = 0;
  debug_beg_end_video = 0;
  debug_temp = 0;
  debug_effect_watermark = 0;
  storage = record { settings = factory; flag = flag };
}

abbrev two_requests : List Request
two_requests = save_recodetime (pos 180) ∷ save_video_adas_direction 60 ∷ []

abbrev three_minutes : SysParam
three_minutes = record factory { recodetime = pos 180 }

abbrev storage_after : Cells
storage_after = record { settings = three_minutes; flag = pos 0 }

served :
    serve_all two_cells two_requests (started (pos 0))
    ≡ some (record (started (pos 0)) {
      parameter = record three_minutes { video_adas_direction = 60 };
      storage = storage_after;
    })
unfolding serve parameter_save parameter_param_write parameter_vendor_write
served = refl

version_is_current : is_current factory ≡ true
unfolding c_string same_text
version_is_current = refl

-- At the next start memory is as it was in the factory, and the direction is the old one.
abbrev restarted : Settings Cells
restarted = record (started (pos 0)) { storage = storage_after }

flag_is_clear : two_cells.read_flash restarted.storage ≢ some (pos 1)
flag_is_clear e = ground (arith, e)

parameter_init-last_saved_example :
    ((parameter_init two_cells board 3 restarted).0 ≡ pos 0)
    × ((parameter_init two_cells board 3 restarted).1.parameter
        ≡ last_saved two_cells two_requests (started (pos 0)) factory)
    × ((parameter_init two_cells board 3 restarted).1.storage ≡ storage_after)
parameter_init-last_saved_example =
    parameter_init-last_saved two_cells board 3 two_requests (started (pos 0))
      (record (started (pos 0)) {
        parameter = record three_minutes { video_adas_direction = 60 };
        storage = storage_after;
      })
      restarted factory two_cells-Keeps refl version_is_current refl served refl refl flag_is_clear

parameter_init-IsCurrent_example :
    (is_current (parameter_init two_cells board 3 (started (pos 1))).1.parameter ≡ true)
    ⊎ ((two_cells.opens (started (pos 1)).storage ≡ false)
        × ((parameter_init two_cells board 3 (started (pos 1))).0 ≡ negsuc 0)
        × ((parameter_init two_cells board 3 (started (pos 1))).1.parameter ≡ factory))
parameter_init-IsCurrent_example = parameter_init-IsCurrent two_cells board 3 (started (pos 1))

parameter_init_flashed_example :
    ((parameter_init two_cells board 3 (started (pos 1))).1.parameter ≡ default_param board 3)
    × (two_cells.read_flash (parameter_init two_cells board 3 (started (pos 1))).1.storage
        ≡ some (pos 0))
    × (two_cells.read_param (parameter_init two_cells board 3 (started (pos 1))).1.storage
        ≡ some (default_param board 3))
parameter_init_flashed_example =
    parameter_init_flashed two_cells board 3 (started (pos 1)) factory two_cells-Keeps refl refl
      refl refl refl
