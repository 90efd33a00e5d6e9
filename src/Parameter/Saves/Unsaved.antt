-- ===== src/Parameter/Saves/Unsaved.antt =====
-- parameter.c: the functions that set a value in memory only.
use cvr_video.Base.{ℕ}
use cvr_video.Base.Int.{ℤ, pos}
use cvr_video.Parameter.{Settings}

module _ {ℓ} {V : Type ℓ} where
  abbrev pub parameter_save_video_adas_direction : ℕ → Settings V → ℤ × Settings V
  parameter_save_video_adas_direction direction s =
      (pos 0, record s { parameter = record s.parameter { video_adas_direction = direction } })

  abbrev pub parameter_save_debug_standby : ℕ → Settings V → ℤ × Settings V
  parameter_save_debug_standby resolution s = (pos 0, record s { debug_standby = resolution })

  abbrev pub parameter_save_debug_modechange : ℕ → Settings V → ℤ × Settings V
  parameter_save_debug_modechange resolution s =
      (pos 0, record s { debug_mode_change = resolution })

  abbrev pub parameter_save_debug_video : ℕ → Settings V → ℤ × Settings V
  parameter_save_debug_video resolution s = (pos 0, record s { debug_video = resolution })

  abbrev pub parameter_save_debug_beg_end_video : ℕ → Settings V → ℤ × Settings V
  parameter_save_debug_beg_end_video resolution s =
      (pos 0, record s { debug_beg_end_video = resolution })

  abbrev pub parameter_save_debug_photo : ℕ → Settings V → ℤ × Settings V
  parameter_save_debug_photo resolution s = (pos 0, record s { debug_photo = resolution })

  abbrev pub parameter_save_debug_temp : ℕ → Settings V → ℤ × Settings V
  parameter_save_debug_temp resolution s = (pos 0, record s { debug_temp = resolution })

  abbrev pub parameter_save_debug_effect_watermark : ℕ → Settings V → ℤ × Settings V
  parameter_save_debug_effect_watermark value s =
      (pos 0, record s { debug_effect_watermark = value })
