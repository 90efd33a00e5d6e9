-- ===== src/Commands/Tests.antt =====
-- Runs of the commands, with handlers that note the places of their commands.
use cvr_video.Base.{ℕ, ◌≡◌, refl, ◌++◌, List, [], ◌∷◌, true, false, none, some}
use cvr_video.Base.Int.{pos, negsuc}
use cvr_video.Base.Text.{codes, starts_with}
use cvr_video.Parameter.{Settings}
use cvr_video.Parameter.Vendor.{Vendor}
use cvr_video.Parameter.Init.{cvr, default_param}
use cvr_video.Commands.{Command, text_from, find_command, resolve_loop, cmd_resolve, cmd_tab}
use cvr_video.Commands.Debug.{
  str_debug_argsetting, debug_setting_cmd_resolve, debug_setting_get_cmd_resolve,
}
use cvr_video.Commands.Switches.{recovery_switch, report, debug_setting_cmd_resolve-report}
use cvr_video.Commands.Resolve.{Answers, cmd_resolve-Answers, cmd_resolve_misses}

abbrev noted : ℕ → List ℕ → List ℕ → List ℕ × List ℕ
noted i bytes s = (bytes, i ∷ s)

abbrev heart : Command (List ℕ)
heart = record { func = noted 28; cmd = codes "CMD_HEART" }

abbrev both : List ℕ
both = codes "CMD_HEARTCMD_GETWIFI"

-- In the other order, both commands are handled.
handled : cmd_resolve (cmd_tab noted) (codes "CMD_GETWIFICMD_HEART") [] ≡ some (pos 0, 28 ∷ 0 ∷ [])
unfolding cmd_resolve resolve_loop text_from find_command starts_with
handled = refl

cmd_resolve-Answers_example : Answers (cmd_resolve (cmd_tab noted) both [])
cmd_resolve-Answers_example = cmd_resolve-Answers noted (λ i bytes s. refl) both []

cmd_resolve_misses_example :
    cmd_resolve (cmd_tab noted) (both ++ 0 ∷ []) [] ≡ some (negsuc 0, 28 ∷ [])
unfolding text_from find_command starts_with
cmd_resolve_misses_example =
    cmd_resolve_misses noted (both ++ 0 ∷ []) (both ++ 0 ∷ []) (0 ∷ []) [] heart refl refl refl

-- A storage that never opens.
abbrev closed : Vendor ℕ
closed = record {
  opens = λ v. false;
  read_param = λ v. none;
  write_param = λ p v. (false, v);
  read_flash = λ v. none;
  write_flash = λ n v. (false, v);
}

abbrev fresh : Settings ℕ
fresh = record {
  parameter =
      default_param
        (record {
          product = cvr;
          pcba_service = false;
          back_video_resolutions = 16;
          front_video_resolutions = 32;
          photo_resolutions = 48;
        })
        7;
  flashed_flag = pos 0;
  debug_standby = 0;
  debug_mode_change = 0;
  debug_photo = 1;
  debug_video = 0;
  debug_beg_end_video = 0;
  debug_temp = 0;
  debug_effect_watermark = 0;
  storage = 0;
}

debug_setting_cmd_resolve-report_example :
    (s' : Settings ℕ) × (debug_setting_cmd_resolve closed
        (str_debug_argsetting ++ codes "debug_recovery" ++ b':' ∷ codes "on" ++ 0 ∷ [])
        fresh
      ≡ some (pos 0, s'))
    × (debug_setting_get_cmd_resolve s'
        ≡ report (0 ∷ 1 ∷ 0 ∷ 0 ∷ 0 ∷ 0 ∷ 1 ∷ 0 ∷ []) fresh.parameter.bit_rate_per_pixel)
debug_setting_cmd_resolve-report_example =
    debug_setting_cmd_resolve-report closed recovery_switch true fresh
