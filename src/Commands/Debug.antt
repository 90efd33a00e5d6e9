-- ===== src/Commands/Debug.antt =====
-- wifi_debug_interface.c, with the functions of menu_commond.c that it calls: setting and reporting the
-- debug switches. `none` is a place behind the end of the buffer.
use cvr_video.Base.{
  ℕ, ◌+◌, List, [], ◌∷◌, ◌++◌, ◌==◌, leb, if◌then◌else◌, Option, none, some, length, drop,
}
use cvr_video.Base.Int.{ℤ, pos, negsuc}
use cvr_video.Base.Text.{codes, c_string, same_text}
use cvr_video.Parameter.{Settings}
use cvr_video.Parameter.Vendor.{Vendor}
use cvr_video.Parameter.Saves.Device.{parameter_save_debug_reboot, parameter_save_debug_recovery}
use cvr_video.Parameter.Saves.Unsaved.{
  parameter_save_debug_standby, parameter_save_debug_modechange, parameter_save_debug_video,
  parameter_save_debug_beg_end_video, parameter_save_debug_photo, parameter_save_debug_temp,
}
use cvr_video.Commands.{text_from}

-- What the setting functions share: "off" saves 0, "on" saves 1, and nothing else is saved.
unfoldable pub set_switch {ℓ} :
    {V : Type ℓ} → (ℕ → Settings V → ℤ × Settings V) → List ℕ → Settings V → ℤ × Settings V
set_switch save str s =
    if same_text str (codes "off")
    then (pos 0, (save 0 s).1)
    else if same_text str (codes "on")
    then (pos 0, (save 1 s).1)
    else (pos 0, s)

-- STR_DEBUG_ARGSETTING
abbrev pub str_debug_argsetting : List ℕ
str_debug_argsetting = codes "CMD_DEBUG_ARGSETTING"

-- `struct type_cmd_debug`
pub record DebugCommand {ℓ} (V : Type ℓ) : Type ℓ where
  pub func : List ℕ → Settings V → ℤ × Settings V
  pub cmd : List ℕ

-- "off" for 0, "on" for any other value.
abbrev pub on_off : ℕ → List ℕ
on_off arg = if arg == 0 then codes "off" else codes "on"

abbrev pub bit_rate_text : ℕ → List ℕ
bit_rate_text arg =
    if arg == 1
    then codes "1"
    else if arg == 2
    then codes "2"
    else if arg == 4
    then codes "4"
    else if arg == 6
    then codes "6"
    else if arg == 8
    then codes "8"
    else if arg == 10
    then codes "10"
    else if arg == 12
    then codes "12"
    else codes "error"

module _ {ℓ} {V : Type ℓ} where
  abbrev pub get_reboot_parameter : Settings V → ℕ
  get_reboot_parameter s = s.parameter.debug_reboot

  abbrev pub get_recover_parameter : Settings V → ℕ
  get_recover_parameter s = s.parameter.debug_recovery

  abbrev pub get_standby_parameter : Settings V → ℕ
  get_standby_parameter s = s.debug_standby

  abbrev pub get_mode_change_parameter : Settings V → ℕ
  get_mode_change_parameter s = s.debug_mode_change

  abbrev pub get_video_parameter : Settings V → ℕ
  get_video_parameter s = s.debug_video

  abbrev pub get_beg_end_video_parameter : Settings V → ℕ
  get_beg_end_video_parameter s = s.debug_beg_end_video

  abbrev pub get_photo_parameter : Settings V → ℕ
  get_photo_parameter s = s.debug_photo

  abbrev pub get_temp_parameter : Settings V → ℕ
  get_temp_parameter s = s.debug_temp

  abbrev pub get_video_bitrate_parameter : Settings V → ℕ
  get_video_bitrate_parameter s = s.parameter.bit_rate_per_pixel

  -- The text that is written to the client.
  unfoldable pub debug_setting_get_cmd_resolve : Settings V → List ℕ
  debug_setting_get_cmd_resolve s =
      codes "CMD_ACK_GET_DEBUG_ARGSETTING"
      ++ (codes "reboot:"
          ++ on_off (get_reboot_parameter s)
          ++ (codes "recovery:"
              ++ on_off (get_recover_parameter s)
              ++ (codes "standby:"
                  ++ on_off (get_standby_parameter s)
                  ++ (codes "mode_change:"
                      ++ on_off (get_mode_change_parameter s)
                      ++ (codes "debug_video:"
                          ++ on_off (get_video_parameter s)
                          ++ (codes "begin_end_video:"
                              ++ on_off (get_beg_end_video_parameter s)
                              ++ (codes "photo:"
                                  ++ on_off (get_photo_parameter s)
                                  ++ (codes "temp_control:"
                                      ++ on_off (get_temp_parameter s)
                                      ++ (codes "temp_video_bit_rate_per_pixel:"
                                          ++ bit_rate_text (get_video_bitrate_parameter s))))))))))

  -- The loop over the table.
  unfoldable pub resolve_debug :
      List (DebugCommand V) → List ℕ → Settings V → Option (ℤ × Settings V)
  resolve_debug [] cmdstr s = some (negsuc 0, s)
  resolve_debug (c ∷ table) cmdstr s =
      let rest = resolve_debug table cmdstr s in
      let place = length str_debug_argsetting + 1 + length c.cmd in
      elim (text_from c.cmd cmdstr) [
        | none ↦ rest
        | some _ ↦
            if leb place (length cmdstr)
            then some (c.func (c_string (drop place cmdstr)) s)
            else none
      ]

module _ {ℓ} {V : Type ℓ} (vendor : Vendor V) where
  abbrev pub setting_func_reboot_ui : List ℕ → Settings V → ℤ × Settings V
  setting_func_reboot_ui str s = set_switch (parameter_save_debug_reboot vendor) str s

  abbrev pub setting_func_recover_ui : List ℕ → Settings V → ℤ × Settings V
  setting_func_recover_ui str s = set_switch (parameter_save_debug_recovery vendor) str s

  abbrev pub setting_func_standby_ui : List ℕ → Settings V → ℤ × Settings V
  setting_func_standby_ui str s = set_switch parameter_save_debug_standby str s

  abbrev pub setting_func_modechange_ui : List ℕ → Settings V → ℤ × Settings V
  setting_func_modechange_ui str s = set_switch parameter_save_debug_modechange str s

  abbrev pub setting_func_video_ui : List ℕ → Settings V → ℤ × Settings V
  setting_func_video_ui str s = set_switch parameter_save_debug_video str s

  abbrev pub setting_func_begin_end_video_ui : List ℕ → Settings V → ℤ × Settings V
  setting_func_begin_end_video_ui str s = set_switch parameter_save_debug_beg_end_video str s

  abbrev pub setting_func_photo_ui : List ℕ → Settings V → ℤ × Settings V
  setting_func_photo_ui str s = set_switch parameter_save_debug_photo str s

  abbrev pub setting_func_temp_ui : List ℕ → Settings V → ℤ × Settings V
  setting_func_temp_ui str s = set_switch parameter_save_debug_temp str s

  abbrev pub cmd_debug_setting_tab : List (DebugCommand V)
  cmd_debug_setting_tab =
      record { func = setting_func_reboot_ui; cmd = codes "debug_reboot" }
      ∷ record { func = setting_func_recover_ui; cmd = codes "debug_recovery" }
      ∷ record { func = setting_func_standby_ui; cmd = codes "debug_standby" }
      ∷ record { func = setting_func_modechange_ui; cmd = codes "debug_mode_change" }
      ∷ record { func = setting_func_video_ui; cmd = codes "debug_video" }
      ∷ record { func = setting_func_begin_end_video_ui; cmd = codes "debug_beg_end_video" }
      ∷ record { func = setting_func_photo_ui; cmd = codes "debug_photo" }
      ∷ record { func = setting_func_temp_ui; cmd = codes "debug_temp_control" }
      ∷ []

  unfoldable pub debug_setting_cmd_resolve : List ℕ → Settings V → Option (ℤ × Settings V)
  debug_setting_cmd_resolve cmdstr s = resolve_debug cmd_debug_setting_tab cmdstr s
