-- ===== src/Commands/Switches.antt =====
-- wifi_debug_interface.c: a command that sets a switch, and the report that follows.
use cvr_video.Base.{
  ℕ, List, [], ◌∷◌, ◌++◌, ◌≡◌, refl, ap, ap₂, Bool-cases, inl, inr, ◌∙◌, Bool, true, false, some,
  set,
}
use cvr_video.Base.Int.{pos, ltb_ℤ}
use cvr_video.Base.Text.{codes, c_string, same_text, starts_with}
use cvr_video.Parameter.{Settings}
use cvr_video.Parameter.Vendor.{Vendor, parameter_save, parameter_param_write}
use cvr_video.Commands.{text_from}
use cvr_video.Commands.Debug.{
  set_switch, str_debug_argsetting, on_off, bit_rate_text, debug_setting_get_cmd_resolve,
  resolve_debug, debug_setting_cmd_resolve,
}

pub data Switch : Type 0 where
  reboot_switch : Switch
  recovery_switch : Switch
  standby_switch : Switch
  mode_change_switch : Switch
  video_switch : Switch
  beg_end_video_switch : Switch
  photo_switch : Switch
  temp_switch : Switch

-- What a client writes for it, its place in the report, and its label there.
abbrev pub cmd_of : Switch → List ℕ
cmd_of reboot_switch = codes "debug_reboot"
cmd_of recovery_switch = codes "debug_recovery"
cmd_of standby_switch = codes "debug_standby"
cmd_of mode_change_switch = codes "debug_mode_change"
cmd_of video_switch = codes "debug_video"
cmd_of beg_end_video_switch = codes "debug_beg_end_video"
cmd_of photo_switch = codes "debug_photo"
cmd_of temp_switch = codes "debug_temp_control"

abbrev pub place_of : Switch → ℕ
place_of reboot_switch = 0
place_of recovery_switch = 1
place_of standby_switch = 2
place_of mode_change_switch = 3
place_of video_switch = 4
place_of beg_end_video_switch = 5
place_of photo_switch = 6
place_of temp_switch = 7

abbrev labels : List (List ℕ)
labels =
    codes "reboot:"
    ∷ codes "recovery:"
    ∷ codes "standby:"
    ∷ codes "mode_change:"
    ∷ codes "debug_video:"
    ∷ codes "begin_end_video:"
    ∷ codes "photo:"
    ∷ codes "temp_control:"
    ∷ []

abbrev pub setting_of : Bool → List ℕ
setting_of false = codes "off"
setting_of true = codes "on"

abbrev pub value_of : Bool → ℕ
value_of false = 0
value_of true = 1

abbrev labelled : List (List ℕ) → List ℕ → List ℕ → List ℕ
labelled [] values more = more
labelled (l ∷ ls) [] more = more
labelled (l ∷ ls) (v ∷ values) more = l ++ on_off v ++ labelled ls values more

-- The report of the values of the switches and of the bit rate.
abbrev pub report : List ℕ → ℕ → List ℕ
report values rate =
    codes "CMD_ACK_GET_DEBUG_ARGSETTING"
    ++ labelled labels values (codes "temp_video_bit_rate_per_pixel:" ++ bit_rate_text rate)

module _ {ℓ} {V : Type ℓ} where
  abbrev pub switches : Settings V → List ℕ
  switches s =
      s.parameter.debug_reboot ∷ s.parameter.debug_recovery ∷ s.debug_standby ∷ s.debug_mode_change
      ∷ s.debug_video ∷ s.debug_beg_end_video ∷ s.debug_photo ∷ s.debug_temp ∷ []

  debug_setting_get_cmd_resolve-report :
      (s : Settings V)
      → debug_setting_get_cmd_resolve s ≡ report (switches s) s.parameter.bit_rate_per_pixel
  unfolding debug_setting_get_cmd_resolve
  debug_setting_get_cmd_resolve-report s = refl

module _ {ℓ} {V : Type ℓ} (vendor : Vendor V) where
  parameter_save_state :
      (s : Settings V) → (parameter_save vendor s).1 ≡ (parameter_param_write vendor s).1
  unfolding parameter_save
  parameter_save_state s = elim (Bool-cases (ltb_ℤ (parameter_param_write vendor s).0 (pos 0))) [
    | inl e ↦ rw (e) refl
    | inr e ↦ rw (e) refl
  ]

  debug_setting_cmd_resolve-switches :
      (k : Switch) (b : Bool) (s : Settings V)
      → (s' : Settings V) × (debug_setting_cmd_resolve vendor
            (str_debug_argsetting ++ cmd_of k ++ b':' ∷ setting_of b ++ 0 ∷ [])
            s
          ≡ some (pos 0, s'))
        × (switches s' ≡ set (switches s) (place_of k) (value_of b))
        × (s'.parameter.bit_rate_per_pixel ≡ s.parameter.bit_rate_per_pixel)
  unfolding debug_setting_cmd_resolve resolve_debug set_switch text_from starts_with same_text
      c_string parameter_param_write
  debug_setting_cmd_resolve-switches reboot_switch false s = (
    _,
    refl,
    ap switches (parameter_save_state _),
    ap (λ t. t.parameter.bit_rate_per_pixel) (parameter_save_state _),
  )
  debug_setting_cmd_resolve-switches reboot_switch true s = (
    _,
    refl,
    ap switches (parameter_save_state _),
    ap (λ t. t.parameter.bit_rate_per_pixel) (parameter_save_state _),
  )
  debug_setting_cmd_resolve-switches recovery_switch false s = (
    _,
    refl,
    ap switches (parameter_save_state _),
    ap (λ t. t.parameter.bit_rate_per_pixel) (parameter_save_state _),
  )
  debug_setting_cmd_resolve-switches recovery_switch true s = (
    _,
    refl,
    ap switches (parameter_save_state _),
    ap (λ t. t.parameter.bit_rate_per_pixel) (parameter_save_state _),
  )
  debug_setting_cmd_resolve-switches standby_switch false s = (_, refl, refl, refl)
  debug_setting_cmd_resolve-switches standby_switch true s = (_, refl, refl, refl)
  debug_setting_cmd_resolve-switches mode_change_switch false s = (_, refl, refl, refl)
  debug_setting_cmd_resolve-switches mode_change_switch true s = (_, refl, refl, refl)
  debug_setting_cmd_resolve-switches video_switch false s = (_, refl, refl, refl)
  debug_setting_cmd_resolve-switches video_switch true s = (_, refl, refl, refl)
  debug_setting_cmd_resolve-switches beg_end_video_switch false s = (_, refl, refl, refl)
  debug_setting_cmd_resolve-switches beg_end_video_switch true s = (_, refl, refl, refl)
  debug_setting_cmd_resolve-switches photo_switch false s = (_, refl, refl, refl)
  debug_setting_cmd_resolve-switches photo_switch true s = (_, refl, refl, refl)
  debug_setting_cmd_resolve-switches temp_switch false s = (_, refl, refl, refl)
  debug_setting_cmd_resolve-switches temp_switch true s = (_, refl, refl, refl)

  -- A command for a debug switch, with a colon between its name and "on" or "off", succeeds, and the
  -- report afterwards is the one before with the value of that switch set: every other switch and the
  -- bit rate are reported as they were, also when the storage does not take the settings.
  pub debug_setting_cmd_resolve-report :
      (k : Switch) (b : Bool) (s : Settings V)
      → (s' : Settings V) × (debug_setting_cmd_resolve vendor
            (str_debug_argsetting ++ cmd_of k ++ b':' ∷ setting_of b ++ 0 ∷ [])
            s
          ≡ some (pos 0, s'))
        × (debug_setting_get_cmd_resolve s'
            ≡ report (set (switches s) (place_of k) (value_of b)) s.parameter.bit_rate_per_pixel)
  debug_setting_cmd_resolve-report k b s =
      let (s', e, f, g) = debug_setting_cmd_resolve-switches k b s in
      (s', e, debug_setting_get_cmd_resolve-report s' ∙ ap₂ report f g)
