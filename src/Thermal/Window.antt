-- ===== src/Thermal/Window.antt =====
-- The temperature window of each level, and the invariant of the device record around updates.
use cvr_video.Base.{ℕ, zero, suc, ◌-◌, ◌≤◌, ◌≡◌, List, Bool, true, false, some, arith}
use cvr_video.Base.Int.{ℤ, pos, ◌+ℤ◌, ◌-ℤ◌}
use cvr_video.Thermal.{temp_min_alarm, temp_max_alarm, did_read, World, Device, Governor}
use cvr_video.Thermal.Sysfs.{temperature_read, set_ddr_state, set_fb_fps, set_backlight}
use cvr_video.Thermal.Levels.{
  is_set, step_down, step_up, temperature_get_state, thermal_set_alarm, handle_level0,
  handle_level1, handle_level2, handle_level3, handle_level4, thermal_handle,
}
use cvr_video.Thermal.Config.{lower_thresholds, upper_thresholds}

-- The bounds that the governor asks the sensor to watch in level `n`, for the target temperature
-- `t`: neighbouring windows overlap, so a level is not left at the temperature that entered it.
abbrev pub low_bound : ℤ → ℕ → ℤ
low_bound t zero = t -ℤ pos 15
low_bound t (suc zero) = t -ℤ pos 15
low_bound t (suc (suc zero)) = t -ℤ pos 5
low_bound t (suc (suc (suc zero))) = t
low_bound t (suc (suc (suc (suc zero)))) = t +ℤ pos 10
low_bound t _ = t +ℤ pos 15

abbrev pub high_bound : ℤ → ℕ → ℤ
high_bound t zero = t -ℤ pos 5
high_bound t (suc zero) = t
high_bound t (suc (suc zero)) = t +ℤ pos 10
high_bound t (suc (suc (suc zero))) = t +ℤ pos 15
high_bound t _ = t +ℤ pos 18

-- The level after the two alarms: the lower one wins, and the ends of the scale stay.
abbrev pub next_level : ℕ → Bool → Bool → ℕ
next_level n true hot = n - 1
next_level zero false true = 1
next_level (suc zero) false true = 2
next_level (suc (suc zero)) false true = 3
next_level (suc (suc (suc zero))) false true = 4
next_level _ false true = 5
next_level n false false = n

-- A device in level `n`, with the thresholds of the target `t` and the window of its level.
pub record IsTuned (t : ℤ) (n : ℕ) (d : Device) : Type 0 where
  pub level : d.state ≡ pos n
  pub in_scale : n ≤ 5
  pub lower : d.lthreshold ≡ lower_thresholds t
  pub upper : d.hthreshold ≡ upper_thresholds t
  pub low : d.ltemp ≡ low_bound t n
  pub high : d.htemp ≡ high_bound t n

abbrev pub tuned : ℤ → ℕ → World → Device → Device
tuned t m w d = record d {
  temp = temperature_read w;
  ltemp = low_bound t m;
  htemp = high_bound t m;
}

pub step_down_tuned :
    (t : ℤ) (n : ℕ) (d : Device)
    → IsTuned t n d
    → step_down d
      ≡ some (pos (n - 1), record d { ltemp = low_bound t (n - 1); htemp = high_bound t (n - 1) })
unfolding step_down ◌-ℤ◌
step_down_tuned t zero d v = ground arith
step_down_tuned t (suc zero) d v = ground arith
step_down_tuned t (suc (suc zero)) d v = ground arith
step_down_tuned t (suc (suc (suc zero))) d v = ground arith
step_down_tuned t (suc (suc (suc (suc zero)))) d v = ground arith
step_down_tuned t (suc (suc (suc (suc (suc zero))))) d v = ground arith
step_down_tuned t (suc (suc (suc (suc (suc (suc n)))))) d v = absurd (omega (arith, v.in_scale))

step_up_tuned :
    (t : ℤ) (n : ℕ) (d : Device)
    → IsTuned t n d
    → let m = next_level n false true in
      step_up d ≡ some (pos m, record d { ltemp = low_bound t m; htemp = high_bound t m })
unfolding step_up ◌-ℤ◌
step_up_tuned t zero d v = ground arith
step_up_tuned t (suc zero) d v = ground arith
step_up_tuned t (suc (suc zero)) d v = ground arith
step_up_tuned t (suc (suc (suc zero))) d v = ground arith
step_up_tuned t (suc (suc (suc (suc zero)))) d v = ground arith
step_up_tuned t (suc (suc (suc (suc (suc zero))))) d v = ground arith
step_up_tuned t (suc (suc (suc (suc (suc (suc n)))))) d v = absurd (omega (arith, v.in_scale))

-- Reading the alarms of a tuned device takes the level and the window that the two alarms call for,
-- and stays inside the threshold arrays.
pub get_state_tuned :
    (t : ℤ) (n : ℕ) (w : World) (d : Device) (cold hot : List ℕ) (r s : ℤ)
    → IsTuned t n d
    → w.reading temp_min_alarm ≡ did_read r cold
    → w.reading temp_max_alarm ≡ did_read s hot
    → let m = next_level n (is_set w cold) (is_set w hot) in
      temperature_get_state w d ≡ some (pos m, tuned t m w d)
unfolding temperature_get_state
get_state_tuned t n w d cold hot r s v rc rh =
    ground (arith, step_down_tuned t n d' v', step_up_tuned t n d' v')
  where
    d' : Device
    d' = record d { temp = temperature_read w }

    v' : IsTuned t n d'
    v' = record {
      level = v.level;
      in_scale = v.in_scale;
      lower = v.lower;
      upper = v.upper;
      low = v.low;
      high = v.high;
    }

-- What acting on a level leaves alone.
pub record Keeps (g h : Governor) : Type 0 where
  pub state : h.dev.state ≡ g.dev.state
  pub old_state : h.dev.old_state ≡ g.dev.old_state
  pub lower : h.dev.lthreshold ≡ g.dev.lthreshold
  pub upper : h.dev.hthreshold ≡ g.dev.hthreshold
  pub low : h.dev.ltemp ≡ g.dev.ltemp
  pub high : h.dev.htemp ≡ g.dev.htemp
  pub test_num : h.test_num ≡ g.test_num
  pub debug_temp : h.debug_temp ≡ g.debug_temp

set_backlight-Keeps : (w : World) (b : ℤ) (g : Governor) → Keeps g (set_backlight w b g).1
unfolding set_backlight
set_backlight-Keeps w b g = ground arith

set_ddr_state-Keeps : (w : World) (c : ℕ) (g : Governor) → Keeps g (set_ddr_state w c g).1
unfolding set_ddr_state
set_ddr_state-Keeps w c g = ground arith

set_fb_fps-Keeps : (w : World) (f : ℤ) (g : Governor) → Keeps g (set_fb_fps w f g).1
unfolding set_fb_fps
set_fb_fps-Keeps w f g = ground arith

pub thermal_set_alarm-Keeps :
    (w : World) (a b : ℤ) (g : Governor) → Keeps g (thermal_set_alarm w a b g).1
unfolding thermal_set_alarm
thermal_set_alarm-Keeps w a b g = ground arith

ruleset keeping = (arith, set_backlight-Keeps, set_ddr_state-Keeps, set_fb_fps-Keeps)

level0-Keeps : (w : World) (g : Governor) → Keeps g (handle_level0 w g)
unfolding handle_level0
level0-Keeps w g = grind keeping

level1-Keeps : (w : World) (g : Governor) → Keeps g (handle_level1 w g)
unfolding handle_level1
level1-Keeps w g = grind keeping

level2-Keeps : (w : World) (g : Governor) → Keeps g (handle_level2 w g)
unfolding handle_level2
level2-Keeps w g = grind keeping

level3-Keeps : (w : World) (g : Governor) → Keeps g (handle_level3 w g)
unfolding handle_level3
level3-Keeps w g = grind keeping

level4-Keeps : (w : World) (g : Governor) → Keeps g (handle_level4 w g)
unfolding handle_level4
level4-Keeps w g = grind keeping

pub thermal_handle-Keeps : (w : World) (s : ℤ) (g : Governor) → Keeps g (thermal_handle w s g)
unfolding thermal_handle
thermal_handle-Keeps w s g = ground (
  arith,
  level0-Keeps w g,
  level1-Keeps w g,
  level2-Keeps w g,
  level3-Keeps w g,
  level4-Keeps w g,
)
