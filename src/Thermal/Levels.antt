-- ===== src/Thermal/Levels.antt =====
-- power/thermal.c, the level machine: reading the alarms, acting on a level, one update, and the
-- test cycle. `none` is an array index out of bounds.
use cvr_video.Base.{
  ℕ, ◌+◌, List, [], ◌∷◌, Bool, true, false, not, ◌&&◌, ◌||◌, ◌==◌, if◌then◌else◌, Option, none,
  some, get_elem?, ◌>>=◌,
}
use cvr_video.Base.Int.{ℤ, pos, negsuc, ltb_ℤ, leb_ℤ, eq_ℤ, ◌+ℤ◌, ◌-ℤ◌}
use cvr_video.Thermal.{
  temp_min, temp_min_alarm, temp_max, temp_max_alarm, Reading, cannot_open, did_read, World, Device,
  Governor, wifi_management_start, wifi_management_stop, api_dvs_onoff, ddr_400m, ddr_600m,
  ddr_800m, ddr_exit_low_power,
}
use cvr_video.Thermal.Sysfs.{
  minus_one, act, temperature_set, temperature_read, set_ddr_state, set_fb_fps, set_backlight,
}

abbrev pub at : List ℤ → ℤ → Option ℤ
at xs (pos i) = get_elem? xs i
at xs (negsuc i) = none

-- The alarm of the lower bound: one level down, with the bounds of that level.
abbrev pub lower_state : ℤ → ℤ
lower_state s = if not (eq_ℤ s (pos 0)) then s -ℤ pos 1 else pos 0

unfoldable pub lower_ltemp : Device → ℤ → Option ℤ
unfolding ◌-ℤ◌
lower_ltemp d s = if not (eq_ℤ s (pos 0)) then at d.lthreshold (s -ℤ pos 1) else at d.lthreshold s

unfoldable pub step_down : Device → Option (ℤ × Device)
unfolding lower_ltemp ◌-ℤ◌
step_down d = do
  h ← at d.hthreshold (lower_state d.state)
  l ← lower_ltemp d (lower_state d.state)
  some (lower_state d.state, record d { ltemp = l; htemp = h })

-- The alarm of the upper bound: one level up.
abbrev pub higher_state : ℤ → ℤ
higher_state s = if not (eq_ℤ s (pos 5)) then s +ℤ pos 1 else pos 5

unfoldable pub higher_htemp : Device → ℤ → Option ℤ
unfolding ◌-ℤ◌
higher_htemp d s = if not (eq_ℤ s (pos 5)) then at d.hthreshold s else at d.hthreshold (s -ℤ pos 1)

unfoldable pub step_up : Device → Option (ℤ × Device)
unfolding higher_htemp ◌+ℤ◌ ◌-ℤ◌
step_up d = do
  l ← at d.lthreshold (higher_state d.state -ℤ pos 1)
  h ← higher_htemp d (higher_state d.state)
  some (higher_state d.state, record d { ltemp = l; htemp = h })

unfoldable pub is_set : World → List ℕ → Bool
is_set w buf = not (eq_ℤ (w.atoi buf) (pos 0))

abbrev pub read_max_alarm : World → Reading → Device → Option (ℤ × Device)
read_max_alarm w cannot_open d = some (minus_one, d)
read_max_alarm w (did_read ret buf) d = if is_set w buf then step_up d else some (d.state, d)

abbrev pub read_min_alarm : World → Reading → Device → Option (ℤ × Device)
read_min_alarm w cannot_open d = some (minus_one, d)
read_min_alarm w (did_read ret buf) d =
    if is_set w buf then step_down d else read_max_alarm w (w.reading temp_max_alarm) d

unfoldable pub temperature_get_state : World → Device → Option (ℤ × Device)
temperature_get_state w d =
    read_min_alarm w (w.reading temp_min_alarm) (record d { temp = temperature_read w })

unfoldable pub thermal_set_alarm : World → ℤ → ℤ → Governor → ℤ × Governor
unfolding temperature_set
thermal_set_alarm w min_alarm max_alarm g =
    if ltb_ℤ max_alarm min_alarm || (eq_ℤ min_alarm (pos 0) || eq_ℤ max_alarm (pos 0))
    then (minus_one, g)
    else let (ret, g') = temperature_set w temp_min min_alarm g in
      if leb_ℤ ret (pos 0) then (ret, g') else temperature_set w temp_max max_alarm g'

abbrev pub set_off_3dnr : Bool → Governor → Governor
set_off_3dnr b g = record g { dev = record (g.dev) { off_3dnr = b } }

unfoldable pub handle_level0 : World → Governor → Governor
handle_level0 w g =
    let g1 = (set_backlight w g.dev.brightness g).1 in
    let g2 = if g1.dev.off_3dnr then set_off_3dnr false (record g1 { video_3dnr = 1 }) else g1 in
    act (api_dvs_onoff true) g2

unfoldable pub handle_level1 : World → Governor → Governor
handle_level1 w g =
    let g1 = (set_backlight w (g.dev.brightness -ℤ pos 10) g).1 in
    let g2 =
      if g1.dev.handle_ddr && g1.dev.ddr_state == ddr_800m
      then (set_ddr_state w ddr_800m g1).1
      else g1 in
    let g3 =
      if g2.dev.handle_3dnr && not (g2.video_3dnr == 0)
      then set_off_3dnr true (record g2 { video_3dnr = 0 })
      else g2 in
    act (api_dvs_onoff false) g3

unfoldable pub handle_level2 : World → Governor → Governor
handle_level2 w g =
    let g1 = (set_backlight w (g.dev.brightness -ℤ pos 20) g).1 in
    if g1.dev.handle_ddr && g1.dev.ddr_state == ddr_800m
    then (set_ddr_state w ddr_600m g1).1
    else g1

abbrev pub set_low_power : Bool → Governor → Governor
set_low_power b g = record g { dev = record (g.dev) { ddr_low_power = b } }

unfoldable pub handle_level3 : World → Governor → Governor
handle_level3 w g =
    let g1 = (set_backlight w (g.dev.brightness -ℤ pos 30) g).1 in
    let g2 =
      if g1.dev.off_wifi then act wifi_management_start (record g1 { wifi_en = 1 }) else g1 in
    let g3 = (set_fb_fps w g2.dev.fb_fps g2).1 in
    if g3.dev.ddr_low_power
    then set_low_power false (set_ddr_state w ddr_exit_low_power g3).1
    else g3

abbrev pub wifi_off : Governor → Governor
wifi_off g =
    act wifi_management_stop (record g { dev = record (g.dev) { off_wifi = true }; wifi_en = 0 })

unfoldable pub handle_level4 : World → Governor → Governor
handle_level4 w g =
    let g1 = (set_backlight w (g.dev.brightness -ℤ pos 40) g).1 in
    let g2 = if g1.dev.handle_wifi && not (g1.wifi_en == 0) then wifi_off g1 else g1 in
    let g3 = (set_fb_fps w (g2.dev.fb_fps -ℤ pos 10) g2).1 in
    if g3.dev.handle_ddr && not g3.dev.ddr_low_power
    then set_low_power true (set_ddr_state w ddr_400m g3).1
    else g3

unfoldable pub thermal_handle : World → ℤ → Governor → Governor
thermal_handle w state g =
    if eq_ℤ state (pos 0)
    then handle_level0 w g
    else if eq_ℤ state (pos 1)
    then handle_level1 w g
    else if eq_ℤ state (pos 2)
    then handle_level2 w g
    else if eq_ℤ state (pos 3)
    then handle_level3 w g
    else if eq_ℤ state (pos 4)
    then handle_level4 w g
    else g

abbrev pub valid_state : ℤ → Bool
valid_state s = not (ltb_ℤ s (pos 0) || ltb_ℤ (pos 5) s)

-- The part of an update that follows a change of level.
unfoldable pub enter_level : World → Governor → Governor
enter_level w g =
    let g1 = record g { dev = record (g.dev) { old_state = g.dev.state } } in
    let g2 = if g1.debug_temp == 0 then thermal_handle w g1.dev.state g1 else g1 in
    (thermal_set_alarm w g2.dev.ltemp g2.dev.htemp g2).1

abbrev pub after_reading : World → ℤ → Device → Governor → Governor
after_reading w state d g =
    let g1 = record g { dev = record d { state = state } } in
    if valid_state state && not (eq_ℤ g1.dev.old_state state) then enter_level w g1 else g1

unfoldable pub thermal_update_state : World → Governor → Option Governor
thermal_update_state w g = do
  (state, d) ← temperature_get_state w g.dev
  some (after_reading w state d g)

-- The levels that the ten rounds of the test cycle put in force.
abbrev pub test_levels : List ℕ
test_levels = 1 ∷ 2 ∷ 3 ∷ 4 ∷ 5 ∷ 4 ∷ 3 ∷ 2 ∷ 1 ∷ 0 ∷ []

abbrev pub test_round : World → ℕ → Option ℕ → Governor → Governor
test_round w num none g = record g { test_num = num }
test_round w num (some level) g = thermal_handle w (pos level) (record g {
  dev = record (g.dev) { state = pos level };
  test_num = if num == 10 then 0 else num;
})

-- `num` is at least 1 after its increment.
unfoldable pub thermal_test : World → Governor → Governor
thermal_test w g = test_round w (g.test_num + 1) (get_elem? test_levels g.test_num) g

unfoldable pub thermal_get_status : World → Governor → ℤ × Governor
thermal_get_status w g =
    let g' = if g.debug_temp == 0 then g else thermal_test w g in (g'.dev.state, g')
