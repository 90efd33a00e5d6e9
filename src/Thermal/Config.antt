-- ===== src/Thermal/Config.antt =====
-- power/thermal.c, the set-up of the governor: thermal_parse_cfg and thermal_init.
use cvr_video.Base.{List, [], ◌∷◌, true, false, ◌==◌, if◌then◌else◌, replicate}
use cvr_video.Base.Int.{ℤ, pos, ltb_ℤ, leb_ℤ, ◌+ℤ◌, ◌-ℤ◌}
use cvr_video.Thermal.{
  cpu_temp_target, brightness_file, Reading, cannot_open, did_read, World, Device, Governor,
  ddr_400m, to_char,
}
use cvr_video.Thermal.Sysfs.{
  minus_one, temperature_read, get_ddr_state, get_fb_fps, no_brightness, stop_kernel_thermal,
  behind_four,
}
use cvr_video.Thermal.Levels.{thermal_set_alarm}

-- `memset(&thermal_dev, 0, sizeof(thermal_dev))`
abbrev pub zero_device : Device
zero_device = record {
  temp = pos 0;
  ltemp = pos 0;
  htemp = pos 0;
  state = pos 0;
  old_state = pos 0;
  lthreshold = replicate 5 (pos 0);
  hthreshold = replicate 5 (pos 0);
  stop_kernel_thermal = false;
  handle_brightness = false;
  brightness = pos 0;
  cur_brightness = pos 0;
  handle_wifi = false;
  off_wifi = false;
  handle_fb_fps = false;
  fb_fps = pos 0;
  cur_fb_fps = pos 0;
  handle_3dnr = false;
  off_3dnr = false;
  handle_ddr = false;
  ddr_low_power = false;
  ddr_state = 0;
}

abbrev pub lower_thresholds : ℤ → List ℤ
lower_thresholds t = (t -ℤ pos 15) ∷ (t -ℤ pos 5) ∷ t ∷ (t +ℤ pos 10) ∷ (t +ℤ pos 15) ∷ []

abbrev pub upper_thresholds : ℤ → List ℤ
upper_thresholds t = (t -ℤ pos 5) ∷ t ∷ (t +ℤ pos 10) ∷ (t +ℤ pos 15) ∷ (t +ℤ pos 18) ∷ []

-- The device record once the target temperature is known.
unfoldable pub configured : World → ℤ → Device
unfolding ◌+ℤ◌ ◌-ℤ◌
configured w t = record zero_device {
  temp = temperature_read w;
  ltemp = t -ℤ pos 15;
  htemp = t -ℤ pos 5;
  lthreshold = lower_thresholds t;
  hthreshold = upper_thresholds t;
  handle_brightness = true;
  handle_wifi = true;
  handle_3dnr = true;
  handle_ddr = true;
}

abbrev pub cap_target : ℤ → ℤ
cap_target t = if ltb_ℤ (pos 100) t then pos 100 else t

unfoldable pub configure_ddr : World → Governor → Governor
unfolding get_ddr_state
configure_ddr w g =
    let (ret, g1) = get_ddr_state w g in
    let c = to_char ret in
    let g2 = record g1 { dev = record (g1.dev) { ddr_state = c } } in
    if c == ddr_400m then record g2 { dev = record (g2.dev) { handle_ddr = false } } else g2

-- The brightness at the end, with the value to return if its file does not open.
abbrev pub configure_brightness : World → Reading → ℤ → Governor → ℤ × Governor
configure_brightness w cannot_open ret g = (ret, no_brightness g)
configure_brightness w (did_read r buf) ret g = if leb_ℤ r (pos 0) then (r, no_brightness g) else (
  r,
  record g { dev = record (g.dev) { brightness = w.atoi buf; cur_brightness = w.atoi buf } },
)

unfoldable pub configure : World → ℤ → Governor → ℤ × Governor
configure w t g =
    let g1 = configure_ddr w (record g { dev = configured w t }) in
    let (ret, g2) = thermal_set_alarm w g1.dev.ltemp g1.dev.htemp g1 in
    let (fps, g3) = get_fb_fps w g2 in
    let g4 = record g3 { dev = record (g3.dev) { fb_fps = fps } } in
    configure_brightness w (w.reading brightness_file) ret g4

abbrev pub parse_target : World → Reading → Governor → ℤ × Governor
parse_target w cannot_open g = (minus_one, g)
parse_target w (did_read ret buf) g =
    if leb_ℤ ret (pos 0) then (ret, g) else configure w (cap_target (w.atoi (behind_four buf))) g

unfoldable pub thermal_parse_cfg : World → Governor → ℤ × Governor
thermal_parse_cfg w g = parse_target w (w.reading cpu_temp_target) (record g { dev = zero_device })

unfoldable pub thermal_init : World → Governor → ℤ × Governor
thermal_init w g =
    let (ret, g1) = thermal_parse_cfg w g in
    if leb_ℤ ret (pos 0)
    then (minus_one, g1)
    else if g1.dev.stop_kernel_thermal
    then (let (r, g2) = stop_kernel_thermal w g1 in
        if leb_ℤ r (pos 0)
        then (minus_one, record g2 { dev = record (g2.dev) { stop_kernel_thermal = false } })
        else (pos 0, g2))
    else (pos 0, g1)
