-- ===== src/Thermal/Sysfs.antt =====
-- power/thermal.c, the helpers that read and write one device file. Each returns the `int` of the C
-- function and the governor after it.
use cvr_video.Base.{ℕ, List, [], ◌∷◌, false, not, ◌&&◌, if◌then◌else◌}
use cvr_video.Base.Int.{ℤ, pos, negsuc, leb_ℤ, eq_ℤ}
use cvr_video.Thermal.{
  DeviceFile, temp_input, ddr_dev, fb_fps_file, brightness_file, kernel_thermal, Reading,
  cannot_open, did_read, World, Governor, write_number, write_char, Action, ddr_400m, ddr_600m,
  ddr_800m, shift_right,
}

abbrev pub minus_one : ℤ
minus_one = negsuc 0

abbrev pub act : Action → Governor → Governor
act a g = record g { actions = a ∷ g.actions }

unfoldable pub temperature_set : World → DeviceFile → ℤ → Governor → ℤ × Governor
temperature_set w path val g =
    if w.opens_for_write path
    then (w.write_result path, act (write_number path val) g)
    else (minus_one, g)

-- The buffer stays empty where the file does not open.
abbrev pub buffer : Reading → List ℕ
buffer cannot_open = []
buffer (did_read ret buf) = buf

unfoldable pub temperature_read : World → ℤ
temperature_read w = w.atoi (buffer (w.reading temp_input))

abbrev pub no_ddr : Governor → Governor
no_ddr g = record g { dev = record (g.dev) { handle_ddr = false } }

-- The state that the file's hexadecimal number stands for.
abbrev pub ddr_of_value : ℤ → ℕ
ddr_of_value v =
    if not (eq_ℤ (shift_right v 17) (pos 0))
    then ddr_400m
    else if not (eq_ℤ (shift_right v 13) (pos 0))
    then ddr_800m
    else ddr_600m

abbrev pub ddr_of_reading : World → Reading → Governor → ℤ × Governor
ddr_of_reading w cannot_open g = (minus_one, no_ddr g)
ddr_of_reading w (did_read ret buf) g =
    if leb_ℤ ret (pos 0) then (ret, no_ddr g) else (pos (ddr_of_value (w.strtol_16 buf)), g)

unfoldable pub get_ddr_state : World → Governor → ℤ × Governor
get_ddr_state w g = ddr_of_reading w (w.reading ddr_dev) g

abbrev pub write_ddr : World → ℕ → Governor → ℤ × Governor
write_ddr w state g =
    if w.opens_for_write ddr_dev
    then (
      w.write_result ddr_dev,
      if leb_ℤ (w.write_result ddr_dev) (pos 0)
          then no_ddr (act (write_char ddr_dev state) g)
          else act (write_char ddr_dev state) g,
    )
    else (minus_one, no_ddr g)

unfoldable pub set_ddr_state : World → ℕ → Governor → ℤ × Governor
unfolding get_ddr_state
set_ddr_state w state g =
    let (current, g') = get_ddr_state w g in
    if eq_ℤ current (pos state) then (pos 0, g') else write_ddr w state g'

abbrev pub no_fb_fps : Governor → Governor
no_fb_fps g = record g { dev = record (g.dev) { handle_fb_fps = false } }

-- `buf + 4`: the text behind "fps:"; the buffer of ten zeros has more than four.
abbrev pub behind_four : List ℕ → List ℕ
behind_four (a ∷ b ∷ c ∷ d ∷ rest) = rest
behind_four _ = []

abbrev pub fps_of_reading : World → Reading → Governor → ℤ × Governor
fps_of_reading w cannot_open g = (w.atoi [], no_fb_fps g)
fps_of_reading w (did_read ret buf) g =
    (w.atoi (behind_four buf), if leb_ℤ ret (pos 0) then no_fb_fps g else g)

unfoldable pub get_fb_fps : World → Governor → ℤ × Governor
get_fb_fps w g = fps_of_reading w (w.reading fb_fps_file) g

abbrev pub write_fb_fps : World → ℤ → Governor → ℤ × Governor
write_fb_fps w fps g =
    let g' =
      act (write_number fb_fps_file fps) (record g { dev = record (g.dev) { cur_fb_fps = fps } }) in
    if w.opens_for_write fb_fps_file
    then (
      w.write_result fb_fps_file,
      if leb_ℤ (w.write_result fb_fps_file) (pos 0) then no_fb_fps g' else g',
    )
    else (minus_one, no_fb_fps g)

unfoldable pub set_fb_fps : World → ℤ → Governor → ℤ × Governor
set_fb_fps w fps g =
    if w.hdmi_connect
    then (minus_one, g)
    else if g.dev.handle_fb_fps && (not (eq_ℤ fps g.dev.cur_fb_fps) && w.screen_state)
    then write_fb_fps w fps g
    else (minus_one, g)

abbrev pub no_brightness : Governor → Governor
no_brightness g = record g { dev = record (g.dev) { handle_brightness = false } }

abbrev pub write_brightness : World → ℤ → Governor → ℤ × Governor
write_brightness w b g =
    let g' =
      act (write_number brightness_file b)
        (record g { dev = record (g.dev) { cur_brightness = b } }) in
    if w.opens_for_write brightness_file
    then (
      w.write_result brightness_file,
      if leb_ℤ (w.write_result brightness_file) (pos 0) then no_brightness g' else g',
    )
    else (minus_one, no_brightness g)

unfoldable pub set_backlight : World → ℤ → Governor → ℤ × Governor
set_backlight w b g =
    if g.dev.handle_brightness && (not (eq_ℤ b g.dev.cur_brightness) && w.screen_state)
    then write_brightness w b g
    else (minus_one, g)

unfoldable pub stop_kernel_thermal : World → Governor → ℤ × Governor
stop_kernel_thermal w g =
    if w.opens_for_write kernel_thermal
    then (w.write_result kernel_thermal, act (write_number kernel_thermal (pos 0)) g)
    else (minus_one, g)
