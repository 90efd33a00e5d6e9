-- ===== src/Thermal/Throttle.antt =====
-- What the levels switch off and on again: wifi, the 3D noise reduction; the test cycle; and whole
-- histories of updates.
use cvr_video.Base.{
  ◌>>=◌, ℕ, zero, suc, ◌+◌, ◌<◌, ◌≡◌, ◌≢◌, refl, List, [], ◌∷◌, true, false, ◌==◌, if◌then◌else◌,
  Option, some, arith, get_elem?, get_or, length, ◌%◌, ap₂, sym, ◌∙◌,
}
use cvr_video.Base.Int.{ℤ, pos}
use cvr_video.Thermal.{temp_min_alarm, temp_max_alarm, did_read, World, Governor}
use cvr_video.Thermal.Sysfs.{set_backlight, set_fb_fps, set_ddr_state}
use cvr_video.Thermal.Levels.{
  is_set, handle_level0, handle_level1, handle_level3, handle_level4, thermal_update_state,
  test_levels, thermal_test, thermal_get_status,
}
use cvr_video.Thermal.Window.{next_level, IsTuned, thermal_handle-Keeps}
use cvr_video.Thermal.Updates.{update-IsTuned}

-- What the helpers behind a level leave alone of the switches.
record Steady (g h : Governor) : Type 0 where
  off_wifi : h.dev.off_wifi ≡ g.dev.off_wifi
  handle_wifi : h.dev.handle_wifi ≡ g.dev.handle_wifi
  wifi_en : h.wifi_en ≡ g.wifi_en
  off_3dnr : h.dev.off_3dnr ≡ g.dev.off_3dnr
  handle_3dnr : h.dev.handle_3dnr ≡ g.dev.handle_3dnr
  video_3dnr : h.video_3dnr ≡ g.video_3dnr

set_backlight-Steady : (w : World) (b : ℤ) (g : Governor) → Steady g (set_backlight w b g).1
unfolding set_backlight
set_backlight-Steady w b g = ground arith

set_ddr_state-Steady : (w : World) (c : ℕ) (g : Governor) → Steady g (set_ddr_state w c g).1
unfolding set_ddr_state
set_ddr_state-Steady w c g = ground arith

set_fb_fps-Steady : (w : World) (f : ℤ) (g : Governor) → Steady g (set_fb_fps w f g).1
unfolding set_fb_fps
set_fb_fps-Steady w f g = ground arith

ruleset steady = (arith, set_backlight-Steady, set_ddr_state-Steady, set_fb_fps-Steady)

level0_switches :
    (w : World) (g : Governor)
    → let h = handle_level0 w g in
      (h.video_3dnr ≡ (if g.dev.off_3dnr then 1 else g.video_3dnr)) × (h.dev.off_3dnr ≡ false)
unfolding handle_level0
level0_switches w g = grind steady

level1_switches :
    (w : World) (g : Governor)
    → g.dev.handle_3dnr ≡ true
    → let h = handle_level1 w g in
      (h.video_3dnr ≡ 0) × (h.dev.off_3dnr ≡ (if g.video_3dnr == 0 then g.dev.off_3dnr else true))
unfolding handle_level1
level1_switches w g e = grind steady

-- The noise reduction that level 1 switches off is on again after level 0, and is off after it only
-- if it was off before level 1.
pub level1_level0_3dnr :
    (w w' : World) (g : Governor)
    → g.dev.handle_3dnr ≡ true
    → g.dev.off_3dnr ≡ false
    → let h = handle_level1 w g in
      let k = handle_level0 w' h in
      (h.video_3dnr ≡ 0)
      × (k.video_3dnr ≡ (if g.video_3dnr == 0 then 0 else 1))
      × (k.dev.off_3dnr ≡ false)
level1_level0_3dnr w w' g e f =
    ground (arith, level1_switches w g e, level0_switches w' (handle_level1 w g))

level4_wifi :
    (w : World) (g : Governor)
    → g.dev.handle_wifi ≡ true
    → let h = handle_level4 w g in
      (h.wifi_en ≡ 0) × (h.dev.off_wifi ≡ (if g.wifi_en == 0 then g.dev.off_wifi else true))
unfolding handle_level4
level4_wifi w g e = grind steady

level3_wifi :
    (w : World) (g : Governor)
    → let h = handle_level3 w g in
      (h.wifi_en ≡ (if g.dev.off_wifi then 1 else g.wifi_en)) × (h.dev.off_wifi ≡ g.dev.off_wifi)
unfolding handle_level3
level3_wifi w g = grind steady

-- Level 4 switches a running wifi off and level 3 switches it on again. But the mark `off_wifi`
-- stays: whatever the user sets afterwards, the next pass through level 3 switches wifi on.
pub level4_level3_wifi :
    (w w' w'' : World) (g : Governor) (user : ℕ)
    → g.dev.handle_wifi ≡ true
    → g.wifi_en ≢ 0
    → let h = handle_level4 w g in
      let k = handle_level3 w' h in
      (h.wifi_en ≡ 0)
      × (k.wifi_en ≡ 1)
      × ((handle_level3 w'' (record k { wifi_en = user })).wifi_en ≡ 1)
level4_level3_wifi w w' w'' g user e f = ground (
  arith,
  level4_wifi w g e,
  level3_wifi w' (handle_level4 w g),
  level3_wifi w'' (record (handle_level3 w' (handle_level4 w g)) { wifi_en = user }),
)

-- Several calls of `thermal_get_status`, with what each returns.
pub polls : List World → Governor → List ℤ × Governor
polls [] g = ([], g)
polls (w ∷ ws) g = let (s, g') = thermal_get_status w g in let (ss, h) = polls ws g' in (s ∷ ss, h)

-- The triangle of levels 1 2 3 4 5 4 3 2 1 0, over and over, from its place `n` on.
abbrev triangle : ℕ → ℕ → List ℤ
triangle n zero = []
triangle n (suc k) = pos (get_or test_levels (n % 10) 0) ∷ triangle (n + 1) k

test_levels_at : (n : ℕ) → get_elem? test_levels (n % 10) ≡ some (get_or test_levels (n % 10) 0)
test_levels_at n = at (n % 10) (omega arith)
  where
    at : (i : ℕ) → i < 10 → get_elem? test_levels i ≡ some (get_or test_levels i 0)
    at i h = ground arith

status_step :
    (w : World) (g : Governor) (n l : ℕ)
    → g.debug_temp ≢ 0
    → g.test_num ≡ n % 10
    → get_elem? test_levels (n % 10) ≡ some l
    → let (s, h) = thermal_get_status w g in
      (s ≡ pos l) × (h.debug_temp ≡ g.debug_temp) × (h.test_num ≡ (n + 1) % 10)
unfolding thermal_get_status thermal_test
status_step w g n l d e at_n = ground (
  arith,
  thermal_handle-Keeps w (pos l) (record g {
    dev = record (g.dev) { state = pos l };
    test_num = if g.test_num + 1 == 10 then 0 else g.test_num + 1;
  }),
)

-- With the debug setting on, the polls walk the triangle of test levels from wherever the counter
-- stands, round after round, whatever the files answer.
pub polls-triangle :
    (ws : List World) (g : Governor) (n : ℕ)
    → g.debug_temp ≢ 0
    → g.test_num ≡ n % 10
    → (polls ws g).0 ≡ triangle n (length ws)
unfolding polls
polls-triangle [] g n d e = refl
polls-triangle (w ∷ ws) g n d e =
    let f = status_step w g n _ d e (test_levels_at n) in
    ap₂ ◌∷◌ f.0 (polls-triangle ws (thermal_get_status w g).1 (n + 1) (λ z. d (sym f.1 ∙ z)) f.2)

-- The alarm files of a round, both readable.
pub record Alarms : Type 0 where
  pub world : World
  pub cold_ret : ℤ
  pub cold : List ℕ
  pub hot_ret : ℤ
  pub hot : List ℕ
  pub reads_cold : world.reading temp_min_alarm ≡ did_read cold_ret cold
  pub reads_hot : world.reading temp_max_alarm ≡ did_read hot_ret hot

pub updates : List Alarms → Governor → Option Governor
updates [] g = some g
updates (a ∷ rest) g = thermal_update_state a.world g >>= updates rest

abbrev levels_after : List Alarms → ℕ → ℕ
levels_after [] n = n
levels_after (a ∷ rest) n =
    levels_after rest (next_level n (is_set a.world a.cold) (is_set a.world a.hot))

-- Any history of updates that can read the alarms runs without an index out of bounds and ends in
-- the level, and in the window of the level, that the alarms call for.
pub updates-IsTuned :
    (rounds : List Alarms) (t : ℤ) (n : ℕ) (g : Governor)
    → IsTuned t n g.dev
    → (h : Governor) × (updates rounds g ≡ some h) × IsTuned t (levels_after rounds n) h.dev
unfolding updates
updates-IsTuned [] t n g v = (g, refl, v)
updates-IsTuned (a ∷ rest) t n g v =
    let (k, e, v', old) =
      update-IsTuned t n a.world g a.cold a.hot a.cold_ret a.hot_ret v a.reads_cold a.reads_hot in
    let (h, e', v'') = updates-IsTuned rest t _ k v' in (h, rw (e, updates) e', v'')
