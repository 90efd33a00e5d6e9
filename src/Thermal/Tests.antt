-- ===== src/Thermal/Tests.antt =====
-- The governor on concrete device files.
use cvr_video.Base.{ℕ, ◌+◌, ◌-◌, ◌*◌, ◌≡◌, refl, List, [], ◌∷◌, true, false, some, arith}
use cvr_video.Base.Int.{pos, ◌+ℤ◌, ◌-ℤ◌}
use cvr_video.Thermal.{
  DeviceFile, temp_input, temp_min_alarm, temp_max_alarm, cpu_temp_target, ddr_dev, fb_fps_file,
  brightness_file, Reading, cannot_open, did_read, World, Governor,
}
use cvr_video.Thermal.Levels.{is_set}
use cvr_video.Thermal.Config.{zero_device, configured}
use cvr_video.Thermal.Window.{IsTuned}
use cvr_video.Thermal.Throttle.{Alarms, updates, updates-IsTuned}

abbrev decimal : ℕ → List ℕ → ℕ
decimal acc [] = acc
decimal acc (c ∷ cs) = decimal (acc * 10 + (c - b'0')) cs

abbrev files : List ℕ → List ℕ → DeviceFile → Reading
files cold hot temp_input = did_read (pos 2) (b'7' ∷ b'0' ∷ [])
files cold hot temp_min_alarm = did_read (pos 1) cold
files cold hot temp_max_alarm = did_read (pos 1) hot
files cold hot cpu_temp_target = did_read (pos 6) (b't' ∷ b'm' ∷ b'p' ∷ b':' ∷ b'7' ∷ b'5' ∷ [])
files cold hot ddr_dev = did_read (pos 4) (b'2' ∷ b'0' ∷ b'0' ∷ b'0' ∷ [])
files cold hot fb_fps_file = did_read (pos 6) (b'f' ∷ b'p' ∷ b's' ∷ b':' ∷ b'6' ∷ b'0' ∷ [])
files cold hot brightness_file = did_read (pos 2) (b'9' ∷ b'0' ∷ [])
files cold hot _ = cannot_open

abbrev world : List ℕ → List ℕ → World
world cold hot = record {
  reading = files cold hot;
  opens_for_write = λ f. true;
  write_result = λ f. pos 2;
  atoi = λ cs. pos (decimal 0 cs);
  strtol_16 = λ cs. pos 0x2000;
  hdmi_connect = false;
  screen_state = true;
}

abbrev calm : World
calm = world (b'0' ∷ []) (b'0' ∷ [])

abbrev off : Governor
off = record {
  dev = zero_device;
  test_num = 0;
  video_3dnr = 1;
  wifi_en = 1;
  debug_temp = 0;
  actions = [];
}

abbrev level_three : Governor
level_three = record off {
  dev = record (configured calm (pos 75)) {
    state = pos 3;
    old_state = pos 3;
    ltemp = pos 75;
    htemp = pos 90;
  };
}

level_three-IsTuned : IsTuned (pos 75) 3 level_three.dev
unfolding configured ◌+ℤ◌ ◌-ℤ◌
level_three-IsTuned = record {
  level = refl;
  in_scale = omega arith;
  lower = refl;
  upper = refl;
  low = refl;
  high = refl;
}

abbrev hot_round : Alarms
hot_round = record {
  world = world (b'0' ∷ []) (b'1' ∷ []);
  cold_ret = pos 1;
  cold = b'0' ∷ [];
  hot_ret = pos 1;
  hot = b'1' ∷ [];
  reads_cold = refl;
  reads_hot = refl;
}

abbrev cold_round : Alarms
cold_round = record {
  world = world (b'1' ∷ []) (b'0' ∷ []);
  cold_ret = pos 1;
  cold = b'1' ∷ [];
  hot_ret = pos 1;
  hot = b'0' ∷ [];
  reads_cold = refl;
  reads_hot = refl;
}

updates-IsTuned_example :
    (h : Governor) × (updates (hot_round ∷ hot_round ∷ cold_round ∷ []) level_three ≡ some h)
    × IsTuned (pos 75) 4 h.dev
unfolding is_set
updates-IsTuned_example =
    updates-IsTuned (hot_round ∷ hot_round ∷ cold_round ∷ []) (pos 75) 3 level_three
      level_three-IsTuned

-- The alarm file cannot be opened.
abbrev lost : World
lost = record calm { reading = λ f. cannot_open }
