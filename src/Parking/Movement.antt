-- ===== src/Parking/Movement.antt =====
-- parking_monitor/parking_monitor.c, parking_get_gsdata over the samples of the hub.
use cvr_video.Base.{◌≡◌, refl, List, [], ◌∷◌, Bool, false, ◌||◌, if◌then◌else◌, arith}
use cvr_video.Gsensor.Axes.{Axis}
use cvr_video.Parking.{Floats, Monitor, off_axis, parking_level, parking_check, parking_get_gsdata}

module _ {ℓ} {F : Type ℓ} (op : Floats F) where
  -- Some axis is off by more than the level.
  abbrev pub is_jolt : Axis F → Axis F → Bool
  is_jolt a b =
      off_axis op (op.of_int parking_level) a.x b.x
      || (off_axis op (op.of_int parking_level) a.y b.y
          || off_axis op (op.of_int parking_level) a.z b.z)

  -- Some sample is a jolt from the one before it.
  abbrev pub has_jolt : Axis F → List (Axis F) → Bool
  has_jolt a [] = false
  has_jolt a (b ∷ rest) = is_jolt a b || has_jolt b rest

  abbrev pub newest : Axis F → List (Axis F) → Axis F
  newest a [] = a
  newest a (b ∷ rest) = newest b rest

  unfoldable pub observe : List (Axis F) → Monitor F → Monitor F
  observe [] m = m
  observe (a ∷ rest) m = observe rest (parking_get_gsdata op a m)

  later_sample :
      (b : Axis F) (m : Monitor F)
      → m.datainit ≡ 1
      → parking_get_gsdata op b m
        ≡ record m { pm_data = b; parking_flag = if is_jolt m.pm_data b then 1 else m.parking_flag }
  unfolding parking_get_gsdata parking_check
  later_sample b m i = ground (arith, i)

  observe-lem :
      (samples : List (Axis F)) (m : Monitor F)
      → m.datainit ≡ 1
      → observe samples m ≡ record m {
        pm_data = newest m.pm_data samples;
        parking_flag = if has_jolt m.pm_data samples then 1 else m.parking_flag;
      }
  unfolding observe
  observe-lem [] m i = refl
  observe-lem (b ∷ rest) m i =
      ground (arith, later_sample b m i, observe-lem rest (parking_get_gsdata op b m))

  -- From the first sample on, the monitor has the newest sample, and the flag is raised exactly if
  -- some sample is off from the one just before it by more than the level on some axis, or if it was
  -- raised before; all else but the sign of the first sample is kept.
  pub observe_jolts :
      (a : Axis F) (samples : List (Axis F)) (m : Monitor F)
      → m.datainit ≡ 0
      → observe (a ∷ samples) m ≡ record m {
        datainit = 1;
        pm_data = newest a samples;
        parking_flag = if has_jolt a samples then 1 else m.parking_flag;
      }
  unfolding observe parking_get_gsdata
  observe_jolts a samples m i =
      ground (arith, i, observe-lem samples (record m { pm_data = a; datainit = 1 }) refl)
