-- ===== src/Gsensor/Axes.antt =====
-- gsensor.h: a sample of the sensor, over any type of floats.
-- `struct sensor_axis`
pub record Axis {ℓ} (F : Type ℓ) : Type ℓ where
  pub x : F
  pub y : F
  pub z : F
