-- ===== src/Collision.antt =====
-- collision/collision.c and collision/collision_algorithm.c: the collision detector. This file has
-- the float arithmetic that it uses, as a parameter, and its data.
pub mod Extract
pub mod Convolution
pub mod Decide
pub mod Reports
pub mod Frames
mod Tests
use cvr_video.Base.{ℕ, List, Bool}
use cvr_video.Base.Int.{ℤ}
use cvr_video.Gsensor.Axes.{Axis}

-- `F` stands for float and `D` for double. `literal n k` is the constant n / 10 ^ k.
pub record Floats {ℓ} (F D : Type ℓ) : Type ℓ where
  pub widen : F → D
  pub narrow : D → F
  pub of_int : ℤ → F
  pub literal : ℤ → ℕ → D
  pub add : F → F → F
  pub sub : F → F → F
  pub mul : F → F → F
  pub div : F → F → F
  pub ltb : F → F → Bool
  pub leb : F → F → Bool
  pub dmul : D → D → D
  pub ddiv : D → D → D
  pub sqrt : D → D
  pub atan : D → D
  pub fabs : D → D

-- `struct feature`, less smv_max and smv_min, which nothing uses
pub record Feature {ℓ} (F : Type ℓ) : Type ℓ where
  pub smv_avg : F
  pub smv_sigma : F
  pub angle_x : F
  pub angle_y : F
  pub angle_z : F

-- `enum collision_state`
pub data CollisionState : Type 0 where
  collision_nothing collision_happen collision_continue collision_turnover : CollisionState
  collision_error : CollisionState

-- The three windows of old samples, without their means.
pub record Window {ℓ} (F : Type ℓ) : Type ℓ where
  pub a_x : List F
  pub a_y : List F
  pub a_z : List F

-- The counters of `cur_state` that are used, and `state_flag`.
pub record Machine : Type 0 where
  pub frame_count_in : ℕ
  pub state_count : ℕ
  pub state_flag : CollisionState
