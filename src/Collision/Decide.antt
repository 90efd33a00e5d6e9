-- ===== src/Collision/Decide.antt =====
-- collision/collision_algorithm.c, collision_check: the thresholds and the decision.
use cvr_video.Base.{
  ℕ, ◌+◌, List, Bool, true, false, ◌&&◌, ◌||◌, ◌==◌, ltb, leb, if◌then◌else◌, Option, none, some,
  ◌>>=◌,
}
use cvr_video.Base.Int.{ℤ, pos}
use cvr_video.Gsensor.Axes.{Axis}
use cvr_video.Collision.{
  Floats, Feature, Window, Machine, CollisionState, collision_nothing, collision_happen,
  collision_continue, collision_error,
}
use cvr_video.Collision.Extract.{fre_extract}

pub record Thresholds {ℓ} (F : Type ℓ) : Type ℓ where
  pub sigma_th_l : F
  pub sigma_th_m : F
  pub sigma_th_h : F
  pub avg_th_l : F
  pub avg_th_h : F

abbrev pub is_continue : CollisionState → Bool
is_continue collision_continue = true
is_continue _ = false

-- The state with its counter and flag set.
abbrev pub settle : ℕ → CollisionState → Machine → Machine
settle count flag m = record m { state_count = count; state_flag = flag }

-- What is returned of the flag.
abbrev pub answer : CollisionState → CollisionState
answer collision_continue = collision_nothing
answer s = s

module _ {ℓ} {F D : Type ℓ} (op : Floats F D) where
  abbrev pub of_hundredths : ℤ → F
  of_hundredths n = op.narrow (op.literal n 2)

  unfoldable pub thresholds : ℕ → Option (Thresholds F)
  thresholds level =
      if level == 1
      then some (record {
        sigma_th_h = op.narrow (op.literal (pos 3) 1);
        sigma_th_m = of_hundredths (pos 15);
        sigma_th_l = op.narrow (op.literal (pos 1) 1);
        avg_th_h = op.narrow (op.literal (pos 12) 1);
        avg_th_l = op.narrow (op.literal (pos 6) 1);
      })
      else if level == 2
      then some (record {
        sigma_th_h = op.narrow (op.literal (pos 2) 1);
        sigma_th_m = of_hundredths (pos 12);
        sigma_th_l = of_hundredths (pos 8);
        avg_th_h = op.of_int (pos 1);
        avg_th_l = op.narrow (op.literal (pos 5) 1);
      })
      else if level == 3
      then some (record {
        sigma_th_h = of_hundredths (pos 6);
        sigma_th_m = of_hundredths (pos 3);
        sigma_th_l = op.narrow (op.literal (pos 15) 3);
        avg_th_h = op.narrow (op.literal (pos 4) 1);
        avg_th_l = op.narrow (op.literal (pos 2) 1);
      })
      else none

  -- A deviation from the low to the middle threshold.
  abbrev pub decide_low : Thresholds F → F → Machine → Machine
  decide_low t avg m =
      if (op.leb t.avg_th_l avg && op.ltb avg t.avg_th_h) || is_continue m.state_flag
      then (if leb 3 m.state_count
          then settle 0 collision_happen m
          else settle (m.state_count + 1) collision_continue m)
      else if op.leb t.avg_th_h avg
      then settle 0 collision_happen m
      else m

  -- A deviation from the middle to the high threshold.
  abbrev pub decide_middle : Thresholds F → F → Machine → Machine
  decide_middle t avg m =
      if op.leb t.avg_th_l avg || leb 3 m.state_count
      then settle 0 collision_happen m
      else settle (m.state_count + 1) collision_continue m

  -- The decision, behind the count of the frame.
  unfoldable pub decide : Thresholds F → Feature F → Machine → Machine
  decide t f m =
      let sigma = f.smv_sigma in
      if ltb m.frame_count_in 10
      then settle 0 collision_nothing m
      else if op.ltb sigma t.sigma_th_l
      then settle 0 collision_nothing m
      else if op.leb t.sigma_th_l sigma && op.ltb sigma t.sigma_th_m
      then decide_low t f.smv_avg m
      else if op.leb t.sigma_th_m sigma && op.ltb sigma t.sigma_th_h
      then decide_middle t f.smv_avg m
      else settle 0 collision_happen m

  abbrev pub counted : Machine → Machine
  counted m = record m { frame_count_in = m.frame_count_in + 1 }

  abbrev pub judge_by : Option (Thresholds F) → Feature F → Machine → CollisionState × Machine
  judge_by none f m = (collision_error, counted m)
  judge_by (some t) f m = let m' = decide t f (counted m) in (answer m'.state_flag, m')

  -- The part of collision_check behind the features.
  unfoldable pub judge : ℕ → Feature F → Machine → CollisionState × Machine
  judge level f m = judge_by (thresholds level) f m

  unfoldable pub collision_check :
      ℕ → List (Axis F) → Window F → Machine → Option (CollisionState × (Window F × Machine))
  collision_check level frame w m = fre_extract op w frame >>= λ r.
      let (answer', m') = judge level r.2 m in some (answer', (r.0, m'))
