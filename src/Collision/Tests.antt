-- ===== src/Collision/Tests.antt =====
-- The collision detector with natural numbers for floats: a constant is the number of its digits.
use cvr_video.Base.{
  ℕ, ◌+◌, ◌-◌, ◌*◌, ◌/◌, ◌≡◌, refl, List, [], ◌∷◌, ◌++◌, ltb, leb, if◌then◌else◌, inl, some,
  replicate, arith,
}
use cvr_video.Base.Int.{pos_part}
use cvr_video.Gsensor.Axes.{Axis}
use cvr_video.Collision.{Floats, Feature, Window, Machine, collision_nothing, collision_happen}
use cvr_video.Collision.Extract.{next_window, features, magnitudes, fre_extract}
use cvr_video.Collision.Convolution.{IsFull, convolve, fre_extract-convolve}
use cvr_video.Collision.Decide.{Thresholds, thresholds, judge}
use cvr_video.Collision.Reports.{run, run-judge-IsSound, IsSound, alarms, alarms_moderate}
use cvr_video.Collision.Frames.{Detector, feed, feed_frame, is_flagged}

abbrev digits : Floats ℕ ℕ
digits = record {
  widen = λ a. a;
  narrow = λ a. a;
  of_int = λ n. pos_part n;
  literal = λ n k. pos_part n;
  add = λ a b. a + b;
  sub = λ a b. a - b;
  mul = λ a b. a * b;
  div = λ a b. a / b;
  ltb = λ a b. ltb a b;
  leb = λ a b. leb a b;
  dmul = λ a b. a * b;
  ddiv = λ a b. a / b;
  sqrt = λ a. a;
  atan = λ a. a;
  fabs = λ a. a;
}

abbrev feature : ℕ → ℕ → Feature ℕ
feature avg sigma = record {
  smv_avg = avg;
  smv_sigma = sigma;
  angle_x = 0;
  angle_y = 0;
  angle_z = 0;
}

abbrev lowest : Thresholds ℕ
lowest = record { sigma_th_h = 3; sigma_th_m = 15; sigma_th_l = 1; avg_th_h = 12; avg_th_l = 6 }

abbrev warm : Machine
warm = record { frame_count_in = 9; state_count = 1; state_flag = collision_nothing }

abbrev struck : Machine
struck = record { frame_count_in = 12; state_count = 0; state_flag = collision_happen }

alarms_moderate_example : alarms digits 1 (replicate 7 (feature 8 5)) warm ≡ 2
unfolding thresholds
alarms_moderate_example =
    alarms_moderate digits 1 lowest (replicate 7 (feature 8 5)) warm refl (ground arith)
      (omega arith) (omega arith)

run-judge-IsSound_example :
    IsSound digits 4
      (run digits ((1, feature 8 5) ∷ []) warm)
      (judge digits 4 (feature 8 5) (run digits ((1, feature 8 5) ∷ []) warm))
    × ((judge digits 4 (feature 8 5) (run digits ((1, feature 8 5) ∷ []) warm)).1.frame_count_in
        ≡ 11)
run-judge-IsSound_example =
    run-judge-IsSound digits ((1, feature 8 5) ∷ []) 4 (feature 8 5) warm (omega arith, inl refl)

abbrev still : Window ℕ
still = record { a_x = replicate 30 0; a_y = replicate 30 0; a_z = replicate 30 0 }

still-IsFull : IsFull digits still
still-IsFull = record { full_x = refl; full_y = refl; full_z = refl }

abbrev frame : List (Axis ℕ)
frame = replicate 10 (record { x = 1; y = 2; z = 10 })

fre_extract-convolve_example :
    let v = next_window digits still frame in
    let filtered = λ (signal : List ℕ). convolve digits signal 10 10 in
    (fre_extract digits still frame
      ≡ some (
        v,
        (filtered v.a_x, (filtered v.a_y, filtered v.a_z)),
        features digits frame (filtered (magnitudes digits v.a_x v.a_y v.a_z)),
      ))
    × IsFull digits v
fre_extract-convolve_example = fre_extract-convolve digits still frame still-IsFull refl

abbrev ready : Detector ℕ
ready = record {
  datainit = 1;
  collision_flag = 0;
  frame_count = 0;
  cls_data = record { x = 0; y = 0; z = 10 };
  data_input = replicate 10 (record { x = 0; y = 0; z = 0 });
  window = still;
  machine = warm;
}

feed_frame_example :
    let v = next_window digits still frame in
    let f = features digits frame (convolve digits (magnitudes digits v.a_x v.a_y v.a_z) 10 10) in
    let (ret, m) = judge digits 2 f warm in
    (feed digits 2 (frame ++ record { x = 9; y = 9; z = 9 } ∷ []) ready
      ≡ some (record ready {
        data_input = frame;
        collision_flag = if is_flagged ret then 1 else 0;
        window = v;
        machine = m;
      }))
    × IsFull digits v
feed_frame_example =
    feed_frame digits 2 frame (record { x = 9; y = 9; z = 9 }) ready refl refl refl still-IsFull
      refl
