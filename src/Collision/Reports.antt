-- ===== src/Collision/Reports.antt =====
-- collision/collision_algorithm.c, collision_check: what is reported over a history of frames.
use cvr_video.Base.{
  ℕ, ◌+◌, ◌/◌, ◌≤◌, ◌≡◌, ◌⊎◌, inl, inr, refl, List, [], ◌∷◌, Bool, true, false, not, ◌&&◌, ◌||◌,
  ltb, leb, if◌then◌else◌, none, some, length, All, arith, Option-cases, Bool-cases,
}
use cvr_video.Collision.{
  Floats, Feature, Machine, CollisionState, collision_nothing, collision_happen, collision_continue,
  collision_error,
}
use cvr_video.Collision.Decide.{Thresholds, thresholds, settle, decide, counted, judge}

-- The counter of a long shake stays below four, and the flag is one of the three that are set.
abbrev pub IsSettled : Machine → Type 0
IsSettled m =
    (m.state_count ≤ 3)
    × ((m.state_flag ≡ collision_nothing)
        ⊎ (m.state_flag ≡ collision_happen)
        ⊎ (m.state_flag ≡ collision_continue))

abbrev pub is_happen : CollisionState → Bool
is_happen collision_happen = true
is_happen _ = false

abbrev pub is_error : CollisionState → Bool
is_error collision_error = true
is_error _ = false

abbrev pub is_nothing : CollisionState → Bool
is_nothing collision_nothing = true
is_nothing _ = false

-- A level that has thresholds.
abbrev pub is_level : ℕ → Bool
is_level level = leb 1 level && leb level 3

module _ {ℓ} {F D : Type ℓ} (op : Floats F D) where
  decide-IsSettled :
      (t : Thresholds F) (f : Feature F) (m : Machine) → IsSettled m → IsSettled (decide op t f m)
  unfolding decide
  decide-IsSettled t f m (c, inl e) = ground arith
  decide-IsSettled t f m (c, inr (inl e)) = ground arith
  decide-IsSettled t f m (c, inr (inr e)) = ground arith

  -- The machine after a history of levels and features.
  unfoldable pub run : List (ℕ × Feature F) → Machine → Machine
  run [] m = m
  run ((level, f) ∷ rest) m = run rest (judge op level f m).1

  thresholds-none : (level : ℕ) → thresholds op level ≡ none → is_level level ≡ false
  unfolding thresholds
  thresholds-none level e = ground arith

  thresholds-some :
      (level : ℕ) (t : Thresholds F) → thresholds op level ≡ some t → is_level level ≡ true
  unfolding thresholds
  thresholds-some level t e = ground arith

  decide_count :
      (t : Thresholds F) (f : Feature F) (m : Machine)
      → (decide op t f m).frame_count_in ≡ m.frame_count_in
  unfolding decide
  decide_count t f m = ground arith

  decide_early :
      (t : Thresholds F) (f : Feature F) (m : Machine)
      → ltb m.frame_count_in 10 ≡ true
      → (decide op t f m).state_flag ≡ collision_nothing
  unfolding decide
  decide_early t f m e = ground arith

  -- What one judgement gives: a settled machine with the frame counted, an error exactly at a level
  -- without thresholds, and else the answer that nothing or that a collision happened.
  abbrev pub IsSound : ℕ → Machine → CollisionState × Machine → Type 0
  IsSound level m (a, m') =
      IsSettled m'
      × (m'.frame_count_in ≡ m.frame_count_in + 1)
      × (is_error a ≡ not (is_level level))
      × ((is_nothing a || (is_happen a || is_error a)) ≡ true)
      × ((is_happen a && ltb m'.frame_count_in 10) ≡ false)

  judge-IsSound :
      (level : ℕ) (f : Feature F) (m : Machine) → IsSettled m → IsSound level m (judge op level f m)
  unfolding judge
  judge-IsSound level f m (c, v) = elim (Option-cases (thresholds op level)) [
    | inl e ↦ rw e ((c, v), refl, ground (arith, thresholds-none level e), refl, refl)
    | inr (t, e) ↦
        let (c', v') = decide-IsSettled t f (counted op m) (c, v) in
        rw e (
          (c', v'),
          decide_count t f (counted op m),
          ground (arith, thresholds-some level t e, v'),
          ground (arith, v'),
          ground (arith, v', decide_early t f (counted op m), decide_count t f (counted op m)),
        )
  ]

  run-IsSettled :
      (history : List (ℕ × Feature F)) (m : Machine)
      → IsSettled m
      → IsSettled (run history m)
        × ((run history m).frame_count_in ≡ m.frame_count_in + length history)
  unfolding run
  run-IsSettled [] m v = (v, omega arith)
  run-IsSettled ((level, f) ∷ history) m v =
      let sound = judge-IsSound level f m v in
      let (v', count) = run-IsSettled history (judge op level f m).1 sound.0 in
      (v', omega (arith, count, sound.1))

  -- After any history of levels and features from a settled machine, a judgement leaves the machine
  -- settled and counts the frame; its answer is the error exactly at a level outside of 1 to 3, else
  -- that nothing or that a collision happened, and the latter only from the tenth frame on.
  pub run-judge-IsSound :
      (history : List (ℕ × Feature F)) (level : ℕ) (f : Feature F) (m : Machine)
      → IsSettled m
      → IsSound level (run history m) (judge op level f (run history m))
        × ((judge op level f (run history m)).1.frame_count_in
            ≡ m.frame_count_in + length history + 1)
  run-judge-IsSound history level f m v =
      let (v', count) = run-IsSettled history m v in
      let sound = judge-IsSound level f (run history m) v' in (sound, omega (arith, sound.1, count))

  -- A frame that is judged only by how long the shake goes on.
  abbrev pub IsModerate : Thresholds F → Feature F → Type 0
  IsModerate t f =
      (op.ltb f.smv_sigma t.sigma_th_l ≡ false)
      × (op.leb t.sigma_th_l f.smv_sigma ≡ true)
      × (op.ltb f.smv_sigma t.sigma_th_m ≡ true)
      × (op.leb t.avg_th_l f.smv_avg ≡ true)
      × (op.ltb f.smv_avg t.avg_th_h ≡ true)

  -- How many frames of a run at one level are answered by a collision.
  unfoldable pub alarms : ℕ → List (Feature F) → Machine → ℕ
  alarms level [] m = 0
  alarms level (f ∷ rest) m =
      let (a, m') = judge op level f m in (if is_happen a then 1 else 0) + alarms level rest m'

  judge_moderate :
      (level : ℕ) (t : Thresholds F) (f : Feature F) (m : Machine)
      → thresholds op level ≡ some t
      → IsModerate t f
      → 9 ≤ m.frame_count_in
      → judge op level f m ≡ (
          if leb 3 m.state_count
          then (collision_happen, settle 0 collision_happen (counted op m))
          else (collision_nothing, settle (m.state_count + 1) collision_continue (counted op m)))
  unfolding judge decide
  judge_moderate level t f m e v n = rw e (ground arith)

  -- From the tenth frame on, every fourth frame of a moderate shake is answered by a collision, the
  -- frames of the shake before the run counted in.
  pub alarms_moderate :
      (level : ℕ) (t : Thresholds F) (fs : List (Feature F)) (m : Machine)
      → thresholds op level ≡ some t
      → All (IsModerate t) fs
      → 9 ≤ m.frame_count_in
      → m.state_count ≤ 3
      → alarms level fs m ≡ (m.state_count + length fs) / 4
  unfolding alarms
  alarms_moderate level t [] m e v n c = omega arith
  alarms_moderate level t (f ∷ fs) m e (v, vs) n c = elim (Bool-cases (leb 3 m.state_count)) [
    | inl full ↦
        rw (judge_moderate level t f m e v n, full)
          (omega (
            arith,
            full_count m full,
            alarms_moderate level t fs (settle 0 collision_happen (counted op m)) e vs (omega arith)
                (omega arith),
          ))
    | inr more ↦
        rw (judge_moderate level t f m e v n, more)
          (omega (
            arith,
            alarms_moderate level t fs
                (settle (m.state_count + 1) collision_continue (counted op m)) e vs (omega arith)
                (ground (arith, more)),
          ))
  ]
    where
      full_count : (m : Machine) → leb 3 m.state_count ≡ true → 3 ≤ m.state_count
      full_count m h = ground arith

  -- A frame that neither ends a shake nor is strong enough for a new one.
  abbrev pub IsWeak : Thresholds F → Feature F → Type 0
  IsWeak t f =
      (op.ltb f.smv_sigma t.sigma_th_l ≡ false)
      × (op.leb t.sigma_th_l f.smv_sigma ≡ true)
      × (op.ltb f.smv_sigma t.sigma_th_m ≡ true)
      × (op.leb t.avg_th_l f.smv_avg ≡ false)
      × (op.leb t.avg_th_h f.smv_avg ≡ false)

  judge_weak :
      (level : ℕ) (t : Thresholds F) (f : Feature F) (m : Machine)
      → thresholds op level ≡ some t
      → IsWeak t f
      → 9 ≤ m.frame_count_in
      → m.state_flag ≡ collision_happen
      → judge op level f m ≡ (collision_happen, counted op m)
  unfolding judge decide
  judge_weak level t f m e v n h = rw e (ground (arith, h))

  -- From the tenth frame on, weak frames after a reported collision are all answered by a collision,
  -- however many there are: they leave the flag as it is, and the flag is the answer.
  pub alarms_weak :
      (level : ℕ) (t : Thresholds F) (fs : List (Feature F)) (m : Machine)
      → thresholds op level ≡ some t
      → All (IsWeak t) fs
      → 9 ≤ m.frame_count_in
      → m.state_flag ≡ collision_happen
      → alarms level fs m ≡ length fs
  unfolding alarms
  alarms_weak level t [] m e v n h = refl
  alarms_weak level t (f ∷ fs) m e (v, vs) n h =
      rw (judge_weak level t f m e v n h)
        (omega (arith, alarms_weak level t fs (counted op m) e vs (omega arith) h))
