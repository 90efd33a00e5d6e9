-- ===== src/Collision/Frames.antt =====
-- collision/collision.c: collecting frames of ten samples, and the thread that reports a collision.
use cvr_video.Base.{
  ℕ, ◌+◌, ◌<◌, ◌≡◌, refl, sym, ap, ◌∙◌, List, [], ◌∷◌, ◌++◌, Bool, true, false, ◌&&◌, ◌==◌, ltb,
  if◌then◌else◌, Option, none, some, set, length, length-append, ◌>>=◌, arith,
}
use mathlib.Core.List.{append_assoc}
use cvr_video.Base.Int.{ℤ, pos, ltb_ℤ, leb_ℤ}
use cvr_video.Gsensor.Axes.{Axis}
use cvr_video.Collision.{
  Floats, Window, Machine, CollisionState, collision_nothing, collision_error,
}
use cvr_video.Collision.Extract.{next_window, features, magnitudes}
use cvr_video.Collision.Convolution.{IsFull, convolve, fre_extract-convolve}
use cvr_video.Collision.Decide.{judge, collision_check}

-- The fields of `cls` that a sample touches, the frame that is collected, and the state of the
-- algorithm.
pub record Detector {ℓ} (F : Type ℓ) : Type ℓ where
  pub datainit : ℕ
  pub collision_flag : ℕ
  pub frame_count : ℕ
  pub cls_data : Axis F
  pub data_input : List (Axis F)
  pub window : Window F
  pub machine : Machine

-- FRAME
abbrev pub frame_size : ℕ
frame_size = 10

-- `(ret > 0) && (ret <= 3)` on the numbers of the enumeration
abbrev pub is_flagged : CollisionState → Bool
is_flagged collision_nothing = false
is_flagged collision_error = false
is_flagged _ = true

abbrev pub with_verdict {ℓ} :
    {F : Type ℓ} → CollisionState × (Window F × Machine) → Detector F → Detector F
with_verdict (ret, (w, m)) d = record d {
  collision_flag = if is_flagged ret then 1 else d.collision_flag;
  frame_count = 0;
  window = w;
  machine = m;
}

-- COLLISION_CACHE_DURATION
abbrev pub collision_cache_duration : ℤ
collision_cache_duration = pos 5

-- One round of collision_pthread: the seconds that it sleeps for the collision, if it saw one, and
-- the flag. `answered` is what the event callback returns, 0 without one.
unfoldable pub thread_round {ℓ} : {F : Type ℓ} → ℤ → Detector F → Option ℤ × Detector F
thread_round answered d =
    if d.collision_flag == 1
    then (
      (if ltb_ℤ (pos 0) answered && leb_ℤ answered collision_cache_duration
          then some answered
          else none),
      record d { collision_flag = 0 },
    )
    else (none, d)

module _ {ℓ} {F D : Type ℓ} (op : Floats F D) where
  unfoldable pub collision_get_gsdata : ℕ → Axis F → Detector F → Option (Detector F)
  collision_get_gsdata level s d =
      if d.datainit == 0
      then some (record d { cls_data = s; datainit = 1 })
      else if ltb d.frame_count frame_size
      then some (record d {
        data_input = set d.data_input d.frame_count s;
        frame_count = d.frame_count + 1;
      })
      else if d.frame_count == 10
      then (collision_check op level d.data_input d.window d.machine >>= λ r.
          some (with_verdict r d))
      else some d

  unfoldable pub feed : ℕ → List (Axis F) → Detector F → Option (Detector F)
  feed level [] d = some d
  feed level (s ∷ rest) d = collision_get_gsdata level s d >>= feed level rest

  set_behind :
      (pre old : List (Axis F)) (o s : Axis F) (n : ℕ)
      → n ≡ length pre
      → set (pre ++ o ∷ old) n s ≡ pre ++ s ∷ old
  set_behind [] old o s n e = rw e refl
  set_behind (p ∷ pre) old o s n e = rw e (ap (◌∷◌ p) (set_behind pre old o s (length pre) refl))

  collect_one :
      (level : ℕ) (s o : Axis F) (pre old : List (Axis F)) (d : Detector F)
      → d.datainit ≡ 1
      → d.data_input ≡ pre ++ o ∷ old
      → d.frame_count ≡ length pre
      → length pre < 10
      → collision_get_gsdata level s d
        ≡ some (record d { data_input = pre ++ s ∷ old; frame_count = d.frame_count + 1 })
  unfolding collision_get_gsdata
  collect_one level s o pre old d i e c l =
      ground (arith, i, e, c, set_behind pre old o s d.frame_count c)

  feed-fill :
      (level : ℕ) (samples pre old rest : List (Axis F)) (d : Detector F)
      → d.datainit ≡ 1
      → d.data_input ≡ pre ++ old
      → d.frame_count ≡ length pre
      → length old ≡ length samples
      → length pre + length samples ≡ 10
      → feed level (samples ++ rest) d
        ≡ feed level rest (record d { data_input = pre ++ samples; frame_count = 10 })
  unfolding feed
  feed-fill level [] pre [] rest d i e c l t = ground (arith, i, e, c, l, t)
  feed-fill level [] pre (o ∷ old) rest d i e c l t = absurd (omega arith)
  feed-fill level (s ∷ samples) pre [] rest d i e c l t = absurd (omega arith)
  feed-fill level (s ∷ samples) pre (o ∷ old) rest d i e c l t =
      let d' = record d { data_input = pre ++ s ∷ old; frame_count = d.frame_count + 1 } in
      rw (collect_one level s o pre old d i e c (omega arith)) (
        feed-fill level samples (pre ++ s ∷ []) old rest d' i (sym (append_assoc pre (s ∷ []) old))
          (omega (arith, c, length-append pre (s ∷ []))) (omega arith)
          (omega (arith, length-append pre (s ∷ [])))
        ∙ ap (λ xs. feed level rest (record d { data_input = xs; frame_count = 10 }))
            (append_assoc pre (s ∷ []) samples))

  -- Ten samples and one more, from an empty frame: the check is made on just the ten, in their order,
  -- and never reads out of bounds; the one more is lost; the frame is empty again, the flag is raised
  -- exactly if a collision was found or it was raised before, and the windows keep their size.
  pub feed_frame :
      (level : ℕ) (frame : List (Axis F)) (extra : Axis F) (d : Detector F)
      → d.datainit ≡ 1
      → d.frame_count ≡ 0
      → length d.data_input ≡ 10
      → IsFull op d.window
      → length frame ≡ 10
      → let v = next_window op d.window frame in
        let f = features op frame (convolve op (magnitudes op v.a_x v.a_y v.a_z) 10 10) in
        let (ret, m) = judge op level f d.machine in
        (feed level (frame ++ extra ∷ []) d
          ≡ some (record d {
            data_input = frame;
            collision_flag = if is_flagged ret then 1 else d.collision_flag;
            window = v;
            machine = m;
          }))
        × IsFull op v
  unfolding feed collision_get_gsdata collision_check
  feed_frame level frame extra d i z size full n =
      let (extracted, full') = fre_extract-convolve op d.window frame full n in
      (
        feed-fill level frame [] d.data_input (extra ∷ []) d i refl z (omega arith) (omega arith)
            ∙ rw (i, extracted) (ground (arith, z)),
        full',
      )
