-- ===== src/Gsensor/Samples.antt =====
-- gsensor.c, gsensor_readevent as a whole: when a sample is handed out, and which one.
use cvr_video.Base.{
  ℕ, zero, suc, ◌≡◌, refl, ap, ◌∙◌, List, [], ◌∷◌, ◌++◌, true, ◌==◌, ◌&&◌, if◌then◌else◌, Option,
  none, some, arith, Bool-cases, inl, inr,
}
use cvr_video.Base.Int.{ℤ, pos, eq_ℤ}
use cvr_video.Gsensor.Registry.{IsRegistry, contents, table-IsRegistry}
use cvr_video.Gsensor.Events.{
  callbacks, notify, notify-callbacks, Event, Round, Reader, store, all_axes, gsensor_readevent,
  abs_x, abs_y, abs_z, abs_other, syn, other, stopping, idle, read_error, got, returned,
}

-- The rounds that only collect: no report, no end of the loop.
abbrev pub IsQuiet : List Round → Type 0
IsQuiet [] = Unit {0}
IsQuiet (idle ∷ rest) = IsQuiet rest
IsQuiet (stopping ∷ rest) = ⊥
IsQuiet (read_error n ∷ rest) = ⊥
IsQuiet (got syn ∷ rest) = ⊥
IsQuiet (got _ ∷ rest) = IsQuiet rest

-- The value of an axis in an event of it.
abbrev pub x_of : Event → Option ℤ
x_of (abs_x v) = some v
x_of _ = none

abbrev pub y_of : Event → Option ℤ
y_of (abs_y v) = some v
y_of _ = none

abbrev pub z_of : Event → Option ℤ
z_of (abs_z v) = some v
z_of _ = none

-- The last value that an axis has in the rounds, or the one before them.
abbrev pub latest {ℓ} : {A : Type ℓ} → (ℤ → A) → (Event → Option ℤ) → A → List Round → A
latest f axis a [] = a
latest f axis a (got e ∷ rest) = latest f axis (elim (axis e) [ some v ↦ f v | none ↦ a ]) rest
latest f axis a (_ ∷ rest) = latest f axis a rest

module _ {ℓ} {F : Type ℓ} (scale : ℤ → F) where
  abbrev pub collect : List Round → Reader scale → Reader scale
  collect [] r = r
  collect (got e ∷ rest) r = collect rest (store scale e r)
  collect (_ ∷ rest) r = collect rest r

  readevent-collect :
      (c : ℕ) (quiet rest : List Round) (r : Reader scale)
      → IsQuiet quiet
      → gsensor_readevent scale (suc c) (quiet ++ rest) r
        ≡ gsensor_readevent scale (suc c) rest (collect quiet r)
  unfolding gsensor_readevent store
  readevent-collect c [] rest r q = refl
  readevent-collect c (idle ∷ quiet) rest r q = readevent-collect c quiet rest r q
  readevent-collect c (stopping ∷ quiet) rest r q = absurd q
  readevent-collect c (read_error n ∷ quiet) rest r q = absurd q
  readevent-collect c (got (abs_x v) ∷ quiet) rest r q = readevent-collect c quiet rest _ q
  readevent-collect c (got (abs_y v) ∷ quiet) rest r q = readevent-collect c quiet rest _ q
  readevent-collect c (got (abs_z v) ∷ quiet) rest r q = readevent-collect c quiet rest _ q
  readevent-collect c (got (abs_other v) ∷ quiet) rest r q = readevent-collect c quiet rest r q
  readevent-collect c (got other ∷ quiet) rest r q = readevent-collect c quiet rest r q
  readevent-collect c (got syn ∷ quiet) rest r q = absurd q

  collect_table :
      (quiet : List Round) (r : Reader scale)
      → ((collect quiet r).hub.senddata ≡ r.hub.senddata)
        × ((collect quiet r).hub.gsfun_count ≡ r.hub.gsfun_count)
  unfolding store
  collect_table [] r = (refl, refl)
  collect_table (idle ∷ quiet) r = collect_table quiet r
  collect_table (stopping ∷ quiet) r = collect_table quiet r
  collect_table (read_error n ∷ quiet) r = collect_table quiet r
  collect_table (got (abs_x v) ∷ quiet) r = collect_table quiet (store scale (abs_x v) r)
  collect_table (got (abs_y v) ∷ quiet) r = collect_table quiet (store scale (abs_y v) r)
  collect_table (got (abs_z v) ∷ quiet) r = collect_table quiet (store scale (abs_z v) r)
  collect_table (got (abs_other v) ∷ quiet) r = collect_table quiet r
  collect_table (got syn ∷ quiet) r = collect_table quiet r
  collect_table (got other ∷ quiet) r = collect_table quiet r

  -- What the reader has after the rounds: of each axis the last value, if there was one.
  abbrev pub sampled : List Round → Reader scale → Reader scale
  sampled quiet r = record {
    hub = record (r.hub) {
      axis_x_init = latest (λ v. 1) x_of r.hub.axis_x_init quiet;
      axis_y_init = latest (λ v. 1) y_of r.hub.axis_y_init quiet;
      axis_z_init = latest (λ v. 1) z_of r.hub.axis_z_init quiet;
    };
    acc_x = latest scale x_of r.acc_x quiet;
    acc_y = latest scale y_of r.acc_y quiet;
    acc_z = latest scale z_of r.acc_z quiet;
    sensor_data_x = latest (λ v. v) x_of r.sensor_data_x quiet;
    sensor_data_y = latest (λ v. v) y_of r.sensor_data_y quiet;
    sensor_data_z = latest (λ v. v) z_of r.sensor_data_z quiet;
  }

  collect-sampled : (quiet : List Round) (r : Reader scale) → collect quiet r ≡ sampled quiet r
  unfolding store
  collect-sampled [] r = refl
  collect-sampled (idle ∷ quiet) r = collect-sampled quiet r
  collect-sampled (stopping ∷ quiet) r = collect-sampled quiet r
  collect-sampled (read_error n ∷ quiet) r = collect-sampled quiet r
  collect-sampled (got (abs_x v) ∷ quiet) r = collect-sampled quiet (store scale (abs_x v) r)
  collect-sampled (got (abs_y v) ∷ quiet) r = collect-sampled quiet (store scale (abs_y v) r)
  collect-sampled (got (abs_z v) ∷ quiet) r = collect-sampled quiet (store scale (abs_z v) r)
  collect-sampled (got (abs_other v) ∷ quiet) r = collect-sampled quiet r
  collect-sampled (got syn ∷ quiet) r = collect-sampled quiet r
  collect-sampled (got other ∷ quiet) r = collect-sampled quiet r

  report_collected :
      (quiet later : List Round) (r : Reader scale)
      → IsRegistry r.hub
      → IsQuiet quiet
      → gsensor_readevent scale 1 (quiet ++ got syn ∷ later) r ≡ (
          if all_axes scale (collect quiet r).hub
          then returned (pos 1) (callbacks (contents r.hub.senddata)) (collect quiet r)
          else gsensor_readevent scale 1 later (collect quiet r))
  unfolding gsensor_readevent
  report_collected quiet later r v q =
      let (table, count) = collect_table quiet r in
      let sent : notify (collect quiet r).hub ≡ callbacks (contents r.hub.senddata) =
        notify-callbacks _ (table-IsRegistry r.hub _ table count v)
        ∙ ap (λ t. callbacks (contents t)) table in
      readevent-collect 0 quiet (got syn ∷ later) r q
      ∙ elim (Bool-cases (all_axes scale (collect quiet r).hub)) [
        | inl e ↦ rw (e, ← sent) (rw (e, gsensor_readevent))
        | inr e ↦ rw e (rw (e, gsensor_readevent))
      ]

  -- Rounds that bring no report and do not end the loop, and then a report: if each of the axes x, y
  -- and z was seen in them or before, the call returns 1, every callback of the table gets the sample,
  -- once for each place, and the sample has the last value of each axis, scaled; otherwise nobody gets
  -- one, and the loop goes on with these values.
  pub readevent_report :
      (quiet later : List Round) (r : Reader scale)
      → IsRegistry r.hub
      → IsQuiet quiet
      → gsensor_readevent scale 1 (quiet ++ got syn ∷ later) r ≡ (
          if latest (λ v. 1) x_of r.hub.axis_x_init quiet == 1
            && (latest (λ v. 1) y_of r.hub.axis_y_init quiet == 1
                && latest (λ v. 1) z_of r.hub.axis_z_init quiet == 1)
          then returned (pos 1) (callbacks (contents r.hub.senddata)) (sampled quiet r)
          else gsensor_readevent scale 1 later (sampled quiet r))
  readevent_report quiet later r v q =
      report_collected quiet later r v q
      ∙ ap
          (λ c.
            if all_axes scale c.hub
            then returned (pos 1) (callbacks (contents r.hub.senddata)) c
            else gsensor_readevent scale 1 later c)
          (collect-sampled quiet r)

  -- However the rounds go, a call hands a sample out only once every axis has been seen, and then to
  -- the callbacks of the table; a call that returns another value hands out none.
  pub readevent_sound :
      (c : ℕ) (rounds : List Round) (r r' : Reader scale) (ret : ℤ) (calls : List ℕ)
      → gsensor_readevent scale c rounds r ≡ returned ret calls r'
      → (calls ≡ (if eq_ℤ ret (pos 1) then notify r'.hub else []))
        × (ret ≡ pos 1 → all_axes scale r'.hub ≡ true)
  unfolding gsensor_readevent
  readevent_sound zero rounds r r' ret calls e = ground arith
  readevent_sound (suc c) [] r r' ret calls e = cc
  readevent_sound (suc c) (idle ∷ rounds) r r' ret calls e =
      readevent_sound (suc c) rounds r r' ret calls e
  readevent_sound (suc c) (stopping ∷ rounds) r r' ret calls e = ground arith
  readevent_sound (suc c) (read_error n ∷ rounds) r r' ret calls e = ground arith
  readevent_sound (suc c) (got (abs_x v) ∷ rounds) r r' ret calls e =
      readevent_sound (suc c) rounds _ r' ret calls e
  readevent_sound (suc c) (got (abs_y v) ∷ rounds) r r' ret calls e =
      readevent_sound (suc c) rounds _ r' ret calls e
  readevent_sound (suc c) (got (abs_z v) ∷ rounds) r r' ret calls e =
      readevent_sound (suc c) rounds _ r' ret calls e
  readevent_sound (suc c) (got (abs_other v) ∷ rounds) r r' ret calls e =
      readevent_sound (suc c) rounds r r' ret calls e
  readevent_sound (suc c) (got other ∷ rounds) r r' ret calls e =
      readevent_sound (suc c) rounds r r' ret calls e
  readevent_sound (suc c) (got syn ∷ rounds) r r' ret calls e = ground (
    arith,
    readevent_sound (suc c) rounds r r' ret calls,
    readevent_sound c rounds r r' ret calls,
  )
