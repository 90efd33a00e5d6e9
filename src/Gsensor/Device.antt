-- ===== src/Gsensor/Device.antt =====
-- gsensor.c: opening and closing the two descriptors of the sensor.
use cvr_video.Base.{
  ℕ, zero, suc, ap, sym, inl, ◌+◌, ◌≡◌, refl, ◌∷◌, true, false, not, ◌&&◌, ◌||◌, ◌==◌,
  if◌then◌else◌, replicate, length, arith,
}
use cvr_video.Base.Int.{ℤ, pos, ltb_ℤ, leb_ℤ}
use cvr_video.Gsensor.{
  Hub, Kernel, close_fd, create_thread, act, fun_num, free_slot, minus_one, gsensor_create_thread,
}
use cvr_video.Gsensor.Registry.{IsSound, used, IsRegistry, table-IsRegistry}

-- What opening the device and finding its input device give, and the two settings of parameter.c.
pub record Opened : Type 0 where
  pub gsfd : ℤ
  pub gsinput : ℤ
  pub collision_level : ℕ
  pub parkingmonitor : ℕ

-- `memset` of the sensor, with both descriptors -1; the table of `senddata` stays.
abbrev pub blank : Hub → Hub
blank h = record h {
  gsfd = minus_one;
  gsinput = minus_one;
  gsthread_state = 0;
  gstate = 0;
  gsrelease_state = 0;
  axis_x_init = 0;
  axis_y_init = 0;
  axis_z_init = 0;
  gsfun_count = pos 0;
}

unfoldable pub start_for_settings : Kernel → Opened → Hub → Hub
start_for_settings k o h =
    if not (o.parkingmonitor == 0) || not (o.collision_level == 0)
    then gsensor_create_thread k (record h { gsthread_state = 1 })
    else h

-- Both descriptors are open, and the table is cleared.
unfoldable pub fresh : Opened → Hub → Hub
fresh o h = record (blank h) {
  gsfd = o.gsfd;
  gsinput = o.gsinput;
  senddata = replicate fun_num free_slot;
}

unfoldable pub gsensor_init : Kernel → Opened → Hub → ℤ × Hub
gsensor_init k o h =
    let h1 = record (blank h) { gsfd = o.gsfd } in
    if ltb_ℤ o.gsfd (pos 0)
    then (minus_one, h1)
    else if ltb_ℤ o.gsinput (pos 0)
    then (minus_one, act (close_fd o.gsfd) (record h1 { gsinput = o.gsinput }))
    else (pos 0, start_for_settings k o (fresh o h))

unfoldable pub gsensor_release : Hub → Hub
gsensor_release h =
    let h1 =
      if leb_ℤ (pos 0) h.gsfd then record (act (close_fd h.gsfd) h) { gsfd = minus_one } else h in
    if leb_ℤ (pos 0) h1.gsinput
    then record (act (close_fd h1.gsinput) h1) { gsinput = minus_one }
    else h1

pub free_table :
    (i n : ℕ)
    → IsSound i (replicate n free_slot)
      × (length (replicate n free_slot) ≡ n)
      × (used (replicate n free_slot) ≡ 0)
free_table i zero = (tt, refl, refl)
free_table i (suc n) =
    let (a, b, c) = free_table (i + 1) n in ((inl (refl, refl), a), ap suc b, omega (arith, c))

init_success :
    (k : Kernel) (o : Opened) (h : Hub)
    → (gsensor_init k o h).0 ≡ pos 0
    → (gsensor_init k o h).1 ≡ start_for_settings k o (fresh o h)
unfolding gsensor_init
init_success k o h e = ground arith

fresh-IsRegistry : (o : Opened) (h : Hub) → IsRegistry (fresh o h)
unfolding fresh
fresh-IsRegistry o h =
    let (sound, size, count) = free_table 0 fun_num in
    record { sound = sound; size = size; count = ap pos (sym count) }

start_for_settings_table :
    (k : Kernel) (o : Opened) (h : Hub)
    → let h' = start_for_settings k o h in
      (h'.senddata ≡ h.senddata)
      × (h'.gsfun_count ≡ h.gsfun_count)
      × (h'.actions ≡ (
          if o.parkingmonitor == 0 && o.collision_level == 0
          then h.actions
          else create_thread ∷ h.actions))
unfolding start_for_settings gsensor_create_thread
start_for_settings_table k o h = ground arith

-- A set-up that returns 0 leaves an empty table that is sound, and starts the thread exactly if the
-- collision or the parking detection is switched on.
pub init-IsRegistry :
    (k : Kernel) (o : Opened) (h : Hub)
    → (gsensor_init k o h).0 ≡ pos 0
    → let h' = (gsensor_init k o h).1 in
      IsRegistry h'
      × (h'.actions ≡ (
          if o.parkingmonitor == 0 && o.collision_level == 0
          then h.actions
          else create_thread ∷ h.actions))
init-IsRegistry k o h e =
    let (table, count, actions) = start_for_settings_table k o (fresh o h) in
    rw (init_success k o h e)
      (table-IsRegistry (fresh o h) _ table count (fresh-IsRegistry o h), unfold fresh in actions)

-- If the input device is missing, the set-up closes the device but keeps its descriptor: a release
-- then closes it once more.
pub release_after_failed_init :
    (k : Kernel) (o : Opened) (h : Hub)
    → ltb_ℤ o.gsfd (pos 0) ≡ false
    → ltb_ℤ o.gsinput (pos 0) ≡ true
    → ((gsensor_init k o h).0 ≡ minus_one)
      × ((gsensor_release (gsensor_init k o h).1).actions
          ≡ close_fd o.gsfd ∷ close_fd o.gsfd ∷ h.actions)
unfolding gsensor_init gsensor_release
release_after_failed_init k o h a b = ground arith
