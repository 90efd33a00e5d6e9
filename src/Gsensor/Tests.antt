-- ===== src/Gsensor/Tests.antt =====
-- The sensor hub with three slots in use, then with a hole between two callbacks.
use cvr_video.Base.{ℕ, ◌≡◌, refl, inl, inr, List, [], ◌∷◌, ◌++◌, true, none, some, set, replicate}
use cvr_video.Base.Int.{ℤ, pos}
use cvr_video.Gsensor.{
  Slot, Hub, Kernel, free_slot, gsensor_regsenddatafunc, gsensor_unregsenddatafunc,
}
use cvr_video.Gsensor.Registry.{IsRegistry, contents, enroll, Registers, register_refines}
use cvr_video.Gsensor.Withdraw.{unregister_refines}
use cvr_video.Gsensor.Events.{
  Reader, Round, abs_x, abs_y, abs_z, syn, idle, got, returned, gsensor_readevent, store,
}
use cvr_video.Gsensor.Samples.{readevent_report, sampled}
use cvr_video.Gsensor.Device.{Opened, free_table}

abbrev kernel : Kernel
kernel = record { thread_created = true; ioctl_result = pos 0 }

abbrev tail : List Slot
tail = replicate 125 free_slot

abbrev with_slots : ℕ → List Slot → Hub
with_slots count slots = record {
  gsfd = pos 3;
  gsinput = pos 4;
  gsthread_state = 1;
  gstate = 1;
  gsrelease_state = 0;
  axis_x_init = 0;
  axis_y_init = 0;
  axis_z_init = 0;
  gsfun_count = pos count;
  senddata = slots;
  actions = [];
}

-- Callback 50 in the first slot and 70 in the third; the second is free.
abbrev hole : Hub
hole =
    with_slots 2
      (record { num = 1; send = some 50 } ∷ free_slot ∷ record { num = 3; send = some 70 } ∷ tail)

hole-IsRegistry : IsRegistry hole
hole-IsRegistry = record {
  sound = (inr (50, refl, refl), (inl (refl, refl), (inr (70, refl, refl), (free_table 3 125).0)));
  size = refl;
  count = refl;
}

abbrev single : Hub
single = with_slots 1 (record { num = 1; send = some 50 } ∷ free_slot ∷ free_slot ∷ tail)

single-IsRegistry : IsRegistry single
single-IsRegistry = record {
  sound = (inr (50, refl, refl), (free_table 1 127).0);
  size = refl;
  count = refl;
}

register_refines_example :
    Registers hole
      (enroll 90 (contents hole.senddata))
      (gsensor_regsenddatafunc kernel (some 90) hole)
register_refines_example = register_refines kernel 90 hole hole-IsRegistry

unregister_refines_example :
    let (ret, h') = gsensor_unregsenddatafunc kernel (pos 3) hole in
    (ret ≡ pos 0) × (contents h'.senddata ≡ set (contents hole.senddata) 2 none) × IsRegistry h'
unregister_refines_example = unregister_refines kernel 2 70 hole hole-IsRegistry refl

-- The scaling keeps the raw value.
abbrev raw : ℤ → ℤ
raw v = v

abbrev reader : Reader raw
reader = record {
  hub = hole;
  acc_x = pos 0;
  acc_y = pos 0;
  acc_z = pos 0;
  sensor_data_x = pos 0;
  sensor_data_y = pos 0;
  sensor_data_z = pos 0;
}

abbrev axes : List Round
axes = got (abs_x (pos 1)) ∷ idle ∷ got (abs_y (pos 2)) ∷ got (abs_z (pos 3)) ∷ []

readevent_report_example :
    gsensor_readevent raw 1 (axes ++ got syn ∷ []) reader
    ≡ returned (pos 1) (50 ∷ 70 ∷ []) (sampled raw axes reader)
unfolding store
readevent_report_example = readevent_report raw axes [] reader hole-IsRegistry tt

abbrev opened : Opened
opened = record { gsfd = pos 3; gsinput = pos 4; collision_level = 2; parkingmonitor = 0 }
