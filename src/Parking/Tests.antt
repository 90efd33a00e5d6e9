-- ===== src/Parking/Tests.antt =====
-- The parking monitor on concrete samples, with integers for floats.
use cvr_video.Base.{arith, ◌≡◌, ◌⊎◌, none, inr, refl, [], ◌∷◌, true, some, replicate}
use cvr_video.Base.Int.{ℤ, pos, negsuc, ltb_ℤ, ◌+ℤ◌, ◌-ℤ◌}
use cvr_video.Gsensor.{Hub, Kernel, free_slot}
use cvr_video.Gsensor.Registry.{IsRegistry}
use cvr_video.Gsensor.Withdraw.{unregister_refines}
use cvr_video.Gsensor.Device.{free_table}
use cvr_video.Gsensor.Axes.{Axis}
use cvr_video.Parking.{
  Floats, absent, created, testing, outside, told, joining, State, cleared, join_begin, join_return,
  parking_unregister,
}
use cvr_video.Parking.Movement.{observe, observe_jolts}
use cvr_video.Parking.Shutdown.{
  gets_sample, thread_turn, run, is_detached, unregister_returns, unregister_hangs,
}

abbrev whole : Floats ℤ
whole = record {
  zero = pos 0;
  of_int = λ n. n;
  add = λ a b. a +ℤ b;
  sub = λ a b. a -ℤ b;
  gtb = λ a b. ltb_ℤ b a;
  ltb = λ a b. ltb_ℤ a b;
}

abbrev at_rest : Axis ℤ
at_rest = record { x = pos 0; y = pos 0; z = pos 10 }

abbrev pushed : Axis ℤ
pushed = record { x = pos 0; y = negsuc 2; z = pos 10 }

observe_jolts_example :
    observe whole (at_rest ∷ at_rest ∷ pushed ∷ []) (cleared whole)
    ≡ record (cleared whole) { datainit = 1; pm_data = pushed; parking_flag = 1 }
unfolding ◌+ℤ◌ ◌-ℤ◌
observe_jolts_example = observe_jolts whole at_rest (at_rest ∷ pushed ∷ []) (cleared whole) refl

abbrev free_hub : Hub
free_hub = record {
  gsfd = pos 5;
  gsinput = pos 6;
  gsthread_state = 0;
  gstate = 0;
  gsrelease_state = 0;
  axis_x_init = 0;
  axis_y_init = 0;
  axis_z_init = 0;
  gsfun_count = pos 0;
  senddata = replicate 128 free_slot;
  actions = [];
}

abbrev kernel : Kernel
kernel = record { thread_created = true; ioctl_result = pos 0 }

abbrev fresh : State ℤ
fresh = record {
  pm = cleared whole;
  event_call = true;
  events = 0;
  thread = absent;
  main = outside;
}

abbrev watching : State ℤ
watching = record fresh {
  pm = record (cleared whole) { num = pos 1; pthread_state = 1 };
  thread = testing;
}

abbrev one_callback : Hub
one_callback = record free_hub {
  gsthread_state = 1;
  gsfun_count = pos 1;
  senddata = record { num = 1; send = some 40 } ∷ replicate 127 free_slot;
}

free_hub-IsRegistry : IsRegistry free_hub
free_hub-IsRegistry = record { sound = (free_table 0 128).0; size = refl; count = refl }

one_callback-IsRegistry : IsRegistry one_callback
one_callback-IsRegistry = record {
  sound = (inr (40, refl, refl), (free_table 1 127).0);
  size = refl;
  count = refl;
}

-- The thread has one turn before the call of pthread_join, and four behind it.
unregister_returns_example :
    let u = (parking_unregister whole kernel watching one_callback).0 in
    let q = run whole (thread_turn ∷ gets_sample pushed ∷ []) u in
    let after = thread_turn ∷ gets_sample pushed ∷ thread_turn ∷ thread_turn ∷ thread_turn ∷ [] in
    (((is_detached whole q.thread ≡ true) × (join_begin whole q ≡ none))
      ⊎ ((w : State ℤ) × (join_begin whole q ≡ some w)
          × (join_return whole (run whole after w) ≡ record (run whole after w) {
            pm = cleared whole;
            thread = absent;
            main = outside;
          })))
    × (join_begin whole (run whole (thread_turn ∷ thread_turn ∷ thread_turn ∷ []) u) ≡ none)
unregister_returns_example =
    unregister_returns whole kernel one_callback watching (thread_turn ∷ gets_sample pushed ∷ [])
      (thread_turn ∷ gets_sample pushed ∷ thread_turn ∷ thread_turn ∷ thread_turn ∷ [])
      (λ e. ground (arith, e))
      (unregister_refines kernel 0 40 one_callback one_callback-IsRegistry refl).0 refl refl
      (omega arith)

abbrev starting : State ℤ
starting = record watching { thread = created }

starting-told : (parking_unregister whole kernel starting one_callback).0.main ≡ told
unfolding parking_unregister
starting-told =
    ground (arith, unregister_refines kernel 0 40 one_callback one_callback-IsRegistry refl)

unregister_hangs_example :
    (w : State ℤ) × (join_begin whole
        (run whole (thread_turn ∷ []) (parking_unregister whole kernel starting one_callback).0)
      ≡ some w)
    × ((run whole (gets_sample pushed ∷ thread_turn ∷ []) w).main ≡ joining)
    × (join_return whole (run whole (gets_sample pushed ∷ thread_turn ∷ []) w)
        ≡ run whole (gets_sample pushed ∷ thread_turn ∷ []) w)
unregister_hangs_example =
    unregister_hangs whole kernel one_callback starting (thread_turn ∷ [])
      (gets_sample pushed ∷ thread_turn ∷ []) refl starting-told
