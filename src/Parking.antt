-- ===== src/Parking.antt =====
-- parking_monitor/parking_monitor.c: the parking monitor. It is a client of the sensor hub, keeps the
-- last sample, and has a thread that reports a movement. Floats are a parameter. A state has the
-- structure `pm`, where the thread is, and where the main thread is in parking_unregister.
-- There is one thread at most: a registration while an old thread runs is not modelled.
pub mod Movement
pub mod Shutdown
mod Tests
use cvr_video.Base.{
  ℕ, suc, ◌+◌, List, [], ◌∷◌, Bool, true, false, not, ◌&&◌, ◌||◌, ◌==◌, if◌then◌else◌, Option, none,
  some,
}
use cvr_video.Base.Int.{ℤ, pos, eq_ℤ, ltb_ℤ}
use cvr_video.Gsensor.Axes.{Axis}
use cvr_video.Gsensor.{Hub, Kernel, gsensor_regsenddatafunc, gsensor_unregsenddatafunc}

-- The float operations that the code uses.
pub record Floats {ℓ} (F : Type ℓ) : Type ℓ where
  pub zero : F
  pub of_int : ℤ → F
  pub add : F → F → F
  pub sub : F → F → F
  pub gtb : F → F → Bool
  pub ltb : F → F → Bool

-- `struct parking_monitor` without the thread's handle
pub record Monitor {ℓ} (F : Type ℓ) : Type ℓ where
  pub num : ℤ
  pub datainit : ℕ
  pub pthread_state : ℕ
  pub pthread_exit : ℕ
  pub parking_flag : ℕ
  pub pm_data : Axis F

-- Where the thread is: not there, before its first statement, at the test of its loop, behind
-- parking_process, in parking_delete_pthread before and behind pthread_detach, ended without having been
-- detached, and ended and detached.
pub data Place : Type 0 where
  absent created testing clearing leaving detached ended gone : Place

abbrev pub has_ended : Place → Bool
has_ended ended = true
has_ended gone = true
has_ended _ = false

-- Where the main thread is: outside of parking_unregister, behind `pthread_exit = 1`, or in
-- pthread_join.
pub data MainPlace : Type 0 where
  outside told joining : MainPlace

-- `events` counts the calls of the event callback.
pub record State {ℓ} (F : Type ℓ) : Type ℓ where
  pub pm : Monitor F
  pub event_call : Bool
  pub events : ℕ
  pub thread : Place
  pub main : MainPlace

unfoldable pub parking_process {ℓ} : {F : Type ℓ} → State F → State F
parking_process s = if s.event_call then record s { events = s.events + 1 } else s

-- The flag says whether pthread_create succeeds.
abbrev pub parking_create_pthread {ℓ} : {F : Type ℓ} → Bool → State F → State F
parking_create_pthread ok s =
    if ok
    then record s { thread = created }
    else record s { pm = record (s.pm) { pthread_state = 0 } }

-- `self` is the address of parking_get_gsdata.
unfoldable pub parking_register {ℓ} :
    {F : Type ℓ} → Kernel → Bool → ℕ → State F → Hub → State F × Hub
parking_register k ok self s h =
    if eq_ℤ s.pm.num (pos 0)
    then (let (num, h') = gsensor_regsenddatafunc k (some self) h in
        (
          (if ltb_ℤ (pos 0) num
              then parking_create_pthread ok
                  (record s { pm = record (s.pm) { num = num; pthread_state = 1 } })
              else record s { pm = record (s.pm) { num = num } }),
          h',
        ))
    else (s, h)

-- PARKING_LEVEL
abbrev pub parking_level : ℤ
parking_level = pos 1

module _ {ℓ} {F : Type ℓ} (op : Floats F) where
  -- `memset(&pm, 0, sizeof(pm))`
  abbrev pub cleared : Monitor F
  cleared = record {
    num = pos 0;
    datainit = 0;
    pthread_state = 0;
    pthread_exit = 0;
    parking_flag = 0;
    pm_data = record { x = op.zero; y = op.zero; z = op.zero };
  }

  -- The test of one axis.
  abbrev pub off_axis : F → F → F → Bool
  off_axis threshold old new =
      op.gtb new (op.add old threshold) || op.ltb new (op.sub old threshold)

  unfoldable pub parking_check : Axis F → ℤ → Monitor F → ℕ × Monitor F
  parking_check sample threshold pm =
      let t = op.of_int threshold in
      let ret = if off_axis t pm.pm_data.x sample.x then 1 else 0 in
      let ret' = if off_axis t pm.pm_data.y sample.y then 1 else ret in
      let ret'' = if off_axis t pm.pm_data.z sample.z then 1 else ret' in
      (ret'', record pm { pm_data = sample })

  unfoldable pub parking_get_gsdata : Axis F → Monitor F → Monitor F
  parking_get_gsdata sample pm =
      if pm.datainit == 0
      then record pm { pm_data = sample; datainit = 1 }
      else let (ret, pm') = parking_check sample parking_level pm in
        if ret == 1 then record pm' { parking_flag = 1 } else pm'

  -- One step of parking_pthread.
  abbrev pub thread_step : State F → State F
  thread_step s = elim s.thread [
    | absent ↦ s
    | created ↦ record s { pm = record (s.pm) { pthread_exit = 0 }; thread = testing }
    | testing ↦
        if s.pm.pthread_exit == 0
        then (if s.pm.parking_flag == 1
            then record (parking_process s) { thread = clearing }
            else s)
        else record s { pm = record (s.pm) { pthread_state = 0 }; thread = leaving }
    | clearing ↦ record s { pm = record (s.pm) { parking_flag = 0 }; thread = testing }
    | leaving ↦ record s { thread = detached }
    | detached ↦ record s { thread = gone }
    | ended ↦ s
    | gone ↦ s
  ]

  abbrev pub parking_deinit : State F → State F
  parking_deinit s = record s { pm = cleared }

  -- Up to the call of pthread_join, or to the end if there is no thread to wait for.
  unfoldable pub parking_unregister : Kernel → State F → Hub → State F × Hub
  parking_unregister k s h =
      if eq_ℤ s.pm.num (pos 0)
      then (s, h)
      else let (ret, h') = gsensor_unregsenddatafunc k s.pm.num h in
        (
          (if eq_ℤ ret (pos 0) && s.pm.pthread_state == 1
              then record s { pm = record (s.pm) { pthread_exit = 1 }; main = told }
              else parking_deinit s),
          h',
        )

  -- The call of pthread_join. `none`: the thread is detached, or there is none, and the call is not
  -- defined.
  unfoldable pub join_begin : State F → Option (State F)
  join_begin s = elim s.main [
    | told ↦ (elim s.thread [
      | absent ↦ none
      | detached ↦ none
      | gone ↦ none
      | _ ↦ some (record s { main = joining })
    ])
    | _ ↦ some s
  ]

  -- The rest of parking_unregister, behind pthread_join. A join that has begun goes on until the thread
  -- ends, also when the thread detaches itself meanwhile.
  unfoldable pub join_return : State F → State F
  join_return s =
      if has_ended s.thread
      then (elim s.main [
        | joining ↦ parking_deinit (record s { thread = absent; main = outside })
        | _ ↦ s
      ])
      else s

  abbrev pub parking_init : State F → State F
  parking_init s = record s { pm = cleared }
