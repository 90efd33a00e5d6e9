-- ===== src/Parking/Shutdown.antt =====
-- parking_monitor/parking_monitor.c with gsensor.c: registering with the hub, and ending the thread
-- while the hub's thread and the monitor's own thread go on.
use cvr_video.Base.{
  ℕ, ◌+◌, ◌≤◌, ◌≡◌, refl, ◌∙◌, ◌≢◌, ◌⊎◌, Bool-cases, none, List, [], ◌∷◌, Bool, true, false, ◌==◌,
  if◌then◌else◌, Option, some, arith, Option-cases, inl, inr,
}
use cvr_video.Base.Int.{pos, eq_ℤ}
use cvr_video.Gsensor.{Hub, Kernel, gsensor_regsenddatafunc, gsensor_unregsenddatafunc}
use cvr_video.Gsensor.Registry.{IsRegistry, contents, enroll, register_refines}
use cvr_video.Gsensor.Withdraw.{unregister-register}
use cvr_video.Gsensor.Axes.{Axis}
use cvr_video.Parking.{
  Floats, Monitor, Place, absent, created, testing, clearing, leaving, detached, ended, gone,
  has_ended, outside, told, joining, State, cleared, parking_check, parking_get_gsdata,
  parking_process, thread_step, parking_register, parking_unregister, join_begin, join_return,
}

process_facts {ℓ} :
    {F : Type ℓ} (s : State F)
    → ((parking_process s).pm ≡ s.pm)
      × ((parking_process s).main ≡ s.main)
      × ((parking_process s).thread ≡ s.thread)
unfolding parking_process
process_facts s = ground arith

-- The number that a registration leaves: of the slot taken, or -1.
registered_num :
    (k : Kernel) (self : ℕ) (h : Hub)
    → IsRegistry h
    → eq_ℤ (gsensor_regsenddatafunc k (some self) h).0 (pos 0) ≡ false
registered_num k self h v = elim (Option-cases (enroll self (contents h.senddata))) [
  | inl e ↦ let r = rw e at (register_refines k self h v) in ground (arith, r)
  | inr ((p, c), e) ↦ let r = rw e at (register_refines k self h v) in ground (arith, r.0)
]

-- With a sound hub, a second registration does nothing: not when the first one succeeded, and not when it failed
-- either, since the number is then -1.
pub register_idempotent {ℓ} :
    {F : Type ℓ} (k k' : Kernel) (ok ok' : Bool) (self : ℕ) (s : State F) (h : Hub)
    → IsRegistry h
    → let (s', h') = parking_register k ok self s h in parking_register k' ok' self s' h' ≡ (s', h')
unfolding parking_register
register_idempotent k k' ok ok' self s h v = ground (arith, registered_num k self h v)

module _ {ℓ} {F : Type ℓ} (op : Floats F) where
  -- What happens while the main thread waits.
  pub data Turn : Type ℓ where
    gets_sample : Axis F → Turn
    thread_turn : Turn

  abbrev pub turn : Turn → State F → State F
  turn (gets_sample a) s = record s { pm = parking_get_gsdata op a s.pm }
  turn thread_turn s = thread_step op s

  unfoldable pub run : List Turn → State F → State F
  run [] s = s
  run (t ∷ rest) s = run rest (turn t s)

  abbrev pub thread_turns : List Turn → ℕ
  thread_turns [] = 0
  thread_turns (gets_sample a ∷ rest) = thread_turns rest
  thread_turns (thread_turn ∷ rest) = 1 + thread_turns rest

  -- The thread is in its loop, and nothing tells it to end.
  abbrev pub never_ends : State F → Bool
  never_ends s = elim s.thread [
    | absent ↦ false
    | created ↦ true
    | testing ↦ s.pm.pthread_exit == 0
    | clearing ↦ s.pm.pthread_exit == 0
    | leaving ↦ false
    | detached ↦ false
    | ended ↦ false
    | gone ↦ false
  ]

  sample_facts :
      (a : Axis F) (m : Monitor F)
      → ((parking_get_gsdata op a m).pthread_exit ≡ m.pthread_exit)
        × ((parking_get_gsdata op a m).num ≡ m.num)
        × ((parking_get_gsdata op a m).pthread_state ≡ m.pthread_state)
  unfolding parking_get_gsdata parking_check
  sample_facts a m = ground arith

  turn-never_ends :
      (t : Turn) (s : State F)
      → never_ends s ≡ true
      → (never_ends (turn t s) ≡ true) × ((turn t s).main ≡ s.main)
  turn-never_ends (gets_sample a) s e = ground (arith, sample_facts a s.pm)
  turn-never_ends thread_turn s e = ground (arith, process_facts s)

  run-never_ends :
      (turns : List Turn) (s : State F)
      → never_ends s ≡ true
      → (never_ends (run turns s) ≡ true) × ((run turns s).main ≡ s.main)
  unfolding run
  run-never_ends [] s e = (e, refl)
  run-never_ends (t ∷ rest) s e =
      let (n, w) = turn-never_ends t s e in
      let (n', w') = run-never_ends rest (turn t s) n in (n', w' ∙ w)

  join-stuck : (s : State F) → never_ends s ≡ true → join_return op s ≡ s
  unfolding join_return
  join-stuck s e = ground arith

  -- The thread's end is at most this many of its turns away, once it is told to end.
  abbrev pub turns_left : Place → ℕ
  turns_left absent = 4
  turns_left created = 4
  turns_left testing = 3
  turns_left clearing = 4
  turns_left leaving = 2
  turns_left detached = 1
  turns_left ended = 0
  turns_left gone = 0

  -- The thread is in its loop.
  abbrev pub is_looping : Place → Bool
  is_looping testing = true
  is_looping clearing = true
  is_looping _ = false

  -- The thread has come to its loop.
  abbrev pub has_started : Place → Bool
  has_started absent = false
  has_started created = false
  has_started _ = true

  -- The thread has detached itself.
  abbrev pub is_detached : Place → Bool
  is_detached detached = true
  is_detached gone = true
  is_detached _ = false

  run_started :
      (turns : List Turn) (s : State F)
      → has_started s.thread ≡ true
      → s.pm.pthread_exit ≡ 1
      → (has_started (run turns s).thread ≡ true)
        × ((run turns s).pm.pthread_exit ≡ 1)
        × ((run turns s).main ≡ s.main)
  unfolding run
  run_started [] s l e = (l, e, refl)
  run_started (gets_sample a ∷ rest) s l e =
      ground (arith, sample_facts a s.pm, run_started rest (turn (gets_sample a) s))
  run_started (thread_turn ∷ rest) s l e =
      ground (arith, process_facts s, run_started rest (turn thread_turn s))

  run_ends :
      (turns : List Turn) (s : State F)
      → has_started s.thread ≡ true
      → s.pm.pthread_exit ≡ 1
      → turns_left s.thread ≤ thread_turns turns
      → (has_ended (run turns s).thread ≡ true) × ((run turns s).main ≡ s.main)
  unfolding run
  run_ends [] s l e n = ground arith
  run_ends (gets_sample a ∷ rest) s l e n =
      ground (arith, sample_facts a s.pm, run_ends rest (turn (gets_sample a) s))
  run_ends (thread_turn ∷ rest) s l e n = ground (arith, run_ends rest (turn thread_turn s))

  started-absent : (t : Place) → has_started t ≡ true → t ≢ absent
  started-absent t e = ground arith

  never_ends-absent :
      (s : State F) → never_ends s ≡ true → (s.thread ≢ absent) × (is_detached s.thread ≡ false)
  never_ends-absent s e = ground arith

  begins :
      (q : State F)
      → q.main ≡ told
      → q.thread ≢ absent
      → is_detached q.thread ≡ false
      → join_begin op q ≡ some (record q { main = joining })
  unfolding join_begin
  begins q m l d = ground arith

  undefined : (q : State F) → q.main ≡ told → is_detached q.thread ≡ true → join_begin op q ≡ none
  unfolding join_begin
  undefined q m d = ground arith

  returns :
      (q : State F)
      → has_ended q.thread ≡ true
      → q.main ≡ joining
      → join_return op q ≡ record q { pm = cleared op; thread = absent; main = outside }
  unfolding join_return
  returns q e m = ground arith

  three_turns :
      (u : State F)
      → is_looping u.thread ≡ true
      → u.pm.pthread_exit ≡ 1
      → u.main ≡ told
      → join_begin op (run (thread_turn ∷ thread_turn ∷ thread_turn ∷ []) u) ≡ none
  unfolding join_begin run
  three_turns u l e m = ground arith

  -- An unregistration of a running monitor whose callback the hub takes back, while the thread is in
  -- its loop: whatever samples and thread turns come before the call of pthread_join, either the
  -- thread has detached itself by then, and the call is not defined; or the join begins, and returns
  -- after any samples and thread turns with four turns of the thread: the structure is cleared, and
  -- nobody waits any more. Three turns of the thread before the call are enough for the first. Here a
  -- join that has begun is not disturbed by the thread's pthread_detach.
  pub unregister_returns :
      (k : Kernel) (h : Hub) (s : State F) (before after : List Turn)
      → s.pm.num ≢ pos 0
      → (gsensor_unregsenddatafunc k s.pm.num h).0 ≡ pos 0
      → s.pm.pthread_state ≡ 1
      → is_looping s.thread ≡ true
      → 4 ≤ thread_turns after
      → let u = (parking_unregister op k s h).0 in
        let q = run before u in
        (((is_detached q.thread ≡ true) × (join_begin op q ≡ none))
          ⊎ ((w : State F) × (join_begin op q ≡ some w)
              × (join_return op (run after w)
                  ≡ record (run after w) { pm = cleared op; thread = absent; main = outside })))
        × (join_begin op (run (thread_turn ∷ thread_turn ∷ thread_turn ∷ []) u) ≡ none)
  unfolding parking_unregister
  unregister_returns k h s before after n g p l four =
      let u = record s { pm = record (s.pm) { pthread_exit = 1 }; main = told } in
      let same : (parking_unregister op k s h).0 ≡ u = ground arith in
      let (started, exit, main) = run_started before u (ground arith) refl in
      let q = run before u in
      rw same (
        elim (Bool-cases (is_detached q.thread)) [
          | inl d ↦ inl (d, undefined q main d)
          | inr d ↦
              let w = record q { main = joining } in
              let (e, m) = run_ends after w started exit (ground arith) in
              inr (w, begins q main (started-absent q.thread started) d, returns (run after w) e m)
        ],
        three_turns u l refl refl,
      )

  -- If the thread has not yet run its first statement, an unregistration that waits for it waits for
  -- ever: whatever samples and thread turns come before the call of pthread_join, the join begins, and
  -- whatever follows, it does not return.
  pub unregister_hangs :
      (k : Kernel) (h : Hub) (s : State F) (before after : List Turn)
      → s.thread ≡ created
      → (parking_unregister op k s h).0.main ≡ told
      → (w : State F) × (join_begin op (run before (parking_unregister op k s h).0) ≡ some w)
        × ((run after w).main ≡ joining)
        × (join_return op (run after w) ≡ run after w)
  unfolding parking_unregister
  unregister_hangs k h s before after c m =
      let same : (parking_unregister op k s h).0.thread ≡ s.thread = ground arith in
      let start : never_ends (parking_unregister op k s h).0 ≡ true = ground arith in
      let q = run before (parking_unregister op k s h).0 in
      let (n, m') = run-never_ends before (parking_unregister op k s h).0 start in
      let w = record q { main = joining } in
      let (n', m'') = run-never_ends after w n in
      (
        w,
        begins q (m' ∙ m) (never_ends-absent q n).0 (never_ends-absent q n).1,
        m'',
        join-stuck _ n',
      )

  -- On a sound hub with a place for the callback, registering a monitor without a number and
  -- unregistering it leaves the hub's table of callbacks as it was. If the thread was
  -- created, it is told to end and waited for, and the number is kept meanwhile; if not, the exit flag
  -- and the number are cleared at once.
  pub unregister-register_table :
      (k k' : Kernel) (ok : Bool) (self p : ℕ) (c : List (Option ℕ)) (s : State F) (h : Hub)
      → IsRegistry h
      → enroll self (contents h.senddata) ≡ some (p, c)
      → s.pm.num ≡ pos 0
      → let (s', h') = parking_register k ok self s h in
        let (s'', h'') = parking_unregister op k' s' h' in
        (contents h''.senddata ≡ contents h.senddata)
        × (s''.main ≡ (if ok then told else s.main))
        × (s''.pm.pthread_exit ≡ (if ok then 1 else 0))
        × (s''.pm.num ≡ (if ok then pos (p + 1) else pos 0))
  unfolding parking_register parking_unregister
  unregister-register_table k k' true self p c s h v e z =
      ground (arith, unregister-register k k' self p c h v e)
  unregister-register_table k k' false self p c s h v e z =
      ground (arith, unregister-register k k' self p c h v e)
