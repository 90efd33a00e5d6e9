-- ===== src/Gsensor.antt =====
-- gsensor.c: the acceleration sensor hub. Clients register a callback in a table of 128 slots, and
-- the sensor thread hands every sample to the callbacks. The mutex makes each call one step.
-- A callback is known by a number, its address; `none` is the null pointer.
pub mod Axes
pub mod Registry
pub mod Withdraw
pub mod Events
pub mod Samples
pub mod Device
mod Tests
use cvr_video.Base.{
  ℕ, zero, suc, ◌+◌, ◌-◌, List, [], ◌∷◌, Bool, true, false, not, ◌&&◌, ◌||◌, ◌==◌, ltb, leb,
  if◌then◌else◌, Option, none, some, get_elem?, set, length, replicate,
}
use cvr_video.Base.Int.{ℤ, pos, negsuc, ltb_ℤ, eq_ℤ, ◌+ℤ◌, ◌-ℤ◌}

-- `struct gsensor_send_data`
pub record Slot : Type 0 where
  pub num : ℕ
  pub send : Option ℕ

pub data Action : Type 0 where
  create_thread : Action
  ioctl_start ioctl_close : Action
  close_fd : ℤ → Action

-- `struct gsensor` with the table `senddata`, and what the hub has done, the newest first.
pub record Hub : Type 0 where
  pub gsfd : ℤ
  pub gsinput : ℤ
  pub gsthread_state : ℕ
  pub gstate : ℕ
  pub gsrelease_state : ℕ
  pub axis_x_init : ℕ
  pub axis_y_init : ℕ
  pub axis_z_init : ℕ
  pub gsfun_count : ℤ
  pub senddata : List Slot
  pub actions : List Action

-- What the kernel answers: whether a thread can be created, and what `ioctl` returns.
pub record Kernel : Type 0 where
  pub thread_created : Bool
  pub ioctl_result : ℤ

abbrev pub fun_num : ℕ
fun_num = 128

abbrev pub act : Action → Hub → Hub
act a h = record h { actions = a ∷ h.actions }

abbrev pub free_slot : Slot
free_slot = record { num = 0; send = none }

abbrev pub minus_one : ℤ
minus_one = negsuc 0

-- The index of the first slot with number 0, counted from `i`; the length if there is none.
unfoldable pub first_free : ℕ → List Slot → ℕ
first_free i [] = i
first_free i (s ∷ rest) = elim (s.num == 0) [ true ↦ i | false ↦ first_free (i + 1) rest ]

unfoldable pub gsensor_getregnum : List Slot → ℤ
gsensor_getregnum slots =
    if ltb (first_free 0 slots) fun_num then pos (first_free 0 slots + 1) else minus_one

abbrev pub same_callback : Option ℕ → Option ℕ → Bool
same_callback none none = true
same_callback (some f) (some g) = f == g
same_callback _ _ = false

-- The loop that looks for the callback up to the first free slot: `none` if it is found.
unfoldable pub scan : Option ℕ → ℕ → List Slot → Option ℕ
scan f i [] = some i
scan f i (s ∷ rest) = elim (same_callback s.send f) [
  | true ↦ none
  | false ↦ elim (s.num == 0) [ true ↦ some i | false ↦ scan f (i + 1) rest ]
]

abbrev pub slot_send : Option Slot → Option ℕ
slot_send none = none
slot_send (some s) = s.send

unfoldable pub gsensor_create_thread : Kernel → Hub → Hub
gsensor_create_thread k h =
    let h' = act create_thread h in
    if k.thread_created then h' else record h' { gsthread_state = 0 }

abbrev pub start_thread : Kernel → Hub → Hub
start_thread k h =
    if not (h.gsthread_state == 1)
    then gsensor_create_thread k (record h { gsthread_state = 1 })
    else h

-- The rest of the registration, with the number of the first free slot.
abbrev pub fill_slot : Kernel → Option ℕ → ℕ → Hub → ℤ × Hub
fill_slot k f n h = elim (slot_send (get_elem? h.senddata (n - 1))) [
  | none ↦ (
    pos n,
    start_thread k (record h {
      senddata = set h.senddata (n - 1) (record { num = n; send = f });
      gsfun_count = h.gsfun_count +ℤ pos 1;
    }),
  )
  | some g ↦ (minus_one, h)
]

abbrev pub register_at : Kernel → Option ℕ → ℤ → Hub → ℤ × Hub
register_at k f (negsuc n) h = (minus_one, h)
register_at k f (pos n) h =
    if ltb n 1 || ltb fun_num n then (minus_one, h) else elim (scan f 0 h.senddata) [
      | none ↦ (minus_one, h)
      | some i ↦ if not (i == n - 1) then (minus_one, h) else fill_slot k f n h
    ]

unfoldable pub gsensor_regsenddatafunc : Kernel → Option ℕ → Hub → ℤ × Hub
gsensor_regsenddatafunc k f h = register_at k f (gsensor_getregnum h.senddata) h

unfoldable pub gsensor_enable : Kernel → Bool → Hub → ℤ × Hub
gsensor_enable k enable h =
    let h' = act (if enable then ioctl_start else ioctl_close) h in
    if ltb_ℤ k.ioctl_result (pos 0)
    then (minus_one, h')
    else (k.ioctl_result, record h' { gstate = if enable then 1 else 0 })

-- No slot has a number.
unfoldable pub all_free : List Slot → Bool
all_free [] = true
all_free (s ∷ rest) = s.num == 0 && all_free rest

abbrev pub stop_when_empty : Kernel → Hub → Hub
stop_when_empty k h =
    if h.gsthread_state == 1 && all_free h.senddata
    then (gsensor_enable k false (record h { gsthread_state = 0; gsrelease_state = 1 })).1
    else h

abbrev pub clear_slot : Kernel → ℕ → Hub → ℤ × Hub
clear_slot k num h =
    if ltb num 1 || ltb fun_num num
    then (minus_one, h)
    else elim (slot_send (get_elem? h.senddata (num - 1))) [
      | none ↦ (minus_one, h)
      | some g ↦ (
        pos 0,
        stop_when_empty k (record h {
          senddata = set h.senddata (num - 1) free_slot;
          gsfun_count = h.gsfun_count -ℤ pos 1;
        }),
      )
    ]

unfoldable pub gsensor_unregsenddatafunc : Kernel → ℤ → Hub → ℤ × Hub
gsensor_unregsenddatafunc k (pos num) h = clear_slot k num h
gsensor_unregsenddatafunc k (negsuc n) h = (minus_one, h)
