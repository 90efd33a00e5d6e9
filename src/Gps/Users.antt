-- ===== src/Gps/Users.antt =====
-- gps/gps_ctrl.cpp: the receiver is shared by the modules that called gps_init, and is open as long as
-- there is one.
use cvr_video.Base.{
  ℕ, zero, suc, ◌≡◌, ◌⊎◌, refl, ◌∙◌, List, [], ◌∷◌, if◌then◌else◌, Bool, true, false, none,
  Bool-cases, inl, inr, arith,
}
use cvr_video.Base.Int.{pos, negsuc, ◌+ℤ◌, ◌-ℤ◌, ltb_ℤ, eq_ℤ, ℤ}
use cvr_video.Gps.{
  Action, device_opened, device_closed, tty_opened, tty_closed, Receiver, Answers, init_parameter,
  open_tty_dev, close_tty_dev, gps_open, gps_close, gps_create_read_thread, gps_delete_read_thread,
  init, deinit, write_end_flag, gps_write_init, gps_write_deinit, gps_init, gps_deinit,
}

-- A list without the first place of a number.
abbrev pub without_first : ℤ → List ℤ → List ℤ
without_first n [] = []
without_first n (m ∷ rest) = if eq_ℤ m n then rest else m ∷ without_first n rest

-- The descriptors of the device, and of the port, that were opened and not closed since.
abbrev pub open_devices : List Action → List ℤ
open_devices [] = []
open_devices (device_opened n ∷ rest) = n ∷ open_devices rest
open_devices (device_closed n ∷ rest) = without_first n (open_devices rest)
open_devices (_ ∷ rest) = open_devices rest

abbrev pub open_ttys : List Action → List ℤ
open_ttys [] = []
open_ttys (tty_opened n ∷ rest) = n ∷ open_ttys rest
open_ttys (tty_closed n ∷ rest) = without_first n (open_ttys rest)
open_ttys (_ ∷ rest) = open_ttys rest

-- The receiver is open and read: the device and the port are open, once each, under the descriptors
-- that the module has.
pub record IsRead (g : Receiver) : Type 0 where
  pub thread : g.read_thread ≡ true
  pub allowed : g.gread_done ≡ true
  pub device : open_devices g.actions ≡ g.gps_fd ∷ []
  pub tty : open_ttys g.actions ≡ g.ttys_fd ∷ []
  pub device_fd : ltb_ℤ g.gps_fd (pos 0) ≡ false
  pub tty_fd : ltb_ℤ g.ttys_fd (pos 0) ≡ false

-- Nothing of it is in use: no descriptor is left open.
pub record IsAtRest (g : Receiver) : Type 0 where
  pub thread : g.read_thread ≡ false
  pub allowed : g.gread_done ≡ false
  pub callback : g.send_data ≡ none
  pub device : open_devices g.actions ≡ []
  pub tty : open_ttys g.actions ≡ []
  pub device_fd : ltb_ℤ g.gps_fd (pos 0) ≡ true
  pub tty_fd : ltb_ℤ g.ttys_fd (pos 0) ≡ true

-- The module has the descriptors that are open.
abbrev held : ℤ → List ℤ
held n = if ltb_ℤ n (pos 0) then [] else n ∷ []

record IsHeld (g : Receiver) : Type 0 where
  device : open_devices g.actions ≡ held g.gps_fd
  tty : open_ttys g.actions ≡ held g.ttys_fd

abbrev pub HasUsers : ℕ → Receiver → Type 0
HasUsers zero g = IsAtRest g × (g.gmodule_count ≡ pos 0)
HasUsers (suc n) g = IsRead g × (g.gmodule_count ≡ pos (suc n))

without_first-one : (n : ℤ) → without_first n (n ∷ []) ≡ []
without_first-one n = ground arith

deinit-IsAtRest :
    (a : Answers) (g : Receiver)
    → a.close_accepted ≡ true
    → g.gread_done ≡ false
    → IsHeld g
    → IsAtRest (deinit a g)
unfolding deinit gps_close close_tty_dev gps_delete_read_thread
deinit-IsAtRest a g e h v =
    ground (arith, e, h, v.device, v.tty, without_first-one g.gps_fd, without_first-one g.ttys_fd)

deinit-count : (a : Answers) (g : Receiver) → (deinit a g).gmodule_count ≡ g.gmodule_count
unfolding deinit gps_close close_tty_dev gps_delete_read_thread
deinit-count a g = ground arith

init-IsRead :
    (a : Answers) (c : ℕ) (g : Receiver)
    → g.gread_done ≡ true
    → open_devices g.actions ≡ []
    → open_ttys g.actions ≡ []
    → ltb_ℤ (init a c g).0 (pos 0) ≡ false
    → IsRead (init a c g).1
unfolding init gps_open open_tty_dev gps_create_read_thread init_parameter
init-IsRead a c g e d t h = ground (arith, e, d, t, h)

init-IsHeld :
    (a : Answers) (c : ℕ) (g : Receiver)
    → open_devices g.actions ≡ []
    → open_ttys g.actions ≡ []
    → IsHeld (init a c g).1
unfolding init gps_open open_tty_dev gps_create_read_thread init_parameter
init-IsHeld a c g d t = ground (arith, d, t)

init-count : (a : Answers) (c : ℕ) (g : Receiver) → (init a c g).1.gmodule_count ≡ g.gmodule_count
unfolding init gps_open open_tty_dev gps_create_read_thread init_parameter
init-count a c g = ground arith

-- A receiver that is read has what is open.
read-IsHeld : (g : Receiver) → IsRead g → IsHeld g
read-IsHeld g v = record {
  device = ground (arith, v.device, v.device_fd);
  tty = ground (arith, v.tty, v.tty_fd);
}

write_deinit-IsHeld : (flag : List ℕ) (g : Receiver) → IsHeld g → IsHeld (gps_write_deinit flag g)
unfolding gps_write_deinit write_end_flag
write_deinit-IsHeld flag g v = ground (arith, v.device, v.tty)

abbrev allowed : Receiver → Receiver
allowed g = record g { gread_done = true }

-- The branches of gps_init and gps_deinit.
first_succeeds :
    (a : Answers) (c : ℕ) (g : Receiver)
    → g.gmodule_count ≡ pos 0
    → ltb_ℤ (init a c (allowed g)).0 (pos 0) ≡ false
    → gps_init a c g ≡ (pos 1, record (init a c (allowed g)).1 { gmodule_count = pos 1 })
unfolding gps_init ◌+ℤ◌
first_succeeds a c g n e = ground (arith, n, e)

first_fails :
    (a : Answers) (c : ℕ) (g : Receiver)
    → g.gmodule_count ≡ pos 0
    → ltb_ℤ (init a c (allowed g)).0 (pos 0) ≡ true
    → gps_init a c g ≡ (negsuc 0, deinit a (record (init a c (allowed g)).1 { gread_done = false }))
unfolding gps_init
first_fails a c g n e = ground (arith, n, e)

later_init :
    (n : ℕ) (a : Answers) (c : ℕ) (g : Receiver)
    → g.gmodule_count ≡ pos (suc n)
    → gps_init a c g ≡ (pos (suc (suc n)), record g { gmodule_count = pos (suc (suc n)) })
unfolding gps_init ◌+ℤ◌
later_init n a c g e = ground (arith, e)

last_deinit :
    (a : Answers) (flag : List ℕ) (g : Receiver)
    → g.gmodule_count ≡ pos 1
    → gps_deinit a flag g ≡ (
      pos 0,
      deinit a (gps_write_deinit flag (record g { gmodule_count = pos 0; gread_done = false })),
    )
unfolding gps_deinit ◌-ℤ◌
last_deinit a flag g e = ground (arith, e)

other_deinit :
    (n : ℕ) (a : Answers) (flag : List ℕ) (g : Receiver)
    → g.gmodule_count ≡ pos (suc (suc n))
    → gps_deinit a flag g ≡ (pos (suc n), record g { gmodule_count = pos (suc n) })
unfolding gps_deinit ◌-ℤ◌
other_deinit n a flag g e = ground (arith, e)

gps_write_deinit-allowed :
    (flag : List ℕ) (g : Receiver)
    → ((gps_write_deinit flag g).gread_done ≡ g.gread_done)
      × ((gps_write_deinit flag g).gmodule_count ≡ g.gmodule_count)
unfolding gps_write_deinit write_end_flag
gps_write_deinit-allowed flag g = (ground arith, ground arith)

pub gps_init-HasUsers :
    (n : ℕ) (a : Answers) (c : ℕ) (g : Receiver)
    → HasUsers n g
    → a.close_accepted ≡ true
    → (((gps_init a c g).0 ≡ pos (suc n)) × HasUsers (suc n) (gps_init a c g).1)
      ⊎ (((gps_init a c g).0 ≡ negsuc 0) × HasUsers n (gps_init a c g).1)
gps_init-HasUsers zero a c g (v, n) acc =
    let r = init a c (allowed g) in
    elim (Bool-cases (ltb_ℤ r.0 (pos 0))) [
      | inl e ↦
          let g'' = record r.1 { gread_done = false } in
          let k = init-IsHeld a c (allowed g) v.device v.tty in
          rw (first_fails a c g n e) (
            inr (
              refl,
              (
                deinit-IsAtRest a g'' acc refl (record { device = k.device; tty = k.tty }),
                deinit-count a g'' ∙ init-count a c (allowed g) ∙ n,
              ),
            ))
      | inr e ↦
          let v' = init-IsRead a c (allowed g) refl v.device v.tty e in
          rw (first_succeeds a c g n e) (
            inl (
              refl,
              (
                record {
                  thread = v'.thread;
                  allowed = v'.allowed;
                  device = v'.device;
                  tty = v'.tty;
                  device_fd = v'.device_fd;
                  tty_fd = v'.tty_fd;
                },
                refl,
              ),
            ))
    ]
gps_init-HasUsers (suc n) a c g (v, e) acc = rw (later_init n a c g e) (
    inl (
      refl,
      (
        record {
          thread = v.thread;
          allowed = v.allowed;
          device = v.device;
          tty = v.tty;
          device_fd = v.device_fd;
          tty_fd = v.tty_fd;
        },
        refl,
      ),
    ))

pub gps_deinit-HasUsers :
    (n : ℕ) (a : Answers) (flag : List ℕ) (g : Receiver)
    → HasUsers (suc n) g
    → a.close_accepted ≡ true
    → ((gps_deinit a flag g).0 ≡ pos n) × HasUsers n (gps_deinit a flag g).1
gps_deinit-HasUsers zero a flag g (v, e) acc =
    let h = record g { gmodule_count = pos 0; gread_done = false } in
    let k0 = read-IsHeld g v in
    let k' : IsHeld h = record { device = k0.device; tty = k0.tty } in
    let (w, k) = gps_write_deinit-allowed flag h in
    rw (last_deinit a flag g e) (
      refl,
      (
        deinit-IsAtRest a (gps_write_deinit flag h) acc w (write_deinit-IsHeld flag h k'),
        deinit-count a (gps_write_deinit flag h) ∙ k,
      ),
    )
gps_deinit-HasUsers (suc n) a flag g (v, e) acc = rw (other_deinit n a flag g e) (
  refl,
  (
    record {
      thread = v.thread;
      allowed = v.allowed;
      device = v.device;
      tty = v.tty;
      device_fd = v.device_fd;
      tty_fd = v.tty_fd;
    },
    refl,
  ),
)

pub gps_write_init-HasUsers :
    (n : ℕ) (created : Bool) (g : Receiver) → HasUsers n g → HasUsers n (gps_write_init created g).1
unfolding gps_write_init
gps_write_init-HasUsers zero created g (v, e) = ground arith
gps_write_init-HasUsers (suc n) created g (v, e) = ground arith

pub gps_write_deinit-HasUsers :
    (n : ℕ) (flag : List ℕ) (g : Receiver) → HasUsers n g → HasUsers n (gps_write_deinit flag g)
unfolding gps_write_deinit write_end_flag
gps_write_deinit-HasUsers zero flag g (v, e) = ground arith
gps_write_deinit-HasUsers (suc n) flag g (v, e) = ground arith
