-- ===== src/Gps.antt =====
-- gps/gps_ctrl.cpp: opening and closing the GPS receiver, its reading thread and its writing thread, in
-- the build that reads a serial port. What the system answers to a call is a parameter of that call.
pub mod Users
pub mod History
pub mod Files
pub mod Lines
pub mod Reading
mod Tests
use cvr_video.Base.{
  ℕ, List, [], ◌∷◌, ◌++◌, Bool, true, false, if◌then◌else◌, Option, none, some, length, take, ltb,
}
use cvr_video.Base.Int.{ℤ, pos, negsuc, ◌+ℤ◌, ◌-ℤ◌, ltb_ℤ, eq_ℤ}
use cvr_video.Base.Text.{codes}

-- What the module does to the outside.
pub data Action : Type 0 where
  device_opened device_closed tty_opened tty_closed : ℤ → Action
  file_opened : ℤ → Action
  file_written : ℤ → List ℕ → Action
  file_closed : ℤ → Action

-- The variables of the file, with the fields of ggps_handler. A thread is there or not. A line is the
-- list of its bytes.
pub record Receiver : Type 0 where
  pub gmodule_count : ℤ
  pub gread_done : Bool
  pub gwrite_done : Bool
  pub gps_fd : ℤ
  pub ttys_fd : ℤ
  pub file_fd : ℤ
  pub rmc_data : List ℕ
  pub gga_data : List ℕ
  pub read_thread : Bool
  pub write_thread : Bool
  pub send_data : Option ℕ
  pub actions : List Action

-- What the system answers: descriptors below 0 are failures.
pub record Answers : Type 0 where
  pub gps_fd : ℤ
  pub open_accepted : Bool
  pub ttys_fd : ℤ
  pub options_set : Bool
  pub thread_created : Bool
  pub close_accepted : Bool

-- GPS_BUF_LEN
abbrev pub gps_buf_len : ℕ
gps_buf_len = 200

-- RMC_INITIAL_VALUE and GGA_INITIAL_VALUE, with the newline at the end
abbrev pub rmc_initial_value : List ℕ
rmc_initial_value = codes "$XXRMC,,V,,,,,,,,,,N*53" ++ 10 ∷ []

abbrev pub gga_initial_value : List ℕ
gga_initial_value = codes "$XXGGA,,,,,,0,00,99.99,,,,,,*48" ++ 10 ∷ []

unfoldable pub init_gps_data : List ℕ → List ℕ
init_gps_data text = if ltb gps_buf_len (length text) then take gps_buf_len text else text

unfoldable pub init_parameter : ℕ → Receiver → Receiver
init_parameter callback g = record g {
  gps_fd = negsuc 0;
  ttys_fd = negsuc 0;
  file_fd = negsuc 0;
  read_thread = false;
  write_thread = false;
  send_data = some callback;
  rmc_data = init_gps_data rmc_initial_value;
  gga_data = init_gps_data gga_initial_value;
}

unfoldable pub open_tty_dev : Answers → Receiver → ℤ × Receiver
open_tty_dev a g =
    let g' = record g { ttys_fd = a.ttys_fd } in
    if ltb_ℤ a.ttys_fd (pos 0)
    then (negsuc 0, g')
    else let g'' = record g' { actions = tty_opened a.ttys_fd ∷ g'.actions } in
      if a.options_set then (pos 0, g'') else (negsuc 0, g'')

unfoldable pub close_tty_dev : Receiver → Receiver
close_tty_dev g =
    if ltb_ℤ g.ttys_fd (pos 0)
    then g
    else record g { ttys_fd = negsuc 0; actions = tty_closed g.ttys_fd ∷ g.actions }

unfoldable pub gps_open : Answers → Receiver → ℤ × Receiver
gps_open a g =
    let g' = record g { gps_fd = a.gps_fd } in
    if ltb_ℤ a.gps_fd (pos 0)
    then (negsuc 0, g')
    else let g'' = record g' { actions = device_opened a.gps_fd ∷ g'.actions } in
      if a.open_accepted
      then (let t = open_tty_dev a g'' in
          if eq_ℤ t.0 (pos 0) then (pos 0, t.1) else (negsuc 0, t.1))
      else (negsuc 0, g'')

unfoldable pub gps_close : Answers → Receiver → ℤ × Receiver
gps_close a g =
    let g' = close_tty_dev g in
    if ltb_ℤ g'.gps_fd (pos 0)
    then (pos 0, g')
    else if a.close_accepted
    then (pos 0, record g' { gps_fd = negsuc 0; actions = device_closed g'.gps_fd ∷ g'.actions })
    else (negsuc 0, g')

unfoldable pub gps_create_read_thread : Answers → Receiver → ℤ × Receiver
gps_create_read_thread a g =
    if a.thread_created then (pos 0, record g { read_thread = true }) else (negsuc 0, g)

-- The join returns, as gread_done is 0 by then.
unfoldable pub gps_delete_read_thread : Receiver → Receiver
gps_delete_read_thread g = record g { read_thread = false }

unfoldable pub init : Answers → ℕ → Receiver → ℤ × Receiver
init a callback g =
    let o = gps_open a (init_parameter callback g) in
    if ltb_ℤ o.0 (pos 0)
    then (negsuc 0, o.1)
    else (let t = gps_create_read_thread a o.1 in
        if ltb_ℤ t.0 (pos 0) then (negsuc 0, t.1) else (pos 0, t.1))

unfoldable pub deinit : Answers → Receiver → Receiver
deinit a g = (gps_close a (gps_delete_read_thread (record g { send_data = none }))).1

-- write_end_flag, with the text of the flag and the time.
unfoldable pub write_end_flag : List ℕ → Receiver → Receiver
write_end_flag flag g = record g { actions = file_written g.file_fd flag ∷ g.actions }

unfoldable pub gps_write_init : Bool → Receiver → ℤ × Receiver
gps_write_init created g =
    if created
    then (pos 0, record g { gwrite_done = true; write_thread = true })
    else (negsuc 0, record g { gwrite_done = false })

-- The join returns, as gwrite_done is 0 by then.
unfoldable pub gps_write_deinit : List ℕ → Receiver → Receiver
gps_write_deinit flag g =
    let g' = write_end_flag flag (record g { gwrite_done = false }) in
    let g'' = record g' { write_thread = false } in
    if ltb_ℤ g''.file_fd (pos 0)
    then g''
    else record g'' { file_fd = negsuc 0; actions = file_closed g''.file_fd ∷ g''.actions }

unfoldable pub gps_init : Answers → ℕ → Receiver → ℤ × Receiver
gps_init a callback g =
    if eq_ℤ g.gmodule_count (pos 0)
    then (let r = init a callback (record g { gread_done = true }) in
        if ltb_ℤ r.0 (pos 0)
        then (negsuc 0, deinit a (record r.1 { gread_done = false }))
        else (g.gmodule_count +ℤ pos 1, record r.1 { gmodule_count = g.gmodule_count +ℤ pos 1 }))
    else (g.gmodule_count +ℤ pos 1, record g { gmodule_count = g.gmodule_count +ℤ pos 1 })

unfoldable pub gps_deinit : Answers → List ℕ → Receiver → ℤ × Receiver
gps_deinit a flag g =
    let g' = record g { gmodule_count = g.gmodule_count -ℤ pos 1 } in
    if eq_ℤ g'.gmodule_count (pos 0)
    then (pos 0, deinit a (gps_write_deinit flag (record g' { gread_done = false })))
    else (g'.gmodule_count, g')
