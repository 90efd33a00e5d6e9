-- ===== src/Uevent.antt =====
-- ueventmonitor/ueventmonitor.c: the thread that receives device events of the kernel and acts on
-- them. This file has its state, what the outside answers, and the reading of the strings of an event.
-- `none` is an access to a string that is too short or not there, a name that is too long for its
-- buffer, or a call of a gpio callback that is not registered.
pub mod Handlers
pub mod Split
pub mod Safe
pub mod Overflow
pub mod Card
pub mod Exclusive
mod Tests
use cvr_video.Base.{
  ℕ, zero, suc, ◌+◌, List, [], ◌∷◌, Bool, true, false, not, ◌&&◌, ◌||◌, ◌==◌, if◌then◌else◌, Option,
  none, some, get_elem?, ◌>>=◌,
}
use cvr_video.Base.Int.{ℤ, pos}
use cvr_video.Base.Text.{starts_with}
use cvr_video.Usb.{Port, Host, Control, cvr_usb_sd_ctl}
use cvr_video.Thermal.{World, Governor}

-- What goes to the registered callbacks and to the file manager.
pub data Report : Type 0 where
  batt_event : ℤ → Report
  hdmi_event : Bool → Report
  cvbsout_event : Bool → Report
  camera_event : ℤ → Bool → Report
  gpios_event : List ℕ → Bool → Report
  fs_manage_set_device : List ℕ → Report

-- The static data, which callbacks are registered, the components that the events reach, and the
-- reports, the newest first. `timer`: the timer of the card is running; `handler`: the handler of its
-- signal is set.
pub record System : Type 0 where
  pub event_flag : ℕ
  pub device_name : List ℕ
  pub timer : Bool
  pub handler : Bool
  pub collision_state : ℕ
  pub vbus_last_status : ℕ
  pub batt_event_call : Bool
  pub hdmi_event_call : Bool
  pub cvbsout_event_call : Bool
  pub camera_event_call : Bool
  pub gpios_event_call : Bool
  pub port : Port
  pub governor : Governor
  pub reports : List Report

-- What the outside answers during one event: the numbers in the power supply's files, where they can
-- be read; `sscanf` of a number; the build option and the debug switch of the USB port.
pub record Env : Type 0 where
  pub host : Host
  pub world : World
  pub ac_online : Option ℤ
  pub usb_online : Option ℤ
  pub capacity : Option ℤ
  pub scan_int : List ℕ → Option ℤ
  pub vehicle_opens : Bool
  pub use_usb_webcam : Bool
  pub gdb_usb_debug : Bool

abbrev pub report : Report → System → System
report r s = record s { reports = r ∷ s.reports }

abbrev pub report_if : Bool → Report → System → System
report_if b r s = if b then report r s else s

abbrev pub gpio_report : List ℕ → Bool → System → Option System
gpio_report name b s = if s.gpios_event_call then some (report (gpios_event name b) s) else none

abbrev pub control : Host → Control → Bool → System → System
control h c b s = record s { port = cvr_usb_sd_ctl h c b s.port }

-- The text from its `n`-th character on.
unfoldable pub skip : ℕ → List ℕ → Option (List ℕ)
skip zero text = some text
skip (suc n) [] = none
skip (suc n) (c ∷ text) = skip n text

-- The text behind the last slash: strrchr(text, '/') + 1
unfoldable pub after_last_slash : List ℕ → Option (List ℕ)
after_last_slash [] = none
after_last_slash (c ∷ text) = elim (after_last_slash text) [
  | some t ↦ some t
  | none ↦ if c == b'/' then some text else none
]

-- The text behind the first sign: strchr(text, '=') + 1
unfoldable pub value_of : List ℕ → Option (List ℕ)
value_of [] = none
value_of (c ∷ text) = elim (c == b'=') [ true ↦ some text | false ↦ value_of text ]

-- The text from the first place of the piece on: strstr(text, piece)
unfoldable pub find_text : List ℕ → List ℕ → Option (List ℕ)
find_text piece [] = if starts_with piece [] then some [] else none
find_text piece (c ∷ text) = elim (starts_with piece (c ∷ text)) [
  | true ↦ some (c ∷ text)
  | false ↦ find_text piece text
]

-- event->strs[0] + 7
abbrev pub action : List (List ℕ) → Option (List ℕ)
action strs = get_elem? strs 0 >>= skip 7
