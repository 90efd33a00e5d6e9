-- ===== src/Uevent/Card.antt =====
-- ueventmonitor/ueventmonitor.c, the SD card: the events of a card that comes and the timer's signal;
-- who has the card after any history of events.
use cvr_video.Base.{
  ℕ, ◌+◌, ◌<◌, ◌≡◌, ◌≢◌, refl, List, [], ◌∷◌, ◌++◌, true, false, ◌||◌, ◌==◌, Option, none, some,
  length, ◌>>=◌, All, arith, ◌∙◌,
}
use cvr_video.Base.Text.{codes, same_text, contains}
use cvr_video.Usb.{sd_ctrl, cvr_usb_sd_ctl}
use cvr_video.Uevent.{System, Env, fs_manage_set_device, skip, after_last_slash}
use cvr_video.Uevent.Handlers.{
  subsystem, dispatch, parse_event, cvr_block_ctl, card_added, timeout_handle,
}
use cvr_video.Uevent.Safe.{kernel_event}

-- A card's device, as an event names it: a directory and a last part.
pub record Arrival : Type 0 where
  pub directory : List ℕ
  pub name : List ℕ
  pub line : List ℕ
  pub rest : List (List ℕ)

pub record IsCard (a : Arrival) : Type 0 where
  pub no_slash : All (λ c. c ≢ b'/') a.name
  pub named : contains (codes "mmcblk0") a.name ≡ true
  pub fits : length a.name < 64

abbrev pub arrival : Arrival → List (List ℕ)
arrival a = kernel_event (codes "add") (a.directory ++ b'/' ∷ a.name) (codes "block") a.line a.rest

after_last_slash-none : (name : List ℕ) → All (λ c. c ≢ b'/') name → after_last_slash name ≡ none
unfolding after_last_slash
after_last_slash-none [] h = refl
after_last_slash-none (c ∷ name) (h, hs) = ground (arith, h, after_last_slash-none name hs)

after_last_slash-append :
    (dir name : List ℕ)
    → All (λ c. c ≢ b'/') name
    → after_last_slash (dir ++ b'/' ∷ name) ≡ some name
unfolding after_last_slash
after_last_slash-append [] name h = ground (arith, after_last_slash-none name h)
after_last_slash-append (c ∷ dir) name h = ground (arith, after_last_slash-append dir name h)

arrival_handled :
    (env : Env) (a : Arrival) (s : System)
    → IsCard a
    → parse_event env (arrival a) s ≡ some (card_added a.name s)
unfolding parse_event skip subsystem dispatch cvr_block_ctl same_text
arrival_handled env a s v =
    rw (after_last_slash-append (codes "DEVPATH=" ++ a.directory) a.name v.no_slash)
      (ground (arith, v.named, v.fits))

unfoldable pub arrivals : Env → List Arrival → System → Option System
arrivals env [] s = some s
arrivals env (a ∷ more) s = parse_event env (arrival a) s >>= arrivals env more

abbrev pub last_name : Arrival → List Arrival → List ℕ
last_name a [] = a.name
last_name a (b ∷ more) = last_name b more

-- The system after a burst of arrivals: the timer runs, for the last of them.
abbrev pub waiting : Arrival → List Arrival → System → System
waiting a more s = record s {
  handler = true;
  timer = true;
  event_flag = s.event_flag + length (a ∷ more);
  device_name = last_name a more;
}

arrivals-waiting :
    (env : Env) (a : Arrival) (more : List Arrival) (s : System)
    → (s.event_flag == 0 || s.handler) ≡ true
    → IsCard a
    → All IsCard more
    → arrivals env (a ∷ more) s ≡ some (waiting a more s)
unfolding arrivals
arrivals-waiting env a [] s h v vs = rw (arrival_handled env a s v) (ground arith)
arrivals-waiting env a (b ∷ more) s h v (w, vs) =
    rw (arrival_handled env a s v)
      (arrivals-waiting env b more (card_added a.name s) (ground arith) w vs ∙ ground arith)

-- A burst of events of a card that comes is answered once: when the timer ends, the card of the last
-- event is set and one control call for an inserted card is made; a second signal does nothing.
pub burst_answered_once :
    (env env' : Env) (a : Arrival) (more : List Arrival) (s : System)
    → (s.event_flag == 0 || s.handler) ≡ true
    → IsCard a
    → All IsCard more
    → let after = record s {
      handler = true;
      timer = false;
      event_flag = s.event_flag + length (a ∷ more);
      device_name = last_name a more;
      port = cvr_usb_sd_ctl env'.host sd_ctrl true s.port;
      reports = fs_manage_set_device (last_name a more) ∷ s.reports;
    } in
      ((arrivals env (a ∷ more) s >>= λ t. some (timeout_handle env' t)) ≡ some after)
      × (timeout_handle env' after ≡ after)
unfolding timeout_handle
burst_answered_once env env' a more s h v vs = (rw (arrivals-waiting env a more s h v vs), refl)
