-- ===== src/Uevent/Tests.antt =====
-- The event monitor on concrete messages.
use cvr_video.Base.{
  ℕ, ◌≡◌, refl, List, [], ◌∷◌, ◌++◌, true, false, ◌&&◌, ◌↔◌, leb, length, replicate, none, some,
  ◌>>=◌, arith,
}
use cvr_video.Base.Int.{pos}
use cvr_video.Base.Text.{codes, starts_with, same_text, contains}
use cvr_video.Thermal.{World, cannot_open}
use cvr_video.Thermal.Config.{zero_device}
use cvr_video.Usb.{
  Host, sd_out, sd_ctrl, usb_ctrl, cvr_usb_sd_ctl, cvr_sd_ctl, cvr_usb_ctl, share_volume,
  mount_card,
}
use cvr_video.Usb.Sharing.{IsExclusive, IsTracked}
use cvr_video.Uevent.{System, Env, fs_manage_set_device, after_last_slash, control}
use cvr_video.Uevent.Handlers.{parse_event, timeout_handle}
use cvr_video.Uevent.Split.{message, receive, receive-message}
use cvr_video.Uevent.Safe.{kernel_event}
use cvr_video.Uevent.Overflow.{block_overflow}
use cvr_video.Uevent.Card.{Arrival, IsCard, arrivals, burst_answered_once}
use cvr_video.Uevent.Exclusive.{Reach-IsExclusive, here, next, signal, share}

abbrev host : Host
host = record {
  sd_exist = true;
  mount_result = pos 0;
  unmount_result = pos 0;
  usb_state = some (codes "CONFIGURED");
  usb_functions_text = codes "mass_storage";
}

abbrev nothing_opens : World
nothing_opens = record {
  reading = λ f. cannot_open;
  opens_for_write = λ f. false;
  write_result = λ f. pos 0;
  atoi = λ cs. pos 0;
  strtol_16 = λ cs. pos 0;
  hdmi_connect = false;
  screen_state = true;
}

abbrev env : Env
env = record {
  host = host;
  world = nothing_opens;
  ac_online = some (pos 1);
  usb_online = none;
  capacity = some (pos 80);
  scan_int = λ cs. some (pos 0);
  vehicle_opens = true;
  use_usb_webcam = true;
  gdb_usb_debug = false;
}

abbrev idle_system : System
idle_system = record {
  event_flag = 0;
  device_name = [];
  timer = false;
  handler = false;
  collision_state = 0;
  vbus_last_status = 0;
  batt_event_call = true;
  hdmi_event_call = true;
  cvbsout_event_call = true;
  camera_event_call = true;
  gpios_event_call = true;
  port = record {
    sd_mount = sd_out;
    usb_mount_state = false;
    conn_deep = 0;
    disc_deep = 0;
    sdcard_event_call = true;
    usb_event_call = true;
    video_usb = 0;
    actions = [];
  };
  governor = record {
    dev = zero_device;
    test_num = 0;
    video_3dnr = 1;
    wifi_en = 1;
    debug_temp = 0;
    actions = [];
  };
  reports = [];
}

receive-message_example :
    receive
      (some (
        message
          (codes "add@/devices/platform/mmc/block/mmcblk0")
          (codes "ACTION=add" ∷ codes "SEQNUM=7" ∷ [])))
      []
    ≡ some (codes "ACTION=add" ∷ codes "SEQNUM=7" ∷ [])
receive-message_example =
    receive-message (codes "add@/devices/platform/mmc/block/mmcblk0") []
      (codes "ACTION=add" ∷ codes "SEQNUM=7" ∷ []) (ground arith) (ground arith) (omega arith)
      (omega arith)

abbrev long_name : List ℕ
long_name = codes "mmcblk0" ++ replicate 57 b'p'

block_overflow_example :
    (parse_event env
        (kernel_event
          (codes "add")
          (codes "/block" ++ b'/' ∷ long_name)
          (codes "block")
          (codes "SEQNUM=7")
          [])
        idle_system
      ≡ none)
    ↔ ((contains (codes "mmcblk0") long_name
          && (same_text (codes "add") (codes "add") && leb 64 (length long_name)))
        ≡ true)
unfolding after_last_slash
block_overflow_example =
    block_overflow env (codes "add") (codes "/block" ++ b'/' ∷ long_name) (codes "SEQNUM=7")
      long_name [] idle_system refl

abbrev card : Arrival
card = record {
  directory = codes "/block";
  name = codes "mmcblk0";
  line = codes "SEQNUM=7";
  rest = [];
}

abbrev partition : Arrival
partition = record {
  directory = codes "/block/mmcblk0";
  name = codes "mmcblk0p1";
  line = codes "SEQNUM=8";
  rest = [];
}

card-IsCard : IsCard card
unfolding contains starts_with
card-IsCard = record { no_slash = ground arith; named = refl; fits = omega arith }

partition-IsCard : IsCard partition
unfolding contains starts_with
partition-IsCard = record { no_slash = ground arith; named = refl; fits = omega arith }

burst_answered_once_example :
    let after = record idle_system {
      handler = true;
      event_flag = 2;
      device_name = codes "mmcblk0p1";
      port = cvr_usb_sd_ctl host sd_ctrl true idle_system.port;
      reports = fs_manage_set_device (codes "mmcblk0p1") ∷ [];
    } in
    ((arrivals env (card ∷ partition ∷ []) idle_system >>= λ t. some (timeout_handle env t))
      ≡ some after)
    × (timeout_handle env after ≡ after)
burst_answered_once_example =
    burst_answered_once env env card (partition ∷ []) idle_system refl card-IsCard
      (partition-IsCard, tt)

idle-IsTracked : IsTracked idle_system.port
idle-IsTracked = record { apart = refl; sharing = refl; unmounted = refl; exclusive = refl }

Reach-IsExclusive_example :
    IsExclusive
      (timeout_handle env
        (control host usb_ctrl false (control host usb_ctrl true idle_system))).port
unfolding cvr_usb_sd_ctl cvr_sd_ctl cvr_usb_ctl share_volume mount_card timeout_handle
Reach-IsExclusive_example =
    Reach-IsExclusive
      (next
        (next (next here (share env true idle_system))
          (share env false (control host usb_ctrl true idle_system)))
        (signal env (control host usb_ctrl false (control host usb_ctrl true idle_system)) refl))
      idle-IsTracked refl
