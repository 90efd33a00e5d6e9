-- ===== src/Uevent/Overflow.antt =====
-- ueventmonitor/ueventmonitor.c, cvr_block_ctl: the copy of a card's name into device_name.
use cvr_video.Base.{ℕ, ◌≡◌, ◌↔◌, List, ◌++◌, true, ◌&&◌, leb, none, some, length, arith}
use cvr_video.Base.Text.{codes, same_text, contains}
use cvr_video.Uevent.{System, Env, skip, after_last_slash}
use cvr_video.Uevent.Handlers.{subsystem, dispatch, parse_event, cvr_block_ctl}
use cvr_video.Uevent.Safe.{kernel_event}

-- An event of the block devices writes behind the 64 bytes of device_name exactly if its action is
-- "add", and the last part of its path names a card and has 64 bytes or more; whatever else the event
-- says, and whatever the state is, no other block event faults.
pub block_overflow :
    (env : Env) (act path line name : List ℕ) (rest : List (List ℕ)) (s : System)
    → after_last_slash (codes "DEVPATH=" ++ path) ≡ some name
    → (parse_event env (kernel_event act path (codes "block") line rest) s ≡ none) ↔ (
        (contains (codes "mmcblk0") name && (same_text act (codes "add") && leb 64 (length name)))
        ≡ true)
unfolding parse_event skip subsystem dispatch cvr_block_ctl same_text contains
block_overflow env act path line name rest s e = rw e (ground arith)
