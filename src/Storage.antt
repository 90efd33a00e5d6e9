-- ===== src/Storage.antt =====
-- storage/storage.c; this file has the clock check at start: a clock behind the newest file is set to
-- it, so that recordings keep their order. The library fs_manage is outside of the sources: a path
-- comes with its file list, if it has one, and that with the time of its last file, if it has one.
-- Times stay below the limit of time_t.
pub mod Align
pub mod Sizes
pub mod Bounds
mod Tests
use cvr_video.Base.{
  ◌≡◌, refl, List, [], ◌∷◌, Bool, true, false, not, ◌||◌, ◌&&◌, if◌then◌else◌, Option, none, some,
  All, arith, Bool-cases, inl, inr,
}
use cvr_video.Base.Int.{ℤ, pos, negsuc, ltb_ℤ, ◌+ℤ◌, +ℤ_parts, ◌-ℤ◌}

-- What storage.c reads of a path: the time of the last file of its list.
pub record StoragePath : Type 0 where
  pub filelist : Option (Option ℤ)

abbrev pub newer : ℤ → Option (Option ℤ) → ℤ
newer last none = last
newer last (some none) = last
newer last (some (some t)) = if ltb_ℤ last t then t else last

unfoldable pub last_time_from : ℤ → List StoragePath → ℤ
last_time_from last [] = last
last_time_from last (p ∷ rest) = last_time_from (newer last p.filelist) rest

unfoldable pub storage_get_last_time : List StoragePath → ℤ
storage_get_last_time paths = last_time_from (pos 0) paths

-- setDateTime: the value, and the clock afterwards. `accepts`: settimeofday succeeds. The time goes
-- through localtime and mktime, which undo each other; the clock of the board is not kept.
unfoldable pub set_date_time : Bool → ℤ → ℤ → ℤ × ℤ
set_date_time accepts time clock = if accepts then (pos 0, time) else (negsuc 0, clock)

-- The value, and the clock afterwards. The bounds are the times of RTC_MIN_TIME and RTC_MAX_TIME. What
-- setDateTime returns is not looked at.
unfoldable pub storage_check_timestamp : ℤ → ℤ → Bool → List StoragePath → ℤ → ℤ × ℤ
storage_check_timestamp rtc_min rtc_max accepts paths clock =
    let file_time = storage_get_last_time paths +ℤ pos 1 in
    if ltb_ℤ rtc_max clock || ltb_ℤ file_time rtc_min
    then (negsuc 0, clock)
    else (pos 0, if ltb_ℤ clock file_time then (set_date_time accepts file_time clock).1 else clock)

-- The last file of the list, if there is one, is not newer than the time.
abbrev pub is_reached : ℤ → Option (Option ℤ) → Bool
is_reached last none = true
is_reached last (some none) = true
is_reached last (some (some t)) = not (ltb_ℤ last t)

-- The last file of the list, if there is one, is older than the time.
abbrev pub is_past : ℤ → Option (Option ℤ) → Bool
is_past clock none = true
is_past clock (some none) = true
is_past clock (some (some t)) = ltb_ℤ t clock

newer-grows : (last : ℤ) (f : Option (Option ℤ)) → ltb_ℤ (newer last f) last ≡ false
newer-grows last none = ground arith
newer-grows last (some none) = ground arith
newer-grows last (some (some t)) = ground arith

reached_later :
    (last later : ℤ) (f : Option (Option ℤ))
    → ltb_ℤ later (newer last f) ≡ false
    → is_reached later f ≡ true
reached_later last later none e = refl
reached_later last later (some none) e = refl
reached_later last later (some (some t)) e = ground (arith, e)

last_time-grows :
    (last : ℤ) (paths : List StoragePath) → ltb_ℤ (last_time_from last paths) last ≡ false
unfolding last_time_from
last_time-grows last [] = ground arith
last_time-grows last (p ∷ rest) =
    ground (arith, newer-grows last p.filelist, last_time-grows (newer last p.filelist) rest)

last_time-reaches :
    (last : ℤ) (paths : List StoragePath)
    → All (λ p. is_reached (last_time_from last paths) p.filelist ≡ true) paths
unfolding last_time_from
last_time-reaches last [] = tt
last_time-reaches last (p ∷ rest) = (
  reached_later last (last_time_from (newer last p.filelist) rest) p.filelist
      (last_time-grows (newer last p.filelist) rest),
  last_time-reaches (newer last p.filelist) rest,
)

past_of_reached :
    (last clock : ℤ) (f : Option (Option ℤ))
    → ltb_ℤ clock (last +ℤ pos 1) ≡ false
    → is_reached last f ≡ true
    → is_past clock f ≡ true
past_of_reached last clock none e r = refl
past_of_reached last clock (some none) e r = refl
past_of_reached last clock (some (some t)) e r = ground (arith, +ℤ_parts last (pos 1), e, r)

past_of_newest :
    (last clock : ℤ) (paths : List StoragePath)
    → ltb_ℤ clock (last +ℤ pos 1) ≡ false
    → All (λ p. is_reached last p.filelist ≡ true) paths
    → All (λ p. is_past clock p.filelist ≡ true) paths
past_of_newest last clock [] e r = tt
past_of_newest last clock (p ∷ rest) e (r, rs) =
    (past_of_reached last clock p.filelist e r, past_of_newest last clock rest e rs)

-- A check that returns 0 leaves a clock that is past the last file of every path, if settimeofday
-- succeeds; if it fails, the check returns 0 as well, and leaves the clock as it was.
pub check_timestamp_past :
    (rtc_min rtc_max clock : ℤ) (paths : List StoragePath)
    → (storage_check_timestamp rtc_min rtc_max true paths clock).0 ≡ pos 0
    → All
        (λ p.
          is_past (storage_check_timestamp rtc_min rtc_max true paths clock).1 p.filelist ≡ true)
        paths
      × (storage_check_timestamp rtc_min rtc_max false paths clock ≡ (pos 0, clock))
unfolding storage_check_timestamp storage_get_last_time set_date_time
check_timestamp_past rtc_min rtc_max clock paths e =
    let last = last_time_from (pos 0) paths in
    (
      past_of_newest last _ paths (ground (arith, e)) (last_time-reaches (pos 0) paths),
      ground (arith, e),
    )

-- A second check of the same paths leaves the clock where the first one left it, and the clock is
-- never set back.
pub check_timestamp_settles :
    (rtc_min rtc_max clock : ℤ) (accepts : Bool) (paths : List StoragePath)
    → let clock' = (storage_check_timestamp rtc_min rtc_max accepts paths clock).1 in
      ((storage_check_timestamp rtc_min rtc_max accepts paths clock').1 ≡ clock')
      × (ltb_ℤ clock' clock ≡ false)
unfolding storage_check_timestamp set_date_time
check_timestamp_settles rtc_min rtc_max clock accepts paths = ground arith
