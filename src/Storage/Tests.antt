-- ===== src/Storage/Tests.antt =====
-- The clock check with three paths, in small times, and the size of a file of the factory settings.
use cvr_video.Base.{◌≡◌, refl, List, [], ◌∷◌, true, false, arith, none, some, All}
use cvr_video.Base.Int.{pos, ◌+ℤ◌}
use cvr_video.Storage.{
  StoragePath, last_time_from, storage_get_last_time, storage_check_timestamp, is_past,
  check_timestamp_past,
}
use Prim.Native.Nat.{ℕ, ◌+◌, ◌*◌, ◌/◌, ◌^◌, ◌≤◌, ◌<◌}
use cvr_video.Parameter.{SysParam}
use cvr_video.Parameter.Init.{cvr, default_param}
use cvr_video.Storage.Sizes.{Limits, isp, video_file, storage_get_filesize}
use cvr_video.Storage.Bounds.{storage_get_filesize_bounds}

abbrev paths : List StoragePath
paths =
    record { filelist = some (some (pos 70)) }
    ∷ record { filelist = none }
    ∷ record { filelist = some (some (pos 50)) }
    ∷ []

check_timestamp_past_example :
    All
      (λ p.
        is_past (storage_check_timestamp (pos 40) (pos 90) true paths (pos 60)).1 p.filelist ≡ true)
      paths
    × (storage_check_timestamp (pos 40) (pos 90) false paths (pos 60) ≡ (pos 0, pos 60))
unfolding storage_check_timestamp storage_get_last_time last_time_from ◌+ℤ◌
check_timestamp_past_example = check_timestamp_past (pos 40) (pos 90) (pos 60) paths refl

-- A factory recorder, and a file system that wants whole MB.
abbrev factory : SysParam
factory =
    default_param
      (record {
        product = cvr;
        pcba_service = false;
        back_video_resolutions = 16;
        front_video_resolutions = 32;
        photo_resolutions = 48;
      })
      7

abbrev whole_mb : Limits
whole_mb = record { sizealign = λ t f. 2 ^ 20; thumb_file_size = 40960; cache_in_memory = false }

storage_get_filesize_bounds_example :
    (q : ℕ) × (storage_get_filesize whole_mb factory isp video_file ≡ some (pos (q * 2 ^ 20)))
    × (1920 * 1080 / 8 * 7 * 60 ≤ q * 2 ^ 20)
    × (q * 2 ^ 20 < 1920 * 1080 / 8 * 7 * 60 + 2 ^ 20)
storage_get_filesize_bounds_example =
    storage_get_filesize_bounds whole_mb factory isp factory.front_reso video_file 60 20 refl refl
      refl (omega arith) (omega arith) refl (omega arith) (omega arith) (omega arith)
