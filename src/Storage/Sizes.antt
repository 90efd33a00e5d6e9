-- ===== src/Storage/Sizes.antt =====
-- storage/storage.c, storage_get_filesize and storage_set_filesize: the size of the files of a path,
-- in words of 32 bits, from the settings of Parameter.
use Prim.Native.Nat.{bit_and}
use cvr_video.Base.{
  ℕ, suc, ◌+◌, ◌-◌, ◌*◌, ◌/◌, ◌%◌, ◌^◌, List, [], ◌∷◌, Bool, true, false, ltb, if◌then◌else◌,
  Option, none, some, ◌>>=◌,
}
use cvr_video.Base.Int.{ℤ, pos, negsuc, eq_ℤ}
use cvr_video.Parameter.{SysParam, VideoParam}

-- VIDEO_TYPE_ISP, VIDEO_TYPE_USB, VIDEO_TYPE_CIF and the rest
pub data VideoType : Type 0 where
  isp usb cif unknown : VideoType

-- VIDEOFILE_TYPE, PICFILE_TYPE, LOCKFILE_TYPE, THUMBFILE_TYPE and the rest
pub data FileType : Type 0 where
  video_file picture lock_file thumb other_file : FileType

-- What fs_manage and the build say: the sizes that file systems want a size to be a multiple of, the
-- size of a thumbnail, and whether encoded data is cached in memory.
pub record Limits : Type 0 where
  pub sizealign : VideoType → FileType → ℕ
  pub thumb_file_size : ℕ
  pub cache_in_memory : Bool

-- COLLI_CACHE_TIME
abbrev pub colli_cache_time : ℕ
colli_cache_time = 10

abbrev pub word : ℕ → ℕ
word n = n % 2 ^ 32

-- An int as an unsigned int, and back.
abbrev pub as_word : ℤ → ℕ
as_word (pos n) = word n
as_word (negsuc n) = 2 ^ 32 - suc n % 2 ^ 32

abbrev pub as_int : ℕ → ℤ
as_int n = if ltb n (2 ^ 31) then pos n else negsuc (2 ^ 32 - n - 1)

-- ALIGN
unfoldable pub align : ℕ → ℕ → ℕ
align value bits =
    let low = (bits + 2 ^ 32 - 1) % 2 ^ 32 in bit_and (word (value + low)) (2 ^ 32 - 1 - low)

-- height * width / 8 * bitstream * seconds
abbrev pub stream_size : VideoParam → ℕ → ℕ → ℕ
stream_size v bitstream seconds = word (word (word (v.height * v.width) / 8 * bitstream) * seconds)

-- The resolution of a camera; none for a type that is not one.
abbrev pub resolution_of : SysParam → VideoType → Option VideoParam
resolution_of p isp = some p.front_reso
resolution_of p usb = some p.back_reso
resolution_of p cif = some p.cif_reso
resolution_of p unknown = none

-- The size of a picture is a double, whose conversion is defined below 2 ^ 32 only.
abbrev pub size_of : Limits → SysParam → VideoType → VideoParam → FileType → Option ℤ
size_of l p t v video_file = some (
    as_int (
      align (stream_size v p.bit_rate_per_pixel (as_word p.recodetime)) (l.sizealign t video_file)))
size_of l p t v picture =
    let size = word (v.height * v.width) * 3 / 2 in
    if ltb size (2 ^ 32) then some (as_int (align size (l.sizealign t picture))) else none
size_of l p t v lock_file =
    let seconds = if l.cache_in_memory then colli_cache_time else as_word p.recodetime in
    some (as_int (align (stream_size v p.bit_rate_per_pixel seconds) (l.sizealign t lock_file)))
size_of l p t v thumb = some (as_int (word l.thumb_file_size))
size_of l p t v other_file = some (pos 0)

-- `none` is a conversion that is not defined.
unfoldable pub storage_get_filesize : Limits → SysParam → VideoType → FileType → Option ℤ
storage_get_filesize l p t f = elim (resolution_of p t) [
  | none ↦ some (pos 0)
  | some v ↦ if eq_ℤ p.recodetime (negsuc 0) then some (pos 0) else size_of l p t v f
]

-- A path, with the size of its files and that of its file list, if it has one.
pub record SizedPath : Type 0 where
  pub video_type : VideoType
  pub filetype : FileType
  pub filesize : ℤ
  pub list_filesize : Option ℤ

abbrev pub is_sized : FileType → Bool
is_sized video_file = true
is_sized lock_file = true
is_sized _ = false

abbrev pub list_size : ℤ → Option ℤ → Option ℤ
list_size n none = none
list_size n (some old) = some n

unfoldable pub set_path_filesize : Limits → SysParam → SizedPath → Option SizedPath
set_path_filesize l p path = elim (is_sized path.filetype) [
  | true ↦ storage_get_filesize l p path.video_type path.filetype >>= λ n.
      if eq_ℤ n (pos 0)
      then some path
      else some (record path { filesize = n; list_filesize = list_size n path.list_filesize })
  | false ↦ some path
]

unfoldable pub storage_set_filesize : Limits → SysParam → List SizedPath → Option (List SizedPath)
storage_set_filesize l p [] = some []
storage_set_filesize l p (path ∷ rest) = set_path_filesize l p path >>= λ path'.
    storage_set_filesize l p rest >>= λ rest'. some (path' ∷ rest')

-- Which setting changed, `cmd`, makes no difference.
abbrev pub storage_setting_callback :
    Limits → ℤ → SysParam → List SizedPath → Option (List SizedPath)
storage_setting_callback l cmd p paths = storage_set_filesize l p paths
