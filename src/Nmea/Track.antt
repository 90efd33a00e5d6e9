-- ===== src/Nmea/Track.antt =====
-- gps/nmea_parse.cpp, text_data_copyfrom_amba_gps: the record of a position in the track of a video.
-- The bytes are masked with 0xAA. `none` is a text that does not fit its array.
use Prim.Native.Nat.{bit_xor}
use cvr_video.Base.{
  ℕ, zero, suc, ◌+◌, ◌-◌, ◌*◌, ◌/◌, ◌%◌, ◌^◌, List, [], ◌∷◌, ◌++◌, Bool, true, false, not, ◌==◌,
  leb, if◌then◌else◌, Option, none, some, ◌>>=◌, length, map, replicate,
}
use cvr_video.Base.Int.{ℤ, pos, negsuc, ◌+ℤ◌, quot, rem}
use cvr_video.Nmea.{DateTime, GpsInfo}

-- `struct text_track_amba_info`, less reserved_datas1, which nothing writes
pub record TrackInfo : Type 0 where
  pub fixation_datas1 : List ℕ
  pub times : List ℕ
  pub fixation_data2 : ℕ
  pub gps_times : List ℕ
  pub fixation_data3 : ℕ
  pub gps_latitude : List ℕ
  pub gps_longitude : List ℕ
  pub fixation_datas4 : List ℕ
  pub gps_speeds : List ℕ
  pub gsensor_x : List ℕ
  pub gsensor_y : List ℕ
  pub gsensor_z : List ℕ
  pub fixation_datas5 : List ℕ
  pub fixation_datas6 : List ℕ

-- The conversions and operations of the language: `D` is double and `F` float; `tenths n` is n / 10.
pub record Conversions {ℓ} (F D : Type ℓ) : Type ℓ where
  pub to_word : D → ℕ
  pub of_word : ℕ → D
  pub speed_byte : F → ℕ
  pub sub : D → D → D
  pub mul : D → D → D
  pub tenths : ℕ → D

abbrev pub masked : ℕ → ℕ
masked b = bit_xor b 0xAA

-- The last `k` decimal digits, masked; the loops that write them go from the last one to the first.
unfoldable pub digit_bytes : ℕ → ℕ → List ℕ
digit_bytes zero n = []
digit_bytes (suc k) n = digit_bytes k (n / 10) ++ masked (n % 10 + 0x30) ∷ []

-- "%d" of a number; the first argument is the number of digits at most.
unfoldable pub decimal : ℕ → ℕ → List ℕ
decimal zero n = []
decimal (suc k) n = elim (n / 10 == 0) [
  | true ↦ (n % 10 + b'0') ∷ []
  | false ↦ decimal k (n / 10) ++ (n % 10 + b'0') ∷ []
]

unfoldable pub print_int : ℤ → List ℕ
print_int (pos n) = decimal 10 n
print_int (negsuc n) = b'-' ∷ decimal 10 (suc n)

-- "%4d" and "%2d"
unfoldable pub print_wide : ℕ → ℤ → List ℕ
print_wide w n = let t = print_int n in replicate (w - length t) b' ' ++ t

-- The text that sprintf makes.
unfoldable pub date_text : DateTime → List ℕ
date_text d =
    print_wide 4 d.years
    ++ (print_wide 2 d.months
        ++ (print_wide 2 d.day
            ++ (print_wide 2 d.hour ++ (print_wide 2 d.min ++ print_wide 2 d.sec))))

-- The text in the 15 bytes of str_date, and the masked bytes of `times`.
unfoldable pub date_bytes : DateTime → Option (List ℕ)
date_bytes d =
    let text = date_text d in
    if leb (length text) 14
    then some (map masked (text ++ replicate (14 - length text) 0))
    else none

-- A byte of an int.
abbrev pub byte_of : ℤ → ℕ
byte_of (pos n) = n % 256
byte_of (negsuc n) = 255 - n % 256

abbrev pub axis_digit : ℤ → ℕ
axis_digit n = masked (byte_of (n +ℤ pos 0x30))

-- The sign and three digits of an axis.
unfoldable pub axis_bytes : ℤ → List ℕ
axis_bytes x =
    (elim x [ pos n ↦ 0x81 | negsuc n ↦ 0x87 ])
    ∷ axis_digit (quot x 1000000)
    ∷ axis_digit (quot (rem x 1000000) 100000)
    ∷ axis_digit (quot (rem (rem x 1000000) 100000) 10000)
    ∷ []

module _ {ℓ} {F D : Type ℓ} (op : Conversions F D) where
  -- Degrees and minutes as one number.
  unfoldable pub position_word : D → ℕ
  position_word x =
      let whole = op.to_word x in
      let minutes = op.mul (op.sub x (op.of_word whole)) (op.tenths 6) in
      (whole * 1000000 + op.to_word (op.mul minutes (op.tenths 10000000))) % 2 ^ 32

  -- The record with the text of the time; `x`, `y` and `z` are what get_gsensor_data gives.
  abbrev pub track_of : ℤ → ℤ → ℤ → Bool → GpsInfo F D → List ℕ → TrackInfo
  track_of x y z flip_flag info times = record {
    fixation_datas1 = 0x01 ∷ 0x03 ∷ 0x00 ∷ 0x00 ∷ 0xF2 ∷ 0xE1 ∷ 0xF0 ∷ 0xEE ∷ 0x54 ∷ 0x54 ∷ [];
    times = times;
    fixation_data2 = 0xA6;
    gps_times = replicate 14 0x9A;
    fixation_data3 = 0xA9;
    gps_latitude = masked info.latitude_indicator ∷ digit_bytes 8 (position_word info.latitude);
    gps_longitude = masked info.longitude_indicator ∷ digit_bytes 9 (position_word info.longitude);
    fixation_datas4 = 0x81 ∷ 0x9A ∷ 0x9A ∷ 0x99 ∷ 0x9D ∷ [];
    gps_speeds = digit_bytes 3 (op.speed_byte info.speed);
    gsensor_x = axis_bytes x;
    gsensor_y = axis_bytes y;
    gsensor_z = axis_bytes z;
    fixation_datas5 = replicate 72 (if flip_flag then 0x00 else 0xAA);
    fixation_datas6 = 0xFF ∷ 0xFD ∷ [];
  }

  -- The record, and flip_flag afterwards.
  unfoldable pub text_data_copyfrom_amba_gps :
      ℤ → ℤ → ℤ → Bool → GpsInfo F D → Option (TrackInfo × Bool)
  text_data_copyfrom_amba_gps x y z flip_flag info =
      date_bytes info.date >>= λ times. some (track_of x y z flip_flag info times, not flip_flag)
