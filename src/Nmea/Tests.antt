-- ===== src/Nmea/Tests.antt =====
-- Runs of the message parser, over whole numbers in place of floats.
use cvr_video.Base.{
  ℕ, ◌+◌, ◌-◌, ◌*◌, ◌/◌, ◌%◌, ◌≡◌, drop, take, refl, List, [], ◌∷◌, ◌++◌, true, false, ◌&&◌, leb,
  some, length, arith,
}
use cvr_video.Base.Int.{ℤ, pos, negsuc, ◌+ℤ◌, ◌-ℤ◌, ◌*ℤ◌, pos_part, quot}
use cvr_video.Base.Text.{codes}
use cvr_video.Nmea.{Numbers, GpsInfo, analysis_msg_type, gps_rmc, gps_gga}
use cvr_video.Nmea.Parse.{gps_nmea_data_parse}
use cvr_video.Nmea.Fields.{fields, analyse_fields}
use cvr_video.Nmea.Messages.{gps_nmea_data_parse-fields}
use cvr_video.Nmea.Track.{
  TrackInfo, Conversions, masked, digit_bytes, axis_bytes, text_data_copyfrom_amba_gps,
}
use cvr_video.Nmea.Digits.{FitsTrack, text_data_copyfrom_amba_gps-digits}
use cvr_video.Nmea.Dates.{number_from, FitsText, SaysDate}
use cvr_video.Nmea.Axes.{axis_bytes-digits}
use cvr_video.Nmea.Clock.{analysis_msg_type-date}

abbrev decimal_from : ℕ → List ℕ → ℕ
decimal_from n [] = n
decimal_from n (c ∷ text) = elim (leb b'0' c && leb c b'9') [
  | true ↦ decimal_from (n * 10 + (c - b'0')) text
  | false ↦ n
]

abbrev whole : Numbers ℤ ℤ
whole = record {
  atoi = λ t. pos (decimal_from 0 t);
  atof = λ t. pos (decimal_from 0 t);
  narrow = λ x. x;
  widen = λ x. x;
  truncate = λ x. x;
  fsub = λ x n. x -ℤ n;
  fmul = λ x n. x *ℤ n;
  fdiv = λ x n. quot x (pos_part n);
  dadd = λ n x. n +ℤ x;
  ddiv = λ x n. quot x (pos_part n);
}

abbrev no_info : GpsInfo ℤ ℤ
no_info = record {
  status = 0;
  latitude = pos 0;
  latitude_indicator = 0;
  longitude = pos 0;
  longitude_indicator = 0;
  speed = pos 0;
  direction = pos 0;
  altitude = pos 0;
  satellites = pos 0;
  position_fix_indicator = pos 0;
  date = record {
    years = pos 0;
    months = pos 0;
    day = pos 0;
    hour = pos 0;
    min = pos 0;
    sec = pos 0;
  };
}

abbrev rmc_message : List ℕ
rmc_message = codes "$GPRMC,163059,A,,N*53"

gps_nmea_data_parse-fields_example :
    gps_nmea_data_parse whole gps_rmc no_info (rmc_message ++ 10 ∷ 0 ∷ []) (length rmc_message)
    ≡ some (analyse_fields whole gps_rmc 0 (fields [] rmc_message) (negsuc 0, no_info))
gps_nmea_data_parse-fields_example =
    gps_nmea_data_parse-fields whole gps_rmc no_info rmc_message 10 (0 ∷ []) refl refl (omega arith)

analysis_msg_type-date_example :
    (analysis_msg_type whole gps_rmc 1 (codes "163059") no_info ≡ (
      pos 0,
      record no_info { date = record no_info.date { hour = pos 24; min = pos 30; sec = pos 59 } },
    ))
    × (analysis_msg_type whole gps_gga 1 (codes "163059") no_info
        ≡ analysis_msg_type whole gps_rmc 1 (codes "163059") no_info)
    × (analysis_msg_type whole gps_rmc 9 (codes "311217") no_info ≡ (
      pos 0,
      record no_info {
        date = record no_info.date { years = pos 2017; months = pos 12; day = pos 31 };
      },
    ))
analysis_msg_type-date_example =
    analysis_msg_type-date whole (codes "163059") (codes "311217") 16 30 59 31 12 17 no_info refl
      refl (omega arith) (omega arith) (omega arith) (omega arith)

-- Fractions in millionths, in place of floats.
abbrev millionths : Conversions ℕ ℕ
millionths = record {
  to_word = λ x. x / 1000000;
  of_word = λ n. n * 1000000;
  speed_byte = λ x. x / 1000000 % 256;
  sub = λ x y. x - y;
  mul = λ x y. x * y / 1000000;
  tenths = λ n. n * 100000;
}

-- 31.5 degrees north and 121.25 degrees east, at speed 60.
abbrev shanghai : GpsInfo ℕ ℕ
shanghai = record {
  status = b'A';
  latitude = 31500000;
  latitude_indicator = b'N';
  longitude = 121250000;
  longitude_indicator = b'E';
  speed = 60000000;
  direction = 0;
  altitude = 0;
  satellites = pos 9;
  position_fix_indicator = pos 1;
  date = record {
    years = pos 2017;
    months = pos 3;
    day = pos 31;
    hour = pos 24;
    min = pos 30;
    sec = pos 59;
  };
}

shanghai-FitsTrack : FitsTrack millionths shanghai
unfolding FitsTrack FitsText
shanghai-FitsTrack = (
  (omega arith, omega arith, omega arith, omega arith, omega arith, omega arith),
  omega arith,
  omega arith,
  omega arith,
)

text_data_copyfrom_amba_gps-digits_example :
    (t : TrackInfo) × (text_data_copyfrom_amba_gps millionths
        (pos 0)
        (pos 0)
        (negsuc 19999)
        true
        shanghai
      ≡ some (t, false))
    × SaysDate shanghai.date t.times
    × (take 1 t.gps_latitude ≡ masked b'N' ∷ [])
    × (number_from 0 (drop 1 t.gps_latitude) ≡ 31300000)
    × (take 1 t.gps_longitude ≡ masked b'E' ∷ [])
    × (number_from 0 (drop 1 t.gps_longitude) ≡ 121150000)
    × (number_from 0 t.gps_speeds ≡ 60)
    × ((length t.gps_latitude ≡ 9) × (length t.gps_longitude ≡ 10) × (length t.gps_speeds ≡ 3))
text_data_copyfrom_amba_gps-digits_example =
    text_data_copyfrom_amba_gps-digits millionths (pos 0) (pos 0) (negsuc 19999) true shanghai
      shanghai-FitsTrack

axis_bytes-digits_example :
    (axis_bytes (pos 1980000) ≡ 0x81 ∷ digit_bytes 3 198)
    × (axis_bytes (negsuc 1980000)
        ≡ 0x87 ∷ masked (0x30 - 1) ∷ masked (0x30 - 9) ∷ masked (0x30 - 8) ∷ [])
axis_bytes-digits_example = axis_bytes-digits 1980000 (omega arith)
