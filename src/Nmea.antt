-- ===== src/Nmea.antt =====
-- gps/nmea_parse.cpp and gps/nmea_parse.h: the messages of the GPS receiver. This file has the record
-- that they fill and what the code does with one field of a message.
pub mod Parse
pub mod Fields
pub mod Messages
pub mod Clock
pub mod Track
pub mod Axes
pub mod Dates
pub mod Digits
mod Tests
use cvr_video.Base.{ℕ, List, [], ◌∷◌, Bool, true, false, ◌&&◌, ◌==◌, if◌then◌else◌}
use cvr_video.Base.Int.{ℤ, pos, negsuc, ◌+ℤ◌, quot, rem}

-- What the code takes from the language and stdlib.h: `F` is float and `D` double. `fsub` and `fmul`
-- and `fdiv` have a float and an integer, `dadd` an integer and a double, `ddiv` a double and an integer.
pub record Numbers {ℓ} (F D : Type ℓ) : Type ℓ where
  pub atoi : List ℕ → ℤ
  pub atof : List ℕ → D
  pub narrow : D → F
  pub widen : F → D
  pub truncate : F → ℤ
  pub fsub : F → ℤ → F
  pub fmul : F → ℤ → F
  pub fdiv : F → ℤ → F
  pub dadd : ℤ → D → D
  pub ddiv : D → ℤ → D

-- `struct date_time`
pub record DateTime : Type 0 where
  pub years : ℤ
  pub months : ℤ
  pub day : ℤ
  pub hour : ℤ
  pub min : ℤ
  pub sec : ℤ

-- `struct gps_info`
pub record GpsInfo {ℓ} (F D : Type ℓ) : Type ℓ where
  pub status : ℕ
  pub latitude : D
  pub latitude_indicator : ℕ
  pub longitude : D
  pub longitude_indicator : ℕ
  pub speed : F
  pub direction : F
  pub altitude : F
  pub satellites : ℤ
  pub position_fix_indicator : ℤ
  pub date : DateTime

-- NAUTICAL_MILE
abbrev pub nautical_mile : ℤ
nautical_mile = pos 1852

-- GPS_RMC, GPS_GSV and GPS_GGA
abbrev pub gps_rmc : ℕ
gps_rmc = 1

abbrev pub gps_gsv : ℕ
gps_gsv = 2

abbrev pub gps_gga : ℕ
gps_gga = 3

-- The first byte of a C string, 0 if it is empty.
abbrev pub first_byte : List ℕ → ℕ
first_byte [] = 0
first_byte (c ∷ text) = c

-- The time of a number hhmmss.
abbrev pub set_time : ℤ → DateTime → DateTime
set_time n t = record t {
  sec = rem n 100;
  min = rem (quot n 100) 100;
  hour = quot n 10000 +ℤ pos 8;
}

-- The day of a number ddmmyy.
abbrev pub set_day : ℤ → DateTime → DateTime
set_day n t = record t {
  years = rem n 100 +ℤ pos 100 +ℤ pos 1900;
  months = rem (quot n 100) 100;
  day = quot n 10000;
}

module _ {ℓ} {F D : Type ℓ} (op : Numbers F D) where
  unfoldable pub gps_degree_minute_to_degree : F → D
  gps_degree_minute_to_degree dm =
      let integer = op.truncate dm in
      let decimals = op.widen (op.fsub dm integer) in
      op.dadd (quot integer 100) (op.ddiv (op.dadd (rem integer 100) decimals) (pos 60))

  abbrev pub degree_of : List ℕ → D
  degree_of text = gps_degree_minute_to_degree (op.narrow (op.atof text))

  unfoldable pub analysis_gsv : ℕ → List ℕ → GpsInfo F D → GpsInfo F D
  analysis_gsv n text info = if n == 3 then record info { satellites = op.atoi text } else info

  unfoldable pub analysis_gga : ℕ → List ℕ → GpsInfo F D → GpsInfo F D
  analysis_gga n text info =
      if n == 1
      then record info { date = set_time (op.atoi text) info.date }
      else if n == 2
      then record info { latitude = degree_of text }
      else if n == 3
      then record info { latitude_indicator = first_byte text }
      else if n == 4
      then record info { longitude = degree_of text }
      else if n == 5
      then record info { longitude_indicator = first_byte text }
      else if n == 6
      then record info { position_fix_indicator = op.atoi text }
      else if n == 7
      then record info { satellites = op.atoi text }
      else if n == 9
      then record info { altitude = op.narrow (op.atof text) }
      else info

  unfoldable pub analysis_rmc : ℕ → List ℕ → GpsInfo F D → GpsInfo F D
  analysis_rmc n text info =
      if n == 1
      then record info { date = set_time (op.atoi text) info.date }
      else if n == 2
      then record info { status = first_byte text }
      else if n == 3
      then record info { latitude = degree_of text }
      else if n == 4
      then record info { latitude_indicator = first_byte text }
      else if n == 5
      then record info { longitude = degree_of text }
      else if n == 6
      then record info { longitude_indicator = first_byte text }
      else if n == 7
      then record info {
        speed = op.fdiv (op.fmul (op.narrow (op.atof text)) nautical_mile) (pos 1000);
      }
      else if n == 8
      then record info { direction = op.narrow (op.atof text) }
      else if n == 9
      then record info { date = set_day (op.atoi text) info.date }
      else info

  -- The answer and the record; the answer -1 is a message without a position.
  unfoldable pub analysis_msg_type : ℕ → ℕ → List ℕ → GpsInfo F D → ℤ × GpsInfo F D
  analysis_msg_type search n text info =
      if search == gps_rmc
      then (if n == 2 && first_byte text == b'0'
          then (negsuc 0, info)
          else (pos 0, analysis_rmc n text info))
      else if search == gps_gsv
      then (pos 0, analysis_gsv n text info)
      else if search == gps_gga
      then (pos 0, analysis_gga n text info)
      else (pos 0, info)
