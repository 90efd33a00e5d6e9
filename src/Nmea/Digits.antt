-- ===== src/Nmea/Digits.antt =====
-- gps/nmea_parse.cpp: what the record of a position in the track says.
use cvr_video.Base.{
  ℕ, zero, suc, ◌+◌, ◌*◌, ◌/◌, ◌%◌, ◌^◌, ◌<◌, ◌≡◌, refl, ap, not, drop, take, ◌∙◌, [], ◌∷◌, ◌>>=◌,
  Bool, some, length, arith,
}
use cvr_video.Base.Int.{ℤ}
use cvr_video.Nmea.{GpsInfo}
use cvr_video.Nmea.Track.{
  TrackInfo, Conversions, masked, digit_bytes, position_word, track_of, text_data_copyfrom_amba_gps,
}
use cvr_video.Nmea.Dates.{
  number_from, number_from-append, unmask_digit, FitsText, SaysDate, date_bytes-SaysDate,
}

number_from-digit_bytes : (k n : ℕ) → n < 10 ^ k → number_from 0 (digit_bytes k n) ≡ n
unfolding digit_bytes
number_from-digit_bytes zero n h = omega arith
number_from-digit_bytes (suc k) n h =
    number_from-append 0 (digit_bytes k (n / 10)) (masked (n % 10 + 0x30))
    ∙ omega (
      arith,
      number_from-digit_bytes k (n / 10) (omega arith),
      unmask_digit (n % 10) (omega arith),
    )

module _ {ℓ} {F D : Type ℓ} (op : Conversions F D) where
  -- A number of degrees as degrees and minutes, in millionths of a hundred minutes, in a word.
  abbrev pub degrees_and_minutes : D → ℕ
  degrees_and_minutes x =
      (op.to_word x * 1000000
        + op.to_word (
            op.mul (op.mul (op.sub x (op.of_word (op.to_word x))) (op.tenths 6))
              (op.tenths 10000000)))
      % 2 ^ 32

  -- The date is that of its text, and the numbers of the other fields have place.
  unfoldable pub FitsTrack : GpsInfo F D → Type 0
  FitsTrack info =
      FitsText info.date
      × degrees_and_minutes info.latitude < 10 ^ 8
      × degrees_and_minutes info.longitude < 10 ^ 9
      × op.speed_byte info.speed < 1000

  -- For a position with a year of four digits, two digits for each other part of the date, a number
  -- of at most 8 digits for the latitude and 9 for the longitude, and a speed of at most 3, the record
  -- is made and flip_flag turned over. Masked, `times` has year, month, day, hour, minute and second in
  -- 4, 2, 2, 2, 2 and 2 places; latitude and longitude have the letter of their side, and in 8 and 9
  -- digits degrees * 1000000 + minutes * 10000, as the operations on doubles give them; the speed is
  -- in 3 digits.
  pub text_data_copyfrom_amba_gps-digits :
      (x y z : ℤ) (flip_flag : Bool) (info : GpsInfo F D)
      → FitsTrack info
      → (t : TrackInfo) × (text_data_copyfrom_amba_gps op x y z flip_flag info
          ≡ some (t, not flip_flag))
        × SaysDate info.date t.times
        × (take 1 t.gps_latitude ≡ masked info.latitude_indicator ∷ [])
        × (number_from 0 (drop 1 t.gps_latitude) ≡ degrees_and_minutes info.latitude)
        × (take 1 t.gps_longitude ≡ masked info.longitude_indicator ∷ [])
        × (number_from 0 (drop 1 t.gps_longitude) ≡ degrees_and_minutes info.longitude)
        × (number_from 0 t.gps_speeds ≡ op.speed_byte info.speed)
        × ((length t.gps_latitude ≡ 9) × (length t.gps_longitude ≡ 10) × (length t.gps_speeds ≡ 3))
  unfolding text_data_copyfrom_amba_gps FitsTrack position_word digit_bytes
  text_data_copyfrom_amba_gps-digits x y z flip_flag info (hd, hla, hlo, hs) =
      let (times, e, says) = date_bytes-SaysDate info.date hd in
      (
        track_of op x y z flip_flag info times,
        ap (λ o. o >>= λ times. some (track_of op x y z flip_flag info times, not flip_flag)) e,
        says,
        refl,
        number_from-digit_bytes 8 _ hla,
        refl,
        number_from-digit_bytes 9 _ hlo,
        number_from-digit_bytes 3 _ hs,
        (refl, refl, refl),
      )
