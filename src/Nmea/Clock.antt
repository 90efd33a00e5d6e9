-- ===== src/Nmea/Clock.antt =====
-- gps/nmea_parse.cpp, analysis_rmc and analysis_gga: the time and the day of a message.
use cvr_video.Base.{ℕ, ◌+◌, ◌*◌, ◌/◌, ◌%◌, ◌<◌, ◌≡◌, refl, ap, ◌∙◌, List, arith}
use cvr_video.Base.Int.{pos, ◌+ℤ◌}
use cvr_video.Nmea.{
  Numbers, DateTime, GpsInfo, set_time, set_day, analysis_rmc, analysis_gga, analysis_msg_type,
  gps_rmc, gps_gga,
}

set_time-digits :
    (h m s : ℕ) (t : DateTime)
    → m < 100
    → s < 100
    → set_time (pos (h * 10000 + m * 100 + s)) t
      ≡ record t { hour = pos (h + 8); min = pos m; sec = pos s }
unfolding ◌+ℤ◌
set_time-digits h m s t lm ls =
    let e : (h * 10000 + m * 100 + s) % 100 ≡ s = omega arith in
    let e' : (h * 10000 + m * 100 + s) / 100 % 100 ≡ m = omega arith in
    let e'' : (h * 10000 + m * 100 + s) / 10000 ≡ h = omega arith in ground (arith, e, e', e'')

set_day-digits :
    (d m y : ℕ) (t : DateTime)
    → m < 100
    → y < 100
    → set_day (pos (d * 10000 + m * 100 + y)) t
      ≡ record t { years = pos (y + 2000); months = pos m; day = pos d }
unfolding ◌+ℤ◌
set_day-digits d m y t lm ly =
    let e : (d * 10000 + m * 100 + y) % 100 ≡ y = omega arith in
    let e' : (d * 10000 + m * 100 + y) / 100 % 100 ≡ m = omega arith in
    let e'' : (d * 10000 + m * 100 + y) / 10000 ≡ d = omega arith in ground (arith, e, e', e'')

module _ {ℓ} {F D : Type ℓ} (op : Numbers F D) where
  -- A time field hhmmss in field 1 of an RMC or a GGA message, and a day field ddmmyy in field 9 of an
  -- RMC message, set the date to what their digits say, but for the hour, which is eight above: the
  -- hour is not brought below 24, and the day stays. Here minutes, seconds, months and years are below
  -- 100.
  pub analysis_msg_type-date :
      (time day : List ℕ) (h m s d n y : ℕ) (info : GpsInfo F D)
      → op.atoi time ≡ pos (h * 10000 + m * 100 + s)
      → op.atoi day ≡ pos (d * 10000 + n * 100 + y)
      → m < 100
      → s < 100
      → n < 100
      → y < 100
      → (analysis_msg_type op gps_rmc 1 time info ≡ (
        pos 0,
        record info { date = record info.date { hour = pos (h + 8); min = pos m; sec = pos s } },
      ))
        × (analysis_msg_type op gps_gga 1 time info ≡ analysis_msg_type op gps_rmc 1 time info)
        × (analysis_msg_type op gps_rmc 9 day info ≡ (
          pos 0,
          record info {
            date = record info.date { years = pos (y + 2000); months = pos n; day = pos d };
          },
        ))
  unfolding analysis_msg_type analysis_rmc analysis_gga
  analysis_msg_type-date time day h m s d n y info et ed lm ls ln ly = (
    ap (λ k. (pos 0, record info { date = set_time k info.date })) et
        ∙ ap (λ t. (pos 0, record info { date = t })) (set_time-digits h m s info.date lm ls),
    refl,
    ap (λ k. (pos 0, record info { date = set_day k info.date })) ed
        ∙ ap (λ t. (pos 0, record info { date = t })) (set_day-digits d n y info.date ln ly),
  )
