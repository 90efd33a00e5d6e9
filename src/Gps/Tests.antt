-- ===== src/Gps/Tests.antt =====
-- Runs of the receiver.
use cvr_video.Base.{
  ℕ, ◌≡◌, refl, List, [], ◌∷◌, ◌++◌, true, false, Option, none, some, map, length, arith,
}
use cvr_video.Base.Int.{ℤ, pos, negsuc, ◌+ℤ◌}
use cvr_video.Base.Text.{codes, contains, starts_with, c_string}
use cvr_video.Gps.{
  Receiver, Answers, init, init_parameter, gps_open, open_tty_dev, gps_create_read_thread, gps_init,
  gps_deinit,
}
use cvr_video.Gps.Users.{IsAtRest, HasUsers}
use cvr_video.Gps.History.{Reach, start, joins, Reach-HasUsers, gps_init_after_extra}
use cvr_video.Gps.Files.{Round, IsWriting, Fills, gps_write_thread, gps_write_thread-Fills}
use cvr_video.Gps.Lines.{Delivery, type_of, buffer_of, gps_read_thread}
use cvr_video.Gps.Reading.{gps_read_thread-fields}
use cvr_video.Nmea.{Numbers, GpsInfo, gps_rmc}
use cvr_video.Nmea.Parse.{gps_nmea_data_parse}
use cvr_video.Nmea.Fields.{fields, analyse_fields}

abbrev resting : Receiver
resting = record {
  gmodule_count = pos 0;
  gread_done = false;
  gwrite_done = false;
  gps_fd = negsuc 0;
  ttys_fd = negsuc 0;
  file_fd = negsuc 0;
  rmc_data = [];
  gga_data = [];
  read_thread = false;
  write_thread = false;
  send_data = none;
  actions = [];
}

abbrev willing : Answers
willing = record {
  gps_fd = pos 5;
  open_accepted = true;
  ttys_fd = pos 6;
  options_set = true;
  thread_created = true;
  close_accepted = true;
}

resting-IsAtRest : IsAtRest resting
resting-IsAtRest = record {
  thread = refl;
  allowed = refl;
  callback = refl;
  device = refl;
  tty = refl;
  device_fd = refl;
  tty_fd = refl;
}

abbrev one_user : Receiver
one_user = (gps_init willing 70 resting).1

one_user-Reach : Reach 1 one_user
unfolding gps_init init init_parameter gps_open open_tty_dev gps_create_read_thread ◌+ℤ◌
one_user-Reach =
    joins willing 70 (start resting resting-IsAtRest refl) refl (λ e. ground (arith, e))

Reach-HasUsers_example : HasUsers 1 (gps_init willing 70 resting).1
Reach-HasUsers_example = Reach-HasUsers one_user-Reach

gps_init_after_extra_example :
    ((gps_deinit willing [] resting).0 ≡ negsuc 0)
    × ((gps_init willing 70 (gps_deinit willing [] resting).1).0 ≡ pos 0)
    × IsAtRest (gps_init willing 70 (gps_deinit willing [] resting).1).1
gps_init_after_extra_example =
    gps_init_after_extra willing willing [] 70 resting (resting-IsAtRest, refl)

-- Two rounds to a file.
abbrev second : Round
second = record {
  second_passed = true;
  recodetime = pos 2;
  end_flag = codes "$GPSENDTIME";
  start_flag = codes "$GPSCAMTIME";
  fd = pos 8;
}

second-IsWriting : IsWriting 2 second
second-IsWriting = record { passed = refl; time = refl; opens = refl }

abbrev writing : Receiver
writing = record resting { gwrite_done = true }

gps_write_thread-Fills_example :
    Fills 2 3
      (gps_write_thread (pos 7) [] (second ∷ second ∷ second ∷ []) writing).0
      (gps_write_thread (pos 7) [] (second ∷ second ∷ second ∷ []) writing).1
gps_write_thread-Fills_example =
    gps_write_thread-Fills 2 (pos 7) [] (second ∷ second ∷ second ∷ []) writing (omega arith) refl
      refl refl (second-IsWriting, (second-IsWriting, (second-IsWriting, tt)))

abbrev whole : Numbers ℤ ℤ
whole = record {
  atoi = λ t. pos (length t);
  atof = λ t. pos (length t);
  narrow = λ x. x;
  widen = λ x. x;
  truncate = λ x. x;
  fsub = λ x n. x;
  fmul = λ x n. x;
  fdiv = λ x n. x;
  dadd = λ n x. x;
  ddiv = λ x n. x;
}

abbrev no_info : GpsInfo ℤ ℤ
no_info = record {
  status = 0;
  latitude = pos 0;
  latitude_indicator = 0;
  longitude = pos 0;
  longitude_indicator = 0;
  speed = pos 0;
  direction = pos 0;
  altitude = pos 0;
  satellites = pos 0;
  position_fix_indicator = pos 0;
  date = record {
    years = pos 0;
    months = pos 0;
    day = pos 0;
    hour = pos 0;
    min = pos 0;
    sec = pos 0;
  };
}

abbrev rmc_line : List ℕ
rmc_line = codes "$GPRMC,1,A,,N*53" ++ 10 ∷ []

-- The port has no byte at first.
abbrev slow_reads : List (Option ℕ)
slow_reads = none ∷ map some rmc_line

rmc_line_type : type_of (buffer_of rmc_line) ≡ gps_rmc
unfolding contains starts_with c_string
rmc_line_type = refl

gps_read_thread-fields_example :
    (d : Delivery) × ((g' : Receiver) × (gps_read_thread slow_reads []
          (record resting { send_data = some 70 })
        ≡ some (d ∷ [], g'))
      × (d.callback ≡ 70)
      × (gps_nmea_data_parse whole d.search_type no_info d.bytes d.len
          ≡ some (
              analyse_fields whole
                (type_of (buffer_of rmc_line))
                0
                (fields [] rmc_line)
                (negsuc 0, no_info))))
gps_read_thread-fields_example =
    gps_read_thread-fields whole no_info slow_reads rmc_line 70
      (record resting { send_data = some 70 }) refl refl refl (rw rmc_line_type refl) refl
      (omega arith) (omega arith)
