-- ===== src/Gps/Reading.antt =====
-- gps/gps_ctrl.cpp: the reading thread sends the lines of the port, and a callback can parse them.
use cvr_video.Base.{
  ℕ, suc, ◌+◌, ◌-◌, ◌<◌, ◌≡◌, refl, sym, ap, ◌∙◌, List, [], ◌∷◌, ◌++◌, true, false, ◌==◌, ltb,
  if◌then◌else◌, Option, none, some, ◌>>=◌, length, replicate, Bool-cases, inl, inr, arith,
}
use cvr_video.Base.Int.{negsuc}
use cvr_video.Gps.{Receiver, gps_buf_len}
use cvr_video.Nmea.{Numbers, GpsInfo}
use cvr_video.Nmea.Parse.{gps_nmea_data_parse}
use cvr_video.Nmea.Fields.{fields, fits, analyse_fields}
use cvr_video.Nmea.Messages.{gps_nmea_data_parse-fields}
use cvr_video.Gps.Lines.{
  Delivery, type_of, stored, delivered, send_data, buffer_of, gps_read_thread, given, lines,
  are_short, send_lines,
}

length-append_one : (line : List ℕ) (c : ℕ) → length (line ++ c ∷ []) ≡ length line + 1
length-append_one [] c = refl
length-append_one (b ∷ line) c = let ih = length-append_one line c in omega (arith, ih)

thread_full :
    (c : ℕ) (reads : List (Option ℕ)) (line : List ℕ) (g : Receiver)
    → ltb (length line + 1) gps_buf_len ≡ true
    → (c == 10) ≡ true
    → gps_read_thread (some c ∷ reads) line g ≡ (
        gps_read_thread reads [] (send_data (buffer_of (line ++ c ∷ [])) (length line + 1) g).1
        >>= λ later.
            some
              ((send_data (buffer_of (line ++ c ∷ [])) (length line + 1) g).0 ++ later.0, later.1))
unfolding gps_read_thread
thread_full c reads line g s e = rw (gps_read_thread, s, e) refl

thread_part :
    (c : ℕ) (reads : List (Option ℕ)) (line : List ℕ) (g : Receiver)
    → ltb (length line + 1) gps_buf_len ≡ true
    → (c == 10) ≡ false
    → gps_read_thread (some c ∷ reads) line g ≡ gps_read_thread reads (line ++ c ∷ []) g
unfolding gps_read_thread
thread_part c reads line g s e = rw (gps_read_thread, s, e) refl

lines_full :
    (c : ℕ) (line text : List ℕ)
    → (c == 10) ≡ true
    → lines line (c ∷ text) ≡ (line ++ c ∷ []) ∷ lines [] text
lines_full c line text e = rw (lines, e) refl

lines_part :
    (c : ℕ) (line text : List ℕ)
    → (c == 10) ≡ false
    → lines line (c ∷ text) ≡ lines (line ++ c ∷ []) text
lines_part c line text e = rw (lines, e) refl

short_step :
    (n c : ℕ) (text : List ℕ) → are_short n (c ∷ text) ≡ true → ltb (n + 1) gps_buf_len ≡ true
short_step n c text h = ground (arith, h)

short_full :
    (n c : ℕ) (text : List ℕ)
    → (c == 10) ≡ true
    → are_short n (c ∷ text) ≡ true
    → are_short 0 text ≡ true
short_full n c text e h = ground (arith, e, h)

short_part :
    (n c : ℕ) (text : List ℕ)
    → (c == 10) ≡ false
    → are_short n (c ∷ text) ≡ true
    → are_short (n + 1) text ≡ true
short_part n c text e h = ground (arith, e, h)

-- The thread sends the lines that the reads give, in order, however the reads fall.
pub gps_read_thread-lines :
    (reads : List (Option ℕ)) (line : List ℕ) (g : Receiver)
    → are_short (length line) (given reads) ≡ true
    → gps_read_thread reads line g ≡ some (send_lines (lines line (given reads)) g)
unfolding gps_read_thread
gps_read_thread-lines [] line g h = refl
gps_read_thread-lines (none ∷ reads) line g h = gps_read_thread-lines reads line g h
gps_read_thread-lines (some c ∷ reads) line g h = elim (Bool-cases (c == 10)) [
  | inl e ↦
      let g' = (send_data (buffer_of (line ++ c ∷ [])) (length line + 1) g).1 in
      let later =
        gps_read_thread-lines reads [] g' (short_full (length line) c (given reads) e h) in
      thread_full c reads line g (short_step (length line) c (given reads) h) e
      ∙ rw later (rw (lines_full c line (given reads) e) (rw (length-append_one line c) refl))
  | inr e ↦
      thread_part c reads line g (short_step (length line) c (given reads) h) e
      ∙ gps_read_thread-lines reads (line ++ c ∷ []) g
          (rw (length-append_one line c) (short_part (length line) c (given reads) e h))
      ∙ ap (λ l. some (send_lines l g)) (sym (lines_part c line (given reads) e))
]

send_used :
    (bytes : List ℕ) (len : ℕ) (g : Receiver)
    → (type_of bytes == 0) ≡ false
    → send_data bytes len g
      ≡ (delivered g.send_data bytes len (type_of bytes), stored bytes len (type_of bytes) g)
unfolding send_data
send_used bytes len g used =
    ap
      (λ b.
        if b
        then ([], g)
        else (delivered g.send_data bytes len (type_of bytes), stored bytes len (type_of bytes) g))
      used

sent :
    (line : List ℕ) (f : ℕ) (g : Receiver)
    → g.send_data ≡ some f
    → (type_of (buffer_of line) == 0) ≡ false
    → send_lines (line ∷ []) g ≡ (
      record {
        callback = f;
        bytes = buffer_of line;
        len = length line;
        search_type = type_of (buffer_of line);
      }
          ∷ [],
      stored (buffer_of line) (length line) (type_of (buffer_of line)) g,
    )
sent line f g callback used =
    let search = type_of (buffer_of line) in
    ap (λ (r : List Delivery × Receiver). (r.0 ++ [], r.1))
      (send_used (buffer_of line) (length line) g used)
    ∙ ap
        (λ o. (
          delivered o (buffer_of line) (length line) search ++ [],
          stored (buffer_of line) (length line) search g,
        ))
        callback

buffer_of-behind :
    (line : List ℕ)
    → length line < gps_buf_len
    → buffer_of line ≡ line ++ 0 ∷ replicate (gps_buf_len - length line - 1) 0
buffer_of-behind line short =
    let e : gps_buf_len - length line ≡ suc (gps_buf_len - length line - 1) = omega arith in
    ap (λ k. line ++ replicate k 0) e

delivered-fields {ℓ} :
    {F D : Type ℓ} (op : Numbers F D) (search : ℕ) (info : GpsInfo F D) (line : List ℕ)
    → fits 0 line ≡ true
    → 6 < length line
    → length line < gps_buf_len
    → gps_nmea_data_parse op search info (buffer_of line) (length line)
      ≡ some (analyse_fields op search 0 (fields [] line) (negsuc 0, info))
delivered-fields op search info line ok lt short =
    rw (buffer_of-behind line short) (gps_nmea_data_parse-fields op search info line 0 _ refl ok lt)

-- A line from the port reaches a callback, and gps_nmea_data_parse reads from the buffer of the call
-- what the fields of the line say, however the reads fall and without an access out of bounds. Here
-- the reads give one line with its newline, of a type that is used, with no zero byte, with more than
-- six bytes and at most 199 in all, and at most 99 between commas; and there is a callback.
pub gps_read_thread-fields {ℓ} :
    {F D : Type ℓ} (op : Numbers F D) (info : GpsInfo F D) (reads : List (Option ℕ)) (line : List ℕ)
    (f : ℕ) (g : Receiver)
    → lines [] (given reads) ≡ line ∷ []
    → are_short 0 (given reads) ≡ true
    → g.send_data ≡ some f
    → (type_of (buffer_of line) == 0) ≡ false
    → fits 0 line ≡ true
    → 6 < length line
    → length line < gps_buf_len
    → (d : Delivery) × ((g' : Receiver) × (gps_read_thread reads [] g ≡ some (d ∷ [], g'))
        × (d.callback ≡ f)
        × (gps_nmea_data_parse op d.search_type info d.bytes d.len
            ≡ some
                (analyse_fields op (type_of (buffer_of line)) 0 (fields [] line) (negsuc 0, info))))
gps_read_thread-fields op info reads line f g one short callback used ok lt fit = (
  record {
    callback = f;
    bytes = buffer_of line;
    len = length line;
    search_type = type_of (buffer_of line);
  },
  (
    stored (buffer_of line) (length line) (type_of (buffer_of line)) g,
    gps_read_thread-lines reads [] g short
        ∙ ap (λ l. some (send_lines l g)) one
        ∙ ap some (sent line f g callback used),
    refl,
    delivered-fields op (type_of (buffer_of line)) info line ok lt fit,
  ),
)
