-- ===== src/Gps/Lines.antt =====
-- gps/gps_ctrl.cpp, gps_read_thread and send_data: the bytes of the port as lines, in the build without
-- the text for the track. A lock makes the copy of a line one step.
use cvr_video.Base.{
  ℕ, ◌+◌, ◌-◌, List, [], ◌∷◌, ◌++◌, Bool, true, false, ◌==◌, ltb, if◌then◌else◌, Option, none, some,
  ◌>>=◌, length, take, replicate,
}
use cvr_video.Base.Text.{codes, contains, c_string}
use cvr_video.Gps.{Receiver, gps_buf_len}
use cvr_video.Nmea.{gps_rmc, gps_gga}

-- A call of the callback: the buffer and the length and the type of the line.
pub record Delivery : Type 0 where
  pub callback : ℕ
  pub bytes : List ℕ
  pub len : ℕ
  pub search_type : ℕ

-- The type of a buffer, 0 for a line that is not used.
abbrev pub type_of : List ℕ → ℕ
type_of bytes =
    if contains (codes "RMC") (c_string bytes)
    then gps_rmc
    else if contains (codes "GGA") (c_string bytes)
    then gps_gga
    else 0

abbrev pub stored : List ℕ → ℕ → ℕ → Receiver → Receiver
stored bytes len search g =
    if g.gwrite_done
    then (if search == gps_rmc
        then record g { rmc_data = take len bytes }
        else record g { gga_data = take len bytes })
    else g

abbrev pub delivered : Option ℕ → List ℕ → ℕ → ℕ → List Delivery
delivered none bytes len search = []
delivered (some f) bytes len search =
    record { callback = f; bytes = bytes; len = len; search_type = search } ∷ []

unfoldable pub send_data : List ℕ → ℕ → Receiver → List Delivery × Receiver
send_data bytes len g =
    let search = type_of bytes in
    if search == 0
    then ([], g)
    else (delivered g.send_data bytes len search, stored bytes len search g)

-- `buf` after memset and the bytes of the line.
abbrev pub buffer_of : List ℕ → List ℕ
buffer_of line = line ++ replicate (gps_buf_len - length line) 0

-- The loops, over what the reads give, with the line so far; `none` is a read with no byte. A line that
-- leaves no zero at the end of the buffer is read by strstr beyond it, and one without an end is
-- handed over with a length beyond it: these are faults.
unfoldable pub gps_read_thread :
    List (Option ℕ) → List ℕ → Receiver → Option (List Delivery × Receiver)
gps_read_thread [] line g = some ([], g)
gps_read_thread (none ∷ reads) line g = gps_read_thread reads line g
gps_read_thread (some c ∷ reads) line g = elim (ltb (length line + 1) gps_buf_len) [
  | true ↦ elim (c == 10) [
    | true ↦
        let now = send_data (buffer_of (line ++ c ∷ [])) (length line + 1) g in
        gps_read_thread reads [] now.1 >>= λ later. some (now.0 ++ later.0, later.1)
    | false ↦ gps_read_thread reads (line ++ c ∷ []) g
  ]
  | false ↦ none
]

-- The bytes that the reads give.
abbrev pub given : List (Option ℕ) → List ℕ
given [] = []
given (none ∷ reads) = given reads
given (some c ∷ reads) = c ∷ given reads

-- The lines of a text, each with its newline; `line` is the start of the first one.
abbrev pub lines : List ℕ → List ℕ → List (List ℕ)
lines line [] = []
lines line (c ∷ text) = elim (c == 10) [
  | true ↦ (line ++ c ∷ []) ∷ lines [] text
  | false ↦ lines (line ++ c ∷ []) text
]

-- No line is longer than 199 bytes, the newline counted; `n` stand before the text.
abbrev pub are_short : ℕ → List ℕ → Bool
are_short n [] = true
are_short n (c ∷ text) = elim (ltb (n + 1) gps_buf_len) [
  | true ↦ elim (c == 10) [ true ↦ are_short 0 text | false ↦ are_short (n + 1) text ]
  | false ↦ false
]

-- send_data on one line after another.
abbrev pub send_lines : List (List ℕ) → Receiver → List Delivery × Receiver
send_lines [] g = ([], g)
send_lines (line ∷ more) g =
    let now = send_data (buffer_of line) (length line) g in
    let later = send_lines more now.1 in (now.0 ++ later.0, later.1)
