-- ===== src/Nmea/Parse.antt =====
-- gps/nmea_parse.cpp, gps_nmea_data_parse: the loop over the bytes of a message. `none` is an access out
-- of bounds. The memory from `data` on is a list, which may be longer than the message.
use cvr_video.Base.{
  ℕ, zero, suc, ◌+◌, ◌-◌, List, [], ◌∷◌, true, false, ◌==◌, ltb, leb, if◌then◌else◌, Option, none,
  some, ◌>>=◌, length, set, replicate,
}
use cvr_video.Base.Int.{ℤ, pos, negsuc, ltb_ℤ}
use cvr_video.Base.Text.{c_string}
use cvr_video.Nmea.{Numbers, GpsInfo, analysis_msg_type}

-- NMEA_MESSAGE_ID_LEN and NMEA_MESSAGE_LEN
abbrev pub nmea_message_id_len : ℕ
nmea_message_id_len = 6

abbrev pub nmea_message_len : ℕ
nmea_message_len = 100

-- A write into an array.
abbrev pub store : List ℕ → ℕ → ℕ → Option (List ℕ)
store a i c = if ltb i (length a) then some (set a i c) else none

-- The variables of the loop.
pub record Parser {ℓ} (F D : Type ℓ) : Type ℓ where
  pub ret : ℤ
  pub nmea_count : ℕ
  pub data_pos : ℕ
  pub nmea_data : List ℕ
  pub info : GpsInfo F D

module _ {ℓ} {F D : Type ℓ} (op : Numbers F D) (search : ℕ) where
  -- The field is complete: the end of the text is written at `i`, and the text is analysed.
  abbrev pub hand_over : List ℕ → ℕ → Parser F D → Option (Parser F D)
  hand_over buffer i s = store buffer i 0 >>= λ b.
      let r = analysis_msg_type op search s.nmea_count (c_string b) s.info in
      some (record s { ret = r.0; nmea_data = b; data_pos = 0; info = r.1 })

  abbrev pub separator : Parser F D → Option (Parser F D)
  separator s = store s.nmea_data 0 b'0' >>= λ b. hand_over b 1 s

  abbrev pub last_byte : ℕ → Parser F D → Option (Parser F D)
  last_byte c s = store s.nmea_data s.data_pos c >>= λ b. hand_over b (s.data_pos + 1) s

  abbrev pub inner_byte : ℕ → Parser F D → Option (Parser F D)
  inner_byte c s = store s.nmea_data s.data_pos c >>= λ b.
      some (record s { nmea_data = b; data_pos = s.data_pos + 1 })

  abbrev pub next_field : Parser F D → Parser F D
  next_field s = record s { nmea_count = s.nmea_count + 1 }

  -- The loop, with the number of bytes left and the memory from the next one on.
  unfoldable pub parse_loop : ℕ → List ℕ → Parser F D → Option (Parser F D)
  parse_loop zero rest s = some s
  parse_loop (suc n) [] s = none
  parse_loop (suc n) (c ∷ []) s = elim (c == b',') [
    | true ↦ separator s >>= λ s'. elim (ltb_ℤ s'.ret (pos 0)) [
      | true ↦ some s'
      | false ↦ parse_loop n [] (next_field s')
    ]
    | false ↦ none
  ]
  parse_loop (suc n) (c ∷ d ∷ rest) s = elim (c == b',') [
    | true ↦ separator s >>= λ s'. elim (ltb_ℤ s'.ret (pos 0)) [
      | true ↦ some s'
      | false ↦ parse_loop n (d ∷ rest) (next_field s')
    ]
    | false ↦ elim (d == b',') [
      | true ↦ last_byte c s >>= λ s'. elim (ltb_ℤ s'.ret (pos 0)) [
        | true ↦ some s'
        | false ↦ parse_loop (n - 1) rest (next_field s')
      ]
      | false ↦ inner_byte c s >>= λ s'. parse_loop n (d ∷ rest) s'
    ]
  ]

  abbrev pub fresh_parser : GpsInfo F D → Parser F D
  fresh_parser info = record {
    ret = negsuc 0;
    nmea_count = 0;
    data_pos = 0;
    nmea_data = replicate nmea_message_len 0;
    info = info;
  }

  unfoldable pub gps_nmea_data_parse : GpsInfo F D → List ℕ → ℕ → Option (ℤ × GpsInfo F D)
  gps_nmea_data_parse info bytes len =
      if leb len nmea_message_id_len
      then some (negsuc 0, info)
      else parse_loop len bytes (fresh_parser info) >>= λ s. some (s.ret, s.info)
