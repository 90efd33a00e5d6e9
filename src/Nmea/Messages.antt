-- ===== src/Nmea/Messages.antt =====
-- gps/nmea_parse.cpp, gps_nmea_data_parse: a message as the list of its fields.
use cvr_video.Base.{
  ℕ, suc, ◌+◌, ◌<◌, ◌≡◌, ◌≢◌, refl, sym, ap, ◌∙◌, List, [], ◌∷◌, ◌++◌, true, false, ◌==◌, leb,
  Option, some, ◌>>=◌, length, Bool-cases, ◌⊎◌, inl, inr, arith, replicate,
}
use cvr_video.Base.Int.{ℤ, pos, negsuc, ltb_ℤ}
use cvr_video.Nmea.{Numbers, GpsInfo, first_byte}
use cvr_video.Nmea.Parse.{
  Parser, separator, last_byte, inner_byte, next_field, parse_loop, fresh_parser,
  gps_nmea_data_parse, nmea_message_len,
}
use cvr_video.Nmea.Fields.{
  shown, fields, fits, analyse_fields, IsHolding, handed, handed-IsHolding, separator-handed,
  last_byte-handed, inner_byte-IsHolding, shown-append_one, length-append_one,
}

long_enough : (n : ℕ) → 6 < n → leb n 6 ≡ false
long_enough n lt = ground (arith, lt)

fits_nonzero : (n c : ℕ) (text : List ℕ) → fits n (c ∷ text) ≡ true → c ≢ 0
fits_nonzero n c text h = λ e. ground (arith, e, h)

fits_comma :
    (n c : ℕ) (text : List ℕ) → (c == b',') ≡ true → fits n (c ∷ text) ≡ true → fits 0 text ≡ true
fits_comma n c text e h = ground (arith, e, h)

fits_inner :
    (n c : ℕ) (text : List ℕ)
    → (c == b',') ≡ false
    → fits n (c ∷ text) ≡ true
    → (n + 1 < nmea_message_len) × (fits (n + 1) text ≡ true)
fits_inner n c text e h = ground (arith, e, h)

module _ {ℓ} {F D : Type ℓ} (op : Numbers F D) (search : ℕ) where
  abbrev outcome : Option (Parser F D) → Option (ℤ × GpsInfo F D)
  outcome o = o >>= λ s. some (s.ret, s.info)

  -- After a field: the answer below 0 ends the loop, or the rest of it follows.
  after_field :
      (s : Parser F D) (n : ℕ) (fs : List (List ℕ)) (rest : Option (Parser F D))
      → outcome rest ≡ some (analyse_fields op search n fs (s.ret, s.info))
      → outcome (elim (ltb_ℤ s.ret (pos 0)) [ true ↦ some s | false ↦ rest ])
        ≡ some (elim (ltb_ℤ s.ret (pos 0)) [
          | true ↦ (s.ret, s.info)
          | false ↦ analyse_fields op search n fs (s.ret, s.info)
        ])
  after_field s n fs rest e = elim (Bool-cases (ltb_ℤ s.ret (pos 0))) [
    | inl b ↦ rw b refl
    | inr b ↦ rw b e
  ]

  loop_separator :
      (n c d : ℕ) (rest : List ℕ) (s s' : Parser F D)
      → (c == b',') ≡ true
      → separator op search s ≡ some s'
      → parse_loop op search (suc n) (c ∷ d ∷ rest) s ≡ elim (ltb_ℤ s'.ret (pos 0)) [
        | true ↦ some s'
        | false ↦ parse_loop op search n (d ∷ rest) (next_field op search s')
      ]
  unfolding parse_loop
  loop_separator n c d rest s s' e h = rw (parse_loop, e, h) refl

  loop_last :
      (n c d : ℕ) (rest : List ℕ) (s s' : Parser F D)
      → (c == b',') ≡ false
      → (d == b',') ≡ true
      → last_byte op search c s ≡ some s'
      → parse_loop op search (suc (suc n)) (c ∷ d ∷ rest) s ≡ elim (ltb_ℤ s'.ret (pos 0)) [
        | true ↦ some s'
        | false ↦ parse_loop op search n rest (next_field op search s')
      ]
  unfolding parse_loop
  loop_last n c d rest s s' e e' h =
      rw (parse_loop, e, e', h)
        (ap
          (λ k. elim (ltb_ℤ s'.ret (pos 0)) [
            | true ↦ some s'
            | false ↦ parse_loop op search k rest (next_field op search s')
          ])
          (omega arith))

  loop_inner :
      (n c d : ℕ) (rest : List ℕ) (s s' : Parser F D)
      → (c == b',') ≡ false
      → (d == b',') ≡ false
      → inner_byte op search c s ≡ some s'
      → parse_loop op search (suc n) (c ∷ d ∷ rest) s ≡ parse_loop op search n (d ∷ rest) s'
  unfolding parse_loop
  loop_inner n c d rest s s' e e' h = rw (parse_loop, e, e', h) refl

  -- The loop on the memory does what the fields of the text do.
  abbrev Follows : ℕ → List ℕ → List ℕ → List ℕ → Type ℓ
  Follows n memory cur text =
      (s : Parser F D)
      → IsHolding op search s cur
      → outcome (parse_loop op search n memory s)
        ≡ some (analyse_fields op search s.nmea_count (fields cur text) (s.ret, s.info))

  fields_comma :
      (c : ℕ) (cur text : List ℕ)
      → (c == b',') ≡ true
      → fields cur (c ∷ text) ≡ shown cur ∷ fields [] text
  fields_comma c cur text e = rw (fields, e) refl

  fields_inner :
      (c : ℕ) (cur text : List ℕ)
      → (c == b',') ≡ false
      → fields cur (c ∷ text) ≡ fields (cur ++ c ∷ []) text
  fields_inner c cur text e = rw (fields, e) refl

  comma-Follows :
      (n c d : ℕ) (rest text : List ℕ)
      → (c == b',') ≡ true
      → Follows n (d ∷ rest) [] text
      → Follows (suc n) (c ∷ d ∷ rest) [] (c ∷ text)
  comma-Follows n c d rest text e more s v =
      let (b, h, l) = separator-handed op search s v in
      let s' = handed op search (b'0' ∷ []) b s in
      ap outcome (loop_separator n c d rest s s' e h)
      ∙ after_field s' (s.nmea_count + 1) (fields [] text) _
          (more (next_field op search s') (handed-IsHolding op search (b'0' ∷ []) b s l))
      ∙ ap (λ fs. some (analyse_fields op search s.nmea_count fs (s.ret, s.info)))
          (sym (fields_comma c [] text e))

  last-Follows :
      (n c d : ℕ) (rest cur text : List ℕ)
      → (c == b',') ≡ false
      → (d == b',') ≡ true
      → c ≢ 0
      → length cur + 1 < nmea_message_len
      → Follows n rest [] text
      → Follows (suc (suc n)) (c ∷ d ∷ rest) cur (c ∷ d ∷ text)
  last-Follows n c d rest cur text e e' nz lt more s v =
      let (b, h, l) = last_byte-handed op search c s cur v nz lt in
      let s' = handed op search (cur ++ c ∷ []) b s in
      ap outcome (loop_last n c d rest s s' e e' h)
      ∙ after_field s' (s.nmea_count + 1) (fields [] text) _
          (more (next_field op search s') (handed-IsHolding op search (cur ++ c ∷ []) b s l))
      ∙ ap (λ f. some (analyse_fields op search s.nmea_count (f ∷ fields [] text) (s.ret, s.info)))
          (sym (shown-append_one cur c))
      ∙ ap (λ fs. some (analyse_fields op search s.nmea_count fs (s.ret, s.info)))
          (sym (fields_inner c cur (d ∷ text) e ∙ fields_comma d (cur ++ c ∷ []) text e'))

  inner-Follows :
      (n c d : ℕ) (rest cur text : List ℕ)
      → (c == b',') ≡ false
      → (d == b',') ≡ false
      → c ≢ 0
      → length cur + 1 < nmea_message_len
      → Follows n (d ∷ rest) (cur ++ c ∷ []) text
      → Follows (suc n) (c ∷ d ∷ rest) cur (c ∷ text)
  inner-Follows n c d rest cur text e e' nz lt more s v =
      let (b, h, w) = inner_byte-IsHolding op search c s cur v nz lt in
      ap outcome (loop_inner n c d rest s _ e e' h)
      ∙ more _ w
      ∙ ap (λ fs. some (analyse_fields op search s.nmea_count fs (s.ret, s.info)))
          (sym (fields_inner c cur text e))

  end-Follows : (memory cur : List ℕ) → Follows 0 memory cur []
  unfolding parse_loop
  end-Follows memory cur s v = refl

  -- A comma comes only right behind another one, or at the start: the others are seen ahead.
  loop-fields :
      (text : List ℕ) (z : ℕ) (behind cur : List ℕ)
      → (z == b',') ≡ false
      → (cur ≡ []) ⊎ ((first_byte text == b',') ≡ false)
      → fits (length cur) text ≡ true
      → Follows (length text) (text ++ z ∷ behind) cur text
  loop-fields [] z behind cur nz start ok = end-Follows (z ∷ behind) cur
  loop-fields (c ∷ []) z behind cur nz start ok = elim (Bool-cases (c == b',')) [
    | inl e ↦ elim start [
      | inl p ↦ rw p (comma-Follows 0 c z behind [] e (end-Follows (z ∷ behind) []))
      | inr q ↦ absurd (ground (arith, e, q))
    ]
    | inr e ↦
        inner-Follows 0 c z behind cur [] e nz (fits_nonzero (length cur) c [] ok)
          (fits_inner (length cur) c [] e ok).0 (end-Follows (z ∷ behind) (cur ++ c ∷ []))
  ]
  loop-fields (c ∷ d ∷ text) z behind cur nz start ok = elim (Bool-cases (c == b',')) [
    | inl e ↦ elim start [
      | inl p ↦ rw p (
          comma-Follows _ c d (text ++ z ∷ behind) (d ∷ text) e (
            loop-fields (d ∷ text) z behind [] nz (inl refl)
              (fits_comma (length cur) c (d ∷ text) e ok)))
      | inr q ↦ absurd (ground (arith, e, q))
    ]
    | inr e ↦
        let n0 = fits_nonzero (length cur) c (d ∷ text) ok in
        let (lt, ok') = fits_inner (length cur) c (d ∷ text) e ok in
        elim (Bool-cases (d == b',')) [
          | inl e' ↦ last-Follows _ c d (text ++ z ∷ behind) cur text e e' n0 lt (
              loop-fields text z behind [] nz (inl refl)
                (fits_comma (length cur + 1) d text e' ok'))
          | inr e' ↦ inner-Follows _ c d (text ++ z ∷ behind) cur (d ∷ text) e e' n0 lt (
              loop-fields (d ∷ text) z behind (cur ++ c ∷ []) nz (inr e')
                (rw (length-append_one cur c) ok'))
        ]
  ]

  fresh_parser-IsHolding :
      (info : GpsInfo F D) → IsHolding op search (fresh_parser op search info) []
  fresh_parser-IsHolding info = record {
    tail = replicate nmea_message_len 0;
    buffer = refl;
    position = refl;
    size = refl;
    bytes = tt;
  }

  -- A message of more than six bytes is analysed without an access out of bounds: each field that a
  -- comma ends goes to analysis_msg_type with its number, in order and an empty one as "0", up to the
  -- first answer below 0; what follows the last comma is not analysed. Here no byte of the message is
  -- zero, there are at most 99 bytes between commas, and the byte behind the message is no comma.
  pub gps_nmea_data_parse-fields :
      (info : GpsInfo F D) (text : List ℕ) (z : ℕ) (behind : List ℕ)
      → (z == b',') ≡ false
      → fits 0 text ≡ true
      → 6 < length text
      → gps_nmea_data_parse op search info (text ++ z ∷ behind) (length text)
        ≡ some (analyse_fields op search 0 (fields [] text) (negsuc 0, info))
  unfolding gps_nmea_data_parse
  gps_nmea_data_parse-fields info text z behind nz ok lt = rw (long_enough (length text) lt) (
      loop-fields text z behind [] nz (inl refl) ok (fresh_parser op search info)
        (fresh_parser-IsHolding info))
