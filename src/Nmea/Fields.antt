-- ===== src/Nmea/Fields.antt =====
-- gps/nmea_parse.cpp, gps_nmea_data_parse: the loop cuts the message at its commas.
use cvr_video.Base.{
  ℕ, ◌+◌, ◌<◌, ◌≡◌, ◌≢◌, refl, sym, ap, ◌∙◌, List, [], ◌∷◌, ◌++◌, Bool, true, false, ◌==◌, ltb,
  some, ◌>>=◌, All, length, length-append, set, arith,
}
use cvr_video.Base.Int.{ℤ, pos, ltb_ℤ}
use cvr_video.Base.Text.{c_string}
use cvr_video.Nmea.{Numbers, GpsInfo, analysis_msg_type}
use cvr_video.Nmea.Parse.{
  Parser, store, hand_over, separator, last_byte, inner_byte, next_field, nmea_message_len,
}

-- An empty field is shown as "0".
abbrev pub shown : List ℕ → List ℕ
shown [] = b'0' ∷ []
shown (c ∷ text) = c ∷ text

-- The fields of a text that a comma ends; `cur` is the start of the first one.
abbrev pub fields : List ℕ → List ℕ → List (List ℕ)
fields cur [] = []
fields cur (c ∷ text) = elim (c == b',') [
  | true ↦ shown cur ∷ fields [] text
  | false ↦ fields (cur ++ c ∷ []) text
]

-- No byte is zero, and between commas there are at most 99 bytes; `n` stand before the text.
abbrev pub fits : ℕ → List ℕ → Bool
fits n [] = true
fits n (c ∷ text) = elim (c == 0) [
  | true ↦ false
  | false ↦ elim (c == b',') [
    | true ↦ fits 0 text
    | false ↦ elim (ltb (n + 1) nmea_message_len) [ true ↦ fits (n + 1) text | false ↦ false ]
  ]
]

store_at :
    (cur tail : List ℕ) (t c : ℕ) → store (cur ++ t ∷ tail) (length cur) c ≡ some (cur ++ c ∷ tail)
store_at cur tail t c = rw (set_at cur tail t c) (ground (arith, length-append cur (t ∷ tail)))
  where
    set_at : (cur tail : List ℕ) (t c : ℕ) → set (cur ++ t ∷ tail) (length cur) c ≡ cur ++ c ∷ tail
    set_at [] tail t c = refl
    set_at (b ∷ cur) tail t c = ap (λ l. b ∷ l) (set_at cur tail t c)

c_string-ended : (text tail : List ℕ) → All (λ c. c ≢ 0) text → c_string (text ++ 0 ∷ tail) ≡ text
unfolding c_string
c_string-ended [] tail v = refl
c_string-ended (c ∷ text) tail (v, vs) = ground (arith, v, c_string-ended text tail vs)

append_one : (cur tail : List ℕ) (c : ℕ) → (cur ++ c ∷ []) ++ tail ≡ cur ++ c ∷ tail
append_one [] tail c = refl
append_one (b ∷ cur) tail c = ap (λ l. b ∷ l) (append_one cur tail c)

pub length-append_one : (cur : List ℕ) (c : ℕ) → length (cur ++ c ∷ []) ≡ length cur + 1
length-append_one cur c = omega (arith, length-append cur (c ∷ []))

All-append_one :
    (cur : List ℕ) (c : ℕ) → All (λ b. b ≢ 0) cur → c ≢ 0 → All (λ b. b ≢ 0) (cur ++ c ∷ [])
All-append_one [] c v n = (n, tt)
All-append_one (b ∷ cur) c (v, vs) n = (v, All-append_one cur c vs n)

-- What is shown of a field that has a last byte.
pub shown-append_one : (cur : List ℕ) (c : ℕ) → shown (cur ++ c ∷ []) ≡ cur ++ c ∷ []
shown-append_one [] c = refl
shown-append_one (b ∷ cur) c = refl

module _ {ℓ} {F D : Type ℓ} (op : Numbers F D) (search : ℕ) where
  -- What the fields do to the record, in order, up to the first error.
  abbrev pub analyse_fields : ℕ → List (List ℕ) → ℤ × GpsInfo F D → ℤ × GpsInfo F D
  analyse_fields n [] r = r
  analyse_fields n (f ∷ fs) r =
      let r' = analysis_msg_type op search n f r.1 in
      elim (ltb_ℤ r'.0 (pos 0)) [ true ↦ r' | false ↦ analyse_fields (n + 1) fs r' ]

  -- The buffer starts with the bytes of the field so far.
  pub record IsHolding (s : Parser F D) (cur : List ℕ) : Type ℓ where
    pub tail : List ℕ
    pub buffer : s.nmea_data ≡ cur ++ tail
    pub position : s.data_pos ≡ length cur
    pub size : length cur + length tail ≡ nmea_message_len
    pub bytes : All (λ b. b ≢ 0) cur

  abbrev pub handed : List ℕ → List ℕ → Parser F D → Parser F D
  handed f b s =
      let r = analysis_msg_type op search s.nmea_count f s.info in
      record s { ret = r.0; nmea_data = b; data_pos = 0; info = r.1 }

  pub handed-IsHolding :
      (f b : List ℕ) (s : Parser F D)
      → length b ≡ nmea_message_len
      → IsHolding (next_field op search (handed f b s)) []
  handed-IsHolding f b s e = record {
    tail = b;
    buffer = refl;
    position = refl;
    size = omega (arith, e);
    bytes = tt;
  }

  hand_over-ended :
      (f tail : List ℕ) (t : ℕ) (s : Parser F D)
      → All (λ b. b ≢ 0) f
      → hand_over op search (f ++ t ∷ tail) (length f) s ≡ some (handed f (f ++ 0 ∷ tail) s)
  hand_over-ended f tail t s v = rw (store_at f tail t 0, c_string-ended f tail v) refl

  -- The byte `c` goes to the place behind the field, and the field is handed over.
  ended :
      (cur tail : List ℕ) (t t' c : ℕ) (s : Parser F D)
      → All (λ b. b ≢ 0) (cur ++ c ∷ [])
      → (store (cur ++ t ∷ t' ∷ tail) (length cur) c >>= λ b.
          hand_over op search b (length cur + 1) s)
        ≡ some (handed (cur ++ c ∷ []) (cur ++ c ∷ 0 ∷ tail) s)
  ended cur tail t t' c s v = rw (store_at cur (t' ∷ tail) t c) (
      rw⁻¹ (append_one cur (t' ∷ tail) c) (
        rw⁻¹ (append_one cur (0 ∷ tail) c)
          (rw⁻¹ (length-append_one cur c) (hand_over-ended (cur ++ c ∷ []) tail t' s v))))

  pub separator-handed :
      (s : Parser F D)
      → IsHolding s []
      → (b : List ℕ) × (separator op search s ≡ some (handed (b'0' ∷ []) b s))
        × (length b ≡ nmea_message_len)
  separator-handed s v = go v.tail v.buffer v.size
    where
      go :
          (t : List ℕ)
          → s.nmea_data ≡ t
          → 0 + length t ≡ nmea_message_len
          → (b : List ℕ) × (separator op search s ≡ some (handed (b'0' ∷ []) b s))
            × (length b ≡ nmea_message_len)
      go [] e l = absurd (omega (arith, l))
      go (t ∷ []) e l = absurd (omega (arith, l))
      go (t ∷ t' ∷ tail) e l = (
        b'0' ∷ 0 ∷ tail,
        rw e (ended [] tail t t' b'0' s ((λ e. omega (arith, e)), tt)),
        omega (arith, l),
      )

  pub last_byte-handed :
      (c : ℕ) (s : Parser F D) (cur : List ℕ)
      → IsHolding s cur
      → c ≢ 0
      → length cur + 1 < nmea_message_len
      → (b : List ℕ) × (last_byte op search c s ≡ some (handed (cur ++ c ∷ []) b s))
        × (length b ≡ nmea_message_len)
  last_byte-handed c s cur v n lt = go v.tail v.buffer v.size
    where
      go :
          (t : List ℕ)
          → s.nmea_data ≡ cur ++ t
          → length cur + length t ≡ nmea_message_len
          → (b : List ℕ) × (last_byte op search c s ≡ some (handed (cur ++ c ∷ []) b s))
            × (length b ≡ nmea_message_len)
      go [] e l = absurd (omega (arith, l, lt))
      go (t ∷ []) e l = absurd (omega (arith, l, lt))
      go (t ∷ t' ∷ tail) e l = (
        cur ++ c ∷ 0 ∷ tail,
        rw (e, v.position) (ended cur tail t t' c s (All-append_one cur c v.bytes n)),
        omega (arith, l, length-append cur (c ∷ 0 ∷ tail)),
      )

  pub inner_byte-IsHolding :
      (c : ℕ) (s : Parser F D) (cur : List ℕ)
      → IsHolding s cur
      → c ≢ 0
      → length cur + 1 < nmea_message_len
      → (b : List ℕ) × (inner_byte op search c s
          ≡ some (record s { nmea_data = b; data_pos = s.data_pos + 1 }))
        × IsHolding (record s { nmea_data = b; data_pos = s.data_pos + 1 }) (cur ++ c ∷ [])
  inner_byte-IsHolding c s cur v n lt = go v.tail v.buffer v.size
    where
      go :
          (t : List ℕ)
          → s.nmea_data ≡ cur ++ t
          → length cur + length t ≡ nmea_message_len
          → (b : List ℕ) × (inner_byte op search c s
              ≡ some (record s { nmea_data = b; data_pos = s.data_pos + 1 }))
            × IsHolding (record s { nmea_data = b; data_pos = s.data_pos + 1 }) (cur ++ c ∷ [])
      go [] e l = absurd (omega (arith, l, lt))
      go (t ∷ tail) e l = (
        cur ++ c ∷ tail,
        rw (e, v.position) (rw (store_at cur tail t c) refl),
        record {
          tail = tail;
          buffer = sym (append_one cur tail c);
          position = ap (λ k. k + 1) v.position ∙ sym (length-append_one cur c);
          size = omega (arith, l, length-append_one cur c);
          bytes = All-append_one cur c v.bytes n;
        },
      )
