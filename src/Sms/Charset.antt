-- ===== src/Sms/Charset.antt =====
-- ril/ril_ATSMS.c: the user data of a message, for ASCII text and for GB 2312 text.
use cvr_video.Base.{
  ℕ, zero, suc, ◌+◌, ◌*◌, ◌/◌, ◌%◌, ◌≤◌, ◌<◌, ◌≡◌, refl, ◌⊎◌, List, [], ◌∷◌, map, true, ◌==◌,
  if◌then◌else◌, Option, none, some, length, All, arith, inl, inr,
}
use cvr_video.Base.Int.{pos, eq_ℤ}
use cvr_video.Sms.{hexch, gsm_byte2str, is_ascii_string, char_to_hex}
use cvr_video.Sms.Numbers.{char_to_hex-hexch}
use cvr_video.Sms.Unicode.{
  signed_word, swap_word, find_row, find_back, gb2unicode_one, gb2unicode_en_cn, unicode2gb_one,
  unicode2gb_en_cn,
}
use cvr_video.Sms.Pdu.{word_bytes, user_bytes, max_words}

-- The first `n` characters in UTF-16, the high byte first.
abbrev pub wide : ℕ → List ℕ → List ℕ
wide zero cs = []
wide (suc n) [] = []
wide (suc n) (c ∷ cs) = 0 ∷ c ∷ wide n cs

-- The table has the row, and no other row with one of its two codes.
abbrev pub HasRow : ℕ → ℕ → List (ℕ × ℕ) → Type 0
HasRow gb uni [] = ⊥
HasRow gb uni ((g, u) ∷ rest) = ((g ≡ gb) × (u ≡ uni)) ⊎ HasRow gb uni rest

abbrev pub Agrees : ℕ → ℕ → List (ℕ × ℕ) → Type 0
Agrees gb uni [] = Unit {0}
Agrees gb uni ((g, u) ∷ rest) = (g ≡ gb → u ≡ uni) × (u ≡ uni → g ≡ gb) × Agrees gb uni rest

-- A character of two high bytes with its code point, which the table has.
pub record Char : Type 0 where
  pub first : ℕ
  pub second : ℕ
  pub point : ℕ

abbrev pub gb_code : Char → ℕ
gb_code c = c.first * 256 + c.second

abbrev pub source : List Char → List ℕ
source [] = []
source (c ∷ rest) = c.first ∷ c.second ∷ source rest

find_row-found :
    (gb uni : ℕ) (rows : List (ℕ × ℕ)) → Agrees gb uni rows → find_row gb (some uni) rows ≡ some uni
unfolding find_row
find_row-found gb uni [] a = refl
find_row-found gb uni ((g, u) ∷ rows) (f, b, a) = ground (arith, find_row-found gb uni rows a)

find_row-listed :
    (gb uni : ℕ) (found : Option ℕ) (rows : List (ℕ × ℕ))
    → Agrees gb uni rows
    → HasRow gb uni rows
    → find_row gb found rows ≡ some uni
unfolding find_row
find_row-listed gb uni found [] a h = absurd h
find_row-listed gb uni found ((g, u) ∷ rows) (f, b, a) (inl (e, e')) =
    ground (arith, find_row-found gb uni rows a)
find_row-listed gb uni found ((g, u) ∷ rows) (f, b, a) (inr h) =
    find_row-listed gb uni (if gb == g then some u else found) rows a h

find_back-found :
    (gb uni : ℕ) (rows : List (ℕ × ℕ))
    → uni < 0x8000
    → Agrees gb uni rows
    → find_back uni (some gb) rows ≡ some gb
unfolding find_back
find_back-found gb uni [] l a = refl
find_back-found gb uni ((g, u) ∷ rows) l (f, b, a) = ground (arith, find_back-found gb uni rows l a)

find_back-listed :
    (gb uni : ℕ) (found : Option ℕ) (rows : List (ℕ × ℕ))
    → uni < 0x8000
    → Agrees gb uni rows
    → HasRow gb uni rows
    → find_back uni found rows ≡ some gb
unfolding find_back
find_back-listed gb uni found [] l a h = absurd h
find_back-listed gb uni found ((g, u) ∷ rows) l (f, b, a) (inl (e, e')) =
    ground (arith, find_back-found gb uni rows l a)
find_back-listed gb uni found ((g, u) ∷ rows) l (f, b, a) (inr h) =
    find_back-listed gb uni (if eq_ℤ (signed_word uni) (pos u) then some g else found) rows l a h

module _ (table : List (ℕ × ℕ)) (junk : ℕ) where
  wide-words :
      (n : ℕ) (cs : List ℕ)
      → is_ascii_string cs ≡ true
      → word_bytes junk (gb2unicode_en_cn table n cs) ≡ wide n cs
  unfolding word_bytes gb2unicode_en_cn is_ascii_string swap_word
  wide-words zero cs h = refl
  wide-words (suc n) [] h = refl
  wide-words (suc zero) (a ∷ []) h = ground arith
  wide-words (suc (suc n)) (a ∷ []) h = ground arith
  wide-words (suc n) (a ∷ b ∷ cs) h = ground (arith, wide-words n (b ∷ cs))

  -- The user data of an ASCII text are its first 35 characters in UTF-16, high byte first, whatever
  -- the table and the unset variable hold.
  pub ascii_user_bytes :
      (msg : List ℕ) → is_ascii_string msg ≡ true → user_bytes table junk msg ≡ wide max_words msg
  ascii_user_bytes msg h = wide-words max_words msg h

  -- A character that survives: two bytes of the GB range, and a row of the table below U+8000.
  pub record IsKnown (c : Char) : Type 0 where
    pub page : (0xA0 ≤ c.first) × (c.first ≤ 0xF7)
    pub place : (0xA0 ≤ c.second) × (c.second < 256)
    pub low : c.point < 0x8000
    pub row : HasRow (gb_code c) c.point table
    pub alone : Agrees (gb_code c) c.point table

  word_of_known :
      (c : Char) → IsKnown c → gb2unicode_one table c.first c.second ≡ some (swap_word c.point)
  unfolding gb2unicode_one
  word_of_known c k =
      ground (arith, k.page, k.place, find_row-listed (gb_code c) c.point none table k.alone k.row)

  read_word :
      (v : ℕ)
      → v < 0x10000
      → ((char_to_hex (hexch (swap_word v % 256 / 16 % 16)) * 16
              + char_to_hex (hexch (swap_word v % 256 % 16)))
            * 256
          + (char_to_hex (hexch (swap_word v / 256 % 256 / 16 % 16)) * 16
              + char_to_hex (hexch (swap_word v / 256 % 256 % 16))))
        ≡ v
  unfolding swap_word
  read_word v h = omega (
    arith,
    char_to_hex-hexch ((v % 256 * 256 + v / 256) % 256 / 16 % 16) (omega arith),
    char_to_hex-hexch ((v % 256 * 256 + v / 256) % 256 % 16) (omega arith),
    char_to_hex-hexch ((v % 256 * 256 + v / 256) / 256 % 256 / 16 % 16) (omega arith),
    char_to_hex-hexch ((v % 256 * 256 + v / 256) / 256 % 256 % 16) (omega arith),
  )

  -- GB text of at most 35 known characters, written into a PDU in hexadecimal and read back as
  -- UniCode2GBEnCn does, gives the codes of its characters.
  pub unicode2gb-gb2unicode :
      (n : ℕ) (text : List Char)
      → length text ≤ n
      → All IsKnown text
      → unicode2gb_en_cn table
          (length text)
          (gsm_byte2str (word_bytes junk (gb2unicode_en_cn table n (source text))))
        ≡ map (λ c. some (gb_code c)) text
  unfolding unicode2gb_en_cn gb2unicode_en_cn word_bytes gsm_byte2str unicode2gb_one
  unicode2gb-gb2unicode zero [] h k = refl
  unicode2gb-gb2unicode (suc n) [] h k = refl
  unicode2gb-gb2unicode zero (c ∷ text) h k = absurd (omega arith)
  unicode2gb-gb2unicode (suc n) (c ∷ text) h (k, ks) = ground (
    arith,
    k.page,
    k.place,
    word_of_known c k,
    read_word c.point (omega (arith, k.low)),
    find_back-listed (gb_code c) c.point none table k.low k.alone k.row,
    unicode2gb-gb2unicode n text (omega arith) ks,
  )
