-- ===== src/Sms/Unicode.antt =====
-- ril/ril_ATSMS.c: GB 2312 text to UCS-2 and back, over the table of ril_GB2Utable.h, which is a
-- parameter: pairs of a GB code and a Unicode code point. A WORD is its sixteen bits. `none` is the
-- local variable that no row of the table has set.
use cvr_video.Base.{
  ℕ, zero, suc, ◌+◌, ◌-◌, ◌*◌, ◌/◌, ◌%◌, ◌≤◌, ◌≡◌, refl, List, [], ◌∷◌, Bool, true, false, ◌==◌,
  ◌&&◌, ◌||◌, ltb, leb, if◌then◌else◌, Option, none, some, get_elem?, length, arith,
}
use cvr_video.Base.Int.{ℤ, pos, negsuc, eq_ℤ}
use cvr_video.Sms.{char_to_hex}

unfoldable pub swap_word : ℕ → ℕ
swap_word v = v % 256 * 256 + v / 256

abbrev pub map_option : {A B : Type 0} → (A → B) → Option A → Option B
map_option f none = none
map_option f (some a) = some (f a)

-- A byte with its top bit set.
abbrev pub is_high : ℕ → Bool
is_high c = leb 0x80 c

abbrev pub high_at : List ℕ → Bool
high_at [] = false
high_at (c ∷ rest) = is_high c

-- A WORD is a `short`: it is compared with a table entry as a signed number.
abbrev pub signed_word : ℕ → ℤ
signed_word v = if ltb v 0x8000 then pos v else negsuc (0x10000 - v - 1)

-- The last row with the key sets the variable.
unfoldable pub find_row : ℕ → Option ℕ → List (ℕ × ℕ) → Option ℕ
find_row key found [] = found
find_row key found ((gb, uni) ∷ rest) = find_row key (if key == gb then some uni else found) rest

-- The search the other way, by a signed key.
unfoldable pub find_back : ℕ → Option ℕ → List (ℕ × ℕ) → Option ℕ
find_back key found [] = found
find_back key found ((gb, uni) ∷ rest) =
    find_back key (if eq_ℤ (signed_word key) (pos uni) then some gb else found) rest

find_back-high :
    (key : ℕ) (found : Option ℕ) (rows : List (ℕ × ℕ))
    → 0x8000 ≤ key
    → find_back key found rows ≡ found
unfolding find_back
find_back-high key found [] h = refl
find_back-high key found ((gb, uni) ∷ rows) h = ground (arith, find_back-high key found rows h)

module _ (table : List (ℕ × ℕ)) where
  unfoldable pub gb2unicode_one : ℕ → ℕ → Option ℕ
  gb2unicode_one page npos =
      if ltb page 0xA0 || (ltb 0xF7 page || ltb npos 0xA0)
      then some 0xA1A1
      else map_option swap_word (find_row (page * 256 + npos) none table)

  abbrev pub row_unicode : Option (ℕ × ℕ) → Option ℕ
  row_unicode none = none
  row_unicode (some (gb, uni)) = some uni

  unfoldable pub gb2unicode_one_en : ℕ → Option ℕ
  gb2unicode_one_en page =
      if leb 0x21 page && leb page 0x7E
      then map_option swap_word (row_unicode (get_elem? table (page + (0xA6 - 0x21))))
      else some 0xA1A1

  -- GB2UniCodeEnCn: at most `room` words; `room` is half of its `num`, rounded up.
  unfoldable pub gb2unicode_en_cn : ℕ → List ℕ → List (Option ℕ)
  gb2unicode_en_cn zero src = []
  gb2unicode_en_cn (suc room) [] = []
  gb2unicode_en_cn (suc room) (a ∷ []) = some (swap_word a) ∷ []
  gb2unicode_en_cn (suc room) (a ∷ b ∷ rest) = elim (is_high a && is_high b) [
    | true ↦ gb2unicode_one a b ∷ gb2unicode_en_cn room rest
    | false ↦ some (swap_word a) ∷ gb2unicode_en_cn room (b ∷ rest)
  ]

  unfoldable pub unicode2gb_one : ℕ → Option ℕ
  unicode2gb_one page = find_back page none table

  -- UniCode2GBEnCn: four characters to a code; `quads` counts the rounds of the loop. A code stands
  -- for the two bytes of it that are written; the zero behind the last one is left out.
  unfoldable pub unicode2gb_en_cn : ℕ → List ℕ → List (Option ℕ)
  unicode2gb_en_cn (suc quads) (a ∷ b ∷ c ∷ d ∷ rest) =
      let code =
        (char_to_hex a * 16 + char_to_hex b) * 256 + (char_to_hex c * 16 + char_to_hex d) in
      unicode2gb_one code ∷ unicode2gb_en_cn quads rest
  unicode2gb_en_cn quads src = []

  pub length-gb2unicode-le : (room : ℕ) (src : List ℕ) → length (gb2unicode_en_cn room src) ≤ room
  unfolding gb2unicode_en_cn
  length-gb2unicode-le zero src = omega arith
  length-gb2unicode-le (suc room) [] = omega arith
  length-gb2unicode-le (suc room) (a ∷ []) = omega arith
  length-gb2unicode-le (suc room) (a ∷ b ∷ rest) =
      ground (arith, length-gb2unicode-le room rest, length-gb2unicode-le room (b ∷ rest))

  -- No character from U+8000 on is ever found on the way back, whatever the table has: the word is
  -- negative where the table's entry is not, and the result is the variable that was never set.
  pub unicode2gb_high : (v : ℕ) → 0x8000 ≤ v → unicode2gb_one v ≡ none
  unfolding unicode2gb_one
  unicode2gb_high v h = find_back-high v none table h
