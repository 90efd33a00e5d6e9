-- ===== src/Sms.antt =====
-- ril/ril_ATSMS.c: SMS messages as PDUs. This file has the pieces that write bytes as text and
-- telephone numbers as semi-octets. A C string is the list of its bytes before the zero; `char` is
-- unsigned on the target.
pub mod Numbers
pub mod Septets
pub mod Unicode
pub mod Pdu
pub mod Charset
mod Tests
use cvr_video.Base.{
  take, ℕ, zero, suc, ◌+◌, ◌-◌, ◌*◌, ◌/◌, ◌%◌, List, [], ◌∷◌, ◌++◌, Bool, true, false, ◌==◌, ltb,
  leb, if◌then◌else◌,
}

abbrev pub max_phone_number : ℕ
max_phone_number = 20

-- CHAR2HEX: the subtraction is on `int`, and the mask keeps four bits of it.
unfoldable pub char_to_hex : ℕ → ℕ
char_to_hex c = if ltb b'9' c then (c + 256 - b'A' + 10) % 16 else (c + 256 - b'0') % 16

-- The loop of sms_code_number, with the number of bytes written so far: two digits to a byte, the
-- first one in the low half, and 0xF in the high half behind an odd last digit.
unfoldable pub code_pairs : ℕ → List ℕ → List ℕ
code_pairs n [] = []
code_pairs n (a ∷ []) = (char_to_hex a + 0xF0) ∷ []
code_pairs n (a ∷ b ∷ rest) =
    let more = code_pairs (n + 1) rest in
    (char_to_hex a + 16 * char_to_hex b) ∷ (if leb (max_phone_number - 1) (n + 1) then [] else more)

abbrev pub code_plain : List ℕ → List ℕ
code_plain digits = 0x91 ∷ 0x68 ∷ code_pairs 2 digits

unfoldable pub sms_code_number : List ℕ → List ℕ
sms_code_number [] = code_plain []
sms_code_number (c ∷ rest) = if c == b'+' then 0x91 ∷ code_pairs 1 rest else code_plain (c ∷ rest)

-- HEXCH
unfoldable pub hexch : ℕ → ℕ
hexch d = if ltb d 10 then b'0' + d else b'A' + (d - 10)

unfoldable pub gsm_byte2str : List ℕ → List ℕ
gsm_byte2str [] = []
gsm_byte2str (b ∷ rest) = hexch (b / 16 % 16) ∷ hexch (b % 16) ∷ gsm_byte2str rest

-- The first `n` pairs of characters changed over, in place.
unfoldable pub swap_pairs : ℕ → List ℕ → List ℕ
swap_pairs (suc n) (a ∷ b ∷ rest) = b ∷ a ∷ swap_pairs n rest
swap_pairs n text = text

-- sms_pdu_decode_number: the text that is copied out. Type 1 is a telephone number of odd length,
-- type 2 a number that stands in reading order.
unfoldable pub sms_pdu_decode_number : List ℕ → ℕ → ℕ → List ℕ
sms_pdu_decode_number src num kind =
    let count = if kind == 1 then num * 2 - 1 else num * 2 in
    take count (if kind == 2 then src else swap_pairs num src)

-- IsAsciiString
unfoldable pub is_ascii_string : List ℕ → Bool
is_ascii_string [] = true
is_ascii_string (c ∷ rest) =
    let more = is_ascii_string rest in
    if ltb c 0x20 then false else if ltb 0x7E c then false else more
