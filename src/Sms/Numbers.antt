-- ===== src/Sms/Numbers.antt =====
-- ril/ril_ATSMS.c: telephone numbers as semi-octets and bytes as text, there and back.
use cvr_video.Base.{
  take, ℕ, ◌+◌, ◌-◌, ◌*◌, ◌/◌, ◌%◌, ◌≤◌, ◌<◌, ◌≡◌, refl, ap, ◌∙◌, List, [], ◌∷◌, false, ◌==◌,
  if◌then◌else◌, length, All, arith,
}
use cvr_video.Sms.{
  max_phone_number, char_to_hex, code_pairs, sms_code_number, hexch, gsm_byte2str, swap_pairs,
  sms_pdu_decode_number,
}

abbrev pub IsDigit : ℕ → Type 0
IsDigit c = (b'0' ≤ c) × (c ≤ b'9')

hexch-char_to_hex : (c : ℕ) → IsDigit c → (hexch (char_to_hex c) ≡ c) × (char_to_hex c < 16)
unfolding hexch char_to_hex
hexch-char_to_hex c h = ground arith

pub char_to_hex-hexch : (d : ℕ) → d < 16 → char_to_hex (hexch d) ≡ d
unfolding hexch char_to_hex
char_to_hex-hexch d h = ground arith

-- Pairs of hexadecimal characters read as bytes.
unfoldable pub read_hex : List ℕ → List ℕ
read_hex (a ∷ b ∷ rest) = (16 * char_to_hex a + char_to_hex b) ∷ read_hex rest
read_hex _ = []

-- The text of bytes has two characters to a byte, and reads back as the bytes.
pub read_hex-byte2str :
    (bs : List ℕ)
    → All (λ b. b < 256) bs
    → (read_hex (gsm_byte2str bs) ≡ bs) × (length (gsm_byte2str bs) ≡ 2 * length bs)
unfolding read_hex gsm_byte2str
read_hex-byte2str [] h = (refl, refl)
read_hex-byte2str (b ∷ bs) (h, hs) = ground (
  arith,
  char_to_hex-hexch (b / 16 % 16) (omega arith),
  char_to_hex-hexch (b % 16) (omega arith),
  read_hex-byte2str bs hs,
)

code_pairs-le : (n : ℕ) (s : List ℕ) → n ≤ 18 → n + length (code_pairs n s) ≤ 19
unfolding code_pairs
code_pairs-le n [] h = omega arith
code_pairs-le n (a ∷ []) h = omega arith
code_pairs-le n (a ∷ b ∷ rest) h = ground (arith, code_pairs-le (n + 1) rest)

-- Whatever the text, the code and the zero behind it fit the twenty bytes of a number.
pub length-code_number-lt : (s : List ℕ) → length (sms_code_number s) < max_phone_number
unfolding sms_code_number
length-code_number-lt [] = omega (arith, code_pairs-le 2 [])
length-code_number-lt (c ∷ rest) = ground (arith, code_pairs-le 1 rest, code_pairs-le 2 (c ∷ rest))

abbrev pad : List ℕ → List ℕ
pad [] = []
pad (a ∷ []) = a ∷ b'F' ∷ []
pad (a ∷ b ∷ rest) = a ∷ b ∷ pad rest

take-pad : (s : List ℕ) → take (length s) (pad s) ≡ s
take-pad [] = refl
take-pad (a ∷ []) = refl
take-pad (a ∷ b ∷ rest) = ap (λ t. a ∷ b ∷ t) (take-pad rest)

digit_pair :
    (a b : ℕ)
    → IsDigit a
    → IsDigit b
    → let v = char_to_hex a + 16 * char_to_hex b in (hexch (v / 16 % 16) ≡ b) × (hexch (v % 16) ≡ a)
digit_pair a b ha hb =
    let (ea, la) = hexch-char_to_hex a ha in
    let (eb, lb) = hexch-char_to_hex b hb in
    (ap hexch (omega arith) ∙ eb, ap hexch (omega arith) ∙ ea)

digit_last :
    (a : ℕ)
    → IsDigit a
    → let v = char_to_hex a + 0xF0 in (hexch (v / 16 % 16) ≡ b'F') × (hexch (v % 16) ≡ a)
unfolding hexch
digit_last a ha =
    let (ea, la) = hexch-char_to_hex a ha in
    (ap hexch {y = 15} (omega arith), ap hexch (omega arith) ∙ ea)

swap-code_pairs :
    (n : ℕ) (s : List ℕ)
    → All IsDigit s
    → 2 * n + length s ≤ 38
    → (swap_pairs (length (code_pairs n s)) (gsm_byte2str (code_pairs n s)) ≡ pad s)
      × (length s ≡ 2 * length (code_pairs n s) - length s % 2)
unfolding code_pairs gsm_byte2str swap_pairs
swap-code_pairs n [] hs room = (refl, omega arith)
swap-code_pairs n (a ∷ []) (ha, hs) room = let (e, f) = digit_last a ha in (rw (e, f), omega arith)
swap-code_pairs n (a ∷ b ∷ []) (ha, (hb, hs)) room =
    let (e, f) = digit_pair a b ha hb in ground (arith, e, f)
swap-code_pairs n (a ∷ b ∷ c ∷ rest) (ha, (hb, hs)) room =
    let (e, f) = digit_pair a b ha hb in
    let (g, k) = swap-code_pairs (n + 1) (c ∷ rest) hs (omega arith) in ground (arith, e, f, g, k)

abbrev pub tail : List ℕ → List ℕ
tail [] = []
tail (x ∷ xs) = xs

-- A number of up to 36 digits with a plus sign, coded, written as text and decoded, is the digits
-- again. The type of the decoding is 1 for an odd number of digits and 0 for an even one.
pub decode-code_number :
    (digits : List ℕ)
    → All IsDigit digits
    → length digits ≤ 36
    → let code = tail (sms_code_number (b'+' ∷ digits)) in
      sms_pdu_decode_number (gsm_byte2str code) (length code) (length digits % 2) ≡ digits
unfolding sms_code_number sms_pdu_decode_number
decode-code_number digits h room =
    let (swapped, count) = swap-code_pairs 1 digits h (omega arith) in
    let whole : (if length digits % 2 == 1
          then length (code_pairs 1 digits) * 2 - 1
          else length (code_pairs 1 digits) * 2)
        ≡ length digits =
      ground arith in
    let kind : (length digits % 2 == 2) ≡ false = ground arith in
    rw (whole, kind, swapped) (take-pad digits)
