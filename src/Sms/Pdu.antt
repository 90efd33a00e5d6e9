-- ===== src/Sms/Pdu.antt =====
-- ril/ril_ATSMS.c: building the PDU of a message and the two AT commands that send it.
use cvr_video.Base.{
  take, ℕ, ◌+◌, ◌-◌, ◌*◌, ◌/◌, ◌%◌, ◌≤◌, ◌<◌, ◌≡◌, refl, List, [], ◌∷◌, ◌++◌, Option, none, some,
  length, length-append, arith,
}
use cvr_video.Base.Int.{ℤ, pos, negsuc}
use cvr_video.Sms.{max_phone_number, code_pairs, sms_code_number, gsm_byte2str, char_to_hex}
use cvr_video.Sms.Numbers.{length-code_number-lt}
use cvr_video.Sms.Unicode.{gb2unicode_en_cn, length-gb2unicode-le}

-- gSmsCenter, which nothing changes
abbrev pub sms_center : List ℕ
sms_center =
    b'+' ∷ b'8' ∷ b'6' ∷ b'1' ∷ b'3' ∷ b'0' ∷ b'1' ∷ b'0' ∷ b'3' ∷ b'8' ∷ b'0' ∷ b'5' ∷ b'0' ∷ b'0'
    ∷ []

-- SMS_HZ_SIZE bytes hold this many words.
abbrev pub max_words : ℕ
max_words = 35

-- MAX_SMS_LENGTH
abbrev pub max_sms_length : ℕ
max_sms_length = 400

-- The bytes of words in memory, on a little-endian machine; a variable that was never set holds
-- some value, `junk`.
unfoldable pub word_bytes : ℕ → List (Option ℕ) → List ℕ
word_bytes junk [] = []
word_bytes junk (none ∷ rest) = junk % 256 ∷ junk / 256 % 256 ∷ word_bytes junk rest
word_bytes junk (some v ∷ rest) = v % 256 ∷ v / 256 % 256 ∷ word_bytes junk rest

-- The service centre's part, up to its own length byte.
unfoldable pub center_bytes : List ℕ → List ℕ
center_bytes [] = 0 ∷ []
center_bytes (c ∷ rest) =
    let code = sms_code_number (take max_phone_number (c ∷ rest)) in length code % 256 ∷ code

unfoldable pub message_bytes : List ℕ → List ℕ → List ℕ
message_bytes address user =
    0x11
    ∷ 0x00
    ∷ 0x0D
    ∷ (sms_code_number address ++ (0x00 ∷ 0x08 ∷ 0x00 ∷ length user % 256 ∷ user))

-- What AT_SmsSendTo gives back: its value, the number in the text of `strcmd_len` and the text of
-- `strcmd_pdu`, where they are written.
pub record Commands : Type 0 where
  pub ret : ℤ
  pub announced : Option ℤ
  pub pdu : Option (List ℕ)

abbrev pub refused : Commands
refused = record { ret = negsuc 0; announced = none; pdu = none }

module _ (table : List (ℕ × ℕ)) (junk : ℕ) where
  abbrev pub user_bytes : List ℕ → List ℕ
  user_bytes msg = word_bytes junk (gb2unicode_en_cn table max_words msg)

  unfoldable pub octets : List ℕ → List ℕ → List ℕ → List ℕ
  octets center address msg = center_bytes center ++ message_bytes address (user_bytes msg)

  -- The length that is returned, and the text; `none` is the value -1.
  unfoldable pub sms_pdu_encode : List ℕ → List ℕ → List ℕ → Option (ℕ × List ℕ)
  sms_pdu_encode center [] msg = none
  sms_pdu_encode center (a ∷ address) msg =
      let all = octets center (a ∷ address) msg in
      some (length all - length (center_bytes center), gsm_byte2str all ++ 0x1A ∷ [])

  abbrev pub commands_of : Option (ℕ × List ℕ) → Commands
  commands_of none = record { ret = negsuc 0; announced = some (negsuc 0); pdu = none }
  commands_of (some (len, text)) = record {
    ret = pos 0;
    announced = some (pos len);
    pdu = some text;
  }

  unfoldable pub at_send_sms : List ℕ → List ℕ → Commands
  at_send_sms address msg = commands_of (sms_pdu_encode sms_center address msg)

  unfoldable pub at_sms_send_to : Option (List ℕ) → Option (List ℕ) → Commands
  at_sms_send_to (some (w ∷ who)) (some (m ∷ msg)) =
      at_send_sms (take (max_phone_number - 1) (w ∷ who)) (take max_sms_length (m ∷ msg))
  at_sms_send_to _ _ = refused

  length-word_bytes : (ws : List (Option ℕ)) → length (word_bytes junk ws) ≡ 2 * length ws
  unfolding word_bytes
  length-word_bytes [] = refl
  length-word_bytes (none ∷ ws) = omega (arith, length-word_bytes ws)
  length-word_bytes (some v ∷ ws) = omega (arith, length-word_bytes ws)

  length-user_bytes-le : (msg : List ℕ) → length (user_bytes msg) ≤ 70
  length-user_bytes-le msg = omega (
    arith,
    length-word_bytes (gb2unicode_en_cn table max_words msg),
    length-gb2unicode-le table max_words msg,
  )

  length-message_bytes :
      (address user : List ℕ)
      → length (message_bytes address user) ≡ 7 + length (sms_code_number address) + length user
  unfolding message_bytes
  length-message_bytes address user = omega (
    arith,
    length-append (sms_code_number address) (0x00 ∷ 0x08 ∷ 0x00 ∷ length user % 256 ∷ user),
  )

  length-center : length (center_bytes sms_center) ≡ 9
  unfolding center_bytes sms_code_number code_pairs char_to_hex
  length-center = refl

  -- For a recipient and a text that are not empty both commands are written. The PDU is the octets of
  -- the service centre and the message in hexadecimal, closed by a control-Z; the announced length
  -- counts the octets of the message alone; and with the closing zero everything fits the buffers of
  -- 440 bytes and 648 characters.
  pub send_announces :
      (w : ℕ) (who : List ℕ) (m : ℕ) (msg : List ℕ)
      → let all = octets sms_center (take 19 (w ∷ who)) (take 400 (m ∷ msg)) in
        let r = at_sms_send_to (some (w ∷ who)) (some (m ∷ msg)) in
        (r.ret ≡ pos 0)
        × (r.pdu ≡ some (gsm_byte2str all ++ 0x1A ∷ []))
        × (r.announced ≡ some (pos (length all - 9)))
        × (9 < length all)
        × (length all < 440)
        × (2 * length all + 1 < 648)
  unfolding at_sms_send_to at_send_sms sms_pdu_encode octets
  send_announces w who m msg =
      let address = take 19 (w ∷ who) in
      let user = user_bytes (take 400 (m ∷ msg)) in
      let split = length-append (center_bytes sms_center) (message_bytes address user) in
      (
        refl,
        refl,
        rw length-center,
        omega (arith, split, length-center, length-message_bytes address user),
        omega (
          arith,
          split,
          length-center,
          length-message_bytes address user,
          length-code_number-lt address,
          length-user_bytes-le (take 400 (m ∷ msg)),
        ),
        omega (
          arith,
          split,
          length-center,
          length-message_bytes address user,
          length-code_number-lt address,
          length-user_bytes-le (take 400 (m ∷ msg)),
        ),
      )
