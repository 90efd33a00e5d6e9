-- ===== src/Sms/Tests.antt =====
-- SMS coding on concrete numbers and texts.
use cvr_video.Base.{
  ℕ, ◌+◌, ◌-◌, ◌*◌, ◌<◌, ◌≡◌, refl, inl, inr, List, [], ◌∷◌, ◌++◌, some, length, All, arith,
}
use cvr_video.Base.Int.{pos}
use cvr_video.Sms.{gsm_byte2str}
use cvr_video.Sms.Septets.{value, gsm_encode_7bit, gsm_encode_7bit-Packs}
use cvr_video.Sms.Unicode.{unicode2gb_en_cn, gb2unicode_en_cn}
use cvr_video.Sms.Pdu.{word_bytes, octets, sms_center, at_sms_send_to, send_announces}
use cvr_video.Sms.Charset.{Char, IsKnown, unicode2gb-gb2unicode}

abbrev digits : List ℕ
digits = b'8' ∷ b'6' ∷ b'1' ∷ b'3' ∷ b'9' ∷ []

gsm_encode_7bit-Packs_example :
    (value 256 (gsm_encode_7bit (b'h' ∷ b'i' ∷ [])) ≡ value 128 (b'h' ∷ b'i' ∷ []))
    × (length (gsm_encode_7bit (b'h' ∷ b'i' ∷ [])) ≡ 2)
    × All (λ b. b < 256) (gsm_encode_7bit (b'h' ∷ b'i' ∷ []))
gsm_encode_7bit-Packs_example = gsm_encode_7bit-Packs (b'h' ∷ b'i' ∷ []) (omega arith)

abbrev table : List (ℕ × ℕ)
table = (0xA1A1, 0x3000) ∷ (0xB0A1, 0x554A) ∷ (0xF7FE, 0x9F44) ∷ []

send_announces_example :
    let all = octets table 0 sms_center (b'1' ∷ b'0' ∷ []) (b'o' ∷ b'k' ∷ []) in
    let r = at_sms_send_to table 0 (some (b'1' ∷ b'0' ∷ [])) (some (b'o' ∷ b'k' ∷ [])) in
    (r.ret ≡ pos 0)
    × (r.pdu ≡ some (gsm_byte2str all ++ 0x1A ∷ []))
    × (r.announced ≡ some (pos (length all - 9)))
    × (9 < length all)
    × (length all < 440)
    × (2 * length all + 1 < 648)
send_announces_example = send_announces table 0 b'1' (b'0' ∷ []) b'o' (b'k' ∷ [])

abbrev known : Char
known = record { first = 0xB0; second = 0xA1; point = 0x554A }

known-IsKnown : IsKnown table 0 known
known-IsKnown = record {
  page = omega arith;
  place = omega arith;
  low = omega arith;
  row = inr (inl (refl, refl));
  alone = omega arith;
}

unicode2gb-gb2unicode_example :
    unicode2gb_en_cn table 2
      (gsm_byte2str (word_bytes 0 (gb2unicode_en_cn table 35 (0xB0 ∷ 0xA1 ∷ 0xB0 ∷ 0xA1 ∷ []))))
    ≡ some 0xB0A1 ∷ some 0xB0A1 ∷ []
unicode2gb-gb2unicode_example =
    unicode2gb-gb2unicode table 0 35 (known ∷ known ∷ []) (omega arith)
      (known-IsKnown, (known-IsKnown, tt))
