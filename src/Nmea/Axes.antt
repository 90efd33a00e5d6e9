-- ===== src/Nmea/Axes.antt =====
-- gps/nmea_parse.cpp: the bytes of an axis of the acceleration sensor in the track.
use cvr_video.Base.{
  ℕ, zero, suc, ◌+◌, ◌-◌, ◌/◌, ◌%◌, ◌<◌, ◌≡◌, refl, ap, ap₂, ◌∙◌, List, [], ◌∷◌, arith,
}
use cvr_video.Base.Int.{pos, negsuc, ◌+ℤ◌, sub_ℕ, quot, rem}
use cvr_video.Nmea.Track.{masked, digit_bytes, axis_digit, axis_bytes}

axis_digit-pos : (d e : ℕ) → d ≡ e → e < 10 → axis_digit (pos d) ≡ masked (e + 0x30)
unfolding ◌+ℤ◌
axis_digit-pos d e q h = ap masked (ground arith)

axis_digit-neg : (d e : ℕ) → d ≡ e → e < 10 → axis_digit (sub_ℕ 0 d) ≡ masked (0x30 - e)
unfolding ◌+ℤ◌
axis_digit-neg zero e q h = ap (λ e. masked (0x30 - e)) q
axis_digit-neg (suc d) e q h = ap masked (ground arith)

sub_ℕ_negsuc : (m : ℕ) → sub_ℕ 0 (suc m) ≡ negsuc m
sub_ℕ_negsuc m = ground arith

rem_neg : (m k : ℕ) → 0 % k ≡ 0 → rem (sub_ℕ 0 m) k ≡ sub_ℕ 0 (m % k)
rem_neg zero k h = rw (h) refl
rem_neg (suc m) k h = ap (λ x. rem x k) (sub_ℕ_negsuc m)

quot_neg : (m k : ℕ) → 0 / k ≡ 0 → quot (sub_ℕ 0 m) k ≡ sub_ℕ 0 (m / k)
quot_neg zero k h = rw (h) refl
quot_neg (suc m) k h = ap (λ x. quot x k) (sub_ℕ_negsuc m)

-- A sign and three bytes.
abbrev sign_and : ℕ → ℕ → ℕ → ℕ → List ℕ
sign_and s a b c = s ∷ a ∷ b ∷ c ∷ []

same_bytes :
    (s : ℕ) {a a' b b' c c' : ℕ} → a ≡ a' → b ≡ b' → c ≡ c' → sign_and s a b c ≡ sign_and s a' b' c'
same_bytes s e f g = ap₂ (λ a r. s ∷ a ∷ r) e (ap₂ (λ b c. b ∷ c ∷ []) f g)

-- An axis of less than ten million, in steps of ten thousand: the bytes of one that is not negative
-- are 0x81 and its three digits, masked. Those of a negative one are 0x87, and in place of each digit
-- the byte as far below '0' as the digit of its magnitude says, masked.
pub axis_bytes-digits :
    (m : ℕ)
    → suc m < 10000000
    → (axis_bytes (pos m) ≡ 0x81 ∷ digit_bytes 3 (m / 10000))
      × (axis_bytes (negsuc m)
          ≡ 0x87
            ∷ masked (0x30 - suc m / 1000000)
            ∷ masked (0x30 - suc m / 100000 % 10)
            ∷ masked (0x30 - suc m / 10000 % 10)
            ∷ [])
unfolding axis_bytes digit_bytes
axis_bytes-digits m h = (
  same_bytes 0x81 (axis_digit-pos _ _ (omega arith) (omega arith))
      (axis_digit-pos _ _ (omega arith) (omega arith))
      (axis_digit-pos _ _ (omega arith) (omega arith)),
  same_bytes 0x87 (axis_digit-neg _ _ refl (omega arith))
      (ap axis_digit (quot_neg (suc m % 1000000) 100000 refl)
        ∙ axis_digit-neg _ _ (omega arith) (omega arith))
      (ap (λ r. axis_digit (quot r 10000)) (rem_neg (suc m % 1000000) 100000 refl)
        ∙ ap axis_digit (quot_neg (suc m % 1000000 % 100000) 10000 refl)
        ∙ axis_digit-neg _ _ (omega arith) (omega arith)),
)
