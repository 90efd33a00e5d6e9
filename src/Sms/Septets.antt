-- ===== src/Sms/Septets.antt =====
-- ril/ril_ATSMS.c, GSM_Encode7bit: characters of seven bits packed into bytes.
use Prim.Native.Nat.{bit_or}
use cvr_video.Base.{
  ℕ, zero, suc, ◌+◌, ◌-◌, ◌*◌, ◌/◌, ◌%◌, ◌^◌, ◌≤◌, ◌<◌, ◌≡◌, refl, List, [], ◌∷◌, Bool, true, false,
  not, ◌==◌, if◌then◌else◌, length, All, arith,
}

-- The loop, with `nChar` and `nLeft`.
unfoldable pub encode_loop : ℕ → ℕ → List ℕ → List ℕ
encode_loop n left [] = if not (n == 8) then left ∷ [] else []
encode_loop n left (c ∷ cs) = elim (n % 8 == 0) [
  | true ↦ encode_loop 1 c cs
  | false ↦ bit_or (c * 2 ^ (8 - n % 8) % 256) left ∷ encode_loop (n % 8 + 1) (c / 2 ^ (n % 8)) cs
]

unfoldable pub gsm_encode_7bit : List ℕ → List ℕ
gsm_encode_7bit src = encode_loop 0 0 src

-- A list as a number: its elements are digits in base `b`, the lowest first.
unfoldable pub value : ℕ → List ℕ → ℕ
value b [] = 0
value b (x ∷ xs) = x + b * value b xs

-- Whether every byte below `count` is what its two parts at bit `k` join to.
bytes_join : ℕ → ℕ → Bool
bytes_join k zero = true
bytes_join k (suc v) = elim (bit_or (v / 2 ^ k * 2 ^ k) (v % 2 ^ k) == v) [
  | true ↦ bytes_join k v
  | false ↦ false
]

join_of_bytes :
    (k count v : ℕ)
    → v < count
    → bytes_join k count ≡ true
    → bit_or (v / 2 ^ k * 2 ^ k) (v % 2 ^ k) ≡ v
unfolding bytes_join
join_of_bytes k zero v lt h = elim lt [ ]
join_of_bytes k (suc last) v lt h = ground (arith, join_of_bytes k last v)

joins_table : (k : ℕ) → k < 8 → bytes_join k 256 ≡ true
unfolding bytes_join
joins_table zero h = refl
joins_table (suc zero) h = refl
joins_table (suc (suc zero)) h = refl
joins_table (suc (suc (suc zero))) h = refl
joins_table (suc (suc (suc (suc zero)))) h = refl
joins_table (suc (suc (suc (suc (suc zero))))) h = refl
joins_table (suc (suc (suc (suc (suc (suc zero)))))) h = refl
joins_table (suc (suc (suc (suc (suc (suc (suc zero))))))) h = refl
joins_table (suc (suc (suc (suc (suc (suc (suc (suc n)))))))) h = absurd (omega arith)

or_split : (k x l v : ℕ) → k < 8 → v < 256 → v / 2 ^ k * 2 ^ k ≡ x → v % 2 ^ k ≡ l → bit_or x l ≡ v
or_split k x l v hk hv hx hl = rw (← hx, ← hl) (join_of_bytes k 256 v hv (joins_table k hk))

-- The bytes `out` hold `bits` bits, those of the number `v`.
abbrev Holds : List ℕ → ℕ → ℕ → Type 0
Holds out bits v = (value 256 out ≡ v) × (length out ≡ (bits + 7) / 8) × All (λ b. b < 256) out

-- From a state with `n` characters of the group of eight done, `left` holding 8 - n bits.
encode_loop-Holds :
    (n left : ℕ) (cs : List ℕ)
    → All (λ c. c < 128) cs
    → 1 ≤ n
    → n ≤ 8
    → left < 2 ^ (8 - n)
    → Holds (encode_loop n left cs) (8 - n + 7 * length cs) (left + 2 ^ (8 - n) * value 128 cs)
unfolding encode_loop value
encode_loop-Holds zero left cs hs lo hi room = absurd (omega arith)
encode_loop-Holds (suc zero) left [] hs lo hi room = omega arith
encode_loop-Holds (suc zero) left (c ∷ cs) (h, hs) lo hi room =
    let byte =
      or_split 7 (c * 128 % 256) left (c * 128 % 256 + left) (omega arith) (omega arith)
        (omega arith) (omega arith) in
    let (a, b, d) = encode_loop-Holds 2 (c / 2) cs hs (omega arith) (omega arith) (omega arith) in
    (omega (arith, byte), omega arith, (omega (arith, byte), d))
encode_loop-Holds (suc (suc zero)) left [] hs lo hi room = omega arith
encode_loop-Holds (suc (suc zero)) left (c ∷ cs) (h, hs) lo hi room =
    let byte =
      or_split 6 (c * 64 % 256) left (c * 64 % 256 + left) (omega arith) (omega arith) (omega arith)
        (omega arith) in
    let (a, b, d) = encode_loop-Holds 3 (c / 4) cs hs (omega arith) (omega arith) (omega arith) in
    (omega (arith, byte), omega arith, (omega (arith, byte), d))
encode_loop-Holds (suc (suc (suc zero))) left [] hs lo hi room = omega arith
encode_loop-Holds (suc (suc (suc zero))) left (c ∷ cs) (h, hs) lo hi room =
    let byte =
      or_split 5 (c * 32 % 256) left (c * 32 % 256 + left) (omega arith) (omega arith) (omega arith)
        (omega arith) in
    let (a, b, d) = encode_loop-Holds 4 (c / 8) cs hs (omega arith) (omega arith) (omega arith) in
    (omega (arith, byte), omega arith, (omega (arith, byte), d))
encode_loop-Holds (suc (suc (suc (suc zero)))) left [] hs lo hi room = omega arith
encode_loop-Holds (suc (suc (suc (suc zero)))) left (c ∷ cs) (h, hs) lo hi room =
    let byte =
      or_split 4 (c * 16 % 256) left (c * 16 % 256 + left) (omega arith) (omega arith) (omega arith)
        (omega arith) in
    let (a, b, d) = encode_loop-Holds 5 (c / 16) cs hs (omega arith) (omega arith) (omega arith) in
    (omega (arith, byte), omega arith, (omega (arith, byte), d))
encode_loop-Holds (suc (suc (suc (suc (suc zero))))) left [] hs lo hi room = omega arith
encode_loop-Holds (suc (suc (suc (suc (suc zero))))) left (c ∷ cs) (h, hs) lo hi room =
    let byte =
      or_split 3 (c * 8 % 256) left (c * 8 % 256 + left) (omega arith) (omega arith) (omega arith)
        (omega arith) in
    let (a, b, d) = encode_loop-Holds 6 (c / 32) cs hs (omega arith) (omega arith) (omega arith) in
    (omega (arith, byte), omega arith, (omega (arith, byte), d))
encode_loop-Holds (suc (suc (suc (suc (suc (suc zero)))))) left [] hs lo hi room = omega arith
encode_loop-Holds (suc (suc (suc (suc (suc (suc zero)))))) left (c ∷ cs) (h, hs) lo hi room =
    let byte =
      or_split 2 (c * 4 % 256) left (c * 4 % 256 + left) (omega arith) (omega arith) (omega arith)
        (omega arith) in
    let (a, b, d) = encode_loop-Holds 7 (c / 64) cs hs (omega arith) (omega arith) (omega arith) in
    (omega (arith, byte), omega arith, (omega (arith, byte), d))
encode_loop-Holds (suc (suc (suc (suc (suc (suc (suc zero))))))) left [] hs lo hi room = omega arith
encode_loop-Holds (suc (suc (suc (suc (suc (suc (suc zero))))))) left (c ∷ cs) (h, hs) lo hi room =
    let byte =
      or_split 1 (c * 2 % 256) left (c * 2 % 256 + left) (omega arith) (omega arith) (omega arith)
        (omega arith) in
    let (a, b, d) = encode_loop-Holds 8 (c / 128) cs hs (omega arith) (omega arith) (omega arith) in
    (omega (arith, byte), omega arith, (omega (arith, byte), d))
encode_loop-Holds (suc (suc (suc (suc (suc (suc (suc (suc zero)))))))) left [] hs lo hi room =
    omega arith
encode_loop-Holds (suc (suc (suc (suc (suc (suc (suc (suc zero)))))))) left (c ∷ cs) (h, hs) lo hi
      room =
    let (a, b, d) = encode_loop-Holds 1 c cs hs (omega arith) (omega arith) (omega arith) in
    (omega arith, omega arith, d)
encode_loop-Holds (suc (suc (suc (suc (suc (suc (suc (suc (suc n))))))))) left cs hs lo hi room =
    absurd (omega arith)

-- Characters of seven bits are packed without a gap, the first one lowest: as a number in base 256
-- the bytes are the characters as a number in base 128. There are as many bytes as seven bits for
-- each character fill, and one for the empty text.
pub gsm_encode_7bit-Packs :
    (cs : List ℕ)
    → All (λ c. c < 128) cs
    → let out = gsm_encode_7bit cs in
      (value 256 out ≡ value 128 cs)
      × (length out ≡ (if length cs == 0 then 1 else (7 * length cs + 7) / 8))
      × All (λ b. b < 256) out
unfolding gsm_encode_7bit encode_loop value
gsm_encode_7bit-Packs [] hs = (omega arith, refl, omega arith)
gsm_encode_7bit-Packs (c ∷ cs) (h, hs) =
    let (a, b, d) = encode_loop-Holds 1 c cs hs (omega arith) (omega arith) (omega arith) in
    (omega arith, ground arith, d)
