-- ===== src/Storage/Align.antt =====
-- common.h: ALIGN rounds up to a multiple of a power of two, by a mask of the high bits.
use Prim.Native.Nat.{min, bit_and, digits, bit_and-bitwise}
use cvr_video.Base.{ℕ, zero, suc, ◌+◌, ◌-◌, ◌*◌, ◌/◌, ◌%◌, ◌^◌, ◌≤◌, ◌<◌, ◌≡◌, ap, arith}

pow_double : (k : ℕ) → 2 ^ suc k ≡ 2 ^ k + 2 ^ k
pow_double k = omega arith

pub pow_pos : (k : ℕ) → 0 < 2 ^ k
pow_pos zero = omega arith
pow_pos (suc k) = omega (arith, pow_double k, pow_pos k)

-- `r` is `x` rounded down to a multiple of 2 ^ k.
pub record IsFloor (k x r : ℕ) : Type 0 where
  pub quotient : ℕ
  pub multiple : r ≡ quotient * 2 ^ k
  pub below : r ≤ x
  pub close : x < r + 2 ^ k

pub pow_le : (k w : ℕ) → k ≤ w → 2 ^ k ≤ 2 ^ w
pow_le zero w h = pow_pos w
pow_le (suc k) zero h = absurd (omega arith)
pow_le (suc k) (suc w) h = omega (arith, pow_double k, pow_double w, pow_le k w (omega arith))

zero-IsFloor : (k : ℕ) → IsFloor k 0 0
zero-IsFloor k = record {
  quotient = 0;
  multiple = omega arith;
  below = omega arith;
  close = omega (arith, pow_pos k);
}

doubled : (q c : ℕ) → q * c * 2 ≡ q * (c + c)
doubled q c = grind arith

-- One more digit, of which the mask keeps nothing or all.
low_digit-IsFloor : (k x r : ℕ) → IsFloor k (x / 2) r → IsFloor (suc k) x (r * 2 + min (x % 2) 0)
low_digit-IsFloor k x r v = record {
  quotient = v.quotient;
  multiple =
      let h = v.multiple in
      let e = doubled v.quotient (2 ^ k) in
      omega (arith, ap (λ t. t * 2) h, e, ap (λ t. v.quotient * t) (pow_double k));
  below = let h = v.below in omega (arith, h);
  close = let h = v.close in omega (arith, h, pow_double k);
}

all_digits-IsFloor : (x r : ℕ) → IsFloor 0 (x / 2) r → IsFloor 0 x (r * 2 + min (x % 2) 1)
all_digits-IsFloor x r v =
    let h = v.below in
    let h' = v.close in
    record {
      quotient = x;
      multiple = omega (arith, h, h');
      below = omega (arith, h, h');
      close = omega (arith, h, h');
    }

abbrev and_digits : ℕ → ℕ → ℕ → ℕ
and_digits n a b = digits (λ b. 0) min n a b

mask-IsFloor :
    (n w k x : ℕ) → x ≤ n → x < 2 ^ w → k ≤ w → IsFloor k x (and_digits n x (2 ^ w - 2 ^ k))
mask-IsFloor zero w k zero h lt le = zero-IsFloor k
mask-IsFloor zero w k (suc x) h lt le = absurd (omega arith)
mask-IsFloor (suc n) w k zero h lt le = zero-IsFloor k
mask-IsFloor (suc n) zero k (suc x) h lt le = absurd (omega arith)
mask-IsFloor (suc n) (suc w) zero (suc x) h lt le =
    let p = pow_pos w in
    let half : (2 ^ suc w - 2 ^ 0) / 2 ≡ 2 ^ w - 2 ^ 0 = omega (arith, pow_double w, p) in
    let odd : (2 ^ suc w - 2 ^ 0) % 2 ≡ 1 = omega (arith, pow_double w, p) in
    rw (half, odd)
      (all_digits-IsFloor (suc x) _ (
        mask-IsFloor n w 0 (suc x / 2) (omega arith) (omega (arith, lt, pow_double w))
          (omega arith)))
mask-IsFloor (suc n) (suc w) (suc k) (suc x) h lt le =
    let p = pow_le k w (omega arith) in
    let half : (2 ^ suc w - 2 ^ suc k) / 2 ≡ 2 ^ w - 2 ^ k =
      omega (arith, pow_double w, pow_double k, p) in
    let even : (2 ^ suc w - 2 ^ suc k) % 2 ≡ 0 = omega (arith, pow_double w, pow_double k, p) in
    rw (half, even)
      (low_digit-IsFloor k (suc x) _ (
        mask-IsFloor n w k (suc x / 2) (omega arith) (omega (arith, lt, pow_double w))
          (omega arith)))

-- A word below 2 ^ w less its low k bits.
pub bit_and-IsFloor : (w k x : ℕ) → x < 2 ^ w → k ≤ w → IsFloor k x (bit_and x (2 ^ w - 2 ^ k))
bit_and-IsFloor w k x lt le =
    rw (bit_and-bitwise x (2 ^ w - 2 ^ k)) (mask-IsFloor x w k x (omega arith) lt le)
