-- ===== src/Nmea/Dates.antt =====
-- gps/nmea_parse.cpp: the masked digits of the track, and the text of the date in it.
use cvr_video.Base.{
  ℕ, zero, suc, ◌+◌, ◌-◌, ◌*◌, ◌/◌, ◌%◌, ◌^◌, ◌≤◌, ◌<◌, ◌≡◌, refl, ap, ap₂, ◌∙◌, List, [], ◌∷◌,
  ◌++◌, true, false, some, length, replicate, map, length-append, arith, Bool-cases, leb,
  if◌then◌else◌, none, ==_iff, inl, inr, ◌==◌,
}
use cvr_video.Base.Int.{ℤ, pos, negsuc}
use cvr_video.Nmea.{DateTime}
use cvr_video.Nmea.Track.{masked, decimal, print_int, print_wide, date_text, date_bytes}

-- The number of masked digits, with what stands before them.
abbrev pub number_from : ℕ → List ℕ → ℕ
number_from n [] = n
number_from n (b ∷ bytes) = number_from (n * 10 + (masked b - 0x30)) bytes

pub unmask_digit : (d : ℕ) → d < 10 → masked (masked (d + 0x30)) - 0x30 ≡ d
unmask_digit zero h = refl
unmask_digit (suc zero) h = refl
unmask_digit (suc (suc zero)) h = refl
unmask_digit (suc (suc (suc zero))) h = refl
unmask_digit (suc (suc (suc (suc zero)))) h = refl
unmask_digit (suc (suc (suc (suc (suc zero))))) h = refl
unmask_digit (suc (suc (suc (suc (suc (suc zero)))))) h = refl
unmask_digit (suc (suc (suc (suc (suc (suc (suc zero))))))) h = refl
unmask_digit (suc (suc (suc (suc (suc (suc (suc (suc zero)))))))) h = refl
unmask_digit (suc (suc (suc (suc (suc (suc (suc (suc (suc zero))))))))) h = refl
unmask_digit (suc (suc (suc (suc (suc (suc (suc (suc (suc (suc d)))))))))) h = absurd (omega arith)

pub number_from-append :
    (n : ℕ) (bytes : List ℕ) (b : ℕ)
    → number_from n (bytes ++ b ∷ []) ≡ number_from n bytes * 10 + (masked b - 0x30)
number_from-append n [] b = refl
number_from-append n (c ∷ bytes) b = number_from-append (n * 10 + (masked c - 0x30)) bytes b

-- A number that is not negative and less than `n`.
abbrev IsBelow : ℕ → ℤ → Type 0
IsBelow n (pos m) = m < n
IsBelow n (negsuc m) = zero ≡ 1

-- A year of four digits, and two digits for each other part.
unfoldable pub FitsText : DateTime → Type 0
FitsText d =
    IsBelow 10000 d.years
    × IsBelow 100 d.months
    × IsBelow 100 d.day
    × IsBelow 100 d.hour
    × IsBelow 100 d.min
    × IsBelow 100 d.sec

length-decimal : (k w n : ℕ) → n < 10 ^ suc w → length (decimal k n) ≤ suc w
unfolding decimal
length-decimal zero w n h = omega arith
length-decimal (suc k) zero n h = ground arith
length-decimal (suc k) (suc w) n h = ground (
  arith,
  length-decimal k w (n / 10) (omega arith),
  length-append (decimal k (n / 10)) ((n % 10 + b'0') ∷ []),
)

length-replicate : (n b : ℕ) → length (replicate n b) ≡ n
length-replicate zero b = refl
length-replicate (suc n) b = ap suc (length-replicate n b)

length-print_wide : (w : ℕ) (x : ℤ) → IsBelow (10 ^ suc w) x → length (print_wide (suc w) x) ≡ suc w
unfolding print_wide print_int
length-print_wide w (pos n) h =
    length-append (replicate (suc w - length (decimal 10 n)) b' ') (decimal 10 n)
    ∙ omega (arith, length-decimal 10 w n h, length-replicate (suc w - length (decimal 10 n)) b' ')
length-print_wide w (negsuc n) h = absurd (omega arith)

length-map : (f : ℕ → ℕ) (xs : List ℕ) → length (map f xs) ≡ length xs
length-map f [] = refl
length-map f (x ∷ xs) = ap suc (length-map f xs)

length-date_text : (d : DateTime) → FitsText d → length (date_text d) ≡ 14
unfolding FitsText date_text
length-date_text d (hy, hm, hd, hh, hi, hs) =
    length-append (print_wide 4 d.years) _
    ∙ ap₂ (◌+◌) (length-print_wide 3 d.years hy) (
        length-append (print_wide 2 d.months) _
        ∙ ap₂ (◌+◌) (length-print_wide 1 d.months hm) (
            length-append (print_wide 2 d.day) _
            ∙ ap₂ (◌+◌) (length-print_wide 1 d.day hd) (
                length-append (print_wide 2 d.hour) _
                ∙ ap₂ (◌+◌) (length-print_wide 1 d.hour hh) (
                    length-append (print_wide 2 d.min) _
                    ∙ ap₂ (◌+◌) (length-print_wide 1 d.min hi) (length-print_wide 1 d.sec hs)))))

date_bytes-length :
    (d : DateTime)
    → FitsText d
    → (times : List ℕ) × (date_bytes d ≡ some times) × (length times ≡ 14)
unfolding date_bytes
date_bytes-length d h =
    let e = length-date_text d h in
    (
      map masked (date_text d ++ replicate (14 - length (date_text d)) 0),
      ground (arith, e),
      length-map masked _
          ∙ length-append (date_text d) (replicate (14 - length (date_text d)) 0)
          ∙ omega (arith, e, length-replicate (14 - length (date_text d)) 0),
    )

number_from-spaces :
    (k : ℕ) (bytes : List ℕ)
    → number_from 0 (map masked (replicate k b' ' ++ bytes)) ≡ number_from 0 (map masked bytes)
number_from-spaces zero bytes = refl
number_from-spaces (suc k) bytes = number_from-spaces k bytes

map-append : (f : ℕ → ℕ) (xs ys : List ℕ) → map f (xs ++ ys) ≡ map f xs ++ map f ys
map-append f [] ys = refl
map-append f (x ∷ xs) ys = ap (λ r. f x ∷ r) (map-append f xs ys)

decimal_last : (k n : ℕ) → (n / 10 == 0) ≡ true → decimal (suc k) n ≡ (n % 10 + b'0') ∷ []
unfolding decimal
decimal_last k n e = ground (arith, e)

decimal_more :
    (k n : ℕ)
    → (n / 10 == 0) ≡ false
    → decimal (suc k) n ≡ decimal k (n / 10) ++ (n % 10 + b'0') ∷ []
unfolding decimal
decimal_more k n e = ground (arith, e)

number_from-decimal : (k n : ℕ) → n < 10 ^ k → number_from 0 (map masked (decimal k n)) ≡ n
unfolding decimal
number_from-decimal zero n h = omega arith
number_from-decimal (suc k) n h = elim (Bool-cases (n / 10 == 0)) [
  | inl e ↦
      ap (λ t. number_from 0 (map masked t)) (decimal_last k n e)
      ∙ omega (arith, unmask_digit (n % 10) (omega arith), (==_iff _ _).0 e)
  | inr e ↦
      ap (λ t. number_from 0 (map masked t)) (decimal_more k n e)
      ∙ ap (number_from 0) (map-append masked (decimal k (n / 10)) ((n % 10 + b'0') ∷ []))
      ∙ number_from-append 0 (map masked (decimal k (n / 10))) (masked (n % 10 + b'0'))
      ∙ omega
          (arith, number_from-decimal k (n / 10) (omega arith), unmask_digit (n % 10) (omega arith))
]

-- Bytes that are a number, masked and to a width.
abbrev Reads : ℕ → ℤ → List ℕ → Type 0
Reads w x bytes = (length bytes ≡ w) × (pos (number_from 0 bytes) ≡ x)

print_wide-Reads :
    (w : ℕ) (x : ℤ)
    → 10 ^ suc w ≤ 10 ^ 10
    → IsBelow (10 ^ suc w) x
    → Reads (suc w) x (map masked (print_wide (suc w) x))
unfolding print_wide print_int
print_wide-Reads w (pos n) b h = (
  length-map masked _ ∙ length-print_wide w (pos n) h,
  ap pos (
      number_from-spaces (suc w - length (decimal 10 n)) (decimal 10 n)
      ∙ number_from-decimal 10 n (omega arith)),
)
print_wide-Reads w (negsuc n) b h = absurd (omega arith)

-- The bytes are the parts of a date, in order: the year in four bytes, and month, day, hour, minute
-- and second in two each.
pub record SaysDate (d : DateTime) (times : List ℕ) : Type 0 where
  pub year : List ℕ
  pub month : List ℕ
  pub day : List ℕ
  pub hour : List ℕ
  pub minute : List ℕ
  pub second : List ℕ
  pub parts : times ≡ year ++ (month ++ (day ++ (hour ++ (minute ++ second))))
  pub years : Reads 4 d.years year
  pub months : Reads 2 d.months month
  pub days : Reads 2 d.day day
  pub hours : Reads 2 d.hour hour
  pub minutes : Reads 2 d.min minute
  pub seconds : Reads 2 d.sec second

masked_text-parts :
    (d : DateTime)
    → map masked (date_text d)
      ≡ map masked (print_wide 4 d.years)
        ++ (map masked (print_wide 2 d.months)
            ++ (map masked (print_wide 2 d.day)
                ++ (map masked (print_wide 2 d.hour)
                    ++ (map masked (print_wide 2 d.min) ++ map masked (print_wide 2 d.sec)))))
unfolding date_text
masked_text-parts d =
    let f = map-append masked in
    f (print_wide 4 d.years) _
    ∙ ap (λ r. map masked (print_wide 4 d.years) ++ r)
        (f (print_wide 2 d.months) _
          ∙ ap (λ r. map masked (print_wide 2 d.months) ++ r)
              (f (print_wide 2 d.day) _
                ∙ ap (λ r. map masked (print_wide 2 d.day) ++ r)
                    (f (print_wide 2 d.hour) _
                      ∙ ap (λ r. map masked (print_wide 2 d.hour) ++ r)
                          (f (print_wide 2 d.min) _))))

append-nil : (xs : List ℕ) → xs ++ [] ≡ xs
append-nil [] = refl
append-nil (x ∷ xs) = ap (λ r. x ∷ r) (append-nil xs)

pub date_bytes-SaysDate :
    (d : DateTime) → FitsText d → (times : List ℕ) × (date_bytes d ≡ some times) × SaysDate d times
unfolding date_bytes FitsText
date_bytes-SaysDate d (hy, hm, hd, hh, hi, hs) =
    let e = length-date_text d (unfold FitsText in (hy, hm, hd, hh, hi, hs)) in
    (
      map masked (date_text d),
      ap (λ n. if leb n 14 then some (map masked (date_text d ++ replicate (14 - n) 0)) else none) e
          ∙ ap (λ t. some (map masked t)) (append-nil (date_text d)),
      record {
        year = map masked (print_wide 4 d.years);
        month = map masked (print_wide 2 d.months);
        day = map masked (print_wide 2 d.day);
        hour = map masked (print_wide 2 d.hour);
        minute = map masked (print_wide 2 d.min);
        second = map masked (print_wide 2 d.sec);
        parts = masked_text-parts d;
        years = print_wide-Reads 3 d.years (omega arith) hy;
        months = print_wide-Reads 1 d.months (omega arith) hm;
        days = print_wide-Reads 1 d.day (omega arith) hd;
        hours = print_wide-Reads 1 d.hour (omega arith) hh;
        minutes = print_wide-Reads 1 d.min (omega arith) hi;
        seconds = print_wide-Reads 1 d.sec (omega arith) hs;
      },
    )
