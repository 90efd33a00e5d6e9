-- ===== src/Collision/Convolution.antt =====
-- collision/collision_algorithm.c, fre_extract: its filter as a convolution, without an index out of
-- bounds.
use mathlib.Core.List.{reverse, reverse-cons}
use cvr_video.Base.{
  ℕ, zero, suc, ◌+◌, ◌-◌, ◌≤◌, ◌<◌, ◌≡◌, refl, sym, ap, ◌∙◌, List, [], ◌∷◌, ◌++◌, Bool, true, false,
  ltb, some, get_elem?, map, drop, length, length-append, arith,
}
use cvr_video.Base.Int.{pos}
use cvr_video.Gsensor.Axes.{Axis}
use cvr_video.Collision.{Floats, Window}
use cvr_video.Collision.Extract.{
  fir_coef, fir_loop, fir_from, shift_in, remove_mean, mean, magnitudes, next_window, features,
  fre_extract,
}

get_elem?-append_left {ℓ} :
    {A : Type ℓ} (xs ys : List A) (i : ℕ) → i < length xs → get_elem? (xs ++ ys) i ≡ get_elem? xs i
get_elem?-append_left [] ys i h = elim h [ ]
get_elem?-append_left (x ∷ xs) ys zero h = refl
get_elem?-append_left (x ∷ xs) ys (suc i) h = get_elem?-append_left xs ys i (omega arith)

get_elem?-append_at {ℓ} :
    {A : Type ℓ} (xs : List A) (y : A) → get_elem? (xs ++ y ∷ []) (length xs) ≡ some y
get_elem?-append_at [] y = refl
get_elem?-append_at (x ∷ xs) y = get_elem?-append_at xs y

length-reverse {ℓ} : {A : Type ℓ} (xs : List A) → length (reverse xs) ≡ length xs
length-reverse [] = refl
length-reverse (x ∷ xs) =
    rw (reverse-cons x xs) (omega (arith, length-append (reverse xs) (x ∷ []), length-reverse xs))

get_elem?-reverse {ℓ} :
    {A : Type ℓ} (xs : List A) (i j : ℕ)
    → i + j + 1 ≡ length xs
    → get_elem? (reverse xs) i ≡ get_elem? xs j
get_elem?-reverse [] i j e = absurd (omega arith)
get_elem?-reverse (x ∷ xs) i zero e =
    let at_end : i ≡ length (reverse xs) = omega (arith, length-reverse xs) in
    rw (reverse-cons x xs, at_end) (get_elem?-append_at (reverse xs) x)
get_elem?-reverse (x ∷ xs) i (suc j) e =
    rw (reverse-cons x xs)
      (get_elem?-append_left (reverse xs) (x ∷ []) i (omega (arith, length-reverse xs)))
    ∙ get_elem?-reverse xs i j (omega arith)

drop-get_elem? {ℓ} :
    {A : Type ℓ} (i : ℕ) (xs : List A)
    → i < length xs
    → (x : A) × (get_elem? xs i ≡ some x) × (drop i xs ≡ x ∷ drop (suc i) xs)
drop-get_elem? i [] h = absurd (omega arith)
drop-get_elem? zero (x ∷ xs) h = (x, refl, refl)
drop-get_elem? (suc i) (x ∷ xs) h = let (y, g, d) = drop-get_elem? i xs (omega arith) in (y, g, d)

length-drop {ℓ} : {A : Type ℓ} (n : ℕ) (xs : List A) → length (drop n xs) ≡ length xs - n
length-drop zero xs = omega arith
length-drop (suc n) [] = omega arith
length-drop (suc n) (x ∷ xs) = omega (arith, length-drop n xs)

length-map {ℓ κ} :
    {A : Type ℓ} {B : Type κ} (f : A → B) (xs : List A) → length (map f xs) ≡ length xs
length-map f [] = refl
length-map f (x ∷ xs) = ap suc (length-map f xs)

module _ {ℓ} {F D : Type ℓ} (op : Floats F D) where
  -- The sum of the products, from the left.
  abbrev pub dot : F → List F → List F → F
  dot acc (s ∷ signal) (c ∷ coefs) = dot (op.add acc (op.mul s c)) signal coefs
  dot acc _ _ = acc

  dot-nil : (acc : F) (signal : List F) → dot acc signal [] ≡ acc
  dot-nil acc [] = refl
  dot-nil acc (s ∷ signal) = refl

  -- The outputs from `n` on: the coefficients meet the samples from n + 10 down.
  abbrev pub convolve : List F → ℕ → ℕ → List F
  convolve signal n zero = []
  convolve signal n (suc rounds) =
      dot (op.of_int (pos 0)) (drop (19 - n) (reverse signal)) (fir_coef op)
      ∷ convolve signal (n + 1) rounds

  fir_loop-dot :
      (resets : Bool) (signal : List F) (n k rounds d : ℕ) (acc : F)
      → length signal ≡ 30
      → 10 ≤ n
      → n ≤ 19
      → d + n ≡ 19 + k
      → k + rounds ≡ 20
      → fir_loop op resets signal n k rounds acc
        ≡ some (dot acc (drop d (reverse signal)) (drop k (fir_coef op)))
  unfolding fir_loop
  fir_loop-dot resets signal n k zero d acc size low top e r =
      let all : k ≡ 20 = omega arith in
      rw all (sym (ap some (dot-nil acc (drop d (reverse signal)))))
  fir_loop-dot resets signal n k (suc rounds) d acc size low top e r =
      let (s, got, ds) = drop-get_elem? d (reverse signal) (omega (arith, length-reverse signal)) in
      let (c, coef, dc) = drop-get_elem? k (fir_coef op) (omega arith) in
      let step : suc k ≡ k + 1 = omega arith in
      let dc' : drop k (fir_coef op) ≡ c ∷ drop (k + 1) (fir_coef op) =
        dc ∙ ap (λ j. c ∷ drop j (fir_coef op)) step in
      let same : get_elem? signal (n + 10 - k) ≡ some s =
        sym (get_elem?-reverse signal d (n + 10 - k) (omega arith)) ∙ got in
      let inside : ltb (n + 10) k ≡ false = ground arith in
      rw (inside, same, coef, ds, dc')
        (fir_loop-dot resets signal n (k + 1) rounds (suc d) (op.add acc (op.mul s c)) size low top
          (omega arith) (omega arith))

  fir_from-convolve :
      (resets : Bool) (signal : List F) (n rounds : ℕ)
      → length signal ≡ 30
      → 10 ≤ n
      → n + rounds ≤ 20
      → fir_from op resets signal n rounds ≡ some (convolve signal n rounds)
  unfolding fir_from
  fir_from-convolve resets signal n zero size low top = refl
  fir_from-convolve resets signal n (suc rounds) size low top =
      rw
        (fir_loop-dot resets signal n 0 20 (19 - n) (op.of_int (pos 0)) size low (omega arith)
          (omega arith) (omega arith))
        (rw (fir_from-convolve resets signal (n + 1) rounds size (omega arith) (omega arith)))

  length-shift_in :
      (old : List F) (new : List F)
      → length old ≡ 30
      → length new ≡ 10
      → length (shift_in op old new) ≡ 30
  length-shift_in old new o n = omega (arith, length-append (drop 10 old) new, length-drop 10 old)

  length-magnitudes :
      (xs ys zs : List F)
      → length xs ≡ length ys
      → length xs ≡ length zs
      → length (magnitudes op xs ys zs) ≡ length xs
  length-magnitudes [] [] [] e f = refl
  length-magnitudes [] (y ∷ ys) zs e f = absurd (omega arith)
  length-magnitudes [] [] (z ∷ zs) e f = absurd (omega arith)
  length-magnitudes (x ∷ xs) [] zs e f = absurd (omega arith)
  length-magnitudes (x ∷ xs) (y ∷ ys) [] e f = absurd (omega arith)
  length-magnitudes (x ∷ xs) (y ∷ ys) (z ∷ zs) e f =
      omega (arith, length-magnitudes xs ys zs (omega arith) (omega arith))

  pub record IsFull (w : Window F) : Type 0 where
    pub full_x : length w.a_x ≡ 30
    pub full_y : length w.a_y ≡ 30
    pub full_z : length w.a_z ≡ 30

  length-axis :
      (old : List F) (frame : List (Axis F)) (f : Axis F → F)
      → length old ≡ 30
      → length frame ≡ 10
      → length (remove_mean op (shift_in op old (map f frame))) ≡ 30
  length-axis old frame f o n =
      length-map (λ v. op.sub v (mean op (pos 30) (shift_in op old (map f frame))))
        (shift_in op old (map f frame))
      ∙ length-shift_in old (map f frame) o (length-map f frame ∙ n)

  next_window-IsFull :
      (w : Window F) (frame : List (Axis F))
      → IsFull w
      → length frame ≡ 10
      → IsFull (next_window op w frame)
  next_window-IsFull w frame v n = record {
    full_x = length-axis w.a_x frame (λ s. s.x) v.full_x n;
    full_y = length-axis w.a_y frame (λ s. s.y) v.full_y n;
    full_z = length-axis w.a_z frame (λ s. s.z) v.full_z n;
  }

  -- On windows of 30 samples and a frame of ten no index leaves its array, the windows keep their
  -- size, and every filtered signal is the convolution of the new window with the coefficients: its
  -- ten outputs take the twenty samples around their place, the newest first.
  pub fre_extract-convolve :
      (w : Window F) (frame : List (Axis F))
      → IsFull w
      → length frame ≡ 10
      → let v = next_window op w frame in
        let filtered = λ (signal : List F). convolve signal 10 10 in
        (fre_extract op w frame
          ≡ some (
            v,
            (filtered v.a_x, (filtered v.a_y, filtered v.a_z)),
            features op frame (filtered (magnitudes op v.a_x v.a_y v.a_z)),
          ))
        × IsFull v
  unfolding fre_extract
  fre_extract-convolve w frame full n =
      let v = next_window op w frame in
      let g = next_window-IsFull w frame full n in
      let size =
        length-magnitudes v.a_x v.a_y v.a_z (omega (arith, g.full_x, g.full_y))
          (omega (arith, g.full_x, g.full_z)) in
      (
        rw
            (fir_from-convolve false (magnitudes op v.a_x v.a_y v.a_z) 10 10 (size ∙ g.full_x)
              (omega arith) (omega arith))
            (rw (fir_from-convolve false v.a_x 10 10 g.full_x (omega arith) (omega arith)) (
              rw (fir_from-convolve true v.a_y 10 10 g.full_y (omega arith) (omega arith))
                (rw (fir_from-convolve true v.a_z 10 10 g.full_z (omega arith) (omega arith))))),
        g,
      )
