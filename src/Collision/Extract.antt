-- ===== src/Collision/Extract.antt =====
-- collision/collision_algorithm.c, fre_extract: the features of a frame of ten samples. `none` is an
-- index out of bounds.
use cvr_video.Base.{
  ℕ, zero, suc, ◌+◌, ◌-◌, List, [], ◌∷◌, ◌++◌, Bool, true, false, ltb, if◌then◌else◌, Option, some,
  get_elem?, map, drop, ◌>>=◌,
}
use cvr_video.Base.Int.{ℤ, pos, negsuc}
use cvr_video.Gsensor.Axes.{Axis}
use cvr_video.Collision.{Floats, Feature, Window}

-- COL_M, COL_N, COL_FRAME
abbrev pub col_m : ℕ
col_m = 30

abbrev pub col_n : ℕ
col_n = 20

abbrev pub col_frame : ℕ
col_frame = 10

-- The millionths of `fir_coef`.
abbrev pub fir_millionths : List ℤ
fir_millionths =
    negsuc 10722
    ∷ negsuc 31767
    ∷ negsuc 44993
    ∷ negsuc 42404
    ∷ negsuc 19298
    ∷ pos 23748
    ∷ pos 80370
    ∷ pos 139643
    ∷ pos 188796
    ∷ pos 216632
    ∷ pos 216632
    ∷ pos 188796
    ∷ pos 139643
    ∷ pos 80370
    ∷ pos 23748
    ∷ negsuc 19298
    ∷ negsuc 42404
    ∷ negsuc 44993
    ∷ negsuc 31767
    ∷ negsuc 10722
    ∷ []

module _ {ℓ} {F D : Type ℓ} (op : Floats F D) where
  abbrev pub fir_coef : List F
  fir_coef = map (λ n. op.narrow (op.literal n 6)) fir_millionths

  -- The old window less its first third, and the new samples behind it.
  abbrev pub shift_in : List F → List F → List F
  shift_in old new = drop 10 old ++ new

  abbrev pub sum_from : F → List F → F
  sum_from acc [] = acc
  sum_from acc (x ∷ xs) = sum_from (op.add acc x) xs

  abbrev pub mean : ℤ → List F → F
  mean n xs = op.div (sum_from (op.of_int (pos 0)) xs) (op.of_int n)

  abbrev pub remove_mean : List F → List F
  remove_mean xs = map (λ v. op.sub v (mean (pos 30) xs)) xs

  -- COL_G
  abbrev pub col_g : D
  col_g = op.literal (pos 98) 1

  abbrev pub magnitude : F → F → F → F
  magnitude x y z =
      op.narrow (
        op.ddiv (op.sqrt (op.widen (op.add (op.add (op.mul x x) (op.mul y y)) (op.mul z z)))) col_g)

  abbrev pub magnitudes : List F → List F → List F → List F
  magnitudes (x ∷ xs) (y ∷ ys) (z ∷ zs) = magnitude x y z ∷ magnitudes xs ys zs
  magnitudes _ _ _ = []

  -- One round of the filter's inner loop: `n` and the index `k` = m + COL_N / 2 of the coefficient.
  -- Below zero the output y or z is reset, and the others keep their value.
  abbrev pub fir_round : Bool → List F → ℕ → ℕ → F → Option F
  fir_round resets signal n k acc =
      if ltb (n + 10) k
      then some (if resets then op.of_int (pos 0) else op.add acc (op.of_int (pos 0)))
      else (get_elem? signal (n + 10 - k) >>= λ s.
          get_elem? fir_coef k >>= λ c. some (op.add acc (op.mul s c)))

  unfoldable pub fir_loop : Bool → List F → ℕ → ℕ → ℕ → F → Option F
  fir_loop resets signal n k zero acc = some acc
  fir_loop resets signal n k (suc rounds) acc =
      fir_round resets signal n k acc >>= fir_loop resets signal n (k + 1) rounds

  -- The outer loop from `n` on.
  unfoldable pub fir_from : Bool → List F → ℕ → ℕ → Option (List F)
  fir_from resets signal n zero = some []
  fir_from resets signal n (suc rounds) =
      fir_loop resets signal n 0 col_n (op.of_int (pos 0)) >>= λ v.
      fir_from resets signal (n + 1) rounds >>= λ more. some (v ∷ more)

  abbrev pub fir_filter : Bool → List F → Option (List F)
  fir_filter resets signal = fir_from resets signal 10 col_frame

  abbrev pub hypotenuse : F → F → D
  hypotenuse a b = op.sqrt (op.widen (op.add (op.mul a a) (op.mul b b)))

  -- atan(...) * 180 / COL_PI
  abbrev pub degrees : D → F
  degrees t =
      op.narrow
        (op.ddiv (op.dmul (op.atan t) (op.literal (pos 180) 0)) (op.literal (pos 31415926) 7))

  abbrev pub angle_x_of : Axis F → F
  angle_x_of s = degrees (op.ddiv (op.widen s.x) (hypotenuse s.y s.z))

  abbrev pub angle_y_of : Axis F → F
  angle_y_of s = degrees (op.ddiv (op.widen s.y) (hypotenuse s.x s.z))

  abbrev pub angle_z_of : Axis F → F
  angle_z_of s = degrees (op.ddiv (hypotenuse s.x s.y) (op.widen s.z))

  abbrev pub squared_distances : F → List F → List F
  squared_distances avg xs = map (λ v. op.mul (op.sub v avg) (op.sub v avg)) xs

  abbrev pub features : List (Axis F) → List F → Feature F
  features frame smv_f =
      let avg = mean (pos 10) smv_f in
      record {
        smv_avg = avg;
        smv_sigma = mean (pos 9) (squared_distances avg smv_f);
        angle_x = mean (pos 10) (map angle_x_of frame);
        angle_y = mean (pos 10) (map angle_y_of frame);
        angle_z = op.narrow (op.fabs (op.widen (mean (pos 10) (map angle_z_of frame))));
      }

  abbrev pub next_window : Window F → List (Axis F) → Window F
  next_window w frame = record {
    a_x = remove_mean (shift_in w.a_x (map (λ s. s.x) frame));
    a_y = remove_mean (shift_in w.a_y (map (λ s. s.y) frame));
    a_z = remove_mean (shift_in w.a_z (map (λ s. s.z) frame));
  }

  -- The new window, the filtered samples `data_out`, axis by axis, and the features.
  unfoldable pub fre_extract :
      Window F → List (Axis F) → Option (Window F × (List F × (List F × List F)) × Feature F)
  fre_extract w frame =
      let v = next_window w frame in
      fir_filter false (magnitudes v.a_x v.a_y v.a_z) >>= λ smv_f.
      fir_filter false v.a_x >>= λ out_x. fir_filter true v.a_y >>= λ out_y.
      fir_filter true v.a_z >>= λ out_z. some (v, (out_x, (out_y, out_z)), features frame smv_f)
