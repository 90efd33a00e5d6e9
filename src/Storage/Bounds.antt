-- ===== src/Storage/Bounds.antt =====
-- storage/storage.c: the size of the files of recordings is their bytes, rounded up.
use Prim.Native.Nat.{bit_and}
use cvr_video.Base.{
  ℕ, zero, suc, ◌+◌, ◌-◌, ◌*◌, ◌/◌, ◌%◌, ◌^◌, ◌≤◌, ◌<◌, ◌≡◌, refl, ap, ◌∙◌, true, if◌then◌else◌,
  none, some, arith,
}
use cvr_video.Base.Int.{ℤ, pos, negsuc, eq_ℤ}
use cvr_video.Parameter.{SysParam, VideoParam}
use cvr_video.Storage.Align.{bit_and-IsFloor, pow_pos, pow_le}
use cvr_video.Storage.Sizes.{
  VideoType, FileType, video_file, picture, lock_file, thumb, other_file, Limits, colli_cache_time,
  word, as_word, as_int, align, stream_size, resolution_of, size_of, storage_get_filesize, is_sized,
}

align-bit_and :
    (value k : ℕ)
    → k < 32
    → value + 2 ^ k ≤ 2 ^ 32
    → align value (2 ^ k) ≡ bit_and (value + (2 ^ k - 1)) (2 ^ 32 - 2 ^ k)
unfolding align
align-bit_and value k h fits =
    let p = pow_pos k in
    let q = pow_le k 31 (omega arith) in
    let low : (2 ^ k + 2 ^ 32 - 1) % 2 ^ 32 ≡ 2 ^ k - 1 = omega (arith, p, q) in
    let sum : (value + (2 ^ k - 1)) % 2 ^ 32 ≡ value + (2 ^ k - 1) = omega (arith, p, fits) in
    let mask : 2 ^ 32 - 1 - (2 ^ k - 1) ≡ 2 ^ 32 - 2 ^ k = omega (arith, p, q) in
    rw (low, sum, mask) refl

-- What ALIGN gives: the next multiple of the power of two.
align-multiple :
    (value k : ℕ)
    → k < 32
    → value + 2 ^ k ≤ 2 ^ 31
    → (q : ℕ) × (align value (2 ^ k) ≡ q * 2 ^ k)
      × (value ≤ q * 2 ^ k)
      × (q * 2 ^ k < value + 2 ^ k)
align-multiple value k h fits =
    let p = pow_pos k in
    let v = bit_and-IsFloor 32 k (value + (2 ^ k - 1)) (omega (arith, p, fits)) (omega arith) in
    let e = align-bit_and value k h (omega (arith, fits)) in
    let b = v.below in
    let c = v.close in
    let m = v.multiple in (v.quotient, e ∙ m, omega (arith, b, c, m, p), omega (arith, b, c, m, p))

le_product : (a s : ℕ) → 0 < s → a ≤ a * s
le_product a zero h = absurd (omega arith)
le_product a (suc s) h = grind arith

stream_size-exact :
    (v : VideoParam) (rate s : ℕ)
    → v.height * v.width < 2 ^ 32
    → 0 < s
    → v.height * v.width / 8 * rate * s < 2 ^ 32
    → stream_size v rate s ≡ v.height * v.width / 8 * rate * s
stream_size-exact v rate s a p b =
    let le = le_product (v.height * v.width / 8 * rate) s p in
    let e : word (v.height * v.width) ≡ v.height * v.width = omega (arith, a) in
    let e' : word (v.height * v.width / 8 * rate) ≡ v.height * v.width / 8 * rate =
      omega (arith, le, b) in
    rw (e, e') (omega (arith, b))

-- The seconds that a file is for.
abbrev pub seconds_of : Limits → FileType → ℕ → ℕ
seconds_of l lock_file s = if l.cache_in_memory then colli_cache_time else s
seconds_of l _ s = s

as_int-small : (n : ℕ) → n < 2 ^ 31 → as_int n ≡ pos n
as_int-small n h = ground (arith, h)

with_time :
    {A : Type 0} (n : ℤ) (s : ℕ) (x y : A) → n ≡ pos s → (if eq_ℤ n (negsuc 0) then x else y) ≡ y
with_time n s x y e = rw e (ground arith)

as_word-small : (n : ℤ) (s : ℕ) → n ≡ pos s → s < 2 ^ 31 → as_word n ≡ s
as_word-small n s e h = rw e (omega (arith, h))

seconds_of-pos : (l : Limits) (f : FileType) (s : ℕ) → 0 < s → 0 < seconds_of l f s
seconds_of-pos l video_file s h = h
seconds_of-pos l picture s h = h
seconds_of-pos l lock_file s h = ground (arith, h)
seconds_of-pos l thumb s h = h
seconds_of-pos l other_file s h = h

size_of-recording :
    (l : Limits) (p : SysParam) (t : VideoType) (v : VideoParam) (f : FileType) (s : ℕ)
    → is_sized f ≡ true
    → as_word p.recodetime ≡ s
    → size_of l p t v f
      ≡ some
          (as_int (align (stream_size v p.bit_rate_per_pixel (seconds_of l f s)) (l.sizealign t f)))
size_of-recording l p t v video_file s sized e =
    ap
      (λ n. some (as_int (align (stream_size v p.bit_rate_per_pixel n) (l.sizealign t video_file))))
      e
size_of-recording l p t v picture s sized e = absurd (cc)
size_of-recording l p t v lock_file s sized e =
    ap
      (λ n. some (
        as_int (
          align
            (stream_size v p.bit_rate_per_pixel (if l.cache_in_memory then colli_cache_time else n))
            (l.sizealign t lock_file))))
      e
size_of-recording l p t v thumb s sized e = absurd (cc)
size_of-recording l p t v other_file s sized e = absurd (cc)

filesize_of_camera :
    (l : Limits) (p : SysParam) (t : VideoType) (v : VideoParam) (f : FileType) (s : ℕ)
    → resolution_of p t ≡ some v
    → p.recodetime ≡ pos s
    → storage_get_filesize l p t f ≡ size_of l p t v f
unfolding storage_get_filesize
filesize_of_camera l p t v f s r time =
    ap
      (λ o. elim o [
        | none ↦ some (pos 0)
        | some w ↦ if eq_ℤ p.recodetime (negsuc 0) then some (pos 0) else size_of l p t w f
      ])
      r
    ∙ with_time p.recodetime s (some (pos 0)) (size_of l p t v f) time

-- The size of a file for a recording is the number of its bytes, rounded up to a multiple of what the
-- file system wants. Here the path is for one of the cameras, the file is a video or a locked one, the
-- time of a recording is above 0 and below 2 ^ 31 seconds, the file system wants a power of two below
-- 2 ^ 32, the pixels of a picture are fewer than 2 ^ 32, and the bytes and that power are at most
-- 2 ^ 31.
pub storage_get_filesize_bounds :
    (l : Limits) (p : SysParam) (t : VideoType) (v : VideoParam) (f : FileType) (s k : ℕ)
    → resolution_of p t ≡ some v
    → is_sized f ≡ true
    → p.recodetime ≡ pos s
    → 0 < s
    → s < 2 ^ 31
    → l.sizealign t f ≡ 2 ^ k
    → k < 32
    → v.height * v.width < 2 ^ 32
    → v.height * v.width / 8 * p.bit_rate_per_pixel * seconds_of l f s + 2 ^ k ≤ 2 ^ 31
    → (q : ℕ) × (storage_get_filesize l p t f ≡ some (pos (q * 2 ^ k)))
      × (v.height * v.width / 8 * p.bit_rate_per_pixel * seconds_of l f s ≤ q * 2 ^ k)
      × (q * 2 ^ k < v.height * v.width / 8 * p.bit_rate_per_pixel * seconds_of l f s + 2 ^ k)
storage_get_filesize_bounds l p t v f s k r sized time some_time small wants power pixels fits =
    let n = seconds_of l f s in
    let need = v.height * v.width / 8 * p.bit_rate_per_pixel * n in
    let (q, e, lo, hi) = align-multiple need k power fits in
    let exact =
      stream_size-exact v p.bit_rate_per_pixel n pixels (seconds_of-pos l f s some_time)
        (omega (arith, fits, pow_pos k)) in
    (
      q,
      filesize_of_camera l p t v f s r time
          ∙ size_of-recording l p t v f s sized (as_word-small p.recodetime s time small)
          ∙ ap (λ a. some (as_int (align (stream_size v p.bit_rate_per_pixel n) a))) wants
          ∙ ap (λ a. some (as_int (align a (2 ^ k)))) exact
          ∙ ap (λ a. some (as_int a)) e
          ∙ ap some (as_int-small (q * 2 ^ k) (omega (arith, hi, fits))),
      lo,
      hi,
    )
