-- ===== src/Parameter/Start.antt =====
-- parameter.c: what a start finds: the settings saved last, or the default ones.
use cvr_video.Base.{
  ℕ, ◌≡◌, ◌≢◌, ◌⊎◌, refl, sym, ap, ◌∙◌, List, Bool, true, false, if◌then◌else◌, some, Bool-cases,
  Option-cases, inl, inr, arith,
}
use cvr_video.Base.Int.{ℤ, pos, negsuc, eq_ℤ}
use cvr_video.Base.Text.{c_string, same_text}
use cvr_video.Parameter.{SysParam, Settings}
use cvr_video.Parameter.Vendor.{
  Vendor, Keeps, parameter_vendor_read, parameter_vendor_write, parameter_param_write,
  parameter_param_read, parameter_flash_read, parameter_flash_write, parameter_flash_get_flashed,
  parameter_flash_clear_flashed, parameter_save,
}
use cvr_video.Parameter.Requests.{Request}
use cvr_video.Parameter.Kept.{
  serve_all, last_saved, serve_all-read, last_saved-version, save-parameter,
}
use cvr_video.Parameter.Init.{
  Build, param_version, default_param, parameter_recover, parameter_init,
}

abbrev pub is_current : SysParam → Bool
is_current p = same_text (c_string p.pararater_version) param_version

ne_one : (n : ℤ) → n ≢ pos 1 → eq_ℤ n (pos 1) ≡ false
ne_one (pos n) h = ground (arith, λ (e : n ≡ 1). h (ap pos e))
ne_one (negsuc n) h = ground arith

module _ {ℓ} {V : Type ℓ} (vendor : Vendor V) (build : Build) where
  get_flashed-storage :
      (s : Settings V)
      → ((parameter_flash_get_flashed vendor s).1.storage ≡ s.storage)
        × ((parameter_flash_get_flashed vendor s).1.parameter ≡ s.parameter)
  unfolding parameter_flash_get_flashed parameter_flash_read
  get_flashed-storage s = (ground arith, ground arith)

  get_flashed-ne :
      (s : Settings V)
      → vendor.read_flash s.storage ≢ some (pos 1)
      → eq_ℤ (parameter_flash_get_flashed vendor s).0 (pos 1) ≡ false
  unfolding parameter_flash_get_flashed parameter_flash_read parameter_vendor_read
  get_flashed-ne s n = elim (Bool-cases (vendor.opens s.storage)) [
    | inl o ↦ elim (Option-cases (vendor.read_flash s.storage)) [
      | inl e ↦ ground (arith, o, e)
      | inr (k, e) ↦ let apart = ne_one k (λ h. n (e ∙ ap some h)) in ground (arith, o, e, apart)
    ]
    | inr o ↦ ground (arith, o)
  ]

  get_flashed-one :
      (s : Settings V)
      → vendor.opens s.storage ≡ true
      → vendor.read_flash s.storage ≡ some (pos 1)
      → eq_ℤ (parameter_flash_get_flashed vendor s).0 (pos 1) ≡ true
  unfolding parameter_flash_get_flashed parameter_flash_read parameter_vendor_read
  get_flashed-one s o e = ground (arith, o, e)

  param_read_served :
      (s : Settings V) (p : SysParam)
      → vendor.opens s.storage ≡ true
      → vendor.read_param s.storage ≡ some p
      → parameter_param_read vendor s ≡ (pos 0, record s { parameter = p })
  unfolding parameter_param_read parameter_vendor_read
  param_read_served s p o e = rw (o, e) refl

  init_served :
      (r : ℕ) (s : Settings V) (p : SysParam)
      → vendor.opens s.storage ≡ true
      → vendor.read_flash s.storage ≢ some (pos 1)
      → vendor.read_param s.storage ≡ some p
      → is_current p ≡ true
      → ((parameter_init vendor build r s).0 ≡ pos 0)
        × ((parameter_init vendor build r s).1.parameter ≡ p)
        × ((parameter_init vendor build r s).1.storage ≡ s.storage)
  unfolding parameter_init
  init_served r s p o n e c =
      let (fs, fp) = get_flashed-storage s in
      let f = parameter_flash_get_flashed vendor s in
      let back = param_read_served f.1 p (rw fs o) (rw fs e) in
      rw (get_flashed-ne s n, back, c) (refl, refl, fs)

  -- After any sequence of calls that set values, without a fault, a start of the program answers 0 and
  -- finds the settings of the last call that saves and answered 0, or those that the storage had
  -- before if there is none. Here the storage keeps what is written to it, it has settings of this
  -- version before, as memory has, and at the start it opens and does not have the flag 1.
  pub parameter_init-last_saved :
      (r : ℕ) (rs : List Request) (s s' m : Settings V) (p : SysParam)
      → Keeps vendor
      → vendor.read_param s.storage ≡ some p
      → is_current p ≡ true
      → s.parameter.pararater_version ≡ p.pararater_version
      → serve_all vendor rs s ≡ some s'
      → m.storage ≡ s'.storage
      → vendor.opens m.storage ≡ true
      → vendor.read_flash m.storage ≢ some (pos 1)
      → ((parameter_init vendor build r m).0 ≡ pos 0)
        × ((parameter_init vendor build r m).1.parameter ≡ last_saved vendor rs s p)
        × ((parameter_init vendor build r m).1.storage ≡ m.storage)
  parameter_init-last_saved r rs s s' m p keeps e c v h k o n =
      let current : is_current (last_saved vendor rs s p) ≡ true =
        ap (λ w. same_text (c_string w) param_version)
          (last_saved-version vendor p.pararater_version rs s p v refl)
        ∙ c in
      init_served r m (last_saved vendor rs s p) o n
        (ap vendor.read_param k ∙ serve_all-read vendor keeps rs s p s' e h) current

  recover-IsCurrent :
      (r : ℕ) (s : Settings V) → is_current (parameter_recover vendor build r s).1.parameter ≡ true
  unfolding parameter_recover c_string same_text
  recover-IsCurrent r s =
      ap is_current (save-parameter vendor (record s { parameter = default_param build r }))

  clear_flashed-parameter :
      (s : Settings V) → (parameter_flash_clear_flashed vendor s).1.parameter ≡ s.parameter
  unfolding parameter_flash_clear_flashed parameter_flash_write
  clear_flashed-parameter s = refl

  -- The read of the settings answers 0, or -1 and -2 for a request or a device that fails.
  read_answers :
      (s : Settings V)
      → (vendor.opens s.storage ≡ false) × (parameter_param_read vendor s ≡ (negsuc 1, s))
        ⊎ (eq_ℤ (parameter_param_read vendor s).0 (negsuc 1) ≡ false)
  unfolding parameter_param_read parameter_vendor_read
  read_answers s = elim (Bool-cases (vendor.opens s.storage)) [
    | inl o ↦ elim (Option-cases (vendor.read_param s.storage)) [
      | inl e ↦ inr (ground (arith, o, e))
      | inr (p, e) ↦ inr (ground (arith, o, e))
    ]
    | inr o ↦ inl (o, rw o refl)
  ]

  -- parameter_init leaves settings of this version in memory, whatever the storage has, or the device
  -- does not open; then it answers -1 and leaves the settings in memory as they are.
  pub parameter_init-IsCurrent :
      (r : ℕ) (s : Settings V)
      → (is_current (parameter_init vendor build r s).1.parameter ≡ true)
        ⊎ ((vendor.opens s.storage ≡ false)
            × ((parameter_init vendor build r s).0 ≡ negsuc 0)
            × ((parameter_init vendor build r s).1.parameter ≡ s.parameter))
  unfolding parameter_init
  parameter_init-IsCurrent r s =
      let f = parameter_flash_get_flashed vendor s in
      let (fs, fp) = get_flashed-storage s in
      elim (Bool-cases (eq_ℤ f.0 (pos 1))) [
        | inl e ↦ rw e (
            inl (
              ap is_current (clear_flashed-parameter (parameter_recover vendor build r f.1).1)
              ∙ recover-IsCurrent r f.1))
        | inr e ↦ elim (read_answers f.1) [
          | inl (o, k) ↦ rw (e, k) (inr (ap vendor.opens (sym fs) ∙ o, refl, fp))
          | inr k ↦ elim (Bool-cases (eq_ℤ (parameter_param_read vendor f.1).0 (negsuc 0))) [
            | inl a ↦ rw (e, a) (inl (recover-IsCurrent r (parameter_param_read vendor f.1).1))
            | inr a ↦ elim (Bool-cases (is_current (parameter_param_read vendor f.1).1.parameter)) [
              | inl c ↦ rw (e, a, k, c) (inl c)
              | inr c ↦
                  rw (e, a, k, c) (inl (recover-IsCurrent r (parameter_param_read vendor f.1).1))
            ]
          ]
        ]
      ]

  recover-storage :
      (r : ℕ) (s : Settings V)
      → vendor.opens s.storage ≡ true
      → (parameter_recover vendor build r s).1.storage
        ≡ (vendor.write_param (default_param build r) s.storage).1
  unfolding parameter_recover parameter_save parameter_param_write parameter_vendor_write
  recover-storage r s o = ground (arith, o)

  clear_flashed-storage :
      (s : Settings V)
      → vendor.opens s.storage ≡ true
      → (parameter_flash_clear_flashed vendor s).1.storage
        ≡ (vendor.write_flash (pos 0) s.storage).1
  unfolding parameter_flash_clear_flashed parameter_flash_write parameter_vendor_write
  clear_flashed-storage s o = ground (arith, o)

  recover-parameter :
      (r : ℕ) (s : Settings V)
      → (parameter_recover vendor build r s).1.parameter ≡ default_param build r
  unfolding parameter_recover
  recover-parameter r s = save-parameter vendor (record s { parameter = default_param build r })

  write_param-read :
      (d p : SysParam) (v : V)
      → Keeps vendor
      → vendor.read_param v ≡ some p
      → vendor.read_param (vendor.write_param d v).1
        ≡ some (if (vendor.write_param d v).0 then d else p)
  write_param-read d p v keeps e = elim (Bool-cases (vendor.write_param d v).0) [
    | inl b ↦ rw b (keeps.written d v b)
    | inr b ↦ rw b (keeps.unwritten d v b ∙ e)
  ]

  -- After the firmware was flashed, parameter_init sets the default settings in memory and clears the
  -- flag; the storage has the default settings then if their write succeeded, and what it had if not.
  -- Here the storage keeps what is written to it, the device opens before and after the write of the
  -- settings, and the write of the flag succeeds.
  pub parameter_init_flashed :
      (r : ℕ) (s : Settings V) (p : SysParam)
      → Keeps vendor
      → vendor.opens s.storage ≡ true
      → vendor.read_flash s.storage ≡ some (pos 1)
      → vendor.read_param s.storage ≡ some p
      → vendor.opens (vendor.write_param (default_param build r) s.storage).1 ≡ true
      → (vendor.write_flash (pos 0) (vendor.write_param (default_param build r) s.storage).1).0
        ≡ true
      → ((parameter_init vendor build r s).1.parameter ≡ default_param build r)
        × (vendor.read_flash (parameter_init vendor build r s).1.storage ≡ some (pos 0))
        × (vendor.read_param (parameter_init vendor build r s).1.storage
            ≡ some (
                if (vendor.write_param (default_param build r) s.storage).0
                then default_param build r
                else p))
  unfolding parameter_init
  parameter_init_flashed r s p keeps o f e o' w =
      let (fs, fp) = get_flashed-storage s in
      let d = default_param build r in
      let t = (parameter_flash_get_flashed vendor s).1 in
      let u = (parameter_recover vendor build r t).1 in
      let there : u.storage ≡ (vendor.write_param d s.storage).1 =
        recover-storage r t (rw fs o) ∙ ap (λ v. (vendor.write_param d v).1) fs in
      let end : (parameter_flash_clear_flashed vendor u).1.storage
          ≡ (vendor.write_flash (pos 0) (vendor.write_param d s.storage).1).1 =
        clear_flashed-storage u (rw there o') ∙ ap (λ v. (vendor.write_flash (pos 0) v).1) there in
      rw (get_flashed-one s o f) (
        clear_flashed-parameter u ∙ recover-parameter r t,
        ap vendor.read_flash end ∙ keeps.flash_written (pos 0) _ w,
        ap vendor.read_param end
            ∙ keeps.param_apart (pos 0) _
            ∙ write_param-read d p s.storage keeps e,
      )
