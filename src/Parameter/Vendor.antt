-- ===== src/Parameter/Vendor.antt =====
-- parameter.c: reading and writing the vendor storage, and saving the settings.
use cvr_video.Base.{◌≡◌, Bool, true, false, if◌then◌else◌, Option, none, some}
use cvr_video.Base.Int.{ℤ, pos, negsuc, ltb_ℤ}
use cvr_video.Parameter.{SysParam, Settings}

-- The driver of /dev/vendor_storage: whether the device opens, and the two requests on the cells of
-- the settings and of the flag. `none` and `false` are a request that fails. A cell has the bytes
-- of a struct, which stand for its value.
pub record Vendor {ℓ} (V : Type ℓ) : Type ℓ where
  pub opens : V → Bool
  pub read_param : V → Option SysParam
  pub write_param : SysParam → V → Bool × V
  pub read_flash : V → Option ℤ
  pub write_flash : ℤ → V → Bool × V

-- What the driver promises: a cell has what was last written to it, and cells are apart.
pub record Keeps {ℓ} {V : Type ℓ} (vendor : Vendor V) : Type ℓ where
  pub written :
      (p : SysParam) (v : V)
      → (vendor.write_param p v).0 ≡ true
      → vendor.read_param (vendor.write_param p v).1 ≡ some p
  pub unwritten :
      (p : SysParam) (v : V)
      → (vendor.write_param p v).0 ≡ false
      → vendor.read_param (vendor.write_param p v).1 ≡ vendor.read_param v
  pub flash_written :
      (n : ℤ) (v : V)
      → (vendor.write_flash n v).0 ≡ true
      → vendor.read_flash (vendor.write_flash n v).1 ≡ some n
  pub param_apart :
      (n : ℤ) (v : V) → vendor.read_param (vendor.write_flash n v).1 ≡ vendor.read_param v

-- parameter_vendor_read: the value, and the buffer afterwards.
unfoldable pub parameter_vendor_read {ℓ} : {A : Type ℓ} → Bool → Option A → A → ℤ × A
parameter_vendor_read false cell buffer = (negsuc 1, buffer)
parameter_vendor_read true none buffer = (negsuc 0, buffer)
parameter_vendor_read true (some a) buffer = (pos 0, a)

-- parameter_vendor_write, with the outcome of the request.
unfoldable pub parameter_vendor_write {ℓ} : {V : Type ℓ} → Bool → Bool × V → V → ℤ × V
parameter_vendor_write false outcome v = (negsuc 0, v)
parameter_vendor_write true (false, v') v = (negsuc 0, v')
parameter_vendor_write true (true, v') v = (pos 0, v')

module _ {ℓ} {V : Type ℓ} (vendor : Vendor V) where
  unfoldable pub parameter_param_write : Settings V → ℤ × Settings V
  parameter_param_write s =
      let r =
        parameter_vendor_write (vendor.opens s.storage) (vendor.write_param s.parameter s.storage)
          s.storage in
      (r.0, record s { storage = r.1 })

  unfoldable pub parameter_param_read : Settings V → ℤ × Settings V
  parameter_param_read s =
      let r =
        parameter_vendor_read (vendor.opens s.storage) (vendor.read_param s.storage) s.parameter in
      (r.0, record s { parameter = r.1 })

  unfoldable pub parameter_flash_write : Settings V → ℤ × Settings V
  parameter_flash_write s =
      let r =
        parameter_vendor_write (vendor.opens s.storage)
          (vendor.write_flash s.flashed_flag s.storage) s.storage in
      (r.0, record s { storage = r.1 })

  unfoldable pub parameter_flash_read : Settings V → ℤ × Settings V
  parameter_flash_read s =
      let r =
        parameter_vendor_read (vendor.opens s.storage) (vendor.read_flash s.storage)
          s.flashed_flag in
      (r.0, record s { flashed_flag = r.1 })

  unfoldable pub parameter_flash_set_flashed : ℤ → Settings V → ℤ × Settings V
  parameter_flash_set_flashed flag s = parameter_flash_write (record s { flashed_flag = flag })

  unfoldable pub parameter_flash_get_flashed : Settings V → ℤ × Settings V
  parameter_flash_get_flashed s =
      let r = parameter_flash_read s in if ltb_ℤ r.0 (pos 0) then r else (r.1.flashed_flag, r.1)

  unfoldable pub parameter_flash_clear_flashed : Settings V → ℤ × Settings V
  parameter_flash_clear_flashed s = parameter_flash_write (record s { flashed_flag = pos 0 })

  unfoldable pub parameter_save : Settings V → ℤ × Settings V
  parameter_save s =
      let r = parameter_param_write s in if ltb_ℤ r.0 (pos 0) then (negsuc 0, r.1) else (pos 0, r.1)
