-- ===== src/Usb/Sharing.antt =====
-- ueventmonitor/usb_sd_ctrl.c, cvr_usb_sd_ctl: the card is mounted here or shared with the PC.
use cvr_video.Base.{
  List, not, if◌then◌else◌, Bool-cases, inl, inr, ◌+◌, ◌≡◌, [], ◌∷◌, Bool, true, false, ◌&&◌, ◌||◌,
  arith,
}
use cvr_video.Base.Int.{pos, eq_ℤ}
use cvr_video.Usb.{
  sd_out, sd_in, sd_err, sd_change, sdcard_mount, sdcard_unmount, no_sdcard, sysfs_write, Action,
  share_volume, check_usb_connection, ums_lun0, Port, Host, is_out, is_err, cvr_sd_ctl,
  cvr_usb_storage_ctl, ums_share_volume, cvr_usb_ctl, Control, sd_ctrl, usb_ctrl, usb_storage_ctrl,
  cvr_usb_sd_ctl,
}

-- Who has the card, as the file manager and the gadget driver were told: whether it is mounted here,
-- whether the PC has the volume, whether an unmount was refused, and whether it was ever mounted here
-- while the PC had it.
pub record CardUse : Type 0 where
  pub mounted : Bool
  pub shared : Bool
  pub refused : Bool
  pub clashed : Bool

abbrev pub checked : CardUse → CardUse
checked u = record u { clashed = u.clashed || u.mounted && u.shared }

-- A card is mounted after a mount that returned 0, up to an unmount that returned 0 or to its
-- removal. The PC has the volume while the driver has a path.
abbrev pub note : Action → CardUse → CardUse
note (sdcard_mount r) u = checked (record u { mounted = eq_ℤ r (pos 0) || u.mounted })
note (sdcard_unmount r) u = checked (record u {
  mounted = not (eq_ℤ r (pos 0)) && u.mounted;
  refused = not (eq_ℤ r (pos 0)) || u.refused;
})
note no_sdcard u = checked (record u { mounted = false })
note (sysfs_write ums_lun0 []) u = checked (record u { shared = false })
note (sysfs_write ums_lun0 (c ∷ path)) u = checked (record u { shared = true })
note _ u = u

abbrev pub card_use : List Action → CardUse
card_use [] = record { mounted = false; shared = false; refused = false; clashed = false }
card_use (a ∷ actions) = note a (card_use actions)

-- The card was never mounted here while the PC had it, not between two actions of a call either.
abbrev pub IsExclusive : Port → Type 0
IsExclusive p = (card_use p.actions).clashed ≡ false

-- What the variables say of the card. Both halves on the card hold as long as no unmount is refused.
pub record IsTracked (p : Port) : Type 0 where
  pub apart : (p.usb_mount_state && not (is_out p.sd_mount)) ≡ false
  pub sharing : (card_use p.actions).shared ≡ p.usb_mount_state
  pub unmounted :
      (not (card_use p.actions).refused && (is_out p.sd_mount && (card_use p.actions).mounted))
      ≡ false
  pub exclusive : (not (card_use p.actions).refused && (card_use p.actions).clashed) ≡ false

abbrev pub is_insertion : Control → Bool → Bool
is_insertion sd_ctrl true = true
is_insertion _ _ = false

abbrev use_of : Port → CardUse
use_of p = card_use p.actions

sd_off-IsTracked :
    (h : Host) (p : Port)
    → IsTracked p
    → IsTracked (cvr_sd_ctl h false p)
      × (is_out (cvr_sd_ctl h false p).sd_mount ≡ true)
      × ((cvr_sd_ctl h false p).usb_mount_state ≡ p.usb_mount_state)
unfolding cvr_sd_ctl
sd_off-IsTracked h p v = (
  record {
    apart = ground (arith, v.apart, v.sharing, v.unmounted, v.exclusive);
    sharing = ground (arith, v.apart, v.sharing, v.unmounted, v.exclusive);
    unmounted = ground (arith, v.apart, v.sharing, v.unmounted, v.exclusive);
    exclusive = ground (arith, v.apart, v.sharing, v.unmounted, v.exclusive);
  },
  ground arith,
  ground arith,
)

sd_on-IsTracked :
    (h : Host) (p : Port)
    → IsTracked p
    → p.usb_mount_state ≡ false
    → IsTracked (cvr_sd_ctl h true p)
unfolding cvr_sd_ctl
sd_on-IsTracked h p v e = record {
  apart = ground (arith, v.apart, v.sharing, v.unmounted, v.exclusive, e);
  sharing = ground (arith, v.apart, v.sharing, v.unmounted, v.exclusive, e);
  unmounted = ground (arith, v.apart, v.sharing, v.unmounted, v.exclusive, e);
  exclusive = ground (arith, v.apart, v.sharing, v.unmounted, v.exclusive, e);
}

usb_on-IsTracked :
    (p : Port) → IsTracked p → is_out p.sd_mount ≡ true → IsTracked (cvr_usb_ctl true p)
unfolding cvr_usb_ctl share_volume
usb_on-IsTracked p v e = record {
  apart = ground (arith, v.apart, v.sharing, v.unmounted, v.exclusive, e);
  sharing = ground (arith, v.apart, v.sharing, v.unmounted, v.exclusive, e);
  unmounted = ground (arith, v.apart, v.sharing, v.unmounted, v.exclusive, e);
  exclusive = ground (arith, v.apart, v.sharing, v.unmounted, v.exclusive, e);
}

usb_off-IsTracked :
    (p : Port)
    → IsTracked p
    → IsTracked (cvr_usb_ctl false p)
      × ((cvr_usb_ctl false p).usb_mount_state ≡ false)
      × ((cvr_usb_ctl false p).sd_mount ≡ p.sd_mount)
unfolding cvr_usb_ctl share_volume
usb_off-IsTracked p v = (
  record {
    apart = ground (arith, v.apart, v.sharing, v.unmounted, v.exclusive);
    sharing = ground (arith, v.apart, v.sharing, v.unmounted, v.exclusive);
    unmounted = ground (arith, v.apart, v.sharing, v.unmounted, v.exclusive);
    exclusive = ground (arith, v.apart, v.sharing, v.unmounted, v.exclusive);
  },
  ground arith,
  ground arith,
)

storage-IsTracked : (b : Bool) (p : Port) → IsTracked p → IsTracked (cvr_usb_storage_ctl b p)
unfolding cvr_usb_storage_ctl
storage-IsTracked true p v = record {
  apart = v.apart;
  sharing = v.sharing;
  unmounted = v.unmounted;
  exclusive = v.exclusive;
}
storage-IsTracked false p v = record {
  apart = v.apart;
  sharing = v.sharing;
  unmounted = v.unmounted;
  exclusive = v.exclusive;
}

pub control-IsTracked :
    (h : Host) (c : Control) (b : Bool) (p : Port)
    → (is_insertion c b && p.usb_mount_state) ≡ false
    → IsTracked p
    → IsTracked (cvr_usb_sd_ctl h c b p)
unfolding cvr_usb_sd_ctl
control-IsTracked h usb_ctrl true p ok v = elim (Bool-cases (is_out p.sd_mount)) [
  | inl e ↦ rw e (usb_on-IsTracked p v e)
  | inr e ↦
      let (w, o, _) = sd_off-IsTracked h p v in rw e (usb_on-IsTracked (cvr_sd_ctl h false p) w o)
]
control-IsTracked h usb_ctrl false p ok v =
    let (w, u, _) = usb_off-IsTracked p v in
    elim (Bool-cases (is_out (cvr_usb_ctl false p).sd_mount)) [
      | inl e ↦ rw e (sd_on-IsTracked h (cvr_usb_ctl false p) w u)
      | inr e ↦ rw e w
    ]
control-IsTracked h sd_ctrl true p ok v =
    elim (Bool-cases (is_out p.sd_mount || is_err p.sd_mount)) [
      | inl e ↦ rw e (sd_on-IsTracked h p v ok)
      | inr e ↦ rw e v
    ]
control-IsTracked h sd_ctrl false p ok v = elim (Bool-cases (check_usb_connection h)) [
  | inl e ↦ rw e (taken_out (cvr_usb_ctl false p) (usb_off-IsTracked p v).0)
  | inr e ↦ rw e (taken_out p v)
]
  where
    taken_out :
        (q : Port)
        → IsTracked q
        → IsTracked (if not (is_out q.sd_mount) then cvr_sd_ctl h false q else q)
    taken_out q w = elim (Bool-cases (is_out q.sd_mount)) [
      | inl e ↦ rw e w
      | inr e ↦ rw e (sd_off-IsTracked h q w).0
    ]
control-IsTracked h usb_storage_ctrl b p ok v = storage-IsTracked b p v

-- One control call with what the host answers during it.
pub record Call : Type 0 where
  pub host : Host
  pub control : Control
  pub state : Bool

abbrev pub controls : List Call → Port → Port
controls [] p = p
controls (c ∷ rest) p = controls rest (cvr_usb_sd_ctl c.host c.control c.state p)

-- No call is the insertion of a card while the PC has the volume.
abbrev pub never_inserts_shared : List Call → Port → Bool
never_inserts_shared [] p = true
never_inserts_shared (c ∷ rest) p =
    not (is_insertion c.control c.state && p.usb_mount_state)
    && never_inserts_shared rest (cvr_usb_sd_ctl c.host c.control c.state p)

controls-IsTracked :
    (calls : List Call) (p : Port)
    → never_inserts_shared calls p ≡ true
    → IsTracked p
    → IsTracked (controls calls p)
controls-IsTracked [] p n v = v
controls-IsTracked (c ∷ rest) p n v =
    controls-IsTracked rest (cvr_usb_sd_ctl c.host c.control c.state p) (ground (arith, n))
      (control-IsTracked c.host c.control c.state p (ground (arith, n)) v)

-- Any history of control calls without the insertion of a card into a shared port, in which
-- fs_manage_sdcard_unmount never fails, keeps the card from being mounted here while the gadget driver
-- has it for the PC: at no point between two actions of a call is it both. Before it, the variables say
-- what is the case.
pub controls-IsExclusive :
    (calls : List Call) (p : Port)
    → never_inserts_shared calls p ≡ true
    → IsTracked p
    → (card_use (controls calls p).actions).refused ≡ false
    → IsExclusive (controls calls p)
controls-IsExclusive calls p n v r =
    let v' = controls-IsTracked calls p n v in ground (arith, v'.exclusive, r)

-- A card that is inserted, and that mounts, is mounted here whether the PC has the volume or not, and
-- the PC keeps what it has.
pub insertion_while_shared :
    (h : Host) (p : Port)
    → h.sd_exist ≡ true
    → h.mount_result ≡ pos 0
    → p.sd_mount ≡ sd_out
    → let q = cvr_usb_sd_ctl h sd_ctrl true p in
      (q.sd_mount ≡ sd_in) × (q.usb_mount_state ≡ p.usb_mount_state)
unfolding cvr_usb_sd_ctl cvr_sd_ctl
insertion_while_shared h p x m s = ground arith

-- The PC gets a mounted card that mounts again, with the port not shared before and a callback
-- registered, and gives it back: the card is unmounted before it is shared, and the
-- sharing ends before it is mounted again; the user is told of both, and both counters of gadget
-- events to come have gone up by one.
pub share_and_return :
    (h : Host) (p : Port)
    → h.sd_exist ≡ true
    → h.mount_result ≡ pos 0
    → p.sd_mount ≡ sd_in
    → p.usb_mount_state ≡ false
    → p.sdcard_event_call ≡ true
    → cvr_usb_sd_ctl h usb_ctrl false (cvr_usb_sd_ctl h usb_ctrl true p) ≡ record p {
      conn_deep = p.conn_deep + 1;
      disc_deep = p.disc_deep + 1;
      actions =
          sd_change true
          ∷ sdcard_mount (pos 0)
          ∷ sysfs_write ums_lun0 []
          ∷ sysfs_write ums_lun0 ums_share_volume
          ∷ sdcard_unmount h.unmount_result
          ∷ sd_change false
          ∷ p.actions;
    }
unfolding cvr_usb_sd_ctl cvr_sd_ctl cvr_usb_ctl
share_and_return h p x m s u c = ground arith

-- After a failed mount the card stays in the error state: the control call for an inserted card, which
-- lets this state through, changes nothing as long as there is a card.
pub insertion_after_error :
    (h : Host) (p : Port)
    → h.sd_exist ≡ true
    → p.sd_mount ≡ sd_err
    → cvr_usb_sd_ctl h sd_ctrl true p ≡ p
unfolding cvr_usb_sd_ctl cvr_sd_ctl
insertion_after_error h p x s = ground arith
