-- ===== src/Gsensor/Registry.antt =====
-- The callback table of gsensor.c against a plain list of optional callbacks.
use cvr_video.Base.{
  ℕ, zero, suc, ◌+◌, ◌-◌, ◌<◌, ◌≡◌, refl, ◌∙◌, ◌⊎◌, inl, inr, List, [], ◌∷◌, Bool, false, ◌==◌,
  if◌then◌else◌, Option, none, some, get_elem?, set, length, length-set, arith, Option-cases,
}
use cvr_video.Base.Int.{ℤ, pos, ◌+ℤ◌}
use cvr_video.Gsensor.{
  Slot, Hub, Kernel, fun_num, minus_one, first_free, scan, slot_send, gsensor_getregnum,
  gsensor_regsenddatafunc, gsensor_create_thread, gsensor_enable, start_thread,
}

-- Slot `i` is free and has no callback, or has the number `i + 1` and a callback.
abbrev pub SlotIsSound : ℕ → Slot → Type 0
SlotIsSound i s = ((s.num ≡ 0) × (s.send ≡ none)) ⊎ ((f : ℕ) × (s.num ≡ i + 1) × (s.send ≡ some f))

abbrev pub IsSound : ℕ → List Slot → Type 0
IsSound i [] = Unit {0}
IsSound i (s ∷ rest) = SlotIsSound i s × IsSound (i + 1) rest

abbrev pub used : List Slot → ℕ
used [] = 0
used (s ∷ rest) = (if s.num == 0 then 0 else 1) + used rest

pub record IsRegistry (h : Hub) : Type 0 where
  pub sound : IsSound 0 h.senddata
  pub size : length h.senddata ≡ fun_num
  pub count : h.gsfun_count ≡ pos (used h.senddata)

-- The abstract table: who is called from which place.
abbrev pub contents : List Slot → List (Option ℕ)
contents [] = []
contents (s ∷ rest) = s.send ∷ contents rest

-- A callback takes the first free place, unless it stands before that place; with it the place.
abbrev pub put_behind : Option ℕ → Option (ℕ × List (Option ℕ)) → Option (ℕ × List (Option ℕ))
put_behind g none = none
put_behind g (some (p, c)) = some (p + 1, g ∷ c)

unfoldable pub enroll : ℕ → List (Option ℕ) → Option (ℕ × List (Option ℕ))
enroll f [] = none
enroll f (none ∷ rest) = some (0, some f ∷ rest)
enroll f (some g ∷ rest) = if g == f then none else put_behind (some g) (enroll f rest)

abbrev filled : ℕ → ℕ → Slot
filled n f = record { num = n; send = some f }

-- What the two loops of a registration find where the table has a place `p`.
record Enrolled (i f : ℕ) (slots : List Slot) (p : ℕ) (c : List (Option ℕ)) : Type 0 where
  free_at : first_free i slots ≡ i + p
  scanned : scan (some f) i slots ≡ some (i + p)
  inside : p < length slots
  empty : slot_send (get_elem? slots p) ≡ none
  result : contents (set slots p (filled (i + p + 1) f)) ≡ c
  sound : IsSound i (set slots p (filled (i + p + 1) f))
  one_more : used (set slots p (filled (i + p + 1) f)) ≡ used slots + 1

pub enroll-some :
    (f g p : ℕ) (a : Option ℕ) (rest c : List (Option ℕ))
    → a ≡ some g
    → enroll f (a ∷ rest) ≡ some (suc p, c)
    → (d : List (Option ℕ)) × (enroll f rest ≡ some (p, d)) × (c ≡ some g ∷ d) × ((g == f) ≡ false)
unfolding enroll
enroll-some f g p a rest c n e = elim (Option-cases (enroll f rest)) [
  | inl m ↦ absurd (ground arith)
  | inr ((q, d), m) ↦ (d, ground arith, ground arith, ground arith)
]

enroll-Enrolled :
    (i f : ℕ) (slots : List Slot) (p : ℕ) (c : List (Option ℕ))
    → IsSound i slots
    → enroll f (contents slots) ≡ some (p, c)
    → Enrolled i f slots p c
unfolding enroll first_free scan
enroll-Enrolled i f [] p c v e = cc
enroll-Enrolled i f (s ∷ rest) zero c (inl (z, n), v) e = ground arith
enroll-Enrolled i f (s ∷ rest) (suc p) c (inl (z, n), v) e = ground arith
enroll-Enrolled i f (s ∷ rest) zero c (inr (g, z, n), v) e = ground arith
enroll-Enrolled i f (s ∷ rest) (suc p) c (inr (g, z, n), v) e =
    let (d, m, ce, ne) = enroll-some f g p s.send (contents rest) c n e in
    let shift : i + 1 + p ≡ i + suc p = omega arith in
    ground (arith, enroll-Enrolled (i + 1) f rest p d v m, shift)

full_or_known :
    (i f : ℕ) (slots : List Slot)
    → IsSound i slots
    → enroll f (contents slots) ≡ none
    → (first_free i slots ≡ i + length slots) ⊎ (scan (some f) i slots ≡ none)
unfolding enroll first_free scan
full_or_known i f [] v e = inl (omega arith)
full_or_known i f (s ∷ rest) (inl (z, n), v) e = ground arith
full_or_known i f (s ∷ rest) (inr (g, z, n), v) e = ground (arith, full_or_known (i + 1) f rest v)

pub create_thread_table :
    (k : Kernel) (h : Hub)
    → ((gsensor_create_thread k h).senddata ≡ h.senddata)
      × ((gsensor_create_thread k h).gsfun_count ≡ h.gsfun_count)
unfolding gsensor_create_thread
create_thread_table k h = ground arith

pub enable_table :
    (k : Kernel) (b : Bool) (h : Hub)
    → ((gsensor_enable k b h).1.senddata ≡ h.senddata)
      × ((gsensor_enable k b h).1.gsfun_count ≡ h.gsfun_count)
unfolding gsensor_enable
enable_table k b h = ground arith

taken : ℕ → ℕ → Hub → Hub
taken p f h = record h {
  senddata = set h.senddata p (filled (0 + p + 1) f);
  gsfun_count = h.gsfun_count +ℤ pos 1;
}

register-eq :
    (k : Kernel) (f : ℕ) (h : Hub) (p : ℕ) (c : List (Option ℕ))
    → length h.senddata ≡ fun_num
    → Enrolled 0 f h.senddata p c
    → gsensor_regsenddatafunc k (some f) h ≡ (pos (p + 1), start_thread k (taken p f h))
unfolding gsensor_regsenddatafunc gsensor_getregnum taken
register-eq k f h p c size e =
    let free : first_free 0 h.senddata ≡ p = omega (arith, e.free_at) in
    let seen : scan (some f) 0 h.senddata ≡ some p = ground (arith, e.scanned) in
    let back : p + 1 - 1 ≡ p = omega arith in
    ground (arith, free, seen, back, e.inside, e.empty, size)

register_none :
    (k : Kernel) (f : ℕ) (h : Hub)
    → length h.senddata ≡ fun_num
    → (first_free 0 h.senddata ≡ 0 + length h.senddata) ⊎ (scan (some f) 0 h.senddata ≡ none)
    → gsensor_regsenddatafunc k (some f) h ≡ (minus_one, h)
unfolding gsensor_regsenddatafunc gsensor_getregnum
register_none k f h size e = ground arith

start_thread_table :
    (k : Kernel) (h : Hub)
    → ((start_thread k h).senddata ≡ h.senddata) × ((start_thread k h).gsfun_count ≡ h.gsfun_count)
start_thread_table k h = ground (arith, create_thread_table k (record h { gsthread_state = 1 }))

pub table-IsRegistry :
    (h h' : Hub)
    → h'.senddata ≡ h.senddata
    → h'.gsfun_count ≡ h.gsfun_count
    → IsRegistry h
    → IsRegistry h'
table-IsRegistry h h' e c v = record {
  sound = rw e v.sound;
  size = rw e v.size;
  count = rw (e, c) v.count;
}

taken-IsRegistry :
    (f : ℕ) (h : Hub) (p : ℕ) (c : List (Option ℕ))
    → IsRegistry h
    → Enrolled 0 f h.senddata p c
    → (contents (taken p f h).senddata ≡ c) × IsRegistry (taken p f h)
unfolding taken ◌+ℤ◌
taken-IsRegistry f h p c v e = (
  e.result,
  record {
    sound = e.sound;
    size = length-set h.senddata p (filled (0 + p + 1) f) ∙ v.size;
    count = ground (arith, v.count, e.one_more);
  },
)

-- What a registration does for each outcome of the abstract table.
abbrev pub Registers : Hub → Option (ℕ × List (Option ℕ)) → ℤ × Hub → Type 0
Registers h none r = r ≡ (minus_one, h)
Registers h (some (p, c)) (n, h') = (n ≡ pos (p + 1)) × (contents h'.senddata ≡ c) × IsRegistry h'

-- A registration acts as `enroll` does: it fails without a change where `enroll` finds no place, and
-- otherwise returns the number of the place, puts the callback there and keeps the table sound.
pub register_refines :
    (k : Kernel) (f : ℕ) (h : Hub)
    → IsRegistry h
    → Registers h (enroll f (contents h.senddata)) (gsensor_regsenddatafunc k (some f) h)
register_refines k f h v = elim (Option-cases (enroll f (contents h.senddata))) [
  | inl e ↦ rw e (register_none k f h v.size (full_or_known 0 f h.senddata v.sound e))
  | inr ((p, c), e) ↦
      let found = enroll-Enrolled 0 f h.senddata p c v.sound e in
      let done = taken-IsRegistry f h p c v found in
      let (table, count) = start_thread_table k (taken p f h) in
      rw (e, register-eq k f h p c v.size found)
        (refl, rw table done.0, table-IsRegistry (taken p f h) _ table count done.1)
]
