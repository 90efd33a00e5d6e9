-- ===== src/Gsensor/Withdraw.antt =====
-- gsensor.c: giving a slot back, the thread that stops with the last one, and what a free slot in
-- front of a callback leads to.
use cvr_video.Base.{
  ℕ, zero, suc, ◌+◌, ◌-◌, ◌<◌, ◌≡◌, refl, ap, ◌∙◌, inl, inr, List, [], ◌∷◌, false, ◌==◌,
  if◌then◌else◌, Option, none, some, get_elem?, set, length, length-set, arith, Option-cases,
}
use cvr_video.Base.Int.{pos, ◌-ℤ◌}
use cvr_video.Gsensor.{
  Slot, Hub, Kernel, fun_num, free_slot, slot_send, all_free, gsensor_regsenddatafunc,
  gsensor_unregsenddatafunc, gsensor_enable, stop_when_empty,
}
use cvr_video.Gsensor.Registry.{
  enroll-some, IsSound, used, IsRegistry, contents, enroll, register_refines, table-IsRegistry,
  enable_table,
}

contents_at :
    (n : ℕ) (slots : List Slot) (g : ℕ)
    → get_elem? (contents slots) n ≡ some (some g)
    → (slot_send (get_elem? slots n) ≡ some g) × (n < length slots)
contents_at n [] g e = absurd (ground arith)
contents_at zero (s ∷ rest) g e = (ground arith, omega arith)
contents_at (suc n) (s ∷ rest) g e = let (a, b) = contents_at n rest g e in (a, omega arith)

contents-set :
    (n : ℕ) (slots : List Slot) → contents (set slots n free_slot) ≡ set (contents slots) n none
contents-set n [] = refl
contents-set zero (s ∷ rest) = refl
contents-set (suc n) (s ∷ rest) = ap (◌∷◌ s.send) (contents-set n rest)

free-IsSound : (i n : ℕ) (slots : List Slot) → IsSound i slots → IsSound i (set slots n free_slot)
free-IsSound i n [] v = v
free-IsSound i zero (s ∷ rest) (a, v) = (inl (refl, refl), v)
free-IsSound i (suc n) (s ∷ rest) (a, v) = (a, free-IsSound (i + 1) n rest v)

used-free :
    (i n : ℕ) (slots : List Slot) (g : ℕ)
    → IsSound i slots
    → slot_send (get_elem? slots n) ≡ some g
    → used slots ≡ used (set slots n free_slot) + 1
used-free i n [] g v e = absurd (ground arith)
used-free i zero (s ∷ rest) g (inl (a, b), v) e = ground arith
used-free i zero (s ∷ rest) g (inr (f, a, b), v) e = ground arith
used-free i (suc n) (s ∷ rest) g (a, v) e = omega (arith, used-free (i + 1) n rest g v e)

stop_table :
    (k : Kernel) (h : Hub)
    → ((stop_when_empty k h).senddata ≡ h.senddata)
      × ((stop_when_empty k h).gsfun_count ≡ h.gsfun_count)
stop_table k h =
    ground (arith, enable_table k false (record h { gsthread_state = 0; gsrelease_state = 1 }))

given_back : ℕ → Hub → Hub
given_back n h = record h {
  senddata = set h.senddata n free_slot;
  gsfun_count = h.gsfun_count -ℤ pos 1;
}

given_back-IsRegistry :
    (n g : ℕ) (h : Hub)
    → IsRegistry h
    → slot_send (get_elem? h.senddata n) ≡ some g
    → IsRegistry (given_back n h)
unfolding given_back ◌-ℤ◌
given_back-IsRegistry n g h v e = record {
  sound = free-IsSound 0 n h.senddata v.sound;
  size = length-set h.senddata n free_slot ∙ v.size;
  count = ground (arith, v.count, used-free 0 n h.senddata g v.sound e);
}

unregister-eq :
    (k : Kernel) (n g : ℕ) (h : Hub)
    → length h.senddata ≡ fun_num
    → get_elem? (contents h.senddata) n ≡ some (some g)
    → gsensor_unregsenddatafunc k (pos (n + 1)) h ≡ (pos 0, stop_when_empty k (given_back n h))
unfolding gsensor_unregsenddatafunc given_back
unregister-eq k n g h size e =
    let back : n + 1 - 1 ≡ n = omega arith in ground (arith, contents_at n h.senddata g e, back)

-- A callback's number gives its place back: the call returns 0, that place alone is empty
-- afterwards, and the table stays sound.
pub unregister_refines :
    (k : Kernel) (n g : ℕ) (h : Hub)
    → IsRegistry h
    → get_elem? (contents h.senddata) n ≡ some (some g)
    → let (ret, h') = gsensor_unregsenddatafunc k (pos (n + 1)) h in
      (ret ≡ pos 0) × (contents h'.senddata ≡ set (contents h.senddata) n none) × IsRegistry h'
unfolding given_back
unregister_refines k n g h v e = rw (unregister-eq k n g h v.size e) (
  refl,
  rw table.0 (contents-set n h.senddata),
  table-IsRegistry (given_back n h) _ table.0 table.1
      (given_back-IsRegistry n g h v (contents_at n h.senddata g e).0),
)
  where
    table :
        ((stop_when_empty k (given_back n h)).senddata ≡ (given_back n h).senddata)
        × ((stop_when_empty k (given_back n h)).gsfun_count ≡ (given_back n h).gsfun_count)
    table = stop_table k (given_back n h)

enroll-place :
    (f : ℕ) (c : List (Option ℕ)) (p : ℕ) (c' : List (Option ℕ))
    → enroll f c ≡ some (p, c')
    → (get_elem? c' p ≡ some (some f)) × (set c' p none ≡ c)
unfolding enroll
enroll-place f [] p c' e = absurd (ground arith)
enroll-place f (none ∷ rest) zero c' e = ground arith
enroll-place f (none ∷ rest) (suc p) c' e = absurd (ground arith)
enroll-place f (some g ∷ rest) zero c' e =
    absurd (elim (Option-cases (enroll f rest)) [
      | inl m ↦ ground arith
      | inr ((q, d), m) ↦ ground arith
    ])
enroll-place f (some g ∷ rest) (suc p) c' e =
    let (d, m, ce, ne) = enroll-some f g p (some g) rest c' refl e in
    ground (arith, enroll-place f rest p d m)

-- A registration that succeeds is undone by giving its number back: the table of callbacks is as it
-- was before.
pub unregister-register :
    (k k' : Kernel) (f p : ℕ) (c : List (Option ℕ)) (h : Hub)
    → IsRegistry h
    → enroll f (contents h.senddata) ≡ some (p, c)
    → let (num, h') = gsensor_regsenddatafunc k (some f) h in
      let (ret, h'') = gsensor_unregsenddatafunc k' num h' in
      (num ≡ pos (p + 1)) × (ret ≡ pos 0) × (contents h''.senddata ≡ contents h.senddata)
unregister-register k k' f p c h v e =
    let r = rw e at (register_refines k f h v) in
    let place = enroll-place f (contents h.senddata) p c e in
    let u =
      unregister_refines k' p f (gsensor_regsenddatafunc k (some f) h).1 r.2 (rw r.1 place.0) in
    rw r.0 (refl, u.0, u.1 ∙ rw r.1 place.1)

all_free-used : (slots : List Slot) → all_free slots ≡ (used slots == 0)
unfolding all_free
all_free-used [] = refl
all_free-used (s ∷ rest) = ground (arith, all_free-used rest)

-- Giving back the last callback, and only the last, tells the running sensor thread to end.
pub last_callback_stops :
    (k : Kernel) (n g : ℕ) (h : Hub)
    → IsRegistry h
    → h.gsthread_state ≡ 1
    → get_elem? (contents h.senddata) n ≡ some (some g)
    → let h' = (gsensor_unregsenddatafunc k (pos (n + 1)) h).1 in
      (h'.gsthread_state ≡ (if used h.senddata == 1 then 0 else 1))
      × (h'.gsrelease_state ≡ (if used h.senddata == 1 then 1 else h.gsrelease_state))
unfolding given_back gsensor_enable
last_callback_stops k n g h v t e = rw (unregister-eq k n g h v.size e) (
    ground (
      arith,
      all_free-used (set h.senddata n free_slot),
      used-free 0 n h.senddata g v.sound (contents_at n h.senddata g e).0,
    ))
