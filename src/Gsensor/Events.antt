-- ===== src/Gsensor/Events.antt =====
-- gsensor.c, gsensor_readevent: the loop over input events and the hand-out of a sample. Each round
-- has what the loop sees: whether the hub is stopping, and what `poll` and `read` gave. The table is
-- the one at the time of the sample. The float arithmetic of an axis is the parameter `scale`.
use cvr_video.Base.{
  ℕ, zero, suc, ◌+◌, ◌≡◌, ◌≢◌, refl, ap, ◌∙◌, inl, inr, List, [], ◌∷◌, ◌++◌, map, Bool, true, false,
  not, ◌==◌, ◌&&◌, if◌then◌else◌, Option, none, some, arith, Bool-cases, ==_iff, All, length,
}
use cvr_video.Base.Int.{ℤ, pos, negsuc, leb_ℤ, eq_ℤ}
use cvr_video.Gsensor.{Slot, Hub, Kernel, minus_one, gsensor_regsenddatafunc}
use cvr_video.Gsensor.Registry.{IsSound, used, IsRegistry, contents, enroll, register_refines}

-- The callbacks that one sample is sent to, in order: the loop over the table with its early exit.
abbrev pub fires : Slot → List ℕ
fires s = elim s.send [ none ↦ [] | some f ↦ if s.num == 0 then [] else f ∷ [] ]

abbrev pub is_fired : Slot → Bool
is_fired s = elim s.send [ none ↦ false | some f ↦ not (s.num == 0) ]

unfoldable pub send_loop : ℤ → ℕ → List Slot → List ℕ
send_loop count sent [] = []
send_loop count sent (s ∷ rest) =
    let sent' = if is_fired s then sent + 1 else sent in
    fires s ++ elim (eq_ℤ count (pos sent')) [ true ↦ [] | false ↦ send_loop count sent' rest ]

unfoldable pub notify : Hub → List ℕ
notify h = if leb_ℤ h.gsfun_count (pos 0) then [] else send_loop h.gsfun_count 0 h.senddata

-- The callbacks of a table, in order.
abbrev pub callbacks : List (Option ℕ) → List ℕ
callbacks [] = []
callbacks (none ∷ rest) = callbacks rest
callbacks (some f ∷ rest) = f ∷ callbacks rest

unused-callbacks :
    (i : ℕ) (slots : List Slot) → IsSound i slots → used slots ≡ 0 → callbacks (contents slots) ≡ []
unused-callbacks i [] v e = refl
unused-callbacks i (s ∷ rest) (inl (z, n), v) e = ground (arith, unused-callbacks (i + 1) rest v)
unused-callbacks i (s ∷ rest) (inr (f, z, n), v) e = absurd (ground arith)

send_loop-callbacks :
    (i sent : ℕ) (slots : List Slot)
    → IsSound i slots
    → send_loop (pos (sent + used slots)) sent slots ≡ callbacks (contents slots)
unfolding send_loop
send_loop-callbacks i sent [] v = refl
send_loop-callbacks i sent (s ∷ rest) (inl (z, n), v) =
    ground (arith, unused-callbacks (i + 1) rest v, send_loop-callbacks (i + 1) sent rest v)
send_loop-callbacks i sent (s ∷ rest) (inr (f, z, n), v) =
    let regroup : sent + (1 + used rest) ≡ sent + 1 + used rest = omega arith in
    ground (
      arith,
      regroup,
      unused-callbacks (i + 1) rest v,
      send_loop-callbacks (i + 1) (sent + 1) rest v,
    )

-- A sample goes to every registered callback, once for each place and in the order of the places:
-- the loop's early exit, by the number of callbacks, skips none.
pub notify-callbacks : (h : Hub) → IsRegistry h → notify h ≡ callbacks (contents h.senddata)
unfolding notify
notify-callbacks h v = elim (Bool-cases (used h.senddata == 0)) [
  | inl e ↦
      ground
        (arith, v.count, unused-callbacks 0 h.senddata v.sound (omega (arith, (==_iff _ _).0 e)))
  | inr e ↦
      let whole : send_loop (pos (used h.senddata)) 0 h.senddata ≡ callbacks (contents h.senddata) =
        ap (λ n. send_loop (pos n) 0 h.senddata) (omega arith)
        ∙ send_loop-callbacks 0 0 h.senddata v.sound in
      ground (arith, v.count, whole)
]

callbacks-append : (xs ys : List (Option ℕ)) → callbacks (xs ++ ys) ≡ callbacks xs ++ callbacks ys
callbacks-append [] ys = refl
callbacks-append (none ∷ xs) ys = callbacks-append xs ys
callbacks-append (some f ∷ xs) ys = ap (◌∷◌ f) (callbacks-append xs ys)

enroll-hole :
    (f : ℕ) (pre : List ℕ) (rest : List (Option ℕ))
    → All (λ g. g ≢ f) pre
    → enroll f (map some pre ++ none ∷ rest) ≡ some (length pre, map some pre ++ some f ∷ rest)
unfolding enroll
enroll-hole f [] rest h = refl
enroll-hole f (g ∷ pre) rest (ne, h) = ground (arith, enroll-hole f pre rest h)

-- Registering a callback twice is refused only if it stands before the first free place. With a
-- hole in front of it the second registration succeeds, and every sample then goes to it twice.
pub register_twice :
    (k : Kernel) (f : ℕ) (pre : List ℕ) (mid post : List (Option ℕ)) (h : Hub)
    → IsRegistry h
    → contents h.senddata ≡ map some pre ++ none ∷ (mid ++ some f ∷ post)
    → All (λ g. g ≢ f) pre
    → let (num, h') = gsensor_regsenddatafunc k (some f) h in
      (num ≡ pos (length pre + 1))
      × (notify h' ≡ callbacks (map some pre) ++ f ∷ (callbacks mid ++ f ∷ callbacks post))
register_twice k f pre mid post h v e fresh =
    let table : enroll f (contents h.senddata)
        ≡ some (length pre, map some pre ++ some f ∷ (mid ++ some f ∷ post)) =
      ap (enroll f) e ∙ enroll-hole f pre (mid ++ some f ∷ post) fresh in
    let r = rw table at (register_refines k f h v) in
    (
      r.0,
      notify-callbacks _ r.2
          ∙ ap callbacks r.1
          ∙ callbacks-append (map some pre) (some f ∷ (mid ++ some f ∷ post))
          ∙ ap (λ cs. callbacks (map some pre) ++ f ∷ cs) (callbacks-append mid (some f ∷ post)),
    )

-- One axis event, a SYN report, or an event of another type.
pub data Event : Type 0 where
  abs_x abs_y abs_z abs_other : ℤ → Event
  syn other : Event

-- One round of the loop: `poll` without data, a failed `read`, or an event.
pub data Round : Type 0 where
  stopping idle : Round
  read_error : ℕ → Round
  got : Event → Round

module _ {ℓ} {F : Type ℓ} (scale : ℤ → F) where
  -- The hub with the sample under way, `*accdata`, and the raw values of get_gsensor_data.
  pub record Reader : Type ℓ where
    pub hub : Hub
    pub acc_x : F
    pub acc_y : F
    pub acc_z : F
    pub sensor_data_x : ℤ
    pub sensor_data_y : ℤ
    pub sensor_data_z : ℤ

  -- Still in the loop, or back with a value, the callbacks that got the sample, and the reader.
  pub data Outcome : Type ℓ where
    waiting : Reader → Outcome
    returned : ℤ → List ℕ → Reader → Outcome

  unfoldable pub store : Event → Reader → Reader
  store (abs_x v) r = record r {
    acc_x = scale v;
    sensor_data_x = v;
    hub = record (r.hub) { axis_x_init = 1 };
  }
  store (abs_y v) r = record r {
    acc_y = scale v;
    sensor_data_y = v;
    hub = record (r.hub) { axis_y_init = 1 };
  }
  store (abs_z v) r = record r {
    acc_z = scale v;
    sensor_data_z = v;
    hub = record (r.hub) { axis_z_init = 1 };
  }
  store (abs_other v) r = r
  store syn r = r
  store other r = r

  abbrev pub all_axes : Hub → Bool
  all_axes h = h.axis_x_init == 1 && (h.axis_y_init == 1 && h.axis_z_init == 1)

  unfoldable pub gsensor_readevent : ℕ → List Round → Reader → Outcome
  gsensor_readevent zero rounds r = returned (pos 0) [] r
  gsensor_readevent (suc c) [] r = waiting r
  gsensor_readevent (suc c) (stopping ∷ rounds) r = returned minus_one [] r
  gsensor_readevent (suc c) (idle ∷ rounds) r = gsensor_readevent (suc c) rounds r
  gsensor_readevent (suc c) (read_error n ∷ rounds) r = returned (negsuc n) [] r
  gsensor_readevent (suc c) (got (abs_x v) ∷ rounds) r =
      gsensor_readevent (suc c) rounds (store (abs_x v) r)
  gsensor_readevent (suc c) (got (abs_y v) ∷ rounds) r =
      gsensor_readevent (suc c) rounds (store (abs_y v) r)
  gsensor_readevent (suc c) (got (abs_z v) ∷ rounds) r =
      gsensor_readevent (suc c) rounds (store (abs_z v) r)
  gsensor_readevent (suc c) (got (abs_other v) ∷ rounds) r = gsensor_readevent (suc c) rounds r
  gsensor_readevent (suc c) (got other ∷ rounds) r = gsensor_readevent (suc c) rounds r
  gsensor_readevent (suc c) (got syn ∷ rounds) r = elim (all_axes r.hub) [
    | false ↦ gsensor_readevent (suc c) rounds r
    | true ↦ elim (c == 0) [
      | true ↦ returned (pos 1) (notify r.hub) r
      | false ↦ gsensor_readevent c rounds r
    ]
  ]
