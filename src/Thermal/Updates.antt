-- ===== src/Thermal/Updates.antt =====
-- thermal_update_state and thermal_init against the temperature windows, the errors included.
use cvr_video.Base.{
  ℕ, zero, suc, ◌≤◌, ◌≡◌, ◌≢◌, refl, List, ◌∷◌, Bool, true, false, ◌==◌, inl, inr, none, some,
  arith, Bool-cases, ◌∙◌,
}
use cvr_video.Base.Int.{ℤ, pos, leb_ℤ, eq_ℤ, eq_of_parts, ◌+ℤ◌, ◌-ℤ◌, ◌≤ℤ◌, +ℤ_parts, -ℤ_parts}
use cvr_video.Thermal.{
  temp_min, temp_min_alarm, temp_max, temp_max_alarm, cpu_temp_target, cannot_open, did_read, World,
  Device, Governor, write_number,
}
use cvr_video.Thermal.Sysfs.{
  stop_kernel_thermal, minus_one, behind_four, temperature_read, get_fb_fps,
}
use cvr_video.Thermal.Levels.{
  is_set, step_down, temperature_get_state, thermal_set_alarm, thermal_handle, enter_level,
  after_reading, read_min_alarm, thermal_update_state,
}
use cvr_video.Thermal.Config.{
  zero_device, configured, configure, configure_ddr, cap_target, thermal_parse_cfg, parse_target,
  thermal_init,
}
use cvr_video.Thermal.Window.{
  low_bound, high_bound, next_level, IsTuned, tuned, get_state_tuned, Keeps, thermal_handle-Keeps,
  thermal_set_alarm-Keeps,
}

pub next_level-le : (n : ℕ) (cold hot : Bool) → n ≤ 5 → next_level n cold hot ≤ 5
next_level-le zero cold hot h = ground arith
next_level-le (suc zero) cold hot h = ground arith
next_level-le (suc (suc zero)) cold hot h = ground arith
next_level-le (suc (suc (suc zero))) cold hot h = ground arith
next_level-le (suc (suc (suc (suc n)))) cold hot h = ground arith

Keeps-IsTuned : (t : ℤ) (n : ℕ) (g h : Governor) → Keeps g h → IsTuned t n g.dev → IsTuned t n h.dev
Keeps-IsTuned t n g h k v = record {
  level = k.state ∙ v.level;
  in_scale = v.in_scale;
  lower = k.lower ∙ v.lower;
  upper = k.upper ∙ v.upper;
  low = k.low ∙ v.low;
  high = k.high ∙ v.high;
}

Keeps-trans : (g h k : Governor) → Keeps g h → Keeps h k → Keeps g k
Keeps-trans g h k p q = ground arith

abbrev settled : Governor → Governor
settled g = record g { dev = record (g.dev) { old_state = g.dev.state } }

enter_level-Keeps : (w : World) (g : Governor) → Keeps (settled g) (enter_level w g)
unfolding enter_level
enter_level-Keeps w g = elim (Bool-cases (g.debug_temp == 0)) [
  | inl e ↦
      rw (e, enter_level)
        (Keeps-trans (settled g) (thermal_handle w g.dev.state (settled g)) _
          (thermal_handle-Keeps w g.dev.state (settled g)) (thermal_set_alarm-Keeps w _ _ _))
  | inr e ↦ rw (e, enter_level) (thermal_set_alarm-Keeps w _ _ _)
]

after_reading-IsTuned :
    (t : ℤ) (m : ℕ) (w : World) (d : Device) (g : Governor)
    → IsTuned t m (record d { state = pos m })
    → IsTuned t m (after_reading w (pos m) d g).dev
      × ((after_reading w (pos m) d g).dev.old_state ≡ pos m)
after_reading-IsTuned t m w d g v = ground (
  arith,
  enter_level-Keeps w g',
  Keeps-IsTuned t m (settled g') (enter_level w g') (enter_level-Keeps w g') v',
  v.in_scale,
  eq_of_parts d.old_state (pos m),
)
  where
    g' : Governor
    g' = record g { dev = record d { state = pos m } }

    v' : IsTuned t m (settled g').dev
    v' = record {
      level = refl;
      in_scale = v.in_scale;
      lower = v.lower;
      upper = v.upper;
      low = v.low;
      high = v.high;
    }

-- An update that can read both alarms never indexes out of bounds. It takes the level that the two
-- alarms call for, and the window of that level.
pub update-IsTuned :
    (t : ℤ) (n : ℕ) (w : World) (g : Governor) (cold hot : List ℕ) (r s : ℤ)
    → IsTuned t n g.dev
    → w.reading temp_min_alarm ≡ did_read r cold
    → w.reading temp_max_alarm ≡ did_read s hot
    → let m = next_level n (is_set w cold) (is_set w hot) in
      (h : Governor) × (thermal_update_state w g ≡ some h)
      × IsTuned t m h.dev
      × (h.dev.old_state ≡ pos m)
unfolding thermal_update_state
update-IsTuned t n w g cold hot r s v rc rh = (
  after_reading w (pos m) (tuned t m w g.dev) g,
  rw (get_state_tuned t n w g.dev cold hot r s v rc rh),
  tuned_after.0,
  tuned_after.1,
)
  where
    m : ℕ
    m = next_level n (is_set w cold) (is_set w hot)

    tuned_after :
        IsTuned t m (after_reading w (pos m) (tuned t m w g.dev) g).dev
        × ((after_reading w (pos m) (tuned t m w g.dev) g).dev.old_state ≡ pos m)
    tuned_after = after_reading-IsTuned t m w (tuned t m w g.dev) g (record {
      level = refl;
      in_scale = next_level-le n (is_set w cold) (is_set w hot) v.in_scale;
      lower = v.lower;
      upper = v.upper;
      low = refl;
      high = refl;
    })

--
-- Every window is at least three degrees wide.
window-le : (t : ℤ) (n : ℕ) → low_bound t n +ℤ pos 3 ≤ℤ high_bound t n
window-le t zero = omega (arith, +ℤ_parts, -ℤ_parts)
window-le t (suc zero) = omega (arith, +ℤ_parts, -ℤ_parts)
window-le t (suc (suc zero)) = omega (arith, +ℤ_parts, -ℤ_parts)
window-le t (suc (suc (suc zero))) = omega (arith, +ℤ_parts, -ℤ_parts)
window-le t (suc (suc (suc (suc zero)))) = omega (arith, +ℤ_parts, -ℤ_parts)
window-le t (suc (suc (suc (suc (suc n))))) = omega (arith, +ℤ_parts, -ℤ_parts)

eq_ℤ-false : (a : ℤ) → a ≢ pos 0 → eq_ℤ a (pos 0) ≡ false
eq_ℤ-false a h = ground (arith, eq_of_parts a (pos 0))

-- The window of a level is in order, so the order test of `thermal_set_alarm` never refuses it: both
-- bounds are written, the lower one first, unless one of them is 0 or a write fails.
pub set_alarm_window :
    (t : ℤ) (n : ℕ) (w : World) (g : Governor)
    → low_bound t n ≢ pos 0
    → high_bound t n ≢ pos 0
    → w.opens_for_write temp_min ≡ true
    → w.opens_for_write temp_max ≡ true
    → leb_ℤ (w.write_result temp_min) (pos 0) ≡ false
    → thermal_set_alarm w (low_bound t n) (high_bound t n) g ≡ (
      w.write_result temp_max,
      record g {
        actions =
            write_number temp_max (high_bound t n)
            ∷ write_number temp_min (low_bound t n)
            ∷ g.actions;
      },
    )
unfolding thermal_set_alarm
set_alarm_window t n w g hl hh ol oh wl = ground (
  arith,
  window-le t n,
  +ℤ_parts (low_bound t n) (pos 3),
  eq_ℤ-false (low_bound t n) hl,
  eq_ℤ-false (high_bound t n) hh,
)

-- When the file of the lower alarm does not open, the level becomes -1 and everything but the
-- temperature stays; and then no later update that reads an alarm that is set stays inside the
-- threshold arrays.
pub update_after_lost_alarm :
    (w w' : World) (g : Governor) (r : ℤ) (buf : List ℕ)
    → w.reading temp_min_alarm ≡ cannot_open
    → w'.reading temp_min_alarm ≡ did_read r buf
    → is_set w' buf ≡ true
    → let h = record g { dev = record (g.dev) { temp = temperature_read w; state = minus_one } } in
      (thermal_update_state w g ≡ some h) × (thermal_update_state w' h ≡ none)
unfolding thermal_update_state temperature_get_state step_down ◌-ℤ◌
update_after_lost_alarm w w' g r buf e ra h =
    (rw (e, read_min_alarm), rw (ra, read_min_alarm) (rw (h, read_min_alarm)))

configure_ddr-Keeps : (w : World) (g : Governor) → Keeps g (configure_ddr w g)
unfolding configure_ddr
configure_ddr-Keeps w g = ground arith

get_fb_fps-Keeps : (w : World) (g : Governor) → Keeps g (get_fb_fps w g).1
unfolding get_fb_fps
get_fb_fps-Keeps w g = ground arith

configured-IsTuned : (w : World) (t : ℤ) → IsTuned t 0 (configured w t)
unfolding configured
configured-IsTuned w t = record {
  level = refl;
  in_scale = omega arith;
  lower = refl;
  upper = refl;
  low = refl;
  high = refl;
}

configure-Keeps :
    (w : World) (t : ℤ) (g : Governor)
    → Keeps (record g { dev = configured w t }) (configure w t g).1
unfolding configure
configure-Keeps w t g = ground (
  arith,
  configure_ddr-Keeps w g1,
  thermal_set_alarm-Keeps w g2.dev.ltemp g2.dev.htemp g2,
  get_fb_fps-Keeps w (thermal_set_alarm w g2.dev.ltemp g2.dev.htemp g2).1,
)
  where
    g1 : Governor
    g1 = record g { dev = configured w t }

    g2 : Governor
    g2 = configure_ddr w g1

parse_cfg-IsTuned :
    (w : World) (g : Governor) (r : ℤ) (buf : List ℕ)
    → w.reading cpu_temp_target ≡ did_read r buf
    → leb_ℤ (thermal_parse_cfg w g).0 (pos 0) ≡ false
    → IsTuned (cap_target (w.atoi (behind_four buf))) 0 (thermal_parse_cfg w g).1.dev
unfolding thermal_parse_cfg
parse_cfg-IsTuned w g r buf e =
    rw (e, parse_target)
      (elim (Bool-cases (leb_ℤ r (pos 0))) [
        | inl bad ↦ rw bad (λ h. cc)
        | inr good ↦ rw good (λ h.
            Keeps-IsTuned t 0 (record g' { dev = configured w t }) (configure w t g').1
              (configure-Keeps w t g') (configured-IsTuned w t))
      ])
  where
    t : ℤ
    t = cap_target (w.atoi (behind_four buf))

    g' : Governor
    g' = record g { dev = zero_device }

init_after_parse :
    (w : World) (g : Governor)
    → (thermal_init w g).0 ≡ pos 0
    → (leb_ℤ (thermal_parse_cfg w g).0 (pos 0) ≡ false)
      × Keeps (thermal_parse_cfg w g).1 (thermal_init w g).1
unfolding thermal_init stop_kernel_thermal
init_after_parse w g e = ground arith

-- A set-up that reports success leaves the device tuned to the target temperature that it read, cut
-- to 100 degrees, in level 0.
pub init-IsTuned :
    (w : World) (g : Governor) (r : ℤ) (buf : List ℕ)
    → w.reading cpu_temp_target ≡ did_read r buf
    → (thermal_init w g).0 ≡ pos 0
    → IsTuned (cap_target (w.atoi (behind_four buf))) 0 (thermal_init w g).1.dev
init-IsTuned w g r buf e ok =
    Keeps-IsTuned _ 0 (thermal_parse_cfg w g).1 (thermal_init w g).1 (init_after_parse w g ok).1
      (parse_cfg-IsTuned w g r buf e (init_after_parse w g ok).0)
