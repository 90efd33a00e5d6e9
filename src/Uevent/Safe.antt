-- ===== src/Uevent/Safe.antt =====
-- ueventmonitor/ueventmonitor.c, parse_event: no event of the kernel's form makes it read a string
-- that is not there, or write behind a name.
use cvr_video.Base.{
  ℕ, zero, suc, ◌≤◌, ◌<◌, ◌≡◌, ◌≢◌, refl, sym, ap, List, [], ◌∷◌, ◌++◌, true, Option, none, some,
  length, All, arith, Option-cases, Bool-cases, inl, inr,
}
use cvr_video.Base.Int.{ℤ}
use cvr_video.Base.Text.{codes, starts_with}
use cvr_video.Thermal.Levels.{thermal_update_state}
use cvr_video.Usb.Gadget.{find_prefixed}
use cvr_video.Uevent.{System, Env, skip, after_last_slash, value_of, find_text}
use cvr_video.Uevent.Handlers.{
  Subsystem, power_supply, block, android_usb_port, cvr_uevent, video4linux, display_port,
  platform_device, gpio_detection, unknown, subsystem, dispatch, parse_event, cvr_block_ctl,
  cvr_device, cvr_video_ctl, cvr_display_ctl, platform, cvr_gpios_ctl, cvr_thermal_ctl, camera,
  video_device, display_line, gpio_status,
}

-- The strings that the kernel sends first.
abbrev pub kernel_event : List ℕ → List ℕ → List ℕ → List ℕ → List (List ℕ) → List (List ℕ)
kernel_event act path sys line rest =
    (codes "ACTION=" ++ act)
    ∷ (codes "DEVPATH=" ++ path)
    ∷ (codes "SUBSYSTEM=" ++ sys)
    ∷ line
    ∷ rest

-- The last part of a path has place in the buffer.
abbrev pub Fits : Option (List ℕ) → Type 0
Fits none = Unit {0}
Fits (some name) = length name < 64

skip-some : (n : ℕ) (t : List ℕ) → n ≤ length t → (u : List ℕ) × (skip n t ≡ some u)
unfolding skip
skip-some zero t h = (t, refl)
skip-some (suc n) [] h = absurd (omega arith)
skip-some (suc n) (c ∷ t) h = skip-some n t (omega arith)

starts_with-append : (p t : List ℕ) → starts_with p t ≡ true → (u : List ℕ) × (t ≡ p ++ u)
unfolding starts_with
starts_with-append [] t h = (t, refl)
starts_with-append (c ∷ p) [] h = absurd (ground arith)
starts_with-append (c ∷ p) (d ∷ t) h =
    let (u, e) = starts_with-append p t (ground arith) in (u, ground (arith, e))

find_text-starts : (p t u : List ℕ) → find_text p t ≡ some u → starts_with p u ≡ true
unfolding find_text
find_text-starts p [] u h = ground arith
find_text-starts p (c ∷ t) u h = ground (arith, find_text-starts p t u)

find_prefixed-All :
    (P : List ℕ → Type 0) (p : List ℕ) (strs : List (List ℕ)) (t : List ℕ)
    → All P strs
    → find_prefixed p strs ≡ some t
    → P t × (starts_with p t ≡ true)
unfolding find_prefixed
find_prefixed-All P p [] t a h = absurd (ground arith)
find_prefixed-All P p (s ∷ strs) t (a, as') h = elim (Bool-cases (starts_with p s)) [
  | inl e ↦ let same : s ≡ t = ground arith in rw (← same) (a, e)
  | inr e ↦ find_prefixed-All P p strs t as' (ground (arith, e))
]

block_defined :
    (env : Env) (act path sys line : List ℕ) (rest : List (List ℕ)) (s : System)
    → Fits (after_last_slash (codes "DEVPATH=" ++ path))
    → cvr_block_ctl env (kernel_event act path sys line rest) s ≢ none
unfolding cvr_block_ctl skip
block_defined env act path sys line rest s f =
    elim (Option-cases (after_last_slash (codes "DEVPATH=" ++ path))) [
      | inl e ↦ rw e (ground arith)
      | inr (name, e) ↦ let fits : length name < 64 = rw e at f in rw e (ground arith)
    ]

camera_defined :
    (act path sys line : List ℕ) (rest : List (List ℕ)) (id : Option ℤ) (s : System)
    → camera (kernel_event act path sys line rest) id s ≢ none
unfolding skip
camera_defined act path sys line rest none s = ground arith
camera_defined act path sys line rest (some id) s = ground arith

video_line_defined :
    (env : Env) (act path sys line t u : List ℕ) (rest : List (List ℕ)) (s : System)
    → t ≡ codes "DEVNAME=" ++ u
    → 13 ≤ length t
    → video_device env (kernel_event act path sys line rest) (some t) s ≢ none
unfolding value_of
video_line_defined env act path sys line t u rest s e long =
    let (v, f) = skip-some 5 u (omega (arith, ap length e)) in
    rw e (rw f (camera_defined act path sys line rest (env.scan_int v) s))

video_defined :
    (env : Env) (act path sys line : List ℕ) (rest : List (List ℕ)) (s : System)
    → All (λ t. starts_with (codes "DEVNAME=") t ≡ true → 13 ≤ length t) (line ∷ rest)
    → cvr_video_ctl env (kernel_event act path sys line rest) s ≢ none
unfolding cvr_video_ctl
video_defined env act path sys line rest s long =
    elim (Option-cases (find_prefixed (codes "DEVNAME=") (line ∷ rest))) [
      | inl e ↦ rw e (ground arith)
      | inr (t, e) ↦
          let (size, head) = find_prefixed-All _ (codes "DEVNAME=") (line ∷ rest) t long e in
          let (u, same) = starts_with-append (codes "DEVNAME=") t head in
          rw e (video_line_defined env act path sys line t u rest s same (size head))
    ]

display_line_defined :
    (act path sys line t u : List ℕ) (rest : List (List ℕ)) (s : System)
    → t ≡ codes "INTERFACE=" ++ u
    → display_line (kernel_event act path sys line rest) (some t) s ≢ none
unfolding value_of skip
display_line_defined act path sys line t u rest s e = rw e (ground arith)

display_defined :
    (act path sys line : List ℕ) (rest : List (List ℕ)) (s : System)
    → cvr_display_ctl (kernel_event act path sys line rest) s ≢ none
unfolding cvr_display_ctl
display_defined act path sys line rest s =
    elim (Option-cases (find_prefixed (codes "INTERFACE=") (line ∷ rest))) [
      | inl e ↦ rw e (ground arith)
      | inr (t, e) ↦
          let found =
            find_prefixed-All (λ t. Unit {0}) (codes "INTERFACE=") (line ∷ rest) t
              (every_text (line ∷ rest)) e in
          let (u, same) = starts_with-append (codes "INTERFACE=") t found.1 in
          rw e (display_line_defined act path sys line t u rest s same)
    ]
  where
    every_text : (strs : List (List ℕ)) → All (λ t. Unit {0}) strs
    every_text [] = tt
    every_text (t ∷ strs) = (tt, every_text strs)

thermal_defined :
    (env : Env) (act path sys line : List ℕ) (rest : List (List ℕ)) (s : System)
    → thermal_update_state env.world s.governor ≢ none
    → cvr_thermal_ctl env (kernel_event act path sys line rest) s ≢ none
unfolding cvr_thermal_ctl skip
thermal_defined env act path sys line rest s h = ground arith

platform_defined :
    (env : Env) (act path sys line : List ℕ) (rest : List (List ℕ)) (s : System)
    → s.gpios_event_call ≡ true
    → thermal_update_state env.world s.governor ≢ none
    → 7 ≤ length line
    → platform env (kernel_event act path sys line rest) s ≢ none
unfolding platform
platform_defined env act path sys line [] s g h long =
    let (driver, e) = skip-some 7 line long in
    rw e (ground (arith, thermal_defined env act path sys line [] s h))
platform_defined env act path sys line (w ∷ rest) s g h long =
    let (driver, e) = skip-some 7 line long in
    rw e (ground (arith, thermal_defined env act path sys line (w ∷ rest) s h))

gpio_status_defined :
    (name : List ℕ) (stat : Option (List ℕ)) (s : System)
    → s.gpios_event_call ≡ true
    → stat ≡ find_text (codes "GPIO_STATE=") name
    → gpio_status name stat s ≢ none
unfolding skip
gpio_status_defined name none s g e = ground arith
gpio_status_defined name (some stat) s g e =
    let (word, same) =
      starts_with-append (codes "GPIO_STATE=") stat (find_text-starts _ name stat (sym e)) in
    rw same (ground arith)

gpios_defined :
    (act path sys line : List ℕ) (rest : List (List ℕ)) (s : System)
    → s.gpios_event_call ≡ true
    → cvr_gpios_ctl (kernel_event act path sys line rest) s ≢ none
unfolding cvr_gpios_ctl skip
gpios_defined act path sys line rest s g =
    elim (Option-cases (find_text (codes "GPIO_NAME=") line)) [
      | inl e ↦ rw e (ground arith)
      | inr (t, e) ↦
          let (name, same) =
            starts_with-append (codes "GPIO_NAME=") t (find_text-starts _ line t e) in
          rw (e, same)
            (ground
              (arith, gpio_status_defined name (find_text (codes "GPIO_STATE=") name) s g refl))
    ]

-- What an event must have beside the form: a card's name that fits, a video device's name of five
-- characters, and a fourth string with seven characters and a sign.
pub record IsSane (path sys line : List ℕ) (rest : List (List ℕ)) : Type 0 where
  pub fits : Fits (after_last_slash (codes "DEVPATH=" ++ path))
  pub long : 7 ≤ length line
  pub signed : value_of line ≢ none
  pub names :
      subsystem sys ≡ video4linux
      → All (λ t. starts_with (codes "DEVNAME=") t ≡ true → 13 ≤ length t) (line ∷ rest)

dispatch_defined :
    (env : Env) (act path sys line : List ℕ) (rest : List (List ℕ)) (s : System) (k : Subsystem)
    → subsystem sys ≡ k
    → IsSane path sys line rest
    → s.gpios_event_call ≡ true
    → thermal_update_state env.world s.governor ≢ none
    → dispatch env (kernel_event act path sys line rest) s k ≢ none
unfolding dispatch
dispatch_defined env act path sys line rest s power_supply e v g h = ground arith
dispatch_defined env act path sys line rest s block e v g h =
    block_defined env act path sys line rest s v.fits
dispatch_defined env act path sys line rest s android_usb_port e v g h = ground arith
dispatch_defined env act path sys line rest s cvr_uevent e v g h =
    unfold cvr_device in ground (arith, v.signed)
dispatch_defined env act path sys line rest s video4linux e v g h =
    video_defined env act path sys line rest s (v.names e)
dispatch_defined env act path sys line rest s display_port e v g h =
    display_defined act path sys line rest s
dispatch_defined env act path sys line rest s platform_device e v g h =
    platform_defined env act path sys line rest s g h v.long
dispatch_defined env act path sys line rest s gpio_detection e v g h =
    gpios_defined act path sys line rest s g
dispatch_defined env act path sys line rest s unknown e v g h = ground arith

-- An event of the kernel's form whose names have the lengths that the handlers take, with a gpio
-- callback registered and the governor inside its arrays, is handled without an access out of bounds.
pub parse_event_defined :
    (env : Env) (act path sys line : List ℕ) (rest : List (List ℕ)) (s : System)
    → IsSane path sys line rest
    → s.gpios_event_call ≡ true
    → thermal_update_state env.world s.governor ≢ none
    → parse_event env (kernel_event act path sys line rest) s ≢ none
unfolding parse_event skip
parse_event_defined env act path sys line rest s v g h =
    dispatch_defined env act path sys line rest s (subsystem sys) refl v g h
