-- ===== src/Uevent/Split.antt =====
-- ueventmonitor/ueventmonitor.c, event_monitor_thread: the message of the kernel cut into strings.
-- The event has place for 30; `none` is a write behind it. `stale` is what stands in memory behind the
-- message, which the last string runs into if the message does not end in a zero.
use cvr_video.Base.{
  ℕ, ◌+◌, ◌≤◌, ◌≡◌, ◌≢◌, refl, List, [], ◌∷◌, ◌++◌, Bool, true, false, not, ◌&&◌, ◌||◌, ◌==◌, ltb,
  leb, if◌then◌else◌, Option, none, some, length, ◌>>=◌, All, arith,
}
use cvr_video.Base.Text.{c_string}
use cvr_video.Uevent.{System, Env}
use cvr_video.Uevent.Handlers.{parse_event}

-- The length of `strs`
abbrev pub max_strings : ℕ
max_strings = 30

abbrev pub is_empty : List ℕ → Bool
is_empty [] = true
is_empty (c ∷ text) = false

-- The loop over the message, with the number of strings so far.
unfoldable pub split_event : ℕ → List ℕ → List ℕ → Option (List (List ℕ))
split_event j stale [] = some []
split_event j stale (c ∷ rest) = elim (c == 0 && not (is_empty rest)) [
  | true ↦ elim (ltb j max_strings) [
    | true ↦ split_event (j + 1) stale rest >>= λ more. some (c_string (rest ++ stale) ∷ more)
    | false ↦ none
  ]
  | false ↦ split_event j stale rest
]

-- sizeof(buf)
abbrev pub buffer_size : ℕ
buffer_size = 512

-- One round of the loop; `none` is an error of recvmsg.
unfoldable pub receive : Option (List ℕ) → List ℕ → Option (List (List ℕ))
receive none stale = some []
receive (some msg) stale =
    if ltb (length msg) 32 || ltb buffer_size (length msg) then some [] else split_event 0 stale msg

unfoldable pub monitor_round : Env → Option (List ℕ) → List ℕ → System → Option System
monitor_round env msg stale s = receive msg stale >>= λ strs. parse_event env strs s

-- A kernel message: a summary, and the strings, each with a zero at its end.
abbrev pub strings : List (List ℕ) → List ℕ
strings [] = 0 ∷ []
strings (t ∷ rest) = 0 ∷ (t ++ strings rest)

abbrev pub message : List ℕ → List (List ℕ) → List ℕ
message summary strs = summary ++ strings strs

abbrev pub IsText : List ℕ → Type 0
IsText t = All (λ c. c ≢ 0) t

split-append :
    (j : ℕ) (stale t rest : List ℕ)
    → IsText t
    → split_event j stale (t ++ rest) ≡ split_event j stale rest
unfolding split_event
split-append j stale [] rest h = refl
split-append j stale (c ∷ t) rest (h, hs) = ground (arith, h, split-append j stale t rest hs)

c_string-text :
    (t : List ℕ) (strs : List (List ℕ)) (stale : List ℕ)
    → IsText t
    → c_string ((t ++ strings strs) ++ stale) ≡ t
unfolding c_string
c_string-text [] [] stale h = refl
c_string-text [] (u ∷ strs) stale h = refl
c_string-text (c ∷ t) strs stale (h, hs) = ground (arith, h, c_string-text t strs stale hs)

not_empty : (t : List ℕ) (strs : List (List ℕ)) → is_empty (t ++ strings strs) ≡ false
not_empty [] [] = refl
not_empty [] (u ∷ strs) = refl
not_empty (c ∷ t) strs = refl

split-strings :
    (j : ℕ) (stale : List ℕ) (strs : List (List ℕ))
    → j ≤ max_strings
    → All IsText strs
    → split_event j stale (strings strs)
      ≡ (if leb (j + length strs) max_strings then some strs else none)
unfolding split_event
split-strings j stale [] le h = ground arith
split-strings j stale (t ∷ strs) le (h, hs) = ground (
  arith,
  not_empty t strs,
  c_string-text t strs stale h,
  split-append (j + 1) stale t (strings strs) h,
  split-strings (j + 1) stale strs,
)

-- A kernel message of at most 30 strings without zeros, and of a length that the monitor takes, is
-- cut into just these strings; with more strings the monitor writes behind its array.
pub receive-message :
    (summary stale : List ℕ) (strs : List (List ℕ))
    → IsText summary
    → All IsText strs
    → 32 ≤ length (message summary strs)
    → length (message summary strs) ≤ buffer_size
    → receive (some (message summary strs)) stale
      ≡ (if leb (length strs) max_strings then some strs else none)
unfolding receive
receive-message summary stale strs s h lo hi = ground (
  arith,
  split-append 0 stale summary (strings strs) s,
  split-strings 0 stale strs (omega arith) h,
)
