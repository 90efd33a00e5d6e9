-- ===== src/Commands/Resolve.antt =====
-- wifi_management.c: cmd_resolve comes to an end, and what it does with a second command.
use cvr_video.Base.{
  ℕ, zero, suc, ◌-◌, ◌≤◌, ◌<◌, ◌≡◌, refl, sym, ap, ◌∙◌, ◌⊎◌, inl, inr, List, [], ◌∷◌, ◌++◌, Bool,
  true, false, ◌==◌, Option, none, some, length, drop, Bool-cases, Option-cases, arith,
}
use cvr_video.Base.Int.{ℤ, pos, negsuc}
use cvr_video.Base.Text.{codes, starts_with}
use cvr_video.Commands.{
  Command, cmd_prefix, text_from, find_command, resolve_loop, cmd_resolve, cmd_names, cmd_tab,
  named,
}

text_from-length :
    (piece bytes result : List ℕ)
    → text_from piece bytes ≡ some result
    → (0 < length result) × (length result ≤ length bytes)
unfolding text_from
text_from-length piece [] result e = absurd (cc e)
text_from-length piece (c ∷ cs) result e = elim (Bool-cases (c == 0)) [
  | inl z ↦ absurd (ground (arith, e, z))
  | inr z ↦ elim (Bool-cases (starts_with piece (c ∷ cs))) [
    | inl h ↦
        let q : result ≡ c ∷ cs = ground (arith, e, z, h) in
        let q = ap length q in (omega (arith, q), omega (arith, q))
    | inr h ↦
        let (p, q) = text_from-length piece cs result (ground (arith, e, z, h)) in
        (p, omega (arith, q))
  ]
]

length-drop : (n : ℕ) (xs : List ℕ) → length (drop n xs) ≡ length xs - n
length-drop zero xs = omega arith
length-drop (suc n) [] = omega arith
length-drop (suc n) (x ∷ xs) = length-drop n xs ∙ omega arith

-- A command with a name, whose handler writes in place.
pub record IsHandled {ℓ} {S : Type ℓ} (c : Command S) : Type ℓ where
  pub has_name : 0 < length c.cmd
  pub in_place : (bytes : List ℕ) (s : S) → length (c.func bytes s).0 ≡ length bytes

pub data AreHandled {ℓ} {S : Type ℓ} : List (Command S) → Type ℓ where
  no_command : AreHandled []
  one_more :
      {c : Command S} {table : List (Command S)}
      → IsHandled c
      → AreHandled table
      → AreHandled (c ∷ table)

-- No name is empty.
abbrev has_names : List (List ℕ) → Bool
has_names [] = true
has_names ([] ∷ names) = false
has_names ((b ∷ bytes) ∷ names) = has_names names

module _ {ℓ} {S : Type ℓ} where
  find_command-IsHandled :
      (left : List (Command S)) (result : List ℕ) (c : Command S)
      → AreHandled left
      → find_command left result ≡ some c
      → IsHandled c
  unfolding find_command
  find_command-IsHandled [] result c hs e = absurd (cc e)
  find_command-IsHandled (d ∷ left) result c (one_more h hs) e =
      elim (Bool-cases (starts_with d.cmd result)) [
        | inl t ↦ let q : d ≡ c = ground (arith, e, t) in rw (sym q) h
        | inr t ↦ find_command-IsHandled left result c hs (ground (arith, e, t))
      ]

  drop-AreHandled :
      (n : ℕ) (table : List (Command S)) → AreHandled table → AreHandled (drop n table)
  drop-AreHandled zero table hs = hs
  drop-AreHandled (suc n) [] hs = hs
  drop-AreHandled (suc n) (c ∷ table) (one_more h hs) = drop-AreHandled n table hs

  abbrev pub Answers : Option (ℤ × S) → Type ℓ
  Answers o = (r : ℤ) × (s : S) × (o ≡ some (r, s)) × ((r ≡ pos 0) ⊎ (r ≡ negsuc 0))

  -- One round, by what is found.
  module _ (n : ℕ) (table left : List (Command S)) (cmdstr : List ℕ) (s : S) where
    no_prefix :
        text_from cmd_prefix cmdstr ≡ none
        → resolve_loop (suc n) table left cmdstr s ≡ some (negsuc 0, s)
    unfolding resolve_loop
    no_prefix e = ground (arith, e)

    not_found :
        {result : List ℕ}
        → text_from cmd_prefix cmdstr ≡ some result
        → find_command left result ≡ none
        → resolve_loop (suc n) table left cmdstr s ≡ some (negsuc 0, s)
    unfolding resolve_loop
    not_found e f = ground (arith, e, f)

    last :
        {result : List ℕ} (c : Command S)
        → text_from cmd_prefix cmdstr ≡ some result
        → find_command left result ≡ some c
        → text_from cmd_prefix (drop (length c.cmd) (c.func result s).0) ≡ none
        → resolve_loop (suc n) table left cmdstr s ≡ some (pos 0, (c.func result s).1)
    unfolding resolve_loop
    last c e f g = ground (arith, e, f, g)

    continued :
        {result more : List ℕ} (c : Command S)
        → text_from cmd_prefix cmdstr ≡ some result
        → find_command left result ≡ some c
        → text_from cmd_prefix (drop (length c.cmd) (c.func result s).0) ≡ some more
        → resolve_loop (suc n) table left cmdstr s
          ≡ resolve_loop n table
              (drop 1 table)
              (drop (length c.cmd) (c.func result s).0)
              (c.func result s).1
    unfolding resolve_loop
    continued c e f g = ground (arith, e, f, g)

  resolve_loop-Answers :
      (n : ℕ) (table left : List (Command S)) (cmdstr : List ℕ) (s : S)
      → AreHandled table
      → AreHandled left
      → length cmdstr < n
      → Answers (resolve_loop n table left cmdstr s)
  resolve_loop-Answers zero table left cmdstr s ht hl h = absurd (omega arith)
  resolve_loop-Answers (suc n) table left cmdstr s ht hl h =
      elim (Option-cases (text_from cmd_prefix cmdstr)) [
        | inl e ↦ (negsuc 0, s, no_prefix n table left cmdstr s e, inr refl)
        | inr (result, e) ↦ elim (Option-cases (find_command left result)) [
          | inl f ↦ (negsuc 0, s, not_found n table left cmdstr s e f, inr refl)
          | inr (c, f) ↦
              let next = drop (length c.cmd) (c.func result s).0 in
              elim (Option-cases (text_from cmd_prefix next)) [
                | inl g ↦ (pos 0, (c.func result s).1, last n table left cmdstr s c e f g, inl refl)
                | inr (_, g) ↦
                    let hc = find_command-IsHandled left result c hl f in
                    let (p, q) = text_from-length cmd_prefix cmdstr result e in
                    let (r, s', eq, o) =
                      resolve_loop-Answers n table (drop 1 table) next (c.func result s).1 ht
                        (drop-AreHandled 1 table ht)
                        (omega (
                          arith,
                          p,
                          q,
                          hc.has_name,
                          hc.in_place result s,
                          length-drop (length c.cmd) (c.func result s).0,
                        )) in
                    (r, s', continued n table left cmdstr s c e f g ∙ eq, o)
              ]
        ]
      ]

  named-AreHandled :
      (run : ℕ → List ℕ → S → List ℕ × S)
      → ((i : ℕ) (bytes : List ℕ) (s : S) → length (run i bytes s).0 ≡ length bytes)
      → (n : ℕ) (names : List (List ℕ)) → has_names names ≡ true
      → AreHandled (named run n names)
  named-AreHandled run h n [] e = no_command
  named-AreHandled run h n ([] ∷ names) e = absurd (cc e)
  named-AreHandled run h n ((b ∷ bytes) ∷ names) e =
      one_more (record { has_name = omega arith; in_place = h n })
        (named-AreHandled run h (suc n) names e)

  -- For handlers that write in place, whatever the bytes, cmd_resolve comes to an end, with 0 or -1.
  pub cmd_resolve-Answers :
      (run : ℕ → List ℕ → S → List ℕ × S)
      → ((i : ℕ) (bytes : List ℕ) (s : S) → length (run i bytes s).0 ≡ length bytes)
      → (cmdstr : List ℕ) (s : S) → Answers (cmd_resolve (cmd_tab run) cmdstr s)
  unfolding cmd_resolve
  cmd_resolve-Answers run h cmdstr s =
      let hs : AreHandled (cmd_tab run) = named-AreHandled run h 0 cmd_names refl in
      resolve_loop-Answers (suc (length cmdstr)) (cmd_tab run) (cmd_tab run) cmdstr s hs hs
        (omega arith)

  -- CMD_GETWIFI, the first name of the table, is no other command's beginning.
  getwifi_missed :
      (run : ℕ → List ℕ → S → List ℕ × S) (text : List ℕ)
      → find_command (drop 1 (cmd_tab run)) (codes "CMD_GETWIFI" ++ text) ≡ none
  unfolding find_command starts_with
  getwifi_missed run text = refl

  -- When a command of the table is found, and CMD_GETWIFI is the next command in what its handler
  -- leaves, cmd_resolve does not handle that one: it stops with -1 in the state that the handler of the
  -- command leaves, whatever follows.
  pub cmd_resolve_misses :
      (run : ℕ → List ℕ → S → List ℕ × S) (cmdstr result text : List ℕ) (s : S) (c : Command S)
      → text_from cmd_prefix cmdstr ≡ some result
      → find_command (cmd_tab run) result ≡ some c
      → text_from cmd_prefix (drop (length c.cmd) (c.func result s).0)
        ≡ some (codes "CMD_GETWIFI" ++ text)
      → cmd_resolve (cmd_tab run) cmdstr s ≡ some (negsuc 0, (c.func result s).1)
  unfolding cmd_resolve text_from
  cmd_resolve_misses run (b ∷ bytes) result text s c e f g =
      continued (suc (length bytes)) (cmd_tab run) (cmd_tab run) (b ∷ bytes) s c e f g
      ∙ not_found (length bytes) (cmd_tab run) (drop 1 (cmd_tab run)) _ _ g
          (getwifi_missed run text)
  cmd_resolve_misses run [] result text s c e f g = absurd (cc e)
