-- ===== src/Gps/Files.antt =====
-- gps/gps_ctrl.cpp, gps_write_thread: the lines of the receiver go to files of as many rounds as a
-- recording has seconds.
use cvr_video.Base.{
  ℕ, suc, ◌+◌, ◌*◌, ◌<◌, ◌≡◌, List, [], ◌∷◌, Bool, true, false, if◌then◌else◌, All, length,
  Bool-cases, inl, inr, arith, ◌⊎◌, ◌==◌,
}
use cvr_video.Base.Int.{ℤ, pos, negsuc, ltb_ℤ, eq_ℤ}
use cvr_video.Gps.{
  Action, file_opened, file_written, file_closed, device_opened, device_closed, tty_opened,
  tty_closed, Receiver, write_end_flag,
}

-- gps_open_file with the descriptor that opening gives and the text of the start flag.
unfoldable pub gps_open_file : ℤ → List ℕ → Receiver → ℤ × Receiver
gps_open_file fd flag g = if ltb_ℤ fd (pos 0) then (negsuc 0, record g { file_fd = fd }) else (
  pos 0,
  record g { file_fd = fd; actions = file_written fd flag ∷ file_opened fd ∷ g.actions },
)

-- From the label `open_file` on: an error stops the thread.
unfoldable pub next_file : ℤ → List ℕ → Receiver → Receiver
next_file fd flag g =
    let r = gps_open_file fd flag g in
    if ltb_ℤ r.0 (pos 0) then record r.1 { gwrite_done = false } else r.1

-- What a round of the loop sees: whether a second has passed since the last write, the time of a
-- recording, the flags with their times, and the descriptor of a new file.
pub record Round : Type 0 where
  pub second_passed : Bool
  pub recodetime : ℤ
  pub end_flag : List ℕ
  pub start_flag : List ℕ
  pub fd : ℤ

unfoldable pub write_lines : Receiver → Receiver
write_lines g = record g {
  actions = file_written g.file_fd g.gga_data ∷ file_written g.file_fd g.rmc_data ∷ g.actions;
}

unfoldable pub close_file : Receiver → Receiver
close_file g = record g { file_fd = negsuc 0; actions = file_closed g.file_fd ∷ g.actions }

-- One round, with write_count.
unfoldable pub write_round : Round → ℕ × Receiver → ℕ × Receiver
write_round t (n, g) =
    if t.second_passed
    then (if eq_ℤ (pos (n + 1)) t.recodetime
        then (
          0,
          next_file t.fd t.start_flag (close_file (write_end_flag t.end_flag (write_lines g))),
        )
        else (n + 1, write_lines g))
    else (n, g)

-- The loop, over the rounds that it could make.
unfoldable pub write_loop : List Round → ℕ × Receiver → ℕ × Receiver
write_loop [] s = s
write_loop (t ∷ rounds) s = elim s.1.gwrite_done [
  | true ↦ write_loop rounds (write_round t s)
  | false ↦ s
]

-- The thread from its start.
unfoldable pub gps_write_thread : ℤ → List ℕ → List Round → Receiver → ℕ × Receiver
gps_write_thread fd flag rounds g = write_loop rounds (0, next_file fd flag g)

-- How often a file was closed.
abbrev pub closed : List Action → ℕ
closed [] = 0
closed (file_closed fd ∷ actions) = suc (closed actions)
closed (file_opened fd ∷ actions) = closed actions
closed (file_written fd text ∷ actions) = closed actions
closed (device_opened n ∷ actions) = closed actions
closed (device_closed n ∷ actions) = closed actions
closed (tty_opened n ∷ actions) = closed actions
closed (tty_closed fd ∷ actions) = closed actions

-- A second has passed, the time of a recording is `k`, and a new file opens.
pub record IsWriting (k : ℕ) (t : Round) : Type 0 where
  pub passed : t.second_passed ≡ true
  pub time : t.recodetime ≡ pos k
  pub opens : ltb_ℤ t.fd (pos 0) ≡ false

-- The invariant after `m` rounds that write: the files that are full, and the rounds in the last one.
pub record Fills (k m : ℕ) (n : ℕ) (g : Receiver) : Type 0 where
  pub going : g.gwrite_done ≡ true
  pub is_open : ltb_ℤ g.file_fd (pos 0) ≡ false
  pub below : n < k
  pub total : closed g.actions * k + n ≡ m

next_file-opened :
    (fd : ℤ) (flag : List ℕ) (g : Receiver)
    → ltb_ℤ fd (pos 0) ≡ false
    → next_file fd flag g
      ≡ record g { file_fd = fd; actions = file_written fd flag ∷ file_opened fd ∷ g.actions }
unfolding next_file gps_open_file
next_file-opened fd flag g e = ground (arith, e)

full_round :
    (k : ℕ) (t : Round) (n : ℕ) (g : Receiver)
    → IsWriting k t
    → n + 1 ≡ k
    → write_round t (n, g)
      ≡ (0, next_file t.fd t.start_flag (close_file (write_end_flag t.end_flag (write_lines g))))
unfolding write_round
full_round k t n g w e = rw (w.passed) (ground (arith, w.time, e))

part_round :
    (k : ℕ) (t : Round) (n : ℕ) (g : Receiver)
    → IsWriting k t
    → n + 1 < k
    → write_round t (n, g) ≡ (n + 1, write_lines g)
unfolding write_round
part_round k t n g w e = rw (w.passed) (ground (arith, w.time, e))

full_or_part : (n k : ℕ) → n < k → (n + 1 ≡ k) ⊎ (n + 1 < k)
full_or_part n k h = elim (Bool-cases (n + 1 == k)) [
  | inl e ↦ inl (ground (arith, e))
  | inr e ↦ inr (ground (arith, e))
]

one_more_file : (c k n m : ℕ) → n + 1 ≡ k → c * k + n ≡ m → suc c * k + 0 ≡ suc m
one_more_file c k n m e h = grind arith

-- The two ways on from a file.
new_file :
    (k m : ℕ) (t : Round) (n : ℕ) (g : Receiver)
    → IsWriting k t
    → Fills k m n g
    → n + 1 ≡ k
    → Fills k
        (suc m)
        0
        (next_file t.fd t.start_flag (close_file (write_end_flag t.end_flag (write_lines g))))
unfolding close_file write_end_flag write_lines
new_file k m t n g w f e =
    let full = close_file (write_end_flag t.end_flag (write_lines g)) in
    rw (next_file-opened t.fd t.start_flag full w.opens) (record {
      going = f.going;
      is_open = w.opens;
      below = omega (arith, e);
      total = one_more_file (closed g.actions) k n m e f.total;
    })

same_file :
    (k m n : ℕ) (g : Receiver) → Fills k m n g → n + 1 < k → Fills k (suc m) (n + 1) (write_lines g)
unfolding write_lines
same_file k m n g f e = record {
  going = f.going;
  is_open = f.is_open;
  below = e;
  total = let h = f.total in omega (arith, h);
}

write_round-Fills :
    (k m : ℕ) (t : Round) (n : ℕ) (g : Receiver)
    → IsWriting k t
    → Fills k m n g
    → Fills k (suc m) (write_round t (n, g)).0 (write_round t (n, g)).1
write_round-Fills k m t n g w f = elim (full_or_part n k f.below) [
  | inl e ↦ rw (full_round k t n g w e) (new_file k m t n g w f e)
  | inr e ↦ rw (part_round k t n g w e) (same_file k m n g f e)
]

loop_going :
    (t : Round) (rounds : List Round) (n : ℕ) (g : Receiver)
    → g.gwrite_done ≡ true
    → write_loop (t ∷ rounds) (n, g) ≡ write_loop rounds (write_round t (n, g))
unfolding write_loop
loop_going t rounds n g e = ground (arith, e)

write_loop-Fills :
    (k m : ℕ) (rounds : List Round) (n : ℕ) (g : Receiver)
    → All (IsWriting k) rounds
    → Fills k m n g
    → Fills k (m + length rounds) (write_loop rounds (n, g)).0 (write_loop rounds (n, g)).1
unfolding write_loop
write_loop-Fills k m [] n g w f = record {
  going = f.going;
  is_open = f.is_open;
  below = f.below;
  total = let h = f.total in omega (arith, h);
}
write_loop-Fills k m (t ∷ rounds) n g (w, ws) f =
    let (n', g') = write_round t (n, g) in
    let more = write_loop-Fills k (suc m) rounds n' g' ws (write_round-Fills k m t n g w f) in
    rw (loop_going t rounds n g f.going) (
      let h = more.total in
      record {
        going = more.going;
        is_open = more.is_open;
        below = more.below;
        total = omega (arith, h);
      })

-- As long as every round writes, with one time of a recording above 0, and every new file opens, the
-- thread goes on, has a file open, and has closed a file after as many rounds as the time says: the
-- closed files times the rounds of a file, and the rounds in the open file, which are fewer, make up
-- the rounds so far.
pub gps_write_thread-Fills :
    (k : ℕ) (fd : ℤ) (flag : List ℕ) (rounds : List Round) (g : Receiver)
    → 0 < k
    → ltb_ℤ fd (pos 0) ≡ false
    → g.gwrite_done ≡ true
    → closed g.actions ≡ 0
    → All (IsWriting k) rounds
    → Fills k
        (length rounds)
        (gps_write_thread fd flag rounds g).0
        (gps_write_thread fd flag rounds g).1
unfolding gps_write_thread
gps_write_thread-Fills k fd flag rounds g h o d c w =
    let start : Fills k 0 0 (next_file fd flag g) =
      rw (next_file-opened fd flag g o)
        (record { going = d; is_open = o; below = h; total = rw c (omega arith) }) in
    let end = write_loop-Fills k 0 rounds 0 (next_file fd flag g) w start in
    let e = end.total in
    record { going = end.going; is_open = end.is_open; below = end.below; total = omega (arith, e) }
