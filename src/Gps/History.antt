-- ===== src/Gps/History.antt =====
-- gps/gps_ctrl.cpp: any history of the calls of the modules that share the receiver.
use cvr_video.Base.{ℕ, suc, ◌≡◌, ◌≢◌, List, Bool, true, inl, inr, arith}
use cvr_video.Base.Int.{pos, negsuc, ◌+ℤ◌, ◌-ℤ◌}
use cvr_video.Gps.{Receiver, Answers, gps_write_init, gps_write_deinit, gps_init, gps_deinit}
use cvr_video.Gps.Users.{
  IsAtRest, HasUsers, gps_init-HasUsers, gps_deinit-HasUsers, gps_write_init-HasUsers,
  gps_write_deinit-HasUsers,
}

-- A history of the calls of the modules, with the number of those that called gps_init with success
-- and did not call gps_deinit since. The requests to close the device succeed.
pub data Reach : ℕ → Receiver → Type 0 where
  start : (g : Receiver) → IsAtRest g → g.gmodule_count ≡ pos 0 → Reach 0 g
  joins :
      {n : ℕ} {g : Receiver} (a : Answers) (c : ℕ)
      → Reach n g
      → a.close_accepted ≡ true
      → (gps_init a c g).0 ≢ negsuc 0
      → Reach (suc n) (gps_init a c g).1
  fails :
      {n : ℕ} {g : Receiver} (a : Answers) (c : ℕ)
      → Reach n g
      → a.close_accepted ≡ true
      → (gps_init a c g).0 ≡ negsuc 0
      → Reach n (gps_init a c g).1
  leaves :
      {n : ℕ} {g : Receiver} (a : Answers) (flag : List ℕ)
      → Reach (suc n) g
      → a.close_accepted ≡ true
      → Reach n (gps_deinit a flag g).1
  writes :
      {n : ℕ} {g : Receiver} (created : Bool) → Reach n g → Reach n (gps_write_init created g).1
  stops : {n : ℕ} {g : Receiver} (flag : List ℕ) → Reach n g → Reach n (gps_write_deinit flag g)

-- After any history in which no more gps_deinit than successful gps_init are called at any time, and in
-- which the system accepts the requests to close the device, gmodule_count is the number of modules
-- that use the receiver. With one or more, the reading thread runs, and the device and the port are
-- open, once each, under the descriptors of the module; with none, every descriptor of them that was
-- opened is closed, the thread has ended and there is no callback.
pub Reach-HasUsers : {n : ℕ} {g : Receiver} → Reach n g → HasUsers n g
Reach-HasUsers (start g v e) = (v, e)
Reach-HasUsers (joins {n} {g} a c r acc ne) =
    elim (gps_init-HasUsers n a c g (Reach-HasUsers r) acc) [
      | inl (e, v) ↦ v
      | inr (e, v) ↦ absurd (ne e)
    ]
Reach-HasUsers (fails {n} {g} a c r acc e) =
    elim (gps_init-HasUsers n a c g (Reach-HasUsers r) acc) [
      | inl (e', v) ↦ absurd (ground (arith, e, e'))
      | inr (e', v) ↦ v
    ]
Reach-HasUsers (leaves {n} {g} a flag r acc) =
    (gps_deinit-HasUsers n a flag g (Reach-HasUsers r) acc).1
Reach-HasUsers (writes {n} {g} created r) = gps_write_init-HasUsers n created g (Reach-HasUsers r)
Reach-HasUsers (stops {n} {g} flag r) = gps_write_deinit-HasUsers n flag g (Reach-HasUsers r)

-- A gps_deinit with no user makes the count -1; the next gps_init answers 0, and opens nothing and
-- starts no thread, whatever the system would answer.
pub gps_init_after_extra :
    (a b : Answers) (flag : List ℕ) (c : ℕ) (g : Receiver)
    → HasUsers 0 g
    → ((gps_deinit a flag g).0 ≡ negsuc 0)
      × ((gps_init b c (gps_deinit a flag g).1).0 ≡ pos 0)
      × IsAtRest (gps_init b c (gps_deinit a flag g).1).1
unfolding gps_deinit gps_init ◌+ℤ◌ ◌-ℤ◌
gps_init_after_extra a b flag c g (v, e) = (ground (arith, e), ground (arith, e), ground (arith, e))
