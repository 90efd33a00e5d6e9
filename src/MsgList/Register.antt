-- ===== src/MsgList/Register.antt =====
-- msg_list_manager.c: init_list makes an empty list, and reg_entry appends to it.
use cvr_video.Base.{
  ℕ, zero, suc, ◌<◌, ◌≡◌, ◌≢◌, refl, List, [], ◌∷◌, ◌++◌, true, false, ◌==◌, ◌||◌, Option, none,
  some, All, length, arith,
}
use cvr_video.MsgList.{
  Node, Heap, Memory, write, empty_node, init_list, last_from, append_list, reg_entry,
}
use cvr_video.MsgList.Chain.{Cell, IsChain, IsMsgList, IsChain-agree, IsChain-free}

-- The empty list is there, if there is memory for its first node.
pub init_list-IsMsgList :
    (a : ℕ) (s : Memory) → a ≢ 0 → ((init_list a s).0 ≡ a) × IsMsgList (init_list a s).1 a []
unfolding init_list
init_list-IsMsgList a s n = (
  ground (arith, n),
  record { first = ground (arith, n); chain = (n, ground (arith, n), tt, tt) },
)

abbrev last_of : Cell → List Cell → Cell
last_of c [] = c
last_of c (b ∷ cells) = last_of b cells

last_from-last_of :
    (fuel : ℕ) (h : Heap) (c : Cell) (cells : List Cell)
    → IsChain h (c ∷ cells)
    → length cells < fuel
    → last_from fuel c.0 h ≡ some (last_of c cells).0
unfolding last_from
last_from-last_of zero h c cells v lt = absurd (omega arith)
last_from-last_of (suc fuel) h (a, cb) [] (n, at_a, fresh, rest) lt = rw at_a refl
last_from-last_of (suc fuel) h (a, cb) (c ∷ cells) (n, at_a, fresh, rest) lt =
    rw at_a (ground (arith, rest, last_from-last_of fuel h c cells rest (omega arith)))

-- The heap after an append of the node `a`.
abbrev linked : ℕ → Option ℕ → Cell → List Cell → Heap → Heap
linked a cb c cells h =
    write (last_of c cells).0 (record { callback = (last_of c cells).1; next = a })
      (write a (record { callback = cb; next = 0 }) h)

write_other :
    (h : Heap) (a : ℕ) (n : Node) (cells : List Cell)
    → All (λ (c : Cell). c.0 ≢ a) cells
    → All (λ (c : Cell). write a n h c.0 ≡ h c.0) cells
write_other h a n [] e = tt
write_other h a n ((b, cb) ∷ cells) (e, es) = (ground (arith, e), write_other h a n cells es)

last_of-at :
    (h : Heap) (c : Cell) (cells : List Cell)
    → IsChain h (c ∷ cells)
    → h (last_of c cells).0 ≡ some (record { callback = (last_of c cells).1; next = 0 })
last_of-at h (a, cb) [] (n, at_a, fresh, rest) = at_a
last_of-at h (a, cb) (c ∷ cells) (n, at_a, fresh, rest) = last_of-at h c cells rest

last_of-ne :
    (a : ℕ) (c : Cell) (cells : List Cell)
    → All (λ (b : Cell). b.0 ≢ a) (c ∷ cells)
    → (last_of c cells).0 ≢ a
last_of-ne a c [] (e, es) = e
last_of-ne a c (b ∷ cells) (e, es) = last_of-ne a b cells es

All-append_one :
    (P : Cell → Type 0) (cells : List Cell) (c : Cell) → All P cells → P c → All P (cells ++ c ∷ [])
All-append_one P [] c v p = (p, tt)
All-append_one P (b ∷ cells) c (v, vs) p = (v, All-append_one P cells c vs p)

linked-IsChain :
    (h : Heap) (a : ℕ) (cb : Option ℕ) (c : Cell) (cells : List Cell)
    → a ≢ 0
    → h a ≡ none
    → IsChain h (c ∷ cells)
    → IsChain (linked a cb c cells h) ((c ∷ cells) ++ (a, cb) ∷ [])
linked-IsChain h a cb (b, f) [] na ha (nb, at_b, fresh, rest) =
    let apart : a ≢ b = λ e. ground (arith, e, ha, at_b) in
    (nb, ground (arith, apart), (apart, tt), (na, ground (arith, apart), tt, tt))
linked-IsChain h a cb (b, f) (c ∷ cells) na ha (nb, at_b, fresh, rest) =
    let apart : a ≢ b = λ e. ground (arith, e, ha, at_b) in
    let behind = last_of-ne b c cells fresh in
    (
      nb,
      ground (arith, apart, behind, at_b),
      All-append_one (λ e. e.0 ≢ b) (c ∷ cells) (a, cb) fresh apart,
      linked-IsChain h a cb c cells na ha rest,
    )

neither_null : (l a : ℕ) → l ≢ 0 → a ≢ 0 → (l == 0 || a == 0) ≡ false
neither_null l a nl na = ground (arith, nl, na)

IsChain-ne : (h : Heap) (c : Cell) (cells : List Cell) → IsChain h (c ∷ cells) → c.0 ≢ 0
IsChain-ne h (a, cb) cells v = v.0

written_at :
    (h : Heap) (a : ℕ) (n : Node) (b : ℕ) {m : Node} → b ≢ a → h b ≡ some m → write a n h b ≡ some m
written_at h a n b ne e = ground (arith, ne, e)

append_list-linked :
    (fuel : ℕ) (h : Heap) (a : ℕ) (cb : Option ℕ) (c : Cell) (cells : List Cell)
    → a ≢ 0
    → h a ≡ none
    → IsChain h (c ∷ cells)
    → length cells < fuel
    → append_list fuel c.0 cb a h ≡ some (a, linked a cb c cells h)
unfolding append_list
append_list-linked fuel h a cb c cells na ha v lt =
    let others = IsChain-free h (c ∷ cells) a ha v in
    let seen =
      last_from-last_of fuel (write a empty_node h) c cells
        (IsChain-agree (write a empty_node h) h (c ∷ cells)
          (write_other h a empty_node (c ∷ cells) others) v)
        lt in
    let at_last =
      written_at h a (record { callback = cb; next = 0 }) (last_of c cells).0
        (last_of-ne a c cells others) (last_of-at h c cells v) in
    rw (neither_null c.0 a (IsChain-ne h c cells v) na, seen, at_last) refl

-- With memory for a node a registration returns it, and the callback stands at the end of the list.
pub reg_entry-IsMsgList :
    (fuel : ℕ) (cb : Option ℕ) (a : ℕ) (s : Memory) (d : ℕ) (cells : List Cell)
    → IsMsgList s d cells
    → a ≢ 0
    → s.heap a ≡ none
    → length cells < fuel
    → (s' : Memory) × (reg_entry fuel cb a s ≡ some (a, s'))
      × IsMsgList s' d (cells ++ (a, cb) ∷ [])
unfolding reg_entry
reg_entry-IsMsgList fuel cb a s d cells v na ha lt = (
  record s { heap = linked a cb (d, none) cells s.heap },
  rw v.first (rw (append_list-linked fuel s.heap a cb (d, none) cells na ha v.chain lt)),
  record { first = v.first; chain = linked-IsChain s.heap a cb (d, none) cells na ha v.chain },
)

-- Without memory, and without a list, nothing changes and NULL is returned.
pub reg_entry_refused :
    (fuel : ℕ) (cb : Option ℕ) (a : ℕ) (s : Memory)
    → (s.list_head == 0 || a == 0) ≡ true
    → reg_entry fuel cb a s ≡ some (0, s)
unfolding reg_entry append_list
reg_entry_refused fuel cb a s e = ground arith
